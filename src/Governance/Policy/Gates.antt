-- ===== src/Governance/Policy/Gates.antt =====
-- The sections of `PolicyService.evaluate` before the classification tiers, in the order of the
-- code: the high-water mark, prompt injection, the agent's manifest, the agent's permissions.
use ogra.Prelude.{
  String, Bool, not, ◌&&◌, Option, none, some, List, [], ◌∷◌, includes, is_empty, is_some,
  or_option, if◌then◌else◌,
}
use ogra.Governance.Classification.{Classification, ℤ, negsuc, gtb_ℤ, level}
use ogra.Governance.Policy.Types.{
  require_approval, AgentPermissions, ToolsValue, falsy, array, not_array, Manifest, malformed,
  parsed, PolicyInput, MatchedRule, Reason, Approval, Evaluation,
}
use ogra.Governance.Policy.Flow.{
  Flow, next, ◌>>=◌, match_rule, give_reason, require, note, block, is_local, wants_cloud,
}

-- `classificationOrder[c] ?? -1`, of a classification that may be undefined
abbrev level_of : Option Classification → ℤ
level_of none = negsuc 0
level_of (some c) = level c

abbrev pub elevates : PolicyInput → Classification → Bool
elevates i kb =
    gtb_ℤ (level kb) (level_of (or_option i.data_classification i.workspace_default_classification))

raise_to : Option Classification → Bool → Option Classification → Option Classification
raise_to base elevated kb = if elevated then kb else base

-- `effectiveClassification` at the end of the section that computes it.
unfoldable pub effective_classification : PolicyInput → Option Classification
unfolding raise_to
effective_classification i = elim i.knowledge_base_classification [
  | none ↦ or_option i.data_classification i.workspace_default_classification
  | some kb ↦
      raise_to (or_option i.data_classification i.workspace_default_classification) (elevates i kb)
        (some kb)
]

-- What that section pushes.
unfoldable pub apply_high_water : PolicyInput → Evaluation → Flow
apply_high_water i e = elim i.knowledge_base_classification [
  | none ↦ next e
  | some kb ↦ next (
      if elevates i kb
      then note (MatchedRule.kb_high_water_mark kb)
          (Reason.using_knowledge_base kb i.data_classification) e
      else e)
]

unfoldable pub check_injection : PolicyInput → Evaluation → Flow
check_injection i e =
    if i.has_prompt_injection_warning
    then if wants_cloud i
      then block MatchedRule.prompt_injection_detected Reason.prompt_injection_local e
      else next (note MatchedRule.prompt_injection_detected Reason.prompt_injection_local e)
    else next e

-- `capabilities?.tools || tools || []`
abbrev pub manifest_tools : ToolsValue → ToolsValue → ToolsValue
manifest_tools falsy falsy = array []
manifest_tools falsy v = v
manifest_tools (array xs) v = array xs
manifest_tools not_array v = not_array

-- The loop over the requested tools, against the manifest's.
unfoldable pub require_declared : List String → List String → Evaluation → Flow
require_declared declared [] e = next e
require_declared declared (tool ∷ tools) e =
    if includes declared tool
    then require_declared declared tools e
    else block (MatchedRule.agent_manifest_tool_blocked tool) (Reason.manifest_lacks_tool tool) e

unfoldable pub check_declared : ToolsValue → List String → Evaluation → Flow
check_declared (array (t ∷ ts)) requested e = require_declared (t ∷ ts) requested e
check_declared _ requested e = block MatchedRule.agent_manifest_empty Reason.manifest_empty e

unfoldable pub check_manifest_json : Manifest → List String → Evaluation → Flow
check_manifest_json malformed requested e =
    block MatchedRule.agent_manifest_invalid Reason.manifest_not_json e
check_manifest_json (parsed caps tools) requested e =
    check_declared (manifest_tools caps tools) requested e

unfoldable pub check_manifest : PolicyInput → Evaluation → Flow
check_manifest i e = if is_empty i.requested_tools then next e else elim i.agent_manifest [
  | none ↦ block MatchedRule.agent_manifest_missing Reason.manifest_missing e
  | some m ↦
      if is_some i.agent_permissions
      then check_manifest_json m i.requested_tools e
      else block MatchedRule.agent_manifest_missing Reason.manifest_missing e
]

-- The loop over the requested tools, against the agent's allowlist.
unfoldable pub require_allowed : List String → List String → Evaluation → Flow
require_allowed allowed [] e = next e
require_allowed allowed (tool ∷ tools) e =
    if includes allowed tool
    then require_allowed allowed tools e
    else block (MatchedRule.agent_tool_restricted tool) (Reason.agent_without_tool tool) e

unfoldable pub check_cloud_permission : PolicyInput → AgentPermissions → Evaluation → Flow
check_cloud_permission i perms e =
    if not perms.can_use_cloud && wants_cloud i
    then block MatchedRule.agent_no_cloud Reason.agent_without_cloud e
    else next e

unfoldable pub check_allowed_tools : PolicyInput → AgentPermissions → Evaluation → Flow
check_allowed_tools i perms e = elim perms.allowed_tools [
  | none ↦ next e
  | some allowed ↦ require_allowed allowed i.requested_tools e
]

unfoldable pub check_network : PolicyInput → AgentPermissions → Evaluation → Flow
check_network i perms e =
    if perms.can_access_network && not (is_local i.requested_compute)
    then if i.has_user_approval
      then next (
          give_reason Reason.network_approved (
            require Approval.allow_agent_network (match_rule MatchedRule.agent_network_approval e)))
      else next
          (record (give_reason Reason.network_needs_approval (
            require Approval.allow_agent_network
              (match_rule MatchedRule.agent_network_approval e))) { decision = require_approval })
    else next e

unfoldable pub check_permissions : PolicyInput → Evaluation → Flow
check_permissions i e = elim i.agent_permissions [
  | none ↦ next e
  | some perms ↦ check_cloud_permission i perms e >>= λ e'.
      check_allowed_tools i perms e' >>= check_network i perms
]
