-- ===== src/Governance/Policy/Types.antt =====
-- The input and the result of `PolicyService.evaluate`. A message text is a constructor, with the
-- values that the text interpolates; a missing optional field is `none`.
use ogra.Prelude.{String, Bool, Option, List}
use ogra.Governance.Classification.{Classification}

pub data Compute : Type 0 where
  local cloud : Compute

pub data Decision : Type 0 where
  allow require_approval redact local_only blocked : Decision

pub data RouteName : Type 0 where
  local cloud hybrid redact_then_egress blocked : RouteName

pub data RetentionPolicy : Type 0 where
  none_kept zero_retention limited indefinite : RetentionPolicy

pub record AgentPermissions : Type 0 where
  pub can_use_cloud : Bool
  pub can_write_to_disk : Bool
  pub can_access_network : Bool
  pub allowed_tools : Option (List String)

-- A value read from the manifest's JSON: missing or falsy, an array (its texts), or another value.
pub data ToolsValue : Type 0 where
  falsy : ToolsValue
  array : List String → ToolsValue
  not_array : ToolsValue

-- What `JSON.parse(agentManifest)` gives: an exception (also that of reading a field of `null`),
-- or an object with `capabilities?.tools` and `tools`.
pub data Manifest : Type 0 where
  malformed : Manifest
  parsed : (capabilities_tools tools : ToolsValue) → Manifest

-- `PolicyEvaluationInput`, without the fields that `evaluate` does not read or only prints (the
-- workspace, the model, the operation and the agent's id). An empty text is a missing one, as the
-- tests of the code have it.
pub record PolicyInput : Type 0 where
  pub data_classification : Option Classification
  pub workspace_default_classification : Option Classification
  pub knowledge_base_classification : Option Classification
  pub provider_id : Option String
  pub provider_is_local : Bool
  pub provider_data_retention_policy : Option RetentionPolicy
  pub provider_training_opt_out : Option Bool
  pub requested_compute : Option Compute
  pub requires_cloud : Bool
  pub has_user_approval : Bool
  pub agent_manifest : Option Manifest
  pub agent_permissions : Option AgentPermissions
  pub requested_tools : List String
  pub has_prompt_injection_warning : Bool

-- `matchedRules.push({ name, reason })`, one constructor for each pair of texts.
pub data MatchedRule : Type 0 where
  kb_high_water_mark : Classification → MatchedRule
  prompt_injection_detected : MatchedRule
  agent_manifest_missing agent_manifest_empty agent_manifest_invalid : MatchedRule
  agent_manifest_tool_blocked : String → MatchedRule
  agent_no_cloud : MatchedRule
  agent_tool_restricted : String → MatchedRule
  agent_network_approval : MatchedRule
  restricted_local_allowlist restricted_cloud_upload : MatchedRule
  confidential_local_only : MatchedRule
  internal_redacted_cloud : MatchedRule
  provider_retention_cloud_restriction : RetentionPolicy → MatchedRule
  provider_training_cloud_restriction : MatchedRule
  public_cloud_allowed : MatchedRule
  provider_retention_indefinite provider_training_public_restriction : MatchedRule

pub data Reason : Type 0 where
  using_knowledge_base : Classification → Option Classification → Reason
  prompt_injection_local : Reason
  manifest_missing manifest_empty manifest_not_json : Reason
  manifest_lacks_tool : String → Reason
  agent_without_cloud : Reason
  agent_without_tool : String → Reason
  network_needs_approval network_approved : Reason
  restricted_must_be_local restricted_cloud_prohibited : Reason
  confidential_depends confidential_local_provider confidential_approved : Reason
  confidential_needs_approval confidential_rerouted : Reason
  internal_cloud_request internal_retention_indefinite : Reason
  internal_retention_approval : RetentionPolicy → Reason
  internal_training_blocked internal_approved internal_needs_approval : Reason
  public_cloud public_retention_approval public_retention_approved : Reason
  public_training_approval public_training_approved : Reason
  default_local_only : Reason

pub data Approval : Type 0 where
  allow_agent_network allow_confidential_redacted_cloud : Approval
  allow_provider_retention_cloud allow_internal_redacted_cloud : Approval
  allow_indefinite_retention_cloud allow_training_cloud : Approval

-- The local variables of `evaluate`, which are also the fields of what it returns.
pub record Evaluation : Type 0 where
  pub matched_rules : List MatchedRule
  pub decision : Decision
  pub reasons : List Reason
  pub required_approvals : List Approval
  pub route : RouteName
