-- ===== src/Governance/Policy/Overrides.antt =====
-- Which of two rules wins: restricted data over any approval, and the public tier over the
-- approval that an agent's network access asks for.
use ogra.Prelude.{◌≡◌, ◌⊎◌, true, false, none, some, [], ◌∷◌, is_some, arith}
use ogra.Governance.Classification.{public, restricted}
use ogra.Governance.Policy.Types.{
  Decision, allow, local_only, RouteName, AgentPermissions, PolicyInput, Approval, Evaluation,
}
use ogra.Governance.Policy.Flow.{Flow, returned, next, ◌>>=◌, result, is_local, wants_cloud}
use ogra.Governance.Policy.Registry.{default_policies}
use ogra.Governance.Policy.Gates.{
  effective_classification, apply_high_water, check_injection, check_manifest,
  check_cloud_permission, check_allowed_tools, check_network, check_permissions, require_allowed,
}
use ogra.Governance.Policy.Evaluate.{restricted_tier, public_tier, classify, finish, evaluate}
use ogra.Governance.Policy.Outcome.{Opens, gates-Opens}

-- What becomes of restricted data.
abbrev pub StaysLocal : PolicyInput → Evaluation → Type 0
StaysLocal i e =
    ((e.decision ≡ Decision.blocked) × (e.route ≡ RouteName.blocked))
    ⊎ ((wants_cloud i ≡ false) × (e.decision ≡ local_only) × (e.route ≡ RouteName.local))

after_gates-StaysLocal :
    (i : PolicyInput) (m : Flow)
    → Opens m
    → StaysLocal i (result (m >>= restricted_tier default_policies i >>= finish))
unfolding restricted_tier default_policies finish
after_gates-StaysLocal i (returned e) h = ground arith
after_gates-StaysLocal i (next e) h = ground arith

-- Restricted data with a cloud request is blocked, whatever was approved; without one it is kept
-- to the local models, or blocked by an earlier gate.
pub restricted-StaysLocal :
    (i : PolicyInput)
    → effective_classification i ≡ some restricted
    → StaysLocal i (evaluate default_policies i)
unfolding evaluate classify
restricted-StaysLocal i c = rw (c, classify) (after_gates-StaysLocal i _ (gates-Opens i))

-- A cloud run on public data by an agent with network access, which the user has not approved and
-- nothing else holds up.
pub record IsUnapprovedNetworkRun (i : PolicyInput) (p : AgentPermissions) : Type 0 where
  pub base : i.data_classification ≡ some public
  pub no_knowledge_base : i.knowledge_base_classification ≡ none
  pub wants : wants_cloud i ≡ true
  pub not_local : is_local i.requested_compute ≡ false
  pub provider : is_some i.provider_id ≡ true
  pub retention : i.provider_data_retention_policy ≡ none
  pub training : i.provider_training_opt_out ≡ none
  pub agent : i.agent_permissions ≡ some p
  pub may_cloud : p.can_use_cloud ≡ true
  pub network : p.can_access_network ≡ true
  pub no_tools : i.requested_tools ≡ []
  pub clean : i.has_prompt_injection_warning ≡ false
  pub unapproved : i.has_user_approval ≡ false

-- For a run on public data, without a knowledge base, that wants the cloud and names a provider
-- with no terms on retention or training, by an agent that may use the cloud and the network, with
-- no tools, no injection warning and no approval of the user: the network gate asks for the
-- missing approval, and the public tier then allows the run to the cloud all the same.
pub network_approval_overridden :
    (i : PolicyInput) (p : AgentPermissions)
    → IsUnapprovedNetworkRun i p
    → let e = evaluate default_policies i in
      (e.decision ≡ allow)
      × (e.route ≡ RouteName.cloud)
      × (e.required_approvals ≡ Approval.allow_agent_network ∷ [])
unfolding evaluate apply_high_water check_injection check_manifest check_permissions
    check_cloud_permission check_allowed_tools check_network require_allowed classify
    effective_classification public_tier default_policies finish
network_approval_overridden i p h = ground arith
