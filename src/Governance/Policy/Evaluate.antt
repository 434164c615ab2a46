-- ===== src/Governance/Policy/Evaluate.antt =====
-- The classification tiers of `PolicyService.evaluate`, and the whole method.
use ogra.Prelude.{Bool, true, false, ◌&&◌, Option, none, some, is_some, if◌then◌else◌}
use ogra.Governance.Classification.{
  Classification, public, internal, confidential, restricted, unrecognized,
}
use ogra.Governance.Policy.Types.{
  Decision, allow, require_approval, local_only, RouteName, hybrid, redact_then_egress,
  RetentionPolicy, none_kept, zero_retention, limited, indefinite, PolicyInput, MatchedRule, Reason,
  Approval, Evaluation,
}
use ogra.Governance.Policy.Flow.{
  Flow, returned, next, ◌>>=◌, result, begin, give_reason, require, decide, note, block,
  wants_cloud,
}
use ogra.Governance.Policy.Registry.{Policies, has_policy}
use ogra.Governance.Policy.Gates.{
  effective_classification, apply_high_water, check_injection, check_manifest, check_permissions,
}

-- `if (classification === Restricted)`
unfoldable pub restricted_tier : Policies → PolicyInput → Evaluation → Flow
restricted_tier policies i e =
    if has_policy "restricted-local-allowlist" policies
    then if wants_cloud i
      then returned (
          decide Decision.blocked RouteName.blocked (
            note MatchedRule.restricted_cloud_upload Reason.restricted_cloud_prohibited
              (note MatchedRule.restricted_local_allowlist Reason.restricted_must_be_local e)))
      else returned (
          decide local_only RouteName.local
            (note MatchedRule.restricted_local_allowlist Reason.restricted_must_be_local e))
    else next e

confidential_cloud : PolicyInput → Evaluation → Evaluation
confidential_cloud i e =
    if i.has_user_approval
    then give_reason Reason.confidential_approved (decide allow redact_then_egress e)
    else give_reason Reason.confidential_needs_approval (
        require Approval.allow_confidential_redacted_cloud
          (decide require_approval RouteName.blocked e))

confidential_route : PolicyInput → Evaluation → Evaluation
unfolding confidential_cloud
confidential_route i e =
    if i.provider_is_local
    then give_reason Reason.confidential_local_provider (decide allow RouteName.local e)
    else if wants_cloud i
    then confidential_cloud i e
    else give_reason Reason.confidential_rerouted (decide local_only RouteName.local e)

-- `if (classification === Confidential)`
unfoldable pub confidential_tier : Policies → PolicyInput → Evaluation → Flow
unfolding confidential_route
confidential_tier policies i e =
    if has_policy "confidential-local-only" policies
    then returned (
        confidential_route i
          (note MatchedRule.confidential_local_only Reason.confidential_depends e))
    else next e

internal_training : PolicyInput → Evaluation → Flow
internal_training i e = elim i.provider_training_opt_out [
  | some false ↦
      block MatchedRule.provider_training_cloud_restriction Reason.internal_training_blocked e
  | some true ↦ returned (give_reason Reason.internal_approved (decide allow hybrid e))
  | none ↦ returned (give_reason Reason.internal_approved (decide allow hybrid e))
]

internal_approved : PolicyInput → Evaluation → Flow
unfolding internal_training
internal_approved i e = elim i.provider_data_retention_policy [
  | none ↦ internal_training i e
  | some none_kept ↦ internal_training i e
  | some zero_retention ↦ internal_training i e
  | some indefinite ↦
      block (MatchedRule.provider_retention_cloud_restriction indefinite)
        Reason.internal_retention_indefinite e
  | some limited ↦ returned (
      decide require_approval RouteName.blocked (
        require Approval.allow_provider_retention_cloud (
          note (MatchedRule.provider_retention_cloud_restriction limited)
            (Reason.internal_retention_approval limited) e)))
]

internal_cloud : PolicyInput → Evaluation → Flow
unfolding internal_approved
internal_cloud i e =
    if i.has_user_approval
    then internal_approved i e
    else returned (
        give_reason Reason.internal_needs_approval (
          require Approval.allow_internal_redacted_cloud
            (decide require_approval RouteName.blocked e)))

-- `if (classification === Internal && …)`
unfoldable pub internal_tier : Policies → PolicyInput → Evaluation → Flow
unfolding internal_cloud
internal_tier policies i e =
    if wants_cloud i && has_policy "internal-redacted-cloud" policies
    then internal_cloud i (note MatchedRule.internal_redacted_cloud Reason.internal_cloud_request e)
    else next e

-- A provider property of public data that asks for one more approval, or goes on if it is given.
unfoldable pub public_extra :
    Bool → Bool → MatchedRule → Reason → Approval → Reason → Evaluation → Flow
public_extra asks approved m r a done e =
    if asks
    then if approved
      then next (give_reason done (require a (note m r e)))
      else returned (decide require_approval RouteName.blocked (require a (note m r e)))
    else next e

abbrev pub is_indefinite : Option RetentionPolicy → Bool
is_indefinite (some indefinite) = true
is_indefinite (some none_kept) = false
is_indefinite (some zero_retention) = false
is_indefinite (some limited) = false
is_indefinite none = false

abbrev pub opted_in : Option Bool → Bool
opted_in (some false) = true
opted_in (some true) = false
opted_in none = false

unfoldable pub public_provider : PolicyInput → Evaluation → Flow
unfolding public_extra
public_provider i e =
    public_extra (is_indefinite i.provider_data_retention_policy) i.has_user_approval
      MatchedRule.provider_retention_indefinite Reason.public_retention_approval
      Approval.allow_indefinite_retention_cloud Reason.public_retention_approved e
    >>= λ e'.
        public_extra (opted_in i.provider_training_opt_out) i.has_user_approval
          MatchedRule.provider_training_public_restriction Reason.public_training_approval
          Approval.allow_training_cloud Reason.public_training_approved e'
        >>= λ e''. returned (decide allow RouteName.cloud e'')

-- `if (classification === Public && …)`
unfoldable pub public_tier : Policies → PolicyInput → Evaluation → Flow
unfolding public_provider
public_tier policies i e =
    if wants_cloud i && has_policy "public-cloud-allowed" policies
    then if is_some i.provider_id
      then public_provider i (note MatchedRule.public_cloud_allowed Reason.public_cloud e)
      else next (note MatchedRule.public_cloud_allowed Reason.public_cloud e)
    else next e

unfoldable pub classify : Policies → PolicyInput → Option Classification → Evaluation → Flow
classify policies i (some restricted) e = restricted_tier policies i e
classify policies i (some confidential) e = confidential_tier policies i e
classify policies i (some internal) e = internal_tier policies i e
classify policies i (some public) e = public_tier policies i e
classify policies i (some (unrecognized s)) e = next e
classify policies i none e = next e

abbrev allows_locally : Decision → RouteName → Bool
allows_locally allow RouteName.local = true
allows_locally _ _ = false

unfoldable pub finish : Evaluation → Flow
finish e =
    if allows_locally e.decision e.route
    then next (give_reason Reason.default_local_only e)
    else next e

unfoldable pub evaluate : Policies → PolicyInput → Evaluation
evaluate policies i = result (
    apply_high_water i begin
    >>= check_injection i
    >>= check_manifest i
    >>= check_permissions i
    >>= classify policies i (effective_classification i)
    >>= finish)

-- `dryRun`
unfoldable pub dry_run : Policies → PolicyInput → Evaluation
unfolding evaluate
dry_run policies i = evaluate policies i
