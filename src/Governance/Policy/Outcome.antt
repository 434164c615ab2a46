-- ===== src/Governance/Policy/Outcome.antt =====
-- The decision, the route and the approvals that `evaluate` returns agree with one another.
use ogra.Prelude.{
  String, ◌≡◌, ◌≢◌, refl, ◌⊎◌, inl, inr, Option, none, some, List, [], ◌∷◌, ◌++◌, arith,
  Option-cases,
}
use ogra.Governance.Classification.{
  Classification, public, internal, confidential, restricted, unrecognized,
}
use ogra.Governance.Policy.Types.{
  Decision, allow, require_approval, local_only, redact, RouteName, AgentPermissions, ToolsValue,
  falsy, array, not_array, Manifest, malformed, parsed, PolicyInput, Approval, Evaluation,
}
use ogra.Governance.Policy.Flow.{Flow, returned, next, ◌>>=◌, result, begin}
use ogra.Governance.Policy.Registry.{default_policies}
use ogra.Governance.Policy.Gates.{
  effective_classification, apply_high_water, check_injection, manifest_tools, require_declared,
  check_declared, check_manifest_json, check_manifest, require_allowed, check_cloud_permission,
  check_allowed_tools, check_network, check_permissions,
}
use ogra.Governance.Policy.Evaluate.{
  restricted_tier, confidential_tier, internal_tier, public_tier, classify, finish, evaluate,
}

append-ne-nil {ℓ} : {A : Type ℓ} (xs : List A) (x : A) → xs ++ x ∷ [] ≢ []
append-ne-nil [] x h = cc
append-ne-nil (y ∷ ys) x h = cc

-- What a decision says of the route, and of the approvals asked for.
abbrev pub Agrees : Decision → RouteName → List Approval → Type 0
Agrees Decision.blocked r as_ = r ≡ RouteName.blocked
Agrees local_only r as_ = r ≡ RouteName.local
Agrees allow r as_ = r ≢ RouteName.blocked
Agrees require_approval r as_ = (as_ ≢ []) × ((r ≡ RouteName.blocked) ⊎ (r ≡ RouteName.local))
Agrees redact r as_ = ⊥

-- The variables between two sections before the tiers.
abbrev pub IsOpen : Evaluation → Type 0
IsOpen e =
    (e.route ≡ RouteName.local)
    × ((e.decision ≡ allow) ⊎ ((e.decision ≡ require_approval) × (e.required_approvals ≢ [])))

abbrev pub Opens : Flow → Type 0
Opens (returned e) = (e.decision ≡ Decision.blocked) × (e.route ≡ RouteName.blocked)
Opens (next e) = IsOpen e

Opens->>= :
    (m : Flow) (f : Evaluation → Flow)
    → Opens m
    → ((e : Evaluation) → IsOpen e → Opens (f e))
    → Opens (m >>= f)
Opens->>= (returned e) f g h = g
Opens->>= (next e) f g h = h e g

apply_high_water-Opens :
    (i : PolicyInput) (e : Evaluation) → IsOpen e → Opens (apply_high_water i e)
unfolding apply_high_water
apply_high_water-Opens i e h = ground arith

check_injection-Opens : (i : PolicyInput) (e : Evaluation) → IsOpen e → Opens (check_injection i e)
unfolding check_injection
check_injection-Opens i e h = ground arith

require_declared-Opens :
    (declared requested : List String) (e : Evaluation)
    → IsOpen e
    → Opens (require_declared declared requested e)
unfolding require_declared
require_declared-Opens declared [] e h = h
require_declared-Opens declared (t ∷ ts) e h =
    ground (arith, require_declared-Opens declared ts e h)

check_declared-Opens :
    (v : ToolsValue) (requested : List String) (e : Evaluation)
    → IsOpen e
    → Opens (check_declared v requested e)
unfolding check_declared
check_declared-Opens falsy requested e h = (refl, refl)
check_declared-Opens (array []) requested e h = (refl, refl)
check_declared-Opens (array (d ∷ ds)) requested e h = require_declared-Opens (d ∷ ds) requested e h
check_declared-Opens not_array requested e h = (refl, refl)

check_manifest_json-Opens :
    (m : Manifest) (requested : List String) (e : Evaluation)
    → IsOpen e
    → Opens (check_manifest_json m requested e)
unfolding check_manifest_json
check_manifest_json-Opens malformed requested e h = (refl, refl)
check_manifest_json-Opens (parsed caps tools) requested e h =
    check_declared-Opens (manifest_tools caps tools) requested e h

check_manifest-Opens : (i : PolicyInput) (e : Evaluation) → IsOpen e → Opens (check_manifest i e)
unfolding check_manifest
check_manifest-Opens i e h = elim (Option-cases i.agent_manifest) [
  | inl missing ↦ ground arith
  | inr (m, given) ↦ ground (arith, check_manifest_json-Opens m i.requested_tools e h)
]

require_allowed-Opens :
    (allowed requested : List String) (e : Evaluation)
    → IsOpen e
    → Opens (require_allowed allowed requested e)
unfolding require_allowed
require_allowed-Opens allowed [] e h = h
require_allowed-Opens allowed (t ∷ ts) e h = ground (arith, require_allowed-Opens allowed ts e h)

check_allowed_tools-Opens :
    (i : PolicyInput) (p : AgentPermissions) (e : Evaluation)
    → IsOpen e
    → Opens (check_allowed_tools i p e)
unfolding check_allowed_tools
check_allowed_tools-Opens i p e h = elim (Option-cases p.allowed_tools) [
  | inl free ↦ ground arith
  | inr (allowed, given) ↦ ground (arith, require_allowed-Opens allowed i.requested_tools e h)
]

check_cloud_permission-Opens :
    (i : PolicyInput) (p : AgentPermissions) (e : Evaluation)
    → IsOpen e
    → Opens (check_cloud_permission i p e)
unfolding check_cloud_permission
check_cloud_permission-Opens i p e h = ground arith

check_network-Opens :
    (i : PolicyInput) (p : AgentPermissions) (e : Evaluation)
    → IsOpen e
    → Opens (check_network i p e)
unfolding check_network
check_network-Opens i p e h =
    ground (arith, append-ne-nil e.required_approvals Approval.allow_agent_network)

check_agent-Opens :
    (i : PolicyInput) (p : AgentPermissions) (e : Evaluation)
    → IsOpen e
    → Opens
        (check_cloud_permission i p e >>= λ e'. check_allowed_tools i p e' >>= check_network i p)
check_agent-Opens i p e h =
    Opens->>= (check_cloud_permission i p e) _ (check_cloud_permission-Opens i p e h) (λ e' h'.
      Opens->>= (check_allowed_tools i p e') _ (check_allowed_tools-Opens i p e' h')
        (λ e'' h''. check_network-Opens i p e'' h''))

check_permissions-Opens :
    (i : PolicyInput) (e : Evaluation) → IsOpen e → Opens (check_permissions i e)
unfolding check_permissions
check_permissions-Opens i e h = elim (Option-cases i.agent_permissions) [
  | inl nobody ↦ ground arith
  | inr (p, given) ↦ rw (given, check_permissions) (check_agent-Opens i p e h)
]

pub gates-Opens :
    (i : PolicyInput)
    → Opens (
        apply_high_water i begin >>= check_injection i >>= check_manifest i >>= check_permissions i)
gates-Opens i =
    Opens->>= (apply_high_water i begin >>= check_injection i >>= check_manifest i) _
      (Opens->>= (apply_high_water i begin >>= check_injection i) _
        (Opens->>= (apply_high_water i begin) _ (apply_high_water-Opens i begin (refl, inl refl))
          (check_injection-Opens i))
        (check_manifest-Opens i))
      (check_permissions-Opens i)

abbrev EndsWell : Flow → Type 0
EndsWell m =
    Agrees (result (m >>= finish)).decision (result (m >>= finish)).route
      (result (m >>= finish)).required_approvals

restricted_tier-EndsWell :
    (i : PolicyInput) (e : Evaluation) → IsOpen e → EndsWell (restricted_tier default_policies i e)
unfolding restricted_tier default_policies finish
restricted_tier-EndsWell i e h = ground arith

confidential_tier-EndsWell :
    (i : PolicyInput) (e : Evaluation)
    → IsOpen e
    → EndsWell (confidential_tier default_policies i e)
unfolding confidential_tier default_policies finish
confidential_tier-EndsWell i e h =
    ground (arith, append-ne-nil e.required_approvals Approval.allow_confidential_redacted_cloud)

internal_tier-EndsWell :
    (i : PolicyInput) (e : Evaluation) → IsOpen e → EndsWell (internal_tier default_policies i e)
unfolding internal_tier default_policies finish
internal_tier-EndsWell i e h = ground (
  arith,
  append-ne-nil e.required_approvals Approval.allow_internal_redacted_cloud,
  append-ne-nil e.required_approvals Approval.allow_provider_retention_cloud,
)

public_tier-EndsWell :
    (i : PolicyInput) (e : Evaluation) → IsOpen e → EndsWell (public_tier default_policies i e)
unfolding public_tier default_policies finish
public_tier-EndsWell i e h = ground (
  arith,
  append-ne-nil e.required_approvals Approval.allow_indefinite_retention_cloud,
  append-ne-nil e.required_approvals Approval.allow_training_cloud,
)

finish-EndsWell : (e : Evaluation) → IsOpen e → EndsWell (next e)
unfolding finish
finish-EndsWell e h = ground arith

classify-EndsWell :
    (i : PolicyInput) (c : Option Classification) (e : Evaluation)
    → IsOpen e
    → EndsWell (classify default_policies i c e)
unfolding classify
classify-EndsWell i (some public) e h = public_tier-EndsWell i e h
classify-EndsWell i (some internal) e h = internal_tier-EndsWell i e h
classify-EndsWell i (some confidential) e h = confidential_tier-EndsWell i e h
classify-EndsWell i (some restricted) e h = restricted_tier-EndsWell i e h
classify-EndsWell i (some (unrecognized s)) e h = finish-EndsWell e h
classify-EndsWell i none e h = finish-EndsWell e h

after_gates-EndsWell :
    (i : PolicyInput) (m : Flow)
    → Opens m
    → EndsWell (m >>= classify default_policies i (effective_classification i))
after_gates-EndsWell i (returned e) h = rw h.0 h.1
after_gates-EndsWell i (next e) h = classify-EndsWell i (effective_classification i) e h

-- `blocked` comes with the route `blocked`, `local_only` with `local`, `allow` with a route that is
-- not blocked, `require_approval` with an approval to ask for and nothing leaving the machine, and
-- `redact` is never returned.
pub evaluate-Agrees :
    (i : PolicyInput)
    → Agrees
        (evaluate default_policies i).decision
        (evaluate default_policies i).route
        (evaluate default_policies i).required_approvals
unfolding evaluate
evaluate-Agrees i = after_gates-EndsWell i _ (gates-Opens i)
