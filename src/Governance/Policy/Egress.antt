-- ===== src/Governance/Policy/Egress.antt =====
-- When data may leave the machine: what `evaluate` has checked when its route is not local.
use ogra.Prelude.{sym, subst, ◌≡◌, ◌≢◌, refl, true, false, Option, none, some, arith}
use ogra.Governance.Classification.{
  Classification, public, internal, confidential, restricted, unrecognized,
}
use ogra.Governance.Policy.Types.{RouteName, RetentionPolicy, PolicyInput, Evaluation}
use ogra.Governance.Policy.Flow.{Flow, returned, next, ◌>>=◌, result, wants_cloud}
use ogra.Governance.Policy.Registry.{default_policies}
use ogra.Governance.Policy.Cleared.{Gate, IsCleared, gates-Gate}
use ogra.Governance.Policy.Network.{NetworkAsked, evaluate-NetworkAsked}
use ogra.Governance.Policy.Gates.{effective_classification}
use ogra.Governance.Policy.Evaluate.{
  restricted_tier, confidential_tier, internal_tier, public_tier, classify, finish, evaluate,
}

-- What each route that leaves the machine rests on, apart from `IsCleared`.
abbrev pub HasGrounds : PolicyInput → RouteName → Type 0
HasGrounds i RouteName.local = Unit
HasGrounds i RouteName.blocked = Unit
HasGrounds i RouteName.cloud =
    (wants_cloud i ≡ true)
    × (effective_classification i ≡ some public)
    × (i.provider_training_opt_out ≡ some false → i.has_user_approval ≡ true)
    × (i.provider_data_retention_policy ≡ some RetentionPolicy.indefinite
        → i.has_user_approval ≡ true)
HasGrounds i RouteName.hybrid =
    (wants_cloud i ≡ true)
    × (effective_classification i ≡ some internal)
    × (i.has_user_approval ≡ true)
    × (i.provider_training_opt_out ≢ some false)
    × (i.provider_data_retention_policy ≢ some RetentionPolicy.indefinite)
    × (i.provider_data_retention_policy ≢ some RetentionPolicy.limited)
HasGrounds i RouteName.redact_then_egress =
    (wants_cloud i ≡ true)
    × (effective_classification i ≡ some confidential)
    × (i.has_user_approval ≡ true)
    × (i.provider_is_local ≡ false)

public_tier-HasGrounds :
    (i : PolicyInput) (e : Evaluation)
    → e.route ≡ RouteName.local
    → effective_classification i ≡ some public
    → HasGrounds i (result (public_tier default_policies i e >>= finish)).route
unfolding public_tier default_policies finish
public_tier-HasGrounds i e h c = ground arith

internal_tier-HasGrounds :
    (i : PolicyInput) (e : Evaluation)
    → e.route ≡ RouteName.local
    → effective_classification i ≡ some internal
    → HasGrounds i (result (internal_tier default_policies i e >>= finish)).route
unfolding internal_tier default_policies finish
internal_tier-HasGrounds i e h c = ground arith

confidential_tier-HasGrounds :
    (i : PolicyInput) (e : Evaluation)
    → e.route ≡ RouteName.local
    → effective_classification i ≡ some confidential
    → HasGrounds i (result (confidential_tier default_policies i e >>= finish)).route
unfolding confidential_tier default_policies finish
confidential_tier-HasGrounds i e h c = ground arith

restricted_tier-HasGrounds :
    (i : PolicyInput) (e : Evaluation)
    → HasGrounds i (result (restricted_tier default_policies i e >>= finish)).route
unfolding restricted_tier default_policies finish
restricted_tier-HasGrounds i e = ground arith

finish-HasGrounds :
    (i : PolicyInput) (e : Evaluation)
    → e.route ≡ RouteName.local
    → HasGrounds i (result (finish e)).route
unfolding finish
finish-HasGrounds i e h = ground arith

classify-HasGrounds :
    (i : PolicyInput) (c : Option Classification) (e : Evaluation)
    → effective_classification i ≡ c
    → e.route ≡ RouteName.local
    → HasGrounds i (result (classify default_policies i c e >>= finish)).route
unfolding classify
classify-HasGrounds i (some public) e q h = public_tier-HasGrounds i e h q
classify-HasGrounds i (some internal) e q h = internal_tier-HasGrounds i e h q
classify-HasGrounds i (some confidential) e q h = confidential_tier-HasGrounds i e h q
classify-HasGrounds i (some restricted) e q h = restricted_tier-HasGrounds i e
classify-HasGrounds i (some (unrecognized s)) e q h = finish-HasGrounds i e h
classify-HasGrounds i none e q h = finish-HasGrounds i e h

-- A route that blocks needs nothing; any other has passed the sections before the tiers.
abbrev pub Justified : PolicyInput → RouteName → Type 0
Justified i RouteName.blocked = Unit
Justified i r = IsCleared i × HasGrounds i r

Justified-intro : (i : PolicyInput) (r : RouteName) → IsCleared i → HasGrounds i r → Justified i r
Justified-intro i RouteName.blocked c g = tt
Justified-intro i RouteName.local c g = (c, g)
Justified-intro i RouteName.cloud c g = (c, g)
Justified-intro i RouteName.hybrid c g = (c, g)
Justified-intro i RouteName.redact_then_egress c g = (c, g)

after_gates-Justified :
    (i : PolicyInput) (m : Flow)
    → Gate (IsCleared i) m
    → Justified i
        (result (m >>= classify default_policies i (effective_classification i) >>= finish)).route
after_gates-Justified i (returned e) g = subst (Justified i) (sym g.1) tt
after_gates-Justified i (next e) g =
    Justified-intro i _ g.1 (classify-HasGrounds i (effective_classification i) e refl g.0)

pub route-Justified : (i : PolicyInput) → Justified i (evaluate default_policies i).route
unfolding evaluate
route-Justified i = after_gates-Justified i _ (gates-Gate i)

-- Whatever the input, a route that is not `blocked` has passed the gates before the tiers that can
-- block (a cloud request with an injection warning, tools that the manifest or the agent does not
-- allow, an agent without the cloud), and a route that leaves the machine rests on the
-- classification, approval and provider terms that its tier asks for. The gate of an agent's network
-- access does not block: unless the run is asked to be local or ends blocked, it leaves
-- `allow_agent_network` among the required approvals.
pub evaluate-Justified :
    (i : PolicyInput)
    → Justified i (evaluate default_policies i).route
      × NetworkAsked i i.agent_permissions (evaluate default_policies i)
evaluate-Justified i = (route-Justified i, evaluate-NetworkAsked i)
