-- ===== src/Governance/Policy/Flow.antt =====
-- The local variables of `PolicyService.evaluate` and its early returns: each section takes the
-- variables and either returns from `evaluate` or goes on to the next section.
use ogra.Prelude.{Bool, true, false, ◌||◌, Option, none, some, [], ◌∷◌, ◌++◌}
use ogra.Governance.Policy.Types.{
  Compute, Decision, allow, RouteName, PolicyInput, MatchedRule, Reason, Approval, Evaluation,
}

pub data Flow : Type 0 where
  returned next : Evaluation → Flow

infixl 5 ◌>>=◌
abbrev pub ◌>>=◌ : Flow → (Evaluation → Flow) → Flow
returned e >>= f = returned e
next e >>= f = f e

abbrev pub result : Flow → Evaluation
result (returned e) = e
result (next e) = e

abbrev pub begin : Evaluation
begin = record {
  matched_rules = [];
  decision = allow;
  reasons = [];
  required_approvals = [];
  route = RouteName.local;
}

abbrev pub match_rule : MatchedRule → Evaluation → Evaluation
match_rule m e = record e { matched_rules = e.matched_rules ++ m ∷ [] }

abbrev pub give_reason : Reason → Evaluation → Evaluation
give_reason r e = record e { reasons = e.reasons ++ r ∷ [] }

abbrev pub require : Approval → Evaluation → Evaluation
require a e = record e { required_approvals = e.required_approvals ++ a ∷ [] }

abbrev pub decide : Decision → RouteName → Evaluation → Evaluation
decide d r e = record e { decision = d; route = r }

abbrev pub note : MatchedRule → Reason → Evaluation → Evaluation
note m r e = give_reason r (match_rule m e)

abbrev pub block : MatchedRule → Reason → Evaluation → Flow
block m r e = returned (decide Decision.blocked RouteName.blocked (note m r e))

abbrev pub is_cloud : Option Compute → Bool
is_cloud (some Compute.cloud) = true
is_cloud (some Compute.local) = false
is_cloud none = false

abbrev pub is_local : Option Compute → Bool
is_local (some Compute.local) = true
is_local (some Compute.cloud) = false
is_local none = false

-- `input.requestedCompute === 'cloud' || input.requiresCloud`
abbrev pub wants_cloud : PolicyInput → Bool
wants_cloud i = is_cloud i.requested_compute || i.requires_cloud
