-- ===== src/Governance/Route/Decisions.antt =====
-- What a route decision says against the policy's evaluation and the high-water mark.
use ogra.Prelude.{◌≡◌, ◌≢◌, refl, sym, ◌↔◌, ◌<◌, ◌⊎◌, inl, inr, true, some, List, [], arith}
use ogra.Governance.Classification.{Classification, rank, public, internal}
use ogra.Governance.HighWater.{Source}
use ogra.Governance.HighWater.Bounds.{top, compute-attained}
use ogra.Governance.Policy.Types.{
  Decision, allow, require_approval, local_only, redact, RouteName, PolicyInput, Approval,
}
use ogra.Governance.Policy.Flow.{wants_cloud}
use ogra.Governance.Policy.Registry.{default_policies}
use ogra.Governance.Policy.Evaluate.{evaluate}
use ogra.Governance.Policy.Gates.{effective_classification}
use ogra.Governance.Policy.Egress.{Justified, route-Justified}
use ogra.Governance.Policy.Cleared.{IsCleared}
use ogra.Governance.Policy.Outcome.{Agrees, evaluate-Agrees}
use ogra.Governance.Route.{
  cloud_adapter, no_adapter, RouteInput, Fresh, decide_route, route_of, adapter_of, cloud_steps_of,
  sources_of,
}

-- A step in the cloud needs a cleared run that asks for the cloud, on data that is public, or
-- internal and approved.
abbrev pub MayRunInCloud : PolicyInput → Type 0
MayRunInCloud i =
    IsCleared i
    × (wants_cloud i ≡ true)
    × ((effective_classification i ≡ some public)
        ⊎ ((effective_classification i ≡ some internal) × (i.has_user_approval ≡ true)))

cloud_steps-Justified :
    (i : PolicyInput) (d : Decision) (r : RouteName)
    → Justified i r
    → cloud_steps_of (route_of d r) ≢ []
    → MayRunInCloud i
unfolding cloud_steps_of route_of
cloud_steps-Justified i allow RouteName.cloud j h = (j.0, j.1.0, inl j.1.1)
cloud_steps-Justified i allow RouteName.hybrid j h = (j.0, j.1.0, inr (j.1.1, j.1.2))
cloud_steps-Justified i d r j h = absurd (h refl)

-- A decision with a step in the cloud is only made for a cleared run that asks for the cloud, on
-- data that is public, or internal and approved by the user.
pub cloud_steps-MayRunInCloud :
    (i : RouteInput) (fresh : Fresh)
    → (decide_route default_policies i fresh).cloud_steps ≢ []
    → MayRunInCloud i.policy_input
unfolding decide_route
cloud_steps-MayRunInCloud i fresh h =
    cloud_steps-Justified i.policy_input _ _ (route-Justified i.policy_input) h

route_of-Agrees :
    (d : Decision) (r : RouteName) (as_ : List Approval)
    → Agrees d r as_
    → (route_of d r ≡ r) ⊎ ((d ≡ require_approval) × (route_of d r ≡ RouteName.blocked))
unfolding route_of
route_of-Agrees Decision.blocked r as_ h = inl (sym h)
route_of-Agrees local_only r as_ h = inl (sym h)
route_of-Agrees require_approval r as_ h = inr (refl, refl)
route_of-Agrees allow RouteName.blocked as_ h = absurd (h refl)
route_of-Agrees allow RouteName.local as_ h = inl refl
route_of-Agrees allow RouteName.cloud as_ h = inl refl
route_of-Agrees allow RouteName.hybrid as_ h = inl refl
route_of-Agrees allow RouteName.redact_then_egress as_ h = inl refl
route_of-Agrees redact r as_ h = absurd h

adapter_of_iff :
    (d : Decision) (r : RouteName)
    → ((adapter_of d r ≡ no_adapter) ↔ (route_of d r ≡ RouteName.blocked))
      × ((adapter_of d r ≡ cloud_adapter) ↔ (route_of d r ≡ RouteName.cloud))
unfolding adapter_of route_of
adapter_of_iff d r = ground arith

-- The recorded route is the policy's, except that a run which waits for approval is recorded as
-- blocked; no adapter is assigned exactly on a blocked route, and the cloud adapter exactly on a
-- cloud route.
pub decide_route-follows :
    (i : RouteInput) (fresh : Fresh)
    → let e = evaluate default_policies i.policy_input in
      let d = decide_route default_policies i fresh in
      ((d.route ≡ e.route) ⊎ ((e.decision ≡ require_approval) × (d.route ≡ RouteName.blocked)))
      × ((d.assigned_adapter ≡ no_adapter) ↔ (d.route ≡ RouteName.blocked))
      × ((d.assigned_adapter ≡ cloud_adapter) ↔ (d.route ≡ RouteName.cloud))
unfolding decide_route
decide_route-follows i fresh =
    let e = evaluate default_policies i.policy_input in
    let (none_iff, cloud_iff) = adapter_of_iff e.decision e.route in
    (
      route_of-Agrees e.decision e.route e.required_approvals (evaluate-Agrees i.policy_input),
      none_iff,
      cloud_iff,
    )

-- Given any high-water sources, the recorded classification is theirs alone: if the highest of them
-- is recognised and below the run's own classification, the record is below it too.
pub sources_replace_input :
    (i : RouteInput) (fresh : Fresh) (c : Classification) (ss : List Source)
    → i.policy_input.data_classification ≡ some c
    → i.sources ≡ some ss
    → 0 < top 0 ss
    → top 0 ss < rank c
    → rank (decide_route default_policies i fresh).data_classification < rank c
unfolding decide_route sources_of
sources_replace_input i fresh c ss own given some_known below = ground (arith, compute-attained ss)
