-- ===== src/Governance/Route.antt =====
-- ogra-desktop/src/core/route-service.ts: `RouteService`. The run id, the generated ids, the policy
-- version hash and the time come from outside and are arguments.
pub mod Decisions
pub mod Store
use ogra.Prelude.{
  ℕ, String, Bool, true, false, not, Option, none, some, List, [], ◌∷◌, ◌++◌, is_empty, or_else,
  str_eq, if◌then◌else◌,
}
use ogra.Governance.Classification.{Classification, unrecognized}
use ogra.Governance.HighWater.{Source, HighWaterMark, compute}
use ogra.Governance.Policy.Types.{
  Decision, allow, require_approval, redact, local_only, RouteName, PolicyInput, Reason, Evaluation,
}
use ogra.Governance.Policy.Registry.{Policies}
use ogra.Governance.Policy.Evaluate.{evaluate}

pub data Adapter : Type 0 where
  internal_adapter cloud_adapter no_adapter : Adapter

pub data LocalStep : Type 0 where
  retrieve assemble_context generate synthesize : LocalStep

pub data CloudStep : Type 0 where
  generate : CloudStep

pub record RouteInput : Type 0 where
  pub policy_input : PolicyInput
  pub model_id : Option String
  pub sources : Option (List Source)

-- What one call takes from its surroundings.
pub record Fresh : Type 0 where
  pub run_id : String
  pub decision_id : String
  pub policy_evaluation_id : String
  pub policy_version_hash : String
  pub created_at : ℕ

-- `RouteDecisionRecord`, without the fields that `evaluateRoute` leaves empty for its caller (the
-- task, the approval, the payload's summary and hash, the incidents and the audit event).
pub record RouteDecision : Type 0 where
  pub id : String
  pub run_id : String
  pub route : RouteName
  pub assigned_adapter : Adapter
  pub data_classification : Classification
  pub high_water_sources : List String
  pub reasons : List Reason
  pub local_steps : List LocalStep
  pub cloud_steps : List CloudStep
  pub requires_user_approval : Bool
  pub policy_evaluation_id : String
  pub policy_version_hash : String
  pub provider_id : Option String
  pub model_id : Option String
  pub created_at : ℕ

-- The `switch` over the policy's decision: the route.
unfoldable pub route_of : Decision → RouteName → RouteName
route_of Decision.blocked r = RouteName.blocked
route_of local_only r = RouteName.local
route_of require_approval r = RouteName.blocked
route_of allow RouteName.cloud = RouteName.cloud
route_of allow RouteName.hybrid = RouteName.hybrid
route_of allow RouteName.redact_then_egress = RouteName.redact_then_egress
route_of allow RouteName.local = RouteName.local
route_of allow RouteName.blocked = RouteName.local
route_of redact r = RouteName.local

-- The adapter that the same `switch` assigns.
unfoldable pub adapter_of : Decision → RouteName → Adapter
adapter_of Decision.blocked r = no_adapter
adapter_of local_only r = internal_adapter
adapter_of require_approval r = no_adapter
adapter_of allow RouteName.cloud = cloud_adapter
adapter_of allow RouteName.hybrid = internal_adapter
adapter_of allow RouteName.redact_then_egress = internal_adapter
adapter_of allow RouteName.local = internal_adapter
adapter_of allow RouteName.blocked = internal_adapter
adapter_of redact r = internal_adapter

abbrev pub is_cloud_route : RouteName → Bool
is_cloud_route RouteName.cloud = true
is_cloud_route _ = false

abbrev pub is_hybrid_route : RouteName → Bool
is_hybrid_route RouteName.hybrid = true
is_hybrid_route _ = false

unfoldable pub cloud_steps_of : RouteName → List CloudStep
cloud_steps_of r =
    if is_cloud_route r
    then CloudStep.generate ∷ []
    else if is_hybrid_route r
    then CloudStep.generate ∷ []
    else []

unfoldable pub local_steps_of : RouteName → List LocalStep
local_steps_of r =
    retrieve
    ∷ assemble_context
    ∷ ((if is_cloud_route r then [] else LocalStep.generate ∷ [])
        ++ (if is_hybrid_route r then synthesize ∷ [] else []))

-- `input.highWaterSources ?? [the request]`
unfoldable pub sources_of : RouteInput → String → List Source
sources_of i run_id = or_else i.sources (
    record {
      source_type = "request";
      source_id = run_id;
      classification = or_else i.policy_input.data_classification (unrecognized "");
    }
    ∷ [])

-- `evaluateRoute`, apart from the entry in the service's map.
unfoldable pub decide_route : Policies → RouteInput → Fresh → RouteDecision
unfolding route_of adapter_of cloud_steps_of local_steps_of sources_of
decide_route policies i fresh =
    let e = evaluate policies i.policy_input in
    let route = route_of e.decision e.route in
    let hwm = compute (sources_of i fresh.run_id) in
    record {
      id = fresh.decision_id;
      run_id = fresh.run_id;
      route = route;
      assigned_adapter = adapter_of e.decision e.route;
      data_classification = hwm.high_water_mark;
      high_water_sources = hwm.high_water_sources;
      reasons = e.reasons;
      local_steps = local_steps_of route;
      cloud_steps = cloud_steps_of route;
      requires_user_approval = not (is_empty e.required_approvals);
      policy_evaluation_id = fresh.policy_evaluation_id;
      policy_version_hash = fresh.policy_version_hash;
      provider_id = i.policy_input.provider_id;
      model_id = i.model_id;
      created_at = fresh.created_at;
    }

-- `this.decisions`, a map from run ids.
abbrev pub Decisions : Type 0
Decisions = List (String × RouteDecision)

-- `getRouteDecision`
unfoldable pub get_route_decision : String → Decisions → Option RouteDecision
get_route_decision run_id [] = none
get_route_decision run_id ((k, d) ∷ ds) =
    if str_eq k run_id then some d else get_route_decision run_id ds

unfoldable pub put_decision : String → RouteDecision → Decisions → Decisions
put_decision run_id d [] = (run_id, d) ∷ []
put_decision run_id d ((k, old) ∷ ds) =
    if str_eq k run_id then (k, d) ∷ ds else (k, old) ∷ put_decision run_id d ds

-- `storeRouteDecision`
unfoldable pub store_route_decision : RouteDecision → Decisions → Decisions
unfolding put_decision
store_route_decision d ds = put_decision d.run_id d ds

unfoldable pub evaluate_route :
    Policies → RouteInput → Fresh → Decisions → RouteDecision × Decisions
evaluate_route policies i fresh ds =
    let d = decide_route policies i fresh in (d, put_decision fresh.run_id d ds)
