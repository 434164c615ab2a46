-- ===== src/Governance/Route/Store.antt =====
-- The map of decisions: what is put under a run id is what is found there, and nothing else changes.
use ogra.Prelude.{String, ◌≡◌, refl, [], ◌∷◌, some, str_eq, eq_iff, arith, if◌then◌else◌}
use ogra.Governance.Policy.Registry.{Policies}
use ogra.Governance.Route.{
  RouteInput, Fresh, RouteDecision, Decisions, get_route_decision, put_decision,
  store_route_decision, evaluate_route,
}

get-put :
    (k j : String) (d : RouteDecision) (ds : Decisions)
    → get_route_decision j (put_decision k d ds)
      ≡ (if str_eq k j then some d else get_route_decision j ds)
unfolding get_route_decision put_decision
get-put k j d [] = refl
get-put k j d ((i, old) ∷ ds) = ground (arith, eq_iff k j, eq_iff i k, eq_iff i j, get-put k j d ds)

-- After `evaluateRoute` the run's id gives the decision that was returned, and any other id what it
-- gave before.
pub get-evaluate_route :
    (policies : Policies) (i : RouteInput) (fresh : Fresh) (ds : Decisions) (run_id : String)
    → let r = evaluate_route policies i fresh ds in
      get_route_decision run_id r.1
      ≡ (if str_eq fresh.run_id run_id then some r.0 else get_route_decision run_id ds)
unfolding evaluate_route
get-evaluate_route policies i fresh ds run_id = get-put fresh.run_id run_id _ ds

-- `storeRouteDecision` files a decision under the run that it names.
pub get-store_route_decision :
    (d : RouteDecision) (ds : Decisions) (run_id : String)
    → get_route_decision run_id (store_route_decision d ds)
      ≡ (if str_eq d.run_id run_id then some d else get_route_decision run_id ds)
unfolding store_route_decision
get-store_route_decision d ds run_id = get-put d.run_id run_id d ds
