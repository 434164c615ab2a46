-- ===== src/Guard/Tests.antt =====
-- Concrete runs of the guard.
use ogra.Prelude.{◌≡◌, refl, ◌↔◌, true, false, none, some, [], ◌∷◌, arith, select}
use ogra.Guard.State.{
  Config, defaults, exhausted_action_count, RunState, GuardTables, find_state, first_state,
  load_observed_state, is_guard_terminated,
}
use ogra.Guard.Input.{ObserveInput}
use ogra.Guard.Observe.{observe_body}
use ogra.Guard.Recovery.{restored, observe-restored}
use ogra.Guard.Budgets.{IsWithin, observe_ok_iff}
use ogra.Guard.Termination.{Observation, observe_all, IsStopped, observed_run_stops}
use ogra.Guard.Ledger.{IsNumbered}

-- A configuration with room for one action.
abbrev one_action : Config
one_action = record defaults { max_action_count = 1 }

abbrev read_file : ObserveInput
read_file = record {
  run_id = "run_1";
  workspace_id = none;
  frame_id = none;
  action_target = "tool:read_file";
  progress_delta = none;
  as_of = some 400000;
}

abbrev no_rows : GuardTables
no_rows = record { states = []; ledger = [] }

abbrev stopped_state : RunState
stopped_state = record (first_state 5 "run_1") {
  guard_terminated = true;
  termination_reason_code = some exhausted_action_count;
}

abbrev stopped_rows : GuardTables
stopped_rows = record { states = stopped_state ∷ []; ledger = [] }

abbrev reading : Observation
reading = record { input = read_file; clock = 5; row_id = "prg_1"; event_id = "evt_1" }

stopped_found : find_state "run_1" stopped_rows ≡ some stopped_state
unfolding select
stopped_found = refl

nothing_found : find_state "run_1" no_rows ≡ none
unfolding select
nothing_found = refl

not_terminated : (is_guard_terminated 5 "run_1" no_rows).0 ≡ false
unfolding is_guard_terminated load_observed_state select
not_terminated = refl

numbered : IsNumbered "run_1" 0 no_rows.ledger
unfolding IsNumbered
numbered = tt

observe-restored_example :
    load_observed_state 9 "run_1" (observe_body defaults read_file 5 "prg_1" "evt_1" no_rows).1 ≡ (
      restored (observe_body defaults read_file 5 "prg_1" "evt_1" no_rows).0,
      (observe_body defaults read_file 5 "prg_1" "evt_1" no_rows).1,
    )
observe-restored_example = observe-restored defaults read_file 5 9 "prg_1" "evt_1" no_rows

observe_ok_iff_example :
    ((observe_body defaults read_file 5 "prg_1" "evt_1" no_rows).0.ok ≡ true)
    ↔ IsWithin defaults 400000
        (observe_body defaults read_file 5 "prg_1" "evt_1" no_rows).0.observed
observe_ok_iff_example = observe_ok_iff defaults read_file 5 "prg_1" "evt_1" no_rows not_terminated

observed_run_stops_example :
    IsStopped "run_1" (observe_all one_action (reading ∷ reading ∷ []) no_rows)
observed_run_stops_example =
    observed_run_stops one_action "run_1" reading (reading ∷ []) no_rows (refl, (refl, tt))
      (omega arith)
