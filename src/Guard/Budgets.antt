-- ===== src/Guard/Budgets.antt =====
-- The guard's decision: an observation passes exactly within every budget, and a run that keeps
-- observing is stopped.
use ogra.Prelude.{
  ℕ, ◌-◌, ◌≤◌, ◌<◌, String, ◌≡◌, sym, subst, ◌↔◌, inl, inr, true, false, Option, none, some, arith,
  or_else, is_empty, Option-cases,
}
use ogra.Guard.State.{
  Config, GuardTables, Observed, LoadedObservedState, load_observed_state, is_guard_terminated,
}
use ogra.Guard.Input.{ObserveInput}
use ogra.Guard.Observe.{idle, decisions, measure, record_observation, observe_body, observe_loaded}
use ogra.Guard.Recovery.{going_loaded}

-- The time since the last progress is no longer than allowed.
abbrev Calm : Config → Option ℕ → Type 0
Calm cfg none = Unit
Calm cfg (some since) = since ≤ cfg.stagnation_ms

-- The budgets, as the configuration states them.
abbrev pub IsWithin : Config → ℕ → Observed → Type 0
IsWithin cfg now seen =
    (seen.action_count ≤ cfg.max_action_count)
    × (seen.total_steps ≤ cfg.max_total_steps)
    × (seen.unique_actions ≤ cfg.max_unique_actions)
    × (now - seen.started_at ≤ cfg.max_wall_clock_ms)
    × (seen.last_repeat_count < cfg.repeat_threshold)
    × Calm cfg (idle now seen)

pub decisions-empty :
    (cfg : Config) (input : ObserveInput) (now : ℕ) (seen : Observed)
    → (is_empty (decisions cfg input now seen) ≡ true) ↔ IsWithin cfg now seen
unfolding decisions
decisions-empty cfg input now seen = elim (Option-cases seen.last_progress_at) [
  | inl e ↦ (λ h. ground arith, λ w. ground arith)
  | inr (p, e) ↦ (λ h. ground arith, λ w. ground arith)
]

pub recorded_ok :
    (cfg : Config) (input : ObserveInput) (row_id event_id : String) (now : ℕ) (seen : Observed)
    (t : GuardTables)
    → ((record_observation cfg input row_id event_id now seen t).0.ok ≡ true)
      ↔ IsWithin cfg now (record_observation cfg input row_id event_id now seen t).0.observed
unfolding record_observation
recorded_ok cfg input row_id event_id now seen t = decisions-empty cfg input now seen

loaded_ok :
    (cfg : Config) (input : ObserveInput) (clock : ℕ) (row_id event_id : String)
    (before : LoadedObservedState) (t : GuardTables)
    → before.guard_terminated ≡ false
    → ((observe_loaded cfg input clock row_id event_id before t).0.ok ≡ true)
      ↔ IsWithin cfg
          (or_else input.as_of clock)
          (observe_loaded cfg input clock row_id event_id before t).0.observed
loaded_ok cfg input clock row_id event_id before t going =
    let now = or_else input.as_of clock in
    subst (λ r. (r.0.ok ≡ true) ↔ IsWithin cfg now r.0.observed)
      (sym (going_loaded cfg input clock row_id event_id before t going))
      (recorded_ok cfg input row_id event_id now (measure cfg input now before.observed t.ledger) t)

-- On a run that is not terminated, `observe` accepts exactly if the counters that it returns are
-- within every budget: actions, steps, distinct recent targets, wall clock, repeats and idle time.
pub observe_ok_iff :
    (cfg : Config) (input : ObserveInput) (clock : ℕ) (row_id event_id : String) (t : GuardTables)
    → (is_guard_terminated clock input.run_id t).0 ≡ false
    → ((observe_body cfg input clock row_id event_id t).0.ok ≡ true)
      ↔ IsWithin cfg
          (or_else input.as_of clock)
          (observe_body cfg input clock row_id event_id t).0.observed
unfolding observe_body is_guard_terminated
observe_ok_iff cfg input clock row_id event_id t going =
    loaded_ok cfg input clock row_id event_id (load_observed_state clock input.run_id t).0
      (load_observed_state clock input.run_id t).1 going
