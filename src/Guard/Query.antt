-- ===== src/Guard/Query.antt =====
-- A query before the first observation: `isGuardTerminated` on a run without a row writes one.
use ogra.Prelude.{
  ℕ, ◌-◌, ◌<◌, String, ◌≡◌, refl, ap, ◌∙◌, false, none, some, List, arith, or_else, insert_row,
}
use ogra.Guard.State.{
  Config, LedgerRow, GuardTables, Observed, find_state, first_state, first_loaded, loaded,
  is_guard_terminated,
}
use ogra.Guard.Input.{ObserveInput}
use ogra.Guard.Observe.{delta, decisions, measure, record_observation, observe_body, observe_loaded}
use ogra.Guard.Recovery.{load-new, load-found, find-inserted, going_loaded}

measured-idle :
    (cfg : Config) (input : ObserveInput) (row_id event_id : String) (now : ℕ) (before : Observed)
    (ledger : List LedgerRow) (t : GuardTables)
    → delta input ≡ 0
    → (record_observation cfg input row_id event_id now
        (measure cfg input now before ledger)
        t).0.observed.last_progress_at
      ≡ before.last_progress_at
unfolding measure record_observation
measured-idle cfg input row_id event_id now before ledger t still = ground arith

measured-late :
    (cfg : Config) (input : ObserveInput) (row_id event_id : String) (now asked : ℕ)
    (seen : Observed) (t : GuardTables)
    → seen.last_progress_at ≡ some asked
    → cfg.stagnation_ms < now - asked
    → (record_observation cfg input row_id event_id now seen t).0.ok ≡ false
unfolding record_observation decisions
measured-late cfg input row_id event_id now asked seen t since late = ground arith

measure-idle :
    (cfg : Config) (input : ObserveInput) (now : ℕ) (before : Observed) (ledger : List LedgerRow)
    → delta input ≡ 0
    → (measure cfg input now before ledger).last_progress_at ≡ before.last_progress_at
unfolding measure
measure-idle cfg input now before ledger still = ground arith

-- A run that has no row yet and makes no progress: observed at once, it has no time of last
-- progress. If `isGuardTerminated` was asked first, at `asked`, that time counts as the last
-- progress, and an observation that comes more than the stagnation limit after it is refused.
pub query_starts_idle_clock :
    (cfg : Config) (input : ObserveInput) (asked clock : ℕ) (row_id event_id : String)
    (t : GuardTables)
    → find_state input.run_id t ≡ none
    → delta input ≡ 0
    → cfg.stagnation_ms < or_else input.as_of clock - asked
    → ((observe_body cfg input clock row_id event_id t).0.observed.last_progress_at ≡ none)
      × ((observe_body cfg input clock row_id event_id
            (is_guard_terminated asked input.run_id t).1).0.ok
          ≡ false)
unfolding observe_body is_guard_terminated
query_starts_idle_clock cfg input asked clock row_id event_id t free still late =
    let now = or_else input.as_of clock in
    let inserted =
      λ (at : ℕ). record t { states = insert_row (first_state at input.run_id) t.states } in
    let direct =
      ap (λ l. observe_loaded cfg input clock row_id event_id l.0 l.1)
        (load-new clock input.run_id t free)
      ∙ going_loaded cfg input clock row_id event_id (first_loaded clock) (inserted clock) refl in
    let asked_first =
      ap (λ l. observe_body cfg input clock row_id event_id l.1)
        (load-new asked input.run_id t free)
      ∙ ap (λ l. observe_loaded cfg input clock row_id event_id l.0 l.1)
          (load-found clock input.run_id (inserted asked) (first_state asked input.run_id)
            (find-inserted asked input.run_id t free))
      ∙ going_loaded cfg input clock row_id event_id (loaded (first_state asked input.run_id))
          (inserted asked) refl in
    (
      ap (λ r. r.0.observed.last_progress_at) direct
          ∙ measured-idle cfg input row_id event_id now (first_loaded clock).observed
              (inserted clock).ledger (inserted clock) still,
      ap (λ r. r.0.ok) asked_first
          ∙ measured-late cfg input row_id event_id now asked
              (measure cfg input now (loaded (first_state asked input.run_id)).observed
                (inserted asked).ledger)
              (inserted asked)
              (measure-idle cfg input now (loaded (first_state asked input.run_id)).observed
                (inserted asked).ledger still)
              late,
    )
