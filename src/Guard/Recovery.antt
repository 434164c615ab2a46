-- ===== src/Guard/Recovery.antt =====
-- The durable snapshot: what `observe` returns is what a restarted process reads back.
use ogra.Prelude.{
  ℕ, String, ◌≡◌, refl, sym, ap, ◌∙◌, subst, ◌⊎◌, inl, inr, true, false, not, Option, none, some,
  List, arith, or_else, is_empty, insert_row, select-insert_row, select-update_where, select_sound,
  Option-cases, Bool-cases, select,
}
use text.Mathlib.TextPositions.{eq_refl}
use ogra.Guard.State.{
  Config, RunState, GuardTables, Observed, LoadedObservedState, of_run, find_state, first_state,
  first_loaded, loaded, LedgerRow, load_observed_state,
}
use ogra.Guard.Input.{ObserveInput}
use ogra.Guard.Observe.{
  ObserveResult, decisions, measure, snapshot, record_observation, observe_body, observe_loaded,
  first_reason, already_terminated,
}

pub load-new :
    (clock : ℕ) (run_id : String) (t : GuardTables)
    → find_state run_id t ≡ none
    → load_observed_state clock run_id t
      ≡ (first_loaded clock, record t { states = insert_row (first_state clock run_id) t.states })
unfolding load_observed_state
load-new clock run_id t h = ground arith

pub find-inserted :
    (clock : ℕ) (run_id : String) (t : GuardTables)
    → find_state run_id t ≡ none
    → select (of_run run_id) (insert_row (first_state clock run_id) t.states)
      ≡ some (first_state clock run_id)
find-inserted clock run_id t h =
    ground
      (arith, select-insert_row (of_run run_id) (first_state clock run_id) t.states, eq_refl run_id)

-- What a restart reads back for a result.
abbrev pub restored : ObserveResult → LoadedObservedState
restored r = record {
  observed = r.observed;
  guard_terminated = not r.ok;
  termination_reason_code = r.reason_code;
}

pub load-found :
    (later : ℕ) (run_id : String) (t : GuardTables) (s : RunState)
    → find_state run_id t ≡ some s
    → load_observed_state later run_id t ≡ (loaded s, t)
unfolding load_observed_state
load-found later run_id t s h = ground arith

pub find-recorded :
    (cfg : Config) (input : ObserveInput) (row_id event_id : String) (now : ℕ) (seen : Observed)
    (t : GuardTables) (s : RunState)
    → find_state input.run_id t ≡ some s
    → find_state input.run_id (record_observation cfg input row_id event_id now seen t).1
      ≡ some (snapshot now seen (decisions cfg input now seen) s)
unfolding record_observation
find-recorded cfg input row_id event_id now seen t s h = ground (
  arith,
  select-update_where (of_run input.run_id) (of_run input.run_id)
      (snapshot now seen (decisions cfg input now seen)) t.states (λ x. refl),
  select_sound (of_run input.run_id) t.states s h,
)

loaded-snapshot :
    (cfg : Config) (input : ObserveInput) (now : ℕ) (seen : Observed) (s : RunState)
    → s.started_at ≡ seen.started_at
    → loaded (snapshot now seen (decisions cfg input now seen) s) ≡ record {
      observed = seen;
      guard_terminated = not (is_empty (decisions cfg input now seen));
      termination_reason_code = first_reason (decisions cfg input now seen);
    }
loaded-snapshot cfg input now seen s h =
    ap
      (λ (at : ℕ). record {
        observed = record seen { started_at = at };
        guard_terminated = not (is_empty (decisions cfg input now seen));
        termination_reason_code = first_reason (decisions cfg input now seen);
      })
      h

recorded-restored :
    (cfg : Config) (input : ObserveInput) (row_id event_id : String) (now later : ℕ)
    (seen : Observed) (t : GuardTables) (s : RunState)
    → find_state input.run_id t ≡ some s
    → s.started_at ≡ seen.started_at
    → load_observed_state later input.run_id
        (record_observation cfg input row_id event_id now seen t).1
      ≡ (
        restored (record_observation cfg input row_id event_id now seen t).0,
        (record_observation cfg input row_id event_id now seen t).1,
      )
unfolding record_observation
recorded-restored cfg input row_id event_id now later seen t s h start =
    load-found later input.run_id (record_observation cfg input row_id event_id now seen t).1
      (snapshot now seen (decisions cfg input now seen) s)
      (find-recorded cfg input row_id event_id now seen t s h)
    ∙ ap (λ l. (l, (record_observation cfg input row_id event_id now seen t).1))
        (loaded-snapshot cfg input now seen s start)

-- The number of actions that the store knows of a run.
abbrev pub count_of : Option RunState → ℕ
count_of none = 0
count_of (some s) = s.action_count

-- One `observe` of a run that is not terminated: the loaded row, and the write.
abbrev pub Recorded : Config → ObserveInput → ℕ → String → String → GuardTables → Type 0
Recorded cfg input clock row_id event_id t =
    (s : RunState) × (before : Observed) × (t' : GuardTables) × (find_state input.run_id t'
      ≡ some s)
    × (s.started_at ≡ before.started_at)
    × (before.action_count ≡ count_of (find_state input.run_id t))
    × (observe_body cfg input clock row_id event_id t
        ≡ record_observation cfg input row_id event_id (or_else input.as_of clock)
            (measure cfg input (or_else input.as_of clock) before t'.ledger) t')

-- A restart after `r` reads back what was returned.
abbrev Reads : ℕ → String → ObserveResult × GuardTables → Type 0
Reads later run_id r = load_observed_state later run_id r.1 ≡ (restored r.0, r.1)

-- The answer for a run that is terminated in the loaded state.
abbrev pub refusal : String → LoadedObservedState → ObserveResult
refusal event_id before = record {
  ok = false;
  reason_code = before.termination_reason_code;
  detail = some (already_terminated before.termination_reason_code);
  observed = before.observed;
  sequence_no = none;
  l1_event_id = some event_id;
}

pub terminated_loaded :
    (cfg : Config) (input : ObserveInput) (clock : ℕ) (row_id event_id : String)
    (before : LoadedObservedState) (t : GuardTables)
    → before.guard_terminated ≡ true
    → observe_loaded cfg input clock row_id event_id before t ≡ (refusal event_id before, t)
unfolding observe_loaded
terminated_loaded cfg input clock row_id event_id before t over = ground arith

pub going_loaded :
    (cfg : Config) (input : ObserveInput) (clock : ℕ) (row_id event_id : String)
    (before : LoadedObservedState) (t : GuardTables)
    → before.guard_terminated ≡ false
    → observe_loaded cfg input clock row_id event_id before t
      ≡ record_observation cfg input row_id event_id
          (or_else input.as_of clock)
          (measure cfg input (or_else input.as_of clock) before.observed t.ledger)
          t
unfolding observe_loaded
going_loaded cfg input clock row_id event_id before t going = ground arith

pub refused :
    (cfg : Config) (input : ObserveInput) (clock : ℕ) (row_id event_id : String) (t : GuardTables)
    (s : RunState)
    → find_state input.run_id t ≡ some s
    → s.guard_terminated ≡ true
    → observe_body cfg input clock row_id event_id t ≡ (refusal event_id (loaded s), t)
unfolding observe_body
refused cfg input clock row_id event_id t s found over =
    ap (λ l. observe_loaded cfg input clock row_id event_id l.0 l.1)
      (load-found clock input.run_id t s found)
    ∙ terminated_loaded cfg input clock row_id event_id (loaded s) t over

measure-started :
    (cfg : Config) (input : ObserveInput) (now : ℕ) (before : Observed) (ledger : List LedgerRow)
    → (measure cfg input now before ledger).started_at ≡ before.started_at
unfolding measure
measure-started cfg input now before ledger = refl

pub observe-cases :
    (cfg : Config) (input : ObserveInput) (clock : ℕ) (row_id event_id : String) (t : GuardTables)
    → ((s : RunState) × (find_state input.run_id t ≡ some s) × (s.guard_terminated ≡ true))
      ⊎ Recorded cfg input clock row_id event_id t
unfolding observe_body
observe-cases cfg input clock row_id event_id t = elim (Option-cases (find_state input.run_id t)) [
  | inl free ↦
      let t' = record t { states = insert_row (first_state clock input.run_id) t.states } in
      inr (
        first_state clock input.run_id,
        (first_loaded clock).observed,
        t',
        find-inserted clock input.run_id t free,
        refl,
        ap count_of (sym free),
        ap (λ l. observe_loaded cfg input clock row_id event_id l.0 l.1)
              (load-new clock input.run_id t free)
            ∙ going_loaded cfg input clock row_id event_id (first_loaded clock) t' refl,
      )
  | inr (s, found) ↦ elim (Bool-cases s.guard_terminated) [
    | inl over ↦ inl (s, found, over)
    | inr going ↦ inr (
      s,
      (loaded s).observed,
      t,
      found,
      refl,
      ap count_of (sym found),
      ap (λ l. observe_loaded cfg input clock row_id event_id l.0 l.1)
            (load-found clock input.run_id t s found)
          ∙ going_loaded cfg input clock row_id event_id (loaded s) t going,
    )
  ]
]

-- After every `observe`, a restarted process loads exactly the counters, the termination and the
-- reason that the call returned, and loading changes no table: a run is terminated in the store
-- exactly if its last observation was refused.
pub observe-restored :
    (cfg : Config) (input : ObserveInput) (clock later : ℕ) (row_id event_id : String)
    (t : GuardTables)
    → load_observed_state later input.run_id (observe_body cfg input clock row_id event_id t).1 ≡ (
      restored (observe_body cfg input clock row_id event_id t).0,
      (observe_body cfg input clock row_id event_id t).1,
    )
observe-restored cfg input clock later row_id event_id t =
    elim (observe-cases cfg input clock row_id event_id t) [
      | inl (s, found, over) ↦
          subst (Reads later input.run_id)
            (sym (refused cfg input clock row_id event_id t s found over))
            (load-found later input.run_id t s found
              ∙ ap (λ b. (record (loaded s) { guard_terminated = b }, t)) over)
      | inr (s, before, t', found, start, n, e) ↦ subst (Reads later input.run_id) (sym e) (
          recorded-restored cfg input row_id event_id (or_else input.as_of clock) later
            (measure cfg input (or_else input.as_of clock) before t'.ledger) t' s found
            (start ∙ sym (measure-started cfg input (or_else input.as_of clock) before t'.ledger)))
    ]
