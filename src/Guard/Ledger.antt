-- ===== src/Guard/Ledger.antt =====
-- The ledger of observations: numbered without a gap, and the reason of a stop is its last entry.
use ogra.Prelude.{
  ℕ, suc, ◌+◌, max, String, ◌≡◌, sym, ap, subst, ◌∙◌, inl, inr, List, [], ◌∷◌, arith, or_else,
  str_eq, eq_iff, insert_row, if◌then◌else◌, Bool-cases,
}
use ogra.Guard.State.{
  Config, LedgerRow, GuardTables, Observed, LoadedObservedState, load_observed_state,
}
use ogra.Guard.Input.{ObserveInput}
use ogra.Guard.Observe.{
  decisions, measure, ledger_row, record_observation, observe_loaded, observe_body,
}
use ogra.Guard.Window.{max_sequence_no}
use ogra.Guard.Recovery.{terminated_loaded, going_loaded}

-- The number of the run's rows.
unfoldable pub rows_of : String → List LedgerRow → ℕ
rows_of run_id [] = 0
rows_of run_id (r ∷ rs) =
    let rest = rows_of run_id rs in if str_eq r.run_id run_id then suc rest else rest

-- The number of the run's rows up to `r`, after `n` before it.
abbrev tally : String → LedgerRow → ℕ → ℕ
tally run_id r n = if str_eq r.run_id run_id then suc n else n

-- The run's rows after the first `n` bear the numbers from `n + 1` on, without a gap.
unfoldable pub IsNumbered : String → ℕ → List LedgerRow → Type 0
IsNumbered run_id n [] = Unit
IsNumbered run_id n (r ∷ rs) =
    (r.run_id ≡ run_id → r.sequence_no ≡ suc n) × IsNumbered run_id (tally run_id r n) rs

numbered_max :
    (run_id : String) (n : ℕ) (rows : List LedgerRow)
    → IsNumbered run_id n rows
    → max n (max_sequence_no run_id rows) ≡ n + rows_of run_id rows
unfolding IsNumbered rows_of max_sequence_no
numbered_max run_id n [] h = omega arith
numbered_max run_id n (r ∷ rs) h = elim (Bool-cases (str_eq r.run_id run_id)) [
  | inl own ↦
      ground (arith, numbered_max run_id (tally run_id r n) rs h.1, h.0 ((eq_iff _ _).0 own))
  | inr other ↦ ground (arith, numbered_max run_id (tally run_id r n) rs h.1)
]

insert-IsNumbered :
    (run_id : String) (n : ℕ) (row : LedgerRow) (rows : List LedgerRow)
    → (row.run_id ≡ run_id → row.sequence_no ≡ suc (n + rows_of run_id rows))
    → IsNumbered run_id n rows
    → IsNumbered run_id n (insert_row row rows)
unfolding IsNumbered rows_of insert_row
insert-IsNumbered run_id n row [] next h = ((λ e. next e ∙ omega arith), tt)
insert-IsNumbered run_id n row (r ∷ rs) next h = (
  h.0,
  insert-IsNumbered run_id (tally run_id r n) row rs
      (λ e. next e ∙ elim (Bool-cases (str_eq r.run_id run_id)) [
        | inl own ↦ ground arith
        | inr other ↦ ground arith
      ])
      h.1,
)

-- `load_observed_state` leaves the ledger alone.
load-ledger :
    (now : ℕ) (run_id : String) (t : GuardTables)
    → (load_observed_state now run_id t).1.ledger ≡ t.ledger
unfolding load_observed_state
load-ledger now run_id t = ground arith

recorded-IsNumbered :
    (run_id : String) (cfg : Config) (input : ObserveInput) (row_id event_id : String) (now : ℕ)
    (seen : Observed) (t : GuardTables)
    → IsNumbered run_id 0 t.ledger
    → IsNumbered run_id 0 (record_observation cfg input row_id event_id now seen t).1.ledger
unfolding record_observation
recorded-IsNumbered run_id cfg input row_id event_id now seen t h =
    insert-IsNumbered run_id 0
      (ledger_row cfg input row_id event_id (max_sequence_no input.run_id t.ledger + 1) seen
        (decisions cfg input now seen))
      t.ledger
      (λ e. omega (arith, ap (λ r. max_sequence_no r t.ledger) e, numbered_max run_id 0 t.ledger h))
      h

loaded-IsNumbered :
    (run_id : String) (cfg : Config) (input : ObserveInput) (clock : ℕ) (row_id event_id : String)
    (before : LoadedObservedState) (t : GuardTables)
    → IsNumbered run_id 0 t.ledger
    → IsNumbered run_id 0 (observe_loaded cfg input clock row_id event_id before t).1.ledger
loaded-IsNumbered run_id cfg input clock row_id event_id before t h =
    let now = or_else input.as_of clock in
    elim (Bool-cases before.guard_terminated) [
      | inl over ↦
          subst (λ r. IsNumbered run_id 0 r.1.ledger)
            (sym (terminated_loaded cfg input clock row_id event_id before t over)) h
      | inr going ↦
          subst (λ r. IsNumbered run_id 0 r.1.ledger)
            (sym (going_loaded cfg input clock row_id event_id before t going))
            (recorded-IsNumbered run_id cfg input row_id event_id now
              (measure cfg input now before.observed t.ledger) t h)
    ]

-- `observe` keeps the ledger numbered: with the rows of each run numbered 1, 2, 3 and so on before
-- the call, they are after it, for the observed run and for every other.
pub observe-IsNumbered :
    (run_id : String) (cfg : Config) (input : ObserveInput) (clock : ℕ) (row_id event_id : String)
    (t : GuardTables)
    → IsNumbered run_id 0 t.ledger
    → IsNumbered run_id 0 (observe_body cfg input clock row_id event_id t).1.ledger
unfolding observe_body
observe-IsNumbered run_id cfg input clock row_id event_id t h =
    loaded-IsNumbered run_id cfg input clock row_id event_id
      (load_observed_state clock input.run_id t).0 (load_observed_state clock input.run_id t).1
      (subst (λ l. IsNumbered run_id 0 l) (sym (load-ledger clock input.run_id t)) h)
