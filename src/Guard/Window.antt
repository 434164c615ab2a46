-- ===== src/Guard/Window.antt =====
-- The reads of `progress_ledger` in ogra-desktop/src/core/progress-guard.ts: the decisions of a run,
-- the recent targets and the last sequence number.
use ogra.Prelude.{
  ℕ, ◌+◌, max, String, none, some, List, [], ◌∷◌, leb, str_eq, includes, take, if◌then◌else◌,
}
use ogra.Guard.State.{LedgerRow}

-- The run's rows, by `sequence_no`.
insert_sorted : LedgerRow → List LedgerRow → List LedgerRow
insert_sorted r [] = r ∷ []
insert_sorted r (x ∷ xs) =
    if leb r.sequence_no x.sequence_no then r ∷ x ∷ xs else x ∷ insert_sorted r xs

-- `listDecisionsForRun`
unfoldable pub list_decisions_for_run : String → List LedgerRow → List LedgerRow
unfolding insert_sorted
list_decisions_for_run run_id [] = []
list_decisions_for_run run_id (r ∷ rs) =
    let rest = list_decisions_for_run run_id rs in
    if str_eq r.run_id run_id then insert_sorted r rest else rest

reverse_onto : List LedgerRow → List LedgerRow → List LedgerRow
reverse_onto [] acc = acc
reverse_onto (r ∷ rs) acc = reverse_onto rs (r ∷ acc)

targets : List LedgerRow → List String
targets [] = []
targets (r ∷ rs) = elim r.target [ some a ↦ a ∷ targets rs | none ↦ targets rs ]

-- `SELECT target … WHERE target IS NOT NULL ORDER BY sequence_no DESC LIMIT ?`
unfoldable pub recent_targets : String → ℕ → List LedgerRow → List String
unfolding reverse_onto targets
recent_targets run_id window ledger =
    take window (targets (reverse_onto (list_decisions_for_run run_id ledger) []))

-- The size of a `Set` of texts.
unfoldable pub distinct : List String → ℕ
distinct [] = 0
distinct (a ∷ rest) = if includes rest a then distinct rest else 1 + distinct rest

-- `COALESCE(MAX(sequence_no), 0)`
unfoldable pub max_sequence_no : String → List LedgerRow → ℕ
max_sequence_no run_id [] = 0
max_sequence_no run_id (r ∷ rs) =
    let rest = max_sequence_no run_id rs in
    if str_eq r.run_id run_id then max r.sequence_no rest else rest
