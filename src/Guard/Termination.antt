-- ===== src/Guard/Termination.antt =====
-- A run that keeps observing is stopped by its action budget.
use ogra.Prelude.{
  ℕ, suc, ◌+◌, ◌≤◌, ◌<◌, String, ◌≡◌, sym, ap, subst, ◌∙◌, ◌⊎◌, inl, inr, true, not, some, List, [],
  ◌∷◌, arith, or_else, is_empty, length, All, Bool-cases,
}
use ogra.Guard.State.{Config, RunState, GuardTables, Observed, find_state}
use ogra.Guard.Input.{ObserveInput}
use ogra.Guard.Observe.{decisions, measure, snapshot, observe_body}
use ogra.Guard.Recovery.{count_of, Recorded, refused, find-recorded, observe-cases}
use ogra.Guard.Budgets.{decisions-empty}

-- One call of `observe`: its input, the time, and the ids it is given.
pub record Observation : Type 0 where
  pub input : ObserveInput
  pub clock : ℕ
  pub row_id : String
  pub event_id : String

-- Calls one after another.
unfoldable pub observe_all : Config → List Observation → GuardTables → GuardTables
observe_all cfg [] t = t
observe_all cfg (o ∷ os) t =
    observe_all cfg os (observe_body cfg o.input o.clock o.row_id o.event_id t).1

-- The store says that the run is terminated.
abbrev pub IsStopped : String → GuardTables → Type 0
IsStopped run_id t = (s : RunState) × (find_state run_id t ≡ some s) × (s.guard_terminated ≡ true)

abbrev HasCounted : String → ℕ → GuardTables → Type 0
HasCounted run_id n t = IsStopped run_id t ⊎ (n ≤ count_of (find_state run_id t))

abbrev IsBounded : Config → String → GuardTables → Type 0
IsBounded cfg run_id t =
    IsStopped run_id t ⊎ (count_of (find_state run_id t) ≤ cfg.max_action_count)

stays-IsStopped :
    (cfg : Config) (input : ObserveInput) (clock : ℕ) (row_id event_id : String) (t : GuardTables)
    → IsStopped input.run_id t
    → IsStopped input.run_id (observe_body cfg input clock row_id event_id t).1
stays-IsStopped cfg input clock row_id event_id t (s, found, over) =
    subst (λ r. IsStopped input.run_id r.1)
      (sym (refused cfg input clock row_id event_id t s found over)) (s, found, over)

-- The row after an observation that was recorded.
Recorded-row :
    (cfg : Config) (input : ObserveInput) (clock : ℕ) (row_id event_id : String) (t : GuardTables)
    → Recorded cfg input clock row_id event_id t
    → (s : RunState) × (seen : Observed) × (find_state input.run_id
          (observe_body cfg input clock row_id event_id t).1
        ≡ some (
            snapshot
              (or_else input.as_of clock)
              seen
              (decisions cfg input (or_else input.as_of clock) seen)
              s))
      × (seen.action_count ≡ suc (count_of (find_state input.run_id t)))
unfolding measure
Recorded-row cfg input clock row_id event_id t (s, before, t', found, start, n, e) =
    let now = or_else input.as_of clock in
    let seen = measure cfg input now before t'.ledger in
    (
      s,
      seen,
      ap (λ r. find_state input.run_id r.1) e
          ∙ find-recorded cfg input row_id event_id now seen t' s found,
      omega (arith, n),
    )

observe-HasCounted :
    (cfg : Config) (input : ObserveInput) (clock : ℕ) (row_id event_id : String) (t : GuardTables)
    (n : ℕ)
    → HasCounted input.run_id n t
    → HasCounted input.run_id (suc n) (observe_body cfg input clock row_id event_id t).1
observe-HasCounted cfg input clock row_id event_id t n (inl stopped) =
    inl (stays-IsStopped cfg input clock row_id event_id t stopped)
observe-HasCounted cfg input clock row_id event_id t n (inr more) =
    elim (observe-cases cfg input clock row_id event_id t) [
      | inl stopped ↦ inl (stays-IsStopped cfg input clock row_id event_id t stopped)
      | inr recorded ↦
          let (s, seen, found, counted) = Recorded-row cfg input clock row_id event_id t recorded in
          inr (omega (arith, ap count_of found, counted))
    ]

observe-IsBounded :
    (cfg : Config) (input : ObserveInput) (clock : ℕ) (row_id event_id : String) (t : GuardTables)
    → IsBounded cfg input.run_id (observe_body cfg input clock row_id event_id t).1
observe-IsBounded cfg input clock row_id event_id t =
    elim (observe-cases cfg input clock row_id event_id t) [
      | inl stopped ↦ inl (stays-IsStopped cfg input clock row_id event_id t stopped)
      | inr recorded ↦
          let (s, seen, found, counted) = Recorded-row cfg input clock row_id event_id t recorded in
          let now = or_else input.as_of clock in
          elim (Bool-cases (is_empty (decisions cfg input now seen))) [
            | inl fine ↦
                inr (
                  omega (arith, ap count_of found, ((decisions-empty cfg input now seen).0 fine).0))
            | inr breach ↦
                inl (snapshot now seen (decisions cfg input now seen) s, found, ap not breach)
          ]
    ]

abbrev Observes : String → Observation → Type 0
Observes run_id o = o.input.run_id ≡ run_id

All-HasCounted :
    (cfg : Config) (run_id : String) (os : List Observation) (t : GuardTables) (n : ℕ)
    → All (Observes run_id) os
    → HasCounted run_id n t
    → HasCounted run_id (length os + n) (observe_all cfg os t)
unfolding observe_all
All-HasCounted cfg run_id [] t n h counted =
    subst (λ k. HasCounted run_id k t) (omega arith) counted
All-HasCounted cfg run_id (o ∷ os) t n (e, h) counted =
    let t' = (observe_body cfg o.input o.clock o.row_id o.event_id t).1 in
    subst (λ k. HasCounted run_id k (observe_all cfg os t')) (omega arith)
      (All-HasCounted cfg run_id os t' (suc n) h (
        subst (λ r. HasCounted r (suc n) t') e
          (observe-HasCounted cfg o.input o.clock o.row_id o.event_id t n
            (subst (λ r. HasCounted r n t) (sym e) counted))))

All-IsBounded :
    (cfg : Config) (run_id : String) (os : List Observation) (t : GuardTables)
    → All (Observes run_id) os
    → IsBounded cfg run_id t
    → IsBounded cfg run_id (observe_all cfg os t)
unfolding observe_all
All-IsBounded cfg run_id [] t h bounded = bounded
All-IsBounded cfg run_id (o ∷ os) t (e, h) bounded =
    let t' = (observe_body cfg o.input o.clock o.row_id o.event_id t).1 in
    All-IsBounded cfg run_id os t' h (
      subst (λ r. IsBounded cfg r t') e
        (observe-IsBounded cfg o.input o.clock o.row_id o.event_id t))

-- Whatever a run observes and whenever, and whatever the store held before: after more
-- observations than the action budget, the store says that the run is terminated.
pub observed_run_stops :
    (cfg : Config) (run_id : String) (o : Observation) (os : List Observation) (t : GuardTables)
    → All (Observes run_id) (o ∷ os)
    → cfg.max_action_count < length (o ∷ os)
    → IsStopped run_id (observe_all cfg (o ∷ os) t)
unfolding observe_all
observed_run_stops cfg run_id o os t (e, h) long =
    let t' = (observe_body cfg o.input o.clock o.row_id o.event_id t).1 in
    elim (All-HasCounted cfg run_id (o ∷ os) t 0 (e, h) (inr (omega arith))) [
      | inl stopped ↦ stopped
      | inr many ↦
          elim (All-IsBounded cfg run_id os t' h (
            subst (λ r. IsBounded cfg r t') e
              (observe-IsBounded cfg o.input o.clock o.row_id o.event_id t))) [
                | inl stopped ↦ stopped
                | inr few ↦ absurd (omega arith)
              ]
    ]
