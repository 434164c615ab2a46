-- ===== src/Durable/Repair/Order.antt =====
-- A repair plan that the preflight accepts lists the effects in the order of their dependencies.
use ogra.Prelude.{
  ℕ, suc, ◌+◌, ◌<◌, ◌≤◌, String, ◌≡◌, ◌↔◌, refl, sym, ap, subst, ◌∙◌, inl, inr, true, false, Option,
  none, some, List, [], ◌∷◌, ◌++◌, length, All, includes, str_eq, arith, eq_iff, Option-cases,
  Bool-cases, select_sound,
}
use ogra.Durable.Transaction.{ok}
use ogra.Durable.Effect.{RunEffect, EffectTables, with_id, find_effect, read_effect}
use ogra.Durable.Repair.{
  RepairStepProposal, ids, repeats, step_index_by_effect, check_dependencies, check_steps,
  check_order,
}

index-ge :
    (k i : ℕ) (plan : List RepairStepProposal) (id : String)
    → step_index_by_effect k plan id ≡ some i
    → k ≤ i
unfolding step_index_by_effect
index-ge k i [] id h = absurd (cc)
index-ge k i (s ∷ plan) id h = ground (arith, index-ge (suc k) i plan id)

index-before :
    (k i : ℕ) (pre : List RepairStepProposal) (s : RepairStepProposal)
    (post : List RepairStepProposal) (id : String)
    → step_index_by_effect k (pre ++ s ∷ post) id ≡ some i
    → i < k + length pre
    → includes (ids pre) id ≡ true
unfolding step_index_by_effect
index-before k i [] s post id h below = absurd (omega (arith, index-ge k i (s ∷ post) id h, below))
index-before k i (p ∷ pre) s post id h below = ground (arith, index-before (suc k) i pre s post id)

index-absent :
    (k : ℕ) (plan : List RepairStepProposal) (id : String)
    → includes (ids plan) id ≡ false
    → step_index_by_effect k plan id ≡ none
unfolding step_index_by_effect
index-absent k [] id h = refl
index-absent k (s ∷ plan) id h = ground (arith, index-absent (suc k) plan id)

index-own :
    (k : ℕ) (pre : List RepairStepProposal) (s : RepairStepProposal)
    (post : List RepairStepProposal)
    → includes (ids post) s.effect_id ≡ false
    → step_index_by_effect k (pre ++ s ∷ post) s.effect_id ≡ some (k + length pre)
unfolding step_index_by_effect
index-own k [] s post h =
    ground (arith, index-absent (suc k) post s.effect_id h, eq_iff s.effect_id s.effect_id)
index-own k (p ∷ pre) s post h = ground (arith, index-own (suc k) pre s post h)

unseen :
    (seen : List String) (plan : List RepairStepProposal) (id : String)
    → repeats seen plan ≡ false
    → includes seen id ≡ true
    → includes (ids plan) id ≡ false
unfolding repeats
unseen seen [] id h was = refl
unseen seen (s ∷ plan) id h was =
    ground (arith, unseen (s.effect_id ∷ seen) plan id, eq_iff s.effect_id id)

once :
    (seen : List String) (pre : List RepairStepProposal) (s : RepairStepProposal)
    (post : List RepairStepProposal)
    → repeats seen (pre ++ s ∷ post) ≡ false
    → includes (ids post) s.effect_id ≡ false
unfolding repeats
once seen [] s post h =
    ground (arith, unseen (s.effect_id ∷ seen) post s.effect_id, eq_iff s.effect_id s.effect_id)
once seen (p ∷ pre) s post h = ground (arith, once (p.effect_id ∷ seen) pre s post)

check-All :
    (index : String → Option ℕ) (own : ℕ) (deps : List String)
    → check_dependencies index (some own) deps ≡ ok tt
    → All (λ d. (i : ℕ) × (index d ≡ some i) × (i < own)) deps
unfolding check_dependencies
check-All index own [] h = tt
check-All index own (d ∷ deps) h = elim (Option-cases (index d)) [
  | inl missing ↦ absurd (ground arith)
  | inr (i, found) ↦
      let rest = check-All index own deps (ground arith) in ((i, found, ground arith), rest)
]

All-check :
    (index : String → Option ℕ) (own : ℕ) (deps : List String)
    → All (λ d. (i : ℕ) × (index d ≡ some i) × (i < own)) deps
    → check_dependencies index (some own) deps ≡ ok tt
unfolding check_dependencies
All-check index own [] h = refl
All-check index own (d ∷ deps) ((i, found, below), h) = ground (arith, All-check index own deps h)

-- The step finds its effect, and the effects that it depends on are among `before`.
abbrev pub IsReady : List String → RepairStepProposal → EffectTables → Type 0
IsReady before s t =
    (e : RunEffect) × (find_effect s.effect_id t.effects ≡ some e)
    × All (λ d. includes before d ≡ true) e.dependency_effect_ids

-- Every step of the plan is ready after the steps before it.
abbrev pub IsInOrder : List RepairStepProposal → EffectTables → Type 0
IsInOrder plan t =
    (pre : List RepairStepProposal) (s : RepairStepProposal) (post : List RepairStepProposal)
    → plan ≡ pre ++ s ∷ post
    → IsReady (ids pre) s t

index-among :
    (seen : List String) (k : ℕ) (pre rest : List RepairStepProposal) (id : String)
    → repeats seen (pre ++ rest) ≡ false
    → includes (ids pre) id ≡ true
    → (i : ℕ) × (step_index_by_effect k (pre ++ rest) id ≡ some i) × (i < k + length pre)
unfolding step_index_by_effect repeats
index-among seen k [] rest id h among = absurd (cc)
index-among seen k (p ∷ pre) rest id h among = elim (Bool-cases (str_eq p.effect_id id)) [
  | inl same ↦
      let fresh =
        unseen (p.effect_id ∷ seen) (pre ++ rest) id (ground arith) (ground (arith, same)) in
      (k, ground (arith, same, index-absent (suc k) (pre ++ rest) id fresh), omega arith)
  | inr other ↦
      let (i, found, below) =
        index-among (p.effect_id ∷ seen) (suc k) pre rest id (ground arith)
          (ground (arith, other)) in
      (i, ground (arith, found), omega (arith, below))
]

-- What the loop over the steps asks of one step.
abbrev Passes : (String → Option ℕ) → EffectTables → RepairStepProposal → Type 0
Passes index t s =
    (e : RunEffect) × (find_effect s.effect_id t.effects ≡ some e)
    × (check_dependencies index (index e.id) e.dependency_effect_ids ≡ ok tt)

check_steps-at :
    (index : String → Option ℕ) (t : EffectTables) (pre : List RepairStepProposal)
    (s : RepairStepProposal) (post : List RepairStepProposal)
    → check_steps index t (pre ++ s ∷ post) ≡ ok tt
    → Passes index t s
unfolding check_steps read_effect
check_steps-at index t [] s post h = elim (Option-cases (find_effect s.effect_id t.effects)) [
  | inl missing ↦ absurd (ground arith)
  | inr (e, found) ↦ (e, found, ground arith)
]
check_steps-at index t (p ∷ pre) s post h = check_steps-at index t pre s post (ground arith)

Passes-check_steps :
    (index : String → Option ℕ) (t : EffectTables) (plan : List RepairStepProposal)
    → ((pre : List RepairStepProposal) (s : RepairStepProposal) (post : List RepairStepProposal)
        → plan ≡ pre ++ s ∷ post
        → Passes index t s)
    → check_steps index t plan ≡ ok tt
unfolding check_steps read_effect
Passes-check_steps index t [] h = refl
Passes-check_steps index t (s ∷ plan) h =
    let (e, found, checked) = h [] s plan refl in
    let rest =
      Passes-check_steps index t plan
        λ pre s' post split. h (s ∷ pre) s' post (ap (λ l. s ∷ l) split) in
    ground (arith, found, checked, rest)

All-map :
    {P Q : String → Type 0} (xs : List String) → ((x : String) → P x → Q x) → All P xs → All Q xs
All-map [] f h = tt
All-map (x ∷ xs) f (p, h) = (f x p, All-map xs f h)

-- The index of a step's own effect is its place in the plan.
effect-place :
    (pre : List RepairStepProposal) (s : RepairStepProposal) (post : List RepairStepProposal)
    (t : EffectTables) (e : RunEffect)
    → repeats [] (pre ++ s ∷ post) ≡ false
    → find_effect s.effect_id t.effects ≡ some e
    → step_index_by_effect 0 (pre ++ s ∷ post) e.id ≡ some (length pre)
effect-place pre s post t e h found =
    let named = (eq_iff _ _).0 (select_sound (with_id s.effect_id) t.effects e found) in
    ap (λ id. step_index_by_effect 0 (pre ++ s ∷ post) id) named
    ∙ index-own 0 pre s post (once [] pre s post h)
    ∙ ap some (omega arith)

Passes-IsReady :
    (pre : List RepairStepProposal) (s : RepairStepProposal) (post : List RepairStepProposal)
    (t : EffectTables)
    → repeats [] (pre ++ s ∷ post) ≡ false
    → Passes (step_index_by_effect 0 (pre ++ s ∷ post)) t s ↔ IsReady (ids pre) s t
Passes-IsReady pre s post t h =
    let index = step_index_by_effect 0 (pre ++ s ∷ post) in
    (
      λ (e, found, checked).
          let at =
            subst (λ o. check_dependencies index o e.dependency_effect_ids ≡ ok tt)
              (effect-place pre s post t e h found) checked in
          (
            e,
            found,
            All-map e.dependency_effect_ids
                (λ d (i, place, below). index-before 0 i pre s post d place (omega (arith, below)))
                (check-All index (length pre) e.dependency_effect_ids at),
          ),
      λ (e, found, among).
          let placed =
            All-map e.dependency_effect_ids
              (λ d a.
                let (i, place, below) = index-among [] 0 pre (s ∷ post) d h a in
                (i, place, omega (arith, below)))
              among in
          (
            e,
            found,
            subst (λ o. check_dependencies index o e.dependency_effect_ids ≡ ok tt)
                (sym (effect-place pre s post t e h found))
                (All-check index (length pre) e.dependency_effect_ids placed),
          ),
    )

-- For a plan that names no effect twice, the dependency test accepts exactly if every step finds
-- its effect and every effect that it depends on is repaired by an earlier step.
pub check_order_iff :
    (plan : List RepairStepProposal) (t : EffectTables)
    → repeats [] plan ≡ false
    → (check_order plan t ≡ ok tt) ↔ IsInOrder plan t
unfolding check_order
check_order_iff plan t h = (
  λ accepted pre s post split.
      let split_fresh = subst (λ l. repeats [] l ≡ false) split h in
      let split_ok =
        subst (λ l. check_steps (step_index_by_effect 0 l) t l ≡ ok tt) split accepted in
      (Passes-IsReady pre s post t split_fresh).0
        (check_steps-at (step_index_by_effect 0 (pre ++ s ∷ post)) t pre s post split_ok),
  λ ordered. Passes-check_steps (step_index_by_effect 0 plan) t plan λ pre s post split.
      let split_fresh = subst (λ l. repeats [] l ≡ false) split h in
      subst (λ l. Passes (step_index_by_effect 0 l) t s) (sym split)
        ((Passes-IsReady pre s post t split_fresh).1 (ordered pre s post split)),
)
