-- ===== src/Durable/Effect/Awaiting.antt =====
-- The state `awaiting_callback_verification` of `run_effects`, which no write of
-- ogra-desktop/src/core/durable-runtime-service.ts stores.
use ogra.Prelude.{
  ℕ, String, ◌≡◌, ◌≢◌, refl, sym, ap, ◌∙◌, inl, inr, true, some, str_eq, select-insert_row, arith,
  Bool-cases, Option-cases,
}
use ogra.Durable.Transaction.{ok}
use ogra.Durable.Effect.{
  EffectState, planned, in_flight, received, awaiting_callback_verification, committed, quarantined,
  compensating, compensated, failed, cancelled_before_send, effect_transitions, includes_state,
  RunEffect, EffectTables, with_id, find_effect,
}
use ogra.Durable.Effect.Plan.{PlannedEffectRequest, plan_body}
use ogra.Durable.Effect.Transition.{
  EffectTransitionRequest, check_transition, storable, is_closing, effect_body,
}
use ogra.Durable.Effect.Ledger.{row_after, effect_transition_commits}
use ogra.Durable.Effect.Keys.{plan-written}
use ogra.Durable.Effect.Closed.{
  Step, plan, transition, Reach, here, next, admitted, only_storable, same_tables,
}

-- The column can hold the state of every effect.
abbrev AllStorable : EffectTables → Type 0
AllStorable t =
    (key : String) (x : RunEffect) → find_effect key t.effects ≡ some x → storable x.state ≡ true

plan-AllStorable :
    (req : PlannedEffectRequest) (id edge_id event_id : String) (now : ℕ) (e : RunEffect)
    (t after : EffectTables)
    → plan_body req id edge_id now event_id t ≡ ok (e, after)
    → AllStorable t
    → AllStorable after
plan-AllStorable req id edge_id event_id now e t after h before key x found =
    let (first, made, written) = plan-written req id edge_id event_id now e t after h in
    let fresh : storable e.state ≡ true = ap (λ y. storable y.state) made in
    let there = sym (ap (find_effect key) written) ∙ found in
    elim (Option-cases (find_effect key t.effects)) [
      | inr (y, old) ↦
          let same : y ≡ x =
            ground (arith, there, old, select-insert_row (with_id key) e t.effects) in
          ap (λ z. storable z.state) (sym same) ∙ before key y old
      | inl free ↦
          let same : e ≡ x =
            ground (arith, there, free, select-insert_row (with_id key) e t.effects) in
          ap (λ z. storable z.state) (sym same) ∙ fresh
    ]

row_after-storable :
    (req : EffectTransitionRequest) (now : ℕ) (event_id k id : String) (x : RunEffect)
    → storable req.next_state ≡ true
    → storable x.state ≡ true
    → storable (row_after req now event_id k id x).state ≡ true
row_after-storable req now event_id k id x to from = elim (Bool-cases (str_eq k id)) [
  | inr other ↦ ground (arith, other, from)
  | inl own ↦ elim (Bool-cases (is_closing req.next_state)) [
    | inl closing ↦ ground (arith, own, closing, to)
    | inr going ↦ ground (arith, own, going, to)
  ]
]

transition-AllStorable :
    (req : EffectTransitionRequest) (e e' : RunEffect) (now : ℕ) (event_id : String)
    (t after : EffectTables)
    → check_transition req now t ≡ ok e
    → effect_body req e now event_id t ≡ ok (e', after)
    → AllStorable t
    → AllStorable after
transition-AllStorable req e e' now event_id t after checked h before key x found =
    let (stored, may) = admitted req now e t checked in
    let to = only_storable req e e' now event_id t after h in
    let (left, there_is, rows) = effect_transition_commits req e now event_id t stored to in
    let same = same_tables _ _ _ _ _ h there_is in
    let there = sym (rows key) ∙ ap (λ u. find_effect key u.effects) (sym same) ∙ found in
    elim (Option-cases (find_effect key t.effects)) [
      | inl free ↦ absurd (ground (arith, there, free))
      | inr (y, old) ↦
          let is_row : row_after req now event_id e.id key y ≡ x = ground (arith, there, old) in
          ap (λ z. storable z.state) (sym is_row)
          ∙ row_after-storable req now event_id e.id key y to (before key y old)
    ]

Step-AllStorable : (t after : EffectTables) → Step t after → AllStorable t → AllStorable after
Step-AllStorable t after (plan req id edge_id event_id now e h) =
    plan-AllStorable req id edge_id event_id now e t after h
Step-AllStorable t after (transition req e e' now event_id checked h) =
    transition-AllStorable req e e' now event_id t after checked h

Reach-AllStorable : (t after : EffectTables) → AllStorable t → Reach t after → AllStorable after
Reach-AllStorable t after before here = before
Reach-AllStorable t after before (next {t = u} reach step) =
    Step-AllStorable u after step (Reach-AllStorable t u before reach)

-- No stored effect waits for the verification of its callback.
abbrev pub NoneAwaits : EffectTables → Type 0
NoneAwaits t =
    (key : String) (x : RunEffect)
    → find_effect key t.effects ≡ some x
    → x.state ≢ awaiting_callback_verification

awaits_not : (s : EffectState) → storable s ≡ true → s ≢ awaiting_callback_verification
awaits_not s h same = ground (arith, sym h ∙ ap storable same)

others_storable : (s : EffectState) → s ≢ awaiting_callback_verification → storable s ≡ true
others_storable awaiting_callback_verification other = absurd (other refl)
others_storable planned other = refl
others_storable in_flight other = refl
others_storable EffectState.unknown other = refl
others_storable received other = refl
others_storable committed other = refl
others_storable quarantined other = refl
others_storable compensating other = refl
others_storable compensated other = refl
others_storable failed other = refl
others_storable cancelled_before_send other = refl

-- `EFFECT_TRANSITIONS` has an edge from `received` to `awaiting_callback_verification`, and yet no
-- sequence of committed plans and generic transitions, from tables where no effect is in that state,
-- ever stores an effect in it.
pub callback_verification_unreachable :
    (t after : EffectTables) (key : String) (x : RunEffect)
    → NoneAwaits t
    → Reach t after
    → find_effect key after.effects ≡ some x
    → (includes_state (effect_transitions received) awaiting_callback_verification ≡ true)
      × (x.state ≢ awaiting_callback_verification)
unfolding effect_transitions
callback_verification_unreachable t after key x before reach found = (
  refl,
  awaits_not x.state (
      Reach-AllStorable t after (λ k y at. others_storable y.state (before k y at)) reach key x
        found),
)
