-- ===== src/Durable/Effect/Closed.antt =====
-- The effects over time: a closed effect stays as it was closed.
use ogra.Prelude.{
  ℕ, String, ◌≡◌, refl, sym, ap, subst, ◌∙◌, inl, inr, true, false, some, str_eq, select-insert_row,
  arith, eq_iff, Bool-cases,
}
use ogra.Durable.Transaction.{Result, ok, err, is_ok}
use ogra.Durable.Effect.{
  EffectState, planned, in_flight, received, awaiting_callback_verification, committed, quarantined,
  compensating, compensated, failed, cancelled_before_send, effect_transitions, includes_state,
  RunEffect, EffectTables, with_id, find_effect,
}
use ogra.Durable.Effect.Plan.{PlannedEffectRequest, plan_body}
use ogra.Durable.Effect.Transition.{
  EffectTransitionRequest, check_effect, admit, check_transition, storable, is_closing, effect_body,
}
use ogra.Durable.Effect.Ledger.{
  MayMove, check-found, transition_admits_iff, find_effect_sound, effect_transition_commits,
}
use ogra.Durable.Effect.Keys.{plan-written}

-- One committed write of the effects: a plan, or a transition that its tests have admitted.
pub data Step (t after : EffectTables) : Type 0 where
  plan :
      (req : PlannedEffectRequest) (id edge_id event_id : String) (now : ℕ) (e : RunEffect)
      → plan_body req id edge_id now event_id t ≡ ok (e, after)
      → Step t after
  transition :
      (req : EffectTransitionRequest) (e e' : RunEffect) (now : ℕ) (event_id : String)
      → check_transition req now t ≡ ok e
      → effect_body req e now event_id t ≡ ok (e', after)
      → Step t after

pub data Reach (start : EffectTables) : EffectTables → Type 0 where
  here : Reach start start
  next : {t u : EffectTables} → Reach start t → Step t u → Reach start u

no_edge :
    (s to : EffectState) → is_closing s ≡ true → includes_state (effect_transitions s) to ≡ false
unfolding effect_transitions
no_edge quarantined to h = refl
no_edge compensated to h = refl
no_edge failed to h = refl
no_edge cancelled_before_send to h = refl
no_edge planned to h = absurd (ground arith)
no_edge in_flight to h = absurd (ground arith)
no_edge EffectState.unknown to h = absurd (ground arith)
no_edge received to h = absurd (ground arith)
no_edge awaiting_callback_verification to h = absurd (ground arith)
no_edge committed to h = absurd (ground arith)
no_edge compensating to h = absurd (ground arith)

plan-find :
    (key : String) (x : RunEffect) (req : PlannedEffectRequest) (id edge_id event_id : String)
    (now : ℕ) (e : RunEffect) (t after : EffectTables)
    → plan_body req id edge_id now event_id t ≡ ok (e, after)
    → find_effect key t.effects ≡ some x
    → find_effect key after.effects ≡ some x
plan-find key x req id edge_id event_id now e t after h found =
    let (first, made, written) = plan-written req id edge_id event_id now e t after h in
    ap (find_effect key) written ∙ ground (arith, select-insert_row (with_id key) e t.effects)

admit_same : (f e : RunEffect) (r : Result (Unit {0})) → admit f r ≡ ok e → f ≡ e
unfolding admit
admit_same f e (ok tt) h = ground arith
admit_same f e (err x) h = absurd (ground arith)

-- The effect that a transition's tests have admitted is the stored one.
pub admitted :
    (req : EffectTransitionRequest) (now : ℕ) (e : RunEffect) (t : EffectTables)
    → check_transition req now t ≡ ok e
    → (find_effect e.id t.effects ≡ some e) × MayMove req e
admitted req now e t h =
    let (f, found, may) = (transition_admits_iff req now t).0 (ap is_ok h) in
    let same =
      admit_same f e (check_effect req now f t) (sym (check-found req now t f found) ∙ h) in
    subst (λ x. (find_effect x.id t.effects ≡ some x) × MayMove req x) same
      (
        ap (λ k. find_effect k t.effects) (find_effect_sound req.effect_id t.effects f found)
            ∙ found,
        may,
      )

pub only_storable :
    (req : EffectTransitionRequest) (e e' : RunEffect) (now : ℕ) (event_id : String)
    (t after : EffectTables)
    → effect_body req e now event_id t ≡ ok (e', after)
    → storable req.next_state ≡ true
unfolding effect_body
only_storable req e e' now event_id t after h = ground arith

pub same_tables :
    (r : Result (RunEffect × EffectTables)) (e f : RunEffect) (t u : EffectTables)
    → r ≡ ok (e, t)
    → r ≡ ok (f, u)
    → t ≡ u
same_tables r e f t u h k = ground arith

transition-find :
    (key : String) (x : RunEffect) (req : EffectTransitionRequest) (e e' : RunEffect) (now : ℕ)
    (event_id : String) (t after : EffectTables)
    → is_closing x.state ≡ true
    → check_transition req now t ≡ ok e
    → effect_body req e now event_id t ≡ ok (e', after)
    → find_effect key t.effects ≡ some x
    → find_effect key after.effects ≡ some x
transition-find key x req e e' now event_id t after closed checked h found =
    let (stored, may) = admitted req now e t checked in
    let (left, committed_there, rows) =
      effect_transition_commits req e now event_id t stored
        (only_storable req e e' now event_id t after h) in
    let same = same_tables _ _ _ _ _ h committed_there in
    ap (λ (u : EffectTables). find_effect key u.effects) same
    ∙ elim (Bool-cases (str_eq e.id key)) [
      | inl own ↦
          let there = ap (λ k. find_effect k t.effects) (sym ((eq_iff e.id key).0 own)) ∙ stored in
          let same_row : x ≡ e = ground (arith, found, there) in
          let (rev, state, edge, free) = may in
          absurd (
            ground (
              arith,
              edge,
              ap (λ (r : RunEffect). includes_state (effect_transitions r.state) req.next_state)
                  same_row,
              no_edge x.state req.next_state closed,
            ))
      | inr other ↦ ground (arith, rows key, found, other)
    ]

Step-find :
    (key : String) (x : RunEffect) (t after : EffectTables)
    → is_closing x.state ≡ true
    → Step t after
    → find_effect key t.effects ≡ some x
    → find_effect key after.effects ≡ some x
Step-find key x t after closed (plan req id edge_id event_id now e h) =
    plan-find key x req id edge_id event_id now e t after h
Step-find key x t after closed (transition req e e' now event_id checked h) =
    transition-find key x req e e' now event_id t after closed checked h

-- A closed effect (quarantined, compensated, failed or cancelled before its send) keeps its whole
-- row through every sequence of committed plans and generic transitions, whichever effects they are
-- about.
pub closed_effect_is_final :
    (key : String) (x : RunEffect) (t after : EffectTables)
    → is_closing x.state ≡ true
    → Reach t after
    → find_effect key t.effects ≡ some x
    → find_effect key after.effects ≡ some x
closed_effect_is_final key x t after closed here found = found
closed_effect_is_final key x t after closed (next {t = u} reach step) found =
    Step-find key x u after closed step (closed_effect_is_final key x t u closed reach found)
