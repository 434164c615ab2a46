-- ===== src/Durable/Effect/Ledger.antt =====
-- The effects over time: what a transition may do, that a closed effect stays closed, and that an
-- idempotency key denotes one effect.
use ogra.Prelude.{
  ℕ, String, ◌≡◌, refl, sym, ap, ◌∙◌, ◌↔◌, inl, inr, Bool, true, false, ◌||◌, none, some, List, [],
  ◌∷◌, str_eq, select, update_where, exists_row, select-update_where, select_sound, arith, eq_iff,
  Option-cases, Bool-cases, if◌then◌else◌,
}
use text.Mathlib.TextPositions.{eq_refl}
use ogra.Durable.Transaction.{Result, ok, err, is_ok}
use ogra.Durable.Effect.{
  EffectState, planned, in_flight, received, awaiting_callback_verification, committed, quarantined,
  compensating, compensated, failed, cancelled_before_send, effect_transitions, state_eq,
  state_name, includes_state, RunEffect, EffectTables, with_id, find_effect,
}
use ogra.Durable.Effect.Transition.{
  EffectTransitionRequest, check_effect, admit, check_transition, storable, at_revision, advanced,
  is_closing, ended, update_effects, end_if_closing, effect_body,
}

-- What `transitionEffect` has found when it goes on to its transaction.
abbrev pub MayMove : EffectTransitionRequest → RunEffect → Type 0
MayMove req e =
    (e.effect_revision ≡ req.expected_revision)
    × (state_eq e.state req.expected_state ≡ true)
    × (includes_state (effect_transitions e.state) req.next_state ≡ true)
    × (state_eq req.next_state in_flight ≡ false)

-- Only a planned effect and one of unknown outcome have an edge to `in_flight`.
into_flight :
    (s : EffectState)
    → includes_state (effect_transitions s) in_flight ≡ true
    → (state_eq s planned || state_eq s EffectState.unknown) ≡ true
unfolding effect_transitions
into_flight planned h = refl
into_flight EffectState.unknown h = refl
into_flight in_flight h = absurd (ground arith)
into_flight received h = absurd (ground arith)
into_flight awaiting_callback_verification h = absurd (ground arith)
into_flight committed h = absurd (ground arith)
into_flight quarantined h = absurd (ground arith)
into_flight compensating h = absurd (ground arith)
into_flight compensated h = absurd (ground arith)
into_flight failed h = absurd (ground arith)
into_flight cancelled_before_send h = absurd (ground arith)

includes_state-name :
    (xs : List EffectState) (a b : EffectState)
    → state_name a ≡ state_name b
    → includes_state xs a ≡ includes_state xs b
includes_state-name [] a b h = refl
includes_state-name (x ∷ xs) a b h =
    ap (λ n. str_eq (state_name x) n || includes_state xs a) h
    ∙ ap (λ i. state_eq x b || i) (includes_state-name xs a b h)

-- An edge to `in_flight` leaves `planned` or `unknown`.
edge_into_flight :
    (s to : EffectState)
    → includes_state (effect_transitions s) to ≡ true
    → state_eq to in_flight ≡ true
    → (state_eq s planned || state_eq s EffectState.unknown) ≡ true
edge_into_flight s to edge h =
    into_flight s
      (sym (includes_state-name (effect_transitions s) to in_flight ((eq_iff _ _).0 h)) ∙ edge)

checked :
    (req : EffectTransitionRequest) (now : ℕ) (e : RunEffect) (t : EffectTables)
    → (check_effect req now e t ≡ ok tt) ↔ MayMove req e
unfolding check_effect
checked req now e t = elim (Bool-cases (state_eq req.next_state in_flight)) [
  | inl reserved ↦ (
    λ h. absurd (ground (arith, edge_into_flight e.state req.next_state)),
    λ (rev, state, edge, free). absurd (ground arith),
  )
  | inr free ↦ (
    λ h. (ground arith, ground arith, ground arith, free),
    λ (rev, state, edge, same). ground arith,
  )
]

pub admit-ok : (e : RunEffect) (r : Result (Unit {0})) → (is_ok (admit e r) ≡ true) ↔ (r ≡ ok tt)
unfolding admit
admit-ok e (ok tt) = (λ h. refl, λ h. refl)
admit-ok e (err x) = (λ h. absurd (ground arith), λ h. absurd (ground arith))

pub check-found :
    (req : EffectTransitionRequest) (now : ℕ) (t : EffectTables) (e : RunEffect)
    → find_effect req.effect_id t.effects ≡ some e
    → check_transition req now t ≡ admit e (check_effect req now e t)
unfolding check_transition
check-found req now t e found = ground arith

-- `transitionEffect` goes on to its transaction exactly if the effect exists, is at the expected
-- revision and in the expected state, `EFFECT_TRANSITIONS` has the edge, and the next state is not
-- `in_flight`: no caller of the generic transition puts an effect in flight, with or without a
-- recovery lease.
pub transition_admits_iff :
    (req : EffectTransitionRequest) (now : ℕ) (t : EffectTables)
    → (is_ok (check_transition req now t) ≡ true)
      ↔ ((e : RunEffect) × (find_effect req.effect_id t.effects ≡ some e) × MayMove req e)
unfolding check_transition
transition_admits_iff req now t = elim (Option-cases (find_effect req.effect_id t.effects)) [
  | inl free ↦ (λ h. absurd (ground arith), λ (e, found, may). absurd (ground arith))
  | inr (e, found) ↦ (
    λ h. (
      e,
      found,
      (checked req now e t).0 (
          (admit-ok e (check_effect req now e t)).0
            (ap is_ok (sym (check-found req now t e found)) ∙ h)),
    ),
    λ (f, found', may).
        ap is_ok (check-found req now t f found')
        ∙ (admit-ok f (check_effect req now f t)).1 ((checked req now f t).1 may),
  )
]

-- The row that a committed transition leaves.
abbrev pub result_of : EffectTransitionRequest → ℕ → String → RunEffect → RunEffect
result_of req now event_id e =
    if is_closing req.next_state
    then ended event_id (advanced req.next_state now e)
    else advanced req.next_state now e

-- The row of `id` after a transition of `k`.
abbrev pub row_after :
    EffectTransitionRequest → ℕ → String → String → String → RunEffect → RunEffect
row_after req now event_id k id x = if str_eq k id then result_of req now event_id x else x

find-update :
    (id : String) (p : RunEffect → Bool) (f : RunEffect → RunEffect) (effects : List RunEffect)
    → ((x : RunEffect) → (f x).id ≡ x.id)
    → find_effect id (update_where p f effects)
      ≡ elim (find_effect id effects) [ none ↦ none | some x ↦ some (if p x then f x else x) ]
find-update id p f effects h =
    select-update_where (with_id id) p f effects (λ x. ap (λ i. str_eq i id) (h x))

pub find_effect_sound :
    (id : String) (effects : List RunEffect) (x : RunEffect)
    → find_effect id effects ≡ some x
    → x.id ≡ id
find_effect_sound id effects x h = (eq_iff _ _).0 (select_sound (with_id id) effects x h)

moved-rows :
    (req : EffectTransitionRequest) (e : RunEffect) (now : ℕ) (event_id id : String)
    (t : EffectTables)
    → find_effect e.id t.effects ≡ some e
    → find_effect id
        (end_if_closing req e event_id
          (update_effects (at_revision e) (advanced req.next_state now) t)).effects
      ≡ elim (find_effect id t.effects) [
        | none ↦ none
        | some x ↦ some (row_after req now event_id e.id id x)
      ]
moved-rows req e now event_id id t found =
    let moved = update_where (at_revision e) (advanced req.next_state now) t.effects in
    elim (Option-cases (find_effect id t.effects)) [
      | inl free ↦ ground (
        arith,
        find-update id (at_revision e) (advanced req.next_state now) t.effects (λ x. refl),
        find-update id (with_id e.id) (ended event_id) moved (λ x. refl),
      )
      | inr (x, was) ↦ elim (Bool-cases (str_eq e.id id)) [
        | inl own ↦
            let same : x ≡ e = ground (arith, (eq_iff e.id id).0 own) in
            ground (
              arith,
              eq_refl e.id,
              same,
              ap (λ (r : RunEffect). r.id) same,
              ap (λ (r : RunEffect). r.effect_revision) same,
              find-update id (at_revision e) (advanced req.next_state now) t.effects (λ y. refl),
              find-update id (with_id e.id) (ended event_id) moved (λ y. refl),
            )
        | inr other ↦ ground (
          arith,
          find_effect_sound id t.effects x was,
          eq_iff x.id e.id,
          eq_iff e.id id,
          find-update id (at_revision e) (advanced req.next_state now) t.effects (λ y. refl),
          find-update id (with_id e.id) (ended event_id) moved (λ y. refl),
        )
      ]
    ]

exists_at_revision :
    (e : RunEffect) (effects : List RunEffect)
    → find_effect e.id effects ≡ some e
    → exists_row (at_revision e) effects ≡ true
unfolding exists_row select
exists_at_revision e [] h = absurd (ground arith)
exists_at_revision e (x ∷ xs) h = elim (Bool-cases (str_eq x.id e.id)) [
  | inl own ↦ ground (arith, eq_refl e.id)
  | inr other ↦ ground (arith, exists_at_revision e xs)
]

-- `transitionEffect` on the stored effect `e` that its tests have admitted, into a state that the
-- column can hold: it commits, returns the effect in the next state and at the next revision, with
-- the closing event in a closing state, and leaves every other effect as it was.
pub effect_transition_commits :
    (req : EffectTransitionRequest) (e : RunEffect) (now : ℕ) (event_id : String) (t : EffectTables)
    → find_effect e.id t.effects ≡ some e
    → storable req.next_state ≡ true
    → (after : EffectTables) × (effect_body req e now event_id t
        ≡ ok (result_of req now event_id e, after))
      × ((id : String)
          → find_effect id after.effects ≡ elim (find_effect id t.effects) [
            | none ↦ none
            | some x ↦ some (row_after req now event_id e.id id x)
          ])
unfolding effect_body
effect_transition_commits req e now event_id t found storable_next = (
  end_if_closing req e event_id (update_effects (at_revision e) (advanced req.next_state now) t),
  ground (
    arith,
    moved-rows req e now event_id e.id t found,
    eq_refl e.id,
    exists_at_revision e t.effects found,
  ),
  λ id. moved-rows req e now event_id id t found,
)
