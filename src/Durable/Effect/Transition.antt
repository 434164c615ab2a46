-- ===== src/Durable/Effect/Transition.antt =====
-- `transitionEffect` and `assertEffectInSubtree` of
-- ogra-desktop/src/core/durable-runtime-service.ts.
use ogra.Prelude.{
  ℕ, ◌+◌, String, Bool, true, false, not, ◌&&◌, ◌||◌, Option, none, some, List, [], ◌∷◌, ◌==◌,
  is_some, includes, str_eq, update_where, exists_row, or_else, if◌then◌else◌,
}
use ogra.Audit.Json.{Json, null, num, str, object}
use ogra.Audit.Chain.{Surroundings}
use ogra.Audit.Log.{EventLog}
use ogra.Durable.Transaction.{
  database_error, effect_not_found, effect_invalid_transition, revision_conflict,
  repair_sibling_overreach, lease_not_held, lease_taken_over, Result, ok, err, Tx, ◌>>=◌, ◌>>◌,
  require, gets, modify, Call, transactional_append, before_transaction,
}
use ogra.Durable.Frame.Operations.{is_in_subtree}
use ogra.Durable.Lease.{find_lease, lease_expired}
use ogra.Durable.Effect.{
  EffectState, planned, in_flight, received, awaiting_callback_verification, committed, quarantined,
  compensating, compensated, failed, cancelled_before_send, effect_transitions, state_name,
  state_eq, includes_state, RunEffect, EffectTables, with_id, find_effect, reread_effect,
  effect_meta,
}

pub record EffectTransitionRequest : Type 0 where
  pub effect_id : String
  pub expected_revision : ℕ
  pub expected_state : EffectState
  pub next_state : EffectState
  pub lease_holder : Option String
  pub next_attempt_no : Option ℕ

-- The gate on `unknown -> in_flight`: the caller names itself as the lease holder and gives an
-- attempt number (a missing one is null here), and holds a live lease on the effect's run.
unfoldable pub lease_gate :
    EffectTransitionRequest → RunEffect → ℕ → EffectTables → Result (Unit {0})
lease_gate req current now t =
    if str_eq (or_else req.lease_holder "") "" || not (is_some req.next_attempt_no)
    then err lease_not_held
    else elim (find_lease current.run_id t.leases) [
      | none ↦ err lease_not_held
      | some lease ↦
          if not (str_eq lease.holder_id (or_else req.lease_holder ""))
          then err lease_not_held
          else if lease_expired now lease
          then err lease_taken_over
          else ok tt
    ]

-- The tests of `transitionEffect` on the effect that it has read, in the order of the code.
unfoldable pub check_effect :
    EffectTransitionRequest → ℕ → RunEffect → EffectTables → Result (Unit {0})
check_effect req now current t =
    if not (current.effect_revision == req.expected_revision)
    then err revision_conflict
    else if not (state_eq current.state req.expected_state)
    then err effect_invalid_transition
    else if not (includes_state (effect_transitions current.state) req.next_state)
    then err effect_invalid_transition
    else if state_eq req.next_state in_flight
        && (state_eq current.state planned || state_eq current.state EffectState.unknown)
    then err effect_invalid_transition
    else if state_eq current.state EffectState.unknown && state_eq req.next_state in_flight
    then lease_gate req current now t
    else ok tt

unfoldable pub admit : RunEffect → Result (Unit {0}) → Result RunEffect
admit current (ok _) = ok current
admit current (err e) = err e

-- The effect that passes these tests.
unfoldable pub check_transition : EffectTransitionRequest → ℕ → EffectTables → Result RunEffect
check_transition req now t = elim (find_effect req.effect_id t.effects) [
  | none ↦ err effect_not_found
  | some current ↦ admit current (check_effect req now current t)
]

-- The states that the `CHECK` of the column `run_effects.state` allows.
abbrev pub storable : EffectState → Bool
storable planned = true
storable in_flight = true
storable EffectState.unknown = true
storable received = true
storable awaiting_callback_verification = false
storable committed = true
storable quarantined = true
storable compensating = true
storable compensated = true
storable failed = true
storable cancelled_before_send = true

-- `id = ? AND effect_revision = ?`
abbrev pub at_revision : RunEffect → RunEffect → Bool
at_revision current e = with_id current.id e && (e.effect_revision == current.effect_revision)

abbrev pub advanced : EffectState → ℕ → RunEffect → RunEffect
advanced next now e = record e {
  state = next;
  effect_revision = e.effect_revision + 1;
  updated_at = now;
}

abbrev pub is_closing : EffectState → Bool
is_closing quarantined = true
is_closing compensated = true
is_closing failed = true
is_closing cancelled_before_send = true
is_closing planned = false
is_closing in_flight = false
is_closing EffectState.unknown = false
is_closing received = false
is_closing awaiting_callback_verification = false
is_closing committed = false
is_closing compensating = false

abbrev pub ended : String → RunEffect → RunEffect
ended event_id e = record e { terminal_event_id = some event_id }

abbrev pub update_effects :
    (RunEffect → Bool) → (RunEffect → RunEffect) → EffectTables → EffectTables
update_effects p f t = record t { effects = update_where p f t.effects }

abbrev pub end_if_closing :
    EffectTransitionRequest → RunEffect → String → EffectTables → EffectTables
end_if_closing req current event_id t =
    if is_closing req.next_state then update_effects (with_id current.id) (ended event_id) t else t

-- The body of `transitionEffect`.
unfoldable pub effect_body :
    EffectTransitionRequest → RunEffect → ℕ → String → Tx EffectTables RunEffect
effect_body req current now event_id = do
  changes ← gets (λ (t : EffectTables). exists_row (at_revision current) t.effects)
  require changes revision_conflict
  require (storable req.next_state) database_error
  modify (update_effects (at_revision current) (advanced req.next_state now))
  modify (end_if_closing req current event_id)
  reread_effect current.id

abbrev attempt : Option ℕ → Json
attempt none = null
attempt (some n) = num n

-- `assertEffectInSubtree`, with the walk in `fuel` rounds; none if they do not do.
unfoldable pub assert_effect_in_subtree :
    ℕ → String → String → List String → EffectTables → Option (Result (Unit {0}))
assert_effect_in_subtree fuel effect_id target authorized t =
    elim (find_effect effect_id t.effects) [
      | none ↦ some (err effect_not_found)
      | some e ↦ elim (is_in_subtree fuel e.owner_frame_id target t.frames) [
        | none ↦ none
        | some inside ↦ some (
            if inside
            then ok tt
            else if includes authorized e.owner_frame_id
            then ok tt
            else err repair_sibling_overreach)
      ]
    ]

module _ (L : EventLog) where
  -- `transitionEffect`
  unfoldable pub transition_effect :
      Surroundings → ℕ → EffectTransitionRequest → Call L EffectTables RunEffect
  transition_effect s now req = before_transaction L (check_transition req now) λ current.
      transactional_append L s
        (effect_meta current.run_id none current.id "effect_transition" (
          object (
            ("effectId", str current.id)
            ∷ ("fromState", str (state_name current.state))
            ∷ ("toState", str (state_name req.next_state))
            ∷ ("revision", num current.effect_revision)
            ∷ ("nextAttemptNo", attempt req.next_attempt_no)
            ∷ [])))
        (effect_body req current now)
