-- ===== src/Protocol/History.antt =====
-- Histories of the protocol: sequences of its operations on ogra-desktop/src/core/database.ts's
-- tables, between which other services write anything but the effects.
use ogra.Prelude.{
  ℕ, ◌+◌, String, ◌≡◌, refl, sym, ap, subst, ◌∙◌, ◌⊎◌, inl, inr, Bool, true, false, ◌||◌, some,
  List, arith, ltb,
}
use ogra.Audit.Json.{Json}
use ogra.Durable.Transaction.{Result, ok, Tx}
use ogra.Durable.Effect.{
  EffectState, planned, in_flight, received, awaiting_callback_verification, committed, quarantined,
  compensating, compensated, failed, cancelled_before_send, effect_transitions, includes_state,
  state_eq, RunEffect, find_effect,
}
use ogra.Capsule.{SealedCapsuleRow, Vault, Fresh}
use ogra.Protocol.{ProtocolTables, Draw}
use ogra.Protocol.Cas.{CasInFlightInput, CasInFlightOutput, cas_body}
use ogra.Protocol.Prepare.{PrepareEffectInput, PreparedEffect, prepare_body}
use ogra.Protocol.Receipt.{RecordReceiptInput, RecordReceiptOutput, trusted_body}
use ogra.Protocol.Outcome.{UnknownOutcomeInput, unknown_body, cancel_body}
use ogra.Protocol.Commit.{CommitTerminalInput, CommitTerminalOutput, commit_body}
use ogra.Protocol.Quiet.{protocol_edge, Moved, Follows, Quiet, MovesAt, Moving, Follows-refl}
use ogra.Protocol.Limits.{WithinLimits, LimitedAt, Limited}
use ogra.Protocol.Limits.Operations.{
  prepare_body-Limited, cas_body-Limited, trusted_body-Limited, unknown_body-Limited,
  cancel_body-Limited, commit_body-Limited,
}
use ogra.Protocol.Lifecycle.{
  unknown_body-Moving, cancel_body-Moving, trusted_body-Moving, cas_body-Moving, commit_body-Moving,
  prepare_body-Moving,
}

-- The edges of the protocol are edges of `EFFECT_TRANSITIONS`.
protocol_edge-IsTransition :
    (from to : EffectState)
    → protocol_edge from to ≡ true
    → includes_state (effect_transitions from) to ≡ true
unfolding protocol_edge effect_transitions
protocol_edge-IsTransition planned to h = ground (arith, h)
protocol_edge-IsTransition in_flight to h = ground (arith, h)
protocol_edge-IsTransition received to h = ground (arith, h)
protocol_edge-IsTransition EffectState.unknown to h = ground (arith, h)
protocol_edge-IsTransition awaiting_callback_verification to h = absurd (ground (arith, h))
protocol_edge-IsTransition committed to h = absurd (ground (arith, h))
protocol_edge-IsTransition quarantined to h = absurd (ground (arith, h))
protocol_edge-IsTransition compensating to h = absurd (ground (arith, h))
protocol_edge-IsTransition compensated to h = absurd (ground (arith, h))
protocol_edge-IsTransition failed to h = absurd (ground (arith, h))
protocol_edge-IsTransition cancelled_before_send to h = absurd (ground (arith, h))

-- No edge leaves an end state.
no_edge :
    (from to : EffectState)
    → (state_eq from committed || state_eq from cancelled_before_send) ≡ true
    → protocol_edge from to ≡ false
unfolding protocol_edge
no_edge planned to h = absurd (ground (arith, h))
no_edge in_flight to h = absurd (ground (arith, h))
no_edge received to h = absurd (ground (arith, h))
no_edge EffectState.unknown to h = absurd (ground (arith, h))
no_edge awaiting_callback_verification to h = absurd (ground (arith, h))
no_edge committed to h = refl
no_edge quarantined to h = absurd (ground (arith, h))
no_edge compensating to h = absurd (ground (arith, h))
no_edge compensated to h = absurd (ground (arith, h))
no_edge failed to h = absurd (ground (arith, h))
no_edge cancelled_before_send to h = refl

module _ (V : Vault) where
  -- One operation that commits, or what other services write to the other tables.
  pub data Step (t u : ProtocolTables) : Type 0 where
    prepares :
        (input : PrepareEffectInput) (rules : String) (fresh : Fresh) (draw : Draw)
        (post : PreparedEffect → Tx ProtocolTables (Unit {0})) (event_id : String)
        (p : PreparedEffect)
        → ((p : PreparedEffect) → Quiet (post p))
        → ((p : PreparedEffect) → Limited (post p))
        → prepare_body V input rules fresh draw post event_id t ≡ ok (p, u)
        → Step t u
    sends :
        (input : CasInFlightInput) (effect : RunEffect) (resealed : Bool)
        (capsule : SealedCapsuleRow) (payload : Json) (version : ℕ) (draw : Draw)
        (event_id : String) (o : CasInFlightOutput)
        → cas_body input effect resealed capsule payload version draw event_id t ≡ ok (o, u)
        → Step t u
    receives :
        (input : RecordReceiptInput) (effect : RunEffect) (fresh : Fresh) (draw : Draw)
        (event_id : String) (o : RecordReceiptOutput)
        → trusted_body V input effect fresh draw event_id t ≡ ok (o, u)
        → Step t u
    loses :
        (input : UnknownOutcomeInput) (effect : RunEffect) (incident_id : String) (fresh : Fresh)
        (draw : Draw) (event_id : String) (s : EffectState)
        → unknown_body input effect incident_id fresh draw event_id t ≡ ok (s, u)
        → Step t u
    cancels :
        (effect : RunEffect) (revision : ℕ) (draw : Draw) (event_id : String) (s : EffectState)
        → cancel_body effect revision draw event_id t ≡ ok (s, u)
        → Step t u
    commits :
        (input : CommitTerminalInput) (effect : RunEffect) (fresh : Fresh) (draw : Draw)
        (event_id : String) (o : CommitTerminalOutput)
        → commit_body V input effect fresh draw event_id t ≡ ok (o, u)
        → Step t u
    others : u.ledger.effects ≡ t.ledger.effects → (WithinLimits t → WithinLimits u) → Step t u

  pub data History (t : ProtocolTables) : ProtocolTables → Type 0 where
    start : History t t
    ◌then◌ : {u v : ProtocolTables} → History t u → Step u v → History t v

  committed_moves :
      {A : Type 0} (m : Tx ProtocolTables A) (t u : ProtocolTables) (a : A)
      → Moving m
      → m t ≡ ok (a, u)
      → Follows t.ledger.effects u.ledger.effects
  committed_moves {A} m t u a h e = subst (λ (r : Result (A × ProtocolTables)). MovesAt t r) e (h t)

  Step-Follows : (t u : ProtocolTables) → Step t u → Follows t.ledger.effects u.ledger.effects
  Step-Follows t u (prepares input rules fresh draw post event_id p after l e) =
      committed_moves _ t u p (prepare_body-Moving V input rules fresh draw post event_id after) e
  Step-Follows t u (sends input effect resealed capsule payload version draw event_id o e) =
      committed_moves _ t u o
        (cas_body-Moving input effect resealed capsule payload version draw event_id) e
  Step-Follows t u (receives input effect fresh draw event_id o e) =
      committed_moves _ t u o (trusted_body-Moving V input effect fresh draw event_id) e
  Step-Follows t u (loses input effect incident_id fresh draw event_id s e) =
      committed_moves _ t u s (unknown_body-Moving input effect incident_id fresh draw event_id) e
  Step-Follows t u (cancels effect revision draw event_id s e) =
      committed_moves _ t u s (cancel_body-Moving effect revision draw event_id) e
  Step-Follows t u (commits input effect fresh draw event_id o e) =
      committed_moves _ t u o (commit_body-Moving V input effect fresh draw event_id) e
  Step-Follows t u (others e l) =
      subst (λ (es : List RunEffect). Follows t.ledger.effects es) (sym e)
        (Follows-refl t.ledger.effects)

  -- The end states of the protocol.
  abbrev pub is_final : RunEffect → Bool
  is_final e = state_eq e.state committed || state_eq e.state cancelled_before_send

  final_stays : (e e' : RunEffect) → is_final e ≡ true → ((e' ≡ e) ⊎ Moved e e') → e' ≡ e
  final_stays e e' h (inl same) = same
  final_stays e e' h (inr m) = absurd (ground (arith, no_edge e.state e'.state h, m.0))

  -- An effect that is committed or cancelled keeps its whole row through every history, that is any
  -- sequence of operations of the protocol and of writes to tables other than the effects.
  pub final_is_final :
      (t u : ProtocolTables) (id : String) (e : RunEffect)
      → History t u
      → find_effect id t.ledger.effects ≡ some e
      → is_final e ≡ true
      → find_effect id u.ledger.effects ≡ some e
  final_is_final t u id e start found h = found
  final_is_final t u id e (◌then◌ {u = v} before step) found h =
      let (e', there, how) = Step-Follows v u step id e (final_is_final t v id e before found h) in
      there ∙ ap some (final_stays e e' h how)

  -- What of an effect a history keeps, and its revision, which is the same only for the same row.
  abbrev pub Later : RunEffect → RunEffect → Type 0
  Later e e' =
      ((e' ≡ e) ⊎ (ltb e.effect_revision e'.effect_revision ≡ true))
      × (e'.run_id ≡ e.run_id)
      × (e'.owner_frame_id ≡ e.owner_frame_id)
      × (e'.payload_fingerprint ≡ e.payload_fingerprint)
      × (e'.capsule_fingerprint ≡ e.capsule_fingerprint)
      × (e'.idempotency_key_hash ≡ e.idempotency_key_hash)

  later_revision :
      (e e' e'' : RunEffect)
      → ((e' ≡ e) ⊎ (ltb e.effect_revision e'.effect_revision ≡ true))
      → e''.effect_revision ≡ e'.effect_revision + 1
      → ltb e.effect_revision e''.effect_revision ≡ true
  later_revision e e' e'' (inl same) next = ground (arith, ap (λ x. x.effect_revision) same, next)
  later_revision e e' e'' (inr less) next = ground (arith, less, next)

  Later-onward : (e e' e'' : RunEffect) → Later e e' → ((e'' ≡ e') ⊎ Moved e' e'') → Later e e''
  Later-onward e e' e'' l (inl same) = subst (λ x. Later e x) (sym same) l
  Later-onward e e' e'' (how, r, o, p, c, k) (inr (edge, next, r', o', p', c', k')) =
      (inr (later_revision e e' e'' how next), r' ∙ r, o' ∙ o, p' ∙ p, c' ∙ c, k' ∙ k)

  -- After any history an effect is still there, with its run, owner, fingerprints and idempotency
  -- key, and its revision has grown unless its row is the very same.
  pub History-Later :
      (t u : ProtocolTables) (id : String) (e : RunEffect)
      → History t u
      → find_effect id t.ledger.effects ≡ some e
      → (e' : RunEffect) × (find_effect id u.ledger.effects ≡ some e') × Later e e'
  History-Later t u id e start found = (e, found, (inl refl, refl, refl, refl, refl, refl))
  History-Later t u id e (◌then◌ {u = v} before step) found =
      let (e1, there1, l) = History-Later t v id e before found in
      let (e2, there2, how) = Step-Follows v u step id e1 there1 in
      (e2, there2, Later-onward e e1 e2 l how)

  committed_limits :
      {A : Type 0} (m : Tx ProtocolTables A) (t u : ProtocolTables) (a : A)
      → Limited m
      → WithinLimits t
      → m t ≡ ok (a, u)
      → WithinLimits u
  committed_limits m t u a h k e = subst LimitedAt e (h t k)

  Step-WithinLimits : (t u : ProtocolTables) → Step t u → WithinLimits t → WithinLimits u
  Step-WithinLimits t u (prepares input rules fresh draw post event_id p q after e) k =
      committed_limits _ t u p (prepare_body-Limited V input rules fresh draw post event_id after) k
        e
  Step-WithinLimits t u (sends input effect resealed capsule payload version draw event_id o e) k =
      committed_limits _ t u o
        (cas_body-Limited input effect resealed capsule payload version draw event_id) k e
  Step-WithinLimits t u (receives input effect fresh draw event_id o e) k =
      committed_limits _ t u o (trusted_body-Limited V input effect fresh draw event_id) k e
  Step-WithinLimits t u (loses input effect incident_id fresh draw event_id s e) k =
      committed_limits _ t u s (unknown_body-Limited input effect incident_id fresh draw event_id) k
        e
  Step-WithinLimits t u (cancels effect revision draw event_id s e) k =
      committed_limits _ t u s (cancel_body-Limited effect revision draw event_id) k e
  Step-WithinLimits t u (commits input effect fresh draw event_id o e) k =
      committed_limits _ t u o (commit_body-Limited V input effect fresh draw event_id) k e
  Step-WithinLimits t u (others e l) k = l k

  -- If no approval has been used more often than its limit says, then none is after any history in
  -- which the other services keep the limits.
  pub History-WithinLimits : (t u : ProtocolTables) → History t u → WithinLimits t → WithinLimits u
  History-WithinLimits t u start k = k
  History-WithinLimits t u (◌then◌ {u = v} before step) k =
      Step-WithinLimits v u step (History-WithinLimits t v before k)

  -- Every operation is a transition of the ledger: the effect is as it was, or goes by one of
  -- `EFFECT_TRANSITIONS` to the next revision.
  pub protocol_refines_ledger :
      (t u : ProtocolTables) (id : String) (e : RunEffect)
      → Step t u
      → find_effect id t.ledger.effects ≡ some e
      → (e' : RunEffect) × (find_effect id u.ledger.effects ≡ some e')
        × ((e' ≡ e)
            ⊎ ((includes_state (effect_transitions e.state) e'.state ≡ true)
                × (e'.effect_revision ≡ e.effect_revision + 1)))
  protocol_refines_ledger t u id e step found =
      let (e', there, how) = Step-Follows t u step id e found in
      (
        e',
        there,
        elim how [
          | inl same ↦ inl same
          | inr m ↦ inr (protocol_edge-IsTransition e.state e'.state m.0, m.1)
        ],
      )
