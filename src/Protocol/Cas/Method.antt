-- ===== src/Protocol/Cas/Method.antt =====
-- `casToInFlight` of ogra-desktop/src/core/effect-protocol-service.ts as a whole: what it reads and
-- opens before its transaction, and the transaction.
use ogra.Prelude.{ℕ, Bool, true, false, not, none, some, [], ◌∷◌, ◌==◌}
use ogra.Audit.Json.{str, num, nullable, object}
use ogra.Audit.Chain.{EventMeta, Surroundings}
use ogra.Audit.Log.{EventLog}
use ogra.Durable.Transaction.{capsule_invalid, Result, ok, err, transactional_append}
use ogra.Durable.Effect.{RunEffect, effect_meta}
use ogra.Capsule.{
  missing, CapsuleBinding, SealedCapsuleRow, OpenCapsule, CapsuleTables, Vault, Fresh, Steps, ◌>>=◌,
  ◌>>◌, pure, FailureInput, record_failure,
}
use ogra.Capsule.Seal.{seal}
use ogra.Capsule.Evidence.{open_verified_callback_for_effect}
use ogra.Protocol.{ProtocolTables, Draw, find_effect_row}
use ogra.Protocol.Cas.{
  CasInFlightInput, CasInFlightOutput, kind_text, check_cas, expected_fingerprint, source_callback,
  check_lease, cas_body,
}

abbrev missing_callback : RunEffect → ℕ → FailureInput
missing_callback effect attempt = record {
  run_id = none;
  effect_id = some effect.id;
  workspace_id = none;
  capsule_ref = some "(missing)";
  attempt_no = some attempt;
  failure_kind = missing;
  detail = "pre-callback CAS: attempt-scoped callback capsule missing";
}

abbrev retry_binding : OpenCapsule → ℕ → CapsuleBinding
retry_binding o attempt = record o.binding { attempt_no = attempt; created_event_id = none }

module _ (L : EventLog) (V : Vault) where
  open L use {Log}

  -- Reads, and calls of the capsule store, outside a transaction.
  abbrev pub State : Type 0
  State = ProtocolTables × Log

  abbrev pub reading : {A : Type 0} → (ProtocolTables → Result A) → Steps State A
  reading f (t, log) = (f t, (t, log))

  abbrev keep : {A : Type 0} → ProtocolTables → Log → Result A × CapsuleTables → Result A × State
  keep t log (r, v) = (r, (record t { vault = v }, log))

  abbrev pub in_store : {A : Type 0} → Steps CapsuleTables A → Steps State A
  in_store m (t, log) = keep t log (m t.vault)

  abbrev undo : {A : Type 0} → State → Result A × State → Result A × State
  undo s (ok a, s') = (ok a, s')
  undo s (err e, s') = (err e, s)

  -- `db.transaction(…)()`: an error takes back all that was written.
  abbrev pub atomically : {A : Type 0} → Steps State A → Steps State A
  atomically m s = undo s (m s)

  -- The source of the callback, or an incident.
  unfoldable pub find_source :
      CasInFlightInput → RunEffect → Fresh → Steps State (SealedCapsuleRow × ℕ)
  find_source input effect fresh (t, log) = elim (source_callback input effect t.vault) [
    | some source ↦ (ok source, (t, log))
    | none ↦ (
      err capsule_invalid,
      (
        record t {
          vault = record_failure fresh (missing_callback effect input.expected_attempt_no) t.vault;
        },
        log,
      ),
    )
  ]

  -- The capsule of this attempt: the source itself, or a new one that is sealed from it.
  unfoldable pub seal_attempt :
      Bool → SealedCapsuleRow → OpenCapsule → ℕ → Fresh → Steps State SealedCapsuleRow
  seal_attempt false source o attempt fresh = pure source
  seal_attempt true source o attempt fresh =
      in_store (seal V (retry_binding o attempt) o.payload fresh)

  abbrev intent_meta : CasInFlightInput → RunEffect → SealedCapsuleRow → EventMeta
  intent_meta input effect capsule =
      record (effect_meta effect.run_id (some effect.owner_frame_id) effect.id
        "effect_callback_intent"
        (object (
          ("effectId", str effect.id)
          ∷ ("attemptNo", num input.expected_attempt_no)
          ∷ ("bindingKind", str (kind_text input.expected_state))
          ∷ ("approvalId", nullable input.approval_id)
          ∷ ("callbackCapsuleRef", str capsule.ref)
          ∷ ("callbackCapsuleHash", str capsule.hash)
          ∷ []))) { idempotency_key_hash = some effect.idempotency_key_hash }

  -- The transaction: the capsule of the attempt, opened and verified, and the callback intent.
  unfoldable pub send :
      CasInFlightInput
      → RunEffect
      → SealedCapsuleRow × ℕ
      → OpenCapsule
      → ℕ
      → Fresh
      → Draw
      → Surroundings
      → Steps State CasInFlightOutput
  send input effect source o version fresh draw s = do
    let resealed = not (source.1 == input.expected_attempt_no)
    capsule ← seal_attempt resealed source.0 o input.expected_attempt_no fresh
    verified ← in_store (
        open_verified_callback_for_effect V effect.id input.expected_attempt_no
          (expected_fingerprint effect) fresh)
    transactional_append L s (intent_meta input effect capsule)
        (cas_body input effect resealed capsule verified.payload version draw)

  -- `casToInFlight`
  unfoldable pub cas_to_in_flight :
      CasInFlightInput → Fresh → Draw → Surroundings → Steps State CasInFlightOutput
  cas_to_in_flight input fresh draw s = do
    effect ← reading (find_effect_row input.effect_id)
    reading (λ t. check_cas input effect)
    source ← find_source input effect fresh
    o ←
        in_store (
          open_verified_callback_for_effect V effect.id source.1 (expected_fingerprint effect)
            fresh)
    version ← reading (check_lease input effect draw.now)
    atomically (send input effect source o version fresh draw s)
