-- ===== src/Protocol/Receipt.antt =====
-- `recordReceipt` of ogra-desktop/src/core/effect-protocol-service.ts.
use ogra.Prelude.{
  ℕ, ◌+◌, String, not, Option, some, [], ◌∷◌, ◌==◌, exists_row, insert_row, if◌then◌else◌,
}
use ogra.Audit.Json.{Json, num, str, nullable, object}
use ogra.Audit.Chain.{Surroundings}
use ogra.Audit.Event.{payload_hash}
use ogra.Audit.Log.{EventLog}
use ogra.Durable.Transaction.{
  invalid_argument, effect_invalid_transition, effect_outcome_unknown, receipt_duplicate, Result,
  ok, err, Tx, ◌>>=◌, ◌>>◌, require, gets, modify, Call, transactional_append, before_transaction,
}
use ogra.Durable.Effect.{
  in_flight, received, state_eq, RunEffect, ApplicationStatus, not_applied, applied, EffectReceipt,
  append_edge, effect_meta,
}
use ogra.Durable.Effect.Receipt.{status_name, of_attempt, receipt_edge}
use ogra.Capsule.{
  result, current_capsule_format_version, CapsuleBinding, SealedCapsuleRow, Vault, Fresh,
}
use ogra.Capsule.Seal.{seal}
use ogra.Protocol.{
  ProtocolTables, Draw, resolve_workspace_id, on_ledger, find_effect_row, in_vault, capsule_expiry,
  in_state, cas_effect,
}

pub record RecordReceiptInput : Type 0 where
  pub effect_id : String
  pub attempt_no : ℕ
  pub request_id : Option String
  pub request_hash : Option String
  pub result : Json
  pub application_status : ApplicationStatus
  pub provider_status : Option String

pub record RecordReceiptOutput : Type 0 where
  pub effect_id : String
  pub receipt_id : String
  pub attempt_no : ℕ
  pub result_capsule_ref : String
  pub result_capsule_hash : String
  pub result_payload_digest : String

-- `resultPayload`
unfoldable pub result_payload : RecordReceiptInput → Json
result_payload input = object (
    ("attemptNo", num input.attempt_no)
    ∷ ("applicationStatus", str (status_name input.application_status))
    ∷ ("providerStatus", nullable input.provider_status)
    ∷ ("requestId", nullable input.request_id)
    ∷ ("requestHash", nullable input.request_hash)
    ∷ ("result", input.result)
    ∷ [])

-- The tuple whose hash is the receipt's.
unfoldable pub receipt_tuple :
    String → ℕ → Option String → Option String → ApplicationStatus → Option String → Json
receipt_tuple effect_id attempt request_hash response_hash status provider_status = object (
    ("effectId", str effect_id)
    ∷ ("attemptNo", num attempt)
    ∷ ("requestHash", nullable request_hash)
    ∷ ("responseHash", nullable response_hash)
    ∷ ("applicationStatus", str (status_name status))
    ∷ ("providerStatus", nullable provider_status)
    ∷ [])

abbrev pub result_binding :
    RecordReceiptInput → RunEffect → String → String → Draw → String → CapsuleBinding
result_binding input effect response_hash workspace draw event_id = record {
  workspace_id = workspace;
  capsule_kind = result;
  format_version = current_capsule_format_version;
  run_id = some effect.run_id;
  effect_id = some effect.id;
  receipt_id = some draw.receipt_id;
  attempt_no = input.attempt_no;
  adapter_kind = effect.adapter_kind;
  adapter_version = "M1-fixture";
  payload_fingerprint = response_hash;
  scope_hash = effect.idempotency_key_hash;
  expires_at = capsule_expiry draw.now;
  created_event_id = some event_id;
}

abbrev pub trusted_receipt :
    RecordReceiptInput
    → RunEffect
    → String
    → String
    → SealedCapsuleRow
    → Draw
    → String
    → EffectReceipt
trusted_receipt input effect response_hash receipt_hash capsule draw event_id = record {
  id = draw.receipt_id;
  effect_id = effect.id;
  attempt_no = input.attempt_no;
  request_id = input.request_id;
  request_hash = input.request_hash;
  response_hash = some response_hash;
  result_capsule_ref = some capsule.ref;
  result_capsule_hash = some capsule.hash;
  result_capsule_format_version = some capsule.format_version;
  provider_status = input.provider_status;
  application_status = input.application_status;
  receipt_hash = receipt_hash;
  received_at = draw.now;
  event_id = some event_id;
}

abbrev pub as_received : String → String → ℕ → RunEffect → RunEffect
as_received receipt_id receipt_hash now e = record e {
  state = received;
  effect_revision = e.effect_revision + 1;
  authoritative_receipt_id = some receipt_id;
  external_receipt_hash = some receipt_hash;
  updated_at = now;
}

-- The tests before the transaction, and the effect that passes them.
unfoldable pub check_receipt_input : RecordReceiptInput → ProtocolTables → Result RunEffect
check_receipt_input input t = elim input.application_status [
  | ApplicationStatus.unknown ↦ err effect_outcome_unknown
  | not_applied ↦ err effect_invalid_transition
  | applied ↦ elim (find_effect_row input.effect_id t) [
    | err e ↦ err e
    | ok effect ↦
        if not (state_eq effect.state in_flight)
        then err effect_invalid_transition
        else if input.attempt_no == 0
        then err invalid_argument
        else ok effect
  ]
]

abbrev insert_receipt : EffectReceipt → ProtocolTables → ProtocolTables
insert_receipt r = on_ledger (λ l. record l { receipts = insert_row r l.receipts })

module _ (V : Vault) where
  open V use {platform}

  -- The body of `recordTrustedReceipt`.
  unfoldable pub trusted_body :
      RecordReceiptInput → RunEffect → Fresh → Draw → String → Tx ProtocolTables RecordReceiptOutput
  trusted_body input effect fresh draw event_id = do
    let response_hash = payload_hash platform (result_payload input)
    let receipt_hash = payload_hash platform (
        receipt_tuple effect.id input.attempt_no input.request_hash (some response_hash)
          input.application_status input.provider_status)
    workspace ← gets (resolve_workspace_id effect.run_id)
    capsule ← in_vault (
        seal V (result_binding input effect response_hash workspace draw event_id)
          (result_payload input) fresh)
    repeated ← gets (λ (t : ProtocolTables).
        exists_row (of_attempt effect.id input.attempt_no) t.ledger.receipts)
    require (not repeated) receipt_duplicate
    modify (
        insert_receipt
          (trusted_receipt input effect response_hash receipt_hash capsule draw event_id))
    cas_effect (in_state effect.id in_flight) (as_received draw.receipt_id receipt_hash draw.now)
    modify (on_ledger (append_edge (receipt_edge effect draw.receipt_id draw.edge_id event_id)))
    λ t. ok (
      record {
        effect_id = effect.id;
        receipt_id = draw.receipt_id;
        attempt_no = input.attempt_no;
        result_capsule_ref = capsule.ref;
        result_capsule_hash = capsule.hash;
        result_payload_digest = response_hash;
      },
      t,
    )

  -- `recordReceipt`
  unfoldable pub record_receipt :
      (L : EventLog)
      → RecordReceiptInput
      → Fresh
      → Draw
      → Surroundings
      → Call L ProtocolTables RecordReceiptOutput
  record_receipt L input fresh draw s = before_transaction L (check_receipt_input input) λ effect.
      transactional_append L s
        (effect_meta effect.run_id (some effect.owner_frame_id) effect.id "effect_received" (
          object (
            ("effectId", str effect.id)
            ∷ ("attemptNo", num input.attempt_no)
            ∷ ("applicationStatus", str (status_name input.application_status))
            ∷ ("providerStatus", nullable input.provider_status)
            ∷ [])))
        (trusted_body input effect fresh draw)
