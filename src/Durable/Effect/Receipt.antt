-- ===== src/Durable/Effect/Receipt.antt =====
-- `appendReceipt`, `readReceipt` and `recordApprovalBinding` of
-- ogra-desktop/src/core/durable-runtime-service.ts.
use ogra.Prelude.{
  ℕ, max, String, Bool, true, not, ◌&&◌, Option, none, some, List, [], ◌∷◌, leb, ◌==◌, str_eq,
  select, insert_row, exists_row, if◌then◌else◌,
}
use ogra.Audit.Json.{Json, num, str, nullable, object}
use ogra.Audit.Event.{Platform, payload_hash}
use ogra.Audit.Chain.{EventMeta, Surroundings}
use ogra.Audit.Log.{EventLog}
use ogra.Durable.Transaction.{
  effect_not_found, receipt_duplicate, receipt_not_found, revision_conflict, Result, ok, err, Tx,
  ◌>>=◌, ◌>>◌, pure, require, require_some, gets, modify, Call, transactional_append,
  before_transaction,
}
use ogra.Durable.Effect.{
  RunEffect, ApplicationStatus, not_applied, applied, EffectReceipt, BindingKind,
  EffectApprovalBinding, AuditEdge, EffectTables, find_effect, read_effect, append_edge,
  effect_meta,
}

pub record ReceiptAppendRequest : Type 0 where
  pub effect_id : String
  pub attempt_no : ℕ
  pub request_id : Option String
  pub request_hash : Option String
  pub response_hash : Option String
  pub result_capsule_ref : Option String
  pub result_capsule_hash : Option String
  pub result_capsule_format_version : Option String
  pub provider_status : Option String
  pub application_status : ApplicationStatus

abbrev pub status_name : ApplicationStatus → String
status_name not_applied = "not_applied"
status_name applied = "applied"
status_name ApplicationStatus.unknown = "unknown"

-- `SELECT MAX(attempt_no)`, null without a receipt
unfoldable pub max_attempt : String → List EffectReceipt → Option ℕ
max_attempt effect_id [] = none
max_attempt effect_id (r ∷ rs) =
    let rest = max_attempt effect_id rs in
    if str_eq r.effect_id effect_id
    then elim rest [ none ↦ some r.attempt_no | some n ↦ some (max r.attempt_no n) ]
    else rest

abbrev pub is_later : ℕ → Option ℕ → Bool
is_later n none = true
is_later n (some m) = not (leb n m)

-- The tests of `appendReceipt` before the transaction.
unfoldable pub check_receipt : ReceiptAppendRequest → EffectTables → Result RunEffect
check_receipt req t = elim (find_effect req.effect_id t.effects) [
  | none ↦ err effect_not_found
  | some effect ↦
      if is_later req.attempt_no (max_attempt req.effect_id t.receipts)
      then ok effect
      else err receipt_duplicate
]

-- `effect_id = ? AND attempt_no = ?`
abbrev pub of_attempt : String → ℕ → EffectReceipt → Bool
of_attempt effect_id n r = str_eq r.effect_id effect_id && (r.attempt_no == n)

abbrev pub receipt_id_is : String → EffectReceipt → Bool
receipt_id_is id r = str_eq r.id id

-- `readReceipt`
unfoldable pub read_receipt : String → ℕ → EffectTables → Option EffectReceipt
read_receipt effect_id n t = select (of_attempt effect_id n) t.receipts

-- The object whose hash is the receipt's.
abbrev receipt_digest : ReceiptAppendRequest → Json
receipt_digest req = object (
    ("effectId", str req.effect_id)
    ∷ ("attemptNo", num req.attempt_no)
    ∷ ("requestHash", nullable req.request_hash)
    ∷ ("responseHash", nullable req.response_hash)
    ∷ ("applicationStatus", str (status_name req.application_status))
    ∷ ("providerStatus", nullable req.provider_status)
    ∷ [])

abbrev pub new_receipt : ReceiptAppendRequest → String → String → ℕ → String → EffectReceipt
new_receipt req receipt_hash id now event_id = record {
  id = id;
  effect_id = req.effect_id;
  attempt_no = req.attempt_no;
  request_id = req.request_id;
  request_hash = req.request_hash;
  response_hash = req.response_hash;
  result_capsule_ref = req.result_capsule_ref;
  result_capsule_hash = req.result_capsule_hash;
  result_capsule_format_version = req.result_capsule_format_version;
  provider_status = req.provider_status;
  application_status = req.application_status;
  receipt_hash = receipt_hash;
  received_at = now;
  event_id = some event_id;
}

abbrev pub receipt_edge : RunEffect → String → String → String → AuditEdge
receipt_edge effect id edge_id event_id = record {
  id = edge_id;
  run_id = effect.run_id;
  from_kind = "effect";
  from_id = effect.id;
  relation = "has_receipt";
  to_kind = "receipt";
  to_id = id;
  source_event_id = some event_id;
}

abbrev pub insert_receipt : EffectReceipt → EffectTables → EffectTables
insert_receipt r t = record t { receipts = insert_row r t.receipts }

-- The body of `appendReceipt`: a violation of `UNIQUE(effect_id, attempt_no)` or of the primary key
-- is reported as a duplicate.
unfoldable pub receipt_body :
    ReceiptAppendRequest
    → RunEffect
    → String
    → String
    → String
    → ℕ
    → String
    → Tx EffectTables EffectReceipt
receipt_body req effect receipt_hash id edge_id now event_id = do
  taken ← gets (λ (t : EffectTables). exists_row (receipt_id_is id) t.receipts)
  require (not taken) receipt_duplicate
  repeated ←
      gets (λ (t : EffectTables). exists_row (of_attempt req.effect_id req.attempt_no) t.receipts)
  require (not repeated) receipt_duplicate
  modify (insert_receipt (new_receipt req receipt_hash id now event_id))
  modify (append_edge (receipt_edge effect id edge_id event_id))
  found ← gets (λ (t : EffectTables). select (receipt_id_is id) t.receipts)
  require_some found receipt_not_found

pub record BindingRequest : Type 0 where
  pub effect_id : String
  pub callback_attempt_no : ℕ
  pub approval_id : String
  pub approval_revision : ℕ
  pub binding_kind : BindingKind

-- `effect_id = ? AND callback_attempt_no = ?`
abbrev pub binds_attempt : String → ℕ → EffectApprovalBinding → Bool
binds_attempt effect_id n b = str_eq b.effect_id effect_id && (b.callback_attempt_no == n)

abbrev pub binding_id_is : String → EffectApprovalBinding → Bool
binding_id_is id b = str_eq b.id id

abbrev pub new_binding : BindingRequest → String → String → EffectApprovalBinding
new_binding req id event_id = record {
  id = id;
  effect_id = req.effect_id;
  callback_attempt_no = req.callback_attempt_no;
  approval_id = req.approval_id;
  approval_revision = req.approval_revision;
  binding_kind = req.binding_kind;
  created_event_id = event_id;
}

abbrev insert_binding : EffectApprovalBinding → EffectTables → EffectTables
insert_binding b t = record t { bindings = insert_row b t.bindings }

-- The body of `recordApprovalBinding`, which returns the id.
unfoldable pub binding_body :
    BindingRequest → RunEffect → String → String → String → Tx EffectTables String
binding_body req effect id edge_id event_id = do
  taken ← gets (λ (t : EffectTables). exists_row (binding_id_is id) t.bindings)
  require (not taken) revision_conflict
  bound ← gets (λ (t : EffectTables).
      exists_row (binds_attempt req.effect_id req.callback_attempt_no) t.bindings)
  require (not bound) revision_conflict
  modify (insert_binding (new_binding req id event_id))
  modify (
      append_edge (record {
        id = edge_id;
        run_id = effect.run_id;
        from_kind = "effect";
        from_id = effect.id;
        relation = "bound_to_approval";
        to_kind = "approval";
        to_id = req.approval_id;
        source_event_id = some event_id;
      }))
  pure id

abbrev receipt_meta : ReceiptAppendRequest → RunEffect → String → EventMeta
receipt_meta req effect receipt_hash =
    record (effect_meta effect.run_id none effect.id "receipt_appended" (
      object (
        ("effectId", str effect.id)
        ∷ ("attemptNo", num req.attempt_no)
        ∷ ("applicationStatus", str (status_name req.application_status))
        ∷ ("receiptHash", str receipt_hash)
        ∷ []))) { external_receipt_hash = req.response_hash }

module _ (P : Platform) (L : EventLog) where
  -- `appendReceipt`
  unfoldable pub append_receipt :
      Surroundings → ℕ → String → String → ReceiptAppendRequest → Call L EffectTables EffectReceipt
  append_receipt s now id edge_id req =
      let receipt_hash = payload_hash P (receipt_digest req) in
      before_transaction L (check_receipt req) λ effect.
        transactional_append L s (receipt_meta req effect receipt_hash)
          (receipt_body req effect receipt_hash id edge_id now)

module _ (L : EventLog) where
  -- `recordApprovalBinding`
  unfoldable pub record_approval_binding :
      Surroundings → String → String → BindingRequest → Call L EffectTables String
  record_approval_binding s id edge_id req =
      before_transaction L (read_effect req.effect_id) λ effect.
        transactional_append L s
          (effect_meta effect.run_id none effect.id "approval_binding_created" (
            object (
              ("effectId", str effect.id)
              ∷ ("approvalId", str req.approval_id)
              ∷ ("callbackAttemptNo", num req.callback_attempt_no)
              ∷ [])))
          (binding_body req effect id edge_id)
