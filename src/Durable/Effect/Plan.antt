-- ===== src/Durable/Effect/Plan.antt =====
-- `planEffect` of ogra-desktop/src/core/durable-runtime-service.ts.
use ogra.Prelude.{
  ℕ, String, Bool, not, Option, none, some, List, [], ◌∷◌, str_eq, select, insert_row, exists_row,
  if◌then◌else◌,
}
use ogra.Audit.Json.{str, object}
use ogra.Audit.Chain.{EventMeta, Surroundings}
use ogra.Audit.Log.{EventLog}
use ogra.Durable.Transaction.{
  invalid_argument, frame_not_found, effect_owner_mismatch, effect_idempotency_reused,
  effect_payload_fingerprint_changed, Result, ok, err, Tx, ◌>>=◌, ◌>>◌, require, gets, modify, Call,
  transactional_append, before_transaction,
}
use ogra.Durable.Frame.{find_frame}
use ogra.Durable.Effect.{
  EffectState, RunEffect, AuditEdge, EffectTables, with_id, append_edge, reread_effect, effect_meta,
}

pub record PlannedEffectRequest : Type 0 where
  pub run_id : String
  pub owner_frame_id : String
  pub effect_type : String
  pub adapter_kind : String
  pub payload_fingerprint : String
  pub callback_capsule_hash : String
  pub callback_capsule_ref : String
  pub callback_capsule_format_version : String
  pub idempotency_key_hash : String
  pub idempotency_key_ref : String
  pub allowed_repair_actions : List String
  pub dependency_effect_ids : List String
  pub route_decision_id : Option String
  pub policy_evaluation_id : Option String

-- `idempotency_key_hash = ?`
abbrev pub with_key : String → RunEffect → Bool
with_key key e = str_eq e.idempotency_key_hash key

-- The test on a row that already has the idempotency key.
unfoldable pub check_duplicate : PlannedEffectRequest → Option RunEffect → Result (Unit {0})
check_duplicate req none = ok tt
check_duplicate req (some dup) =
    if not (str_eq dup.owner_frame_id req.owner_frame_id)
    then err effect_idempotency_reused
    else if not (str_eq dup.payload_fingerprint req.payload_fingerprint)
    then err effect_payload_fingerprint_changed
    else ok tt

-- The tests of `planEffect` before the transaction.
unfoldable pub check_plan : PlannedEffectRequest → EffectTables → Result (Unit {0})
check_plan req t =
    if str_eq req.idempotency_key_hash ""
    then err invalid_argument
    else if str_eq req.payload_fingerprint ""
    then err invalid_argument
    else elim (find_frame req.owner_frame_id t.frames) [
      | none ↦ err frame_not_found
      | some owner ↦
          if str_eq owner.run_id req.run_id
          then check_duplicate req (select (with_key req.idempotency_key_hash) t.effects)
          else err effect_owner_mismatch
    ]

abbrev pub planned_effect : PlannedEffectRequest → String → ℕ → String → RunEffect
planned_effect req id now event_id = record {
  id = id;
  run_id = req.run_id;
  owner_frame_id = req.owner_frame_id;
  effect_type = req.effect_type;
  adapter_kind = req.adapter_kind;
  payload_fingerprint = req.payload_fingerprint;
  callback_capsule_ref = req.callback_capsule_ref;
  callback_capsule_hash = req.callback_capsule_hash;
  callback_capsule_format_version = req.callback_capsule_format_version;
  idempotency_key_ref = req.idempotency_key_ref;
  idempotency_key_hash = req.idempotency_key_hash;
  state = EffectState.planned;
  allowed_repair_actions = req.allowed_repair_actions;
  dependency_effect_ids = req.dependency_effect_ids;
  effect_revision = 1;
  route_decision_id = req.route_decision_id;
  policy_evaluation_id = req.policy_evaluation_id;
  capsule_fingerprint = none;
  current_approval_id = none;
  policy_version_hash = none;
  scope_hash = none;
  redaction_rule_version = none;
  ingress_finding_id = none;
  authoritative_receipt_id = none;
  external_receipt_hash = none;
  created_event_id = some event_id;
  terminal_event_id = none;
  created_at = now;
  updated_at = now;
}

abbrev pub owner_edge : PlannedEffectRequest → String → String → String → AuditEdge
owner_edge req id edge_id event_id = record {
  id = edge_id;
  run_id = req.run_id;
  from_kind = "frame";
  from_id = req.owner_frame_id;
  relation = "owns_effect";
  to_kind = "effect";
  to_id = id;
  source_event_id = some event_id;
}

abbrev pub insert_effect : RunEffect → EffectTables → EffectTables
insert_effect e t = record t { effects = insert_row e t.effects }

-- The body of `planEffect`: the primary key and the unique index on the idempotency key are the
-- table's own, and a violation of either is reported as a reused key.
unfoldable pub plan_body :
    PlannedEffectRequest → String → String → ℕ → String → Tx EffectTables RunEffect
plan_body req id edge_id now event_id = do
  taken ← gets (λ (t : EffectTables). exists_row (with_id id) t.effects)
  require (not taken) effect_idempotency_reused
  reused ← gets (λ (t : EffectTables). exists_row (with_key req.idempotency_key_hash) t.effects)
  require (not reused) effect_idempotency_reused
  modify (insert_effect (planned_effect req id now event_id))
  modify (append_edge (owner_edge req id edge_id event_id))
  reread_effect id

abbrev plan_meta : PlannedEffectRequest → String → EventMeta
plan_meta req id =
    record (effect_meta req.run_id (some req.owner_frame_id) id "effect_planned" (
      object (
        ("effectId", str id)
        ∷ ("effectType", str req.effect_type)
        ∷ ("adapterKind", str req.adapter_kind)
        ∷ ("ownerFrameId", str req.owner_frame_id)
        ∷ ("payloadFingerprint", str req.payload_fingerprint)
        ∷ ("callbackCapsuleHash", str req.callback_capsule_hash)
        ∷ ("idempotencyKeyHash", str req.idempotency_key_hash)
        ∷ []))) { idempotency_key_hash = some req.idempotency_key_hash }

module _ (L : EventLog) where
  -- `planEffect`
  unfoldable pub plan_effect :
      Surroundings → ℕ → String → String → PlannedEffectRequest → Call L EffectTables RunEffect
  plan_effect s now id edge_id req =
      before_transaction L (check_plan req)
        λ _. transactional_append L s (plan_meta req id) (plan_body req id edge_id now)
