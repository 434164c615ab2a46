-- ===== src/Protocol/Prepare.antt =====
-- `prepare` of ogra-desktop/src/core/effect-protocol-service.ts. The INSERT of the effect and the
-- UPDATE of its capsule columns in the same transaction are one write.
use ogra.Prelude.{
  ℕ, String, Bool, not, ◌&&◌, Option, none, some, [], ◌∷◌, str_eq, opt_str_eq, is_some, or_else,
  select, exists_row, insert_row, update_where,
}
use ogra.Audit.Json.{Json, bool, str, object}
use ogra.Audit.Chain.{EventMeta, Surroundings}
use ogra.Audit.Event.{payload_hash}
use ogra.Audit.Log.{EventLog}
use ogra.Durable.Transaction.{
  approval_required, database_error, frame_not_found, effect_owner_mismatch,
  effect_payload_fingerprint_changed, capsule_invalid, ok, Tx, ◌>>=◌, ◌>>◌, require, require_some,
  gets, modify, Call, transactional_append,
}
use ogra.Durable.Frame.{find_frame}
use ogra.Durable.Effect.{EffectState, RunEffect, AuditEdge, append_edge}
use ogra.Durable.Effect.Plan.{with_key}
use ogra.Capsule.{
  callback, current_capsule_format_version, CapsuleBinding, SealedCapsuleRow, Vault, Fresh,
  fetch_by_binding,
}
use ogra.Capsule.Seal.{seal}
use ogra.Protocol.{
  ApprovalRow, ProtocolTables, Draw, truthy, resolve_workspace_id, on_ledger, in_vault,
  capsule_expiry,
}
use ogra.Protocol.Consume.{approval_is, is_approved}

pub record PrepareEffectInput : Type 0 where
  pub run_id : String
  pub owner_frame_id : String
  pub effect_type : String
  pub adapter_kind : String
  pub adapter_version : String
  pub payload : Json
  pub payload_fingerprint : String
  pub current_approval_id : Option String
  pub idempotency_key : String
  pub scope_hash : String
  pub route_decision_id : String
  pub policy_evaluation_id : String
  pub policy_version_hash : String
  pub redaction_rule_version : Option String
  pub classification : Option String
  -- `recoveryCapabilities`: the idempotency key, the outcome query and the compensation
  pub recovery_capabilities : Option (Bool × Bool × Bool)
  pub supports_idempotency_key : Bool
  pub supports_outcome_query : Bool
  pub supports_compensation : Bool

pub record PreparedEffect : Type 0 where
  pub effect_id : String
  pub attempt_no : ℕ
  pub callback_capsule_ref : String
  pub callback_capsule_hash : String
  pub callback_capsule_format_version : String
  pub idempotency_key_hash : String

abbrev declared : PrepareEffectInput → Bool × Bool × Bool
declared input = elim input.recovery_capabilities [
  | some c ↦ c
  | none ↦
      (input.supports_idempotency_key, input.supports_outcome_query, input.supports_compensation)
]

-- `callbackPlaintext`, given the key's hash and the current redaction rules
unfoldable pub callback_plaintext : PrepareEffectInput → String → String → Json
callback_plaintext input key_hash rules = object (
    ("payload", input.payload)
    ∷ ("idempotencyKey", str input.idempotency_key)
    ∷ ("idempotencyKeyHash", str key_hash)
    ∷ ("egressPayloadFingerprint", str input.payload_fingerprint)
    ∷ ("routeDecisionId", str input.route_decision_id)
    ∷ ("policyEvaluationId", str input.policy_evaluation_id)
    ∷ ("policyVersionHash", str input.policy_version_hash)
    ∷ ("redactionRuleVersion", str (or_else input.redaction_rule_version rules))
    ∷ ("classification", str (or_else input.classification "Internal"))
    ∷ (
      "recoveryCapabilities",
      object (
          ("schemaVersion", str "v1")
          ∷ ("adapterKind", str input.adapter_kind)
          ∷ ("adapterVersion", str input.adapter_version)
          ∷ ("supportsIdempotencyKey", bool (declared input).0)
          ∷ ("supportsOutcomeQuery", bool (declared input).1)
          ∷ ("supportsCompensation", bool (declared input).2)
          ∷ []),
    )
    ∷ ("supportsCompensation", bool input.supports_compensation)
    ∷ [])

abbrev pub capsule_binding : PrepareEffectInput → String → String → Draw → String → CapsuleBinding
capsule_binding input fingerprint workspace draw event_id = record {
  workspace_id = workspace;
  capsule_kind = callback;
  format_version = current_capsule_format_version;
  run_id = some input.run_id;
  effect_id = some draw.effect_id;
  receipt_id = none;
  attempt_no = 1;
  adapter_kind = input.adapter_kind;
  adapter_version = input.adapter_version;
  payload_fingerprint = fingerprint;
  scope_hash = input.scope_hash;
  expires_at = capsule_expiry draw.now;
  created_event_id = some event_id;
}

abbrev pub prepared_effect :
    PrepareEffectInput → String → String → String → SealedCapsuleRow → Draw → RunEffect
prepared_effect input key_hash fingerprint rules capsule draw = record {
  id = draw.effect_id;
  run_id = input.run_id;
  owner_frame_id = input.owner_frame_id;
  effect_type = input.effect_type;
  adapter_kind = input.adapter_kind;
  payload_fingerprint = input.payload_fingerprint;
  callback_capsule_ref = capsule.ref;
  callback_capsule_hash = capsule.hash;
  callback_capsule_format_version = capsule.format_version;
  idempotency_key_ref = capsule.ref;
  idempotency_key_hash = key_hash;
  state = EffectState.planned;
  allowed_repair_actions = [];
  dependency_effect_ids = [];
  effect_revision = 1;
  route_decision_id = some input.route_decision_id;
  policy_evaluation_id = some input.policy_evaluation_id;
  capsule_fingerprint = some fingerprint;
  current_approval_id = input.current_approval_id;
  policy_version_hash = some input.policy_version_hash;
  scope_hash = some input.scope_hash;
  redaction_rule_version = some (or_else input.redaction_rule_version rules);
  ingress_finding_id = none;
  authoritative_receipt_id = none;
  external_receipt_hash = none;
  created_event_id = none;
  terminal_event_id = none;
  created_at = draw.now;
  updated_at = draw.now;
}

abbrev pub prepared_of : String → SealedCapsuleRow → String → PreparedEffect
prepared_of effect_id capsule key_hash = record {
  effect_id = effect_id;
  attempt_no = 1;
  callback_capsule_ref = capsule.ref;
  callback_capsule_hash = capsule.hash;
  callback_capsule_format_version = capsule.format_version;
  idempotency_key_hash = key_hash;
}

-- An approval of the run that is approved and not bound yet.
abbrev pub is_unbound : String → String → String → ApprovalRow → Bool
is_unbound id run_id workspace a =
    approval_is id a
    && opt_str_eq a.run_id (some run_id)
    && opt_str_eq a.workspace_id (some workspace)
    && is_approved a.decision
    && not (is_some a.effect_id)
    && not (is_some a.effect_revision)

abbrev pub bound_to : String → ApprovalRow → ApprovalRow
bound_to effect_id a = record a { effect_id = some effect_id; effect_revision = some 1 }

-- The binding of the approval that the input names.
unfoldable pub bind_current : PrepareEffectInput → Draw → Tx ProtocolTables (Unit {0})
bind_current input draw = elim (truthy input.current_approval_id) [
  | none ↦ λ t. ok (tt, t)
  | some id ↦ do
    workspace ← gets (resolve_workspace_id input.run_id)
    changes ←
        gets (λ (t : ProtocolTables). exists_row (is_unbound id input.run_id workspace) t.approvals)
    require changes approval_required
    modify (λ (t : ProtocolTables). record t {
      approvals =
          update_where (is_unbound id input.run_id workspace) (bound_to draw.effect_id) t.approvals;
    })
]

-- `idempotency_key_hash = ? AND owner_frame_id = ?`
abbrev pub same_request : String → PrepareEffectInput → RunEffect → Bool
same_request key_hash input e = with_key key_hash e && str_eq e.owner_frame_id input.owner_frame_id

abbrev prepare_edge : PrepareEffectInput → Draw → String → AuditEdge
prepare_edge input draw event_id = record {
  id = draw.edge_id;
  run_id = input.run_id;
  from_kind = "frame";
  from_id = input.owner_frame_id;
  relation = "owns_effect";
  to_kind = "effect";
  to_id = draw.effect_id;
  source_event_id = some event_id;
}

abbrev pub insert_effect : RunEffect → ProtocolTables → ProtocolTables
insert_effect e = on_ledger (λ l. record l { effects = insert_row e l.effects })

-- `INSERT INTO run_effects`, whose keys are unique
unfoldable pub insert_new : RunEffect → Tx ProtocolTables (Unit {0})
insert_new e = do
  taken ←
      gets (λ (t : ProtocolTables). exists_row (with_key e.idempotency_key_hash) t.ledger.effects)
  require (not taken) database_error
  modify (insert_effect e)

module _ (V : Vault) where
  open V use {platform}

  -- A repeated call: the effect that there is, if nothing about it has changed.
  unfoldable pub reuse :
      PrepareEffectInput → String → String → RunEffect → Tx ProtocolTables PreparedEffect
  reuse input key_hash fingerprint existing = do
    require (str_eq existing.payload_fingerprint input.payload_fingerprint)
        effect_payload_fingerprint_changed
    require (opt_str_eq existing.capsule_fingerprint (some fingerprint))
        effect_payload_fingerprint_changed
    capsule ← λ t. require_some (fetch_by_binding existing.id callback 1 t.vault) capsule_invalid t
    λ t. ok (prepared_of existing.id capsule key_hash, t)

  -- A new effect with its approval, its sealed callback and its edge.
  unfoldable pub create :
      PrepareEffectInput
      → String
      → String
      → Fresh
      → Draw
      → String
      → Tx ProtocolTables PreparedEffect
  create input key_hash rules fresh draw event_id = do
    let plaintext = callback_plaintext input key_hash rules
    let fingerprint = payload_hash platform plaintext
    bind_current input draw
    workspace ← gets (resolve_workspace_id input.run_id)
    capsule ←
        in_vault
          (seal V (capsule_binding input fingerprint workspace draw event_id) plaintext fresh)
    insert_new (prepared_effect input key_hash fingerprint rules capsule draw)
    modify (on_ledger (append_edge (prepare_edge input draw event_id)))
    λ t. ok (prepared_of draw.effect_id capsule key_hash, t)

  unfoldable pub reuse_or_create :
      PrepareEffectInput
      → String
      → String
      → String
      → Fresh
      → Draw
      → String
      → Option RunEffect
      → Tx ProtocolTables PreparedEffect
  reuse_or_create input key_hash fingerprint rules fresh draw event_id (some e) =
      reuse input key_hash fingerprint e
  reuse_or_create input key_hash fingerprint rules fresh draw event_id none =
      create input key_hash rules fresh draw event_id

  -- The body of `prepare`; `post` is `postPrepareBody`.
  unfoldable pub prepare_body :
      PrepareEffectInput
      → String
      → Fresh
      → Draw
      → (PreparedEffect → Tx ProtocolTables (Unit {0}))
      → String
      → Tx ProtocolTables PreparedEffect
  prepare_body input rules fresh draw post event_id = do
    let key_hash = platform.sha256 input.idempotency_key
    let fingerprint = payload_hash platform (callback_plaintext input key_hash rules)
    owner ← λ t. require_some (find_frame input.owner_frame_id t.ledger.frames) frame_not_found t
    require (str_eq owner.run_id input.run_id) effect_owner_mismatch
    existing ← gets (λ (t : ProtocolTables). select (same_request key_hash input) t.ledger.effects)
    prepared ← reuse_or_create input key_hash fingerprint rules fresh draw event_id existing
    post prepared
    λ t. ok (prepared, t)

  abbrev prepare_meta : PrepareEffectInput → EventMeta
  prepare_meta input = record {
    run_id = input.run_id;
    workspace_id = none;
    event_type = "effect_prepared";
    event_payload = object (
        ("effectType", str input.effect_type)
        ∷ ("adapterKind", str input.adapter_kind)
        ∷ ("ownerFrameId", str input.owner_frame_id)
        ∷ ("payloadFingerprint", str input.payload_fingerprint)
        ∷ ("idempotencyKeyHash", str (platform.sha256 input.idempotency_key))
        ∷ []);
    policy_version_hash = none;
    redaction_rule_version = none;
    frame_id = some input.owner_frame_id;
    effect_id = none;
    repair_transaction_id = none;
    caused_by_event_id = none;
    idempotency_key_hash = some (platform.sha256 input.idempotency_key);
    external_receipt_hash = none;
    target_subtree_revision = none;
  }

  -- `prepare`
  unfoldable pub prepare :
      (L : EventLog)
      → PrepareEffectInput
      → Fresh
      → Draw
      → (PreparedEffect → Tx ProtocolTables (Unit {0}))
      → Surroundings
      → Call L ProtocolTables PreparedEffect
  prepare L input fresh draw post s =
      transactional_append L s (prepare_meta input)
        (prepare_body input s.current_redaction_rule_version fresh draw post)
