-- ===== src/Protocol/Consume.antt =====
-- `consumeApprovalForCallback` of ogra-desktop/src/core/effect-protocol-service.ts.
use ogra.Prelude.{
  ℕ, ◌+◌, String, Bool, true, false, not, ◌&&◌, ◌||◌, Option, none, some, str_eq, opt_str_eq, ◌==◌,
  ltb, leb, is_some, select, exists_row, insert_row, update_where, if◌then◌else◌,
}
use ogra.Durable.Transaction.{
  approval_required, database_error, ok, Tx, ◌>>=◌, ◌>>◌, require, require_some, gets, modify,
}
use ogra.Durable.Effect.{
  RunEffect, BindingKind, initial, recovery_retry, EffectApprovalBinding, AuditEdge, append_edge,
}
use ogra.Durable.Effect.Receipt.{binds_attempt}
use ogra.Protocol.{
  ApprovalDecision, pending, approved, denied, expired, ApprovalRow, RecoveryApproval,
  ApprovalConsumption, ProtocolTables, Draw, truthy, is_recovery_id, resolve_workspace_id,
  on_ledger,
}

-- The columns that both kinds of approval have.
pub record Authority : Type 0 where
  pub run_id : Option String
  pub workspace_id : Option String
  pub expires_at : Option ℕ
  pub scope_hash : Option String
  pub payload_fingerprint : Option String
  pub policy_version_hash : Option String
  pub effect_id : Option String

abbrev pub of_approval : ApprovalRow → Authority
of_approval a = record {
  run_id = a.run_id;
  workspace_id = a.workspace_id;
  expires_at = a.expires_at;
  scope_hash = a.scope_hash;
  payload_fingerprint = a.payload_fingerprint;
  policy_version_hash = a.policy_version_hash;
  effect_id = a.effect_id;
}

abbrev pub of_recovery_approval : RecoveryApproval → Authority
of_recovery_approval a = record {
  run_id = some a.run_id;
  workspace_id = some a.workspace_id;
  expires_at = a.expires_at;
  scope_hash = a.scope_hash;
  payload_fingerprint = some a.payload_fingerprint;
  policy_version_hash = some a.policy_version_hash;
  effect_id = some a.effect_id;
}

abbrev pub has_expired : ℕ → Option ℕ → Bool
has_expired now none = false
has_expired now (some at) = leb at now

-- `x && x === y`
abbrev pub names : Option String → Option String → Bool
names x y = is_some (truthy x) && opt_str_eq x y

-- The tests on either kind of approval.
unfoldable pub is_valid_for : RunEffect → String → ℕ → Authority → Bool
is_valid_for effect workspace now a =
    opt_str_eq a.run_id (some effect.run_id)
    && opt_str_eq a.workspace_id (some workspace)
    && names a.scope_hash effect.scope_hash
    && names a.payload_fingerprint (some effect.payload_fingerprint)
    && names a.policy_version_hash effect.policy_version_hash
    && opt_str_eq a.effect_id (some effect.id)
    && not (has_expired now a.expires_at)

abbrev pub is_approved : ApprovalDecision → Bool
is_approved approved = true
is_approved pending = false
is_approved denied = false
is_approved expired = false

-- The types of approval that allow a callback of the kind.
unfoldable pub type_allows : BindingKind → String → Bool
type_allows initial type = str_eq type "egress" || str_eq type "tool_invocation"
type_allows recovery_retry type = str_eq type "recovery_retry"

abbrev pub is_retry : BindingKind → Bool
is_retry initial = false
is_retry recovery_retry = true

abbrev pub approval_is : String → ApprovalRow → Bool
approval_is id a = str_eq a.id id

abbrev pub recovery_approval_is : String → RecoveryApproval → Bool
recovery_approval_is id a = str_eq a.id id

-- `id = ? AND revision = ? AND decision = 'approved' AND uses_consumed < use_limit`
abbrev pub may_consume : String → ℕ → ApprovalRow → Bool
may_consume id revision a =
    approval_is id a
    && (a.revision == revision)
    && is_approved a.decision
    && ltb a.uses_consumed a.use_limit

abbrev pub may_consume_recovery : String → RecoveryApproval → Bool
may_consume_recovery id a = recovery_approval_is id a && ltb a.uses_consumed a.use_limit

abbrev pub used : ApprovalRow → ApprovalRow
used a = record a { uses_consumed = a.uses_consumed + 1 }

abbrev pub used_recovery : RecoveryApproval → RecoveryApproval
used_recovery a = record a { uses_consumed = a.uses_consumed + 1 }

-- `UPDATE approvals SET uses_consumed = uses_consumed + 1 WHERE …`, an error if no row is changed
unfoldable pub spend : String → ℕ → Tx ProtocolTables (Unit {0})
spend id revision = do
  changes ← gets (λ (t : ProtocolTables). exists_row (may_consume id revision) t.approvals)
  require changes approval_required
  modify (λ (t : ProtocolTables). record t {
    approvals = update_where (may_consume id revision) used t.approvals;
  })

unfoldable pub spend_recovery : String → Tx ProtocolTables (Unit {0})
spend_recovery id = do
  changes ← gets (λ (t : ProtocolTables). exists_row (may_consume_recovery id) t.recovery_approvals)
  require changes approval_required
  modify (λ (t : ProtocolTables). record t {
    recovery_approvals = update_where (may_consume_recovery id) used_recovery t.recovery_approvals;
  })

-- The part on an `approvals` row; the value is the revision that is consumed.
unfoldable pub consume_approval : RunEffect → String → BindingKind → ℕ → Tx ProtocolTables ℕ
consume_approval effect id kind now = do
  row ← λ t. require_some (select (approval_is id) t.approvals) approval_required t
  workspace ← gets (resolve_workspace_id effect.run_id)
  require (is_valid_for effect workspace now (of_approval row)) approval_required
  require (is_approved row.decision) approval_required
  require (type_allows kind row.approval_type) approval_required
  spend id row.revision
  λ t. ok (row.revision, t)

-- The part on a `recovery_approvals` row, which has no revision.
unfoldable pub consume_recovery_approval :
    RunEffect → String → BindingKind → ℕ → ℕ → Tx ProtocolTables ℕ
consume_recovery_approval effect id kind attempt now = do
  row ←
      λ t. require_some (select (recovery_approval_is id) t.recovery_approvals) approval_required t
  workspace ← gets (resolve_workspace_id effect.run_id)
  require (is_valid_for effect workspace now (of_recovery_approval row)) approval_required
  require (is_retry kind) approval_required
  require (row.recovery_attempt == attempt) approval_required
  spend_recovery id
  λ t. ok (1, t)

-- `UNIQUE(approval_id, effect_id, callback_attempt_no)`
abbrev pub consumes : String → String → ℕ → ApprovalConsumption → Bool
consumes approval_id effect_id attempt c =
    str_eq c.approval_id approval_id
    && str_eq c.effect_id effect_id
    && (c.callback_attempt_no == attempt)

abbrev pub consumption : RunEffect → String → ℕ → ℕ → Draw → String → ApprovalConsumption
consumption effect id attempt revision draw event_id = record {
  id = draw.consumption_id;
  approval_id = id;
  effect_id = effect.id;
  callback_attempt_no = attempt;
  approval_revision = revision;
  consumed_at = draw.now;
  event_id = some event_id;
}

abbrev pub approval_binding :
    RunEffect → String → ℕ → ℕ → BindingKind → Draw → String → EffectApprovalBinding
approval_binding effect id attempt revision kind draw event_id = record {
  id = draw.binding_id;
  effect_id = effect.id;
  callback_attempt_no = attempt;
  approval_id = id;
  approval_revision = revision;
  binding_kind = kind;
  created_event_id = event_id;
}

abbrev pub approval_edge : RunEffect → String → Draw → String → AuditEdge
approval_edge effect id draw event_id = record {
  id = draw.approval_edge_id;
  run_id = effect.run_id;
  from_kind = "effect";
  from_id = effect.id;
  relation = "bound_to_approval";
  to_kind = if is_recovery_id id then "recovery_approval" else "approval";
  to_id = id;
  source_event_id = some event_id;
}

abbrev pub insert_binding : EffectApprovalBinding → ProtocolTables → ProtocolTables
insert_binding b = on_ledger (λ e. record e { bindings = insert_row b e.bindings })

abbrev pub insert_consumption : ApprovalConsumption → ProtocolTables → ProtocolTables
insert_consumption c t = record t { consumptions = insert_row c t.consumptions }

-- The rows that a consumption leaves.
unfoldable pub bind_approval :
    RunEffect → String → ℕ → ℕ → BindingKind → Draw → String → Tx ProtocolTables (Unit {0})
bind_approval effect id attempt revision kind draw event_id = do
  bound ←
      gets (λ (t : ProtocolTables). exists_row (binds_attempt effect.id attempt) t.ledger.bindings)
  require (not bound) database_error
  modify (insert_binding (approval_binding effect id attempt revision kind draw event_id))
  consumed ←
      gets (λ (t : ProtocolTables). exists_row (consumes id effect.id attempt) t.consumptions)
  require (not consumed) database_error
  modify (insert_consumption (consumption effect id attempt revision draw event_id))
  modify (on_ledger (append_edge (approval_edge effect id draw event_id)))

-- `consumeApprovalForCallback`
unfoldable pub consume_approval_for_callback :
    RunEffect → String → ℕ → BindingKind → Draw → String → Tx ProtocolTables (Unit {0})
consume_approval_for_callback effect id attempt kind draw event_id = do
  revision ←
      (if is_recovery_id id
        then consume_recovery_approval effect id kind attempt draw.now
        else consume_approval effect id kind draw.now)
  bind_approval effect id attempt revision kind draw event_id
