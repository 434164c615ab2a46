-- ===== src/Recovery.antt =====
-- The approvals of a retry: ogra-desktop/src/core/recovery-approval-service.ts.
mod Body
pub mod Minting
pub mod Once
mod Commutes
pub mod Unread
mod Tests
use ogra.Prelude.{
  ℕ, String, Bool, true, false, not, ◌&&◌, ◌||◌, Option, none, some, List, [], ◌∷◌, str_eq,
  opt_str_eq, ◌==◌, ltb, is_some, or_else, select, select_all, exists_row, update_where, insert_row,
  if◌then◌else◌,
}
use ogra.Audit.Json.{Json, str, num, object}
use ogra.Audit.Chain.{EventMeta, Surroundings}
use ogra.Audit.Log.{EventLog}
use ogra.Durable.Transaction.{
  approval_required, approval_revoked, effect_not_found, lease_not_held, revision_conflict,
  database_error, Result, ok, err, Tx, ◌>>=◌, ◌>>◌, require, require_some, modify, gets, Call,
  transactional_append, before_transaction,
}
use ogra.Durable.Effect.{RunEffect, AuditEdge, edge_taken, find_effect}
use ogra.Protocol.{
  approved, ApprovalRow, RecoveryApproval, RecoveryDecision, AgentRun, ProtocolTables, truthy,
  holds_lease, on_ledger,
}
use ogra.Protocol.Consume.{has_expired, is_approved, approval_is}

pub record MintRecoveryApprovalInput : Type 0 where
  pub effect_id : String
  pub recovery_attempt : ℕ
  pub approved_recovery_approval_id : String
  pub decided_by : String
  pub reason : Option String
  pub expires_at : Option ℕ
  pub lease_holder_id : String
  pub lease_version : ℕ

pub record MintRecoveryApprovalResult : Type 0 where
  pub recovery_approval_id : String
  pub revoked_prepare_approval_id : Option String
  pub recovery_attempt : ℕ
  pub outcome_event_id : String

-- The clock (`asOf`, if it is given) and the random ids of one call.
pub record MintDraw : Type 0 where
  pub now : ℕ
  pub recovery_approval_id : String
  pub edge_id : String
  pub recovery_decision_id : String
  pub decision_edge_id : String

-- `a = b` in SQL, which no null passes
abbrev pub sql_eq : Option String → Option String → Bool
sql_eq none b = false
sql_eq (some a) b = opt_str_eq (some a) b

abbrev pub is_revision : ℕ → Option ℕ → Bool
is_revision n none = false
is_revision n (some m) = m == n

-- The effect with its run, as the JOIN gives them.
unfoldable pub joined : String → ProtocolTables → Option (RunEffect × AgentRun)
joined effect_id t = elim (find_effect effect_id t.ledger.effects) [
  | none ↦ none
  | some e ↦ elim (select (λ (r : AgentRun). str_eq r.id e.run_id) t.runs) [
    | none ↦ none
    | some r ↦ some (e, r)
  ]
]

-- The WHERE clause of the approval that a mint rests on.
unfoldable pub is_current : String → RunEffect → AgentRun → ℕ → ApprovalRow → Bool
is_current id e r now a =
    approval_is id a
    && opt_str_eq a.run_id (some e.run_id)
    && sql_eq r.workspace_id a.workspace_id
    && opt_str_eq a.effect_id (some e.id)
    && is_revision e.effect_revision a.effect_revision
    && str_eq a.approval_type "recovery_retry"
    && is_approved a.decision
    && ltb a.uses_consumed a.use_limit
    && not (has_expired now a.expires_at)
    && opt_str_eq a.payload_fingerprint (some e.payload_fingerprint)
    && opt_str_eq a.policy_version_hash (some (or_else e.policy_version_hash ""))
    && (opt_str_eq a.scope_hash e.scope_hash || sql_eq a.scope_hash e.scope_hash)

-- `UNIQUE(effect_id, recovery_attempt)`
abbrev pub for_attempt : String → ℕ → RecoveryApproval → Bool
for_attempt effect_id attempt a = str_eq a.effect_id effect_id && (a.recovery_attempt == attempt)

abbrev pub minted : MintRecoveryApprovalInput → RunEffect → AgentRun → MintDraw → RecoveryApproval
minted input e r draw = record {
  id = draw.recovery_approval_id;
  effect_id = input.effect_id;
  run_id = e.run_id;
  recovery_attempt = input.recovery_attempt;
  workspace_id = or_else r.workspace_id "";
  policy_version_hash = or_else e.policy_version_hash "";
  redaction_rule_version = or_else e.redaction_rule_version "";
  scope_hash = e.scope_hash;
  payload_fingerprint = e.payload_fingerprint;
  decided_by = input.decided_by;
  reason = input.reason;
  expires_at = input.expires_at;
  use_limit = 1;
  uses_consumed = 0;
  created_at = draw.now;
}

abbrev pub is_revoked : Option ApprovalRow → Bool
is_revoked none = false
is_revoked (some a) = a.revoked_for_recovery

-- The approval of the prepare step must not be revoked yet.
unfoldable pub check_unrevoked : RunEffect → ProtocolTables → Bool
check_unrevoked e t = elim (truthy e.current_approval_id) [
  | none ↦ true
  | some id ↦ not (is_revoked (select (approval_is id) t.approvals))
]

abbrev pub revoked : ℕ → ApprovalRow → ApprovalRow
revoked now a = record a { revoked_for_recovery = true; revoked_for_recovery_at = some now }

abbrev pub insert_minted : RecoveryApproval → ProtocolTables → ProtocolTables
insert_minted a t = record t { recovery_approvals = insert_row a t.recovery_approvals }

abbrev pub revoke_rows : String → ℕ → ProtocolTables → ProtocolTables
revoke_rows id now t = record t {
  approvals = update_where (approval_is id) (revoked now) t.approvals;
}

-- A row that keeps another out: that constraint, or the primary key `id`.
abbrev pub keeps_out : RecoveryApproval → RecoveryApproval → Bool
keeps_out a b = for_attempt a.effect_id a.recovery_attempt b || str_eq b.id a.id

-- The row, unless the attempt or the id has one.
unfoldable pub insert_approval : RecoveryApproval → Tx ProtocolTables (Unit {0})
insert_approval a = do
  taken ← gets (λ (t : ProtocolTables). exists_row (keeps_out a) t.recovery_approvals)
  require (not taken) approval_revoked
  modify (insert_minted a)

unfoldable pub revoke : String → ℕ → Tx ProtocolTables (Unit {0})
revoke id now = do
  changes ← gets (λ (t : ProtocolTables). exists_row (approval_is id) t.approvals)
  require changes revision_conflict
  modify (revoke_rows id now)

-- The revocation of the approval of the prepare step, and its id.
unfoldable pub revoke_current : RunEffect → ℕ → Tx ProtocolTables (Option String)
revoke_current e now = elim (truthy e.current_approval_id) [
  | none ↦ λ t. ok (none, t)
  | some id ↦ revoke id now >> (λ t. ok (some id, t))
]

abbrev pub add_edge : AuditEdge → ProtocolTables → ProtocolTables
add_edge e = on_ledger (λ l. record l { edges = insert_row e l.edges })

-- `INSERT INTO audit_edges`, whose keys and ids are unique
unfoldable pub insert_edge : AuditEdge → Tx ProtocolTables (Unit {0})
insert_edge e = do
  there ← gets (λ (t : ProtocolTables). exists_row (edge_taken e) t.ledger.edges)
  require (not there) database_error
  modify (add_edge e)

abbrev pub minted_edge : MintRecoveryApprovalInput → RunEffect → MintDraw → String → AuditEdge
minted_edge input e draw event_id = record {
  id = draw.edge_id;
  run_id = e.run_id;
  from_kind = "effect";
  from_id = input.effect_id;
  relation = "has_recovery_approval";
  to_kind = "recovery_approval";
  to_id = draw.recovery_approval_id;
  source_event_id = some event_id;
}

abbrev pub decision_edge : MintRecoveryApprovalInput → RunEffect → MintDraw → String → AuditEdge
decision_edge input e draw event_id = record {
  id = draw.decision_edge_id;
  run_id = e.run_id;
  from_kind = "effect";
  from_id = input.effect_id;
  relation = "recovery_approval_minted";
  to_kind = "recovery_decision";
  to_id = draw.recovery_decision_id;
  source_event_id = some event_id;
}

abbrev pub decision_of : MintRecoveryApprovalInput → RunEffect → MintDraw → RecoveryDecision
decision_of input e draw = record {
  id = draw.recovery_decision_id;
  run_id = e.run_id;
  effect_id = input.effect_id;
  lease_holder_id = input.lease_holder_id;
  lease_version = input.lease_version;
  state_before = e.state;
  final_state = e.state;
  decision_code = "recovery_approval_minted";
  incident_kind = none;
  detail = input.reason;
  payload_digest = some e.payload_fingerprint;
  rule_version = "m2";
  created_at = draw.now;
}

abbrev pub insert_decision : RecoveryDecision → ProtocolTables → ProtocolTables
insert_decision d t = record t { recovery_decisions = insert_row d t.recovery_decisions }

-- The lease of the effect's run.
unfoldable pub lease_is_held : MintRecoveryApprovalInput → ℕ → ProtocolTables → Bool
lease_is_held input now t = elim (find_effect input.effect_id t.ledger.effects) [
  | none ↦ false
  | some e ↦ holds_lease e.run_id input.lease_holder_id input.lease_version now t.ledger.leases
]

-- The body of `mintRecoveryApproval`.
unfoldable pub mint_body :
    MintRecoveryApprovalInput → MintDraw → String → Tx ProtocolTables MintRecoveryApprovalResult
mint_body input draw event_id = do
  held ← gets (lease_is_held input draw.now)
  require held lease_not_held
  found ← λ t. require_some (joined input.effect_id t) effect_not_found t
  current ← gets (λ (t : ProtocolTables).
      exists_row (is_current input.approved_recovery_approval_id found.0 found.1 draw.now)
        t.approvals)
  require current approval_required
  unrevoked ← gets (check_unrevoked found.0)
  require unrevoked approval_revoked
  insert_approval (minted input found.0 found.1 draw)
  revoked_id ← revoke_current found.0 draw.now
  insert_edge (minted_edge input found.0 draw event_id)
  modify (insert_decision (decision_of input found.0 draw))
  insert_edge (decision_edge input found.0 draw event_id)
  λ t. ok (
    record {
      recovery_approval_id = draw.recovery_approval_id;
      revoked_prepare_approval_id = revoked_id;
      recovery_attempt = input.recovery_attempt;
      outcome_event_id = event_id;
    },
    t,
  )

-- The tests before the transaction.
unfoldable pub check_mint :
    MintRecoveryApprovalInput → ProtocolTables → Result (RunEffect × AgentRun)
check_mint input t =
    if str_eq input.approved_recovery_approval_id ""
    then err approval_required
    else elim (joined input.effect_id t) [ none ↦ err effect_not_found | some x ↦ ok x ]

abbrev mint_meta : MintRecoveryApprovalInput → RunEffect → AgentRun → MintDraw → EventMeta
mint_meta input e r draw = record {
  run_id = e.run_id;
  workspace_id = r.workspace_id;
  event_type = "effect_recovery_approval_minted";
  event_payload = object (
      ("effectId", str input.effect_id)
      ∷ ("recoveryApprovalId", str draw.recovery_approval_id)
      ∷ ("recoveryAttempt", num input.recovery_attempt)
      ∷ ("decidedBy", str input.decided_by)
      ∷ ("ruleVersion", str "m2")
      ∷ []);
  policy_version_hash = none;
  redaction_rule_version = none;
  frame_id = none;
  effect_id = none;
  repair_transaction_id = none;
  caused_by_event_id = none;
  idempotency_key_hash = none;
  external_receipt_hash = none;
  target_subtree_revision = none;
}

-- `mintRecoveryApproval`
unfoldable pub mint_recovery_approval :
    (L : EventLog)
    → MintRecoveryApprovalInput
    → MintDraw
    → Surroundings
    → Call L ProtocolTables MintRecoveryApprovalResult
mint_recovery_approval L input draw s =
    before_transaction L (check_mint input) λ found.
      transactional_append L s (mint_meta input found.0 found.1 draw) (mint_body input draw)

-- The later of two rows, by their attempts.
abbrev later : RecoveryApproval → Option RecoveryApproval → RecoveryApproval
later a none = a
later a (some b) = if ltb a.recovery_attempt b.recovery_attempt then b else a

abbrev latest : List RecoveryApproval → Option RecoveryApproval
latest [] = none
latest (a ∷ rest) = some (later a (latest rest))

-- `latestFor`
unfoldable pub latest_for : String → ProtocolTables → Option RecoveryApproval
latest_for effect_id t =
    latest
      (select_all (λ (a : RecoveryApproval). str_eq a.effect_id effect_id) t.recovery_approvals)
