-- ===== src/Protocol.antt =====
-- The effect protocol of ogra-desktop/src/core/effect-protocol-service.ts: its tables
-- (ogra-desktop/src/core/database.ts), and what its operations share.
pub mod Consume
pub mod Cas
pub mod Prepare
pub mod Receipt
pub mod Outcome
pub mod Commit
pub mod Reads
pub mod Quiet
pub mod Lifecycle
pub mod Limits
pub mod History
pub mod Inversion
pub mod Approvals
pub mod Gates
pub mod Tests
use ogra.Prelude.{
  ℕ, ◌+◌, String, Bool, true, false, not, ◌&&◌, ◌||◌, Option, none, some, List, [], ◌∷◌, str_eq,
  ◌==◌, leb, is_some, or_else, select, exists_row, update_where, insert_row, if◌then◌else◌,
}
use ogra.Audit.Json.{codes}
use ogra.Durable.Transaction.{
  OgraErrorCode, lease_not_held, revision_conflict, Result, ok, err, Tx, ◌>>=◌, ◌>>◌, require,
}
pub use ogra.Durable.Lease.{AgentRun}
use ogra.Durable.Lease.{Lease, Leases}
use ogra.Durable.Effect.{
  EffectState, state_eq, RunEffect, AuditEdge, EffectTables, with_id, read_effect, append_edge,
}
use ogra.Capsule.{CapsuleTables, Steps}

pub data ApprovalDecision : Type 0 where
  pending approved denied expired : ApprovalDecision

-- A row of `approvals`.
pub record ApprovalRow : Type 0 where
  pub id : String
  pub run_id : Option String
  pub workspace_id : Option String
  pub approval_type : String
  pub decision : ApprovalDecision
  pub expires_at : Option ℕ
  pub scope_hash : Option String
  pub payload_fingerprint : Option String
  pub policy_version_hash : Option String
  pub revision : ℕ
  pub use_limit : ℕ
  pub uses_consumed : ℕ
  pub effect_id : Option String
  pub effect_revision : Option ℕ
  pub revoked_for_recovery : Bool
  pub revoked_for_recovery_at : Option ℕ

-- A row of `recovery_approvals`.
pub record RecoveryApproval : Type 0 where
  pub id : String
  pub effect_id : String
  pub run_id : String
  pub recovery_attempt : ℕ
  pub workspace_id : String
  pub policy_version_hash : String
  pub redaction_rule_version : String
  pub scope_hash : Option String
  pub payload_fingerprint : String
  pub decided_by : String
  pub reason : Option String
  pub expires_at : Option ℕ
  pub use_limit : ℕ
  pub uses_consumed : ℕ
  pub created_at : ℕ

-- A row of `recovery_decisions`.
pub record RecoveryDecision : Type 0 where
  pub id : String
  pub run_id : String
  pub effect_id : String
  pub lease_holder_id : String
  pub lease_version : ℕ
  pub state_before : EffectState
  pub final_state : EffectState
  pub decision_code : String
  pub incident_kind : Option String
  pub detail : Option String
  pub payload_digest : Option String
  pub rule_version : String
  pub created_at : ℕ

-- A row of `approval_consumptions`.
pub record ApprovalConsumption : Type 0 where
  pub id : String
  pub approval_id : String
  pub effect_id : String
  pub callback_attempt_no : ℕ
  pub approval_revision : ℕ
  pub consumed_at : ℕ
  pub event_id : Option String

-- A row of `ingress_findings`; of the text `detail`, the attempt number that it prints.
pub record IngressFinding : Type 0 where
  pub id : String
  pub effect_id : String
  pub receipt_id : Option String
  pub finding_kind : String
  pub attempt_no : ℕ
  pub event_id : Option String
  pub created_at : ℕ

-- The columns of `agent_runs` and `route_decisions` that the protocol reads.
pub record StoredRoute : Type 0 where
  pub id : String
  pub requires_user_approval : Bool

pub record ProtocolTables : Type 0 where
  pub ledger : EffectTables
  pub vault : CapsuleTables
  pub approvals : List ApprovalRow
  pub recovery_approvals : List RecoveryApproval
  pub recovery_decisions : List RecoveryDecision
  pub consumptions : List ApprovalConsumption
  pub findings : List IngressFinding
  pub runs : List AgentRun
  pub routes : List StoredRoute
  -- The column `effect_id` of `tool_invocations`.
  pub tool_effects : List String

-- Random values and the clock of one call.
pub record Draw : Type 0 where
  pub now : ℕ
  pub effect_id : String
  pub receipt_id : String
  pub finding_id : String
  pub binding_id : String
  pub consumption_id : String
  pub edge_id : String
  pub approval_edge_id : String

-- `if (x)` of a text that may be null
abbrev pub truthy : Option String → Option String
truthy none = none
truthy (some s) = if str_eq s "" then none else some s

abbrev is_prefix : List ℕ → List ℕ → Bool
is_prefix [] ys = true
is_prefix (x ∷ xs) [] = false
is_prefix (x ∷ xs) (y ∷ ys) = (x == y) && is_prefix xs ys

-- `startsWith('rap_')`
abbrev pub is_recovery_id : String → Bool
is_recovery_id id = is_prefix (codes "rap_") (codes id)

-- `resolveWorkspaceId`
unfoldable pub resolve_workspace_id : String → ProtocolTables → String
resolve_workspace_id run_id t = elim (select (λ (r : AgentRun). str_eq r.id run_id) t.runs) [
  | none ↦ "ws_default"
  | some r ↦ or_else (truthy r.workspace_id) "ws_default"
]

-- `routeRequiresApproval`
unfoldable pub route_requires_approval : Option String → ProtocolTables → Bool
route_requires_approval route t = elim (truthy route) [
  | none ↦ false
  | some id ↦ elim (select (λ (r : StoredRoute). str_eq r.id id) t.routes) [
    | none ↦ false
    | some r ↦ r.requires_user_approval
  ]
]

-- The row of an active lease: `run_id = ? AND holder_id = ? AND lease_version = ? AND released_at
-- IS NULL AND expires_at > ?`
abbrev pub is_active : String → String → ℕ → ℕ → Lease → Bool
is_active run_id holder version now l =
    str_eq l.run_id run_id
    && str_eq l.holder_id holder
    && (l.lease_version == version)
    && not (is_some l.released_at)
    && not (leb l.expires_at now)

unfoldable pub holds_lease : String → String → ℕ → ℕ → Leases → Bool
holds_lease run_id holder version now leases =
    exists_row (is_active run_id holder version now) leases

-- `assertActiveLease`
unfoldable pub assert_active_lease : String → String → ℕ → ℕ → ProtocolTables → Result (Unit {0})
assert_active_lease run_id holder version now t =
    if holds_lease run_id holder version now t.ledger.leases then ok tt else err lease_not_held

abbrev pub on_ledger : (EffectTables → EffectTables) → ProtocolTables → ProtocolTables
on_ledger f t = record t { ledger = f t.ledger }

abbrev pub update_effects :
    (RunEffect → Bool) → (RunEffect → RunEffect) → ProtocolTables → ProtocolTables
update_effects p f t = record t {
  ledger = record t.ledger { effects = update_where p f t.ledger.effects };
}

abbrev pub exists_effect : (RunEffect → Bool) → ProtocolTables → Bool
exists_effect p t = exists_row p t.ledger.effects

abbrev pub find_effect_row : String → ProtocolTables → Result RunEffect
find_effect_row id t = read_effect id t.ledger

abbrev pub keep_vault :
    {A : Type 0} → ProtocolTables → Result A × CapsuleTables → Result (A × ProtocolTables)
keep_vault t (ok a, v) = ok (a, record t { vault = v })
keep_vault t (err e, v) = err e

-- A call of the capsule store inside a transaction, which takes its incident back on an error.
abbrev pub in_vault : {A : Type 0} → Steps CapsuleTables A → Tx ProtocolTables A
in_vault m t = keep_vault t (m t.vault)

abbrev pub lift : {A : Type 0} → (ProtocolTables → Result A) → Tx ProtocolTables A
lift f t = elim (f t) [ ok a ↦ ok (a, t) | err e ↦ err e ]

-- `Date.now() + 7 * 24 * 60 * 60 * 1000`
abbrev pub capsule_expiry : ℕ → ℕ
capsule_expiry now = now + 604800000

-- `id = ? AND state = ?`
abbrev pub in_state : String → EffectState → RunEffect → Bool
in_state id s e = with_id id e && state_eq e.state s

-- `UPDATE run_effects … WHERE …`, an error if no row is changed.
abbrev pub cas_effect : (RunEffect → Bool) → (RunEffect → RunEffect) → Tx ProtocolTables (Unit {0})
cas_effect p f = do
  changes ← λ t. ok (exists_effect p t, t)
  require changes revision_conflict
  λ t. ok (tt, update_effects p f t)

abbrev pub ingress_edge : RunEffect → String → Draw → String → AuditEdge
ingress_edge effect to_id draw event_id = record {
  id = draw.edge_id;
  run_id = effect.run_id;
  from_kind = "effect";
  from_id = effect.id;
  relation = "has_ingress";
  to_kind = "ingress";
  to_id = to_id;
  source_event_id = some event_id;
}
