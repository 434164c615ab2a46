-- ===== src/Durable/Lease.antt =====
-- The recovery lease: `acquireLease`, `renewLease`, `releaseLease`, `readLease` and `leaseExpired`
-- of ogra-desktop/src/core/durable-runtime-service.ts. A time is a number of milliseconds, read
-- once in each call.
pub mod Exclusion
pub mod Fencing
use ogra.Prelude.{
  ℕ, suc, ◌+◌, max, String, Bool, true, false, not, ◌&&◌, Option, none, some, List, [], ◌∷◌, leb,
  ◌==◌, is_some, str_eq, select, insert_row, update_where, exists_row, if◌then◌else◌,
}
use ogra.Audit.Json.{Json, null, num, str, object}
use ogra.Audit.Chain.{EventMeta, Surroundings}
use ogra.Audit.Log.{EventLog}
use ogra.Durable.Transaction.{
  OgraErrorCode, invalid_argument, database_error, run_not_found, lease_not_held,
  lease_version_conflict, lease_taken_over, Result, ok, err, Tx, ◌>>=◌, ◌>>◌, pure, throw, require,
  require_some, gets, modify, Call, transactional_append, before_transaction,
}

-- A row of `recovery_leases`, whose primary key is the run.
pub record Lease : Type 0 where
  pub run_id : String
  pub holder_id : String
  pub lease_version : ℕ
  pub acquired_at : ℕ
  pub expires_at : ℕ
  pub renewed_at : ℕ
  pub released_at : Option ℕ
  pub last_event_id : Option String

abbrev pub Leases : Type 0
Leases = List Lease

abbrev pub of_run : String → Lease → Bool
of_run run_id l = str_eq l.run_id run_id

-- `SELECT * FROM recovery_leases WHERE run_id = ?`
abbrev pub find_lease : String → Leases → Option Lease
find_lease run_id leases = select (of_run run_id) leases

-- `leaseExpired`
abbrev pub lease_expired : ℕ → Lease → Bool
lease_expired now l = if is_some l.released_at then true else leb l.expires_at now

-- `Date.now() + Math.max(1, ttlMs)`
abbrev pub expiry : ℕ → ℕ → ℕ
expiry now ttl_ms = now + max 1 ttl_ms

-- The row selected again after a write.
reread : String → Tx Leases Lease
reread run_id = λ leases. require_some (find_lease run_id leases) database_error leases

write_lease : String → (Lease → Lease) → Tx Leases Lease
unfolding reread
write_lease run_id f = modify (update_where (of_run run_id) f) >> reread run_id

abbrev pub take_over : String → ℕ → ℕ → String → Lease → Lease
take_over holder_id now ttl_ms event_id l = record l {
  holder_id = holder_id;
  lease_version = l.lease_version + 1;
  acquired_at = now;
  expires_at = expiry now ttl_ms;
  renewed_at = now;
  released_at = none;
  last_event_id = some event_id;
}

abbrev pub new_lease : String → String → ℕ → ℕ → String → Lease
new_lease run_id holder_id now ttl_ms event_id = record {
  run_id = run_id;
  holder_id = holder_id;
  lease_version = 1;
  acquired_at = now;
  expires_at = expiry now ttl_ms;
  renewed_at = now;
  released_at = none;
  last_event_id = some event_id;
}

acquire_existing : String → String → ℕ → ℕ → String → Lease → Tx Leases Lease
unfolding write_lease
acquire_existing run_id holder_id now ttl_ms event_id existing =
    if is_some existing.released_at
    then write_lease run_id (take_over holder_id now ttl_ms event_id)
    else if leb existing.expires_at now
    then write_lease run_id (take_over holder_id now ttl_ms event_id)
    else if str_eq existing.holder_id holder_id
    then pure existing
    else throw lease_version_conflict

unfoldable pub acquire_body : String → String → ℕ → ℕ → String → Tx Leases Lease
unfolding acquire_existing reread
acquire_body run_id holder_id now ttl_ms event_id leases = elim (find_lease run_id leases) [
  | some existing ↦ acquire_existing run_id holder_id now ttl_ms event_id existing leases
  | none ↦ reread run_id (insert_row (new_lease run_id holder_id now ttl_ms event_id) leases)
]

abbrev pub renewed : ℕ → ℕ → String → Lease → Lease
renewed now ttl_ms event_id l = record l {
  lease_version = l.lease_version + 1;
  expires_at = expiry now ttl_ms;
  renewed_at = now;
  last_event_id = some event_id;
}

-- `UPDATE … WHERE run_id = ? AND lease_version = ?`
abbrev pub at_version : String → ℕ → Lease → Bool
at_version run_id version l = of_run run_id l && (l.lease_version == version)

unfoldable pub renew_body : String → String → ℕ → ℕ → ℕ → String → Tx Leases Lease
unfolding reread
renew_body run_id holder_id version now ttl_ms event_id = do
  found ← gets (find_lease run_id)
  existing ← require_some found lease_not_held
  require (str_eq existing.holder_id holder_id) lease_not_held
  require (existing.lease_version == version) lease_version_conflict
  require (not (is_some existing.released_at)) lease_not_held
  require (not (leb existing.expires_at now)) lease_taken_over
  changed ← gets (exists_row (at_version run_id version))
  require changed lease_version_conflict
  modify (update_where (at_version run_id version) (renewed now ttl_ms event_id))
  reread run_id

abbrev pub released : ℕ → String → Lease → Lease
released now event_id l = record l {
  released_at = some now;
  lease_version = l.lease_version + 1;
  last_event_id = some event_id;
}

unfoldable pub release_body : String → String → ℕ → ℕ → String → Tx Leases (Unit {0})
release_body run_id holder_id version now event_id = do
  found ← gets (find_lease run_id)
  current ← require_some found lease_not_held
  require (str_eq current.holder_id holder_id) lease_not_held
  require (current.lease_version == version) lease_version_conflict
  modify (update_where (at_version run_id version) (released now event_id))

abbrev pub lease_meta : String → Option String → String → Json → EventMeta
lease_meta run_id workspace_id event_type payload = record {
  run_id = run_id;
  workspace_id = workspace_id;
  event_type = event_type;
  event_payload = payload;
  policy_version_hash = none;
  redaction_rule_version = none;
  frame_id = none;
  effect_id = none;
  repair_transaction_id = none;
  caused_by_event_id = none;
  idempotency_key_hash = none;
  external_receipt_hash = none;
  target_subtree_revision = none;
}

abbrev holds_row : String → Option Lease → Bool
holds_row holder_id none = false
holds_row holder_id (some l) = str_eq l.holder_id holder_id

-- `readLease`
unfoldable pub read_lease : String → Leases → Result Lease
read_lease run_id leases = elim (find_lease run_id leases) [
  | some l ↦ ok l
  | none ↦ err lease_not_held
]

-- A row of `agent_runs`, the columns that are read.
pub record AgentRun : Type 0 where
  pub id : String
  pub workspace_id : Option String

abbrev pub run_is : String → AgentRun → Bool
run_is run_id r = str_eq r.id run_id

-- `workspaceIdForRun`
unfoldable pub workspace_id_for_run : String → List AgentRun → Result (Option String)
workspace_id_for_run run_id runs = elim (select (run_is run_id) runs) [
  | some r ↦ ok r.workspace_id
  | none ↦ err run_not_found
]

module _ (L : EventLog) where
  -- `runs` is the table `agent_runs`; `iso` prints a time.
  unfoldable pub acquire_lease :
      Surroundings → (ℕ → String) → List AgentRun → ℕ → String → String → ℕ → Call L Leases Lease
  acquire_lease s iso runs now run_id holder_id ttl_ms before =
      if str_eq holder_id ""
      then (err invalid_argument, before)
      else before_transaction L (λ _. workspace_id_for_run run_id runs)
          (λ workspace.
            transactional_append L s
              (lease_meta run_id workspace "recovery_lease_acquired" (
                object (
                  ("holderId", str holder_id) ∷ ("expiresAt", str (iso (expiry now ttl_ms))) ∷ [])))
              (acquire_body run_id holder_id now ttl_ms))
          before

  unfoldable pub renew_lease :
      Surroundings → List AgentRun → ℕ → String → String → ℕ → ℕ → Call L Leases Lease
  renew_lease s runs now run_id holder_id version ttl_ms =
      before_transaction L (λ _. workspace_id_for_run run_id runs)
        λ workspace.
          transactional_append L s
            (lease_meta run_id workspace "recovery_lease_renewed"
              (object (("holderId", str holder_id) ∷ ("expectedLeaseVersion", num version) ∷ [])))
            (renew_body run_id holder_id version now ttl_ms)

  -- A caller that does not hold the row returns before the transaction.
  unfoldable pub release_lease :
      Surroundings → List AgentRun → ℕ → String → String → ℕ → Call L Leases (Unit {0})
  release_lease s runs now run_id holder_id version before =
      if holds_row holder_id (find_lease run_id before.0)
      then before_transaction L (λ _. workspace_id_for_run run_id runs)
          (λ workspace.
            transactional_append L s
              (lease_meta run_id workspace "recovery_lease_released"
                (object (("holderId", str holder_id) ∷ ("expectedLeaseVersion", num version) ∷ [])))
              (release_body run_id holder_id version now))
          before
      else (ok tt, before)
