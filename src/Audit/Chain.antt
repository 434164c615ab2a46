-- ===== src/Audit/Chain.antt =====
-- The event log of ogra-desktop/src/core/durable-runtime-service.ts: the row that
-- `transactionalAppend` writes, and `verifyAuditChain`.
pub mod Order
pub mod Roundtrip
pub mod Tamper
use ogra.Prelude.{
  ℕ, ◌+◌, max, String, Bool, true, false, not, Option, none, some, List, [], ◌∷◌, ◌++◌, ltb, leb,
  str_eq, opt_str_eq, or_else, or_option, if◌then◌else◌,
}
use Prim.Native.String
use ogra.Audit.Json.{Json}
use ogra.Audit.Event.{
  RunEvent, genesis_hash, version_1, version_2, Platform, canonical_json, envelope_v1_hash,
  envelope_v2_hash, payload_hash,
}

-- `StateTransitionEventMeta`
pub record EventMeta : Type 0 where
  pub run_id : String
  pub workspace_id : Option String
  pub event_type : String
  pub event_payload : Json
  pub policy_version_hash : Option String
  pub redaction_rule_version : Option String
  pub frame_id : Option String
  pub effect_id : Option String
  pub repair_transaction_id : Option String
  pub caused_by_event_id : Option String
  pub idempotency_key_hash : Option String
  pub external_receipt_hash : Option String
  pub target_subtree_revision : Option ℕ

-- What one append takes from its surroundings: the clock, the id made from a sequence number (with
-- the time and random bytes), and the current policy and redaction authorities.
pub record Surroundings : Type 0 where
  pub created_at : String
  pub event_id : ℕ → String
  pub current_policy_version_hash : String
  pub current_redaction_rule_version : String

-- The chain that an event belongs to: its run's, or one for each kind of admin event.
unfoldable pub chain_key : EventMeta → String
chain_key m = if str_eq m.run_id "" then String.◌++◌ "__admin__:" m.event_type else m.run_id

-- `SELECT * FROM run_events WHERE run_id = ? ORDER BY sequence ASC`
unfoldable pub insert_by_sequence : RunEvent → List RunEvent → List RunEvent
insert_by_sequence r [] = r ∷ []
insert_by_sequence r (x ∷ xs) =
    if leb r.sequence x.sequence then r ∷ x ∷ xs else x ∷ insert_by_sequence r xs

unfoldable pub events_of : String → List RunEvent → List RunEvent
unfolding insert_by_sequence
events_of run_id [] = []
events_of run_id (r ∷ rs) =
    let rest = events_of run_id rs in
    if str_eq r.run_id run_id then insert_by_sequence r rest else rest

-- `… ORDER BY sequence DESC LIMIT 1`
unfoldable pub last_event : List RunEvent → Option RunEvent
last_event [] = none
last_event (r ∷ rs) = or_option (last_event rs) (some r)

abbrev pub hash_or_genesis : Option RunEvent → String
hash_or_genesis none = genesis_hash
hash_or_genesis (some r) = r.event_hash

-- `SELECT MAX(sequence) … WHERE run_id = ?`, and 0 for no rows
unfoldable pub max_sequence : String → List RunEvent → ℕ
max_sequence run_id [] = 0
max_sequence run_id (r ∷ rs) =
    let rest = max_sequence run_id rs in
    if str_eq r.run_id run_id then max r.sequence rest else rest

pub data Reason : Type 0 where
  no_events cross_run previous_mismatch invalid_json not_canonical payload_mismatch : Reason
  envelope_mismatch legacy_mismatch : Reason
  unknown_version : String → Reason

pub data Verdict : Type 0 where
  intact : Verdict
  broken : (sequence : ℕ) (event_id : String) → Reason → Verdict

abbrev fault : RunEvent → Reason → Verdict
fault r why = broken r.sequence r.id why

abbrev pub version_of : RunEvent → String
version_of r = or_else r.hash_envelope_version version_1

module _ (P : Platform) where
  -- The row with its envelope hash still to be computed.
  unfoldable pub draft_event : Surroundings → EventMeta → List RunEvent → RunEvent
  unfolding chain_key
  draft_event s m log =
      let key = chain_key m in
      let last = last_event (events_of key log) in
      let number = max_sequence key log + 1 in
      record {
        id = s.event_id number;
        run_id = key;
        workspace_id = m.workspace_id;
        sequence = number;
        event_type = m.event_type;
        event_payload_json = canonical_json P m.event_payload;
        payload_hash = some (P.sha256 (canonical_json P m.event_payload));
        previous_hash = hash_or_genesis last;
        event_hash = "";
        hash_envelope_version = some version_2;
        policy_version_hash = some (or_else m.policy_version_hash s.current_policy_version_hash);
        redaction_rule_version =
            some (or_else m.redaction_rule_version s.current_redaction_rule_version);
        frame_id = m.frame_id;
        effect_id = m.effect_id;
        repair_transaction_id = m.repair_transaction_id;
        caused_by_event_id = m.caused_by_event_id;
        idempotency_key_hash = m.idempotency_key_hash;
        external_receipt_hash = m.external_receipt_hash;
        target_subtree_revision = m.target_subtree_revision;
        created_at = s.created_at;
      }

  -- `composeV2Envelope` and the insert.
  unfoldable pub seal_event : RunEvent → RunEvent
  seal_event r = record r { event_hash = envelope_v2_hash P r }

  unfoldable pub append_event : Surroundings → EventMeta → List RunEvent → List RunEvent
  unfolding draft_event seal_event
  append_event s m log = log ++ seal_event (draft_event s m log) ∷ []

  check_v2 : RunEvent → Option Reason
  check_v2 r = elim (P.parse r.event_payload_json) [
    | none ↦ some invalid_json
    | some payload ↦
        if not (str_eq (canonical_json P payload) r.event_payload_json)
        then some not_canonical
        else if not (opt_str_eq (some (payload_hash P payload)) r.payload_hash)
        then some payload_mismatch
        else if not (str_eq (envelope_v2_hash P r) r.event_hash)
        then some envelope_mismatch
        else none
  ]

  -- The body of the loop of `verifyAuditChain`; `none` goes on.
  unfoldable pub check_event : String → String → RunEvent → Option Reason
  unfolding check_v2
  check_event run_id previous r =
      if not (str_eq r.run_id run_id)
      then some cross_run
      else if not (str_eq r.previous_hash previous)
      then some previous_mismatch
      else if str_eq (version_of r) version_2
      then check_v2 r
      else if str_eq (version_of r) version_1
      then if str_eq (envelope_v1_hash P r.event_payload_json previous) r.event_hash
        then none
        else some legacy_mismatch
      else some (unknown_version (version_of r))

  unfoldable pub walk : String → String → List RunEvent → Verdict
  walk run_id previous [] = intact
  walk run_id previous (r ∷ rs) = elim (check_event run_id previous r) [
    | none ↦ walk run_id r.event_hash rs
    | some why ↦ fault r why
  ]

  unfoldable pub verify_rows : String → List RunEvent → Verdict
  verify_rows run_id [] = broken 0 "" no_events
  verify_rows run_id (r ∷ rs) = walk run_id genesis_hash (r ∷ rs)

  -- `verifyAuditChain`, without its count of the versions met.
  unfoldable pub verify_audit_chain : String → List RunEvent → Verdict
  verify_audit_chain run_id log = verify_rows run_id (events_of run_id log)
