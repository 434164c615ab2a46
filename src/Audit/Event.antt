-- ===== src/Audit/Event.antt =====
-- A row of `run_events` and its envelope hash: ogra-desktop/src/core/audit-envelope.ts.
use ogra.Prelude.{ℕ, String, Option, [], ◌∷◌, or_else}
use Prim.Native.String
use ogra.Audit.Json.{Json, num, str, object, sort_keys}

pub record RunEvent : Type 0 where
  pub id : String
  pub run_id : String
  pub workspace_id : Option String
  pub sequence : ℕ
  pub event_type : String
  pub event_payload_json : String
  pub payload_hash : Option String
  pub previous_hash : String
  pub event_hash : String
  pub hash_envelope_version : Option String
  pub policy_version_hash : Option String
  pub redaction_rule_version : Option String
  pub frame_id : Option String
  pub effect_id : Option String
  pub repair_transaction_id : Option String
  pub caused_by_event_id : Option String
  pub idempotency_key_hash : Option String
  pub external_receipt_hash : Option String
  pub target_subtree_revision : Option ℕ
  pub created_at : String

abbrev pub genesis_hash : String
genesis_hash = "0000000000000000000000000000000000000000000000000000000000000000"

abbrev pub version_1 : String
version_1 = "v1"

abbrev pub version_2 : String
version_2 = "v2"

-- The parts of the platform that the hashes rest on: `crypto`'s SHA-256 in hexadecimal,
-- `JSON.stringify`, and `JSON.parse` (`none` for an exception).
pub record Platform : Type 0 where
  pub sha256 : String → String
  pub stringify : Json → String
  pub parse : String → Option Json

-- The object that `envelopeV2Hash` builds.
abbrev pub envelope : RunEvent → Json
envelope r = object (
    ("hash_envelope_version", str version_2)
    ∷ ("id", str r.id)
    ∷ ("run_id", str r.run_id)
    ∷ ("workspace_id", str (or_else r.workspace_id ""))
    ∷ ("sequence", num r.sequence)
    ∷ ("event_type", str r.event_type)
    ∷ ("event_payload_json", str r.event_payload_json)
    ∷ ("payload_hash", str (or_else r.payload_hash ""))
    ∷ ("policy_version_hash", str (or_else r.policy_version_hash ""))
    ∷ ("redaction_rule_version", str (or_else r.redaction_rule_version ""))
    ∷ ("created_at", str r.created_at)
    ∷ ("previous_hash", str r.previous_hash)
    ∷ [])

module _ (P : Platform) where
  unfoldable pub canonical_json : Json → String
  canonical_json v = P.stringify (sort_keys v)

  unfoldable pub envelope_v1_hash : String → String → String
  envelope_v1_hash payload_json previous_hash = P.sha256 (String.◌++◌ payload_json previous_hash)

  -- `envelopeV2Hash`, of the columns of a row that it is given.
  unfoldable pub envelope_v2_hash : RunEvent → String
  unfolding canonical_json
  envelope_v2_hash r = P.sha256 (canonical_json (envelope r))

  unfoldable pub payload_hash : Json → String
  unfolding canonical_json
  payload_hash payload = P.sha256 (canonical_json payload)
