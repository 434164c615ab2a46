-- ===== src/Audit/Tests.antt =====
-- Concrete logs. The platform here prints every value as the empty object, reads it back as that,
-- and hashes a text to itself.
use ogra.Prelude.{◌≡◌, ◌≢◌, refl, none, some, List, [], ◌∷◌, arith}
use ogra.Audit.Json.{Json, object, sort_keys, sort_members, insert_member}
use ogra.Audit.Event.{
  RunEvent, genesis_hash, version_2, Platform, canonical_json, envelope_v2_hash, payload_hash,
}
use ogra.Audit.Chain.{
  EventMeta, Surroundings, chain_key, events_of, draft_event, seal_event, append_event, intact,
  check_event, walk, verify_rows, verify_audit_chain,
}
use ogra.Audit.Chain.Roundtrip.{append_all, append_all-verifies}
use ogra.Audit.Chain.Tamper.{SameColumns, Pairs, walk_tamper_evident}

abbrev empty : Json
empty = object []

abbrev platform : Platform
platform = record { sha256 = λ s. s; stringify = λ v. "{}"; parse = λ s. some empty }

abbrev surroundings : Surroundings
surroundings = record {
  created_at = "2026-01-01";
  event_id = λ n. "evt";
  current_policy_version_hash = "policy";
  current_redaction_rule_version = "rules";
}

abbrev started : EventMeta
started = record {
  run_id = "run_1";
  workspace_id = none;
  event_type = "run_started";
  event_payload = empty;
  policy_version_hash = none;
  redaction_rule_version = none;
  frame_id = none;
  effect_id = none;
  repair_transaction_id = none;
  caused_by_event_id = none;
  idempotency_key_hash = none;
  external_receipt_hash = none;
  target_subtree_revision = none;
}

abbrev other_run : EventMeta
other_run = record started { run_id = "run_2" }

abbrev appended : List (Surroundings × EventMeta)
appended = (surroundings, started) ∷ (surroundings, other_run) ∷ (surroundings, started) ∷ []

abbrev first_row : RunEvent
first_row = record {
  id = "evt_1";
  run_id = "run_1";
  workspace_id = none;
  sequence = 1;
  event_type = "run_started";
  event_payload_json = "{}";
  payload_hash = some "{}";
  previous_hash = genesis_hash;
  event_hash = "{}";
  hash_envelope_version = some version_2;
  policy_version_hash = some "policy";
  redaction_rule_version = some "rules";
  frame_id = none;
  effect_id = none;
  repair_transaction_id = none;
  caused_by_event_id = none;
  idempotency_key_hash = none;
  external_receipt_hash = none;
  target_subtree_revision = none;
  created_at = "2026-01-01";
}

abbrev second_row : RunEvent
second_row = record first_row { id = "evt_2"; sequence = 2; previous_hash = "{}" }

abbrev rows : List RunEvent
rows = first_row ∷ second_row ∷ []

rows_intact : verify_rows platform "run_1" rows ≡ intact
unfolding verify_rows walk check_event canonical_json payload_hash envelope_v2_hash
rows_intact = refl

own_events : events_of "run_1" (append_all platform appended []) ≢ []
unfolding append_all append_event draft_event seal_event chain_key events_of
own_events h = absurd (ground arith)

reads_back : platform.parse (canonical_json platform empty) ≡ some (sort_keys empty)
unfolding canonical_json sort_keys sort_members insert_member
reads_back = refl

append_all-verifies_example :
    verify_audit_chain platform "run_1" (append_all platform appended []) ≡ intact
append_all-verifies_example =
    append_all-verifies platform "run_1" appended (reads_back, (reads_back, (reads_back, tt)))
      own_events

walk_tamper_evident_example : Pairs SameColumns rows rows
walk_tamper_evident_example =
    walk_tamper_evident platform "run_1" rows rows rows_intact rows_intact (refl, (refl, tt))
      (refl, (refl, tt)) ((λ h. refl), ((λ h. refl), tt)) refl
