-- ===== src/Durable/Tests.antt =====
-- Concrete runs of the durable runtime.
use ogra.Prelude.{
  str_eq-false, ◌≡◌, ◌≢◌, refl, ◌↔◌, ◌⊎◌, false, List, String, none, some, [], ◌∷◌, select,
  insert_row, update_where,
}
use ogra.Audit.Json.{Json, object, sort_keys, sort_members}
use ogra.Audit.Event.{Platform, canonical_json}
use ogra.Audit.Chain.{EventMeta, Surroundings, events_of, walk}
use ogra.Audit.Chain.Roundtrip.{IsWhole}
use ogra.Audit.Log.{chain_log}
use ogra.Durable.Transaction.{ok, is_ok}
use ogra.Durable.Lease.{
  Lease, AgentRun, run_is, acquire_lease, find_lease, new_lease, acquire_body, renew_body,
  release_body,
}
use ogra.Durable.Lease.Exclusion.{HeldByOther, acquire_refused_iff}
use ogra.Durable.Lease.Fencing.{Reach, here, next, acquire, overtaken_holder_refused}

abbrev empty : Json
empty = object []

abbrev platform : Platform
platform = record { sha256 = λ s. s; stringify = λ v. "{}"; parse = λ s. some empty }

abbrev surroundings : Surroundings
surroundings = record {
  created_at = "2026-01-01";
  event_id = λ n. "evt";
  current_policy_version_hash = "policy";
  current_redaction_rule_version = "rules";
}

abbrev acquired : EventMeta
acquired = record {
  run_id = "run_1";
  workspace_id = none;
  event_type = "recovery_lease_acquired";
  event_payload = empty;
  policy_version_hash = none;
  redaction_rule_version = none;
  frame_id = none;
  effect_id = none;
  repair_transaction_id = none;
  caused_by_event_id = none;
  idempotency_key_hash = none;
  external_receipt_hash = none;
  target_subtree_revision = none;
}

reads_back : platform.parse (canonical_json platform empty) ≡ some (sort_keys empty)
unfolding canonical_json sort_keys sort_members
reads_back = refl

nothing_broken : IsWhole platform "run_1" []
unfolding walk events_of
nothing_broken = refl

abbrev runs : List AgentRun
runs = record { id = "run_1"; workspace_id = some "ws" } ∷ []

-- `a` holds the lease from 0 to 10, and `b` takes it over at 20.
abbrev lease_a : Lease
lease_a = new_lease "run_1" "a" 0 10 "evt_1"

abbrev lease_b : Lease
lease_b = record (new_lease "run_1" "b" 20 10 "evt_2") { lease_version = 2 }

acquired_a : acquire_body "run_1" "a" 0 10 "evt_1" [] ≡ ok (lease_a, lease_a ∷ [])
unfolding acquire_body select insert_row
acquired_a = refl

acquired_b : acquire_body "run_1" "b" 20 10 "evt_2" (lease_a ∷ []) ≡ ok (lease_b, lease_b ∷ [])
unfolding acquire_body select update_where
acquired_b = refl

found_a : find_lease "run_1" (lease_a ∷ []) ≡ some lease_a
unfolding select
found_a = refl

found_b : find_lease "run_1" (lease_b ∷ []) ≡ some lease_b
unfolding select
found_b = refl

a_is_not_b : lease_b.holder_id ≢ lease_a.holder_id
a_is_not_b = str_eq-false "b" "a" refl

acquire_refused_iff_example :
    (is_ok
        (acquire_lease
          (chain_log platform)
          surroundings
          (λ n. "later")
          runs
          5
          "run_1"
          "b"
          10
          (lease_a ∷ [], [])).0
      ≡ false)
    ↔ ((◌≡◌ {A = String} "b" "")
        ⊎ ((select (run_is "run_1") runs ≡ none) ⊎ HeldByOther "run_1" "b" 5 (lease_a ∷ [])))
acquire_refused_iff_example =
    acquire_refused_iff (chain_log platform) surroundings (λ n. "later") runs 5 "run_1" "b" 10
      (lease_a ∷ []) []

taken_over : Reach "run_1" (lease_a ∷ []) (lease_b ∷ [])
taken_over = next here (acquire "b" 20 10 "evt_2" lease_b acquired_b)

overtaken_holder_refused_example :
    (is_ok (renew_body "run_1" "a" 1 25 10 "evt_3" (lease_b ∷ [])) ≡ false)
    × (is_ok (release_body "run_1" "a" 1 25 "evt_3" (lease_b ∷ [])) ≡ false)
overtaken_holder_refused_example =
    overtaken_holder_refused "run_1" (lease_a ∷ []) (lease_b ∷ []) lease_a lease_b taken_over
      found_a found_b a_is_not_b "a" 25 10 "evt_3"
