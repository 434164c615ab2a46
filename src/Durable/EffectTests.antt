-- ===== src/Durable/EffectTests.antt =====
-- Concrete effects: one that is planned, received and committed.
use ogra.Prelude.{
  ℕ, String, ◌≡◌, ◌≢◌, refl, ◌↔◌, true, false, none, some, [], ◌∷◌, select, insert_row,
  update_where, exists_row, arith, if◌then◌else◌,
}
use ogra.Durable.Transaction.{revision_conflict, ok, err, is_ok}
use ogra.Durable.Effect.{
  effect_transitions, includes_state, EffectState, received, committed,
  awaiting_callback_verification, RunEffect, applied, EffectReceipt, EffectTables, find_effect,
  append_edge,
}
use ogra.Durable.Effect.Plan.{PlannedEffectRequest, with_key, planned_effect, owner_edge, plan_body}
use ogra.Durable.Effect.Transition.{EffectTransitionRequest, check_transition, effect_body}
use ogra.Durable.Effect.Receipt.{
  ReceiptAppendRequest, read_receipt, of_attempt, new_receipt, receipt_edge, receipt_body,
}
use ogra.Durable.Effect.Ledger.{MayMove, transition_admits_iff}
use ogra.Durable.Effect.Awaiting.{NoneAwaits, callback_verification_unreachable}
use ogra.Durable.Effect.Attempts.{receipt_never_overwritten}
use ogra.Durable.Effect.Keys.{idempotency_key_used_once}
use ogra.Durable.Effect.Closed.{here, next, plan, closed_effect_is_final}
use ogra.Durable.Effect.Writers.{second_writer_conflicts}

abbrev send_mail : PlannedEffectRequest
send_mail = record {
  run_id = "run_1";
  owner_frame_id = "f1";
  effect_type = "tool_call";
  adapter_kind = "internal";
  payload_fingerprint = "fp";
  callback_capsule_hash = "ch";
  callback_capsule_ref = "cr";
  callback_capsule_format_version = "1";
  idempotency_key_hash = "key";
  idempotency_key_ref = "ref";
  allowed_repair_actions = [];
  dependency_effect_ids = [];
  route_decision_id = none;
  policy_evaluation_id = none;
}

abbrev no_effects : EffectTables
no_effects = record {
  frames = [];
  leases = [];
  effects = [];
  receipts = [];
  bindings = [];
  edges = [];
}

abbrev mail : RunEffect
mail = planned_effect send_mail "e1" 1 "evt_1"

abbrev one_planned : EffectTables
one_planned = record no_effects {
  effects = mail ∷ [];
  edges = owner_edge send_mail "e1" "edge_1" "evt_1" ∷ [];
}

planned_once : plan_body send_mail "e1" "edge_1" 1 "evt_1" no_effects ≡ ok (mail, one_planned)
unfolding plan_body exists_row insert_row append_edge select
planned_once = refl

abbrev mail_received : RunEffect
mail_received = record mail { state = received; effect_revision = 3 }

abbrev one_received : EffectTables
one_received = record no_effects { effects = mail_received ∷ [] }

abbrev commit_mail : EffectTransitionRequest
commit_mail = record {
  effect_id = "e1";
  expected_revision = 3;
  expected_state = received;
  next_state = committed;
  lease_holder = none;
  next_attempt_no = none;
}

abbrev verify_callback : EffectTransitionRequest
verify_callback = record commit_mail { next_state = awaiting_callback_verification }

abbrev mail_committed : RunEffect
mail_committed = record mail_received { state = committed; effect_revision = 4; updated_at = 9 }

abbrev one_committed : EffectTables
one_committed = record no_effects { effects = mail_committed ∷ [] }

received_found : find_effect "e1" one_received.effects ≡ some mail_received
unfolding select
received_found = refl

committed_once :
    effect_body commit_mail mail_received 9 "evt_9" one_received
    ≡ ok (mail_committed, one_committed)
unfolding effect_body exists_row update_where select
committed_once = refl

transition_admits_iff_example :
    (is_ok (check_transition commit_mail 9 one_received) ≡ true)
    ↔ ((e : RunEffect) × (find_effect "e1" one_received.effects ≡ some e) × MayMove commit_mail e)
transition_admits_iff_example = transition_admits_iff commit_mail 9 one_received

mail_found : find_effect "e1" one_planned.effects ≡ some mail
unfolding select
mail_found = refl

nothing_awaits : NoneAwaits no_effects
unfolding select
nothing_awaits key x found = absurd (ground (arith, found))

callback_verification_unreachable_example :
    (includes_state (effect_transitions received) awaiting_callback_verification ≡ true)
    × (mail.state ≢ awaiting_callback_verification)
callback_verification_unreachable_example =
    callback_verification_unreachable no_effects one_planned "e1" mail nothing_awaits
      (next here (plan send_mail "e1" "edge_1" "evt_1" 1 mail planned_once)) mail_found

second_writer_conflicts_example :
    check_transition verify_callback 10 one_committed ≡ err revision_conflict
second_writer_conflicts_example =
    second_writer_conflicts commit_mail verify_callback mail_received mail_committed 9 10 "evt_9"
      one_received one_committed received_found refl committed_once refl refl

abbrev first_attempt : ReceiptAppendRequest
first_attempt = record {
  effect_id = "e1";
  attempt_no = 1;
  request_id = none;
  request_hash = none;
  response_hash = some "resp";
  result_capsule_ref = none;
  result_capsule_hash = none;
  result_capsule_format_version = none;
  provider_status = none;
  application_status = applied;
}

abbrev mail_receipt : EffectReceipt
mail_receipt = new_receipt first_attempt "rh" "r1" 5 "evt_5"

abbrev one_receipt : EffectTables
one_receipt = record one_received {
  receipts = mail_receipt ∷ [];
  edges = receipt_edge mail_received "r1" "edge_5" "evt_5" ∷ [];
}

receipt_made :
    receipt_body first_attempt mail_received "rh" "r1" "edge_5" 5 "evt_5" one_received
    ≡ ok (mail_receipt, one_receipt)
unfolding receipt_body exists_row insert_row append_edge select
receipt_made = refl

receipt_never_overwritten_example :
    (read_receipt "e1" 1 one_received ≡ none)
    × (read_receipt "e1" 1 one_receipt ≡ some mail_receipt)
    × ((effect_id : String) (n : ℕ)
        → read_receipt effect_id n one_receipt ≡ elim (read_receipt effect_id n one_received) [
          | some old ↦ some old
          | none ↦ if of_attempt effect_id n mail_receipt then some mail_receipt else none
        ])
receipt_never_overwritten_example =
    receipt_never_overwritten first_attempt mail_received "rh" "r1" "edge_5" "evt_5" 5 mail_receipt
      one_received one_receipt receipt_made

idempotency_key_used_once_example :
    (exists_row (with_key "key") no_effects.effects ≡ false)
    × (is_ok (plan_body send_mail "e2" "edge_2" 7 "evt_7" one_planned) ≡ false)
idempotency_key_used_once_example =
    idempotency_key_used_once send_mail send_mail "e1" "edge_1" "evt_1" "e2" "edge_2" "evt_7" 1 7
      mail no_effects one_planned planned_once refl

abbrev mail_failed : RunEffect
mail_failed = record mail {
  state = EffectState.failed;
  effect_revision = 2;
  terminal_event_id = some "evt_6";
}

abbrev one_failed : EffectTables
one_failed = record no_effects { effects = mail_failed ∷ [] }

abbrev send_again : PlannedEffectRequest
send_again = record send_mail { idempotency_key_hash = "key_2" }

abbrev failed_and_planned : EffectTables
failed_and_planned = record no_effects {
  effects = mail_failed ∷ planned_effect send_again "e2" 7 "evt_7" ∷ [];
  edges = owner_edge send_again "e2" "edge_7" "evt_7" ∷ [];
}

planned_again :
    plan_body send_again "e2" "edge_7" 7 "evt_7" one_failed
    ≡ ok (planned_effect send_again "e2" 7 "evt_7", failed_and_planned)
unfolding plan_body exists_row insert_row append_edge select
planned_again = refl

failed_found : find_effect "e1" one_failed.effects ≡ some mail_failed
unfolding select
failed_found = refl

closed_effect_is_final_example : find_effect "e1" failed_and_planned.effects ≡ some mail_failed
closed_effect_is_final_example =
    closed_effect_is_final "e1" mail_failed one_failed failed_and_planned refl
      (next here (
        plan send_again "e2" "edge_7" "evt_7" 7 (planned_effect send_again "e2" 7 "evt_7")
          planned_again))
      failed_found
