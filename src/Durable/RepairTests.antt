-- ===== src/Durable/RepairTests.antt =====
-- A concrete repair of two effects, where the second depends on the first.
use ogra.Prelude.{String, ◌≡◌, refl, ◌↔◌, true, false, none, some, List, [], ◌∷◌, select}
use ogra.Durable.Transaction.{repair_invalid, repair_dependency_reversed, ok, err}
use ogra.Durable.Effect.{EffectState, committed, RunEffect, EffectTables, read_effect}
use ogra.Durable.Repair.{
  retry, compensate, escalate, RepairStepProposal, is_repair_action_allowed_in_state, repeats,
  step_index_by_effect, check_dependencies, check_steps, check_order,
}
use ogra.Durable.Repair.Order.{IsInOrder, check_order_iff}

abbrev effect_on : List String → String → RunEffect
effect_on deps id = record {
  id = id;
  run_id = "run_1";
  owner_frame_id = "f1";
  effect_type = "tool_call";
  adapter_kind = "internal";
  payload_fingerprint = "fp";
  callback_capsule_ref = "cr";
  callback_capsule_hash = "ch";
  callback_capsule_format_version = "1";
  idempotency_key_ref = "ref";
  idempotency_key_hash = id;
  state = EffectState.unknown;
  allowed_repair_actions = "retry" ∷ [];
  dependency_effect_ids = deps;
  effect_revision = 2;
  route_decision_id = none;
  policy_evaluation_id = none;
  capsule_fingerprint = none;
  current_approval_id = none;
  policy_version_hash = none;
  scope_hash = none;
  redaction_rule_version = none;
  ingress_finding_id = none;
  authoritative_receipt_id = none;
  external_receipt_hash = none;
  created_event_id = some "evt_1";
  terminal_event_id = none;
  created_at = 1;
  updated_at = 2;
}

abbrev booking_and_mail : EffectTables
booking_and_mail = record {
  frames = [];
  leases = [];
  effects = effect_on [] "booking" ∷ effect_on ("booking" ∷ []) "mail" ∷ [];
  receipts = [];
  bindings = [];
  edges = [];
}

abbrev again : String → RepairStepProposal
again id = record { effect_id = id; expected_effect_revision = 2; action = retry }

abbrev ordered : List RepairStepProposal
ordered = again "booking" ∷ again "mail" ∷ []

ordered_accepted : check_order ordered booking_and_mail ≡ ok tt
unfolding check_order check_steps check_dependencies step_index_by_effect read_effect select
ordered_accepted = refl

reversed_refused :
    check_order (again "mail" ∷ again "booking" ∷ []) booking_and_mail
    ≡ err repair_dependency_reversed
unfolding check_order check_steps check_dependencies step_index_by_effect read_effect select
reversed_refused = refl

missing_refused : check_order (again "mail" ∷ []) booking_and_mail ≡ err repair_invalid
unfolding check_order check_steps check_dependencies step_index_by_effect read_effect select
missing_refused = refl

twice_seen : repeats [] (again "mail" ∷ again "mail" ∷ []) ≡ true
unfolding repeats
twice_seen = refl

committed_actions :
    (is_repair_action_allowed_in_state retry committed ≡ false)
    × (is_repair_action_allowed_in_state compensate committed ≡ true)
    × (is_repair_action_allowed_in_state escalate committed ≡ true)
unfolding is_repair_action_allowed_in_state
committed_actions = (refl, refl, refl)

ordered_once : repeats [] ordered ≡ false
unfolding repeats
ordered_once = refl

check_order_iff_example :
    (check_order ordered booking_and_mail ≡ ok tt) ↔ IsInOrder ordered booking_and_mail
check_order_iff_example = check_order_iff ordered booking_and_mail ordered_once
