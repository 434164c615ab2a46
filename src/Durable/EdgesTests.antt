-- ===== src/Durable/EdgesTests.antt =====
-- A concrete run whose edges have drifted from its effects, repairs and receipts.
use ogra.Prelude.{
  ℕ, zero, suc, String, ◌≡◌, refl, none, some, [], ◌∷◌, exists_row, select_all, delete_where,
}
use ogra.Durable.Effect.{EffectState, applied, RunEffect, EffectReceipt, AuditEdge, EffectTables}
use ogra.Durable.Edges.{
  RepairRow, owns_effect, has_repair, run_edges, in_step, missing_edges, verify_audit_edges_for_run,
  rebuild_audit_edges_for_run,
}
use ogra.Durable.Edges.Append.{AreFresh}
use ogra.Durable.Edges.Rebuild.{IsUnclaimed, other_ids, rebuild_in_step}

abbrev mail : RunEffect
mail = record {
  id = "mail";
  run_id = "run_1";
  owner_frame_id = "f1";
  effect_type = "tool_call";
  adapter_kind = "internal";
  payload_fingerprint = "fp";
  callback_capsule_ref = "cr";
  callback_capsule_hash = "ch";
  callback_capsule_format_version = "1";
  idempotency_key_ref = "ref";
  idempotency_key_hash = "key";
  state = EffectState.received;
  allowed_repair_actions = [];
  dependency_effect_ids = [];
  effect_revision = 2;
  route_decision_id = none;
  policy_evaluation_id = none;
  capsule_fingerprint = none;
  current_approval_id = none;
  policy_version_hash = none;
  scope_hash = none;
  redaction_rule_version = none;
  ingress_finding_id = none;
  authoritative_receipt_id = none;
  external_receipt_hash = none;
  created_event_id = some "evt_1";
  terminal_event_id = none;
  created_at = 1;
  updated_at = 2;
}

abbrev answer : EffectReceipt
answer = record {
  id = "answer";
  effect_id = "mail";
  attempt_no = 1;
  request_id = none;
  request_hash = none;
  response_hash = none;
  result_capsule_ref = none;
  result_capsule_hash = none;
  result_capsule_format_version = none;
  provider_status = none;
  application_status = applied;
  receipt_hash = "rh";
  received_at = 3;
  event_id = some "evt_2";
}

abbrev mended : RepairRow
mended = record { id = "mend"; run_id = "run_1"; target_frame_id = "f1"; created_event_id = none }

abbrev stray : AuditEdge
stray = owns_effect "run_1" (record mail { id = "gone" }) "edge_9"

abbrev elsewhere : AuditEdge
elsewhere = owns_effect "run_2" (record mail { id = "other" }) "edge_8"

abbrev drifted : EffectTables
drifted = record {
  frames = [];
  leases = [];
  effects = mail ∷ [];
  receipts = answer ∷ [];
  bindings = [];
  edges = stray ∷ elsewhere ∷ has_repair "run_1" mended "edge_7" ∷ [];
}

abbrev new_id : ℕ → String
new_id zero = "edge_a"
new_id (suc zero) = "edge_b"
new_id (suc (suc n)) = "edge_c"

drift_found :
    let found = verify_audit_edges_for_run "run_1" (mended ∷ []) drifted in
    (found.reason ≡ missing_edges) × (found.extra ≡ stray ∷ [])
unfolding verify_audit_edges_for_run run_edges select_all exists_row
drift_found = (refl, refl)

rebuilt_count : (rebuild_audit_edges_for_run new_id "run_1" (mended ∷ []) drifted).0 ≡ 3
unfolding rebuild_audit_edges_for_run run_edges select_all exists_row
rebuilt_count = refl

drifted-IsUnclaimed : IsUnclaimed "run_1" drifted.edges (run_edges "run_1" (mended ∷ []) drifted)
unfolding run_edges select_all exists_row delete_where
drifted-IsUnclaimed = (refl, (refl, (refl, tt)))

drifted-AreFresh :
    AreFresh new_id 0 (run_edges "run_1" (mended ∷ []) drifted) (other_ids "run_1" drifted.edges)
unfolding run_edges select_all exists_row delete_where
drifted-AreFresh = (refl, (refl, (refl, tt)))

rebuild_in_step_example :
    verify_audit_edges_for_run "run_1"
      (mended ∷ [])
      (rebuild_audit_edges_for_run new_id "run_1" (mended ∷ []) drifted).1
    ≡ record { missing = []; extra = []; reason = in_step }
rebuild_in_step_example =
    rebuild_in_step new_id "run_1" (mended ∷ []) drifted drifted-IsUnclaimed drifted-AreFresh
