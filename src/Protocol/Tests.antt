-- ===== src/Protocol/Tests.antt =====
-- Concrete operations of the protocol: an approved send, a cancellation and a commit.
use ogra.Prelude.{
  suc, ◌||◌, ◌≡◌, refl, ◌⊎◌, true, false, none, some, [], ◌∷◌, is_some, ltb, select, exists_row,
  insert_row, update_where,
}
use ogra.Audit.Json.{Json, null, num, str, object, sort_keys, sort_members, insert_member, key_le}
use ogra.Audit.Event.{payload_hash, canonical_json}
use ogra.Durable.Transaction.{ok}
use ogra.Durable.Lease.{Lease}
use ogra.Durable.Effect.{
  planned, in_flight, received, committed, cancelled_before_send, effect_transitions,
  includes_state, RunEffect, applied, EffectReceipt, find_effect, read_effect, initial, append_edge,
  AuditEdge,
}
use ogra.Durable.Effect.Receipt.{binds_attempt}
use ogra.Capsule.{
  result, CapsuleRow, CapsuleTables, Vault, OpenCapsule, ensure_workspace_tag, existing_tag,
}
use ogra.Capsule.Evidence.{open_result_for_receipt}
use ogra.Capsule.Tests.{vault, fresh, empty, platform, row}
use ogra.Protocol.{
  approved, ApprovalRow, ProtocolTables, Draw, truthy, resolve_workspace_id,
  route_requires_approval, holds_lease, assert_active_lease,
}
use ogra.Protocol.Consume.{
  is_valid_for, type_allows, approval_is, consumes, consume_approval, bind_approval, spend,
  consume_approval_for_callback,
}
use ogra.Protocol.Cas.{
  CasInFlightInput, CasInFlightOutput, ExpectedState, bind_if_sealed, check_approval,
  consume_if_given, cas_body,
}
use ogra.Capsule.Open.{open_row, decrypt_row}
use ogra.Capsule.Seal.{derive_capsule_key, build_aad}
use ogra.Protocol.Receipt.{receipt_tuple}
use ogra.Protocol.Commit.{
  CommitTerminalInput, CommitTerminalOutput, check_authoritative, claim_of, check_result,
  verify_in_transaction, received_at, as_committed, commit_body,
}
use ogra.Protocol.Outcome.{cancel_body}
use ogra.Protocol.Limits.{WithinLimits}
use ogra.Protocol.History.{
  Step, cancels, others, start, ◌then◌, Later, final_is_final, History-Later, History-WithinLimits,
  protocol_refines_ledger,
}
use ogra.Protocol.Approvals.{is_single, IsFor, IsUnexpired, consumption_takes_one_use}
use ogra.Protocol.Gates.{send_is_approved, Authoritative, commit_body-Authoritative}

abbrev pub mail : RunEffect
mail = record {
  id = "eff";
  run_id = "run";
  owner_frame_id = "f1";
  effect_type = "tool_call";
  adapter_kind = "http";
  payload_fingerprint = "fp";
  callback_capsule_ref = "hash";
  callback_capsule_hash = "{}";
  callback_capsule_format_version = "v1";
  idempotency_key_ref = "hash";
  idempotency_key_hash = "key";
  state = planned;
  allowed_repair_actions = [];
  dependency_effect_ids = [];
  effect_revision = 1;
  route_decision_id = none;
  policy_evaluation_id = none;
  capsule_fingerprint = some "{}";
  current_approval_id = some "apr";
  policy_version_hash = some "policy";
  scope_hash = some "scope";
  redaction_rule_version = some "rules";
  ingress_finding_id = none;
  authoritative_receipt_id = none;
  external_receipt_hash = none;
  created_event_id = none;
  terminal_event_id = none;
  created_at = 1;
  updated_at = 1;
}

abbrev pub approval : ApprovalRow
approval = record {
  id = "apr";
  run_id = some "run";
  workspace_id = some "ws_default";
  approval_type = "egress";
  decision = approved;
  expires_at = some 100;
  scope_hash = some "scope";
  payload_fingerprint = some "fp";
  policy_version_hash = some "policy";
  revision = 1;
  use_limit = 1;
  uses_consumed = 0;
  effect_id = some "eff";
  effect_revision = some 1;
  revoked_for_recovery = false;
  revoked_for_recovery_at = none;
}

abbrev lease : Lease
lease = record {
  run_id = "run";
  holder_id = "worker";
  lease_version = 1;
  acquired_at = 1;
  expires_at = 100;
  renewed_at = 1;
  released_at = none;
  last_event_id = none;
}

abbrev pub before : ProtocolTables
before = record {
  ledger = record {
    frames = [];
    leases = lease ∷ [];
    effects = mail ∷ [];
    receipts = [];
    bindings = [];
    edges = [];
  };
  vault = record { workspaces = []; capsules = row ∷ []; failures = [] };
  approvals = approval ∷ [];
  recovery_approvals = [];
  recovery_decisions = [];
  consumptions = [];
  findings = [];
  runs = [];
  routes = [];
  tool_effects = [];
}

abbrev pub draw : Draw
draw = record {
  now = 10;
  effect_id = "eff_2";
  receipt_id = "rct";
  finding_id = "fnd";
  binding_id = "bnd";
  consumption_id = "cns";
  edge_id = "edge";
  approval_edge_id = "edge_2";
}

abbrev mail_cancelled : RunEffect
mail_cancelled = record mail { state = cancelled_before_send; effect_revision = 2; updated_at = 10 }

abbrev cancel_edge : AuditEdge
cancel_edge = record {
  id = "edge";
  run_id = "run";
  from_kind = "effect";
  from_id = "eff";
  relation = "has_ingress";
  to_kind = "ingress";
  to_id = "cancel_eff";
  source_event_id = some "evt";
}

abbrev cancelled : ProtocolTables
cancelled = record before {
  ledger = record before.ledger { effects = mail_cancelled ∷ []; edges = cancel_edge ∷ [] };
}

cancel_runs : cancel_body mail 1 draw "evt" before ≡ ok (cancelled_before_send, cancelled)
unfolding cancel_body exists_row update_where append_edge insert_row
cancel_runs = refl

found_before : find_effect "eff" before.ledger.effects ≡ some mail
unfolding select
found_before = refl

found_cancelled : find_effect "eff" cancelled.ledger.effects ≡ some mail_cancelled
unfolding select
found_cancelled = refl

cancellation : Step vault before cancelled
cancellation = cancels mail 1 draw "evt" cancelled_before_send cancel_runs

abbrev lease_gone : ProtocolTables
lease_gone = record cancelled { ledger = record cancelled.ledger { leases = [] } }

final_is_final_example : find_effect "eff" lease_gone.ledger.effects ≡ some mail_cancelled
final_is_final_example =
    final_is_final vault cancelled lease_gone "eff" mail_cancelled
      (◌then◌ start (others refl (λ k. k))) found_cancelled refl

History-Later_example :
    (e' : RunEffect) × (find_effect "eff" cancelled.ledger.effects ≡ some e') × Later vault mail e'
History-Later_example =
    History-Later vault before cancelled "eff" mail (◌then◌ start cancellation) found_before

History-WithinLimits_example : WithinLimits cancelled
History-WithinLimits_example =
    History-WithinLimits vault before cancelled (◌then◌ start cancellation) (refl, refl)

protocol_refines_ledger_example :
    (e' : RunEffect) × (find_effect "eff" cancelled.ledger.effects ≡ some e')
    × ((e' ≡ mail)
        ⊎ ((includes_state (effect_transitions planned) e'.state ≡ true)
            × (e'.effect_revision ≡ 2)))
protocol_refines_ledger_example =
    protocol_refines_ledger vault before cancelled "eff" mail cancellation found_before

abbrev bound : ProtocolTables
bound = record before {
  ledger = record before.ledger {
    bindings =
        record {
          id = "bnd";
          effect_id = "eff";
          callback_attempt_no = 1;
          approval_id = "apr";
          approval_revision = 1;
          binding_kind = initial;
          created_event_id = "evt";
        }
        ∷ [];
    edges =
        record {
          id = "edge_2";
          run_id = "run";
          from_kind = "effect";
          from_id = "eff";
          relation = "bound_to_approval";
          to_kind = "approval";
          to_id = "apr";
          source_event_id = some "evt";
        }
        ∷ [];
  };
  approvals = record approval { uses_consumed = 1 } ∷ [];
  consumptions =
      record {
        id = "cns";
        approval_id = "apr";
        effect_id = "eff";
        callback_attempt_no = 1;
        approval_revision = 1;
        consumed_at = 10;
        event_id = some "evt";
      }
      ∷ [];
}

pub consumption_runs :
    consume_approval_for_callback mail "apr" 1 initial draw "evt" before ≡ ok (tt, bound)
unfolding consume_approval_for_callback consume_approval bind_approval spend is_valid_for
    type_allows resolve_workspace_id select exists_row update_where insert_row append_edge
consumption_runs = refl

is_single_approval : is_single (approval_is "apr") before.approvals ≡ true
unfolding exists_row
is_single_approval = refl

consumption_takes_one_use_example :
    (a : ApprovalRow) × (select (approval_is "apr") before.approvals ≡ some a)
    × IsFor mail (resolve_workspace_id "run" before) a
    × IsUnexpired 10 a.expires_at
    × (a.decision ≡ approved)
    × (type_allows initial a.approval_type ≡ true)
    × (ltb a.uses_consumed a.use_limit ≡ true)
    × (select (approval_is "apr") bound.approvals
        ≡ some (record a { uses_consumed = suc a.uses_consumed }))
    × (exists_row (binds_attempt "eff" 1) before.ledger.bindings ≡ false)
    × (exists_row (binds_attempt "eff" 1) bound.ledger.bindings ≡ true)
    × (exists_row (consumes "apr" "eff" 1) bound.consumptions ≡ true)
consumption_takes_one_use_example =
    consumption_takes_one_use mail "apr" 1 initial draw "evt" before bound refl is_single_approval
      consumption_runs

abbrev send : CasInFlightInput
send = record {
  effect_id = "eff";
  expected_revision = 1;
  expected_attempt_no = 1;
  lease_holder = "worker";
  approval_id = some "apr";
  expected_state = ExpectedState.planned;
  expected_lease_version = some 1;
}

abbrev sent_out : CasInFlightOutput
sent_out = record {
  effect_id = "eff";
  attempt_no = 1;
  effect_revision = 2;
  callback_intent_event_id = "evt";
  lease_version = 1;
  callback_payload = empty;
}

abbrev in_the_air : ProtocolTables
in_the_air = record bound {
  ledger = record bound.ledger {
    effects = record mail { state = in_flight; effect_revision = 2; updated_at = 10 } ∷ [];
  };
}

send_runs :
    cas_body send mail false row.sealed empty 1 draw "evt" before ≡ ok (sent_out, in_the_air)
unfolding cas_body bind_if_sealed assert_active_lease holds_lease check_approval consume_if_given
    consume_approval_for_callback consume_approval bind_approval spend is_valid_for type_allows
    route_requires_approval resolve_workspace_id select exists_row update_where insert_row
    append_edge read_effect
send_runs = refl

send_is_approved_example :
    (holds_lease "run" "worker" 1 10 before.ledger.leases ≡ true)
    × (((is_some mail.current_approval_id || route_requires_approval mail.route_decision_id before)
          ≡ false)
        ⊎ ((is_some (truthy (some "apr")) ≡ true)
            × (exists_row (binds_attempt "eff" 1) in_the_air.ledger.bindings ≡ true)))
send_is_approved_example =
    send_is_approved send mail false row.sealed empty 1 draw "evt" before in_the_air sent_out
      send_runs

abbrev result_json : Json
result_json = object (
    ("attemptNo", num 1)
    ∷ ("applicationStatus", str "applied")
    ∷ ("providerStatus", null)
    ∷ ("requestId", null)
    ∷ ("requestHash", null)
    ∷ ("result", empty)
    ∷ [])

abbrev result_vault : Vault
result_vault = record vault { platform = record platform { parse = λ s. some result_json } }

abbrev receipt : EffectReceipt
receipt = record {
  id = "rct";
  effect_id = "eff";
  attempt_no = 1;
  request_id = none;
  request_hash = none;
  response_hash = some "{}";
  result_capsule_ref = some "hash";
  result_capsule_hash = some "{}";
  result_capsule_format_version = some "v1";
  provider_status = none;
  application_status = applied;
  receipt_hash = "{}";
  received_at = 10;
  event_id = some "evt";
}

abbrev result_row : CapsuleRow
result_row = record row {
  sealed = record row.sealed {
    workspace_id = "ws_default";
    capsule_kind = result;
    receipt_id = some "rct";
  };
}

abbrev mail_received : RunEffect
mail_received = record mail {
  state = received;
  effect_revision = 3;
  authoritative_receipt_id = some "rct";
  external_receipt_hash = some "{}";
}

abbrev answered : ProtocolTables
answered = record before {
  ledger = record before.ledger { effects = mail_received ∷ []; receipts = receipt ∷ [] };
  vault = record {
    workspaces = record { id = "ws_default"; workspace_tag = some "tag" } ∷ [];
    capsules = result_row ∷ [];
    failures = [];
  };
}

abbrev commit : CommitTerminalInput
commit = record {
  effect_id = "eff";
  expected_revision = 3;
  expected_attempt_no = 1;
  receipt_id = "rct";
  lease_holder = "worker";
  expected_lease_version = 1;
}

abbrev done : CommitTerminalOutput
done = record { effect_id = "eff"; ingress_finding_id = "fnd"; effect_revision = 4 }

abbrev final : ProtocolTables
final = record answered {
  ledger = record answered.ledger {
    effects =
        record mail_received {
          state = committed;
          effect_revision = 4;
          ingress_finding_id = some "fnd";
          terminal_event_id = some "evt";
          updated_at = 10;
        }
        ∷ [];
    edges = record cancel_edge { to_id = "fnd" } ∷ [];
  };
  findings =
      record {
        id = "fnd";
        effect_id = "eff";
        receipt_id = some "rct";
        finding_kind = "accepted";
        attempt_no = 1;
        event_id = some "evt";
        created_at = 10;
      }
      ∷ [];
}

commit_runs :
    commit_body result_vault commit mail_received fresh draw "evt" answered ≡ ok (done, final)
unfolding commit_body verify_in_transaction check_authoritative check_result assert_active_lease
    holds_lease resolve_workspace_id receipt_tuple open_result_for_receipt open_row decrypt_row
    derive_capsule_key build_aad ensure_workspace_tag existing_tag payload_hash canonical_json
    sort_keys sort_members insert_member key_le select exists_row update_where insert_row
    append_edge read_effect
commit_runs = refl

commit_body-Authoritative_example :
    (holds_lease "run" "worker" 1 10 answered.ledger.leases ≡ true)
    × (r : EffectReceipt) × (o : OpenCapsule) × (v : CapsuleTables) × Authoritative result_vault
        mail_received "rct" 1 answered r o
    × (open_result_for_receipt result_vault
          (claim_of result_vault mail_received r 1 answered)
          fresh
          answered.vault
        ≡ (ok o, v))
    × (exists_row (received_at "eff" 3) answered.ledger.effects ≡ true)
    × (final.ledger.effects
        ≡ update_where (received_at "eff" 3) (as_committed draw "evt") answered.ledger.effects)
commit_body-Authoritative_example =
    commit_body-Authoritative result_vault commit mail_received fresh draw "evt" answered final done
      commit_runs
