-- ===== src/Recovery/Tests.antt =====
-- A concrete mint, for an effect whose outcome is unknown.
use ogra.Prelude.{
  ◌≡◌, refl, ap, true, false, none, some, [], ◌∷◌, select, exists_row, insert_row, update_where,
}
use ogra.Durable.Transaction.{ok, is_ok}
use ogra.Durable.Effect.{EffectState, RunEffect, initial}
use ogra.Protocol.{ApprovalRow, RecoveryApproval, AgentRun, ProtocolTables, holds_lease}
use ogra.Protocol.Tests.{mail, approval, before, consumption_runs}
use ogra.Protocol.Tests.{draw as at_send}
use ogra.Recovery.{
  MintRecoveryApprovalInput, MintRecoveryApprovalResult, MintDraw, joined, is_current, for_attempt,
  check_unrevoked, insert_approval, revoke, revoke_rows, revoke_current, insert_edge, lease_is_held,
  mint_body,
}
use ogra.Recovery.Body.{after_mint}
use ogra.Recovery.Minting.{Authorizes, IsOneUse, mint_is_authorized}
use ogra.Protocol.Consume.{approval_is, consume_approval_for_callback}
use ogra.Recovery.Unread.{revocation_is_not_read}
use ogra.Recovery.Once.{minted_attempt_is_refused, minting_revokes}

abbrev lost : RunEffect
lost = record mail { state = EffectState.unknown; effect_revision = 3 }

abbrev retry : ApprovalRow
retry = record approval {
  id = "apr_2";
  workspace_id = some "ws";
  approval_type = "recovery_retry";
  effect_revision = some 3;
}

abbrev run : AgentRun
run = record { id = "run"; workspace_id = some "ws" }

abbrev tables : ProtocolTables
tables = record before {
  ledger = record before.ledger { effects = lost ∷ [] };
  approvals = approval ∷ retry ∷ [];
  runs = run ∷ [];
}

abbrev input : MintRecoveryApprovalInput
input = record {
  effect_id = "eff";
  recovery_attempt = 2;
  approved_recovery_approval_id = "apr_2";
  decided_by = "user";
  reason = none;
  expires_at = some 100;
  lease_holder_id = "worker";
  lease_version = 1;
}

abbrev next_input : MintRecoveryApprovalInput
next_input = record input { recovery_attempt = 3 }

abbrev draw : MintDraw
draw = record {
  now = 20;
  recovery_approval_id = "rap_1";
  edge_id = "edge_1";
  recovery_decision_id = "rdc_1";
  decision_edge_id = "edge_2";
}

abbrev out : MintRecoveryApprovalResult
out = record {
  recovery_approval_id = "rap_1";
  revoked_prepare_approval_id = some "apr";
  recovery_attempt = 2;
  outcome_event_id = "evt";
}

abbrev after : ProtocolTables
after = after_mint input draw "evt" lost run tables

mint_runs : mint_body input draw "evt" tables ≡ ok (out, after)
unfolding mint_body joined is_current check_unrevoked insert_approval revoke revoke_current
    insert_edge lease_is_held holds_lease select exists_row insert_row update_where
mint_runs = refl

found : joined "eff" tables ≡ some (lost, run)
unfolding joined select
found = refl

mint_is_authorized_example :
    (e : RunEffect) × (r : AgentRun) × (a : ApprovalRow) × (n : RecoveryApproval) × (joined "eff"
        tables
      ≡ some (e, r))
    × (holds_lease e.run_id "worker" 1 20 tables.ledger.leases ≡ true)
    × (select (is_current "apr_2" e r 20) tables.approvals ≡ some a)
    × (a.id ≡ "apr_2")
    × Authorizes e r 20 a
    × (exists_row (for_attempt "eff" 2) tables.recovery_approvals ≡ false)
    × (after.recovery_approvals ≡ insert_row n tables.recovery_approvals)
    × IsOneUse input e draw n
    × (after.ledger.effects ≡ tables.ledger.effects)
    × (after.ledger.leases ≡ tables.ledger.leases)
    × (after.consumptions ≡ tables.consumptions)
mint_is_authorized_example = mint_is_authorized input draw "evt" tables after out mint_runs

minted_attempt_is_refused_example : is_ok (mint_body input draw "evt_2" after) ≡ false
minted_attempt_is_refused_example =
    minted_attempt_is_refused input input draw draw "evt" "evt_2" tables after out mint_runs refl
      refl

found_after : joined "eff" after ≡ some (lost, run)
unfolding joined select
found_after = refl

minting_revokes_example :
    ((a : ApprovalRow) × (select (approval_is "apr") tables.approvals ≡ some a)
      × (select (approval_is "apr") after.approvals
          ≡ some (record a { revoked_for_recovery = true; revoked_for_recovery_at = some 20 })))
    × (is_ok (mint_body next_input draw "evt_2" after) ≡ false)
minting_revokes_example =
    minting_revokes input next_input draw draw "evt" "evt_2" tables after after out lost lost run
      run "apr" found refl mint_runs found_after refl refl

revocation_is_not_read_example :
    is_ok (
      consume_approval_for_callback mail "apr" 1 initial at_send "evt" (revoke_rows "apr" 5 before))
    ≡ is_ok (consume_approval_for_callback mail "apr" 1 initial at_send "evt" before)
revocation_is_not_read_example = revocation_is_not_read mail "apr" 1 initial at_send "evt" 5 before

-- And it does succeed.
revoked_is_consumed :
    is_ok (consume_approval_for_callback mail "apr" 1 initial at_send "evt" before) ≡ true
revoked_is_consumed = ap is_ok consumption_runs
