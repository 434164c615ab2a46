-- ===== src/Protocol/Commit/Method.antt =====
-- `commitToTerminal` of ogra-desktop/src/core/effect-protocol-service.ts as a whole: a first
-- verification, whose incident stays, and the transaction.
use ogra.Prelude.{ℕ, String, some, [], ◌∷◌}
use ogra.Audit.Json.{num, str, object}
use ogra.Audit.Chain.{Surroundings}
use ogra.Audit.Log.{EventLog}
use ogra.Durable.Transaction.{transactional_append}
use ogra.Durable.Effect.{RunEffect, effect_meta}
use ogra.Capsule.{Vault, Fresh, Steps, ◌>>=◌, ◌>>◌}
use ogra.Capsule.Evidence.{open_result_for_receipt}
use ogra.Protocol.{Draw, assert_active_lease, find_effect_row}
use ogra.Protocol.Cas.Method.{State, reading, in_store}
use ogra.Protocol.Commit.{
  CommitTerminalInput, CommitTerminalOutput, check_authoritative, claim_of, check_result,
  check_commit, commit_body,
}

module _ (L : EventLog) (V : Vault) where
  -- `verifyAuthoritativeResultCapsule` before the transaction
  unfoldable pub verify_before : RunEffect → String → ℕ → Fresh → Steps (State L V) (Unit {0})
  verify_before effect receipt_id attempt fresh = do
    r ← reading L V (check_authoritative V effect receipt_id attempt)
    o ← λ s. in_store L V (open_result_for_receipt V (claim_of V effect r attempt s.0) fresh) s
    reading L V (λ t. check_result V r attempt o)

  -- `commitToTerminal`
  unfoldable pub commit_to_terminal :
      CommitTerminalInput → Fresh → Draw → Surroundings → Steps (State L V) CommitTerminalOutput
  commit_to_terminal input fresh draw s = do
    effect ← reading L V (find_effect_row input.effect_id)
    reading L V (check_commit input effect)
    reading L V
        (assert_active_lease effect.run_id input.lease_holder input.expected_lease_version draw.now)
    verify_before effect input.receipt_id input.expected_attempt_no fresh
    transactional_append L s
        (effect_meta effect.run_id (some effect.owner_frame_id) effect.id "effect_committed" (
          object (
            ("effectId", str effect.id)
            ∷ ("attemptNo", num input.expected_attempt_no)
            ∷ ("receiptId", str input.receipt_id)
            ∷ ("findingId", str draw.finding_id)
            ∷ [])))
        (commit_body V input effect fresh draw)
