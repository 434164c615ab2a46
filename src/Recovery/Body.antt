-- ===== src/Recovery/Body.antt =====
-- The body of a mint step by step, in ogra-desktop/src/core/recovery-approval-service.ts.
use ogra.Prelude.{
  ℕ, String, ◌≡◌, refl, sym, ap, ◌∙◌, Bool, true, false, not, Option, none, some, arith, exists_row,
  Bool-cases, inl, inr,
}
use ogra.Durable.Transaction.{
  approval_revoked, approval_required, database_error, effect_not_found, lease_not_held,
  revision_conflict, ok, Tx, ◌>>◌, modify,
}
use ogra.Durable.Effect.{RunEffect, AuditEdge, edge_taken}
use ogra.Protocol.{RecoveryApproval, AgentRun, ProtocolTables, truthy}
use ogra.Protocol.Consume.{approval_is}
use ogra.Protocol.Approvals.{exists_row-weaken}
use ogra.Protocol.Inversion.{bind_ok, require_ok, row_ok, ok_tables}
use ogra.Recovery.{
  MintRecoveryApprovalInput, MintRecoveryApprovalResult, MintDraw, joined, is_current, for_attempt,
  keeps_out, minted, check_unrevoked, insert_minted, revoke_rows, insert_approval, revoke,
  revoke_current, add_edge, insert_edge, minted_edge, decision_edge, decision_of, insert_decision,
  lease_is_held, mint_body,
}

insert_approval_ok :
    (a : RecoveryApproval) (t u : ProtocolTables)
    → insert_approval a t ≡ ok (tt, u)
    → (exists_row (for_attempt a.effect_id a.recovery_attempt) t.recovery_approvals ≡ false)
      × (insert_minted a t ≡ u)
unfolding insert_approval
insert_approval_ok a t u h =
    let (free, h1) =
      require_ok (not (exists_row (keeps_out a) t.recovery_approvals)) approval_revoked
        (λ x. modify (insert_minted a)) t tt u h in
    let weaker =
      exists_row-weaken (keeps_out a) (for_attempt a.effect_id a.recovery_attempt)
        t.recovery_approvals (λ x p. ground (arith, p)) in
    (
      elim (Bool-cases
          (exists_row (for_attempt a.effect_id a.recovery_attempt) t.recovery_approvals)) [
            | inl there ↦ absurd (ground (arith, free, weaker there))
            | inr none_there ↦ none_there
          ],
      ok_tables tt tt (insert_minted a t) u h1,
    )

insert_edge_ok :
    (e : AuditEdge) (t u : ProtocolTables) → insert_edge e t ≡ ok (tt, u) → add_edge e t ≡ u
unfolding insert_edge
insert_edge_ok e t u h =
    let (free, h1) =
      require_ok (not (exists_row (edge_taken e) t.ledger.edges)) database_error
        (λ x. modify (add_edge e)) t tt u h in
    ok_tables tt tt (add_edge e t) u h1

-- What a revocation leaves.
abbrev pub revocation : Option String → ℕ → ProtocolTables → ProtocolTables
revocation none now t = t
revocation (some id) now t = revoke_rows id now t

abbrev pub has_current : Option String → ProtocolTables → Bool
has_current none t = true
has_current (some id) t = exists_row (approval_is id) t.approvals

revoked_by :
    (o : Option String) (now : ℕ) (t u : ProtocolTables) (x : Option String)
    → (elim o as (λ _. Tx ProtocolTables (Option String)) [
      | none ↦ λ t. ok (none, t)
      | some id ↦ revoke id now >> (λ t. ok (some id, t))
    ])
        t
      ≡ ok (x, u)
    → (has_current o t ≡ true) × (revocation o now t ≡ u)
unfolding revoke
revoked_by none now t u x h = (refl, ok_tables none x t u h)
revoked_by (some id) now t u x h =
    let (y, v, e, h1) = bind_ok (revoke id now) (λ y w. ok (some id, w)) t x u h in
    let (there, h2) =
      require_ok (exists_row (approval_is id) t.approvals) revision_conflict
        (λ z. modify (revoke_rows id now)) t tt v e in
    (there, ok_tables tt tt (revoke_rows id now t) v h2 ∙ ok_tables (some id) x v u h1)

current_kept :
    (o : Option String) (a : RecoveryApproval) (t : ProtocolTables)
    → has_current o t ≡ has_current o (insert_minted a t)
current_kept none a t = refl
current_kept (some id) a t = refl

-- The tables after a mint.
abbrev pub after_mint :
    MintRecoveryApprovalInput
    → MintDraw
    → String
    → RunEffect
    → AgentRun
    → ProtocolTables
    → ProtocolTables
after_mint input draw event_id e r t = add_edge (decision_edge input e draw event_id) (
    insert_decision (decision_of input e draw) (
      add_edge (minted_edge input e draw event_id) (
        revocation (truthy e.current_approval_id) draw.now
          (insert_minted (minted input e r draw) t))))

-- What the body of a mint has found when it succeeds, and the tables that it leaves.
pub mint_body_ok :
    (input : MintRecoveryApprovalInput) (draw : MintDraw) (event_id : String) (t u : ProtocolTables)
    (out : MintRecoveryApprovalResult)
    → mint_body input draw event_id t ≡ ok (out, u)
    → (e : RunEffect) × (r : AgentRun) × (joined input.effect_id t ≡ some (e, r))
      × (lease_is_held input draw.now t ≡ true)
      × (exists_row (is_current input.approved_recovery_approval_id e r draw.now) t.approvals
          ≡ true)
      × (check_unrevoked e t ≡ true)
      × (exists_row (for_attempt input.effect_id input.recovery_attempt) t.recovery_approvals
          ≡ false)
      × (has_current (truthy e.current_approval_id) t ≡ true)
      × (u ≡ after_mint input draw event_id e r t)
unfolding mint_body revoke_current
mint_body_ok input draw event_id t u out h =
    let (held, h1) = require_ok (lease_is_held input draw.now t) lease_not_held _ t out u h in
    let ((e, r), found, h2) = row_ok (joined input.effect_id) effect_not_found _ t out u h1 in
    let (current, h3) =
      require_ok
        (exists_row (is_current input.approved_recovery_approval_id e r draw.now) t.approvals)
        approval_required _ t out u h2 in
    let (unrevoked, h4) = require_ok (check_unrevoked e t) approval_revoked _ t out u h3 in
    let (x1, v1, e1, h5) = bind_ok (insert_approval (minted input e r draw)) _ t out u h4 in
    let (x2, v2, e2, h6) = bind_ok (revoke_current e draw.now) _ v1 out u h5 in
    let (x3, v3, e3, h7) =
      bind_ok (insert_edge (minted_edge input e draw event_id)) _ v2 out u h6 in
    let (x4, v4, e4, h8) =
      bind_ok (insert_edge (decision_edge input e draw event_id)) _
        (insert_decision (decision_of input e draw) v3) out u h7 in
    let (free, v1_is) = insert_approval_ok (minted input e r draw) t v1 e1 in
    let (there, v2_is) = revoked_by (truthy e.current_approval_id) draw.now v1 v2 x2 e2 in
    let v3_is = insert_edge_ok (minted_edge input e draw event_id) v2 v3 e3 in
    let v4_is = insert_edge_ok (decision_edge input e draw event_id) _ v4 e4 in
    let d = insert_decision (decision_of input e draw) in
    let m = add_edge (minted_edge input e draw event_id) in
    let last = add_edge (decision_edge input e draw event_id) in
    (
      e,
      r,
      found,
      held,
      current,
      unrevoked,
      free,
      current_kept (truthy e.current_approval_id) (minted input e r draw) t
          ∙ ap (has_current (truthy e.current_approval_id)) v1_is
          ∙ there,
      sym (
          ap (λ w. last (d (m (revocation (truthy e.current_approval_id) draw.now w)))) v1_is
          ∙ ap (λ w. last (d (m w))) v2_is
          ∙ ap (λ w. last (d w)) v3_is
          ∙ v4_is
          ∙ ok_tables _ out v4 u h8),
    )
