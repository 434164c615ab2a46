-- ===== src/Recovery/Unread.antt =====
-- What a mint's revocation of an approval (recovery-approval-service.ts) means to its consumption
-- (`consumeApprovalForCallback` of ogra-desktop/src/core/effect-protocol-service.ts).
use ogra.Prelude.{
  ℕ, String, ◌≡◌, refl, sym, ap, ◌∙◌, Bool, true, false, Option, none, some, arith, select,
  select_sound, exists_row, ◌==◌, if◌then◌else◌, Bool-cases, Option-cases, inl, inr,
}
use ogra.Durable.Transaction.{
  OgraErrorCode, Result, ok, is_ok, Tx, ◌>>=◌, ◌>>◌, gets, require, require_some, approval_required,
}
use ogra.Durable.Effect.{RunEffect, BindingKind}
use ogra.Protocol.{
  ApprovalRow, RecoveryApproval, ProtocolTables, Draw, is_recovery_id, resolve_workspace_id,
}
use ogra.Protocol.Consume.{
  is_valid_for, of_approval, of_recovery_approval, is_approved, type_allows, is_retry,
  recovery_approval_is, may_consume_recovery, approval_is, spend, spend_recovery, consume_approval,
  consume_recovery_approval, bind_approval, consume_approval_for_callback,
}
use ogra.Recovery.{revoked, revoke_rows}
use ogra.Recovery.Commutes.{
  on_tables, on_tables-is_ok, Commutes, bind-Commutes, require-Commutes, spend-Commutes,
  bind_approval-Commutes, row_after,
}

-- `consume_approval` after it has read its row, of which it reads no column that a revocation writes.
abbrev with_row : RunEffect → String → BindingKind → ℕ → ApprovalRow → Tx ProtocolTables ℕ
with_row effect id kind now row = do
  workspace ← gets (resolve_workspace_id effect.run_id)
  require (is_valid_for effect workspace now (of_approval row)) approval_required
  require (is_approved row.decision) approval_required
  require (type_allows kind row.approval_type) approval_required
  spend id row.revision
  λ t. ok (row.revision, t)

spent-Commutes :
    (id : String) (at : ℕ) (m : Tx ProtocolTables (Unit {0})) (revision : ℕ)
    → Commutes id at m
    → Commutes id at (m >> (λ t. ok (revision, t)))
spent-Commutes id at m revision h = bind-Commutes id at m (λ _ t. ok (revision, t)) h (λ _ t. refl)

tested-Commutes :
    (id : String) (at : ℕ) (b c d : Bool) (m : Tx ProtocolTables ℕ)
    → Commutes id at m
    → Commutes id at (
        require b approval_required
        >> (require c approval_required >> (require d approval_required >> m)))
tested-Commutes id at b c d m h =
    bind-Commutes id at (require b approval_required)
      (λ _. require c approval_required >> (require d approval_required >> m))
      (require-Commutes id at b approval_required)
      (λ _.
        bind-Commutes id at (require c approval_required) (λ _. require d approval_required >> m)
          (require-Commutes id at c approval_required)
          (λ _.
            bind-Commutes id at (require d approval_required) (λ _. m)
              (require-Commutes id at d approval_required) (λ _. h)))

with_row-Commutes :
    (effect : RunEffect) (id : String) (kind : BindingKind) (now at : ℕ) (row : ApprovalRow)
    → Commutes id at (with_row effect id kind now row)
unfolding resolve_workspace_id
with_row-Commutes effect id kind now at row t =
    tested-Commutes id at
      (is_valid_for effect (resolve_workspace_id effect.run_id t) now (of_approval row))
      (is_approved row.decision) (type_allows kind row.approval_type)
      (spend id row.revision >> (λ v. ok (row.revision, v)))
      (spent-Commutes id at (spend id row.revision) row.revision
        (spend-Commutes id row.revision at))
      t

consume_approval-Commutes :
    (effect : RunEffect) (id : String) (kind : BindingKind) (now at : ℕ)
    → Commutes id at (consume_approval effect id kind now)
unfolding consume_approval
consume_approval-Commutes effect id kind now at t =
    let after : Option ApprovalRow → ProtocolTables → Result (ℕ × ProtocolTables) =
      λ o v. ((λ w. require_some o approval_required w) >>= with_row effect id kind now) v in
    elim (Option-cases (select (approval_is id) t.approvals)) [
      | inl gone ↦
          let left : select (approval_is id) (revoke_rows id at t).approvals ≡ none =
            ground (arith, gone, row_after id at t) in
          ap (λ o. after o (revoke_rows id at t)) left
          ∙ sym (ap (λ o. on_tables (revoke_rows id at) (after o t)) gone)
      | inr (a, found) ↦
          let left : select (approval_is id) (revoke_rows id at t).approvals ≡ some (revoked at a) =
            ground (
              arith,
              found,
              row_after id at t,
              select_sound (approval_is id) t.approvals a found,
            ) in
          ap (λ o. after o (revoke_rows id at t)) left
          ∙ with_row-Commutes effect id kind now at a t
          ∙ sym (ap (λ o. on_tables (revoke_rows id at) (after o t)) found)
    ]

read-Commutes :
    {A : Type 0} (id : String) (at : ℕ) (o : Option A) (e : OgraErrorCode)
    → Commutes id at (require_some o e)
read-Commutes id at none e t = refl
read-Commutes id at (some a) e t = refl

spend_recovery-Commutes : (id : String) (at : ℕ) → Commutes id at (spend_recovery id)
unfolding spend_recovery
spend_recovery-Commutes id at t =
    elim (Bool-cases (exists_row (may_consume_recovery id) t.recovery_approvals)) [
      | inl there ↦ ground (arith, there)
      | inr gone ↦ ground (arith, gone)
    ]

abbrev with_recovery_row :
    RunEffect → String → BindingKind → ℕ → ℕ → RecoveryApproval → Tx ProtocolTables ℕ
with_recovery_row effect id kind attempt now row = do
  workspace ← gets (resolve_workspace_id effect.run_id)
  require (is_valid_for effect workspace now (of_recovery_approval row)) approval_required
  require (is_retry kind) approval_required
  require (row.recovery_attempt == attempt) approval_required
  spend_recovery id
  λ t. ok (1, t)

recovery_row-Commutes :
    (effect : RunEffect) (id : String) (kind : BindingKind) (attempt now at : ℕ)
    (row : RecoveryApproval)
    → Commutes id at (with_recovery_row effect id kind attempt now row)
unfolding resolve_workspace_id
recovery_row-Commutes effect id kind attempt now at row t =
    tested-Commutes id at
      (is_valid_for effect (resolve_workspace_id effect.run_id t) now (of_recovery_approval row))
      (is_retry kind) (row.recovery_attempt == attempt) (spend_recovery id >> (λ v. ok (1, v)))
      (spent-Commutes id at (spend_recovery id) 1 (spend_recovery-Commutes id at)) t

consume_recovery-Commutes :
    (effect : RunEffect) (id : String) (kind : BindingKind) (attempt now at : ℕ)
    → Commutes id at (consume_recovery_approval effect id kind attempt now)
unfolding consume_recovery_approval
consume_recovery-Commutes effect id kind attempt now at =
    bind-Commutes id at
      (λ t.
        require_some (select (recovery_approval_is id) t.recovery_approvals) approval_required t)
      (with_recovery_row effect id kind attempt now)
      (λ t.
        read-Commutes id at (select (recovery_approval_is id) t.recovery_approvals)
          approval_required t)
      (λ row. recovery_row-Commutes effect id kind attempt now at row)

either-Commutes :
    {A : Type 0} (id : String) (at : ℕ) (b : Bool) (m n : Tx ProtocolTables A)
    → Commutes id at m
    → Commutes id at n
    → Commutes id at (if b then m else n)
either-Commutes id at true m n h k = h
either-Commutes id at false m n h k = k

-- `consumeApprovalForCallback` does not read what a mint writes into the row of an approval: whether
-- it succeeds is the same before and after the approval is revoked for recovery.
pub revocation_is_not_read :
    (effect : RunEffect) (id : String) (attempt : ℕ) (kind : BindingKind) (draw : Draw)
    (event_id : String) (at : ℕ) (t : ProtocolTables)
    → is_ok
        (consume_approval_for_callback effect id attempt kind draw event_id (revoke_rows id at t))
      ≡ is_ok (consume_approval_for_callback effect id attempt kind draw event_id t)
unfolding consume_approval_for_callback
revocation_is_not_read effect id attempt kind draw event_id at t =
    ap is_ok (
      bind-Commutes id at
        (if is_recovery_id id
          then consume_recovery_approval effect id kind attempt draw.now
          else consume_approval effect id kind draw.now)
        (λ revision. bind_approval effect id attempt revision kind draw event_id)
        (either-Commutes id at (is_recovery_id id)
          (consume_recovery_approval effect id kind attempt draw.now)
          (consume_approval effect id kind draw.now)
          (consume_recovery-Commutes effect id kind attempt draw.now at)
          (consume_approval-Commutes effect id kind draw.now at))
        (λ revision. bind_approval-Commutes effect id attempt revision kind draw event_id at) t)
    ∙ on_tables-is_ok (revoke_rows id at) _
