-- ===== src/Recovery/Once.antt =====
-- A mint happens once, in ogra-desktop/src/core/recovery-approval-service.ts.
use ogra.Prelude.{
  ℕ, String, ◌≡◌, refl, sym, ap, ◌∙◌, true, false, Option, none, some, arith, exists_row,
  insert_row, select, select-update_where, select_sound, exists_row-select, Option-cases, inl, inr,
}
use ogra.Durable.Transaction.{Result, ok, err, is_ok}
use ogra.Durable.Effect.{RunEffect}
use ogra.Protocol.{ApprovalRow, RecoveryApproval, AgentRun, ProtocolTables, truthy}
use ogra.Protocol.Consume.{approval_is}
use ogra.Protocol.Approvals.{exists_row-insert_row, str_eq_self}
use ogra.Recovery.{
  MintRecoveryApprovalInput, MintRecoveryApprovalResult, MintDraw, joined, for_attempt, minted,
  revoke_rows, insert_minted, check_unrevoked, revoked, mint_body,
}
use ogra.Recovery.Body.{revocation, has_current, mint_body_ok}

-- A result that cannot be a success is an error.
refused :
    {A : Type 0} (r : Result (A × ProtocolTables))
    → ((a : A) (u : ProtocolTables) → r ≡ ok (a, u) → ⊥)
    → is_ok r ≡ false
refused (ok (a, u)) h = absurd (h a u refl)
refused (err e) h = refl

revocation-recovery_approvals :
    (o : Option String) (now : ℕ) (t : ProtocolTables)
    → (revocation o now t).recovery_approvals ≡ t.recovery_approvals
revocation-recovery_approvals none now t = refl
revocation-recovery_approvals (some id) now t = refl

-- After a mint for an effect and an attempt, no second one for them succeeds.
pub minted_attempt_is_refused :
    (input again : MintRecoveryApprovalInput) (draw draw' : MintDraw) (event_id event_id' : String)
    (t u : ProtocolTables) (out : MintRecoveryApprovalResult)
    → mint_body input draw event_id t ≡ ok (out, u)
    → again.effect_id ≡ input.effect_id
    → again.recovery_attempt ≡ input.recovery_attempt
    → is_ok (mint_body again draw' event_id' u) ≡ false
minted_attempt_is_refused input again draw draw' event_id event_id' t u out h effect attempt =
    refused (mint_body again draw' event_id' u) λ out' w h'.
      let (e, r, found, held, current, unrevoked, free, has, u_is) =
        mint_body_ok input draw event_id t u out h in
      let (e', r', found', held', current', unrevoked', free', there', w_is) =
        mint_body_ok again draw' event_id' u w out' h' in
      let rows : u.recovery_approvals ≡ insert_row (minted input e r draw) t.recovery_approvals =
        ap (λ x. x.recovery_approvals) u_is
        ∙ revocation-recovery_approvals (truthy e.current_approval_id) draw.now _ in
      let there =
        ap (exists_row (for_attempt again.effect_id again.recovery_attempt)) rows
        ∙ exists_row-insert_row (for_attempt again.effect_id again.recovery_attempt)
            (minted input e r draw) t.recovery_approvals
            (ground (arith, effect, attempt, str_eq_self input.effect_id)) in
      ground (arith, there, free')

-- The row of an approval that a mint has revoked.
revoked_row :
    (id : String) (now : ℕ) (t : ProtocolTables) (a : ApprovalRow)
    → select (approval_is id) t.approvals ≡ some a
    → select (approval_is id) (revoke_rows id now t).approvals
      ≡ some (record a { revoked_for_recovery = true; revoked_for_recovery_at = some now })
revoked_row id now t a found =
    select-update_where (approval_is id) (approval_is id) (revoked now) t.approvals (λ x. refl)
    ∙ ground (arith, found, select_sound (approval_is id) t.approvals a found)

-- What a revocation finds and leaves.
abbrev Revokes : String → ℕ → ProtocolTables → ProtocolTables → Type 0
Revokes id now t u =
    (a : ApprovalRow) × (select (approval_is id) t.approvals ≡ some a)
    × (select (approval_is id) u.approvals
        ≡ some (record a { revoked_for_recovery = true; revoked_for_recovery_at = some now }))

revocation-Revokes :
    (id : String) (now : ℕ) (a : RecoveryApproval) (t : ProtocolTables)
    → has_current (some id) t ≡ true
    → Revokes id now t (revocation (some id) now (insert_minted a t))
revocation-Revokes id now a t there = elim (Option-cases (select (approval_is id) t.approvals)) [
  | inl gone ↦ absurd (ground (arith, gone, there, exists_row-select (approval_is id) t.approvals))
  | inr (row, found) ↦ (row, found, revoked_row id now (insert_minted a t) row found)
]

current_revoked :
    (e : RunEffect) (id : String) (a : ApprovalRow) (t : ProtocolTables)
    → truthy e.current_approval_id ≡ some id
    → select (approval_is id) t.approvals ≡ some a
    → a.revoked_for_recovery ≡ true
    → check_unrevoked e t ≡ false
unfolding check_unrevoked
current_revoked e id a t named found revoked = ground (arith, named, found, revoked)

abbrev effect_or : RunEffect → Option (RunEffect × AgentRun) → RunEffect
effect_or d none = d
effect_or d (some x) = x.0

-- A mint for an effect that has an approval of the prepare step marks that approval as revoked, at
-- the time of the mint, and changes nothing else of its row; and while the row stays as the mint has
-- left it, no mint succeeds on whatever later tables, for whatever effect and attempt, if the effect
-- has that approval.
pub minting_revokes :
    (input again : MintRecoveryApprovalInput) (draw draw' : MintDraw) (event_id event_id' : String)
    (t u w : ProtocolTables) (out : MintRecoveryApprovalResult) (e later : RunEffect)
    (r run : AgentRun) (id : String)
    → joined input.effect_id t ≡ some (e, r)
    → truthy e.current_approval_id ≡ some id
    → mint_body input draw event_id t ≡ ok (out, u)
    → joined again.effect_id w ≡ some (later, run)
    → truthy later.current_approval_id ≡ some id
    → select (approval_is id) w.approvals ≡ select (approval_is id) u.approvals
    → ((a : ApprovalRow) × (select (approval_is id) t.approvals ≡ some a)
        × (select (approval_is id) u.approvals
            ≡ some (record a {
              revoked_for_recovery = true;
              revoked_for_recovery_at = some draw.now;
            })))
      × (is_ok (mint_body again draw' event_id' w) ≡ false)
minting_revokes input again draw draw' event_id event_id' t u w out e later r run id at given h at'
      given' kept =
    let (e1, r1, found, held, current, unrevoked, free, has, u_is) =
      mint_body_ok input draw event_id t u out h in
    let named : truthy e1.current_approval_id ≡ some id =
      ap (λ x. truthy x.current_approval_id) (ap (effect_or e1) (sym found ∙ at)) ∙ given in
    let rows : u.approvals
        ≡ (revocation (some id) draw.now (insert_minted (minted input e1 r1 draw) t)).approvals =
      ap (λ x. x.approvals) u_is
      ∙ ap (λ o. (revocation o draw.now (insert_minted (minted input e1 r1 draw) t)).approvals)
          named in
    let (a, row, marked) =
      revocation-Revokes id draw.now (minted input e1 r1 draw) t
        (ap (λ o. has_current o t) (sym named) ∙ has) in
    let left = ap (select (approval_is id)) rows ∙ marked in
    (
      (a, row, left),
      refused (mint_body again draw' event_id' w) λ out' v h'.
          let (e2, r2, found', held', current', unrevoked', free', has', v_is) =
            mint_body_ok again draw' event_id' w v out' h' in
          let same : e2 ≡ later = ap (effect_or e2) (sym found' ∙ at') in
          ground (
            arith,
            unrevoked',
            ap (λ x. check_unrevoked x w) same,
            current_revoked later id _ w given' (kept ∙ left) refl,
          ),
    )
