-- ===== src/Recovery/Commutes.antt =====
-- Code on the protocol's tables for which it makes no difference whether an approval has been
-- revoked by a mint (recovery-approval-service.ts): the rules, and the writes of
-- `consumeApprovalForCallback` of ogra-desktop/src/core/effect-protocol-service.ts.
use ogra.Prelude.{
  ℕ, String, ◌≡◌, refl, ap, ◌∙◌, Bool, true, false, none, some, List, [], ◌∷◌, arith, select,
  select-update_where, exists_row, update_where, if◌then◌else◌, Bool-cases, inl, inr,
}
use ogra.Durable.Transaction.{OgraErrorCode, Result, ok, err, is_ok, Tx, ◌>>=◌, require}
use ogra.Durable.Effect.{RunEffect, BindingKind}
use ogra.Durable.Effect.Receipt.{binds_attempt}
use ogra.Protocol.{ApprovalRow, ProtocolTables, Draw}
use ogra.Protocol.Consume.{consumes, approval_is, may_consume, used, spend, bind_approval}
use ogra.Recovery.{revoked, revoke_rows}

abbrev pub on_tables :
    {A : Type 0}
    → (ProtocolTables → ProtocolTables)
    → Result (A × ProtocolTables)
    → Result (A × ProtocolTables)
on_tables f (ok (a, t)) = ok (a, f t)
on_tables f (err e) = err e

pub on_tables-is_ok :
    {A : Type 0} (f : ProtocolTables → ProtocolTables) (r : Result (A × ProtocolTables))
    → is_ok (on_tables f r) ≡ is_ok r
on_tables-is_ok f (ok (a, t)) = refl
on_tables-is_ok f (err e) = refl

-- To revoke first or last is the same.
abbrev pub Commutes : {A : Type 0} → String → ℕ → Tx ProtocolTables A → Type 0
Commutes id now m =
    (t : ProtocolTables) → m (revoke_rows id now t) ≡ on_tables (revoke_rows id now) (m t)

after-Commutes :
    {A B : Type 0} (id : String) (now : ℕ) (k : A → Tx ProtocolTables B)
    (r : Result (A × ProtocolTables))
    → ((a : A) → Commutes id now (k a))
    → (elim (on_tables (revoke_rows id now) r) as (λ _. Result (B × ProtocolTables)) [
      | ok (a, t') ↦ k a t'
      | err e ↦ err e
    ])
      ≡ on_tables
          (revoke_rows id now)
          (elim r as (λ _. Result (B × ProtocolTables)) [ ok (a, t') ↦ k a t' | err e ↦ err e ])
after-Commutes id now k (ok (a, t)) h = h a t
after-Commutes id now k (err e) h = refl

pub bind-Commutes :
    {A B : Type 0} (id : String) (now : ℕ) (m : Tx ProtocolTables A) (k : A → Tx ProtocolTables B)
    → Commutes id now m
    → ((a : A) → Commutes id now (k a))
    → Commutes id now (m >>= k)
bind-Commutes {B = B} id now m k h g t =
    ap (λ r. elim r as (λ _. Result (B × ProtocolTables)) [ ok (a, t') ↦ k a t' | err e ↦ err e ])
      (h t)
    ∙ after-Commutes id now k (m t) g

pub require-Commutes :
    (id : String) (now : ℕ) (b : Bool) (e : OgraErrorCode) → Commutes id now (require b e)
require-Commutes id now true e t = refl
require-Commutes id now false e t = refl

may_consume-revoked :
    (id : String) (revision now : ℕ) (rows : List ApprovalRow)
    → exists_row (may_consume id revision) (update_where (approval_is id) (revoked now) rows)
      ≡ exists_row (may_consume id revision) rows
unfolding exists_row update_where
may_consume-revoked id revision now [] = refl
may_consume-revoked id revision now (x ∷ xs) = elim (Bool-cases (approval_is id x)) [
  | inl own ↦ ground (arith, own, may_consume-revoked id revision now xs)
  | inr other ↦ ground (arith, other, may_consume-revoked id revision now xs)
]

used-revoked :
    (id : String) (revision now : ℕ) (rows : List ApprovalRow)
    → update_where (may_consume id revision) used (update_where (approval_is id) (revoked now) rows)
      ≡ update_where
          (approval_is id)
          (revoked now)
          (update_where (may_consume id revision) used rows)
unfolding update_where
used-revoked id revision now [] = refl
used-revoked id revision now (x ∷ xs) = elim (Bool-cases (approval_is id x)) [
  | inl own ↦ elim (Bool-cases (may_consume id revision x)) [
    | inl may ↦ ground (arith, own, may, used-revoked id revision now xs)
    | inr kept ↦ ground (arith, own, kept, used-revoked id revision now xs)
  ]
  | inr other ↦ ground (arith, other, used-revoked id revision now xs)
]

pub spend-Commutes : (id : String) (revision now : ℕ) → Commutes id now (spend id revision)
unfolding spend
spend-Commutes id revision now t =
    elim (Bool-cases (exists_row (may_consume id revision) t.approvals)) [
      | inl there ↦ ground (
        arith,
        there,
        may_consume-revoked id revision now t.approvals,
        used-revoked id revision now t.approvals,
      )
      | inr gone ↦ ground (arith, gone, may_consume-revoked id revision now t.approvals)
    ]

pub bind_approval-Commutes :
    (effect : RunEffect) (id : String) (attempt revision : ℕ) (kind : BindingKind) (draw : Draw)
    (event_id : String) (now : ℕ)
    → Commutes id now (bind_approval effect id attempt revision kind draw event_id)
unfolding bind_approval
bind_approval-Commutes effect id attempt revision kind draw event_id now t =
    elim (Bool-cases (exists_row (binds_attempt effect.id attempt) t.ledger.bindings)) [
      | inl bound ↦ ground (arith, bound)
      | inr new ↦ elim (Bool-cases (exists_row (consumes id effect.id attempt) t.consumptions)) [
        | inl consumed ↦ ground (arith, new, consumed)
        | inr once ↦ ground (arith, new, once)
      ]
    ]

pub row_after :
    (id : String) (at : ℕ) (t : ProtocolTables)
    → select (approval_is id) (revoke_rows id at t).approvals
      ≡ elim (select (approval_is id) t.approvals) [
        | none ↦ none
        | some y ↦ some (if approval_is id y then revoked at y else y)
      ]
row_after id at t =
    select-update_where (approval_is id) (approval_is id) (revoked at) t.approvals (λ x. refl)
