-- ===== src/Protocol/Limits.antt =====
-- The uses of an approval and its limit, under the operations of
-- ogra-desktop/src/core/effect-protocol-service.ts.
pub mod Operations
use ogra.Prelude.{
  ℕ, ◌+◌, String, ◌≡◌, refl, sym, ap, subst, ◌∙◌, Bool, true, false, ◌&&◌, Option, none, some, List,
  [], ◌∷◌, arith, leb, update_where, exists_row, Bool-cases, ◌⊎◌, inl, inr, if◌then◌else◌,
}
use ogra.Audit.Json.{Json}
use ogra.Durable.Transaction.{
  OgraErrorCode, revision_conflict, Result, ok, err, Tx, ◌>>=◌, require, require_some, gets, modify,
}
use ogra.Durable.Effect.{RunEffect, BindingKind, AuditEdge, EffectTables, append_edge}
use ogra.Capsule.{SealedCapsuleRow, CapsuleTables, Steps, Vault, Fresh}
use ogra.Protocol.{
  ApprovalRow, RecoveryApproval, ProtocolTables, Draw, truthy, lift, in_vault, keep_vault,
  is_recovery_id, on_ledger, update_effects, cas_effect,
}
use ogra.Protocol.Consume.{
  may_consume, may_consume_recovery, used, used_recovery, spend, spend_recovery, consume_approval,
  consume_recovery_approval, bind_approval, consume_approval_for_callback,
}
use ogra.Protocol.Cas.{CasInFlightInput, consume_if_given, bind_if_sealed, cas_body}
use ogra.Protocol.Prepare.{
  PrepareEffectInput, PreparedEffect, is_unbound, bound_to, bind_current, insert_new, reuse, create,
  reuse_or_create, prepare_body,
}
use ogra.Protocol.Receipt.{RecordReceiptInput, trusted_body}
use ogra.Protocol.Outcome.{UnknownOutcomeInput, unknown_body, cancel_body}
use ogra.Protocol.Commit.{CommitTerminalInput, verify_in_transaction, commit_body}

abbrev pub all_rows : {A : Type 0} → (A → Bool) → List A → Bool
all_rows p [] = true
all_rows p (x ∷ xs) = p x && all_rows p xs

abbrev pub within : ApprovalRow → Bool
within a = leb a.uses_consumed a.use_limit

abbrev pub within_recovery : RecoveryApproval → Bool
within_recovery a = leb a.uses_consumed a.use_limit

-- No approval is used more often than its limit says.
abbrev pub WithinLimits : ProtocolTables → Type 0
WithinLimits t =
    (all_rows within t.approvals ≡ true) × (all_rows within_recovery t.recovery_approvals ≡ true)

abbrev pub LimitedAt : {A : Type 0} → Result (A × ProtocolTables) → Type 0
LimitedAt (ok (a, u)) = WithinLimits u
LimitedAt (err e) = Unit

-- Code that keeps the limits.
abbrev pub Limited : {A : Type 0} → Tx ProtocolTables A → Type 0
Limited m = (t : ProtocolTables) → WithinLimits t → LimitedAt (m t)

all_rows-update_where :
    {A : Type 0} (p q : A → Bool) (f : A → A) (xs : List A)
    → ((x : A) → p x ≡ true → q x ≡ true → p (f x) ≡ true)
    → all_rows p xs ≡ true
    → all_rows p (update_where q f xs) ≡ true
unfolding update_where
all_rows-update_where p q f [] h k = refl
all_rows-update_where p q f (x ∷ xs) h k =
    let rest = all_rows-update_where p q f xs h in
    elim (Bool-cases (q x)) [
      | inl hit ↦ ground (arith, h x, hit, k, rest)
      | inr miss ↦ ground (arith, miss, k, rest)
    ]

after-Limited :
    {A B : Type 0} (f : A → Tx ProtocolTables B) (r : Result (A × ProtocolTables))
    → LimitedAt r
    → ((a : A) → Limited (f a))
    → LimitedAt (elim r [ ok (a, u) ↦ f a u | err e ↦ err e ])
after-Limited f (err e) h k = tt
after-Limited f (ok (a, u)) h k = k a u h

pub bind-Limited :
    {A B : Type 0} (m : Tx ProtocolTables A) (f : A → Tx ProtocolTables B)
    → Limited m
    → ((a : A) → Limited (f a))
    → Limited (m >>= f)
bind-Limited m f h k t within = after-Limited f (m t) (h t within) k

pub require-Limited : (b : Bool) (e : OgraErrorCode) → Limited (require b e)
require-Limited true e t h = h
require-Limited false e t h = tt

pub gets-Limited : {A : Type 0} (f : ProtocolTables → A) → Limited (gets f)
gets-Limited f t h = h

pub pure-Limited : {A : Type 0} (a : A) → Limited (λ t. ok (a, t))
pure-Limited a t h = h

pub lift-Limited : {A : Type 0} (f : ProtocolTables → Result A) → Limited (lift f)
lift-Limited {A} f t h = at (f t)
  where
    at : (r : Result A) → LimitedAt (elim r [ ok a ↦ ok (a, t) | err e ↦ err e ])
    at (ok a) = h
    at (err e) = tt

pub some-Limited :
    {A : Type 0} (f : ProtocolTables → Option A) (e : OgraErrorCode)
    → Limited (λ t. require_some (f t) e t)
some-Limited {A} f e t h = at (f t)
  where
    at : (o : Option A) → LimitedAt (require_some o e t)
    at none = tt
    at (some a) = h

pub in_vault-Limited : {A : Type 0} (m : Steps CapsuleTables A) → Limited (in_vault m)
in_vault-Limited {A} m t h = at (m t.vault)
  where
    at : (r : Result A × CapsuleTables) → LimitedAt (keep_vault t r)
    at (ok a, v) = h
    at (err e, v) = tt

-- A write to other tables.
pub unchanged-Limited :
    (g : ProtocolTables → ProtocolTables)
    → ((t : ProtocolTables) → (g t).approvals ≡ t.approvals)
    → ((t : ProtocolTables) → (g t).recovery_approvals ≡ t.recovery_approvals)
    → Limited (modify g)
unchanged-Limited g same same' t (h, h') =
    (ap (all_rows within) (same t) ∙ h, ap (all_rows within_recovery) (same' t) ∙ h')

pub cas_effect-Limited :
    (p : RunEffect → Bool) (f : RunEffect → RunEffect) → Limited (cas_effect p f)
cas_effect-Limited p f t h = at (exists_row p t.ledger.effects)
  where
    at :
        (b : Bool)
        → LimitedAt (
            (require b revision_conflict >>= λ _.
            λ (u : ProtocolTables). ok (tt, update_effects p f u))
              t)
    at false = tt
    at true = h

pub either-Limited :
    {A : Type 0} (b : Bool) (m n : Tx ProtocolTables A)
    → Limited m
    → Limited n
    → Limited (if b then m else n)
either-Limited true m n h k = h
either-Limited false m n h k = k

pub either_option-Limited :
    {A B : Type 0} (o : Option A) (m : Tx ProtocolTables B) (f : A → Tx ProtocolTables B)
    → Limited m
    → ((a : A) → Limited (f a))
    → Limited (elim o [ none ↦ m | some a ↦ f a ])
either_option-Limited none m f h k = h
either_option-Limited (some a) m f h k = k a

pub used-Limited :
    (id : String) (revision : ℕ)
    → Limited (
        modify (λ (t : ProtocolTables). record t {
          approvals = update_where (may_consume id revision) used t.approvals;
        }))
used-Limited id revision t (h, h') = (
  all_rows-update_where within (may_consume id revision) used t.approvals
      (λ a k may. ground (arith, k, may)) h,
  h',
)

pub used_recovery-Limited :
    (id : String)
    → Limited (
        modify (λ (t : ProtocolTables). record t {
          recovery_approvals =
              update_where (may_consume_recovery id) used_recovery t.recovery_approvals;
        }))
used_recovery-Limited id t (h, h') = (
  h,
  all_rows-update_where within_recovery (may_consume_recovery id) used_recovery t.recovery_approvals
      (λ a k may. ground (arith, k, may)) h',
)

pub bound-Limited :
    (id run_id workspace effect_id : String)
    → Limited (
        modify (λ (t : ProtocolTables). record t {
          approvals =
              update_where (is_unbound id run_id workspace) (bound_to effect_id) t.approvals;
        }))
bound-Limited id run_id workspace effect_id t (h, h') = (
  all_rows-update_where within (is_unbound id run_id workspace) (bound_to effect_id) t.approvals
      (λ a k unbound. k) h,
  h',
)

pub ruleset limited = (
  bind-Limited, require-Limited, gets-Limited, pure-Limited, lift-Limited, some-Limited,
  in_vault-Limited, cas_effect-Limited, unchanged-Limited,
)
