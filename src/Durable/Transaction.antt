-- ===== src/Durable/Transaction.antt =====
-- Code inside a SQLite transaction, the error codes of ogra-desktop/src/shared/errors.ts that it
-- throws, and `transactionalAppend` of ogra-desktop/src/core/durable-runtime-service.ts.
use ogra.Prelude.{String, Bool, true, false, Option, none, some}
use ogra.Audit.Chain.{EventMeta, Surroundings}
use ogra.Audit.Log.{EventLog}

-- `database_error` stands for an exception of SQLite itself, such as a violated constraint.
pub data OgraErrorCode : Type 0 where
  invalid_argument database_error approval_required : OgraErrorCode
  run_not_found frame_not_found frame_invalid_transition : OgraErrorCode
  effect_not_found effect_invalid_transition effect_owner_mismatch : OgraErrorCode
  effect_idempotency_reused effect_payload_fingerprint_changed : OgraErrorCode
  effect_outcome_unknown : OgraErrorCode
  revision_conflict receipt_not_found receipt_duplicate : OgraErrorCode
  repair_sibling_overreach repair_invalid repair_dependency_reversed : OgraErrorCode
  lease_not_held lease_version_conflict lease_taken_over : OgraErrorCode
  capsule_invalid capsule_expired secret_access_denied approval_revoked : OgraErrorCode

pub data Result {ℓ} (A : Type ℓ) : Type ℓ where
  ok : A → Result A
  err : OgraErrorCode → Result A

abbrev pub is_ok {ℓ} : {A : Type ℓ} → Result A → Bool
is_ok (ok a) = true
is_ok (err e) = false

-- Code that reads and writes the tables `T`. What a thrown error leaves is rolled back by the
-- transaction around it, so an error carries no tables.
abbrev pub Tx : Type 0 → Type 0 → Type 0
Tx T A = T → Result (A × T)

infixl 5 ◌>>=◌ ◌>>◌
abbrev pub ◌>>=◌ : {T A B : Type 0} → Tx T A → (A → Tx T B) → Tx T B
◌>>=◌ m f t = elim (m t) [ ok (a, t') ↦ f a t' | err e ↦ err e ]

abbrev pub ◌>>◌ : {T A B : Type 0} → Tx T A → Tx T B → Tx T B
m >> k = m >>= λ _. k

abbrev pub pure : {T A : Type 0} → A → Tx T A
pure a t = ok (a, t)

abbrev pub throw : {T A : Type 0} → OgraErrorCode → Tx T A
throw e t = err e

-- `if (!c) throw e`
abbrev pub require : {T : Type 0} → Bool → OgraErrorCode → Tx T (Unit {0})
require true e t = ok (tt, t)
require false e t = err e

-- `if (!x) throw e`, and `x` after it
abbrev pub require_some : {T A : Type 0} → Option A → OgraErrorCode → Tx T A
require_some (some a) e t = ok (a, t)
require_some none e t = err e

abbrev pub gets : {T A : Type 0} → (T → A) → Tx T A
gets f t = ok (f t, t)

abbrev pub modify : {T : Type 0} → (T → T) → Tx T (Unit {0})
modify f t = ok (tt, f t)

module _ (L : EventLog) where
  open L use {Log, append, next_id}

  -- A call of the runtime: the tables and the log come back after an error too.
  abbrev pub Call : Type 0 → Type 0 → Type 0
  Call T A = T × Log → Result A × (T × Log)

  unfoldable pub conclude : {T A : Type 0} → T × Log → Log → Result (A × T) → Result A × (T × Log)
  conclude before log (ok (a, t)) = (ok a, (t, log))
  conclude before log (err e) = (err e, before)

  -- `transactionalAppend`: the event and the body's writes are kept together, or neither.
  unfoldable pub transactional_append :
      {T A : Type 0} → Surroundings → EventMeta → (String → Tx T A) → Call T A
  unfolding conclude
  transactional_append s m body (t, log) =
      conclude (t, log) (append s m log) (body (next_id s m log) t)

  -- Code before the transaction: it reads the tables, and may throw.
  unfoldable pub before_transaction : {T A B : Type 0} → (T → Result B) → (B → Call T A) → Call T A
  before_transaction check k (t, log) = elim (check t) [
    | ok b ↦ k b (t, log)
    | err e ↦ (err e, (t, log))
  ]
