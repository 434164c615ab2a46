-- ===== src/Capsule/Evidence.antt =====
-- What ogra-desktop/src/core/capsule-store.ts proves of a capsule before it hands its content out:
-- `openResultForReceipt`, `verifyCallbackAgainstFingerprint`, `openVerifiedCallbackForEffect` and
-- `readVerifiedCallbackRecoveryCapabilities`.
use ogra.Prelude.{
  ℕ, String, Bool, true, false, not, ◌&&◌, ◌||◌, Option, none, some, str_eq, opt_str_eq, ◌==◌,
  or_else, select, if◌then◌else◌,
}
use ogra.Audit.Json.{Json, null, bool, num, str, arr, obj, Members, end, member}
use ogra.Audit.Event.{payload_hash}
use ogra.Durable.Transaction.{capsule_invalid, Result, ok, err}
use ogra.Capsule.{
  callback, result, kind_eq, FailureKind, missing, corrupt, hash_mismatch, format_mismatch,
  CapsuleBinding, SealedCapsuleRow, OpenCapsule, CapsuleTables, Vault, Fresh, Steps, ◌>>=◌, ◌>>◌,
  pure, FailureInput, record_failure, refuse_if, row_or_fail, with_ref, safe_failure_ref,
}
use ogra.Capsule.Open.{open_row, open_by_effect_with_ref}

-- `openResultForReceipt`'s arguments.
pub record ReceiptClaim : Type 0 where
  pub workspace_id : String
  pub effect_id : String
  pub receipt_id : String
  pub attempt_no : ℕ
  pub result_capsule_ref : Option String
  pub result_capsule_hash : Option String
  pub result_capsule_format_version : Option String

abbrev pub claim_failure : ReceiptClaim → FailureKind → String → FailureInput
claim_failure c kind detail = record {
  run_id = none;
  effect_id = some c.effect_id;
  workspace_id = some c.workspace_id;
  capsule_ref = c.result_capsule_ref;
  attempt_no = some c.attempt_no;
  failure_kind = kind;
  detail = detail;
}

-- `!x` of a text that may be null
abbrev pub is_blank : Option String → Bool
is_blank o = str_eq (or_else o "") ""

-- Whether the row is the result of the claim's receipt.
abbrev pub is_of_claim : ReceiptClaim → SealedCapsuleRow → Bool
is_of_claim c r =
    str_eq r.workspace_id c.workspace_id
    && kind_eq r.capsule_kind result
    && opt_str_eq r.effect_id (some c.effect_id)
    && opt_str_eq r.receipt_id (some c.receipt_id)
    && (r.attempt_no == c.attempt_no)

-- `evidence[name]` of a JSON value, `none` for undefined
abbrev pub property_of : String → Members → Option Json
property_of name end = none
property_of name (member k v ms) = if str_eq k name then some v else property_of name ms

abbrev pub property : String → Json → Option Json
property name (obj ms) = property_of name ms
property name null = none
property name (bool b) = none
property name (num n) = none
property name (str s) = none
property name (arr xs) = none

-- `value === text`
abbrev pub is_text : String → Option Json → Bool
is_text text (some (str s)) = str_eq s text
is_text text (some null) = false
is_text text (some (bool b)) = false
is_text text (some (num n)) = false
is_text text (some (arr xs)) = false
is_text text (some (obj ms)) = false
is_text text none = false

pub data Verification : Type 0 where
  match_ : String → String → Verification
  mismatch : String → Option String → Verification
  capsule_failure : Verification

-- `VerifiedCallbackRecoveryCapabilities`
pub record RecoveryCapabilities : Type 0 where
  pub adapter_kind : String
  pub adapter_version : String
  pub supports_idempotency_key : Bool
  pub supports_outcome_query : Bool
  pub supports_compensation : Bool

-- `bool(name)`
unfoldable pub capability : String → Json → Result Bool
capability name evidence = elim (property name evidence) [
  | some v ↦ elim v [
    | bool b ↦ ok b
    | null ↦ err capsule_invalid
    | num n ↦ err capsule_invalid
    | str s ↦ err capsule_invalid
    | arr xs ↦ err capsule_invalid
    | obj ms ↦ err capsule_invalid
  ]
  | none ↦ err capsule_invalid
]

abbrev and_then : {A B : Type 0} → Result A → (A → Result B) → Result B
and_then (ok a) f = f a
and_then (err e) f = err e

-- The identity that the sealed evidence gives must be the row's and the effect's.
abbrev pub names_adapter : Json → CapsuleBinding → String → Bool
names_adapter evidence b expected_kind =
    is_text "v1" (property "schemaVersion" evidence)
    && is_text b.adapter_kind (property "adapterKind" evidence)
    && is_text b.adapter_version (property "adapterVersion" evidence)
    && is_text expected_kind (property "adapterKind" evidence)

abbrev is_object : Json → Bool
is_object (obj ms) = true
is_object null = false
is_object (bool b) = false
is_object (num n) = false
is_object (str s) = false
is_object (arr xs) = false

-- The tests of `readVerifiedCallbackRecoveryCapabilities` on the opened capsule.
unfoldable pub read_capabilities : OpenCapsule → String → Result RecoveryCapabilities
unfolding capability
read_capabilities o expected_kind =
    let evidence = or_else (property "recoveryCapabilities" o.payload) null in
    if not (is_object evidence)
    then err capsule_invalid
    else if not (names_adapter evidence o.binding expected_kind)
    then err capsule_invalid
    else and_then (capability "supportsIdempotencyKey" evidence) λ key.
      and_then (capability "supportsOutcomeQuery" evidence) λ query.
        and_then (capability "supportsCompensation" evidence) λ compensation. ok (record {
          adapter_kind = o.binding.adapter_kind;
          adapter_version = o.binding.adapter_version;
          supports_idempotency_key = key;
          supports_outcome_query = query;
          supports_compensation = compensation;
        })

abbrev pub mismatch_failure : String → ℕ → OpenCapsule → String → FailureInput
mismatch_failure effect_id attempt o ref = record {
  run_id = none;
  effect_id = some effect_id;
  workspace_id = some o.binding.workspace_id;
  capsule_ref = some ref;
  attempt_no = some attempt;
  failure_kind = hash_mismatch;
  detail =
      "callback plaintext canonical hash does not match authenticated binding or effect anchor";
}

module _ (V : Vault) where
  open V use {platform}

  -- `openResultForReceipt`
  unfoldable pub open_result_for_receipt : ReceiptClaim → Fresh → Steps CapsuleTables OpenCapsule
  open_result_for_receipt c fresh = do
    refuse_if
        (is_blank c.result_capsule_ref
          || is_blank c.result_capsule_hash
          || is_blank c.result_capsule_format_version)
        fresh (claim_failure c missing "capsule_missing") capsule_invalid
    row ←
        row_or_fail (λ t. select (with_ref (or_else c.result_capsule_ref "")) t.capsules) fresh
          (claim_failure c missing "capsule_missing") capsule_invalid
    refuse_if (not (is_of_claim c row.sealed)) fresh (claim_failure c corrupt "capsule_corrupt")
        capsule_invalid
    refuse_if (not (opt_str_eq (some row.sealed.format_version) c.result_capsule_format_version))
        fresh (claim_failure c format_mismatch "capsule_format_mismatch") capsule_invalid
    refuse_if (not (opt_str_eq (some row.sealed.hash) c.result_capsule_hash)) fresh
        (claim_failure c hash_mismatch "capsule_hash_mismatch") capsule_invalid
    o ← open_row V row fresh
    refuse_if (not (opt_str_eq (some o.verified_hash) c.result_capsule_hash)) fresh
        (claim_failure c hash_mismatch "capsule_hash_mismatch") capsule_invalid
    pure o

  -- Whether the plaintext is the one that the row's binding and the effect name.
  abbrev pub is_anchored : OpenCapsule → String → Bool
  is_anchored o expected =
      str_eq (payload_hash platform o.payload) o.binding.payload_fingerprint
      && str_eq (payload_hash platform o.payload) expected

  verdict :
      String
      → ℕ
      → String
      → Fresh
      → Result (OpenCapsule × String) × CapsuleTables
      → Verification × CapsuleTables
  verdict effect_id attempt expected fresh (err e, t) = (capsule_failure, t)
  verdict effect_id attempt expected fresh (ok (o, ref), t) =
      if is_anchored o expected then (match_ (payload_hash platform o.payload) ref, t) else (
        mismatch (payload_hash platform o.payload) (safe_failure_ref (some ref)),
        record_failure fresh (mismatch_failure effect_id attempt o ref) t,
      )

  -- `verifyCallbackAgainstFingerprint`
  unfoldable pub verify_callback_against_fingerprint :
      String → ℕ → String → Fresh → CapsuleTables → Verification × CapsuleTables
  unfolding verdict
  verify_callback_against_fingerprint effect_id attempt expected fresh t =
      verdict effect_id attempt expected fresh
        (open_by_effect_with_ref V effect_id callback attempt fresh t)

  -- `openVerifiedCallbackForEffect`; the result's hash is the expected fingerprint.
  unfoldable pub open_verified_callback_for_effect :
      String → ℕ → String → Fresh → Steps CapsuleTables OpenCapsule
  open_verified_callback_for_effect effect_id attempt expected fresh = do
    (o, ref) ← open_by_effect_with_ref V effect_id callback attempt fresh
    refuse_if (not (is_anchored o expected)) fresh (mismatch_failure effect_id attempt o ref)
        capsule_invalid
    pure o

  -- `readVerifiedCallbackRecoveryCapabilities`
  unfoldable pub read_verified_callback_recovery_capabilities :
      String → ℕ → String → Fresh → Steps CapsuleTables RecoveryCapabilities
  read_verified_callback_recovery_capabilities effect_id attempt expected_kind fresh = do
    (o, ref) ← open_by_effect_with_ref V effect_id callback attempt fresh
    λ t. (read_capabilities o expected_kind, t)
