-- ===== src/Capsule/Open.antt =====
-- `openRow`, `open`, `openByEffect`, `openByEffectWithRef` and `openByRef` of
-- ogra-desktop/src/core/capsule-store.ts.
use ogra.Prelude.{
  ℕ, ◌+◌, ◌-◌, String, not, Option, none, some, length, take, drop, str_eq, ltb, leb, or_else,
  select,
}
use ogra.Audit.Json.{Json}
use ogra.Durable.Transaction.{capsule_invalid, capsule_expired, ok, err}
use ogra.Capsule.{
  Bytes, CapsuleKind, capsule_nonce_bytes, capsule_tag_bytes, FailureKind, missing, corrupt,
  expired, wrong_workspace, hash_mismatch, decrypt_failed, CapsuleBinding, SealedCapsuleRow,
  CapsuleRow, OpenCapsule, CapsuleTables, Vault, Fresh, Steps, ◌>>=◌, ◌>>◌, pure, FailureInput,
  refuse_if, some_or_fail, row_or_fail, with_ref, find_slot, ensure_workspace_tag,
}
use ogra.Capsule.Seal.{derive_capsule_key, build_aad}

-- The failure that `openRow` records about a row.
abbrev pub row_failure : SealedCapsuleRow → FailureKind → String → FailureInput
row_failure r kind detail = record {
  run_id = none;
  effect_id = r.effect_id;
  workspace_id = some r.workspace_id;
  capsule_ref = some r.ref;
  attempt_no = some r.attempt_no;
  failure_kind = kind;
  detail = detail;
}

abbrev pub binding_of : SealedCapsuleRow → CapsuleBinding
binding_of r = record {
  workspace_id = r.workspace_id;
  capsule_kind = r.capsule_kind;
  format_version = r.format_version;
  run_id = r.run_id;
  effect_id = r.effect_id;
  receipt_id = r.receipt_id;
  attempt_no = r.attempt_no;
  adapter_kind = or_else r.adapter_kind "";
  adapter_version = or_else r.adapter_version "";
  payload_fingerprint = or_else r.payload_fingerprint "";
  scope_hash = or_else r.scope_hash "";
  expires_at = r.expires_at;
  created_event_id = r.created_event_id;
}

abbrev pub nonce_of : Bytes → Bytes
nonce_of blob = take capsule_nonce_bytes blob

abbrev pub ciphertext_of : Bytes → Bytes
ciphertext_of blob = drop capsule_nonce_bytes (take (length blob - capsule_tag_bytes) blob)

abbrev pub tag_of : Bytes → Bytes
tag_of blob = drop (length blob - capsule_tag_bytes) blob

-- `openByEffect` without a row: the failure has no workspace.
abbrev pub missing_slot : String → ℕ → FailureInput
missing_slot effect_id attempt = record {
  run_id = none;
  effect_id = some effect_id;
  workspace_id = none;
  capsule_ref = some "";
  attempt_no = some attempt;
  failure_kind = missing;
  detail = "capsule_missing";
}

abbrev pub missing_ref : String → Option ℕ → FailureInput
missing_ref ref attempt = record {
  run_id = none;
  effect_id = none;
  workspace_id = none;
  capsule_ref = some ref;
  attempt_no = attempt;
  failure_kind = missing;
  detail = "capsule_missing";
}

module _ (V : Vault) where
  open V use {platform, decrypt}

  -- The `try` of `openRow`: a key that cannot be derived ends in its `catch` too.
  unfoldable pub decrypt_row : CapsuleRow → Option String
  decrypt_row row = elim (derive_capsule_key V row.sealed.workspace_id) [
    | err e ↦ none
    | ok key ↦
        decrypt key (nonce_of row.blob_payload)
          (build_aad V row.sealed.workspace_id row.sealed.workspace_tag (binding_of row.sealed))
          (ciphertext_of row.blob_payload) (tag_of row.blob_payload)
  ]

  abbrev pub opened : SealedCapsuleRow → Json → String → OpenCapsule
  opened r payload hash = record {
    binding = binding_of r;
    workspace_tag = r.workspace_tag;
    payload = payload;
    verified_hash = hash;
  }

  -- `openRow`
  unfoldable pub open_row : CapsuleRow → Fresh → Steps CapsuleTables OpenCapsule
  open_row row fresh = do
    let r = row.sealed
    current ← ensure_workspace_tag fresh r.workspace_id
    refuse_if (not (str_eq current r.workspace_tag)) fresh
        (row_failure r wrong_workspace "capsule_wrong_workspace") capsule_invalid
    refuse_if (leb r.expires_at fresh.now) fresh (row_failure r expired "capsule_expired")
        capsule_expired
    refuse_if (ltb (length row.blob_payload) (capsule_nonce_bytes + capsule_tag_bytes)) fresh
        (row_failure r corrupt "capsule_corrupt") capsule_invalid
    plaintext ←
        some_or_fail (decrypt_row row) fresh (row_failure r decrypt_failed "capsule_decrypt_failed")
          capsule_invalid
    refuse_if (not (str_eq (platform.sha256 plaintext) r.hash)) fresh
        (row_failure r hash_mismatch "capsule_hash_mismatch") capsule_invalid
    payload ←
        some_or_fail (platform.parse plaintext) fresh (row_failure r corrupt "JSON parse failure")
          capsule_invalid
    pure (opened r payload (platform.sha256 plaintext))

  -- `open`; `openByRef` is the same with an attempt number in its failure.
  unfoldable pub open_by_ref : String → Option ℕ → Fresh → Steps CapsuleTables OpenCapsule
  open_by_ref ref attempt fresh = do
    row ←
        row_or_fail (λ t. select (with_ref ref) t.capsules) fresh (missing_ref ref attempt)
          capsule_invalid
    open_row row fresh

  -- `openByEffectWithRef`
  unfoldable pub open_by_effect_with_ref :
      String → CapsuleKind → ℕ → Fresh → Steps CapsuleTables (OpenCapsule × String)
  open_by_effect_with_ref effect_id kind attempt fresh = do
    row ←
        row_or_fail (find_slot effect_id kind attempt) fresh (missing_slot effect_id attempt)
          capsule_invalid
    o ← open_row row fresh
    pure (o, row.sealed.ref)

  -- `openByEffect`
  unfoldable pub open_by_effect : String → CapsuleKind → ℕ → Fresh → Steps CapsuleTables OpenCapsule
  open_by_effect effect_id kind attempt fresh = do
    row ←
        row_or_fail (find_slot effect_id kind attempt) fresh (missing_slot effect_id attempt)
          capsule_invalid
    open_row row fresh
