-- ===== src/Capsule/Seal.antt =====
-- `deriveCapsuleKey`, `buildAad` and `seal` of ogra-desktop/src/core/capsule-store.ts.
use ogra.Prelude.{
  ℕ, String, Bool, true, false, not, ◌&&◌, some, [], ◌∷◌, ◌++◌, length, str_eq, opt_str_eq, ◌==◌,
  ltb, leb, is_some, or_else, insert_row, exists_row, if◌then◌else◌,
}
use Prim.Native.String
use ogra.Audit.Json.{Json, num, str, object}
use ogra.Audit.Event.{canonical_json}
use ogra.Durable.Transaction.{
  OgraErrorCode, invalid_argument, capsule_invalid, secret_access_denied, Result, ok, err,
}
use ogra.Capsule.{
  Bytes, capsule_kind_name, kind_eq, current_capsule_format_version, capsule_tag_bytes,
  CapsuleBinding, SealedCapsuleRow, CapsuleRow, CapsuleTables, Vault, Fresh, Steps, ◌>>=◌, ◌>>◌,
  pure, throw, ensure_workspace_tag,
}

abbrev pub sealed_row : CapsuleBinding → Fresh → String → String → String → SealedCapsuleRow
sealed_row b fresh workspace_tag ref hash = record {
  id = fresh.capsule_id;
  workspace_id = b.workspace_id;
  workspace_tag = workspace_tag;
  capsule_kind = b.capsule_kind;
  format_version = b.format_version;
  ref = ref;
  hash = hash;
  run_id = b.run_id;
  effect_id = b.effect_id;
  receipt_id = b.receipt_id;
  attempt_no = b.attempt_no;
  adapter_kind = some b.adapter_kind;
  adapter_version = some b.adapter_version;
  payload_fingerprint = some b.payload_fingerprint;
  scope_hash = some b.scope_hash;
  expires_at = b.expires_at;
  created_event_id = b.created_event_id;
  created_at = fresh.now;
}

-- `UNIQUE(effect_id, capsule_kind, attempt_no)`, which two nulls do not violate
abbrev pub same_slot : CapsuleRow → CapsuleRow → Bool
same_slot new old =
    is_some new.sealed.effect_id
    && opt_str_eq old.sealed.effect_id new.sealed.effect_id
    && kind_eq old.sealed.capsule_kind new.sealed.capsule_kind
    && (old.sealed.attempt_no == new.sealed.attempt_no)

unfoldable pub insert_capsule : CapsuleRow → Steps CapsuleTables SealedCapsuleRow
insert_capsule row t =
    if exists_row (same_slot row) t.capsules
    then (err capsule_invalid, t)
    else (ok row.sealed, record t { capsules = insert_row row t.capsules })

abbrev pub lift_result : {A : Type 0} → Result A → Steps CapsuleTables A
lift_result r t = (r, t)

abbrev pub require : Bool → OgraErrorCode → Steps CapsuleTables (Unit {0})
require true e = pure tt
require false e = throw e

module _ (V : Vault) where
  open V use {platform, master_key, hkdf, encrypt, hash_bytes, iso}

  unfoldable pub derive_capsule_key : String → Result Bytes
  derive_capsule_key workspace_id =
      if ltb (length master_key) 16
      then err secret_access_denied
      else ok (hkdf master_key (platform.sha256 (String.◌++◌ "salt:" workspace_id)))

  -- `buildAad`
  unfoldable pub build_aad : String → String → CapsuleBinding → String
  build_aad workspace_id workspace_tag b = platform.stringify (
      object (
        ("workspace_id", str workspace_id)
        ∷ ("workspace_tag", str workspace_tag)
        ∷ ("capsule_kind", str (capsule_kind_name b.capsule_kind))
        ∷ ("format_version", str b.format_version)
        ∷ ("run_id", str (or_else b.run_id ""))
        ∷ ("effect_id", str (or_else b.effect_id ""))
        ∷ ("receipt_id", str (or_else b.receipt_id ""))
        ∷ ("attempt_no", num b.attempt_no)
        ∷ ("adapter_kind", str b.adapter_kind)
        ∷ ("adapter_version", str b.adapter_version)
        ∷ ("payload_fingerprint", str b.payload_fingerprint)
        ∷ ("scope_hash", str b.scope_hash)
        ∷ ("expires_at", str (iso b.expires_at))
        ∷ []))

  -- The row that `seal` builds from the key and the workspace's tag.
  unfoldable pub capsule_row : CapsuleBinding → Json → Fresh → Bytes → String → CapsuleRow
  unfolding build_aad canonical_json
  capsule_row b payload fresh key tag =
      let plaintext = canonical_json platform payload in
      let (ciphertext, auth) = encrypt key fresh.nonce (build_aad b.workspace_id tag b) plaintext in
      let blob = fresh.nonce ++ (ciphertext ++ auth) in
      record {
        sealed = sealed_row b fresh tag (hash_bytes blob) (platform.sha256 plaintext);
        blob_payload = blob;
      }

  -- The length of the tag that the cipher gives.
  unfoldable pub tag_length : CapsuleBinding → Json → Fresh → Bytes → String → ℕ
  unfolding build_aad canonical_json
  tag_length b payload fresh key tag =
      length
        (encrypt key fresh.nonce (build_aad b.workspace_id tag b)
          (canonical_json platform payload)).1

  -- `seal`
  unfoldable pub seal : CapsuleBinding → Json → Fresh → Steps CapsuleTables SealedCapsuleRow
  seal b payload fresh = do
    require (str_eq b.format_version current_capsule_format_version) invalid_argument
    require (not (leb b.expires_at fresh.now)) capsule_invalid
    tag ← ensure_workspace_tag fresh b.workspace_id
    key ← lift_result (derive_capsule_key b.workspace_id)
    require (tag_length b payload fresh key tag == capsule_tag_bytes) capsule_invalid
    insert_capsule (capsule_row b payload fresh key tag)
