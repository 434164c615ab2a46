-- ===== src/Capsule/Roundtrip.antt =====
-- A capsule that was sealed opens again, with the binding and the payload that were sealed.
use ogra.Prelude.{
  ℕ, ◌+◌, ◌<◌, String, ◌≡◌, ◌≢◌, refl, sym, subst, ◌∙◌, true, false, some, length, ltb, leb,
  select-insert_row, exists_row, insert_row, arith, eq_iff,
}
use ogra.Audit.Json.{Json, sort_keys}
use ogra.Audit.Event.{canonical_json}
use ogra.Audit.Chain.Roundtrip.{Parses}
use ogra.Durable.Transaction.{ok}
use ogra.Capsule.{
  Bytes, CapsuleKind, capsule_kind_name, capsule_nonce_bytes, capsule_tag_bytes, CapsuleBinding,
  SealedCapsuleRow, CapsuleRow, OpenCapsule, CapsuleTables, Vault, Fresh, in_slot, find_slot,
  with_workspace, existing_tag, ensure_workspace_tag,
}
use ogra.Capsule.Seal.{derive_capsule_key, build_aad, same_slot, capsule_row, tag_length, seal}
use ogra.Capsule.Open.{decrypt_row, opened, open_row, open_by_effect_with_ref}
use ogra.Capsule.Stored.{
  Deciphers, reopened, nonce_part, seal-IsStored, provision-existing, no_slot, ciphertext_part,
  tag_part, long_enough,
}

module _ (V : Vault) where
  -- `openRow` when every test passes.
  open_row_passes :
      (row : CapsuleRow) (fresh : Fresh) (t : CapsuleTables) (text : String) (payload : Json)
      → existing_tag row.sealed.workspace_id t ≡ some row.sealed.workspace_tag
      → leb row.sealed.expires_at fresh.now ≡ false
      → ltb (length row.blob_payload) (capsule_nonce_bytes + capsule_tag_bytes) ≡ false
      → decrypt_row V row ≡ some text
      → V.platform.sha256 text ≡ row.sealed.hash
      → V.platform.parse text ≡ some payload
      → open_row V row fresh t ≡ (ok (opened V row.sealed payload (V.platform.sha256 text)), t)
  unfolding open_row ensure_workspace_tag
  open_row_passes row fresh t text payload tag in_time long found hash parsed = ground (
    arith,
    tag,
    in_time,
    long,
    found,
    parsed,
    (eq_iff row.sealed.workspace_tag row.sealed.workspace_tag).1 refl,
    (eq_iff (V.platform.sha256 text) row.sealed.hash).1 hash,
  )

  stored_decrypts :
      (b : CapsuleBinding) (payload : Json) (fresh : Fresh) (key : Bytes) (tag : String)
      → Deciphers V (canonical_json V.platform payload)
      → derive_capsule_key V b.workspace_id ≡ ok key
      → length fresh.nonce ≡ capsule_nonce_bytes
      → tag_length V b payload fresh key tag ≡ capsule_tag_bytes
      → decrypt_row V (capsule_row V b payload fresh key tag)
        ≡ some (canonical_json V.platform payload)
  unfolding decrypt_row capsule_row tag_length
  stored_decrypts b payload fresh key tag deciphers derived sized tag_sized =
      let aad = build_aad V b.workspace_id tag b in
      let text = canonical_json V.platform payload in
      let c = (V.encrypt key fresh.nonce aad text).0 in
      let g = (V.encrypt key fresh.nonce aad text).1 in
      ground (
        arith,
        derived,
        nonce_part fresh.nonce c g sized,
        ciphertext_part fresh.nonce c g sized tag_sized,
        tag_part fresh.nonce c g sized tag_sized,
        deciphers key fresh.nonce aad,
      )

  stored_long :
      (b : CapsuleBinding) (payload : Json) (fresh : Fresh) (key : Bytes) (tag : String)
      → length fresh.nonce ≡ capsule_nonce_bytes
      → tag_length V b payload fresh key tag ≡ capsule_tag_bytes
      → ltb
          (length (capsule_row V b payload fresh key tag).blob_payload)
          (capsule_nonce_bytes + capsule_tag_bytes)
        ≡ false
  unfolding capsule_row tag_length
  stored_long b payload fresh key tag sized tag_sized =
      let sealed =
        V.encrypt key fresh.nonce (build_aad V b.workspace_id tag b)
          (canonical_json V.platform payload) in
      long_enough fresh.nonce sealed.0 sealed.1 sized tag_sized

  -- The new row is the one in its slot.
  stored_found :
      (b : CapsuleBinding) (payload : Json) (fresh : Fresh) (key : Bytes) (tag effect_id : String)
      (mid : CapsuleTables)
      → b.effect_id ≡ some effect_id
      → exists_row (same_slot (capsule_row V b payload fresh key tag)) mid.capsules ≡ false
      → find_slot effect_id b.capsule_kind b.attempt_no (record mid {
        capsules = insert_row (capsule_row V b payload fresh key tag) mid.capsules;
      })
        ≡ some (capsule_row V b payload fresh key tag)
  unfolding capsule_row
  stored_found b payload fresh key tag effect_id mid owner free =
      let new = capsule_row V b payload fresh key tag in
      let slot = in_slot effect_id b.capsule_kind b.attempt_no in
      let itself : slot new ≡ true = ground (
        arith,
        owner,
        (eq_iff effect_id effect_id).1 refl,
        (eq_iff (capsule_kind_name b.capsule_kind) (capsule_kind_name b.capsule_kind)).1 refl,
      ) in
      select-insert_row slot new mid.capsules
      ∙ ground (arith, itself, no_slot mid.capsules new effect_id owner free)

  open_found :
      (effect_id : String) (kind : CapsuleKind) (attempt : ℕ) (later : Fresh) (t : CapsuleTables)
      (row : CapsuleRow) (o : OpenCapsule)
      → find_slot effect_id kind attempt t ≡ some row
      → open_row V row later t ≡ (ok o, t)
      → open_by_effect_with_ref V effect_id kind attempt later t ≡ (ok (o, row.sealed.ref), t)
  unfolding open_by_effect_with_ref
  open_found effect_id kind attempt later t row o found passes = ground (arith, found, passes)

  -- A capsule that `seal` has stored for an effect opens, at any time before its expiry, as the
  -- binding that was sealed and the payload with its keys in order, and the tables stay as they
  -- are. The conditions: decryption undoes the encryption of this text, parsing reads the payload back, the nonce
  -- has its 12 bytes, and the workspace exists (a new tag is not empty).
  pub seal-open :
      (b : CapsuleBinding) (payload : Json) (fresh later : Fresh) (t u : CapsuleTables)
      (row : SealedCapsuleRow) (effect_id : String)
      → Deciphers V (canonical_json V.platform payload)
      → Parses V.platform payload
      → length fresh.nonce ≡ capsule_nonce_bytes
      → fresh.workspace_tag ≢ ""
      → exists_row (with_workspace b.workspace_id) t.workspaces ≡ true
      → b.effect_id ≡ some effect_id
      → later.now < b.expires_at
      → seal V b payload fresh t ≡ (ok row, u)
      → open_by_effect_with_ref V effect_id b.capsule_kind b.attempt_no later u
        ≡ (ok (reopened b row payload, row.ref), u)
  unfolding capsule_row
  seal-open b payload fresh later t u row effect_id deciphers parses sized named there owner in_time
        sealed =
      let st = seal-IsStored V b payload fresh t u row sealed in
      let new = capsule_row V b payload fresh st.key st.tag in
      let after = record st.mid { capsules = insert_row new st.mid.capsules } in
      let text = canonical_json V.platform payload in
      let tag_sized : tag_length V b payload fresh st.key st.tag ≡ capsule_tag_bytes =
        ground (arith, st.sized) in
      let known = provision-existing fresh b.workspace_id st.tag t st.mid there named st.provided in
      let passes =
        open_row_passes new later after text (sort_keys payload) (unfold existing_tag in known)
          (ground arith) (stored_long b payload fresh st.key st.tag sized tag_sized)
          (stored_decrypts b payload fresh st.key st.tag deciphers st.derived sized tag_sized) refl
          parses in
      let found = stored_found b payload fresh st.key st.tag effect_id st.mid owner st.new_slot in
      let opens = open_found effect_id b.capsule_kind b.attempt_no later after new _ found passes in
      subst
        (λ (v : CapsuleTables).
          open_by_effect_with_ref V effect_id b.capsule_kind b.attempt_no later v
          ≡ (ok (reopened b row payload, row.ref), v))
        (sym st.inserted)
        (subst
          (λ (r : SealedCapsuleRow).
            open_by_effect_with_ref V effect_id b.capsule_kind b.attempt_no later after
            ≡ (ok (reopened b r payload, r.ref), after))
          st.returned opens)
