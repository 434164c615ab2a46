-- ===== src/Capsule/Authentic.antt =====
-- What an opened capsule proves: its content is what was encrypted under the columns of its row.
use ogra.Prelude.{
  ℕ, ◌+◌, ◌-◌, ◌≤◌, ◌<◌, String, ◌≡◌, refl, sym, ap, subst, ◌∙◌, ◌⊎◌, Bool, true, false, not, some,
  ◌++◌, length, take, drop, take-drop, take-take, str_eq, ltb, leb, arith, eq_iff, inl, inr,
}
use mathlib.Core.List.{append_assoc}
use ogra.Audit.Event.{payload_hash}
use ogra.Durable.Transaction.{OgraErrorCode, Result, ok, err, capsule_invalid, capsule_expired}
use ogra.Capsule.{
  Bytes, callback, capsule_nonce_bytes, capsule_tag_bytes, wrong_workspace, corrupt, expired,
  hash_mismatch, decrypt_failed, CapsuleRow, OpenCapsule, CapsuleTables, Vault, Fresh, refuse_if,
  some_or_fail, ensure_workspace_tag, find_slot, row_or_fail,
}
use ogra.Capsule.Seal.{derive_capsule_key, build_aad}
use ogra.Capsule.Open.{
  row_failure, binding_of, nonce_of, ciphertext_of, tag_of, decrypt_row, opened, open_row,
  open_by_effect_with_ref, missing_slot,
}
use ogra.Capsule.Evidence.{is_anchored, open_verified_callback_for_effect, mismatch_failure}
use ogra.Capsule.Inversion.{bind_ok, refuse_if_ok, some_or_fail_ok}

-- What AES-GCM promises: it decrypts only what the same key, nonce and authenticated data encrypt.
abbrev pub IsAuthentic : Vault → Type 0
IsAuthentic V =
    (key nonce cipher tag : Bytes) (aad text : String)
    → V.decrypt key nonce aad cipher tag ≡ some text
    → V.encrypt key nonce aad text ≡ (cipher, tag)

module _ (V : Vault) where
  -- What the tests of `openRow` have found.
  pub record IsOpened (row : CapsuleRow) (now : ℕ) (o : OpenCapsule) : Type 0 where
    pub text : String
    pub in_time : leb row.sealed.expires_at now ≡ false
    pub long_enough :
        ltb (length row.blob_payload) (capsule_nonce_bytes + capsule_tag_bytes) ≡ false
    pub decrypted : decrypt_row V row ≡ some text
    pub hashed : V.platform.sha256 text ≡ row.sealed.hash
    pub parsed : V.platform.parse text ≡ some o.payload
    pub binding : o.binding ≡ binding_of row.sealed
    pub verified : o.verified_hash ≡ row.sealed.hash

  double_negation : (b : Bool) → not b ≡ false → b ≡ true
  double_negation true h = refl
  double_negation false h = absurd (ground arith)

  pub open_row-IsOpened :
      (row : CapsuleRow) (fresh : Fresh) (t u : CapsuleTables) (o : OpenCapsule)
      → open_row V row fresh t ≡ (ok o, u)
      → IsOpened row fresh.now o
  unfolding open_row
  open_row-IsOpened row fresh t u o h =
      let r = row.sealed in
      let (current, t0, made, h0) = bind_ok (ensure_workspace_tag fresh r.workspace_id) _ t o u h in
      let m1 =
        refuse_if (not (str_eq current r.workspace_tag)) fresh
          (row_failure r wrong_workspace "capsule_wrong_workspace") capsule_invalid in
      let (x1, t1, e1, h1) = bind_ok m1 _ t0 o u h0 in
      let m2 =
        refuse_if (leb r.expires_at fresh.now) fresh (row_failure r expired "capsule_expired")
          capsule_expired in
      let (x2, t2, e2, h2) = bind_ok m2 _ t1 o u h1 in
      let m3 =
        refuse_if (ltb (length row.blob_payload) (capsule_nonce_bytes + capsule_tag_bytes)) fresh
          (row_failure r corrupt "capsule_corrupt") capsule_invalid in
      let (x3, t3, e3, h3) = bind_ok m3 _ t2 o u h2 in
      let m4 =
        some_or_fail (decrypt_row V row) fresh
          (row_failure r decrypt_failed "capsule_decrypt_failed") capsule_invalid in
      let (text, t4, e4, h4) = bind_ok m4 _ t3 o u h3 in
      let m5 =
        refuse_if (not (str_eq (V.platform.sha256 text) r.hash)) fresh
          (row_failure r hash_mismatch "capsule_hash_mismatch") capsule_invalid in
      let (x5, t5, e5, h5) = bind_ok m5 _ t4 o u h4 in
      let m6 =
        some_or_fail (V.platform.parse text) fresh (row_failure r corrupt "JSON parse failure")
          capsule_invalid in
      let (payload, t6, e6, h6) = bind_ok m6 _ t5 o u h5 in
      let same : opened V row.sealed payload (V.platform.sha256 text) ≡ o = ground (arith, h6) in
      let hash = (eq_iff _ _).0 (double_negation _ (refuse_if_ok _ _ _ _ t4 t5 x5 e5).0) in
      record {
        text = text;
        in_time = (refuse_if_ok _ _ _ _ t1 t2 x2 e2).0;
        long_enough = (refuse_if_ok _ _ _ _ t2 t3 x3 e3).0;
        decrypted = (some_or_fail_ok _ _ _ _ t3 t4 text e4).0;
        hashed = hash;
        parsed =
            (some_or_fail_ok _ _ _ _ t5 t6 payload e6).0
            ∙ ap (λ (p : OpenCapsule). some p.payload) same;
        binding = ap (λ (p : OpenCapsule). p.binding) (sym same);
        verified = ap (λ (p : OpenCapsule). p.verified_hash) (sym same) ∙ hash;
      }

  -- The row's bytes are what the workspace's key makes of the text, with every column of the row
  -- that `buildAad` names as the authenticated data.
  pub record IsSealed (row : CapsuleRow) (text : String) : Type 0 where
    pub key : Bytes
    pub derived : derive_capsule_key V row.sealed.workspace_id ≡ ok key
    pub encrypted :
        V.encrypt key
          (nonce_of row.blob_payload)
          (build_aad V row.sealed.workspace_id row.sealed.workspace_tag (binding_of row.sealed))
          text
        ≡ (ciphertext_of row.blob_payload, tag_of row.blob_payload)
    pub whole :
        nonce_of row.blob_payload ++ (ciphertext_of row.blob_payload ++ tag_of row.blob_payload)
        ≡ row.blob_payload

  parts_whole :
      (blob : Bytes)
      → ltb (length blob) (capsule_nonce_bytes + capsule_tag_bytes) ≡ false
      → nonce_of blob ++ (ciphertext_of blob ++ tag_of blob) ≡ blob
  parts_whole blob h =
      let n = length blob - capsule_tag_bytes in
      let body = take n blob in
      let enough : capsule_nonce_bytes ≤ n = ground (arith, h) in
      ap (λ l. l ++ (drop capsule_nonce_bytes body ++ drop n blob))
        (sym (take-take capsule_nonce_bytes n blob enough))
      ∙ sym (
          append_assoc (take capsule_nonce_bytes body) (drop capsule_nonce_bytes body)
            (drop n blob))
      ∙ ap (λ l. l ++ drop n blob) (take-drop capsule_nonce_bytes body)
      ∙ take-drop n blob

  decrypted-IsSealed :
      (row : CapsuleRow) (text : String)
      → IsAuthentic V
      → ltb (length row.blob_payload) (capsule_nonce_bytes + capsule_tag_bytes) ≡ false
      → decrypt_row V row ≡ some text
      → IsSealed row text
  unfolding decrypt_row
  decrypted-IsSealed row text authentic long h =
      elim (key_of (derive_capsule_key V row.sealed.workspace_id)) [
        | inl (key, derived) ↦ record {
          key = key;
          derived = derived;
          encrypted =
              authentic key (nonce_of row.blob_payload) (ciphertext_of row.blob_payload)
                (tag_of row.blob_payload)
                (build_aad V row.sealed.workspace_id row.sealed.workspace_tag
                  (binding_of row.sealed))
                text (ground (arith, derived));
          whole = parts_whole row.blob_payload long;
        }
        | inr (e, failed) ↦ absurd (ground (arith, failed))
      ]
    where
      key_of : (r : Result Bytes) → ((k : Bytes) × (r ≡ ok k)) ⊎ ((e : OgraErrorCode) × (r ≡ err e))
      key_of (ok k) = inl (k, refl)
      key_of (err e) = inr (e, refl)

  -- A callback that is handed out for an effect is the content of the effect's own capsule of that
  -- attempt, sealed under the columns of its row, not expired, and its canonical hash is the
  -- fingerprint of the effect. The condition is that the cipher is authentic.
  pub verified_callback-IsSealed :
      (effect_id expected : String) (attempt : ℕ) (fresh : Fresh) (t u : CapsuleTables)
      (o : OpenCapsule)
      → IsAuthentic V
      → open_verified_callback_for_effect V effect_id attempt expected fresh t ≡ (ok o, u)
      → (row : CapsuleRow) × (text : String) × (find_slot effect_id callback attempt t ≡ some row)
        × IsSealed row text
        × (V.platform.sha256 text ≡ row.sealed.hash)
        × (V.platform.parse text ≡ some o.payload)
        × (payload_hash V.platform o.payload ≡ expected)
        × (o.binding ≡ binding_of row.sealed)
        × (fresh.now < row.sealed.expires_at)
  unfolding open_verified_callback_for_effect open_by_effect_with_ref
  verified_callback-IsSealed effect_id expected attempt fresh t u o authentic h =
      let ((o', ref), t1, e1, h1) =
        bind_ok (open_by_effect_with_ref V effect_id callback attempt fresh) _ t o u h in
      let (row, t2, e2, h2) =
        bind_ok
          (row_or_fail (find_slot effect_id callback attempt) fresh (missing_slot effect_id attempt)
            capsule_invalid)
          _ t (o', ref) t1 e1 in
      let (o'', t3, e3, h3) = bind_ok (open_row V row fresh) _ t2 (o', ref) t1 h2 in
      let (x4, t4, e4, h4) =
        bind_ok
          (refuse_if (not (is_anchored V o' expected)) fresh
            (mismatch_failure effect_id attempt o' ref) capsule_invalid)
          _ t1 o u h1 in
      let same : o' ≡ o = ground (arith, h4) in
      let same' : o'' ≡ o' = ground (arith, h3) in
      let was =
        subst (λ (p : OpenCapsule). IsOpened row fresh.now p) (same' ∙ same)
          (open_row-IsOpened row fresh t2 t3 o'' e3) in
      let anchored = double_negation _ (refuse_if_ok _ _ _ _ t1 t4 x4 e4).0 in
      (
        row,
        was.text,
        (some_or_fail_ok _ _ _ _ t t2 row e2).0,
        decrypted-IsSealed row was.text authentic was.long_enough was.decrypted,
        was.hashed,
        was.parsed,
        ap (λ (p : OpenCapsule). payload_hash V.platform p.payload) (sym same)
            ∙ ground (arith, anchored, eq_iff (payload_hash V.platform o'.payload) expected),
        was.binding,
        ground (arith, was.in_time),
      )
