-- ===== src/Capsule/Stored.antt =====
-- What `seal` of ogra-desktop/src/core/capsule-store.ts stores: the parts of its bytes, the tables on
-- the way and the row in its slot.
use ogra.Prelude.{
  ◌+◌, ◌-◌, String, ◌≡◌, ◌≢◌, refl, sym, ap, subst, ◌∙◌, inl, inr, Bool, true, false, not, none,
  some, List, [], ◌∷◌, ◌++◌, length, length-append, take, drop, take-append, drop-append, ◌==◌,
  str_eq, ltb, leb, select, select-update_where, select_sound, exists_row, exists_row-select,
  insert_row, arith, eq_iff, Bool-cases, Option-cases,
}
use mathlib.Core.List.{append_assoc}
use ogra.Audit.Json.{Json, sort_keys}
use ogra.Durable.Transaction.{OgraErrorCode, capsule_invalid, invalid_argument, Result, ok, err}
use ogra.Capsule.{
  Bytes, current_capsule_format_version, capsule_nonce_bytes, capsule_tag_bytes, CapsuleBinding,
  SealedCapsuleRow, CapsuleRow, OpenCapsule, CapsuleTables, Vault, Fresh, in_slot, with_workspace,
  tagged, existing_tag, ensure_workspace_tag,
}
use ogra.Capsule.Seal.{
  derive_capsule_key, same_slot, capsule_row, tag_length, insert_capsule, lift_result, require,
  seal,
}
use ogra.Capsule.Inversion.{bind_ok}
use ogra.Capsule.Open.{nonce_of, ciphertext_of, tag_of}

-- Decryption undoes encryption of a text under the same key, nonce and authenticated data.
abbrev pub Deciphers : Vault → String → Type 0
Deciphers V text =
    (key nonce : Bytes) (aad : String)
    → V.decrypt key nonce aad (V.encrypt key nonce aad text).0 (V.encrypt key nonce aad text).1
      ≡ some text

pub nonce_part : (n c g : Bytes) → length n ≡ capsule_nonce_bytes → nonce_of (n ++ (c ++ g)) ≡ n
nonce_part n c g h = take-append capsule_nonce_bytes n (c ++ g) h

module _ (n c g : Bytes) (sized : length n ≡ capsule_nonce_bytes)
    (tagged_ : length g ≡ capsule_tag_bytes) where
  body_length : length (n ++ c) ≡ length (n ++ (c ++ g)) - capsule_tag_bytes
  body_length =
      omega (arith, length-append n c, length-append n (c ++ g), length-append c g, tagged_)

  body_part : take (length (n ++ (c ++ g)) - capsule_tag_bytes) (n ++ (c ++ g)) ≡ n ++ c
  body_part =
      ap (take (length (n ++ (c ++ g)) - capsule_tag_bytes)) (sym (append_assoc n c g))
      ∙ take-append (length (n ++ (c ++ g)) - capsule_tag_bytes) (n ++ c) g body_length

  pub ciphertext_part : ciphertext_of (n ++ (c ++ g)) ≡ c
  ciphertext_part =
      ap (drop capsule_nonce_bytes) body_part ∙ drop-append capsule_nonce_bytes n c sized

  pub tag_part : tag_of (n ++ (c ++ g)) ≡ g
  tag_part =
      ap (drop (length (n ++ (c ++ g)) - capsule_tag_bytes)) (sym (append_assoc n c g))
      ∙ drop-append (length (n ++ (c ++ g)) - capsule_tag_bytes) (n ++ c) g body_length

  pub long_enough : ltb (length (n ++ (c ++ g))) (capsule_nonce_bytes + capsule_tag_bytes) ≡ false
  long_enough = ground (arith, length-append n (c ++ g), length-append c g, sized, tagged_)

-- What opening the row that `seal` returned gives.
abbrev pub reopened : CapsuleBinding → SealedCapsuleRow → Json → OpenCapsule
reopened b row payload = record {
  binding = b;
  workspace_tag = row.workspace_tag;
  payload = sort_keys payload;
  verified_hash = row.hash;
}

-- What `seal` wrote when it returned a row, by way of the tables `mid`.
pub record IsStored (V : Vault) (b : CapsuleBinding) (payload : Json) (fresh : Fresh)
    (t after : CapsuleTables) (row : SealedCapsuleRow) : Type 0 where
  pub key : Bytes
  pub tag : String
  pub mid : CapsuleTables
  pub derived : derive_capsule_key V b.workspace_id ≡ ok key
  pub provided : ensure_workspace_tag fresh b.workspace_id t ≡ (ok tag, mid)
  pub sized : (tag_length V b payload fresh key tag == capsule_tag_bytes) ≡ true
  pub new_slot : exists_row (same_slot (capsule_row V b payload fresh key tag)) mid.capsules ≡ false
  pub inserted :
      after
      ≡ record mid { capsules = insert_row (capsule_row V b payload fresh key tag) mid.capsules }
  pub returned : (capsule_row V b payload fresh key tag).sealed ≡ row

require_ok :
    (c : Bool) (e : OgraErrorCode) (t u : CapsuleTables) (x : Unit {0})
    → require c e t ≡ (ok x, u)
    → (c ≡ true) × (t ≡ u)
require_ok true e t u x h = (refl, ground arith)
require_ok false e t u x h = absurd (ground arith)

lift_ok :
    {A : Type 0} (r : Result A) (a : A) (t u : CapsuleTables)
    → lift_result r t ≡ (ok a, u)
    → (r ≡ ok a) × (t ≡ u)
lift_ok (ok b) a t u h = (ground arith, ground arith)
lift_ok (err e) a t u h = absurd (ground arith)

insert_ok :
    (new : CapsuleRow) (t u : CapsuleTables) (r : SealedCapsuleRow)
    → insert_capsule new t ≡ (ok r, u)
    → (exists_row (same_slot new) t.capsules ≡ false)
      × (u ≡ record t { capsules = insert_row new t.capsules })
      × (new.sealed ≡ r)
unfolding insert_capsule
insert_ok new t u r h = elim (Bool-cases (exists_row (same_slot new) t.capsules)) [
  | inl taken ↦ absurd (ground (arith, taken))
  | inr free ↦ (free, ground (arith, free), ground (arith, free))
]

pub seal-IsStored :
    (V : Vault) (b : CapsuleBinding) (payload : Json) (fresh : Fresh) (t u : CapsuleTables)
    (r : SealedCapsuleRow)
    → seal V b payload fresh t ≡ (ok r, u)
    → IsStored V b payload fresh t u r
unfolding seal
seal-IsStored V b payload fresh t u r h =
    let m1 = require (str_eq b.format_version current_capsule_format_version) invalid_argument in
    let (x1, t1, e1, h1) = bind_ok m1 _ t r u h in
    let m2 = require (not (leb b.expires_at fresh.now)) capsule_invalid in
    let (x2, t2, e2, h2) = bind_ok m2 _ t1 r u h1 in
    let (tag, t3, e3, h3) = bind_ok (ensure_workspace_tag fresh b.workspace_id) _ t2 r u h2 in
    let (key, t4, e4, h4) =
      bind_ok (lift_result (derive_capsule_key V b.workspace_id)) _ t3 r u h3 in
    let m5 = require (tag_length V b payload fresh key tag == capsule_tag_bytes) capsule_invalid in
    let (x5, t5, e5, h5) = bind_ok m5 _ t4 r u h4 in
    let (sized, last) = require_ok _ _ t4 t5 x5 e5 in
    let (derived, kept) = lift_ok _ key t3 t4 e4 in
    let first = (require_ok _ _ t t1 x1 e1).1 ∙ (require_ok _ _ t1 t2 x2 e2).1 in
    let h6 =
      subst (λ v. insert_capsule (capsule_row V b payload fresh key tag) v ≡ (ok r, u))
        (sym (kept ∙ last)) h5 in
    let (new_slot, inserted, returned) = insert_ok _ t3 u r h6 in
    record {
      key = key;
      tag = tag;
      mid = t3;
      derived = derived;
      provided =
          subst (λ v. ensure_workspace_tag fresh b.workspace_id v ≡ (ok tag, t3)) (sym first) e3;
      sized = sized;
      new_slot = new_slot;
      inserted = inserted;
      returned = returned;
    }

-- After `ensureWorkspaceTag` a workspace that exists has the tag that was returned.
pub provision-existing :
    (fresh : Fresh) (id tag : String) (t u : CapsuleTables)
    → exists_row (with_workspace id) t.workspaces ≡ true
    → fresh.workspace_tag ≢ ""
    → ensure_workspace_tag fresh id t ≡ (ok tag, u)
    → existing_tag id u ≡ some tag
unfolding ensure_workspace_tag existing_tag
provision-existing fresh id tag t u there named h = elim (Option-cases (existing_tag id t)) [
  | inr (old, found) ↦ ground (arith, found)
  | inl new ↦ elim (Option-cases (select (with_workspace id) t.workspaces)) [
    | inl none_ ↦ absurd (ground (arith, exists_row-select (with_workspace id) t.workspaces))
    | inr (w, at) ↦ ground (
      arith,
      at,
      select-update_where (with_workspace id) (with_workspace id) (tagged fresh.workspace_tag)
          t.workspaces (λ x. refl),
      select_sound (with_workspace id) t.workspaces w at,
      eq_iff fresh.workspace_tag "",
    )
  ]
]

same_slot-in_slot :
    (r new : CapsuleRow) (effect_id : String)
    → new.sealed.effect_id ≡ some effect_id
    → same_slot new r ≡ in_slot effect_id new.sealed.capsule_kind new.sealed.attempt_no r
same_slot-in_slot r new effect_id h = ground (arith, h)

pub no_slot :
    (rows : List CapsuleRow) (new : CapsuleRow) (effect_id : String)
    → new.sealed.effect_id ≡ some effect_id
    → exists_row (same_slot new) rows ≡ false
    → select (in_slot effect_id new.sealed.capsule_kind new.sealed.attempt_no) rows ≡ none
unfolding exists_row select
no_slot [] new effect_id h free = refl
no_slot (r ∷ rows) new effect_id h free =
    ground (arith, same_slot-in_slot r new effect_id h, no_slot rows new effect_id h)
