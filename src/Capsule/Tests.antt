-- ===== src/Capsule/Tests.antt =====
-- A concrete store. Its platform prints every value as the empty object and hashes a text to itself;
-- its cipher is the identity, with a constant tag.
use ogra.Prelude.{
  ℕ, zero, suc, String, ◌≡◌, ◌≢◌, refl, sym, ap, ◌∙◌, Bool, true, false, ◌&&◌, Option, none, some,
  [], ◌∷◌, ◌++◌, ◌==◌, arith, eq_iff, ◌<◌, All, select, exists_row, insert_row, update_where,
  if◌then◌else◌,
}
use ogra.Audit.Json.{Json, codes, object, sort_keys, sort_members}
use ogra.Audit.Event.{Platform, canonical_json, payload_hash}
use ogra.Durable.Transaction.{ok}
use ogra.Capsule.{
  Bytes, callback, current_capsule_format_version, corrupt, CapsuleBinding, CapsuleRow,
  CapsuleTables, Vault, Fresh, list_failures, ensure_workspace_tag, existing_tag, with_workspace,
  find_slot, OpenCapsule, ListedFailure,
}
use ogra.Capsule.Seal.{derive_capsule_key, build_aad, tag_length, capsule_row, insert_capsule, seal}
use ogra.Capsule.Open.{binding_of, decrypt_row, open_row, open_by_effect_with_ref, open_by_ref}
use ogra.Capsule.Evidence.{ReceiptClaim, open_result_for_receipt, open_verified_callback_for_effect}
use ogra.Capsule.Incidents.{IsSafe, Reports, refusal_leaves_incident, list_failures-IsSafe}
use ogra.Capsule.Authentic.{IsSealed, IsAuthentic, verified_callback-IsSealed}
use ogra.Capsule.Stored.{reopened, Deciphers}
use ogra.Capsule.Roundtrip.{seal-open}

abbrev pub empty : Json
empty = object []

abbrev pub platform : Platform
platform = record { sha256 = λ s. s; stringify = λ v. "{}"; parse = λ s. some empty }

abbrev pub zeros : ℕ → Bytes
zeros zero = []
zeros (suc n) = 0 ∷ zeros n

abbrev bytes_eq : Bytes → Bytes → Bool
bytes_eq [] [] = true
bytes_eq [] (y ∷ ys) = false
bytes_eq (x ∷ xs) [] = false
bytes_eq (x ∷ xs) (y ∷ ys) = (x == y) && bytes_eq xs ys

bytes_eq_sound : (xs ys : Bytes) → bytes_eq xs ys ≡ true → ys ≡ xs
bytes_eq_sound [] [] h = refl
bytes_eq_sound [] (y ∷ ys) h = absurd (ground (arith, h))
bytes_eq_sound (x ∷ xs) [] h = absurd (ground (arith, h))
bytes_eq_sound (x ∷ xs) (y ∷ ys) h =
    let tail = bytes_eq_sound xs ys (ground (arith, h)) in
    let head : y ≡ x = ground (arith, h) in ap (λ z. z ∷ ys) head ∙ ap (λ zs. x ∷ zs) tail

abbrev pub empty_text : String
empty_text = "{}"

abbrev cipher : Bytes → Bytes → String → String → Bytes × Bytes
cipher key nonce aad text = (codes text, zeros 16)

abbrev decipher : Bytes → Bytes → String → Bytes → Bytes → Option String
decipher key nonce aad c g =
    if bytes_eq c (codes empty_text) && bytes_eq g (zeros 16) then some empty_text else none

abbrev pub vault : Vault
vault = record {
  platform = platform;
  master_key = zeros 32;
  hkdf = λ key salt. key;
  encrypt = cipher;
  decrypt = decipher;
  hash_bytes = λ bytes. "hash";
  iso = λ n. "time";
}

vault-IsAuthentic : IsAuthentic vault
vault-IsAuthentic key nonce c g aad text h = at _ _ refl refl h
  where
    at :
        (b d : Bool)
        → bytes_eq c (codes empty_text) ≡ b
        → bytes_eq g (zeros 16) ≡ d
        → (if b && d then some empty_text else none) ≡ some text
        → cipher key nonce aad text ≡ (c, g)
    at false d h1 h2 h3 = absurd (ground (arith, h3))
    at true false h1 h2 h3 = absurd (ground (arith, h3))
    at true true h1 h2 h3 =
        let same : empty_text ≡ text = ground (arith, h3) in
        ap (λ s. cipher key nonce aad s) (sym same)
        ∙ ap (λ x. (x, zeros 16)) (bytes_eq_sound c (codes empty_text) h1)
        ∙ ap (λ y. (c, y)) (bytes_eq_sound g (zeros 16) h2)

vault-Deciphers : Deciphers vault (canonical_json platform empty)
unfolding canonical_json
vault-Deciphers key nonce aad = refl

abbrev pub fresh : Fresh
fresh = record {
  now = 5;
  workspace_tag = "tag";
  nonce = zeros 12;
  capsule_id = "cap";
  failure_id = "fail";
}

abbrev binding : CapsuleBinding
binding = record {
  workspace_id = "ws";
  capsule_kind = callback;
  format_version = current_capsule_format_version;
  run_id = some "run";
  effect_id = some "eff";
  receipt_id = none;
  attempt_no = 1;
  adapter_kind = "http";
  adapter_version = "v1";
  payload_fingerprint = "{}";
  scope_hash = "scope";
  expires_at = 100;
  created_event_id = some "evt";
}

abbrev tables : CapsuleTables
tables = record {
  workspaces = record { id = "ws"; workspace_tag = none } ∷ [];
  capsules = [];
  failures = [];
}

abbrev pub row : CapsuleRow
row = record {
  sealed = record {
    id = "cap";
    workspace_id = "ws";
    workspace_tag = "tag";
    capsule_kind = callback;
    format_version = current_capsule_format_version;
    ref = "hash";
    hash = "{}";
    run_id = some "run";
    effect_id = some "eff";
    receipt_id = none;
    attempt_no = 1;
    adapter_kind = some "http";
    adapter_version = some "v1";
    payload_fingerprint = some "{}";
    scope_hash = some "scope";
    expires_at = 100;
    created_event_id = some "evt";
    created_at = 5;
  };
  blob_payload = zeros 12 ++ (codes empty_text ++ zeros 16);
}

abbrev after : CapsuleTables
after = record {
  workspaces = record { id = "ws"; workspace_tag = some "tag" } ∷ [];
  capsules = row ∷ [];
  failures = [];
}

seals : seal vault binding empty fresh tables ≡ (ok row.sealed, after)
unfolding seal ensure_workspace_tag existing_tag select exists_row insert_row update_where
    insert_capsule derive_capsule_key tag_length capsule_row build_aad canonical_json
seals = refl

abbrev later : Fresh
later = record fresh { now = 50 }

parses : platform.parse (canonical_json platform empty) ≡ some (sort_keys empty)
unfolding canonical_json sort_keys sort_members
parses = refl

named : fresh.workspace_tag ≢ ""
named h = absurd (ground (arith, eq_iff "tag" ""))

has_workspace : exists_row (with_workspace "ws") tables.workspaces ≡ true
unfolding exists_row
has_workspace = refl

seal-open_example :
    open_by_effect_with_ref vault "eff" callback 1 later after
    ≡ (ok (reopened binding row.sealed empty, "hash"), after)
unfolding sort_keys sort_members
seal-open_example =
    seal-open vault binding empty fresh later tables after row.sealed "eff" vault-Deciphers parses
      refl named has_workspace refl (omega arith) seals

abbrev opened_row : OpenCapsule
opened_row = record {
  binding = binding;
  workspace_tag = "tag";
  payload = empty;
  verified_hash = "{}";
}

opens : open_verified_callback_for_effect vault "eff" 1 "{}" later after ≡ (ok opened_row, after)
unfolding open_verified_callback_for_effect open_by_effect_with_ref open_row ensure_workspace_tag
    existing_tag select exists_row decrypt_row derive_capsule_key build_aad canonical_json
    payload_hash sort_keys sort_members
opens = refl

verified_callback-IsSealed_example :
    (r : CapsuleRow) × (text : String) × (find_slot "eff" callback 1 after ≡ some r)
    × IsSealed vault r text
    × (vault.platform.sha256 text ≡ r.sealed.hash)
    × (vault.platform.parse text ≡ some opened_row.payload)
    × (payload_hash vault.platform opened_row.payload ≡ "{}")
    × (opened_row.binding ≡ binding_of r.sealed)
    × (later.now < r.sealed.expires_at)
verified_callback-IsSealed_example =
    verified_callback-IsSealed vault "eff" "{}" 1 later after after opened_row vault-IsAuthentic
      opens

abbrev claim : ReceiptClaim
claim = record {
  workspace_id = "ws";
  effect_id = "eff";
  receipt_id = "rct";
  attempt_no = 1;
  result_capsule_ref = some "hash";
  result_capsule_hash = some "{}";
  result_capsule_format_version = some "v1";
}

refusal_leaves_incident_example :
    Reports after (open_by_ref vault "other" (some 1) later after)
    × Reports after (open_result_for_receipt vault claim later after)
    × Reports after (open_verified_callback_for_effect vault "eff" 1 "changed" later after)
refusal_leaves_incident_example =
    refusal_leaves_incident vault "other" "eff" "changed" 1 claim later after

abbrev with_old_incident : CapsuleTables
with_old_incident = record after {
  failures =
      record {
        id = "f1";
        run_id = none;
        effect_id = some "eff";
        workspace_id = some "ws";
        capsule_ref = some "caps/ws/eff.bin";
        attempt_no = some 1;
        failure_kind = corrupt;
        detail = "password: hunter2";
        created_at = 1;
      }
      ∷ [];
}

list_failures-IsSafe_example :
    All
      (λ (r : ListedFailure). IsSafe r.detail r.capsule_ref)
      (list_failures "eff" with_old_incident)
list_failures-IsSafe_example = list_failures-IsSafe "eff" with_old_incident
