-- ===== src/Capsule.antt =====
-- The sealed capsules of ogra-desktop/src/core/capsule-store.ts: their types, tables
-- (ogra-desktop/src/core/database.ts) and incident log. A `Buffer` is a list of bytes.
pub mod Seal
pub mod Open
pub mod Evidence
pub mod Inversion
pub mod Incidents
pub mod Authentic
pub mod Stored
pub mod Roundtrip
pub mod Tests
use ogra.Prelude.{
  ℕ, String, Bool, true, false, ◌&&◌, ◌||◌, Option, none, some, List, [], ◌∷◌, ◌++◌, map, includes,
  str_eq, opt_str_eq, ◌==◌, select, select_all, insert_row, update_where, or_else, if◌then◌else◌,
}
use ogra.Audit.Event.{Platform}
use ogra.Audit.Json.{Json}
use ogra.Durable.Transaction.{OgraErrorCode, Result, ok, err}

abbrev pub Bytes : Type 0
Bytes = List ℕ

pub data CapsuleKind : Type 0 where
  callback result : CapsuleKind

abbrev pub capsule_kind_name : CapsuleKind → String
capsule_kind_name callback = "callback"
capsule_kind_name result = "result"

abbrev pub kind_eq : CapsuleKind → CapsuleKind → Bool
kind_eq a b = str_eq (capsule_kind_name a) (capsule_kind_name b)

abbrev pub current_capsule_format_version : String
current_capsule_format_version = "v1"

abbrev pub capsule_nonce_bytes : ℕ
capsule_nonce_bytes = 12

abbrev pub capsule_tag_bytes : ℕ
capsule_tag_bytes = 16

pub data FailureKind : Type 0 where
  missing corrupt expired wrong_workspace hash_mismatch : FailureKind
  decrypt_failed format_mismatch unsupported_primitives : FailureKind

-- `CAPSULE_FAILURE_DETAIL_BY_KIND`
abbrev pub detail_by_kind : FailureKind → String
detail_by_kind missing = "capsule_missing"
detail_by_kind corrupt = "capsule_corrupt"
detail_by_kind expired = "capsule_expired"
detail_by_kind wrong_workspace = "capsule_wrong_workspace"
detail_by_kind hash_mismatch = "capsule_hash_mismatch"
detail_by_kind decrypt_failed = "capsule_decrypt_failed"
detail_by_kind format_mismatch = "capsule_format_mismatch"
detail_by_kind unsupported_primitives = "capsule_unsupported_primitives"

-- `APPROVED_CAPSULE_FAILURE_DETAILS`
abbrev pub approved_failure_details : List String
approved_failure_details =
    map detail_by_kind (
      missing ∷ corrupt ∷ expired ∷ wrong_workspace ∷ hash_mismatch ∷ decrypt_failed
      ∷ format_mismatch ∷ unsupported_primitives ∷ [])
    ++ "recovery_capability_evidence_invalid" ∷ []

unfoldable pub safe_failure_detail : FailureKind → String → String
safe_failure_detail kind detail =
    if includes approved_failure_details detail then detail else detail_by_kind kind

abbrev pub masked_failure_ref : String
masked_failure_ref = "[redacted]"

unfoldable pub safe_failure_ref : Option String → Option String
safe_failure_ref none = none
safe_failure_ref (some ref) = some masked_failure_ref

pub record CapsuleBinding : Type 0 where
  pub workspace_id : String
  pub capsule_kind : CapsuleKind
  pub format_version : String
  pub run_id : Option String
  pub effect_id : Option String
  pub receipt_id : Option String
  pub attempt_no : ℕ
  pub adapter_kind : String
  pub adapter_version : String
  pub payload_fingerprint : String
  pub scope_hash : String
  pub expires_at : ℕ
  pub created_event_id : Option String

-- A row of `capsules` but for the ciphertext.
pub record SealedCapsuleRow : Type 0 where
  pub id : String
  pub workspace_id : String
  pub workspace_tag : String
  pub capsule_kind : CapsuleKind
  pub format_version : String
  pub ref : String
  pub hash : String
  pub run_id : Option String
  pub effect_id : Option String
  pub receipt_id : Option String
  pub attempt_no : ℕ
  pub adapter_kind : Option String
  pub adapter_version : Option String
  pub payload_fingerprint : Option String
  pub scope_hash : Option String
  pub expires_at : ℕ
  pub created_event_id : Option String
  pub created_at : ℕ

-- A row of `capsules`; `rowToSealedRow` is the field `sealed`.
pub record CapsuleRow : Type 0 where
  pub sealed : SealedCapsuleRow
  pub blob_payload : Bytes

pub record OpenCapsule : Type 0 where
  pub binding : CapsuleBinding
  pub workspace_tag : String
  pub payload : Json
  pub verified_hash : String

-- A row of `capsule_failures`.
pub record CapsuleFailure : Type 0 where
  pub id : String
  pub run_id : Option String
  pub effect_id : Option String
  pub workspace_id : Option String
  pub capsule_ref : Option String
  pub attempt_no : Option ℕ
  pub failure_kind : FailureKind
  pub detail : String
  pub created_at : ℕ

-- The columns of `workspaces` that the store uses.
pub record Workspace : Type 0 where
  pub id : String
  pub workspace_tag : Option String

pub record CapsuleTables : Type 0 where
  pub workspaces : List Workspace
  pub capsules : List CapsuleRow
  pub failures : List CapsuleFailure

-- The primitives of `crypto` that the store calls, and `Date.prototype.toISOString`.
pub record Vault : Type 0 where
  pub platform : Platform
  pub master_key : Bytes
  -- `hkdfSync`, from the master key and the salt
  pub hkdf : Bytes → String → Bytes
  -- The ciphertext and the tag that AES-256-GCM makes of a key, a nonce, the data that it
  -- authenticates and a plaintext; and the plaintext again, `none` for an exception.
  pub encrypt : Bytes → Bytes → String → String → Bytes × Bytes
  pub decrypt : Bytes → Bytes → String → Bytes → Bytes → Option String
  pub hash_bytes : Bytes → String
  pub iso : ℕ → String

-- What one call takes from the clock and from `randomBytes`.
pub record Fresh : Type 0 where
  pub now : ℕ
  pub workspace_tag : String
  pub nonce : Bytes
  pub capsule_id : String
  pub failure_id : String

-- Code that reads and writes tables outside a transaction: what it wrote before an error stays.
abbrev pub Steps : Type 0 → Type 0 → Type 0
Steps T A = T → Result A × T

abbrev pub proceed : {T A B : Type 0} → (A → Steps T B) → Result A × T → Result B × T
proceed f (ok a, t) = f a t
proceed f (err e, t) = (err e, t)

infixl 5 ◌>>=◌ ◌>>◌
abbrev pub ◌>>=◌ : {T A B : Type 0} → Steps T A → (A → Steps T B) → Steps T B
◌>>=◌ m f t = proceed f (m t)

abbrev pub ◌>>◌ : {T A B : Type 0} → Steps T A → Steps T B → Steps T B
m >> k = m >>= λ _. k

abbrev pub pure : {T A : Type 0} → A → Steps T A
pure a t = (ok a, t)

abbrev pub throw : {T A : Type 0} → OgraErrorCode → Steps T A
throw e t = (err e, t)

pub record FailureInput : Type 0 where
  pub run_id : Option String
  pub effect_id : Option String
  pub workspace_id : Option String
  pub capsule_ref : Option String
  pub attempt_no : Option ℕ
  pub failure_kind : FailureKind
  pub detail : String

abbrev pub failure_row : Fresh → FailureInput → CapsuleFailure
failure_row fresh input = record {
  id = fresh.failure_id;
  run_id = input.run_id;
  effect_id = input.effect_id;
  workspace_id = input.workspace_id;
  capsule_ref = safe_failure_ref input.capsule_ref;
  attempt_no = input.attempt_no;
  failure_kind = input.failure_kind;
  detail = safe_failure_detail input.failure_kind input.detail;
  created_at = fresh.now;
}

-- `recordFailure`
unfoldable pub record_failure : Fresh → FailureInput → CapsuleTables → CapsuleTables
record_failure fresh input t = record t {
  failures = insert_row (failure_row fresh input) t.failures;
}

-- `recordFailure(…); throw …`
abbrev pub fail_with : {A : Type 0} → Fresh → FailureInput → OgraErrorCode → Steps CapsuleTables A
fail_with fresh input e t = (err e, record_failure fresh input t)

-- `if (c) { recordFailure(…); throw … }`
abbrev pub refuse_if : Bool → Fresh → FailureInput → OgraErrorCode → Steps CapsuleTables (Unit {0})
refuse_if true fresh input e = fail_with fresh input e
refuse_if false fresh input e = pure tt

-- The same where a value is missing.
abbrev pub some_or_fail :
    {A : Type 0} → Option A → Fresh → FailureInput → OgraErrorCode → Steps CapsuleTables A
some_or_fail none fresh input e = fail_with fresh input e
some_or_fail (some a) fresh input e = pure a

-- A row that is selected, or the failure.
abbrev pub row_or_fail :
    {A : Type 0}
    → (CapsuleTables → Option A)
    → Fresh
    → FailureInput
    → OgraErrorCode
    → Steps CapsuleTables A
row_or_fail f fresh input e t = some_or_fail (f t) fresh input e t

pub record ListedFailure : Type 0 where
  pub id : String
  pub capsule_ref : Option String
  pub failure_kind : FailureKind
  pub detail : String
  pub created_at : ℕ

abbrev pub listed_failure : CapsuleFailure → ListedFailure
listed_failure r = record {
  id = r.id;
  capsule_ref = safe_failure_ref r.capsule_ref;
  failure_kind = r.failure_kind;
  detail = safe_failure_detail r.failure_kind r.detail;
  created_at = r.created_at;
}

-- `listFailures`; the rows stand in the order of their times.
unfoldable pub list_failures : String → CapsuleTables → List ListedFailure
list_failures effect_id t =
    map listed_failure
      (select_all (λ (r : CapsuleFailure). opt_str_eq r.effect_id (some effect_id)) t.failures)

-- `WHERE ref = ?`
abbrev pub with_ref : String → CapsuleRow → Bool
with_ref ref r = str_eq r.sealed.ref ref

-- `WHERE effect_id = ? AND capsule_kind = ? AND attempt_no = ?`
abbrev pub in_slot : String → CapsuleKind → ℕ → CapsuleRow → Bool
in_slot effect_id kind attempt r =
    opt_str_eq r.sealed.effect_id (some effect_id)
    && kind_eq r.sealed.capsule_kind kind
    && (r.sealed.attempt_no == attempt)

abbrev pub find_slot : String → CapsuleKind → ℕ → CapsuleTables → Option CapsuleRow
find_slot effect_id kind attempt t = select (in_slot effect_id kind attempt) t.capsules

abbrev pub sealed_of : Option CapsuleRow → Option SealedCapsuleRow
sealed_of none = none
sealed_of (some r) = some r.sealed

-- `fetchByRef`
unfoldable pub fetch_by_ref : String → CapsuleTables → Option SealedCapsuleRow
fetch_by_ref ref t = sealed_of (select (with_ref ref) t.capsules)

-- `fetchByBinding`
unfoldable pub fetch_by_binding : String → CapsuleKind → ℕ → CapsuleTables → Option SealedCapsuleRow
fetch_by_binding effect_id kind attempt t = sealed_of (find_slot effect_id kind attempt t)

abbrev pub tagged : String → Workspace → Workspace
tagged tag w = record w { workspace_tag = some tag }

abbrev pub with_workspace : String → Workspace → Bool
with_workspace id w = str_eq w.id id

-- The tag that a workspace has, unless it is missing or empty.
unfoldable pub existing_tag : String → CapsuleTables → Option String
existing_tag id t = elim (select (with_workspace id) t.workspaces) [
  | none ↦ none
  | some w ↦ if str_eq (or_else w.workspace_tag "") "" then none else w.workspace_tag
]

-- The tag that a workspace has, or a new one that is written to its row.
abbrev pub provision :
    Fresh → String → CapsuleTables → Option String → Result String × CapsuleTables
provision fresh id t (some tag) = (ok tag, t)
provision fresh id t none = (
  ok fresh.workspace_tag,
  record t {
    workspaces = update_where (with_workspace id) (tagged fresh.workspace_tag) t.workspaces;
  },
)

-- `ensureWorkspaceTag`
unfoldable pub ensure_workspace_tag : Fresh → String → Steps CapsuleTables String
ensure_workspace_tag fresh id t = provision fresh id t (existing_tag id t)
