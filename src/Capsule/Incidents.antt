-- ===== src/Capsule/Incidents.antt =====
-- The incidents of the capsule store: every refusal to open leaves exactly one.
use ogra.Prelude.{
  ℕ, String, ◌≡◌, refl, ap, ◌∙◌, ◌⊎◌, inl, inr, Bool, true, false, Option, none, some, List, [],
  ◌∷◌, map, All, includes, insert_row, Bool-cases,
}
use ogra.Durable.Transaction.{OgraErrorCode, Result, ok, err}
use ogra.Capsule.{
  CapsuleKind, FailureKind, missing, corrupt, expired, wrong_workspace, hash_mismatch,
  decrypt_failed, format_mismatch, unsupported_primitives, detail_by_kind, approved_failure_details,
  safe_failure_detail, safe_failure_ref, CapsuleRow, CapsuleFailure, CapsuleTables, Vault, Fresh,
  Steps, FailureInput, failure_row, record_failure, fail_with, ListedFailure, listed_failure,
  list_failures, existing_tag, provision, ensure_workspace_tag, ◌>>=◌, pure, refuse_if,
  some_or_fail, row_or_fail, proceed,
}
use ogra.Capsule.Open.{open_row, open_by_ref, open_by_effect_with_ref}
use ogra.Capsule.Evidence.{ReceiptClaim, open_result_for_receipt, open_verified_callback_for_effect}

safe_detail-approved :
    (k : FailureKind) (d : String)
    → includes approved_failure_details (safe_failure_detail k d) ≡ true
unfolding safe_failure_detail
safe_detail-approved k d = elim (Bool-cases (includes approved_failure_details d)) [
  | inl good ↦ rw (good, good)
  | inr bad ↦ rw bad (by_kind k)
]
  where
    by_kind : (k : FailureKind) → includes approved_failure_details (detail_by_kind k) ≡ true
    by_kind missing = refl
    by_kind corrupt = refl
    by_kind expired = refl
    by_kind wrong_workspace = refl
    by_kind hash_mismatch = refl
    by_kind decrypt_failed = refl
    by_kind format_mismatch = refl
    by_kind unsupported_primitives = refl

-- What an incident holds: a detail from the closed set, and no reference or the fixed mask.
abbrev pub IsSafe : String → Option String → Type 0
IsSafe detail ref =
    (includes approved_failure_details detail ≡ true) × ((ref ≡ none) ⊎ (ref ≡ some "[redacted]"))

-- One more incident, and the capsules as they were.
abbrev LeavesOne : CapsuleTables → CapsuleTables → Type 0
LeavesOne t after =
    (x : CapsuleFailure) × (after.failures ≡ insert_row x t.failures)
    × IsSafe x.detail x.capsule_ref
    × (after.capsules ≡ t.capsules)

abbrev LeavesNone : CapsuleTables → CapsuleTables → Type 0
LeavesNone t after = (after.failures ≡ t.failures) × (after.capsules ≡ t.capsules)

-- An incident if the call is refused, and none if it gives a value.
abbrev pub Reports : {A : Type 0} → CapsuleTables → Result A × CapsuleTables → Type 0
Reports t (ok a, after) = LeavesNone t after
Reports t (err e, after) = LeavesOne t after

abbrev Reporting : {A : Type 0} → Steps CapsuleTables A → Type 0
Reporting m = (t : CapsuleTables) → Reports t (m t)

safe_ref_masked :
    (r : Option String) → (safe_failure_ref r ≡ none) ⊎ (safe_failure_ref r ≡ some "[redacted]")
unfolding safe_failure_ref
safe_ref_masked none = inl refl
safe_ref_masked (some r) = inr refl

fail_with-Reporting :
    (A : Type 0) (fresh : Fresh) (input : FailureInput) (e : OgraErrorCode)
    → Reporting (fail_with {A = A} fresh input e)
unfolding record_failure
fail_with-Reporting A fresh input e t = (
  failure_row fresh input,
  refl,
  (safe_detail-approved input.failure_kind input.detail, safe_ref_masked input.capsule_ref),
  refl,
)

refuse_if-Reporting :
    (b : Bool) (fresh : Fresh) (input : FailureInput) (e : OgraErrorCode)
    → Reporting (refuse_if b fresh input e)
refuse_if-Reporting true fresh input e t = fail_with-Reporting (Unit {0}) fresh input e t
refuse_if-Reporting false fresh input e t = (refl, refl)

some_or_fail-Reporting :
    {A : Type 0} (o : Option A) (fresh : Fresh) (input : FailureInput) (e : OgraErrorCode)
    → Reporting (some_or_fail o fresh input e)
some_or_fail-Reporting {A = A} none fresh input e t = fail_with-Reporting A fresh input e t
some_or_fail-Reporting (some a) fresh input e t = (refl, refl)

provision-Reports :
    (fresh : Fresh) (id : String) (t : CapsuleTables) (o : Option String)
    → Reports t (provision fresh id t o)
provision-Reports fresh id t (some tag) = (refl, refl)
provision-Reports fresh id t none = (refl, refl)

ensure_workspace_tag-Reporting :
    (fresh : Fresh) (id : String) → Reporting (ensure_workspace_tag fresh id)
unfolding ensure_workspace_tag
ensure_workspace_tag-Reporting fresh id t = provision-Reports fresh id t (existing_tag id t)

proceed-Reports :
    {A B : Type 0} (f : A → Steps CapsuleTables B) (t : CapsuleTables)
    (r : Result A × CapsuleTables)
    → Reports t r
    → ((a : A) → Reporting (f a))
    → Reports t (proceed f r)
proceed-Reports f t (err e, u) h k = h
proceed-Reports {B = B} f t (ok a, u) (fails, caps) k = after_none (f a u) (k a u)
  where
    after_none : (r : Result B × CapsuleTables) → Reports u r → Reports t r
    after_none (ok b, v) (fails', caps') = (fails' ∙ fails, caps' ∙ caps)
    after_none (err e, v) (x, one, safe, caps') =
        (x, one ∙ ap (insert_row x) fails, safe, caps' ∙ caps)

bind-Reporting :
    {A B : Type 0} (m : Steps CapsuleTables A) (f : A → Steps CapsuleTables B)
    → Reporting m
    → ((a : A) → Reporting (f a))
    → Reporting (m >>= f)
bind-Reporting m f h k t = proceed-Reports f t (m t) (h t) k

pure-Reporting : {A : Type 0} (a : A) → Reporting (pure a)
pure-Reporting a t = (refl, refl)

row_or_fail-Reporting :
    {A : Type 0} (f : CapsuleTables → Option A) (fresh : Fresh) (input : FailureInput)
    (e : OgraErrorCode)
    → Reporting (row_or_fail f fresh input e)
row_or_fail-Reporting f fresh input e t = some_or_fail-Reporting (f t) fresh input e t

ruleset reporting = (
  bind-Reporting, pure-Reporting, refuse_if-Reporting, some_or_fail-Reporting,
  row_or_fail-Reporting, ensure_workspace_tag-Reporting,
)

module _ (V : Vault) where
  open_row-Reporting : (row : CapsuleRow) (fresh : Fresh) → Reporting (open_row V row fresh)
  unfolding open_row
  open_row-Reporting row fresh = search (reporting) depth 20

  open_by_ref-Reporting :
      (ref : String) (attempt : Option ℕ) (fresh : Fresh)
      → Reporting (open_by_ref V ref attempt fresh)
  unfolding open_by_ref
  open_by_ref-Reporting ref attempt fresh = search (reporting, open_row-Reporting) depth 20

  open_by_effect_with_ref-Reporting :
      (effect_id : String) (kind : CapsuleKind) (attempt : ℕ) (fresh : Fresh)
      → Reporting (open_by_effect_with_ref V effect_id kind attempt fresh)
  unfolding open_by_effect_with_ref
  open_by_effect_with_ref-Reporting effect_id kind attempt fresh =
      search (reporting, open_row-Reporting) depth 20

  open_result_for_receipt-Reporting :
      (c : ReceiptClaim) (fresh : Fresh) → Reporting (open_result_for_receipt V c fresh)
  unfolding open_result_for_receipt
  open_result_for_receipt-Reporting c fresh = search (reporting, open_row-Reporting) depth 20

  open_verified-Reporting :
      (effect_id : String) (attempt : ℕ) (expected : String) (fresh : Fresh)
      → Reporting (open_verified_callback_for_effect V effect_id attempt expected fresh)
  unfolding open_verified_callback_for_effect
  open_verified-Reporting effect_id attempt expected fresh =
      search (reporting, open_by_effect_with_ref-Reporting) depth 20

  -- Opening a capsule, whether by its reference, as the result that a receipt claims or as the
  -- callback of an effect, changes no capsule and leaves no incident if it succeeds. If it is
  -- refused it leaves exactly one, with a detail from the closed set and a masked reference.
  pub refusal_leaves_incident :
      (ref effect_id expected : String) (attempt : ℕ) (c : ReceiptClaim) (fresh : Fresh)
      (t : CapsuleTables)
      → Reports t (open_by_ref V ref (some attempt) fresh t)
        × Reports t (open_result_for_receipt V c fresh t)
        × Reports t (open_verified_callback_for_effect V effect_id attempt expected fresh t)
  refusal_leaves_incident ref effect_id expected attempt c fresh t = (
    open_by_ref-Reporting ref (some attempt) fresh t,
    open_result_for_receipt-Reporting c fresh t,
    open_verified-Reporting effect_id attempt expected fresh t,
  )

All-listed_failure :
    (rs : List CapsuleFailure)
    → All (λ (r : ListedFailure). IsSafe r.detail r.capsule_ref) (map listed_failure rs)
All-listed_failure [] = tt
All-listed_failure (r ∷ rs) = (
  (safe_detail-approved r.failure_kind r.detail, safe_ref_masked r.capsule_ref),
  All-listed_failure rs,
)

-- Whatever the table of incidents holds, old rows with free text included, `listFailures` returns
-- only details from the closed set, and for the reference nothing or the mask `[redacted]`.
pub list_failures-IsSafe :
    (effect_id : String) (t : CapsuleTables)
    → All (λ (r : ListedFailure). IsSafe r.detail r.capsule_ref) (list_failures effect_id t)
unfolding list_failures
list_failures-IsSafe effect_id t = All-listed_failure _
