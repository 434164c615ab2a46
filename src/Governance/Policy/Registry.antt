-- ===== src/Governance/Policy/Registry.antt =====
-- The policies that a `PolicyService` is built with: `initializeDefaultPolicies`, `addPolicy`.
use ogra.Prelude.{
  String, Bool, true, false, Option, none, some, List, [], ◌∷◌, ◌≡◌, refl, str_eq, if◌then◌else◌,
}
use ogra.Governance.Classification.{Classification, public, internal, confidential, restricted}
use ogra.Governance.Policy.Types.{Compute}

pub record PolicyMatch : Type 0 where
  pub data_classification : Option Classification
  pub requested_compute : Option Compute

pub record PolicyRoute : Type 0 where
  pub allowed_compute : Option Compute
  pub cloud_upload : Option Bool
  pub require_redaction_preview : Option Bool
  pub require_user_approval : Option Bool
  pub allowed_models : Option (List String)

pub record PolicyRule : Type 0 where
  pub name : String
  pub match : PolicyMatch
  pub route : PolicyRoute

abbrev pub Policies : Type 0
Policies = List (String × List PolicyRule)

-- `this.policies.set(name, [rule])`
abbrev pub add_policy : String → PolicyRule → Policies → Policies
add_policy name rule [] = (name, rule ∷ []) ∷ []
add_policy name rule ((k, rules) ∷ ps) =
    if str_eq k name then (k, rule ∷ []) ∷ ps else (k, rules) ∷ add_policy name rule ps

-- The test of `this.policies.get(name)`.
abbrev pub has_policy : String → Policies → Bool
has_policy name [] = false
has_policy name ((k, rules) ∷ ps) = if str_eq k name then true else has_policy name ps

abbrev no_route : PolicyRoute
no_route = record {
  allowed_compute = none;
  cloud_upload = none;
  require_redaction_preview = none;
  require_user_approval = none;
  allowed_models = none;
}

abbrev confidential_rule : PolicyRule
confidential_rule = record {
  name = "confidential-local-only";
  match = record { data_classification = some confidential; requested_compute = none };
  route = record no_route { allowed_compute = some Compute.local; cloud_upload = some false };
}

abbrev restricted_rule : PolicyRule
restricted_rule = record {
  name = "restricted-local-allowlist";
  match = record { data_classification = some restricted; requested_compute = none };
  route = record no_route {
    allowed_compute = some Compute.local;
    allowed_models = some ("local:qwen" ∷ "local:llama" ∷ []);
    cloud_upload = some false;
  };
}

abbrev internal_rule : PolicyRule
internal_rule = record {
  name = "internal-redacted-cloud";
  match = record { data_classification = some internal; requested_compute = some Compute.cloud };
  route = record no_route {
    require_redaction_preview = some true;
    require_user_approval = some true;
  };
}

abbrev public_rule : PolicyRule
public_rule = record {
  name = "public-cloud-allowed";
  match = record { data_classification = some public; requested_compute = some Compute.cloud };
  route = record no_route { allowed_compute = some Compute.cloud };
}

unfoldable pub default_policies : Policies
default_policies = add_policy "public-cloud-allowed" public_rule (
    add_policy "internal-redacted-cloud" internal_rule (
      add_policy "restricted-local-allowlist" restricted_rule
        (add_policy "confidential-local-only" confidential_rule [])))

-- Each of the four names that `evaluate` asks for is registered.
pub default_policies_complete :
    (has_policy "restricted-local-allowlist" default_policies ≡ true)
    × (has_policy "confidential-local-only" default_policies ≡ true)
    × (has_policy "internal-redacted-cloud" default_policies ≡ true)
    × (has_policy "public-cloud-allowed" default_policies ≡ true)
unfolding default_policies
default_policies_complete = (refl, refl, refl, refl)
