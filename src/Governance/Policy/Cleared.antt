-- ===== src/Governance/Policy/Cleared.antt =====
-- The sections of `evaluate` before the tiers: each returns only by blocking, and what they have
-- checked of a run that they let through.
use ogra.Prelude.{
  String, ◌≡◌, refl, Bool, true, false, not, ◌&&◌, Option, none, some, List, [], ◌∷◌, All, includes,
  is_empty, is_some, arith, if◌then◌else◌, Option-cases, ◌⊎◌, inl, inr,
}
use ogra.Governance.Policy.Types.{
  Decision, RouteName, AgentPermissions, ToolsValue, Manifest, parsed, malformed, falsy, array,
  not_array, PolicyInput, Evaluation,
}
use ogra.Governance.Policy.Flow.{Flow, returned, next, ◌>>=◌, begin, wants_cloud}
use ogra.Governance.Policy.Gates.{
  apply_high_water, check_injection, manifest_tools, require_declared, check_declared,
  check_manifest_json, check_manifest, require_allowed, check_cloud_permission, check_allowed_tools,
  check_network, check_permissions,
}

-- A section that has returned has blocked; one that goes on has left the route local, and
-- has established `P`.
abbrev pub Gate : Type 0 → Flow → Type 0
Gate P (returned e) = (e.decision ≡ Decision.blocked) × (e.route ≡ RouteName.blocked)
Gate P (next e) = (e.route ≡ RouteName.local) × P

pub Gate->>= :
    {P : Type 0} (Q : Type 0) (m : Flow) (f : Evaluation → Flow)
    → Gate P m
    → ((e : Evaluation) → e.route ≡ RouteName.local → P → Gate Q (f e))
    → Gate Q (m >>= f)
Gate->>= Q (returned e) f g h = g
Gate->>= Q (next e) f g h = h e g.0 g.1

Gate-map : {P : Type 0} (Q : Type 0) (m : Flow) → (P → Q) → Gate P m → Gate Q m
Gate-map Q (returned e) f g = g
Gate-map Q (next e) f g = (g.0, f g.1)

Gate-if :
    (P : Type 0) (b : Bool) (m n : Flow)
    → (b ≡ true → Gate P m)
    → (b ≡ false → Gate P n)
    → Gate P (if b then m else n)
Gate-if P true m n f g = f refl
Gate-if P false m n f g = g refl

apply_high_water-Gate :
    (i : PolicyInput) (e : Evaluation)
    → e.route ≡ RouteName.local
    → Gate (Unit {0}) (apply_high_water i e)
unfolding apply_high_water
apply_high_water-Gate i e h = ground arith

abbrev pub IsClean : PolicyInput → Type 0
IsClean i = i.has_prompt_injection_warning ≡ true → wants_cloud i ≡ false

check_injection-Gate :
    (i : PolicyInput) (e : Evaluation)
    → e.route ≡ RouteName.local
    → Gate (IsClean i) (check_injection i e)
unfolding check_injection
check_injection-Gate i e h = ground arith

abbrev DeclaresIn : ToolsValue → List String → Type 0
DeclaresIn (array declared) tools = All (λ t. includes declared t ≡ true) tools
DeclaresIn _ tools = ⊥

-- The manifest is an object that lists all of the tools.
abbrev pub Declares : Option Manifest → List String → Type 0
Declares (some (parsed caps tools)) requested = DeclaresIn (manifest_tools caps tools) requested
Declares _ requested = ⊥

-- Every requested tool is one that the manifest declares.
abbrev pub MayUse : PolicyInput → Type 0
MayUse i = (i.requested_tools ≡ []) ⊎ Declares i.agent_manifest i.requested_tools

require_declared-Gate :
    (declared requested : List String) (e : Evaluation)
    → e.route ≡ RouteName.local
    → Gate (All (λ t. includes declared t ≡ true) requested) (require_declared declared requested e)
unfolding require_declared
require_declared-Gate declared [] e h = (h, tt)
require_declared-Gate declared (t ∷ ts) e h =
    Gate-if _ (includes declared t) _ _
      (λ found.
        Gate-map _ (require_declared declared ts e) (λ all. (found, all))
          (require_declared-Gate declared ts e h))
      (λ _. (refl, refl))

check_declared-Gate :
    (v : ToolsValue) (requested : List String) (e : Evaluation)
    → e.route ≡ RouteName.local
    → Gate (DeclaresIn v requested) (check_declared v requested e)
unfolding check_declared
check_declared-Gate falsy requested e h = (refl, refl)
check_declared-Gate (array []) requested e h = (refl, refl)
check_declared-Gate (array (d ∷ ds)) requested e h = require_declared-Gate (d ∷ ds) requested e h
check_declared-Gate not_array requested e h = (refl, refl)

check_manifest_json-Gate :
    (m : Manifest) (requested : List String) (e : Evaluation)
    → e.route ≡ RouteName.local
    → Gate (Declares (some m) requested) (check_manifest_json m requested e)
unfolding check_manifest_json
check_manifest_json-Gate malformed requested e h = (refl, refl)
check_manifest_json-Gate (parsed caps tools) requested e h =
    check_declared-Gate (manifest_tools caps tools) requested e h

check_manifest-Gate :
    (i : PolicyInput) (e : Evaluation)
    → e.route ≡ RouteName.local
    → Gate (MayUse i) (check_manifest i e)
unfolding check_manifest
check_manifest-Gate i e h = elim (Option-cases i.agent_manifest) [
  | inl missing ↦ ground arith
  | inr (m, given) ↦
      Gate-if _ (is_empty i.requested_tools) _ _ (λ empty. (h, inl (ground arith)))
        (λ _.
          rw (given, MayUse)
            (Gate-if _ (is_some i.agent_permissions) _ _
              (λ _.
                Gate-map _ (check_manifest_json m i.requested_tools e) inr
                  (check_manifest_json-Gate m i.requested_tools e h))
              (λ _. (refl, refl))))
]

abbrev AllowsIn : Option (List String) → List String → Type 0
AllowsIn none tools = Unit
AllowsIn (some allowed) tools = All (λ t. includes allowed t ≡ true) tools

-- The agent may use the cloud if the run asks for it, and all of the tools.
abbrev pub Permits : PolicyInput → Option AgentPermissions → Type 0
Permits i none = Unit
Permits i (some p) =
    (wants_cloud i ≡ true → p.can_use_cloud ≡ true) × AllowsIn p.allowed_tools i.requested_tools

require_allowed-Gate :
    (allowed requested : List String) (e : Evaluation)
    → e.route ≡ RouteName.local
    → Gate (All (λ t. includes allowed t ≡ true) requested) (require_allowed allowed requested e)
unfolding require_allowed
require_allowed-Gate allowed [] e h = (h, tt)
require_allowed-Gate allowed (t ∷ ts) e h =
    Gate-if _ (includes allowed t) _ _
      (λ found.
        Gate-map _ (require_allowed allowed ts e) (λ all. (found, all))
          (require_allowed-Gate allowed ts e h))
      (λ _. (refl, refl))

pub check_allowed_tools-Gate :
    (i : PolicyInput) (p : AgentPermissions) (e : Evaluation)
    → e.route ≡ RouteName.local
    → Gate (AllowsIn p.allowed_tools i.requested_tools) (check_allowed_tools i p e)
unfolding check_allowed_tools
check_allowed_tools-Gate i p e h = elim (Option-cases p.allowed_tools) [
  | inl free ↦ rw (free, AllowsIn) (h, tt)
  | inr (allowed, given) ↦ rw (given, AllowsIn) (require_allowed-Gate allowed i.requested_tools e h)
]

pub check_cloud_permission-Gate :
    (i : PolicyInput) (p : AgentPermissions) (e : Evaluation)
    → e.route ≡ RouteName.local
    → Gate (wants_cloud i ≡ true → p.can_use_cloud ≡ true) (check_cloud_permission i p e)
unfolding check_cloud_permission
check_cloud_permission-Gate i p e h =
    Gate-if _ (not p.can_use_cloud && wants_cloud i) _ _ (λ _. (refl, refl))
      (λ free. (h, ground arith))

check_network-Gate :
    (i : PolicyInput) (p : AgentPermissions) (e : Evaluation)
    → e.route ≡ RouteName.local
    → Gate (Unit {0}) (check_network i p e)
unfolding check_network
check_network-Gate i p e h = ground arith

check_permissions-Gate :
    (i : PolicyInput) (e : Evaluation)
    → e.route ≡ RouteName.local
    → Gate (Permits i i.agent_permissions) (check_permissions i e)
unfolding check_permissions check_cloud_permission check_allowed_tools check_network
check_permissions-Gate i e h = elim (Option-cases i.agent_permissions) [
  | inl nobody ↦ rw (nobody, Permits) (h, tt)
  | inr (p, given) ↦
      rw (given, Permits)
        (Gate->>= _ (check_cloud_permission i p e) _ (check_cloud_permission-Gate i p e h)
          (λ e' h' cloud.
            Gate->>= _ (check_allowed_tools i p e') _ (check_allowed_tools-Gate i p e' h')
              (λ e'' h'' tools.
                Gate-map _ (check_network i p e'') (λ _. (cloud, tools))
                  (check_network-Gate i p e'' h''))))
]

-- What the sections before the tiers have established when they let a run through.
abbrev pub IsCleared : PolicyInput → Type 0
IsCleared i = IsClean i × MayUse i × Permits i i.agent_permissions

-- The sections before the agent's permissions.
pub manifest-Gate :
    (i : PolicyInput)
    → Gate
        (IsClean i × MayUse i)
        (apply_high_water i begin >>= check_injection i >>= check_manifest i)
manifest-Gate i =
    Gate->>= (IsClean i × MayUse i) (apply_high_water i begin >>= check_injection i) _
      (Gate->>= (IsClean i) (apply_high_water i begin) _ (apply_high_water-Gate i begin refl)
        (λ e h _. check_injection-Gate i e h))
      (λ e h c. Gate-map _ (check_manifest i e) (λ m. (c, m)) (check_manifest-Gate i e h))

pub gates-Gate :
    (i : PolicyInput)
    → Gate (IsCleared i) (
        apply_high_water i begin >>= check_injection i >>= check_manifest i >>= check_permissions i)
gates-Gate i =
    Gate->>= _ (apply_high_water i begin >>= check_injection i >>= check_manifest i) _
      (manifest-Gate i)
      (λ e h c.
        Gate-map _ (check_permissions i e) (λ p. (c.0, c.1, p)) (check_permissions-Gate i e h))
