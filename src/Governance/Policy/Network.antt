-- ===== src/Governance/Policy/Network.antt =====
-- The approval that `evaluate` asks for when an agent may use the network.
use ogra.Prelude.{
  ◌≡◌, refl, sym, subst, ◌⊎◌, inl, inr, Bool, true, false, not, ◌&&◌, ◌||◌, Option, none, some,
  List, [], ◌∷◌, ◌++◌, arith, Bool-cases, Option-cases,
}
use ogra.Governance.Classification.{
  Classification, public, internal, confidential, restricted, unrecognized,
}
use ogra.Governance.Policy.Types.{
  allow, RouteName, AgentPermissions, MatchedRule, Reason, PolicyInput, Approval, Evaluation,
}
use ogra.Governance.Policy.Flow.{Flow, returned, next, ◌>>=◌, result, begin, decide, note, is_local}
use ogra.Governance.Policy.Registry.{default_policies}
use ogra.Governance.Policy.Cleared.{
  Gate, check_cloud_permission-Gate, check_allowed_tools-Gate, manifest-Gate,
}
use ogra.Governance.Policy.Gates.{
  effective_classification, apply_high_water, check_injection, check_manifest,
  check_cloud_permission, check_allowed_tools, check_network, check_permissions,
}
use ogra.Governance.Policy.Evaluate.{
  restricted_tier, confidential_tier, internal_tier, public_tier, is_indefinite, opted_in,
  public_extra, public_provider, classify, finish, evaluate,
}

abbrev pub is_network : Approval → Bool
is_network Approval.allow_agent_network = true
is_network _ = false

-- The approval of the agent's network access is among the approvals.
abbrev pub names_network : List Approval → Bool
names_network [] = false
names_network (a ∷ as_) = is_network a || names_network as_

abbrev Named : Evaluation → Type 0
Named e = names_network e.required_approvals ≡ true

names-append :
    (xs : List Approval) (a : Approval)
    → names_network xs ≡ true
    → names_network (xs ++ a ∷ []) ≡ true
names-append [] a h = absurd (ground (arith, h))
names-append (x ∷ xs) a h = elim (Bool-cases (is_network x)) [
  | inl own ↦ ground (arith, own)
  | inr other ↦ ground (arith, other, names-append xs a (ground (arith, h, other)))
]

names-added : (xs : List Approval) → names_network (xs ++ Approval.allow_agent_network ∷ []) ≡ true
names-added [] = refl
names-added (x ∷ xs) = ground (arith, names-added xs)

finish-Named : (e : Evaluation) → Named e → Named (result (finish e))
unfolding finish
finish-Named e h = ground (arith, h)

-- The tiers keep the approval, whatever they decide.
public_extra-Named :
    (asks ok : Bool) (m : MatchedRule) (r : Reason) (a : Approval) (done : Reason) (e : Evaluation)
    → Named e
    → Named (result (public_extra asks ok m r a done e))
unfolding public_extra
public_extra-Named false ok m r a done e h = h
public_extra-Named true true m r a done e h = names-append e.required_approvals a h
public_extra-Named true false m r a done e h = names-append e.required_approvals a h

bind-Named :
    (m : Flow) (f : Evaluation → Flow)
    → Named (result m)
    → ((e : Evaluation) → Named e → Named (result (f e)))
    → Named (result (m >>= f))
bind-Named (returned e) f h k = h
bind-Named (next e) f h k = k e h

abbrev retention : PolicyInput → Evaluation → Flow
retention i e =
    public_extra (is_indefinite i.provider_data_retention_policy) i.has_user_approval
      MatchedRule.provider_retention_indefinite Reason.public_retention_approval
      Approval.allow_indefinite_retention_cloud Reason.public_retention_approved e

abbrev training : PolicyInput → Evaluation → Flow
training i e =
    public_extra (opted_in i.provider_training_opt_out) i.has_user_approval
      MatchedRule.provider_training_public_restriction Reason.public_training_approval
      Approval.allow_training_cloud Reason.public_training_approved e

abbrev allowed : Evaluation → Flow
allowed e = returned (decide allow RouteName.cloud e)

public_provider-Named :
    (i : PolicyInput) (e : Evaluation) → Named e → Named (result (public_provider i e))
unfolding public_provider
public_provider-Named i e h =
    bind-Named (retention i e) (λ e'. training i e' >>= allowed)
      (public_extra-Named (is_indefinite i.provider_data_retention_policy) i.has_user_approval
        MatchedRule.provider_retention_indefinite Reason.public_retention_approval
        Approval.allow_indefinite_retention_cloud Reason.public_retention_approved e h)
      (λ e' h'.
        bind-Named (training i e') allowed
          (public_extra-Named (opted_in i.provider_training_opt_out) i.has_user_approval
            MatchedRule.provider_training_public_restriction Reason.public_training_approval
            Approval.allow_training_cloud Reason.public_training_approved e' h')
          (λ e'' h''. h''))

public_tier-Named :
    (i : PolicyInput) (e : Evaluation) → Named e → Named (result (public_tier default_policies i e))
unfolding public_tier default_policies
public_tier-Named i e h = ground (
  arith,
  h,
  public_provider-Named i (note MatchedRule.public_cloud_allowed Reason.public_cloud e) h,
)

internal_tier-Named :
    (i : PolicyInput) (e : Evaluation)
    → Named e
    → Named (result (internal_tier default_policies i e))
unfolding internal_tier default_policies
internal_tier-Named i e h = ground (
  arith,
  h,
  names-append e.required_approvals Approval.allow_internal_redacted_cloud h,
  names-append e.required_approvals Approval.allow_provider_retention_cloud h,
)

confidential_tier-Named :
    (i : PolicyInput) (e : Evaluation)
    → Named e
    → Named (result (confidential_tier default_policies i e))
unfolding confidential_tier default_policies
confidential_tier-Named i e h =
    ground
      (arith, h, names-append e.required_approvals Approval.allow_confidential_redacted_cloud h)

restricted_tier-Named :
    (i : PolicyInput) (e : Evaluation)
    → Named e
    → Named (result (restricted_tier default_policies i e))
unfolding restricted_tier default_policies
restricted_tier-Named i e h = ground (arith, h)

classify-Named :
    (i : PolicyInput) (c : Option Classification) (e : Evaluation)
    → Named e
    → Named (result (classify default_policies i c e))
unfolding classify
classify-Named i (some public) e h = public_tier-Named i e h
classify-Named i (some internal) e h = internal_tier-Named i e h
classify-Named i (some confidential) e h = confidential_tier-Named i e h
classify-Named i (some restricted) e h = restricted_tier-Named i e h
classify-Named i (some (unrecognized s)) e h = h
classify-Named i none e h = h

-- A section that has returned has blocked; one that goes on has asked for the approval.
abbrev Asks : Flow → Type 0
Asks (returned e) = e.route ≡ RouteName.blocked
Asks (next e) = Named e

Asks->>= :
    (P : Type 0) (m : Flow) (f : Evaluation → Flow)
    → Gate P m
    → ((e : Evaluation) → e.route ≡ RouteName.local → Asks (f e))
    → Asks (m >>= f)
Asks->>= P (returned e) f g h = g.1
Asks->>= P (next e) f g h = h e g.0

check_network-Asks :
    (i : PolicyInput) (p : AgentPermissions) (e : Evaluation)
    → (p.can_access_network && not (is_local i.requested_compute)) ≡ true
    → Asks (check_network i p e)
unfolding check_network
check_network-Asks i p e needs = elim (Bool-cases i.has_user_approval) [
  | inl given ↦ ground (arith, needs, given, names-added e.required_approvals)
  | inr missing ↦ ground (arith, needs, missing, names-added e.required_approvals)
]

check_permissions-Asks :
    (i : PolicyInput) (p : AgentPermissions) (e : Evaluation)
    → i.agent_permissions ≡ some p
    → (p.can_access_network && not (is_local i.requested_compute)) ≡ true
    → e.route ≡ RouteName.local
    → Asks (check_permissions i e)
unfolding check_permissions
check_permissions-Asks i p e given needs h =
    let agent : Asks
        (check_cloud_permission i p e >>= λ e'. check_allowed_tools i p e' >>= check_network i p) =
      Asks->>= _ (check_cloud_permission i p e) _ (check_cloud_permission-Gate i p e h) (λ e' h'.
        Asks->>= _ (check_allowed_tools i p e') _ (check_allowed_tools-Gate i p e' h')
          (λ e'' h''. check_network-Asks i p e'' needs)) in
    subst
      (λ (o : Option AgentPermissions). Asks (elim o [
        | none ↦ next e
        | some q ↦
            check_cloud_permission i q e >>= λ e'. check_allowed_tools i q e' >>= check_network i q
      ]))
      (sym given) agent

-- What the network section leaves: nothing to ask for, a blocked run, or the approval among those
-- that are required.
abbrev pub NetworkAsked : PolicyInput → Option AgentPermissions → Evaluation → Type 0
NetworkAsked i none e = Unit
NetworkAsked i (some p) e =
    ((p.can_access_network && not (is_local i.requested_compute)) ≡ false)
    ⊎ ((e.route ≡ RouteName.blocked) ⊎ (names_network e.required_approvals ≡ true))

after_gates-Named :
    (i : PolicyInput) (m : Flow)
    → Asks m
    → let e = result (m >>= classify default_policies i (effective_classification i) >>= finish) in
      (e.route ≡ RouteName.blocked) ⊎ (names_network e.required_approvals ≡ true)
after_gates-Named i (returned e) h = inl h
after_gates-Named i (next e) h = inr (
    bind-Named (classify default_policies i (effective_classification i) e) finish
      (classify-Named i (effective_classification i) e h) finish-Named)

pub evaluate-NetworkAsked :
    (i : PolicyInput) → NetworkAsked i i.agent_permissions (evaluate default_policies i)
unfolding evaluate
evaluate-NetworkAsked i = elim (Option-cases i.agent_permissions) [
  | inl nobody ↦ subst (λ o. NetworkAsked i o (evaluate default_policies i)) (sym nobody) tt
  | inr (p, given) ↦
      subst (λ o. NetworkAsked i o (evaluate default_policies i)) (sym given)
        (elim (Bool-cases (p.can_access_network && not (is_local i.requested_compute))) [
          | inr free ↦ inl free
          | inl needs ↦ inr (
              after_gates-Named i _ (
                Asks->>= _ (apply_high_water i begin >>= check_injection i >>= check_manifest i) _
                  (manifest-Gate i) (λ e h. check_permissions-Asks i p e given needs h)))
        ])
]
