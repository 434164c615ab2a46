-- ===== src/Protocol/Approvals.antt =====
-- What the consumption of an approval asks for and leaves, in
-- ogra-desktop/src/core/effect-protocol-service.ts.
use ogra.Prelude.{
  ℕ, suc, ◌<◌, String, ◌≡◌, refl, sym, ap, subst, ◌∙◌, Bool, true, false, not, Option, none, some,
  List, [], ◌∷◌, opt_str_eq, if◌then◌else◌, arith, ltb, select, select-update_where, exists_row,
  update_where, insert_row, Bool-cases, str_eq, eq_iff, inl, inr,
}
use ogra.Durable.Transaction.{Result, ok, Tx, approval_required, database_error}
use ogra.Durable.Effect.{RunEffect, BindingKind, AuditEdge, append_edge, edge_taken, EffectTables}
use ogra.Durable.Effect.Receipt.{binds_attempt}
use ogra.Protocol.{
  ApprovalDecision, pending, approved, denied, expired, ApprovalRow, ProtocolTables, Draw,
  resolve_workspace_id, is_recovery_id,
}
use ogra.Protocol.Consume.{
  has_expired, is_valid_for, of_approval, is_approved, type_allows, approval_is, may_consume, used,
  spend, consume_approval, consume_recovery_approval, bind_approval, approval_binding,
  approval_edge, consumption, consumes, consume_approval_for_callback,
}
use ogra.Protocol.Inversion.{bind_ok, require_ok, row_ok, ok_tables, ok_value}

-- At most one row matches, as the primary key `id` says.
abbrev pub is_single : {A : Type 0} → (A → Bool) → List A → Bool
is_single p [] = true
is_single p (x ∷ xs) = if p x then not (exists_row p xs) else is_single p xs

pub exists_row-weaken :
    {A : Type 0} (p q : A → Bool) (xs : List A)
    → ((x : A) → q x ≡ true → p x ≡ true)
    → exists_row q xs ≡ true
    → exists_row p xs ≡ true
unfolding exists_row
exists_row-weaken p q [] h there = there
exists_row-weaken p q (x ∷ xs) h there =
    let later = exists_row-weaken p q xs h in
    elim (Bool-cases (q x)) [
      | inl hit ↦ ground (arith, h x hit)
      | inr miss ↦ ground (arith, miss, there, later)
    ]

abbrev FoundPasses : {A : Type 0} → (A → Bool) → Option A → Type 0
FoundPasses q none = Unit
FoundPasses q (some a) = q a ≡ true

head_selected :
    {A : Type 0} (p : A → Bool) (x : A) (xs : List A) → p x ≡ true → some x ≡ select p (x ∷ xs)
unfolding select
head_selected p x xs h = ground (arith, h)

-- The row that a key selects is the one that a test of that key found.
single_row :
    {A : Type 0} (p q : A → Bool) (xs : List A) (a : A)
    → ((x : A) → q x ≡ true → p x ≡ true)
    → is_single p xs ≡ true
    → select p xs ≡ some a
    → exists_row q xs ≡ true
    → q a ≡ true
unfolding select exists_row
single_row p q [] a h single found there = absurd (ground (arith, there))
single_row p q (x ∷ xs) a h single found there =
    let later = single_row p q xs a h in
    let weaker = exists_row-weaken p q xs h in
    elim (Bool-cases (q x)) [
      | inl hit ↦ subst (FoundPasses q) (head_selected p x xs (h x hit) ∙ found) hit
      | inr miss ↦
          let there' : exists_row q xs ≡ true = ground (arith, miss, there) in
          let no : p x ≡ false = ground (arith, single, weaker there') in
          later (ground (arith, no, single)) (ground (arith, no, found)) there'
    ]

spend_ok :
    (id : String) (revision : ℕ) (t u : ProtocolTables)
    → spend id revision t ≡ ok (tt, u)
    → (exists_row (may_consume id revision) t.approvals ≡ true)
      × (record t { approvals = update_where (may_consume id revision) used t.approvals } ≡ u)
unfolding spend
spend_ok id revision t u h =
    let (there, h') =
      require_ok (exists_row (may_consume id revision) t.approvals) approval_required _ t tt u h in
    (there, ok_tables tt tt _ u h')

consume_approval_ok :
    (effect : RunEffect) (id : String) (kind : BindingKind) (now : ℕ) (t u : ProtocolTables)
    (revision : ℕ)
    → consume_approval effect id kind now t ≡ ok (revision, u)
    → (a : ApprovalRow) × (select (approval_is id) t.approvals ≡ some a)
      × (is_valid_for effect (resolve_workspace_id effect.run_id t) now (of_approval a) ≡ true)
      × (is_approved a.decision ≡ true)
      × (type_allows kind a.approval_type ≡ true)
      × (spend id a.revision t ≡ ok (tt, u))
      × (a.revision ≡ revision)
unfolding consume_approval
consume_approval_ok effect id kind now t u revision h =
    let (a, found, h1) =
      row_ok (λ v. select (approval_is id) v.approvals) approval_required _ t revision u h in
    let (valid, h2) =
      require_ok (is_valid_for effect (resolve_workspace_id effect.run_id t) now (of_approval a))
        approval_required _ t revision u h1 in
    let (decided, h3) = require_ok (is_approved a.decision) approval_required _ t revision u h2 in
    let (allowed, h4) =
      require_ok (type_allows kind a.approval_type) approval_required _ t revision u h3 in
    let (x, v, spent, h5) = bind_ok (spend id a.revision) _ t revision u h4 in
    (
      a,
      found,
      valid,
      decided,
      allowed,
      spent ∙ ap (λ w. ok (x, w)) (ok_tables _ revision v u h5),
      ok_value _ revision v u h5,
    )

pub str_eq_self : (s : String) → str_eq s s ≡ true
str_eq_self s = (eq_iff s s).1 refl

pub in_else :
    {A : Type 0} (b : Bool) (m n : Tx ProtocolTables A) (t : ProtocolTables)
    (r : Result (A × ProtocolTables))
    → b ≡ false
    → (if b then m else n) t ≡ r
    → n t ≡ r
in_else true m n t r h e = absurd (ground (arith, h))
in_else false m n t r h e = e

append_edge-bindings : (e : AuditEdge) (t : EffectTables) → (append_edge e t).bindings ≡ t.bindings
unfolding append_edge
append_edge-bindings e t = elim (Bool-cases (exists_row (edge_taken e) t.edges)) [
  | inl there ↦ ground (arith, there)
  | inr new ↦ ground (arith, new)
]

pub exists_row-insert_row :
    {A : Type 0} (p : A → Bool) (x : A) (xs : List A)
    → p x ≡ true
    → exists_row p (insert_row x xs) ≡ true
unfolding exists_row insert_row
exists_row-insert_row p x [] h = ground (arith, h)
exists_row-insert_row p x (y ∷ ys) h = ground (arith, exists_row-insert_row p x ys h)

pub bind_approval_ok :
    (effect : RunEffect) (id : String) (attempt revision : ℕ) (kind : BindingKind) (draw : Draw)
    (event_id : String) (t u : ProtocolTables)
    → bind_approval effect id attempt revision kind draw event_id t ≡ ok (tt, u)
    → (exists_row (binds_attempt effect.id attempt) t.ledger.bindings ≡ false)
      × (exists_row (binds_attempt effect.id attempt) u.ledger.bindings ≡ true)
      × (exists_row (consumes id effect.id attempt) u.consumptions ≡ true)
      × (u.approvals ≡ t.approvals)
unfolding bind_approval
bind_approval_ok effect id attempt revision kind draw event_id t u h =
    let (new, h1) =
      require_ok (not (exists_row (binds_attempt effect.id attempt) t.ledger.bindings))
        database_error _ t tt u h in
    let (once, h2) =
      require_ok (not (exists_row (consumes id effect.id attempt) t.consumptions)) database_error _
        _ tt u h1 in
    let bound =
      ap (exists_row (binds_attempt effect.id attempt))
        (append_edge-bindings (approval_edge effect id draw event_id) _)
      ∙ exists_row-insert_row (binds_attempt effect.id attempt)
          (approval_binding effect id attempt revision kind draw event_id) t.ledger.bindings
          (ground (arith, str_eq_self effect.id)) in
    subst
      (λ (w : ProtocolTables).
        (exists_row (binds_attempt effect.id attempt) t.ledger.bindings ≡ false)
        × (exists_row (binds_attempt effect.id attempt) w.ledger.bindings ≡ true)
        × (exists_row (consumes id effect.id attempt) w.consumptions ≡ true)
        × (w.approvals ≡ t.approvals))
      (ok_tables tt tt _ u h2)
      (
        ground (arith, new),
        bound,
        exists_row-insert_row (consumes id effect.id attempt)
            (consumption effect id attempt revision draw event_id) t.consumptions
            (ground (arith, str_eq_self id, str_eq_self effect.id)),
        refl,
      )

-- What `is_valid_for` has compared.
abbrev pub IsFor : RunEffect → String → ApprovalRow → Type 0
IsFor effect workspace a =
    (a.run_id ≡ some effect.run_id)
    × (a.workspace_id ≡ some workspace)
    × (a.effect_id ≡ some effect.id)
    × (a.scope_hash ≡ effect.scope_hash)
    × (a.payload_fingerprint ≡ some effect.payload_fingerprint)
    × (a.policy_version_hash ≡ effect.policy_version_hash)

abbrev pub IsUnexpired : ℕ → Option ℕ → Type 0
IsUnexpired now none = Unit
IsUnexpired now (some at) = now < at

pub opt_str_eq_sound : (a b : Option String) → opt_str_eq a b ≡ true → a ≡ b
opt_str_eq_sound none none h = refl
opt_str_eq_sound none (some b) h = absurd (ground (arith, h))
opt_str_eq_sound (some a) none h = absurd (ground (arith, h))
opt_str_eq_sound (some a) (some b) h = ap some ((eq_iff a b).0 h)

pub not_expired : (now : ℕ) (o : Option ℕ) → not (has_expired now o) ≡ true → IsUnexpired now o
not_expired now none h = tt
not_expired now (some at) h = ground (arith, h)

pub is_approved_sound : (d : ApprovalDecision) → is_approved d ≡ true → d ≡ approved
is_approved_sound approved h = refl
is_approved_sound pending h = absurd (ground (arith, h))
is_approved_sound denied h = absurd (ground (arith, h))
is_approved_sound expired h = absurd (ground (arith, h))

is_valid_for_sound :
    (effect : RunEffect) (workspace : String) (now : ℕ) (a : ApprovalRow)
    → is_valid_for effect workspace now (of_approval a) ≡ true
    → IsFor effect workspace a × IsUnexpired now a.expires_at
unfolding is_valid_for
is_valid_for_sound effect workspace now a h = (
  (
    opt_str_eq_sound a.run_id _ (ground (arith, h)),
    opt_str_eq_sound a.workspace_id _ (ground (arith, h)),
    opt_str_eq_sound a.effect_id _ (ground (arith, h)),
    opt_str_eq_sound a.scope_hash _ (ground (arith, h)),
    opt_str_eq_sound a.payload_fingerprint _ (ground (arith, h)),
    opt_str_eq_sound a.policy_version_hash _ (ground (arith, h)),
  ),
  not_expired now a.expires_at (ground (arith, h)),
)

-- A successful consumption of an approval of the table `approvals`, whose id has not the prefix of a
-- recovery approval and is unique there, found it approved, unexpired, of this run and effect, of a
-- type that allows the callback and with a use left, and the attempt not bound yet; it leaves the
-- row with `uses_consumed` one greater and nothing else of it changed, and the attempt bound and
-- recorded.
pub consumption_takes_one_use :
    (effect : RunEffect) (id : String) (attempt : ℕ) (kind : BindingKind) (draw : Draw)
    (event_id : String) (t u : ProtocolTables)
    → is_recovery_id id ≡ false
    → is_single (approval_is id) t.approvals ≡ true
    → consume_approval_for_callback effect id attempt kind draw event_id t ≡ ok (tt, u)
    → (a : ApprovalRow) × (select (approval_is id) t.approvals ≡ some a)
      × IsFor effect (resolve_workspace_id effect.run_id t) a
      × IsUnexpired draw.now a.expires_at
      × (a.decision ≡ approved)
      × (type_allows kind a.approval_type ≡ true)
      × (ltb a.uses_consumed a.use_limit ≡ true)
      × (select (approval_is id) u.approvals
          ≡ some (record a { uses_consumed = suc a.uses_consumed }))
      × (exists_row (binds_attempt effect.id attempt) t.ledger.bindings ≡ false)
      × (exists_row (binds_attempt effect.id attempt) u.ledger.bindings ≡ true)
      × (exists_row (consumes id effect.id attempt) u.consumptions ≡ true)
unfolding consume_approval_for_callback
consumption_takes_one_use effect id attempt kind draw event_id t u plain single h =
    let (revision, v, e1, h1) =
      bind_ok
        (if is_recovery_id id
          then consume_recovery_approval effect id kind attempt draw.now
          else consume_approval effect id kind draw.now)
        _ t tt u h in
    let (a, found, valid, decided, allowed, spent, same) =
      consume_approval_ok effect id kind draw.now t v revision
        (in_else (is_recovery_id id) _ _ t _ plain e1) in
    let (there, v_is) = spend_ok id a.revision t v spent in
    let (new, bound, recorded, kept) =
      bind_approval_ok effect id attempt revision kind draw event_id v u h1 in
    let may =
      single_row (approval_is id) (may_consume id a.revision) t.approvals a
        (λ x m. ground (arith, m)) single found there in
    let uses : select (approval_is id) u.approvals
        ≡ some (record a { uses_consumed = suc a.uses_consumed }) =
      ap (select (approval_is id)) (kept ∙ sym (ap (λ w. w.approvals) v_is))
      ∙ select-update_where (approval_is id) (may_consume id a.revision) used t.approvals
          (λ x. refl)
      ∙ ground (arith, found, may) in
    (
      a,
      found,
      (is_valid_for_sound effect _ draw.now a valid).0,
      (is_valid_for_sound effect _ draw.now a valid).1,
      is_approved_sound a.decision decided,
      allowed,
      ground (arith, may),
      uses,
      ap (λ w. exists_row (binds_attempt effect.id attempt) w.ledger.bindings) v_is ∙ new,
      bound,
      recorded,
    )
