-- ===== src/Protocol/Quiet.antt =====
-- The moves of the protocol, and rules for code that leaves the effects as they are or moves them
-- once.
use ogra.Prelude.{
  ℕ, ◌+◌, String, ◌≡◌, refl, sym, ap, subst, ◌∙◌, ◌⊎◌, inl, inr, Bool, true, false, ◌&&◌, ◌||◌,
  Option, none, some, List, str_eq, select-update_where, exists_row, arith, Bool-cases,
  if◌then◌else◌,
}
use ogra.Durable.Transaction.{
  OgraErrorCode, revision_conflict, Result, ok, err, Tx, ◌>>=◌, require, require_some, gets, modify,
}
use ogra.Durable.Effect.{
  EffectState, planned, in_flight, received, committed, cancelled_before_send, state_eq, RunEffect,
  EffectTables, with_id, find_effect, AuditEdge, BindingKind, edge_taken, append_edge,
}
use ogra.Capsule.{CapsuleTables, Steps}
use ogra.Protocol.{
  ProtocolTables, Draw, on_ledger, cas_effect, keep_vault, in_vault, lift, update_effects,
}
use ogra.Protocol.Consume.{
  spend, spend_recovery, consume_approval, consume_recovery_approval, bind_approval,
  consume_approval_for_callback,
}

-- The moves of the protocol.
unfoldable pub protocol_edge : EffectState → EffectState → Bool
protocol_edge from to =
    (state_eq from planned && (state_eq in_flight to || state_eq cancelled_before_send to))
    || (state_eq from EffectState.unknown && state_eq in_flight to)
    || (state_eq from in_flight && (state_eq received to || state_eq EffectState.unknown to))
    || (state_eq from received && state_eq committed to)

-- One move of an effect: an edge, the next revision, and what identifies the effect as it was.
abbrev pub Moved : RunEffect → RunEffect → Type 0
Moved e e' =
    (protocol_edge e.state e'.state ≡ true)
    × (e'.effect_revision ≡ e.effect_revision + 1)
    × (e'.run_id ≡ e.run_id)
    × (e'.owner_frame_id ≡ e.owner_frame_id)
    × (e'.payload_fingerprint ≡ e.payload_fingerprint)
    × (e'.capsule_fingerprint ≡ e.capsule_fingerprint)
    × (e'.idempotency_key_hash ≡ e.idempotency_key_hash)

-- Every effect is there afterwards, as it was or moved once.
abbrev pub Follows : List RunEffect → List RunEffect → Type 0
Follows before after =
    (id : String) (e : RunEffect)
    → find_effect id before ≡ some e
    → (e' : RunEffect) × (find_effect id after ≡ some e') × ((e' ≡ e) ⊎ Moved e e')

abbrev pub QuietAt : {A : Type 0} → ProtocolTables → Result (A × ProtocolTables) → Type 0
QuietAt t (ok (a, u)) = u.ledger.effects ≡ t.ledger.effects
QuietAt t (err e) = Unit

-- Code that leaves the effects as they are.
abbrev pub Quiet : {A : Type 0} → Tx ProtocolTables A → Type 0
Quiet m = (t : ProtocolTables) → QuietAt t (m t)

abbrev pub MovesAt : {A : Type 0} → ProtocolTables → Result (A × ProtocolTables) → Type 0
MovesAt t (ok (a, u)) = Follows t.ledger.effects u.ledger.effects
MovesAt t (err e) = Unit

-- Code in which each effect moves at most once.
abbrev pub Moving : {A : Type 0} → Tx ProtocolTables A → Type 0
Moving m = (t : ProtocolTables) → MovesAt t (m t)

after-Quiet :
    {A B : Type 0} (f : A → Tx ProtocolTables B) (t : ProtocolTables)
    (r : Result (A × ProtocolTables))
    → QuietAt t r
    → ((a : A) → Quiet (f a))
    → QuietAt t (elim r [ ok (a, u) ↦ f a u | err e ↦ err e ])
after-Quiet f t (err e) h k = tt
after-Quiet {B = B} f t (ok (a, u)) h k = onward (f a u) (k a u)
  where
    onward : (r : Result (B × ProtocolTables)) → QuietAt u r → QuietAt t r
    onward (ok (b, v)) h' = h' ∙ h
    onward (err e) h' = tt

pub bind-Quiet :
    {A B : Type 0} (m : Tx ProtocolTables A) (f : A → Tx ProtocolTables B)
    → Quiet m
    → ((a : A) → Quiet (f a))
    → Quiet (m >>= f)
bind-Quiet m f h k t = after-Quiet f t (m t) (h t) k

quiet_then-Moving :
    {A B : Type 0} (f : A → Tx ProtocolTables B) (t : ProtocolTables)
    (r : Result (A × ProtocolTables))
    → QuietAt t r
    → ((a : A) → Moving (f a))
    → MovesAt t (elim r [ ok (a, u) ↦ f a u | err e ↦ err e ])
quiet_then-Moving f t (err e) h k = tt
quiet_then-Moving {B = B} f t (ok (a, u)) h k = onward (f a u) (k a u)
  where
    onward : (r : Result (B × ProtocolTables)) → MovesAt u r → MovesAt t r
    onward (ok (b, v)) h' = subst (λ (es : List RunEffect). Follows es v.ledger.effects) h h'
    onward (err e) h' = tt

pub bind-Quiet-Moving :
    {A B : Type 0} (m : Tx ProtocolTables A) (f : A → Tx ProtocolTables B)
    → Quiet m
    → ((a : A) → Moving (f a))
    → Moving (m >>= f)
bind-Quiet-Moving m f h k t = quiet_then-Moving f t (m t) (h t) k

moving_then-Quiet :
    {A B : Type 0} (f : A → Tx ProtocolTables B) (t : ProtocolTables)
    (r : Result (A × ProtocolTables))
    → MovesAt t r
    → ((a : A) → Quiet (f a))
    → MovesAt t (elim r [ ok (a, u) ↦ f a u | err e ↦ err e ])
moving_then-Quiet f t (err e) h k = tt
moving_then-Quiet {B = B} f t (ok (a, u)) h k = onward (f a u) (k a u)
  where
    onward : (r : Result (B × ProtocolTables)) → QuietAt u r → MovesAt t r
    onward (ok (b, v)) h' = subst (λ (es : List RunEffect). Follows t.ledger.effects es) (sym h') h
    onward (err e) h' = tt

pub bind-Moving-Quiet :
    {A B : Type 0} (m : Tx ProtocolTables A) (f : A → Tx ProtocolTables B)
    → Moving m
    → ((a : A) → Quiet (f a))
    → Moving (m >>= f)
bind-Moving-Quiet m f h k t = moving_then-Quiet f t (m t) (h t) k

pub Follows-refl : (es : List RunEffect) → Follows es es
Follows-refl es id e found = (e, found, inl refl)

updated-Moved :
    (p : RunEffect → Bool) (f : RunEffect → RunEffect)
    → ((e : RunEffect) → p e ≡ true → Moved e (f e))
    → (e : RunEffect) (b : Bool) → p e ≡ b
    → ((if b then f e else e) ≡ e) ⊎ Moved e (if b then f e else e)
updated-Moved p f h e true at = inr (h e at)
updated-Moved p f h e false at = inl refl

-- The update of a compare-and-set whose rows all move along an edge.
pub cas_effect-Moving :
    (p : RunEffect → Bool) (f : RunEffect → RunEffect)
    → ((e : RunEffect) → (f e).id ≡ e.id)
    → ((e : RunEffect) → p e ≡ true → Moved e (f e))
    → Moving (cas_effect p f)
cas_effect-Moving p f ids moves t = at (exists_row p t.ledger.effects)
  where
    at :
        (b : Bool)
        → MovesAt t (
            (require b revision_conflict >>= λ _.
            λ (u : ProtocolTables). ok (tt, update_effects p f u))
              t)
    at false = tt
    at true = λ id e found. (
      if p e then f e else e,
      select-update_where (with_id id) p f t.ledger.effects (λ x. ap (λ k. str_eq k id) (ids x))
          ∙ ground (arith, found),
      updated-Moved p f moves e (p e) refl,
    )

pub require-Quiet : (b : Bool) (e : OgraErrorCode) → Quiet (require b e)
require-Quiet true e t = refl
require-Quiet false e t = tt

pub gets-Quiet : {A : Type 0} (f : ProtocolTables → A) → Quiet (gets f)
gets-Quiet f t = refl

pub pure-Quiet : {A : Type 0} (a : A) → Quiet (λ t. ok (a, t))
pure-Quiet a t = refl

pub lift-Quiet : {A : Type 0} (f : ProtocolTables → Result A) → Quiet (lift f)
lift-Quiet {A} f t = at (f t)
  where
    at : (r : Result A) → QuietAt t (elim r [ ok a ↦ ok (a, t) | err e ↦ err e ])
    at (ok a) = refl
    at (err e) = tt

pub some-Quiet :
    {A : Type 0} (f : ProtocolTables → Option A) (e : OgraErrorCode)
    → Quiet (λ t. require_some (f t) e t)
some-Quiet {A} f e t = at (f t)
  where
    at : (o : Option A) → QuietAt t (require_some o e t)
    at none = tt
    at (some a) = refl

kept-QuietAt :
    {A : Type 0} (t : ProtocolTables) (r : Result A × CapsuleTables) → QuietAt t (keep_vault t r)
kept-QuietAt t (ok a, v) = refl
kept-QuietAt t (err e, v) = tt

pub in_vault-Quiet : {A : Type 0} (m : Steps CapsuleTables A) → Quiet (in_vault m)
in_vault-Quiet m t = kept-QuietAt t (m t.vault)

pub append_edge-effects : (e : AuditEdge) (t : EffectTables) → (append_edge e t).effects ≡ t.effects
unfolding append_edge
append_edge-effects e t = elim (Bool-cases (exists_row (edge_taken e) t.edges)) [
  | inl there ↦ ground (arith, there)
  | inr new ↦ ground (arith, new)
]

pub edge-Quiet : (e : AuditEdge) → Quiet (modify (on_ledger (append_edge e)))
edge-Quiet e t = append_edge-effects e t.ledger

pub ruleset quiet = (
  bind-Quiet, require-Quiet, gets-Quiet, pure-Quiet, lift-Quiet, some-Quiet, in_vault-Quiet,
  edge-Quiet,
)

spend-Quiet : (id : String) (revision : ℕ) → Quiet (spend id revision)
unfolding spend
spend-Quiet id revision = search (quiet) depth 10

spend_recovery-Quiet : (id : String) → Quiet (spend_recovery id)
unfolding spend_recovery
spend_recovery-Quiet id = search (quiet) depth 10

consume_approval-Quiet :
    (effect : RunEffect) (id : String) (kind : BindingKind) (now : ℕ)
    → Quiet (consume_approval effect id kind now)
unfolding consume_approval
consume_approval-Quiet effect id kind now = search (quiet, spend-Quiet) depth 25

consume_recovery-Quiet :
    (effect : RunEffect) (id : String) (kind : BindingKind) (attempt now : ℕ)
    → Quiet (consume_recovery_approval effect id kind attempt now)
unfolding consume_recovery_approval
consume_recovery-Quiet effect id kind attempt now = search (quiet, spend_recovery-Quiet) depth 25

bind_approval-Quiet :
    (effect : RunEffect) (id : String) (attempt revision : ℕ) (kind : BindingKind) (draw : Draw)
    (event_id : String)
    → Quiet (bind_approval effect id attempt revision kind draw event_id)
unfolding bind_approval
bind_approval-Quiet effect id attempt revision kind draw event_id = search (quiet) depth 25

either-Quiet :
    {A : Type 0} (b : Bool) (m n : Tx ProtocolTables A)
    → Quiet m
    → Quiet n
    → Quiet (if b then m else n)
either-Quiet true m n h k = h
either-Quiet false m n h k = k

pub consume-Quiet :
    (effect : RunEffect) (id : String) (attempt : ℕ) (kind : BindingKind) (draw : Draw)
    (event_id : String)
    → Quiet (consume_approval_for_callback effect id attempt kind draw event_id)
unfolding consume_approval_for_callback
consume-Quiet effect id attempt kind draw event_id =
    search
      (quiet, either-Quiet, consume_approval-Quiet, consume_recovery-Quiet, bind_approval-Quiet)
      depth 25
