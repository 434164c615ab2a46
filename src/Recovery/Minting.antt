-- ===== src/Recovery/Minting.antt =====
-- What a mint asks for and leaves, in ogra-desktop/src/core/recovery-approval-service.ts.
use ogra.Prelude.{
  ℕ, ◌<◌, String, ◌≡◌, refl, ap, ◌∙◌, Bool, true, false, ◌&&◌, ◌||◌, ltb, Option, none, some, List,
  arith, str_eq, opt_str_eq, or_else, exists_row, select, select_sound, exists_row-select,
  insert_row, eq_iff, Bool-cases, Option-cases, inl, inr,
}
use ogra.Durable.Transaction.{ok}
use ogra.Durable.Effect.{RunEffect, find_effect}
use ogra.Protocol.{
  approved, ApprovalRow, RecoveryApproval, AgentRun, ProtocolTables, truthy, holds_lease,
}
use ogra.Protocol.Approvals.{IsUnexpired, opt_str_eq_sound, not_expired, is_approved_sound}
use ogra.Recovery.{
  MintRecoveryApprovalInput, MintRecoveryApprovalResult, MintDraw, sql_eq, is_revision, joined,
  is_current, for_attempt, minted, insert_minted, revoke_rows, lease_is_held, mint_body,
}
use ogra.Recovery.Body.{revocation, mint_body_ok}

sql_eq_sound : (a b : Option String) → sql_eq a b ≡ true → a ≡ b
sql_eq_sound none b h = absurd (ground (arith, h))
sql_eq_sound (some a) b h = opt_str_eq_sound (some a) b h

is_revision_sound : (n : ℕ) (o : Option ℕ) → is_revision n o ≡ true → o ≡ some n
is_revision_sound n none h = absurd (ground (arith, h))
is_revision_sound n (some m) h = ground (arith, h)

same_scope : (a b : Option String) → (opt_str_eq a b || sql_eq a b) ≡ true → a ≡ b
same_scope a b h = elim (Bool-cases (opt_str_eq a b)) [
  | inl same ↦ opt_str_eq_sound a b same
  | inr other ↦ sql_eq_sound a b (ground (arith, h, other))
]

-- An approved, unexpired approval of the retry of this effect at this revision, with a use left.
abbrev pub Authorizes : RunEffect → AgentRun → ℕ → ApprovalRow → Type 0
Authorizes e r now a =
    (a.approval_type ≡ "recovery_retry")
    × (a.decision ≡ approved)
    × (a.uses_consumed < a.use_limit)
    × IsUnexpired now a.expires_at
    × (a.run_id ≡ some e.run_id)
    × (r.workspace_id ≡ a.workspace_id)
    × (a.effect_id ≡ some e.id)
    × (a.effect_revision ≡ some e.effect_revision)
    × (a.payload_fingerprint ≡ some e.payload_fingerprint)
    × (a.policy_version_hash ≡ some (or_else e.policy_version_hash ""))
    × (a.scope_hash ≡ e.scope_hash)

below : (m n : ℕ) → ltb m n ≡ true → m < n
below m n h = ground (arith, h)

both : (p q : Bool) → (p && q) ≡ true → (p ≡ true) × (q ≡ true)
both true true h = (refl, refl)
both true false h = absurd (ground (arith, h))
both false q h = absurd (ground (arith, h))

is_current_sound :
    (id : String) (e : RunEffect) (r : AgentRun) (now : ℕ) (a : ApprovalRow)
    → is_current id e r now a ≡ true
    → (a.id ≡ id) × Authorizes e r now a
unfolding is_current
is_current_sound id e r now a h =
    let (h11, c12) = both _ _ h in
    let (h10, c11) = both _ _ h11 in
    let (h9, c10) = both _ _ h10 in
    let (h8, c9) = both _ _ h9 in
    let (h7, c8) = both _ _ h8 in
    let (h6, c7) = both _ _ h7 in
    let (h5, c6) = both _ _ h6 in
    let (h4, c5) = both _ _ h5 in
    let (h3, c4) = both _ _ h4 in
    let (h2, c3) = both _ _ h3 in
    let (c1, c2) = both _ _ h2 in
    (
      (eq_iff a.id id).0 c1,
      (
        (eq_iff a.approval_type "recovery_retry").0 c6,
        is_approved_sound a.decision c7,
        below a.uses_consumed a.use_limit c8,
        not_expired now a.expires_at c9,
        opt_str_eq_sound a.run_id _ c2,
        sql_eq_sound r.workspace_id a.workspace_id c3,
        opt_str_eq_sound a.effect_id _ c4,
        is_revision_sound e.effect_revision a.effect_revision c5,
        opt_str_eq_sound a.payload_fingerprint _ c10,
        opt_str_eq_sound a.policy_version_hash _ c11,
        same_scope a.scope_hash e.scope_hash c12,
      ),
    )

selected :
    (p : ApprovalRow → Bool) (rows : List ApprovalRow)
    → exists_row p rows ≡ true
    → (a : ApprovalRow) × (select p rows ≡ some a)
selected p rows there = elim (Option-cases (select p rows)) [
  | inl gone ↦ absurd (ground (arith, gone, there, exists_row-select p rows))
  | inr found ↦ found
]

joined_effect :
    (id : String) (e : RunEffect) (r : AgentRun) (t : ProtocolTables)
    → joined id t ≡ some (e, r)
    → find_effect id t.ledger.effects ≡ some e
unfolding joined
joined_effect id e r t h = elim (Option-cases (find_effect id t.ledger.effects)) [
  | inl gone ↦ absurd (ground (arith, h, gone))
  | inr (x, found) ↦ elim (Option-cases (select (λ (v : AgentRun). str_eq v.id x.run_id) t.runs)) [
    | inl none_there ↦ absurd (ground (arith, h, found, none_there))
    | inr (y, run) ↦ ground (arith, h, found, run)
  ]
]

held_for :
    (input : MintRecoveryApprovalInput) (now : ℕ) (e : RunEffect) (t : ProtocolTables)
    → find_effect input.effect_id t.ledger.effects ≡ some e
    → lease_is_held input now t ≡ true
    → holds_lease e.run_id input.lease_holder_id input.lease_version now t.ledger.leases ≡ true
unfolding lease_is_held
held_for input now e t found h = ground (arith, found, h)

revocation-same :
    {A : Type 0} (f : ProtocolTables → A) (o : Option String) (now : ℕ) (t : ProtocolTables)
    → ((id : String) → f (revoke_rows id now t) ≡ f t)
    → f (revocation o now t) ≡ f t
revocation-same f none now t h = refl
revocation-same f (some id) now t h = h id

-- The one-use row of a mint.
abbrev pub IsOneUse : MintRecoveryApprovalInput → RunEffect → MintDraw → RecoveryApproval → Type 0
IsOneUse input e draw n =
    (n.id ≡ draw.recovery_approval_id)
    × (n.effect_id ≡ input.effect_id)
    × (n.recovery_attempt ≡ input.recovery_attempt)
    × (n.run_id ≡ e.run_id)
    × (n.payload_fingerprint ≡ e.payload_fingerprint)
    × (n.scope_hash ≡ e.scope_hash)
    × (n.policy_version_hash ≡ or_else e.policy_version_hash "")
    × (n.expires_at ≡ input.expires_at)
    × (n.use_limit ≡ 1)
    × (n.uses_consumed ≡ 0)

-- A mint that succeeds held the lease of the effect's run and found the approval that it names,
-- approved, unexpired, with a use left, of the type `recovery_retry` and of this effect at its
-- revision, its workspace, fingerprint, policy and scope, and no row for the attempt; it adds
-- exactly one row to `recovery_approvals`, which is of this effect and attempt, expires as the
-- input says and may be used once, and leaves the effects, the leases and the consumptions as they
-- were.
pub mint_is_authorized :
    (input : MintRecoveryApprovalInput) (draw : MintDraw) (event_id : String) (t u : ProtocolTables)
    (out : MintRecoveryApprovalResult)
    → mint_body input draw event_id t ≡ ok (out, u)
    → (e : RunEffect) × (r : AgentRun) × (a : ApprovalRow) × (n : RecoveryApproval) × (joined
          input.effect_id t
        ≡ some (e, r))
      × (holds_lease e.run_id input.lease_holder_id input.lease_version draw.now t.ledger.leases
          ≡ true)
      × (select (is_current input.approved_recovery_approval_id e r draw.now) t.approvals ≡ some a)
      × (a.id ≡ input.approved_recovery_approval_id)
      × Authorizes e r draw.now a
      × (exists_row (for_attempt input.effect_id input.recovery_attempt) t.recovery_approvals
          ≡ false)
      × (u.recovery_approvals ≡ insert_row n t.recovery_approvals)
      × IsOneUse input e draw n
      × (u.ledger.effects ≡ t.ledger.effects)
      × (u.ledger.leases ≡ t.ledger.leases)
      × (u.consumptions ≡ t.consumptions)
mint_is_authorized input draw event_id t u out h =
    let (e, r, found, held, current, unrevoked, free, has, u_is) =
      mint_body_ok input draw event_id t u out h in
    let (a, row) =
      selected (is_current input.approved_recovery_approval_id e r draw.now) t.approvals current in
    let (named, authorizes) = is_current_sound input.approved_recovery_approval_id e r draw.now a (
      select_sound (is_current input.approved_recovery_approval_id e r draw.now) t.approvals a
        row) in
    let o = truthy e.current_approval_id in
    let v = insert_minted (minted input e r draw) t in
    (
      e,
      r,
      a,
      minted input e r draw,
      found,
      held_for input draw.now e t (joined_effect input.effect_id e r t found) held,
      row,
      named,
      authorizes,
      free,
      ap (λ w. w.recovery_approvals) u_is
          ∙ revocation-same (λ w. w.recovery_approvals) o draw.now v (λ id. refl),
      (refl, refl, refl, refl, refl, refl, refl, refl, refl, refl),
      ap (λ w. w.ledger.effects) u_is
          ∙ revocation-same (λ w. w.ledger.effects) o draw.now v (λ id. refl),
      ap (λ w. w.ledger.leases) u_is
          ∙ revocation-same (λ w. w.ledger.leases) o draw.now v (λ id. refl),
      ap (λ w. w.consumptions) u_is
          ∙ revocation-same (λ w. w.consumptions) o draw.now v (λ id. refl),
    )
