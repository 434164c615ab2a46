-- ===== src/Protocol/Gates.antt =====
-- What sending an effect and committing it ask for, in
-- ogra-desktop/src/core/effect-protocol-service.ts.
use ogra.Prelude.{
  ℕ, String, ◌≡◌, sym, ap, subst, ◌∙◌, Bool, true, false, not, ◌||◌, Option, none, some, arith,
  is_some, select, exists_row, update_where, str_eq, opt_str_eq, ◌==◌, Bool-cases, ◌⊎◌, inl, inr,
  if◌then◌else◌,
}
use ogra.Audit.Json.{Json}
use ogra.Audit.Event.{payload_hash}
use ogra.Durable.Transaction.{
  receipt_not_found, effect_invalid_transition, capsule_invalid, revision_conflict, Result, ok, err,
  Tx, modify,
}
use ogra.Durable.Effect.{RunEffect, EffectReceipt, BindingKind}
use ogra.Durable.Effect.Receipt.{binds_attempt, receipt_id_is}
use ogra.Capsule.{SealedCapsuleRow, OpenCapsule, CapsuleTables, Vault, Fresh}
use ogra.Capsule.Evidence.{is_blank, open_result_for_receipt}
use ogra.Protocol.{
  ProtocolTables, Draw, truthy, is_recovery_id, route_requires_approval, holds_lease,
  assert_active_lease, cas_effect, update_effects, find_effect_row, in_vault, keep_vault,
  ingress_edge,
}
use ogra.Protocol.Consume.{
  consume_approval, consume_recovery_approval, consume_approval_for_callback,
}
use ogra.Protocol.Cas.{
  CasInFlightInput, CasInFlightOutput, binding_kind_of, check_approval, cas_matches, sent,
  consume_if_given, event_bound, bind_capsule, bind_if_sealed, cas_body,
}
use ogra.Protocol.Commit.{
  CommitTerminalInput, CommitTerminalOutput, is_applied, check_authoritative, claim_of,
  check_result, verify_in_transaction, received_at, as_committed, commit_body,
}
use ogra.Protocol.Receipt.{receipt_tuple}
use ogra.Protocol.Quiet.{append_edge-effects}
use ogra.Protocol.Inversion.{
  bind_ok, require_ok, unless_ok, option_ok, ok_or, double_negation, neither, lift_ok, last_lift_ok,
  ok_tables, ok_value,
}
use ogra.Protocol.Approvals.{bind_approval_ok}

held :
    (run_id holder : String) (version now : ℕ) (t : ProtocolTables) (x : Unit {0})
    → assert_active_lease run_id holder version now t ≡ ok x
    → holds_lease run_id holder version now t.ledger.leases ≡ true
unfolding assert_active_lease
held run_id holder version now t x h =
    elim (Bool-cases (holds_lease run_id holder version now t.ledger.leases)) [
      | inl holds ↦ holds
      | inr free ↦ absurd (ground (arith, h, free))
    ]

bind_if_sealed_ok :
    (resealed : Bool) (id event_id : String) (t u : ProtocolTables)
    → bind_if_sealed resealed id event_id t ≡ ok (tt, u)
    → (u.ledger ≡ t.ledger) × (u.routes ≡ t.routes)
unfolding bind_if_sealed
bind_if_sealed_ok false id event_id t u h =
    let same = ok_tables tt tt t u h in
    (ap (λ w. w.ledger) (sym same), ap (λ w. w.routes) (sym same))
bind_if_sealed_ok true id event_id t u h =
    let (there, h1) =
      require_ok (exists_row (event_bound id event_id) t.vault.capsules) capsule_invalid
        (λ x. modify (bind_capsule id event_id)) t tt u h in
    let same = ok_tables tt tt (bind_capsule id event_id t) u h1 in
    (ap (λ w. w.ledger) (sym same), ap (λ w. w.routes) (sym same))

routes_only :
    (route : Option String) (v t : ProtocolTables)
    → v.routes ≡ t.routes
    → route_requires_approval route v ≡ route_requires_approval route t
unfolding route_requires_approval
routes_only route v t h = ap (λ rows. route_requires_approval route (record t { routes = rows })) h

needs_id :
    (input : CasInFlightInput) (effect : RunEffect) (t : ProtocolTables) (x : Unit {0})
    → (is_some effect.current_approval_id || route_requires_approval effect.route_decision_id t)
      ≡ true
    → check_approval input effect t ≡ ok x
    → is_some (truthy input.approval_id) ≡ true
unfolding check_approval
needs_id input effect t x needs h = elim (Bool-cases (is_some (truthy input.approval_id))) [
  | inl given ↦ given
  | inr missing ↦ absurd (ground (arith, h, needs, missing))
]

consume_binds :
    (effect : RunEffect) (id : String) (attempt : ℕ) (kind : BindingKind) (draw : Draw)
    (event_id : String) (t u : ProtocolTables)
    → consume_approval_for_callback effect id attempt kind draw event_id t ≡ ok (tt, u)
    → exists_row (binds_attempt effect.id attempt) u.ledger.bindings ≡ true
unfolding consume_approval_for_callback
consume_binds effect id attempt kind draw event_id t u h =
    let (revision, v, e, h1) =
      bind_ok
        (if is_recovery_id id
          then consume_recovery_approval effect id kind attempt draw.now
          else consume_approval effect id kind draw.now)
        _ t tt u h in
    let (new, bound, recorded, kept) =
      bind_approval_ok effect id attempt revision kind draw event_id v u h1 in
    bound

given_binds :
    (input : CasInFlightInput) (effect : RunEffect) (draw : Draw) (event_id : String)
    (o : Option String) (t u : ProtocolTables)
    → is_some o ≡ true
    → (elim o as (λ _. Tx ProtocolTables (Unit {0})) [
      | none ↦ λ t. ok (tt, t)
      | some id ↦
          consume_approval_for_callback effect id input.expected_attempt_no
            (binding_kind_of input.expected_state)
            draw
            event_id
    ])
        t
      ≡ ok (tt, u)
    → exists_row (binds_attempt effect.id input.expected_attempt_no) u.ledger.bindings ≡ true
given_binds input effect draw event_id none t u given h = absurd (ground (arith, given))
given_binds input effect draw event_id (some id) t u given h =
    consume_binds effect id _ _ draw event_id t u h

cas_effect_ok :
    (p : RunEffect → Bool) (f : RunEffect → RunEffect) (t u : ProtocolTables)
    → cas_effect p f t ≡ ok (tt, u)
    → (exists_row p t.ledger.effects ≡ true) × (update_effects p f t ≡ u)
cas_effect_ok p f t u h =
    let (there, h1) = require_ok (exists_row p t.ledger.effects) revision_conflict _ t tt u h in
    (there, ok_tables tt tt _ u h1)

-- Every send that commits held the lease it names; and either the effect has no approval and its
-- route asks for none, or the send named an approval and the attempt is bound to one afterwards.
pub send_is_approved :
    (input : CasInFlightInput) (effect : RunEffect) (resealed : Bool) (capsule : SealedCapsuleRow)
    (payload : Json) (version : ℕ) (draw : Draw) (event_id : String) (t u : ProtocolTables)
    (o : CasInFlightOutput)
    → cas_body input effect resealed capsule payload version draw event_id t ≡ ok (o, u)
    → (holds_lease effect.run_id input.lease_holder version draw.now t.ledger.leases ≡ true)
      × (((is_some effect.current_approval_id || route_requires_approval effect.route_decision_id t)
            ≡ false)
          ⊎ ((is_some (truthy input.approval_id) ≡ true)
              × (exists_row (binds_attempt effect.id input.expected_attempt_no) u.ledger.bindings
                  ≡ true)))
unfolding cas_body consume_if_given
send_is_approved input effect resealed capsule payload version draw event_id t u o h =
    let (x1, v1, e1, h1) = bind_ok (bind_if_sealed resealed capsule.id event_id) _ t o u h in
    let (same, routes) = bind_if_sealed_ok resealed capsule.id event_id t v1 e1 in
    let (x2, lease, h2) =
      lift_ok (assert_active_lease effect.run_id input.lease_holder version draw.now) _ v1 o u h1 in
    let (x3, approval, h3) = lift_ok (check_approval input effect) _ v1 o u h2 in
    let (x4, v4, e4, h4) = bind_ok (consume_if_given input effect draw event_id) _ v1 o u h3 in
    let (x5, v5, e5, h5) =
      bind_ok (cas_effect (cas_matches input effect.id) (sent input capsule draw.now)) _ v4 o u
        h4 in
    let (x6, e6, h6) = lift_ok (find_effect_row effect.id) _ v5 o u h5 in
    let (there, v5_is) =
      cas_effect_ok (cas_matches input effect.id) (sent input capsule draw.now) v4 v5 e5 in
    let asks =
      is_some effect.current_approval_id || route_requires_approval effect.route_decision_id t in
    (
      ap (λ l. holds_lease effect.run_id input.lease_holder version draw.now l.leases) (sym same)
          ∙ held effect.run_id input.lease_holder version draw.now v1 x2 lease,
      elim (Bool-cases asks) [
        | inr free ↦ inl free
        | inl needs ↦
            let given =
              needs_id input effect v1 x3
                (ap (λ b. is_some effect.current_approval_id || b)
                    (routes_only effect.route_decision_id v1 t routes)
                  ∙ needs)
                approval in
            inr (
              given,
              ap
                    (λ w.
                      exists_row (binds_attempt effect.id input.expected_attempt_no)
                        w.ledger.bindings)
                    (sym (v5_is ∙ ok_tables _ o v5 u h6))
                  ∙ given_binds input effect draw event_id (truthy input.approval_id) v1 v4 given
                      e4,
            )
      ],
    )

module _ (V : Vault) where
  open V use {platform}

  -- The receipt that a commit rests on, and the result that it opens.
  abbrev pub Authoritative :
      RunEffect → String → ℕ → ProtocolTables → EffectReceipt → OpenCapsule → Type 0
  Authoritative effect receipt_id attempt t r o =
      (opt_str_eq effect.authoritative_receipt_id (some receipt_id) ≡ true)
      × (select (receipt_id_is receipt_id) t.ledger.receipts ≡ some r)
      × (str_eq r.effect_id effect.id ≡ true)
      × ((r.attempt_no == attempt) ≡ true)
      × (is_applied r.application_status ≡ true)
      × (str_eq r.receipt_hash (
            payload_hash platform (
              receipt_tuple effect.id attempt r.request_hash r.response_hash r.application_status
                r.provider_status))
          ≡ true)
      × (opt_str_eq (some (payload_hash platform o.payload)) r.response_hash ≡ true)

  receipt_ok :
      (effect : RunEffect) (receipt_id : String) (attempt : ℕ) (t : ProtocolTables)
      (r : EffectReceipt)
      → check_authoritative V effect receipt_id attempt t ≡ ok r
      → (opt_str_eq effect.authoritative_receipt_id (some receipt_id) ≡ true)
        × (select (receipt_id_is receipt_id) t.ledger.receipts ≡ some r)
        × (str_eq r.effect_id effect.id ≡ true)
        × ((r.attempt_no == attempt) ≡ true)
        × (is_applied r.application_status ≡ true)
        × (str_eq r.receipt_hash (
              payload_hash platform (
                receipt_tuple effect.id attempt r.request_hash r.response_hash r.application_status
                  r.provider_status))
            ≡ true)
  unfolding check_authoritative
  receipt_ok effect receipt_id attempt t r h =
      let (named, h1) =
        unless_ok (not (opt_str_eq effect.authoritative_receipt_id (some receipt_id)))
          receipt_not_found _ r h in
      let (row, found, h2) =
        option_ok (select (receipt_id_is receipt_id) t.ledger.receipts) receipt_not_found _ r h1 in
      let (own, h3) =
        unless_ok (not (str_eq row.effect_id effect.id) || not (row.attempt_no == attempt))
          receipt_not_found _ r h2 in
      let (done, h4) =
        unless_ok (not (is_applied row.application_status)) effect_invalid_transition _ r h3 in
      let (whole, h5) =
        unless_ok
          (is_blank row.response_hash
            || not (
                str_eq row.receipt_hash (
                  payload_hash platform (
                    receipt_tuple effect.id attempt row.request_hash row.response_hash
                      row.application_status row.provider_status))))
          capsule_invalid _ r h4 in
      subst
        (λ (x : EffectReceipt).
          (opt_str_eq effect.authoritative_receipt_id (some receipt_id) ≡ true)
          × (select (receipt_id_is receipt_id) t.ledger.receipts ≡ some x)
          × (str_eq x.effect_id effect.id ≡ true)
          × ((x.attempt_no == attempt) ≡ true)
          × (is_applied x.application_status ≡ true)
          × (str_eq x.receipt_hash (
                payload_hash platform (
                  receipt_tuple effect.id attempt x.request_hash x.response_hash
                    x.application_status x.provider_status))
              ≡ true))
        (ap (λ y. ok_or row y) h5)
        (
          double_negation _ named,
          found,
          double_negation _ (neither _ _ own).0,
          double_negation _ (neither _ _ own).1,
          double_negation _ done,
          double_negation _ (neither _ _ whole).1,
        )

  result_ok :
      (r : EffectReceipt) (attempt : ℕ) (o : OpenCapsule) (x : Unit {0})
      → check_result V r attempt o ≡ ok x
      → opt_str_eq (some (payload_hash platform o.payload)) r.response_hash ≡ true
  unfolding check_result
  result_ok r attempt o x h =
      elim (Bool-cases (opt_str_eq (some (payload_hash platform o.payload)) r.response_hash)) [
        | inl same ↦ same
        | inr other ↦ absurd (ground (arith, h, other))
      ]

  vault_ok :
      {A : Type 0} (t u : ProtocolTables) (r : Result A × CapsuleTables) (a : A)
      → keep_vault t r ≡ ok (a, u)
      → (v : CapsuleTables) × (r ≡ (ok a, v)) × (record t { vault = v } ≡ u)
  vault_ok t u (ok b, v) a h = (
    v,
    ap (λ c. (ok c, v)) (ok_value b a (record t { vault = v }) u h),
    ok_tables b a (record t { vault = v }) u h,
  )
  vault_ok t u (err e, v) a h = absurd (ground arith)

  verified_ok :
      (effect : RunEffect) (receipt_id : String) (attempt : ℕ) (fresh : Fresh)
      (t u : ProtocolTables)
      → verify_in_transaction V effect receipt_id attempt fresh t ≡ ok (tt, u)
      → (r : EffectReceipt) × (o : OpenCapsule) × (v : CapsuleTables) × Authoritative effect
          receipt_id attempt t r o
        × (open_result_for_receipt V (claim_of V effect r attempt t) fresh t.vault ≡ (ok o, v))
        × (u.ledger ≡ t.ledger)
  unfolding verify_in_transaction
  verified_ok effect receipt_id attempt fresh t u h =
      let (r, receipt, h1) = lift_ok (check_authoritative V effect receipt_id attempt) _ t tt u h in
      let (o, w, opened, h2) =
        bind_ok (λ x. in_vault (open_result_for_receipt V (claim_of V effect r attempt x) fresh) x)
          _ t tt u h1 in
      let (v, stored, w_is) = vault_ok t w _ o opened in
      let (checked, w_u) = last_lift_ok (λ y. check_result V r attempt o) w tt u h2 in
      let (named, found, own, of, done, whole) = receipt_ok effect receipt_id attempt t r receipt in
      (
        r,
        o,
        v,
        (named, found, own, of, done, whole, result_ok r attempt o tt checked),
        stored,
        ap (λ y. y.ledger) (sym (w_is ∙ w_u)),
      )

  -- A commit that succeeds held the lease it names, and rests on the effect's authoritative
  -- receipt, of the attempt, applied and with the hash of its columns, whose result opens with the
  -- hash that the receipt names; it marks the effect, found received at the revision, as committed.
  pub commit_body-Authoritative :
      (input : CommitTerminalInput) (effect : RunEffect) (fresh : Fresh) (draw : Draw)
      (event_id : String) (t u : ProtocolTables) (out : CommitTerminalOutput)
      → commit_body V input effect fresh draw event_id t ≡ ok (out, u)
      → (holds_lease effect.run_id input.lease_holder input.expected_lease_version draw.now
            t.ledger.leases
          ≡ true)
        × (r : EffectReceipt) × (o : OpenCapsule) × (v : CapsuleTables) × Authoritative effect
            input.receipt_id input.expected_attempt_no t r o
        × (open_result_for_receipt V (claim_of V effect r input.expected_attempt_no t) fresh t.vault
            ≡ (ok o, v))
        × (exists_row (received_at effect.id input.expected_revision) t.ledger.effects ≡ true)
        × (u.ledger.effects
            ≡ update_where
                (received_at effect.id input.expected_revision)
                (as_committed draw event_id)
                t.ledger.effects)
  unfolding commit_body
  commit_body-Authoritative input effect fresh draw event_id t u out h =
      let (x1, lease, h1) =
        lift_ok
          (assert_active_lease effect.run_id input.lease_holder input.expected_lease_version
            draw.now)
          _ t out u h in
      let (x2, v2, e2, h2) =
        bind_ok (verify_in_transaction V effect input.receipt_id input.expected_attempt_no fresh) _
          t out u h1 in
      let (r, o, v, authoritative, opened, same) =
        verified_ok effect input.receipt_id input.expected_attempt_no fresh t v2 e2 in
      let p = received_at effect.id input.expected_revision in
      let f = as_committed draw event_id in
      let (x5, v5, e5, h5) = bind_ok (cas_effect p f) _ _ out u h2 in
      let (there, v5_is) = cas_effect_ok p f _ v5 e5 in
      let (x6, e6, h6) = lift_ok (find_effect_row effect.id) _ _ out u h5 in
      (
        held effect.run_id input.lease_holder input.expected_lease_version draw.now t x1 lease,
        r,
        o,
        v,
        authoritative,
        opened,
        ap (λ l. exists_row p l.effects) (sym same) ∙ there,
        ap (λ w. w.ledger.effects) (sym (ok_tables _ out _ u h6))
            ∙ append_edge-effects (ingress_edge effect draw.finding_id draw event_id) v5.ledger
            ∙ ap (λ w. w.ledger.effects) (sym v5_is)
            ∙ ap (λ l. update_where p f l.effects) same,
      )
