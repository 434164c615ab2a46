-- ===== src/Protocol/Lifecycle.antt =====
-- The effects under the protocol: every operation moves at most one effect, and along an edge of the
-- protocol, which is one of `EFFECT_TRANSITIONS`.
use ogra.Prelude.{
  ℕ, String, ◌≡◌, refl, sym, subst, ◌∙◌, inl, Bool, true, false, Option, none, some, List,
  select-insert_row, arith,
}
use ogra.Audit.Json.{Json}
use ogra.Durable.Transaction.{Result, ok, err, Tx, modify}
use ogra.Durable.Effect.{
  EffectState, in_flight, cancelled_before_send, state_eq, RunEffect, with_id,
}
use ogra.Capsule.{SealedCapsuleRow, Vault, Fresh}
use ogra.Protocol.{ProtocolTables, Draw, truthy, cas_effect, in_state}
use ogra.Protocol.Quiet.{
  protocol_edge, Follows, QuietAt, Quiet, MovesAt, Moving, bind-Quiet-Moving, bind-Moving-Quiet,
  cas_effect-Moving, Follows-refl, quiet, consume-Quiet, pure-Quiet,
}
use ogra.Protocol.Cas.{
  CasInFlightInput, ExpectedState, state_of, cas_matches, sent, consume_if_given, bind_if_sealed,
  cas_body,
}
use ogra.Protocol.Receipt.{RecordReceiptInput, as_received, trusted_body}
use ogra.Protocol.Outcome.{UnknownOutcomeInput, unknown_body, planned_at, moved_to, cancel_body}
use ogra.Protocol.Commit.{
  CommitTerminalInput, received_at, as_committed, verify_in_transaction, commit_body,
}
use ogra.Protocol.Prepare.{
  PrepareEffectInput, PreparedEffect, reuse, create, reuse_or_create, insert_effect, insert_new,
  bind_current, prepare_body,
}

either_option-Quiet :
    {A B : Type 0} (o : Option A) (m : Tx ProtocolTables B) (f : A → Tx ProtocolTables B)
    → Quiet m
    → ((a : A) → Quiet (f a))
    → Quiet (elim o [ none ↦ m | some a ↦ f a ])
either_option-Quiet none m f h k = h
either_option-Quiet (some a) m f h k = k a

Quiet-Moving : {A : Type 0} (m : Tx ProtocolTables A) → Quiet m → Moving m
Quiet-Moving {A} m h t = at (m t) (h t)
  where
    at : (r : Result (A × ProtocolTables)) → QuietAt t r → MovesAt t r
    at (ok (a, u)) e =
        subst (λ (es : List RunEffect). Follows t.ledger.effects es) (sym e)
          (Follows-refl t.ledger.effects)
    at (err e) h' = tt

-- The compare-and-sets of the protocol.
unknown-Moving :
    (id : String) (now : ℕ)
    → Moving (cas_effect (in_state id in_flight) (moved_to EffectState.unknown now))
unfolding protocol_edge
unknown-Moving id now =
    cas_effect-Moving _ _ (λ e. refl) λ e h. (ground (arith, h), refl, refl, refl, refl, refl, refl)

cancelled-Moving :
    (id : String) (revision now : ℕ)
    → Moving (cas_effect (planned_at id revision) (moved_to cancelled_before_send now))
unfolding protocol_edge
cancelled-Moving id revision now =
    cas_effect-Moving _ _ (λ e. refl) λ e h. (ground (arith, h), refl, refl, refl, refl, refl, refl)

received-Moving :
    (id receipt_id receipt_hash : String) (now : ℕ)
    → Moving (cas_effect (in_state id in_flight) (as_received receipt_id receipt_hash now))
unfolding protocol_edge
received-Moving id receipt_id receipt_hash now =
    cas_effect-Moving _ _ (λ e. refl) λ e h. (ground (arith, h), refl, refl, refl, refl, refl, refl)

pub unknown_body-Moving :
    (input : UnknownOutcomeInput) (effect : RunEffect) (incident_id : String) (fresh : Fresh)
    (draw : Draw) (event_id : String)
    → Moving (unknown_body input effect incident_id fresh draw event_id)
unfolding unknown_body
unknown_body-Moving input effect incident_id fresh draw event_id =
    search (quiet, bind-Quiet-Moving, bind-Moving-Quiet, unknown-Moving) depth 25

pub cancel_body-Moving :
    (effect : RunEffect) (revision : ℕ) (draw : Draw) (event_id : String)
    → Moving (cancel_body effect revision draw event_id)
unfolding cancel_body
cancel_body-Moving effect revision draw event_id =
    search (quiet, bind-Quiet-Moving, bind-Moving-Quiet, cancelled-Moving) depth 25

sends :
    (from : ExpectedState) (s : EffectState)
    → state_eq s (state_of from) ≡ true
    → protocol_edge s in_flight ≡ true
unfolding protocol_edge
sends ExpectedState.planned s h = ground (arith, h)
sends ExpectedState.unknown s h = ground (arith, h)

sent-Moving :
    (input : CasInFlightInput) (id : String) (capsule : SealedCapsuleRow) (now : ℕ)
    → Moving (cas_effect (cas_matches input id) (sent input capsule now))
sent-Moving input id capsule now =
    cas_effect-Moving _ _ (λ e. refl)
      λ e h.
        (sends input.expected_state e.state (ground (arith, h)), refl, refl, refl, refl, refl, refl)

committed-Moving :
    (id : String) (revision : ℕ) (draw : Draw) (event_id : String)
    → Moving (cas_effect (received_at id revision) (as_committed draw event_id))
unfolding protocol_edge
committed-Moving id revision draw event_id =
    cas_effect-Moving _ _ (λ e. refl) λ e h. (ground (arith, h), refl, refl, refl, refl, refl, refl)

insert-Moving : (e : RunEffect) → Moving (modify (insert_effect e))
insert-Moving e t id e' found =
    (e', select-insert_row (with_id id) e t.ledger.effects ∙ ground (arith, found), inl refl)

pub trusted_body-Moving :
    (V : Vault) (input : RecordReceiptInput) (effect : RunEffect) (fresh : Fresh) (draw : Draw)
    (event_id : String)
    → Moving (trusted_body V input effect fresh draw event_id)
unfolding trusted_body
trusted_body-Moving V input effect fresh draw event_id =
    search (quiet, bind-Quiet-Moving, bind-Moving-Quiet, received-Moving) depth 25

consume_if_given-Quiet :
    (input : CasInFlightInput) (effect : RunEffect) (draw : Draw) (event_id : String)
    → Quiet (consume_if_given input effect draw event_id)
unfolding consume_if_given
consume_if_given-Quiet input effect draw event_id =
    either_option-Quiet (truthy input.approval_id) _ _ (pure-Quiet tt)
      λ id. consume-Quiet effect id _ _ draw event_id

bind_if_sealed-Quiet :
    (resealed : Bool) (id event_id : String) → Quiet (bind_if_sealed resealed id event_id)
unfolding bind_if_sealed
bind_if_sealed-Quiet false id event_id = search (quiet) depth 10
bind_if_sealed-Quiet true id event_id = search (quiet) depth 10

pub cas_body-Moving :
    (input : CasInFlightInput) (effect : RunEffect) (resealed : Bool) (capsule : SealedCapsuleRow)
    (payload : Json) (version : ℕ) (draw : Draw) (event_id : String)
    → Moving (cas_body input effect resealed capsule payload version draw event_id)
unfolding cas_body
cas_body-Moving input effect resealed capsule payload version draw event_id =
    search
      (
        quiet, bind-Quiet-Moving, bind-Moving-Quiet, sent-Moving, consume_if_given-Quiet,
        bind_if_sealed-Quiet,
      )
      depth 25

verify-Quiet :
    (V : Vault) (effect : RunEffect) (receipt_id : String) (attempt : ℕ) (fresh : Fresh)
    → Quiet (verify_in_transaction V effect receipt_id attempt fresh)
unfolding verify_in_transaction
verify-Quiet V effect receipt_id attempt fresh = search (quiet) depth 20

pub commit_body-Moving :
    (V : Vault) (input : CommitTerminalInput) (effect : RunEffect) (fresh : Fresh) (draw : Draw)
    (event_id : String)
    → Moving (commit_body V input effect fresh draw event_id)
unfolding commit_body
commit_body-Moving V input effect fresh draw event_id =
    search (quiet, bind-Quiet-Moving, bind-Moving-Quiet, committed-Moving, verify-Quiet) depth 25

bind_current-Quiet : (input : PrepareEffectInput) (draw : Draw) → Quiet (bind_current input draw)
unfolding bind_current
bind_current-Quiet input draw =
    either_option-Quiet (truthy input.current_approval_id) _ _ (pure-Quiet tt)
      λ id. search (quiet) depth 15

reuse-Quiet :
    (V : Vault) (input : PrepareEffectInput) (key_hash fingerprint : String) (existing : RunEffect)
    → Quiet (reuse V input key_hash fingerprint existing)
unfolding reuse
reuse-Quiet V input key_hash fingerprint existing = search (quiet) depth 15

insert_new-Moving : (e : RunEffect) → Moving (insert_new e)
unfolding insert_new
insert_new-Moving e = search (quiet, bind-Quiet-Moving, insert-Moving) depth 10

create-Moving :
    (V : Vault) (input : PrepareEffectInput) (key_hash rules : String) (fresh : Fresh) (draw : Draw)
    (event_id : String)
    → Moving (create V input key_hash rules fresh draw event_id)
unfolding create
create-Moving V input key_hash rules fresh draw event_id =
    search (quiet, bind-Quiet-Moving, bind-Moving-Quiet, bind_current-Quiet, insert_new-Moving)
      depth 25

reuse_or_create-Moving :
    (V : Vault) (input : PrepareEffectInput) (key_hash fingerprint rules : String) (fresh : Fresh)
    (draw : Draw) (event_id : String) (existing : Option RunEffect)
    → Moving (reuse_or_create V input key_hash fingerprint rules fresh draw event_id existing)
unfolding reuse_or_create
reuse_or_create-Moving V input key_hash fingerprint rules fresh draw event_id none =
    create-Moving V input key_hash rules fresh draw event_id
reuse_or_create-Moving V input key_hash fingerprint rules fresh draw event_id (some e) =
    Quiet-Moving _ (reuse-Quiet V input key_hash fingerprint e)

pub prepare_body-Moving :
    (V : Vault) (input : PrepareEffectInput) (rules : String) (fresh : Fresh) (draw : Draw)
    (post : PreparedEffect → Tx ProtocolTables (Unit {0})) (event_id : String)
    → ((p : PreparedEffect) → Quiet (post p))
    → Moving (prepare_body V input rules fresh draw post event_id)
unfolding prepare_body
prepare_body-Moving V input rules fresh draw post event_id after =
    search (quiet, bind-Quiet-Moving, bind-Moving-Quiet, reuse_or_create-Moving, after) depth 25
