-- ===== src/Protocol/Limits/Operations.antt =====
-- The operations of ogra-desktop/src/core/effect-protocol-service.ts, one by one.
use ogra.Prelude.{ℕ, String, Bool, true, false, Option, none, some}
use ogra.Audit.Json.{Json}
use ogra.Durable.Transaction.{Tx}
use ogra.Durable.Effect.{RunEffect, BindingKind}
use ogra.Capsule.{SealedCapsuleRow, Vault, Fresh}
use ogra.Protocol.{ProtocolTables, Draw, truthy}
use ogra.Protocol.Consume.{
  spend, spend_recovery, consume_approval, consume_recovery_approval, bind_approval,
  consume_approval_for_callback,
}
use ogra.Protocol.Cas.{CasInFlightInput, consume_if_given, bind_if_sealed, cas_body}
use ogra.Protocol.Prepare.{
  PrepareEffectInput, PreparedEffect, bind_current, insert_new, reuse, create, reuse_or_create,
  prepare_body,
}
use ogra.Protocol.Receipt.{RecordReceiptInput, trusted_body}
use ogra.Protocol.Outcome.{UnknownOutcomeInput, unknown_body, cancel_body}
use ogra.Protocol.Commit.{CommitTerminalInput, verify_in_transaction, commit_body}
use ogra.Protocol.Limits.{
  Limited, limited, either-Limited, either_option-Limited, pure-Limited, used-Limited,
  used_recovery-Limited, bound-Limited,
}

spend-Limited : (id : String) (revision : ℕ) → Limited (spend id revision)
unfolding spend
spend-Limited id revision = search (limited, used-Limited) depth 10

spend_recovery-Limited : (id : String) → Limited (spend_recovery id)
unfolding spend_recovery
spend_recovery-Limited id = search (limited, used_recovery-Limited) depth 10

consume_approval-Limited :
    (effect : RunEffect) (id : String) (kind : BindingKind) (now : ℕ)
    → Limited (consume_approval effect id kind now)
unfolding consume_approval
consume_approval-Limited effect id kind now = search (limited, spend-Limited) depth 25

consume_recovery-Limited :
    (effect : RunEffect) (id : String) (kind : BindingKind) (attempt now : ℕ)
    → Limited (consume_recovery_approval effect id kind attempt now)
unfolding consume_recovery_approval
consume_recovery-Limited effect id kind attempt now =
    search (limited, spend_recovery-Limited) depth 25

bind_approval-Limited :
    (effect : RunEffect) (id : String) (attempt revision : ℕ) (kind : BindingKind) (draw : Draw)
    (event_id : String)
    → Limited (bind_approval effect id attempt revision kind draw event_id)
unfolding bind_approval
bind_approval-Limited effect id attempt revision kind draw event_id = search (limited) depth 25

consume-Limited :
    (effect : RunEffect) (id : String) (attempt : ℕ) (kind : BindingKind) (draw : Draw)
    (event_id : String)
    → Limited (consume_approval_for_callback effect id attempt kind draw event_id)
unfolding consume_approval_for_callback
consume-Limited effect id attempt kind draw event_id =
    search
      (
        limited, either-Limited, consume_approval-Limited, consume_recovery-Limited,
        bind_approval-Limited,
      )
      depth 25

bind_current-Limited :
    (input : PrepareEffectInput) (draw : Draw) → Limited (bind_current input draw)
unfolding bind_current
bind_current-Limited input draw =
    either_option-Limited (truthy input.current_approval_id) _ _ (pure-Limited tt)
      λ id. search (limited, bound-Limited) depth 15

insert_new-Limited : (e : RunEffect) → Limited (insert_new e)
unfolding insert_new
insert_new-Limited e = search (limited) depth 10

reuse-Limited :
    (V : Vault) (input : PrepareEffectInput) (key_hash fingerprint : String) (existing : RunEffect)
    → Limited (reuse V input key_hash fingerprint existing)
unfolding reuse
reuse-Limited V input key_hash fingerprint existing = search (limited) depth 15

create-Limited :
    (V : Vault) (input : PrepareEffectInput) (key_hash rules : String) (fresh : Fresh) (draw : Draw)
    (event_id : String)
    → Limited (create V input key_hash rules fresh draw event_id)
unfolding create
create-Limited V input key_hash rules fresh draw event_id =
    search (limited, bind_current-Limited, insert_new-Limited) depth 25

reuse_or_create-Limited :
    (V : Vault) (input : PrepareEffectInput) (key_hash fingerprint rules : String) (fresh : Fresh)
    (draw : Draw) (event_id : String) (existing : Option RunEffect)
    → Limited (reuse_or_create V input key_hash fingerprint rules fresh draw event_id existing)
unfolding reuse_or_create
reuse_or_create-Limited V input key_hash fingerprint rules fresh draw event_id none =
    create-Limited V input key_hash rules fresh draw event_id
reuse_or_create-Limited V input key_hash fingerprint rules fresh draw event_id (some e) =
    reuse-Limited V input key_hash fingerprint e

pub prepare_body-Limited :
    (V : Vault) (input : PrepareEffectInput) (rules : String) (fresh : Fresh) (draw : Draw)
    (post : PreparedEffect → Tx ProtocolTables (Unit {0})) (event_id : String)
    → ((p : PreparedEffect) → Limited (post p))
    → Limited (prepare_body V input rules fresh draw post event_id)
unfolding prepare_body
prepare_body-Limited V input rules fresh draw post event_id after =
    search (limited, reuse_or_create-Limited, after) depth 25

consume_if_given-Limited :
    (input : CasInFlightInput) (effect : RunEffect) (draw : Draw) (event_id : String)
    → Limited (consume_if_given input effect draw event_id)
unfolding consume_if_given
consume_if_given-Limited input effect draw event_id =
    either_option-Limited (truthy input.approval_id) _ _ (pure-Limited tt)
      λ id. consume-Limited effect id _ _ draw event_id

bind_if_sealed-Limited :
    (resealed : Bool) (id event_id : String) → Limited (bind_if_sealed resealed id event_id)
unfolding bind_if_sealed
bind_if_sealed-Limited false id event_id = search (limited) depth 10
bind_if_sealed-Limited true id event_id = search (limited) depth 10

pub cas_body-Limited :
    (input : CasInFlightInput) (effect : RunEffect) (resealed : Bool) (capsule : SealedCapsuleRow)
    (payload : Json) (version : ℕ) (draw : Draw) (event_id : String)
    → Limited (cas_body input effect resealed capsule payload version draw event_id)
unfolding cas_body
cas_body-Limited input effect resealed capsule payload version draw event_id =
    search (limited, consume_if_given-Limited, bind_if_sealed-Limited) depth 25

pub trusted_body-Limited :
    (V : Vault) (input : RecordReceiptInput) (effect : RunEffect) (fresh : Fresh) (draw : Draw)
    (event_id : String)
    → Limited (trusted_body V input effect fresh draw event_id)
unfolding trusted_body
trusted_body-Limited V input effect fresh draw event_id = search (limited) depth 25

pub unknown_body-Limited :
    (input : UnknownOutcomeInput) (effect : RunEffect) (incident_id : String) (fresh : Fresh)
    (draw : Draw) (event_id : String)
    → Limited (unknown_body input effect incident_id fresh draw event_id)
unfolding unknown_body
unknown_body-Limited input effect incident_id fresh draw event_id = search (limited) depth 25

pub cancel_body-Limited :
    (effect : RunEffect) (revision : ℕ) (draw : Draw) (event_id : String)
    → Limited (cancel_body effect revision draw event_id)
unfolding cancel_body
cancel_body-Limited effect revision draw event_id = search (limited) depth 25

verify-Limited :
    (V : Vault) (effect : RunEffect) (receipt_id : String) (attempt : ℕ) (fresh : Fresh)
    → Limited (verify_in_transaction V effect receipt_id attempt fresh)
unfolding verify_in_transaction
verify-Limited V effect receipt_id attempt fresh = search (limited) depth 20

pub commit_body-Limited :
    (V : Vault) (input : CommitTerminalInput) (effect : RunEffect) (fresh : Fresh) (draw : Draw)
    (event_id : String)
    → Limited (commit_body V input effect fresh draw event_id)
unfolding commit_body
commit_body-Limited V input effect fresh draw event_id = search (limited, verify-Limited) depth 25
