-- ===== src/Protocol/Cas.antt =====
-- `casToInFlight`, up to its transaction's body, of ogra-desktop/src/core/effect-protocol-service.ts.
pub mod Method
use ogra.Prelude.{
  ℕ, ◌+◌, ◌-◌, String, Bool, true, false, not, ◌&&◌, ◌||◌, Option, none, some, List, [], ◌∷◌,
  str_eq, opt_str_eq, ◌==◌, leb, is_some, or_else, or_option, exists_row, update_where,
  if◌then◌else◌,
}
use ogra.Audit.Json.{Json, null, str, num, nullable, object}
use ogra.Audit.Chain.{EventMeta, Surroundings}
use ogra.Audit.Log.{EventLog}
use ogra.Durable.Transaction.{
  OgraErrorCode, invalid_argument, approval_required, effect_invalid_transition, revision_conflict,
  lease_not_held, capsule_invalid, Result, ok, err, Tx, ◌>>=◌, ◌>>◌, require, gets, modify,
}
use ogra.Durable.Lease.{find_lease, lease_expired}
use ogra.Durable.Effect.{
  EffectState, in_flight, state_eq, RunEffect, BindingKind, initial, recovery_retry, with_id,
  effect_meta,
}
use ogra.Capsule.{
  CapsuleKind, callback, FailureKind, missing, SealedCapsuleRow, CapsuleRow, OpenCapsule,
  CapsuleTables, Vault, Fresh, FailureInput, record_failure, fetch_by_binding,
}
use ogra.Capsule.Seal.{seal}
use ogra.Capsule.Evidence.{open_verified_callback_for_effect}
use ogra.Protocol.{
  ProtocolTables, Draw, truthy, route_requires_approval, holds_lease, assert_active_lease,
  cas_effect, find_effect_row, in_vault, lift,
}
use ogra.Protocol.Consume.{consume_approval_for_callback}

-- `'planned' | 'unknown'`
pub data ExpectedState : Type 0 where
  planned unknown : ExpectedState

abbrev pub state_of : ExpectedState → EffectState
state_of ExpectedState.planned = EffectState.planned
state_of ExpectedState.unknown = EffectState.unknown

abbrev pub binding_kind_of : ExpectedState → BindingKind
binding_kind_of ExpectedState.planned = initial
binding_kind_of ExpectedState.unknown = recovery_retry

abbrev pub is_retry_from : ExpectedState → Bool
is_retry_from ExpectedState.planned = false
is_retry_from ExpectedState.unknown = true

abbrev pub kind_text : ExpectedState → String
kind_text ExpectedState.planned = "initial"
kind_text ExpectedState.unknown = "recovery_retry"

pub record CasInFlightInput : Type 0 where
  pub effect_id : String
  pub expected_revision : ℕ
  pub expected_attempt_no : ℕ
  pub lease_holder : String
  pub approval_id : Option String
  pub expected_state : ExpectedState
  pub expected_lease_version : Option ℕ

pub record CasInFlightOutput : Type 0 where
  pub effect_id : String
  pub attempt_no : ℕ
  pub effect_revision : ℕ
  pub callback_intent_event_id : String
  pub lease_version : ℕ
  pub callback_payload : Json

-- The tests on the effect that was read: its revision, its state and the attempt number.
unfoldable pub check_cas : CasInFlightInput → RunEffect → Result (Unit {0})
check_cas input effect =
    if not (effect.effect_revision == input.expected_revision)
    then err revision_conflict
    else if not (state_eq effect.state (state_of input.expected_state))
    then err effect_invalid_transition
    else if not (is_retry_from input.expected_state) && not (input.expected_attempt_no == 1)
    then err invalid_argument
    else if is_retry_from input.expected_state && leb input.expected_attempt_no 1
    then err invalid_argument
    else ok tt

-- `effect.capsuleFingerprint ?? effect.payloadFingerprint`
abbrev pub expected_fingerprint : RunEffect → String
expected_fingerprint e = or_else e.capsule_fingerprint e.payload_fingerprint

abbrev with_attempt : ℕ → Option SealedCapsuleRow → Option (SealedCapsuleRow × ℕ)
with_attempt n none = none
with_attempt n (some r) = some (r, n)

-- The capsule of the attempt, or for a retry that of the attempt before, with its number.
unfoldable pub source_callback :
    CasInFlightInput → RunEffect → CapsuleTables → Option (SealedCapsuleRow × ℕ)
source_callback input effect t =
    elim (fetch_by_binding effect.id callback input.expected_attempt_no t) [
      | some r ↦ some (r, input.expected_attempt_no)
      | none ↦
          if is_retry_from input.expected_state
          then with_attempt (input.expected_attempt_no - 1)
              (fetch_by_binding effect.id callback (input.expected_attempt_no - 1) t)
          else none
    ]

-- The lease that the caller holds, as read before the transaction, and its version.
unfoldable pub check_lease : CasInFlightInput → RunEffect → ℕ → ProtocolTables → Result ℕ
check_lease input effect now t = elim (find_lease effect.run_id t.ledger.leases) [
  | none ↦ err lease_not_held
  | some lease ↦
      if not (str_eq lease.holder_id input.lease_holder) || lease_expired now lease
      then err lease_not_held
      else ok (or_else input.expected_lease_version lease.lease_version)
]

abbrev pub event_bound : String → String → CapsuleRow → Bool
event_bound id event_id r = str_eq r.sealed.id id && not (is_some r.sealed.created_event_id)

abbrev bind_event : String → CapsuleRow → CapsuleRow
bind_event event_id r = record r { sealed = record r.sealed { created_event_id = some event_id } }

abbrev pub bind_capsule : String → String → ProtocolTables → ProtocolTables
bind_capsule id event_id t = record t {
  vault = record t.vault {
    capsules = update_where (event_bound id event_id) (bind_event event_id) t.vault.capsules;
  };
}

-- The approval that the attempt needs.
unfoldable pub check_approval : CasInFlightInput → RunEffect → ProtocolTables → Result (Unit {0})
check_approval input effect t =
    if (is_some effect.current_approval_id || route_requires_approval effect.route_decision_id t)
      && not (is_some (truthy input.approval_id))
    then err approval_required
    else if not (is_retry_from input.expected_state)
        && is_some (truthy effect.current_approval_id)
        && not (opt_str_eq input.approval_id effect.current_approval_id)
    then err approval_required
    else if is_retry_from input.expected_state
        && is_some (truthy effect.current_approval_id)
        && opt_str_eq input.approval_id effect.current_approval_id
    then err approval_required
    else ok tt

-- `id = ? AND effect_revision = ? AND state = ?`
abbrev pub cas_matches : CasInFlightInput → String → RunEffect → Bool
cas_matches input id e =
    with_id id e
    && (e.effect_revision == input.expected_revision)
    && state_eq e.state (state_of input.expected_state)

abbrev pub sent : CasInFlightInput → SealedCapsuleRow → ℕ → RunEffect → RunEffect
sent input capsule now e = record e {
  state = in_flight;
  effect_revision = e.effect_revision + 1;
  current_approval_id = or_option input.approval_id e.current_approval_id;
  callback_capsule_ref = capsule.ref;
  callback_capsule_hash = capsule.hash;
  callback_capsule_format_version = capsule.format_version;
  idempotency_key_ref = capsule.ref;
  updated_at = now;
}

-- `if (input.approvalId) this.consumeApprovalForCallback(…)`
unfoldable pub consume_if_given :
    CasInFlightInput → RunEffect → Draw → String → Tx ProtocolTables (Unit {0})
consume_if_given input effect draw event_id = elim (truthy input.approval_id) [
  | none ↦ λ t. ok (tt, t)
  | some id ↦
      consume_approval_for_callback effect id input.expected_attempt_no
        (binding_kind_of input.expected_state) draw event_id
]

-- The binding of a capsule that was sealed for this attempt to the event.
unfoldable pub bind_if_sealed : Bool → String → String → Tx ProtocolTables (Unit {0})
bind_if_sealed false id event_id = λ t. ok (tt, t)
bind_if_sealed true id event_id = do
  changes ← gets (λ (t : ProtocolTables). exists_row (event_bound id event_id) t.vault.capsules)
  require changes capsule_invalid
  modify (bind_capsule id event_id)

-- The body of the transaction.
unfoldable pub cas_body :
    CasInFlightInput
    → RunEffect
    → Bool
    → SealedCapsuleRow
    → Json
    → ℕ
    → Draw
    → String
    → Tx ProtocolTables CasInFlightOutput
cas_body input effect resealed capsule payload version draw event_id = do
  bind_if_sealed resealed capsule.id event_id
  lift (assert_active_lease effect.run_id input.lease_holder version draw.now)
  lift (check_approval input effect)
  consume_if_given input effect draw event_id
  cas_effect (cas_matches input effect.id) (sent input capsule draw.now)
  refreshed ← lift (find_effect_row effect.id)
  λ t. ok (
    record {
      effect_id = refreshed.id;
      attempt_no = input.expected_attempt_no;
      effect_revision = refreshed.effect_revision;
      callback_intent_event_id = event_id;
      lease_version = version;
      callback_payload = payload;
    },
    t,
  )
