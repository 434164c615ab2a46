-- ===== src/Protocol/Commit.antt =====
-- `commitToTerminal` and `verifyAuthoritativeResultCapsule` of
-- ogra-desktop/src/core/effect-protocol-service.ts.
pub mod Method
use ogra.Prelude.{
  ℕ, ◌+◌, String, Bool, true, false, not, ◌&&◌, ◌||◌, Option, none, some, str_eq, opt_str_eq, ◌==◌,
  includes, is_some, select, insert_row, if◌then◌else◌,
}
use ogra.Audit.Json.{Json, null, bool, num, str, arr, obj}
use ogra.Audit.Event.{payload_hash}
use ogra.Durable.Transaction.{
  effect_invalid_transition, revision_conflict, receipt_not_found, capsule_invalid, Result, ok, err,
  Tx, ◌>>=◌, ◌>>◌, modify,
}
use ogra.Durable.Effect.{
  EffectState, received, committed, state_eq, RunEffect, ApplicationStatus, not_applied, applied,
  EffectReceipt, append_edge,
}
use ogra.Durable.Effect.Receipt.{receipt_id_is}
use ogra.Capsule.{OpenCapsule, Vault, Fresh}
use ogra.Capsule.Evidence.{ReceiptClaim, is_blank, property, is_text, open_result_for_receipt}
use ogra.Protocol.{
  IngressFinding, ProtocolTables, Draw, resolve_workspace_id, assert_active_lease, on_ledger,
  find_effect_row, in_vault, lift, in_state, cas_effect, ingress_edge,
}
use ogra.Protocol.Receipt.{receipt_tuple}

pub record CommitTerminalInput : Type 0 where
  pub effect_id : String
  pub expected_revision : ℕ
  pub expected_attempt_no : ℕ
  pub receipt_id : String
  pub lease_holder : String
  pub expected_lease_version : ℕ

pub record CommitTerminalOutput : Type 0 where
  pub effect_id : String
  pub ingress_finding_id : String
  pub effect_revision : ℕ

abbrev pub is_applied : ApplicationStatus → Bool
is_applied applied = true
is_applied not_applied = false
is_applied ApplicationStatus.unknown = false

-- `value === n`
abbrev is_number : ℕ → Option Json → Bool
is_number n (some (num m)) = m == n
is_number n (some null) = false
is_number n (some (bool b)) = false
is_number n (some (str s)) = false
is_number n (some (arr xs)) = false
is_number n (some (obj ms)) = false
is_number n none = false

-- `value === x` for a text or null
abbrev is_nullable : Option String → Option Json → Bool
is_nullable (some s) v = is_text s v
is_nullable none (some null) = true
is_nullable none (some (num m)) = false
is_nullable none (some (bool b)) = false
is_nullable none (some (str s)) = false
is_nullable none (some (arr xs)) = false
is_nullable none (some (obj ms)) = false
is_nullable none none = false

abbrev pub received_at : String → ℕ → RunEffect → Bool
received_at id revision e = in_state id received e && (e.effect_revision == revision)

abbrev pub as_committed : Draw → String → RunEffect → RunEffect
as_committed draw event_id e = record e {
  state = committed;
  effect_revision = e.effect_revision + 1;
  ingress_finding_id = some draw.finding_id;
  terminal_event_id = some event_id;
  updated_at = draw.now;
}

module _ (V : Vault) where
  open V use {platform}

  -- The tests on the receipt's row.
  unfoldable pub check_authoritative :
      RunEffect → String → ℕ → ProtocolTables → Result EffectReceipt
  check_authoritative effect receipt_id attempt t =
      if not (opt_str_eq effect.authoritative_receipt_id (some receipt_id))
      then err receipt_not_found
      else elim (select (receipt_id_is receipt_id) t.ledger.receipts) [
        | none ↦ err receipt_not_found
        | some r ↦
            if not (str_eq r.effect_id effect.id) || not (r.attempt_no == attempt)
            then err receipt_not_found
            else if not (is_applied r.application_status)
            then err effect_invalid_transition
            else if is_blank r.response_hash
                || not (
                    str_eq r.receipt_hash (
                      payload_hash platform (
                        receipt_tuple effect.id attempt r.request_hash r.response_hash
                          r.application_status r.provider_status)))
            then err capsule_invalid
            else ok r
      ]

  abbrev pub claim_of : RunEffect → EffectReceipt → ℕ → ProtocolTables → ReceiptClaim
  claim_of effect r attempt t = record {
    workspace_id = resolve_workspace_id effect.run_id t;
    effect_id = effect.id;
    receipt_id = r.id;
    attempt_no = attempt;
    result_capsule_ref = r.result_capsule_ref;
    result_capsule_hash = r.result_capsule_hash;
    result_capsule_format_version = r.result_capsule_format_version;
  }

  -- The tests on the opened result.
  unfoldable pub check_result : EffectReceipt → ℕ → OpenCapsule → Result (Unit {0})
  check_result r attempt o =
      if opt_str_eq (some o.binding.payload_fingerprint) r.response_hash
        && opt_str_eq (some (payload_hash platform o.payload)) r.response_hash
        && is_number attempt (property "attemptNo" o.payload)
        && is_text "applied" (property "applicationStatus" o.payload)
        && is_nullable r.provider_status (property "providerStatus" o.payload)
        && is_nullable r.request_id (property "requestId" o.payload)
        && is_nullable r.request_hash (property "requestHash" o.payload)
      then ok tt
      else err capsule_invalid

  -- `verifyAuthoritativeResultCapsule` inside the transaction
  unfoldable pub verify_in_transaction :
      RunEffect → String → ℕ → Fresh → Tx ProtocolTables (Unit {0})
  verify_in_transaction effect receipt_id attempt fresh = do
    r ← lift (check_authoritative effect receipt_id attempt)
    o ← λ t. in_vault (open_result_for_receipt V (claim_of effect r attempt t) fresh) t
    lift (λ t. check_result r attempt o)

  abbrev pub accepted : CommitTerminalInput → RunEffect → Draw → String → IngressFinding
  accepted input effect draw event_id = record {
    id = draw.finding_id;
    effect_id = effect.id;
    receipt_id = some input.receipt_id;
    finding_kind = "accepted";
    attempt_no = input.expected_attempt_no;
    event_id = some event_id;
    created_at = draw.now;
  }

  -- The body of `commitToTerminal`.
  unfoldable pub commit_body :
      CommitTerminalInput
      → RunEffect
      → Fresh
      → Draw
      → String
      → Tx ProtocolTables CommitTerminalOutput
  commit_body input effect fresh draw event_id = do
    lift
        (assert_active_lease effect.run_id input.lease_holder input.expected_lease_version draw.now)
    verify_in_transaction effect input.receipt_id input.expected_attempt_no fresh
    modify (λ (t : ProtocolTables). record t {
      findings = insert_row (accepted input effect draw event_id) t.findings;
    })
    cas_effect (received_at effect.id input.expected_revision) (as_committed draw event_id)
    modify (on_ledger (append_edge (ingress_edge effect draw.finding_id draw event_id)))
    refreshed ← lift (find_effect_row effect.id)
    λ t. ok (
      record {
        effect_id = refreshed.id;
        ingress_finding_id = draw.finding_id;
        effect_revision = refreshed.effect_revision;
      },
      t,
    )

-- The tests of `commitToTerminal` on the effect that it has read.
unfoldable pub check_commit : CommitTerminalInput → RunEffect → ProtocolTables → Result (Unit {0})
check_commit input effect t =
    if includes t.tool_effects input.effect_id
    then err effect_invalid_transition
    else if not (state_eq effect.state received)
    then err effect_invalid_transition
    else if not (effect.effect_revision == input.expected_revision)
    then err revision_conflict
    else ok tt
