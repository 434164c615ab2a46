-- ===== src/Protocol/Outcome.antt =====
-- `recordUnknownOutcome` and `cancelBeforeSend` of ogra-desktop/src/core/effect-protocol-service.ts.
use ogra.Prelude.{ℕ, ◌+◌, String, Bool, not, ◌&&◌, Option, none, some, [], ◌∷◌, ◌==◌, if◌then◌else◌}
use Prim.Native.String
use ogra.Audit.Json.{num, str, nullable, object}
use ogra.Audit.Chain.{Surroundings}
use ogra.Audit.Log.{EventLog}
use ogra.Durable.Transaction.{
  invalid_argument, effect_invalid_transition, revision_conflict, Result, ok, err, Tx, ◌>>◌, modify,
  Call, transactional_append, before_transaction,
}
use ogra.Durable.Effect.{
  EffectState, in_flight, planned, cancelled_before_send, state_eq, RunEffect, append_edge,
  effect_meta,
}
use ogra.Capsule.{missing, Fresh, FailureInput, record_failure}
use ogra.Protocol.{
  ProtocolTables, Draw, on_ledger, find_effect_row, in_state, cas_effect, ingress_edge,
}

pub record UnknownOutcomeInput : Type 0 where
  pub effect_id : String
  pub attempt_no : ℕ
  pub provider_status : Option String
  pub resolved_outcome : Option String

abbrev pub moved_to : EffectState → ℕ → RunEffect → RunEffect
moved_to s now e = record e { state = s; effect_revision = e.effect_revision + 1; updated_at = now }

unfoldable pub check_unknown : UnknownOutcomeInput → ProtocolTables → Result RunEffect
check_unknown input t = elim (find_effect_row input.effect_id t) [
  | err e ↦ err e
  | ok effect ↦
      if not (state_eq effect.state in_flight)
      then err effect_invalid_transition
      else if input.attempt_no == 0
      then err invalid_argument
      else ok effect
]

-- The source's detail is a longer text; like this one it is not in the closed set of details, so the
-- store replaces it.
abbrev unknown_failure : UnknownOutcomeInput → RunEffect → FailureInput
unknown_failure input effect = record {
  run_id = some effect.run_id;
  effect_id = some effect.id;
  workspace_id = none;
  capsule_ref = some "(no-trusted-receipt)";
  attempt_no = some input.attempt_no;
  failure_kind = missing;
  detail = "no trusted receipt; transition to unknown";
}

-- The body of `recordUnknownOutcome`; `incident_id` is the text `incident_<attempt>`.
unfoldable pub unknown_body :
    UnknownOutcomeInput → RunEffect → String → Fresh → Draw → String → Tx ProtocolTables EffectState
unknown_body input effect incident_id fresh draw event_id = do
  modify (λ (t : ProtocolTables). record t {
    vault = record_failure fresh (unknown_failure input effect) t.vault;
  })
  cas_effect (in_state effect.id in_flight) (moved_to EffectState.unknown draw.now)
  modify (on_ledger (append_edge (ingress_edge effect incident_id draw event_id)))
  λ t. ok (EffectState.unknown, t)

unfoldable pub check_cancel : String → ℕ → ProtocolTables → Result RunEffect
check_cancel effect_id expected_revision t = elim (find_effect_row effect_id t) [
  | err e ↦ err e
  | ok effect ↦
      if not (state_eq effect.state planned)
      then err effect_invalid_transition
      else if not (effect.effect_revision == expected_revision)
      then err revision_conflict
      else ok effect
]

abbrev pub planned_at : String → ℕ → RunEffect → Bool
planned_at id revision e = in_state id planned e && (e.effect_revision == revision)

-- The body of `cancelBeforeSend`.
unfoldable pub cancel_body : RunEffect → ℕ → Draw → String → Tx ProtocolTables EffectState
cancel_body effect expected_revision draw event_id = do
  cas_effect (planned_at effect.id expected_revision) (moved_to cancelled_before_send draw.now)
  modify (
      on_ledger (append_edge (ingress_edge effect (String.◌++◌ "cancel_" effect.id) draw event_id)))
  λ t. ok (cancelled_before_send, t)

module _ (L : EventLog) where
  -- `recordUnknownOutcome`
  unfoldable pub record_unknown_outcome :
      UnknownOutcomeInput → String → Fresh → Draw → Surroundings → Call L ProtocolTables EffectState
  record_unknown_outcome input incident_id fresh draw s =
      before_transaction L (check_unknown input) λ effect.
        transactional_append L s
          (effect_meta effect.run_id (some effect.owner_frame_id) effect.id "effect_unknown_state" (
            object (
              ("effectId", str effect.id)
              ∷ ("attemptNo", num input.attempt_no)
              ∷ ("providerStatus", nullable input.provider_status)
              ∷ ("resolvedOutcome", nullable input.resolved_outcome)
              ∷ [])))
          (unknown_body input effect incident_id fresh draw)

  -- `cancelBeforeSend`
  unfoldable pub cancel_before_send :
      String → ℕ → Draw → Surroundings → Call L ProtocolTables EffectState
  cancel_before_send effect_id expected_revision draw s =
      before_transaction L (check_cancel effect_id expected_revision) λ effect.
        transactional_append L s
          (effect_meta effect.run_id (some effect.owner_frame_id) effect.id
            "effect_cancelled_before_send" (object (("effectId", str effect.id) ∷ [])))
          (cancel_body effect expected_revision draw)
