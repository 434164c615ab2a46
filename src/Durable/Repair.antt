-- ===== src/Durable/Repair.antt =====
-- The preflight of a repair plan: the repeated-effect test, `isRepairActionAllowedInState` and the
-- dependency test of `verifyRepairInvariants` in
-- ogra-desktop/src/core/durable-runtime-service.ts. The keys of a `Map` or a `Set` are texts, and
-- an index is a native number.
pub mod Order
use ogra.Prelude.{
  ℕ, zero, suc, String, Bool, true, false, not, ◌&&◌, ◌||◌, Option, none, some, List, [], ◌∷◌,
  str_eq, leb, includes, map, if◌then◌else◌,
}
use ogra.Durable.Transaction.{repair_invalid, repair_dependency_reversed, Result, ok, err}
use ogra.Durable.Effect.{
  EffectState, planned, in_flight, received, committed, compensated, failed, cancelled_before_send,
  state_eq, RunEffect, EffectTables, read_effect,
}

pub data RepairAction : Type 0 where
  retry compensate preserve amend reconcile escalate : RepairAction

pub record RepairStepProposal : Type 0 where
  pub effect_id : String
  pub expected_effect_revision : ℕ
  pub action : RepairAction

-- `isRepairActionAllowedInState`
unfoldable pub is_repair_action_allowed_in_state : RepairAction → EffectState → Bool
is_repair_action_allowed_in_state retry s =
    state_eq s planned || state_eq s EffectState.unknown || state_eq s failed
is_repair_action_allowed_in_state compensate s = state_eq s committed
is_repair_action_allowed_in_state amend s = state_eq s planned || state_eq s EffectState.unknown
is_repair_action_allowed_in_state reconcile s =
    state_eq s in_flight || state_eq s EffectState.unknown || state_eq s received
is_repair_action_allowed_in_state preserve s =
    not (state_eq s compensated || state_eq s cancelled_before_send)
is_repair_action_allowed_in_state escalate s = true

abbrev pub ids : List RepairStepProposal → List String
ids plan = map (λ (s : RepairStepProposal). s.effect_id) plan

-- `seen.has(step.effectId)` for some step of the plan
unfoldable pub repeats : List String → List RepairStepProposal → Bool
repeats seen [] = false
repeats seen (s ∷ plan) = includes seen s.effect_id || repeats (s.effect_id ∷ seen) plan

-- `stepIndexByEffect.get(id)`, where a later step overwrites the entry of an earlier one; the first
-- step of the list has the index `i`.
unfoldable pub step_index_by_effect : ℕ → List RepairStepProposal → String → Option ℕ
step_index_by_effect i [] id = none
step_index_by_effect i (s ∷ plan) id = elim (step_index_by_effect (suc i) plan id) [
  | some j ↦ some j
  | none ↦ if str_eq s.effect_id id then some i else none
]

-- `depIdx >= own`, which is false where `own` is undefined
abbrev pub not_before : ℕ → Option ℕ → Bool
not_before i none = false
not_before i (some own) = leb own i

-- The loop over the dependencies of one step, whose own index is `own`.
unfoldable pub check_dependencies : (String → Option ℕ) → Option ℕ → List String → Result (Unit {0})
check_dependencies index own [] = ok tt
check_dependencies index own (d ∷ deps) =
    let rest = check_dependencies index own deps in
    elim (index d) [
      | none ↦ err repair_invalid
      | some i ↦ if not_before i own then err repair_dependency_reversed else rest
    ]

-- The loop over the steps.
unfoldable pub check_steps :
    (String → Option ℕ) → EffectTables → List RepairStepProposal → Result (Unit {0})
check_steps index t [] = ok tt
check_steps index t (s ∷ plan) =
    let rest = check_steps index t plan in
    elim (read_effect s.effect_id t) [
      | err e ↦ err e
      | ok effect ↦ elim (check_dependencies index (index effect.id) effect.dependency_effect_ids) [
        | err e ↦ err e
        | ok u ↦ rest
      ]
    ]

-- Test (e) of `verifyRepairInvariants`
unfoldable pub check_order : List RepairStepProposal → EffectTables → Result (Unit {0})
check_order plan t = check_steps (step_index_by_effect 0 plan) t plan
