-- ===== src/Guard/Observe.antt =====
-- `observe` of ogra-desktop/src/core/progress-guard.ts. Its transaction
-- throws nothing: the row that it updates is there, and the sequence number that it inserts is new.
use ogra.Prelude.{
  ℕ, ◌+◌, ◌-◌, String, Bool, true, false, not, Option, none, some, List, [], ◌∷◌, ltb, leb, or_else,
  opt_str_eq, is_empty, insert_row, update_where, if◌then◌else◌,
}
use ogra.Audit.Json.{num, str, object}
use ogra.Audit.Chain.{EventMeta, Surroundings}
use ogra.Audit.Log.{EventLog}
use ogra.Durable.Transaction.{ok, Call, transactional_append, before_transaction}
use ogra.Guard.Input.{ObserveInput, check_input}
use ogra.Guard.State.{
  ReasonCode, exhausted_action_count, exhausted_steps, loop_detected, stagnation_detected, Config,
  RunState, BudgetKind, LedgerRow, GuardTables, Observed, LoadedObservedState, of_run,
  load_observed_state,
}
use ogra.Guard.Window.{recent_targets, distinct, max_sequence_no}

-- The message of a decision, with the numbers it prints.
pub data Detail : Type 0 where
  action_count_over total_steps_over recent_unique_over wall_clock_over : ℕ → ℕ → Detail
  repeated : String → ℕ → ℕ → Detail
  no_progress : ℕ → ℕ → Detail
  already_terminated : Option ReasonCode → Detail

pub record Decision : Type 0 where
  pub reason : ReasonCode
  pub detail : Detail

pub record ObserveResult : Type 0 where
  pub ok : Bool
  pub reason_code : Option ReasonCode
  pub detail : Option Detail
  pub observed : Observed
  pub sequence_no : Option ℕ
  pub l1_event_id : Option String

abbrev pub delta : ObserveInput → ℕ
delta input = or_else input.progress_delta 0

-- The counters with this observation.
unfoldable pub measure : Config → ObserveInput → ℕ → Observed → List LedgerRow → Observed
unfolding distinct
measure cfg input now before ledger = record {
  action_count = before.action_count + 1;
  unique_actions =
      distinct (input.action_target ∷ recent_targets input.run_id cfg.repeat_window ledger);
  total_steps = before.total_steps + delta input;
  started_at = before.started_at;
  last_progress_at = if ltb 0 (delta input) then some now else before.last_progress_at;
  last_repeat_target = some input.action_target;
  last_repeat_count =
      if opt_str_eq before.last_repeat_target (some input.action_target)
      then before.last_repeat_count + 1
      else 1;
}

-- `if (breach) decisions.push(d)`, before the decisions that follow.
abbrev pub push_if : Bool → ReasonCode → Detail → List Decision → List Decision
push_if true reason detail rest = record { reason = reason; detail = detail } ∷ rest
push_if false reason detail rest = rest

-- The time since the last progress, if there is one.
abbrev pub idle : ℕ → Observed → Option ℕ
idle now seen = elim seen.last_progress_at [ none ↦ none | some p ↦ some (now - p) ]

-- The decision matrix, in the order of the code. A difference of times that is negative in the
-- code is 0 here, and no budget is negative.
unfoldable pub decisions : Config → ObserveInput → ℕ → Observed → List Decision
decisions cfg input now seen =
    push_if (ltb cfg.max_action_count seen.action_count) exhausted_action_count
      (action_count_over seen.action_count cfg.max_action_count)
      (push_if (ltb cfg.max_total_steps seen.total_steps) exhausted_steps
        (total_steps_over seen.total_steps cfg.max_total_steps)
        (push_if (ltb cfg.max_unique_actions seen.unique_actions) exhausted_action_count
          (recent_unique_over seen.unique_actions cfg.max_unique_actions)
          (push_if (ltb cfg.max_wall_clock_ms (now - seen.started_at)) exhausted_action_count
            (wall_clock_over (now - seen.started_at) cfg.max_wall_clock_ms)
            (push_if (leb cfg.repeat_threshold seen.last_repeat_count) loop_detected
              (repeated input.action_target seen.last_repeat_count cfg.repeat_window)
              (elim (idle now seen) [
                | none ↦ []
                | some since ↦
                    push_if (ltb cfg.stagnation_ms since) stagnation_detected
                      (no_progress since cfg.stagnation_ms) []
              ])))))

abbrev pub first_reason : List Decision → Option ReasonCode
first_reason [] = none
first_reason (d ∷ ds) = some d.reason

abbrev pub first_detail : List Decision → Option Detail
first_detail [] = none
first_detail (d ∷ ds) = some d.detail

abbrev pub ledger_row :
    Config → ObserveInput → String → String → ℕ → Observed → List Decision → LedgerRow
ledger_row cfg input row_id event_id sequence_no seen ds = record {
  id = row_id;
  run_id = input.run_id;
  frame_id = input.frame_id;
  sequence_no = sequence_no;
  budget_kind = BudgetKind.action_count;
  observed_value = seen.action_count;
  budget_value = cfg.max_action_count;
  target = some input.action_target;
  decision_reason_code = first_reason ds;
  l1_event_id = event_id;
}

-- `UPDATE progress_run_state SET …`
abbrev pub snapshot : ℕ → Observed → List Decision → RunState → RunState
snapshot now seen ds s = record s {
  action_count = seen.action_count;
  unique_actions = seen.unique_actions;
  total_steps = seen.total_steps;
  last_progress_at = seen.last_progress_at;
  last_repeat_target = seen.last_repeat_target;
  last_repeat_count = seen.last_repeat_count;
  guard_terminated = not (is_empty ds);
  termination_reason_code = first_reason ds;
  updated_at = now;
}

unfoldable pub record_observation :
    Config
    → ObserveInput
    → String
    → String
    → ℕ
    → Observed
    → GuardTables
    → ObserveResult × GuardTables
record_observation cfg input row_id event_id now seen t =
    let ds = decisions cfg input now seen in
    let sequence_no = max_sequence_no input.run_id t.ledger + 1 in
    (
      record {
        ok = is_empty ds;
        reason_code = first_reason ds;
        detail = first_detail ds;
        observed = seen;
        sequence_no = some sequence_no;
        l1_event_id = some event_id;
      },
      record {
        states = update_where (of_run input.run_id) (snapshot now seen ds) t.states;
        ledger = insert_row (ledger_row cfg input row_id event_id sequence_no seen ds) t.ledger;
      },
    )

-- The body of `observe` once the state `before` is loaded.
unfoldable pub observe_loaded :
    Config
    → ObserveInput
    → ℕ
    → String
    → String
    → LoadedObservedState
    → GuardTables
    → ObserveResult × GuardTables
observe_loaded cfg input clock row_id event_id before t =
    if before.guard_terminated
    then (
      record {
        ok = false;
        reason_code = before.termination_reason_code;
        detail = some (already_terminated before.termination_reason_code);
        observed = before.observed;
        sequence_no = none;
        l1_event_id = some event_id;
      },
      t,
    )
    else record_observation cfg input row_id event_id (or_else input.as_of clock)
        (measure cfg input (or_else input.as_of clock) before.observed t.ledger) t

-- The body of `observe`, at the time `clock` and with a random id for the ledger row.
unfoldable pub observe_body :
    Config → ObserveInput → ℕ → String → String → GuardTables → ObserveResult × GuardTables
observe_body cfg input clock row_id event_id t =
    let (before, t') = load_observed_state clock input.run_id t in
    observe_loaded cfg input clock row_id event_id before t'

abbrev observe_meta : ObserveInput → EventMeta
observe_meta input = record {
  run_id = input.run_id;
  workspace_id = input.workspace_id;
  event_type = "progress_observation";
  event_payload =
      object
        (("actionTarget", str input.action_target) ∷ ("progressDelta", num (delta input)) ∷ []);
  policy_version_hash = none;
  redaction_rule_version = none;
  frame_id = input.frame_id;
  effect_id = none;
  repair_transaction_id = none;
  caused_by_event_id = none;
  idempotency_key_hash = none;
  external_receipt_hash = none;
  target_subtree_revision = none;
}

module _ (L : EventLog) where
  -- `observe`
  unfoldable pub observe :
      Config → Surroundings → ℕ → String → ObserveInput → Call L GuardTables ObserveResult
  observe cfg s clock row_id input =
      before_transaction L (λ t. check_input input)
        λ _.
          transactional_append L s (observe_meta input)
            (λ event_id t. ok (observe_body cfg input clock row_id event_id t))
