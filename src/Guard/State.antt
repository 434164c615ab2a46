-- ===== src/Guard/State.antt =====
-- Types, budgets and the durable snapshot of ogra-desktop/src/core/progress-guard.ts.
use ogra.Prelude.{
  ℕ, String, Bool, false, Option, none, some, List, or_else, str_eq, select, insert_row, ◌*◌,
}

pub data ReasonCode : Type 0 where
  exhausted_action_count exhausted_steps loop_detected stagnation_detected : ReasonCode
  unknown_action : ReasonCode

-- `Required<ProgressGuardConfig>`
pub record Config : Type 0 where
  pub max_action_count : ℕ
  pub max_unique_actions : ℕ
  pub max_total_steps : ℕ
  pub max_wall_clock_ms : ℕ
  pub repeat_window : ℕ
  pub repeat_threshold : ℕ
  pub stagnation_ms : ℕ

-- `DEFAULTS`
abbrev pub defaults : Config
defaults = record {
  max_action_count = 200;
  max_unique_actions = 80;
  max_total_steps = 400;
  max_wall_clock_ms = 30 * 60 * 1000;
  repeat_window = 6;
  repeat_threshold = 4;
  stagnation_ms = 5 * 60 * 1000;
}

-- `ProgressGuardConfig`, where a key may be missing
pub record ConfigOverrides : Type 0 where
  pub max_action_count : Option ℕ
  pub max_unique_actions : Option ℕ
  pub max_total_steps : Option ℕ
  pub max_wall_clock_ms : Option ℕ
  pub repeat_window : Option ℕ
  pub repeat_threshold : Option ℕ
  pub stagnation_ms : Option ℕ

-- `{ ...DEFAULTS, ...cfg }`
abbrev pub configure : ConfigOverrides → Config
configure cfg = record {
  max_action_count = or_else cfg.max_action_count defaults.max_action_count;
  max_unique_actions = or_else cfg.max_unique_actions defaults.max_unique_actions;
  max_total_steps = or_else cfg.max_total_steps defaults.max_total_steps;
  max_wall_clock_ms = or_else cfg.max_wall_clock_ms defaults.max_wall_clock_ms;
  repeat_window = or_else cfg.repeat_window defaults.repeat_window;
  repeat_threshold = or_else cfg.repeat_threshold defaults.repeat_threshold;
  stagnation_ms = or_else cfg.stagnation_ms defaults.stagnation_ms;
}

-- A row of `progress_run_state`, whose primary key is the run.
pub record RunState : Type 0 where
  pub run_id : String
  pub action_count : ℕ
  pub unique_actions : ℕ
  pub total_steps : ℕ
  pub last_progress_at : Option ℕ
  pub last_repeat_target : Option String
  pub last_repeat_count : ℕ
  pub guard_terminated : Bool
  pub termination_reason_code : Option ReasonCode
  pub started_at : ℕ
  pub updated_at : ℕ

-- The budget kinds that the column allows; `observe` writes the first.
pub data BudgetKind : Type 0 where
  action_count unique_actions total_steps wall_clock_ms repeat_window : BudgetKind

-- A row of `progress_ledger`.
pub record LedgerRow : Type 0 where
  pub id : String
  pub run_id : String
  pub frame_id : Option String
  pub sequence_no : ℕ
  pub budget_kind : BudgetKind
  pub observed_value : ℕ
  pub budget_value : ℕ
  pub target : Option String
  pub decision_reason_code : Option ReasonCode
  pub l1_event_id : String

pub record GuardTables : Type 0 where
  pub states : List RunState
  pub ledger : List LedgerRow

-- `ObserveObserved`
pub record Observed : Type 0 where
  pub action_count : ℕ
  pub unique_actions : ℕ
  pub total_steps : ℕ
  pub started_at : ℕ
  pub last_progress_at : Option ℕ
  pub last_repeat_target : Option String
  pub last_repeat_count : ℕ

-- `LoadedObservedState`: the counters (`toObserved` takes them out) and the termination.
pub record LoadedObservedState : Type 0 where
  pub observed : Observed
  pub guard_terminated : Bool
  pub termination_reason_code : Option ReasonCode

abbrev pub of_run : String → RunState → Bool
of_run run_id s = str_eq s.run_id run_id

abbrev pub find_state : String → GuardTables → Option RunState
find_state run_id t = select (of_run run_id) t.states

-- The row as `loadObservedState` returns it.
abbrev pub loaded : RunState → LoadedObservedState
loaded s = record {
  observed = record {
    action_count = s.action_count;
    unique_actions = s.unique_actions;
    total_steps = s.total_steps;
    started_at = s.started_at;
    last_progress_at = s.last_progress_at;
    last_repeat_target = s.last_repeat_target;
    last_repeat_count = s.last_repeat_count;
  };
  guard_terminated = s.guard_terminated;
  termination_reason_code = s.termination_reason_code;
}

-- The row written for a run without one: `last_progress_at` is the time of the write.
abbrev pub first_state : ℕ → String → RunState
first_state now run_id = record {
  run_id = run_id;
  action_count = 0;
  unique_actions = 0;
  total_steps = 0;
  last_progress_at = some now;
  last_repeat_target = none;
  last_repeat_count = 0;
  guard_terminated = false;
  termination_reason_code = none;
  started_at = now;
  updated_at = now;
}

-- What is returned for it: `lastProgressAt` is null.
abbrev pub first_loaded : ℕ → LoadedObservedState
first_loaded now = record {
  observed = record {
    action_count = 0;
    unique_actions = 0;
    total_steps = 0;
    started_at = now;
    last_progress_at = none;
    last_repeat_target = none;
    last_repeat_count = 0;
  };
  guard_terminated = false;
  termination_reason_code = none;
}

-- `loadObservedState` at the time `now`.
unfoldable pub load_observed_state : ℕ → String → GuardTables → LoadedObservedState × GuardTables
load_observed_state now run_id t = elim (find_state run_id t) [
  | some s ↦ (loaded s, t)
  | none ↦ (first_loaded now, record t { states = insert_row (first_state now run_id) t.states })
]

-- `isGuardTerminated`
unfoldable pub is_guard_terminated : ℕ → String → GuardTables → Bool × GuardTables
is_guard_terminated now run_id t =
    let (s, t') = load_observed_state now run_id t in (s.guard_terminated, t')
