-- ===== src/Durable/Frame/Operations.antt =====
-- The writes of frames in ogra-desktop/src/core/durable-runtime-service.ts: `createRootFrame`,
-- `createChildFrame`, `transitionFrame`, and the walk of `isInSubtree`.
use ogra.Prelude.{
  ℕ, zero, suc, ◌+◌, String, Bool, true, false, not, Option, none, some, [], ◌∷◌, ◌++◌, or_option,
  str_eq, insert_row, update_where, exists_row, if◌then◌else◌,
}
use ogra.Audit.Json.{Json, str, nullable, object}
use ogra.Audit.Chain.{EventMeta, Surroundings}
use ogra.Audit.Log.{EventLog}
use ogra.Durable.Transaction.{
  invalid_argument, database_error, frame_not_found, frame_invalid_transition,
  effect_owner_mismatch, revision_conflict, Result, ok, err, Tx, ◌>>=◌, ◌>>◌, require, require_some,
  gets, modify, Call, transactional_append, before_transaction,
}
use ogra.Durable.Frame.{
  FrameKind, root, plan_step, react, repair, synthesis, FrameStatus, pending, running,
  awaiting_approval, completed, failed, cancelled, RunFrame, Frames, frame_transitions, status_code,
  status_eq, includes_status, with_id, find_frame, is_root_of, read_frame, reread_frame, new_frame,
}

-- The body of `createRootFrame`. The primary key and the unique index on a run's root are the
-- table's own.
unfoldable pub root_body : String → String → Option String → ℕ → String → Tx Frames RunFrame
root_body id run_id input_hash now event_id = do
  taken ← gets (exists_row (with_id id))
  require (not taken) database_error
  rooted ← gets (exists_row (is_root_of run_id))
  require (not rooted) database_error
  modify (insert_row (new_frame id run_id none none root [] input_hash now event_id))
  reread_frame id

abbrev pub bump_subtree : ℕ → RunFrame → RunFrame
bump_subtree now f = record f { subtree_revision = f.subtree_revision + 1; updated_at = now }

pub record CreateFrameRequest : Type 0 where
  pub run_id : String
  pub parent_frame_id : String
  pub frame_kind : FrameKind
  pub run_step_id : Option String
  pub input_hash : Option String

abbrev pub child_of : CreateFrameRequest → RunFrame → String → ℕ → String → RunFrame
child_of req parent id now event_id =
    new_frame id req.run_id (some req.parent_frame_id) req.run_step_id req.frame_kind
      (parent.path ++ parent.id ∷ []) req.input_hash now event_id

-- The body of `createChildFrame` under the parent that was read before.
unfoldable pub child_body : CreateFrameRequest → RunFrame → String → ℕ → String → Tx Frames RunFrame
child_body req parent id now event_id = do
  taken ← gets (exists_row (with_id id))
  require (not taken) database_error
  modify (insert_row (child_of req parent id now event_id))
  modify (update_where (with_id req.parent_frame_id) (bump_subtree now))
  reread_frame id

-- The tests of `createChildFrame` before the transaction.
unfoldable pub child_parent : CreateFrameRequest → Frames → Result RunFrame
child_parent req frames =
    if str_eq req.parent_frame_id ""
    then err invalid_argument
    else elim (find_frame req.parent_frame_id frames) [
      | none ↦ err frame_not_found
      | some parent ↦
          if str_eq parent.run_id req.run_id then ok parent else err effect_owner_mismatch
    ]

pub record FrameTransitionRequest : Type 0 where
  pub frame_id : String
  pub next_status : FrameStatus
  pub expected_status : Option FrameStatus
  pub output_hash : Option String

-- `['completed', 'failed', 'cancelled'].includes(status)`
abbrev pub is_terminal : FrameStatus → Bool
is_terminal completed = true
is_terminal failed = true
is_terminal cancelled = true
is_terminal pending = false
is_terminal running = false
is_terminal awaiting_approval = false

abbrev pub moved : FrameTransitionRequest → ℕ → RunFrame → RunFrame
moved req now f = record f {
  status = req.next_status;
  output_hash = or_option req.output_hash f.output_hash;
  subtree_revision = f.subtree_revision + 1;
  updated_at = now;
}

abbrev pub closed : String → RunFrame → RunFrame
closed event_id f = record f { terminal_event_id = some event_id }

-- `!expected || expected === current`
abbrev pub expects : Option FrameStatus → FrameStatus → Bool
expects none current = true
expects (some s) current = status_eq s current

abbrev pub close_if_terminal : FrameTransitionRequest → String → Frames → Frames
close_if_terminal req event_id frames =
    if is_terminal req.next_status
    then update_where (with_id req.frame_id) (closed event_id) frames
    else frames

-- The body of `transitionFrame`.
unfoldable pub transition_body : FrameTransitionRequest → ℕ → String → Tx Frames RunFrame
transition_body req now event_id = do
  found ← gets (find_frame req.frame_id)
  current ← require_some found frame_not_found
  require (includes_status (frame_transitions current.status) req.next_status)
      frame_invalid_transition
  require (expects req.expected_status current.status) revision_conflict
  modify (update_where (with_id req.frame_id) (moved req now))
  modify (close_if_terminal req event_id)
  reread_frame req.frame_id

-- The loop of `isInSubtree` in `fuel` rounds; `none` when they do not suffice.
unfoldable pub is_in_subtree : ℕ → String → String → Frames → Option Bool
is_in_subtree zero cur target frames = none
is_in_subtree (suc fuel) cur target frames =
    if str_eq cur ""
    then some false
    else if str_eq cur target
    then some true
    else elim (find_frame cur frames) [
      | none ↦ some false
      | some f ↦ elim f.parent_frame_id [
        | none ↦ some false
        | some parent ↦ is_in_subtree fuel parent target frames
      ]
    ]

abbrev frame_meta : String → String → String → Json → EventMeta
frame_meta run_id frame_id event_type payload = record {
  run_id = run_id;
  workspace_id = none;
  event_type = event_type;
  event_payload = payload;
  policy_version_hash = none;
  redaction_rule_version = none;
  frame_id = some frame_id;
  effect_id = none;
  repair_transaction_id = none;
  caused_by_event_id = none;
  idempotency_key_hash = none;
  external_receipt_hash = none;
  target_subtree_revision = none;
}

abbrev kind_name : FrameKind → String
kind_name root = "root"
kind_name plan_step = "plan_step"
kind_name react = "react"
kind_name repair = "repair"
kind_name synthesis = "synthesis"

module _ (L : EventLog) where
  unfoldable pub create_root_frame :
      Surroundings → ℕ → String → String → Option String → Call L Frames RunFrame
  create_root_frame s now id run_id input_hash =
      transactional_append L s
        (frame_meta run_id id "frame_created" (
          object (
            ("frameId", str id)
            ∷ ("frameKind", str "root")
            ∷ ("inputHash", nullable input_hash)
            ∷ [])))
        (root_body id run_id input_hash now)

  unfoldable pub create_child_frame :
      Surroundings → ℕ → String → CreateFrameRequest → Call L Frames RunFrame
  create_child_frame s now id req = before_transaction L (child_parent req) λ parent.
      transactional_append L s
        (frame_meta req.run_id id "frame_created" (
          object (
            ("frameId", str id)
            ∷ ("frameKind", str (kind_name req.frame_kind))
            ∷ ("parentFrameId", str req.parent_frame_id)
            ∷ ("runStepId", nullable req.run_step_id)
            ∷ ("inputHash", nullable req.input_hash)
            ∷ [])))
        (child_body req parent id now)

  -- The run of the audit event is the frame's.
  unfoldable pub transition_frame :
      Surroundings → ℕ → FrameTransitionRequest → Call L Frames RunFrame
  transition_frame s now req = before_transaction L (read_frame req.frame_id) λ existing.
      transactional_append L s
        (frame_meta existing.run_id req.frame_id "frame_transition" (
          object (
            ("frameId", str req.frame_id)
            ∷ ("nextStatus", str (status_code req.next_status))
            ∷ ("outputHash", nullable req.output_hash)
            ∷ [])))
        (transition_body req now)
