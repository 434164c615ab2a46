-- ===== src/Durable/Frame.antt =====
-- The execution frames: the types and `FRAME_TRANSITIONS` of
-- ogra-desktop/src/core/durable-runtime-types.ts, and the reads of
-- ogra-desktop/src/core/durable-runtime-service.ts. `path_json` is kept as the list that it encodes.
pub mod Operations
pub mod Lifecycle
pub mod Final
pub mod Tree
use ogra.Prelude.{
  ℕ, zero, suc, ◌+◌, String, Bool, true, false, not, ◌&&◌, ◌||◌, Option, none, some, List, [], ◌∷◌,
  ◌++◌, is_some, or_option, str_eq, select, insert_row, update_where, exists_row, if◌then◌else◌,
}
use ogra.Audit.Json.{Json, null, str, nullable, object}
use ogra.Audit.Chain.{EventMeta, Surroundings}
use ogra.Audit.Log.{EventLog}
use ogra.Durable.Transaction.{
  OgraErrorCode, invalid_argument, database_error, frame_not_found, frame_invalid_transition,
  effect_owner_mismatch, revision_conflict, Result, ok, err, Tx, ◌>>=◌, ◌>>◌, pure, throw, require,
  require_some, gets, modify, Call, transactional_append, before_transaction,
}

pub data FrameKind : Type 0 where
  root plan_step react repair synthesis : FrameKind

pub data FrameStatus : Type 0 where
  pending running awaiting_approval completed failed cancelled : FrameStatus

pub record RunFrame : Type 0 where
  pub id : String
  pub run_id : String
  pub parent_frame_id : Option String
  pub run_step_id : Option String
  pub frame_kind : FrameKind
  pub status : FrameStatus
  pub path : List String
  pub node_revision : ℕ
  pub subtree_revision : ℕ
  pub input_hash : Option String
  pub output_hash : Option String
  pub created_event_id : Option String
  pub terminal_event_id : Option String
  pub created_at : ℕ
  pub updated_at : ℕ

abbrev pub Frames : Type 0
Frames = List RunFrame

-- `FRAME_TRANSITIONS`
unfoldable pub frame_transitions : FrameStatus → List FrameStatus
frame_transitions pending = running ∷ awaiting_approval ∷ cancelled ∷ failed ∷ []
frame_transitions running = awaiting_approval ∷ completed ∷ failed ∷ cancelled ∷ []
frame_transitions awaiting_approval = running ∷ completed ∷ failed ∷ cancelled ∷ []
frame_transitions completed = []
frame_transitions failed = []
frame_transitions cancelled = []

abbrev pub status_code : FrameStatus → String
status_code pending = "pending"
status_code running = "running"
status_code awaiting_approval = "awaiting_approval"
status_code completed = "completed"
status_code failed = "failed"
status_code cancelled = "cancelled"

abbrev pub status_eq : FrameStatus → FrameStatus → Bool
status_eq a b = str_eq (status_code a) (status_code b)

abbrev pub includes_status : List FrameStatus → FrameStatus → Bool
includes_status [] s = false
includes_status (x ∷ xs) s = status_eq x s || includes_status xs s

abbrev pub with_id : String → RunFrame → Bool
with_id id f = str_eq f.id id

abbrev pub find_frame : String → Frames → Option RunFrame
find_frame id frames = select (with_id id) frames

-- `run_id = ? AND parent_frame_id IS NULL`
abbrev pub is_root_of : String → RunFrame → Bool
is_root_of run_id f = str_eq f.run_id run_id && not (is_some f.parent_frame_id)

-- `readFrame`
unfoldable pub read_frame : String → Frames → Result RunFrame
read_frame id frames = elim (find_frame id frames) [ some f ↦ ok f | none ↦ err frame_not_found ]

-- `rootFrameForRun`
unfoldable pub root_frame_for_run : String → Frames → Option RunFrame
root_frame_for_run run_id frames = select (is_root_of run_id) frames

abbrev pub reread_frame : String → Tx Frames RunFrame
reread_frame id = λ frames. require_some (find_frame id frames) frame_not_found frames

-- A new row: pending, at revision 1.
abbrev pub new_frame :
    String
    → String
    → Option String
    → Option String
    → FrameKind
    → List String
    → Option String
    → ℕ
    → String
    → RunFrame
new_frame id run_id parent step kind path input_hash now event_id = record {
  id = id;
  run_id = run_id;
  parent_frame_id = parent;
  run_step_id = step;
  frame_kind = kind;
  status = pending;
  path = path;
  node_revision = 1;
  subtree_revision = 1;
  input_hash = input_hash;
  output_hash = none;
  created_event_id = some event_id;
  terminal_event_id = none;
  created_at = now;
  updated_at = now;
}
