-- ===== src/Durable/Frame/Final.antt =====
-- The frames over time: a terminal frame stays as it ended.
use ogra.Prelude.{
  ℕ, String, ◌≡◌, ◌≢◌, refl, ap, ◌∙◌, inl, inr, true, false, Option, some, str_eq, insert_row,
  update_where, select-insert_row, arith, eq_iff, Bool-cases, if◌then◌else◌,
}
use ogra.Durable.Transaction.{ok}
use ogra.Durable.Frame.{
  FrameStatus, RunFrame, Frames, frame_transitions, includes_status, with_id, find_frame,
}
use ogra.Durable.Frame.Operations.{
  root_body, bump_subtree, CreateFrameRequest, child_body, child_parent, FrameTransitionRequest,
  is_terminal, transition_body,
}
use ogra.Durable.Frame.Lifecycle.{find-update, transition-Moved, root-inserted, child-inserted}

-- One committed write of the frames, a new frame with an id that is not empty, a child under the
-- parent that was read before the transaction.
pub data Step (frames after : Frames) : Type 0 where
  create_root :
      (id run_id : String) (input_hash : Option String) (now : ℕ) (event_id : String) (f : RunFrame)
      → id ≢ ""
      → root_body id run_id input_hash now event_id frames ≡ ok (f, after)
      → Step frames after
  create_child :
      (req : CreateFrameRequest) (parent : RunFrame) (id : String) (now : ℕ) (event_id : String)
      (f : RunFrame)
      → id ≢ ""
      → child_parent req frames ≡ ok parent
      → child_body req parent id now event_id frames ≡ ok (f, after)
      → Step frames after
  transition :
      (req : FrameTransitionRequest) (now : ℕ) (event_id : String) (f : RunFrame)
      → transition_body req now event_id frames ≡ ok (f, after)
      → Step frames after

pub data Reach (start : Frames) : Frames → Type 0 where
  here : Reach start start
  next : {t u : Frames} → Reach start t → Step t u → Reach start u

-- The frame `id` has this status and this outcome.
abbrev pub HasEnded : String → FrameStatus → Option String → Option String → Frames → Type 0
HasEnded id status output_hash terminal_event_id frames =
    (f : RunFrame) × (find_frame id frames ≡ some f)
    × (f.status ≡ status)
    × (f.output_hash ≡ output_hash)
    × (f.terminal_event_id ≡ terminal_event_id)

find-inserted :
    (id : String) (f x : RunFrame) (frames : Frames)
    → find_frame id frames ≡ some x
    → find_frame id (insert_row f frames) ≡ some x
find-inserted id f x frames found = ground (arith, select-insert_row (with_id id) f frames)

root-HasEnded :
    (key : String) (status : FrameStatus) (out term : Option String) (id run_id : String)
    (input_hash : Option String) (now : ℕ) (event_id : String) (f : RunFrame)
    (frames after : Frames)
    → root_body id run_id input_hash now event_id frames ≡ ok (f, after)
    → HasEnded key status out term frames
    → HasEnded key status out term after
root-HasEnded key status out term id run_id input_hash now event_id f frames after h
      (x, found, e, o, t) =
    let (free, rootless, inserted) =
      root-inserted id run_id input_hash now event_id f frames after h in
    (x, ap (find_frame key) inserted ∙ find-inserted key _ x frames found, e, o, t)

bumped-row :
    (key k : String) (now : ℕ) (x : RunFrame) (frames : Frames)
    → find_frame key frames ≡ some x
    → find_frame key (update_where (with_id k) (bump_subtree now) frames)
      ≡ some (if with_id k x then bump_subtree now x else x)
bumped-row key k now x frames found =
    ground (arith, find-update key k (bump_subtree now) frames (λ y. refl))

child-HasEnded :
    (key : String) (status : FrameStatus) (out term : Option String) (req : CreateFrameRequest)
    (parent : RunFrame) (id : String) (now : ℕ) (event_id : String) (f : RunFrame)
    (frames after : Frames)
    → child_body req parent id now event_id frames ≡ ok (f, after)
    → HasEnded key status out term frames
    → HasEnded key status out term after
child-HasEnded key status out term req parent id now event_id f frames after h (x, found, e, o, t) =
    let (free, written) = child-inserted req parent id now event_id f frames after h in
    let row =
      ap (find_frame key) written
      ∙ bumped-row key req.parent_frame_id now x _ (find-inserted key _ x frames found) in
    elim (Bool-cases (with_id req.parent_frame_id x)) [
      | inl own ↦ (
        bump_subtree now x,
        row ∙ ap (λ b. some (if b then bump_subtree now x else x)) own,
        e,
        o,
        t,
      )
      | inr other ↦ (x, row ∙ ap (λ b. some (if b then bump_subtree now x else x)) other, e, o, t)
    ]

no_edge :
    (status to : FrameStatus)
    → is_terminal status ≡ true
    → includes_status (frame_transitions status) to ≡ false
unfolding frame_transitions
no_edge FrameStatus.completed to h = refl
no_edge FrameStatus.failed to h = refl
no_edge FrameStatus.cancelled to h = refl
no_edge FrameStatus.pending to h = absurd (ground arith)
no_edge FrameStatus.running to h = absurd (ground arith)
no_edge FrameStatus.awaiting_approval to h = absurd (ground arith)

transition-HasEnded :
    (key : String) (status : FrameStatus) (out term : Option String) (req : FrameTransitionRequest)
    (now : ℕ) (event_id : String) (f : RunFrame) (frames after : Frames)
    → is_terminal status ≡ true
    → transition_body req now event_id frames ≡ ok (f, after)
    → HasEnded key status out term frames
    → HasEnded key status out term after
transition-HasEnded key status out term req now event_id f frames after ended h
      (x, found, e, o, t) =
    let (old, (was, (edge, expected), returned, rows)) =
      transition-Moved req now event_id frames after f h in
    elim (Bool-cases (str_eq req.frame_id key)) [
      | inl own ↦
          absurd (ground (arith, no_edge old.status req.next_status, eq_iff req.frame_id key))
      | inr other ↦ (x, rows key ∙ ground arith, e, o, t)
    ]

Step-HasEnded :
    (key : String) (status : FrameStatus) (out term : Option String) (frames after : Frames)
    → is_terminal status ≡ true
    → Step frames after
    → HasEnded key status out term frames
    → HasEnded key status out term after
Step-HasEnded key status out term frames after ended
      (create_root id run_id input_hash now event_id f named h) =
    root-HasEnded key status out term id run_id input_hash now event_id f frames after h
Step-HasEnded key status out term frames after ended
      (create_child req parent id now event_id f named checked h) =
    child-HasEnded key status out term req parent id now event_id f frames after h
Step-HasEnded key status out term frames after ended (transition req now event_id f h) =
    transition-HasEnded key status out term req now event_id f frames after ended h

-- A terminal frame is final: through every sequence of committed writes of the frames, whichever
-- frames they are about, it keeps its status, its output hash and the event that closed it.
pub ended_frame_is_final :
    (key : String) (status : FrameStatus) (out term : Option String) (frames after : Frames)
    → is_terminal status ≡ true
    → Reach frames after
    → HasEnded key status out term frames
    → HasEnded key status out term after
ended_frame_is_final key status out term frames after ended here h = h
ended_frame_is_final key status out term frames after ended (next {t} reach step) h =
    Step-HasEnded key status out term t after ended step
      (ended_frame_is_final key status out term frames t ended reach h)
