-- ===== src/Durable/Frame/Lifecycle.antt =====
-- What each write of a frame does: the transition on every branch, and the insertions.
use ogra.Prelude.{
  ℕ, String, ◌≡◌, refl, ap, subst, ◌↔◌, inl, inr, true, Option, none, some, [], str_eq, select,
  insert_row, update_where, select-insert_row, select-update_where, select_sound, exists_row-select,
  arith, eq_iff, Option-cases, if◌then◌else◌,
}
use text.Mathlib.TextPositions.{eq_refl}
use ogra.Durable.Transaction.{ok, is_ok}
use ogra.Durable.Frame.{
  RunFrame, Frames, frame_transitions, includes_status, with_id, find_frame, root, is_root_of,
  new_frame,
}
use ogra.Durable.Frame.Operations.{
  root_body, bump_subtree, CreateFrameRequest, child_of, child_body, FrameTransitionRequest,
  is_terminal, moved, closed, expects, close_if_terminal, transition_body,
}

pub find-update :
    (id k : String) (f : RunFrame → RunFrame) (frames : Frames)
    → ((x : RunFrame) → (f x).id ≡ x.id)
    → find_frame id (update_where (with_id k) f frames)
      ≡ elim (find_frame id frames) [ none ↦ none | some x ↦ some (if with_id k x then f x else x) ]
find-update id k f frames h =
    select-update_where (with_id id) (with_id k) f frames (λ x. ap (λ i. str_eq i id) (h x))

pub find_frame_sound :
    (id : String) (frames : Frames) (x : RunFrame) → find_frame id frames ≡ some x → x.id ≡ id
find_frame_sound id frames x h = (eq_iff _ _).0 (select_sound (with_id id) frames x h)

-- The row that a transition leaves.
abbrev pub result_of : FrameTransitionRequest → ℕ → String → RunFrame → RunFrame
result_of req now event_id f =
    if is_terminal req.next_status then closed event_id (moved req now f) else moved req now f

-- The row of `id` after a transition of `k`.
abbrev pub row_after : FrameTransitionRequest → ℕ → String → String → RunFrame → RunFrame
row_after req now event_id id x = if str_eq req.frame_id id then result_of req now event_id x else x

moved-rows :
    (req : FrameTransitionRequest) (now : ℕ) (event_id id : String) (frames : Frames)
    → find_frame id (
        close_if_terminal req event_id (update_where (with_id req.frame_id) (moved req now) frames))
      ≡ elim (find_frame id frames) [
        | none ↦ none
        | some x ↦ some (row_after req now event_id id x)
      ]
moved-rows req now event_id id frames = elim (Option-cases (find_frame id frames)) [
  | inl free ↦ ground (
    arith,
    find-update id req.frame_id (moved req now) frames (λ x. refl),
    find-update id req.frame_id (closed event_id)
        (update_where (with_id req.frame_id) (moved req now) frames) (λ x. refl),
  )
  | inr (x, found) ↦ ground (
    arith,
    find-update id req.frame_id (moved req now) frames (λ y. refl),
    find-update id req.frame_id (closed event_id)
        (update_where (with_id req.frame_id) (moved req now) frames) (λ y. refl),
    find_frame_sound id frames x found,
    eq_iff x.id req.frame_id,
    eq_iff req.frame_id id,
  )
]

-- The status is left along an edge of `FRAME_TRANSITIONS`, from the status that the caller expects.
abbrev pub MayMove : FrameTransitionRequest → RunFrame → Type 0
MayMove req f =
    (includes_status (frame_transitions f.status) req.next_status ≡ true)
    × (expects req.expected_status f.status ≡ true)

-- What a committed transition of the row `f` has done.
abbrev pub Moved :
    FrameTransitionRequest → ℕ → String → Frames → RunFrame → RunFrame → Frames → Type 0
Moved req now event_id frames f f' after =
    (find_frame req.frame_id frames ≡ some f)
    × MayMove req f
    × (f' ≡ result_of req now event_id f)
    × ((id : String)
        → find_frame id after ≡ elim (find_frame id frames) [
          | none ↦ none
          | some x ↦ some (row_after req now event_id id x)
        ])

-- `transitionFrame` commits exactly if the frame exists, `FRAME_TRANSITIONS` has the edge from its
-- status, and that status is the expected one, where the caller expects one.
pub transition_commits_iff :
    (req : FrameTransitionRequest) (now : ℕ) (event_id : String) (frames : Frames)
    → (is_ok (transition_body req now event_id frames) ≡ true)
      ↔ ((f : RunFrame) × (find_frame req.frame_id frames ≡ some f) × MayMove req f)
unfolding transition_body
transition_commits_iff req now event_id frames =
    elim (Option-cases (find_frame req.frame_id frames)) [
      | inl free ↦ (λ h. absurd (ground arith), λ (f, found, may). absurd (ground arith))
      | inr (x, found) ↦ (
        λ h. (x, found, (ground arith, ground arith)),
        λ (f, found', may).
            ground (arith, moved-rows req now event_id req.frame_id frames, eq_refl req.frame_id),
      )
    ]

-- A committed transition returns the frame with the new status, the next subtree revision and, in a
-- terminal status, the event that closed it; every other frame is as it was.
pub transition-Moved :
    (req : FrameTransitionRequest) (now : ℕ) (event_id : String) (frames after : Frames)
    (f' : RunFrame)
    → transition_body req now event_id frames ≡ ok (f', after)
    → (f : RunFrame) × Moved req now event_id frames f f' after
unfolding transition_body
transition-Moved req now event_id frames after f' h =
    elim (Option-cases (find_frame req.frame_id frames)) [
      | inl free ↦ absurd (ground arith)
      | inr (x, found) ↦ (
        x,
        (
          found,
          (ground arith, ground arith),
          ground (arith, moved-rows req now event_id req.frame_id frames, eq_refl req.frame_id),
          λ id.
              subst
                (λ t. find_frame id t ≡ elim (find_frame id frames) [
                  | none ↦ none
                  | some y ↦ some (row_after req now event_id id y)
                ])
                (ground
                  (arith, moved-rows req now event_id req.frame_id frames, eq_refl req.frame_id))
                (moved-rows req now event_id id frames),
        ),
      )
    ]

-- What a committed `createRootFrame` has found and written.
pub root-inserted :
    (id run_id : String) (input_hash : Option String) (now : ℕ) (event_id : String) (f : RunFrame)
    (frames after : Frames)
    → root_body id run_id input_hash now event_id frames ≡ ok (f, after)
    → (find_frame id frames ≡ none)
      × (select (is_root_of run_id) frames ≡ none)
      × (after ≡ insert_row (new_frame id run_id none none root [] input_hash now event_id) frames)
unfolding root_body
root-inserted id run_id input_hash now event_id f frames after h =
    elim (Option-cases (find_frame id frames)) [
      | inl free ↦ elim (Option-cases (select (is_root_of run_id) frames)) [
        | inl rootless ↦ (
          free,
          rootless,
          ground (
            arith,
            eq_refl id,
            select-insert_row (with_id id)
                (new_frame id run_id none none root [] input_hash now event_id) frames,
            exists_row-select (with_id id) frames,
            exists_row-select (is_root_of run_id) frames,
          ),
        )
        | inr (x, found) ↦ absurd (ground (arith, exists_row-select (is_root_of run_id) frames))
      ]
      | inr (x, found) ↦ absurd (ground (arith, exists_row-select (with_id id) frames))
    ]

-- What a committed `createChildFrame` has found and written.
pub child-inserted :
    (req : CreateFrameRequest) (parent : RunFrame) (id : String) (now : ℕ) (event_id : String)
    (f : RunFrame) (frames after : Frames)
    → child_body req parent id now event_id frames ≡ ok (f, after)
    → (find_frame id frames ≡ none)
      × (after
          ≡ update_where
              (with_id req.parent_frame_id)
              (bump_subtree now)
              (insert_row (child_of req parent id now event_id) frames))
unfolding child_body
child-inserted req parent id now event_id f frames after h =
    let row = child_of req parent id now event_id in
    elim (Option-cases (find_frame id frames)) [
      | inl free ↦ (
        free,
        ground (
          arith,
          eq_refl id,
          select-insert_row (with_id id) row frames,
          find-update id req.parent_frame_id (bump_subtree now) (insert_row row frames) (λ x. refl),
          exists_row-select (with_id id) frames,
        ),
      )
      | inr (x, found) ↦ absurd (ground (arith, exists_row-select (with_id id) frames))
    ]
