-- ===== src/Durable/Frame/Tree.antt =====
-- The frames of the runtime are a forest whose `path` columns spell out the ancestors, and the loop
-- of `isInSubtree` decides exactly what the path says.
use ogra.Prelude.{
  ℕ, zero, suc, ◌<◌, String, ◌≡◌, ◌≢◌, refl, sym, ap, subst, ◌∙◌, ◌⊎◌, inl, inr, true, false, ◌||◌,
  Option, none, some, List, [], ◌∷◌, ◌++◌, length, length-append, includes, select, str_eq,
  insert_row, select-insert_row, arith, eq_iff, Option-cases, if◌then◌else◌,
}
use ogra.Durable.Transaction.{ok}
use ogra.Durable.Frame.{RunFrame, Frames, with_id, find_frame, root, new_frame}
use ogra.Durable.Frame.Operations.{
  root_body, bump_subtree, CreateFrameRequest, child_of, child_body, child_parent,
  FrameTransitionRequest, transition_body, is_in_subtree,
}
use ogra.Durable.Frame.Lifecycle.{
  find-update, find_frame_sound, row_after, transition-Moved, root-inserted, child-inserted,
}
use ogra.Durable.Frame.Final.{Step, create_root, create_child, transition, Reach, here, next}

-- A root has no path; a child's path is its parent's with the parent at the end.
abbrev pub IsPlaced : Frames → RunFrame → Type 0
IsPlaced frames f =
    ((f.parent_frame_id ≡ none) × (f.path ≡ []))
    ⊎ ((p : String) × (g : RunFrame) × (f.parent_frame_id ≡ some p)
        × (find_frame p frames ≡ some g)
        × (f.path ≡ g.path ++ p ∷ []))

abbrev pub IsTree : Frames → Type 0
IsTree frames =
    (id : String) (f : RunFrame) → find_frame id frames ≡ some f → (id ≢ "") × IsPlaced frames f

includes-snoc :
    (xs : List String) (p target : String)
    → includes (xs ++ p ∷ []) target ≡ (str_eq p target || includes xs target)
includes-snoc [] p target = refl
includes-snoc (x ∷ xs) p target = ground (arith, includes-snoc xs p target)

-- In a forest, `isInSubtree` on an existing frame ends after one round more than its path is long,
-- and answers whether the target is the frame itself or one of the ancestors on its path.
pub is_in_subtree-path :
    (fuel : ℕ) (cur target : String) (frames : Frames) (f : RunFrame)
    → IsTree frames
    → find_frame cur frames ≡ some f
    → length f.path < fuel
    → is_in_subtree fuel cur target frames ≡ some (str_eq cur target || includes f.path target)
unfolding is_in_subtree
is_in_subtree-path zero cur target frames f tree found enough = absurd (omega arith)
is_in_subtree-path (suc fuel) cur target frames f tree found enough =
    let (named, placed) = tree cur f found in
    elim placed [
      | inl (top, path) ↦ ground (arith, eq_iff cur "")
      | inr (p, g, up, above, path) ↦
          let shorter = ap length path ∙ length-append g.path (p ∷ []) in
          let rest =
            is_in_subtree-path fuel p target frames g tree above (omega (arith, shorter, enough)) in
          let spelled = ap (λ l. includes l target) path ∙ includes-snoc g.path p target in
          ground (arith, eq_iff cur "", rest, spelled)
    ]

-- A write that keeps the parent and the path of every row.
rewritten-IsTree :
    (frames after : Frames) (g : String → RunFrame → RunFrame)
    → ((id : String) (x : RunFrame) → (g id x).parent_frame_id ≡ x.parent_frame_id)
    → ((id : String) (x : RunFrame) → (g id x).path ≡ x.path)
    → ((id : String)
        → find_frame id after
          ≡ elim (find_frame id frames) [ none ↦ none | some x ↦ some (g id x) ])
    → IsTree frames
    → IsTree after
rewritten-IsTree frames after g parents paths rows tree id f found =
    elim (Option-cases (find_frame id frames)) [
      | inl free ↦ absurd (ground (arith, rows id))
      | inr (x, was) ↦
          let (named, placed) = tree id x was in
          let same : f ≡ g id x = ground (arith, rows id) in
          let parent = ap (λ (r : RunFrame). r.parent_frame_id) same ∙ parents id x in
          let path = ap (λ (r : RunFrame). r.path) same ∙ paths id x in
          (
            named,
            elim placed [
              | inl (top, bare) ↦ inl (parent ∙ top, path ∙ bare)
              | inr (p, h, up, above, spelled) ↦ inr (
                p,
                g p h,
                parent ∙ up,
                ground (arith, rows p),
                path ∙ spelled ∙ ap (λ l. l ++ p ∷ []) (sym (paths p h)),
              )
            ],
          )
    ]

still-IsPlaced :
    (frames : Frames) (row f : RunFrame) → IsPlaced frames f → IsPlaced (insert_row row frames) f
still-IsPlaced frames row f (inl top) = inl top
still-IsPlaced frames row f (inr (p, g, up, above, path)) =
    inr (p, g, up, ground (arith, select-insert_row (with_id p) row frames), path)

-- A new row at its place.
inserted-IsTree :
    (frames : Frames) (row : RunFrame)
    → row.id ≢ ""
    → find_frame row.id frames ≡ none
    → IsPlaced frames row
    → IsTree frames
    → IsTree (insert_row row frames)
inserted-IsTree frames row named free placed tree id f found =
    elim (Option-cases (find_frame id frames)) [
      | inl absent ↦
          let new : f ≡ row = ground (arith, select-insert_row (with_id id) row frames) in
          let own : row.id ≡ id =
            ground (arith, select-insert_row (with_id id) row frames, eq_iff row.id id) in
          (
            subst (λ i. i ≢ "") own named,
            subst (IsPlaced (insert_row row frames)) (sym new)
                (still-IsPlaced frames row row placed),
          )
      | inr (x, was) ↦
          let old : f ≡ x = ground (arith, select-insert_row (with_id id) row frames) in
          let (known, before) = tree id x was in
          (
            known,
            subst (IsPlaced (insert_row row frames)) (sym old) (still-IsPlaced frames row x before),
          )
    ]

root-IsTree :
    (id run_id : String) (input_hash : Option String) (now : ℕ) (event_id : String) (f : RunFrame)
    (frames after : Frames)
    → id ≢ ""
    → root_body id run_id input_hash now event_id frames ≡ ok (f, after)
    → IsTree frames
    → IsTree after
root-IsTree id run_id input_hash now event_id f frames after named h tree =
    let (free, rootless, written) =
      root-inserted id run_id input_hash now event_id f frames after h in
    subst IsTree (sym written) (
      inserted-IsTree frames (new_frame id run_id none none root [] input_hash now event_id) named
        free (inl (refl, refl)) tree)

parent_found :
    (req : CreateFrameRequest) (frames : Frames) (parent : RunFrame)
    → child_parent req frames ≡ ok parent
    → (find_frame req.parent_frame_id frames ≡ some parent)
      × (parent.id ≡ req.parent_frame_id)
      × (parent.run_id ≡ req.run_id)
unfolding child_parent
parent_found req frames parent h = elim (Option-cases (find_frame req.parent_frame_id frames)) [
  | inl free ↦ absurd (ground arith)
  | inr (x, found) ↦ (
    ground arith,
    ground (arith, find_frame_sound req.parent_frame_id frames x found),
    ground (arith, eq_iff x.run_id req.run_id),
  )
]

child-IsTree :
    (req : CreateFrameRequest) (parent : RunFrame) (id : String) (now : ℕ) (event_id : String)
    (f : RunFrame) (frames after : Frames)
    → id ≢ ""
    → child_parent req frames ≡ ok parent
    → child_body req parent id now event_id frames ≡ ok (f, after)
    → IsTree frames
    → IsTree after
child-IsTree req parent id now event_id f frames after named checked h tree =
    let (free, written) = child-inserted req parent id now event_id f frames after h in
    let (above, own, same_run) = parent_found req frames parent checked in
    let row = child_of req parent id now event_id in
    let inserted =
      inserted-IsTree frames row named free
        (inr (req.parent_frame_id, parent, refl, above, ap (λ p. parent.path ++ p ∷ []) own))
        tree in
    subst IsTree (sym written) (
      rewritten-IsTree (insert_row row frames) _
        (λ key x. if with_id req.parent_frame_id x then bump_subtree now x else x)
        (λ key x.
          elim (with_id req.parent_frame_id x)
            as (λ b. (if b then bump_subtree now x else x).parent_frame_id ≡ x.parent_frame_id) [
              | true ↦ refl
              | false ↦ refl
            ])
        (λ key x.
          elim (with_id req.parent_frame_id x)
            as (λ b. (if b then bump_subtree now x else x).path ≡ x.path) [
              | true ↦ refl
              | false ↦ refl
            ])
        (λ key.
          find-update key req.parent_frame_id (bump_subtree now) (insert_row row frames)
            (λ x. refl))
        inserted)

transition-IsTree :
    (req : FrameTransitionRequest) (now : ℕ) (event_id : String) (f : RunFrame)
    (frames after : Frames)
    → transition_body req now event_id frames ≡ ok (f, after)
    → IsTree frames
    → IsTree after
transition-IsTree req now event_id f frames after h tree =
    let (old, (was, may, returned, rows)) = transition-Moved req now event_id frames after f h in
    rewritten-IsTree frames after (row_after req now event_id) (λ key x. ground arith)
      (λ key x. ground arith) rows tree

no_frame : (id : String) (f : RunFrame) → find_frame id [] ≡ some f → ⊥
unfolding select
no_frame id f found = ground arith

Step-IsTree : (frames after : Frames) → Step frames after → IsTree frames → IsTree after
Step-IsTree frames after (create_root id run_id input_hash now event_id f named h) =
    root-IsTree id run_id input_hash now event_id f frames after named h
Step-IsTree frames after (create_child req parent id now event_id f named checked h) =
    child-IsTree req parent id now event_id f frames after named checked h
Step-IsTree frames after (transition req now event_id f h) =
    transition-IsTree req now event_id f frames after h

-- Every sequence of committed writes of the frames, from an empty table on, leaves a forest: each
-- frame is a root without a path, or has a stored parent and a path that is the parent's path with
-- the parent at its end.
pub reachable-IsTree : (frames : Frames) → Reach [] frames → IsTree frames
reachable-IsTree frames here = λ id f found. absurd (no_frame id f found)
reachable-IsTree frames (next {t} reach step) = Step-IsTree t frames step (reachable-IsTree t reach)
