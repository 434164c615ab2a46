-- ===== src/Durable/FrameTests.antt =====
-- Concrete frames: a root, completed, and a child.
use ogra.Prelude.{
  str_eq-false, ◌≡◌, ◌≢◌, refl, ◌↔◌, true, none, some, [], ◌∷◌, arith, select, insert_row,
  update_where, exists_row,
}
use ogra.Durable.Transaction.{ok, is_ok}
use ogra.Durable.Frame.{
  running, completed, root, plan_step, RunFrame, Frames, frame_transitions, find_frame, new_frame,
}
use ogra.Durable.Frame.Operations.{
  root_body, bump_subtree, CreateFrameRequest, child_of, child_body, child_parent,
  FrameTransitionRequest, transition_body, is_in_subtree,
}
use ogra.Durable.Frame.Lifecycle.{MayMove, transition_commits_iff}
use ogra.Durable.Frame.Final.{
  Reach, here, next, create_root, create_child, HasEnded, ended_frame_is_final,
}
use ogra.Durable.Frame.Tree.{IsTree, is_in_subtree-path, reachable-IsTree}

abbrev root_frame : RunFrame
root_frame = new_frame "f1" "run_1" none none root [] none 1 "evt_1"

abbrev to_child : CreateFrameRequest
to_child = record {
  run_id = "run_1";
  parent_frame_id = "f1";
  frame_kind = plan_step;
  run_step_id = none;
  input_hash = none;
}

abbrev child_frame : RunFrame
child_frame = child_of to_child root_frame "f2" 2 "evt_2"

abbrev two_frames : Frames
two_frames = bump_subtree 2 root_frame ∷ child_frame ∷ []

abbrev start_run : FrameTransitionRequest
start_run = record {
  frame_id = "f1";
  next_status = running;
  expected_status = none;
  output_hash = none;
}

abbrev complete_run : FrameTransitionRequest
complete_run = record start_run { next_status = completed; output_hash = some "out" }

abbrev running_root : RunFrame
running_root = record root_frame { status = running; subtree_revision = 2; updated_at = 3 }

abbrev done_root : RunFrame
done_root = record root_frame {
  status = completed;
  output_hash = some "out";
  subtree_revision = 3;
  updated_at = 4;
  terminal_event_id = some "evt_4";
}

abbrev done_and_child : Frames
done_and_child = record done_root { subtree_revision = 4; updated_at = 2 } ∷ child_frame ∷ []

root_made : root_body "f1" "run_1" none 1 "evt_1" [] ≡ ok (root_frame, root_frame ∷ [])
unfolding root_body exists_row insert_row select
root_made = refl

parent_read : child_parent to_child (root_frame ∷ []) ≡ ok root_frame
unfolding child_parent select
parent_read = refl

child_made :
    child_body to_child root_frame "f2" 2 "evt_2" (root_frame ∷ []) ≡ ok (child_frame, two_frames)
unfolding child_body exists_row insert_row update_where select
child_made = refl

started :
    transition_body start_run 3 "evt_3" (root_frame ∷ []) ≡ ok (running_root, running_root ∷ [])
unfolding transition_body frame_transitions update_where select
started = refl

done_parent : child_parent to_child (done_root ∷ []) ≡ ok done_root
unfolding child_parent select
done_parent = refl

child_of_done :
    child_body to_child done_root "f2" 2 "evt_2" (done_root ∷ []) ≡ ok (child_frame, done_and_child)
unfolding child_body exists_row insert_row update_where select
child_of_done = refl

named_f1 : root_frame.id ≢ ""
named_f1 = str_eq-false "f1" "" refl

named_f2 : child_frame.id ≢ ""
named_f2 = str_eq-false "f2" "" refl

two_reached : Reach [] two_frames
two_reached =
    next (next here (create_root "f1" "run_1" none 1 "evt_1" root_frame named_f1 root_made))
      (create_child to_child root_frame "f2" 2 "evt_2" child_frame named_f2 parent_read child_made)

child_found : find_frame "f2" two_frames ≡ some child_frame
unfolding select
child_found = refl

done_found : find_frame "f1" (done_root ∷ []) ≡ some done_root
unfolding select
done_found = refl

child_added : Reach (done_root ∷ []) done_and_child
child_added =
    next here (
      create_child to_child done_root "f2" 2 "evt_2" child_frame named_f2 done_parent child_of_done)

transition_commits_iff_example :
    (is_ok (transition_body start_run 3 "evt_3" (root_frame ∷ [])) ≡ true)
    ↔ ((f : RunFrame) × (find_frame "f1" (root_frame ∷ []) ≡ some f) × MayMove start_run f)
transition_commits_iff_example = transition_commits_iff start_run 3 "evt_3" (root_frame ∷ [])

ended_frame_is_final_example : HasEnded "f1" completed (some "out") (some "evt_4") done_and_child
ended_frame_is_final_example =
    ended_frame_is_final "f1" completed (some "out") (some "evt_4") (done_root ∷ []) done_and_child
      refl child_added (done_root, done_found, refl, refl, refl)

reachable-IsTree_example : IsTree two_frames
reachable-IsTree_example = reachable-IsTree two_frames two_reached

is_in_subtree-path_example : is_in_subtree 2 "f2" "f1" two_frames ≡ some true
is_in_subtree-path_example =
    is_in_subtree-path 2 "f2" "f1" two_frames child_frame (reachable-IsTree two_frames two_reached)
      child_found (omega arith)
