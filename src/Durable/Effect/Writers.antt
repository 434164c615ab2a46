-- ===== src/Durable/Effect/Writers.antt =====
-- Two writers of one effect: of two at one revision only one commits.
use ogra.Prelude.{ℕ, String, ◌≡◌, ◌≢◌, true, some, arith}
use text.Mathlib.TextPositions.{eq_refl}
use ogra.Durable.Transaction.{revision_conflict, ok, err}
use ogra.Durable.Effect.{RunEffect, EffectTables, find_effect}
use ogra.Durable.Effect.Transition.{
  EffectTransitionRequest, check_effect, admit, check_transition, storable, effect_body,
}
use ogra.Durable.Effect.Ledger.{result_of, effect_transition_commits}

stale_revision :
    (req : EffectTransitionRequest) (now : ℕ) (e : RunEffect) (t : EffectTables)
    → find_effect req.effect_id t.effects ≡ some e
    → e.effect_revision ≢ req.expected_revision
    → check_transition req now t ≡ err revision_conflict
unfolding check_transition check_effect admit
stale_revision req now e t found other = ground arith

-- Of two writers that have read one effect at one revision, at most one commits: once a transition
-- of the effect has committed, every transition that expects the old revision is refused with
-- `REVISION_CONFLICT`, whatever it asks for.
pub second_writer_conflicts :
    (req again : EffectTransitionRequest) (e e' : RunEffect) (now now' : ℕ) (event_id : String)
    (t after : EffectTables)
    → find_effect e.id t.effects ≡ some e
    → storable req.next_state ≡ true
    → effect_body req e now event_id t ≡ ok (e', after)
    → again.effect_id ≡ e.id
    → again.expected_revision ≡ e.effect_revision
    → check_transition again now' after ≡ err revision_conflict
second_writer_conflicts req again e e' now now' event_id t after found fits h same_effect
      same_revision =
    let (left, committed, rows) = effect_transition_commits req e now event_id t found fits in
    let same : after ≡ left = ground arith in
    let row : find_effect again.effect_id after.effects ≡ some (result_of req now event_id e) =
      ground (arith, rows e.id, eq_refl e.id, same) in
    stale_revision again now' (result_of req now event_id e) after row (λ x. ground arith)
