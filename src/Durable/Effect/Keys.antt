-- ===== src/Durable/Effect/Keys.antt =====
-- An idempotency key is planned once.
use ogra.Prelude.{
  ℕ, String, ◌≡◌, ap, inl, inr, true, false, none, select, insert_row, exists_row,
  select-insert_row, exists_row-select, arith, Option-cases,
}
use text.Mathlib.TextPositions.{eq_refl}
use ogra.Durable.Transaction.{ok, is_ok}
use ogra.Durable.Effect.{RunEffect, AuditEdge, EffectTables, with_id, find_effect, append_edge}
use ogra.Durable.Effect.Plan.{
  PlannedEffectRequest, with_key, planned_effect, owner_edge, insert_effect, plan_body,
}

append_edge-effects : (e : AuditEdge) (t : EffectTables) → (append_edge e t).effects ≡ t.effects
unfolding append_edge
append_edge-effects e t = ground arith

pub plan-written :
    (req : PlannedEffectRequest) (id edge_id event_id : String) (now : ℕ) (e : RunEffect)
    (t after : EffectTables)
    → plan_body req id edge_id now event_id t ≡ ok (e, after)
    → (select (with_key req.idempotency_key_hash) t.effects ≡ none)
      × (e ≡ planned_effect req id now event_id)
      × (after.effects ≡ insert_row e t.effects)
unfolding plan_body
plan-written req id edge_id event_id now e t after h =
    let row = planned_effect req id now event_id in
    let kept = append_edge-effects (owner_edge req id edge_id event_id) (insert_effect row t) in
    elim (Option-cases (find_effect id t.effects)) [
      | inl free ↦ elim (Option-cases (select (with_key req.idempotency_key_hash) t.effects)) [
        | inl first ↦ (
          first,
          ground (
            arith,
            kept,
            eq_refl id,
            select-insert_row (with_id id) row t.effects,
            exists_row-select (with_id id) t.effects,
            exists_row-select (with_key req.idempotency_key_hash) t.effects,
          ),
          ground (
            arith,
            kept,
            eq_refl id,
            select-insert_row (with_id id) row t.effects,
            exists_row-select (with_id id) t.effects,
            exists_row-select (with_key req.idempotency_key_hash) t.effects,
          ),
        )
        | inr (old, was) ↦ absurd (
            ground (
              arith,
              exists_row-select (with_id id) t.effects,
              exists_row-select (with_key req.idempotency_key_hash) t.effects,
            ))
      ]
      | inr (old, was) ↦ absurd (ground (arith, exists_row-select (with_id id) t.effects))
    ]

taken_key :
    (req : PlannedEffectRequest) (id edge_id event_id : String) (now : ℕ) (t : EffectTables)
    → exists_row (with_key req.idempotency_key_hash) t.effects ≡ true
    → is_ok (plan_body req id edge_id now event_id t) ≡ false
unfolding plan_body
taken_key req id edge_id event_id now t h = ground arith

-- An idempotency key is planned once: a committed `planEffect` found no effect with its key, and
-- in the tables that it leaves no plan with that key commits, whatever its frame, its payload and
-- its ids.
pub idempotency_key_used_once :
    (req again : PlannedEffectRequest) (id edge_id event_id id' edge_id' event_id' : String)
    (now now' : ℕ) (e : RunEffect) (t after : EffectTables)
    → plan_body req id edge_id now event_id t ≡ ok (e, after)
    → again.idempotency_key_hash ≡ req.idempotency_key_hash
    → (exists_row (with_key req.idempotency_key_hash) t.effects ≡ false)
      × (is_ok (plan_body again id' edge_id' now' event_id' after) ≡ false)
idempotency_key_used_once req again id edge_id event_id id' edge_id' event_id' now now' e t after h
      same =
    let (first, made, written) = plan-written req id edge_id event_id now e t after h in
    (
      ground (arith, exists_row-select (with_key req.idempotency_key_hash) t.effects),
      taken_key again id' edge_id' event_id' now' after
          (elim (Option-cases (select (with_key again.idempotency_key_hash) t.effects)) [
            | inl free ↦ ground (
              arith,
              ap (exists_row (with_key again.idempotency_key_hash)) written,
              exists_row-select (with_key again.idempotency_key_hash) (insert_row e t.effects),
              select-insert_row (with_key again.idempotency_key_hash) e t.effects,
              same,
              eq_refl req.idempotency_key_hash,
              ap (λ (x : RunEffect). x.idempotency_key_hash) made,
            )
            | inr (old, was) ↦ ground (
              arith,
              ap (exists_row (with_key again.idempotency_key_hash)) written,
              exists_row-select (with_key again.idempotency_key_hash) (insert_row e t.effects),
              select-insert_row (with_key again.idempotency_key_hash) e t.effects,
            )
          ]),
    )
