-- ===== src/Durable/Effect/Attempts.antt =====
-- The receipts of an effect: attempt numbers grow, and a receipt is never overwritten.
use ogra.Prelude.{
  ℕ, ◌<◌, String, ◌≡◌, refl, ap, ◌∙◌, ◌↔◌, inl, inr, true, none, some, List, [], ◌∷◌, str_eq,
  select, insert_row, All, select-insert_row, exists_row-select, arith, eq_iff, Option-cases,
  Bool-cases, if◌then◌else◌,
}
use text.Mathlib.TextPositions.{eq_refl}
use ogra.Durable.Transaction.{ok, is_ok}
use ogra.Durable.Effect.{
  RunEffect, EffectReceipt, AuditEdge, EffectTables, find_effect, append_edge,
}
use ogra.Durable.Effect.Receipt.{
  ReceiptAppendRequest, max_attempt, is_later, check_receipt, of_attempt, receipt_id_is,
  read_receipt, new_receipt, receipt_edge, insert_receipt, receipt_body,
}

-- Every receipt of the effect has a smaller attempt number.
abbrev pub IsBelow : String → ℕ → EffectReceipt → Type 0
IsBelow effect_id n r = r.effect_id ≡ effect_id → r.attempt_no < n

later_iff :
    (effect_id : String) (n : ℕ) (receipts : List EffectReceipt)
    → (is_later n (max_attempt effect_id receipts) ≡ true) ↔ All (IsBelow effect_id n) receipts
unfolding max_attempt
later_iff effect_id n [] = (λ h. tt, λ h. refl)
later_iff effect_id n (r ∷ rs) =
    let (down, up) = later_iff effect_id n rs in
    elim (Bool-cases (str_eq r.effect_id effect_id)) [
      | inl own ↦ elim (Option-cases (max_attempt effect_id rs)) [
        | inl e ↦ (
          λ h. (λ same. ground arith, down (ground arith)),
          λ (low, rest). ground (arith, low ((eq_iff _ _).0 own)),
        )
        | inr (m, e) ↦ (
          λ h. (λ same. ground arith, down (ground arith)),
          λ (low, rest). ground (arith, low ((eq_iff _ _).0 own), up rest),
        )
      ]
      | inr other ↦ (
        λ h. (λ same. absurd (ground (arith, eq_iff r.effect_id effect_id)), down (ground arith)),
        λ (low, rest). ground (arith, up rest),
      )
    ]

append_edge-receipts : (e : AuditEdge) (t : EffectTables) → (append_edge e t).receipts ≡ t.receipts
unfolding append_edge
append_edge-receipts e t = ground arith

-- `appendReceipt` accepts an attempt exactly if the effect exists and all its receipts have smaller
-- attempt numbers.
pub receipt_admits_iff :
    (req : ReceiptAppendRequest) (t : EffectTables)
    → (is_ok (check_receipt req t) ≡ true) ↔ (
        (e : RunEffect) × (find_effect req.effect_id t.effects ≡ some e)
        × All (IsBelow req.effect_id req.attempt_no) t.receipts)
unfolding check_receipt
receipt_admits_iff req t =
    let (down, up) = later_iff req.effect_id req.attempt_no t.receipts in
    elim (Option-cases (find_effect req.effect_id t.effects)) [
      | inl free ↦ (λ h. absurd (ground arith), λ (e, found, low). absurd (ground arith))
      | inr (e, found) ↦
          (λ h. (e, found, down (ground arith)), λ (f, found', low). ground (arith, up low))
    ]

receipt-written :
    (req : ReceiptAppendRequest) (e : RunEffect) (receipt_hash id edge_id event_id : String)
    (now : ℕ) (r : EffectReceipt) (t after : EffectTables)
    → receipt_body req e receipt_hash id edge_id now event_id t ≡ ok (r, after)
    → (select (of_attempt req.effect_id req.attempt_no) t.receipts ≡ none)
      × (r ≡ new_receipt req receipt_hash id now event_id)
      × (after.receipts ≡ insert_row r t.receipts)
unfolding receipt_body
receipt-written req e receipt_hash id edge_id event_id now r t after h =
    let row = new_receipt req receipt_hash id now event_id in
    let kept = append_edge-receipts (receipt_edge e id edge_id event_id) (insert_receipt row t) in
    elim (Option-cases (select (receipt_id_is id) t.receipts)) [
      | inl free ↦
          elim (Option-cases (select (of_attempt req.effect_id req.attempt_no) t.receipts)) [
            | inl first ↦ (
              first,
              ground (
                arith,
                kept,
                eq_refl id,
                select-insert_row (receipt_id_is id) row t.receipts,
                exists_row-select (receipt_id_is id) t.receipts,
                exists_row-select (of_attempt req.effect_id req.attempt_no) t.receipts,
              ),
              ground (
                arith,
                kept,
                eq_refl id,
                select-insert_row (receipt_id_is id) row t.receipts,
                exists_row-select (receipt_id_is id) t.receipts,
                exists_row-select (of_attempt req.effect_id req.attempt_no) t.receipts,
              ),
            )
            | inr (old, was) ↦ absurd (
                ground (
                  arith,
                  exists_row-select (receipt_id_is id) t.receipts,
                  exists_row-select (of_attempt req.effect_id req.attempt_no) t.receipts,
                ))
          ]
      | inr (old, was) ↦ absurd (ground (arith, exists_row-select (receipt_id_is id) t.receipts))
    ]

-- A committed `appendReceipt` stores the first receipt of its attempt, which `readReceipt` then
-- returns; the receipt of every other attempt reads back as before.
pub receipt_never_overwritten :
    (req : ReceiptAppendRequest) (e : RunEffect) (receipt_hash id edge_id event_id : String)
    (now : ℕ) (r : EffectReceipt) (t after : EffectTables)
    → receipt_body req e receipt_hash id edge_id now event_id t ≡ ok (r, after)
    → (read_receipt req.effect_id req.attempt_no t ≡ none)
      × (read_receipt req.effect_id req.attempt_no after ≡ some r)
      × ((effect_id : String) (n : ℕ)
          → read_receipt effect_id n after ≡ elim (read_receipt effect_id n t) [
            | some old ↦ some old
            | none ↦ if of_attempt effect_id n r then some r else none
          ])
unfolding read_receipt
receipt_never_overwritten req e receipt_hash id edge_id event_id now r t after h =
    let (first, made, written) =
      receipt-written req e receipt_hash id edge_id event_id now r t after h in
    let reads = λ (effect_id : String) (n : ℕ).
      ap (select (of_attempt effect_id n)) written
      ∙ select-insert_row (of_attempt effect_id n) r t.receipts in
    (
      first,
      ground (
        arith,
        reads req.effect_id req.attempt_no,
        eq_refl req.effect_id,
        ap (λ (x : EffectReceipt). x.effect_id) made,
        ap (λ (x : EffectReceipt). x.attempt_no) made,
      ),
      λ effect_id n. reads effect_id n,
    )
