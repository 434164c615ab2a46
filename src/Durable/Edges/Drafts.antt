-- ===== src/Durable/Edges/Drafts.antt =====
-- What the edges that the projection asks for have in common.
use ogra.Prelude.{
  String, ◌≡◌, refl, true, List, [], ◌∷◌, ◌++◌, map, All, str_eq, select_all, arith, eq_iff,
}
use ogra.Durable.Effect.{RunEffect, EffectReceipt, AuditEdge, EffectTables, same_edge}
use ogra.Durable.Edges.{
  RepairRow, Draft, owns_effect, has_repair, has_receipt, receipt_of_run, run_edges, of_run,
}

pub same_edge_refl : (e : AuditEdge) → same_edge e e ≡ true
same_edge_refl e = ground (
  arith,
  eq_iff e.from_kind e.from_kind,
  eq_iff e.from_id e.from_id,
  eq_iff e.relation e.relation,
  eq_iff e.to_kind e.to_kind,
  eq_iff e.to_id e.to_id,
)

-- What the drafts of `run_edges` have in common: the run, columns that do not depend
-- on the id, and the id that they are given.
abbrev pub IsDraft : String → Draft → Type 0
IsDraft run_id d =
    ((i : String) → of_run run_id (d i) ≡ true)
    × ((i j : String) (a : AuditEdge) → same_edge (d i) a ≡ same_edge (d j) a)
    × ((i j : String) → same_edge (d i) (d j) ≡ true)
    × ((i : String) → (d i).id ≡ i)

All-append :
    (run_id : String) (xs ys : List Draft)
    → All (IsDraft run_id) xs
    → All (IsDraft run_id) ys
    → All (IsDraft run_id) (xs ++ ys)
All-append run_id [] ys h k = k
All-append run_id (x ∷ xs) ys (p, h) k = (p, All-append run_id xs ys h k)

All-map :
    {A : Type 0} (run_id : String) (f : A → Draft) (xs : List A)
    → ((x : A) → IsDraft run_id (f x))
    → All (IsDraft run_id) (map f xs)
All-map run_id f [] h = tt
All-map run_id f (x ∷ xs) h = (h x, All-map run_id f xs h)

owns_effect-IsDraft : (run_id : String) (e : RunEffect) → IsDraft run_id (owns_effect run_id e)
owns_effect-IsDraft run_id e = (
  λ i. ground (arith, eq_iff run_id run_id),
  λ i j a. refl,
  λ i j. same_edge_refl (owns_effect run_id e i),
  λ i. refl,
)

has_repair-IsDraft : (run_id : String) (r : RepairRow) → IsDraft run_id (has_repair run_id r)
has_repair-IsDraft run_id r = (
  λ i. ground (arith, eq_iff run_id run_id),
  λ i j a. refl,
  λ i j. same_edge_refl (has_repair run_id r i),
  λ i. refl,
)

has_receipt-IsDraft : (run_id : String) (r : EffectReceipt) → IsDraft run_id (has_receipt run_id r)
has_receipt-IsDraft run_id r = (
  λ i. ground (arith, eq_iff run_id run_id),
  λ i j a. refl,
  λ i j. same_edge_refl (has_receipt run_id r i),
  λ i. refl,
)

pub run_edges-IsDraft :
    (run_id : String) (repairs : List RepairRow) (t : EffectTables)
    → All (IsDraft run_id) (run_edges run_id repairs t)
unfolding run_edges
run_edges-IsDraft run_id repairs t =
    let effects = select_all (λ (e : RunEffect). str_eq e.run_id run_id) t.effects in
    let own_repairs = select_all (λ (r : RepairRow). str_eq r.run_id run_id) repairs in
    let receipts = select_all (receipt_of_run run_id t) t.receipts in
    All-append run_id (map (owns_effect run_id) effects ++ map (has_repair run_id) own_repairs)
      (map (has_receipt run_id) receipts)
      (All-append run_id (map (owns_effect run_id) effects) (map (has_repair run_id) own_repairs)
        (All-map run_id (owns_effect run_id) effects (owns_effect-IsDraft run_id))
        (All-map run_id (has_repair run_id) own_repairs (has_repair-IsDraft run_id)))
      (All-map run_id (has_receipt run_id) receipts (has_receipt-IsDraft run_id))
