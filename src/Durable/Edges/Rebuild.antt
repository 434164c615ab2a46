-- ===== src/Durable/Edges/Rebuild.antt =====
-- Rebuilding the audit edges of a run brings them in step with its effects, repairs and receipts.
use ogra.Prelude.{
  ℕ, suc, String, ◌≡◌, refl, sym, subst, ◌∙◌, inl, inr, true, false, List, [], ◌∷◌, All, map,
  eq_iff, exists_row, select_all, delete_where, exists_row-split, select_all-delete_where,
  delete_where-twice, arith, Bool-cases,
}
use ogra.Durable.Effect.{AuditEdge, EffectTables, same_edge, edge_taken, append_edge}
use ogra.Durable.Edges.{
  RepairRow, Draft, run_edges, of_run, in_step, absent_from, expected_edges,
  verify_audit_edges_for_run, append_edges, rebuild_audit_edges_for_run,
}
use ogra.Durable.Edges.Drafts.{IsDraft, run_edges-IsDraft}
use ogra.Durable.Edges.Append.{
  append_edges-others, Covers, HaveIds, HaveIds-more, AreFresh, append_edges-there, AreKnown,
  append_edges-AreKnown,
}

run_edges-append_edge :
    (run_id : String) (repairs : List RepairRow) (e : AuditEdge) (t : EffectTables)
    → run_edges run_id repairs (append_edge e t) ≡ run_edges run_id repairs t
unfolding append_edge run_edges
run_edges-append_edge run_id repairs e t = elim (Bool-cases (exists_row (edge_taken e) t.edges)) [
  | inl there ↦ rw there
  | inr new ↦ rw new
]

run_edges-append_edges :
    (run_id : String) (repairs : List RepairRow) (ids : ℕ → String) (n : ℕ) (drafts : List Draft)
    (t : EffectTables)
    → run_edges run_id repairs (append_edges ids n drafts t) ≡ run_edges run_id repairs t
unfolding append_edges
run_edges-append_edges run_id repairs ids n [] t = refl
run_edges-append_edges run_id repairs ids n (d ∷ drafts) t =
    run_edges-append_edges run_id repairs ids (suc n) drafts (append_edge (d (ids n)) t)
    ∙ run_edges-append_edge run_id repairs (d (ids n)) t

nothing_absent :
    (known edges : List AuditEdge)
    → All (λ a. exists_row (same_edge a) known ≡ true) edges
    → select_all (absent_from known) edges ≡ []
unfolding select_all
nothing_absent known [] h = refl
nothing_absent known (x ∷ xs) (p, h) = ground (arith, p, nothing_absent known xs h)

-- The draft's edge is one of `known`, whatever its id.
abbrev IsAmong : List AuditEdge → Draft → Type 0
IsAmong known d = (i : String) → exists_row (same_edge (d i)) known ≡ true

IsAmong-more :
    (known : List AuditEdge) (e : AuditEdge) (ds : List Draft)
    → All (IsAmong known) ds
    → All (IsAmong (e ∷ known)) ds
unfolding exists_row
IsAmong-more known e [] h = tt
IsAmong-more known e (d ∷ ds) (k, h) = (λ i. ground (arith, k i), IsAmong-more known e ds h)

drafts-IsAmong :
    (run_id : String) (drafts : List Draft)
    → All (IsDraft run_id) drafts
    → All (IsAmong (expected_edges drafts)) drafts
unfolding exists_row
drafts-IsAmong run_id [] h = tt
drafts-IsAmong run_id (d ∷ drafts) ((own, key, same, named), hs) = (
  λ i. ground (arith, same i "expected"),
  IsAmong-more (expected_edges drafts) (d "expected") drafts (drafts-IsAmong run_id drafts hs),
)

-- No edge that another run holds has the key of one of the drafts.
abbrev pub IsUnclaimed : String → List AuditEdge → List Draft → Type 0
IsUnclaimed run_id edges drafts =
    All (λ d. exists_row (same_edge (d "expected")) (delete_where (of_run run_id) edges) ≡ false)
      drafts

-- Covered by the table and not by other runs is covered by the run.
own_cover :
    (run_id : String) (edges : List AuditEdge) (drafts : List Draft)
    → All (Covers edges) drafts
    → IsUnclaimed run_id edges drafts
    → All
        (λ a. exists_row (same_edge a) (select_all (of_run run_id) edges) ≡ true)
        (expected_edges drafts)
own_cover run_id edges [] h k = tt
own_cover run_id edges (d ∷ drafts) (c, h) (u, k) = (
  ground (arith, exists_row-split (same_edge (d "expected")) (of_run run_id) edges, c, u),
  own_cover run_id edges drafts h k,
)

-- What the table of edges holds does not change which edges are asked for.
run_edges-cleared :
    (run_id : String) (repairs : List RepairRow) (edges : List AuditEdge) (t : EffectTables)
    → run_edges run_id repairs (record t { edges = delete_where (of_run run_id) edges })
      ≡ run_edges run_id repairs t
unfolding run_edges
run_edges-cleared run_id repairs edges t = refl

none_left :
    (run_id : String) (known edges : List AuditEdge)
    → AreKnown run_id known (delete_where (of_run run_id) edges)
none_left run_id known edges =
    subst (λ xs. All (λ a. exists_row (same_edge a) known ≡ true) xs)
      (sym (select_all-delete_where (of_run run_id) edges)) tt

abbrev edge_ids : List AuditEdge → List String
edge_ids edges = map (λ (a : AuditEdge). a.id) edges

-- The ids of the edges of the other runs.
abbrev pub other_ids : String → List AuditEdge → List String
other_ids run_id edges = edge_ids (delete_where (of_run run_id) edges)

own_ids : (edges : List AuditEdge) → HaveIds (edge_ids edges) edges
own_ids [] = tt
own_ids (x ∷ xs) =
    (ground (arith, eq_iff x.id x.id), HaveIds-more (edge_ids xs) x.id xs (own_ids xs))

-- Rebuilding brings the edges of a run in step with its effects, repairs and receipts: afterwards
-- `verifyAuditEdgesForRun` reports nothing missing and nothing extra, whatever edges of the run were
-- there before. The conditions are that no other run holds an edge with one of the keys, and that
-- the ids drawn differ from each other and from the ids of the other runs' edges.
pub rebuild_in_step :
    (ids : ℕ → String) (run_id : String) (repairs : List RepairRow) (t : EffectTables)
    → IsUnclaimed run_id t.edges (run_edges run_id repairs t)
    → AreFresh ids 0 (run_edges run_id repairs t) (other_ids run_id t.edges)
    → verify_audit_edges_for_run run_id repairs (rebuild_audit_edges_for_run ids run_id repairs t).1
      ≡ record { missing = []; extra = []; reason = in_step }
unfolding verify_audit_edges_for_run rebuild_audit_edges_for_run
rebuild_in_step ids run_id repairs t unclaimed fresh =
    let cleared = record t { edges = delete_where (of_run run_id) t.edges } in
    let drafts = run_edges run_id repairs cleared in
    let after = append_edges ids 0 drafts cleared in
    let same = run_edges-append_edges run_id repairs ids 0 drafts cleared in
    let are_drafts = run_edges-IsDraft run_id repairs cleared in
    let others =
      append_edges-others run_id ids 0 drafts cleared are_drafts
      ∙ delete_where-twice (of_run run_id) t.edges in
    let free =
      subst
        (λ (es : List AuditEdge).
          All (λ d. exists_row (same_edge (d "expected")) es ≡ false) drafts)
        (sym others)
        (subst (IsUnclaimed run_id t.edges) (sym (run_edges-cleared run_id repairs t.edges t))
          unclaimed) in
    let covered =
      own_cover run_id after.edges drafts
        (append_edges-there run_id ids 0 drafts cleared (other_ids run_id t.edges) are_drafts
          (own_ids (delete_where (of_run run_id) t.edges))
          (subst (λ ds. AreFresh ids 0 ds (other_ids run_id t.edges))
            (sym (run_edges-cleared run_id repairs t.edges t)) fresh))
        free in
    let known =
      append_edges-AreKnown run_id (expected_edges drafts) ids 0 drafts cleared are_drafts
        (drafts-IsAmong run_id drafts are_drafts)
        (none_left run_id (expected_edges drafts) t.edges) in
    rw (
      same,
      nothing_absent (select_all (of_run run_id) after.edges) (expected_edges drafts) covered,
      nothing_absent (expected_edges drafts) (select_all (of_run run_id) after.edges) known,
    )
