-- ===== src/Durable/Edges/Append.antt =====
-- A row of calls of `appendEdge`: it takes no edge away, adds each edge that it is asked for, and
-- touches no other run.
use ogra.Prelude.{
  ℕ, suc, String, Bool, ◌≡◌, refl, sym, ap, subst, ◌∙◌, inl, inr, true, false, List, [], ◌∷◌, All,
  includes, str_eq, eq_iff, exists_row, select_all, delete_where, insert_row, exists_row-append,
  select_all-insert_row, delete_where-insert_row, arith, Bool-cases, if◌then◌else◌,
}
use ogra.Durable.Effect.{AuditEdge, EffectTables, same_edge, edge_taken, append_edge}
use ogra.Durable.Edges.{Draft, of_run, append_edges}
use ogra.Durable.Edges.Drafts.{same_edge_refl, IsDraft}

if_either : {A : Type 0} (P : A → Type 0) (b : Bool) (x y : A) → P x → P y → P (if b then x else y)
if_either P true x y p q = p
if_either P false x y p q = q

-- Adding edges takes none away, and touches no other run.
append_edge-grows :
    (p : AuditEdge → Bool) (e : AuditEdge) (t : EffectTables)
    → exists_row p t.edges ≡ true
    → exists_row p (append_edge e t).edges ≡ true
unfolding append_edge insert_row
append_edge-grows p e t h = ground (arith, exists_row-append p t.edges (e ∷ []))

append_edges-grows :
    (p : AuditEdge → Bool) (ids : ℕ → String) (n : ℕ) (drafts : List Draft) (t : EffectTables)
    → exists_row p t.edges ≡ true
    → exists_row p (append_edges ids n drafts t).edges ≡ true
unfolding append_edges
append_edges-grows p ids n [] t h = h
append_edges-grows p ids n (d ∷ drafts) t h =
    append_edges-grows p ids (suc n) drafts (append_edge (d (ids n)) t)
      (append_edge-grows p (d (ids n)) t h)

abbrev pub has_id : String → AuditEdge → Bool
has_id i a = str_eq a.id i

-- Where no row has the edge's id, only its key can be taken.
free_id :
    (e : AuditEdge) (xs : List AuditEdge)
    → exists_row (has_id e.id) xs ≡ false
    → exists_row (edge_taken e) xs ≡ exists_row (same_edge e) xs
unfolding exists_row
free_id e [] h = refl
free_id e (x ∷ xs) h = ground (arith, h, free_id e xs)

append_edge-there :
    (e : AuditEdge) (t : EffectTables)
    → exists_row (has_id e.id) t.edges ≡ false
    → exists_row (same_edge e) (append_edge e t).edges ≡ true
unfolding append_edge insert_row exists_row
append_edge-there e t free = ground (
  arith,
  free_id e t.edges free,
  exists_row-append (same_edge e) t.edges (e ∷ []),
  same_edge_refl e,
)

-- The ids that the edges may have.
abbrev pub HaveIds : List String → List AuditEdge → Type 0
HaveIds used edges = All (λ (a : AuditEdge). includes used a.id ≡ true) edges

-- The ids of the drafts, from the `n`-th on, are new and differ from each other.
abbrev pub AreFresh : (ℕ → String) → ℕ → List Draft → List String → Type 0
AreFresh ids n [] used = Unit
AreFresh ids n (d ∷ drafts) used =
    (includes used (ids n) ≡ false) × AreFresh ids (suc n) drafts (ids n ∷ used)

HaveIds-free :
    (used : List String) (i : String) (edges : List AuditEdge)
    → HaveIds used edges
    → includes used i ≡ false
    → exists_row (has_id i) edges ≡ false
unfolding exists_row
HaveIds-free used i [] h free = refl
HaveIds-free used i (x ∷ xs) (p, h) free = elim (Bool-cases (str_eq x.id i)) [
  | inl same ↦ absurd (ground (arith, p, free, ap (includes used) ((eq_iff x.id i).0 same)))
  | inr other ↦ ground (arith, other, HaveIds-free used i xs h free)
]

HaveIds-insert :
    (used : List String) (e : AuditEdge) (xs : List AuditEdge)
    → HaveIds used xs
    → HaveIds (e.id ∷ used) (insert_row e xs)
unfolding insert_row
HaveIds-insert used e [] h = (ground (arith, eq_iff e.id e.id), tt)
HaveIds-insert used e (x ∷ xs) (p, h) = (ground (arith, p), HaveIds-insert used e xs h)

pub HaveIds-more :
    (used : List String) (i : String) (xs : List AuditEdge)
    → HaveIds used xs
    → HaveIds (i ∷ used) xs
HaveIds-more used i [] h = tt
HaveIds-more used i (x ∷ xs) (p, h) = (ground (arith, p), HaveIds-more used i xs h)

append_edge-HaveIds :
    (used : List String) (e : AuditEdge) (t : EffectTables)
    → HaveIds used t.edges
    → HaveIds (e.id ∷ used) (append_edge e t).edges
unfolding append_edge
append_edge-HaveIds used e t h =
    if_either (λ (u : EffectTables). HaveIds (e.id ∷ used) u.edges)
      (exists_row (edge_taken e) t.edges) t _ (HaveIds-more used e.id t.edges h)
      (HaveIds-insert used e t.edges h)

append_edge-others :
    (run_id : String) (e : AuditEdge) (t : EffectTables)
    → of_run run_id e ≡ true
    → delete_where (of_run run_id) (append_edge e t).edges ≡ delete_where (of_run run_id) t.edges
unfolding append_edge
append_edge-others run_id e t h =
    ground (arith, delete_where-insert_row (of_run run_id) e t.edges h)

pub append_edges-others :
    (run_id : String) (ids : ℕ → String) (n : ℕ) (drafts : List Draft) (t : EffectTables)
    → All (IsDraft run_id) drafts
    → delete_where (of_run run_id) (append_edges ids n drafts t).edges
      ≡ delete_where (of_run run_id) t.edges
unfolding append_edges
append_edges-others run_id ids n [] t h = refl
append_edges-others run_id ids n (d ∷ drafts) t ((own, key, same, named), hs) =
    append_edges-others run_id ids (suc n) drafts (append_edge (d (ids n)) t) hs
    ∙ append_edge-others run_id (d (ids n)) t (own (ids n))

-- Whether an edge of the drafts' key is among the edges.
abbrev pub Covers : List AuditEdge → Draft → Type 0
Covers edges d = exists_row (same_edge (d "expected")) edges ≡ true

same_key :
    (run_id : String) (d : Draft) (i : String) (xs : List AuditEdge)
    → IsDraft run_id d
    → exists_row (same_edge (d "expected")) xs ≡ exists_row (same_edge (d i)) xs
unfolding exists_row
same_key run_id d i [] h = refl
same_key run_id d i (x ∷ xs) (own, key, same, named) =
    ground (arith, same_key run_id d i xs (own, key, same, named), key "expected" i x)

pub append_edges-there :
    (run_id : String) (ids : ℕ → String) (n : ℕ) (drafts : List Draft) (t : EffectTables)
    (used : List String)
    → All (IsDraft run_id) drafts
    → HaveIds used t.edges
    → AreFresh ids n drafts used
    → All (Covers (append_edges ids n drafts t).edges) drafts
unfolding append_edges
append_edges-there run_id ids n [] t used h have fresh = tt
append_edges-there run_id ids n (d ∷ drafts) t used (h, hs) have (new, fresh) =
    let next = append_edge (d (ids n)) t in
    let named = h.3 (ids n) in
    let free =
      ap (λ i. exists_row (has_id i) t.edges) named ∙ HaveIds-free used (ids n) t.edges have new in
    let have' =
      subst (λ i. HaveIds (i ∷ used) next.edges) named
        (append_edge-HaveIds used (d (ids n)) t have) in
    (
      append_edges-grows (same_edge (d "expected")) ids (suc n) drafts next
          (same_key run_id d (ids n) next.edges h ∙ append_edge-there (d (ids n)) t free),
      append_edges-there run_id ids (suc n) drafts next (ids n ∷ used) hs have' fresh,
    )

-- Every edge of the run is one of `known`.
abbrev pub AreKnown : String → List AuditEdge → List AuditEdge → Type 0
AreKnown run_id known edges =
    All (λ a. exists_row (same_edge a) known ≡ true) (select_all (of_run run_id) edges)

All-insert :
    (known : List AuditEdge) (e : AuditEdge) (xs : List AuditEdge)
    → exists_row (same_edge e) known ≡ true
    → All (λ a. exists_row (same_edge a) known ≡ true) xs
    → All (λ a. exists_row (same_edge a) known ≡ true) (insert_row e xs)
unfolding insert_row
All-insert known e [] p h = (p, tt)
All-insert known e (x ∷ xs) p (q, h) = (q, All-insert known e xs p h)

append_edge-AreKnown :
    (run_id : String) (known : List AuditEdge) (e : AuditEdge) (t : EffectTables)
    → of_run run_id e ≡ true
    → exists_row (same_edge e) known ≡ true
    → AreKnown run_id known t.edges
    → AreKnown run_id known (append_edge e t).edges
unfolding append_edge
append_edge-AreKnown run_id known e t own is_known h =
    let P : List AuditEdge → Type 0 = All (λ a. exists_row (same_edge a) known ≡ true) in
    elim (Bool-cases (exists_row (edge_taken e) t.edges)) [
      | inl there ↦
          subst (AreKnown run_id known)
            (ap (λ (u : EffectTables). u.edges)
              (sym (ap (λ b. if b then t else record t { edges = insert_row e t.edges }) there)))
            h
      | inr new ↦
          subst (AreKnown run_id known)
            (ap (λ (u : EffectTables). u.edges)
              (sym (ap (λ b. if b then t else record t { edges = insert_row e t.edges }) new)))
            (subst P (sym (select_all-insert_row (of_run run_id) e t.edges own))
              (All-insert known e (select_all (of_run run_id) t.edges) is_known h))
    ]

pub append_edges-AreKnown :
    (run_id : String) (known : List AuditEdge) (ids : ℕ → String) (n : ℕ) (drafts : List Draft)
    (t : EffectTables)
    → All (IsDraft run_id) drafts
    → All (λ d. (i : String) → exists_row (same_edge (d i)) known ≡ true) drafts
    → AreKnown run_id known t.edges
    → AreKnown run_id known (append_edges ids n drafts t).edges
unfolding append_edges
append_edges-AreKnown run_id known ids n [] t hs ks h = h
append_edges-AreKnown run_id known ids n (d ∷ drafts) t ((own, key, same, named), hs) (k, ks) h =
    append_edges-AreKnown run_id known ids (suc n) drafts (append_edge (d (ids n)) t) hs ks
      (append_edge-AreKnown run_id known (d (ids n)) t (own (ids n)) (k (ids n)) h)
