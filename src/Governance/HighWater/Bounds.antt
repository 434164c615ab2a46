-- ===== src/Governance/HighWater/Bounds.antt =====
-- The mark is the highest level among the sources, and the sources listed are those at it.
use ogra.Prelude.{
  ℕ, suc, ◌≤◌, max, String, ◌≡◌, refl, ◌∙◌, ap, ◌⊎◌, inl, List, [], ◌∷◌, ◌++◌, arith, ◌==◌, ltb,
  if◌then◌else◌,
}
use mathlib.Core.List.{append-nil, append_assoc}
use ogra.Governance.Classification.{
  Classification, public, internal, confidential, restricted, unrecognized, ℤ, pos, negsuc, level,
  rank,
}
use ogra.Governance.HighWater.{Source, Water, dry, rise, scan, settle, compute}

abbrev shift : ℤ → ℕ
shift (pos n) = suc n
shift (negsuc n) = 0

-- Either nothing above -1 was seen, or the classification kept is the one with the level kept.
abbrev IsLevelled : Water → Type 0
IsLevelled w = (w.max_level ≡ negsuc 0) ⊎ (w.max_level ≡ level w.max_classification)

rise-IsLevelled : (w : Water) (s : Source) → IsLevelled w → IsLevelled (rise w s)
unfolding rise
rise-IsLevelled w s h = ground arith

rise-rank :
    (w : Water) (s : Source)
    → IsLevelled w
    → shift (rise w s).max_level ≡ max (shift w.max_level) (rank s.classification)
unfolding rise
rise-rank w s h = ground arith

-- The highest rank among the sources, from a start.
abbrev pub top : ℕ → List Source → ℕ
top m [] = m
top m (s ∷ ss) = top (max m (rank s.classification)) ss

-- The names of the sources at a rank, in their order.
abbrev pub ids_at : ℕ → List Source → List String
ids_at m [] = []
ids_at m (s ∷ ss) = if rank s.classification == m then s.source_id ∷ ids_at m ss else ids_at m ss

scan-IsLevelled : (ss : List Source) (w : Water) → IsLevelled w → IsLevelled (scan ss w)
unfolding scan
scan-IsLevelled [] w h = h
scan-IsLevelled (s ∷ ss) w h = scan-IsLevelled ss (rise w s) (rise-IsLevelled w s h)

scan-top :
    (ss : List Source) (w : Water)
    → IsLevelled w
    → shift (scan ss w).max_level ≡ top (shift w.max_level) ss
unfolding scan
scan-top [] w h = refl
scan-top (s ∷ ss) w h =
    scan-top ss (rise w s) (rise-IsLevelled w s h) ∙ ap (λ m. top m ss) (rise-rank w s h)

top-ge : (m : ℕ) (ss : List Source) → m ≤ top m ss
top-ge m [] = omega arith
top-ge m (s ∷ ss) = omega (arith, top-ge (max m (rank s.classification)) ss)

rise-ids :
    (w : Water) (s : Source)
    → IsLevelled w
    → (rise w s).high_water_sources ≡ (
        if ltb (shift w.max_level) (rank s.classification)
        then s.source_id ∷ []
        else if rank s.classification == shift w.max_level
        then w.high_water_sources ++ s.source_id ∷ []
        else w.high_water_sources)
unfolding rise
rise-ids w s h = ground arith

-- The list of sources after the loop, from any point of it.
abbrev listed : ℕ → List String → List Source → List String
listed m kept ss = if m == top m ss then kept ++ ids_at m ss else ids_at (top m ss) ss

listed_step :
    (m r : ℕ) (kept : List String) (s : Source) (ss : List Source)
    → rank s.classification ≡ r
    → listed
        (max m r)
        (if ltb m r then s.source_id ∷ [] else if r == m then kept ++ s.source_id ∷ [] else kept)
        ss
      ≡ listed m kept (s ∷ ss)
listed_step m r kept s ss e =
    ground (arith, top-ge (max m r) ss, append_assoc kept (s.source_id ∷ []) (ids_at m ss))

-- With nothing recognised the mark is `Internal`, at rank 2.
abbrev pub settled : ℕ → ℕ
settled m = if m == 0 then 2 else m

scan-ids :
    (ss : List Source) (w : Water)
    → IsLevelled w
    → (scan ss w).high_water_sources ≡ listed (shift w.max_level) w.high_water_sources ss
unfolding scan
scan-ids [] w h = ground (arith, append-nil w.high_water_sources)
scan-ids (s ∷ ss) w h =
    rw (scan-ids ss (rise w s) (rise-IsLevelled w s h), rise-rank w s h, rise-ids w s h)
      (listed_step (shift w.max_level) (rank s.classification) w.high_water_sources s ss refl)

shift-level : (c : Classification) → shift (level c) ≡ rank c
shift-level public = refl
shift-level internal = refl
shift-level confidential = refl
shift-level restricted = refl
shift-level (unrecognized s) = refl

settle-rank :
    (w : Water)
    → IsLevelled w
    → (rank (settle w).high_water_mark ≡ settled (shift w.max_level))
      × (shift (settle w).classification_level ≡ settled (shift w.max_level))
unfolding settle
settle-rank w h = ground (arith, shift-level w.max_classification)

-- The rank of the mark, and the level reported with it, are those of the highest source, and those
-- of internal data when no source is recognised.
pub compute-attained :
    (ss : List Source)
    → (rank (compute ss).high_water_mark ≡ settled (top 0 ss))
      × (level (compute ss).high_water_mark ≡ (compute ss).classification_level)
unfolding compute
compute-attained ss =
    let h = scan-IsLevelled ss dry (inl refl) in
    let (r, l) = settle-rank (scan ss dry) h in
    (r ∙ ap settled (scan-top ss dry (inl refl)), ground (arith, h))

-- The sources reported are exactly those at the highest level, in their order.
pub compute-sources : (ss : List Source) → (compute ss).high_water_sources ≡ ids_at (top 0 ss) ss
unfolding compute
compute-sources ss = scan-ids ss dry (inl refl) ∙ ground arith
