-- ===== src/Governance/HighWater.antt =====
-- ogra-desktop/src/core/high-water-mark.ts: `HighWaterMarkService`.
pub mod Bounds
use ogra.Prelude.{ℕ, String, Bool, true, false, ◌||◌, List, [], ◌∷◌, ◌++◌, if◌then◌else◌}
use ogra.Governance.Classification.{
  Classification, public, internal, confidential, restricted, unrecognized, ℤ, pos, negsuc, gtb_ℤ,
  eqb_ℤ, level,
}

pub record Source : Type 0 where
  pub source_type : String
  pub source_id : String
  pub classification : Classification

-- The variables of the loop in `compute`.
pub record Water : Type 0 where
  pub max_level : ℤ
  pub max_classification : Classification
  pub high_water_sources : List String

pub record HighWaterMark : Type 0 where
  pub high_water_mark : Classification
  pub high_water_sources : List String
  pub classification_level : ℤ

abbrev pub dry : Water
dry = record { max_level = negsuc 0; max_classification = internal; high_water_sources = [] }

unfoldable pub rise : Water → Source → Water
rise w s =
    if gtb_ℤ (level s.classification) w.max_level
    then record {
      max_level = level s.classification;
      max_classification = s.classification;
      high_water_sources = s.source_id ∷ [];
    }
    else if eqb_ℤ (level s.classification) w.max_level
    then record w { high_water_sources = w.high_water_sources ++ s.source_id ∷ [] }
    else w

unfoldable pub scan : List Source → Water → Water
scan [] w = w
scan (s ∷ ss) w = scan ss (rise w s)

-- The reading of the loop's variables after it.
unfoldable pub settle : Water → HighWaterMark
settle w = record {
  high_water_mark = if gtb_ℤ (pos 0) w.max_level then internal else w.max_classification;
  high_water_sources = w.high_water_sources;
  classification_level = if gtb_ℤ (pos 0) w.max_level then pos 1 else w.max_level;
}

unfoldable pub compute : List Source → HighWaterMark
unfolding scan settle rise
compute sources = settle (scan sources dry)

pub data StrictMode : Type 0 where
  alpha beta : StrictMode

abbrev is_public : Classification → Bool
is_public public = true
is_public _ = false

abbrev is_internal : Classification → Bool
is_internal internal = true
is_internal _ = false

unfoldable pub is_cloud_allowed : Classification → StrictMode → Bool
is_cloud_allowed c alpha = is_public c
is_cloud_allowed c beta = is_public c || is_internal c
