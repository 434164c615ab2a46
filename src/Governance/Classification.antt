-- ===== src/Governance/Classification.antt =====
-- ogra-desktop/src/shared/types.ts: `DataClassification`, and the texts that are none of it, since
-- the services look a classification up by its text.
use ogra.Prelude.{ℕ, String, Bool, true, false, ltb, ◌==◌}

pub data Classification : Type 0 where
  public internal confidential restricted : Classification
  unrecognized : String → Classification

-- A JavaScript integer that may be negative; `negsuc n` is -(n + 1).
pub data ℤ : Type 0 where
  pos : ℕ → ℤ
  negsuc : ℕ → ℤ

-- `a > b`
abbrev pub gtb_ℤ : ℤ → ℤ → Bool
gtb_ℤ (pos a) (pos b) = ltb b a
gtb_ℤ (pos a) (negsuc b) = true
gtb_ℤ (negsuc a) (pos b) = false
gtb_ℤ (negsuc a) (negsuc b) = ltb a b

-- `a === b`
abbrev pub eqb_ℤ : ℤ → ℤ → Bool
eqb_ℤ (pos a) (pos b) = a == b
eqb_ℤ (pos a) (negsuc b) = false
eqb_ℤ (negsuc a) (pos b) = false
eqb_ℤ (negsuc a) (negsuc b) = a == b

-- `classificationOrder[c] ?? -1`
abbrev pub level : Classification → ℤ
level public = pos 0
level internal = pos 1
level confidential = pos 2
level restricted = pos 3
level (unrecognized s) = negsuc 0

-- The level of the enum's own constants, and 0 below them for any other text.
abbrev pub rank : Classification → ℕ
rank public = 1
rank internal = 2
rank confidential = 3
rank restricted = 4
rank (unrecognized s) = 0
