-- ===== src/Guard/Input.antt =====
-- The input of `observe` of ogra-desktop/src/core/progress-guard.ts and the tests on it.
use ogra.Prelude.{
  ℕ, String, Bool, true, false, not, ◌&&◌, ◌||◌, Option, List, [], ◌∷◌, ltb, leb, ◌==◌, or_else,
  str_eq, is_empty, if◌then◌else◌,
}
use ogra.Audit.Json.{codes}
use ogra.Durable.Transaction.{invalid_argument, Result, ok, err}

pub record ObserveInput : Type 0 where
  pub run_id : String
  pub workspace_id : Option String
  pub frame_id : Option String
  pub action_target : String
  pub progress_delta : Option ℕ
  pub as_of : Option ℕ

-- `[a-z]`
is_lower : ℕ → Bool
is_lower c = leb 97 c && leb c 122

-- `[a-z0-9_\-:.]`
is_rest : ℕ → Bool
unfolding is_lower
is_rest c = is_lower c || (leb 48 c && leb c 58) || (c == 95) || (c == 45) || (c == 46)

all_rest : List ℕ → Bool
unfolding is_rest
all_rest [] = true
all_rest (c ∷ cs) = is_rest c && all_rest cs

-- `[a-z]*:[a-z0-9_\-:.]+$`
after_letter : List ℕ → Bool
unfolding is_lower all_rest
after_letter [] = false
after_letter (c ∷ cs) =
    if c == 58 then not (is_empty cs) && all_rest cs else is_lower c && after_letter cs

-- `/^[a-z]+:[a-z0-9_\-:.]+$/`
matches_target : List ℕ → Bool
unfolding is_lower after_letter
matches_target [] = false
matches_target (c ∷ cs) = is_lower c && after_letter cs

-- The tests before the transaction. A progress delta is a natural number here, so that what is left
-- of its tests is that it is at most 1.
unfoldable pub check_input : ObserveInput → Result (Unit {0})
unfolding matches_target
check_input input =
    if str_eq input.run_id "" || str_eq input.action_target ""
    then err invalid_argument
    else if not (matches_target (codes input.action_target))
    then err invalid_argument
    else if ltb 1 (or_else input.progress_delta 0)
    then err invalid_argument
    else ok tt
