-- ===== src/Prelude/Tables.antt =====
-- A database table as the list of its rows, oldest first: `SELECT … WHERE` (the first row),
-- `INSERT` (at the end) and `UPDATE … WHERE`, with their laws.
use mathlib.Core.Path.{◌≡◌, refl}
use mathlib.Core.Bool.{Bool, true, false, ◌||◌}
use mathlib.Core.Option.{Option, none, some}
use mathlib.Core.List.{List, [], ◌∷◌, ◌++◌}
use native.Mathlib.Omega.{arith}
use ogra.Prelude.Tests.{if◌then◌else◌}

module _ {ℓ} {A : Type ℓ} where
  unfoldable pub select : (A → Bool) → List A → Option A
  select p [] = none
  select p (x ∷ xs) = if p x then some x else select p xs

  unfoldable pub insert_row : A → List A → List A
  insert_row x xs = xs ++ x ∷ []

  unfoldable pub update_where : (A → Bool) → (A → A) → List A → List A
  update_where p f [] = []
  update_where p f (x ∷ xs) = (if p x then f x else x) ∷ update_where p f xs

  -- Whether a row matches, the JavaScript test of `.get(…)` or of `changes`.
  unfoldable pub exists_row : (A → Bool) → List A → Bool
  exists_row p [] = false
  exists_row p (x ∷ xs) = if p x then true else exists_row p xs

  pub select-insert_row :
      (p : A → Bool) (x : A) (xs : List A)
      → select p (insert_row x xs)
        ≡ elim (select p xs) [ none ↦ if p x then some x else none | some y ↦ some y ]
  unfolding select insert_row
  select-insert_row p x [] = refl
  select-insert_row p x (y ∷ ys) = ground (arith, select-insert_row p x ys)

  -- An update whose columns the test `q` does not read: the selected row is the old one, updated
  -- if the update's own test takes it.
  pub select-update_where :
      (q p : A → Bool) (f : A → A) (xs : List A)
      → ((x : A) → q (f x) ≡ q x)
      → select q (update_where p f xs)
        ≡ elim (select q xs) [ none ↦ none | some y ↦ some (if p y then f y else y) ]
  unfolding select update_where
  select-update_where q p f [] h = refl
  select-update_where q p f (x ∷ xs) h = ground (arith, select-update_where q p f xs h, h x)

  pub select_sound : (p : A → Bool) (xs : List A) (y : A) → select p xs ≡ some y → p y ≡ true
  unfolding select
  select_sound p [] y h = absurd (cc)
  select_sound p (x ∷ xs) y h = ground (arith, select_sound p xs y)

  pub exists_row-select :
      (p : A → Bool) (xs : List A)
      → exists_row p xs ≡ elim (select p xs) [ none ↦ false | some y ↦ true ]
  unfolding select exists_row
  exists_row-select p [] = refl
  exists_row-select p (x ∷ xs) = ground (arith, exists_row-select p xs)

  -- `SELECT … WHERE` with `.all(…)`, and `filter` of an array
  unfoldable pub select_all : (A → Bool) → List A → List A
  select_all p [] = []
  select_all p (x ∷ xs) = let rest = select_all p xs in if p x then x ∷ rest else rest

  -- `DELETE … WHERE`
  unfoldable pub delete_where : (A → Bool) → List A → List A
  delete_where p [] = []
  delete_where p (x ∷ xs) = let rest = delete_where p xs in if p x then rest else x ∷ rest

  pub exists_row-split :
      (p q : A → Bool) (xs : List A)
      → exists_row p xs ≡ (exists_row p (select_all q xs) || exists_row p (delete_where q xs))
  unfolding exists_row select_all delete_where
  exists_row-split p q [] = refl
  exists_row-split p q (x ∷ xs) = ground (arith, exists_row-split p q xs)

  pub exists_row-append :
      (p : A → Bool) (xs ys : List A)
      → exists_row p (xs ++ ys) ≡ (exists_row p xs || exists_row p ys)
  unfolding exists_row
  exists_row-append p [] ys = refl
  exists_row-append p (x ∷ xs) ys = ground (arith, exists_row-append p xs ys)

  pub select_all-insert_row :
      (p : A → Bool) (x : A) (xs : List A)
      → p x ≡ true
      → select_all p (insert_row x xs) ≡ insert_row x (select_all p xs)
  unfolding select_all insert_row
  select_all-insert_row p x [] h = ground (arith, h)
  select_all-insert_row p x (y ∷ ys) h = ground (arith, select_all-insert_row p x ys h)

  pub delete_where-insert_row :
      (p : A → Bool) (x : A) (xs : List A)
      → p x ≡ true
      → delete_where p (insert_row x xs) ≡ delete_where p xs
  unfolding delete_where insert_row
  delete_where-insert_row p x [] h = ground (arith, h)
  delete_where-insert_row p x (y ∷ ys) h = ground (arith, delete_where-insert_row p x ys h)

  pub select_all-delete_where : (p : A → Bool) (xs : List A) → select_all p (delete_where p xs) ≡ []
  unfolding select_all delete_where
  select_all-delete_where p [] = refl
  select_all-delete_where p (x ∷ xs) = ground (arith, select_all-delete_where p xs)

  pub delete_where-twice :
      (p : A → Bool) (xs : List A) → delete_where p (delete_where p xs) ≡ delete_where p xs
  unfolding delete_where
  delete_where-twice p [] = refl
  delete_where-twice p (x ∷ xs) = ground (arith, delete_where-twice p xs)
