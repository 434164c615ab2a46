-- ===== src/Audit/Canonical.antt =====
-- Sorting the keys a second time changes nothing.
use ogra.Prelude.{ℕ, String, ◌≡◌, refl, true, false, List, [], ◌∷◌, arith, ap}
use mathlib.Core.Path.{ap₂}
use ogra.Audit.Json.{
  Json, null, bool, num, str, arr, obj, Items, nil, cons, Members, end, member, codes, codes_le,
  key_le, insert_member, sort_keys, sort_items, sort_members,
}

codes_le_total : (xs ys : List ℕ) → codes_le xs ys ≡ false → codes_le ys xs ≡ true
codes_le_total [] ys h = absurd (cc)
codes_le_total (x ∷ xs) [] h = refl
codes_le_total (x ∷ xs) (y ∷ ys) h = ground (arith, codes_le_total xs ys)

key_le_total : (a b : String) → key_le a b ≡ false → key_le b a ≡ true
unfolding key_le
key_le_total a b h = codes_le_total (codes a) (codes b) h

-- The first key, if there is one, is at least `k`.
abbrev Leads : String → Members → Type 0
Leads k end = Unit
Leads k (member j w ms) = key_le k j ≡ true

-- Each key is followed by none below it, and each value is as `sort_keys` leaves it.
abbrev IsSorted : Members → Type 0
IsSorted end = Unit
IsSorted (member k v ms) = (sort_keys v ≡ v) × Leads k ms × IsSorted ms

Leads-insert_member :
    (j k : String) (v : Json) (ms : Members)
    → key_le j k ≡ true
    → Leads j ms
    → Leads j (insert_member k v ms)
unfolding insert_member
Leads-insert_member j k v end a h = a
Leads-insert_member j k v (member i w ms) a h = ground arith

insert_member-IsSorted :
    (k : String) (v : Json) (ms : Members)
    → sort_keys v ≡ v
    → IsSorted ms
    → IsSorted (insert_member k v ms)
unfolding insert_member
insert_member-IsSorted k v end e h = (e, tt, tt)
insert_member-IsSorted k v (member j w ms) e h =
    ground
      (arith, insert_member-IsSorted k v ms e h.2, Leads-insert_member j k v ms, key_le_total k j)

insert_of_Leads :
    (k : String) (v : Json) (ms : Members) → Leads k ms → insert_member k v ms ≡ member k v ms
unfolding insert_member
insert_of_Leads k v end h = refl
insert_of_Leads k v (member j w ms) h = ground arith

sort_members_of_IsSorted : (ms : Members) → IsSorted ms → sort_members ms ≡ ms
unfolding sort_members
sort_members_of_IsSorted end h = refl
sort_members_of_IsSorted (member k v ms) h =
    rw (h.0, sort_members_of_IsSorted ms h.2) (insert_of_Leads k v ms h.1)

mutual
  unfolding sort_keys sort_items sort_members

  sort_keys_twice : (v : Json) → sort_keys (sort_keys v) ≡ sort_keys v
  sort_keys_twice null = refl
  sort_keys_twice (bool b) = refl
  sort_keys_twice (num n) = refl
  sort_keys_twice (str s) = refl
  sort_keys_twice (arr xs) = ap arr (sort_items_twice xs)
  sort_keys_twice (obj ms) = ap obj (sort_members_of_IsSorted (sort_members ms) (sorted ms))

  sort_items_twice : (xs : Items) → sort_items (sort_items xs) ≡ sort_items xs
  sort_items_twice nil = refl
  sort_items_twice (cons x xs) = ap₂ cons (sort_keys_twice x) (sort_items_twice xs)

  sorted : (ms : Members) → IsSorted (sort_members ms)
  sorted end = tt
  sorted (member k v ms) =
      insert_member-IsSorted k (sort_keys v) (sort_members ms) (sort_keys_twice v) (sorted ms)

-- Sorting the keys of a value whose keys are sorted, at every depth, changes nothing.
pub sort_keys_idem : (v : Json) → sort_keys (sort_keys v) ≡ sort_keys v
sort_keys_idem v = sort_keys_twice v
