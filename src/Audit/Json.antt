-- ===== src/Audit/Json.antt =====
-- ogra-desktop/src/core/audit-envelope.ts: `sortKeys` of `canonicalJSON`, over JSON values.
use Prim.Native.Char.{code}
use ogra.Prelude.{
  ℕ, String, Bool, true, false, Option, none, some, List, [], ◌∷◌, ltb, ◌==◌, if◌then◌else◌,
}

-- A list of values and the properties of an object are types of their own.
mutual
  pub data Json : Type 0 where
    null : Json
    bool : Bool → Json
    num : ℕ → Json
    str : String → Json
    arr : Items → Json
    obj : Members → Json

  pub data Items : Type 0 where
    nil : Items
    cons : Json → Items → Items

  pub data Members : Type 0 where
    end : Members
    member : String → Json → Members → Members

-- `{ k: v, … }`
abbrev pub members : List (String × Json) → Members
members [] = end
members ((k, v) ∷ ms) = member k v (members ms)

abbrev pub object : List (String × Json) → Json
object ms = obj (members ms)

-- `x ?? null`
abbrev pub nullable : Option String → Json
nullable none = null
nullable (some s) = str s

abbrev pub codes : String → List ℕ
codes String.[] = []
codes (String.◌∷◌ c s) = code c ∷ codes s

-- The order of `Array.prototype.sort` on texts, by code points.
abbrev pub codes_le : List ℕ → List ℕ → Bool
codes_le [] ys = true
codes_le (x ∷ xs) [] = false
codes_le (x ∷ xs) (y ∷ ys) = if ltb x y then true else if x == y then codes_le xs ys else false

unfoldable pub key_le : String → String → Bool
key_le a b = codes_le (codes a) (codes b)

unfoldable pub insert_member : String → Json → Members → Members
insert_member k v end = member k v end
insert_member k v (member j w ms) =
    if key_le k j then member k v (member j w ms) else member j w (insert_member k v ms)

-- `sortKeys`: an object's keys in order, at every depth.
unfoldable mutual
  pub sort_keys : Json → Json
  sort_keys null = null
  sort_keys (bool b) = bool b
  sort_keys (num n) = num n
  sort_keys (str s) = str s
  sort_keys (arr xs) = arr (sort_items xs)
  sort_keys (obj ms) = obj (sort_members ms)

  pub sort_items : Items → Items
  sort_items nil = nil
  sort_items (cons x xs) = cons (sort_keys x) (sort_items xs)

  pub sort_members : Members → Members
  sort_members end = end
  sort_members (member k v ms) = insert_member k (sort_keys v) (sort_members ms)
