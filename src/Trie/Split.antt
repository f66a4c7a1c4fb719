-- ===== src/Trie/Split.antt =====
-- `splitToLevels` of include/kvik/wildcard_trie.hpp, and the keys that are joined from levels.
pub mod Laws
use kvik.Base.{
  ◌++◌, ℕ, zero, suc, ◌+◌, ◌<◌, ◌≡◌, refl, Bool, true, false, List, [], ◌∷◌, ◌++◌, Option, none,
  some, ite, Str, str_dec, length, take, drop,
}

-- `key.find(sep, curPos)` on what is left of the key: where the first separator begins.
unfoldable pub find_sep : Str → Str → Option ℕ
unfolding str_dec
find_sep sep [] = none
find_sep sep (c ∷ s) =
    ite (str_dec (take (length sep) (c ∷ s)) sep) (some 0)
      (elim (find_sep sep s) [ none ↦ none | some i ↦ some (suc i) ])

-- The loop, on what is left of the key. Each round drops a separator at least, so the length of
-- the key is fuel enough.
pub split_loop : ℕ → Str → Str → Option (List Str)
unfolding find_sep
split_loop zero sep s = none
split_loop (suc fuel) sep s = elim (find_sep sep s) [
  | none ↦ some (s ∷ [])
  | some i ↦ elim (split_loop fuel sep (drop (i + length sep) s)) [
    | none ↦ none
    | some ls ↦ some (take i s ∷ ls)
  ]
]

abbrev or_nil : Option (List Str) → List Str
or_nil none = []
or_nil (some ls) = ls

unfoldable pub split_to_levels : Str → Str → List Str
unfolding split_loop
split_to_levels sep key = or_nil (split_loop (suc (length key)) sep key)

-- A key from its levels.
unfoldable pub join : Str → List Str → Str
join sep [] = []
join sep (l ∷ []) = l
join sep (l ∷ k ∷ ls) = l ++ (sep ++ join sep (k ∷ ls))
