-- ===== src/Trie/Split/Laws.antt =====
-- `splitToLevels` of include/kvik/wildcard_trie.hpp: the key against its levels.
use kvik.Base.{
  ℕ, zero, suc, ◌+◌, ◌<◌, ◌≤◌, ◌≡◌, refl, ap, ◌≢◌, if_neg, List, [], ◌∷◌, ◌++◌, none, some, Str,
  str_dec, length, take, drop, arith, Option-cases, inl, inr, ◌⊎◌, All, length-drop, length-append,
  take-drop-append, take-append, length-take-le_self, subst,
}
use native.Mathlib.Nat.{zero-add, suc-add}
use kvik.Trie.Split.{find_sep, split_loop, split_to_levels, join}

prefix_of_take :
    (sep : Str) (n : ℕ) (s : Str) → take (length sep) (take n s) ≡ sep → take (length sep) s ≡ sep
prefix_of_take [] n s h = refl
prefix_of_take (x ∷ sep) zero s h = cc
prefix_of_take (x ∷ sep) (suc n) [] h = h
prefix_of_take (x ∷ sep) (suc n) (c ∷ s) h = ground (arith, prefix_of_take sep n s)

-- What lies before the first separator holds none.
find_sep-take : (sep s : Str) (i : ℕ) → find_sep sep s ≡ some i → find_sep sep (take i s) ≡ none
unfolding find_sep
find_sep-take sep [] i h = cc
find_sep-take sep (c ∷ s) zero h = refl
find_sep-take sep (c ∷ s) (suc i) h = elim (str_dec (take (length sep) (c ∷ s)) sep) [
  | yes p ↦ absurd (ground arith)
  | no p ↦
      rw (if_neg _ (λ e. p (prefix_of_take sep (suc i) (c ∷ s) e)))
        (ground (arith, find_sep-take sep s i))
]

find_sep-zero :
    (sep s : Str) (c : ℕ) → take (length sep) (c ∷ s) ≢ sep → find_sep sep (c ∷ s) ≢ some 0
unfolding find_sep
find_sep-zero sep s c p = rw (if_neg _ p) (ground arith)

find_sep-suc :
    (sep s : Str) (c i : ℕ) → find_sep sep (c ∷ s) ≡ some (suc i) → find_sep sep s ≡ some i
unfolding find_sep
find_sep-suc sep s c i h = ground arith

-- The key falls into what lies before the first separator, the separator and the rest.
find_sep-append :
    (sep s : Str) (i : ℕ)
    → find_sep sep s ≡ some i
    → (take i s ++ (sep ++ drop (i + length sep) s) ≡ s) × (i + length sep ≤ length s)
unfolding find_sep
find_sep-append sep [] i h = cc
find_sep-append sep (c ∷ s) zero h = elim (str_dec (take (length sep) (c ∷ s)) sep) [
  | yes p ↦ rw zero-add (
    subst (λ x. x ++ drop (length sep) (c ∷ s) ≡ c ∷ s) p (take-drop-append (length sep) (c ∷ s)),
    omega (arith, ap length p, length-take-le_self (length sep) (c ∷ s)),
  )
  | no p ↦ absurd (find_sep-zero sep s c p h)
]
find_sep-append sep (c ∷ s) (suc i) h =
    let (e, b) = find_sep-append sep s i (find_sep-suc sep s c i h) in
    rw suc-add (ap (◌∷◌ c) e, omega arith)

-- The levels that the loop cuts a key into.
abbrev pub Cuts : Str → Str → List Str → Type 0
Cuts sep s ls = (join sep ls ≡ s) × All (λ l. find_sep sep l ≡ none) ls

split_loop-Cuts :
    (fuel : ℕ) (sep s : Str)
    → 0 < length sep
    → length s < fuel
    → (l : Str) × (ls : List Str) × (split_loop fuel sep s ≡ some (l ∷ ls)) × Cuts sep s (l ∷ ls)
unfolding split_loop join
split_loop-Cuts zero sep s h b = absurd (omega arith)
split_loop-Cuts (suc fuel) sep s h b = elim (Option-cases (find_sep sep s)) [
  | inl e ↦ (s, [], rw (e, split_loop), (refl, (e, tt)))
  | inr (i, e) ↦
      let (whole, bound) = find_sep-append sep s i e in
      let (l, ls, rest, cut) =
        split_loop-Cuts fuel sep (drop (i + length sep) s) h
          (omega (arith, length-drop (i + length sep) s)) in
      (
        take i s,
        l ∷ ls,
        rw (e, split_loop) (rw (rest, split_loop)),
        (rw cut.0 whole, (find_sep-take sep s i e, cut.1)),
      )
]

-- For any separator but the empty one, `split_to_levels` ends, gives one level at least, no level
-- holds a separator, and the levels joined again are the key.
pub split_to_levels-Cuts :
    (sep key : Str)
    → 0 < length sep
    → (l : Str) × (ls : List Str) × (split_to_levels sep key ≡ l ∷ ls) × Cuts sep key (l ∷ ls)
unfolding split_to_levels
split_to_levels-Cuts sep key h =
    let (l, ls, e, cut) = split_loop-Cuts (suc (length key)) sep key h (omega arith) in
    (l, ls, rw e, cut)

-- The first level, by where the first separator begins.
pub split_to_levels-first :
    (sep key : Str)
    → 0 < length sep
    → ((find_sep sep key ≡ none) × (split_to_levels sep key ≡ key ∷ []))
      ⊎ ((i : ℕ) × (l : Str) × (ls : List Str) × (find_sep sep key ≡ some i)
          × (split_to_levels sep key ≡ take i key ∷ l ∷ ls)
          × (take i key ++ (sep ++ join sep (l ∷ ls)) ≡ key))
unfolding split_to_levels split_loop
split_to_levels-first sep key h = elim (Option-cases (find_sep sep key)) [
  | inl e ↦ inl (e, rw (e, split_loop))
  | inr (i, e) ↦
      let (whole, bound) = find_sep-append sep key i e in
      let (l, ls, rest, cut) =
        split_loop-Cuts (length key) sep (drop (i + length sep) key) h
          (omega (arith, length-drop (i + length sep) key)) in
      inr (i, l, ls, e, rw (e, split_loop) (rw (rest, split_loop)), rw cut.0 whole)
]

module _ (c : ℕ) where
  abbrev HasNone : Str → Type 0
  HasNone l = find_sep (c ∷ []) l ≡ none

  find_sep-append_self :
      (l r : Str) → HasNone l → find_sep (c ∷ []) (l ++ (c ∷ r)) ≡ some (length l)
  unfolding find_sep
  find_sep-append_self [] r h = ground arith
  find_sep-append_self (x ∷ l) r h = ground (arith, find_sep-append_self l r)

  drop-append_self : (l r : Str) → drop (length l + 1) (l ++ (c ∷ r)) ≡ r
  drop-append_self [] r = refl
  drop-append_self (x ∷ l) r = rw suc-add (drop-append_self l r)

  split_loop-join :
      (fuel : ℕ) (l : Str) (ls : List Str)
      → length ls < fuel
      → All HasNone (l ∷ ls)
      → split_loop fuel (c ∷ []) (join (c ∷ []) (l ∷ ls)) ≡ some (l ∷ ls)
  unfolding split_loop join
  split_loop-join zero l ls b h = absurd (omega arith)
  split_loop-join (suc fuel) l [] b h = rw (h.0, split_loop)
  split_loop-join (suc fuel) l (k ∷ ls) b h =
      rw (find_sep-append_self l (join (c ∷ []) (k ∷ ls)) h.0, split_loop)
        (rw (drop-append_self l (join (c ∷ []) (k ∷ ls))) (
          rw (split_loop-join fuel k ls (omega arith) h.1, split_loop)
            (ap (λ x. some (x ∷ k ∷ ls)) (take-append l (c ∷ join (c ∷ []) (k ∷ ls))))))

  length-join : (l : Str) (ls : List Str) → length ls ≤ length (join (c ∷ []) (l ∷ ls))
  unfolding join
  length-join l [] = omega arith
  length-join l (k ∷ ls) =
      omega (arith, length-append l (c ∷ join (c ∷ []) (k ∷ ls)), length-join k ls)

  -- For a separator of one byte, levels that do not hold it are what their joined key is cut into.
  pub split_to_levels-join :
      (l : Str) (ls : List Str)
      → All (λ k. find_sep (c ∷ []) k ≡ none) (l ∷ ls)
      → split_to_levels (c ∷ []) (join (c ∷ []) (l ∷ ls)) ≡ l ∷ ls
  unfolding split_to_levels
  split_to_levels-join l ls h = rw (
      split_loop-join (suc (length (join (c ∷ []) (l ∷ ls)))) l ls (omega (arith, length-join l ls))
        h)
