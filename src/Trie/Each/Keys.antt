-- ===== src/Trie/Each/Keys.antt =====
-- The key that `find` and `forEach` rebuild from the levels (`childKey` in
-- include/kvik/wildcard_trie.hpp) against the key that was stored.
use kvik.Base.{
  ℕ, zero, suc, ◌<◌, ◌≤◌, ◌≡◌, refl, ◌≢◌, ◌↔◌, inl, inr, List, [], ◌∷◌, ◌++◌, some, Str, arith, ap,
  ◌∙◌, length, take, length-append,
}
use mathlib.Core.List.{append_assoc}
use kvik.Trie.Split.{split_to_levels, find_sep, join}
use kvik.Trie.Split.Laws.{split_to_levels-first}
use kvik.Trie.Find.{child_key}
use kvik.Trie.Find.Matches.{path_key}

module _ (sep : Str) where
  path_key-cons :
      (c : ℕ) (key l : Str) (ls : List Str)
      → path_key sep (c ∷ key) (l ∷ ls) ≡ c ∷ (key ++ (sep ++ join sep (l ∷ ls)))
  unfolding path_key child_key join
  path_key-cons c key l [] = refl
  path_key-cons c key l (k ∷ ls) =
      path_key-cons c (key ++ (sep ++ l)) k ls
      ∙ ap (◌∷◌ c) (
          append_assoc key (sep ++ l) (sep ++ join sep (k ∷ ls))
          ∙ ap (λ x. key ++ x) (append_assoc sep l (sep ++ join sep (k ∷ ls))))

  length-path_key-le : (ls : List Str) → length (path_key sep [] ls) ≤ length (join sep ls)
  unfolding path_key child_key join
  length-path_key-le [] = omega arith
  length-path_key-le (l ∷ []) = omega arith
  length-path_key-le ([] ∷ k ∷ ls) =
      omega (arith, length-path_key-le (k ∷ ls), length-append sep (join sep (k ∷ ls)))
  length-path_key-le ((c ∷ l) ∷ k ∷ ls) = omega (arith, ap length (path_key-cons c l k ls))

  rebuilt :
      (i : ℕ) (key l : Str) (ls : List Str)
      → 0 < length sep
      → take (suc i) key ++ (sep ++ join sep (l ∷ ls)) ≡ key
      → path_key sep [] (take (suc i) key ∷ l ∷ ls) ≡ key
  unfolding path_key child_key
  rebuilt i [] l ls h w = absurd (omega (arith, ap length w, length-append sep (join sep (l ∷ ls))))
  rebuilt i (c ∷ key) l ls h w = path_key-cons c (take i key) l ls ∙ w

  shorter :
      (key l : Str) (ls : List Str)
      → 0 < length sep
      → sep ++ join sep (l ∷ ls) ≡ key
      → path_key sep [] ([] ∷ l ∷ ls) ≢ key
  unfolding path_key child_key
  shorter key l ls h w e = absurd (
      omega (
        arith,
        ap length w,
        ap length e,
        length-append sep (join sep (l ∷ ls)),
        length-path_key-le (l ∷ ls),
      ))

  -- The rebuilt key is the key that was stored, exactly when that key does not begin with the
  -- separator.
  pub path_key-split_iff :
      (key : Str)
      → 0 < length sep
      → (path_key sep [] (split_to_levels sep key) ≡ key) ↔ (find_sep sep key ≢ some 0)
  unfolding path_key child_key
  path_key-split_iff key h = elim (split_to_levels-first sep key h) [
    | inl (e, s) ↦ rw (e, s) (λ same. λ n. cc, λ n. refl)
    | inr (zero, l, ls, e, s, w) ↦
        rw (e, s) (λ same. absurd (shorter key l ls h w same), λ n. absurd (n refl))
    | inr (suc i, l, ls, e, s, w) ↦ rw (e, s) (λ same. λ n. cc, λ n. rebuilt i key l ls h w)
  ]
