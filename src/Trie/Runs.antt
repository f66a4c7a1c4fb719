-- ===== src/Trie/Runs.antt =====
-- Any calls of a WildcardTrie (include/kvik/wildcard_trie.hpp) against a map from levels to values.
use kvik.Base.{
  ◌≡◌, refl, ◌∙◌, sym, ap, ◌↔◌, Bool, true, List, [], ◌∷◌, Option, none, some, ite, Str, levels_dec,
  is_some,
}
use kvik.Trie.Ops.{Trie, construct, insert, remove, clear, empty}
use kvik.Trie.Split.{split_to_levels}
use kvik.Trie.Insert.{
  IsTrie, lookup, construct-some, construct-IsTrie, insert-IsTrie, lookup-insert, get-fresh,
}
use kvik.Trie.Contents.{remove-IsTrie, lookup-remove}
use kvik.Trie.Empty.{empty_iff}

pub data Call {ℓ} (V : Type ℓ) : Type ℓ where
  inserts : Str → V → Call V
  removes : Str → Call V
  clears : Call V

-- The map with another value for the levels.
abbrev put {ℓ} : {V : Type ℓ} → List Str → Option V → (List Str → Option V) → List Str → Option V
put p o s q = ite (levels_dec p q) o (s q)

-- The map after some calls, and what the calls of `remove` answer, by the separator.
unfoldable pub contents {ℓ} :
    {V : Type ℓ} → Str → List (Call V) → (List Str → Option V) → List Str → Option V
contents sep [] s = s
contents sep (inserts key v ∷ calls) s =
    contents sep calls (put (split_to_levels sep key) (some v) s)
contents sep (removes key ∷ calls) s = contents sep calls (put (split_to_levels sep key) none s)
contents sep (clears ∷ calls) s = contents sep calls (λ q. none)

unfoldable pub answers {ℓ} : {V : Type ℓ} → Str → List (Call V) → (List Str → Option V) → List Bool
answers sep [] s = []
answers sep (inserts key v ∷ calls) s = answers sep calls (put (split_to_levels sep key) (some v) s)
answers sep (removes key ∷ calls) s =
    is_some (s (split_to_levels sep key)) ∷ answers sep calls (put (split_to_levels sep key) none s)
answers sep (clears ∷ calls) s = answers sep calls (λ q. none)

module _ {ℓ} {V : Type ℓ} (default : V) where
  unfoldable pub run : List (Call V) → Trie V → Trie V × List Bool
  run [] t = (t, [])
  run (inserts key v ∷ calls) t = run calls (insert default key v t)
  run (removes key ∷ calls) t =
      let (t', removed) = remove key t in let (u, rest) = run calls t' in (u, removed ∷ rest)
  run (clears ∷ calls) t = run calls (clear default t)

  -- The trie holds the map.
  pub record Holds (sep : Str) (s : List Str → Option V) (t : Trie V) : Type ℓ where
    pub shape : IsTrie t
    pub cut : t.l_sep ≡ sep
    pub same : (q : List Str) → lookup t q ≡ s q

  insert-Holds :
      (sep key : Str) (v : V) (s : List Str → Option V) (t : Trie V)
      → Holds sep s t
      → Holds sep (put (split_to_levels sep key) (some v) s) (insert default key v t)
  insert-Holds sep key v s t h = record {
    shape = insert-IsTrie default key v t h.shape;
    cut = unfold insert in h.cut;
    same = λ q. lookup-insert default key v t q ∙ rw (h.cut, h.same q);
  }

  remove-Holds :
      (sep key : Str) (s : List Str → Option V) (t : Trie V)
      → Holds sep s t
      → Holds sep (put (split_to_levels sep key) none s) (remove key t).0
  remove-Holds sep key s t h = record {
    shape = remove-IsTrie key t h.shape;
    cut = unfold remove in h.cut;
    same = λ q. (lookup-remove key t h.shape).1 q ∙ rw (h.cut, h.same q);
  }

  clear-Holds :
      (sep : Str) (s : List Str → Option V) (t : Trie V)
      → Holds sep s t
      → Holds sep (λ q. none) (clear default t)
  unfolding clear
  clear-Holds sep s t h = record {
    shape = record { sep = h.shape.sep; shape = (refl, tt); inner = refl };
    cut = h.cut;
    same = get-fresh default 0;
  }

  pub run-Holds :
      (sep : Str) (calls : List (Call V)) (s : List Str → Option V) (t : Trie V)
      → Holds sep s t
      → Holds sep (contents sep calls s) (run calls t).0 × ((run calls t).1 ≡ answers sep calls s)
  unfolding run contents answers
  run-Holds sep [] s t h = (h, refl)
  run-Holds sep (inserts key v ∷ calls) s t h =
      run-Holds sep calls _ (insert default key v t) (insert-Holds sep key v s t h)
  run-Holds sep (removes key ∷ calls) s t h =
      let (holds, same) = run-Holds sep calls _ (remove key t).0 (remove-Holds sep key s t h) in
      let was : (remove key t).1 ≡ is_some (s (split_to_levels sep key)) =
        (lookup-remove key t h.shape).0 ∙ rw (h.cut, h.same (split_to_levels sep key)) in
      (holds, rw (was, same))
  run-Holds sep (clears ∷ calls) s t h =
      run-Holds sep calls _ (clear default t) (clear-Holds sep s t h)

  -- After any insertions, removals and calls of `clear` on a trie that the constructor builds, the
  -- trie is well formed and holds what the same calls leave of an empty map from levels to values,
  -- each removal has answered whether its key was there, and `empty` answers whether the map is
  -- empty.
  pub run-contents :
      (sep single multi : Str) (calls : List (Call V)) {t : Trie V}
      → construct default sep single multi ≡ some t
      → IsTrie (run calls t).0
        × ((q : List Str) → lookup (run calls t).0 q ≡ contents sep calls (λ p. none) q)
        × ((run calls t).1 ≡ answers sep calls (λ p. none))
        × ((empty (run calls t).0 ≡ true)
            ↔ ((q : List Str) → contents sep calls (λ p. none) q ≡ none))
  run-contents sep single multi calls {t} made =
      let (trie, clear') = construct-IsTrie default sep single multi made in
      let (h, same) =
        run-Holds sep calls (λ p. none) t
          (record {
            shape = trie;
            cut = sym (ap (λ u. u.l_sep) (construct-some default sep single multi made).1);
            same = clear';
          }) in
      let (to, from) = empty_iff (run calls t).0 h.shape in
      (h.shape, h.same, same, (λ e q. sym (h.same q) ∙ to e q, λ e. from (λ q. h.same q ∙ e q)))
