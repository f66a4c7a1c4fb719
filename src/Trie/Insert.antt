-- ===== src/Trie/Insert.antt =====
-- `operator[]` and `insert` (include/kvik/wildcard_trie.hpp) against the contents of the trie.
use kvik.Base.{
  ◌<◌, length, ℕ, suc, ◌≡◌, refl, subst, true, false, List, [], ◌∷◌, Option, none, some, ite, Str,
  levels_dec, arith, inl, inr, Option-cases,
}
use kvik.Trie.Nodes.{Node, node, nil, entry, is_leaf, find_child, upsert, get, is_live, IsWf}
use kvik.Trie.Childs.{or_fresh, find_child-upsert, found-IsWf, upsert-AreWf}
use kvik.Trie.Split.{split_to_levels}
use kvik.Trie.Split.Laws.{split_to_levels-Cuts}
use kvik.Trie.Ops.{Trie, fresh, at_path, insert, construct}

-- The contents of a trie by key.
abbrev pub lookup {ℓ} : {V : Type ℓ} → Trie V → List Str → Option V
lookup t p = get p t.root

-- The well-formed tries.
pub record IsTrie {ℓ} {V : Type ℓ} (t : Trie V) : Type ℓ where
  pub sep : 0 < length t.l_sep
  pub shape : IsWf 0 t.root
  pub inner : is_leaf t.root ≡ false

module _ {ℓ} {V : Type ℓ} (default : V) where
  pub get-fresh : (i : ℕ) (p : List Str) → get p (fresh default i) ≡ none
  unfolding get find_child
  get-fresh i [] = refl
  get-fresh i (l ∷ ls) = refl

  at_path-live :
      (i : ℕ) (p : List Str) (f : V → V) (n : Node V) → is_live (at_path default i p f n) ≡ true
  unfolding at_path upsert
  at_path-live i [] f (node v cs j leaf) = refl
  at_path-live i (l ∷ ls) f (node v nil j leaf) = ground arith
  at_path-live i (l ∷ ls) f (node v (entry k m cs) j leaf) = ground arith

  pub at_path-IsWf :
      (i : ℕ) (p : List Str) (f : V → V) (n : Node V) → IsWf i n → IsWf i (at_path default i p f n)
  unfolding at_path
  at_path-IsWf i [] f (node v cs j leaf) w = w
  at_path-IsWf i (l ∷ ls) f (node v cs j leaf) (e, ws) = (
    e,
    upsert-AreWf (suc i) l (at_path default (suc i) ls f) (fresh default (suc i)) cs ws
        (at_path-IsWf (suc i) ls f (or_fresh (fresh default (suc i)) (find_child l cs)) sub)
        (at_path-live (suc i) ls f (or_fresh (fresh default (suc i)) (find_child l cs))),
  )
    where
      sub : IsWf (suc i) (or_fresh (fresh default (suc i)) (find_child l cs))
      sub = elim (Option-cases (find_child l cs)) [
        | inl absent ↦ rw absent (refl, tt)
        | inr (m, found) ↦ rw found ((found-IsWf (suc i) l cs ws found).0)
      ]

  at_path-inner :
      (l : Str) (ls : List Str) (f : V → V) (n : Node V)
      → is_leaf n ≡ false
      → is_leaf (at_path default 0 (l ∷ ls) f n) ≡ false
  unfolding at_path
  at_path-inner l ls f (node v cs j leaf) h = h

  pub get-at_path :
      (i : ℕ) (p q : List Str) (v : V) (n : Node V)
      → get q (at_path default i p (λ _. v) n) ≡ ite (levels_dec p q) (some v) (get q n)
  unfolding at_path get
  get-at_path i [] [] v (node w cs j leaf) = ground arith
  get-at_path i [] (k ∷ ks) v (node w cs j leaf) = ground arith
  get-at_path i (l ∷ ls) [] v (node w cs j leaf) = ground arith
  get-at_path i (l ∷ ls) (k ∷ ks) v (node w cs j leaf) =
      let f = fresh default (suc i) in
      ground (
        arith,
        find_child-upsert l k (at_path default (suc i) ls (λ _. v)) f cs,
        get-at_path (suc i) ls ks v (or_fresh f (find_child l cs)),
        get-fresh (suc i) ks,
      )

  -- What the constructor stores.
  pub construct-some :
      (sep single multi : Str) {t : Trie V}
      → construct default sep single multi ≡ some t
      → (0 < length sep)
        × (record {
          l_sep = sep;
          l_single_wild = single;
          l_multi_wild = multi;
          root = fresh default 0;
        }
            ≡ t)
  unfolding construct
  construct-some [] single multi h = cc
  construct-some (x ∷ sep) single multi h = (omega arith, ground arith)

  -- What the constructor builds, if it does not throw, is a trie with no contents.
  pub construct-IsTrie :
      (sep single multi : Str) {t : Trie V}
      → construct default sep single multi ≡ some t
      → IsTrie t × ((p : List Str) → lookup t p ≡ none)
  construct-IsTrie sep single multi h =
      let (some_sep, e) = construct-some sep single multi h in
      subst (λ t. IsTrie t × ((p : List Str) → lookup t p ≡ none)) e
        (record { sep = some_sep; shape = (refl, tt); inner = refl }, get-fresh 0)

  -- An insertion into a trie gives a trie.
  pub insert-IsTrie : (key : Str) (v : V) (t : Trie V) → IsTrie t → IsTrie (insert default key v t)
  unfolding insert
  insert-IsTrie key v t w = record {
    sep = w.sep;
    shape = at_path-IsWf 0 (split_to_levels t.l_sep key) (λ _. v) t.root w.shape;
    inner =
        let (l, ls, e, cut) = split_to_levels-Cuts t.l_sep key w.sep in
        rw e (at_path-inner l ls (λ _. v) t.root w.inner);
  }

  -- An insertion changes the value at its key, and at no other.
  pub lookup-insert :
      (key : Str) (v : V) (t : Trie V) (q : List Str)
      → lookup (insert default key v t) q
        ≡ ite (levels_dec (split_to_levels t.l_sep key) q) (some v) (lookup t q)
  unfolding insert
  lookup-insert key v t q = get-at_path 0 (split_to_levels t.l_sep key) q v t.root
