-- ===== src/Trie/Stale.antt =====
-- A removed value that stays in its node (include/kvik/wildcard_trie.hpp).
use kvik.Base.{
  ◌≡◌, refl, ◌∙◌, true, false, List, [], ◌∷◌, ◌++◌, none, some, Str, Option-cases, if_pos, str_dec,
  levels_dec, inl, inr,
}
use kvik.Trie.Nodes.{Node, node, nil, entry, childs, find_child, set_childs, set_child, get}
use kvik.Trie.Childs.{find_child-set_child}
use kvik.Trie.Contents.{lookup-remove}
use kvik.Trie.Split.Laws.{split_to_levels-Cuts}
use kvik.Trie.Ops.{Trie, value_at, index, remove}
use kvik.Trie.Split.{split_to_levels}
use kvik.Trie.Insert.{IsTrie, lookup}
use kvik.Trie.Remove.{Removed, kept, rem, remove_rec, remove_path-remove_rec}

module _ {ℓ} {V : Type ℓ} (default : V) where
  -- What a removal below a node leaves at the path.
  abbrev Stays : List Str → V → Removed V → Type ℓ
  Stays p v r = (m : Node V) × (r ≡ kept m) × (value_at default p m ≡ v)

  set_child-value_at :
      (l : Str) (ls : List Str) (m n c : Node V)
      → find_child l (childs n) ≡ some c
      → value_at default (l ∷ ls) (set_childs (set_child l m (childs n)) n) ≡ value_at default ls m
  unfolding value_at
  set_child-value_at l ls m (node u cs i leaf) c e =
      let same : find_child l (set_child l m cs) ≡ some m =
        find_child-set_child l l m {n = c} cs e ∙ if_pos (str_dec l l) refl _ _ in
      rw (same, value_at) refl

  rem-Stays :
      (p : List Str) (l : Str) (ls : List Str) (v w : V) (n : Node V)
      → get p n ≡ some v
      → get (p ++ l ∷ ls) n ≡ some w
      → Stays p v (rem p n)
  unfolding rem get value_at find_child
  rem-Stays [] l ls v w (node u cs i false) h k = absurd (cc)
  rem-Stays [] l ls v w (node u nil i true) h k = absurd (cc)
  rem-Stays [] l ls v w (node u (entry j m cs) i true) h k =
      (node u (entry j m cs) i false, refl, cc)
  rem-Stays (x ∷ p) l ls v w n h k = elim (Option-cases (find_child x (childs n))) [
    | inl e ↦ absurd (let f = rw (e, get) at h in cc)
    | inr (c, e) ↦
        let (m, r, s) = rem-Stays p l ls v w c (rw (e, get) at h) (rw (e, get) at k) in
        (
          set_childs (set_child x m (childs n)) n,
          rw (e, rem, r) refl,
          set_child-value_at x p m n c e ∙ s,
        )
  ]

  remove_rec-value_at :
      (x : Str) (p : List Str) (l : Str) (ls : List Str) (v w : V) (n : Node V)
      → get (x ∷ p) n ≡ some v
      → get ((x ∷ p) ++ l ∷ ls) n ≡ some w
      → value_at default (x ∷ p) (remove_rec (x ∷ p) n).0 ≡ v
  unfolding get
  remove_rec-value_at x p l ls v w n h k = elim (Option-cases (find_child x (childs n))) [
    | inl e ↦ absurd (let f = rw (e, get) at h in cc)
    | inr (c, e) ↦
        let (m, r, s) = rem-Stays p l ls v w c (rw (e, get) at h) (rw (e, get) at k) in
        rw (e, remove_rec, r) (set_child-value_at x p m n c e ∙ s)
  ]

  -- Where a longer key is in the trie as well, a key that is removed keeps its value in its node:
  -- `operator[]` of the key gives the removed value, and not a new one.
  pub index-remove :
      (key : Str) (t : Trie V) (l : Str) (ls : List Str) {v w : V}
      → IsTrie t
      → lookup t (split_to_levels t.l_sep key) ≡ some v
      → lookup t (split_to_levels t.l_sep key ++ l ∷ ls) ≡ some w
      → (lookup (remove key t).0 (split_to_levels t.l_sep key) ≡ none)
        × ((index default key (remove key t).0).0 ≡ v)
  unfolding remove index
  index-remove key t l ls {v} {w} trie h k =
      let (x, p, e, cut) = split_to_levels-Cuts t.l_sep key trie.sep in
      let levels = split_to_levels t.l_sep key in
      (
        (lookup-remove key t trie).1 levels ∙ if_pos (levels_dec levels levels) refl _ _,
        rw (e, remove_path-remove_rec x p t.root)
            (remove_rec-value_at x p l ls v w t.root (rw e at h) (rw e at k)),
      )
