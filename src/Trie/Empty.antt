-- ===== src/Trie/Empty.antt =====
-- When a trie has no contents, and what a node that is kept leads to
-- (include/kvik/wildcard_trie.hpp).
use kvik.Base.{
  ℕ, suc, ◌≡◌, refl, true, false, List, [], ◌∷◌, none, some, Str, arith, Bool-cases, ◌↔◌, inl, inr,
}
use kvik.Trie.Nodes.{
  Node, node, nil, entry, childs, is_leaf, find_child, no_childs, get, is_live, IsWf,
}
use kvik.Trie.Ops.{Trie, empty}
use kvik.Trie.Insert.{IsTrie, lookup}

module _ {ℓ} {V : Type ℓ} where
  -- A live inner node of the right shape leads to a leaf.
  pub live-leads :
      (d : ℕ) (n : Node V)
      → IsWf d n
      → is_live n ≡ true
      → (p : List Str) × (v : V) × (get p n ≡ some v)
  unfolding get find_child
  live-leads d (node v cs i true) w h = ([], v, refl)
  live-leads d (node v nil i false) w h = cc
  live-leads d (node v (entry k m cs) i false) (e, (wm, am, u, ws)) h =
      let (p, x, found) = live-leads (suc d) m wm am in (k ∷ p, x, ground arith)

  childless-get :
      (n : Node V)
      → no_childs (childs n) ≡ true
      → is_leaf n ≡ false
      → (p : List Str) → get p n ≡ none
  unfolding get find_child
  childless-get (node v cs i leaf) h b [] = ground arith
  childless-get (node v nil i leaf) h b (l ∷ ls) = refl
  childless-get (node v (entry k m cs) i leaf) h b (l ∷ ls) = cc

  get-childless :
      (n : Node V)
      → IsWf 0 n
      → ((p : List Str) → get p n ≡ none)
      → is_leaf n ≡ false
      → no_childs (childs n) ≡ true
  get-childless n w h b = elim (Bool-cases (no_childs (childs n))) [
    | inl e ↦ e
    | inr e ↦ let (p, v, found) = live-leads 0 n w (rw (b, e)) in cc (h p)
  ]

  -- On a trie, `empty` answers whether there are no contents.
  pub empty_iff : (t : Trie V) → IsTrie t → (empty t ≡ true) ↔ ((p : List Str) → lookup t p ≡ none)
  unfolding empty
  empty_iff t w = (λ e. childless-get t.root e w.inner, λ h. get-childless t.root w.shape h w.inner)
