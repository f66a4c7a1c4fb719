-- ===== src/Client/Entries/Removed.antt =====
-- The node of a subscription that is taken away (include/kvik/wildcard_trie.hpp, for the references
-- that src/common/client.cpp holds).
use kvik.Base.{
  ℕ, suc, ◌≡◌, refl, ◌∙◌, ◌⊎◌, inl, inr, true, false, ◌||◌, List, [], ◌∷◌, ◌++◌, none, some, Str,
  Option-cases, if_pos, subst, str_dec, arith, Bool-cases,
}
use kvik.Trie.Nodes.{
  Node, node, nil, entry, childs, is_leaf, find_child, many_childs, set_childs, set_child,
  erase_child, get, IsWf,
}
use kvik.Trie.Childs.{find_child-set_child, find_child-erase_child, found-IsWf}
use kvik.Trie.Ops.{Trie, remove}
use kvik.Trie.Split.{split_to_levels}
use kvik.Trie.Split.Laws.{split_to_levels-Cuts}
use kvik.Trie.Insert.{IsTrie, lookup}
use kvik.Trie.Contents.{childs-AreWf}
use kvik.Trie.Empty.{live-leads}
use kvik.Trie.Remove.{
  Removed, missing, dropped, kept, above, rem, remove_rec, remove_path-remove_rec,
}
use kvik.Client.Entries.{deref}

-- Nothing is left at the path.
abbrev Gone : {V : Type 0} → List Str → Removed V → Type 0
Gone {V} p r = (r ≡ dropped) ⊎ ((m : Node V) × (r ≡ kept m) × (deref p m ≡ none))

-- A child that has been erased or changed.
erased-deref :
    {V : Type 0} (d : ℕ) (x : Str) (p : List Str) (n : Node V)
    → IsWf d n
    → deref (x ∷ p) (set_childs (erase_child x (childs n)) n) ≡ none
unfolding deref
erased-deref d x p (node u cs i b) w =
    let gone : find_child x (erase_child x cs) ≡ none =
      find_child-erase_child (suc d) x x cs w.1
      ∙ if_pos (str_dec x x) refl none (find_child x cs) in
    rw (gone, deref) refl

changed-deref :
    {V : Type 0} (x : Str) (p : List Str) (n c m : Node V)
    → find_child x (childs n) ≡ some c
    → deref (x ∷ p) (set_childs (set_child x m (childs n)) n) ≡ deref p m
unfolding deref
changed-deref x p (node u cs i b) c m e =
    let there : find_child x (set_child x m cs) ≡ some m =
      find_child-set_child x x m {n = c} cs e
      ∙ if_pos (str_dec x x) refl (some m) (find_child x cs) in
    rw (there, deref) refl

above-Gone :
    {V : Type 0} (d : ℕ) (x : Str) (p : List Str) (n c : Node V) (r : Removed V)
    → IsWf d n
    → find_child x (childs n) ≡ some c
    → Gone p r
    → Gone (x ∷ p) (above x n r)
above-Gone d x p n c missing w e (inl h) = absurd (cc)
above-Gone d x p n c missing w e (inr (m, h, g)) = absurd (cc)
above-Gone d x p n c dropped w e h = elim (Bool-cases (is_leaf n || many_childs (childs n))) [
  | inl b ↦ rw b (inr (_, refl, erased-deref d x p n w))
  | inr b ↦ rw b (inl refl)
]
above-Gone d x p n c (kept m) w e (inl h) = absurd (cc)
above-Gone d x p n c (kept m) w e (inr (m', h, g)) =
    let same : m' ≡ m = cc in
    inr (_, refl, changed-deref x p n c m e ∙ subst (λ z. deref p z ≡ none) same g)

rem-Gone :
    {V : Type 0} (d : ℕ) (p : List Str) (v : V) (n : Node V)
    → IsWf d n
    → get p n ≡ some v
    → ((l : Str) (ls : List Str) → get (p ++ l ∷ ls) n ≡ none)
    → Gone p (rem p n)
unfolding rem get deref find_child
rem-Gone d [] v (node u cs i false) w h k = absurd (cc)
rem-Gone d [] v (node u nil i true) w h k = inl refl
rem-Gone d [] v (node u (entry j m cs) i true) (e, (wm, am, u', ws)) h k =
    let (q, x, found) = live-leads (suc d) m wm am in
    absurd (let f = k j q in ground (arith, found))
rem-Gone d (x ∷ p) v n w h k = elim (Option-cases (find_child x (childs n))) [
  | inl e ↦ absurd (let f = rw (e, get) at h in cc)
  | inr (c, e) ↦
      let below =
        rem-Gone (suc d) p v c (found-IsWf (suc d) x (childs n) (childs-AreWf d n w) e).0
          (rw (e, get) at h) (λ l ls. rw (e, get) at (k l ls)) in
      rw (e, rem) (above-Gone d x p n c (rem p c) w e below)
]

remove_rec-deref :
    {V : Type 0} (x : Str) (p : List Str) (v : V) (n : Node V)
    → IsWf 0 n
    → get (x ∷ p) n ≡ some v
    → ((l : Str) (ls : List Str) → get ((x ∷ p) ++ l ∷ ls) n ≡ none)
    → deref (x ∷ p) (remove_rec (x ∷ p) n).0 ≡ none
unfolding get
remove_rec-deref x p v n w h k = elim (Option-cases (find_child x (childs n))) [
  | inl e ↦ absurd (let f = rw (e, get) at h in cc)
  | inr (c, e) ↦
      let below =
        rem-Gone 1 p v c (found-IsWf 1 x (childs n) (childs-AreWf 0 n w) e).0 (rw (e, get) at h)
          (λ l ls. rw (e, get) at (k l ls)) in
      elim below [
        | inl r ↦ rw (e, remove_rec, r) (erased-deref 0 x p n w)
        | inr (m, r, g) ↦ rw (e, remove_rec, r) (changed-deref x p n c m e ∙ g)
      ]
]

-- A removed key with nothing below it leaves no node.
pub remove-deref :
    {V : Type 0} (key : Str) (t : Trie V) {v : V}
    → IsTrie t
    → lookup t (split_to_levels t.l_sep key) ≡ some v
    → ((l : Str) (ls : List Str) → lookup t (split_to_levels t.l_sep key ++ l ∷ ls) ≡ none)
    → deref (split_to_levels t.l_sep key) (remove key t).0.root ≡ none
unfolding remove
remove-deref key t {v} trie h k =
    let (x, p, e, cut) = split_to_levels-Cuts t.l_sep key trie.sep in
    rw (e, remove_path-remove_rec x p t.root)
      (remove_rec-deref x p v t.root trie.shape (rw e at h) (λ l ls. rw e at (k l ls)))
