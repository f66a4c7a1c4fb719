-- ===== src/Trie/Contents.antt =====
-- `remove` and `empty` (include/kvik/wildcard_trie.hpp) against the contents of the trie.
use kvik.Base.{
  ℕ, suc, ◌≡◌, refl, ◌∙◌, ◌≢◌, Bool, true, false, ◌||◌, List, [], ◌∷◌, none, some, ite, if_pos,
  if_neg, Str, levels_dec, arith, Option-cases, Bool-cases, is_some, is_some_of_ne, sym, inl, inr,
}
use kvik.Trie.Nodes.{
  Node, Childs, node, nil, entry, childs, is_leaf, find_child, no_childs, set_childs, set_leaf,
  many_childs, set_child, erase_child, get, is_live, IsWf, AreWf,
}
use kvik.Trie.Childs.{
  find_child-set_child, find_child-erase_child, found-IsWf, set_child-AreWf, erase_child-AreWf,
}
use kvik.Trie.Remove.{
  Removed, missing, dropped, kept, rem, above, remove_rec, at_root, remove_path-remove_rec,
}
use kvik.Trie.Split.{split_to_levels}
use kvik.Trie.Split.Laws.{split_to_levels-Cuts}
use kvik.Trie.Ops.{Trie, remove, remove_path}
use kvik.Trie.Insert.{IsTrie, lookup}

module _ {ℓ} {V : Type ℓ} where
  -- What a removal of `p` below `n` may answer.
  abbrev Removes : ℕ → List Str → Node V → Removed V → Type ℓ
  Removes d p n missing = get p n ≡ none
  Removes d p n (kept m) =
      (get p n ≢ none)
      × ((q : List Str) → get q m ≡ ite (levels_dec p q) none (get q n))
      × IsWf d m
      × (is_live m ≡ true)
  Removes d p n dropped =
      (get p n ≢ none) × ((q : List Str) → ite (levels_dec p q) none (get q n) ≡ none)

  get-leaf :
      (n : Node V)
      → is_leaf n ≡ true
      → no_childs (childs n) ≡ true
      → (q : List Str) → ite (levels_dec [] q) none (get q n) ≡ none
  unfolding get find_child
  get-leaf (node v nil i true) h e [] = ground arith
  get-leaf (node v nil i true) h e (k ∷ ks) = ground arith
  get-leaf (node v (entry k m cs) i true) h e q = cc
  get-leaf (node v cs i false) h e q = cc

  get-unset :
      (n : Node V) (q : List Str) → get q (set_leaf false n) ≡ ite (levels_dec [] q) none (get q n)
  unfolding get
  get-unset (node v cs i leaf) [] = ground arith
  get-unset (node v cs i leaf) (k ∷ ks) = ground arith

  rem-nil : (d : ℕ) (n : Node V) → IsWf d n → Removes d [] n (rem [] n)
  unfolding rem get
  rem-nil d (node v cs i false) w = refl
  rem-nil d (node v nil i true) w = (λ e. cc, get-leaf (node v nil i true) refl refl)
  rem-nil d (node v (entry k m cs) i true) w =
      (λ e. cc, get-unset (node v (entry k m cs) i true), w, refl)

  -- The child that is put back.
  get-set_child :
      (n c c' : Node V) (l : Str) (ls : List Str)
      → find_child l (childs n) ≡ some c
      → ((q : List Str) → get q c' ≡ ite (levels_dec ls q) none (get q c))
      → (q : List Str)
      → get q (set_childs (set_child l c' (childs n)) n)
        ≡ ite (levels_dec (l ∷ ls) q) none (get q n)
  unfolding get
  get-set_child (node v cs i leaf) c c' l ls e h [] = ground arith
  get-set_child (node v cs i leaf) c c' l ls e h (k ∷ ks) =
      ground (arith, find_child-set_child l k c' {n = c} cs, h ks)

  get-erase_child :
      (d : ℕ) (n c : Node V) (l : Str) (ls : List Str)
      → IsWf d n
      → find_child l (childs n) ≡ some c
      → ((q : List Str) → ite (levels_dec ls q) none (get q c) ≡ none)
      → (q : List Str)
      → get q (set_childs (erase_child l (childs n)) n) ≡ ite (levels_dec (l ∷ ls) q) none (get q n)
  unfolding get
  get-erase_child d (node v cs i leaf) c l ls (e', ws) e h [] = ground arith
  get-erase_child d (node v cs i leaf) c l ls (e', ws) e h (k ∷ ks) =
      ground (arith, find_child-erase_child (suc d) l k cs ws, h ks)

  -- Of a node that some key needs, one child is left or the node is a leaf.
  erase_child-live :
      (l : Str) (n : Node V)
      → (is_leaf n || many_childs (childs n)) ≡ true
      → is_live (set_childs (erase_child l (childs n)) n) ≡ true
  unfolding erase_child
  erase_child-live l (node v nil i leaf) h = ground arith
  erase_child-live l (node v (entry k m nil) i leaf) h = ground arith
  erase_child-live l (node v (entry k m (entry k' m' cs)) i leaf) h = ground arith

  set_child-live :
      (l : Str) (c c' n : Node V)
      → find_child l (childs n) ≡ some c
      → is_live (set_childs (set_child l c' (childs n)) n) ≡ true
  unfolding set_child find_child
  set_child-live l c c' (node v nil i leaf) h = cc
  set_child-live l c c' (node v (entry k m cs) i leaf) h = ground arith

  -- An inner node whose only child goes holds nothing any more.
  get-dropped :
      (n c : Node V) (l : Str) (ls : List Str)
      → find_child l (childs n) ≡ some c
      → (is_leaf n || many_childs (childs n)) ≡ false
      → ((q : List Str) → ite (levels_dec ls q) none (get q c) ≡ none)
      → (q : List Str) → ite (levels_dec (l ∷ ls) q) none (get q n) ≡ none
  unfolding get find_child
  get-dropped (node v nil i leaf) c l ls e h t q = cc
  get-dropped (node v (entry k m cs) i true) c l ls e h t q = cc
  get-dropped (node v (entry k m (entry k' m' cs)) i false) c l ls e h t q = cc
  get-dropped (node v (entry k m nil) i false) c l ls e h t [] = ground arith
  get-dropped (node v (entry k m nil) i false) c l ls e h t (k' ∷ ks) = ground (arith, t ks)

  set_childs-IsWf :
      (d : ℕ) (n : Node V) (cs : Childs V) → IsWf d n → AreWf (suc d) cs → IsWf d (set_childs cs n)
  set_childs-IsWf d (node v ds i leaf) cs (e, ws) h = (e, h)

  pub childs-AreWf : (d : ℕ) (n : Node V) → IsWf d n → AreWf (suc d) (childs n)
  childs-AreWf d (node v cs i leaf) w = w.1

  get-found :
      (n c : Node V) (l : Str) (ls : List Str)
      → find_child l (childs n) ≡ some c
      → get (l ∷ ls) n ≡ get ls c
  unfolding get
  get-found n c l ls e = rw (e, get) refl

  get-absent :
      (n : Node V) (l : Str) (ls : List Str)
      → find_child l (childs n) ≡ none
      → get (l ∷ ls) n ≡ none
  unfolding get
  get-absent n l ls e = rw (e, get) refl

  above-Removes :
      (d : ℕ) (n c : Node V) (l : Str) (ls : List Str) (r : Removed V)
      → IsWf d n
      → find_child l (childs n) ≡ some c
      → Removes (suc d) ls c r
      → Removes d (l ∷ ls) n (above l n r)
  above-Removes d n c l ls missing w e h = get-found n c l ls e ∙ h
  above-Removes d n c l ls (kept c') w e (there, same, wc, live) = (
    rw (get-found n c l ls e) there,
    get-set_child n c c' l ls e same,
    set_childs-IsWf d n (set_child l c' (childs n)) w
        (set_child-AreWf (suc d) l c' (childs n) (childs-AreWf d n w) wc live),
    set_child-live l c c' n e,
  )
  above-Removes d n c l ls dropped w e (there, same) =
      elim (Bool-cases (is_leaf n || many_childs (childs n))) [
        | inl h ↦ rw h (
          rw (get-found n c l ls e) there,
          get-erase_child d n c l ls w e same,
          set_childs-IsWf d n (erase_child l (childs n)) w
              (erase_child-AreWf (suc d) l (childs n) (childs-AreWf d n w)),
          erase_child-live l n h,
        )
        | inr h ↦ rw h (rw (get-found n c l ls e) there, get-dropped n c l ls e h same)
      ]

  rem-Removes : (d : ℕ) (p : List Str) (n : Node V) → IsWf d n → Removes d p n (rem p n)
  unfolding rem
  rem-Removes d [] n w = rem-nil d n w
  rem-Removes d (l ∷ ls) n w = elim (Option-cases (find_child l (childs n))) [
    | inl e ↦ rw (e, rem) (get-absent n l ls e)
    | inr (c, e) ↦
        rw (e, rem)
          (above-Removes d n c l ls (rem ls c) w e
            (rem-Removes (suc d) ls c (found-IsWf (suc d) l (childs n) (childs-AreWf d n w) e).0))
  ]

  -- The root, which is never deleted.
  at_root-Removes :
      (n c : Node V) (l : Str) (ls : List Str) (r : Removed V)
      → IsWf 0 n
      → find_child l (childs n) ≡ some c
      → Removes 1 ls c r
      → IsWf 0 (at_root l n r).0
        × ((at_root l n r).1 ≡ is_some (get (l ∷ ls) n))
        × ((q : List Str) → get q (at_root l n r).0 ≡ ite (levels_dec (l ∷ ls) q) none (get q n))
  at_root-Removes n c l ls missing w e h =
      let gone = get-found n c l ls e ∙ h in
      (
        w,
        rw gone,
        λ q. elim (levels_dec (l ∷ ls) q) [
          | yes p ↦ rw (if_pos _ p) (rw (← p) gone)
          | no p ↦ rw (if_neg _ p)
        ],
      )
  at_root-Removes n c l ls (kept c') w e (there, same, wc, live) = (
    set_childs-IsWf 0 n (set_child l c' (childs n)) w
        (set_child-AreWf 1 l c' (childs n) (childs-AreWf 0 n w) wc live),
    sym (is_some_of_ne _ (rw (get-found n c l ls e) there)),
    get-set_child n c c' l ls e same,
  )
  at_root-Removes n c l ls dropped w e (there, same) = (
    set_childs-IsWf 0 n (erase_child l (childs n)) w
        (erase_child-AreWf 1 l (childs n) (childs-AreWf 0 n w)),
    sym (is_some_of_ne _ (rw (get-found n c l ls e) there)),
    get-erase_child 0 n c l ls w e same,
  )

  -- What an answer of `remove` for the path `p` of the trie `n` must be.
  abbrev RemovesKey : List Str → Node V → Node V × Bool → Type ℓ
  RemovesKey p n (m, removed) =
      IsWf 0 m
      × (removed ≡ is_some (get p n))
      × ((q : List Str) → get q m ≡ ite (levels_dec p q) none (get q n))

  set_childs-inner : (cs : Childs V) (n : Node V) → is_leaf (set_childs cs n) ≡ is_leaf n
  set_childs-inner cs (node v ds i leaf) = refl

  at_root-inner : (l : Str) (n : Node V) (r : Removed V) → is_leaf (at_root l n r).0 ≡ is_leaf n
  at_root-inner l n missing = refl
  at_root-inner l n (kept c) = set_childs-inner (set_child l c (childs n)) n
  at_root-inner l n dropped = set_childs-inner (erase_child l (childs n)) n

  remove_rec-inner :
      (l : Str) (ls : List Str) (n : Node V) → is_leaf (remove_rec (l ∷ ls) n).0 ≡ is_leaf n
  remove_rec-inner l ls n = elim (Option-cases (find_child l (childs n))) [
    | inl e ↦ rw (e, remove_rec)
    | inr (c, e) ↦ rw (e, remove_rec) (at_root-inner l n (rem ls c))
  ]

  remove_rec-RemovesKey :
      (l : Str) (ls : List Str) (n : Node V)
      → IsWf 0 n
      → RemovesKey (l ∷ ls) n (remove_rec (l ∷ ls) n)
  remove_rec-RemovesKey l ls n w = elim (Option-cases (find_child l (childs n))) [
    | inl e ↦
        let gone = get-absent n l ls e in
        rw (e, remove_rec)
          (
            w,
            rw gone,
            λ q. elim (levels_dec (l ∷ ls) q) [
              | yes p ↦ rw (if_pos _ p) (rw (← p) gone)
              | no p ↦ rw (if_neg _ p)
            ],
          )
    | inr (c, e) ↦
        rw (e, remove_rec)
          (at_root-Removes n c l ls (rem ls c) w e
            (rem-Removes 1 ls c (found-IsWf 1 l (childs n) (childs-AreWf 0 n w) e).0))
  ]

  remove-inner :
      (key : Str) (t : Trie V)
      → IsTrie t
      → is_leaf (remove_path (split_to_levels t.l_sep key) t.root).0 ≡ false
  remove-inner key t w =
      let (l, ls, e, cut) = split_to_levels-Cuts t.l_sep key w.sep in
      rw (e, remove_path-remove_rec l ls t.root) (remove_rec-inner l ls t.root ∙ w.inner)

  remove-lem :
      (key : Str) (t : Trie V)
      → IsTrie t
      → RemovesKey
          (split_to_levels t.l_sep key)
          t.root
          (remove_path (split_to_levels t.l_sep key) t.root)
  remove-lem key t w =
      let (l, ls, e, cut) = split_to_levels-Cuts t.l_sep key w.sep in
      rw (e, remove_path-remove_rec l ls t.root) (remove_rec-RemovesKey l ls t.root w.shape)

  -- A removal from a trie gives a trie.
  pub remove-IsTrie : (key : Str) (t : Trie V) → IsTrie t → IsTrie (remove key t).0
  unfolding remove
  remove-IsTrie key t w = record {
    sep = w.sep;
    shape = (remove-lem key t w).0;
    inner = remove-inner key t w;
  }

  -- On a trie, `remove` answers whether the key was there, takes it away, and leaves the value of
  -- every other key.
  pub lookup-remove :
      (key : Str) (t : Trie V)
      → IsTrie t
      → ((remove key t).1 ≡ is_some (lookup t (split_to_levels t.l_sep key)))
        × ((q : List Str)
            → lookup (remove key t).0 q
              ≡ ite (levels_dec (split_to_levels t.l_sep key) q) none (lookup t q))
  unfolding remove
  lookup-remove key t w = ((remove-lem key t w).1, (remove-lem key t w).2)
