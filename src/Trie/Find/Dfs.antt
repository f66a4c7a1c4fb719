-- ===== src/Trie/Find/Dfs.antt =====
-- The depth-first description of `find` (include/kvik/wildcard_trie.hpp) against the paths that
-- match.
use kvik.Base.{
  ℕ, suc, ◌≡◌, refl, ◌↔◌, ◌⊎◌, inl, inr, true, false, ◌&&◌, ◌||◌, List, [], ◌∷◌, some, if_pos,
  if_neg, Str, str_dec, str_eq, if◌then◌else◌, arith, In, In-append, Bool-cases, sym, ap, ◌∙◌,
  subst,
}
use kvik.Trie.Nodes.{Node, Childs, node, nil, entry, value, is_leaf, get, IsWf, AreWf}
use kvik.Trie.Find.{child_key}
use kvik.Trie.Find.Matches.{
  matches, path_key, dfs, dfs_childs, Matching, MatchingIn, first, get_in-entry, get_in_self,
  get-nil, get-value, no_levels, none-get_in, get_in-other, nil-none,
}

module _ {V : Type 0} (sep single multi : Str) where
  -- A path below the child `l`.
  abbrev Below : Str → Str → List Str → Str → Node V → Str × V → Type 0
  Below key t ts l n (k, v) =
      (p : List Str) × (get p n ≡ some v)
      × (matches single multi (l ∷ p) (t ∷ ts) ≡ true)
      × (k ≡ path_key sep key (l ∷ p))

  abbrev last : Str → Str → Node V → List (Str × V)
  last key l n = if str_eq l multi && is_leaf n then (child_key sep key l, value n) ∷ [] else []

  last-Below :
      (key t : Str) (ts : List Str) (l : Str) (n : Node V) (k : Str) (v : V)
      → ((str_eq l multi && is_leaf n) ≡ true) ⊎ ((str_eq l multi && is_leaf n) ≡ false)
      → (str_eq l t || str_eq l single) ≡ false
      → In {A = Str × V} (k, v) (last key l n)
      → Below key t ts l n (k, v)
  unfolding matches path_key
  last-Below key t ts l n k v (inl g) h m = elim (rw g at m) [
    | inl e ↦
        let both : (str_eq l multi ≡ true) × (is_leaf n ≡ true) = ground arith in
        (
          [],
          get-value n both.1 ∙ ap (λ x. some (x.1)) (sym e),
          rw h (ground arith),
          ap (λ x. x.0) e,
        )
    | inr e ↦ absurd e
  ]
  last-Below key t ts l n k v (inr g) h m = absurd (rw g at m)

  Below-last :
      (key t : Str) (ts : List Str) (l : Str) (n : Node V) (k : Str) (v : V) (p : List Str)
      → (str_eq l multi && no_levels p) ≡ true
      → get p n ≡ some v
      → k ≡ path_key sep key (l ∷ p)
      → In {A = Str × V} (k, v) (last key l n)
  unfolding path_key
  Below-last key t ts l n k v [] mt g e =
      let (leaf, same) = get-nil n v g in
      let both : (str_eq l multi && is_leaf n) ≡ true = ground arith in
      rw both (inl (λ i. (e i, sym same i)))
  Below-last key t ts l n k v (q ∷ p) mt g e = absurd (ground arith)

  first-Below :
      (key t : Str) (ts : List Str) (l : Str) (n : Node V) (k : Str) (v : V)
      → (In {A = Str × V} (k, v) (dfs sep single multi (child_key sep key l) ts n)
          → Matching sep single multi (child_key sep key l) ts n (k, v))
      → In {A = Str × V} (k, v) (first sep single multi key t ts l n)
      → Below key t ts l n (k, v)
  unfolding matches path_key
  first-Below key t ts l n k v ih m = elim (Bool-cases (str_eq l t || str_eq l single)) [
    | inl h ↦ let (p, g, mt, e) = ih (rw h at m) in (p, g, rw h mt, e)
    | inr h ↦ last-Below key t ts l n k v (Bool-cases (str_eq l multi && is_leaf n)) h (rw h at m)
  ]

  Below-first :
      (key t : Str) (ts : List Str) (l : Str) (n : Node V) (k : Str) (v : V)
      → (Matching sep single multi (child_key sep key l) ts n (k, v)
          → In {A = Str × V} (k, v) (dfs sep single multi (child_key sep key l) ts n))
      → Below key t ts l n (k, v)
      → In {A = Str × V} (k, v) (first sep single multi key t ts l n)
  unfolding matches path_key
  Below-first key t ts l n k v ih (p, g, mt, e) =
      elim (Bool-cases (str_eq l t || str_eq l single)) [
        | inl h ↦ rw h (ih (p, g, rw h at mt, e))
        | inr h ↦ rw h (Below-last key t ts l n k v p (rw h at mt) g e)
      ]

  mutual
    unfolding dfs get matches path_key

    dfs-Matching :
        (d : ℕ) (key : Str) (ts : List Str) (n : Node V) (k : Str) (v : V)
        → IsWf d n
        → In {A = Str × V} (k, v) (dfs sep single multi key ts n)
        → Matching sep single multi key ts n (k, v)
    dfs-Matching d key [] (node x cs i true) k v w m = elim m [
      | inl e ↦ ([], ap (λ b. some (b.1)) (sym e), refl, ap (λ b. b.0) e)
      | inr e ↦ absurd e
    ]
    dfs-Matching d key [] (node x cs i false) k v w m = absurd m
    dfs-Matching d key (t ∷ ts) (node x cs i leaf) k v w m =
        let (l, p, g, mt, e) = dfs_childs-Matching (suc d) key t ts cs k v w.1 m in
        (l ∷ p, g, mt, e)

    dfs_childs-Matching :
        (d : ℕ) (key t : Str) (ts : List Str) (cs : Childs V) (k : Str) (v : V)
        → AreWf d cs
        → In {A = Str × V} (k, v) (dfs_childs sep single multi key t ts cs)
        → MatchingIn sep single multi key t ts cs (k, v)
    dfs_childs-Matching d key t ts nil k v w m = absurd m
    dfs_childs-Matching d key t ts (entry l n cs) k v (w, a, u, ws) m =
        elim ((In-append (k, v) (first sep single multi key t ts l n)
            (dfs_childs sep single multi key t ts cs)).0
          m) [
            | inl m' ↦
                let (p, g, mt, e) =
                  first-Below key t ts l n k v (dfs-Matching d (child_key sep key l) ts n k v w)
                    m' in
                (l, p, get_in_self l p n cs ∙ g, mt, e)
            | inr m' ↦
                let (l', p, g, mt, e) = dfs_childs-Matching d key t ts cs k v ws m' in
                (l', p, get_in-other l l' p n cs v u g, mt, e)
          ]

  mutual
    unfolding dfs get matches path_key

    Matching-dfs :
        (key : Str) (ts : List Str) (n : Node V) (k : Str) (v : V)
        → Matching sep single multi key ts n (k, v)
        → In {A = Str × V} (k, v) (dfs sep single multi key ts n)
    Matching-dfs key [] (node x cs i leaf) k v ([], g, mt, e) =
        let (is, same) = get-nil (node x cs i leaf) v g in rw is (inl (λ i. (e i, sym same i)))
    Matching-dfs key [] (node x cs i leaf) k v (l ∷ p, g, mt, e) = cc
    Matching-dfs key (t ∷ ts) (node x cs i leaf) k v ([], g, mt, e) = cc
    Matching-dfs key (t ∷ ts) (node x cs i leaf) k v (l ∷ p, g, mt, e) =
        Matching-dfs_childs key t ts cs k v (l, p, g, mt, e)

    Matching-dfs_childs :
        (key t : Str) (ts : List Str) (cs : Childs V) (k : Str) (v : V)
        → MatchingIn sep single multi key t ts cs (k, v)
        → In {A = Str × V} (k, v) (dfs_childs sep single multi key t ts cs)
    Matching-dfs_childs key t ts nil k v (l, p, g, mt, e) =
        absurd (none-get_in l p nil v (nil-none l) g)
    Matching-dfs_childs key t ts (entry l n cs) k v (l', p, g, mt, e) =
        (In-append (k, v) (first sep single multi key t ts l n)
            (dfs_childs sep single multi key t ts cs)).1
          (elim (str_dec l l') [
            | yes q ↦ inl (
                Below-first key t ts l n k v (Matching-dfs (child_key sep key l) ts n k v) (
                  subst (λ x. Below key t ts x n (k, v)) (sym q)
                    (p, rw (get_in-entry l' l p n cs, if_pos _ q) at g, mt, e)))
            | no q ↦ inr (
                Matching-dfs_childs key t ts cs k v
                  (l', p, rw (get_in-entry l' l p n cs, if_neg _ q) at g, mt, e))
          ])

  -- On a well-formed node.
  pub dfs_iff :
      (d : ℕ) (key : Str) (ts : List Str) (n : Node V) (k : Str) (v : V)
      → IsWf d n
      → In {A = Str × V} (k, v) (dfs sep single multi key ts n)
        ↔ Matching sep single multi key ts n (k, v)
  dfs_iff d key ts n k v w = (dfs-Matching d key ts n k v w, Matching-dfs key ts n k v)
