-- ===== src/Trie/Find/Matches.antt =====
-- Which patterns match a topic, and the entries of a trie that match, for `find` of
-- include/kvik/wildcard_trie.hpp.
use kvik.Base.{
  ◌≡◌, refl, Bool, true, false, ◌&&◌, ◌||◌, List, [], ◌∷◌, ◌++◌, Option, none, some, ite, if_neg,
  Str, str_dec, str_eq, if◌then◌else◌, arith, subst,
}
use kvik.Trie.Nodes.{Node, Childs, node, nil, entry, value, childs, is_leaf, find_child, get}
use kvik.Trie.Find.{child_key}

abbrev pub no_levels : List Str → Bool
no_levels [] = true
no_levels (l ∷ ls) = false

-- A pattern against the levels of a topic: a level matches itself, the single-level wildcard
-- matches every level, and the multi-level wildcard, as the last level of a pattern, matches one
-- level or more (but not a topic that itself holds the wildcard at that level).
unfoldable pub matches : Str → Str → List Str → List Str → Bool
matches single multi [] [] = true
matches single multi [] (t ∷ ts) = false
matches single multi (p ∷ ps) [] = false
matches single multi (p ∷ ps) (t ∷ ts) =
    let rest = matches single multi ps ts in
    if str_eq p t || str_eq p single then rest else str_eq p multi && no_levels ps

-- The key under which the search reports a path of levels.
unfoldable pub path_key : Str → Str → List Str → Str
path_key sep key [] = key
path_key sep key (l ∷ ls) = path_key sep (child_key sep key l) ls

module _ {V : Type 0} where
  abbrev pub get_in : Str → List Str → Childs V → Option V
  get_in l p cs = elim (find_child l cs) [ none ↦ none | some c ↦ get p c ]

  pub get_in-entry :
      (l k : Str) (p : List Str) (n : Node V) (cs : Childs V)
      → get_in l p (entry k n cs) ≡ ite (str_dec k l) (get p n) (get_in l p cs)
  unfolding find_child
  get_in-entry l k p n cs = ground arith

  pub get_in_self :
      (k : Str) (p : List Str) (n : Node V) (cs : Childs V) → get_in k p (entry k n cs) ≡ get p n
  get_in_self k p n cs = ground (arith, get_in-entry k k p n cs)

  pub get-nil : (n : Node V) (v : V) → get [] n ≡ some v → (is_leaf n ≡ true) × (value n ≡ v)
  unfolding get
  get-nil n v h = ground arith

  pub get-value : (n : Node V) → is_leaf n ≡ true → get [] n ≡ some (value n)
  unfolding get
  get-value n h = ground arith

  pub none-get_in :
      (l : Str) (p : List Str) (cs : Childs V) (v : V)
      → find_child l cs ≡ none
      → ¬ (get_in l p cs ≡ some v)
  none-get_in l p cs v gone g = cc (rw (gone, get_in) at g)

  pub get_in-other :
      (l l' : Str) (p : List Str) (n : Node V) (cs : Childs V) (v : V)
      → find_child l cs ≡ none
      → get_in l' p cs ≡ some v
      → get_in l' p (entry l n cs) ≡ some v
  get_in-other l l' p n cs v u g = elim (str_dec l l') [
    | yes q ↦
        let gone : find_child l' cs ≡ none = subst (λ x. find_child x cs ≡ none) q u in
        absurd (none-get_in l' p cs v gone g)
    | no q ↦ rw (get_in-entry l' l p n cs, if_neg _ q) g
  ]

  pub nil-none : (l : Str) → find_child {V = V} l nil ≡ none
  unfolding find_child
  nil-none l = refl

module _ {V : Type 0} (sep single multi : Str) where
  -- Depth first.
  unfoldable mutual
    pub dfs : Str → List Str → Node V → List (Str × V)
    dfs key [] (node v cs i leaf) = if leaf then (key, v) ∷ [] else []
    dfs key (t ∷ ts) (node v cs i leaf) = dfs_childs key t ts cs

    pub dfs_childs : Str → Str → List Str → Childs V → List (Str × V)
    dfs_childs key t ts nil = []
    dfs_childs key t ts (entry l n cs) =
        (if str_eq l t || str_eq l single
          then dfs (child_key sep key l) ts n
          else if str_eq l multi && is_leaf n
          then (child_key sep key l, value n) ∷ []
          else [])
        ++ dfs_childs key t ts cs

  -- What the search reports at and below one child.
  abbrev pub first : Str → Str → List Str → Str → Node V → List (Str × V)
  first key t ts l n =
      if str_eq l t || str_eq l single
      then dfs (child_key sep key l) ts n
      else if str_eq l multi && is_leaf n
      then (child_key sep key l, value n) ∷ []
      else []

  pub dfs_childs-entry :
      (key t : Str) (ts : List Str) (l : Str) (n : Node V) (cs : Childs V)
      → dfs_childs key t ts (entry l n cs) ≡ first key t ts l n ++ dfs_childs key t ts cs
  unfolding dfs
  dfs_childs-entry key t ts l n cs = refl

  pub dfs_childs-nil : (key t : Str) (ts : List Str) → dfs_childs key t ts nil ≡ []
  unfolding dfs
  dfs_childs-nil key t ts = refl

  pub dfs-cons :
      (key t : Str) (ts : List Str) (n : Node V)
      → dfs key (t ∷ ts) n ≡ dfs_childs key t ts (childs n)
  unfolding dfs
  dfs-cons key t ts (node v cs i leaf) = refl

  pub dfs-nil :
      (key : Str) (n : Node V) → dfs key [] n ≡ (if is_leaf n then (key, value n) ∷ [] else [])
  unfolding dfs
  dfs-nil key (node v cs i leaf) = refl

  -- `b` reports the value of a path that matches.
  abbrev pub Matching : Str → List Str → Node V → Str × V → Type 0
  Matching key ts n (k, v) =
      (p : List Str) × (get p n ≡ some v)
      × (matches single multi p ts ≡ true)
      × (k ≡ path_key sep key p)

  abbrev pub MatchingIn : Str → Str → List Str → Childs V → Str × V → Type 0
  MatchingIn key t ts cs (k, v) =
      (l : Str) × (p : List Str) × (get_in l p cs ≡ some v)
      × (matches single multi (l ∷ p) (t ∷ ts) ≡ true)
      × (k ≡ path_key sep key (l ∷ p))
