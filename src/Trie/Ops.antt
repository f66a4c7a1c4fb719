-- ===== src/Trie/Ops.antt =====
-- The constructor, `operator[]`, `insert`, `remove`, `empty` and `clear` of WildcardTrie
-- (include/kvik/wildcard_trie.hpp).
use kvik.Base.{
  ℕ, suc, Bool, true, false, ◌||◌, List, [], ◌∷◌, Option, none, some, Str, str_dec, str_eq,
  if◌then◌else◌,
}
use kvik.Trie.Nodes.{
  Node, node, nil, value, childs, is_leaf, set_childs, set_leaf, find_child, no_childs, many_childs,
  erase_child, set_child, upsert,
}
use kvik.Trie.Split.{split_to_levels}

pub record Trie {ℓ} (V : Type ℓ) : Type ℓ where
  pub l_sep : Str
  pub l_single_wild : Str
  pub l_multi_wild : Str
  pub root : Node V

is_nil : Str → Bool
is_nil [] = true
is_nil (c ∷ cs) = false

module _ {ℓ} {V : Type ℓ} (default : V) where
  abbrev pub fresh : ℕ → Node V
  fresh i = node default nil i false

  -- The constructor. `none` is the exception.
  unfoldable pub construct : Str → Str → Str → Option (Trie V)
  unfolding is_nil str_dec
  construct sep single multi =
      if is_nil sep || is_nil single || is_nil multi
      then none
      else if str_eq sep single || str_eq sep multi || str_eq single multi
      then none
      else some
          (record { l_sep = sep; l_single_wild = single; l_multi_wild = multi; root = fresh 0 })

  -- The walk of `operator[]`: the nodes on the path are created, the last one becomes a leaf, and
  -- `f` is what the caller does with the reference to its value.
  unfoldable pub at_path : ℕ → List Str → (V → V) → Node V → Node V
  at_path i [] f (node v cs li leaf) = node (f v) cs li true
  at_path i (l ∷ ls) f (node v cs li leaf) =
      node v (upsert l (at_path (suc i) ls f) (fresh (suc i)) cs) li leaf

  -- The value that the reference of `operator[]` refers to, which is the default one in a new node.
  unfoldable pub value_at : List Str → Node V → V
  value_at [] n = value n
  value_at (l ∷ ls) n = elim (find_child l (childs n)) [ none ↦ default | some c ↦ value_at ls c ]

  -- `operator[]` of a key: the value, and the trie, in which the key is there from now on.
  unfoldable pub index : Str → Trie V → V × Trie V
  unfolding value_at at_path
  index key t =
      let levels = split_to_levels t.l_sep key in
      (value_at levels t.root, record t { root = at_path 0 levels (λ v. v) t.root })

  unfoldable pub insert : Str → V → Trie V → Trie V
  insert key v t = record t { root = at_path 0 (split_to_levels t.l_sep key) (λ _. v) t.root }

  unfoldable pub clear : Trie V → Trie V
  clear t = record t { root = fresh 0 }

-- `nodeStack`, deepest node first, each with the level taken from it.
abbrev pub Stack {ℓ} : Type ℓ → Type ℓ
Stack V = List (Node V × Str)

module _ {ℓ} {V : Type ℓ} where
  -- Get the node if it exists.
  unfoldable pub descend : List Str → Node V → Stack V → Option (Node V × Stack V)
  descend [] cur stack = some (cur, stack)
  descend (l ∷ ls) cur stack = elim (find_child l (childs cur)) [
    | none ↦ none
    | some c ↦ descend ls c ((cur, l) ∷ stack)
  ]

  -- The root, once the node below the stack has changed in place.
  unfoldable pub rebuild : Node V → Stack V → Node V
  rebuild n [] = n
  rebuild n ((p, l) ∷ stack) = rebuild (set_childs (set_child l n (childs p)) p) stack

  abbrev pub is_bottom : Stack V → Bool
  is_bottom [] = true
  is_bottom (x ∷ xs) = false

  -- The loop that deletes the redundant ancestors. `none`: the loop ends without a `break`.
  unfoldable pub delete_redundant : Stack V → Option (Node V)
  delete_redundant [] = none
  delete_redundant ((p, l) ∷ stack) =
      if is_leaf p || many_childs (childs p) || is_bottom stack
      then some (rebuild (set_childs (erase_child l (childs p)) p) stack)
      else delete_redundant stack

  abbrev pub or_else : Option (Node V) → Node V → Node V
  or_else none n = n
  or_else (some m) n = m

  -- The part of `remove` after the walk.
  unfoldable pub unlink : Node V → Stack V → Node V
  unfolding delete_redundant rebuild
  unlink cur stack =
      let unset = rebuild (set_leaf false cur) stack in
      if no_childs (childs cur) then or_else (delete_redundant stack) unset else unset

  unfoldable pub remove_path : List Str → Node V → Node V × Bool
  unfolding descend unlink
  remove_path levels root = elim (descend levels root []) [
    | none ↦ (root, false)
    | some (cur, stack) ↦ if is_leaf cur then (unlink cur stack, true) else (root, false)
  ]

  unfoldable pub remove : Str → Trie V → Trie V × Bool
  remove key t =
      let (root', removed) = remove_path (split_to_levels t.l_sep key) t.root in
      (record t { root = root' }, removed)

  unfoldable pub empty : Trie V → Bool
  empty t = no_childs (childs t.root)
