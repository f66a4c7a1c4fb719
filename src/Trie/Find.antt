-- ===== src/Trie/Find.antt =====
-- `find` and `forEach` of include/kvik/wildcard_trie.hpp: the breadth-first searches.
pub mod Matches
pub mod Dfs
pub mod Loop
pub mod Spec
use kvik.Base.{
  ℕ, zero, suc, ◌+◌, Bool, true, false, ◌&&◌, ◌||◌, List, [], ◌∷◌, ◌++◌, Option, none, some, ite,
  Str, str_dec, str_eq, if◌then◌else◌, ltb, ◌==◌, length, get_elem?,
}
use kvik.Trie.Nodes.{Node, Childs, node, nil, entry, value, childs, is_leaf, level_index}
use kvik.Trie.Split.{split_to_levels}
use kvik.Trie.Ops.{Trie}

-- The key of a child from the key of its parent.
unfoldable pub child_key : Str → Str → Str → Str
child_key sep [] level = level
child_key sep (c ∷ key) level = (c ∷ key) ++ (sep ++ level)

-- `values.insert`: a key that is there already keeps its value.
unfoldable pub put_new : {V : Type 0} → Str → V → List (Str × V) → List (Str × V)
put_new k v [] = (k, v) ∷ []
put_new k v ((j, w) ∷ m) = ite (str_dec j k) ((j, w) ∷ m) ((j, w) ∷ put_new k v m)

-- `levels.at(i)`, which the test before it keeps in range.
abbrev pub level_at : List Str → ℕ → Str
level_at [] i = []
level_at (l ∷ ls) zero = l
level_at (l ∷ ls) (suc i) = level_at ls i

-- How much is below, which bounds the rounds of both searches.
unfoldable mutual
  pub node_count : {V : Type 0} → Node V → ℕ
  node_count (node v cs i leaf) = suc (childs_count cs)

  pub childs_count : {V : Type 0} → Childs V → ℕ
  childs_count nil = 0
  childs_count (entry k n cs) = node_count n + childs_count cs

abbrev pub Queue : Type 0 → Type 0
Queue V = List (Str × Node V)

abbrev pub Values : Type 0 → Type 0
Values V = List (Str × V)

module _ {V : Type 0} where
  -- The body of the loop over the children.
  unfoldable pub enqueue_child :
      Trie V → Str → Str → Str → Node V → Queue V × Values V → Queue V × Values V
  unfolding put_new child_key str_dec
  enqueue_child t level key l n (queue, values) =
      let k = child_key t.l_sep key l in
      if str_eq l level || str_eq l t.l_single_wild
      then (queue ++ (k, n) ∷ [], values)
      else if str_eq l t.l_multi_wild && is_leaf n
      then (queue, put_new k (value n) values)
      else (queue, values)

  unfoldable pub enqueue_childs :
      Trie V → Str → Str → Childs V → Queue V × Values V → Queue V × Values V
  enqueue_childs t level key nil s = s
  enqueue_childs t level key (entry l n cs) s =
      enqueue_childs t level key cs (enqueue_child t level key l n s)

  -- One round of the search: the node at the front of the queue.
  unfoldable pub find_visit :
      Trie V → List Str → Str → Node V → Queue V × Values V → Queue V × Values V
  unfolding put_new
  find_visit t levels key n (queue, values) =
      if level_index n == length levels && is_leaf n
      then (queue, put_new key (value n) values)
      else if ltb (level_index n) (length levels)
      then enqueue_childs t (level_at levels (level_index n)) key (childs n) (queue, values)
      else (queue, values)

  unfoldable pub find_loop : ℕ → Trie V → List Str → Queue V → Values V → Option (Values V)
  unfolding find_visit
  find_loop zero t levels queue values = none
  find_loop (suc fuel) t levels [] values = some values
  find_loop (suc fuel) t levels ((key, n) ∷ queue) values =
      let (queue', values') = find_visit t levels key n (queue, values) in
      find_loop fuel t levels queue' values'

  abbrev pub or_no_values : Option (Values V) → Values V
  or_no_values none = []
  or_no_values (some vs) = vs

  unfoldable pub find : Trie V → Str → Values V
  unfolding find_loop node_count
  find t key =
      or_no_values
        (find_loop (suc (node_count t.root)) t (split_to_levels t.l_sep key) (([], t.root) ∷ []) [])

  -- `forEach`: the calls of the callback, in order.
  unfoldable pub enqueue_all : Str → Str → Childs V → Queue V → Queue V
  unfolding child_key
  enqueue_all sep key nil queue = queue
  enqueue_all sep key (entry l n cs) queue =
      enqueue_all sep key cs (queue ++ (child_key sep key l, n) ∷ [])

  unfoldable pub for_each_loop : ℕ → Str → Queue V → Values V → Option (Values V)
  unfolding enqueue_all
  for_each_loop zero sep queue calls = none
  for_each_loop (suc fuel) sep [] calls = some calls
  for_each_loop (suc fuel) sep ((key, n) ∷ queue) calls =
      for_each_loop fuel sep (enqueue_all sep key (childs n) queue)
        (if is_leaf n then calls ++ (key, value n) ∷ [] else calls)

  unfoldable pub for_each : Trie V → Values V
  unfolding for_each_loop node_count
  for_each t = or_no_values (for_each_loop (suc (node_count t.root)) t.l_sep (([], t.root) ∷ []) [])
