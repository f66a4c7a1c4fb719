-- ===== src/Client/Entries.antt =====
-- The loop of `recvLocalSubData` of src/common/client.cpp over the callbacks that a search has found:
-- it holds references into the trie (include/kvik/wildcard_trie.hpp), and no lock.
pub mod Removed
pub mod Dangling
use kvik.Base.{List, [], ◌∷◌, Option, none, some, Str}
use kvik.Message.{SubCb}
use kvik.Trie.Nodes.{Node, value, childs, find_child}
use kvik.Trie.Ops.{Trie}
use kvik.Trie.Runs.{Call}
use kvik.Trie.Runs
use kvik.Client.Subs.{no_cb}

-- What a reference to the value of a node, given by its path, refers to; `none` where the node has
-- been destroyed.
unfoldable pub deref {ℓ} : {V : Type ℓ} → List Str → Node V → Option V
deref [] n = some (value n)
deref (l ∷ ls) n = elim (find_child l (childs n)) [ none ↦ none | some c ↦ deref ls c ]

-- The callbacks that are called for the entries of one datum. Before each call, other threads may
-- change the subscriptions; `none` is the call of a callback that has been destroyed.
unfoldable pub call_entries :
    List (List (Call SubCb)) → List (List Str) → Trie SubCb → Option (List SubCb)
unfolding deref
call_entries others [] t = some []
call_entries [] (p ∷ ps) t = elim (deref p t.root) [
  | none ↦ none
  | some cb ↦ elim (call_entries [] ps t) [ none ↦ none | some cbs ↦ some (cb ∷ cbs) ]
]
call_entries (o ∷ others) (p ∷ ps) t =
    let t' = (Runs.run no_cb o t).0 in
    elim (deref p t'.root) [
      | none ↦ none
      | some cb ↦ elim (call_entries others ps t') [ none ↦ none | some cbs ↦ some (cb ∷ cbs) ]
    ]
