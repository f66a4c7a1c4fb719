-- ===== src/Tests/TrieRuns.antt =====
-- Runs of the trie (include/kvik/wildcard_trie.hpp) and the broker (src/common/local_broker.cpp).
use kvik.Base.{
  suc, ◌≡◌, refl, ◌≢◌, ◌↔◌, Bool, true, false, List, [], ◌∷◌, levels_dec, some, none, Str, In,
  arith,
}
use kvik.Message.{ErrCode, SubData}
use kvik.Trie.Ops.{Trie, construct, insert, remove, remove_path, empty, index, at_path}
use kvik.Trie.Split.{split_to_levels, find_sep}
use kvik.Trie.Split.Laws.{Cuts, split_to_levels-Cuts}
use kvik.Trie.Insert.{IsTrie, lookup, insert-IsTrie}
use kvik.Trie.Remove.{remove_path-remove_rec, remove_rec}
use kvik.Trie.Find.{find, find_loop, for_each, for_each_loop, node_count}
use kvik.Trie.Find.Matches.{path_key}
use kvik.Trie.Find.Spec.{Subscribed, find-Subscribed}
use kvik.Trie.Stale.{index-remove}
use kvik.Trie.Nodes.{upsert, get, find_child}
use kvik.Trie.Runs
use kvik.Trie.Runs.{inserts, removes, contents, answers, run-contents}
use kvik.Trie.Each.{for_each_iff}
use kvik.Trie.Each.Keys.{path_key-split_iff}
use kvik.Broker.{new_broker, publish}
use kvik.Broker.Delivery.{
  Call, publish_iff, Wanted, patterns, last_cb, run, subscribes, unsubscribes, sets_recv_cb,
  sets_reconnect_cb,
}

-- "a/b", "a/+" and "#"
abbrev ab : Str
ab = 97 ∷ 47 ∷ 98 ∷ []

abbrev a_plus : Str
a_plus = 97 ∷ 47 ∷ 43 ∷ []

abbrev all_topics : Str
all_topics = 35 ∷ []

abbrev start : Trie Bool
start = new_broker.subs

start-IsTrie : IsTrie start
start-IsTrie = record { sep = omega arith; shape = (refl, tt); inner = refl }

abbrev sample : Trie Bool
sample = insert false a_plus true (insert false ab true start)

sample-IsTrie : IsTrie sample
sample-IsTrie =
    insert-IsTrie false a_plus true (insert false ab true start)
      (insert-IsTrie false ab true start start-IsTrie)

-- "a" and "a/b".
abbrev nested : Trie Bool
nested = insert false ab true (insert false (97 ∷ []) true start)

index-remove_example :
    (lookup (remove (97 ∷ []) nested).0 (split_to_levels (47 ∷ []) (97 ∷ [])) ≡ none)
    × ((index false (97 ∷ []) (remove (97 ∷ []) nested).0).0 ≡ true)
unfolding split_to_levels at_path upsert get find_child insert
index-remove_example =
    index-remove false (97 ∷ []) nested (98 ∷ []) []
      (insert-IsTrie false ab true (insert false (97 ∷ []) true start)
        (insert-IsTrie false (97 ∷ []) true start start-IsTrie))
      refl refl

-- An insertion, one over it, a removal and another of the same key.
abbrev calls : List (Runs.Call Bool)
calls =
    inserts ab true ∷ inserts a_plus true ∷ inserts ab false ∷ removes a_plus ∷ removes a_plus ∷ []

built : construct false (47 ∷ []) (43 ∷ []) (35 ∷ []) ≡ some start
unfolding construct
built = refl

answered : answers (47 ∷ []) calls (λ p. none) ≡ true ∷ false ∷ []
unfolding answers split_to_levels levels_dec
answered = refl

run-contents_example :
    IsTrie (Runs.run false calls start).0
    × ((q : List Str)
        → lookup (Runs.run false calls start).0 q ≡ contents (47 ∷ []) calls (λ p. none) q)
    × ((Runs.run false calls start).1 ≡ answers (47 ∷ []) calls (λ p. none))
    × ((empty (Runs.run false calls start).0 ≡ true)
        ↔ ((q : List Str) → contents (47 ∷ []) calls (λ p. none) q ≡ none))
run-contents_example = run-contents false (47 ∷ []) (43 ∷ []) (35 ∷ []) calls built

find-Subscribed_example :
    (find_loop
        (suc (node_count sample.root))
        sample
        (split_to_levels sample.l_sep ab)
        (([], sample.root) ∷ [])
        []
      ≡ some (find sample ab))
    × ((k : Str) (v : Bool) → In (k, v) (find sample ab) → Subscribed sample ab k v)
    × ((k : Str) (v : Bool) → Subscribed sample ab k v → (w : Bool) × In (k, w) (find sample ab))
find-Subscribed_example = find-Subscribed sample ab sample-IsTrie

for_each_iff_example :
    (for_each_loop (suc (node_count sample.root)) sample.l_sep (([], sample.root) ∷ []) []
      ≡ some (for_each sample))
    × ((k : Str) (v : Bool)
        → In (k, v) (for_each sample)
          ↔ ((p : List Str) × (lookup sample p ≡ some v) × (k ≡ path_key sample.l_sep [] p)))
for_each_iff_example = for_each_iff sample sample-IsTrie

path_key-split_iff_example :
    (path_key (47 ∷ []) [] (split_to_levels (47 ∷ []) (47 ∷ ab)) ≡ 47 ∷ ab)
    ↔ (find_sep (47 ∷ []) (47 ∷ ab) ≢ some 0)
path_key-split_iff_example = path_key-split_iff (47 ∷ []) (47 ∷ ab) (omega arith)

split_to_levels-Cuts_example :
    (l : Str) × (ls : List Str) × (split_to_levels (47 ∷ []) ab ≡ l ∷ ls)
    × Cuts (47 ∷ []) ab (l ∷ ls)
split_to_levels-Cuts_example = split_to_levels-Cuts (47 ∷ []) ab (omega arith)

abbrev always : SubData → ErrCode
always d = ErrCode.success

abbrev broker_calls : List Call
broker_calls =
    subscribes a_plus
    ∷ sets_reconnect_cb none
    ∷ sets_recv_cb (some always)
    ∷ unsubscribes all_topics
    ∷ []

publish_iff_example :
    let b = run broker_calls new_broker in
    (Wanted (patterns broker_calls (λ q. false)) ab
      → publish b (record { topic = ab; payload = [] })
        ≡ (ErrCode.success, record { topic = ab; payload = [] } ∷ []))
    × (¬ Wanted (patterns broker_calls (λ q. false)) ab
        → publish b (record { topic = ab; payload = [] }) ≡ (ErrCode.success, []))
unfolding last_cb
publish_iff_example = publish_iff broker_calls (record { topic = ab; payload = [] })

remove_path-remove_rec_example :
    remove_path ((97 ∷ []) ∷ (98 ∷ []) ∷ []) sample.root
    ≡ remove_rec ((97 ∷ []) ∷ (98 ∷ []) ∷ []) sample.root
remove_path-remove_rec_example = remove_path-remove_rec (97 ∷ []) ((98 ∷ []) ∷ []) sample.root
