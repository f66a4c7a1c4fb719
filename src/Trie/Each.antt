-- ===== src/Trie/Each.antt =====
-- `forEach` of include/kvik/wildcard_trie.hpp calls back for every entry of the trie.
pub mod Keys
use kvik.Base.{
  ℕ, zero, suc, ◌+◌, ◌<◌, ◌≤◌, ◌≡◌, refl, ◌↔◌, ◌⊎◌, inl, inr, Bool, true, false, List, [], ◌∷◌,
  ◌++◌, Option, none, some, ite, if_pos, if_neg, Str, str_dec, if◌then◌else◌, arith, In, In-append,
  Bool-cases, sym, ap, ◌∙◌, subst, All, iff_trans, iff_refl, iff_sym, sum_iff, Option-cases,
}
use mathlib.Core.List.{append_assoc, append-nil}
use kvik.Trie.Nodes.{
  Node, Childs, node, nil, entry, value, childs, is_leaf, level_index, find_child, get, IsWf, AreWf,
}
use kvik.Trie.Ops.{Trie}
use kvik.Trie.Insert.{lookup, IsTrie}
use kvik.Trie.Search.{gather, total, bfs, bfs-total}
use kvik.Trie.Find.{
  child_key, node_count, childs_count, Queue, Values, enqueue_all, for_each_loop, for_each,
  or_no_values,
}
use kvik.Trie.Find.Matches.{
  path_key, get_in, get_in-entry, get_in_self, get-nil, get-value, get_in-other, none-get_in,
  nil-none,
}

module _ {V : Type 0} (sep : Str) where
  abbrev hits : Str × Node V → Values V
  hits (key, n) = if is_leaf n then (key, value n) ∷ [] else []

  abbrev childs_kids : Str → Childs V → Queue V
  childs_kids key nil = []
  childs_kids key (entry l n cs) = (child_key sep key l, n) ∷ childs_kids key cs

  abbrev kids : Str × Node V → Queue V
  kids (key, n) = childs_kids key (childs n)

  enqueue_all_lem :
      (key : Str) (cs : Childs V) (q : Queue V) → enqueue_all sep key cs q ≡ q ++ childs_kids key cs
  unfolding enqueue_all
  enqueue_all_lem key nil q = sym (append-nil q)
  enqueue_all_lem key (entry l n cs) q =
      enqueue_all_lem key cs (q ++ (child_key sep key l, n) ∷ [])
      ∙ append_assoc q ((child_key sep key l, n) ∷ []) (childs_kids key cs)

  none-ne : (bs : Values V) → ¬ (none ≡ some bs)
  none-ne bs h = cc

  add-hits :
      (key : Str) (n : Node V) (calls : Values V)
      → (if is_leaf n then calls ++ (key, value n) ∷ [] else calls) ≡ calls ++ hits (key, n)
  add-hits key n calls = ground (arith, append-nil calls)

  for_each_loop-bfs :
      (fuel : ℕ) (q : Queue V) (calls bs : Values V)
      → bfs hits kids fuel q ≡ some bs
      → for_each_loop fuel sep q calls ≡ some (calls ++ bs)
  unfolding for_each_loop bfs
  for_each_loop-bfs zero q calls bs h = cc
  for_each_loop-bfs (suc fuel) [] calls bs h = ground (arith, append-nil calls)
  for_each_loop-bfs (suc fuel) ((key, n) ∷ q) calls bs h =
      elim (Option-cases (bfs hits kids fuel (q ++ kids (key, n)))) [
        | inl e ↦ absurd (none-ne bs (rw (e, bfs) at h))
        | inr (bs', e) ↦
            let both : some (hits (key, n) ++ bs') ≡ some bs = rw (e, bfs) at h in
            let split : hits (key, n) ++ bs' ≡ bs = cc in
            rw (enqueue_all_lem key (childs n) q, add-hits key n calls)
              (for_each_loop-bfs fuel (q ++ kids (key, n)) (calls ++ hits (key, n)) bs' e
                ∙ ap some (append_assoc calls (hits (key, n)) bs' ∙ ap (λ x. calls ++ x) split))
      ]

  abbrev weight : Str × Node V → ℕ
  weight (key, n) = node_count n

  childs_kids-falls :
      (key : Str) (cs : Childs V) → total weight (childs_kids key cs) ≤ childs_count cs
  unfolding total node_count
  childs_kids-falls key nil = omega arith
  childs_kids-falls key (entry l n cs) = omega (arith, childs_kids-falls key cs)

  kids-falls : (x : Str × Node V) → total weight (kids x) < weight x
  unfolding node_count
  kids-falls (key, node v cs i leaf) = omega (arith, childs_kids-falls key cs)

  -- Depth first.
  mutual
    entries : Str → Node V → Values V
    entries key (node v cs i leaf) = (if leaf then (key, v) ∷ [] else []) ++ childs_entries key cs

    childs_entries : Str → Childs V → Values V
    childs_entries key nil = []
    childs_entries key (entry l n cs) = entries (child_key sep key l) n ++ childs_entries key cs

  abbrev described : Str × Node V → Values V
  described (key, n) = entries key n

  childs_entries-gather :
      (key : Str) (cs : Childs V) → childs_entries key cs ≡ gather described (childs_kids key cs)
  unfolding entries
  childs_entries-gather key nil = refl
  childs_entries-gather key (entry l n cs) =
      ap (λ x. entries (child_key sep key l) n ++ x) (childs_entries-gather key cs)

  described-item :
      (x : Str × Node V)
      → Unit {0}
      → (b : Str × V) → In b (described x) ↔ (In b (hits x) ⊎ In b (gather described (kids x)))
  unfolding entries
  described-item (key, node v cs i leaf) u b =
      rw (sym (childs_entries-gather key cs))
        (In-append b (if leaf then (key, v) ∷ [] else []) (childs_entries key cs))

  All-any : (q : Queue V) → All (λ x. Unit {0}) q
  All-any [] = tt
  All-any (x ∷ q) = (tt, All-any q)

  -- `b` reports the value of a path.
  abbrev Stored : Str → Node V → Str × V → Type 0
  Stored key n (k, v) = (p : List Str) × (get p n ≡ some v) × (k ≡ path_key sep key p)

  abbrev StoredIn : Str → Childs V → Str × V → Type 0
  StoredIn key cs (k, v) =
      (l : Str) × (p : List Str) × (get_in l p cs ≡ some v) × (k ≡ path_key sep key (l ∷ p))

  mutual
    unfolding entries get path_key

    entries-Stored :
        (d : ℕ) (key : Str) (n : Node V) (k : Str) (v : V)
        → IsWf d n
        → In {A = Str × V} (k, v) (entries key n)
        → Stored key n (k, v)
    entries-Stored d key (node x cs i true) k v w (inl e) =
        ([], ap (λ b. some (b.1)) (sym e), ap (λ b. b.0) e)
    entries-Stored d key (node x cs i true) k v w (inr m) =
        let (l, p, g, e) = childs_entries-Stored (suc d) key cs k v w.1 m in (l ∷ p, g, e)
    entries-Stored d key (node x cs i false) k v w m =
        let (l, p, g, e) = childs_entries-Stored (suc d) key cs k v w.1 m in (l ∷ p, g, e)

    childs_entries-Stored :
        (d : ℕ) (key : Str) (cs : Childs V) (k : Str) (v : V)
        → AreWf d cs
        → In {A = Str × V} (k, v) (childs_entries key cs)
        → StoredIn key cs (k, v)
    childs_entries-Stored d key nil k v w m = absurd m
    childs_entries-Stored d key (entry l n cs) k v (w, a, u, ws) m =
        elim ((In-append (k, v) (entries (child_key sep key l) n) (childs_entries key cs)).0 m) [
          | inl m' ↦
              let (p, g, e) = entries-Stored d (child_key sep key l) n k v w m' in
              (l, p, get_in_self l p n cs ∙ g, e)
          | inr m' ↦
              let (l', p, g, e) = childs_entries-Stored d key cs k v ws m' in
              (l', p, get_in-other l l' p n cs v u g, e)
        ]

  mutual
    unfolding entries get path_key

    Stored-entries :
        (key : Str) (n : Node V) (k : Str) (v : V)
        → Stored key n (k, v)
        → In {A = Str × V} (k, v) (entries key n)
    Stored-entries key (node x cs i leaf) k v ([], g, e) =
        let (is, same) = get-nil (node x cs i leaf) v g in rw is (inl (λ i. (e i, sym same i)))
    Stored-entries key (node x cs i leaf) k v (l ∷ p, g, e) =
        (In-append (k, v) (if leaf then (key, x) ∷ [] else []) (childs_entries key cs)).1
          (inr (Stored-childs_entries key cs k v (l, p, g, e)))

    Stored-childs_entries :
        (key : Str) (cs : Childs V) (k : Str) (v : V)
        → StoredIn key cs (k, v)
        → In {A = Str × V} (k, v) (childs_entries key cs)
    Stored-childs_entries key nil k v (l, p, g, e) = absurd (none-get_in l p nil v (nil-none l) g)
    Stored-childs_entries key (entry l n cs) k v (l', p, g, e) =
        (In-append (k, v) (entries (child_key sep key l) n) (childs_entries key cs)).1
          (elim (str_dec l l') [
            | yes q ↦ inl (
                Stored-entries (child_key sep key l) n k v (
                  p,
                  rw (get_in-entry l' l p n cs, if_pos _ q) at g,
                  subst (λ x. k ≡ path_key sep key (x ∷ p)) (sym q) e,
                ))
            | no q ↦ inr (
                Stored-childs_entries key cs k v
                  (l', p, rw (get_in-entry l' l p n cs, if_neg _ q) at g, e))
          ])

-- On a trie, the loop of `forEach` ends, and the callback is called with a key and a value exactly
-- when the value is stored under a path of levels from which that key is rebuilt.
pub for_each_iff :
    {V : Type 0} (t : Trie V)
    → IsTrie t
    → (for_each_loop (suc (node_count t.root)) t.l_sep (([], t.root) ∷ []) [] ≡ some (for_each t))
      × ((k : Str) (v : V)
          → In (k, v) (for_each t)
            ↔ ((p : List Str) × (lookup t p ≡ some v) × (k ≡ path_key t.l_sep [] p)))
unfolding for_each total
for_each_iff t wf =
    let (bs, ended, same) =
      bfs-total (hits t.l_sep) (kids t.l_sep) (λ x. Unit {0}) (weight t.l_sep) (described t.l_sep)
        (λ x u. All-any t.l_sep (kids t.l_sep x)) (kids-falls t.l_sep) (described-item t.l_sep)
        (suc (node_count t.root)) (([], t.root) ∷ []) (tt, tt) (omega arith) in
    rw
      (
        for_each_loop-bfs t.l_sep (suc (node_count t.root)) (([], t.root) ∷ []) [] bs ended,
        or_no_values,
      )
      (
        refl,
        λ k v.
            iff_trans (rw append-nil at (same (k, v))) (
              entries-Stored t.l_sep 0 [] t.root k v wf.shape,
              Stored-entries t.l_sep [] t.root k v,
            ),
      )
