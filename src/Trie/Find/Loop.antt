-- ===== src/Trie/Find/Loop.antt =====
-- The loop of `find` (include/kvik/wildcard_trie.hpp) against the depth-first description.
use kvik.Base.{
  ℕ, zero, suc, ◌<◌, ◌≤◌, ◌≡◌, refl, ◌↔◌, ◌⊎◌, inl, inr, Bool, true, false, ◌&&◌, ◌||◌, List, [],
  ◌∷◌, ◌++◌, none, some, Str, str_eq, if◌then◌else◌, arith, In, In-append, Bool-cases, sym, ap, ◌∙◌,
  subst, ltb, ◌==◌, length, drop, All, iff_trans, iff_sym, sum_iff, sum_cross, Option-cases,
}
use kvik.Trie.Nodes.{
  Node, Childs, node, nil, entry, value, childs, is_leaf, level_index, IsWf, AreWf,
}
use kvik.Trie.Ops.{Trie}
use kvik.Trie.Search.{gather, total, bfs, bfs-total, In-gather-append}
use kvik.Trie.Find.{
  child_key, put_new, level_at, node_count, childs_count, Queue, Values, enqueue_child,
  enqueue_childs, find_visit, find_loop,
}
use kvik.Trie.Find.Matches.{
  dfs, dfs_childs, first, dfs_childs-nil, dfs_childs-entry, dfs-cons, dfs-nil,
}
use mathlib.Core.List.{append_assoc, append-nil}

module _ {V : Type 0} (t : Trie V) where
  abbrev taken : Str → Str → Bool
  taken level l = str_eq l level || str_eq l t.l_single_wild

  -- What one child adds to the values, and to the queue.
  abbrev child_hits : Str → Str → Str → Node V → Values V
  child_hits level key l n =
      if taken level l
      then []
      else if str_eq l t.l_multi_wild && is_leaf n
      then (child_key t.l_sep key l, value n) ∷ []
      else []

  abbrev child_kids : Str → Str → Str → Node V → Queue V
  child_kids level key l n = if taken level l then (child_key t.l_sep key l, n) ∷ [] else []

  abbrev childs_hits : Str → Str → Childs V → Values V
  childs_hits level key nil = []
  childs_hits level key (entry l n cs) = child_hits level key l n ++ childs_hits level key cs

  abbrev childs_kids : Str → Str → Childs V → Queue V
  childs_kids level key nil = []
  childs_kids level key (entry l n cs) = child_kids level key l n ++ childs_kids level key cs

  abbrev pub put_all : Values V → Values V → Values V
  put_all [] vs = vs
  put_all ((k, v) ∷ h) vs = put_all h (put_new k v vs)

  put_all-append : (g h vs : Values V) → put_all (g ++ h) vs ≡ put_all h (put_all g vs)
  put_all-append [] h vs = refl
  put_all-append ((k, v) ∷ g) h vs = put_all-append g h (put_new k v vs)

  enqueue_child_lem :
      (level key l : Str) (n : Node V) (q : Queue V) (vs : Values V)
      → enqueue_child t level key l n (q, vs)
        ≡ (q ++ child_kids level key l n, put_all (child_hits level key l n) vs)
  unfolding enqueue_child
  enqueue_child_lem level key l n q vs = ground (arith, append-nil q)

  enqueue_childs_lem :
      (level key : Str) (cs : Childs V) (q : Queue V) (vs : Values V)
      → enqueue_childs t level key cs (q, vs)
        ≡ (q ++ childs_kids level key cs, put_all (childs_hits level key cs) vs)
  unfolding enqueue_childs
  enqueue_childs_lem level key nil q vs = ground (arith, append-nil q)
  enqueue_childs_lem level key (entry l n cs) q vs = rw (
    enqueue_child_lem level key l n q vs,
    enqueue_childs_lem level key cs (q ++ child_kids level key l n)
        (put_all (child_hits level key l n) vs),
    put_all-append (child_hits level key l n) (childs_hits level key cs) vs,
    append_assoc,
  )

  module _ (levels : List Str) where
    abbrev hits : Str × Node V → Values V
    hits (key, n) =
        if level_index n == length levels && is_leaf n
        then (key, value n) ∷ []
        else if ltb (level_index n) (length levels)
        then childs_hits (level_at levels (level_index n)) key (childs n)
        else []

    abbrev kids : Str × Node V → Queue V
    kids (key, n) =
        if level_index n == length levels && is_leaf n
        then []
        else if ltb (level_index n) (length levels)
        then childs_kids (level_at levels (level_index n)) key (childs n)
        else []

    find_visit_lem :
        (key : Str) (n : Node V) (q : Queue V) (vs : Values V)
        → find_visit t levels key n (q, vs) ≡ (q ++ kids (key, n), put_all (hits (key, n)) vs)
    unfolding find_visit
    find_visit_lem key n q vs = ground (
      arith,
      append-nil q,
      enqueue_childs_lem (level_at levels (level_index n)) key (childs n) q vs,
    )

    none-ne : (bs : Values V) → ¬ (none ≡ some bs)
    none-ne bs h = cc

    find_loop-bfs :
        (fuel : ℕ) (q : Queue V) (vs bs : Values V)
        → bfs hits kids fuel q ≡ some bs
        → find_loop fuel t levels q vs ≡ some (put_all bs vs)
    unfolding find_loop bfs
    find_loop-bfs zero q vs bs h = cc
    find_loop-bfs (suc fuel) [] vs bs h = ground arith
    find_loop-bfs (suc fuel) ((key, n) ∷ q) vs bs h =
        elim (Option-cases (bfs hits kids fuel (q ++ kids (key, n)))) [
          | inl e ↦ absurd (none-ne bs (rw (e, bfs) at h))
          | inr (bs', e) ↦
              let both : some (hits (key, n) ++ bs') ≡ some bs = rw (e, bfs) at h in
              let split : hits (key, n) ++ bs' ≡ bs = cc in
              rw (find_visit_lem key n q vs) (
                find_loop-bfs fuel (q ++ kids (key, n)) (put_all (hits (key, n)) vs) bs' e
                ∙ ap some
                    (sym (put_all-append (hits (key, n)) bs' vs) ∙ ap (λ x. put_all x vs) split))
        ]

    abbrev weight : Str × Node V → ℕ
    weight (key, n) = node_count n

    childs_kids-falls :
        (level key : Str) (cs : Childs V)
        → total weight (childs_kids level key cs) ≤ childs_count cs
    unfolding total node_count
    childs_kids-falls level key nil = omega arith
    childs_kids-falls level key (entry l n cs) = ground (arith, childs_kids-falls level key cs)

    kids-falls : (x : Str × Node V) → total weight (kids x) < weight x
    unfolding total node_count
    kids-falls (key, node v cs i leaf) =
        ground (arith, childs_kids-falls (level_at levels i) key cs)

    -- An item that the search may meet.
    abbrev Fits : Str × Node V → Type 0
    Fits (key, n) = IsWf (level_index n) n × (level_index n ≤ length levels)

    childs_kids-Fits :
        (d : ℕ) (level key : Str) (cs : Childs V)
        → AreWf d cs
        → d ≤ length levels
        → All Fits (childs_kids level key cs)
    childs_kids-Fits d level key nil w h = tt
    childs_kids-Fits d level key (entry l (node v ds i leaf) cs) (wn, a, u, ws) h =
        elim (Bool-cases (taken level l)) [
          | inl e ↦ rw e (
            (((refl, subst (λ x. AreWf (suc x) ds) (sym wn.0) wn.1), omega arith)),
            childs_kids-Fits d level key cs ws h,
          )
          | inr e ↦ rw e (childs_kids-Fits d level key cs ws h)
        ]

    kids-Fits : (x : Str × Node V) → Fits x → All Fits (kids x)
    kids-Fits (key, node v cs i leaf) ((e, ws), h) =
        elim (Bool-cases (i == length levels && leaf)) [
          | inl b ↦ rw b tt
          | inr b ↦ rw b (elim (Bool-cases (ltb i (length levels))) [
            | inl c ↦ rw c (childs_kids-Fits (suc i) (level_at levels i) key cs ws (ground arith))
            | inr c ↦ rw c tt
          ])
        ]

    -- The description of an item, from the levels that are left at its depth.
    abbrev described : Str × Node V → Values V
    described (key, n) =
        dfs t.l_sep t.l_single_wild t.l_multi_wild key (drop (level_index n) levels) n

    described-child :
        (d : ℕ) (key level : Str) (ts : List Str) (l : Str) (n : Node V) (b : Str × V)
        → IsWf d n
        → drop d levels ≡ ts
        → In b (first t.l_sep t.l_single_wild t.l_multi_wild key level ts l n)
          ↔ (In b (child_hits level key l n) ⊎ In b (gather described (child_kids level key l n)))
    described-child d key level ts l (node v ds i leaf) b w h = elim (Bool-cases (taken level l)) [
      | inl e ↦ rw (e, append-nil, w.0, h) (inr, λ s. elim s [ inl x ↦ absurd x | inr x ↦ x ])
      | inr e ↦ rw e (inl, λ s. elim s [ inl x ↦ x | inr x ↦ absurd x ])
    ]

    described-childs :
        (d : ℕ) (key level : Str) (ts : List Str) (cs : Childs V) (b : Str × V)
        → AreWf d cs
        → drop d levels ≡ ts
        → In b (dfs_childs t.l_sep t.l_single_wild t.l_multi_wild key level ts cs)
          ↔ (In b (childs_hits level key cs) ⊎ In b (gather described (childs_kids level key cs)))
    described-childs d key level ts nil b w h =
        rw dfs_childs-nil (inl, λ s. elim s [ inl x ↦ x | inr x ↦ x ])
    described-childs d key level ts (entry l n cs) b (wn, a, u, ws) h = rw dfs_childs-entry (
        iff_trans
          (In-append b (first t.l_sep t.l_single_wild t.l_multi_wild key level ts l n)
            (dfs_childs t.l_sep t.l_single_wild t.l_multi_wild key level ts cs))
          (iff_trans
            (sum_iff (described-child d key level ts l n b wn h)
              (described-childs d key level ts cs b ws h))
            (iff_trans sum_cross (
              sum_iff (iff_sym (In-append b (child_hits level key l n) (childs_hits level key cs)))
                (iff_sym (
                  In-gather-append described b (child_kids level key l n)
                    (childs_kids level key cs)))))))

    drop-lt : (ls : List Str) (i : ℕ) → i < length ls → drop i ls ≡ level_at ls i ∷ drop (suc i) ls
    drop-lt [] i h = absurd (omega arith)
    drop-lt (l ∷ ls) zero h = refl
    drop-lt (l ∷ ls) (suc i) h = drop-lt ls i (omega arith)

    drop-length : (ls : List Str) (i : ℕ) → i ≡ length ls → drop i ls ≡ []
    drop-length [] zero h = refl
    drop-length [] (suc i) h = refl
    drop-length (l ∷ ls) zero h = absurd (omega arith)
    drop-length (l ∷ ls) (suc i) h = drop-length ls i (omega arith)

    at_depth :
        (key : Str) (v : V) (b : Str × V) (leaf : Bool)
        → In b (if leaf then (key, v) ∷ [] else []) ↔ (
            In b (if leaf then (key, v) ∷ [] else [])
            ⊎ In b (gather described (if leaf then [] else [])))
    at_depth key v b true = (inl, λ s. elim s [ inl x ↦ x | inr x ↦ absurd x ])
    at_depth key v b false = (inl, λ s. elim s [ inl x ↦ x | inr x ↦ absurd x ])

    described-item :
        (x : Str × Node V)
        → Fits x
        → (b : Str × V) → In b (described x) ↔ (In b (hits x) ⊎ In b (gather described (kids x)))
    described-item (key, node v cs i leaf) ((e, ws), h) b =
        elim (Bool-cases (ltb i (length levels))) [
          | inl lt ↦
              let ne : (i == length levels) ≡ false = ground arith in
              rw (ne, lt, drop-lt levels i (ground arith), dfs-cons)
                (described-childs (suc i) key (level_at levels i) (drop (suc i) levels) cs b ws
                  refl)
          | inr ge ↦
              let eq : (i == length levels) ≡ true = ground arith in
              rw (eq, ge, drop-length levels i (ground arith), dfs-nil) (at_depth key v b leaf)
        ]

    -- From the root, with a round of fuel for every node and one to see that the queue is empty.
    pub find_loop-described :
        (n : Node V)
        → IsWf 0 n
        → (bs : Values V) × (find_loop (suc (node_count n)) t levels (([], n) ∷ []) []
            ≡ some (put_all bs []))
          × ((b : Str × V)
              → In b bs ↔ In b (dfs t.l_sep t.l_single_wild t.l_multi_wild [] levels n))
    unfolding total dfs
    find_loop-described (node v cs i leaf) (e, ws) =
        let n = node v cs i leaf in
        let fits : Fits ([], n) = ((refl, subst (λ x. AreWf (suc x) cs) (sym e) ws), omega arith) in
        let (bs, ended, same) =
          bfs-total hits kids Fits weight described kids-Fits kids-falls described-item
            (suc (node_count n)) (([], n) ∷ []) (fits, tt) (omega arith) in
        (
          bs,
          find_loop-bfs (suc (node_count n)) (([], n) ∷ []) [] bs ended,
          λ b. rw e at (rw append-nil at (same b)),
        )
