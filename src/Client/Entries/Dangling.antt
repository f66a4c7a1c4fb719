-- ===== src/Client/Entries/Dangling.antt =====
-- Which callbacks of a search of src/common/client.cpp are still there when they are called.
use kvik.Base.{
  suc, ◌≡◌, refl, ◌∙◌, sym, ap, ◌↔◌, ◌≢◌, inl, inr, true, false, List, [], ◌∷◌, ◌++◌, Option, none,
  some, Str, All, Option-cases, is_some, if_neg, length, subst, levels_dec, arith,
}
use kvik.Message.{SubCb}
use kvik.Trie.Nodes.{Node, node, childs, find_child, get}
use kvik.Trie.Ops.{Trie, remove}
use kvik.Trie.Split.{split_to_levels}
use kvik.Trie.Insert.{IsTrie, lookup}
use kvik.Trie.Runs.{Call, inserts, removes, clears, contents, run-Holds}
use kvik.Trie.Runs
use kvik.Client.Subs.{no_cb}
use kvik.Client.Entries.{deref, call_entries}
use kvik.Client.Entries.Removed.{remove-deref}

get-deref : {V : Type 0} (p : List Str) (n : Node V) (v : V) → get p n ≡ some v → deref p n ≡ some v
unfolding get deref
get-deref [] (node u cs i false) v h = absurd (cc)
get-deref [] (node u cs i true) v h = h
get-deref (l ∷ ls) n v h = elim (Option-cases (find_child l (childs n))) [
  | inl e ↦ absurd (let f = rw (e, get) at h in cc)
  | inr (c, e) ↦ rw (e, deref) (get-deref ls c v (rw (e, get) at h))
]

-- The calls leave the levels alone.
abbrev pub Spares : Str → List Str → Call SubCb → Type 0
Spares sep p (inserts key cb) = Unit {0}
Spares sep p (removes key) = split_to_levels sep key ≢ p
Spares sep p clears = ⊥

contents-Spares :
    (sep : Str) (p : List Str) (calls : List (Call SubCb)) (s : List Str → Option SubCb)
    → All (Spares sep p) calls
    → is_some (s p) ≡ true
    → is_some (contents sep calls s p) ≡ true
unfolding contents
contents-Spares sep p [] s a h = h
contents-Spares sep p (inserts key cb ∷ calls) s a h =
    contents-Spares sep p calls _ a.1 (ground (arith, h))
contents-Spares sep p (removes key ∷ calls) s a h =
    contents-Spares sep p calls _ a.1
      (rw (if_neg (levels_dec (split_to_levels sep key) p) a.0 none (s p)) h)
contents-Spares sep p (clears ∷ calls) s a h = absurd a.0

-- All paths are in the trie.
abbrev pub Present : Trie SubCb → List (List Str) → Type 0
Present t ps = All (λ p. is_some (lookup t p) ≡ true) ps

-- No call takes one of the paths away.
abbrev pub AllSpare : Str → List (List Str) → List (Call SubCb) → Type 0
AllSpare sep ps calls = All (λ p. All (Spares sep p) calls) ps

run-Present :
    (calls : List (Call SubCb)) (ps : List (List Str)) (t : Trie SubCb)
    → IsTrie t
    → Present t ps
    → AllSpare t.l_sep ps calls
    → Present (Runs.run no_cb calls t).0 ps
run-Present calls [] t trie h a = tt
run-Present calls (p ∷ ps) t trie h a =
    let (holds, same) =
      run-Holds no_cb t.l_sep calls (lookup t) t
        (record { shape = trie; cut = refl; same = λ q. refl }) in
    (
      ap is_some (holds.same p) ∙ contents-Spares t.l_sep p calls (lookup t) a.0 h.0,
      run-Present calls ps t trie h.1 a.1,
    )

Present-deref :
    (p : List Str) (t : Trie SubCb)
    → is_some (lookup t p) ≡ true
    → (v : SubCb) × (deref p t.root ≡ some v)
Present-deref p t h = elim (Option-cases (lookup t p)) [
  | inl e ↦ absurd (let f = rw e at h in cc)
  | inr (v, e) ↦ (v, get-deref p t.root v e)
]

tail-AllSpare :
    (sep : Str) (p : List Str) (ps : List (List Str)) (others : List (List (Call SubCb)))
    → All (AllSpare sep (p ∷ ps)) others
    → All (AllSpare sep ps) others
tail-AllSpare sep p ps [] a = tt
tail-AllSpare sep p ps (o ∷ others) a = (a.0.1, tail-AllSpare sep p ps others a.1)

call_entries-Present :
    (sep : Str) (others : List (List (Call SubCb))) (ps : List (List Str)) (t : Trie SubCb)
    → IsTrie t
    → t.l_sep ≡ sep
    → Present t ps
    → All (AllSpare sep ps) others
    → (cbs : List SubCb) × (call_entries others ps t ≡ some cbs) × (length cbs ≡ length ps)
unfolding call_entries
call_entries-Present sep others [] t trie cut h a = ([], refl, refl)
call_entries-Present sep [] (p ∷ ps) t trie cut h a =
    let (v, e) = Present-deref p t h.0 in
    let (cbs, f, same) = call_entries-Present sep [] ps t trie cut h.1 tt in
    (v ∷ cbs, rw (e, call_entries, f) refl, ap suc same)
call_entries-Present sep (o ∷ others) (p ∷ ps) t trie cut h a =
    let spare : AllSpare t.l_sep (p ∷ ps) o = subst (λ z. AllSpare z (p ∷ ps) o) (sym cut) a.0 in
    let there = run-Present o (p ∷ ps) t trie h spare in
    let (holds, same_answers) =
      run-Holds no_cb t.l_sep o (lookup t) t
        (record { shape = trie; cut = refl; same = λ q. refl }) in
    let (v, e) = Present-deref p (Runs.run no_cb o t).0 there.0 in
    let (cbs, f, same) =
      call_entries-Present sep others ps (Runs.run no_cb o t).0 holds.shape (holds.cut ∙ cut)
        there.1 (tail-AllSpare sep p ps others a.1) in
    (v ∷ cbs, rw (e, call_entries, f) refl, ap suc same)

removed-none :
    (key : Str) (t : Trie SubCb)
    → deref (split_to_levels t.l_sep key) (remove key t).0.root ≡ none
    → call_entries ((removes key ∷ []) ∷ []) (split_to_levels t.l_sep key ∷ []) t ≡ none
unfolding call_entries Runs.run
removed-none key t e = rw (e, call_entries) refl

-- Where another thread unsubscribes from a topic between the search, which has found a subscription
-- with nothing below its topic, and the call of its callback, then the callback has been destroyed
-- when it is called exactly if the two topics have the same levels.
pub call_entries_iff :
    (key other : Str) (t : Trie SubCb) {v : SubCb}
    → IsTrie t
    → lookup t (split_to_levels t.l_sep key) ≡ some v
    → ((l : Str) (ls : List Str) → lookup t (split_to_levels t.l_sep key ++ l ∷ ls) ≡ none)
    → (call_entries ((removes other ∷ []) ∷ []) (split_to_levels t.l_sep key ∷ []) t ≡ none)
      ↔ (split_to_levels t.l_sep other ≡ split_to_levels t.l_sep key)
call_entries_iff key other t {v} trie h last = (
  λ e. elim (levels_dec (split_to_levels t.l_sep other) (split_to_levels t.l_sep key)) [
    | yes same ↦ same
    | no ne ↦
        let (cbs, f, n) =
          call_entries-Present t.l_sep ((removes other ∷ []) ∷ [])
            (split_to_levels t.l_sep key ∷ []) t trie refl (ap is_some h, tt)
            (((ne, tt), tt), tt) in
        absurd (cc)
  ],
  λ same.
      subst (λ p. call_entries ((removes other ∷ []) ∷ []) (p ∷ []) t ≡ none) same
        (removed-none other t (
          remove-deref other t trie (ap (lookup t) same ∙ h)
            (λ l ls. ap (λ p. lookup t (p ++ l ∷ ls)) same ∙ last l ls))),
)
