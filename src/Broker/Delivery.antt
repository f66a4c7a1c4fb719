-- ===== src/Broker/Delivery.antt =====
-- The broker of src/common/local_broker.cpp against a set of subscribed patterns.
use kvik.Base.{
  ◌≡◌, refl, ◌↔◌, Bool, true, false, List, [], ◌∷◌, Option, none, some, ite, Str, levels_dec, arith,
  In, is_some, ◌∙◌, sym, ap, Bool-cases, inl, inr,
}
use kvik.Message.{ErrCode, SubData, PubData, to_sub_data}
use kvik.Trie.Ops.{insert, remove}
use kvik.Trie.Split.{split_to_levels}
use kvik.Trie.Insert.{lookup, IsTrie, insert-IsTrie, lookup-insert, get-fresh}
use kvik.Trie.Contents.{remove-IsTrie, lookup-remove}
use kvik.Trie.Find.{find, Values}
use kvik.Trie.Find.Matches.{matches, path_key}
use kvik.Trie.Find.Spec.{find-Subscribed}
use kvik.Layers.{set_recv_cb, set_reconnect_cb}
use kvik.Broker.{LocalBroker, new_broker, is_empty, publish, subscribe, unsubscribe}

-- What the node calls of its broker, besides `publish`.
pub data Call : Type 0 where
  subscribes unsubscribes : Str → Call
  sets_recv_cb : Option (SubData → ErrCode) → Call
  sets_reconnect_cb : Option (Unit {0} → ErrCode) → Call

unfoldable pub run : List Call → LocalBroker → LocalBroker
run [] b = b
run (subscribes topic ∷ calls) b = run calls (subscribe b topic).1
run (unsubscribes topic ∷ calls) b = run calls (unsubscribe b topic).1
run (sets_recv_cb cb ∷ calls) b = run calls (record b { layer = set_recv_cb cb b.layer })
run (sets_reconnect_cb cb ∷ calls) b = run calls (record b { layer = set_reconnect_cb cb b.layer })

abbrev pub levels_of : Str → List Str
levels_of = split_to_levels (47 ∷ [])

-- The set of patterns, by their levels, after some calls.
unfoldable pub patterns : List Call → (List Str → Bool) → List Str → Bool
patterns [] s = s
patterns (subscribes topic ∷ calls) s =
    patterns calls (λ q. ite (levels_dec (levels_of topic) q) true (s q))
patterns (unsubscribes topic ∷ calls) s =
    patterns calls (λ q. ite (levels_dec (levels_of topic) q) false (s q))
patterns (sets_recv_cb cb ∷ calls) s = patterns calls s
patterns (sets_reconnect_cb cb ∷ calls) s = patterns calls s

-- The receive callback that was set last.
unfoldable pub last_cb : List Call → Option (SubData → ErrCode) → Option (SubData → ErrCode)
last_cb [] cb = cb
last_cb (sets_recv_cb cb' ∷ calls) cb = last_cb calls cb'
last_cb (subscribes topic ∷ calls) cb = last_cb calls cb
last_cb (unsubscribes topic ∷ calls) cb = last_cb calls cb
last_cb (sets_reconnect_cb r ∷ calls) cb = last_cb calls cb

-- The broker holds the set.
record Holds (s : List Str → Bool) (cb : Option (SubData → ErrCode)) (b : LocalBroker)
    : Type 0 where
  shape : IsTrie b.subs
  sep : b.subs.l_sep ≡ 47 ∷ []
  single : b.subs.l_single_wild ≡ 43 ∷ []
  multi : b.subs.l_multi_wild ≡ 35 ∷ []
  callback : b.layer.recv_cb ≡ cb
  same : (q : List Str) → is_some (lookup b.subs q) ≡ s q

subscribe-Holds :
    (s : List Str → Bool) (cb : Option (SubData → ErrCode)) (b : LocalBroker) (topic : Str)
    → Holds s cb b
    → Holds (λ q. ite (levels_dec (levels_of topic) q) true (s q)) cb (subscribe b topic).1
unfolding subscribe
subscribe-Holds s cb b topic h = record {
  shape = insert-IsTrie false topic true b.subs h.shape;
  sep = unfold insert in h.sep;
  single = unfold insert in h.single;
  multi = unfold insert in h.multi;
  callback = h.callback;
  same = λ q.
      let now : lookup (insert false topic true b.subs) q
          ≡ ite (levels_dec (levels_of topic) q) (some true) (lookup b.subs q) =
        lookup-insert false topic true b.subs q
        ∙ ap (λ x. ite (levels_dec (split_to_levels x topic) q) (some true) (lookup b.subs q))
            h.sep in
      rw now (ground (arith, h.same q));
}

unsubscribe-Holds :
    (s : List Str → Bool) (cb : Option (SubData → ErrCode)) (b : LocalBroker) (topic : Str)
    → Holds s cb b
    → Holds (λ q. ite (levels_dec (levels_of topic) q) false (s q)) cb (unsubscribe b topic).1
unfolding unsubscribe
unsubscribe-Holds s cb b topic h = record {
  shape = remove-IsTrie topic b.subs h.shape;
  sep = unfold remove in h.sep;
  single = unfold remove in h.single;
  multi = unfold remove in h.multi;
  callback = h.callback;
  same = λ q.
      let now : lookup (remove topic b.subs).0 q
          ≡ ite (levels_dec (levels_of topic) q) none (lookup b.subs q) =
        (lookup-remove topic b.subs h.shape).1 q
        ∙ ap (λ x. ite (levels_dec (split_to_levels x topic) q) none (lookup b.subs q)) h.sep in
      rw now (ground (arith, h.same q));
}

run-Holds :
    (calls : List Call) (s : List Str → Bool) (cb : Option (SubData → ErrCode)) (b : LocalBroker)
    → Holds s cb b
    → Holds (patterns calls s) (last_cb calls cb) (run calls b)
unfolding run patterns last_cb set_recv_cb set_reconnect_cb
run-Holds [] s cb b h = h
run-Holds (subscribes topic ∷ calls) s cb b h =
    run-Holds calls _ cb (subscribe b topic).1 (subscribe-Holds s cb b topic h)
run-Holds (unsubscribes topic ∷ calls) s cb b h =
    run-Holds calls _ cb (unsubscribe b topic).1 (unsubscribe-Holds s cb b topic h)
run-Holds (sets_recv_cb cb' ∷ calls) s cb b h = run-Holds calls s cb' _ (record {
  shape = h.shape;
  sep = h.sep;
  single = h.single;
  multi = h.multi;
  callback = refl;
  same = h.same;
})
run-Holds (sets_reconnect_cb r ∷ calls) s cb b h = run-Holds calls s cb _ (record {
  shape = h.shape;
  sep = h.sep;
  single = h.single;
  multi = h.multi;
  callback = h.callback;
  same = h.same;
})

-- Some pattern of the set matches the topic.
abbrev pub Wanted : (List Str → Bool) → Str → Type 0
Wanted s topic =
    (q : List Str) × (s q ≡ true) × (matches (43 ∷ []) (35 ∷ []) q (levels_of topic) ≡ true)

is_some-eq : {A : Type 0} (o : Option A) → is_some o ≡ true → (a : A) × (o ≡ some a)
is_some-eq none h = cc
is_some-eq (some a) h = (a, refl)

is_empty-In :
    (vs : Values Bool)
    → is_empty vs ≡ false
    → (k : Str) × (v : Bool) × In {A = Str × Bool} (k, v) vs
is_empty-In [] h = cc
is_empty-In ((k, v) ∷ vs) h = (k, v, inl refl)

In-is_empty :
    (vs : Values Bool) (k : Str) (v : Bool) → In {A = Str × Bool} (k, v) vs → is_empty vs ≡ false
In-is_empty [] k v i = absurd i
In-is_empty (x ∷ vs) k v i = refl

find_iff :
    (s : List Str → Bool) (cb : Option (SubData → ErrCode)) (b : LocalBroker) (topic : Str)
    → Holds s cb b
    → (is_empty (find b.subs topic) ≡ false) ↔ Wanted s topic
find_iff s cb b topic h = (
  λ e.
      let (k, v, i) = is_empty-In (find b.subs topic) e in
      let (q, g, m, key) = (find-Subscribed b.subs topic h.shape).1 k v i in
      (q, sym (h.same q) ∙ ap is_some g, toward q m),
  λ w.
      let (v, g) = is_some-eq (lookup b.subs w.0) (h.same w.0 ∙ w.1) in
      let (u, i) =
        (find-Subscribed b.subs topic h.shape).2 (path_key b.subs.l_sep [] w.0) v
          (w.0, g, back w.0 w.2, refl) in
      In-is_empty (find b.subs topic) _ u i,
)
  where
    Default :
        (q : List Str)
        → (matches b.subs.l_single_wild b.subs.l_multi_wild q (split_to_levels b.subs.l_sep topic))
          ≡ matches (43 ∷ []) (35 ∷ []) q (levels_of topic)
    Default q = rw (h.sep, h.single, h.multi)

    toward :
        (q : List Str)
        → matches b.subs.l_single_wild b.subs.l_multi_wild q (split_to_levels b.subs.l_sep topic)
          ≡ true
        → matches (43 ∷ []) (35 ∷ []) q (levels_of topic) ≡ true
    toward q m = sym (Default q) ∙ m

    back :
        (q : List Str)
        → matches (43 ∷ []) (35 ∷ []) q (levels_of topic) ≡ true
        → matches b.subs.l_single_wild b.subs.l_multi_wild q (split_to_levels b.subs.l_sep topic)
          ≡ true
    back q m = Default q ∙ m

start-Holds : Holds (λ q. false) none new_broker
start-Holds = record {
  shape = record { sep = omega arith; shape = (refl, tt); inner = refl };
  sep = refl;
  single = refl;
  multi = refl;
  callback = refl;
  same = λ q. rw (get-fresh false 0 q);
}

-- What the callback, where there is one, makes of a publication: its code, and the data it is
-- called with.
abbrev pub called : Option (SubData → ErrCode) → PubData → ErrCode × List SubData
called none p = (ErrCode.success, [])
called (some f) p = (f (to_sub_data p), to_sub_data p ∷ [])

-- After any subscriptions, unsubscriptions and settings of the callbacks on a new broker, a
-- publication is passed to the receive callback that was set last, if there is one, once and with
-- its topic and payload, exactly when a pattern that is still subscribed matches its topic; the code
-- is then the callback's, and otherwise it is a success.
pub publish_iff :
    (calls : List Call) (p : PubData)
    → let b = run calls new_broker in
      (Wanted (patterns calls (λ q. false)) p.topic → publish b p ≡ called (last_cb calls none) p)
      × (¬ Wanted (patterns calls (λ q. false)) p.topic → publish b p ≡ (ErrCode.success, []))
unfolding publish
publish_iff calls p =
    let b = run calls new_broker in
    let h = run-Holds calls (λ q. false) none new_broker start-Holds in
    let same = find_iff (patterns calls (λ q. false)) (last_cb calls none) b p.topic h in
    (
      λ w. rw (same.1 w, h.callback) (by_cb (last_cb calls none)),
      λ n. elim (Bool-cases (is_empty (find b.subs p.topic))) [
        | inl e ↦ rw e
        | inr e ↦ absurd (n (same.0 e))
      ],
    )
  where
    by_cb :
        (cb : Option (SubData → ErrCode))
        → (elim cb [
          | none ↦ (ErrCode.success, [])
          | some f ↦ (f (to_sub_data p), to_sub_data p ∷ [])
        ])
          ≡ called cb p
    by_cb none = refl
    by_cb (some f) = refl
