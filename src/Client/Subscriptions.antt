-- ===== src/Client/Subscriptions.antt =====
-- The subscriptions of a client against the answers of its gateway (`pubSubUnsubBulk` and
-- `unsubscribeAll` of src/common/client.cpp).
use kvik.Base.{
  ◌≡◌, refl, ◌≢◌, true, List, [], ◌∷◌, some, Bool-cases, inl, inr, Str, if◌then◌else◌, sym, ap,
  subst, map, ◌∙◌, ◌++◌,
}
use kvik.Message.{ErrCode, LocalMsgType, LocalMsg, default_msg, failed, PubData, SubReq, SubCb}
use kvik.Trie.Ops.{Trie, insert, remove, clear}
use kvik.Trie.Insert.{IsTrie, lookup}
use kvik.Trie.Runs.{Call, inserts, removes, contents, run, run-Holds}
use kvik.Trie.Find.{for_each, for_each_loop, enqueue_all, node_count, childs_count}
use kvik.Client.State.{Client, ◌>>=◌, pure}
use kvik.Client.Send.{Exchange}
use kvik.Client.Subs.{
  request, pub_sub_unsub_bulk, update_db, bulk_msg, insert_all, remove_all, is_nil, no_cb,
  unsubscribe_all, topics, clear_db,
}
use kvik.Client.Post.{>>=-eq-some}
use kvik.Client.Outcome.{request-sub_db}
use kvik.Client.Answered.{failed-no}

-- What a step that ends in `pure` or `update_db` returns.
abbrev Updated : List SubReq → List Str → Client → ErrCode → Client → Type 0
Updated subs unsubs c e c' =
    c'.sub_db ≡ (if failed e then c.sub_db else insert_all subs (remove_all unsubs c.sub_db))

update-Updated :
    (subs : List SubReq) (unsubs : List Str) (c d : Client) (e0 e : ErrCode) (c' : Client)
    → d.sub_db ≡ c.sub_db
    → (if failed e0 then pure e0 else update_db subs unsubs) d ≡ some (e, c')
    → Updated subs unsubs c e c'
update-Updated subs unsubs c d e0 e c' same h = elim (Bool-cases (failed e0)) [
  | inl f ↦
      let g = rw f at h in
      let p : e0 ≡ e = cc in
      let q : d ≡ c' = cc in let r : failed e ≡ true = rw (sym p) f in rw (sym q, r) same
  | inr f ↦
      let g = rw f at h in
      let p : ErrCode.success ≡ e = cc in
      let q : record d { sub_db = insert_all subs (remove_all unsubs d.sub_db) } ≡ c' = cc in
      rw (sym q, sym p) (ap (λ t. insert_all subs (remove_all unsubs t)) same)
]

sent-Updated :
    (x : Exchange) (msg : LocalMsg) (subs : List SubReq) (unsubs : List Str) (c : Client)
    (e : ErrCode) (c' : Client)
    → (request x msg >>= λ e0. if failed e0 then pure e0 else update_db subs unsubs) c
      ≡ some (e, c')
    → Updated subs unsubs c e c'
sent-Updated x msg subs unsubs c e c' h =
    let (e0, d, sent, g) = >>=-eq-some (request x msg) _ c (e, c') h in
    update-Updated subs unsubs c d e0 e c' (request-sub_db x msg c sent) g

-- The subscriptions by the functions of the model.
pub pub_sub_unsub_bulk-Updated :
    (x : Exchange) (pubs : List PubData) (subs : List SubReq) (unsubs : List Str) (c : Client)
    {e : ErrCode} {c' : Client}
    → pub_sub_unsub_bulk x pubs subs unsubs c ≡ some (e, c')
    → c'.sub_db ≡ (if failed e then c.sub_db else insert_all subs (remove_all unsubs c.sub_db))
unfolding pub_sub_unsub_bulk
pub_sub_unsub_bulk-Updated x [] [] [] c {e} {c'} h =
    let p : ErrCode.success ≡ e = cc in let q : c ≡ c' = cc in rw (sym p, sym q) refl
pub_sub_unsub_bulk-Updated x pubs subs unsubs c {e} {c'} h =
    sent-Updated x (bulk_msg pubs subs unsubs) subs unsubs c e c' h

-- What a successful request asks of the subscriptions, in order.
abbrev pub changes : List SubReq → List Str → List (Call SubCb)
changes subs unsubs = map (λ topic. removes topic) unsubs ++ map (λ s. inserts s.topic s.cb) subs

insert_all-run :
    (subs : List SubReq) (t : Trie SubCb)
    → insert_all subs t ≡ (run no_cb (map (λ s. inserts s.topic s.cb) subs) t).0
unfolding insert_all run
insert_all-run [] t = refl
insert_all-run (s ∷ subs) t = insert_all-run subs (insert no_cb s.topic s.cb t)

changes-run :
    (subs : List SubReq) (unsubs : List Str) (t : Trie SubCb)
    → insert_all subs (remove_all unsubs t) ≡ (run no_cb (changes subs unsubs) t).0
unfolding remove_all run
changes-run subs [] t = insert_all-run subs t
changes-run subs (topic ∷ topics) t = changes-run subs topics (remove topic t).0

-- The map after a success.
abbrev Changed : List SubReq → List Str → Client → Client → Type 0
Changed subs unsubs c c' =
    IsTrie c'.sub_db
    × (c'.sub_db.l_sep ≡ c.sub_db.l_sep)
    × ((q : List Str)
        → lookup c'.sub_db q ≡ contents c.sub_db.l_sep (changes subs unsubs) (lookup c.sub_db) q)

updated-Changed :
    (subs : List SubReq) (unsubs : List Str) (c c' : Client)
    → IsTrie c.sub_db
    → c'.sub_db ≡ insert_all subs (remove_all unsubs c.sub_db)
    → Changed subs unsubs c c'
updated-Changed subs unsubs c c' trie h =
    let (holds, answered) =
      run-Holds no_cb c.sub_db.l_sep (changes subs unsubs) (lookup c.sub_db) c.sub_db
        (record { shape = trie; cut = refl; same = λ q. refl }) in
    let same : c'.sub_db ≡ (run no_cb (changes subs unsubs) c.sub_db).0 =
      h ∙ changes-run subs unsubs c.sub_db in
    rw same (holds.shape, holds.cut, holds.same)

-- When a bulk request returns on a client whose database is a trie, the subscriptions are unchanged
-- if it failed. After a success they still are a trie with the same separator, and what it holds, by
-- the levels of the topics, is the map before with the values of the topics to end taken away, and
-- then the callbacks of the new ones put in, in the order of the request.
pub pub_sub_unsub_bulk-sub_db :
    (x : Exchange) (pubs : List PubData) (subs : List SubReq) (unsubs : List Str) (c : Client)
    {e : ErrCode} {c' : Client}
    → IsTrie c.sub_db
    → pub_sub_unsub_bulk x pubs subs unsubs c ≡ some (e, c')
    → (e ≢ ErrCode.success → c'.sub_db ≡ c.sub_db)
      × (e ≡ ErrCode.success
          → IsTrie c'.sub_db
            × (c'.sub_db.l_sep ≡ c.sub_db.l_sep)
            × ((q : List Str)
                → lookup c'.sub_db q
                  ≡ contents c.sub_db.l_sep (changes subs unsubs) (lookup c.sub_db) q))
pub_sub_unsub_bulk-sub_db x pubs subs unsubs c {e} {c'} trie h =
    let u = pub_sub_unsub_bulk-Updated x pubs subs unsubs c h in
    (
      λ n. elim (Bool-cases (failed e)) [ inl f ↦ rw f at u | inr f ↦ absurd (n (failed-no e f)) ],
      λ s. updated-Changed subs unsubs c c' trie (rw s at u),
    )

clear-topics : (t : Trie SubCb) → for_each (clear no_cb t) ≡ []
unfolding clear for_each for_each_loop enqueue_all node_count childs_count
clear-topics t = refl

pub is_nil_lem : {A : Type 0} (xs : List A) → is_nil xs ≡ true → xs ≡ []
is_nil_lem [] h = refl
is_nil_lem (x ∷ xs) h = absurd (cc)

abbrev Emptied : Client → ErrCode → Client → Type 0
Emptied c e c' =
    (e ≡ ErrCode.success → topics c' ≡ []) × (e ≢ ErrCode.success → c'.sub_db ≡ c.sub_db)

clear-Emptied :
    (c d : Client) (e0 e : ErrCode) (c' : Client)
    → d.sub_db ≡ c.sub_db
    → (if failed e0 then pure e0 else clear_db) d ≡ some (e, c')
    → Emptied c e c'
clear-Emptied c d e0 e c' same h = elim (Bool-cases (failed e0)) [
  | inl f ↦
      let g = rw f at h in
      let p : e0 ≡ e = cc in let q : d ≡ c' = cc in (λ s. absurd (cc), λ n. rw (sym q) same)
  | inr f ↦
      let g = rw f at h in
      let p : ErrCode.success ≡ e = cc in
      let q : record d { sub_db = clear no_cb d.sub_db } ≡ c' = cc in
      (
        λ s. subst (λ z. topics z ≡ []) q (ap (map (λ e. e.0)) (clear-topics d.sub_db)),
        λ n. absurd (n (sym p)),
      )
]

-- When the end of all subscriptions returns, no topic is left after a success, and after a failure
-- the subscriptions are what they were.
pub unsubscribe_all-topics :
    (x : Exchange) (c : Client) {e : ErrCode} {c' : Client}
    → unsubscribe_all x c ≡ some (e, c')
    → (e ≡ ErrCode.success → topics c' ≡ []) × (e ≢ ErrCode.success → c'.sub_db ≡ c.sub_db)
unfolding unsubscribe_all
unsubscribe_all-topics x c {e} {c'} h = elim (Bool-cases (is_nil (topics c))) [
  | inl b ↦
      let g = rw b at h in
      let q : c ≡ c' = cc in
      (λ s. subst (λ z. topics z ≡ []) q (is_nil_lem (topics c) b), λ n. ap (λ z. z.sub_db) (sym q))
  | inr b ↦
      let msg : LocalMsg = record default_msg {
        type = LocalMsgType.pub_sub_unsub;
        unsubs = topics c;
      } in
      let (e0, d, sent, g) = >>=-eq-some (request x msg) _ c (e, c') (rw b at h) in
      clear-Emptied c d e0 e c' (request-sub_db x msg c sent) g
]
