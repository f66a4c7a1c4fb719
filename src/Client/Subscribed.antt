-- ===== src/Client/Subscribed.antt =====
-- From `subscribe` to the callback, through the gateway (src/common/client.cpp).
use kvik.Base.{
  ℕ, ◌≡◌, refl, sym, ◌∙◌, subst, inl, inr, [], ◌∷◌, some, Str, In, In-append, levels_dec, if_pos,
  true,
}
use kvik.Message.{ErrCode, LocalMsg, SubData, SubCb}
use kvik.Trie.Ops.{Trie}
use kvik.Trie.Insert.{IsTrie, lookup, insert-IsTrie, lookup-insert}
use kvik.Trie.Find.Matches.{matches, path_key}
use kvik.Trie.Find.Spec.{Subscribed}
use kvik.Trie.Ops
use kvik.Trie.Split.{split_to_levels}
use kvik.Client.State.{Client, Effect}
use kvik.Client.Receive.{recv_local_sub_data}
use kvik.Client.Send.{Exchange}
use kvik.Client.Subs.{no_cb, subscribe, insert_all, remove_all}
use kvik.Client.Subscriptions.{pub_sub_unsub_bulk-Updated}
use kvik.Client.Delivery.{returned-Delivers}

subscribe-sub_db :
    (x : Exchange) (topic : Str) (cb : SubCb) (c : Client) {c' : Client}
    → subscribe x topic cb c ≡ some (ErrCode.success, c')
    → c'.sub_db ≡ Ops.insert no_cb topic cb c.sub_db
unfolding insert_all remove_all
subscribe-sub_db x topic cb c h =
    pub_sub_unsub_bulk-Updated x [] (record { topic = topic; cb = cb } ∷ []) [] c h

insert-Subscribed :
    (t : Trie SubCb) (topic : Str) (cb : SubCb) (heard : Str)
    → matches t.l_single_wild t.l_multi_wild
        (split_to_levels t.l_sep topic)
        (split_to_levels t.l_sep heard)
      ≡ true
    → Subscribed
        (Ops.insert no_cb topic cb t)
        heard
        (path_key t.l_sep [] (split_to_levels t.l_sep topic))
        cb
unfolding Ops.insert
insert-Subscribed t topic cb heard h =
    let p = split_to_levels t.l_sep topic in
    (
      p,
      lookup-insert no_cb topic cb t p ∙ if_pos (levels_dec p p) refl (some cb) (lookup t p),
      h,
      refl,
    )

-- On a client whose database is a trie: after a success of subscribe, data that is received from the
-- gateway next, and accepted, is passed to some callback for each datum whose topic matches the one
-- subscribed to.
pub subscribe-recv_local_sub_data :
    (x : Exchange) (topic : Str) (cb : SubCb) (c : Client) (now : ℕ) (ack : ErrCode)
    (msg : LocalMsg) (d : SubData) {c' c'' : Client}
    → IsTrie c.sub_db
    → subscribe x topic cb c ≡ some (ErrCode.success, c')
    → recv_local_sub_data now ack msg c' ≡ some (ErrCode.success, c'')
    → In d msg.subs_data
    → matches c.sub_db.l_single_wild c.sub_db.l_multi_wild
        (split_to_levels c.sub_db.l_sep topic)
        (split_to_levels c.sub_db.l_sep d.topic)
      ≡ true
    → (w : SubCb) × In (Effect.calls_back w d) c''.effects
subscribe-recv_local_sub_data x topic cb c now ack msg d {c'} {c''} trie sub got there fits =
    let db = subscribe-sub_db x topic cb c sub in
    let t' : IsTrie c'.sub_db =
      subst IsTrie (sym db) (insert-IsTrie no_cb topic cb c.sub_db trie) in
    let key = path_key c.sub_db.l_sep [] (split_to_levels c.sub_db.l_sep topic) in
    let subscribed : Subscribed c'.sub_db d.topic key cb =
      subst (λ t. Subscribed t d.topic key cb) (sym db)
        (insert-Subscribed c.sub_db topic cb d.topic fits) in
    elim (returned-Delivers now ack msg c' t' got) [
      | inl refused ↦ absurd (refused.0 refl)
      | inr (ok, from, es, added, only, all) ↦
          let (w, i) = all d key cb there subscribed in
          (
            w,
            subst (In (Effect.calls_back w d)) (sym added) ((In-append _ c'.effects es).1 (inr i)),
          )
    ]
