-- ===== src/Client/Subs.antt =====
-- Publishing and subscribing (`pubSubUnsubBulk`, `unsubscribeAll`, `resubscribeAll`, `subDBTick` of
-- src/common/client.cpp, and the shorthands of include/kvik/node.hpp).
use kvik.Base.{Bool, true, false, ◌&&◌, List, [], ◌∷◌, some, Str, if◌then◌else◌, map}
use kvik.Message.{
  ErrCode, failed, LocalMsgType, type_eq, LocalMsg, default_msg, PubData, SubReq, SubCb,
}
use kvik.Trie.Ops.{Trie, insert, remove, clear}
use kvik.Trie.Find.{for_each}
use kvik.Client.State.{Client, M, ◌>>=◌, pure}
use kvik.Client.Send.{Exchange, send_local}

-- `cb = nullptr`, the value of a new node of the trie.
abbrev pub no_cb : SubCb
no_cb = 0

unfoldable pub remove_all : List Str → Trie SubCb → Trie SubCb
remove_all [] t = t
remove_all (topic ∷ topics) t = remove_all topics (remove topic t).0

unfoldable pub insert_all : List SubReq → Trie SubCb → Trie SubCb
insert_all [] t = t
insert_all (s ∷ subs) t = insert_all subs (insert no_cb s.topic s.cb t)

abbrev pub update_db : List SubReq → List Str → M ErrCode
update_db subs unsubs c =
    some (ErrCode.success, record c { sub_db = insert_all subs (remove_all unsubs c.sub_db) })

abbrev pub is_nil {ℓ} : {A : Type ℓ} → List A → Bool
is_nil [] = true
is_nil (x ∷ xs) = false

-- The message to the gateway, and what a response other than OK comes to.
unfoldable pub request : Exchange → LocalMsg → M ErrCode
unfolding send_local
request x msg = do
  (e, r) ← send_local x msg default_msg
  pure (
      if failed e
      then e
      else if type_eq r.type LocalMsgType.ok
      then ErrCode.success
      else ErrCode.msg_processing_failed)

abbrev pub bulk_msg : List PubData → List SubReq → List Str → LocalMsg
bulk_msg pubs subs unsubs = record default_msg {
  type = LocalMsgType.pub_sub_unsub;
  pubs = pubs;
  subs = map (λ s. s.topic) subs;
  unsubs = unsubs;
}

unfoldable pub pub_sub_unsub_bulk : Exchange → List PubData → List SubReq → List Str → M ErrCode
unfolding request remove_all insert_all
pub_sub_unsub_bulk x pubs subs unsubs =
    if is_nil pubs && (is_nil subs && is_nil unsubs) then pure ErrCode.success else (do
      e ← request x (bulk_msg pubs subs unsubs)
      if failed e then pure e else update_db subs unsubs)

abbrev pub publish_bulk : Exchange → List PubData → M ErrCode
publish_bulk x pubs = pub_sub_unsub_bulk x pubs [] []

abbrev pub subscribe_bulk : Exchange → List SubReq → M ErrCode
subscribe_bulk x subs = pub_sub_unsub_bulk x [] subs []

abbrev pub unsubscribe_bulk : Exchange → List Str → M ErrCode
unsubscribe_bulk x topics = pub_sub_unsub_bulk x [] [] topics

abbrev pub publish : Exchange → PubData → M ErrCode
publish x p = publish_bulk x (p ∷ [])

abbrev pub subscribe : Exchange → Str → SubCb → M ErrCode
subscribe x topic cb = subscribe_bulk x (record { topic = topic; cb = cb } ∷ [])

abbrev pub unsubscribe : Exchange → Str → M ErrCode
unsubscribe x topic = unsubscribe_bulk x (topic ∷ [])

abbrev pub topics : Client → List Str
topics c = map (λ e. e.0) (for_each c.sub_db)

abbrev pub clear_db : M ErrCode
clear_db c = some (ErrCode.success, record c { sub_db = clear no_cb c.sub_db })

unfoldable pub unsubscribe_all : Exchange → M ErrCode
unfolding request
unsubscribe_all x c =
    let ts = topics c in
    if is_nil ts
    then some (ErrCode.success, c)
    else (do
      e ← request x (record default_msg { type = LocalMsgType.pub_sub_unsub; unsubs = ts })
      if failed e then pure e else clear_db)
        c

unfoldable pub resubscribe_all : Exchange → M ErrCode
unfolding request
resubscribe_all x c =
    let ts = topics c in
    if is_nil ts
    then some (ErrCode.success, c)
    else request x (record default_msg { type = LocalMsgType.pub_sub_unsub; subs = ts }) c

-- The renewal of the subscriptions, whose outcome is only logged.
unfoldable pub sub_db_tick : Exchange → M (Unit {0})
unfolding send_local
sub_db_tick x c =
    let ts = topics c in
    if is_nil ts
    then some (tt, c)
    else (do
      _ ←
          send_local x (record default_msg { type = LocalMsgType.pub_sub_unsub; subs = ts })
            default_msg
      pure tt)
        c
