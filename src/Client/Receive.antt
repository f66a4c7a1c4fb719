-- ===== src/Client/Receive.antt =====
-- What a client does with a message from the local layer (`recvLocal`, `recvLocalResp` and
-- `recvLocalSubData` of src/common/client.cpp). Each runs as the layer's callback.
use kvik.Base.{
  ℕ, Bool, true, false, not, ◌&&◌, ◌||◌, List, [], ◌∷◌, ◌++◌, none, some, str_eq, if◌then◌else◌,
}
use kvik.Message.{
  ErrCode, failed, NodeType, LocalMsgType, type_eq, LocalMsg, default_msg, SubData, SubCb,
  addr_empty,
}
use kvik.Node.{validate_msg_id, validate_msg_timestamp}
use kvik.Trie.Find.{find, Values}
use kvik.Client.State.{
  PendingMsg, Effect, M, ◌>>=◌, ◌>>◌, pure, emit, find_pending, set_pending, prepare_msg,
  add_pending,
}

-- How a message was given to the local layer: refused before or by the layer, or under an ID.
pub data Posted : Type 0 where
  refused : ErrCode → Posted
  posted : ℕ → Posted

-- The first half of `sendLocalUnchecked`. `sent` is what the layer answers.
unfoldable pub post : ℕ → ErrCode → LocalMsg → M Posted
unfolding prepare_msg add_pending
post now sent msg = do
  m ← prepare_msg now false msg
  if addr_empty m.addr then pure (refused ErrCode.no_gateway) else (do
    add_pending m false
    emit (Effect.sends m)
    pure (if failed sent then refused sent else posted m.id))

abbrev pub from_gateway : NodeType → Bool
from_gateway NodeType.gateway = true
from_gateway NodeType.relay = true
from_gateway _ = false

-- The types of response that a type of request may have.
unfoldable pub is_response_to : LocalMsgType → LocalMsgType → Bool
is_response_to resp req =
    type_eq resp LocalMsgType.ok && type_eq req LocalMsgType.pub_sub_unsub
    || type_eq resp LocalMsgType.fail && type_eq req LocalMsgType.probe_req
    || type_eq resp LocalMsgType.fail && type_eq req LocalMsgType.pub_sub_unsub
    || type_eq resp LocalMsgType.probe_res && type_eq req LocalMsgType.probe_req

abbrev pub no_resps : List LocalMsg → Bool
no_resps [] = true
no_resps (r ∷ rs) = false

-- The end of `recvLocalResp`, once the request is found. To fulfil a promise twice throws.
unfoldable pub accept_resp : LocalMsg → PendingMsg → M ErrCode
unfolding is_response_to set_pending
accept_resp msg p c =
    if not p.broadcast && not (str_eq p.req.addr msg.addr)
    then some (ErrCode.msg_unknown_sender, c)
    else if is_response_to msg.type p.req.type
    then (if p.broadcast
        then some (
          ErrCode.success,
          record c {
            pending_msgs =
                set_pending msg.req_id (record p { resps = p.resps ++ msg ∷ [] }) c.pending_msgs;
          },
        )
        else if no_resps p.resps
        then (if p.ready
            then none
            else some (
              ErrCode.success,
              record c {
                pending_msgs =
                    set_pending msg.req_id (record p { ready = true; resps = p.resps ++ msg ∷ [] })
                      c.pending_msgs;
              },
            ))
        else some (ErrCode.not_found, c))
    else some (ErrCode.invalid_arg, c)

unfoldable pub recv_local_resp : ℕ → LocalMsg → M ErrCode
unfolding accept_resp find_pending
recv_local_resp now msg c =
    let (fresh, node') = validate_msg_id c.node msg.addr msg.id in
    let c' = record c { node = node' } in
    if not fresh
    then some (ErrCode.msg_dup_id, c')
    else if not c.ignore_invalid_msg_ts
        && not (validate_msg_timestamp node' now msg.ts c.gw.ts_diff)
    then some (ErrCode.msg_invalid_ts, c')
    else elim (find_pending msg.req_id c.pending_msgs) [
      | none ↦ some (ErrCode.not_found, c')
      | some p ↦ accept_resp msg p c'
    ]

-- The calls of the callbacks that are subscribed to the topic.
unfoldable pub call_back : SubData → Values SubCb → M (Unit {0})
call_back d [] = pure tt
call_back d ((k, cb) ∷ vs) = do emit (Effect.calls_back cb d); call_back d vs

unfoldable pub call_all : List SubData → M (Unit {0})
unfolding call_back
call_all [] = pure tt
call_all (d ∷ ds) = do (λ c. call_back d (find c.sub_db d.topic) c); call_all ds

-- `ack` is what the layer answers to the confirmation, which is not looked at.
unfoldable pub recv_local_sub_data : ℕ → ErrCode → LocalMsg → M ErrCode
unfolding post call_all
recv_local_sub_data now ack msg c =
    let (fresh, node') = validate_msg_id c.node msg.addr msg.id in
    let c' = record c { node = node' } in
    if not fresh
    then some (ErrCode.msg_dup_id, c')
    else if not (validate_msg_timestamp node' now msg.ts c.gw.ts_diff)
    then some (ErrCode.msg_invalid_ts, c')
    else if not (str_eq msg.addr c.gw.addr)
    then some (ErrCode.msg_unknown_sender, c')
    else (do
      _ ← post now ack (record default_msg { type = LocalMsgType.ok })
      call_all msg.subs_data
      pure ErrCode.success)
        c'

unfoldable pub recv_local : ℕ → ErrCode → LocalMsg → M ErrCode
unfolding recv_local_resp recv_local_sub_data
recv_local now ack msg =
    if not (from_gateway msg.node_type) then pure ErrCode.invalid_arg else elim msg.type [
      | LocalMsgType.ok ↦ recv_local_resp now msg
      | LocalMsgType.fail ↦ recv_local_resp now msg
      | LocalMsgType.probe_res ↦ recv_local_resp now msg
      | LocalMsgType.sub_data ↦ recv_local_sub_data now ack msg
      | _ ↦ pure ErrCode.invalid_arg
    ]
