-- ===== src/Client/Send.antt =====
-- How a client sends and waits (`sendLocal`, `sendLocalUnchecked` and `sendLocalUncheckedBroadcast`
-- of src/common/client.cpp). The lock is free while the sender waits: what arrives then is a list
-- of messages, each received in turn.
use kvik.Base.{
  ℕ, ◌+◌, ◌%◌, Bool, true, false, ◌||◌, List, [], ◌∷◌, none, some, if◌then◌else◌, ◌==◌, leb,
}
use kvik.Message.{ErrCode, failed, LocalMsgType, type_eq, LocalMsg}
use kvik.Client.State.{
  Effect, M, ◌>>=◌, ◌>>◌, pure, emit, find_pending, erase_pending, prepare_msg, add_pending,
}
use kvik.Client.Receive.{refused, posted, post, recv_local}

-- A message that arrives, the clock then, and the layer's answer to a confirmation of it.
pub record Arrival : Type 0 where
  pub now : ℕ
  pub ack : ErrCode
  pub msg : LocalMsg

-- What the world does in one exchange: the clock at the start, the layer's answer, and what arrives
-- until the sender wakes up.
pub record Exchange : Type 0 where
  pub start : ℕ
  pub sent : ErrCode
  pub arrivals : List Arrival

unfoldable pub arrive : List Arrival → M (Unit {0})
unfolding recv_local
arrive [] = pure tt
arrive (a ∷ rest) = do _ ← recv_local a.now a.ack a.msg; arrive rest

-- `(*responsesPtr)[0]`: `none` where it is out of range.
abbrev pub first_resp : List LocalMsg → M (ErrCode × LocalMsg)
first_resp [] c = none
first_resp (r ∷ rs) c = some ((ErrCode.success, r), c)

-- The end of the wait: a response or a timeout. Without its entry the promise is broken, which ends
-- the wait, and the pointer to the responses dangles.
unfoldable pub take_resp : ℕ → LocalMsg → M (ErrCode × LocalMsg)
unfolding find_pending erase_pending
take_resp id resp c =
    let c' = record c { pending_msgs = erase_pending id c.pending_msgs } in
    elim (find_pending id c.pending_msgs) [
      | none ↦ none
      | some p ↦ if p.ready then first_resp p.resps c' else some ((ErrCode.timeout, resp), c')
    ]

-- The code and the response, which stays as it was where none came.
unfoldable pub send_local_unchecked : Exchange → LocalMsg → LocalMsg → Bool → M (ErrCode × LocalMsg)
unfolding post arrive take_resp
send_local_unchecked x msg resp no_resp = do
  p ← post x.start x.sent msg
  elim p [
    | refused e ↦ pure (e, resp)
    | posted id ↦
        if no_resp then pure (ErrCode.success, resp) else (do arrive x.arrivals; take_resp id resp)
  ]

-- The failure path of `sendLocal`.
unfoldable pub count_failure : ErrCode → LocalMsg → M (ErrCode × LocalMsg)
count_failure e resp c =
    let cnt = (c.msgs_fail_cnt + 1) % 65536 in
    let c' = record c { msgs_fail_cnt = cnt } in
    if c.conf.gw_dscv.trig_msgs_fail_cnt == 0 || leb c.conf.gw_dscv.trig_msgs_fail_cnt cnt
    then (do emit Effect.triggers_discovery; pure (e, resp)) c'
    else some ((e, resp), c')

abbrev pub reset_failures : LocalMsg → M (ErrCode × LocalMsg)
reset_failures resp c = some ((ErrCode.success, resp), record c { msgs_fail_cnt = 0 })

unfoldable pub send_local : Exchange → LocalMsg → LocalMsg → M (ErrCode × LocalMsg)
unfolding send_local_unchecked count_failure
send_local x msg resp = do
  (e, r) ← send_local_unchecked x msg resp false
  if failed e
      then count_failure e r
      else if type_eq r.type LocalMsgType.fail
      then count_failure ErrCode.msg_processing_failed r
      else reset_failures r

-- The responses of a broadcast, at the pointer into its entry.
unfoldable pub take_resps : ℕ → M (ErrCode × List LocalMsg)
unfolding find_pending erase_pending
take_resps id c =
    let c' = record c { pending_msgs = erase_pending id c.pending_msgs } in
    elim (find_pending id c.pending_msgs) [
      | none ↦ none
      | some p ↦ some ((ErrCode.success, p.resps), c')
    ]

unfoldable pub send_local_unchecked_broadcast : Exchange → LocalMsg → M (ErrCode × List LocalMsg)
unfolding prepare_msg add_pending arrive take_resps
send_local_unchecked_broadcast x msg = do
  m ← prepare_msg x.start true msg
  add_pending m true
  emit (Effect.sends m)
  if failed x.sent then pure (x.sent, []) else (do arrive x.arrivals; take_resps m.id)
