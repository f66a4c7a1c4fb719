-- ===== src/Client/Failing.antt =====
-- A failed probe in the discovery of src/common/client.cpp: `processGwDscvResps` takes every
-- response for a gateway.
use kvik.Base.{ℕ, ◌/◌, ◌++◌, ◌≡◌, refl, ◌∙◌, Bool, true, false, List, [], ◌∷◌, some, ◌==◌, ==_iff}
use kvik.Message.{ErrCode, NodeType, LocalMsgType, LocalMsg, default_msg}
use kvik.Node.{get_msg_id, validate_msg_id}
use kvik.Int.{to_u16, quot, plus}
use kvik.Peer.{LocalPeer}
use kvik.Client.State.{
  Client, M, ◌>>=◌, pure, Effect, PendingMsg, find_pending, erase_pending, set_pending, prepare_msg,
  add_pending,
}
use kvik.Client.Receive.{accept_resp, recv_local_resp, recv_local, is_response_to}
use kvik.Client.Send.{Arrival, Exchange, arrive, take_resps, send_local_unchecked_broadcast}
use kvik.Client.Discovery.{peer_of, add_peer, add_resps, process_gw_dscv_resps}

-- A response that answers the message that the client sends next, and says that it failed.
abbrev pub failing : LocalMsg → Client → LocalMsg
failing r c = record r {
  type = LocalMsgType.fail;
  node_type = NodeType.gateway;
  req_id = c.node.msg_id;
}

-- A client in a discovery, with nothing else to wait for.
abbrev pub discovering : Client → Client
discovering c = record c { pending_msgs = []; ignore_invalid_msg_ts = true }

-- The response is what arrives during the wait.
abbrev pub receiving : ℕ → ℕ → ErrCode → LocalMsg → Exchange
receiving start now ack r = record {
  start = start;
  sent = ErrCode.success;
  arrivals = record { now = now; ack = ack; msg = r } ∷ [];
}

-- The entry of a broadcast probe.
abbrev entry : LocalMsg → List LocalMsg → PendingMsg
entry m resps = record {
  req = record m { type = LocalMsgType.probe_req };
  broadcast = true;
  ready = false;
  resps = resps;
}

-- The client that waits for answers to it.
abbrev waiting : ℕ → PendingMsg → Client → Client
waiting id p c = record c { pending_msgs = (id, p) ∷ []; ignore_invalid_msg_ts = true }

-- The failure is added to the entry.
recv_local-failing :
    (now id : ℕ) (ack : ErrCode) (m r : LocalMsg) (c : Client)
    → (validate_msg_id c.node r.addr r.id).0 ≡ true
    → let f : LocalMsg = record r {
      type = LocalMsgType.fail;
      node_type = NodeType.gateway;
      req_id = id;
    } in
      recv_local now ack f (waiting id (entry m []) c)
      ≡ some (
        ErrCode.success,
        waiting id (entry m (f ∷ [])) (record c { node = (validate_msg_id c.node r.addr r.id).1 }),
      )
unfolding recv_local recv_local_resp find_pending accept_resp set_pending is_response_to
recv_local-failing now id ack m r c fresh =
    let same : (id == id) ≡ true = (==_iff id id).1 refl in
    rw (fresh, same, accept_resp, set_pending, same) refl

take_resps-waiting :
    (id : ℕ) (m : LocalMsg) (rs : List LocalMsg) (c : Client)
    → take_resps id (waiting id (entry m rs) c) ≡ some ((ErrCode.success, rs), discovering c)
unfolding take_resps find_pending erase_pending
take_resps-waiting id m rs c =
    let same : (id == id) ≡ true = (==_iff id id).1 refl in
    rw (same, take_resps, find_pending, same) refl

bind-eq :
    {A B : Type 0} (m : M A) (f : A → M B) (c d : Client) (a : A)
    → m c ≡ some (a, d)
    → (m >>= f) c ≡ f a d
bind-eq m f c d a e = rw (e, ◌>>=◌) refl

module _ (same_peer : LocalPeer → LocalPeer → Bool) where
  -- In a discovery, with no other message pending, a gateway whose ID is fresh and that answers the
  -- broadcast with a failure is a gateway found, and the entry is erased.
  pub process_gw_dscv_resps-failing :
      (start now : ℕ) (ack : ErrCode) (channel : ℕ) (r : LocalMsg) (c : Client)
      → (validate_msg_id (get_msg_id c.node).1 r.addr r.id).0 ≡ true
      → (c' : Client) × (process_gw_dscv_resps same_peer
            (receiving start now ack (failing r c))
            channel
            []
            (discovering c)
          ≡ some (peer_of channel r ∷ [], c'))
        × (c'.pending_msgs ≡ [])
  unfolding process_gw_dscv_resps add_resps add_peer send_local_unchecked_broadcast prepare_msg
      add_pending find_pending get_msg_id arrive
  process_gw_dscv_resps-failing start now ack channel r c fresh =
      let probe : LocalMsg = record default_msg { type = LocalMsgType.probe_req } in
      let sent : LocalMsg = record default_msg {
        type = LocalMsgType.probe_req;
        addr = [];
        id = c.node.msg_id;
        ts =
            to_u16
              (quot (plus (start / 1000000) c.gw.ts_diff) c.conf.node_conf.msg_id_cache.time_unit);
        node_type = NodeType.client;
      } in
      let after : Client = record (discovering c) {
        node = (validate_msg_id (get_msg_id c.node).1 r.addr r.id).1;
        effects = c.effects ++ Effect.sends sent ∷ [];
      } in
      let posted : Client = record c {
        node = (get_msg_id c.node).1;
        effects = c.effects ++ Effect.sends sent ∷ [];
      } in
      let arrived : Client = waiting c.node.msg_id (entry sent (failing r c ∷ [])) after in
      let as' : List Arrival = record { now = now; ack = ack; msg = failing r c } ∷ [] in
      let received : arrive as' (waiting c.node.msg_id (entry sent []) posted)
          ≡ some (tt, arrived) =
        bind-eq (recv_local now ack (failing r c)) (λ e. pure tt) _ arrived ErrCode.success
          (recv_local-failing now c.node.msg_id ack sent r posted fresh) in
      let answered : send_local_unchecked_broadcast (receiving start now ack (failing r c)) probe
            (discovering c)
          ≡ some ((ErrCode.success, failing r c ∷ []), discovering after) =
        bind-eq (arrive as') (λ u. take_resps c.node.msg_id) _ arrived tt received
        ∙ take_resps-waiting c.node.msg_id sent (failing r c ∷ []) after in
      (
        discovering after,
        bind-eq (send_local_unchecked_broadcast (receiving start now ack (failing r c)) probe)
            (λ x. pure (add_resps same_peer channel x.1 [])) (discovering c) (discovering after) _
            answered,
        refl,
      )
