-- ===== src/Tests/ClientRuns.antt =====
-- Runs of the client of src/common/client.cpp.
use kvik.Base.{
  ℕ, ◌≡◌, refl, ◌≢◌, ◌≤◌, Bool, true, false, List, [], ◌∷◌, Option, some, none, length, arith,
  str_dec, Str,
}
use kvik.Int.{pos}
use kvik.Message.{
  ErrCode, LocalMsgType, LocalMsg, NodeType, default_msg, type_eq, SubReq, failed, addr_empty,
}
use kvik.Peer.{LocalPeer, no_peer}
use kvik.Peer
use kvik.Node.{validate_msg_id, get_msg_id}
use kvik.MsgIdCache.{insert}
use kvik.Trie.Insert.{IsTrie, lookup}
use kvik.Trie.Runs.{contents}
use kvik.Trie.Ops
use kvik.Trie.Ops.{Trie, fresh, at_path}
use kvik.Trie.Find.{for_each}
use kvik.Trie.Split.{split_to_levels}
use kvik.Trie.Nodes.{upsert}
use kvik.Client.State.{Client, ClientConfig, find_pending}
use kvik.Client.Receive.{is_response_to, post, refused}
use kvik.Client.Send.{Exchange, send_local, send_local_unchecked_broadcast}
use kvik.Client.Subs.{pub_sub_unsub_bulk, unsubscribe_all, insert_all, topics}
use kvik.Client.Discovery.{Attempt, discover_gateway, best_gw}
use kvik.Client.Answered.{send_local-answered}
use kvik.Client.Outcome.{send_local-counts, Counted}
use kvik.Client.Subscriptions.{changes, pub_sub_unsub_bulk-sub_db, unsubscribe_all-topics}
use kvik.Client.Leftover.{Pending, post_refused-throws}
use kvik.Client.Returns.{send_local-returns}
use kvik.Client.Choice.{best_gw-unknown}
use kvik.Tests.NodeRuns.{test_node}

abbrev pub conf : ClientConfig
conf = record {
  node_conf = test_node.node_conf;
  gw_dscv = record {
    dscv_min_delay = 1000;
    dscv_max_delay = 120000;
    initial_dscv_fail_thres = 5;
    trig_msgs_fail_cnt = 5;
    trig_time_sync_no_resp_cnt = 2;
  };
  reporting = record { rssi_on_time_sync = true; rssi_on_gw_dscv = true };
  sub_lifetime = 600000;
  time_sync = record { sync_system_time = false; reprobe_gateway_interval = 3600000 };
}

abbrev pub no_subs : Trie ℕ
no_subs = record {
  l_sep = 47 ∷ [];
  l_single_wild = 43 ∷ [];
  l_multi_wild = 35 ∷ [];
  root = fresh 0 0;
}

abbrev pub client : Client
client = record {
  conf = conf;
  node = test_node;
  sub_db = no_subs;
  gw = record no_peer { addr = 1 ∷ [] };
  pending_msgs = [];
  msgs_fail_cnt = 2;
  time_sync_no_resp_cnt = 0;
  ignore_invalid_msg_ts = true;
  effects = [];
}

-- The gateway answers the first message with OK.
abbrev pub answer : LocalMsg
answer = record default_msg {
  type = LocalMsgType.ok;
  addr = 1 ∷ [];
  id = 77;
  req_id = 65535;
  node_type = NodeType.gateway;
}

abbrev pub answered : Exchange
answered = record {
  start = 0;
  sent = ErrCode.success;
  arrivals = record { now = 0; ack = ErrCode.success; msg = answer } ∷ [];
}

-- Nothing answers.
abbrev pub silent : Exchange
silent = record { start = 0; sent = ErrCode.success; arrivals = [] }

abbrev pub publication : LocalMsg
publication = record default_msg { type = LocalMsgType.pub_sub_unsub }

-- What a run leaves.
abbrev pub left : {A : Type 0} → Option (A × Client) → Client
left none = client
left (some (a, c)) = c

send_local_answers :
    send_local answered publication default_msg client
    ≡ some ((ErrCode.success, answer), left (send_local answered publication default_msg client))
unfolding send_local validate_msg_id insert get_msg_id str_dec
send_local_answers = refl

send_local-answered_example :
    (answer.addr ≡ client.gw.addr)
    × (is_response_to answer.type publication.type ≡ true)
    × (type_eq answer.type LocalMsgType.fail ≡ false)
send_local-answered_example =
    send_local-answered answered publication default_msg client send_local_answers

send_local_times_out :
    send_local silent publication default_msg client
    ≡ some ((ErrCode.timeout, default_msg), left (send_local silent publication default_msg client))
unfolding send_local validate_msg_id insert get_msg_id str_dec
send_local_times_out = refl

send_local-counts_example :
    Counted client ErrCode.timeout (left (send_local silent publication default_msg client))
send_local-counts_example =
    send_local-counts silent publication default_msg client send_local_times_out

abbrev topic : Str
topic = 98 ∷ []

abbrev pub subs : List SubReq
subs = record { topic = 97 ∷ []; cb = 9 } ∷ []

pub no_subs-IsTrie : IsTrie no_subs
no_subs-IsTrie = record { sep = omega arith; shape = (refl, tt); inner = refl }

bulk_runs :
    pub_sub_unsub_bulk answered [] subs (topic ∷ []) client
    ≡ some (ErrCode.success, left (pub_sub_unsub_bulk answered [] subs (topic ∷ []) client))
unfolding pub_sub_unsub_bulk validate_msg_id insert get_msg_id str_dec
bulk_runs = refl

pub_sub_unsub_bulk-sub_db_example :
    (ErrCode.success ≢ ErrCode.success
      → (left (pub_sub_unsub_bulk answered [] subs (topic ∷ []) client)).sub_db ≡ client.sub_db)
    × (ErrCode.success ≡ ErrCode.success
        → IsTrie (left (pub_sub_unsub_bulk answered [] subs (topic ∷ []) client)).sub_db
          × ((left (pub_sub_unsub_bulk answered [] subs (topic ∷ []) client)).sub_db.l_sep
              ≡ client.sub_db.l_sep)
          × ((q : List Str)
              → lookup (left (pub_sub_unsub_bulk answered [] subs (topic ∷ []) client)).sub_db q
                ≡ contents client.sub_db.l_sep
                    (changes subs (topic ∷ []))
                    (lookup client.sub_db)
                    q))
pub_sub_unsub_bulk-sub_db_example =
    pub_sub_unsub_bulk-sub_db answered [] subs (topic ∷ []) client no_subs-IsTrie bulk_runs

-- A client with one subscription.
abbrev pub subscribed : Client
subscribed = record client { sub_db = insert_all subs no_subs }

unsubscribe_runs :
    unsubscribe_all answered subscribed
    ≡ some (ErrCode.success, left (unsubscribe_all answered subscribed))
unfolding unsubscribe_all validate_msg_id insert get_msg_id str_dec for_each insert_all Ops.insert
    at_path split_to_levels upsert
unsubscribe_runs = refl

unsubscribe_all-topics_example :
    (ErrCode.success ≡ ErrCode.success → topics (left (unsubscribe_all answered subscribed)) ≡ [])
    × (ErrCode.success ≢ ErrCode.success
        → (left (unsubscribe_all answered subscribed)).sub_db ≡ subscribed.sub_db)
unsubscribe_all-topics_example = unsubscribe_all-topics answered subscribed unsubscribe_runs

abbrev pub same_addr : LocalPeer → LocalPeer → Bool
same_addr p q = type_eq LocalMsgType.ok LocalMsgType.ok

abbrev pub no_answer : Attempt
no_answer = record {
  probes = record { channel_set = ErrCode.success; exchange = silent } ∷ [];
  report = silent;
  cancelled = false;
}

pub discover_runs :
    discover_gateway same_addr [] 2 (no_answer ∷ no_answer ∷ []) client
    ≡ some (
      (some ErrCode.too_many_failed_attempts, 1000 ∷ 2000 ∷ []),
      left (discover_gateway same_addr [] 2 (no_answer ∷ no_answer ∷ []) client),
    )
unfolding discover_gateway get_msg_id send_local_unchecked_broadcast
discover_runs = refl

abbrev peers : List LocalPeer
peers =
    record no_peer { addr = 1 ∷ []; pref = pos 3 }
    ∷ record no_peer { addr = 2 ∷ []; pref = pos 5 }
    ∷ []

best_gw-unknown_example : best_gw no_peer (record no_peer { addr = 1 ∷ [] } ∷ []) ≡ no_peer
best_gw-unknown_example = best_gw-unknown (record no_peer { addr = 1 ∷ [] } ∷ []) (refl, tt)

unretain-retain_example :
    (length (Peer.retain no_peer).addr ≡ 32)
    × ((Peer.retain no_peer).addr_len ≤ 32)
    × (Peer.unretain (Peer.retain no_peer) ≡ record no_peer { addr = []; channel = 0 })
    × (length {A = ℕ} [] ≤ 32 → (Peer.unretain (Peer.retain no_peer)).addr ≡ [])
unretain-retain_example = Peer.unretain-retain no_peer

send_local-returns_example :
    (r : (ErrCode × LocalMsg) × Client) × (send_local answered publication default_msg client
      ≡ some r)
    × (failed answered.sent ≡ false → r.1.pending_msgs ≡ [])
send_local-returns_example =
    send_local-returns answered publication default_msg client refl (refl, tt)

-- The layer refuses a message, another one is pending later, and the ID of the first comes round.
abbrev after_refusal : Client
after_refusal = left (post 0 ErrCode.timeout publication client)

abbrev came_round : Client
came_round = record (left (post 5 ErrCode.success publication after_refusal)) { node = test_node }

refusal_runs :
    post 0 ErrCode.timeout publication client ≡ some (refused ErrCode.timeout, after_refusal)
unfolding post find_pending
refusal_runs = refl

still_there :
    find_pending client.node.msg_id came_round.pending_msgs
    ≡ find_pending client.node.msg_id after_refusal.pending_msgs
unfolding post find_pending get_msg_id
still_there = refl

came_round_gw : addr_empty came_round.gw.addr ≡ false
unfolding post find_pending get_msg_id
came_round_gw = refl

came_round_id : came_round.node.msg_id ≡ client.node.msg_id
unfolding post find_pending get_msg_id
came_round_id = refl

post_refused-throws_example :
    Pending client.node.msg_id after_refusal
    × (post 9 ErrCode.success publication came_round ≡ none)
post_refused-throws_example =
    post_refused-throws 0 9 ErrCode.timeout ErrCode.success publication publication client
      came_round refl refusal_runs still_there came_round_id came_round_gw
