-- ===== src/Tests/StartRuns.antt =====
-- The discovery, the constructor and a delivery of the client of src/common/client.cpp.
use kvik.Base.{
  ℕ, ◌↔◌, ◌≡◌, refl, ◌≤◌, max, true, false, List, [], ◌∷◌, Option, some, none, All, Str, str_dec,
  inl, In,
}
use kvik.Message.{ErrCode, LocalMsg, LocalMsgType, NodeType, default_msg, SubData, SubCb}
use kvik.Node.{INode, get_msg_id, validate_msg_timestamp, validate_msg_id}
use kvik.Node
use kvik.MsgIdCache.{insert}
use kvik.Int
use kvik.Int.{pos}
use kvik.Trie.Ops.{at_path}
use kvik.Trie.Ops
use kvik.Trie.Insert.{IsTrie, lookup, insert-IsTrie}
use kvik.Trie.Find.{find, enqueue_child, enqueue_childs}
use kvik.Trie.Split.{split_to_levels}
use kvik.Trie.Nodes.{upsert, get, find_child}
use kvik.Layers.{LocalLayer}
use kvik.Client.State.{Client, ClientRetainedData, find_pending, erase_pending, Effect}
use kvik.Client.Send.{send_local_unchecked_broadcast}
use kvik.Client.Receive.{recv_local_sub_data}
use kvik.Client.Subs.{insert_all, no_cb, subscribe, pub_sub_unsub_bulk}
use kvik.Client.Discovery.{Attempt, discover_gateway}
use kvik.Client.Sync.{StartWorld, Built, built, construct_client}
use kvik.Client.Attempt.{discover_gateway-pauses}
use kvik.Client.Built.{construct_client-built}
use kvik.Client.Delivery.{Outcome, recv_local_sub_data-Delivers}
use kvik.Trie.Find.Matches.{matches}
use kvik.Client.Subscribed.{subscribe-recv_local_sub_data}
use kvik.Trie.Runs.{removes}
use kvik.Client.Entries.{call_entries}
use kvik.Client.Entries.Dangling.{call_entries_iff}
use kvik.Tests.ClientRuns.{
  answered, conf, client, no_subs, no_subs-IsTrie, subscribed, silent, same_addr, no_answer, left,
  discover_runs,
}

discover_gateway-pauses_example :
    ((left (discover_gateway same_addr [] 2 (no_answer ∷ no_answer ∷ []) client)).conf
      ≡ client.conf)
    × ((left (discover_gateway same_addr [] 2 (no_answer ∷ no_answer ∷ []) client)).sub_db
        ≡ client.sub_db)
    × All (λ p. p ≤ max 1000 120000) (1000 ∷ 2000 ∷ [])
discover_gateway-pauses_example =
    discover_gateway-pauses same_addr [] 2 (no_answer ∷ no_answer ∷ []) client discover_runs

-- A gateway answers the first probe.
abbrev probe_answer : LocalMsg
probe_answer = record default_msg {
  type = LocalMsgType.probe_res;
  addr = 1 ∷ [];
  id = 77;
  req_id = 7;
  node_type = NodeType.gateway;
  pref = pos 3;
}

abbrev one_gateway : Attempt
one_gateway = record {
  probes =
      record {
        channel_set = ErrCode.success;
        exchange = record silent {
          arrivals = record { now = 0; ack = ErrCode.success; msg = probe_answer } ∷ [];
        };
      }
      ∷ [];
  report = silent;
  cancelled = false;
}

abbrev pub world : StartWorld
world = record {
  random = 7;
  channels = [];
  channel_set = ErrCode.success;
  sync = record { start = 0; probe = silent; answered = 0; report = silent };
  attempts = one_gateway ∷ [];
}

abbrev pub nothing : ClientRetainedData
nothing = record {
  retained_gw = record { addr = []; addr_len = 0; channel = 0 };
  retained_msgs_fail_cnt = 0;
  retained_time_sync_no_resp_cnt = 0;
}

abbrev client_of : Option Built → Client
client_of (some (built c)) = c
client_of _ = client

abbrev unused : LocalLayer ℕ
unused = record { recv_cb = none }

abbrev constructs : Option Built
constructs = (construct_client same_addr world conf true nothing 0 unused).1

constructed : constructs ≡ some (built (client_of constructs))
unfolding construct_client Node.construct Ops.construct send_local_unchecked_broadcast
    validate_msg_id insert get_msg_id Int.eqb_ℤ
constructed = refl

-- The gateway sends data for the one subscription.
abbrev datum : SubData
datum = record { topic = 97 ∷ []; payload = 1 ∷ [] }

abbrev sub_data : LocalMsg
sub_data = record default_msg {
  type = LocalMsgType.sub_data;
  addr = 1 ∷ [];
  id = 5;
  node_type = NodeType.gateway;
  subs_data = datum ∷ [];
}

delivered :
    recv_local_sub_data 0 ErrCode.success sub_data subscribed
    ≡ some (ErrCode.success, left (recv_local_sub_data 0 ErrCode.success sub_data subscribed))
unfolding recv_local_sub_data validate_msg_id insert validate_msg_timestamp get_msg_id Int.to_u16
    Int.quot Int.plus Int.scale str_dec find_pending find enqueue_child enqueue_childs insert_all
    Ops.insert at_path split_to_levels upsert
delivered = refl

subscribed-IsTrie : IsTrie subscribed.sub_db
unfolding insert_all
subscribed-IsTrie = insert-IsTrie no_cb (97 ∷ []) 9 no_subs no_subs-IsTrie

construct_client-built_example :
    (true ≡ true)
    × ((client_of constructs).conf ≡ conf)
    × ((client_of constructs).ignore_invalid_msg_ts ≡ false)
    × IsTrie (client_of constructs).sub_db
    × ((p : List Str) → lookup (client_of constructs).sub_db p ≡ none)
construct_client-built_example =
    construct_client-built same_addr world conf true nothing 0 unused constructed

recv_local_sub_data-Delivers_example :
    Outcome subscribed sub_data (recv_local_sub_data 0 ErrCode.success sub_data subscribed)
recv_local_sub_data-Delivers_example =
    recv_local_sub_data-Delivers 0 ErrCode.success sub_data subscribed subscribed-IsTrie

-- A subscription, and what the gateway sends then.
abbrev after_subscribe : Client
after_subscribe = left (subscribe answered (97 ∷ []) 9 client)

abbrev after_data : Client
after_data = left (recv_local_sub_data 0 ErrCode.success sub_data after_subscribe)

subscribe_runs : subscribe answered (97 ∷ []) 9 client ≡ some (ErrCode.success, after_subscribe)
unfolding pub_sub_unsub_bulk validate_msg_id insert get_msg_id str_dec
subscribe_runs = refl

data_runs :
    recv_local_sub_data 0 ErrCode.success sub_data after_subscribe
    ≡ some (ErrCode.success, after_data)
unfolding recv_local_sub_data pub_sub_unsub_bulk validate_msg_id insert validate_msg_timestamp
    get_msg_id Int.to_u16 Int.quot Int.plus Int.scale str_dec find_pending erase_pending find
    enqueue_child enqueue_childs insert_all Ops.insert at_path split_to_levels upsert
data_runs = refl

subscribe-recv_local_sub_data_example :
    (w : SubCb) × In (Effect.calls_back w datum) after_data.effects
unfolding matches split_to_levels str_dec
subscribe-recv_local_sub_data_example =
    subscribe-recv_local_sub_data answered (97 ∷ []) 9 client 0 ErrCode.success sub_data datum
      no_subs-IsTrie subscribe_runs data_runs (inl refl) refl

-- Another thread unsubscribes before the callback is called.
call_entries_iff_example :
    (call_entries
        ((removes (97 ∷ []) ∷ []) ∷ [])
        (split_to_levels (47 ∷ []) (97 ∷ []) ∷ [])
        subscribed.sub_db
      ≡ none)
    ↔ (split_to_levels (47 ∷ []) (97 ∷ []) ≡ split_to_levels (47 ∷ []) (97 ∷ []))
unfolding insert_all Ops.insert at_path split_to_levels upsert get find_child
call_entries_iff_example =
    call_entries_iff (97 ∷ []) (97 ∷ []) subscribed.sub_db subscribed-IsTrie refl (λ l ls. refl)
