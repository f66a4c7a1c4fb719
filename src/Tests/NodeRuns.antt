-- ===== src/Tests/NodeRuns.antt =====
-- Runs of the cache of message IDs, the timestamps and the addresses (src/common/node.cpp).
use kvik.Base.{
  str_dec, length, ◌≡◌, refl, ◌≢◌, ◌↔◌, ◌≤◌, ◌<◌, ◌+◌, ◌%◌, ◌-◌, ◌&&◌, true, false, List, [], ◌∷◌,
  arith, codes,
}
use kvik.MsgIdCache.{new_cache, insert, tick, Call, inserts, ticks, run, tick_count}
use kvik.MsgIdCache.Lifetime.{insert_lifetime}
use kvik.Node.{INode, NodeConfig, get_msg_id, in_window}
use kvik.Node.Window.{in_window_iff, in_window-wrapped, replay_refused}
use kvik.Node.Ids.{get_msg_id-ne, after_calls}
use kvik.Peer.Hash.{hash_peer, peer_eq, hash_peer_iff}
use kvik.Message.{addr_to_string, LocalMsg, LocalMsgType, LocalMsgFailReason, default_msg}
use kvik.Int
use kvik.Message.Text.{base_of, data_to_string, msg_to_string}
use kvik.Message.Text.Items.{items, listing, msg_to_string-listing}
use kvik.Peer.{no_peer, peer_to_string}

abbrev calls : List Call
calls = inserts (7 ∷ []) 4 ∷ ticks ∷ inserts (7 ∷ []) 5 ∷ ticks ∷ ticks ∷ []

insert_lifetime_example :
    (tick_count calls ≤ 3
      → (insert (run calls (insert (new_cache 3) (7 ∷ []) 9).0) (7 ∷ []) 9).1 ≡ false)
    × (tick_count calls ≡ 3
        → (insert (tick (run calls (insert (new_cache 3) (7 ∷ []) 9).0)) (7 ∷ []) 9).1 ≡ true)
unfolding insert
insert_lifetime_example = insert_lifetime (new_cache 3) (7 ∷ []) 9 calls tt (omega arith) refl

replay_refused_example :
    ((insert (run calls (insert (new_cache 3) (7 ∷ []) 9).0) (7 ∷ []) 9).1
      && in_window 3 (65537 % 65536) 65534)
    ≡ false
unfolding insert in_window
replay_refused_example =
    replay_refused (new_cache 3) (7 ∷ []) 9 65534 65535 65537 calls tt (omega arith) (omega arith)
      refl refl (omega arith) (omega arith) (omega arith)

in_window_iff_example : (in_window 3 100 98 ≡ true) ↔ ((98 ≤ 100) × (100 < 98 + 3))
in_window_iff_example = in_window_iff 3 100 98 (omega arith)

in_window-wrapped_example : in_window 3 (65536 % 65536) ((65536 - 1) % 65536) ≡ false
in_window-wrapped_example =
    in_window-wrapped 3 65536 1 (omega arith) (omega arith) (omega arith) (omega arith)
      (omega arith)

abbrev node_conf : NodeConfig
node_conf = record {
  local_delivery = record { resp_timeout = 500 };
  msg_id_cache = record { time_unit = 500; max_age = 3 };
  reporting = record { base_topic = 95 ∷ []; rssi_subtopic = 114 ∷ [] };
  topic_sep = record {
    level_separator = 47 ∷ [];
    single_level_wildcard = 43 ∷ [];
    multi_level_wildcard = 35 ∷ [];
  };
}

abbrev pub test_node : INode
test_node = record { node_conf = node_conf; msg_id = 65535; cache = new_cache 3 }

get_msg_id-ne_example :
    (get_msg_id (after_calls 0 test_node)).0 ≢ (get_msg_id (after_calls 2 test_node)).0
get_msg_id-ne_example = get_msg_id-ne test_node 0 2 (omega arith) (omega arith) (omega arith)

addr_to_string_test : addr_to_string (171 ∷ 5 ∷ []) ≡ 97 ∷ 98 ∷ 48 ∷ 53 ∷ []
unfolding addr_to_string
addr_to_string_test = refl

abbrev bulk : LocalMsg
bulk = record default_msg {
  type = LocalMsgType.pub_sub_unsub;
  addr = 171 ∷ [];
  pubs = record { topic = codes "t"; payload = codes "four" } ∷ [];
  unsubs = codes "u" ∷ [];
}

bulk_text : msg_to_string bulk ≡ codes "PUB_SUB_UNSUB ab | PUB t (4 B payload), UNSUB u"
unfolding msg_to_string addr_to_string data_to_string Int.to_string
bulk_text = refl

msg_to_string-listing_example : msg_to_string bulk ≡ listing (base_of bulk) (items bulk.type bulk)
msg_to_string-listing_example = msg_to_string-listing bulk refl

abbrev same_bulk : LocalMsg
same_bulk = record bulk { id = 9; fail_reason = LocalMsgFailReason.dup_id }

peer_text :
    peer_to_string (record no_peer { addr = 171 ∷ []; channel = 6 })
    ≡ codes "ab (channel 6) (pref -32768)"
unfolding peer_to_string addr_to_string Int.to_string Int.eqb_ℤ
peer_text = refl

-- The same address on two channels, with a hash that is the identity on numbers.
hash_peer_iff_example :
    (hash_peer length (λ n. n) (record no_peer { addr = 1 ∷ [] })
      ≡ hash_peer length (λ n. n) (record no_peer { addr = 1 ∷ []; channel = 6 }))
    ↔ (0 % 18446744073709551616 ≡ 6 % 18446744073709551616)
unfolding peer_eq str_dec
hash_peer_iff_example =
    hash_peer_iff length (λ n. n) (record no_peer { addr = 1 ∷ [] })
      (record no_peer { addr = 1 ∷ []; channel = 6 }) refl
