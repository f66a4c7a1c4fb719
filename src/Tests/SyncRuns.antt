-- ===== src/Tests/SyncRuns.antt =====
-- A time synchronisation and a discovery that find a gateway (src/common/client.cpp).
use kvik.Base.{◌≡◌, refl, ◌≢◌, true, false, List, [], ◌∷◌, some, str_dec}
use kvik.Int
use kvik.Int.{pos}
use kvik.Message.{ErrCode, LocalMsg, LocalMsgType, NodeType, default_msg}
use kvik.MsgIdCache.{insert}
use kvik.Node.{get_msg_id, validate_msg_id}
use kvik.Client.State.{Client}
use kvik.Client.Send.{Exchange, send_local_unchecked_broadcast}
use kvik.Client.Discovery.{Attempt, peer_of, process_gw_dscv_resps, discover_gateway}
use kvik.Client.Failing.{failing, discovering, receiving, process_gw_dscv_resps-failing}
use kvik.Client.Sync.{SyncWorld, sync_time}
use kvik.Client.Clock.{Synchronised, Missed, sync_time-counts}
use kvik.Client.Chosen.{Ending, discover_gateway-Ending}
use kvik.Tests.ClientRuns.{client, silent, left, same_addr, no_answer}

-- A client that sets the system time.
abbrev clock : Client
clock = record client {
  conf = record (client.conf) {
    time_sync = record { sync_system_time = true; reprobe_gateway_interval = 3600000 };
  };
}

abbrev probe_answer : LocalMsg
probe_answer = record default_msg {
  type = LocalMsgType.probe_res;
  addr = 1 ∷ [];
  id = 77;
  req_id = 65535;
  node_type = NodeType.gateway;
  pref = pos 3;
  ts_diff = pos 250;
}

abbrev probed : LocalMsg → Exchange
probed r = record silent { arrivals = record { now = 0; ack = ErrCode.success; msg = r } ∷ [] }

abbrev world : SyncWorld
world = record { start = 0; probe = probed probe_answer; answered = 5000000; report = silent }

sync_runs : sync_time world clock ≡ some (ErrCode.success, left (sync_time world clock))
unfolding sync_time validate_msg_id insert get_msg_id str_dec Int.eqb_ℤ
sync_runs = refl

sync_time-counts_example :
    (ErrCode.success ≡ ErrCode.success → Synchronised world clock (left (sync_time world clock)))
    × (ErrCode.success ≢ ErrCode.success → Missed clock (left (sync_time world clock)))
sync_time-counts_example = sync_time-counts world clock sync_runs

-- The second attempt finds the gateway.
abbrev attempts : List Attempt
attempts =
    no_answer
    ∷ record {
      probes =
          record {
            channel_set = ErrCode.success;
            exchange = probed (record probe_answer { req_id = 0 });
          }
          ∷ [];
      report = silent;
      cancelled = false;
    }
    ∷ []

discover_runs :
    discover_gateway same_addr [] 2 attempts client
    ≡ some
        ((some ErrCode.success, 1000 ∷ []), left (discover_gateway same_addr [] 2 attempts client))
unfolding discover_gateway send_local_unchecked_broadcast get_msg_id validate_msg_id insert
    Int.eqb_ℤ
discover_runs = refl

chosen : (left (discover_gateway same_addr [] 2 attempts client)).gw.pref ≡ pos 3
unfolding discover_gateway send_local_unchecked_broadcast get_msg_id validate_msg_id insert
    Int.eqb_ℤ Int.gtb_ℤ
chosen = refl

discover_gateway-Ending_example :
    Ending same_addr [] 0 2 attempts client ErrCode.success
      (left (discover_gateway same_addr [] 2 attempts client))
discover_gateway-Ending_example =
    discover_gateway-Ending same_addr [] 2 attempts client discover_runs

-- A gateway answers the probe with a failure.
fresh : (validate_msg_id (get_msg_id client.node).1 probe_answer.addr probe_answer.id).0 ≡ true
unfolding validate_msg_id insert get_msg_id str_dec
fresh = refl

process_gw_dscv_resps-failing_example :
    (c' : Client) × (process_gw_dscv_resps same_addr
        (receiving 0 0 ErrCode.success (failing probe_answer client))
        0
        []
        (discovering client)
      ≡ some (peer_of 0 probe_answer ∷ [], c'))
    × (c'.pending_msgs ≡ [])
process_gw_dscv_resps-failing_example =
    process_gw_dscv_resps-failing same_addr 0 0 ErrCode.success 0 probe_answer client fresh
