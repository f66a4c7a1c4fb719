-- ===== src/Client/Sync.antt =====
-- Time synchronisation, the retained data and the constructor (`syncTime`, `retain` and
-- `Client::Client` of src/common/client.cpp).
use kvik.Base.{
  ℕ, ◌+◌, ◌*◌, ◌%◌, Bool, true, false, not, ◌&&◌, ◌||◌, List, [], ◌∷◌, Option, none, some,
  if◌then◌else◌, ltb, leb, ◌==◌,
}
use kvik.Int.{plus, scale, quot, eqb_ℤ, to_string}
use kvik.Message.{ErrCode, failed, LocalMsgType, type_eq, LocalMsg, default_msg, rssi_unknown}
use kvik.Layers.{LocalLayer, set_local_recv_cb}
use kvik.Node
use kvik.Node.{build_report_rssi_topic}
use kvik.Peer
use kvik.Peer.{LocalPeer, no_peer}
use kvik.Trie.Ops.{construct}
use kvik.Client.State.{Client, ClientConfig, ClientRetainedData, Effect, M, ◌>>=◌, ◌>>◌, pure, emit}
use kvik.Client.Send.{Exchange, send_local}
use kvik.Client.Subs.{publish_bulk, no_cb}
use kvik.Client.Discovery.{Attempt, discover_gateway}

-- The clock at the start and after the response, the probe, and the report of the RSSI.
pub record SyncWorld : Type 0 where
  pub start : ℕ
  pub probe : Exchange
  pub answered : ℕ
  pub report : Exchange

-- The failure path.
unfoldable pub count_sync_failure : ErrCode → M ErrCode
count_sync_failure e c =
    let cnt = (c.time_sync_no_resp_cnt + 1) % 65536 in
    let c' = record c { time_sync_no_resp_cnt = cnt } in
    if c.conf.gw_dscv.trig_time_sync_no_resp_cnt == 0
      || leb c.conf.gw_dscv.trig_time_sync_no_resp_cnt cnt
    then (do emit Effect.triggers_discovery; pure e) c'
    else some (e, c')

abbrev pub set_system_time : ℕ → M (Unit {0})
set_system_time now c =
    if c.conf.time_sync.sync_system_time
    then emit (Effect.sets_system_time (quot (plus now (scale c.gw.ts_diff 1000000)) 1000000)) c
    else some (tt, c)

abbrev pub store_diff : LocalMsg → M (Unit {0})
store_diff r c =
    some (tt, record c { gw = record (c.gw) { ts_diff = r.ts_diff }; time_sync_no_resp_cnt = 0 })

abbrev pub report_rssi : Exchange → LocalMsg → M ErrCode
report_rssi x r c =
    if c.conf.reporting.rssi_on_time_sync && not (eqb_ℤ r.rssi rssi_unknown)
    then publish_bulk x
        (record {
          topic = build_report_rssi_topic c.conf.node_conf c.gw.addr;
          payload = to_string r.rssi;
        }
          ∷ [])
        c
    else some (ErrCode.success, c)

unfoldable pub sync_time : SyncWorld → M ErrCode
unfolding send_local count_sync_failure
sync_time w = do
  λ c.
      emit (Effect.schedules_sync (w.start + c.conf.time_sync.reprobe_gateway_interval * 1000000)) c
  (e, r) ← send_local w.probe (record default_msg { type = LocalMsgType.probe_req }) default_msg
  if failed e
      then count_sync_failure e
      else if not (type_eq r.type LocalMsgType.probe_res)
      then count_sync_failure ErrCode.msg_processing_failed
      else (do
        set_system_time w.answered
        store_diff r
        _ ← report_rssi w.report r
        pure ErrCode.success)

unfoldable pub retain : Client → ClientRetainedData
retain c = record {
  retained_gw = Peer.retain c.gw;
  retained_msgs_fail_cnt = c.msgs_fail_cnt;
  retained_time_sync_no_resp_cnt = c.time_sync_no_resp_cnt;
}

-- The constructor throws, has not yet returned when the world's attempts run out, or is done.
pub data Built : Type 0 where
  exception running : Built
  built : Client → Built

-- What happens around the constructor: the random bytes of the message ID, the layer's channels and
-- its answer to `setChannel`, the time synchronisation and the attempts to discover a gateway.
pub record StartWorld : Type 0 where
  pub random : ℕ
  pub channels : List ℕ
  pub channel_set : ErrCode
  pub sync : SyncWorld
  pub attempts : List Attempt

abbrev pub allow_ts : Client → Client
allow_ts c = record c { ignore_invalid_msg_ts = false }

-- The part that does without retained data, or after it failed.
unfoldable pub first_discovery : (LocalPeer → LocalPeer → Bool) → StartWorld → Client → Option Built
unfolding discover_gateway
first_discovery same_peer w c =
    elim (discover_gateway same_peer w.channels c.conf.gw_dscv.initial_dscv_fail_thres w.attempts
      c) [
        | none ↦ none
        | some (r, c') ↦ elim r.0 [
          | none ↦ some running
          | some e ↦ if failed e then some exception else some (built (allow_ts c'))
        ]
      ]

-- The gateway's channel is set if it is not the default one.
abbrev pub restore_channel : ErrCode → M Bool
restore_channel answer c =
    if ltb 0 c.gw.channel
    then (do emit (Effect.sets_channel c.gw.channel); pure (not (failed answer))) c
    else some (true, c)

abbrev pub restore_sync : StartWorld → M Bool
restore_sync w = do
  channel_ok ← restore_channel w.channel_set
  if channel_ok then (do e ← sync_time w.sync; pure (not (failed e))) else pure false

unfoldable pub start :
    (LocalPeer → LocalPeer → Bool) → StartWorld → ClientRetainedData → Client → Option Built
unfolding sync_time first_discovery
start same_peer w retained c =
    if ltb 0 retained.retained_gw.addr_len
    then elim (restore_sync w (record c {
      gw = Peer.unretain retained.retained_gw;
      msgs_fail_cnt = retained.retained_msgs_fail_cnt;
      time_sync_no_resp_cnt = retained.retained_time_sync_no_resp_cnt;
    })) [
      | none ↦ none
      | some (synced, c') ↦
          if synced then some (built (allow_ts c')) else first_discovery same_peer w c'
    ]
    else first_discovery same_peer w c

-- `Client::Client` of the client with the number `i`: the layer afterwards, and the client. `has_layer`
-- says whether the pointer to the layer is not null.
unfoldable pub construct_client :
    (LocalPeer → LocalPeer → Bool)
    → StartWorld
    → ClientConfig
    → Bool
    → ClientRetainedData
    → ℕ
    → LocalLayer ℕ
    → LocalLayer ℕ × Option Built
unfolding start set_local_recv_cb
construct_client same_peer w conf has_layer retained i layer =
    elim (Node.construct conf.node_conf w.random) [
      | none ↦ (layer, some exception)
      | some node ↦
          elim (construct no_cb conf.node_conf.topic_sep.level_separator
            conf.node_conf.topic_sep.single_level_wildcard
            conf.node_conf.topic_sep.multi_level_wildcard) [
              | none ↦ (layer, some exception)
              | some sub_db ↦ if not has_layer then (layer, some exception) else (
                set_local_recv_cb (some i) layer,
                start same_peer w retained (record {
                  conf = conf;
                  node = node;
                  sub_db = sub_db;
                  gw = no_peer;
                  pending_msgs = [];
                  msgs_fail_cnt = 0;
                  time_sync_no_resp_cnt = 0;
                  ignore_invalid_msg_ts = true;
                  effects = [];
                }),
              )
            ]
    ]
