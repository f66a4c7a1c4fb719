-- ===== src/Client/Discovery.antt =====
-- Gateway discovery (`discoverGateway`, `processGwDscvResps` and `reportGwDscvRssi` of
-- src/common/client.cpp).
use kvik.Base.{
  ℕ, ◌+◌, ◌*◌, Bool, true, false, not, ◌||◌, List, [], ◌∷◌, Option, none, some, if◌then◌else◌, ltb,
  ◌==◌,
}
use kvik.Int.{gtb_ℤ, eqb_ℤ, to_string}
use kvik.Message.{ErrCode, failed, LocalMsgType, LocalMsg, default_msg, PubData, rssi_unknown}
use kvik.Node.{build_report_rssi_topic}
use kvik.Peer.{LocalPeer, no_peer}
use kvik.Client.State.{Client, Effect, M, ◌>>=◌, ◌>>◌, pure, emit}
use kvik.Client.Send.{Exchange, send_local_unchecked_broadcast}
use kvik.Client.Subs.{publish_bulk, is_nil}

abbrev pub peer_of : ℕ → LocalMsg → LocalPeer
peer_of channel r = record {
  addr = r.addr;
  channel = channel;
  pref = r.pref;
  rssi = r.rssi;
  ts_diff = r.ts_diff;
}

-- The maximum search over the peers found.
unfoldable pub best_gw : LocalPeer → List LocalPeer → LocalPeer
best_gw best [] = best
best_gw best (p ∷ ps) = best_gw (if gtb_ℤ p.pref best.pref then p else best) ps

unfoldable pub rssi_pubs : Client → List LocalPeer → List PubData
rssi_pubs c [] = []
rssi_pubs c (p ∷ ps) =
    let rest = rssi_pubs c ps in
    if eqb_ℤ p.rssi rssi_unknown
    then rest
    else record {
      topic = build_report_rssi_topic c.conf.node_conf p.addr;
      payload = to_string p.rssi;
    }
      ∷ rest

unfoldable pub report_gw_dscv_rssi : Exchange → List LocalPeer → M ErrCode
unfolding rssi_pubs
report_gw_dscv_rssi x gws c =
    let pubs = rssi_pubs c gws in
    if not c.conf.reporting.rssi_on_gw_dscv || is_nil pubs
    then some (ErrCode.success, c)
    else publish_bulk x pubs c

-- The next pause after a failed attempt.
unfoldable pub next_delay : ℕ → ℕ → ℕ
next_delay max_delay delay = if ltb max_delay (delay * 2) then max_delay else delay * 2

-- One channel of one attempt: the layer's answer to `setChannel`, and the broadcast.
pub record Probe : Type 0 where
  pub channel_set : ErrCode
  pub exchange : Exchange

-- One attempt: a probe for each channel, the layer's answer when the channel of the gateway is set
-- (which is not looked at), the report, and whether the destructor ends the pause after it.
pub record Attempt : Type 0 where
  pub probes : List Probe
  pub report : Exchange
  pub cancelled : Bool

abbrev pub set_ignore : Bool → M (Unit {0})
set_ignore b c = some (tt, record c { ignore_invalid_msg_ts = b })

abbrev pub use_gw : Bool → LocalPeer → M (Unit {0})
use_gw has_channels p = do
  if has_channels then emit (Effect.sets_channel p.channel) else pure tt
  λ c. some (tt, record c { gw = p; msgs_fail_cnt = 0; time_sync_no_resp_cnt = 0 })

abbrev pub drop_gw : M (Unit {0})
drop_gw c = some (tt, record c { gw = no_peer })

-- `same_peer p q`: whether the unordered_set `gws` takes `q` for the member `p`. It is a parameter,
-- since the hash that the repository gives for peers looks at the channel and the equality does
-- not, and then the standard does not say which members the set finds.
module _ (same_peer : LocalPeer → LocalPeer → Bool) where
  unfoldable pub add_peer : LocalPeer → List LocalPeer → List LocalPeer
  add_peer q [] = q ∷ []
  add_peer q (p ∷ ps) = if same_peer p q then p ∷ ps else p ∷ add_peer q ps

  unfoldable pub add_resps : ℕ → List LocalMsg → List LocalPeer → List LocalPeer
  unfolding add_peer
  add_resps channel [] gws = gws
  add_resps channel (r ∷ rs) gws = add_resps channel rs (add_peer (peer_of channel r) gws)

  unfoldable pub process_gw_dscv_resps : Exchange → ℕ → List LocalPeer → M (List LocalPeer)
  unfolding add_resps
  process_gw_dscv_resps x channel gws = do
    (_, responses) ←
        send_local_unchecked_broadcast x (record default_msg { type = LocalMsgType.probe_req })
    pure (add_resps channel responses gws)

  -- The loop over the channels; a probe that the world does not describe is not made.
  unfoldable pub probe_channels : List ℕ → List Probe → List LocalPeer → M (List LocalPeer)
  unfolding process_gw_dscv_resps
  probe_channels (ch ∷ chs) (p ∷ ps) gws =
      if failed p.channel_set
      then (do emit (Effect.sets_channel ch); probe_channels chs ps gws)
      else (do
        emit (Effect.sets_channel ch)
        gws' ← process_gw_dscv_resps p.exchange ch gws
        probe_channels chs ps gws')
  probe_channels _ _ gws = pure gws

  unfoldable pub probe_all : List ℕ → List Probe → List LocalPeer → M (List LocalPeer)
  unfolding probe_channels
  probe_all [] [] gws = pure gws
  probe_all [] (p ∷ ps) gws = process_gw_dscv_resps p.exchange 0 gws
  probe_all (ch ∷ chs) ps gws = probe_channels (ch ∷ chs) ps gws

  -- The body of the loop up to the pause: whether a gateway was found, and all that were.
  unfoldable pub attempt : List ℕ → Attempt → List LocalPeer → M (Bool × List LocalPeer)
  unfolding probe_all best_gw report_gw_dscv_rssi
  attempt channels a gws = do
    set_ignore true
    found ← probe_all channels a.probes gws
    set_ignore false
    if is_nil found then (do drop_gw; pure (false, found)) else (do
      use_gw (not (is_nil channels)) (best_gw no_peer found)
      _ ← report_gw_dscv_rssi a.report found
      pure (true, found))

  -- The loop, with the attempts that the world provides: the code once it returns, the pauses
  -- after the failed attempts, and `none` where the attempts run out first.
  unfoldable pub discover_loop :
      List ℕ → ℕ → List Attempt → ℕ → ℕ → List LocalPeer → M (Option ErrCode × List ℕ)
  unfolding attempt next_delay
  discover_loop channels max_attempts [] cnt delay gws =
      if ltb cnt max_attempts || max_attempts == 0
      then pure (none, [])
      else pure (some ErrCode.too_many_failed_attempts, [])
  discover_loop channels max_attempts (a ∷ as') cnt delay gws =
      if ltb cnt max_attempts || max_attempts == 0
      then (do
        (found, gws') ← attempt channels a gws
        if found
            then pure (some ErrCode.success, [])
            else if a.cancelled
            then pure (some ErrCode.success, delay ∷ [])
            else (λ c.
                (do
                  (code, delays) ←
                      discover_loop channels max_attempts as' (cnt + 1)
                        (next_delay c.conf.gw_dscv.dscv_max_delay delay) gws'
                  pure (code, delay ∷ delays))
                  c))
      else pure (some ErrCode.too_many_failed_attempts, [])

  unfoldable pub discover_gateway : List ℕ → ℕ → List Attempt → M (Option ErrCode × List ℕ)
  unfolding discover_loop
  discover_gateway channels max_attempts attempts c =
      discover_loop channels max_attempts attempts 0 c.conf.gw_dscv.dscv_min_delay [] c
