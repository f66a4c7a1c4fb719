-- ===== src/Client/Attempt.antt =====
-- The attempts of `discoverGateway` (src/common/client.cpp), and the pauses between them.
use kvik.Base.{
  ℕ, ◌≡◌, refl, ◌≤◌, ◌+◌, max, Bool, true, false, not, ◌||◌, List, [], ◌∷◌, Option, none, some,
  if◌then◌else◌, ◌==◌, ltb, All, arith,
}
use kvik.Message.{ErrCode, LocalMsg, LocalMsgType, default_msg, failed}
use kvik.Peer.{LocalPeer, no_peer}
use kvik.Client.State.{Client, Effect, pure, emit}
use kvik.Client.Send.{Exchange, send_local_unchecked_broadcast}
use kvik.Client.Subs.{is_nil}
use kvik.Client.Discovery.{
  Probe, Attempt, set_ignore, use_gw, drop_gw, best_gw, rssi_pubs, report_gw_dscv_rssi,
  process_gw_dscv_resps, probe_channels, probe_all, attempt, discover_loop, discover_gateway,
  next_delay,
}
use kvik.Client.Post.{Post, some-Post, if-Post, if-M-Post, >>=-Post}
use kvik.Client.Stays.{Stays, pure-Stays, >>=-Stays, if-Stays, emit-Stays}
use kvik.Client.Frame.{send_local_unchecked_broadcast-Keeps}
use kvik.Client.Setup.{Setup, Setup-IsKept, Keeps-Setup, done, publish_bulk-Setup}

use_gw-Setup : (has_channels : Bool) (p : LocalPeer) → Stays Setup (use_gw has_channels p)
use_gw-Setup b p =
    >>=-Stays Setup-IsKept (if b then emit (Effect.sets_channel p.channel) else pure tt) _
      (if-Stays Setup-IsKept b (emit (Effect.sets_channel p.channel)) (pure tt)
        (emit-Stays Setup-IsKept (Effect.sets_channel p.channel)) (pure-Stays Setup-IsKept tt))
      (λ u c. done tt c _ refl refl)

report_gw_dscv_rssi-Setup :
    (x : Exchange) (gws : List LocalPeer) → Stays Setup (report_gw_dscv_rssi x gws)
unfolding report_gw_dscv_rssi
report_gw_dscv_rssi-Setup x gws c =
    if-Post {P = λ a d. Setup c d}
      (not c.conf.reporting.rssi_on_gw_dscv || is_nil (rssi_pubs c gws)) _ _
      (λ _. done ErrCode.success c c refl refl) (λ _. publish_bulk-Setup x (rssi_pubs c gws) c)

next_delay-le : (top delay bound : ℕ) → top ≤ bound → next_delay top delay ≤ bound
unfolding next_delay
next_delay-le top delay bound h = ground arith

module _ (same_peer : LocalPeer → LocalPeer → Bool) where
  process_gw_dscv_resps-Setup :
      (x : Exchange) (channel : ℕ) (gws : List LocalPeer)
      → Stays Setup (process_gw_dscv_resps same_peer x channel gws)
  unfolding process_gw_dscv_resps
  process_gw_dscv_resps-Setup x channel gws =
      let probe : LocalMsg = record default_msg { type = LocalMsgType.probe_req } in
      >>=-Stays Setup-IsKept (send_local_unchecked_broadcast x probe) _
        (Keeps-Setup (send_local_unchecked_broadcast x probe)
          (send_local_unchecked_broadcast-Keeps x probe))
        (λ r. pure-Stays Setup-IsKept _)

  probe_channels-Setup :
      (chs : List ℕ) (ps : List Probe) (gws : List LocalPeer)
      → Stays Setup (probe_channels same_peer chs ps gws)
  unfolding probe_channels
  probe_channels-Setup (ch ∷ chs) (p ∷ ps) gws =
      let set = emit (Effect.sets_channel ch) in
      if-Stays Setup-IsKept (failed p.channel_set) _ _
        (>>=-Stays Setup-IsKept set _ (emit-Stays Setup-IsKept (Effect.sets_channel ch))
          (λ u. probe_channels-Setup chs ps gws))
        (>>=-Stays Setup-IsKept set _ (emit-Stays Setup-IsKept (Effect.sets_channel ch)) (λ u.
          >>=-Stays Setup-IsKept (process_gw_dscv_resps same_peer p.exchange ch gws) _
            (process_gw_dscv_resps-Setup p.exchange ch gws)
            (λ gws'. probe_channels-Setup chs ps gws')))
  probe_channels-Setup [] ps gws = pure-Stays Setup-IsKept gws
  probe_channels-Setup (ch ∷ chs) [] gws = pure-Stays Setup-IsKept gws

  probe_all-Setup :
      (chs : List ℕ) (ps : List Probe) (gws : List LocalPeer)
      → Stays Setup (probe_all same_peer chs ps gws)
  unfolding probe_all
  probe_all-Setup [] [] gws = pure-Stays Setup-IsKept gws
  probe_all-Setup [] (p ∷ ps) gws = process_gw_dscv_resps-Setup p.exchange 0 gws
  probe_all-Setup (ch ∷ chs) ps gws = probe_channels-Setup (ch ∷ chs) ps gws

  attempt-Setup :
      (chs : List ℕ) (a : Attempt) (gws : List LocalPeer)
      → Stays Setup (attempt same_peer chs a gws)
  unfolding attempt
  attempt-Setup chs a gws =
      >>=-Stays Setup-IsKept (set_ignore true) _ (λ c. done tt c _ refl refl)
        (λ u.
          >>=-Stays Setup-IsKept (probe_all same_peer chs a.probes gws) _
            (probe_all-Setup chs a.probes gws)
            (λ found.
              >>=-Stays Setup-IsKept (set_ignore false) _ (λ c. done tt c _ refl refl)
                (λ v.
                  if-Stays Setup-IsKept (is_nil found) _ _
                    (>>=-Stays Setup-IsKept drop_gw _ (λ c. done tt c _ refl refl)
                      (λ w. pure-Stays Setup-IsKept (false, found)))
                    (>>=-Stays Setup-IsKept (use_gw (not (is_nil chs)) (best_gw no_peer found)) _
                      (use_gw-Setup (not (is_nil chs)) (best_gw no_peer found))
                      (λ w.
                        >>=-Stays Setup-IsKept (report_gw_dscv_rssi a.report found) _
                          (report_gw_dscv_rssi-Setup a.report found)
                          (λ e. pure-Stays Setup-IsKept (true, found)))))))

  -- The setup is kept, and every pause has the bound.
  abbrev Paused : ℕ → Client → (Option ErrCode × List ℕ) → Client → Type 0
  Paused bound c r d = Setup c d × All (λ p. p ≤ bound) r.1

  discover_loop-Paused :
      (channels : List ℕ) (most : ℕ) (attempts : List Attempt) (cnt delay : ℕ)
      (gws : List LocalPeer) (bound : ℕ) (c : Client)
      → delay ≤ bound
      → c.conf.gw_dscv.dscv_max_delay ≤ bound
      → Post (Paused bound c) (discover_loop same_peer channels most attempts cnt delay gws c)
  unfolding discover_loop
  discover_loop-Paused channels most [] cnt delay gws bound c small capped =
      let P = Paused bound c in
      if-M-Post {P = P} (ltb cnt most || most == 0) _ _ c
        (λ t. some-Post P (none, []) c (Setup-IsKept.same c, tt))
        (λ f. some-Post P (some ErrCode.too_many_failed_attempts, []) c (Setup-IsKept.same c, tt))
  discover_loop-Paused channels most (a ∷ rest) cnt delay gws bound c small capped =
      let P = Paused bound c in
      let again = λ (d : Client). next_delay d.conf.gw_dscv.dscv_max_delay delay in
      if-M-Post {P = P} (ltb cnt most || most == 0) _ _ c
        (λ t.
          >>=-Post {P = λ r d. Setup c d} {Q = P} (attempt same_peer channels a gws) _ c
            (attempt-Setup channels a gws c)
            (λ r d u.
              if-M-Post {P = P} r.0 (pure (some ErrCode.success, [])) _ d
                (λ b. some-Post P (some ErrCode.success, []) d (u, tt))
                (λ b.
                  if-M-Post {P = P} a.cancelled (pure (some ErrCode.success, delay ∷ [])) _ d
                    (λ b2. some-Post P (some ErrCode.success, delay ∷ []) d (u, (small, tt)))
                    (λ b2.
                      let top : d.conf.gw_dscv.dscv_max_delay ≤ bound = rw u.conf capped in
                      >>=-Post {P = Paused bound d} {Q = P}
                        (discover_loop same_peer channels most rest (cnt + 1) (again d) r.1) _ d
                        (discover_loop-Paused channels most rest (cnt + 1) (again d) r.1 bound d
                          (next_delay-le d.conf.gw_dscv.dscv_max_delay delay bound top) top)
                        (λ q d2 e.
                          some-Post P (q.0, delay ∷ q.1) d2
                            (Setup-IsKept.chain c d d2 u e.0, (small, e.1)))))))
        (λ f. some-Post P (some ErrCode.too_many_failed_attempts, []) c (Setup-IsKept.same c, tt))

  -- When the discovery returns, the configuration and the subscriptions are what they were, and no
  -- pause between its attempts was longer than the longer of the two delays of the configuration.
  pub discover_gateway-pauses :
      (channels : List ℕ) (most : ℕ) (attempts : List Attempt) (c : Client)
      {r : Option ErrCode × List ℕ} {c' : Client}
      → discover_gateway same_peer channels most attempts c ≡ some (r, c')
      → (c'.conf ≡ c.conf)
        × (c'.sub_db ≡ c.sub_db)
        × All (λ p. p ≤ max c.conf.gw_dscv.dscv_min_delay c.conf.gw_dscv.dscv_max_delay) r.1
  unfolding discover_gateway
  discover_gateway-pauses channels most attempts c {r} {c'} h =
      let (kept, short) =
        discover_loop-Paused channels most attempts 0 c.conf.gw_dscv.dscv_min_delay []
          (max c.conf.gw_dscv.dscv_min_delay c.conf.gw_dscv.dscv_max_delay) c (omega arith)
          (omega arith) r c' h in
      (kept.conf, kept.sub_db, short)
