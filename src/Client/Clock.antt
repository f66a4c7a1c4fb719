-- ===== src/Client/Clock.antt =====
-- What a time synchronisation (`syncTime` of src/common/client.cpp) makes of its probe.
use kvik.Base.{
  ℕ, ◌≡◌, refl, ap, sym, arith, ◌≢◌, ◌∙◌, ◌+◌, ◌*◌, ◌%◌, true, false, not, ◌&&◌, ◌||◌, [], ◌∷◌,
  ◌++◌, some, ◌==◌, leb, In, In-append, inl, inr, Bool,
}
use kvik.Int.{plus, scale, quot, eqb_ℤ}
use kvik.Message.{ErrCode, LocalMsg, LocalMsgType, type_eq, default_msg, failed, rssi_unknown}
use kvik.Peer.{LocalPeer}
use kvik.Client.State.{Client, Effect, M, ◌>>=◌, ◌>>◌, pure}
use kvik.Client.Send.{Exchange, send_local}
use kvik.Client.Sync.{
  SyncWorld, count_sync_failure, set_system_time, store_diff, report_rssi, sync_time,
}
use kvik.Client.Post.{Post, some-Post, if-Post, if-M-Post, >>=-eq-some, >>=-Post}
use kvik.Client.Stays.{Stays}
use kvik.Client.Located.{Located, Located-IsFramed, Located-IsSent}
use kvik.Client.Sending.{send_local-Stays, publish_bulk-Stays}
use kvik.Client.Answered.{send_local-answered}
use kvik.Client.Outcome.{Triggered}

report_rssi-Located : (x : Exchange) (r : LocalMsg) → Stays Located (report_rssi x r)
report_rssi-Located x r c =
    if-Post {P = λ b d. Located c d}
      (c.conf.reporting.rssi_on_time_sync && not (eqb_ℤ r.rssi rssi_unknown)) _ _
      (λ _. publish_bulk-Stays Located-IsSent x _ c)
      (λ _. some-Post (λ b d. Located c d) ErrCode.success c (Located-IsFramed.same c))

abbrev pub probe : LocalMsg
probe = record default_msg { type = LocalMsgType.probe_req }

-- The client once the next synchronisation is scheduled.
abbrev pub scheduled : SyncWorld → Client → Client
scheduled w c = record c {
  effects =
      c.effects
      ++ Effect.schedules_sync (w.start + c.conf.time_sync.reprobe_gateway_interval * 1000000) ∷ [];
}

-- The number of failures that triggers the discovery is reached.
abbrev pub sync_trigger_due : Client → ℕ → Bool
sync_trigger_due c cnt =
    c.conf.gw_dscv.trig_time_sync_no_resp_cnt == 0
    || leb c.conf.gw_dscv.trig_time_sync_no_resp_cnt cnt

abbrev pub Missed : Client → Client → Type 0
Missed c c' =
    (c'.gw ≡ c.gw)
    × (c'.time_sync_no_resp_cnt ≡ (c.time_sync_no_resp_cnt + 1) % 65536)
    × (sync_trigger_due c ((c.time_sync_no_resp_cnt + 1) % 65536) ≡ true → Triggered c')

-- The system time that is set at the time `now` of the clock, for the difference that `c` has.
abbrev pub system_time : ℕ → Client → Effect
system_time now c = Effect.sets_system_time (quot (plus now (scale c.gw.ts_diff 1000000)) 1000000)

-- The gateway's difference and the count, and the system time.
abbrev pub Stored : ℕ → LocalMsg → Client → Client → Type 0
Stored now r c c' =
    (c'.gw ≡ record (c.gw) { ts_diff = r.ts_diff })
    × (c'.time_sync_no_resp_cnt ≡ 0)
    × (c.conf.time_sync.sync_system_time ≡ true → In (system_time now c) c'.effects)

count_sync_failure-Missed :
    (e : ErrCode) (c d : Client)
    → Located c d
    → Post (λ a c'. (a ≡ e) × Missed c c') (count_sync_failure e d)
unfolding count_sync_failure
count_sync_failure-Missed e c d k =
    let cnt = (d.time_sync_no_resp_cnt + 1) % 65536 in
    let same : sync_trigger_due d cnt ≡ sync_trigger_due c ((c.time_sync_no_resp_cnt + 1) % 65536) =
      rw (k.conf, k.cnt) in
    let count : cnt ≡ (c.time_sync_no_resp_cnt + 1) % 65536 = rw k.cnt in
    if-Post (sync_trigger_due d cnt) _ _
      (λ t.
        some-Post _ e
          (record d {
            time_sync_no_resp_cnt = cnt;
            effects = d.effects ++ Effect.triggers_discovery ∷ [];
          })
          (refl, (k.gw, count, λ u. (d.effects, refl))))
      (λ f.
        some-Post _ e (record d { time_sync_no_resp_cnt = cnt })
          (refl, (k.gw, count, λ u. absurd (cc))))

-- The part after a response.
abbrev store : SyncWorld → LocalMsg → M ErrCode
store w r = do
  set_system_time w.answered
  store_diff r
  _ ← report_rssi w.report r
  pure ErrCode.success

store-Stored :
    (w : SyncWorld) (r : LocalMsg) (c d : Client)
    → Located c d
    → Post (λ a c'. (a ≡ ErrCode.success) × Stored w.answered r c c') (store w r d)
store-Stored w r c d k =
    let Q : ErrCode → Client → Type 0 = λ a c'. (a ≡ ErrCode.success) × Stored w.answered r c c' in
    let Set : Unit {0} → Client → Type 0 = λ a z.
      (z.gw ≡ c.gw)
      × (c.conf.time_sync.sync_system_time ≡ true → In (system_time w.answered c) z.effects) in
    let Put : Unit {0} → Client → Type 0 = λ a z. Stored w.answered r c z in
    let same : system_time w.answered d ≡ system_time w.answered c = rw k.gw in
    >>=-Post {P = Set} {Q = Q} (set_system_time w.answered) _ d
      (if-Post {P = Set} d.conf.time_sync.sync_system_time _ _
        (λ t. some-Post Set tt _ (
          k.gw,
          λ s.
              (In-append (system_time w.answered c) d.effects (system_time w.answered d ∷ [])).1
                (inr (inl (sym same))),
        ))
        (λ f. some-Post Set tt d (k.gw, λ s. absurd (let same_conf = k.conf in cc))))
      (λ u y p.
        >>=-Post {P = Put} {Q = Q} (store_diff r) _ y
          (some-Post Put tt _
            (ap {A = LocalPeer} (λ g. record g { ts_diff = r.ts_diff }) p.0, refl, p.1))
          (λ v z q.
            >>=-Post {P = λ a e. Located z e} {Q = Q} (report_rssi w.report r) _ z
              (report_rssi-Located w.report r z)
              (λ a e l.
                some-Post Q ErrCode.success e
                  (refl, (l.gw ∙ q.0, l.cnt ∙ q.1, λ s. l.past _ (q.2 s))))))

probe_res_only :
    (t : LocalMsgType) → type_eq t LocalMsgType.probe_res ≡ true → t ≡ LocalMsgType.probe_res
probe_res_only LocalMsgType.probe_res h = refl
probe_res_only _ h = absurd (cc)

failed-success : (e : ErrCode) → failed e ≡ false → e ≡ ErrCode.success
failed-success ErrCode.success h = refl
failed-success _ h = absurd (cc)

failed-ne : (e : ErrCode) → failed e ≡ true → e ≢ ErrCode.success
failed-ne e h s = cc

-- The probe was answered by the gateway, and its answer stored.
abbrev pub Synchronised : SyncWorld → Client → Client → Type 0
Synchronised w c c' =
    (r : LocalMsg) × (d : Client) × (send_local w.probe probe default_msg (scheduled w c)
      ≡ some ((ErrCode.success, r), d))
    × (r.addr ≡ c.gw.addr)
    × (r.type ≡ LocalMsgType.probe_res)
    × Stored w.answered r c c'

-- When `sync_time` returns a success, the gateway has answered the probe with its difference of the
-- clocks, which is stored, the failure count is reset, and the system time, where the configuration
-- asks for it, is set by the difference that was stored before. When it returns a failure, the
-- gateway and its difference are what they were, the count has grown by one, as a uint16_t, and the
-- watchdog is woken up if the threshold is zero or reached.
pub sync_time-counts :
    (w : SyncWorld) (c : Client) {e : ErrCode} {c' : Client}
    → sync_time w c ≡ some (e, c')
    → (e ≡ ErrCode.success → Synchronised w c c') × (e ≢ ErrCode.success → Missed c c')
unfolding sync_time
sync_time-counts w c {e} {c'} h =
    let c0 = scheduled w c in
    let ((e0, r), d, sent, g) = >>=-eq-some (send_local w.probe probe default_msg) _ c0 (e, c') h in
    let k : Located c d =
      Located-IsFramed.chain c c0 d (Located-IsFramed.does c _)
        (send_local-Stays Located-IsSent w.probe probe default_msg c0 (e0, r) d sent) in
    let Q : ErrCode → Client → Type 0 =
      λ a z. (a ≡ ErrCode.success → Synchronised w c z) × (a ≢ ErrCode.success → Missed c z) in
    let missed : (f : ErrCode) → f ≢ ErrCode.success → Post Q (count_sync_failure f d) =
      λ f ne a z x.
        let (same, m) = count_sync_failure-Missed f c d k a z x in
        (λ s. absurd (ne (sym same ∙ s)), λ n. m) in
    if-M-Post {P = Q} (failed e0) (count_sync_failure e0) _ d (λ f. missed e0 (failed-ne e0 f))
      (λ f.
        if-M-Post {P = Q} (not (type_eq r.type LocalMsgType.probe_res))
          (count_sync_failure ErrCode.msg_processing_failed) (store w r) d
          (λ t. missed ErrCode.msg_processing_failed (λ s. absurd (cc)))
          (λ t a z x.
            let (done, stored) = store-Stored w r c d k a z x in
            let ok : send_local w.probe probe default_msg c0 ≡ some ((ErrCode.success, r), d) =
              sent ∙ ap (λ y. some ((y, r), d)) (failed-success e0 f) in
            let (from, _, _) = send_local-answered w.probe probe default_msg c0 ok in
            (
              λ s. (r, d, ok, from, probe_res_only r.type (ground arith), stored),
              λ ne. absurd (ne done),
            )))
      e c' g
