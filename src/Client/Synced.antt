-- ===== src/Client/Synced.antt =====
-- The time synchronisation (src/common/client.cpp) leaves the configuration and the subscriptions alone.
use kvik.Base.{ℕ, refl, ◌+◌, ◌*◌, ◌%◌, true, false, not, ◌&&◌, ◌||◌, ◌==◌, leb, ltb}
use kvik.Int.{eqb_ℤ}
use kvik.Message.{ErrCode, LocalMsg, LocalMsgType, type_eq, default_msg, failed, rssi_unknown}
use kvik.Client.State.{Effect, emit}
use kvik.Client.Send.{Exchange, send_local}
use kvik.Client.Sync.{
  SyncWorld, count_sync_failure, set_system_time, store_diff, report_rssi, sync_time, StartWorld,
  restore_channel, restore_sync,
}
use kvik.Client.Post.{if-Post}
use kvik.Client.Stays.{Stays, pure-Stays, >>=-Stays, if-Stays, emit-Stays}
use kvik.Client.Setup.{Setup, Setup-IsKept, done, send_local-Setup, publish_bulk-Setup}

count_sync_failure-Setup : (e : ErrCode) → Stays Setup (count_sync_failure e)
unfolding count_sync_failure
count_sync_failure-Setup e c =
    if-Post {P = λ b d. Setup c d}
      (c.conf.gw_dscv.trig_time_sync_no_resp_cnt == 0
        || leb c.conf.gw_dscv.trig_time_sync_no_resp_cnt ((c.time_sync_no_resp_cnt + 1) % 65536))
      _ _ (λ _. done e c _ refl refl) (λ _. done e c _ refl refl)

set_system_time-Setup : (now : ℕ) → Stays Setup (set_system_time now)
set_system_time-Setup now c =
    if-Post {P = λ b d. Setup c d} c.conf.time_sync.sync_system_time _ _
      (λ _. done tt c _ refl refl) (λ _. done tt c _ refl refl)

report_rssi-Setup : (x : Exchange) (r : LocalMsg) → Stays Setup (report_rssi x r)
report_rssi-Setup x r c =
    if-Post {P = λ b d. Setup c d}
      (c.conf.reporting.rssi_on_time_sync && not (eqb_ℤ r.rssi rssi_unknown)) _ _
      (λ _. publish_bulk-Setup x _ c) (λ _. done ErrCode.success c c refl refl)

sync_time-Setup : (w : SyncWorld) → Stays Setup (sync_time w)
unfolding sync_time
sync_time-Setup w =
    let probe : LocalMsg = record default_msg { type = LocalMsgType.probe_req } in
    >>=-Stays Setup-IsKept
      (λ c.
        emit (Effect.schedules_sync (w.start + c.conf.time_sync.reprobe_gateway_interval * 1000000))
          c)
      _
      (λ c.
        emit-Stays Setup-IsKept
          (Effect.schedules_sync (w.start + c.conf.time_sync.reprobe_gateway_interval * 1000000)) c)
      (λ u.
        >>=-Stays Setup-IsKept (send_local w.probe probe default_msg) _
          (send_local-Setup w.probe probe default_msg)
          (λ a. if-Stays Setup-IsKept (failed a.0) _ _ (count_sync_failure-Setup a.0) (
            if-Stays Setup-IsKept (not (type_eq a.1.type LocalMsgType.probe_res)) _ _
              (count_sync_failure-Setup ErrCode.msg_processing_failed)
              (>>=-Stays Setup-IsKept (set_system_time w.answered) _
                (set_system_time-Setup w.answered)
                (λ u1.
                  >>=-Stays Setup-IsKept (store_diff a.1) _ (λ c. done tt c _ refl refl)
                    (λ u2.
                      >>=-Stays Setup-IsKept (report_rssi w.report a.1) _
                        (report_rssi-Setup w.report a.1)
                        (λ e. pure-Stays Setup-IsKept ErrCode.success)))))))

restore_channel-Setup : (answer : ErrCode) → Stays Setup (restore_channel answer)
restore_channel-Setup answer c =
    if-Post {P = λ b d. Setup c d} (ltb 0 c.gw.channel) _ _
      (λ _. done (not (failed answer)) c _ refl refl) (λ _. done true c c refl refl)

pub restore_sync-Setup : (w : StartWorld) → Stays Setup (restore_sync w)
restore_sync-Setup w =
    >>=-Stays Setup-IsKept (restore_channel w.channel_set) _ (restore_channel-Setup w.channel_set)
      (λ ok.
        if-Stays Setup-IsKept ok _ _
          (>>=-Stays Setup-IsKept (sync_time w.sync) _ (sync_time-Setup w.sync)
            (λ e. pure-Stays Setup-IsKept (not (failed e))))
          (pure-Stays Setup-IsKept false))
