-- ===== src/Client/Teardown.antt =====
-- The end of a client of include/kvik/client.hpp: its members are destroyed in the reverse order of
-- their declarations, after the body of the destructor has released its locks. The threads of the
-- two timers run until the timers are destroyed. The members of the base class, which are destroyed
-- last, are left out, and of the two threads one is looked at.
pub mod Ticks
use kvik.Base.{ℕ, Bool, true, false, not, ◌&&◌, ◌||◌, List, [], ◌∷◌, ◌++◌, if◌then◌else◌, ◌==◌}

pub data Member : Type 0 where
  mutex dscv_sync_mutex conf ll sub_db sub_db_timer time_sync_timer : Member
  gw pending_msgs msgs_fail_cnt time_sync_no_resp_cnt ignore_invalid_msg_ts : Member
  dscv_loop_run dscv_loop_cv gw_wd_cv gw_wd_thread : Member

-- The position of the declaration.
abbrev pub position : Member → ℕ
position mutex = 0
position dscv_sync_mutex = 1
position conf = 2
position ll = 3
position sub_db = 4
position sub_db_timer = 5
position time_sync_timer = 6
position gw = 7
position pending_msgs = 8
position msgs_fail_cnt = 9
position time_sync_no_resp_cnt = 10
position ignore_invalid_msg_ts = 11
position dscv_loop_run = 12
position dscv_loop_cv = 13
position gw_wd_cv = 14
position gw_wd_thread = 15

abbrev pub same : Member → Member → Bool
same m n = position m == position n

-- All members, the one that is destroyed next at first.
abbrev pub members : List Member
members =
    gw_wd_thread ∷ gw_wd_cv ∷ dscv_loop_cv ∷ dscv_loop_run ∷ ignore_invalid_msg_ts
    ∷ time_sync_no_resp_cnt ∷ msgs_fail_cnt ∷ pending_msgs ∷ gw ∷ time_sync_timer ∷ sub_db_timer
    ∷ sub_db ∷ ll ∷ conf ∷ dscv_sync_mutex ∷ mutex ∷ []

-- How a request of `sendLocal` goes; the flag says whether it wakes the watchdog up.
pub data Request : Type 0 where
  no_gateway refused timed_out failing : Bool → Request
  answered : Request

abbrev pub fail_uses : Bool → List Member
fail_uses triggers = mutex ∷ msgs_fail_cnt ∷ conf ∷ (if triggers then gw_wd_cv ∷ [] else [])

abbrev pub unprepared_uses : Request → List Member
unprepared_uses (no_gateway t) = fail_uses t
unprepared_uses (refused t) = pending_msgs ∷ ll ∷ fail_uses t
unprepared_uses (timed_out t) = pending_msgs ∷ ll ∷ conf ∷ mutex ∷ pending_msgs ∷ fail_uses t
unprepared_uses (failing t) = pending_msgs ∷ ll ∷ conf ∷ mutex ∷ pending_msgs ∷ fail_uses t
unprepared_uses answered =
    pending_msgs ∷ ll ∷ conf ∷ mutex ∷ pending_msgs ∷ mutex ∷ msgs_fail_cnt ∷ []

-- The members that `sendLocal` uses, in order, `prepareMsg` first.
abbrev pub send_local_uses : Request → List Member
send_local_uses r = mutex ∷ gw ∷ conf ∷ unprepared_uses r

-- `publish`, which looks at the subscriptions no more than it locks for them.
abbrev pub publish_uses : Request → List Member
publish_uses answered = send_local_uses answered ++ mutex ∷ []
publish_uses r = send_local_uses r

-- A tick of one of the timers: a synchronisation that fails, wakes the watchdog up or not, or that
-- succeeds, sets the system time or not, and does not report or does; or a renewal.
pub data Tick : Type 0 where
  sync_fails : Request → Bool → Tick
  syncs : Bool → Tick
  sync_reports : Bool → Request → Tick
  renews_nothing : Tick
  renews : Request → Tick

abbrev pub store_uses : Bool → List Member
store_uses sets_time =
    conf ∷ ((if sets_time then gw ∷ [] else []) ++ mutex ∷ gw ∷ time_sync_no_resp_cnt ∷ conf ∷ [])

abbrev pub sync_time_uses : List Member → List Member
sync_time_uses rest = dscv_sync_mutex ∷ time_sync_timer ∷ conf ∷ rest

-- The members that `syncTime` and `subDBTick` use, in order.
abbrev pub tick_uses : Tick → List Member
tick_uses (sync_fails r triggers) = sync_time_uses (
    send_local_uses r
    ++ mutex ∷ time_sync_no_resp_cnt ∷ conf ∷ (if triggers then gw_wd_cv ∷ [] else []))
tick_uses (syncs sets_time) = sync_time_uses (send_local_uses answered ++ store_uses sets_time)
tick_uses (sync_reports sets_time r) =
    sync_time_uses (send_local_uses answered ++ (store_uses sets_time ++ gw ∷ publish_uses r))
tick_uses renews_nothing = mutex ∷ sub_db ∷ []
tick_uses (renews r) = mutex ∷ sub_db ∷ send_local_uses r

abbrev pub timer_of : Tick → Member
timer_of (renews r) = sub_db_timer
timer_of renews_nothing = sub_db_timer
timer_of _ = time_sync_timer

-- The members that are left, what the thread of the timer has yet to use in its callback, and
-- whether the thread has been joined.
pub record Teardown : Type 0 where
  pub alive : List Member
  pub pending : List Member
  pub joined : Bool

-- The next member is destroyed; the thread goes on to its callback; the callback uses a member.
pub data Step : Type 0 where
  destroys ticks uses : Step

-- `broken` is the use of a member that has been destroyed.
pub data TeardownResult : Type 0 where
  blocked broken : TeardownResult
  moved : Teardown → TeardownResult

unfoldable pub has : Member → List Member → Bool
has u [] = false
has u (m ∷ ms) = same m u || has u ms

abbrev pub is_nil : List Member → Bool
is_nil [] = true
is_nil (m ∷ ms) = false

-- The destructor of the timer joins the thread, which it waits for while a callback runs.
unfoldable pub next : Tick → Step → Teardown → TeardownResult
unfolding has
next k destroys t = elim t.alive [
  | [] ↦ blocked
  | m ∷ ms ↦
      if same m (timer_of k)
      then (if is_nil t.pending then moved (record t { alive = ms; joined = true }) else blocked)
      else moved (record t { alive = ms })
]
next k ticks t =
    if not t.joined && is_nil t.pending then moved (record t { pending = tick_uses k }) else blocked
next k uses t = elim t.pending [
  | [] ↦ blocked
  | u ∷ us ↦ if has u t.alive then moved (record t { pending = us }) else broken
]

unfoldable pub run : Tick → List Step → Teardown → TeardownResult
unfolding next
run k [] t = moved t
run k (s ∷ steps) t = elim (next k s t) [
  | blocked ↦ blocked
  | broken ↦ broken
  | moved u ↦ run k steps u
]

-- At the end of the body of the destructor.
abbrev pub body_done : Teardown
body_done = record { alive = members; pending = []; joined = false }
