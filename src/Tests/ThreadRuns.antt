-- ===== src/Tests/ThreadRuns.antt =====
-- Runs of the threads of src/common/timer.cpp and src/common/client.cpp, of the MAC addresses and
-- of the log.
use kvik.Base.{
  ℕ, ◌≡◌, refl, ◌+◌, ◌*◌, ◌≤◌, ◌<◌, ◌⊎◌, true, false, List, [], ◌∷◌, none, some, codes, length,
}
use kvik.Log.{LogLevel, log_func}
use kvik.Message.Mac.{local_addr_mac, bytes_from, broadcast, to_bytes, zeroes}
use kvik.Timer.{
  Phase, Timer, Step, new_timer, next, run, passes, expires, loads, stores, returns, stops,
}
use kvik.Timer.Stop.{run-stops, steps_left}
use kvik.Timer.Schedule.{InTime, run-InTime}
use kvik.Client.Watchdog.{
  Threads, Destructor, Watchdog, spawned, next as next_thread, run as run_threads,
  Step as ThreadStep, checks, waits, looks, triggers, flags, tells_loop, tells_watchdog,
}
use kvik.Client.Watchdog.Hang.{destructor_hangs}
use kvik.Client.Watchdog.Return.{destructor_returns, steps_left as both_left}

-- Two calls, the first one late.
abbrev rounds : List Step
rounds =
    passes 10
    ∷ expires
    ∷ loads
    ∷ passes 7
    ∷ stores
    ∷ returns
    ∷ passes 3
    ∷ expires
    ∷ loads
    ∷ stores
    ∷ []

rounds_run :
    run rounds (new_timer 10 100)
    ≡ some (record (new_timer 10 100) {
      next_exec = 130;
      phase = Phase.calling;
      now = 120;
      calls = 120 ∷ 117 ∷ [];
    })
unfolding run new_timer next
rounds_run = refl

run-InTime_example :
    InTime 10 100 (120 ∷ 117 ∷ []) × (100 + 10 * length {A = ℕ} (120 ∷ 117 ∷ []) ≤ 120)
unfolding new_timer
run-InTime_example =
    run-InTime 10 100 rounds
      (refl, (refl, (refl, (refl, (refl, (refl, (refl, (refl, (refl, (refl, tt)))))))))) rounds_run

-- The destructor comes before the callback.
abbrev stopped : Timer
stopped = record (new_timer 10 100) { run = false; phase = Phase.due; now = 110 }

abbrev at_end : Timer
at_end = record stopped { next_exec = 120; phase = Phase.ended; calls = 110 ∷ [] }

stopped_runs : run (loads ∷ stores ∷ returns ∷ stops ∷ []) stopped ≡ some at_end
unfolding run new_timer next
stopped_runs = refl

run-stops_example :
    (length at_end.calls ≤ length stopped.calls + 1)
    × (steps_left at_end.phase ≤ 4)
    × ((at_end.phase ≡ Phase.ended)
        ⊎ ((s : Step) × (v : Timer) × (next s at_end ≡ some v)
            × (steps_left v.phase < steps_left at_end.phase)))
unfolding new_timer
run-stops_example = run-stops (loads ∷ stores ∷ returns ∷ stops ∷ []) stopped refl stopped_runs

-- The watchdog looks for a gateway, or waits.
abbrev busy : Threads
busy = record spawned { watchdog = Watchdog.discovering }

abbrev idle : Threads
idle = record spawned { watchdog = Watchdog.waiting }

busy_runs : run_threads (checks ∷ waits ∷ triggers ∷ looks ∷ []) spawned ≡ some busy
unfolding run_threads next_thread
busy_runs = refl

destructor_hangs_example :
    (steps : List ThreadStep) × (u : Threads) × (run_threads steps busy ≡ some u)
    × (u.destructor ≡ Destructor.told_watchdog)
    × ((s : ThreadStep) → (next_thread s u ≡ none) ⊎ (s ≡ triggers))
destructor_hangs_example = destructor_hangs busy refl refl refl

abbrev woken : Threads
woken = record { run = false; watchdog = Watchdog.woken; destructor = Destructor.told_watchdog }

idle_runs : run_threads (flags ∷ tells_loop ∷ tells_watchdog ∷ []) idle ≡ some woken
unfolding run_threads next_thread
idle_runs = refl

destructor_returns_example :
    ((woken.destructor ≡ Destructor.joined) × (woken.watchdog ≡ Watchdog.ended))
    ⊎ ((s : ThreadStep) × (v : Threads) × (next_thread s woken ≡ some v)
        × (both_left v < both_left woken))
destructor_returns_example =
    destructor_returns (tells_loop ∷ tells_watchdog ∷ []) idle refl refl refl idle_runs

mac_written : to_bytes broadcast (λ i. 7) 5 ≡ 255
unfolding to_bytes bytes_from local_addr_mac
mac_written = refl

mac_kept : to_bytes zeroes (λ i. 7) 6 ≡ 7
unfolding to_bytes bytes_from local_addr_mac
mac_kept = refl

logged :
    log_func true LogLevel.info LogLevel.warn (codes "kvik") (codes "x") ≡ codes "[W] kvik: x\n"
unfolding log_func
logged = refl
