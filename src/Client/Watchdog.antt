-- ===== src/Client/Watchdog.antt =====
-- The thread of the gateway watchdog and the destructor (`gwWatchdogHandler` and `~Client` of
-- src/common/client.cpp), and who notifies them.
pub mod Hang
pub mod Return
use kvik.Base.{Bool, true, false, List, [], ◌∷◌, Option, none, some, if◌then◌else◌}

-- Where the thread of the watchdog stands: before its first look at the flag, before the wait on
-- its condition variable, in the wait, woken up, in an attempt of `discoverGateway(0)`, in the
-- pause after a failed attempt, at the end.
pub data Watchdog : Type 0 where
  starting entering waiting woken discovering pausing ended : Watchdog

-- How far the destructor is: not called, past the flag, past the first and the second
-- notification, past the join.
pub data Destructor : Type 0 where
  alive flagged told_loop told_watchdog joined : Destructor

-- `run` is `m_dscvLoopRun`.
pub record Threads : Type 0 where
  pub run : Bool
  pub watchdog : Watchdog
  pub destructor : Destructor

-- The constructor spawns the thread.
abbrev pub spawned : Threads
spawned = record { run = true; watchdog = Watchdog.starting; destructor = Destructor.alive }

-- `triggers` is a failed message of any other thread. The wait of a pause tests the flag when it
-- begins, when it is notified and when it times out; the wait of the watchdog tests nothing. There
-- are no spurious wake-ups.
pub data Step : Type 0 where
  checks waits looks found fails retries cancels : Step
  triggers : Step
  flags tells_loop tells_watchdog joins : Step

-- A notification is lost where nobody waits.
abbrev pub notify : Watchdog → Watchdog
notify Watchdog.waiting = Watchdog.woken
notify w = w

abbrev pub at : Watchdog → Threads → Option Threads
at w t = some (record t { watchdog = w })

-- `none` where the step is not possible.
unfoldable pub next : Step → Threads → Option Threads
next checks t = elim t.watchdog [
  | Watchdog.starting ↦ if t.run then at Watchdog.entering t else at Watchdog.ended t
  | _ ↦ none
]
next waits t = elim t.watchdog [ Watchdog.entering ↦ at Watchdog.waiting t | _ ↦ none ]
next looks t = elim t.watchdog [
  | Watchdog.woken ↦ if t.run then at Watchdog.discovering t else at Watchdog.ended t
  | _ ↦ none
]
next found t = elim t.watchdog [ Watchdog.discovering ↦ at Watchdog.entering t | _ ↦ none ]
next fails t = elim t.watchdog [ Watchdog.discovering ↦ at Watchdog.pausing t | _ ↦ none ]
next retries t = elim t.watchdog [
  | Watchdog.pausing ↦ if t.run then at Watchdog.discovering t else none
  | _ ↦ none
]
next cancels t = elim t.watchdog [
  | Watchdog.pausing ↦ if t.run then none else at Watchdog.entering t
  | _ ↦ none
]
next triggers t = at (notify t.watchdog) t
next flags t = elim t.destructor [
  | Destructor.alive ↦ some (record t { run = false; destructor = Destructor.flagged })
  | _ ↦ none
]
next tells_loop t = elim t.destructor [
  | Destructor.flagged ↦ some (record t { destructor = Destructor.told_loop })
  | _ ↦ none
]
next tells_watchdog t = elim t.destructor [
  | Destructor.told_loop ↦
      some (record t { watchdog = notify t.watchdog; destructor = Destructor.told_watchdog })
  | _ ↦ none
]
next joins t = elim t.destructor [
  | Destructor.told_watchdog ↦ elim t.watchdog [
    | Watchdog.ended ↦ some (record t { destructor = Destructor.joined })
    | _ ↦ none
  ]
  | _ ↦ none
]

unfoldable pub run : List Step → Threads → Option Threads
run [] t = some t
run (s ∷ steps) t = elim (next s t) [ none ↦ none | some u ↦ run steps u ]
