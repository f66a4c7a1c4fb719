-- ===== src/Timer.antt =====
-- include/kvik/timer.hpp and src/common/timer.cpp: the thread of a timer, with the clock, the calls
-- of `setNextExec` by other threads and the destructor as the steps that may come between its own.
pub mod Stop
pub mod Schedule
use kvik.Base.{ℕ, ◌+◌, Bool, true, false, List, [], ◌∷◌, Option, none, some, if◌then◌else◌, leb}

-- Where the thread stands: in `wait_until` with the time that the wait was given; past it, with the
-- mutex released; between the load and the store of `m_nextExec += m_interval`; in the callback.
pub data Phase : Type 0 where
  waiting : ℕ → Phase
  due : Phase
  loaded : ℕ → Phase
  calling : Phase
  ended : Phase

-- `now` is the steady clock, and `calls` the times at which the thread went on to its callback, last
-- one first.
pub record Timer : Type 0 where
  pub interval : ℕ
  pub next_exec : ℕ
  pub run : Bool
  pub phase : Phase
  pub now : ℕ
  pub calls : List ℕ

-- The constructor at a time of the clock, with the thread in its first wait.
unfoldable pub new_timer : ℕ → ℕ → Timer
new_timer interval start = record {
  interval = interval;
  next_exec = start + interval;
  run = true;
  phase = Phase.waiting (start + interval);
  now = start;
  calls = [];
}

-- `passes` is the clock, `sets` a call of `setNextExec`, `destroys` the first half of the
-- destructor. The rest are steps of the thread: `rewaits` is a spurious wake-up, after which the
-- wait reads `m_nextExec` again, `stops` the end of the loop.
pub data Step : Type 0 where
  passes sets : ℕ → Step
  destroys : Step
  rewaits expires stops loads stores returns : Step

-- `none` where the step is not possible.
unfoldable pub next : Step → Timer → Option Timer
next (passes d) t = some (record t { now = t.now + d })
next (sets tp) t = some (record t { next_exec = tp })
next destroys t = some (record t { run = false })
next rewaits t = elim t.phase [
  | Phase.waiting d ↦ if t.run then some (record t { phase = Phase.waiting t.next_exec }) else none
  | _ ↦ none
]
next expires t = elim t.phase [
  | Phase.waiting d ↦
      if t.run then (if leb d t.now then some (record t { phase = Phase.due }) else none) else none
  | _ ↦ none
]
next stops t = elim t.phase [
  | Phase.waiting d ↦ if t.run then none else some (record t { phase = Phase.ended })
  | _ ↦ none
]
next loads t = elim t.phase [
  | Phase.due ↦ some (record t { phase = Phase.loaded t.next_exec })
  | _ ↦ none
]
next stores t = elim t.phase [
  | Phase.loaded n ↦
      some (record t { next_exec = n + t.interval; phase = Phase.calling; calls = t.now ∷ t.calls })
  | _ ↦ none
]
next returns t = elim t.phase [
  | Phase.calling ↦ some (record t { phase = Phase.waiting t.next_exec })
  | _ ↦ none
]

unfoldable pub run : List Step → Timer → Option Timer
run [] t = some t
run (s ∷ steps) t = elim (next s t) [ none ↦ none | some u ↦ run steps u ]
