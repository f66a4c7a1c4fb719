-- ===== src/Client/Watchdog/Return.antt =====
-- The destructor of src/common/client.cpp when the watchdog looks at the flag next, or waits.
use kvik.Base.{
  ℕ, ◌+◌, ◌<◌, ◌≡◌, refl, Bool, true, false, List, [], ◌∷◌, some, Option-cases, ◌⊎◌, inl, inr,
  arith, subst,
}
use kvik.Client.Watchdog.{
  Threads, Watchdog, Destructor, Step, next, run, checks, looks, flags, tells_loop, tells_watchdog,
  joins, notify,
}
use kvik.Client.Watchdog.Hang.{unwatched}

-- How far both are from their ends.
abbrev thread_left : Watchdog → ℕ
thread_left Watchdog.waiting = 2
thread_left Watchdog.ended = 0
thread_left _ = 1

abbrev destructor_left : Destructor → ℕ
destructor_left Destructor.alive = 4
destructor_left Destructor.flagged = 3
destructor_left Destructor.told_loop = 2
destructor_left Destructor.told_watchdog = 1
destructor_left Destructor.joined = 0

abbrev pub steps_left : Threads → ℕ
steps_left t = thread_left t.watchdog + destructor_left t.destructor

-- What is left of the destructor will be noticed.
abbrev noticed : Destructor → Watchdog → Bool
noticed Destructor.joined Watchdog.ended = true
noticed Destructor.joined _ = false
noticed Destructor.told_watchdog Watchdog.starting = true
noticed Destructor.told_watchdog Watchdog.woken = true
noticed Destructor.told_watchdog Watchdog.ended = true
noticed Destructor.told_watchdog _ = false
noticed Destructor.alive _ = false
noticed _ Watchdog.starting = true
noticed _ Watchdog.waiting = true
noticed _ Watchdog.woken = true
noticed _ Watchdog.ended = true
noticed _ _ = false

abbrev Ending : Threads → Type 0
Ending t = (t.run ≡ false) × (noticed t.destructor t.watchdog ≡ true)

next-Ending : (s : Step) (t u : Threads) → next s t ≡ some u → Ending t → Ending u
unfolding next
next-Ending s t u e h = ground arith

run-Ending : (steps : List Step) (t u : Threads) → run steps t ≡ some u → Ending t → Ending u
unfolding run
run-Ending [] t u e h = let same : t ≡ u = cc in subst Ending same h
run-Ending (s ∷ steps) t u e h = elim (Option-cases (next s t)) [
  | inl n ↦ absurd (let f = rw (n, run) at e in cc)
  | inr (v, n) ↦ run-Ending steps v u (rw (n, run) at e) (next-Ending s t v n h)
]

-- Both are at their ends, or a step brings them nearer.
abbrev Progress : Threads → Type 0
Progress t =
    ((t.destructor ≡ Destructor.joined) × (t.watchdog ≡ Watchdog.ended))
    ⊎ ((s : Step) × (u : Threads) × (next s t ≡ some u) × (steps_left u < steps_left t))

step_on : (t : Threads) → Ending t → Progress t
unfolding next
step_on t h = by_destructor t.destructor refl
  where
    joining : (w : Watchdog) → t.watchdog ≡ w → t.destructor ≡ Destructor.told_watchdog → Progress t
    joining Watchdog.starting e d =
        inr (checks, record t { watchdog = Watchdog.ended }, ground arith, ground arith)
    joining Watchdog.woken e d =
        inr (looks, record t { watchdog = Watchdog.ended }, ground arith, ground arith)
    joining Watchdog.ended e d =
        inr (joins, record t { destructor = Destructor.joined }, ground arith, ground arith)
    joining _ e d = absurd (ground arith)

    by_destructor : (d : Destructor) → t.destructor ≡ d → Progress t
    by_destructor Destructor.alive e = absurd (ground arith)
    by_destructor Destructor.flagged e =
        inr (tells_loop, record t { destructor = Destructor.told_loop }, ground arith, ground arith)
    by_destructor Destructor.told_loop e = inr (
      tells_watchdog,
      record t { watchdog = notify t.watchdog; destructor = Destructor.told_watchdog },
      ground arith,
      ground arith,
    )
    by_destructor Destructor.told_watchdog e = joining t.watchdog refl e
    by_destructor Destructor.joined e = inl (e, ground arith)

-- If the watchdog waits, or looks at the flag next, when the destructor is called, then after
-- whatever steps both have ended, the destructor after the thread, or a step is possible that
-- brings them nearer to it.
pub destructor_returns :
    (steps : List Step) (t : Threads) {u : Threads}
    → t.run ≡ true
    → t.destructor ≡ Destructor.alive
    → unwatched t.watchdog ≡ false
    → run (flags ∷ steps) t ≡ some u
    → ((u.destructor ≡ Destructor.joined) × (u.watchdog ≡ Watchdog.ended))
      ⊎ ((s : Step) × (v : Threads) × (next s u ≡ some v) × (steps_left v < steps_left u))
unfolding run next
destructor_returns steps t {u} r d w e = step_on u (
    run-Ending steps (record t { run = false; destructor = Destructor.flagged }) u (ground arith)
      (refl, ground arith))
