-- ===== src/Timer/Stop.antt =====
-- The timer of src/common/timer.cpp once its destructor has been called.
use kvik.Base.{
  ℕ, ◌+◌, ◌≤◌, ◌<◌, ◌≡◌, refl, false, List, [], ◌∷◌, some, Option-cases, inl, inr, ◌⊎◌, length,
  arith,
}
use kvik.Timer.{Timer, Phase, Step, next, run, stops, loads, stores, returns}

-- The steps of the thread that are left.
abbrev pub steps_left : Phase → ℕ
steps_left Phase.ended = 0
steps_left (Phase.waiting d) = 1
steps_left Phase.calling = 2
steps_left (Phase.loaded n) = 3
steps_left Phase.due = 4

-- The calls that are left.
abbrev pub calls_left : Phase → ℕ
calls_left Phase.due = 1
calls_left (Phase.loaded n) = 1
calls_left _ = 0

next-stopped :
    (s : Step) (t u : Timer)
    → t.run ≡ false
    → next s t ≡ some u
    → (u.run ≡ false) × (length u.calls + calls_left u.phase ≤ length t.calls + calls_left t.phase)
unfolding next
next-stopped s t u h e = ground arith

run-stopped :
    (steps : List Step) (t u : Timer)
    → t.run ≡ false
    → run steps t ≡ some u
    → (u.run ≡ false) × (length u.calls + calls_left u.phase ≤ length t.calls + calls_left t.phase)
unfolding run
run-stopped [] t u h e = ground arith
run-stopped (s ∷ steps) t u h e = elim (Option-cases (next s t)) [
  | inl n ↦ absurd (let g = rw (n, run) at e in cc)
  | inr (v, n) ↦
      let (stopped, few) = next-stopped s t v h n in
      let (still, fewer) = run-stopped steps v u stopped (rw (n, run) at e) in
      (still, omega (arith, few, fewer))
]

-- A stopped thread is at its end, or has a step that brings it nearer.
step_on :
    (t : Timer)
    → t.run ≡ false
    → (t.phase ≡ Phase.ended)
      ⊎ ((s : Step) × (u : Timer) × (next s t ≡ some u) × (steps_left u.phase < steps_left t.phase))
unfolding next
step_on t h = by_phase t.phase refl
  where
    by_phase :
        (p : Phase)
        → t.phase ≡ p
        → (t.phase ≡ Phase.ended)
          ⊎ ((s : Step) × (u : Timer) × (next s t ≡ some u)
              × (steps_left u.phase < steps_left t.phase))
    by_phase Phase.ended e = inl e
    by_phase (Phase.waiting d) e =
        inr (stops, record t { phase = Phase.ended }, ground arith, ground arith)
    by_phase Phase.calling e =
        inr (returns, record t { phase = Phase.waiting t.next_exec }, ground arith, ground arith)
    by_phase (Phase.loaded n) e = inr (
      stores,
      record t { next_exec = n + t.interval; phase = Phase.calling; calls = t.now ∷ t.calls },
      ground arith,
      ground arith,
    )
    by_phase Phase.due e =
        inr (loads, record t { phase = Phase.loaded t.next_exec }, ground arith, ground arith)

-- Once the destructor has told the thread to stop, whatever steps follow, the callback is called
-- once more at most, and the thread has ended or can take a step that brings it nearer to its end,
-- which is four steps away at most.
pub run-stops :
    (steps : List Step) (t : Timer) {u : Timer}
    → t.run ≡ false
    → run steps t ≡ some u
    → (length u.calls ≤ length t.calls + 1)
      × (steps_left u.phase ≤ 4)
      × ((u.phase ≡ Phase.ended)
          ⊎ ((s : Step) × (v : Timer) × (next s u ≡ some v)
              × (steps_left v.phase < steps_left u.phase)))
run-stops steps t {u} h e =
    let (stopped, few) = run-stopped steps t u h e in
    (omega (arith, few, calls_left-le t.phase), steps_left-le u.phase, step_on u stopped)
  where
    calls_left-le : (p : Phase) → calls_left p ≤ 1
    calls_left-le p = ground arith

    steps_left-le : (p : Phase) → steps_left p ≤ 4
    steps_left-le p = ground arith
