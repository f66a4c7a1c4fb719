-- ===== src/Timer/Schedule.antt =====
-- When the timer of src/common/timer.cpp calls its callback.
use native.Mathlib.Numerals.{unary_clauses}
use kvik.Base.{
  ℕ, zero, subst, suc, ◌+◌, ◌*◌, ◌≤◌, ◌≡◌, refl, Bool, true, false, List, [], ◌∷◌, some,
  Option-cases, inl, inr, length, All, arith,
}
use kvik.Timer.{Timer, Phase, Step, new_timer, next, run, sets}

-- So many intervals after the start.
abbrev pub slot : ℕ → ℕ → ℕ → ℕ
slot interval start zero = start
slot interval start (suc k) = slot interval start k + interval

slot_mul : (interval start k : ℕ) → slot interval start k ≡ start + interval * k
slot_mul interval start zero = omega arith
slot_mul interval start (suc k) =
    let more : interval * suc k ≡ interval * k + interval = simp unary_clauses (omega arith) in
    omega (arith, more, slot_mul interval start k)

-- The calls, last one first, each no earlier than its number of intervals after the start.
abbrev pub InTime : ℕ → ℕ → List ℕ → Type 0
InTime interval start [] = Unit {0}
InTime interval start (c ∷ calls) =
    (slot interval start (suc (length calls)) ≤ c) × InTime interval start calls

-- The time of the next call, as far as it is fixed, and that it has come, where it has.
abbrev Planned : ℕ → Timer → Phase → Type 0
Planned n t (Phase.waiting d) = (t.next_exec ≡ n) × (d ≡ n)
Planned n t Phase.due = (t.next_exec ≡ n) × (n ≤ t.now)
Planned n t (Phase.loaded m) = (m ≡ n) × (n ≤ t.now)
Planned n t Phase.calling = (t.next_exec ≡ n) × (t.now ≡ t.now)
Planned n t Phase.ended = (n ≡ n) × (n ≡ n)

abbrev OnGrid : ℕ → ℕ → Timer → Type 0
OnGrid interval start t =
    (t.interval ≡ interval)
    × (slot interval start (length t.calls) ≤ t.now)
    × Planned (slot interval start (suc (length t.calls))) t t.phase
    × InTime interval start t.calls

-- No step overrides the time of the next call.
abbrev overrides : Step → Bool
overrides (sets tp) = true
overrides _ = false

next-OnGrid :
    (s : Step) (interval start : ℕ) (t u : Timer)
    → overrides s ≡ false
    → next s t ≡ some u
    → OnGrid interval start t
    → OnGrid interval start u
unfolding next
next-OnGrid s interval start t u h e g = ground arith

run-OnGrid :
    (steps : List Step) (interval start : ℕ) (t u : Timer)
    → All (λ s. overrides s ≡ false) steps
    → run steps t ≡ some u
    → OnGrid interval start t
    → OnGrid interval start u
unfolding run
run-OnGrid [] interval start t u h e g =
    let same : t ≡ u = cc in subst (OnGrid interval start) same g
run-OnGrid (s ∷ steps) interval start t u h e g = elim (Option-cases (next s t)) [
  | inl n ↦ absurd (let f = rw (n, run) at e in cc)
  | inr (v, n) ↦
      run-OnGrid steps interval start v u h.1 (rw (n, run) at e)
        (next-OnGrid s interval start t v h.0 n g)
]

-- Where nobody overrides the next time, the callback is never early, whatever the order of the
-- steps: each call comes its number of intervals after the start or later, so there are no
-- more of them than whole intervals that have passed.
pub run-InTime :
    (interval start : ℕ) (steps : List Step) {u : Timer}
    → All (λ s. overrides s ≡ false) steps
    → run steps (new_timer interval start) ≡ some u
    → InTime interval start u.calls × (start + interval * length u.calls ≤ u.now)
unfolding new_timer
run-InTime interval start steps {u} h e =
    let (same, passed, planned, on_time) =
      run-OnGrid steps interval start (new_timer interval start) u h e
        (refl, omega arith, (refl, refl), tt) in
    (on_time, omega (arith, passed, slot_mul interval start (length u.calls)))
