-- ===== src/Client/Teardown/Ticks.antt =====
-- Which ticks of the timers of include/kvik/client.hpp may come while the client is destroyed.
use kvik.Base.{
  ◌≡◌, refl, ◌≢◌, ◌↔◌, ◌⊎◌, inl, inr, Bool, true, false, List, [], ◌∷◌, All, Bool-cases,
  if◌then◌else◌, arith, subst, sym,
}
use kvik.Client.Teardown.{
  Member, same, Tick, sync_fails, syncs, sync_reports, renews_nothing, renews, tick_uses, timer_of,
  Teardown, Step, destroys, ticks, uses, TeardownResult, blocked, broken, moved, has, next, run,
  body_done,
}

-- The timer and what was declared before it.
unfoldable until : Member → List Member → List Member
until m [] = []
until m (n ∷ ns) = if same n m then n ∷ ns else until m ns

has-until : (u m : Member) (ms : List Member) → has u (until m ms) ≡ true → has u ms ≡ true
unfolding has until
has-until u m [] h = h
has-until u m (n ∷ ns) h = elim (Bool-cases (same n m)) [
  | inl e ↦ rw (e) at h
  | inr e ↦ let rest = has-until u m ns (rw e at h) in ground arith
]

-- While the thread runs, all that it uses is the timer or declared before it, and there.
abbrev Covered : Tick → Teardown → List Member → Type 0
Covered k t us = All (λ u. has u (until (timer_of k) t.alive) ≡ true) us

abbrev Safe : Tick → Teardown → Type 0
Safe k t =
    ((t.joined ≡ false) × Covered k t (tick_uses k) × Covered k t t.pending)
    ⊎ ((t.joined ≡ true) × (t.pending ≡ []))

-- A step does not break anything and keeps this.
abbrev Fine : Tick → TeardownResult → Type 0
Fine k r = (r ≢ broken) × ((t : Teardown) → r ≡ moved t → Safe k t)

blocked-Fine : (k : Tick) → Fine k blocked
blocked-Fine k = (λ h. cc, λ t h. absurd (cc))

moved-Fine : (k : Tick) (t : Teardown) → Safe k t → Fine k (moved t)
moved-Fine k t s = (λ h. cc, λ u h. subst (Safe k) (cc) s)

if-Fine :
    (k : Tick) (b : Bool) (r q : TeardownResult)
    → (b ≡ true → Fine k r)
    → (b ≡ false → Fine k q)
    → Fine k (if b then r else q)
if-Fine k true r q f g = f refl
if-Fine k false r q f g = g refl

-- Another member than the timer is destroyed.
other-Safe :
    (k : Tick) (m : Member) (ms pending : List Member) (joined : Bool)
    → same m (timer_of k) ≡ false
    → Safe k (record { alive = m ∷ ms; pending = pending; joined = joined })
    → Safe k (record { alive = ms; pending = pending; joined = joined })
unfolding until
other-Safe k m ms pending joined e (inl (j, all, some')) = inl (j, rw (e) at all, rw (e) at some')
other-Safe k m ms pending joined e (inr h) = inr h

destroys-Fine :
    (k : Tick) (ms pending : List Member) (joined : Bool)
    → Safe k (record { alive = ms; pending = pending; joined = joined })
    → Fine k (next k destroys (record { alive = ms; pending = pending; joined = joined }))
unfolding next
destroys-Fine k [] pending joined h = blocked-Fine k
destroys-Fine k (m ∷ ms) [] joined h =
    if-Fine k (same m (timer_of k)) _ _ (λ e. moved-Fine k _ (inr (refl, refl)))
      (λ e. moved-Fine k _ (other-Safe k m ms [] joined e h))
destroys-Fine k (m ∷ ms) (u ∷ us) joined h =
    if-Fine k (same m (timer_of k)) _ _ (λ e. blocked-Fine k)
      (λ e. moved-Fine k _ (other-Safe k m ms (u ∷ us) joined e h))

ticks-Fine :
    (k : Tick) (ms pending : List Member) (joined : Bool)
    → Safe k (record { alive = ms; pending = pending; joined = joined })
    → Fine k (next k ticks (record { alive = ms; pending = pending; joined = joined }))
unfolding next
ticks-Fine k ms [] true h = blocked-Fine k
ticks-Fine k ms (u ∷ us) true h = blocked-Fine k
ticks-Fine k ms (u ∷ us) false h = blocked-Fine k
ticks-Fine k ms [] false (inl (j, all, h)) = moved-Fine k _ (inl (refl, all, all))
ticks-Fine k ms [] false (inr (j, h)) = absurd (cc)

uses-Fine :
    (k : Tick) (ms pending : List Member) (joined : Bool)
    → Safe k (record { alive = ms; pending = pending; joined = joined })
    → Fine k (next k uses (record { alive = ms; pending = pending; joined = joined }))
unfolding next
uses-Fine k ms [] joined h = blocked-Fine k
uses-Fine k ms (u ∷ us) joined (inl (j, all, h)) =
    if-Fine k (has u ms) _ _ (λ e. moved-Fine k _ (inl (j, all, h.1)))
      (λ e. absurd (let there = has-until u (timer_of k) ms h.0 in cc))
uses-Fine k ms (u ∷ us) joined (inr (j, h)) = absurd (cc)

next-Fine : (k : Tick) (s : Step) (t : Teardown) → Safe k t → Fine k (next k s t)
next-Fine k destroys t h = destroys-Fine k t.alive t.pending t.joined h
next-Fine k ticks t h = ticks-Fine k t.alive t.pending t.joined h
next-Fine k uses t h = uses-Fine k t.alive t.pending t.joined h

run-Fine : (k : Tick) (steps : List Step) (t : Teardown) → Safe k t → run k steps t ≢ broken
unfolding run
run-Fine k [] t h e = cc
run-Fine k (s ∷ steps) t h e = by_result (next k s t) refl (λ u. run-Fine k steps u)
  where
    by_result :
        (r : TeardownResult)
        → next k s t ≡ r
        → ((u : Teardown) → Safe k u → run k steps u ≢ broken)
        → ⊥
    by_result blocked x again = let f = rw (x, run) at e in cc
    by_result broken x again = (next-Fine k s t h).0 x
    by_result (moved u) x again = again u ((next-Fine k s t h).1 u x) (rw (x, run) at e)

-- All up to the gateway is destroyed, then a tick comes and goes on.
late : List Step → List Step
late rest =
    destroys ∷ destroys ∷ destroys ∷ destroys ∷ destroys ∷ destroys ∷ destroys ∷ destroys ∷ destroys
    ∷ ticks ∷ uses ∷ uses ∷ uses ∷ rest

-- The uses up to the one of the gateway.
abbrev last_uses : Tick → List Step
last_uses (renews r) = uses ∷ []
last_uses _ = uses ∷ uses ∷ []

late_breaks : (k : Tick) → (run k (late (last_uses k)) body_done ≡ broken) ⊎ (k ≡ renews_nothing)
unfolding run late has
late_breaks (sync_fails r t) = inl refl
late_breaks (syncs s) = inl refl
late_breaks (sync_reports s r) = inl refl
late_breaks renews_nothing = inr refl
late_breaks (renews r) = inl refl

-- While the members are destroyed, from the end of the body of the destructor on, a tick of a timer
-- can come, in whatever order of the steps, without a use of a destroyed member exactly if it is a
-- renewal of the subscriptions that finds none: every other one can be late for the gateway.
pub teardown_iff :
    (k : Tick) → ((steps : List Step) → run k steps body_done ≢ broken) ↔ (k ≡ renews_nothing)
unfolding has until
teardown_iff k = (
  λ safe. elim (late_breaks k) [ inl e ↦ absurd (safe (late (last_uses k)) e) | inr e ↦ e ],
  λ e.
      subst (λ q. (steps : List Step) → run q steps body_done ≢ broken) (sym e)
        (λ steps. run-Fine renews_nothing steps body_done (inl (refl, (refl, (refl, tt)), tt))),
)
