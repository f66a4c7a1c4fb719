-- ===== src/Client/Locks/Progress.antt =====
-- The operations of src/common/client.cpp that run at once never wait for each other in a circle.
use kvik.Base.{
  ℕ, zero, suc, ◌+◌, ◌<◌, ◌≡◌, refl, ◌⊎◌, inl, inr, Bool, true, false, List, [], ◌∷◌, none, some,
  arith, All, Option-cases, Bool-cases, length, subst, sym,
}
use kvik.Client.Locks.{
  Op, Held, free, exec, has_mutex, has_sync, Thread, move, taken, move_at, next, run, Operation,
  threads,
}
use kvik.Client.Locks.Balanced.{after, locks_of-Keeps}
use kvik.Client.Locks.Exclusive.{Exclusive, next-Exclusive, threads-Exclusive}

-- What is left of a thread can be executed, and gives back all that is held.
abbrev Clean : Thread → Type 0
Clean t = after t.held t.rest ≡ some free

-- The steps that are left.
abbrev pub left : List Thread → ℕ
left [] = 0
left (t ∷ ts) = length t.rest + left ts

move-Clean : (m s : Bool) (t u : Thread) → move m s t ≡ some u → Clean t → Clean u
unfolding after
move-Clean m s t u e c = ground arith

move_at-Clean :
    (i : ℕ) (m s : Bool) (ts us : List Thread)
    → move_at i m s ts ≡ some us
    → All Clean ts
    → All Clean us
unfolding move_at
move_at-Clean i m s [] us e c = absurd (cc)
move_at-Clean zero m s (t ∷ ts) us e c = elim (Option-cases (move m s t)) [
  | inl n ↦ absurd (let f = rw (n, move_at) at e in cc)
  | inr (u, n) ↦
      let f = rw (n, move_at) at e in
      let same : u ∷ ts ≡ us = cc in subst (All Clean) same (move-Clean m s t u n c.0, c.1)
]
move_at-Clean (suc i) m s (t ∷ ts) us e c = elim (Option-cases (move_at i m s ts)) [
  | inl n ↦ absurd (let f = rw (n, move_at) at e in cc)
  | inr (vs, n) ↦
      let f = rw (n, move_at) at e in
      let same : t ∷ vs ≡ us = cc in subst (All Clean) same (c.0, move_at-Clean i m s ts vs n c.1)
]

-- A thread can make a step.
abbrev Steps : Bool → Bool → List Thread → Type 0
Steps m s ts = (i : ℕ) × (us : List Thread) × (move_at i m s ts ≡ some us) × (left us < left ts)

here :
    (m s : Bool) (t u : Thread) (ts : List Thread)
    → move m s t ≡ some u
    → length u.rest < length t.rest
    → Steps m s (t ∷ ts)
unfolding move_at
here m s t u ts e h = (zero, u ∷ ts, rw (e, move_at) refl, omega (arith, h))

there : (m s : Bool) (t : Thread) (ts : List Thread) → Steps m s ts → Steps m s (t ∷ ts)
unfolding move_at
there m s t ts (i, us, e, h) = (suc i, t ∷ us, rw (e, move_at) refl, omega (arith, h))

-- The thread after its next step.
abbrev stepped : Thread → Thread
stepped t = elim t.rest [
  | [] ↦ t
  | op ∷ ops ↦ elim (exec op t.held) [ none ↦ t | some h ↦ record { held = h; rest = ops } ]
]

abbrev Goes : Bool → Bool → Thread → Type 0
Goes m s t = (move m s t ≡ some (stepped t)) × (length (stepped t).rest < length t.rest)

-- A holder of `m_mutex` can always go on, a holder of `m_dscvSyncMutex` where `m_mutex` is free, and
-- any thread where both are.
mutex-Goes : (m s : Bool) (t : Thread) → Clean t → has_mutex t.held ≡ true → Goes m s t
unfolding after
mutex-Goes m s t c h = ground arith

sync-Goes : (s : Bool) (t : Thread) → Clean t → has_sync t.held ≡ true → Goes false s t
unfolding after
sync-Goes s t c h = ground arith

free-Goes :
    (t : Thread) (op : Op) (ops : List Op)
    → t.rest ≡ op ∷ ops
    → Clean t
    → has_mutex t.held ≡ false
    → has_sync t.held ≡ false
    → Goes false false t
unfolding after
free-Goes t op ops e c h k = ground arith

-- The first thread that holds the mutex goes on.
holder-Steps :
    (has : Held → Bool) (m s : Bool) (ts : List Thread)
    → ((t : Thread) → Clean t → has t.held ≡ true → Goes m s t)
    → All Clean ts
    → taken has ts ≡ true
    → Steps m s ts
unfolding taken
holder-Steps has m s [] go c h = absurd (cc)
holder-Steps has m s (t ∷ ts) go c h = elim (Bool-cases (has t.held)) [
  | inl e ↦ let (f, less) = go t c.0 e in here m s t (stepped t) ts f less
  | inr e ↦ there m s t ts (holder-Steps has m s ts go c.1 (rw (e, taken) at h))
]

abbrev pub AllReturned : List Thread → Type 0
AllReturned ts = All (λ t. (t.rest ≡ []) × (t.held ≡ free)) ts

ended : (t : Thread) → Clean t → t.rest ≡ [] → t.held ≡ free
unfolding after
ended t c e = ground arith

-- With both mutexes free, some thread goes on, unless all are at their ends.
free-Steps :
    (ts : List Thread)
    → All Clean ts
    → taken has_mutex ts ≡ false
    → taken has_sync ts ≡ false
    → AllReturned ts ⊎ Steps false false ts
unfolding taken
free-Steps [] c h k = inl tt
free-Steps (t ∷ ts) c h k = by_rest t.rest refl (free-Steps ts c.1 (ground arith) (ground arith))
  where
    by_rest :
        (ops : List Op)
        → t.rest ≡ ops
        → AllReturned ts ⊎ Steps false false ts
        → AllReturned (t ∷ ts) ⊎ Steps false false (t ∷ ts)
    by_rest [] e (inl all) = inl ((e, ended t c.0 e), all)
    by_rest [] e (inr more) = inr (there false false t ts more)
    by_rest (op ∷ ops) e others =
        let (f, less) = free-Goes t op ops e c.0 (ground arith) (ground arith) in
        inr (here false false t (stepped t) ts f less)

-- All have returned, or a step is possible, and every possible step leaves fewer.
abbrev pub Progress : List Thread → Type 0
Progress ts =
    AllReturned ts ⊎ ((i : ℕ) × (us : List Thread) × (next i ts ≡ some us) × (left us < left ts))

Clean-Progress : (ts : List Thread) → All Clean ts → Progress ts
unfolding next
Clean-Progress ts c = elim (Bool-cases (taken has_mutex ts)) [
  | inl m ↦ inr (
      holder-Steps has_mutex (taken has_mutex ts) (taken has_sync ts) ts
        (mutex-Goes (taken has_mutex ts) (taken has_sync ts)) c m)
  | inr m ↦ elim (Bool-cases (taken has_sync ts)) [
    | inl s ↦ inr (
        subst (λ b. Steps b (taken has_sync ts) ts) (sym m)
          (holder-Steps has_sync false (taken has_sync ts) ts (sync-Goes (taken has_sync ts)) c s))
    | inr s ↦ elim (free-Steps ts c m s) [
      | inl all ↦ inl all
      | inr more ↦ inr (
          subst (λ b. Steps b (taken has_sync ts) ts) (sym m)
            (subst (λ b. Steps false b ts) (sym s) more))
    ]
  ]
]

threads-Clean : (ops : List Operation) → All Clean (threads ops)
threads-Clean [] = tt
threads-Clean (o ∷ ops) = (locks_of-Keeps o, threads-Clean ops)

abbrev Sound : List Thread → Type 0
Sound ts = All Clean ts × Exclusive ts

run-Sound : (is : List ℕ) (ts us : List Thread) → run is ts ≡ some us → Sound ts → Sound us
unfolding run next
run-Sound [] ts us e h = let same : ts ≡ us = cc in subst Sound same h
run-Sound (i ∷ is) ts us e h = elim (Option-cases (next i ts)) [
  | inl n ↦ absurd (let f = rw (n, run) at e in cc)
  | inr (vs, n) ↦ run-Sound is vs us (rw (n, run) at e) (
    move_at-Clean i (taken has_mutex ts) (taken has_sync ts) ts vs n h.0,
    next-Exclusive i ts vs n h.1,
  )
]

-- Whatever operations run at once, and in whatever order their steps come, each of the two mutexes
-- has one holder at most, and either every operation has returned and nothing is held, or some
-- operation can make a step, after which fewer are left: there is no deadlock.
pub run-Progress :
    (ops : List Operation) (order : List ℕ) {ts : List Thread}
    → run order (threads ops) ≡ some ts
    → Exclusive ts × Progress ts
run-Progress ops order {ts} e =
    let (clean, exclusive) =
      run-Sound order (threads ops) ts e (threads-Clean ops, threads-Exclusive ops) in
    (exclusive, Clean-Progress ts clean)
