-- ===== src/Client/Locks/Exclusive.antt =====
-- A mutex of src/common/client.cpp has one holder at most.
use kvik.Base.{
  ℕ, zero, suc, ◌+◌, ◌≤◌, ◌≡◌, refl, ◌⊎◌, inl, inr, Bool, true, false, List, [], ◌∷◌, some, arith,
  Option-cases, subst,
}
use kvik.Client.Locks.{
  Held, free, has_mutex, has_sync, Thread, move, taken, move_at, next, Operation, threads,
}

abbrev bit : Bool → ℕ
bit true = 1
bit false = 0

-- How many threads hold the mutex.
abbrev pub holders : (Held → Bool) → List Thread → ℕ
holders has [] = 0
holders has (t ∷ ts) = bit (has t.held) + holders has ts

abbrev pub Exclusive : List Thread → Type 0
Exclusive ts = (holders has_mutex ts ≤ 1) × (holders has_sync ts ≤ 1)

not-taken : (has : Held → Bool) (ts : List Thread) → taken has ts ≡ false → holders has ts ≡ 0
unfolding taken
not-taken has [] h = refl
not-taken has (t ∷ ts) h = ground (arith, not-taken has ts)

-- A step takes the mutex only where the flag says that it is free.
abbrev Claims : (Held → Bool) → Bool → Bool → Bool → Type 0
Claims has b m s =
    (t u : Thread) → move m s t ≡ some u → (bit (has u.held) ≤ bit (has t.held)) ⊎ (b ≡ false)

mutex-Claims : (m s : Bool) → Claims has_mutex m m s
mutex-Claims m s t u h = ground arith

sync-Claims : (m s : Bool) → Claims has_sync s m s
sync-Claims m s t u h = ground arith

bit_le : (b : Bool) → bit b ≤ 1
bit_le b = ground arith

-- No more holders, or one more where the mutex was free.
abbrev Grows : (Held → Bool) → Bool → List Thread → List Thread → Type 0
Grows has b ts us =
    (holders has us ≤ holders has ts) ⊎ ((b ≡ false) × (holders has us ≤ holders has ts + 1))

move_at-holders :
    (has : Held → Bool) (b m s : Bool) (i : ℕ) (ts us : List Thread)
    → Claims has b m s
    → move_at i m s ts ≡ some us
    → Grows has b ts us
unfolding move_at
move_at-holders has b m s i [] us c h = absurd (cc)
move_at-holders has b m s zero (t ∷ ts) us c h = elim (Option-cases (move m s t)) [
  | inl e ↦ absurd (let f = rw (e, move_at) at h in cc)
  | inr (u, e) ↦
      let f = rw (e, move_at) at h in
      let same : u ∷ ts ≡ us = cc in
      subst (Grows has b (t ∷ ts)) same (elim (c t u e) [
        | inl less ↦ inl (omega (arith, less))
        | inr lone ↦ inr (lone, omega (arith, bit_le (has u.held)))
      ])
]
move_at-holders has b m s (suc i) (t ∷ ts) us c h = elim (Option-cases (move_at i m s ts)) [
  | inl e ↦ absurd (let f = rw (e, move_at) at h in cc)
  | inr (vs, e) ↦
      let f = rw (e, move_at) at h in
      let same : t ∷ vs ≡ us = cc in
      subst (Grows has b (t ∷ ts)) same (elim (move_at-holders has b m s i ts vs c e) [
        | inl less ↦ inl (omega (arith, less))
        | inr (lone, more) ↦ inr (lone, omega (arith, more))
      ])
]

next-holders :
    (has : Held → Bool) (m s : Bool) (i : ℕ) (ts us : List Thread)
    → Claims has (taken has ts) m s
    → move_at i m s ts ≡ some us
    → holders has ts ≤ 1
    → holders has us ≤ 1
next-holders has m s i ts us c h few = elim (move_at-holders has (taken has ts) m s i ts us c h) [
  | inl less ↦ omega (arith, less, few)
  | inr (lone, more) ↦ omega (arith, more, not-taken has ts lone)
]

pub next-Exclusive :
    (i : ℕ) (ts us : List Thread) → next i ts ≡ some us → Exclusive ts → Exclusive us
unfolding next
next-Exclusive i ts us h e =
    let m = taken has_mutex ts in
    let s = taken has_sync ts in
    (
      next-holders has_mutex m s i ts us (mutex-Claims m s) h e.0,
      next-holders has_sync m s i ts us (sync-Claims m s) h e.1,
    )

threads-holders :
    (has : Held → Bool) (ops : List Operation) → has free ≡ false → holders has (threads ops) ≡ 0
threads-holders has [] e = refl
threads-holders has (o ∷ ops) e = rw e (omega (arith, threads-holders has ops e))

pub threads-Exclusive : (ops : List Operation) → Exclusive (threads ops)
threads-Exclusive ops = (
  omega (arith, threads-holders has_mutex ops refl),
  omega (arith, threads-holders has_sync ops refl),
)
