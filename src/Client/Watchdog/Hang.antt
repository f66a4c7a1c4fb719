-- ===== src/Client/Watchdog/Hang.antt =====
-- The destructor of src/common/client.cpp when the watchdog is not in its wait.
use kvik.Base.{◌≡◌, refl, Bool, true, false, List, [], ◌∷◌, none, some, ◌⊎◌, inl, inr, arith}
use kvik.Client.Watchdog.{
  Threads, Watchdog, Destructor, Step, next, run, checks, waits, looks, found, fails, retries,
  cancels, triggers, flags, tells_loop, tells_watchdog, joins,
}

-- The thread is past a look at the flag, and not yet in its wait.
abbrev pub unwatched : Watchdog → Bool
unwatched Watchdog.entering = true
unwatched Watchdog.discovering = true
unwatched Watchdog.pausing = true
unwatched _ = false

-- The destructor waits for the thread, and the thread for a notification.
abbrev pub Hung : Threads → Type 0
Hung t =
    (t.run ≡ false) × (t.destructor ≡ Destructor.told_watchdog) × (t.watchdog ≡ Watchdog.waiting)

stuck : (t : Threads) → Hung t → (s : Step) → (next s t ≡ none) ⊎ (s ≡ triggers)
unfolding next
stuck t h checks = inl (ground arith)
stuck t h waits = inl (ground arith)
stuck t h looks = inl (ground arith)
stuck t h found = inl (ground arith)
stuck t h fails = inl (ground arith)
stuck t h retries = inl (ground arith)
stuck t h cancels = inl (ground arith)
stuck t h triggers = inr refl
stuck t h flags = inl (ground arith)
stuck t h tells_loop = inl (ground arith)
stuck t h tells_watchdog = inl (ground arith)
stuck t h joins = inl (ground arith)

hanging : Watchdog → List Step
hanging Watchdog.entering = flags ∷ tells_loop ∷ tells_watchdog ∷ waits ∷ []
hanging Watchdog.discovering = flags ∷ tells_loop ∷ tells_watchdog ∷ found ∷ waits ∷ []
hanging _ = flags ∷ tells_loop ∷ tells_watchdog ∷ cancels ∷ waits ∷ []

abbrev hung : Threads
hung = record { run = false; watchdog = Watchdog.waiting; destructor = Destructor.told_watchdog }

-- If the destructor is called while the watchdog is past a look at the flag and not yet in its
-- wait, which is the whole of a discovery, then the steps may come in an order after which the
-- destructor waits for the thread and the thread for a notification: no step is possible then but
-- that a message of some other thread fails, where no wait ends by itself.
pub destructor_hangs :
    (t : Threads)
    → t.run ≡ true
    → t.destructor ≡ Destructor.alive
    → unwatched t.watchdog ≡ true
    → (steps : List Step) × (u : Threads) × (run steps t ≡ some u)
      × (u.destructor ≡ Destructor.told_watchdog)
      × ((s : Step) → (next s u ≡ none) ⊎ (s ≡ triggers))
unfolding run hanging next
destructor_hangs t r d w =
    (hanging t.watchdog, hung, runs t.watchdog refl, refl, stuck hung (refl, refl, refl))
  where
    runs : (p : Watchdog) → t.watchdog ≡ p → run (hanging p) t ≡ some hung
    runs Watchdog.entering e = ground arith
    runs Watchdog.discovering e = ground arith
    runs Watchdog.pausing e = ground arith
    runs _ e = absurd (let b = rw e at w in cc)
