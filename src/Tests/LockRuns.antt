-- ===== src/Tests/LockRuns.antt =====
-- Threads of the model that lock the mutexes of a client at once (src/common/client.cpp).
use kvik.Base.{ℕ, ◌≡◌, refl, List, [], ◌∷◌, Option, some, none}
use kvik.Client.Locks.{
  Operation, calls, bulk, discovers, syncs, receives_resp, destroys, misses, finds, fails,
  succeeding, nothing, waited, early, locks_of, Thread, run, threads,
}
use kvik.Client.Locks.Exclusive.{Exclusive}
use kvik.Client.Locks.Progress.{Progress, run-Progress}

-- A publication, a discovery with one failed attempt, a time synchronisation, a response and the
-- destructor.
abbrev operations : List Operation
operations =
    calls (bulk succeeding ∷ [])
    ∷ calls (discovers (misses (early ∷ []) 1 ∷ finds (waited ∷ []) nothing ∷ []) ∷ [])
    ∷ calls (syncs (fails early) ∷ [])
    ∷ receives_resp
    ∷ destroys
    ∷ []

-- The discovery keeps the time synchronisation out, but not the publication.
abbrev order : List ℕ
order = 1 ∷ 0 ∷ 0 ∷ 1 ∷ 1 ∷ 3 ∷ 3 ∷ 1 ∷ 1 ∷ 1 ∷ 2 ∷ 1 ∷ 1 ∷ 2 ∷ 2 ∷ 4 ∷ 4 ∷ []

abbrev threads_of : Option (List Thread) → List Thread
threads_of (some ts) = ts
threads_of none = []

runs : run order (threads operations) ≡ some (threads_of (run order (threads operations)))
unfolding run locks_of
runs = refl

-- While the discovery holds `m_dscvSyncMutex`, the time synchronisation cannot begin.
kept_out : run (1 ∷ 2 ∷ []) (threads operations) ≡ none
unfolding run locks_of
kept_out = refl

run-Progress_example :
    Exclusive (threads_of (run order (threads operations)))
    × Progress (threads_of (run order (threads operations)))
run-Progress_example = run-Progress operations order runs
