-- ===== src/Client/Locks/Balanced.antt =====
-- Every operation of src/common/client.cpp takes the mutexes in one order and gives them back.
use kvik.Base.{ℕ, zero, suc, ◌≡◌, refl, ◌∙◌, List, [], ◌∷◌, ◌++◌, Option, none, some}
use kvik.Client.Locks.{
  Op, acquires_mutex, releases_sync, critical, Wait, early, waited, unchecked_locks,
  send_local_locks, Request, nothing, failing, succeeding, bulk_locks, resubscribe_all_locks,
  probes_locks, Attempted, finds, misses, pause_locks, discover_locks, Synced, fails, succeeds,
  sync_time_locks, Call, bulk, unsubscribes_all, resubscribes_all, discovers, syncs, retains,
  call_locks, calls_locks, data_locks, Operation, calls, sub_db_ticks, receives_resp, refuses_data,
  receives_data, watches, watches_not, destroys, watch_locks, locks_of, Held, free, mutex, sync,
  exec,
}

-- What is held after some steps, if none of them is refused.
unfoldable pub after : Held → List Op → Option Held
after h [] = some h
after h (op ∷ ops) = elim (exec op h) [ none ↦ none | some k ↦ after k ops ]

after-append :
    (h k : Held) (xs ys : List Op) → after h xs ≡ some k → after h (xs ++ ys) ≡ after k ys
unfolding after
after-append h k [] ys e = let same : h ≡ k = cc in rw same refl
after-append h k (op ∷ ops) ys e = go (exec op h) e (λ j. after-append j k ops ys)
  where
    go :
        (o : Option Held)
        → elim o [ none ↦ none | some j ↦ after j ops ] ≡ some k
        → ((j : Held) → after j ops ≡ some k → after j (ops ++ ys) ≡ after k ys)
        → elim o [ none ↦ none | some j ↦ after j (ops ++ ys) ] ≡ after k ys
    go none e f = absurd (cc)
    go (some j) e f = f j e

-- The steps leave what is held as it was.
abbrev pub Keeps : Held → List Op → Type 0
Keeps h ops = after h ops ≡ some h

append-Keeps : (h : Held) (xs ys : List Op) → Keeps h xs → Keeps h ys → Keeps h (xs ++ ys)
append-Keeps h xs ys p q = after-append h h xs ys p ∙ q

-- From nothing, or from `m_dscvSyncMutex`.
record Nests (ops : List Op) : Type 0 where
  alone : Keeps free ops
  within : Keeps sync ops

append-Nests : (xs ys : List Op) → Nests xs → Nests ys → Nests (xs ++ ys)
append-Nests xs ys p q = record {
  alone = append-Keeps free xs ys p.alone q.alone;
  within = append-Keeps sync xs ys p.within q.within;
}

critical-Nests : Nests critical
unfolding after
critical-Nests = record { alone = refl; within = refl }

unchecked_locks-Nests : (w : Wait) → Nests (unchecked_locks w)
unchecked_locks-Nests early = critical-Nests
unchecked_locks-Nests waited = append-Nests critical critical critical-Nests critical-Nests

send_local_locks-Nests : (w : Wait) → Nests (send_local_locks w)
send_local_locks-Nests w =
    append-Nests (unchecked_locks w) critical (unchecked_locks-Nests w) critical-Nests

bulk_locks-Nests : (r : Request) → Nests (bulk_locks r)
unfolding after
bulk_locks-Nests nothing = record { alone = refl; within = refl }
bulk_locks-Nests (failing w) = send_local_locks-Nests w
bulk_locks-Nests succeeding =
    append-Nests (send_local_locks waited) critical (send_local_locks-Nests waited) critical-Nests

probes_locks-Nests : (ws : List Wait) → Nests (probes_locks ws)
unfolding probes_locks after
probes_locks-Nests [] = record { alone = refl; within = refl }
probes_locks-Nests (w ∷ ws) =
    append-Nests (unchecked_locks w) (probes_locks ws) (unchecked_locks-Nests w)
      (probes_locks-Nests ws)

pause_locks-after :
    (n : ℕ) (rest : List Op) → Keeps free rest → after mutex (pause_locks n ++ rest) ≡ some free
unfolding pause_locks after
pause_locks-after zero rest p = p
pause_locks-after (suc n) rest p = pause_locks-after n rest p

-- What follows the broadcasts of an attempt.
discover_locks-Keeps : (as' : List Attempted) → Keeps free (discover_locks as')
unfolding discover_locks after
discover_locks-Keeps [] = refl
discover_locks-Keeps (finds ws r ∷ rest) =
    after-append sync sync (probes_locks ws) (critical ++ (bulk_locks r ++ releases_sync ∷ []))
      ((probes_locks-Nests ws).within)
    ∙ after-append sync sync (bulk_locks r) (releases_sync ∷ []) ((bulk_locks-Nests r).within)
discover_locks-Keeps (misses ws n ∷ rest) =
    after-append sync sync (probes_locks ws)
      (critical ++ releases_sync ∷ acquires_mutex ∷ (pause_locks n ++ discover_locks rest))
      ((probes_locks-Nests ws).within)
    ∙ pause_locks-after n (discover_locks rest) (discover_locks-Keeps rest)

sync_time_locks-Keeps : (s : Synced) → Keeps free (sync_time_locks s)
unfolding after
sync_time_locks-Keeps (fails w) =
    after-append sync sync (send_local_locks w) (critical ++ releases_sync ∷ [])
      ((send_local_locks-Nests w).within)
sync_time_locks-Keeps (succeeds r) =
    after-append sync sync (send_local_locks waited)
      (critical ++ (bulk_locks r ++ releases_sync ∷ [])) ((send_local_locks-Nests waited).within)
    ∙ after-append sync sync (bulk_locks r) (releases_sync ∷ []) ((bulk_locks-Nests r).within)

resubscribe_all_locks-Keeps : (r : Request) → Keeps free (resubscribe_all_locks r)
resubscribe_all_locks-Keeps nothing = critical-Nests.alone
resubscribe_all_locks-Keeps (failing w) =
    append-Keeps free critical (send_local_locks w) (critical-Nests.alone)
      ((send_local_locks-Nests w).alone)
resubscribe_all_locks-Keeps succeeding =
    append-Keeps free critical (send_local_locks waited) (critical-Nests.alone)
      ((send_local_locks-Nests waited).alone)

call_locks-Keeps : (c : Call) → Keeps free (call_locks c)
unfolding call_locks
call_locks-Keeps (bulk r) = (bulk_locks-Nests r).alone
call_locks-Keeps (unsubscribes_all r) =
    append-Keeps free critical (bulk_locks r) (critical-Nests.alone) ((bulk_locks-Nests r).alone)
call_locks-Keeps (resubscribes_all r) = resubscribe_all_locks-Keeps r
call_locks-Keeps (discovers as') = discover_locks-Keeps as'
call_locks-Keeps (syncs s) = sync_time_locks-Keeps s
call_locks-Keeps retains = critical-Nests.alone

calls_locks-Keeps : (cs : List Call) → Keeps free (calls_locks cs)
unfolding calls_locks after
calls_locks-Keeps [] = refl
calls_locks-Keeps (c ∷ cs) =
    append-Keeps free (call_locks c) (calls_locks cs) (call_locks-Keeps c) (calls_locks-Keeps cs)

data_locks-Keeps : (css : List (List Call)) → Keeps free (data_locks css)
unfolding data_locks after
data_locks-Keeps [] = refl
data_locks-Keeps (cs ∷ rest) =
    append-Keeps free (calls_locks cs) (data_locks rest) (calls_locks-Keeps cs)
      (data_locks-Keeps rest)

watch_locks-Keeps : (ds : List (List Attempted)) → Keeps free (watch_locks ds)
unfolding watch_locks after
watch_locks-Keeps [] = refl
watch_locks-Keeps (as' ∷ rest) =
    append-Keeps free (discover_locks as') (watch_locks rest) (discover_locks-Keeps as')
      (watch_locks-Keeps rest)

-- An operation takes the mutexes in one order, never one that it holds, and gives them back.
pub locks_of-Keeps : (o : Operation) → Keeps free (locks_of o)
unfolding locks_of after
locks_of-Keeps (calls cs) = calls_locks-Keeps cs
locks_of-Keeps (sub_db_ticks r) = resubscribe_all_locks-Keeps r
locks_of-Keeps receives_resp = refl
locks_of-Keeps refuses_data = refl
locks_of-Keeps (receives_data css) = data_locks-Keeps css
locks_of-Keeps (watches ds) = watch_locks-Keeps ds
locks_of-Keeps watches_not = refl
locks_of-Keeps destroys = refl
