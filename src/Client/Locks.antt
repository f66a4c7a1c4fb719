-- ===== src/Client/Locks.antt =====
-- The two mutexes of a client, `m_mutex` and `m_dscvSyncMutex`: what each operation of
-- src/common/client.cpp locks and unlocks, in order, and threads that run operations at once. The
-- waits for a notification, for a response and for a thread to end are over at once here; the mutex
-- of a timer, which is held for an assignment only, is left out.
pub mod Balanced
pub mod Exclusive
pub mod Progress
use kvik.Base.{
  ℕ, zero, suc, ◌+◌, Bool, true, false, not, ◌&&◌, ◌||◌, List, [], ◌∷◌, ◌++◌, Option, none, some,
  if◌then◌else◌, map,
}

-- `acquires_both` is a std::scoped_lock of the two mutexes, which takes them without a deadlock.
pub data Op : Type 0 where
  acquires_mutex releases_mutex acquires_sync releases_sync acquires_both releases_both : Op

-- A critical section.
abbrev pub critical : List Op
critical = acquires_mutex ∷ releases_mutex ∷ []

-- How an exchange goes: it ends before the wait (no gateway, or the layer refuses), or after it.
pub data Wait : Type 0 where
  early waited : Wait

abbrev pub unchecked_locks : Wait → List Op
unchecked_locks early = critical
unchecked_locks waited = critical ++ critical

-- Both ends of `sendLocal` lock once.
abbrev pub send_local_locks : Wait → List Op
send_local_locks w = unchecked_locks w ++ critical

-- How a request goes: there is nothing to send, it fails, or it succeeds.
pub data Request : Type 0 where
  nothing : Request
  failing : Wait → Request
  succeeding : Request

abbrev pub bulk_locks : Request → List Op
bulk_locks nothing = []
bulk_locks (failing w) = send_local_locks w
bulk_locks succeeding = send_local_locks waited ++ critical

abbrev pub unsubscribe_all_locks : Request → List Op
unsubscribe_all_locks r = critical ++ bulk_locks r

-- `resubscribeAll` and `subDBTick` change nothing after a success.
abbrev pub resubscribe_all_locks : Request → List Op
resubscribe_all_locks nothing = critical
resubscribe_all_locks (failing w) = critical ++ send_local_locks w
resubscribe_all_locks succeeding = critical ++ send_local_locks waited

-- The broadcasts of an attempt, one for each channel that could be set.
unfoldable pub probes_locks : List Wait → List Op
probes_locks [] = []
probes_locks (w ∷ ws) = unchecked_locks w ++ probes_locks ws

-- An attempt finds a gateway and reports, or not; then it pauses, and the wait of the pause ends so
-- many times before it is over.
pub data Attempted : Type 0 where
  finds : List Wait → Request → Attempted
  misses : List Wait → ℕ → Attempted

unfoldable pub pause_locks : ℕ → List Op
pause_locks zero = releases_mutex ∷ []
pause_locks (suc n) = releases_mutex ∷ acquires_mutex ∷ pause_locks n

-- The attempts of `discoverGateway`, which ends with the first that finds a gateway.
unfoldable pub discover_locks : List Attempted → List Op
unfolding probes_locks pause_locks
discover_locks [] = []
discover_locks (finds ws r ∷ rest) =
    acquires_sync ∷ (probes_locks ws ++ (critical ++ (bulk_locks r ++ releases_sync ∷ [])))
discover_locks (misses ws n ∷ rest) =
    acquires_sync
    ∷ (probes_locks ws
        ++ (critical ++ releases_sync ∷ acquires_mutex ∷ (pause_locks n ++ discover_locks rest)))

-- How a time synchronisation goes: it fails, or succeeds and reports.
pub data Synced : Type 0 where
  fails : Wait → Synced
  succeeds : Request → Synced

abbrev pub sync_time_locks : Synced → List Op
sync_time_locks (fails w) = acquires_sync ∷ (send_local_locks w ++ (critical ++ releases_sync ∷ []))
sync_time_locks (succeeds r) =
    acquires_sync ∷ (send_local_locks waited ++ (critical ++ (bulk_locks r ++ releases_sync ∷ [])))

-- The calls of the user, also from a callback.
pub data Call : Type 0 where
  bulk unsubscribes_all resubscribes_all : Request → Call
  discovers : List Attempted → Call
  syncs : Synced → Call
  retains : Call

unfoldable pub call_locks : Call → List Op
unfolding discover_locks
call_locks (bulk r) = bulk_locks r
call_locks (unsubscribes_all r) = unsubscribe_all_locks r
call_locks (resubscribes_all r) = resubscribe_all_locks r
call_locks (discovers as') = discover_locks as'
call_locks (syncs s) = sync_time_locks s
call_locks retains = critical

unfoldable pub calls_locks : List Call → List Op
unfolding call_locks
calls_locks [] = []
calls_locks (c ∷ cs) = call_locks c ++ calls_locks cs

-- For each datum: the search, and what the callbacks call.
unfoldable pub data_locks : List (List Call) → List Op
unfolding calls_locks
data_locks [] = []
data_locks (cs ∷ rest) = critical ++ (calls_locks cs ++ data_locks rest)

-- What a thread does: calls of the user (the constructor is a `syncs`, a `discovers`, or both), the
-- ticks of the timers (`syncTime` is a call), a message that the layer gives to the client (a
-- response, or data that is refused or accepted), the watchdog, also where it finds the client
-- destroyed at once, and the destructor without its wait for the watchdog. The watchdog's wait ends
-- so many times, each time with a discovery but the last one.
pub data Operation : Type 0 where
  calls : List Call → Operation
  sub_db_ticks : Request → Operation
  receives_resp refuses_data : Operation
  receives_data : List (List Call) → Operation
  watches : List (List Attempted) → Operation
  watches_not destroys : Operation

unfoldable pub watch_locks : List (List Attempted) → List Op
unfolding discover_locks
watch_locks [] = acquires_mutex ∷ releases_mutex ∷ acquires_mutex ∷ releases_mutex ∷ []
watch_locks (as' ∷ rest) =
    acquires_mutex
    ∷ releases_mutex
    ∷ acquires_mutex
    ∷ releases_mutex
    ∷ (discover_locks as' ++ watch_locks rest)

unfoldable pub locks_of : Operation → List Op
unfolding calls_locks data_locks watch_locks
locks_of (calls cs) = calls_locks cs
locks_of (sub_db_ticks r) = resubscribe_all_locks r
locks_of receives_resp = critical
locks_of refuses_data = critical
locks_of (receives_data cs) = critical ++ (unchecked_locks early ++ data_locks cs)
locks_of (watches ds) = critical ++ watch_locks ds
locks_of watches_not = critical
locks_of destroys = critical ++ acquires_both ∷ releases_both ∷ []

-- What a thread holds.
pub data Held : Type 0 where
  free mutex sync both : Held

-- `none` where the thread locks a mutex that it holds, takes them in the other order, or unlocks
-- one that it does not hold.
abbrev pub exec : Op → Held → Option Held
exec acquires_mutex free = some mutex
exec acquires_mutex sync = some both
exec releases_mutex mutex = some free
exec releases_mutex both = some sync
exec acquires_sync free = some sync
exec releases_sync sync = some free
exec acquires_both free = some both
exec releases_both both = some free
exec _ _ = none

abbrev pub has_mutex : Held → Bool
has_mutex mutex = true
has_mutex both = true
has_mutex _ = false

abbrev pub has_sync : Held → Bool
has_sync sync = true
has_sync both = true
has_sync _ = false

-- Whether the mutexes that the step takes are free.
abbrev pub enabled : Op → Bool → Bool → Bool
enabled acquires_mutex mutex_taken sync_taken = not mutex_taken
enabled acquires_sync mutex_taken sync_taken = not sync_taken
enabled acquires_both mutex_taken sync_taken = not mutex_taken && not sync_taken
enabled _ mutex_taken sync_taken = true

pub record Thread : Type 0 where
  pub held : Held
  pub rest : List Op

abbrev pub move : Bool → Bool → Thread → Option Thread
move m s t = elim t.rest [
  | [] ↦ none
  | op ∷ ops ↦
      if enabled op m s
      then elim (exec op t.held) [ none ↦ none | some h ↦ some (record { held = h; rest = ops }) ]
      else none
]

-- Whether some thread holds the mutex.
unfoldable pub taken : (Held → Bool) → List Thread → Bool
taken has [] = false
taken has (t ∷ ts) = has t.held || taken has ts

unfoldable pub move_at : ℕ → Bool → Bool → List Thread → Option (List Thread)
move_at i m s [] = none
move_at zero m s (t ∷ ts) = elim (move m s t) [ none ↦ none | some u ↦ some (u ∷ ts) ]
move_at (suc i) m s (t ∷ ts) = elim (move_at i m s ts) [ none ↦ none | some us ↦ some (t ∷ us) ]

-- The thread at position `i` makes its next step, where it can.
unfoldable pub next : ℕ → List Thread → Option (List Thread)
unfolding move_at taken
next i ts = move_at i (taken has_mutex ts) (taken has_sync ts) ts

unfoldable pub run : List ℕ → List Thread → Option (List Thread)
unfolding next
run [] ts = some ts
run (i ∷ is) ts = elim (next i ts) [ none ↦ none | some us ↦ run is us ]

abbrev pub threads : List Operation → List Thread
threads ops = map (λ o. record { held = free; rest = locks_of o }) ops
