-- ===== src/MsgIdCache.antt =====
-- src/common/local_msg_id_cache.cpp: the cache of recent message IDs, by address and by the tick
-- at which they expire. The two unordered maps are lists of their entries.
pub mod Slots
pub mod Lifetime
use kvik.Base.{
  ℕ, ◌+◌, ◌%◌, Bool, true, false, not, ◌||◌, ◌&&◌, List, [], ◌∷◌, ite, Str, str_dec, if◌then◌else◌,
  ◌==◌,
}

-- `AddrTsCache`: the sets of IDs by expiration tick.
abbrev pub AddrTsCache : Type 0
AddrTsCache = List (ℕ × List ℕ)

-- `Cache`: by address.
abbrev pub Cache : Type 0
Cache = List (Str × AddrTsCache)

pub record LocalMsgIdCache : Type 0 where
  pub max_age : ℕ
  pub cache : Cache
  pub tick_num : ℕ

-- The constructor.
abbrev pub new_cache : ℕ → LocalMsgIdCache
new_cache max_age = record { max_age = max_age; cache = []; tick_num = 0 }

-- `idSet.find(id) != idSet.end()`
unfoldable pub has_id : ℕ → List ℕ → Bool
has_id id [] = false
has_id id (i ∷ ids) = i == id || has_id id ids

-- The search in all sets of an address.
unfoldable pub seen : ℕ → AddrTsCache → Bool
unfolding has_id
seen id [] = false
seen id ((exp, ids) ∷ slots) = has_id id ids || seen id slots

-- `[expTickNum].insert(id)`
unfoldable pub add_id : ℕ → ℕ → AddrTsCache → AddrTsCache
add_id exp id [] = (exp, id ∷ []) ∷ []
add_id exp id ((e, ids) ∷ slots) =
    if e == exp then (e, id ∷ ids) ∷ slots else (e, ids) ∷ add_id exp id slots

-- `m_cache[addr]`, which is empty where the address is new.
unfoldable pub slots_of : Str → Cache → AddrTsCache
slots_of addr [] = []
slots_of addr ((a, slots) ∷ cache) = ite (str_dec a addr) slots (slots_of addr cache)

unfoldable pub put_slots : Str → AddrTsCache → Cache → Cache
put_slots addr new [] = (addr, new) ∷ []
put_slots addr new ((a, slots) ∷ cache) =
    ite (str_dec a addr) ((a, new) ∷ cache) ((a, slots) ∷ put_slots addr new cache)

-- The tick counter is a uint16_t, and so is the key of the inner map.
unfoldable pub insert : LocalMsgIdCache → Str → ℕ → LocalMsgIdCache × Bool
unfolding seen add_id slots_of put_slots
insert c addr id =
    let exp = (c.tick_num + c.max_age + 1) % 65536 in
    let slots = slots_of addr c.cache in
    if seen id slots
    then (record c { cache = put_slots addr slots c.cache }, false)
    else (record c { cache = put_slots addr (add_id exp id slots) c.cache }, true)

-- The inner loop of `tick`.
unfoldable pub expire : ℕ → AddrTsCache → AddrTsCache
expire now [] = []
expire now ((exp, ids) ∷ slots) =
    let rest = expire now slots in if now == exp then rest else (exp, ids) ∷ rest

abbrev pub no_slots : AddrTsCache → Bool
no_slots [] = true
no_slots (x ∷ xs) = false

-- The outer loop.
unfoldable pub sweep : ℕ → Cache → Cache
unfolding expire
sweep now [] = []
sweep now ((addr, slots) ∷ cache) =
    let rest = sweep now cache in
    if no_slots (expire now slots) then rest else (addr, expire now slots) ∷ rest

unfoldable pub tick : LocalMsgIdCache → LocalMsgIdCache
unfolding sweep
tick c =
    let now = (c.tick_num + 1) % 65536 in record c { tick_num = now; cache = sweep now c.cache }

-- The calls that the cache may see, and what is left after them.
pub data Call : Type 0 where
  inserts : Str → ℕ → Call
  ticks : Call

unfoldable pub run : List Call → LocalMsgIdCache → LocalMsgIdCache
run [] c = c
run (inserts addr id ∷ calls) c = run calls (insert c addr id).0
run (ticks ∷ calls) c = run calls (tick c)

-- How many ticks are among the calls.
abbrev pub tick_count : List Call → ℕ
tick_count [] = 0
tick_count (inserts addr id ∷ calls) = tick_count calls
tick_count (ticks ∷ calls) = tick_count calls + 1
