-- ===== src/MsgIdCache/Slots.antt =====
-- The two maps of the cache of src/common/local_msg_id_cache.cpp.
use kvik.Base.{
  ℕ, ◌≡◌, refl, Bool, true, false, [], ◌∷◌, ite, if_pos, if_neg, Str, str_dec, arith, Bool-cases,
  inl, inr,
}
use kvik.MsgIdCache.{AddrTsCache, Cache, slots_of, put_slots, expire, no_slots, sweep}

-- The addresses differ.
abbrev pub has_addr : Str → Cache → Bool
has_addr addr [] = false
has_addr addr ((a, slots) ∷ cache) = ite (str_dec a addr) true (has_addr addr cache)

abbrev pub Distinct : Cache → Type 0
Distinct [] = Unit {0}
Distinct ((a, slots) ∷ cache) = (has_addr a cache ≡ false) × Distinct cache

has_addr-put_slots :
    (addr b : Str) (new : AddrTsCache) (cache : Cache)
    → has_addr b (put_slots addr new cache) ≡ ite (str_dec addr b) true (has_addr b cache)
unfolding put_slots
has_addr-put_slots addr b new [] = refl
has_addr-put_slots addr b new ((a, slots) ∷ cache) =
    ground (arith, has_addr-put_slots addr b new cache)

pub put_slots-Distinct :
    (addr : Str) (new : AddrTsCache) (cache : Cache)
    → Distinct cache
    → Distinct (put_slots addr new cache)
unfolding put_slots
put_slots-Distinct addr new [] d = (refl, tt)
put_slots-Distinct addr new ((a, slots) ∷ cache) (u, d) = elim (str_dec a addr) [
  | yes e ↦ rw (if_pos _ e) (u, d)
  | no e ↦
      rw (if_neg _ e)
        (ground (arith, has_addr-put_slots addr a new cache), put_slots-Distinct addr new cache d)
]

pub slots_of-put_slots :
    (addr b : Str) (new : AddrTsCache) (cache : Cache)
    → slots_of b (put_slots addr new cache) ≡ ite (str_dec addr b) new (slots_of b cache)
unfolding put_slots slots_of
slots_of-put_slots addr b new [] = refl
slots_of-put_slots addr b new ((a, slots) ∷ cache) =
    ground (arith, slots_of-put_slots addr b new cache)

has_addr-sweep :
    (now : ℕ) (b : Str) (cache : Cache)
    → has_addr b cache ≡ false
    → has_addr b (sweep now cache) ≡ false
unfolding sweep
has_addr-sweep now b [] h = refl
has_addr-sweep now b ((a, slots) ∷ cache) h = ground (arith, has_addr-sweep now b cache)

pub sweep-Distinct : (now : ℕ) (cache : Cache) → Distinct cache → Distinct (sweep now cache)
unfolding sweep
sweep-Distinct now [] d = tt
sweep-Distinct now ((a, slots) ∷ cache) (u, d) = elim (Bool-cases (no_slots (expire now slots))) [
  | inl e ↦ rw e (sweep-Distinct now cache d)
  | inr e ↦ rw e (has_addr-sweep now a cache u, sweep-Distinct now cache d)
]

slots_of-absent : (b : Str) (cache : Cache) → has_addr b cache ≡ false → slots_of b cache ≡ []
unfolding slots_of
slots_of-absent b [] h = refl
slots_of-absent b ((a, slots) ∷ cache) h = ground (arith, slots_of-absent b cache)

no_slots-nil : (slots : AddrTsCache) → no_slots slots ≡ true → slots ≡ []
no_slots-nil [] h = refl
no_slots-nil (x ∷ xs) h = cc

pub slots_of-sweep :
    (now : ℕ) (b : Str) (cache : Cache)
    → Distinct cache
    → slots_of b (sweep now cache) ≡ expire now (slots_of b cache)
unfolding slots_of sweep
slots_of-sweep now b [] d = refl
slots_of-sweep now b ((a, slots) ∷ cache) (u, d) = ground (
  arith,
  slots_of-sweep now b cache d,
  slots_of-absent b (sweep now cache),
  has_addr-sweep now b cache,
  no_slots-nil (expire now slots),
)
