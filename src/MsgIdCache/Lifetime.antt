-- ===== src/MsgIdCache/Lifetime.antt =====
-- How long the cache of src/common/local_msg_id_cache.cpp remembers a message ID.
use kvik.Base.{
  ℕ, suc, ◌+◌, ◌-◌, ◌%◌, ◌<◌, ◌≤◌, ◌≡◌, refl, ◌≢◌, Bool, true, false, not, ◌||◌, ◌&&◌, List, [],
  ◌∷◌, if_pos, if_neg, Str, str_dec, ◌==◌, arith, Bool-cases, inl, inr, ◌⊎◌, sym, ◌∙◌, subst,
}
use kvik.MsgIdCache.{
  LocalMsgIdCache, AddrTsCache, Cache, Call, inserts, ticks, tick_count, has_id, seen, add_id,
  slots_of, put_slots, expire, insert, tick, run,
}
use mathlib.Core.Bool.{false≢true}
use native.Mathlib.Nat.{add-zero}
use kvik.MsgIdCache.Slots.{
  Distinct, put_slots-Distinct, slots_of-put_slots, sweep-Distinct, slots_of-sweep,
}

-- The ID stands in the set that expires at `e`, and in no set that expires at another tick.
abbrev slot_has : ℕ → ℕ → AddrTsCache → Bool
slot_has e id [] = false
slot_has e id ((x, ids) ∷ slots) = (x == e && has_id id ids) || slot_has e id slots

abbrev only_at : ℕ → ℕ → AddrTsCache → Bool
only_at e id [] = true
only_at e id ((x, ids) ∷ slots) = (x == e || not (has_id id ids)) && only_at e id slots

slot_has-seen : (e id : ℕ) (s : AddrTsCache) → slot_has e id s ≡ true → seen id s ≡ true
unfolding seen
slot_has-seen e id [] h = cc
slot_has-seen e id ((x, ids) ∷ s) h = ground (arith, slot_has-seen e id s)

slot_has-add_id :
    (e id x j : ℕ) (s : AddrTsCache) → slot_has e id s ≡ true → slot_has e id (add_id x j s) ≡ true
unfolding add_id has_id
slot_has-add_id e id x j [] h = cc
slot_has-add_id e id x j ((y, ids) ∷ s) h = ground (arith, slot_has-add_id e id x j s)

only_at-add_id :
    (e id x j : ℕ) (s : AddrTsCache)
    → only_at e id s ≡ true
    → j ≢ id
    → only_at e id (add_id x j s) ≡ true
unfolding add_id has_id
only_at-add_id e id x j [] h n = ground arith
only_at-add_id e id x j ((y, ids) ∷ s) h n = ground (arith, only_at-add_id e id x j s)

slot_has-add_id_self : (e id : ℕ) (s : AddrTsCache) → slot_has e id (add_id e id s) ≡ true
unfolding add_id has_id
slot_has-add_id_self e id [] = ground arith
slot_has-add_id_self e id ((y, ids) ∷ s) = ground (arith, slot_has-add_id_self e id s)

only_at-unseen : (e id : ℕ) (s : AddrTsCache) → seen id s ≡ false → only_at e id s ≡ true
unfolding seen
only_at-unseen e id [] h = refl
only_at-unseen e id ((y, ids) ∷ s) h = ground (arith, only_at-unseen e id s)

only_at-add_id_self :
    (e id : ℕ) (s : AddrTsCache) → seen id s ≡ false → only_at e id (add_id e id s) ≡ true
unfolding add_id has_id seen
only_at-add_id_self e id [] h = ground arith
only_at-add_id_self e id ((y, ids) ∷ s) h =
    ground (arith, only_at-add_id_self e id s, only_at-unseen e id s)

slot_has-expire :
    (now e id : ℕ) (s : AddrTsCache)
    → slot_has e id s ≡ true
    → now ≢ e
    → slot_has e id (expire now s) ≡ true
unfolding expire
slot_has-expire now e id [] h n = cc
slot_has-expire now e id ((y, ids) ∷ s) h n = ground (arith, slot_has-expire now e id s)

only_at-expire :
    (now e id : ℕ) (s : AddrTsCache) → only_at e id s ≡ true → only_at e id (expire now s) ≡ true
unfolding expire
only_at-expire now e id [] h = refl
only_at-expire now e id ((y, ids) ∷ s) h = ground (arith, only_at-expire now e id s)

only_at-expired :
    (e id : ℕ) (s : AddrTsCache) → only_at e id s ≡ true → seen id (expire e s) ≡ false
unfolding expire seen
only_at-expired e id [] h = refl
only_at-expired e id ((y, ids) ∷ s) h = ground (arith, only_at-expired e id s)

-- `r` ticks are left to the entry of `addr` and `id`.
record Due (r : ℕ) (addr : Str) (id : ℕ) (c : LocalMsgIdCache) : Type 0 where
  held : slot_has ((c.tick_num + r) % 65536) id (slots_of addr c.cache) ≡ true
  once : only_at ((c.tick_num + r) % 65536) id (slots_of addr c.cache) ≡ true
  distinct : Distinct c.cache

accepted-unseen :
    (c : LocalMsgIdCache) (addr : Str) (id : ℕ)
    → (insert c addr id).1 ≡ true
    → seen id (slots_of addr c.cache) ≡ false
unfolding insert
accepted-unseen c addr id h = ground arith

insert-accepted :
    (c : LocalMsgIdCache) (addr : Str) (id : ℕ)
    → Distinct c.cache
    → (insert c addr id).1 ≡ true
    → Due (suc c.max_age) addr id (insert c addr id).0
unfolding insert
insert-accepted c addr id d h =
    let new = accepted-unseen c addr id h in
    let exp = (c.tick_num + c.max_age + 1) % 65536 in
    let slots = slots_of addr c.cache in
    let e : (c.tick_num + suc c.max_age) % 65536 ≡ exp = omega arith in
    rw new (record {
      held =
          rw (e, slots_of-put_slots addr addr (add_id exp id slots) c.cache, if_pos _ refl)
            (slot_has-add_id_self exp id slots);
      once =
          rw (e, slots_of-put_slots addr addr (add_id exp id slots) c.cache, if_pos _ refl)
            (only_at-add_id_self exp id slots new);
      distinct = put_slots-Distinct addr (add_id exp id slots) c.cache d;
    })

-- What a `put_slots` at `b` leaves of an entry of `addr`.
put_slots-keeps :
    (P : AddrTsCache → Type 0) (addr b : Str) (new : AddrTsCache) (cache : Cache)
    → P (slots_of addr cache)
    → (b ≡ addr → P new)
    → P (slots_of addr (put_slots b new cache))
put_slots-keeps P addr b new cache old there =
    rw (slots_of-put_slots b addr new cache)
      (elim (str_dec b addr) [ yes e ↦ rw (if_pos _ e) (there e) | no e ↦ rw (if_neg _ e) old ])

insert-Due :
    (r : ℕ) (addr b : Str) (id j : ℕ) (c : LocalMsgIdCache)
    → Due r addr id c
    → Due r addr id (insert c b j).0
unfolding insert
insert-Due r addr b id j c due =
    let e = (c.tick_num + r) % 65536 in
    let exp = (c.tick_num + c.max_age + 1) % 65536 in
    let slots = slots_of b c.cache in
    elim (Bool-cases (seen j slots)) [
      | inl old ↦ rw old (record {
        held =
            put_slots-keeps (λ s. slot_has e id s ≡ true) addr b slots c.cache due.held
              (λ q. subst (λ x. slot_has e id (slots_of x c.cache) ≡ true) (sym q) due.held);
        once =
            put_slots-keeps (λ s. only_at e id s ≡ true) addr b slots c.cache due.once
              (λ q. subst (λ x. only_at e id (slots_of x c.cache) ≡ true) (sym q) due.once);
        distinct = put_slots-Distinct b slots c.cache due.distinct;
      })
      | inr new ↦ rw new (record {
        held =
            put_slots-keeps (λ s. slot_has e id s ≡ true) addr b (add_id exp j slots) c.cache
              due.held
              (λ q.
                slot_has-add_id e id exp j slots
                  (subst (λ x. slot_has e id (slots_of x c.cache) ≡ true) (sym q) due.held));
        once =
            put_slots-keeps (λ s. only_at e id s ≡ true) addr b (add_id exp j slots) c.cache
              due.once
              (λ q.
                only_at-add_id e id exp j slots
                  (subst (λ x. only_at e id (slots_of x c.cache) ≡ true) (sym q) due.once)
                  (other e slots q new));
        distinct = put_slots-Distinct b (add_id exp j slots) c.cache due.distinct;
      })
    ]
  where
    other : (e : ℕ) (slots : AddrTsCache) → b ≡ addr → seen j (slots_of b c.cache) ≡ false → j ≢ id
    other e slots q new same = false≢true (
        sym new
        ∙ subst (λ x. seen j (slots_of x c.cache) ≡ true) (sym q)
            (subst (λ x. seen x (slots_of addr c.cache) ≡ true) (sym same)
              (slot_has-seen ((c.tick_num + r) % 65536) id (slots_of addr c.cache) due.held)))

tick-Due :
    (r : ℕ) (addr : Str) (id : ℕ) (c : LocalMsgIdCache)
    → 0 < r
    → r < 65535
    → Due (suc r) addr id c
    → Due r addr id (tick c)
unfolding tick
tick-Due r addr id c h b due =
    let now = (c.tick_num + 1) % 65536 in
    let e : (now + r) % 65536 ≡ (c.tick_num + suc r) % 65536 = omega arith in
    let ne : now ≢ (c.tick_num + suc r) % 65536 = omega arith in
    record {
      held =
          rw (e, slots_of-sweep now addr c.cache due.distinct)
            (slot_has-expire now _ id (slots_of addr c.cache) due.held ne);
      once =
          rw (e, slots_of-sweep now addr c.cache due.distinct)
            (only_at-expire now _ id (slots_of addr c.cache) due.once);
      distinct = sweep-Distinct now c.cache due.distinct;
    }

run-Due :
    (calls : List Call) (r : ℕ) (addr : Str) (id : ℕ) (c : LocalMsgIdCache)
    → 0 < r
    → r + tick_count calls < 65536
    → Due (r + tick_count calls) addr id c
    → Due r addr id (run calls c)
unfolding run
run-Due [] r addr id c h b due = rw add-zero at due
run-Due (inserts a j ∷ calls) r addr id c h b due =
    run-Due calls r addr id (insert c a j).0 h b
      (insert-Due (r + tick_count calls) addr a id j c due)
run-Due (ticks ∷ calls) r addr id c h b due =
    let e : r + (tick_count calls + 1) ≡ suc (r + tick_count calls) = omega arith in
    run-Due calls r addr id (tick c) h (omega arith) (
      tick-Due (r + tick_count calls) addr id c (omega arith) (omega arith)
        (subst (λ x. Due x addr id c) e due))

Due-known :
    (r : ℕ) (addr : Str) (id : ℕ) (c : LocalMsgIdCache)
    → Due r addr id c
    → (insert c addr id).1 ≡ false
unfolding insert
Due-known r addr id c due =
    ground (arith, slot_has-seen ((c.tick_num + r) % 65536) id (slots_of addr c.cache) due.held)

Due-forgotten :
    (addr : Str) (id : ℕ) (c : LocalMsgIdCache)
    → Due 1 addr id c
    → (insert (tick c) addr id).1 ≡ true
unfolding insert tick
Due-forgotten addr id c due = ground (
  arith,
  slots_of-sweep ((c.tick_num + 1) % 65536) addr c.cache due.distinct,
  only_at-expired ((c.tick_num + 1) % 65536) id (slots_of addr c.cache) due.once,
)

-- Where the addresses of the outer map differ, they still do after any calls.
pub run-Distinct :
    (calls : List Call) (c : LocalMsgIdCache) → Distinct c.cache → Distinct (run calls c).cache
unfolding run insert tick
run-Distinct [] c d = d
run-Distinct (inserts a j ∷ calls) c d =
    run-Distinct calls (insert c a j).0 (kept (Bool-cases (seen j (slots_of a c.cache))))
  where
    kept :
        (seen j (slots_of a c.cache) ≡ true) ⊎ (seen j (slots_of a c.cache) ≡ false)
        → Distinct (insert c a j).0.cache
    kept (inl old) = rw old (put_slots-Distinct a _ c.cache d)
    kept (inr new) = rw new (put_slots-Distinct a _ c.cache d)
run-Distinct (ticks ∷ calls) c d = run-Distinct calls (tick c) (sweep-Distinct _ c.cache d)

-- In a cache whose addresses differ and whose `max_age` has 8 bits, once `insert` has accepted an ID
-- from an address, it refuses the same ID from there during the next `max_age` ticks, whatever else
-- is inserted; with one tick more it accepts the ID again.
pub insert_lifetime :
    (c : LocalMsgIdCache) (addr : Str) (id : ℕ) (calls : List Call)
    → Distinct c.cache
    → c.max_age < 256
    → (insert c addr id).1 ≡ true
    → (tick_count calls ≤ c.max_age → (insert (run calls (insert c addr id).0) addr id).1 ≡ false)
      × (tick_count calls ≡ c.max_age
          → (insert (tick (run calls (insert c addr id).0)) addr id).1 ≡ true)
insert_lifetime c addr id calls d b h =
    let due = insert-accepted c addr id d h in
    (
      λ few.
          let r = suc c.max_age - tick_count calls in
          let e : suc c.max_age ≡ r + tick_count calls = omega arith in
          Due-known r addr id (run calls (insert c addr id).0) (
            run-Due calls r addr id (insert c addr id).0 (omega arith) (omega arith)
              (subst (λ x. Due x addr id (insert c addr id).0) e due)),
      λ all.
          let e : suc c.max_age ≡ 1 + tick_count calls = omega arith in
          Due-forgotten addr id (run calls (insert c addr id).0) (
            run-Due calls 1 addr id (insert c addr id).0 (omega arith) (omega arith)
              (subst (λ x. Due x addr id (insert c addr id).0) e due)),
    )
