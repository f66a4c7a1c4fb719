-- ===== src/Node/Window.antt =====
-- Which timestamps a node accepts (`validateMsgTimestamp` of src/common/node.cpp).
use kvik.Base.{
  ℕ, ◌+◌, ◌-◌, ◌%◌, ◌<◌, ◌≤◌, ◌≡◌, ◌↔◌, true, false, ◌&&◌, List, Str, arith, Bool-cases, inl, inr,
  false,
}
use kvik.Node.{in_window}
use kvik.MsgIdCache.{LocalMsgIdCache, Call, tick_count, insert, run}
use kvik.MsgIdCache.Slots.{Distinct}
use kvik.MsgIdCache.Lifetime.{insert_lifetime}

-- With a positive `max_age` a timestamp is accepted exactly when it lies at most `max_age - 1`
-- units behind the counter, both as numbers that do not wrap.
pub in_window_iff :
    (max_age units ts : ℕ)
    → 0 < max_age
    → (in_window max_age units ts ≡ true) ↔ ((ts ≤ units) × (units < ts + max_age))
unfolding in_window
in_window_iff max_age units ts h = ground arith

-- When the 16-bit counter has wrapped fewer than `age` units ago, a message stamped `age` units ago
-- is refused, though `age` is less than `max_age` and so within the accepted drift.
pub in_window-wrapped :
    (max_age now age : ℕ)
    → 0 < max_age
    → now % 65536 < age
    → age < max_age
    → age ≤ now
    → max_age < 256
    → in_window max_age (now % 65536) ((now - age) % 65536) ≡ false
in_window-wrapped max_age now age h wrapped young old small =
    elim (Bool-cases (in_window max_age (now % 65536) ((now - age) % 65536))) [
      | inl e ↦
          let both = (in_window_iff max_age (now % 65536) ((now - age) % 65536) h).0 e in
          absurd (omega arith)
      | inr e ↦ e
    ]

-- Replay protection, for a cache whose addresses differ and a `max_age` of 8 bits that is positive.
-- A message whose ID and timestamp were accepted is not accepted again: while the cache has seen at
-- most one tick more than the units that the clock has advanced by, either its ID is still known or
-- its timestamp is too old. The clock may advance until the 16-bit counter comes round to the
-- timestamp.
pub replay_refused :
    (c : LocalMsgIdCache) (addr : Str) (id ts now later : ℕ) (calls : List Call)
    → Distinct c.cache
    → 0 < c.max_age
    → c.max_age < 256
    → (insert c addr id).1 ≡ true
    → in_window c.max_age (now % 65536) ts ≡ true
    → now ≤ later
    → later + c.max_age < now + 65537
    → tick_count calls ≤ (later - now) + 1
    → ((insert (run calls (insert c addr id).0) addr id).1
        && in_window c.max_age (later % 65536) ts)
      ≡ false
replay_refused c addr id ts now later calls d h b fresh valid order near few =
    elim (Bool-cases (in_window c.max_age (later % 65536) ts)) [
      | inl again ↦
          let first = (in_window_iff c.max_age (now % 65536) ts h).0 valid in
          let second = (in_window_iff c.max_age (later % 65536) ts h).0 again in
          rw (((insert_lifetime c addr id calls d b fresh).0 (omega arith)))
      | inr gone ↦ ground arith
    ]
