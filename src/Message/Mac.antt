-- ===== src/Message/Mac.antt =====
-- MAC addresses (src/common/local_addr_mac.cpp). Memory is a function from positions to bytes; the
-- position of a pointer is 0.
use kvik.Base.{
  ℕ, zero, suc, ◌+◌, ◌<◌, ◌≡◌, refl, ◌∙◌, [], ◌∷◌, Option, none, some, if◌then◌else◌, ◌==◌, ltb,
  leb, ◌&&◌, length, arith,
}
use kvik.Message.{LocalAddr}

abbrev pub Memory : Type 0
Memory = ℕ → ℕ

-- The bytes from position `i` on, as many as asked for.
unfoldable pub bytes_from : Memory → ℕ → ℕ → LocalAddr
bytes_from mac zero i = []
bytes_from mac (suc n) i = mac i ∷ bytes_from mac n (i + 1)

-- The constructor. `none` is a null pointer.
unfoldable pub local_addr_mac : Option Memory → LocalAddr
unfolding bytes_from
local_addr_mac none = bytes_from (λ i. 0) 6 0
local_addr_mac (some mac) = bytes_from mac 6 0

abbrev pub zeroes : LocalAddr
zeroes = local_addr_mac none

abbrev pub broadcast : LocalAddr
broadcast = local_addr_mac (some (λ i. 0xff))

abbrev pub write : Memory → ℕ → ℕ → Memory
write mac i x j = if j == i then x else mac j

-- The loop of `toBytes` from position `i` on.
unfoldable pub put_bytes : LocalAddr → ℕ → Memory → Memory
put_bytes [] i mac = mac
put_bytes (b ∷ bs) i mac = put_bytes bs (i + 1) (write mac i b)

unfoldable pub to_bytes : LocalAddr → Memory → Memory
unfolding put_bytes
to_bytes addr mac = put_bytes addr 0 mac

put_bytes-below : (a : LocalAddr) (i j : ℕ) (mac : Memory) → j < i → put_bytes a i mac j ≡ mac j
unfolding put_bytes
put_bytes-below [] i j mac h = refl
put_bytes-below (b ∷ bs) i j mac h =
    put_bytes-below bs (i + 1) j (write mac i b) (omega arith) ∙ ground arith

put_bytes-bytes_from :
    (n i j : ℕ) (f mac : Memory)
    → put_bytes (bytes_from f n i) i mac j ≡ (if leb i j && ltb j (i + n) then f j else mac j)
unfolding put_bytes bytes_from
put_bytes-bytes_from zero i j f mac = ground arith
put_bytes-bytes_from (suc n) i j f mac =
    put_bytes-bytes_from n (i + 1) j f (write mac i (f i)) ∙ ground arith

-- The bytes of an address come back where they were, and no other position is written.
pub to_bytes-local_addr_mac :
    (mac buf : Memory) (j : ℕ)
    → to_bytes (local_addr_mac (some mac)) buf j ≡ (if ltb j 6 then mac j else buf j)
unfolding to_bytes local_addr_mac
to_bytes-local_addr_mac mac buf j = put_bytes-bytes_from 6 0 j mac buf ∙ ground arith

-- An address has six bytes, whatever the pointer.
pub length-local_addr_mac : (p : Option Memory) → length (local_addr_mac p) ≡ 6
unfolding local_addr_mac bytes_from
length-local_addr_mac none = refl
length-local_addr_mac (some mac) = refl
