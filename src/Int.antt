-- ===== src/Int.antt =====
-- Signed numbers: the int16_t preferences and RSSI values, and the milliseconds of a clock
-- difference (std::chrono::milliseconds, whose 64 bits are not exceeded in the life of a node).
use kvik.Base.{
  ℕ, zero, suc, ◌+◌, ◌-◌, ◌*◌, ◌/◌, ◌%◌, Bool, true, false, [], ◌∷◌, Str, if◌then◌else◌, ltb, ◌==◌,
}

-- `negsuc n` is -(n + 1).
pub data ℤ : Type 0 where
  pos : ℕ → ℤ
  negsuc : ℕ → ℤ

abbrev pub neg : ℕ → ℤ
neg zero = pos 0
neg (suc n) = negsuc n

-- n + z
unfoldable pub plus : ℕ → ℤ → ℤ
plus n (pos m) = pos (n + m)
plus n (negsuc m) = if ltb m n then pos (n - suc m) else neg (suc m - n)

unfoldable pub scale : ℤ → ℕ → ℤ
scale (pos m) k = pos (m * k)
scale (negsuc m) k = neg (suc m * k)

-- Division as in C++, towards zero.
unfoldable pub quot : ℤ → ℕ → ℤ
quot (pos m) k = pos (m / k)
quot (negsuc m) k = neg (suc m / k)

-- The conversion to uint16_t.
unfoldable pub to_u16 : ℤ → ℕ
to_u16 (pos m) = m % 65536
to_u16 (negsuc m) = 65535 - m % 65536

unfoldable pub gtb_ℤ : ℤ → ℤ → Bool
gtb_ℤ (pos a) (pos b) = ltb b a
gtb_ℤ (pos a) (negsuc b) = true
gtb_ℤ (negsuc a) (pos b) = false
gtb_ℤ (negsuc a) (negsuc b) = ltb a b

unfoldable pub eqb_ℤ : ℤ → ℤ → Bool
eqb_ℤ (pos a) (pos b) = a == b
eqb_ℤ (pos a) (negsuc b) = false
eqb_ℤ (negsuc a) (pos b) = false
eqb_ℤ (negsuc a) (negsuc b) = a == b

-- std::to_string: as many rounds as digits, which the number itself bounds.
digits_of : ℕ → ℕ → Str → Str
digits_of zero n acc = acc
digits_of (suc fuel) n acc =
    let more = digits_of fuel (n / 10) ((48 + n % 10) ∷ acc) in
    if ltb n 10 then (48 + n) ∷ acc else more

unfoldable pub to_string : ℤ → Str
unfolding digits_of
to_string (pos n) = digits_of (suc n) n []
to_string (negsuc n) = 45 ∷ digits_of (suc (suc n)) (suc n) []
