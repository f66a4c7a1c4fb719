-- ===== src/Message/Hex.antt =====
-- The text of an address tells addresses apart.
use kvik.Base.{ℕ, ◌/◌, ◌%◌, ◌<◌, ◌≡◌, refl, [], ◌∷◌, All, arith}
use kvik.Message.{LocalAddr, addr_to_string, hex_digit}

hex_digit-injective : (a b : ℕ) → a < 16 → b < 16 → hex_digit a ≡ hex_digit b → a ≡ b
unfolding hex_digit
hex_digit-injective a b h k e = ground arith

-- Addresses of bytes with the same text are the same.
pub addr_to_string-injective :
    (a b : LocalAddr)
    → All (λ x. x < 256) a
    → All (λ x. x < 256) b
    → addr_to_string a ≡ addr_to_string b
    → a ≡ b
unfolding addr_to_string
addr_to_string-injective [] [] h k e = refl
addr_to_string-injective [] (y ∷ b) h k e = cc
addr_to_string-injective (x ∷ a) [] h k e = cc
addr_to_string-injective (x ∷ a) (y ∷ b) h k e =
    let high : hex_digit (x / 16) ≡ hex_digit (y / 16) = ground arith in
    let low : hex_digit (x % 16) ≡ hex_digit (y % 16) = ground arith in
    let rest : addr_to_string a ≡ addr_to_string b = ground arith in
    let p = hex_digit-injective (x / 16) (y / 16) (omega arith) (omega arith) high in
    let q = hex_digit-injective (x % 16) (y % 16) (omega arith) (omega arith) low in
    let same : x ≡ y = omega arith in let tails = addr_to_string-injective a b h.1 k.1 rest in cc
