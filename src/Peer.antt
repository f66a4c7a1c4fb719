-- ===== src/Peer.antt =====
-- include/kvik/local_peer.hpp and src/common/local_peer.cpp: peers, and their form without dynamic
-- memory that survives deep sleep.
pub mod Hash
use kvik.Base.{
  ℕ, zero, suc, ◌-◌, ◌≤◌, ◌≡◌, refl, ap, ◌∙◌, sym, List, [], ◌∷◌, ◌++◌, Str, min, length, take,
  replicate, arith, length-append, dec_le, codes, if◌then◌else◌, ◌==◌,
}
use kvik.Int.{ℤ, pos, eqb_ℤ, to_string}
use kvik.Message.{LocalAddr, addr_to_string, pref_unknown, rssi_unknown}

pub record RetainedLocalPeer : Type 0 where
  pub addr : List ℕ
  pub addr_len : ℕ
  pub channel : ℕ

pub record LocalPeer : Type 0 where
  pub addr : LocalAddr
  pub channel : ℕ
  pub pref : ℤ
  pub rssi : ℤ
  pub ts_diff : ℤ

-- `LocalPeer{}`
abbrev pub no_peer : LocalPeer
no_peer = record {
  addr = [];
  channel = 0;
  pref = pref_unknown;
  rssi = rssi_unknown;
  ts_diff = pos 0;
}

-- `LocalPeer::toString`
unfoldable pub peer_to_string : LocalPeer → Str
peer_to_string p =
    addr_to_string p.addr
    ++ ((if p.channel == 0
          then []
          else codes " (channel " ++ (to_string (pos p.channel) ++ codes ")"))
        ++ (if eqb_ℤ p.pref (pos 0)
            then []
            else codes " (pref " ++ (to_string p.pref ++ codes ")")))

-- At most 32 bytes of the address are copied; the rest of the array stays zero.
unfoldable pub retain : LocalPeer → RetainedLocalPeer
retain p =
    let n = min (length p.addr) 32 in
    record { addr = take n p.addr ++ replicate (32 - n) 0; addr_len = n; channel = p.channel }

unfoldable pub unretain : RetainedLocalPeer → LocalPeer
unretain r = record no_peer { addr = take r.addr_len r.addr; channel = r.channel }

length-replicate : (n x : ℕ) → length (replicate n x) ≡ n
length-replicate zero x = refl
length-replicate (suc n) x = ap suc (length-replicate n x)

length-take : (n : ℕ) (xs : Str) → n ≤ length xs → length (take n xs) ≡ n
length-take zero xs h = refl
length-take (suc n) [] h = absurd (omega arith)
length-take (suc n) (x ∷ xs) h = ap suc (length-take n xs (omega arith))

take-take-append : (n : ℕ) (xs ys : Str) → n ≤ length xs → take n (take n xs ++ ys) ≡ take n xs
take-take-append zero xs ys h = refl
take-take-append (suc n) [] ys h = absurd (omega arith)
take-take-append (suc n) (x ∷ xs) ys h = ap (◌∷◌ x) (take-take-append n xs ys (omega arith))

take_all : (n : ℕ) (xs : Str) → length xs ≤ n → take n xs ≡ xs
take_all zero [] h = refl
take_all zero (x ∷ xs) h = absurd (omega arith)
take_all (suc n) [] h = refl
take_all (suc n) (x ∷ xs) h = ap (◌∷◌ x) (take_all n xs (omega arith))

take-min : (n : ℕ) (xs : Str) → take (min (length xs) n) xs ≡ take n xs
take-min n xs = go (dec_le (length xs) n)
  where
    go : Dec (length xs ≤ n) → take (min (length xs) n) xs ≡ take n xs
    go (yes h) =
        let e : min (length xs) n ≡ length xs = omega arith in
        rw e (take_all (length xs) xs (omega arith) ∙ sym (take_all n xs h))
    go (no h) = let e : min (length xs) n ≡ n = omega arith in rw e

-- The retained form has room for 32 bytes and says how many of them count. Restored, it gives back
-- the channel and the first 32 bytes of the address, which is the address itself where it is not
-- longer; the preference, the RSSI and the clock difference are forgotten.
pub unretain-retain :
    (p : LocalPeer)
    → (length (retain p).addr ≡ 32)
      × ((retain p).addr_len ≤ 32)
      × (unretain (retain p) ≡ record no_peer { addr = take 32 p.addr; channel = p.channel })
      × (length p.addr ≤ 32 → (unretain (retain p)).addr ≡ p.addr)
unfolding retain unretain
unretain-retain p =
    let n = min (length p.addr) 32 in
    let back : take n (take n p.addr ++ replicate (32 - n) 0) ≡ take 32 p.addr =
      take-take-append n p.addr (replicate (32 - n) 0) (omega arith) ∙ take-min 32 p.addr in
    (
      omega (
        arith,
        length-append (take n p.addr) (replicate (32 - n) 0),
        length-take n p.addr (omega arith),
        length-replicate (32 - n) 0,
      ),
      omega arith,
      ap (λ a. record no_peer { addr = a; channel = p.channel }) back,
      λ h. back ∙ take_all 32 p.addr h,
    )
