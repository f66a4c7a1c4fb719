-- ===== src/Peer/Hash.antt =====
-- Equality and the hash of peers and addresses (include/kvik/local_peer.hpp,
-- include/kvik/local_addr.hpp), with which an unordered_set of peers works.
use kvik.Base.{ℕ, ◌≡◌, subst, ◌↔◌, ◌+◌, ◌%◌, Bool, true, Str, str_eq, str_eq_iff, arith}
use kvik.Message.{LocalAddr}
use kvik.Peer.{LocalPeer}

-- `operator==`
unfoldable pub addr_eq : LocalAddr → LocalAddr → Bool
addr_eq a b = str_eq a b

unfoldable pub peer_eq : LocalPeer → LocalPeer → Bool
unfolding addr_eq
peer_eq p q = addr_eq p.addr q.addr

-- The hashes of the standard library are arguments; a size_t has 64 bits.
module _ (hash_string : Str → ℕ) (hash_u16 : ℕ → ℕ) where
  abbrev pub hash_addr : LocalAddr → ℕ
  hash_addr a = hash_string a

  unfoldable pub hash_peer : LocalPeer → ℕ
  hash_peer p = (hash_addr p.addr + hash_u16 p.channel) % 18446744073709551616

  cancel :
      (a b c : ℕ)
      → (((a + b) % 18446744073709551616) ≡ ((a + c) % 18446744073709551616))
        ↔ (b % 18446744073709551616 ≡ c % 18446744073709551616)
  cancel a b c = (λ h. omega (arith, h), λ h. omega (arith, h))

  -- Two peers that `operator==` calls the same, since it looks at the addresses only, have the same
  -- hash exactly if their channels do, although an unordered_set takes equal hashes of them for
  -- granted.
  pub hash_peer_iff :
      (p q : LocalPeer)
      → peer_eq p q ≡ true
      → (hash_peer p ≡ hash_peer q)
        ↔ (hash_u16 p.channel % 18446744073709551616 ≡ hash_u16 q.channel % 18446744073709551616)
  unfolding hash_peer peer_eq addr_eq
  hash_peer_iff p q h =
      let same : p.addr ≡ q.addr = (str_eq_iff p.addr q.addr).0 h in
      subst
        (λ a.
          (hash_peer p ≡ (hash_addr a + hash_u16 q.channel) % 18446744073709551616)
          ↔ (hash_u16 p.channel % 18446744073709551616 ≡ hash_u16 q.channel % 18446744073709551616))
        same (cancel (hash_addr p.addr) (hash_u16 p.channel) (hash_u16 q.channel))
