-- ===== src/Client/Choice.antt =====
-- The choice of the gateway and the end of the loop that looks for one (`discoverGateway` of
-- src/common/client.cpp).
use kvik.Base.{
  ℕ, ◌≡◌, refl, ◌≤◌, ◌<◌, ◌-◌, ◌+◌, Bool, true, false, ◌||◌, List, [], ◌∷◌, Option, some, is_some,
  Bool-cases, inl, inr, if◌then◌else◌, arith, sym, ap, subst, ◌==◌, ltb, All, In, length,
}
use kvik.Int.{ℤ, pos, negsuc, gtb_ℤ}
use kvik.Message.{ErrCode, pref_unknown}
use kvik.Peer.{LocalPeer, no_peer}
use kvik.Client.State.{Client, pure}
use kvik.Client.Discovery.{best_gw, Attempt, attempt, discover_loop, discover_gateway, next_delay}
use kvik.Client.Post.{Post, some-Post, if-M-Post, >>=-Post}

gtb_trans : (a b c : ℤ) → gtb_ℤ a b ≡ false → gtb_ℤ b c ≡ false → gtb_ℤ a c ≡ false
unfolding gtb_ℤ
gtb_trans (pos a) (pos b) (pos c) h k = ground arith
gtb_trans (pos a) (pos b) (negsuc c) h k = ground arith
gtb_trans (pos a) (negsuc b) c h k = absurd (cc)
gtb_trans (negsuc a) (pos b) (pos c) h k = refl
gtb_trans (negsuc a) (pos b) (negsuc c) h k = absurd (cc)
gtb_trans (negsuc a) (negsuc b) (pos c) h k = refl
gtb_trans (negsuc a) (negsuc b) (negsuc c) h k = ground arith

gtb_asym : (a b : ℤ) → gtb_ℤ a b ≡ true → gtb_ℤ b a ≡ false
unfolding gtb_ℤ
gtb_asym (pos a) (pos b) h = ground arith
gtb_asym (pos a) (negsuc b) h = refl
gtb_asym (negsuc a) (pos b) h = absurd (cc)
gtb_asym (negsuc a) (negsuc b) h = ground arith

gtb_irrefl : (a : ℤ) → gtb_ℤ a a ≡ false
unfolding gtb_ℤ
gtb_irrefl (pos a) = ground arith
gtb_irrefl (negsuc a) = ground arith

-- No peer of the list is preferred to `b`.
abbrev NonePreferred : LocalPeer → List LocalPeer → Type 0
NonePreferred b ps = All (λ p. gtb_ℤ p.pref b.pref ≡ false) ps

-- The search answers one of the peers that it was given, to which none of them is preferred.
pub best_gw-best :
    (best : LocalPeer) (ps : List LocalPeer)
    → In (best_gw best ps) (best ∷ ps) × NonePreferred (best_gw best ps) (best ∷ ps)
unfolding best_gw
best_gw-best best [] = (inl refl, (gtb_irrefl best.pref, tt))
best_gw-best best (p ∷ ps) =
    let Fits : LocalPeer → Type 0 = λ z. In z (best ∷ p ∷ ps) × NonePreferred z (best ∷ p ∷ ps) in
    elim (Bool-cases (gtb_ℤ p.pref best.pref)) [
      | inl e ↦
          let (i, h) = best_gw-best p ps in
          subst Fits (sym (ap (λ b. best_gw (if b then p else best) ps) e)) (
            inr i,
            (gtb_trans best.pref p.pref (best_gw p ps).pref (gtb_asym p.pref best.pref e) h.0, h),
          )
      | inr e ↦
          let (i, h) = best_gw-best best ps in
          subst Fits (sym (ap (λ b. best_gw (if b then p else best) ps) e)) (
            elim i [ inl x ↦ inl x | inr x ↦ inr (inr x) ],
            (h.0, (gtb_trans p.pref best.pref (best_gw best ps).pref e h.0, h.1)),
          )
    ]

-- Where no peer says its preference, the discovery chooses none of them.
pub best_gw-unknown :
    (ps : List LocalPeer) → All (λ p. p.pref ≡ pref_unknown) ps → best_gw no_peer ps ≡ no_peer
unfolding best_gw gtb_ℤ
best_gw-unknown [] h = refl
best_gw-unknown (p ∷ ps) h = rw h.0 (best_gw-unknown ps h.1)

module _ (same_peer : LocalPeer → LocalPeer → Bool) where
  abbrev Ended : ℕ → (Option ErrCode × List ℕ) → Client → Type 0
  Ended n r c' = (is_some r.0 ≡ true) × (length r.1 ≤ n)

  discover_loop-ends :
      (channels : List ℕ) (most : ℕ) (attempts : List Attempt) (cnt delay : ℕ)
      (gws : List LocalPeer)
      → 0 < most
      → most ≤ cnt + length attempts
      → (c : Client)
      → Post (Ended (most - cnt)) (discover_loop same_peer channels most attempts cnt delay gws c)
  unfolding discover_loop
  discover_loop-ends channels most [] cnt delay gws h k c =
      let P : (Option ErrCode × List ℕ) → Client → Type 0 = Ended (most - cnt) in
      if-M-Post {P = P} (ltb cnt most || most == 0) _ _ c (λ t. absurd (ground arith))
        (λ f. some-Post P (some ErrCode.too_many_failed_attempts, []) c (refl, omega arith))
  discover_loop-ends channels most (a ∷ rest) cnt delay gws h k c =
      let P : (Option ErrCode × List ℕ) → Client → Type 0 = Ended (most - cnt) in
      if-M-Post {P = P} (ltb cnt most || most == 0) _ _ c
        (λ t.
          let lt : cnt < most = ground arith in
          >>=-Post {P = λ r d. Unit {0}} {Q = P} (attempt same_peer channels a gws) _ c
            (λ r d e. tt)
            (λ r d u.
              if-M-Post {P = P} r.0 (pure (some ErrCode.success, [])) _ d
                (λ b. some-Post P (some ErrCode.success, []) d (refl, omega arith))
                (λ b.
                  if-M-Post {P = P} a.cancelled (pure (some ErrCode.success, delay ∷ [])) _ d
                    (λ b2. some-Post P (some ErrCode.success, delay ∷ []) d (refl, omega arith))
                    (λ b2.
                      >>=-Post {P = Ended (most - (cnt + 1))} {Q = P}
                        (discover_loop same_peer channels most rest (cnt + 1)
                          (next_delay d.conf.gw_dscv.dscv_max_delay delay) r.1)
                        _ d
                        (discover_loop-ends channels most rest (cnt + 1)
                          (next_delay d.conf.gw_dscv.dscv_max_delay delay) r.1 h (omega arith) d)
                        (λ q d2 e. some-Post P (q.0, delay ∷ q.1) d2 (e.0, omega (arith, e.1)))))))
        (λ f. some-Post P (some ErrCode.too_many_failed_attempts, []) c (refl, omega arith))

  -- With a limit on the attempts, and as many attempts that the world provides, the discovery that
  -- returns has a code, after that many pauses at most.
  pub discover_gateway-ends :
      (channels : List ℕ) (most : ℕ) (attempts : List Attempt) (c : Client)
      {r : Option ErrCode × List ℕ} {c' : Client}
      → 0 < most
      → most ≤ length attempts
      → discover_gateway same_peer channels most attempts c ≡ some (r, c')
      → (is_some r.0 ≡ true) × (length r.1 ≤ most)
  unfolding discover_gateway
  discover_gateway-ends channels most attempts c {r} {c'} h k e =
      let (ended, few) =
        discover_loop-ends channels most attempts 0 c.conf.gw_dscv.dscv_min_delay [] h (omega arith)
          c r c' e in
      (ended, omega arith)
