-- ===== src/Client/Chosen.antt =====
-- The gateway that a discovery (`discoverGateway` of src/common/client.cpp) leaves the client with.
use kvik.Base.{
  ℕ, ◌≡◌, refl, ◌∙◌, ◌+◌, Bool, true, false, not, ◌||◌, List, [], ◌∷◌, Option, none, some, ◌⊎◌, inl,
  inr, if◌then◌else◌, ◌==◌, ltb, All, subst, sym, arith, ◌≤◌, ◌++◌, length, ap,
}
use kvik.Message.{ErrCode}
use kvik.Int.{gtb_ℤ}
use kvik.Client.Choice.{best_gw-best}
use kvik.Peer.{LocalPeer, no_peer}
use kvik.Client.State.{Client, Effect, pure, emit}
use kvik.Client.Send.{Exchange}
use kvik.Client.Subs.{is_nil}
use kvik.Client.Discovery.{
  Attempt, use_gw, best_gw, rssi_pubs, report_gw_dscv_rssi, probe_all, attempt, discover_loop,
  discover_gateway, next_delay,
}
use kvik.Client.Post.{Post, some-Post, if-Post, if-M-Post, >>=-Post}
use kvik.Client.Subscriptions.{is_nil_lem}
use kvik.Client.Stays.{Stays}
use kvik.Client.Sending.{publish_bulk-Stays}
use kvik.Client.Located.{Located, Located-IsFramed, Located-IsSent}

report_gw_dscv_rssi-Located :
    (x : Exchange) (gws : List LocalPeer) → Stays Located (report_gw_dscv_rssi x gws)
unfolding report_gw_dscv_rssi
report_gw_dscv_rssi-Located x gws c =
    if-Post {P = λ a d. Located c d}
      (not c.conf.reporting.rssi_on_gw_dscv || is_nil (rssi_pubs c gws)) _ _
      (λ _. some-Post (λ a d. Located c d) ErrCode.success c (Located-IsFramed.same c))
      (λ _. publish_bulk-Stays Located-IsSent x (rssi_pubs c gws) c)

-- The client checks timestamps and has no gateway.
abbrev pub Lost : Client → Type 0
Lost c = (c.gw ≡ no_peer) × (c.ignore_invalid_msg_ts ≡ false)

-- The client uses the peer.
abbrev Uses : LocalPeer → Client → Type 0
Uses p c = (c.gw ≡ p) × (c.time_sync_no_resp_cnt ≡ 0) × (c.ignore_invalid_msg_ts ≡ false)

use_gw-Uses :
    (has_channels : Bool) (p : LocalPeer) (c : Client)
    → c.ignore_invalid_msg_ts ≡ false
    → Post (λ u d. Uses p d) (use_gw has_channels p c)
use_gw-Uses b p c h =
    let P : Unit {0} → Client → Type 0 = λ u d. d.ignore_invalid_msg_ts ≡ false in
    >>=-Post {P = P} {Q = λ u d. Uses p d}
      (if b then emit (Effect.sets_channel p.channel) else pure tt) _ c
      (if-M-Post {P = P} b (emit (Effect.sets_channel p.channel)) (pure tt) c
        (λ t. some-Post P tt _ h) (λ f. some-Post P tt c h))
      (λ u d k. some-Post (λ u d. Uses p d) tt _ (refl, refl, k))

module _ (same_peer : LocalPeer → LocalPeer → Bool) where
  -- The attempts, each from the client that the one before has left, find no peer, and the
  -- destructor ends the pause after none of them.
  abbrev pub Failed : List ℕ → List Attempt → Client → Client → Type 0
  Failed channels [] c d = c ≡ d
  Failed channels (a ∷ rest) c d =
      (e : Client) × (attempt same_peer channels a [] c ≡ some ((false, []), e))
      × (a.cancelled ≡ false)
      × Failed channels rest e d

  -- From the client `c`: after failed attempts, the probes of one attempt, made without a set of
  -- peers from before while timestamps are ignored, find some; and the gateway is the best of them.
  pub record Chosen (channels : List ℕ) (attempts : List Attempt) (c c' : Client) : Type 0 where
    pub earlier : List Attempt
    pub last : Attempt
    pub not_made : List Attempt
    pub split : attempts ≡ earlier ++ last ∷ not_made
    pub before : Client
    pub failed : Failed channels earlier c before
    pub found : List LocalPeer
    pub after : Client
    pub probed :
        probe_all same_peer channels last.probes [] (record before { ignore_invalid_msg_ts = true })
        ≡ some (found, after)
    pub found_some : is_nil found ≡ false
    pub gw : c'.gw ≡ best_gw no_peer found
    pub none_better : All (λ p. gtb_ℤ p.pref c'.gw.pref ≡ false) found
    pub cnt : c'.time_sync_no_resp_cnt ≡ 0
    pub ignore : c'.ignore_invalid_msg_ts ≡ false

  -- The destructor ends the pause after an attempt that finds no peer, as those before it.
  pub record Cancelled (channels : List ℕ) (attempts : List Attempt) (c c' : Client) : Type 0 where
    pub earlier : List Attempt
    pub last : Attempt
    pub not_made : List Attempt
    pub split : attempts ≡ earlier ++ last ∷ not_made
    pub before : Client
    pub failed : Failed channels earlier c before
    pub no_peer_found : attempt same_peer channels last [] before ≡ some ((false, []), c')
    pub cancelled : last.cancelled ≡ true
    pub lost : Lost c'

  -- With those made before, as many attempts as there may be have failed.
  pub record Exhausted (channels : List ℕ) (made most : ℕ) (attempts : List Attempt) (c c' : Client)
      : Type 0 where
    pub earlier : List Attempt
    pub not_made : List Attempt
    pub split : attempts ≡ earlier ++ not_made
    pub failed : Failed channels earlier c c'
    pub number : made + length earlier ≡ most
    pub lost : Lost c'

  -- How the loop ends from the client `c` on, after so many attempts.
  abbrev pub Ending : List ℕ → ℕ → ℕ → List Attempt → Client → ErrCode → Client → Type 0
  Ending channels made most attempts c e c' =
      ((e ≡ ErrCode.success) × Chosen channels attempts c c')
      ⊎ ((e ≡ ErrCode.success) × Cancelled channels attempts c c')
      ⊎ ((e ≡ ErrCode.too_many_failed_attempts) × Exhausted channels made most attempts c c')

  -- What one attempt leaves.
  abbrev Tried : List ℕ → Attempt → Client → (Bool × List LocalPeer) → Client → Type 0
  Tried channels a c r c' =
      (r.0 ≡ true → (rest : List Attempt) → Chosen channels (a ∷ rest) c c')
      × (r.0 ≡ false → (r.1 ≡ []) × Lost c')

  attempt-Tried :
      (channels : List ℕ) (a : Attempt) (c : Client)
      → Post (Tried channels a c) (attempt same_peer channels a [] c)
  unfolding attempt
  attempt-Tried channels a c =
      let Q = Tried channels a c in
      let d : Client = record c { ignore_invalid_msg_ts = true } in
      let Found : List LocalPeer → Client → Type 0 =
        λ found d'. probe_all same_peer channels a.probes [] d ≡ some (found, d') in
      >>=-Post {P = Found} {Q = Q} (probe_all same_peer channels a.probes []) _ d (λ found d' e. e)
        (λ found d' e.
          let y : Client = record d' { ignore_invalid_msg_ts = false } in
          if-M-Post {P = Q} (is_nil found) _ _ y
            (λ n.
              some-Post Q (false, found) _
                (λ t. absurd (cc), λ f. (is_nil_lem found n, (refl, refl))))
            (λ n.
              >>=-Post {P = λ u z. Uses (best_gw no_peer found) z} {Q = Q}
                (use_gw (not (is_nil channels)) (best_gw no_peer found)) _ y
                (use_gw-Uses (not (is_nil channels)) (best_gw no_peer found) y refl)
                (λ u z k.
                  >>=-Post {P = λ r x. Located z x} {Q = Q} (report_gw_dscv_rssi a.report found) _ z
                    (report_gw_dscv_rssi-Located a.report found z)
                    (λ r x l.
                      some-Post Q (true, found) x
                        (
                          λ t rest. record {
                            earlier = [];
                            last = a;
                            not_made = rest;
                            split = refl;
                            before = c;
                            failed = refl;
                            found = found;
                            after = d';
                            probed = e;
                            found_some = n;
                            gw = l.gw ∙ k.0;
                            none_better =
                                subst (λ g. All (λ p. gtb_ℤ p.pref g.pref ≡ false) found)
                                  (sym (l.gw ∙ k.0)) (best_gw-best no_peer found).1.1;
                            cnt = l.cnt ∙ k.1;
                            ignore = l.ignore ∙ k.2;
                          },
                          λ f. absurd (cc),
                        )))))

  -- An attempt that fails before the others.
  later :
      (channels : List ℕ) (made most : ℕ) (a : Attempt) (rest : List Attempt) (c d : Client)
      (e : ErrCode) (c' : Client)
      → attempt same_peer channels a [] c ≡ some ((false, []), d)
      → a.cancelled ≡ false
      → Ending channels (made + 1) most rest d e c'
      → Ending channels made most (a ∷ rest) c e c'
  later channels made most a rest c d e c' o n (inl (s, x)) = inl (
    s,
    record {
      earlier = a ∷ x.earlier;
      last = x.last;
      not_made = x.not_made;
      split = ap (λ (as' : List Attempt). a ∷ as') x.split;
      before = x.before;
      failed = (d, o, n, x.failed);
      found = x.found;
      after = x.after;
      probed = x.probed;
      found_some = x.found_some;
      gw = x.gw;
      none_better = x.none_better;
      cnt = x.cnt;
      ignore = x.ignore;
    },
  )
  later channels made most a rest c d e c' o n (inr (inl (s, x))) = inr (
      inl (
        s,
        record {
          earlier = a ∷ x.earlier;
          last = x.last;
          not_made = x.not_made;
          split = ap (λ (as' : List Attempt). a ∷ as') x.split;
          before = x.before;
          failed = (d, o, n, x.failed);
          no_peer_found = x.no_peer_found;
          cancelled = x.cancelled;
          lost = x.lost;
        },
      ))
  later channels made most a rest c d e c' o n (inr (inr (s, x))) =
      let m = x.number in
      inr (
        inr (
          s,
          record {
            earlier = a ∷ x.earlier;
            not_made = x.not_made;
            split = ap (λ (as' : List Attempt). a ∷ as') x.split;
            failed = (d, o, n, x.failed);
            number = omega arith;
            lost = x.lost;
          },
        ))

  -- Nothing has been tried, or the last attempt has failed; and the limit has not been passed.
  abbrev Goes : ℕ → ℕ → Client → Type 0
  Goes made most c = ((made ≡ 0) ⊎ Lost c) × ((most ≡ 0) ⊎ (made ≤ most))

  at_end :
      (channels : List ℕ) (made most : ℕ) (attempts : List Attempt) (c : Client) (e : ErrCode)
      → Goes made most c
      → (ltb made most || most == 0) ≡ false
      → e ≡ ErrCode.too_many_failed_attempts
      → Ending channels made most attempts c e c
  at_end channels made most attempts c e (inl z, b) f h = absurd (ground arith)
  at_end channels made most attempts c e (inr l, b) f h = inr (
      inr (
        h,
        record {
          earlier = [];
          not_made = attempts;
          split = refl;
          failed = refl;
          number = ground arith;
          lost = l;
        },
      ))

  one_more :
      (made most : ℕ) (c : Client)
      → (ltb made most || most == 0) ≡ true
      → Lost c
      → Goes (made + 1) most c
  one_more made most c t l = (inr l, ground arith)

  failed_eq :
      (r : Bool × List LocalPeer) (c : Client) (o : Option ((Bool × List LocalPeer) × Client))
      → o ≡ some (r, c)
      → r.0 ≡ false
      → r.1 ≡ []
      → o ≡ some ((false, []), c)
  failed_eq (b, gws) c o h p q = rw (← p, ← q) h

  abbrev Ends : List ℕ → ℕ → ℕ → List Attempt → Client → (Option ErrCode × List ℕ) → Client → Type 0
  Ends channels made most attempts c r c' =
      (e : ErrCode) → r.0 ≡ some e → Ending channels made most attempts c e c'

  discover_loop-Ends :
      (channels : List ℕ) (most : ℕ) (attempts : List Attempt) (made delay : ℕ)
      (gws : List LocalPeer) (c : Client)
      → gws ≡ []
      → Goes made most c
      → Post
          (Ends channels made most attempts c)
          (discover_loop same_peer channels most attempts made delay gws c)
  unfolding discover_loop
  discover_loop-Ends channels most [] made delay gws c fresh goes =
      let Q = Ends channels made most [] c in
      if-M-Post {P = Q} (ltb made most || most == 0) _ _ c
        (λ t. some-Post Q (none, []) c (λ e h. absurd (cc)))
        (λ f.
          some-Post Q (some ErrCode.too_many_failed_attempts, []) c
            (λ e h. at_end channels made most [] c e goes f (cc)))
  discover_loop-Ends channels most (a ∷ rest) made delay gws c fresh goes =
      let Q = Ends channels made most (a ∷ rest) c in
      let P : (Bool × List LocalPeer) → Client → Type 0 =
        λ r d. (attempt same_peer channels a [] c ≡ some (r, d)) × Tried channels a c r d in
      if-M-Post {P = Q} (ltb made most || most == 0) _ _ c
        (λ t.
          >>=-Post {P = P} {Q = Q} (attempt same_peer channels a gws) _ c
            (subst (λ z. Post P (attempt same_peer channels a z c)) (sym fresh)
              (λ r d h. (h, attempt-Tried channels a c r d h)))
            (λ r d (o, (yes_, no_)).
              if-M-Post {P = Q} r.0 (pure (some ErrCode.success, [])) _ d
                (λ b. some-Post Q (some ErrCode.success, []) d (λ e h. inl (cc, yes_ b rest)))
                (λ b.
                  let (nothing, lost) = no_ b in
                  let o2 = failed_eq r d _ o b nothing in
                  if-M-Post {P = Q} a.cancelled (pure (some ErrCode.success, delay ∷ [])) _ d
                    (λ b2.
                      some-Post Q (some ErrCode.success, delay ∷ []) d
                        (λ e h. inr (
                          inl (
                            cc,
                            record {
                              earlier = [];
                              last = a;
                              not_made = rest;
                              split = refl;
                              before = c;
                              failed = refl;
                              no_peer_found = o2;
                              cancelled = b2;
                              lost = lost;
                            },
                          ))))
                    (λ b2.
                      let next = next_delay d.conf.gw_dscv.dscv_max_delay delay in
                      >>=-Post {P = Ends channels (made + 1) most rest d} {Q = Q}
                        (discover_loop same_peer channels most rest (made + 1) next r.1) _ d
                        (discover_loop-Ends channels most rest (made + 1) next r.1 d nothing
                          (one_more made most d t lost))
                        (λ q d2 k.
                          some-Post Q (q.0, delay ∷ q.1) d2
                            (λ e h. later channels made most a rest c d e d2 o2 b2 (k e h)))))))
        (λ f.
          some-Post Q (some ErrCode.too_many_failed_attempts, []) c
            (λ e h. at_end channels made most (a ∷ rest) c e goes f (cc)))

  -- A discovery returns in one of three ways, each time after attempts that found no peer at all.
  -- With a success where the probes of the next attempt, which start without any peer and ignore
  -- timestamps, find some: the gateway is what the search for the best of these answers, none of
  -- them has a higher preference, and the count of failed synchronisations is reset. With a success where the destructor ends the
  -- pause after the next attempt, which finds none either: the client has no gateway. With the only
  -- failure there is where as many attempts have failed as there may be: no gateway either. In each
  -- case the client checks the timestamps of messages again.
  pub discover_gateway-Ending :
      (channels : List ℕ) (most : ℕ) (attempts : List Attempt) (c : Client) {e : ErrCode}
      {delays : List ℕ} {c' : Client}
      → discover_gateway same_peer channels most attempts c ≡ some ((some e, delays), c')
      → Ending channels 0 most attempts c e c'
  unfolding discover_gateway
  discover_gateway-Ending channels most attempts c {e} {delays} {c'} h =
      discover_loop-Ends channels most attempts 0 c.conf.gw_dscv.dscv_min_delay [] c refl
        (inl refl, inr (omega arith)) (some e, delays) c' h e refl
