-- ===== src/Client/Binding/Late.antt =====
-- When the constructor of src/common/client.cpp throws after it has bound its client to the layer.
use kvik.Base.{
  ℕ, ◌≡◌, refl, ◌<◌, Bool, true, false, List, [], Option, none, some, if◌then◌else◌, arith, subst,
  Bool-cases, inl, inr, ◌⊎◌, ◌≢◌, ltb, Option-cases,
}
use kvik.Layers.{LocalLayer, set_local_recv_cb}
use kvik.Peer.{LocalPeer}
use kvik.Node
use kvik.Node.{INode}
use kvik.Peer
use kvik.Peer.{no_peer}
use kvik.Message.{ErrCode, failed, SubCb}
use kvik.Trie.Ops.{Trie, construct}
use kvik.Client.State.{Client, ClientConfig, ClientRetainedData}
use kvik.Client.Subs.{no_cb}
use kvik.Client.Discovery.{discover_gateway}
use kvik.Client.Sync.{
  StartWorld, Built, exception, running, built, allow_ts, first_discovery, restore_sync, start,
  construct_client,
}
use kvik.Client.Binding.{Construction, lives}

-- The client as the constructor has it when it binds the callback, and with the retained data.
abbrev pub bare : ClientConfig → INode → Trie SubCb → Client
bare conf node sub_db = record {
  conf = conf;
  node = node;
  sub_db = sub_db;
  gw = no_peer;
  pending_msgs = [];
  msgs_fail_cnt = 0;
  time_sync_no_resp_cnt = 0;
  ignore_invalid_msg_ts = true;
  effects = [];
}

abbrev pub restored : ClientRetainedData → Client → Client
restored r c = record c {
  gw = Peer.unretain r.retained_gw;
  msgs_fail_cnt = r.retained_msgs_fail_cnt;
  time_sync_no_resp_cnt = r.retained_time_sync_no_resp_cnt;
}

module _ (same_peer : LocalPeer → LocalPeer → Bool) where
  -- The discovery from this client throws or returns a failure.
  abbrev pub DiscoveryFails : StartWorld → Client → Type 0
  DiscoveryFails w c =
      (discover_gateway same_peer w.channels c.conf.gw_dscv.initial_dscv_fail_thres w.attempts c
        ≡ none)
      ⊎ ((e : ErrCode) × (delays : List ℕ) × (d : Client) × (e ≢ ErrCode.success)
          × (discover_gateway same_peer w.channels c.conf.gw_dscv.initial_dscv_fail_thres w.attempts
                c
              ≡ some ((some e, delays), d)))

  -- Without a retained gateway the discovery fails. With one the time synchronisation throws, or it
  -- does not succeed and the discovery after it fails.
  abbrev pub StartFails : StartWorld → ClientRetainedData → Client → Type 0
  StartFails w r c =
      ((r.retained_gw.addr_len ≡ 0) × DiscoveryFails w c)
      ⊎ ((0 < r.retained_gw.addr_len)
          × ((restore_sync w (restored r c) ≡ none)
              ⊎ ((d : Client) × (restore_sync w (restored r c) ≡ some (false, d))
                  × DiscoveryFails w d)))

  -- There is a layer, the node and the database of the subscriptions are constructed, and what
  -- follows fails.
  abbrev pub FailsLate : Construction → Type 0
  FailsLate k =
      (k.has_layer ≡ true)
      × (node : INode) × (Node.construct k.conf.node_conf k.world.random ≡ some node)
      × (sub_db : Trie SubCb) × (construct no_cb k.conf.node_conf.topic_sep.level_separator
            k.conf.node_conf.topic_sep.single_level_wildcard
            k.conf.node_conf.topic_sep.multi_level_wildcard
          ≡ some sub_db)
      × StartFails k.world k.retained (bare k.conf node sub_db)

  failed-yes : (e : ErrCode) → e ≢ ErrCode.success → failed e ≡ true
  failed-yes ErrCode.success n = absurd (n refl)
  failed-yes _ n = refl

  first_discovery-lives :
      (w : StartWorld) (c : Client)
      → ((lives (first_discovery same_peer w c) ≡ true) ⊎ DiscoveryFails w c)
        × (DiscoveryFails w c → lives (first_discovery same_peer w c) ≡ false)
  unfolding first_discovery
  first_discovery-lives w c =
      by_run
        (discover_gateway same_peer w.channels c.conf.gw_dscv.initial_dscv_fail_thres w.attempts c)
    where
      by_run :
          (o : Option ((Option ErrCode × List ℕ) × Client))
          → ((lives (elim o [
            | none ↦ none
            | some (r, c') ↦ elim r.0 [
              | none ↦ some running
              | some e ↦ if failed e then some exception else some (built (allow_ts c'))
            ]
          ])
                ≡ true)
              ⊎ ((o ≡ none)
                  ⊎ ((e : ErrCode) × (delays : List ℕ) × (d : Client) × (e ≢ ErrCode.success)
                      × (o ≡ some ((some e, delays), d)))))
            × (((o ≡ none)
                  ⊎ ((e : ErrCode) × (delays : List ℕ) × (d : Client) × (e ≢ ErrCode.success)
                      × (o ≡ some ((some e, delays), d))))
                → lives (elim o [
                  | none ↦ none
                  | some (r, c') ↦ elim r.0 [
                    | none ↦ some running
                    | some e ↦ if failed e then some exception else some (built (allow_ts c'))
                  ]
                ])
                  ≡ false)
      by_run none = (inr (inl refl), λ h. refl)
      by_run (some ((none, ds), d)) =
          (inl refl, λ h. elim h [ inl n ↦ absurd (cc) | inr (e, ds', d', n, k) ↦ absurd (cc) ])
      by_run (some ((some e, ds), d)) = elim (Bool-cases (failed e)) [
        | inl f ↦ (inr (inr (e, ds, d, (λ s. absurd (cc)), refl)), λ h. rw f refl)
        | inr f ↦ (
          inl (rw f refl),
          λ h. elim h [
            | inl n ↦ absurd (cc)
            | inr (e', ds', d', n, k) ↦
                let same : e ≡ e' = cc in let t = failed-yes e' n in absurd (cc)
          ],
        )
      ]

  -- After the time synchronisation.
  abbrev Resumes : StartWorld → Option (Bool × Client) → Type 0
  Resumes w o = (o ≡ none) ⊎ ((d : Client) × (o ≡ some (false, d)) × DiscoveryFails w d)

  abbrev resume : StartWorld → Option (Bool × Client) → Option Built
  resume w o = elim o [
    | none ↦ none
    | some (synced, c') ↦
        if synced then some (built (allow_ts c')) else first_discovery same_peer w c'
  ]

  resume-lives :
      (w : StartWorld) (o : Option (Bool × Client))
      → ((lives (resume w o) ≡ true) ⊎ Resumes w o) × (Resumes w o → lives (resume w o) ≡ false)
  resume-lives w none = (inr (inl refl), λ h. refl)
  resume-lives w (some (true, d)) =
      (inl refl, λ h. elim h [ inl n ↦ absurd (cc) | inr (d', k, f) ↦ absurd (cc) ])
  resume-lives w (some (false, d)) =
      let (some_end, fails) = first_discovery-lives w d in
      (
        elim some_end [ inl l ↦ inl l | inr f ↦ inr (inr (d, refl, f)) ],
        λ h. elim h [
          | inl n ↦ absurd (cc)
          | inr (d', k, f) ↦ let same : d' ≡ d = cc in fails (subst (DiscoveryFails w) same f)
        ],
      )

  start-lives :
      (w : StartWorld) (r : ClientRetainedData) (c : Client)
      → ((lives (start same_peer w r c) ≡ true) ⊎ StartFails w r c)
        × (StartFails w r c → lives (start same_peer w r c) ≡ false)
  unfolding start
  start-lives w r c = elim (Bool-cases (ltb 0 r.retained_gw.addr_len)) [
    | inl e ↦
        let some_gw : 0 < r.retained_gw.addr_len = ground arith in
        let (some_end, fails) = resume-lives w (restore_sync w (restored r c)) in
        rw e (
          elim some_end [ inl l ↦ inl l | inr f ↦ inr (inr (some_gw, f)) ],
          λ h. elim h [ inl (z, f) ↦ absurd (omega arith) | inr (z, f) ↦ fails f ],
        )
    | inr e ↦
        let no_gw : r.retained_gw.addr_len ≡ 0 = ground arith in
        let (some_end, fails) = first_discovery-lives w c in
        rw e (
          elim some_end [ inl l ↦ inl l | inr f ↦ inr (inl (no_gw, f)) ],
          λ h. elim h [ inl (z, f) ↦ fails f | inr (z, f) ↦ absurd (omega arith) ],
        )
  ]

  -- What a constructor does to the layer, and whether its client lives.
  abbrev pub makes : Construction → ℕ → LocalLayer ℕ → LocalLayer ℕ × Option Built
  makes k i l = construct_client same_peer k.world k.conf k.has_layer k.retained i l

  abbrev pub Bound : Construction → ℕ → LocalLayer ℕ → Type 0
  Bound k i l = (makes k i l).0 ≡ set_local_recv_cb (some i) l

  pub makes-cases :
      (k : Construction) (i : ℕ) (l : LocalLayer ℕ)
      → ((makes k i l).0 ≡ l)
        ⊎ (Bound k i l × (lives (makes k i l).1 ≡ true))
        ⊎ (Bound k i l × FailsLate k)
  unfolding construct_client
  makes-cases k i l = elim (Option-cases (Node.construct k.conf.node_conf k.world.random)) [
    | inl n ↦ inl (rw (n, construct_client) refl)
    | inr (node, n) ↦
        elim (Option-cases (
          construct no_cb k.conf.node_conf.topic_sep.level_separator
            k.conf.node_conf.topic_sep.single_level_wildcard
            k.conf.node_conf.topic_sep.multi_level_wildcard)) [
              | inl t ↦ inl (rw (n, t, construct_client) refl)
              | inr (sub_db, t) ↦ elim (Bool-cases k.has_layer) [
                | inr h ↦ inl (rw (n, t, h, construct_client) refl)
                | inl h ↦ elim (start-lives k.world k.retained (bare k.conf node sub_db)).0 [
                  | inl ok ↦
                      inr (
                        inl
                          (rw (n, t, h, construct_client) refl, rw (n, t, h, construct_client) ok))
                  | inr f ↦
                      inr (inr (rw (n, t, h, construct_client) refl, (h, node, n, sub_db, t, f)))
                ]
              ]
            ]
  ]

  pub fails_late_lem :
      (k : Construction) (i : ℕ) (l : LocalLayer ℕ)
      → FailsLate k
      → Bound k i l × (lives (makes k i l).1 ≡ false)
  unfolding construct_client
  fails_late_lem k i l (h, node, n, sub_db, t, f) =
      let dies = (start-lives k.world k.retained (bare k.conf node sub_db)).1 f in
      (rw (n, t, h, construct_client) refl, rw (n, t, h, construct_client) dies)
