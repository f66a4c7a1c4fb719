-- ===== src/Client/Built.antt =====
-- What the constructor of the client (src/common/client.cpp) leaves, from the start or from retained
-- data.
use kvik.Base.{
  ℕ, ◌≡◌, refl, ◌∙◌, Bool, true, false, not, List, [], Option, none, some, if◌then◌else◌, ltb, Str,
  subst,
}
use kvik.Message.{ErrCode, failed}
use kvik.Layers.{LocalLayer}
use kvik.Node
use kvik.Node.{build_report_rssi_topic}
use kvik.Peer
use kvik.Peer.{LocalPeer}
use kvik.Trie.Ops.{construct}
use kvik.Trie.Insert.{IsTrie, lookup, construct-IsTrie}
use kvik.Client.State.{Client, ClientConfig, ClientRetainedData}
use kvik.Client.Subs.{no_cb}
use kvik.Client.Discovery.{discover_gateway}
use kvik.Client.Sync.{
  Built, exception, running, built, StartWorld, allow_ts, first_discovery, restore_sync, start,
  construct_client,
}
use kvik.Client.Post.{Post}
use kvik.Client.Setup.{Setup}
use kvik.Client.Attempt.{discover_gateway-pauses}
use kvik.Client.Synced.{restore_sync-Setup}

-- If a client is built, it has the property.
abbrev Builds : (Client → Type 0) → Option Built → Type 0
Builds P o = (c : Client) → o ≡ some (built c) → P c

-- A client with the setup of `c` that checks timestamps.
abbrev Ready : Client → Client → Type 0
Ready c d = (d.conf ≡ c.conf) × (d.sub_db ≡ c.sub_db) × (d.ignore_invalid_msg_ts ≡ false)

built-Ready : (c d : Client) → Setup c d → Builds (Ready c) (some (built (allow_ts d)))
built-Ready c d s e h =
    let same : allow_ts d ≡ e = cc in subst (Ready c) same (s.conf, s.sub_db, refl)

none-Builds : (P : Client → Type 0) → Builds P none
none-Builds P e h = absurd (cc)

exception-Builds : (P : Client → Type 0) → Builds P (some exception)
exception-Builds P e h = absurd (cc)

running-Builds : (P : Client → Type 0) → Builds P (some running)
running-Builds P e h = absurd (cc)

case-Builds :
    {A : Type 0} (P : Client → Type 0) (l : LocalLayer ℕ) (x : Option A)
    (r : A → LocalLayer ℕ × Option Built)
    → ((y : A) → x ≡ some y → Builds P (r y).1)
    → Builds P
        (elim x as (λ z. LocalLayer ℕ × Option Built) [
          | none ↦ (l, some exception)
          | some y ↦ r y
        ]).1
case-Builds P l none r p = exception-Builds P
case-Builds P l (some y) r p = p y refl

guard-Builds :
    (P : Client → Type 0) (l : LocalLayer ℕ) (b : Bool) (o : LocalLayer ℕ × Option Built)
    → (b ≡ true → Builds P o.1)
    → Builds P (if not b then (l, some exception) else o).1
guard-Builds P l true o p = p refl
guard-Builds P l false o p = exception-Builds P

module _ (same_peer : LocalPeer → LocalPeer → Bool) where
  first_discovery-Ready :
      (w : StartWorld) (c : Client) → Builds (Ready c) (first_discovery same_peer w c)
  unfolding first_discovery
  first_discovery-Ready w c =
      from
        (discover_gateway same_peer w.channels c.conf.gw_dscv.initial_dscv_fail_thres w.attempts c)
        (λ r d h.
          let (conf, subs, short) =
            discover_gateway-pauses same_peer w.channels c.conf.gw_dscv.initial_dscv_fail_thres
              w.attempts c h in
          record { conf = conf; sub_db = subs })
    where
      from :
          (o : Option ((Option ErrCode × List ℕ) × Client))
          → Post (λ r d. Setup c d) o
          → Builds (Ready c) (elim o [
            | none ↦ none
            | some (r, c') ↦ elim r.0 [
              | none ↦ some running
              | some e ↦ if failed e then some exception else some (built (allow_ts c'))
            ]
          ])
      from none p = none-Builds (Ready c)
      from (some ((none, ds), d)) p = running-Builds (Ready c)
      from (some ((some e, ds), d)) p =
          elim (failed e)
            as (λ b. Builds (Ready c) (if b then some exception else some (built (allow_ts d)))) [
              | true ↦ exception-Builds (Ready c)
              | false ↦ built-Ready c d (p (some e, ds) d refl)
            ]

  start-Ready :
      (w : StartWorld) (r : ClientRetainedData) (c : Client)
      → Builds (Ready c) (start same_peer w r c)
  unfolding start
  start-Ready w r c =
      let c0 : Client = record c {
        gw = Peer.unretain r.retained_gw;
        msgs_fail_cnt = r.retained_msgs_fail_cnt;
        time_sync_no_resp_cnt = r.retained_time_sync_no_resp_cnt;
      } in
      elim (ltb 0 r.retained_gw.addr_len)
        as (λ b. Builds (Ready c) (
          if b
          then elim (restore_sync w c0) [
            | none ↦ none
            | some (synced, c') ↦
                if synced then some (built (allow_ts c')) else first_discovery same_peer w c'
          ]
          else first_discovery same_peer w c)) [
            | true ↦ from (restore_sync w c0) (λ b d h.
                let s = restore_sync-Setup w c0 b d h in
                record { conf = s.conf; sub_db = s.sub_db })
            | false ↦ first_discovery-Ready w c
          ]
    where
      from :
          (o : Option (Bool × Client))
          → Post (λ b d. Setup c d) o
          → Builds (Ready c) (elim o [
            | none ↦ none
            | some (synced, c') ↦
                if synced then some (built (allow_ts c')) else first_discovery same_peer w c'
          ])
      from none p = none-Builds (Ready c)
      from (some (true, d)) p = built-Ready c d (p true d refl)
      from (some (false, d)) p = λ e h.
          let s = p false d refl in
          let (conf, subs, off) = first_discovery-Ready w d e h in
          (conf ∙ s.conf, subs ∙ s.sub_db, off)

  -- A client that is built has the given configuration and a layer, its subscription database is a
  -- well-formed trie without contents, and it checks the timestamps of the messages.
  pub construct_client-built :
      (w : StartWorld) (conf : ClientConfig) (has_layer : Bool) (retained : ClientRetainedData)
      (i : ℕ) (layer : LocalLayer ℕ) {c : Client}
      → (construct_client same_peer w conf has_layer retained i layer).1 ≡ some (built c)
      → (has_layer ≡ true)
        × (c.conf ≡ conf)
        × (c.ignore_invalid_msg_ts ≡ false)
        × IsTrie c.sub_db
        × ((p : List Str) → lookup c.sub_db p ≡ none)
  unfolding construct_client
  construct_client-built w conf has_layer retained i layer {c} h =
      let sep = conf.node_conf.topic_sep in
      let Good : Client → Type 0 = λ d.
        (has_layer ≡ true)
        × (d.conf ≡ conf)
        × (d.ignore_invalid_msg_ts ≡ false)
        × IsTrie d.sub_db
        × ((p : List Str) → lookup d.sub_db p ≡ none) in
      case-Builds Good layer (Node.construct conf.node_conf w.random) _
        (λ node _.
          case-Builds Good layer
            (construct no_cb sep.level_separator sep.single_level_wildcard sep.multi_level_wildcard)
            _
            (λ sub_db made.
              let (trie, clear) =
                construct-IsTrie no_cb sep.level_separator sep.single_level_wildcard
                  sep.multi_level_wildcard made in
              guard-Builds Good layer has_layer _ (λ there d e.
                let (same, subs, on) =
                  start-Ready w retained
                    (record {
                      conf = conf;
                      node = node;
                      sub_db = sub_db;
                      gw = Peer.no_peer;
                      pending_msgs = [];
                      msgs_fail_cnt = 0;
                      time_sync_no_resp_cnt = 0;
                      ignore_invalid_msg_ts = true;
                      effects = [];
                    })
                    d e in
                (there, same, on, rw subs trie, λ p. rw subs (clear p)))))
        c h
