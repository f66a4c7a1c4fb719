-- ===== src/Client/Delivery.antt =====
-- The callbacks that `recvLocalSubData` (src/common/client.cpp) calls.
use kvik.Base.{
  ℕ, ◌≡◌, refl, sym, ap, ◌∙◌, ◌⊎◌, inl, inr, false, not, List, [], ◌∷◌, ◌++◌, append_assoc,
  append-nil, Option, Option-cases, Bool-cases, none, true, some, Str, str_eq, str_eq_iff, subst,
  arith, if◌then◌else◌, In, In-append,
}
use kvik.Message.{ErrCode, failed, LocalMsgType, LocalMsg, default_msg, SubData, SubCb, addr_empty}
use kvik.Node.{get_msg_id, validate_msg_id, validate_msg_timestamp}
use kvik.Trie.Ops.{Trie}
use kvik.Trie.Insert.{IsTrie}
use kvik.Trie.Find.Spec.{Subscribed, find-Subscribed}
use kvik.Client.State.{
  Client, Effect, ◌>>=◌, ◌>>◌, pure, emit, find_pending, prepare_msg, add_pending,
}
use kvik.Client.Receive.{Posted, refused, posted, post, call_all, recv_local_sub_data}
use kvik.Client.Post.{queue, Post, some-Post, none-Post, if-Post, if-M-Post, case-Post, >>=-Post}
use kvik.Client.Leftover.{Pending}
use kvik.Client.Calls.{all_calls, >>-runs, call_all-calls, all_calls-In}

-- A step that adds effects, none of them a callback.
record Quiet (c c' : Client) : Type 0 where
  sub_db : c'.sub_db ≡ c.sub_db
  effects : List Effect
  added : c'.effects ≡ c.effects ++ effects
  no_call : (cb : SubCb) (d : SubData) → ¬ In (Effect.calls_back cb d) effects

still : (c d : Client) → d.sub_db ≡ c.sub_db → d.effects ≡ c.effects → Quiet c d
still c d p q = record {
  sub_db = p;
  effects = [];
  added = q ∙ sym (append-nil c.effects);
  no_call = λ cb e h. h;
}

-- The subscriptions and the effects are the same.
abbrev Same : Client → Client → Type 0
Same c d = (d.sub_db ≡ c.sub_db) × (d.effects ≡ c.effects)

queue-Quiet :
    (ack : ErrCode) (q : LocalMsg) (c d : Client)
    → Same c d
    → Post (λ p f. Quiet c f) (queue false ack q d)
unfolding add_pending
queue-Quiet ack q c d s =
    let end : Posted = if failed ack then refused ack else posted q.id in
    >>=-Post {P = λ u f. Same c f} {Q = λ p f. Quiet c f} (add_pending q false)
      (λ u. emit (Effect.sends q) >> pure end) d
      (case-Post {P = λ u f. Same c f} (find_pending q.id d.pending_msgs) _ _
        (λ _. some-Post (λ u f. Same c f) tt _ s) (λ p _. none-Post (λ u f. Same c f)))
      (λ u f t.
        some-Post (λ p f. Quiet c f) end (record f { effects = f.effects ++ Effect.sends q ∷ [] })
          (record {
            sub_db = t.0;
            effects = Effect.sends q ∷ [];
            added = rw t.1 refl;
            no_call = λ cb x h. elim h [ inl y ↦ absurd (cc) | inr y ↦ y ];
          }))

post-Quiet :
    (now : ℕ) (ack : ErrCode) (msg : LocalMsg) (c : Client)
    → Post (λ p d. Quiet c d) (post now ack msg c)
unfolding post prepare_msg add_pending
post-Quiet now ack msg c =
    >>=-Post {P = λ q d. Same c d} {Q = λ p d. Quiet c d} (prepare_msg now false msg)
      (λ q. if addr_empty q.addr then pure (refused ErrCode.no_gateway) else queue false ack q) c
      (some-Post (λ q d. Same c d) _ _ (refl, refl))
      (λ q d s.
        if-M-Post {P = λ p d. Quiet c d} (addr_empty q.addr) (pure (refused ErrCode.no_gateway))
          (queue false ack q) d
          (λ e. some-Post (λ p d. Quiet c d) (refused ErrCode.no_gateway) d (still c d s.0 s.1))
          (λ e. queue-Quiet ack q c d s))

-- What receiving subscription data has done.
abbrev pub Delivers : Client → LocalMsg → ErrCode → Client → Type 0
Delivers c msg e c' =
    (¬ (e ≡ ErrCode.success) × (c'.effects ≡ c.effects))
    ⊎ ((e ≡ ErrCode.success)
        × (msg.addr ≡ c.gw.addr)
        × (es : List Effect) × (c'.effects ≡ c.effects ++ es)
        × ((cb : SubCb) (d : SubData)
            → In (Effect.calls_back cb d) es
            → In d msg.subs_data × (k : Str) × Subscribed c.sub_db d.topic k cb)
        × ((d : SubData) (k : Str) (cb : SubCb)
            → In d msg.subs_data
            → Subscribed c.sub_db d.topic k cb
            → (w : SubCb) × In (Effect.calls_back w d) es))

refuses :
    (c d : Client) (msg : LocalMsg) (e : ErrCode)
    → d.effects ≡ c.effects
    → ¬ (e ≡ ErrCode.success)
    → Post (λ a f. Delivers c msg a f) (some (e, d))
refuses c d msg e same ne = some-Post (λ a f. Delivers c msg a f) e d (inl (ne, same))

-- The end of the handler: the confirmation, then the callbacks.
confirmed :
    (now : ℕ) (ack : ErrCode) (msg : LocalMsg) (c d : Client)
    → IsTrie c.sub_db
    → d.sub_db ≡ c.sub_db
    → d.effects ≡ c.effects
    → msg.addr ≡ c.gw.addr
    → Post
        (λ a f. Delivers c msg a f)
        ((do
          _ ← post now ack (record default_msg { type = LocalMsgType.ok })
          call_all msg.subs_data
          pure ErrCode.success)
          d)
confirmed now ack msg c d trie subs effs from =
    let ok : LocalMsg = record default_msg { type = LocalMsgType.ok } in
    let P : ErrCode → Client → Type 0 = λ a f. Delivers c msg a f in
    >>=-Post {P = λ p e. Quiet d e} {Q = P} (post now ack ok) _ d (post-Quiet now ack ok d)
      (λ p e q.
        let all = all_calls c.sub_db msg.subs_data in
        let same : e.sub_db ≡ c.sub_db = q.sub_db ∙ subs in
        let done : (call_all msg.subs_data >> pure ErrCode.success) e
            ≡ some (ErrCode.success, record e { effects = e.effects ++ all }) =
          >>-runs (call_all msg.subs_data) (pure ErrCode.success) e _
            (call_all-calls msg.subs_data e)
          ∙ ap
              (λ (t : Trie SubCb).
                some
                  (ErrCode.success, record e { effects = e.effects ++ all_calls t msg.subs_data }))
              same in
        let added : e.effects ++ all ≡ c.effects ++ (q.effects ++ all) =
          ap (λ (es : List Effect). es ++ all)
            (q.added ∙ ap (λ (es : List Effect). es ++ q.effects) effs)
          ∙ append_assoc c.effects q.effects all in
        subst (Post P) (sym done) (
          some-Post P ErrCode.success _ (
            inr (
              refl,
              from,
              q.effects ++ all,
              added,
              (λ cb x m. elim ((In-append _ q.effects all).0 m) [
                | inl no_m ↦ absurd (q.no_call cb x no_m)
                | inr y ↦
                    let (there, k, i) = (all_calls-In c.sub_db msg.subs_data cb x).0 y in
                    (there, k, (find-Subscribed c.sub_db x.topic trie).1 k cb i)
              ]),
              (λ x k cb there sub.
                  let (w, i) = (find-Subscribed c.sub_db x.topic trie).2 k cb sub in
                  (
                    w,
                    (In-append _ q.effects all).1
                        (inr ((all_calls-In c.sub_db msg.subs_data w x).1 (there, k, i))),
                  )),
            ))))

-- Where the handler returns.
pub returned-Delivers :
    (now : ℕ) (ack : ErrCode) (msg : LocalMsg) (c : Client)
    → IsTrie c.sub_db
    → {e : ErrCode} {c' : Client} → recv_local_sub_data now ack msg c ≡ some (e, c')
    → Delivers c msg e c'
unfolding recv_local_sub_data
returned-Delivers now ack msg c trie {e} {c'} h =
    let v = validate_msg_id c.node msg.addr msg.id in
    let d : Client = record c { node = v.1 } in
    let P : ErrCode → Client → Type 0 = λ a f. Delivers c msg a f in
    if-Post {P = P} (not v.0) _ _ (λ _. refuses c d msg ErrCode.msg_dup_id refl (λ s. cc))
      (λ _.
        if-Post {P = P} (not (validate_msg_timestamp v.1 now msg.ts c.gw.ts_diff)) _ _
          (λ _. refuses c d msg ErrCode.msg_invalid_ts refl (λ s. cc))
          (λ _.
            if-Post {P = P} (not (str_eq msg.addr c.gw.addr)) _ _
              (λ _. refuses c d msg ErrCode.msg_unknown_sender refl (λ s. cc))
              (λ same.
                confirmed now ack msg c d trie refl refl
                  ((str_eq_iff msg.addr c.gw.addr).0 (ground arith)))))
      e c' h

-- The message was accepted, and the client found an entry under its next ID: the confirmation throws.
abbrev pub Throws : Client → LocalMsg → Type 0
Throws c msg =
    ((validate_msg_id c.node msg.addr msg.id).0 ≡ true)
    × (msg.addr ≡ c.gw.addr)
    × (addr_empty c.gw.addr ≡ false)
    × Pending c.node.msg_id c

post-throws :
    (now : ℕ) (ack : ErrCode) (msg : LocalMsg) (c : Client)
    → post now ack msg c ≡ none
    → (addr_empty c.gw.addr ≡ false) × Pending c.node.msg_id c
unfolding post prepare_msg get_msg_id add_pending
post-throws now ack msg c h = elim (Bool-cases (addr_empty c.gw.addr)) [
  | inl e ↦ let g = rw e at h in absurd (cc)
  | inr e ↦ elim (Option-cases (find_pending c.node.msg_id c.pending_msgs)) [
    | inl f ↦ let g = rw (e, if◌then◌else◌, ◌>>◌, ◌>>=◌, add_pending, f) at h in absurd (cc)
    | inr (p, f) ↦ (e, (p, f))
  ]
]

-- The end of the handler throws only where the confirmation does.
confirmed-throws :
    (now : ℕ) (ack : ErrCode) (ok : LocalMsg) (ds : List SubData) (d : Client)
    → (post now ack ok >>= λ p. call_all ds >> pure ErrCode.success) d ≡ none
    → post now ack ok d ≡ none
confirmed-throws now ack ok ds d h = elim (Option-cases (post now ack ok d)) [
  | inl e ↦ e
  | inr ((p, e), f) ↦
      let g = rw (f, ◌>>=◌) at h in
      let k = >>-runs (call_all ds) (pure ErrCode.success) e _ (call_all-calls ds e) in
      absurd (cc (g, k))
]

thrown-Throws :
    (now : ℕ) (ack : ErrCode) (msg : LocalMsg) (c : Client)
    → recv_local_sub_data now ack msg c ≡ none
    → Throws c msg
unfolding recv_local_sub_data validate_msg_id
thrown-Throws now ack msg c h =
    let v = validate_msg_id c.node msg.addr msg.id in
    let d : Client = record c { node = v.1 } in
    let ok : LocalMsg = record default_msg { type = LocalMsgType.ok } in
    elim (Bool-cases v.0) [
      | inr e ↦ let g = rw e at h in absurd (cc)
      | inl e ↦ elim (Bool-cases (validate_msg_timestamp v.1 now msg.ts c.gw.ts_diff)) [
        | inr t ↦ let g = rw (e, t) at h in absurd (cc)
        | inl t ↦ elim (Bool-cases (str_eq msg.addr c.gw.addr)) [
          | inr a ↦ let g = rw (e, t, a) at h in absurd (cc)
          | inl a ↦
              let (far, there) =
                post-throws now ack ok d
                  (confirmed-throws now ack ok msg.subs_data d (rw (e, t, a) at h)) in
              (e, (str_eq_iff msg.addr c.gw.addr).0 a, far, there)
        ]
      ]
    ]

-- What the handler comes to.
abbrev pub Outcome : Client → LocalMsg → Option (ErrCode × Client) → Type 0
Outcome c msg none = Throws c msg
Outcome c msg (some (e, c')) = Delivers c msg e c'

-- On a client whose database is a trie, receiving subscription data has one of three outcomes. It is
-- refused: nothing is sent and no callback is called. Or it succeeds: then the sender is the
-- gateway, effects are added, and a callback is called with a datum only if the datum is in the
-- message and a subscription with that callback matches its topic; and for each datum in the
-- message and each subscription that matches its topic some callback is called with the datum. Or
-- an exception leaves it: then the message had a fresh ID and came from the gateway, but an entry
-- was still pending under the next ID of the client, which the confirmation is to have.
pub recv_local_sub_data-Delivers :
    (now : ℕ) (ack : ErrCode) (msg : LocalMsg) (c : Client)
    → IsTrie c.sub_db
    → Outcome c msg (recv_local_sub_data now ack msg c)
recv_local_sub_data-Delivers now ack msg c trie =
    by_outcome (recv_local_sub_data now ack msg c) refl
  where
    by_outcome :
        (o : Option (ErrCode × Client)) → recv_local_sub_data now ack msg c ≡ o → Outcome c msg o
    by_outcome none h = thrown-Throws now ack msg c h
    by_outcome (some (e, c')) h = returned-Delivers now ack msg c trie h
