-- ===== src/Client/Returns.antt =====
-- Where `sendLocal` of src/common/client.cpp returns.
use kvik.Base.{
  ℕ, ◌≡◌, refl, false, [], none, some, if◌then◌else◌, ◌==◌, leb, ◌%◌, ◌+◌, ◌||◌, Bool-cases, inl,
  inr,
}
use kvik.Message.{ErrCode, LocalMsg, LocalMsgType, type_eq, failed, addr_empty}
use kvik.Client.State.{Client, ◌>>◌, pure, emit, Effect, prepare_msg, add_pending, find_pending}
use kvik.Client.Receive.{Posted, refused, posted, post}
use kvik.Client.Send.{Exchange, arrive, send_local_unchecked, send_local, count_failure}
use kvik.Client.Answered.{wait}
use kvik.Client.Gives.{Gives, some-Gives, if-Gives, if-M-Gives, case-Gives, >>=-Gives}
use kvik.Client.Single.{Single, Clear, NoSubData, arrive-Keeps, take_resp-Clear}

-- What `post` leaves: a single message where the layer has accepted it.
abbrev Posts : ErrCode → Posted → Client → Type 0
Posts sent (refused e) c = failed sent ≡ false → Clear c
Posts sent (posted id) c = Single id c

posts_lem :
    (sent : ErrCode) (id : ℕ) (c : Client)
    → Single id c
    → Posts sent (if failed sent then refused sent else posted id) c
posts_lem sent id c s = elim (Bool-cases (failed sent)) [
  | inl e ↦ rw e (λ h. absurd (cc))
  | inr e ↦ rw e s
]

-- With nothing pending, the ID of the message is free.
add_pending-Single :
    (msg : LocalMsg) (c : Client)
    → Clear c
    → Gives (λ u d. Single msg.id d) (add_pending msg false c)
unfolding add_pending find_pending
add_pending-Single msg c h =
    let P : Unit {0} → Client → Type 0 = λ u d. Single msg.id d in
    let free : find_pending msg.id c.pending_msgs ≡ none = rw h refl in
    case-Gives P (find_pending msg.id c.pending_msgs) _ _
      (λ n. some-Gives P tt _ (record {
        entry = record { req = msg; broadcast = false; ready = false; resps = [] };
        alone = rw h refl;
        ready = λ t. absurd (cc);
      }))
      (λ p e. absurd (cc (free, e)))

post-Posts :
    (now : ℕ) (sent : ErrCode) (msg : LocalMsg) (c : Client)
    → Clear c
    → Gives (Posts sent) (post now sent msg c)
unfolding post prepare_msg
post-Posts now sent msg c h =
    let Q : Posted → Client → Type 0 = Posts sent in
    >>=-Gives (λ q d. Clear d) Q (prepare_msg now false msg)
      (λ q.
        if addr_empty q.addr
        then pure (refused ErrCode.no_gateway)
        else (add_pending q false
            >> (emit (Effect.sends q) >> pure (if failed sent then refused sent else posted q.id))))
      c (some-Gives (λ q d. Clear d) _ _ h)
      (λ q d clear'.
        if-M-Gives Q (addr_empty q.addr) _ _ d
          (λ _. some-Gives Q (refused ErrCode.no_gateway) d (λ k. clear'))
          (λ _.
            >>=-Gives (λ u e. Single q.id e) Q (add_pending q false) _ d
              (add_pending-Single q d clear')
              (λ u e s. some-Gives Q (if failed sent then refused sent else posted q.id) _ (
                posts_lem sent q.id _
                  (record { entry = s.entry; alone = s.alone; ready = s.ready })))))

-- Nothing is pending where the layer has accepted the message.
abbrev Ended : {A : Type 0} → ErrCode → A → Client → Type 0
Ended sent a c = failed sent ≡ false → Clear c

count_failure-Ended :
    (sent e : ErrCode) (r : LocalMsg) (c : Client)
    → (failed sent ≡ false → Clear c)
    → Gives (Ended sent) (count_failure e r c)
unfolding count_failure
count_failure-Ended sent e r c h =
    if-Gives (Ended sent)
      (c.conf.gw_dscv.trig_msgs_fail_cnt == 0
        || leb c.conf.gw_dscv.trig_msgs_fail_cnt ((c.msgs_fail_cnt + 1) % 65536))
      _ _ (λ _. some-Gives (Ended sent) (e, r) _ h) (λ _. some-Gives (Ended sent) (e, r) _ h)

send_local_unchecked-Ended :
    (x : Exchange) (msg resp : LocalMsg) (c : Client)
    → Clear c
    → NoSubData x.arrivals
    → Gives (Ended x.sent) (send_local_unchecked x msg resp false c)
unfolding send_local_unchecked
send_local_unchecked-Ended x msg resp c h n =
    >>=-Gives (Posts x.sent) (Ended x.sent) (post x.start x.sent msg) _ c
      (post-Posts x.start x.sent msg c h) after
  where
    after : (p : Posted) (d : Client) → Posts x.sent p d → Gives (Ended x.sent) (wait x resp p d)
    after (refused e) d k = some-Gives (Ended x.sent) (e, resp) d k
    after (posted id) d s =
        >>=-Gives (λ u f. Single id f) (Ended x.sent) (arrive x.arrivals) _ d
          (arrive-Keeps id x.arrivals n d s)
          (λ u f s2. let (r, e, k) = take_resp-Clear id resp f s2 in (r, e, λ _. k))

-- `send_local` returns where no message is pending before and no subscription data arrives during
-- the wait, whatever responses do: no promise is fulfilled twice, and the response is there when
-- the wait ends. If the layer has accepted the message, then no message is pending afterwards, so
-- that the client can send the next one.
pub send_local-returns :
    (x : Exchange) (msg resp : LocalMsg) (c : Client)
    → c.pending_msgs ≡ []
    → NoSubData x.arrivals
    → (r : (ErrCode × LocalMsg) × Client) × (send_local x msg resp c ≡ some r)
      × (failed x.sent ≡ false → r.1.pending_msgs ≡ [])
unfolding send_local
send_local-returns x msg resp c h n =
    >>=-Gives (Ended x.sent) (Ended x.sent) (send_local_unchecked x msg resp false) _ c
      (send_local_unchecked-Ended x msg resp c h n)
      (λ a d k.
        if-M-Gives (Ended x.sent) (failed a.0) _ _ d (λ _. count_failure-Ended x.sent a.0 a.1 d k)
          (λ _.
            if-M-Gives (Ended x.sent) (type_eq a.1.type LocalMsgType.fail) _ _ d
              (λ _. count_failure-Ended x.sent ErrCode.msg_processing_failed a.1 d k)
              (λ _. some-Gives (Ended x.sent) (ErrCode.success, a.1) _ k)))
