-- ===== src/Client/Answered.antt =====
-- What a sender gets from `sendLocal` of src/common/client.cpp.
use kvik.Base.{
  ℕ, ◌≡◌, refl, ◌∙◌, ◌≢◌, true, false, ◌||◌, List, [], ◌∷◌, ◌++◌, some, ==_iff, if◌then◌else◌,
  subst, ◌==◌, All, ◌+◌, ◌%◌, leb,
}
use kvik.Client.Send.{arrive, take_resp, first_resp, send_local_unchecked, Exchange}
use kvik.Message.{ErrCode, LocalMsgType, LocalMsg, failed, addr_empty, LocalAddr}
use kvik.Client.State.{Client, M, Effect, emit, prepare_msg, add_pending, ◌>>◌, pure, find_pending}
use kvik.Client.Receive.{is_response_to, post, Posted, refused, posted}
use kvik.Client.Stays.{arrive-Stays}
use kvik.Client.Post.{Post, some-Post, none-Post, if-Post, if-M-Post, case-Post, >>=-Post}
use kvik.Client.Responses.{Answers, Waiting, Waiting-same, Leaves-IsKept}
use kvik.Client.Send.{send_local, count_failure, reset_failures}
use kvik.Message.{type_eq}

-- A success comes with an answer.
abbrev Answered : LocalMsg → (ErrCode × LocalMsg) → Client → Type 0
Answered m a c' = a.0 ≡ ErrCode.success → Answers m a.1

first_resp-Answered :
    (m : LocalMsg) (rs : List LocalMsg) (c : Client)
    → All (Answers m) rs
    → Post (Answered m) (first_resp rs c)
first_resp-Answered m [] c h = none-Post (Answered m)
first_resp-Answered m (r ∷ rs) c h = some-Post (Answered m) (ErrCode.success, r) c (λ s. h.0)

take_resp-Answered :
    (m resp : LocalMsg) (id : ℕ) (c : Client)
    → Waiting m id c
    → Post (Answered m) (take_resp id resp c)
unfolding take_resp
take_resp-Answered m resp id c w =
    case-Post {P = Answered m} (find_pending id c.pending_msgs) _ _ (λ n. absurd (cc (n, w.found)))
      (λ p f.
        let own : p ≡ w.entry = cc (f, w.found) in
        if-Post {P = Answered m} p.ready _ _ (λ t. first_resp-Answered m p.resps _ (rw own w.good))
          (λ t. some-Post (Answered m) (ErrCode.timeout, resp) _ (λ s. absurd (cc))))

-- What `post` leaves when it answers with an ID.
abbrev pub Sent : LocalAddr → LocalMsgType → Posted → Client → Type 0
Sent addr type (refused e) c' = e ≢ ErrCode.success
Sent addr type (posted id) c' = (m : LocalMsg) × (m.addr ≡ addr) × (m.type ≡ type) × Waiting m id c'

fresh_entry :
    (q : LocalMsg) (d : Client)
    → Waiting q q.id (record d {
      pending_msgs =
          (q.id, record { req = q; broadcast = false; ready = false; resps = [] }) ∷ d.pending_msgs;
    })
unfolding find_pending
fresh_entry q d = record {
  entry = record { req = q; broadcast = false; ready = false; resps = [] };
  found = rw ((==_iff q.id q.id).1 refl) refl;
  req = refl;
  single = refl;
  good = tt;
  ready = λ e. absurd (cc);
}

add_pending-Waiting :
    (q : LocalMsg) (c : Client) → Post (λ u d. Waiting q q.id d) (add_pending q false c)
unfolding add_pending
add_pending-Waiting q c =
    let P : Unit {0} → Client → Type 0 = λ u d. Waiting q q.id d in
    case-Post {P = P} (find_pending q.id c.pending_msgs) _ _
      (λ free. some-Post P tt _ (fresh_entry q c)) (λ p h. none-Post P)

ended :
    (addr : LocalAddr) (type : LocalMsgType) (q : LocalMsg) (d : Client) (e : ErrCode)
    → q.addr ≡ addr
    → q.type ≡ type
    → Waiting q q.id d
    → Sent addr type (if failed e then refused e else posted q.id) d
ended addr type q d ErrCode.success a t w = (q, a, t, w)
ended addr type q d _ a t w = λ e. absurd (cc)

pub post-Sent :
    (now : ℕ) (sent : ErrCode) (msg : LocalMsg) (c : Client)
    → Post (Sent c.gw.addr msg.type) (post now sent msg c)
unfolding post prepare_msg
post-Sent now sent msg c =
    let S : Posted → Client → Type 0 = Sent c.gw.addr msg.type in
    >>=-Post {P = λ q d. (q.addr ≡ c.gw.addr) × (q.type ≡ msg.type)} {Q = S}
      (prepare_msg now false msg)
      (λ q.
        if addr_empty q.addr
        then pure (refused ErrCode.no_gateway)
        else (add_pending q false
            >> (emit (Effect.sends q) >> pure (if failed sent then refused sent else posted q.id))))
      c (some-Post (λ q d. (q.addr ≡ c.gw.addr) × (q.type ≡ msg.type)) _ _ (refl, refl))
      (λ q d same.
        if-M-Post {P = S} (addr_empty q.addr) (pure (refused ErrCode.no_gateway))
          (add_pending q false
            >> (emit (Effect.sends q) >> pure (if failed sent then refused sent else posted q.id)))
          d (λ b. some-Post S (refused ErrCode.no_gateway) d (λ e. absurd (cc)))
          (λ b.
            >>=-Post {P = λ u d2. Waiting q q.id d2} {Q = S} (add_pending q false) _ d
              (add_pending-Waiting q d)
              (λ u d2 w.
                some-Post S (if failed sent then refused sent else posted q.id) _
                  (ended c.gw.addr msg.type q _ sent same.0 same.1 (Waiting-same refl w)))))

-- The answer, from the address and of a type for a request.
abbrev Replied : LocalAddr → LocalMsgType → (ErrCode × LocalMsg) → Client → Type 0
Replied addr type a c' =
    a.0 ≡ ErrCode.success → (a.1.addr ≡ addr) × (is_response_to a.1.type type ≡ true)

take_resp-Replied :
    (addr : LocalAddr) (type : LocalMsgType) (m resp : LocalMsg) (id : ℕ) (c : Client)
    → m.addr ≡ addr
    → m.type ≡ type
    → Waiting m id c
    → Post (Replied addr type) (take_resp id resp c)
take_resp-Replied addr type m resp id c p q w a c' h s =
    let (from, answers) = take_resp-Answered m resp id c w a c' h s in
    (from ∙ p, subst (λ z. is_response_to a.1.type z ≡ true) q answers)

-- What follows `post`.
abbrev pub wait : Exchange → LocalMsg → Posted → M (ErrCode × LocalMsg)
wait x resp p = elim p [
  | refused e ↦ pure (e, resp)
  | posted id ↦
      if false then pure (ErrCode.success, resp) else (arrive x.arrivals >> take_resp id resp)
]

waited :
    (x : Exchange) (resp : LocalMsg) (addr : LocalAddr) (type : LocalMsgType) (p : Posted)
    (c : Client)
    → Sent addr type p c
    → Post (Replied addr type) (wait x resp p c)
waited x resp addr type (refused e) c n =
    some-Post (Replied addr type) (e, resp) c (λ s. absurd (n s))
waited x resp addr type (posted id) c (m, p, q, w) =
    >>=-Post {P = λ u d. Waiting m id d} (arrive x.arrivals) _ c
      (λ u d e. arrive-Stays (Leaves-IsKept m id) x.arrivals c u d e w)
      (λ u d w2. take_resp-Replied addr type m resp id d p q w2)

send_local_unchecked-Replied :
    (x : Exchange) (msg resp : LocalMsg) (c : Client)
    → Post (Replied c.gw.addr msg.type) (send_local_unchecked x msg resp false c)
unfolding send_local_unchecked
send_local_unchecked-Replied x msg resp c =
    >>=-Post {P = Sent c.gw.addr msg.type} {Q = Replied c.gw.addr msg.type}
      (post x.start x.sent msg) _ c (post-Sent x.start x.sent msg c)
      (λ p d s. waited x resp c.gw.addr msg.type p d s)

count_failure-fails :
    (P : LocalMsg → Type 0) (e : ErrCode) (r : LocalMsg) (c : Client)
    → e ≢ ErrCode.success
    → Post (λ a c'. a.0 ≡ ErrCode.success → P a.1) (count_failure e r c)
unfolding count_failure
count_failure-fails P e r c n =
    let cnt = (c.msgs_fail_cnt + 1) % 65536 in
    if-Post {P = λ a c'. a.0 ≡ ErrCode.success → P a.1}
      (c.conf.gw_dscv.trig_msgs_fail_cnt == 0 || leb c.conf.gw_dscv.trig_msgs_fail_cnt cnt)
      (some (
        (e, r),
        record c { msgs_fail_cnt = cnt; effects = c.effects ++ Effect.triggers_discovery ∷ [] },
      ))
      (some ((e, r), record c { msgs_fail_cnt = cnt }))
      (λ b.
        some-Post (λ a c'. a.0 ≡ ErrCode.success → P a.1) (e, r)
          (record c { msgs_fail_cnt = cnt; effects = c.effects ++ Effect.triggers_discovery ∷ [] })
          (λ s. absurd (n s)))
      (λ b.
        some-Post (λ a c'. a.0 ≡ ErrCode.success → P a.1) (e, r) (record c { msgs_fail_cnt = cnt })
          (λ s. absurd (n s)))

pub failed-no : (e : ErrCode) → failed e ≡ false → e ≡ ErrCode.success
failed-no ErrCode.success h = refl
failed-no _ h = absurd (cc)

-- A success of `send_local` comes with a response from the gateway that the request went to, of a
-- type that answers the request and is not a failure, whatever arrives during the wait.
pub send_local-answered :
    (x : Exchange) (msg resp : LocalMsg) (c : Client) {r : LocalMsg} {c' : Client}
    → send_local x msg resp c ≡ some ((ErrCode.success, r), c')
    → (r.addr ≡ c.gw.addr)
      × (is_response_to r.type msg.type ≡ true)
      × (type_eq r.type LocalMsgType.fail ≡ false)
unfolding send_local
send_local-answered x msg resp c {r} {c'} h =
    let G : LocalMsg → Type 0 = λ r.
      (r.addr ≡ c.gw.addr)
      × (is_response_to r.type msg.type ≡ true)
      × (type_eq r.type LocalMsgType.fail ≡ false) in
    let Q : (ErrCode × LocalMsg) → Client → Type 0 = λ a c'. a.0 ≡ ErrCode.success → G a.1 in
    >>=-Post {P = Replied c.gw.addr msg.type} {Q = Q} (send_local_unchecked x msg resp false) _ c
      (send_local_unchecked-Replied x msg resp c)
      (λ a d ok.
        if-M-Post {P = Q} (failed a.0) (count_failure a.0 a.1) _ d
          (λ f. count_failure-fails G a.0 a.1 d (λ s. cc))
          (λ f.
            if-M-Post {P = Q} (type_eq a.1.type LocalMsgType.fail)
              (count_failure ErrCode.msg_processing_failed a.1) (reset_failures a.1) d
              (λ t. count_failure-fails G ErrCode.msg_processing_failed a.1 d (λ s. absurd (cc)))
              (λ t.
                some-Post Q (ErrCode.success, a.1) _
                  (λ s. let (from, answers) = ok (failed-no a.0 f) in (from, answers, t)))))
      (ErrCode.success, r) c' h refl
