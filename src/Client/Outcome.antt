-- ===== src/Client/Outcome.antt =====
-- What a request to the gateway does to the failure count, to the watchdog and to the subscriptions
-- (`sendLocal` of src/common/client.cpp).
use kvik.Base.{
  ℕ, ◌≡◌, refl, ◌≢◌, Bool, true, false, ◌||◌, List, [], ◌∷◌, ◌++◌, some, ◌==◌, leb, ◌+◌, ◌%◌, subst,
}
use kvik.Message.{ErrCode, LocalMsgType, type_eq, LocalMsg, default_msg, failed}
use kvik.Client.State.{Client, Effect}
use kvik.Client.Send.{send_local_unchecked, send_local, count_failure, Exchange}
use kvik.Client.Subs.{request}
use kvik.Client.Post.{>>=-eq-some, Post, some-Post, if-Post, if-M-Post}
use kvik.Client.Frame.{Keeps, send_local_unchecked-Keeps}

-- The number of failures that triggers the discovery is reached.
abbrev pub trigger_due : Client → ℕ → Bool
trigger_due c cnt =
    c.conf.gw_dscv.trig_msgs_fail_cnt == 0 || leb c.conf.gw_dscv.trig_msgs_fail_cnt cnt

-- The last thing done was to wake the watchdog up.
abbrev pub Triggered : Client → Type 0
Triggered c = (es : List Effect) × (c.effects ≡ es ++ Effect.triggers_discovery ∷ [])

-- The client `c'` that a request with the code `e` leaves of `c`.
abbrev pub Counted : Client → ErrCode → Client → Type 0
Counted c e c' =
    (c'.sub_db ≡ c.sub_db)
    × (c'.gw ≡ c.gw)
    × (e ≡ ErrCode.success → c'.msgs_fail_cnt ≡ 0)
    × (e ≢ ErrCode.success
        → (c'.msgs_fail_cnt ≡ (c.msgs_fail_cnt + 1) % 65536)
          × (trigger_due c ((c.msgs_fail_cnt + 1) % 65536) ≡ true → Triggered c'))

count_failure-Counted :
    (e : ErrCode) (r : LocalMsg) (c d : Client)
    → e ≢ ErrCode.success
    → Keeps c d
    → Post (λ a c'. Counted c a.0 c') (count_failure e r d)
unfolding count_failure
count_failure-Counted e r c d ne k =
    let cnt = (d.msgs_fail_cnt + 1) % 65536 in
    let same : trigger_due d cnt ≡ trigger_due c ((c.msgs_fail_cnt + 1) % 65536) =
      rw (k.conf, k.msgs_fail_cnt) in
    let count : cnt ≡ (c.msgs_fail_cnt + 1) % 65536 = rw k.msgs_fail_cnt in
    if-Post (trigger_due d cnt) _ _
      (λ t.
        some-Post _ (e, r)
          (record d { msgs_fail_cnt = cnt; effects = d.effects ++ Effect.triggers_discovery ∷ [] })
          (k.sub_db, k.gw, (λ s. absurd (ne s)), (λ n. (count, (λ u. (d.effects, refl))))))
      (λ f.
        some-Post _ (e, r) (record d { msgs_fail_cnt = cnt })
          (k.sub_db, k.gw, (λ s. absurd (ne s)), (λ n. (count, (λ u. absurd (cc))))))

failed-ne : (e : ErrCode) → failed e ≡ true → e ≢ ErrCode.success
failed-ne e h s = cc

-- When `send_local` returns, the count of failures is zero after a success and has grown by one,
-- as a uint16_t, after a failure, which wakes the watchdog up if the threshold is zero or reached;
-- the subscriptions and the gateway are what they were.
pub send_local-counts :
    (x : Exchange) (msg resp : LocalMsg) (c : Client) {e : ErrCode} {r : LocalMsg} {c' : Client}
    → send_local x msg resp c ≡ some ((e, r), c')
    → Counted c e c'
unfolding send_local
send_local-counts x msg resp c {e} {r} {c'} h =
    let ((e0, r0), d, sent, g) =
      >>=-eq-some (send_local_unchecked x msg resp false) _ c ((e, r), c') h in
    let k = send_local_unchecked-Keeps x msg resp false c (e0, r0) d sent in
    if-M-Post {P = λ a z. Counted c a.0 z} (failed e0) (count_failure e0 r0) _ d
      (λ f. count_failure-Counted e0 r0 c d (failed-ne e0 f) k)
      (λ ok.
        if-M-Post (type_eq r0.type LocalMsgType.fail)
          (count_failure ErrCode.msg_processing_failed r0) _ d
          (λ t. count_failure-Counted ErrCode.msg_processing_failed r0 c d (λ s. absurd (cc)) k)
          (λ n.
            some-Post _ (ErrCode.success, r0) (record d { msgs_fail_cnt = 0 })
              (k.sub_db, k.gw, (λ s. refl), (λ ne. absurd (ne refl)))))
      (e, r) c' g

pub request-sub_db :
    (x : Exchange) (msg : LocalMsg) (c : Client) {e : ErrCode} {c' : Client}
    → request x msg c ≡ some (e, c')
    → c'.sub_db ≡ c.sub_db
unfolding request
request-sub_db x msg c {e} {c'} h =
    let ((e0, r0), d, sent, g) = >>=-eq-some (send_local x msg default_msg) _ c (e, c') h in
    let same : d ≡ c' = cc in
    subst (λ z. z.sub_db ≡ c.sub_db) same (send_local-counts x msg default_msg c sent).0
