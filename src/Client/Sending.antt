-- ===== src/Client/Sending.antt =====
-- What sending a request (src/common/client.cpp) does not change: a relation between the client
-- before and after that receiving, the end of the wait and the failure count keep.
use kvik.Base.{
  ℕ, Bool, if◌then◌else◌, true, false, ◌&&◌, ◌||◌, List, [], ◌++◌, ◌∷◌, ◌==◌, leb, ◌+◌, ◌%◌,
}
use kvik.Message.{ErrCode, LocalMsg, LocalMsgType, type_eq, default_msg, failed, PubData}
use kvik.Client.State.{Client, Effect, ◌>>◌, pure}
use kvik.Client.Receive.{Posted, refused, posted, post}
use kvik.Client.Send.{
  Exchange, arrive, take_resp, send_local_unchecked, send_local, count_failure, reset_failures,
}
use kvik.Client.Subs.{is_nil, bulk_msg, request, update_db, pub_sub_unsub_bulk, publish_bulk}
use kvik.Client.Post.{some-Post, if-Post}
use kvik.Client.Stays.{Stays, pure-Stays, >>=-Stays, if-Stays, post-Stays, arrive-Stays}
use kvik.Client.Framed.{IsWaited}

-- The failure count keeps it too.
pub record IsSent (R : Client → Client → Type 0) : Type 0 where
  pub wait : IsWaited R
  pub counts : (c : Client) (n : ℕ) → R c (record c { msgs_fail_cnt = n })

module _ {R : Client → Client → Type 0} (k : IsWaited R) where
  pub send_local_unchecked-Stays :
      (x : Exchange) (msg resp : LocalMsg) (no_resp : Bool)
      → Stays R (send_local_unchecked x msg resp no_resp)
  unfolding send_local_unchecked
  send_local_unchecked-Stays x msg resp no_resp =
      >>=-Stays k.kept (post x.start x.sent msg) _ (post-Stays k.kept x.start x.sent msg) after
    where
      after :
          (p : Posted)
          → Stays {A = ErrCode × LocalMsg} R (elim p [
            | refused e ↦ pure (e, resp)
            | posted id ↦
                if no_resp
                then pure (ErrCode.success, resp)
                else (do arrive x.arrivals; take_resp id resp)
          ])
      after (refused e) = pure-Stays k.kept (e, resp)
      after (posted id) = if-Stays k.kept no_resp _ _ (pure-Stays k.kept (ErrCode.success, resp)) (
          >>=-Stays k.kept (arrive x.arrivals) _ (arrive-Stays k.kept x.arrivals)
            (λ u. k.takes id resp))

module _ {R : Client → Client → Type 0} (s : IsSent R) where
  count_failure-Stays : (e : ErrCode) (r : LocalMsg) → Stays R (count_failure e r)
  unfolding count_failure
  count_failure-Stays e r c =
      let cnt = (c.msgs_fail_cnt + 1) % 65536 in
      let d : Client = record c { msgs_fail_cnt = cnt } in
      let es : List Effect = c.effects ++ Effect.triggers_discovery ∷ [] in
      let k = s.wait.kept in
      if-Post {P = λ b d. R c d}
        (c.conf.gw_dscv.trig_msgs_fail_cnt == 0 || leb c.conf.gw_dscv.trig_msgs_fail_cnt cnt) _ _
        (λ _.
          some-Post (λ b d. R c d) (e, r) (record d { effects = es })
            (k.chain c d (record d { effects = es }) (s.counts c cnt)
              (k.does d (Effect.triggers_discovery ∷ []))))
        (λ _. some-Post (λ b d. R c d) (e, r) d (s.counts c cnt))

  pub send_local-Stays : (x : Exchange) (msg resp : LocalMsg) → Stays R (send_local x msg resp)
  unfolding send_local
  send_local-Stays x msg resp =
      let k = s.wait.kept in
      >>=-Stays k (send_local_unchecked x msg resp false) _
        (send_local_unchecked-Stays s.wait x msg resp false)
        (λ a. if-Stays k (failed a.0) (count_failure a.0 a.1) _ (count_failure-Stays a.0 a.1) (
          if-Stays k (type_eq a.1.type LocalMsgType.fail)
            (count_failure ErrCode.msg_processing_failed a.1) (reset_failures a.1)
            (count_failure-Stays ErrCode.msg_processing_failed a.1)
            (λ c. some-Post (λ b d. R c d) (ErrCode.success, a.1) _ (s.counts c 0))))

  request-Stays : (x : Exchange) (msg : LocalMsg) → Stays R (request x msg)
  unfolding request
  request-Stays x msg =
      >>=-Stays s.wait.kept (send_local x msg default_msg) _ (send_local-Stays x msg default_msg)
        (λ a. pure-Stays s.wait.kept _)

  pub publish_bulk-Stays : (x : Exchange) (pubs : List PubData) → Stays R (publish_bulk x pubs)
  unfolding pub_sub_unsub_bulk
  publish_bulk-Stays x pubs =
      let k = s.wait.kept in
      if-Stays k (is_nil pubs && true) _ _ (pure-Stays k ErrCode.success) (
        >>=-Stays k (request x (bulk_msg pubs [] [])) _ (request-Stays x (bulk_msg pubs [] []))
          (λ e.
            if-Stays k (failed e) (pure e) (update_db [] []) (pure-Stays k e)
              (λ c. some-Post (λ b d. R c d) ErrCode.success c (k.same c))))
