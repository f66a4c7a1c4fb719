-- ===== src/Client/Framed.antt =====
-- The small steps of a client (src/common/client.cpp) keep a relation between the client before and
-- after that the changes of single fields keep.
use kvik.Base.{ℕ, Bool, true, not, ◌&&◌, List, [], ◌∷◌, ◌++◌, some, str_eq}
use kvik.Message.{ErrCode, LocalMsg, failed}
use kvik.Node.{INode}
use kvik.Client.State.{
  Client, PendingMsg, Effect, emit, find_pending, erase_pending, prepare_msg, add_pending,
}
use kvik.Client.Receive.{is_response_to, no_resps, accept_resp}
use kvik.Client.Send.{
  Exchange, arrive, take_resp, take_resps, first_resp, send_local_unchecked_broadcast,
}
use kvik.Client.Post.{Post, some-Post, none-Post, if-Post, case-Post}
use kvik.Client.Stays.{
  Stays, IsKept, pure-Stays, >>=-Stays, if-Stays, emit-Stays, prepare_msg-Stays, arrive-Stays,
}

-- The end of a wait keeps the relation as well.
pub record IsWaited (R : Client → Client → Type 0) : Type 0 where
  pub kept : IsKept R
  pub takes : (id : ℕ) (resp : LocalMsg) → Stays R (take_resp id resp)

-- A relation that all changes keep but those of the gateway, the counters and the subscriptions.
pub record IsFramed (R : Client → Client → Type 0) : Type 0 where
  pub same : (c : Client) → R c c
  pub chain : (c d e : Client) → R c d → R d e → R c e
  pub nodes : (c : Client) (n : INode) → R c (record c { node = n })
  pub does : (c : Client) (es : List Effect) → R c (record c { effects = c.effects ++ es })
  pub puts : (c : Client) (ps : List (ℕ × PendingMsg)) → R c (record c { pending_msgs = ps })

module _ {R : Client → Client → Type 0} (f : IsFramed R) where
  put_pending-Stays :
      {A : Type 0} (a : A) (c : Client) (ps : List (ℕ × PendingMsg))
      → Post (λ b d. R c d) (some (a, record c { pending_msgs = ps }))
  put_pending-Stays a c ps = some-Post (λ b d. R c d) a _ (f.puts c ps)

  add_pending-Stays : (msg : LocalMsg) (b : Bool) → Stays R (add_pending msg b)
  unfolding add_pending
  add_pending-Stays msg b c =
      case-Post {P = λ a d. R c d} (find_pending msg.id c.pending_msgs) _ _
        (λ _. put_pending-Stays tt c _) (λ p _. none-Post (λ a d. R c d))

  accept_resp-Stays : (msg : LocalMsg) (p : PendingMsg) → Stays R (accept_resp msg p)
  unfolding accept_resp
  accept_resp-Stays msg p c =
      let P : ErrCode → Client → Type 0 = λ a d. R c d in
      let refuse : (e : ErrCode) → Post P (some (e, c)) = λ e. some-Post P e c (f.same c) in
      if-Post {P = P} (not p.broadcast && not (str_eq p.req.addr msg.addr)) _ _
        (λ _. refuse ErrCode.msg_unknown_sender)
        (λ _.
          if-Post {P = P} (is_response_to msg.type p.req.type) _ _
            (λ _.
              if-Post {P = P} p.broadcast _ _ (λ _. put_pending-Stays ErrCode.success c _)
                (λ _.
                  if-Post {P = P} (no_resps p.resps) _ _
                    (λ _.
                      if-Post {P = P} p.ready _ _ (λ _. none-Post P)
                        (λ _. put_pending-Stays ErrCode.success c _))
                    (λ _. refuse ErrCode.not_found)))
            (λ _. refuse ErrCode.invalid_arg))

  pub framed-IsKept : IsKept R
  framed-IsKept = record {
    same = f.same;
    chain = f.chain;
    nodes = f.nodes;
    does = f.does;
    adds = add_pending-Stays;
    accepts = λ msg p c h. accept_resp-Stays msg p c;
  }

  first_resp-Stays :
      (rs : List LocalMsg) (c : Client) (ps : List (ℕ × PendingMsg))
      → Post (λ a d. R c d) (first_resp rs (record c { pending_msgs = ps }))
  first_resp-Stays [] c ps = none-Post (λ a d. R c d)
  first_resp-Stays (r ∷ rs) c ps = put_pending-Stays (ErrCode.success, r) c ps

  take_resp-Stays : (id : ℕ) (resp : LocalMsg) → Stays R (take_resp id resp)
  unfolding take_resp
  take_resp-Stays id resp c =
      let rest = erase_pending id c.pending_msgs in
      case-Post {P = λ a d. R c d} (find_pending id c.pending_msgs) _ _
        (λ _. none-Post (λ a d. R c d))
        (λ p _.
          if-Post {P = λ a d. R c d} p.ready _ _ (λ _. first_resp-Stays p.resps c rest)
            (λ _. put_pending-Stays (ErrCode.timeout, resp) c rest))

  pub framed-IsWaited : IsWaited R
  framed-IsWaited = record { kept = framed-IsKept; takes = take_resp-Stays }

  take_resps-Stays : (id : ℕ) → Stays R (take_resps id)
  unfolding take_resps
  take_resps-Stays id c =
      let rest = erase_pending id c.pending_msgs in
      case-Post {P = λ a d. R c d} (find_pending id c.pending_msgs) _ _
        (λ _. none-Post (λ a d. R c d)) (λ p _. put_pending-Stays (ErrCode.success, p.resps) c rest)

  pub send_local_unchecked_broadcast-Stays :
      (x : Exchange) (msg : LocalMsg) → Stays R (send_local_unchecked_broadcast x msg)
  unfolding send_local_unchecked_broadcast
  send_local_unchecked_broadcast-Stays x msg =
      let k = framed-IsKept in
      >>=-Stays k (prepare_msg x.start true msg) _ (prepare_msg-Stays k x.start true msg) (λ m.
        >>=-Stays k (add_pending m true) _ (add_pending-Stays m true) (λ u.
          >>=-Stays k (emit (Effect.sends m)) _ (emit-Stays k (Effect.sends m)) (λ v.
            if-Stays k (failed x.sent) _ _ (pure-Stays k (x.sent, [])) (
              >>=-Stays k (arrive x.arrivals) _ (arrive-Stays k x.arrivals)
                (λ w. take_resps-Stays m.id)))))
