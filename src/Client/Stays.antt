-- ===== src/Client/Stays.antt =====
-- What receiving messages does not change (src/common/client.cpp): a relation between the client
-- before and after that the small steps keep is kept by the handlers that are made of them.
use kvik.Base.{
  ℕ, ◌≡◌, Bool, true, false, not, ◌&&◌, List, [], ◌∷◌, ◌++◌, Option, some, str_eq, if◌then◌else◌,
}
use kvik.Message.{ErrCode, LocalMsgType, LocalMsg, SubData, SubCb, default_msg, failed, addr_empty}
use kvik.Node.{INode, get_msg_id, validate_msg_id, validate_msg_timestamp}
use kvik.Trie.Find.{find, Values}
use kvik.Client.State.{
  Client, PendingMsg, Effect, M, ◌>>=◌, pure, emit, find_pending, prepare_msg, add_pending,
}
use kvik.Client.Receive.{
  refused, posted, post, from_gateway, accept_resp, recv_local_resp, call_back, call_all,
  recv_local_sub_data, recv_local,
}
use kvik.Client.Send.{Arrival, arrive}
use kvik.Client.Post.{Post, some-Post, if-Post, case-Post, >>=-Post}

-- Whatever a step returns, the relation stands between the client before and after.
abbrev pub Stays : {A : Type 0} → (Client → Client → Type 0) → M A → Type 0
Stays R m = (c : Client) → Post (λ a c'. R c c') (m c)

-- The relation is kept by the small steps.
pub record IsKept (R : Client → Client → Type 0) : Type 0 where
  pub same : (c : Client) → R c c
  pub chain : (c d e : Client) → R c d → R d e → R c e
  pub nodes : (c : Client) (n : INode) → R c (record c { node = n })
  pub does : (c : Client) (es : List Effect) → R c (record c { effects = c.effects ++ es })
  pub adds : (msg : LocalMsg) (b : Bool) → Stays R (add_pending msg b)
  pub accepts :
      (msg : LocalMsg) (p : PendingMsg) (c : Client)
      → find_pending msg.req_id c.pending_msgs ≡ some p
      → Post (λ a c'. R c c') (accept_resp msg p c)

module _ {R : Client → Client → Type 0} (k : IsKept R) where
  pub pure-Stays : {A : Type 0} (a : A) → Stays R (pure a)
  pure-Stays a c = some-Post (λ a c'. R c c') a c (k.same c)

  pub >>=-Stays :
      {A B : Type 0} (m : M A) (f : A → M B)
      → Stays R m
      → ((a : A) → Stays R (f a))
      → Stays R (m >>= f)
  >>=-Stays m f p q c =
      >>=-Post {P = λ a d. R c d} {Q = λ a d. R c d} m f c (p c)
        (λ a d r b e h. k.chain c d e r (q a d b e h))

  pub if-Stays :
      {A : Type 0} (b : Bool) (m n : M A) → Stays R m → Stays R n → Stays R (if b then m else n)
  if-Stays true m n p q = p
  if-Stays false m n p q = q

  pub emit-Stays : (e : Effect) → Stays R (emit e)
  emit-Stays e c = some-Post (λ a c'. R c c') tt _ (k.does c (e ∷ []))

  pub prepare_msg-Stays : (now : ℕ) (b : Bool) (msg : LocalMsg) → Stays R (prepare_msg now b msg)
  unfolding prepare_msg
  prepare_msg-Stays now b msg c = some-Post (λ a c'. R c c') _ _ (k.nodes c (get_msg_id c.node).1)

  pub post-Stays : (now : ℕ) (sent : ErrCode) (msg : LocalMsg) → Stays R (post now sent msg)
  unfolding post
  post-Stays now sent msg =
      >>=-Stays (prepare_msg now false msg) _ (prepare_msg-Stays now false msg) (λ q.
        if-Stays (addr_empty q.addr) _ _ (pure-Stays (refused ErrCode.no_gateway)) (
          >>=-Stays (add_pending q false) _ (k.adds q false) (λ u.
            >>=-Stays (emit (Effect.sends q)) _ (emit-Stays (Effect.sends q))
              (λ v. pure-Stays (if failed sent then refused sent else posted q.id)))))

  call_back-Stays : (d : SubData) (vs : Values SubCb) → Stays R (call_back d vs)
  unfolding call_back
  call_back-Stays d [] = pure-Stays tt
  call_back-Stays d ((key, cb) ∷ vs) =
      >>=-Stays (emit (Effect.calls_back cb d)) _ (emit-Stays (Effect.calls_back cb d))
        (λ u. call_back-Stays d vs)

  call_all-Stays : (ds : List SubData) → Stays R (call_all ds)
  unfolding call_all
  call_all-Stays [] = pure-Stays tt
  call_all-Stays (d ∷ ds) =
      >>=-Stays (λ c. call_back d (find c.sub_db d.topic) c) _
        (λ c. call_back-Stays d (find c.sub_db d.topic) c) (λ u. call_all-Stays ds)

  -- From a client whose node has been changed first.
  from_node :
      {A : Type 0} (c : Client) (n : INode) (o : Option (A × Client))
      → Post (λ a c'. R (record c { node = n }) c') o
      → Post (λ a c'. R c c') o
  from_node c n o p a e h = k.chain c (record c { node = n }) e (k.nodes c n) (p a e h)

  recv_local_resp-Stays : (now : ℕ) (msg : LocalMsg) → Stays R (recv_local_resp now msg)
  unfolding recv_local_resp
  recv_local_resp-Stays now msg c =
      let v = validate_msg_id c.node msg.addr msg.id in
      let c' : Client = record c { node = v.1 } in
      let P : ErrCode → Client → Type 0 = λ a d. R c' d in
      let refuse : (e : ErrCode) → Post P (some (e, c')) = λ e. some-Post P e c' (k.same c') in
      from_node c v.1 _ (
        if-Post {P = P} (not v.0) _ _ (λ _. refuse ErrCode.msg_dup_id)
          (λ _.
            if-Post {P = P}
              (not c.ignore_invalid_msg_ts
                && not (validate_msg_timestamp v.1 now msg.ts c.gw.ts_diff))
              _ _ (λ _. refuse ErrCode.msg_invalid_ts)
              (λ _.
                case-Post {P = P} (find_pending msg.req_id c.pending_msgs) _ _
                  (λ _. refuse ErrCode.not_found) (λ p h. k.accepts msg p c' h))))

  recv_local_sub_data-Stays :
      (now : ℕ) (ack : ErrCode) (msg : LocalMsg) → Stays R (recv_local_sub_data now ack msg)
  unfolding recv_local_sub_data
  recv_local_sub_data-Stays now ack msg c =
      let v = validate_msg_id c.node msg.addr msg.id in
      let c' : Client = record c { node = v.1 } in
      let P : ErrCode → Client → Type 0 = λ a d. R c' d in
      let refuse : (e : ErrCode) → Post P (some (e, c')) = λ e. some-Post P e c' (k.same c') in
      let ok : LocalMsg = record default_msg { type = LocalMsgType.ok } in
      from_node c v.1 _ (
        if-Post {P = P} (not v.0) _ _ (λ _. refuse ErrCode.msg_dup_id)
          (λ _.
            if-Post {P = P} (not (validate_msg_timestamp v.1 now msg.ts c.gw.ts_diff)) _ _
              (λ _. refuse ErrCode.msg_invalid_ts)
              (λ _.
                if-Post {P = P} (not (str_eq msg.addr c.gw.addr)) _ _
                  (λ _. refuse ErrCode.msg_unknown_sender)
                  (λ _.
                    >>=-Stays (post now ack ok) _ (post-Stays now ack ok)
                      (λ p.
                        >>=-Stays (call_all msg.subs_data) _ (call_all-Stays msg.subs_data)
                          (λ u. pure-Stays ErrCode.success))
                      c'))))

  pub recv_local-Stays :
      (now : ℕ) (ack : ErrCode) (msg : LocalMsg) → Stays R (recv_local now ack msg)
  unfolding recv_local
  recv_local-Stays now ack msg =
      if-Stays (not (from_gateway msg.node_type)) _ _ (pure-Stays ErrCode.invalid_arg)
        (by_type msg.type)
    where
      by_type :
          (t : LocalMsgType)
          → Stays R (elim t [
            | LocalMsgType.ok ↦ recv_local_resp now msg
            | LocalMsgType.fail ↦ recv_local_resp now msg
            | LocalMsgType.probe_res ↦ recv_local_resp now msg
            | LocalMsgType.sub_data ↦ recv_local_sub_data now ack msg
            | _ ↦ pure ErrCode.invalid_arg
          ])
      by_type LocalMsgType.ok = recv_local_resp-Stays now msg
      by_type LocalMsgType.fail = recv_local_resp-Stays now msg
      by_type LocalMsgType.probe_res = recv_local_resp-Stays now msg
      by_type LocalMsgType.sub_data = recv_local_sub_data-Stays now ack msg
      by_type _ = pure-Stays ErrCode.invalid_arg

  pub arrive-Stays : (as' : List Arrival) → Stays R (arrive as')
  unfolding arrive
  arrive-Stays [] = pure-Stays tt
  arrive-Stays (a ∷ rest) =
      >>=-Stays (recv_local a.now a.ack a.msg) _ (recv_local-Stays a.now a.ack a.msg)
        (λ e. arrive-Stays rest)
