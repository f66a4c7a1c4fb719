-- ===== src/Client/Leftover.antt =====
-- The pending message that `sendLocalUnchecked` of src/common/client.cpp leaves when the layer
-- refuses the message.
use kvik.Base.{ℕ, ◌≡◌, refl, ◌∙◌, true, false, [], Option, none, some, if◌then◌else◌, subst, ==_iff}
use kvik.Message.{ErrCode, LocalMsg, failed, addr_empty}
use kvik.Node.{get_msg_id}
use kvik.Client.State.{
  Client, ◌>>◌, pure, emit, Effect, PendingMsg, prepare_msg, add_pending, find_pending,
}
use kvik.Client.Receive.{Posted, refused, posted, post}
use kvik.Client.Post.{Post, some-Post, none-Post, if-M-Post, case-Post, >>=-Post}

-- An entry is found under the ID.
abbrev pub Pending : ℕ → Client → Type 0
Pending id c = (p : PendingMsg) × (find_pending id c.pending_msgs ≡ some p)

add_pending-Pending :
    (q : LocalMsg) (c : Client) → Post (λ u d. Pending q.id d) (add_pending q false c)
unfolding add_pending find_pending
add_pending-Pending q c =
    let P : Unit {0} → Client → Type 0 = λ u d. Pending q.id d in
    case-Post {P = P} (find_pending q.id c.pending_msgs) _ _
      (λ free. some-Post P tt _ (
        record { req = q; broadcast = false; ready = false; resps = [] },
        rw ((==_iff q.id q.id).1 refl) refl,
      ))
      (λ p h. none-Post P)

post-Pending :
    (now : ℕ) (sent : ErrCode) (msg : LocalMsg) (c : Client)
    → addr_empty c.gw.addr ≡ false
    → Post (λ p d. Pending c.node.msg_id d) (post now sent msg c)
unfolding post prepare_msg get_msg_id
post-Pending now sent msg c far =
    let P : Posted → Client → Type 0 = λ p d. Pending c.node.msg_id d in
    let Q : LocalMsg → Client → Type 0 = λ q d. (q.id ≡ c.node.msg_id) × (q.addr ≡ c.gw.addr) in
    >>=-Post {P = Q} {Q = P} (prepare_msg now false msg)
      (λ q.
        if addr_empty q.addr
        then pure (refused ErrCode.no_gateway)
        else (add_pending q false
            >> (emit (Effect.sends q) >> pure (if failed sent then refused sent else posted q.id))))
      c (some-Post Q _ _ (refl, refl))
      (λ q d same.
        if-M-Post {P = P} (addr_empty q.addr) (pure (refused ErrCode.no_gateway))
          (add_pending q false
            >> (emit (Effect.sends q) >> pure (if failed sent then refused sent else posted q.id)))
          d
          (λ b.
            absurd (
              let e : addr_empty c.gw.addr ≡ true = subst (λ z. addr_empty z ≡ true) same.1 b in
              cc))
          (λ b.
            >>=-Post {P = λ u d2. Pending q.id d2} {Q = P} (add_pending q false) _ d
              (add_pending-Pending q d)
              (λ u d2 w. some-Post P (if failed sent then refused sent else posted q.id) _ (
                subst (λ z. (p : PendingMsg) × (find_pending z d2.pending_msgs ≡ some p)) same.0
                  w))))

-- Nothing is returned.
abbrev Never : {A : Type 0} → A → Client → Type 0
Never a c = ⊥

Never-none : {A : Type 0} (o : Option (A × Client)) → Post Never o → o ≡ none
Never-none none h = refl
Never-none (some (a, c)) h = absurd (h a c refl)

add_pending-Never :
    (q : LocalMsg) (c : Client) → Pending q.id c → Post Never (add_pending q false c)
unfolding add_pending
add_pending-Never q c (p, h) =
    case-Post {P = Never} (find_pending q.id c.pending_msgs) _ _ (λ free. absurd (cc (free, h)))
      (λ r e. none-Post Never)

post-Never :
    (now : ℕ) (sent : ErrCode) (msg : LocalMsg) (c : Client)
    → addr_empty c.gw.addr ≡ false
    → Pending c.node.msg_id c
    → Post Never (post now sent msg c)
unfolding post prepare_msg get_msg_id
post-Never now sent msg c far there =
    let Q : LocalMsg → Client → Type 0 = λ q d. (q.addr ≡ c.gw.addr) × Pending q.id d in
    >>=-Post {P = Q} {Q = Never} (prepare_msg now false msg)
      (λ q.
        if addr_empty q.addr
        then pure (refused ErrCode.no_gateway)
        else (add_pending q false
            >> (emit (Effect.sends q) >> pure (if failed sent then refused sent else posted q.id))))
      c (some-Post Q _ _ (refl, there))
      (λ q d same.
        if-M-Post {P = Never} (addr_empty q.addr) (pure (refused ErrCode.no_gateway))
          (add_pending q false
            >> (emit (Effect.sends q) >> pure (if failed sent then refused sent else posted q.id)))
          d
          (λ b.
            absurd (
              let e : addr_empty c.gw.addr ≡ true = subst (λ z. addr_empty z ≡ true) same.0 b in
              cc))
          (λ b.
            >>=-Post {P = Never} {Q = Never} (add_pending q false) _ d
              (add_pending-Never q d same.1) (λ u d2 w. absurd w)))

-- A message that the layer refuses stays pending under its ID. Where a client still finds this entry
-- under the ID, whatever else is pending, and this ID is its next, then the next message to a gateway
-- ends in an exception that nobody catches: the future that it asks for has been taken already.
pub post_refused-throws :
    (now later : ℕ) (sent again : ErrCode) (msg next : LocalMsg) (c : Client) {c' : Client}
    (d : Client)
    → addr_empty c.gw.addr ≡ false
    → post now sent msg c ≡ some (refused sent, c')
    → find_pending c.node.msg_id d.pending_msgs ≡ find_pending c.node.msg_id c'.pending_msgs
    → d.node.msg_id ≡ c.node.msg_id
    → addr_empty d.gw.addr ≡ false
    → Pending c.node.msg_id c' × (post later again next d ≡ none)
post_refused-throws now later sent again msg next c {c'} d far h same came_round near =
    let (p, left) = post-Pending now sent msg c far (refused sent) c' h in
    (
      (p, left),
      Never-none (post later again next d)
          (post-Never later again next d near (p, rw came_round (same ∙ left))),
    )
