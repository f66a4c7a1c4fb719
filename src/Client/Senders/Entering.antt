-- ===== src/Client/Senders/Entering.antt =====
-- The first critical sections of the threads that send (src/common/client.cpp).
use kvik.Base.{ℕ, ◌≡◌, refl, ◌∙◌, Bool, true, false, is_some, ==_iff, ap, sym, if◌then◌else◌}
use kvik.Message.{ErrCode, LocalMsg, failed, addr_empty}
use kvik.Client.State.{Client, find_pending, Effect, pure, emit, ◌>>◌, prepare_msg, add_pending}
use kvik.Client.Receive.{Posted, refused, posted, post}
use kvik.Client.Stays.{
  Stays, pure-Stays, >>=-Stays, emit-Stays, prepare_msg-Stays, post-Stays, IsKept,
}
use kvik.Client.Post.{queue, Post, some-Post, none-Post, if-M-Post, case-Post, >>=-Post}
use kvik.Client.Answered.{Sent, post-Sent}
use kvik.Client.Senders.{post_broadcast}
use kvik.Client.Senders.Present.{Present, Retains, Retains-IsKept}
use kvik.Client.Senders.Served.{ServedAs}

-- A thread that enters got an ID that was free, and has an entry of its own.
abbrev pub Enters : Bool → LocalMsg → Client → Posted → Client → Type 0
Enters b msg c (refused e) d = Retains c d
Enters b msg c (posted id) d =
    Retains c d
    × (is_some (find_pending id c.pending_msgs) ≡ false)
    × ServedAs b d (record { id = id; addr = c.gw.addr; type = msg.type; broadcast = b })

-- The ID was free before, and is taken.
abbrev Takes : Client → Posted → Client → Type 0
Takes c (refused e) d = Unit {0}
Takes c (posted id) d = (is_some (find_pending id c.pending_msgs) ≡ false) × Present id d

taken :
    (e : ErrCode) (id : ℕ) (c d : Client)
    → is_some (find_pending id c.pending_msgs) ≡ false
    → Present id d
    → Takes c (if failed e then refused e else posted id) d
taken ErrCode.success id c d f p = (f, p)
taken _ id c d f p = tt

queue-Takes :
    (b : Bool) (sent : ErrCode) (q : LocalMsg) (c d : Client)
    → d.pending_msgs ≡ c.pending_msgs
    → Post (Takes c) (queue b sent q d)
unfolding add_pending find_pending
queue-Takes b sent q c d same =
    let p : Posted = if failed sent then refused sent else posted q.id in
    let F : Unit {0} → Client → Type 0 =
      λ u f. (is_some (find_pending q.id c.pending_msgs) ≡ false) × Present q.id f in
    >>=-Post {P = F} {Q = Takes c} (add_pending q b) (λ u. emit (Effect.sends q) >> pure p) d
      (case-Post {P = F} (find_pending q.id d.pending_msgs) _ _
        (λ free. some-Post F tt _ (
          ap (λ ps. is_some (find_pending q.id ps)) (sym same) ∙ ap is_some free,
          rw ((==_iff q.id q.id).1 refl) refl,
        ))
        (λ p f. none-Post F))
      (λ u f t. some-Post (Takes c) p _ (taken sent q.id c _ t.0 t.1))

post-Takes :
    (now : ℕ) (sent : ErrCode) (msg : LocalMsg) (c : Client) → Post (Takes c) (post now sent msg c)
unfolding post prepare_msg
post-Takes now sent msg c =
    >>=-Post {P = λ q d. d.pending_msgs ≡ c.pending_msgs} {Q = Takes c} (prepare_msg now false msg)
      (λ q. if addr_empty q.addr then pure (refused ErrCode.no_gateway) else queue false sent q) c
      (some-Post (λ q d. d.pending_msgs ≡ c.pending_msgs) _ _ refl)
      (λ q d s.
        if-M-Post {P = Takes c} (addr_empty q.addr) (pure (refused ErrCode.no_gateway))
          (queue false sent q) d (λ e. some-Post (Takes c) (refused ErrCode.no_gateway) d tt)
          (λ e. queue-Takes false sent q c d s))

post_broadcast-Takes :
    (now : ℕ) (sent : ErrCode) (msg : LocalMsg) (c : Client)
    → Post (Takes c) (post_broadcast now sent msg c)
unfolding post_broadcast prepare_msg
post_broadcast-Takes now sent msg c =
    >>=-Post {P = λ q d. d.pending_msgs ≡ c.pending_msgs} {Q = Takes c} (prepare_msg now true msg)
      (queue true sent) c (some-Post (λ q d. d.pending_msgs ≡ c.pending_msgs) _ _ refl)
      (λ q d s. queue-Takes true sent q c d s)

post_broadcast-Retains :
    (now : ℕ) (sent : ErrCode) (msg : LocalMsg) → Stays Retains (post_broadcast now sent msg)
unfolding post_broadcast
post_broadcast-Retains now sent msg =
    >>=-Stays Retains-IsKept (prepare_msg now true msg) _
      (prepare_msg-Stays Retains-IsKept now true msg)
      (λ q.
        >>=-Stays Retains-IsKept (add_pending q true) _ (IsKept.adds Retains-IsKept q true) (λ u.
          >>=-Stays Retains-IsKept (emit (Effect.sends q)) _
            (emit-Stays Retains-IsKept (Effect.sends q))
            (λ v. pure-Stays Retains-IsKept (if failed sent then refused sent else posted q.id))))

pub post-Enters :
    (now : ℕ) (sent : ErrCode) (msg : LocalMsg) (c : Client)
    → Post (Enters false msg c) (post now sent msg c)
post-Enters now sent msg c p d e =
    both p (post-Stays Retains-IsKept now sent msg c p d e) (post-Takes now sent msg c p d e)
      (post-Sent now sent msg c p d e)
  where
    both :
        (p : Posted)
        → Retains c d
        → Takes c p d
        → Sent c.gw.addr msg.type p d
        → Enters false msg c p d
    both (refused e) r t s = r
    both (posted id) r t s = (r, t.0, s)

pub post_broadcast-Enters :
    (now : ℕ) (sent : ErrCode) (msg : LocalMsg) (c : Client)
    → Post (Enters true msg c) (post_broadcast now sent msg c)
post_broadcast-Enters now sent msg c p d e =
    both p (post_broadcast-Retains now sent msg c p d e) (post_broadcast-Takes now sent msg c p d e)
  where
    both : (p : Posted) → Retains c d → Takes c p d → Enters true msg c p d
    both (refused e) r t = r
    both (posted id) r t = (r, t.0, t.1)
