-- ===== src/Client/Senders/Safety.antt =====
-- What the threads that send at once (src/common/client.cpp) get, whatever the order of their steps.
use kvik.Base.{
  ℕ, ◌≡◌, refl, ◌∙◌, Bool, true, false, List, [], ◌∷◌, Option, none, some, is_some, inl, inr, sym,
  subst, if◌then◌else◌, All,
}
use kvik.Message.{ErrCode, LocalMsg}
use kvik.Client.State.{Client, PendingMsg, find_pending}
use kvik.Client.Receive.{post, no_resps, is_response_to, recv_local}
use kvik.Client.Stays.{recv_local-Stays}
use kvik.Client.Responses.{Answers}
use kvik.Client.Senders.{
  Sender, System, Step, Result, blocked, broken, moved, post_broadcast, find_sender, leave, respond,
  wake, collect, next, run, alone, sends, broadcasts, receives, wakes, collects, times_out, chooses,
}
use kvik.Client.Senders.Present.{Retains-IsKept}
use kvik.Client.Senders.Entering.{post-Enters, post_broadcast-Enters}
use kvik.Client.Senders.Served.{
  ServedAs, Served, chooses-Served, All-map, Apart, find_sender-All, OwnAnswer,
}
use kvik.Client.Senders.Moves.{
  Sound, Moves, moved-Moves, broken-Moves, blocked-Moves, enter-Sound, receive-Sound, leave-Sound,
  collect-Sound,
}

-- The entry of a thread that waits for a response, as the step sees it.
abbrev Entry : Sender → Option PendingMsg → Type 0
Entry s none = ⊥
Entry s (some p) =
    All (λ r. (r.addr ≡ s.addr) × (is_response_to r.type s.type ≡ true)) p.resps
    × (p.ready ≡ true → no_resps p.resps ≡ false)

Served-Entry :
    (c : Client) (s : Sender) → ServedAs false c s → Entry s (find_pending s.id c.pending_msgs)
Served-Entry c s (m, a, t, w) = subst (Entry s) (sym w.found) (
  All-map {P = Answers m} {Q = λ r. (r.addr ≡ s.addr) × (is_response_to r.type s.type ≡ true)}
      w.entry.resps (λ r k. (k.0 ∙ a, subst (λ z. is_response_to r.type z ≡ true) t k.1)) w.good,
  w.ready,
)

Entry-unbroken :
    (s : Sender) (y : System) (o : Option PendingMsg) → Entry s o → ¬ (wake s y o ≡ broken)
Entry-unbroken s y none h = absurd h
Entry-unbroken s y (some p) h =
    elim p.ready
        as (λ b.
          (b ≡ true → no_resps p.resps ≡ false)
          → ¬ ((if b then respond s p.resps y else blocked) ≡ broken)) [
            | true ↦ λ k. there p.resps (k refl)
            | false ↦ λ k e. cc
          ]
      h.1
  where
    there : (rs : List LocalMsg) → no_resps rs ≡ false → ¬ (respond s rs y ≡ broken)
    there [] k e = cc
    there (r ∷ rs) k e = cc

wake-Sound :
    (s : Sender) (y : System) (o : Option PendingMsg)
    → Entry s o
    → Sound y
    → Moves Sound (wake s y o)
wake-Sound s y none k h = absurd k
wake-Sound s y (some p) k h =
    elim p.ready as (λ b. Moves Sound (if b then respond s p.resps y else blocked)) [
      | true ↦ answered p.resps k.0
      | false ↦ blocked-Moves Sound
    ]
  where
    answered :
        (rs : List LocalMsg)
        → All (λ r. (r.addr ≡ s.addr) × (is_response_to r.type s.type ≡ true)) rs
        → Moves Sound (respond s rs y)
    answered [] g = broken-Moves Sound
    answered (r ∷ rs) g = leave-Sound s ErrCode.success r y (inr (refl, g.0.0, g.0.1)) h

-- The thread with the ID, if one waits, and what it has.
by_sender :
    (P : Result → Type 0) (id : ℕ) (y : System) (f g : Sender → Result)
    → Sound y
    → P blocked
    → ((s : Sender) → ServedAs true y.client s → P (f s))
    → ((s : Sender) → ServedAs false y.client s → P (g s))
    → P (elim (find_sender id y.senders) [
      | none ↦ blocked
      | some s ↦ if s.broadcast then f s else g s
    ])
by_sender P id y f g h none_waits p q =
    go (find_sender id y.senders)
      (λ s e. find_sender-All (Served y.client) id y.senders s h.served e)
  where
    kind : (b : Bool) (s : Sender) → ServedAs b y.client s → P (if b then f s else g s)
    kind true s k = p s k
    kind false s k = q s k

    go :
        (o : Option Sender)
        → ((s : Sender) → o ≡ some s → Served y.client s)
        → P (elim o [ none ↦ blocked | some s ↦ if s.broadcast then f s else g s ])
    go none k = none_waits
    go (some s) k = kind s.broadcast s (k s refl)

next-Sound : (s : Step) (y : System) → Sound y → Moves Sound (next s y)
unfolding next
next-Sound (sends now sent msg) y h =
    enter-Sound false msg y (post now sent msg y.client) (post-Enters now sent msg y.client) h
next-Sound (broadcasts now sent msg) y h =
    enter-Sound true msg y (post_broadcast now sent msg y.client)
      (post_broadcast-Enters now sent msg y.client) h
next-Sound (receives a) y h =
    receive-Sound y (recv_local a.now a.ack a.msg y.client)
      (recv_local-Stays Retains-IsKept a.now a.ack a.msg y.client) h
next-Sound (wakes id) y h =
    by_sender (Moves Sound) id y (λ s. blocked)
      (λ s. wake s y (find_pending s.id y.client.pending_msgs)) h (blocked-Moves Sound)
      (λ s k. blocked-Moves Sound)
      (λ s k.
        wake-Sound s y (find_pending s.id y.client.pending_msgs) (Served-Entry y.client s k) h)
next-Sound (times_out id resp) y h =
    by_sender (Moves Sound) id y (λ s. blocked) (λ s. leave s ErrCode.timeout resp y) h
      (blocked-Moves Sound) (λ s k. blocked-Moves Sound)
      (λ s k. leave-Sound s ErrCode.timeout resp y (inl refl) h)
next-Sound (collects id) y h =
    by_sender (Moves Sound) id y (λ s. collect s y (find_pending s.id y.client.pending_msgs))
      (λ s. blocked) h (blocked-Moves Sound)
      (λ s k. collect-Sound s y (find_pending s.id y.client.pending_msgs) h)
      (λ s k. blocked-Moves Sound)
next-Sound (chooses p) y h = moved-Moves Sound _ (record {
  served =
      All-map y.senders
        (λ s. chooses-Served y.client (record (y.client) { gw = p }) s s.broadcast refl) h.served;
  apart = h.apart;
  own = h.own;
})

pub run-Sound : (steps : List Step) (y : System) → Sound y → Moves Sound (run steps y)
unfolding run
run-Sound [] y h = moved-Moves Sound y h
run-Sound (s ∷ steps) y h = go (next s y) (next-Sound s y h) (λ z. run-Sound steps z)
  where
    go :
        (r : Result)
        → Moves Sound r
        → ((z : System) → Sound z → Moves Sound (run steps z))
        → Moves Sound (elim r [ blocked ↦ blocked | broken ↦ broken | moved z ↦ run steps z ])
    go blocked k on = blocked-Moves Sound
    go broken k on = broken-Moves Sound
    go (moved z) k on = on z (k z refl)

-- However many threads send and broadcast at once, whatever messages are received and whatever
-- gateways are chosen in between: each thread was returned a timeout or a response from the address
-- that its own request went to, of a type that answers it; the threads that wait have different
-- IDs; and a thread that wakes up or collects the responses of a broadcast finds its entry, and
-- after a wake-up a response in it.
pub run_safe :
    (steps : List Step) (c : Client) {y : System}
    → run steps (alone c) ≡ moved y
    → All OwnAnswer y.returned
      × Apart y.senders
      × ((id : ℕ) → ¬ (next (wakes id) y ≡ broken))
      × ((id : ℕ) → ¬ (next (collects id) y ≡ broken))
unfolding next
run_safe steps c {y} e =
    let h = run-Sound steps (alone c) (record { served = tt; apart = tt; own = tt }) y e in
    let Fine : Result → Type 0 = λ r. ¬ (r ≡ broken) in
    (
      h.own,
      h.apart,
      λ id.
          by_sender Fine id y (λ s. blocked)
            (λ s. wake s y (find_pending s.id y.client.pending_msgs)) h (λ q. cc) (λ s k q. cc)
            (λ s k.
              Entry-unbroken s y (find_pending s.id y.client.pending_msgs)
                (Served-Entry y.client s k)),
      λ id.
          by_sender Fine id y (λ s. collect s y (find_pending s.id y.client.pending_msgs))
            (λ s. blocked) h (λ q. cc)
            (λ s k. collected s (find_pending s.id y.client.pending_msgs) k) (λ s k q. cc),
    )
  where
    collected : (s : Sender) (o : Option PendingMsg) → is_some o ≡ true → ¬ (collect s y o ≡ broken)
    collected s none k = absurd (cc)
    collected s (some p) k = λ q. cc
