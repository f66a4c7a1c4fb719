-- ===== src/Client/Senders/Moves.antt =====
-- What holds of the threads that send at once (src/common/client.cpp), step by step.
use kvik.Base.{◌≡◌, refl, ◌≢◌, Bool, true, Option, none, some, is_some, subst, All}
use kvik.Message.{ErrCode, LocalMsg}
use kvik.Client.State.{Client, PendingMsg, find_pending}
use kvik.Client.Receive.{Posted, refused, posted}
use kvik.Client.Post.{Post}
use kvik.Client.Senders.{
  Sender, System, Result, blocked, broken, moved, erased, enter, leave, collect, receive,
}
use kvik.Client.Senders.Present.{Retains}
use kvik.Client.Senders.Entering.{Enters}
use kvik.Client.Senders.Served.{
  Served, Served-Present, Retains-Served, erased-Served, All-map, Apart, without-All, without-Apart,
  OwnAnswer,
}

pub record Sound (y : System) : Type 0 where
  pub served : All (Served y.client) y.senders
  pub apart : Apart y.senders
  pub own : All OwnAnswer y.returned

-- Wherever the step goes, the property holds.
abbrev pub Moves : (System → Type 0) → Result → Type 0
Moves P r = (y : System) → r ≡ moved y → P y

pub moved-Moves : (P : System → Type 0) (y : System) → P y → Moves P (moved y)
moved-Moves P y h z e = let same : y ≡ z = cc in subst P same h

pub broken-Moves : (P : System → Type 0) → Moves P broken
broken-Moves P z e = absurd (cc)

pub blocked-Moves : (P : System → Type 0) → Moves P blocked
blocked-Moves P z e = absurd (cc)

pub enter-Sound :
    (b : Bool) (msg : LocalMsg) (y : System) (o : Option (Posted × Client))
    → Post (Enters b msg y.client) o
    → Sound y
    → Moves Sound (enter b msg y o)
enter-Sound b msg y none p h = broken-Moves Sound
enter-Sound b msg y (some (refused e, c)) p h =
    let r = p (refused e) c refl in
    moved-Moves Sound _ (record {
      served = All-map y.senders (λ s. Retains-Served y.client c s s.broadcast r) h.served;
      apart = h.apart;
      own = h.own;
    })
enter-Sound b msg y (some (posted id, c)) p h =
    let (r, free, new) = p (posted id) c refl in
    moved-Moves Sound _ (record {
      served = (new, All-map y.senders (λ s. Retains-Served y.client c s s.broadcast r) h.served);
      apart = (
        All-map {P = Served y.client} {Q = λ t. t.id ≢ id} y.senders
            (λ s k same.
              let there : is_some (find_pending id y.client.pending_msgs) ≡ true =
                subst (λ z. is_some (find_pending z y.client.pending_msgs) ≡ true) same
                  (Served-Present y.client s s.broadcast k) in
              absurd (cc (there, free)))
            h.served,
        h.apart,
      );
      own = h.own;
    })

pub receive-Sound :
    (y : System) (o : Option (ErrCode × Client))
    → Post (λ e d. Retains y.client d) o
    → Sound y
    → Moves Sound (receive y o)
receive-Sound y none p h = broken-Moves Sound
receive-Sound y (some (e, c)) p h = moved-Moves Sound _ (record {
  served = All-map y.senders (λ s. Retains-Served y.client c s s.broadcast (p e c refl)) h.served;
  apart = h.apart;
  own = h.own;
})

pub leave-Sound :
    (s : Sender) (code : ErrCode) (resp : LocalMsg) (y : System)
    → OwnAnswer (record { sender = s; code = code; resp = resp })
    → Sound y
    → Moves Sound (leave s code resp y)
leave-Sound s code resp y own h = moved-Moves Sound _ (record {
  served =
      without-All {P = Served y.client} {Q = Served (erased s.id y.client)} s.id y.senders
        (λ t n k. erased-Served y.client t s.id t.broadcast n k) h.served;
  apart = without-Apart s.id y.senders h.apart;
  own = (own, h.own);
})

pub collect-Sound :
    (s : Sender) (y : System) (o : Option PendingMsg) → Sound y → Moves Sound (collect s y o)
collect-Sound s y none h = broken-Moves Sound
collect-Sound s y (some p) h = moved-Moves Sound _ (record {
  served =
      without-All {P = Served y.client} {Q = Served (erased s.id y.client)} s.id y.senders
        (λ t n k. erased-Served y.client t s.id t.broadcast n k) h.served;
  apart = without-Apart s.id y.senders h.apart;
  own = h.own;
})
