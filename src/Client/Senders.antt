-- ===== src/Client/Senders.antt =====
-- Several threads in `sendLocalUnchecked` and `sendLocalUncheckedBroadcast` of src/common/client.cpp
-- at once: their critical sections, the received messages and the changes of the gateway are the
-- steps, in any order.
pub mod Present
pub mod Served
pub mod Entering
pub mod Moves
pub mod Safety
use kvik.Base.{ℕ, Bool, true, false, List, [], ◌∷◌, none, some, if◌then◌else◌, ◌==◌, Option}
use kvik.Message.{ErrCode, failed, LocalMsgType, LocalMsg, LocalAddr}
use kvik.Peer.{LocalPeer}
use kvik.Client.State.{
  Client, PendingMsg, Effect, M, ◌>>=◌, ◌>>◌, pure, emit, find_pending, erase_pending, prepare_msg,
  add_pending,
}
use kvik.Client.Receive.{Posted, refused, posted, post, recv_local}
use kvik.Client.Send.{Arrival}

-- A thread that waits for the response to its request, or for the end of its broadcast: the ID, the
-- address the request was sent to, and its type.
pub record Sender : Type 0 where
  pub id : ℕ
  pub addr : LocalAddr
  pub type : LocalMsgType
  pub broadcast : Bool

-- What `sendLocalUnchecked` returned to a thread that waited: its code and its response.
pub record Returned : Type 0 where
  pub sender : Sender
  pub code : ErrCode
  pub resp : LocalMsg

pub record System : Type 0 where
  pub client : Client
  pub senders : List Sender
  pub returned : List Returned

-- `sends` and `broadcasts` are the first critical sections, with the clock and the answer of the
-- layer. A thread `wakes` when its promise is fulfilled; `times_out` may come even then, since the
-- wait ends before the mutex is locked again. `collects` is the end of a broadcast.
pub data Step : Type 0 where
  sends broadcasts : ℕ → ErrCode → LocalMsg → Step
  receives : Arrival → Step
  wakes collects : ℕ → Step
  times_out : ℕ → LocalMsg → Step
  chooses : LocalPeer → Step

-- `blocked` where the step is not possible, `broken` where the source throws a std::future_error
-- that nobody catches or uses a pointer to responses that are not there.
pub data Result : Type 0 where
  blocked broken : Result
  moved : System → Result

-- The first half of `sendLocalUncheckedBroadcast`.
unfoldable pub post_broadcast : ℕ → ErrCode → LocalMsg → M Posted
unfolding prepare_msg add_pending
post_broadcast now sent msg = do
  m ← prepare_msg now true msg
  add_pending m true
  emit (Effect.sends m)
  pure (if failed sent then refused sent else posted m.id)

unfoldable pub find_sender : ℕ → List Sender → Option Sender
find_sender id [] = none
find_sender id (s ∷ ss) = if s.id == id then some s else find_sender id ss

unfoldable pub without : ℕ → List Sender → List Sender
without id [] = []
without id (s ∷ ss) = let rest = without id ss in if s.id == id then rest else s ∷ rest

abbrev pub erased : ℕ → Client → Client
erased id c = record c { pending_msgs = erase_pending id c.pending_msgs }

-- A thread that starts to wait, or returns at once.
abbrev pub enter : Bool → LocalMsg → System → Option (Posted × Client) → Result
enter b msg y none = broken
enter b msg y (some (refused e, c)) = moved (record y { client = c })
enter b msg y (some (posted id, c)) = moved (record y {
  client = c;
  senders = record { id = id; addr = y.client.gw.addr; type = msg.type; broadcast = b } ∷ y.senders;
})

abbrev pub leave : Sender → ErrCode → LocalMsg → System → Result
leave s code resp y = moved (record y {
  client = erased s.id y.client;
  senders = without s.id y.senders;
  returned = record { sender = s; code = code; resp = resp } ∷ y.returned;
})

-- `(*responsesPtr)[0]`
abbrev pub respond : Sender → List LocalMsg → System → Result
respond s [] y = broken
respond s (r ∷ rs) y = leave s ErrCode.success r y

-- The entry that the thread has pointers into: its promise is fulfilled or not.
abbrev pub wake : Sender → System → Option PendingMsg → Result
wake s y none = broken
wake s y (some p) = if p.ready then respond s p.resps y else blocked

abbrev pub collect : Sender → System → Option PendingMsg → Result
collect s y none = broken
collect s y (some p) =
    moved (record y { client = erased s.id y.client; senders = without s.id y.senders })

abbrev pub receive : System → Option (ErrCode × Client) → Result
receive y none = broken
receive y (some (e, c)) = moved (record y { client = c })

unfoldable pub next : Step → System → Result
unfolding post post_broadcast recv_local find_pending find_sender without
next (sends now sent msg) y = enter false msg y (post now sent msg y.client)
next (broadcasts now sent msg) y = enter true msg y (post_broadcast now sent msg y.client)
next (receives a) y = receive y (recv_local a.now a.ack a.msg y.client)
next (wakes id) y = elim (find_sender id y.senders) [
  | none ↦ blocked
  | some s ↦ if s.broadcast then blocked else wake s y (find_pending s.id y.client.pending_msgs)
]
next (times_out id resp) y = elim (find_sender id y.senders) [
  | none ↦ blocked
  | some s ↦ if s.broadcast then blocked else leave s ErrCode.timeout resp y
]
next (collects id) y = elim (find_sender id y.senders) [
  | none ↦ blocked
  | some s ↦ if s.broadcast then collect s y (find_pending s.id y.client.pending_msgs) else blocked
]
next (chooses p) y = moved (record y { client = record (y.client) { gw = p } })

unfoldable pub run : List Step → System → Result
unfolding next
run [] y = moved y
run (s ∷ steps) y = elim (next s y) [ blocked ↦ blocked | broken ↦ broken | moved z ↦ run steps z ]

-- Nobody waits.
abbrev pub alone : Client → System
alone c = record { client = c; senders = []; returned = [] }
