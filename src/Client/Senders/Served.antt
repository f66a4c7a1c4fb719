-- ===== src/Client/Senders/Served.antt =====
-- What holds whatever the order of the steps of several senders (src/common/client.cpp).
use kvik.Base.{
  ℕ, ◌≡◌, ◌≢◌, ◌∙◌, ◌⊎◌, Bool, true, false, List, [], ◌∷◌, some, is_some, Bool-cases, inl, inr,
  ==_iff, ap, subst, ◌==◌, All,
}
use kvik.Message.{ErrCode, LocalMsg}
use kvik.Client.State.{Client, find_pending}
use kvik.Client.Receive.{is_response_to}
use kvik.Client.Responses.{Waiting, Waiting-same}
use kvik.Client.Senders.{Sender, Returned, find_sender, without, erased}
use kvik.Client.Senders.Present.{Present, find-erase-other, Retains}

-- The thread has an entry, with its request, and only answers to it.
abbrev pub ServedAs : Bool → Client → Sender → Type 0
ServedAs true c s = Present s.id c
ServedAs false c s = (m : LocalMsg) × (m.addr ≡ s.addr) × (m.type ≡ s.type) × Waiting m s.id c

abbrev pub Served : Client → Sender → Type 0
Served c s = ServedAs s.broadcast c s

pub Served-Present : (c : Client) (s : Sender) (b : Bool) → ServedAs b c s → Present s.id c
Served-Present c s true h = h
Served-Present c s false (m, a, t, w) = ap is_some w.found

pub Retains-Served :
    (c d : Client) (s : Sender) (b : Bool) → Retains c d → ServedAs b c s → ServedAs b d s
Retains-Served c d s true r h = r.present s.id h
Retains-Served c d s false r (m, a, t, w) = (m, a, t, r.waiting m s.id w)

pub erased-Served :
    (c : Client) (s : Sender) (id : ℕ) (b : Bool)
    → s.id ≢ id
    → ServedAs b c s
    → ServedAs b (erased id c) s
erased-Served c s id true n h = ap is_some (find-erase-other s.id id c.pending_msgs n) ∙ h
erased-Served c s id false n (m, a, t, w) = (
  m,
  a,
  t,
  record {
    entry = w.entry;
    found = find-erase-other s.id id c.pending_msgs n ∙ w.found;
    req = w.req;
    single = w.single;
    good = w.good;
    ready = w.ready;
  },
)

pub chooses-Served :
    (c d : Client) (s : Sender) (b : Bool)
    → d.pending_msgs ≡ c.pending_msgs
    → ServedAs b c s
    → ServedAs b d s
chooses-Served c d s true e h = ap (λ ps. is_some (find_pending s.id ps)) e ∙ h
chooses-Served c d s false e (m, a, t, w) = (m, a, t, Waiting-same e w)

pub All-map :
    {A : Type 0} {P Q : A → Type 0} (xs : List A) → ((x : A) → P x → Q x) → All P xs → All Q xs
All-map [] f h = tt
All-map (x ∷ xs) f h = (f x h.0, All-map xs f h.1)

-- The threads that wait have different IDs.
abbrev pub Apart : List Sender → Type 0
Apart [] = Unit {0}
Apart (s ∷ ss) = All (λ t. t.id ≢ s.id) ss × Apart ss

pub without-All :
    {P Q : Sender → Type 0} (id : ℕ) (ss : List Sender)
    → ((t : Sender) → t.id ≢ id → P t → Q t)
    → All P ss
    → All Q (without id ss)
unfolding without
without-All id [] f h = tt
without-All {P} {Q} id (s ∷ ss) f h = elim (Bool-cases (s.id == id)) [
  | inl e ↦ rw e (without-All {P = P} {Q = Q} id ss f h.1)
  | inr e ↦ rw e (
    f s (λ same. absurd (cc ((==_iff s.id id).1 same))) h.0,
    without-All {P = P} {Q = Q} id ss f h.1,
  )
]

pub without-Apart : (id : ℕ) (ss : List Sender) → Apart ss → Apart (without id ss)
unfolding without
without-Apart id [] h = tt
without-Apart id (s ∷ ss) h = elim (Bool-cases (s.id == id)) [
  | inl e ↦ rw e (without-Apart id ss h.1)
  | inr e ↦
      rw e (without-All {P = λ t. t.id ≢ s.id} id ss (λ t n k. k) h.0, without-Apart id ss h.1)
]

pub find_sender-All :
    (P : Sender → Type 0) (id : ℕ) (ss : List Sender) (s : Sender)
    → All P ss
    → find_sender id ss ≡ some s
    → P s
unfolding find_sender
find_sender-All P id [] s h e = absurd (cc)
find_sender-All P id (t ∷ ss) s h e = elim (Bool-cases (t.id == id)) [
  | inl b ↦ let f : some t ≡ some s = rw (b) at e in let same : t ≡ s = cc in subst P same h.0
  | inr b ↦ find_sender-All P id ss s h.1 (rw (b) at e)
]

-- What a thread was returned: nothing in time, or an answer to its own request.
abbrev pub OwnAnswer : Returned → Type 0
OwnAnswer r =
    (r.code ≡ ErrCode.timeout)
    ⊎ ((r.code ≡ ErrCode.success)
        × (r.resp.addr ≡ r.sender.addr)
        × (is_response_to r.resp.type r.sender.type ≡ true))
