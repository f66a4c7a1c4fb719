-- ===== src/Client/Responses.antt =====
-- A pending request while messages are received (`recvLocal` of src/common/client.cpp).
use kvik.Base.{
  ℕ, ◌≡◌, refl, ◌∙◌, ◌≢◌, Bool, true, false, not, ◌&&◌, List, [], ◌∷◌, ◌++◌, some, Bool-cases, inl,
  inr, str_eq, str_dec, ==_iff, arith, sym, ap, subst, ◌==◌, All, if_neg,
}
use kvik.Message.{ErrCode, LocalMsg}
use kvik.Client.State.{Client, add_pending, PendingMsg, find_pending, set_pending}
use kvik.Client.Receive.{is_response_to, accept_resp, no_resps}
use kvik.Client.Stays.{Stays, IsKept}
use kvik.Client.Post.{Post, some-Post, none-Post, if-Post, case-Post}

-- The response is from the peer that the request went to, and of a type that answers it.
abbrev pub Answers : LocalMsg → LocalMsg → Type 0
Answers m r = (r.addr ≡ m.addr) × (is_response_to r.type m.type ≡ true)

-- The request is pending under the ID, and has only been given answers to it.
pub record Waiting (m : LocalMsg) (id : ℕ) (c : Client) : Type 0 where
  pub entry : PendingMsg
  pub found : find_pending id c.pending_msgs ≡ some entry
  pub req : entry.req ≡ m
  pub single : entry.broadcast ≡ false
  pub good : All (Answers m) entry.resps
  pub ready : entry.ready ≡ true → no_resps entry.resps ≡ false

pub find-set-same :
    (id : ℕ) (p q : PendingMsg) (ps : List (ℕ × PendingMsg))
    → find_pending id ps ≡ some p
    → find_pending id (set_pending id q ps) ≡ some q
unfolding find_pending set_pending
find-set-same id p q [] h = cc
find-set-same id p q ((i, r) ∷ ps) h = elim (Bool-cases (i == id)) [
  | inl e ↦ rw (e, find_pending, e) refl
  | inr e ↦ rw (e, find_pending, e) (find-set-same id p q ps (rw e at h))
]

pub find-set-other :
    (id j : ℕ) (q : PendingMsg) (ps : List (ℕ × PendingMsg))
    → j ≢ id
    → find_pending id (set_pending j q ps) ≡ find_pending id ps
unfolding find_pending set_pending
find-set-other id j q [] h = refl
find-set-other id j q ((i, r) ∷ ps) h = ground (arith, find-set-other id j q ps h)

-- An answer that is put into an entry.
set-Waiting :
    (m : LocalMsg) (id j : ℕ) (c : Client) (p q : PendingMsg)
    → find_pending j c.pending_msgs ≡ some p
    → (j ≡ id
        → p.req ≡ m
        → p.broadcast ≡ false
        → (q.req ≡ m)
          × (q.broadcast ≡ false)
          × All (Answers m) q.resps
          × (no_resps q.resps ≡ false))
    → Waiting m id c
    → Waiting m id (record c { pending_msgs = set_pending j q c.pending_msgs })
set-Waiting m id j c p q h k w = elim (Bool-cases (j == id)) [
  | inl e ↦
      let same : j ≡ id = (==_iff j id).0 e in
      let f : find_pending id c.pending_msgs ≡ some p =
        subst (λ z. find_pending z c.pending_msgs ≡ some p) same h in
      let own : p ≡ w.entry = cc (f, w.found) in
      let (r, b, g, n) =
        k same (ap (λ z. z.req) own ∙ w.req) (ap (λ z. z.broadcast) own ∙ w.single) in
      record {
        entry = q;
        found =
            subst (λ z. find_pending id (set_pending z q c.pending_msgs) ≡ some q) (sym same)
              (find-set-same id p q c.pending_msgs f);
        req = r;
        single = b;
        good = g;
        ready = λ _. n;
      }
  | inr e ↦
      let other : j ≢ id = λ same. absurd (cc ((==_iff j id).1 same)) in
      record {
        entry = w.entry;
        found = find-set-other id j q c.pending_msgs other ∙ w.found;
        req = w.req;
        single = w.single;
        good = w.good;
        ready = w.ready;
      }
]

-- Only the pending messages matter.
pub Waiting-same :
    {m : LocalMsg} {id : ℕ} {c d : Client}
    → d.pending_msgs ≡ c.pending_msgs
    → Waiting m id c
    → Waiting m id d
Waiting-same {id = id} e w = record {
  entry = w.entry;
  found = rw e w.found;
  req = w.req;
  single = w.single;
  good = w.good;
  ready = w.ready;
}

sender_lem :
    (p : PendingMsg) (msg : LocalMsg)
    → p.broadcast ≡ false
    → (not p.broadcast && not (str_eq p.req.addr msg.addr)) ≡ false
    → msg.addr ≡ p.req.addr
sender_lem p msg h k = elim (str_dec p.req.addr msg.addr) [
  | yes e ↦ sym e
  | no n ↦ let g = rw (h, if_neg _ n) at k in absurd (cc)
]

no_resps_lem : (rs : List LocalMsg) → no_resps rs ≡ true → rs ≡ []
no_resps_lem [] h = refl
no_resps_lem (r ∷ rs) h = absurd (cc)

accept_resp-Waiting :
    (m : LocalMsg) (id : ℕ) (msg : LocalMsg) (p : PendingMsg) (c : Client)
    → find_pending msg.req_id c.pending_msgs ≡ some p
    → Waiting m id c
    → Post (λ e c'. Waiting m id c') (accept_resp msg p c)
unfolding accept_resp
accept_resp-Waiting m id msg p c h w =
    let P : ErrCode → Client → Type 0 = λ e c'. Waiting m id c' in
    if-Post {P = P} (not p.broadcast && not (str_eq p.req.addr msg.addr)) _ _
      (λ _. some-Post P ErrCode.msg_unknown_sender c w)
      (λ from.
        if-Post {P = P} (is_response_to msg.type p.req.type) _ _
          (λ answers.
            if-Post {P = P} p.broadcast _ _
              (λ br. some-Post P ErrCode.success _ (
                set-Waiting m id msg.req_id c p (record p { resps = p.resps ++ msg ∷ [] }) h
                  (λ same r b. absurd (cc (br, b))) w))
              (λ br.
                if-Post {P = P} (no_resps p.resps) _ _
                  (λ none_yet.
                    if-Post {P = P} p.ready _ _ (λ _. none-Post P)
                      (λ _. some-Post P ErrCode.success _ (
                        set-Waiting m id msg.req_id c p
                          (record p { ready = true; resps = p.resps ++ msg ∷ [] }) h
                          (λ same r b. rw (no_resps_lem p.resps none_yet) (
                            r,
                            b,
                            (
                              (
                                sender_lem p msg b from ∙ ap (λ z. z.addr) r,
                                subst (λ z. is_response_to msg.type z.type ≡ true) r answers,
                              ),
                              tt,
                            ),
                            refl,
                          ))
                          w)))
                  (λ _. some-Post P ErrCode.not_found c w)))
          (λ _. some-Post P ErrCode.invalid_arg c w))

-- If the request waits before, it waits after.
abbrev pub Leaves : LocalMsg → ℕ → Client → Client → Type 0
Leaves m id c d = Waiting m id c → Waiting m id d

add_pending-Leaves :
    (msg : LocalMsg) (b : Bool) (m : LocalMsg) (id : ℕ) → Stays (Leaves m id) (add_pending msg b)
unfolding add_pending find_pending
add_pending-Leaves msg b m id c =
    let P : Unit {0} → Client → Type 0 = λ a d. Leaves m id c d in
    case-Post {P = P} (find_pending msg.id c.pending_msgs) _ _
      (λ free. some-Post P tt _ (λ w.
        let other : (msg.id == id) ≡ false = elim (Bool-cases (msg.id == id)) [
          | inl e ↦
              let same : msg.id ≡ id = (==_iff msg.id id).0 e in absurd (cc (free, w.found, same))
          | inr e ↦ e
        ] in
        record {
          entry = w.entry;
          found = rw other w.found;
          req = w.req;
          single = w.single;
          good = w.good;
          ready = w.ready;
        }))
      (λ p h. none-Post P)

pub Leaves-IsKept : (m : LocalMsg) (id : ℕ) → IsKept (Leaves m id)
Leaves-IsKept m id = record {
  same = λ c w. w;
  chain = λ c d e p q w. q (p w);
  nodes = λ c n. Waiting-same refl;
  does = λ c es. Waiting-same refl;
  adds = λ msg b. add_pending-Leaves msg b m id;
  accepts = λ msg p c h a d e w. accept_resp-Waiting m id msg p c h w a d e;
}
