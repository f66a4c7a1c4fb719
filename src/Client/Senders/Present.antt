-- ===== src/Client/Senders/Present.antt =====
-- Entries of `m_pendingMsgs` (src/common/client.cpp) that stay while others are added, answered and
-- erased.
use kvik.Base.{
  ℕ, ◌≡◌, refl, ◌≢◌, ◌∙◌, Bool, true, false, not, ◌&&◌, List, [], ◌∷◌, Option, some, is_some,
  Bool-cases, inl, inr, ==_iff, arith, ap, subst, ◌==◌, if◌then◌else◌, str_eq,
}
use kvik.Message.{ErrCode, LocalMsg}
use kvik.Client.State.{Client, PendingMsg, add_pending, find_pending, set_pending, erase_pending}
use kvik.Client.Receive.{accept_resp, is_response_to, no_resps}
use kvik.Client.Stays.{Stays, IsKept}
use kvik.Client.Post.{Post, some-Post, none-Post, if-Post, case-Post}
use kvik.Client.Responses.{find-set-same, find-set-other, Leaves, Leaves-IsKept}

abbrev pub Present : ℕ → Client → Type 0
Present id c = is_some (find_pending id c.pending_msgs) ≡ true

pub find-erase-other :
    (id j : ℕ) (ps : List (ℕ × PendingMsg))
    → id ≢ j
    → find_pending id (erase_pending j ps) ≡ find_pending id ps
unfolding find_pending erase_pending
find-erase-other id j [] h = refl
find-erase-other id j ((i, r) ∷ ps) h = ground (arith, find-erase-other id j ps h)

set-Present :
    (id j : ℕ) (p q : PendingMsg) (ps : List (ℕ × PendingMsg))
    → find_pending j ps ≡ some p
    → is_some (find_pending id ps) ≡ true
    → is_some (find_pending id (set_pending j q ps)) ≡ true
set-Present id j p q ps f h = elim (Bool-cases (j == id)) [
  | inl e ↦
      let same : j ≡ id = (==_iff j id).0 e in
      ap is_some
        (subst (λ z. find_pending z (set_pending j q ps) ≡ some q) same (find-set-same j p q ps f))
  | inr e ↦ ap is_some (find-set-other id j q ps (λ same. absurd (cc ((==_iff j id).1 same)))) ∙ h
]

-- Whatever waits or is there before, is after.
pub record Retains (c d : Client) : Type 0 where
  pub waiting : (m : LocalMsg) (id : ℕ) → Leaves m id c d
  pub present : (id : ℕ) → Present id c → Present id d

Stands : ℕ → Client → Client → Type 0
Stands id c d = Present id c → Present id d

add_pending-Stands : (msg : LocalMsg) (b : Bool) (id : ℕ) → Stays (Stands id) (add_pending msg b)
unfolding add_pending find_pending Stands
add_pending-Stands msg b id c =
    let P : Unit {0} → Client → Type 0 = λ a d. Stands id c d in
    case-Post {P = P} (find_pending msg.id c.pending_msgs) _ _
      (λ free. some-Post P tt _ (λ h. there _ (msg.id == id) _ h)) (λ p h. none-Post P)
  where
    there :
        (q : PendingMsg) (b : Bool) (o : Option PendingMsg)
        → is_some o ≡ true
        → is_some (if b then some q else o) ≡ true
    there q true o h = refl
    there q false o h = h

accept_resp-Stands :
    (id : ℕ) (msg : LocalMsg) (p : PendingMsg) (c : Client)
    → find_pending msg.req_id c.pending_msgs ≡ some p
    → Post (λ e d. Stands id c d) (accept_resp msg p c)
unfolding accept_resp Stands
accept_resp-Stands id msg p c f =
    let P : ErrCode → Client → Type 0 = λ e d. Stands id c d in
    let refuse : (e : ErrCode) → Post P (some (e, c)) = λ e. some-Post P e c (λ h. h) in
    let put : (q : PendingMsg)
        → Post P (
            some (
              ErrCode.success,
              record c { pending_msgs = set_pending msg.req_id q c.pending_msgs },
            )) =
      λ q. some-Post P ErrCode.success _ (set-Present id msg.req_id p q c.pending_msgs f) in
    if-Post {P = P} (not p.broadcast && not (str_eq p.req.addr msg.addr)) _ _
      (λ _. refuse ErrCode.msg_unknown_sender)
      (λ _.
        if-Post {P = P} (is_response_to msg.type p.req.type) _ _
          (λ _.
            if-Post {P = P} p.broadcast _ _ (λ _. put _)
              (λ _.
                if-Post {P = P} (no_resps p.resps) _ _
                  (λ _. if-Post {P = P} p.ready _ _ (λ _. none-Post P) (λ _. put _))
                  (λ _. refuse ErrCode.not_found)))
          (λ _. refuse ErrCode.invalid_arg))

Stands-IsKept : (id : ℕ) → IsKept (Stands id)
unfolding Stands
Stands-IsKept id = record {
  same = λ c h. h;
  chain = λ c d e p q h. q (p h);
  nodes = λ c n h. h;
  does = λ c es h. h;
  adds = λ msg b. add_pending-Stands msg b id;
  accepts = λ msg p c f. accept_resp-Stands id msg p c f;
}

pub Retains-IsKept : IsKept Retains
unfolding Stands
Retains-IsKept = record {
  same = λ c. record {
    waiting = λ m id. (Leaves-IsKept m id).same c;
    present = λ id. (Stands-IsKept id).same c;
  };
  chain = λ c d e p q. record {
    waiting = λ m id. (Leaves-IsKept m id).chain c d e (p.waiting m id) (q.waiting m id);
    present = λ id. (Stands-IsKept id).chain c d e (p.present id) (q.present id);
  };
  nodes = λ c n. record {
    waiting = λ m id. (Leaves-IsKept m id).nodes c n;
    present = λ id. (Stands-IsKept id).nodes c n;
  };
  does = λ c es. record {
    waiting = λ m id. (Leaves-IsKept m id).does c es;
    present = λ id. (Stands-IsKept id).does c es;
  };
  adds = λ msg b c a d h. record {
    waiting = λ m id. (Leaves-IsKept m id).adds msg b c a d h;
    present = λ id. (Stands-IsKept id).adds msg b c a d h;
  };
  accepts = λ msg p c f a d h. record {
    waiting = λ m id. (Leaves-IsKept m id).accepts msg p c f a d h;
    present = λ id. (Stands-IsKept id).accepts msg p c f a d h;
  };
}
