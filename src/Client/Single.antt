-- ===== src/Client/Single.antt =====
-- A client with a single pending message, while responses to it arrive and at the end of the wait
-- (`recvLocal` and `sendLocalUnchecked` of src/common/client.cpp).
use kvik.Base.{
  ℕ, ◌≡◌, refl, true, false, not, ◌&&◌, List, [], ◌∷◌, ◌++◌, some, All, str_eq, subst, ◌==◌,
  Bool-cases, inl, inr, ==_iff,
}
use kvik.Message.{ErrCode, LocalMsg, LocalMsgType, type_eq}
use kvik.Node.{validate_msg_id, validate_msg_timestamp}
use kvik.Client.State.{Client, M, pure, PendingMsg, find_pending, erase_pending, set_pending}
use kvik.Client.Receive.{
  accept_resp, is_response_to, no_resps, recv_local_resp, recv_local_sub_data, recv_local,
  from_gateway,
}
use kvik.Client.Send.{Arrival, arrive, take_resp, first_resp}
use kvik.Client.Gives.{Gives, some-Gives, if-Gives, if-M-Gives, case-Gives, >>=-Gives}

-- One message is pending, and its promise is fulfilled only if it has a response.
pub record Single (id : ℕ) (c : Client) : Type 0 where
  pub entry : PendingMsg
  pub alone : c.pending_msgs ≡ (id, entry) ∷ []
  pub ready : entry.ready ≡ true → no_resps entry.resps ≡ false

-- A step that returns where a single message is pending, and leaves it pending.
abbrev pub Keeps : {A : Type 0} → ℕ → M A → Type 0
Keeps id m = (c : Client) → Single id c → Gives (λ a d. Single id d) (m c)

find-Single :
    (j id : ℕ) (q p : PendingMsg)
    → find_pending j ((id, q) ∷ []) ≡ some p
    → ((id == j) ≡ true) × (q ≡ p)
unfolding find_pending
find-Single j id q p h = elim (Bool-cases (id == j)) [
  | inl e ↦ let g = rw e at h in (e, cc)
  | inr e ↦ let g = rw e at h in absurd (cc)
]

-- The entry is changed.
set-Single :
    (j id : ℕ) (p : PendingMsg) (c : Client) (s : Single id c)
    → (id == j) ≡ true
    → (p.ready ≡ true → no_resps p.resps ≡ false)
    → Single id (record c { pending_msgs = set_pending j p c.pending_msgs })
unfolding set_pending
set-Single j id p c s e r = record { entry = p; alone = rw (s.alone, e) refl; ready = r }

no_resps-append : (rs : List LocalMsg) (r : LocalMsg) → no_resps (rs ++ r ∷ []) ≡ false
no_resps-append [] r = refl
no_resps-append (s ∷ rs) r = refl

accept_resp-Single :
    (id : ℕ) (msg : LocalMsg) (p : PendingMsg) (c : Client)
    → find_pending msg.req_id c.pending_msgs ≡ some p
    → Single id c
    → Gives (λ e d. Single id d) (accept_resp msg p c)
unfolding accept_resp
accept_resp-Single id msg p c h s =
    let P : ErrCode → Client → Type 0 = λ e d. Single id d in
    let (here, own) = find-Single msg.req_id id s.entry p (rw s.alone at h) in
    if-Gives P (not p.broadcast && not (str_eq p.req.addr msg.addr)) _ _
      (λ _. some-Gives P ErrCode.msg_unknown_sender c s)
      (λ _.
        if-Gives P (is_response_to msg.type p.req.type) _ _
          (λ _.
            if-Gives P p.broadcast _ _
              (λ _. some-Gives P ErrCode.success _ (
                set-Single msg.req_id id (record p { resps = p.resps ++ msg ∷ [] }) c s here
                  (λ t. no_resps-append p.resps msg)))
              (λ _.
                if-Gives P (no_resps p.resps) _ _
                  (λ n.
                    if-Gives P p.ready _ _
                      (λ t. absurd (
                        let k =
                          (subst (λ z. z.ready ≡ true → no_resps z.resps ≡ false) own s.ready) t in
                        cc))
                      (λ _. some-Gives P ErrCode.success _ (
                        set-Single msg.req_id id
                          (record p { ready = true; resps = p.resps ++ msg ∷ [] }) c s here
                          (λ t. no_resps-append p.resps msg))))
                  (λ _. some-Gives P ErrCode.not_found c s)))
          (λ _. some-Gives P ErrCode.invalid_arg c s))

recv_local_resp-Keeps : (id now : ℕ) (msg : LocalMsg) → Keeps id (recv_local_resp now msg)
unfolding recv_local_resp
recv_local_resp-Keeps id now msg c s =
    let v = validate_msg_id c.node msg.addr msg.id in
    let c' : Client = record c { node = v.1 } in
    let s' : Single id c' = record { entry = s.entry; alone = s.alone; ready = s.ready } in
    let P : ErrCode → Client → Type 0 = λ e d. Single id d in
    if-Gives P (not v.0) _ _ (λ _. some-Gives P ErrCode.msg_dup_id c' s')
      (λ _.
        if-Gives P
          (not c.ignore_invalid_msg_ts && not (validate_msg_timestamp v.1 now msg.ts c.gw.ts_diff))
          _ _ (λ _. some-Gives P ErrCode.msg_invalid_ts c' s')
          (λ _.
            case-Gives P (find_pending msg.req_id c.pending_msgs) _ _
              (λ _. some-Gives P ErrCode.not_found c' s')
              (λ p h. accept_resp-Single id msg p c' h s')))

recv_local-Keeps :
    (id now : ℕ) (ack : ErrCode) (msg : LocalMsg)
    → type_eq msg.type LocalMsgType.sub_data ≡ false
    → Keeps id (recv_local now ack msg)
unfolding recv_local
recv_local-Keeps id now ack msg h c s =
    let P : ErrCode → Client → Type 0 = λ e d. Single id d in
    if-M-Gives P (not (from_gateway msg.node_type)) _ _ c
      (λ _. some-Gives P ErrCode.invalid_arg c s) (λ _. by_type msg.type h c s)
  where
    by_type :
        (t : LocalMsgType)
        → type_eq t LocalMsgType.sub_data ≡ false
        → Keeps id (elim t [
          | LocalMsgType.ok ↦ recv_local_resp now msg
          | LocalMsgType.fail ↦ recv_local_resp now msg
          | LocalMsgType.probe_res ↦ recv_local_resp now msg
          | LocalMsgType.sub_data ↦ recv_local_sub_data now ack msg
          | _ ↦ pure ErrCode.invalid_arg
        ])
    by_type LocalMsgType.ok g = recv_local_resp-Keeps id now msg
    by_type LocalMsgType.fail g = recv_local_resp-Keeps id now msg
    by_type LocalMsgType.probe_res g = recv_local_resp-Keeps id now msg
    by_type LocalMsgType.sub_data g = absurd (cc)
    by_type _ g = λ c s. some-Gives (λ e d. Single id d) ErrCode.invalid_arg c s

-- No arrival brings subscription data.
abbrev pub NoSubData : List Arrival → Type 0
NoSubData as' = All (λ a. type_eq a.msg.type LocalMsgType.sub_data ≡ false) as'

pub arrive-Keeps : (id : ℕ) (as' : List Arrival) → NoSubData as' → Keeps id (arrive as')
unfolding arrive
arrive-Keeps id [] h = λ c s. some-Gives (λ u d. Single id d) tt c s
arrive-Keeps id (a ∷ rest) h = λ c s.
    >>=-Gives (λ e d. Single id d) (λ u d. Single id d) (recv_local a.now a.ack a.msg) _ c
      (recv_local-Keeps id a.now a.ack a.msg h.0 c s) (λ e d s2. arrive-Keeps id rest h.1 d s2)

-- Nothing is pending.
abbrev pub Clear : Client → Type 0
Clear c = c.pending_msgs ≡ []

erase-Single : (id : ℕ) (c : Client) → Single id c → erase_pending id c.pending_msgs ≡ []
unfolding erase_pending
erase-Single id c s = rw (s.alone, (==_iff id id).1 refl) refl

find-own : (id : ℕ) (c : Client) (s : Single id c) → find_pending id c.pending_msgs ≡ some s.entry
unfolding find_pending
find-own id c s = rw (s.alone, (==_iff id id).1 refl) refl

first_resp-Gives :
    (P : (ErrCode × LocalMsg) → Client → Type 0) (rs : List LocalMsg) (c : Client)
    → no_resps rs ≡ false
    → ((r : LocalMsg) → P (ErrCode.success, r) c)
    → Gives P (first_resp rs c)
first_resp-Gives P [] c h k = absurd (cc)
first_resp-Gives P (r ∷ rs) c h k = some-Gives P (ErrCode.success, r) c (k r)

pub take_resp-Clear :
    (id : ℕ) (resp : LocalMsg) (c : Client)
    → Single id c
    → Gives (λ a d. Clear d) (take_resp id resp c)
unfolding take_resp
take_resp-Clear id resp c s =
    let P : (ErrCode × LocalMsg) → Client → Type 0 = λ a d. Clear d in
    let found = find-own id c s in
    case-Gives P (find_pending id c.pending_msgs) _ _ (λ n. absurd (cc (n, found)))
      (λ p f.
        let own : s.entry ≡ p = cc (found, f) in
        if-Gives P p.ready _ _
          (λ t.
            first_resp-Gives P p.resps _
              (subst (λ z. z.ready ≡ true → no_resps z.resps ≡ false) own s.ready t)
              (λ r. erase-Single id c s))
          (λ t. some-Gives P (ErrCode.timeout, resp) _ (erase-Single id c s)))
