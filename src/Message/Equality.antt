-- ===== src/Message/Equality.antt =====
-- The equality of messages and of their parts (`operator==` of src/common/local_msg.cpp and
-- src/common/pub_sub_struct.cpp).
use kvik.Base.{◌≡◌, ◌↔◌, Bool, true, ◌&&◌, str_eq, str_eq_iff, list_eq, list_eq_iff, arith}
use kvik.Message.{LocalMsg, LocalMsgType, type_eq, PubData, SubData, SubReq}

unfoldable pub pub_eq : PubData → PubData → Bool
pub_eq a b = str_eq a.topic b.topic && str_eq a.payload b.payload

unfoldable pub sub_data_eq : SubData → SubData → Bool
sub_data_eq a b = str_eq a.topic b.topic && str_eq a.payload b.payload

-- The callbacks are not compared.
unfoldable pub sub_req_eq : SubReq → SubReq → Bool
sub_req_eq a b = str_eq a.topic b.topic

unfoldable pub msg_eq : LocalMsg → LocalMsg → Bool
unfolding pub_eq sub_data_eq
msg_eq a b =
    type_eq a.type b.type
    && (str_eq a.addr b.addr
        && (str_eq a.relayed_addr b.relayed_addr
            && (list_eq pub_eq a.pubs b.pubs
                && (list_eq str_eq a.subs b.subs
                    && (list_eq str_eq a.unsubs b.unsubs
                        && list_eq sub_data_eq a.subs_data b.subs_data)))))

pub_eq_iff : (a b : PubData) → (pub_eq a b ≡ true) ↔ (a ≡ b)
unfolding pub_eq
pub_eq_iff a b = ground (arith, str_eq_iff a.topic b.topic, str_eq_iff a.payload b.payload)

sub_data_eq_iff : (a b : SubData) → (sub_data_eq a b ≡ true) ↔ (a ≡ b)
unfolding sub_data_eq
sub_data_eq_iff a b = ground (arith, str_eq_iff a.topic b.topic, str_eq_iff a.payload b.payload)

type_eq_iff : (a b : LocalMsgType) → (type_eq a b ≡ true) ↔ (a ≡ b)
type_eq_iff a b = ground arith

-- Two messages are the same to `==` exactly when they agree in their type, both addresses, the
-- publications, subscriptions, unsubscriptions and subscription data; the other fields are not
-- compared.
pub msg_eq_iff :
    (a b : LocalMsg)
    → (msg_eq a b ≡ true) ↔ (
        (a.type ≡ b.type)
        × (a.addr ≡ b.addr)
        × (a.relayed_addr ≡ b.relayed_addr)
        × (a.pubs ≡ b.pubs)
        × (a.subs ≡ b.subs)
        × (a.unsubs ≡ b.unsubs)
        × (a.subs_data ≡ b.subs_data))
unfolding msg_eq
msg_eq_iff a b = ground (
  arith,
  type_eq_iff a.type b.type,
  str_eq_iff a.addr b.addr,
  str_eq_iff a.relayed_addr b.relayed_addr,
  list_eq_iff pub_eq pub_eq_iff a.pubs b.pubs,
  list_eq_iff str_eq str_eq_iff a.subs b.subs,
  list_eq_iff str_eq str_eq_iff a.unsubs b.unsubs,
  list_eq_iff sub_data_eq sub_data_eq_iff a.subs_data b.subs_data,
)
