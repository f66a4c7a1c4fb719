-- ===== src/Message/Text.antt =====
-- The texts of messages and of their parts (`toString` of src/common/local_msg.cpp and
-- src/common/pub_sub_struct.cpp). Int.to_string is std::to_string.
pub mod Items
use kvik.Base.{
  ℕ, zero, suc, ◌-◌, ◌≡◌, refl, List, [], ◌∷◌, ◌++◌, Str, codes, take, length, if◌then◌else◌,
}
use kvik.Int.{pos, to_string}
use kvik.Message.{
  LocalMsg, LocalMsgType, LocalMsgFailReason, PubData, SubData, addr_empty, addr_to_string,
}

-- `localMsgTypeToStr`
abbrev pub type_to_str : LocalMsgType → Str
type_to_str LocalMsgType.none_type = codes "NONE"
type_to_str LocalMsgType.ok = codes "OK"
type_to_str LocalMsgType.fail = codes "FAIL"
type_to_str LocalMsgType.probe_req = codes "PROBE_REQ"
type_to_str LocalMsgType.probe_res = codes "PROBE_RES"
type_to_str LocalMsgType.pub_sub_unsub = codes "PUB_SUB_UNSUB"
type_to_str LocalMsgType.sub_data = codes "SUB_DATA"

-- `localMsgFailReasonToStr`
abbrev pub fail_reason_to_str : LocalMsgFailReason → Str
fail_reason_to_str LocalMsgFailReason.no_reason = codes "NONE"
fail_reason_to_str LocalMsgFailReason.dup_id = codes "DUP_ID"
fail_reason_to_str LocalMsgFailReason.invalid_ts = codes "INVALID_TS"
fail_reason_to_str LocalMsgFailReason.processing_failed = codes "PROCESSING_FAILED"
fail_reason_to_str LocalMsgFailReason.unknown_sender = codes "UNKNOWN_SENDER"

unfoldable pub data_to_string : Str → Str → Str
data_to_string topic payload =
    (if addr_empty topic then codes "(no topic)" else topic)
    ++ (codes " " ++ (codes "(" ++ (to_string (pos (length payload)) ++ codes " B payload)")))

-- `PubData::toString` and `SubData::toString`, whose bodies are the same.
abbrev pub pub_to_string : PubData → Str
pub_to_string p = data_to_string p.topic p.payload

abbrev pub sub_to_string : SubData → Str
sub_to_string d = data_to_string d.topic d.payload

-- The text before the `switch`.
unfoldable pub base_of : LocalMsg → Str
base_of m =
    type_to_str m.type
    ++ (codes " "
        ++ ((if addr_empty m.addr then codes "(no addr)" else addr_to_string m.addr)
            ++ (if addr_empty m.relayed_addr
                then []
                else codes " " ++ addr_to_string m.relayed_addr)))

-- `base.erase(base.size() - 2)`
abbrev pub erase_last2 : Str → Str
erase_last2 s = take (length s - 2) s

-- The loops.
unfoldable pub add_pubs : List PubData → Str → Str
add_pubs [] base = base
add_pubs (p ∷ ps) base = add_pubs ps (base ++ (codes "PUB " ++ (pub_to_string p ++ codes ", ")))

unfoldable pub add_topics : Str → List Str → Str → Str
add_topics prefix [] base = base
add_topics prefix (t ∷ ts) base = add_topics prefix ts (base ++ (prefix ++ (t ++ codes ", ")))

unfoldable pub add_subs_data : List SubData → Str → Str
add_subs_data [] base = base
add_subs_data (d ∷ ds) base = add_subs_data ds (base ++ (sub_to_string d ++ codes ", "))

unfoldable pub msg_to_string : LocalMsg → Str
unfolding base_of add_pubs add_topics add_subs_data
msg_to_string m = elim m.type [
  | LocalMsgType.fail ↦ base_of m ++ (codes " | failed due to " ++ fail_reason_to_str m.fail_reason)
  | LocalMsgType.probe_res ↦ base_of m ++ (codes " | pref " ++ to_string m.pref)
  | LocalMsgType.pub_sub_unsub ↦ erase_last2 (
      add_topics (codes "UNSUB ") m.unsubs
        (add_topics (codes "SUB ") m.subs (add_pubs m.pubs (base_of m ++ codes " | "))))
  | LocalMsgType.sub_data ↦ erase_last2 (add_subs_data m.subs_data (base_of m ++ codes " | "))
  | _ ↦ base_of m
]
