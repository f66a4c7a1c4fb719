-- ===== src/Message.antt =====
-- The data that nodes exchange: include/kvik/errors.hpp, limits.hpp, node_types.hpp,
-- pub_sub_struct.hpp, local_addr.hpp and local_msg.hpp, and src/common/pub_sub_struct.cpp.
pub mod Hex
pub mod Equality
pub mod Text
pub mod Mac
use kvik.Base.{
  ℕ, zero, suc, ◌+◌, ◌/◌, ◌%◌, Bool, true, false, ◌&&◌, List, [], ◌∷◌, ◌++◌, Str, str_eq,
  if◌then◌else◌, ltb, ◌==◌, ◌≡◌, refl, arith,
}
use kvik.Int.{ℤ, pos, negsuc}

pub data ErrCode : Type 0 where
  success generic_failure : ErrCode
  invalid_arg invalid_size not_found not_supported timeout : ErrCode
  too_many_failed_attempts no_gateway : ErrCode
  msg_dup_id msg_invalid_ts msg_processing_failed msg_unknown_sender : ErrCode

-- `err != ErrCode::SUCCESS`
abbrev pub failed : ErrCode → Bool
failed ErrCode.success = false
failed _ = true

pub data NodeType : Type 0 where
  unknown client gateway relay : NodeType

pub data LocalMsgType : Type 0 where
  none_type ok fail probe_req probe_res pub_sub_unsub sub_data : LocalMsgType

-- The values of the enumeration, by which types are compared.
abbrev pub type_code : LocalMsgType → ℕ
type_code LocalMsgType.none_type = 0x00
type_code LocalMsgType.ok = 0x01
type_code LocalMsgType.fail = 0x02
type_code LocalMsgType.probe_req = 0x10
type_code LocalMsgType.probe_res = 0x11
type_code LocalMsgType.pub_sub_unsub = 0x20
type_code LocalMsgType.sub_data = 0x21

abbrev pub type_eq : LocalMsgType → LocalMsgType → Bool
type_eq a b = type_code a == type_code b

pub data LocalMsgFailReason : Type 0 where
  no_reason dup_id invalid_ts processing_failed unknown_sender : LocalMsgFailReason

-- `PREF_UNKNOWN` and `RSSI_UNKNOWN`, the least int16_t.
abbrev pub pref_unknown : ℤ
pref_unknown = negsuc 32767

abbrev pub rssi_unknown : ℤ
rssi_unknown = negsuc 32767

-- struct LocalAddr: its only member are the bytes.
abbrev pub LocalAddr : Type 0
LocalAddr = Str

abbrev pub addr_empty : LocalAddr → Bool
addr_empty [] = true
addr_empty (b ∷ bs) = false

hex_digit : ℕ → ℕ
hex_digit d = if ltb d 10 then 48 + d else 87 + d

-- `LocalAddr::toString`: two hexadecimal digits for each byte.
unfoldable pub addr_to_string : LocalAddr → Str
unfolding hex_digit
addr_to_string [] = []
addr_to_string (b ∷ bs) = hex_digit (b / 16) ∷ hex_digit (b % 16) ∷ addr_to_string bs

pub record SubData : Type 0 where
  pub topic : Str
  pub payload : Str

pub record PubData : Type 0 where
  pub topic : Str
  pub payload : Str

-- `PubData::toSubData`
abbrev pub to_sub_data : PubData → SubData
to_sub_data p = record { topic = p.topic; payload = p.payload }

-- A callback (SubCb) is known by a number: what a call of it does is not modelled, only that it
-- is called, and with what.
abbrev pub SubCb : Type 0
SubCb = ℕ

pub record SubReq : Type 0 where
  pub topic : Str
  pub cb : SubCb

pub record LocalMsg : Type 0 where
  pub type : LocalMsgType
  pub addr : LocalAddr
  pub relayed_addr : LocalAddr
  pub pubs : List PubData
  pub subs : List Str
  pub unsubs : List Str
  pub subs_data : List SubData
  pub id : ℕ
  pub ts : ℕ
  pub req_id : ℕ
  pub node_type : NodeType
  pub fail_reason : LocalMsgFailReason
  pub rssi : ℤ
  pub pref : ℤ
  pub ts_diff : ℤ

-- `LocalMsg msg;`
abbrev pub default_msg : LocalMsg
default_msg = record {
  type = LocalMsgType.none_type;
  addr = [];
  relayed_addr = [];
  pubs = [];
  subs = [];
  unsubs = [];
  subs_data = [];
  id = 0;
  ts = 0;
  req_id = 0;
  node_type = NodeType.unknown;
  fail_reason = LocalMsgFailReason.no_reason;
  rssi = rssi_unknown;
  pref = pref_unknown;
  ts_diff = pos 0;
}
