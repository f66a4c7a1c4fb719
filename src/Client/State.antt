-- ===== src/Client/State.antt =====
-- The configuration and the state of a client (include/kvik/client_config.hpp and
-- include/kvik/client.hpp), and what its operations do to the world around it.
use kvik.Base.{ℕ, ◌/◌, Bool, false, List, [], ◌∷◌, ◌++◌, Option, none, some, if◌then◌else◌, ◌==◌}
use kvik.Int.{ℤ, plus, quot, to_u16}
use kvik.Message.{NodeType, LocalMsg, SubCb, SubData}
use kvik.Node.{INode, NodeConfig, get_msg_id}
use kvik.Peer.{LocalPeer, RetainedLocalPeer}
use kvik.Trie.Ops.{Trie}

-- Times are in milliseconds.
pub record GatewayDiscovery : Type 0 where
  pub dscv_min_delay : ℕ
  pub dscv_max_delay : ℕ
  pub initial_dscv_fail_thres : ℕ
  pub trig_msgs_fail_cnt : ℕ
  pub trig_time_sync_no_resp_cnt : ℕ

pub record ClientReporting : Type 0 where
  pub rssi_on_time_sync : Bool
  pub rssi_on_gw_dscv : Bool

pub record TimeSync : Type 0 where
  pub sync_system_time : Bool
  pub reprobe_gateway_interval : ℕ

pub record ClientConfig : Type 0 where
  pub node_conf : NodeConfig
  pub gw_dscv : GatewayDiscovery
  pub reporting : ClientReporting
  pub sub_lifetime : ℕ
  pub time_sync : TimeSync

pub record ClientRetainedData : Type 0 where
  pub retained_gw : RetainedLocalPeer
  pub retained_msgs_fail_cnt : ℕ
  pub retained_time_sync_no_resp_cnt : ℕ

-- `req` is a copy of the request, which the source holds by reference. `ready` says whether the
-- promise has been fulfilled.
pub record PendingMsg : Type 0 where
  pub req : LocalMsg
  pub broadcast : Bool
  pub ready : Bool
  pub resps : List LocalMsg

-- What the client does to the local layer, to the callbacks of the user, to the watchdog thread, to
-- the time synchronisation timer and to the system clock.
pub data Effect : Type 0 where
  sends : LocalMsg → Effect
  calls_back : SubCb → SubData → Effect
  triggers_discovery : Effect
  sets_channel : ℕ → Effect
  schedules_sync : ℕ → Effect
  sets_system_time : ℤ → Effect

pub record Client : Type 0 where
  pub conf : ClientConfig
  pub node : INode
  pub sub_db : Trie SubCb
  pub gw : LocalPeer
  pub pending_msgs : List (ℕ × PendingMsg)
  pub msgs_fail_cnt : ℕ
  pub time_sync_no_resp_cnt : ℕ
  pub ignore_invalid_msg_ts : Bool
  pub effects : List Effect

-- A step of the client. `none` is a std::future_error that nobody catches, or the use of something
-- that is not there.
abbrev pub M : Type 0 → Type 0
M A = Client → Option (A × Client)

infixl 5 ◌>>=◌ ◌>>◌
abbrev pub ◌>>=◌ : {A B : Type 0} → M A → (A → M B) → M B
◌>>=◌ m f c = elim (m c) [ none ↦ none | some (a, c') ↦ f a c' ]

abbrev pub ◌>>◌ : {B : Type 0} → M (Unit {0}) → M B → M B
m >> k = m >>= λ _. k

abbrev pub pure : {A : Type 0} → A → M A
pure a c = some (a, c)

abbrev pub emit : Effect → M (Unit {0})
emit e c = some (tt, record c { effects = c.effects ++ e ∷ [] })

-- `m_pendingMsgs` by message ID.
unfoldable pub find_pending : ℕ → List (ℕ × PendingMsg) → Option PendingMsg
find_pending id [] = none
find_pending id ((i, p) ∷ ps) = if i == id then some p else find_pending id ps

unfoldable pub erase_pending : ℕ → List (ℕ × PendingMsg) → List (ℕ × PendingMsg)
erase_pending id [] = []
erase_pending id ((i, p) ∷ ps) =
    let rest = erase_pending id ps in if i == id then rest else (i, p) ∷ rest

-- The entry is changed in place.
unfoldable pub set_pending : ℕ → PendingMsg → List (ℕ × PendingMsg) → List (ℕ × PendingMsg)
set_pending id q [] = []
set_pending id q ((i, p) ∷ ps) = if i == id then (i, q) ∷ ps else (i, p) ∷ set_pending id q ps

-- `prepareMsg`; `now` are the nanoseconds of the steady clock.
unfoldable pub prepare_msg : ℕ → Bool → LocalMsg → M LocalMsg
prepare_msg now broadcast msg c =
    let (id, node') = get_msg_id c.node in
    some (
      record msg {
        addr = if broadcast then [] else c.gw.addr;
        id = id;
        ts =
            to_u16
              (quot (plus (now / 1000000) c.gw.ts_diff) c.conf.node_conf.msg_id_cache.time_unit);
        node_type = NodeType.client;
      },
      record c { node = node' },
    )

-- A new pending message, and the future of its promise. The map keeps an entry that has the ID
-- already; its future has been taken, and to take it again throws.
unfoldable pub add_pending : LocalMsg → Bool → M (Unit {0})
add_pending msg broadcast c = elim (find_pending msg.id c.pending_msgs) [
  | some p ↦ none
  | none ↦ some (
    tt,
    record c {
      pending_msgs =
          (msg.id, record { req = msg; broadcast = broadcast; ready = false; resps = [] })
          ∷ c.pending_msgs;
    },
  )
]
