-- ===== src/Node.antt =====
-- src/common/node.cpp and include/kvik/node_config.hpp: what all node types share.
pub mod Window
pub mod Ids
use kvik.Base.{
  ℕ, ◌+◌, ◌-◌, ◌*◌, ◌%◌, Bool, true, false, ◌&&◌, List, ◌++◌, Option, none, some, Str,
  if◌then◌else◌, ltb, leb, ◌==◌,
}
use kvik.Int.{ℤ, pos, plus, scale, quot, to_u16}
use kvik.Message.{LocalAddr, addr_to_string}
use kvik.MsgIdCache
use kvik.MsgIdCache.{LocalMsgIdCache, new_cache}

pub record LocalDelivery : Type 0 where
  pub resp_timeout : ℕ

-- Times are in milliseconds.
pub record MsgIdCacheConfig : Type 0 where
  pub time_unit : ℕ
  pub max_age : ℕ

pub record NodeReporting : Type 0 where
  pub base_topic : Str
  pub rssi_subtopic : Str

pub record TopicSeparators : Type 0 where
  pub level_separator : Str
  pub single_level_wildcard : Str
  pub multi_level_wildcard : Str

pub record NodeConfig : Type 0 where
  pub local_delivery : LocalDelivery
  pub msg_id_cache : MsgIdCacheConfig
  pub reporting : NodeReporting
  pub topic_sep : TopicSeparators

pub record INode : Type 0 where
  pub node_conf : NodeConfig
  pub msg_id : ℕ
  pub cache : LocalMsgIdCache

-- The constructor, with the two random bytes that it draws. `none` is the exception.
unfoldable pub construct : NodeConfig → ℕ → Option INode
construct conf random =
    if conf.msg_id_cache.max_age == 0
    then none
    else some (record {
      node_conf = conf;
      msg_id = random % 65536;
      cache = new_cache conf.msg_id_cache.max_age;
    })

-- `m_msgId++`
unfoldable pub get_msg_id : INode → ℕ × INode
get_msg_id n = (n.msg_id, record n { msg_id = (n.msg_id + 1) % 65536 })

unfoldable pub validate_msg_id : INode → LocalAddr → ℕ → Bool × INode
validate_msg_id n addr id =
    let (cache', fresh) = MsgIdCache.insert n.cache addr id in (fresh, record n { cache = cache' })

-- The units on the clock: `now` are the nanoseconds of the steady clock, `ts_diff` milliseconds.
unfoldable pub now_units : NodeConfig → ℕ → ℤ → ℕ
now_units conf now ts_diff =
    to_u16 (quot (plus now (scale ts_diff 1000000)) (conf.msg_id_cache.time_unit * 1000000))

-- The tests of `validateMsgTimestamp`. `maxDriftUnits` is the int `maxAge - 1`; each test on ints
-- stands with the subtrahend on the other side, `a - b > c` as `c + b < a`, so that no number is
-- negative. The sums that are stored in a uint16_t wrap.
unfoldable pub in_window : ℕ → ℕ → ℕ → Bool
in_window max_age units ts =
    if ltb (units + max_age) (units + 1)
    then (let units' = (units + max_age + 65535) % 65536 in
        let ts' = (ts + max_age + 65535) % 65536 in
        leb ts' units' && leb (units' + 1) (ts' + max_age))
    else leb ts units && leb (units + 1) (ts + max_age)

unfoldable pub validate_msg_timestamp : INode → ℕ → ℕ → ℤ → Bool
unfolding in_window now_units
validate_msg_timestamp n now ts ts_diff =
    in_window n.node_conf.msg_id_cache.max_age (now_units n.node_conf now ts_diff) ts

unfoldable pub build_report_rssi_topic : NodeConfig → LocalAddr → Str
build_report_rssi_topic conf peer =
    conf.reporting.base_topic
    ++ (conf.topic_sep.level_separator
        ++ (conf.reporting.rssi_subtopic
            ++ (conf.topic_sep.level_separator ++ addr_to_string peer)))
