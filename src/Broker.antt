-- ===== src/Broker.antt =====
-- src/common/local_broker.cpp: a broker that sends what is published back to its own node.
pub mod Delivery
use kvik.Base.{Bool, true, false, List, [], ◌∷◌, Option, none, some, Str, if◌then◌else◌}
use kvik.Message.{ErrCode, failed, SubData, PubData, to_sub_data}
use kvik.Layers.{RemoteLayer, new_remote_layer}
use kvik.Trie.Ops.{Trie, insert, remove, fresh}
use kvik.Trie.Find.{find, Values}

-- `layer` is the part of the base class.
pub record LocalBroker : Type 0 where
  pub subs : Trie Bool
  pub layer : RemoteLayer

-- The constructor: a trie with the default separators, and no callback.
abbrev pub new_broker : LocalBroker
new_broker = record {
  subs = record {
    l_sep = 47 ∷ [];
    l_single_wild = 43 ∷ [];
    l_multi_wild = 35 ∷ [];
    root = fresh false 0;
  };
  layer = new_remote_layer;
}

abbrev pub is_empty : Values Bool → Bool
is_empty [] = true
is_empty (x ∷ xs) = false

-- The code, and the data for which the callback is called.
unfoldable pub publish : LocalBroker → PubData → ErrCode × List SubData
publish b p =
    if is_empty (find b.subs p.topic) then (ErrCode.success, []) else elim b.layer.recv_cb [
      | none ↦ (ErrCode.success, [])
      | some f ↦ (f (to_sub_data p), to_sub_data p ∷ [])
    ]

unfoldable pub subscribe : LocalBroker → Str → ErrCode × LocalBroker
subscribe b topic = (ErrCode.success, record b { subs = insert false topic true b.subs })

unfoldable pub unsubscribe : LocalBroker → Str → ErrCode × LocalBroker
unsubscribe b topic =
    let (subs', removed) = remove topic b.subs in
    (if removed then ErrCode.success else ErrCode.not_found, record b { subs = subs' })
