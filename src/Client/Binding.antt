-- ===== src/Client/Binding.antt =====
-- The receive callback that a client binds to its layer: the constructor and the destructor of
-- src/common/client.cpp with `setRecvCb` of include/kvik/layers.hpp, for the clients that use a
-- layer one after the other or at once.
pub mod Late
pub mod Dangling
use kvik.Base.{
  ℕ, ◌+◌, Bool, true, false, List, [], ◌∷◌, Option, none, some, if◌then◌else◌, ◌==◌, ◌||◌,
}
use kvik.Layers.{LocalLayer, set_local_recv_cb}
use kvik.Peer.{LocalPeer}
use kvik.Client.State.{ClientConfig, ClientRetainedData}
use kvik.Client.Sync.{Built, exception, running, built, StartWorld, construct_client}

-- The arguments of a constructor, and what happens during it.
pub record Construction : Type 0 where
  pub world : StartWorld
  pub conf : ClientConfig
  pub has_layer : Bool
  pub retained : ClientRetainedData

-- Whether the constructor does not throw: `none` is the exception of a future.
abbrev pub lives : Option Built → Bool
lives none = false
lives (some exception) = false
lives (some running) = true
lives (some (built c)) = true

-- The layer, the clients that exist, and the number of the next one.
pub record Clients : Type 0 where
  pub layer : LocalLayer ℕ
  pub existing : List ℕ
  pub next_client : ℕ

-- `receives` is a message that the layer gives to its callback.
pub data Event : Type 0 where
  constructs : Construction → Event
  destroys : ℕ → Event
  receives : Event

unfoldable pub exists : ℕ → List ℕ → Bool
exists i [] = false
exists i (j ∷ js) = j == i || exists i js

unfoldable pub delete : ℕ → List ℕ → List ℕ
delete i [] = []
delete i (j ∷ js) = let rest = delete i js in if j == i then rest else j ∷ rest

module _ (same_peer : LocalPeer → LocalPeer → Bool) where
  -- `none` where the callback calls a client that does not exist.
  unfoldable pub next : Event → Clients → Option Clients
  unfolding exists delete construct_client
  next (constructs k) s =
      let i = s.next_client in
      let (layer', result) =
        construct_client same_peer k.world k.conf k.has_layer k.retained i s.layer in
      some (record {
        layer = layer';
        existing = if lives result then i ∷ s.existing else s.existing;
        next_client = i + 1;
      })
  next (destroys i) s =
      some (record s { layer = set_local_recv_cb none s.layer; existing = delete i s.existing })
  next receives s = elim s.layer.recv_cb [
    | none ↦ some s
    | some i ↦ if exists i s.existing then some s else none
  ]

  unfoldable pub run : List Event → Clients → Option Clients
  unfolding next
  run [] s = some s
  run (e ∷ events) s = elim (next e s) [ none ↦ none | some t ↦ run events t ]

-- A layer that no client has used.
abbrev pub unused : Clients
unused = record { layer = record { recv_cb = none }; existing = []; next_client = 0 }
