-- ===== src/Layers.antt =====
-- include/kvik/layers.hpp: the callbacks that a layer holds for its node. What a local layer answers
-- to `send` and `setChannel` is an input of the model of the client.
use kvik.Base.{Option, none}
use kvik.Message.{ErrCode, SubData}

-- `ILocalLayer`. A client binds its own `recvLocal`, and `Cb` says to which client it is bound.
pub record LocalLayer (Cb : Type 0) : Type 0 where
  pub recv_cb : Option Cb

unfoldable pub set_local_recv_cb : {Cb : Type 0} → Option Cb → LocalLayer Cb → LocalLayer Cb
set_local_recv_cb cb l = record l { recv_cb = cb }

-- `IRemoteLayer`. The callbacks are code elsewhere: a function to the code that it returns.
pub record RemoteLayer : Type 0 where
  pub recv_cb : Option (SubData → ErrCode)
  pub reconnect_cb : Option (Unit {0} → ErrCode)

abbrev pub new_remote_layer : RemoteLayer
new_remote_layer = record { recv_cb = none; reconnect_cb = none }

unfoldable pub set_recv_cb : Option (SubData → ErrCode) → RemoteLayer → RemoteLayer
set_recv_cb cb l = record l { recv_cb = cb }

unfoldable pub set_reconnect_cb : Option (Unit {0} → ErrCode) → RemoteLayer → RemoteLayer
set_reconnect_cb cb l = record l { reconnect_cb = cb }
