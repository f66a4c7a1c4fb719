-- ===== src/Tests/SenderRuns.antt =====
-- Two threads that send at once through the client of src/common/client.cpp, and a broadcast.
use kvik.Base.{ℕ, ◌≡◌, refl, List, [], ◌∷◌, All, str_dec, map}
use kvik.Message.{ErrCode}
use kvik.MsgIdCache.{insert}
use kvik.Node.{get_msg_id, validate_msg_id}
use kvik.Peer.{no_peer}
use kvik.Client.State.{erase_pending}
use kvik.Client.Senders.{
  System, Step, Result, broken, moved, next, run, alone, sends, broadcasts, receives, wakes,
  collects, chooses,
}
use kvik.Client.Senders.Served.{Apart, OwnAnswer}
use kvik.Client.Senders.Safety.{run_safe}
use kvik.Tests.ClientRuns.{client, answer, publication}

-- The answers come in the other order, and the gateway changes in between.
abbrev steps : List Step
steps =
    sends 0 ErrCode.success publication
    ∷ broadcasts 0 ErrCode.success publication
    ∷ sends 0 ErrCode.success publication
    ∷ receives
        (record { now = 0; ack = ErrCode.success; msg = record answer { id = 78; req_id = 1 } })
    ∷ receives (record { now = 0; ack = ErrCode.success; msg = answer })
    ∷ wakes 65535
    ∷ chooses no_peer
    ∷ collects 0
    ∷ wakes 1
    ∷ []

abbrev system_of : Result → System
system_of (moved y) = y
system_of _ = alone client

runs : run steps (alone client) ≡ moved (system_of (run steps (alone client)))
unfolding run validate_msg_id insert get_msg_id str_dec erase_pending
runs = refl

all_answered :
    map (λ r. r.code) (system_of (run steps (alone client))).returned
    ≡ ErrCode.success ∷ ErrCode.success ∷ []
unfolding run validate_msg_id insert get_msg_id str_dec erase_pending
all_answered = refl

run_safe_example :
    All OwnAnswer (system_of (run steps (alone client))).returned
    × Apart (system_of (run steps (alone client))).senders
    × ((id : ℕ) → ¬ (next (wakes id) (system_of (run steps (alone client))) ≡ broken))
    × ((id : ℕ) → ¬ (next (collects id) (system_of (run steps (alone client))) ≡ broken))
run_safe_example = run_safe steps client runs
