-- ===== src/Tests/EndRuns.antt =====
-- The ends of clients: the destruction of the members, and what is left in the layer
-- (include/kvik/client.hpp, include/kvik/layers.hpp, src/common/client.cpp).
use kvik.Base.{◌≡◌, refl, ◌≢◌, ◌↔◌, true, false, List, [], ◌∷◌, some, none}
use kvik.Int
use kvik.MsgIdCache.{insert}
use kvik.Node
use kvik.Node.{validate_msg_id, get_msg_id}
use kvik.Trie.Ops
use kvik.Client.Send.{send_local_unchecked_broadcast}
use kvik.Client.Sync.{construct_client}
use kvik.Client.Teardown.{
  Tick, syncs, renews_nothing, Step, destroys, ticks, uses, broken, body_done,
}
use kvik.Client.Teardown
use kvik.Client.Teardown.Ticks.{teardown_iff}
use kvik.Client.Binding.{Construction, lives, Event, constructs, receives, unused}
use kvik.Client.Binding
use kvik.Client.Binding.Late.{FailsLate, fails_late_lem}
use kvik.Client.Binding.Dangling.{run-Bound}
use kvik.Tests.ClientRuns.{conf, same_addr}
use kvik.Tests.StartRuns.{world, nothing}

teardown_iff_example :
    ((steps : List Step) → Teardown.run (syncs false) steps body_done ≢ broken)
    ↔ (syncs false ≡ renews_nothing)
teardown_iff_example = teardown_iff (syncs false)

-- The gateway answers; then another client finds none.
abbrev found : Construction
found = record { world = world; conf = conf; has_layer = true; retained = nothing }

abbrev unanswered : Construction
unanswered = record found {
  world = record world {
    attempts = record { probes = []; report = world.sync.report; cancelled = false } ∷ [];
  };
  conf = record conf { gw_dscv = record (conf.gw_dscv) { initial_dscv_fail_thres = 1 } };
}

found_lives :
    lives (construct_client same_addr found.world found.conf true found.retained 0 unused.layer).1
    ≡ true
unfolding Node.construct Ops.construct construct_client send_local_unchecked_broadcast
    validate_msg_id insert get_msg_id Int.eqb_ℤ
found_lives = refl

found_Clean : ¬ FailsLate same_addr found
found_Clean h =
    let dies = (fails_late_lem same_addr found 0 unused.layer h).1 in
    absurd (cc (dies, found_lives))

unanswered_dangles : Binding.run same_addr (constructs unanswered ∷ receives ∷ []) unused ≡ none
unfolding Binding.run Node.construct Ops.construct construct_client
unanswered_dangles = refl

abbrev events : List Event
events = constructs found ∷ receives ∷ Event.destroys 0 ∷ receives ∷ []

run-Bound_example :
    (s : Binding.Clients) × (Binding.run same_addr events unused ≡ some s)
    × ((k : Construction)
        → (Binding.run same_addr (constructs k ∷ receives ∷ []) s ≡ none) ↔ FailsLate same_addr k)
run-Bound_example = run-Bound same_addr events (found_Clean, (tt, (tt, (tt, tt))))
