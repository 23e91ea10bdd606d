-- ===== src/Tests/Servers/Gone.antt =====
-- src/server.cpp: a call that ends with its last tag, and what R gets from it afterwards.
use rgrpc.Prelude.{ℕ, ◌≤◌, pos, ◌≡◌, ◌≢◌, refl, true, false, some, none, arith, find}
use rgrpc.Wake.{wake_drain}
use rgrpc.Server.Types.{Svop, SvCall, Server}
use rgrpc.Server.Call.{on_sv_write, on_done}
use rgrpc.Server.Round.{sv_complete}
use rgrpc.Server.Api.{on_call}
use rgrpc.Server.Poll.{sv_take_batch}
use rgrpc.Server.Asking.{SvRequest, ask}
use rgrpc.Server.System.{SvReach, later, completes, polls}
use rgrpc.Server.Owning.{sv_events_of}
use rgrpc.Server.System.Finality.{SvSteps, over_is_final}
use rgrpc.Tests.Servers.{sending_server, sending_reached, comes, server_of}

-- The call is over, and its write comes back last.
done_server : Server
unfolding sending_server on_done
done_server = server_of (sv_complete (comes Svop.done true) sending_server)

over_server : Server
unfolding done_server on_sv_write
over_server = server_of (sv_complete (comes Svop.write false) done_server)

after_poll : Server
unfolding over_server sv_take_batch wake_drain
after_poll = (sv_take_batch (λ ev. true) (pos 1) over_server).1

over_reached : SvReach over_server
unfolding over_server
over_reached =
    later
      (later sending_reached
        (completes (comes Svop.done true) done_server (omega arith) (omega arith) refl))
      (completes (comes Svop.write false) over_server (omega arith) (omega arith) refl)

-- The request and the cancellation are queued when the call is deleted, and the poll takes the first.
queued_events : (sv_events_of 1 over_server.ready ≡ 2) × (sv_events_of 1 after_poll.ready ≡ 1)
unfolding after_poll
queued_events = (refl, refl)

over_is_final_example :
    (find 1 after_poll.active ≡ none)
    × ((a : ℕ) (c : SvCall) → find a after_poll.heap ≡ some c → c.id ≢ 1)
    × (sv_events_of 1 after_poll.ready ≤ sv_events_of 1 over_server.ready)
    × ((q : SvRequest)
        → on_call 1 (ask after_poll.shutting q) after_poll ≡ some (after_poll, false))
unfolding after_poll
over_is_final_example =
    over_is_final over_reached 1 (omega arith) (omega arith) refl
      (SvSteps.next SvSteps.start (polls (λ ev. true) (pos 1) refl))
