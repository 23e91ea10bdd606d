-- ===== src/Tests/Servers/Polls.antt =====
-- src/server.cpp: polls of the server with one call, and their events as R lists.
use rgrpc.Prelude.{pos, ◌≡◌, ◌⊎◌, refl, true, false, none, some, List, [], ◌∷◌, arith}
use rgrpc.Server.Types.{Svop, SvEvent}
use rgrpc.Server.Call.{request_event}
use rgrpc.Server.Poll.{SvRound}
use rgrpc.Server.Poll.Call.{grpc_r_server2_poll}
use rgrpc.Server.System.Polls.{SvPollEnds, server_poll_answers}
use rgrpc.Marshal.Values.{RList}
use rgrpc.Marshal.ServerEvents.{sv_batch_to_r}
use rgrpc.Marshal.ServerBatch.{all_sv_convertible, read_sv_batch, sv_batch_roundtrip}
use rgrpc.Tests.Servers.{accepting_server, accepting_reached, comes, filled}

-- A poll that waits, while the first message of the call arrives.
abbrev one_sv_round : List SvRound
one_sv_round =
    record { remaining = pos 50; meanwhile = comes Svop.read true ∷ []; polled = pos 1 } ∷ []

server_poll_answers_example :
    SvPollEnds
      (pos 5)
      (pos 100)
      none
      one_sv_round
      accepting_server
      (grpc_r_server2_poll (pos 5) (pos 100) none one_sv_round accepting_server)
unfolding accepting_server
server_poll_answers_example =
    server_poll_answers accepting_reached (pos 5) (pos 100) none one_sv_round refl (omega arith)
      ((omega arith, omega arith, λ d e. tt), λ d e. tt)

abbrev first_event : SvEvent
first_event = record (request_event 1 filled) { method = 47 ∷ 69 ∷ []; request = 7 ∷ [] }

sv_batch_roundtrip_example :
    let evs = first_event ∷ [] in
    ((all_sv_convertible evs ≡ true)
      × (ls : List RList) × (sv_batch_to_r evs ≡ some ls)
      × (read_sv_batch ls ≡ some evs))
    ⊎ ((all_sv_convertible evs ≡ false) × (sv_batch_to_r evs ≡ none))
sv_batch_roundtrip_example = sv_batch_roundtrip (first_event ∷ []) (
  record {
    id = omega arith;
    method = refl;
    peer = refl;
    identity = refl;
    deadline = tt;
    left_out = λ h. cc;
    no_message = λ h. cc;
  },
  tt,
)
