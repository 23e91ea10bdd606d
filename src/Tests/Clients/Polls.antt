-- ===== src/Tests/Clients/Polls.antt =====
-- src/client.cpp: polls of the client with one stream, and their events as R lists.
use rgrpc.Prelude.{pos, ◌≡◌, ◌⊎◌, refl, true, false, none, some, List, [], ◌∷◌, arith}
use rgrpc.Convert.{Bytes}
use rgrpc.Client.Types.{TagKind, EvKind, ClEvent}
use rgrpc.Client.Stream.{status_event}
use rgrpc.Client.Poll.{Round}
use rgrpc.Client.Poll.Call.{grpc_r_client_poll}
use rgrpc.Client.System.Polls.{PollEnds, client_poll_answers}
use rgrpc.Marshal.Values.{RList}
use rgrpc.Marshal.ClientEvents.{batch_to_r}
use rgrpc.Marshal.ClientBatch.{all_convertible, read_batch, batch_roundtrip}
use rgrpc.Tests.Clients.{started_client, started_reached, comes_back, nothing}

-- A poll that waits, while the stream's message arrives.
abbrev one_round : List Round
one_round =
    record { remaining = pos 50; meanwhile = comes_back TagKind.read true ∷ []; polled = pos 1 }
    ∷ []

client_poll_answers_example :
    PollEnds
      (pos 5)
      (pos 100)
      (some 1)
      one_round
      started_client
      (grpc_r_client_poll (pos 5) (pos 100) (some 1) one_round started_client)
unfolding started_client
client_poll_answers_example =
    client_poll_answers started_reached (pos 5) (pos 100) (some 1) one_round refl (omega arith)
      ((omega arith, λ d e. tt), λ d e. tt)

-- The status of a call, once with metadata of text, once with a nul in it.
abbrev final_event : Bytes → ClEvent
final_event value = record (status_event EvKind.status 1 nothing) {
  message = 111 ∷ 107 ∷ [];
  trailing_md = (107 ∷ [], value) ∷ [];
}

nul_fails : batch_to_r (final_event (0 ∷ []) ∷ []) ≡ none
unfolding batch_to_r
nul_fails = refl

batch_roundtrip_example :
    let evs = final_event (118 ∷ []) ∷ [] in
    ((all_convertible evs ≡ true)
      × (ls : List RList) × (batch_to_r evs ≡ some ls)
      × (read_batch ls ≡ some evs))
    ⊎ ((all_convertible evs ≡ false) × (batch_to_r evs ≡ none))
batch_roundtrip_example =
    batch_roundtrip (final_event (118 ∷ []) ∷ [])
      (record { id = omega arith; message = refl; bytes = λ h. refl; left_out = λ h. cc }, tt)
