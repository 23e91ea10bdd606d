-- ===== src/Tests/Clients.antt =====
-- src/client.cpp: a client with one stream, from its creation to the end of the stream.
mod Polls
use rgrpc.Prelude.{
  ◌+◌, ◌≤◌, pos, ◌≡◌, ◌⊎◌, refl, Bool, true, false, not, Option, none, some, List, [], ◌∷◌, ◌++◌,
  length, arith, map_values, ap, sym, some-injective, if◌then◌else◌, find, insert, erase, push_back,
  select,
}
use rgrpc.Convert.{Bytes, grpc_byte_buffer_to_string, append_slices}
use rgrpc.Wake.{wake_open, wake_signal, is_readable}
use rgrpc.Client.Types.{TagKind, EvKind, ClEvent, StreamState, Client, Filled, Completion}
use rgrpc.Client.Stream.{
  send_locked, writes_done_locked, status_event, s_post_read_locked, s_pump_writes_locked,
  s_try_finish_locked, on_start, on_read, on_message, on_tag, on_finish,
}
use rgrpc.Client.Completion.{outstanding, complete, dispatch}
use rgrpc.Client.Api.{start_stream_locked, new_context, new_stream, on_stream}
use rgrpc.Client.Poll.{matches, take_batch}
use rgrpc.Client.Lifecycle.{new_client, create_client, begin_shutdown, client_shutdown}
use rgrpc.Client.Frame.{smsgs_of}
use rgrpc.Client.Invariant.{held, IsValid}
use rgrpc.Client.Readiness.{IsArmed, complete-IsArmed, take_batch-IsArmed}
use rgrpc.Client.Poll.Batch.{take_batch_lem}
use rgrpc.Client.Stream.Order.{written, unsent}
use rgrpc.Client.Life.{Life, opened, sent_in_order}
use rgrpc.Client.System.{Reach, Reach-IsValid, created, later, starts_stream, completes, polls}
use rgrpc.Client.System.Safety.{completion_finds_object, one_op_per_direction, buffers_bounded}
use rgrpc.Client.System.Ending.{finish_frees, shutdown_drains, Drain}
use rgrpc.Client.System.Gone.{events_of}
use rgrpc.Client.System.Finality.{Steps, status_is_last}
use rgrpc.Client.System.Closing.{ClientPointer}
use rgrpc.Client.System.Progress.{no_stall}

abbrev fresh : Client
fresh = record new_client { wake = record { is_open = true; bytes = 0; capacity = 4 } }

abbrev nothing : Filled
nothing = record {
  buffer = some ((7 ∷ []) ∷ []);
  error_code = 0;
  error_message = [];
  initial_md = [];
  trailing_md = [];
}

abbrev comes_back : TagKind → Bool → Completion
comes_back kind ok = record { tag = record { obj = 1; kind = kind }; ok = ok; filled = nothing }

abbrev client_of : Option Client → Client
client_of none = fresh
client_of (some c) = c

-- A stream is opened with caps 1 and 2, starts, and reads one message.
opened_client : Client
unfolding start_stream_locked find insert erase wake_open wake_signal create_client
    grpc_byte_buffer_to_string append_slices
opened_client = (start_stream_locked new_context (pos 1) (pos 2) fresh).0

started_client : Client
unfolding opened_client complete dispatch on_tag on_start s_post_read_locked s_pump_writes_locked
    s_try_finish_locked
started_client = client_of (complete (comes_back TagKind.start true) opened_client)

reading_client : Client
unfolding started_client on_read on_message
reading_client = client_of (complete (comes_back TagKind.read true) started_client)

ended_client : Client
unfolding started_client on_read
ended_client = client_of (complete (comes_back TagKind.read false) started_client)

opened_reached : Reach opened_client
unfolding opened_client
opened_reached =
    later (created fresh 4 refl) (starts_stream new_context (pos 1) (pos 2) refl (omega arith))

started_reached : Reach started_client
unfolding started_client
started_reached =
    later opened_reached
      (completes (comes_back TagKind.start true) started_client (omega arith) refl)

reading_reached : Reach reading_client
unfolding reading_client
reading_reached =
    later started_reached
      (completes (comes_back TagKind.read true) reading_client (omega arith) refl)

ended_reached : Reach ended_client
unfolding ended_client
ended_reached =
    later started_reached
      (completes (comes_back TagKind.read false) ended_client (omega arith) refl)

-- The stream as the three clients hold it.
abbrev stream_of : Client → StreamState
stream_of c = elim (find 1 c.streams) [
  | none ↦ record (new_stream 1 new_context (pos 1) (pos 2)) { broken = true }
  | some s ↦ s
]

-- At the cap the read is not reposted, and the message waits in `ready`.
reading_client_state :
    (reading_client.cq ≡ [])
    × (smsgs_of 1 reading_client.ready ≡ 1)
    × (reading_client.wake.bytes ≡ 1)
unfolding reading_client
reading_client_state = (refl, refl, refl)

-- Once the reads have ended, Finish is outstanding.
ended_client_state : outstanding 1 TagKind.finish ended_client.cq ≡ 1
unfolding ended_client
ended_client_state = refl

Reach-IsValid_example : IsValid ended_client
Reach-IsValid_example = Reach-IsValid ended_reached

completion_finds_object_example :
    (d : Client) × (complete (comes_back TagKind.finish true) ended_client ≡ some d) × IsValid d
unfolding ended_client
completion_finds_object_example =
    completion_finds_object ended_reached (comes_back TagKind.finish true) (omega arith)

one_op_per_direction_example :
    ((k : TagKind) → held started_client.cq 1 k ≤ 1)
    × ((stream_of started_client).pending
        ≡ pos (
            outstanding 1 TagKind.start started_client.cq
            + outstanding 1 TagKind.read started_client.cq
            + outstanding 1 TagKind.write started_client.cq
            + outstanding 1 TagKind.wdone started_client.cq
            + outstanding 1 TagKind.finish started_client.cq))
    × ((outstanding 1 TagKind.finish started_client.cq ≡ 0)
        ⊎ ((outstanding 1 TagKind.start started_client.cq ≡ 0)
            × (outstanding 1 TagKind.read started_client.cq ≡ 0)
            × (outstanding 1 TagKind.write started_client.cq ≡ 0)
            × (outstanding 1 TagKind.wdone started_client.cq ≡ 0)))
    × ((outstanding 1 TagKind.wdone started_client.cq ≡ 0)
        ⊎ ((outstanding 1 TagKind.write started_client.cq ≡ 0)
            × ((stream_of started_client).write_queue ≡ [])))
unfolding started_client
one_op_per_direction_example =
    one_op_per_direction started_reached 1 (stream_of started_client) refl

buffers_bounded_example :
    (smsgs_of 1 reading_client.ready + outstanding 1 TagKind.read reading_client.cq ≤ 1)
    × (length (stream_of reading_client).write_queue ≤ 2)
unfolding reading_client
buffers_bounded_example = buffers_bounded reading_reached 1 (stream_of reading_client) refl

no_stall_example :
    (1 ≤ smsgs_of 1 reading_client.ready)
    × ((stream_of reading_client).broken ≡ false)
    × ((stream_of reading_client).reads_closed ≡ false)
    × ((stream_of reading_client).write_queue ≡ [])
unfolding reading_client
no_stall_example =
    no_stall reading_reached 1 (stream_of reading_client) refl refl
      (elim [ TagKind.unary ↦ refl | _ ↦ refl ])

finish_frees_example :
    (d : Client) × (complete (comes_back TagKind.finish true) ended_client ≡ some d)
    × (d.ready ≡ push_back ended_client.ready (status_event EvKind.status 1 nothing))
    × (find 1 d.streams ≡ none)
    × ((k : TagKind) → held d.cq 1 k ≡ 0)
unfolding ended_client
finish_frees_example =
    finish_frees ended_reached 1 (stream_of ended_client) true nothing refl (omega arith)

-- The stream has finished, and R takes an event.
finished_client : Client
unfolding ended_client on_finish
finished_client = client_of (complete (comes_back TagKind.finish true) ended_client)

polled_client : Client
unfolding finished_client
polled_client = (take_batch (λ _. true) (pos 1) finished_client).1

status_is_last_example :
    (finished_client.ready ≡ push_back ended_client.ready (status_event EvKind.status 1 nothing))
    × (events_of 1 polled_client.ready ≤ events_of 1 finished_client.ready)
    × ((k : TagKind) → held polled_client.cq 1 k ≡ 0)
    × ((bytes : Bytes)
        → on_stream 1 (send_locked polled_client.shutting bytes) polled_client
          ≡ (polled_client, false))
    × (on_stream 1 (writes_done_locked polled_client.shutting) polled_client
        ≡ (polled_client, false))
unfolding polled_client
status_is_last_example =
    status_is_last ended_reached 1 (stream_of ended_client) true nothing refl (omega arith) refl
      (Steps.next Steps.start (polls (λ _. true) (pos 1) refl))

-- The queue of a client that is shut down while its read is outstanding.
read_drains : Drain (comes_back TagKind.read false ∷ []) (begin_shutdown started_client)
unfolding started_client begin_shutdown on_read map_values
read_drains =
    Drain.turn (comes_back TagKind.read false) (omega arith)
      (λ d e. Drain.dry (ap (λ (c : Client). c.cq) (some-injective _ _ (sym e))))

shutdown_drains_example :
    (1 ≡ length started_client.cq)
    × ((d : Client) × (client_shutdown (comes_back TagKind.read false ∷ []) started_client ≡ some d)
        × (d.cq ≡ [])
        × (d.calls ≡ [])
        × (d.streams ≡ [])
        × (d.ready ≡ []))
unfolding started_client
shutdown_drains_example = shutdown_drains started_reached refl read_drains

-- Its client is at the address 5.
abbrev started_pointer : ClientPointer
started_pointer = record { xp = some 5; clients = (5, started_client) ∷ [] }

abbrev want_1 : ClEvent → Bool
want_1 = matches (some 1)

started_client-IsArmed : IsArmed started_client
unfolding started_client is_readable
started_client-IsArmed = record { room = omega arith; exact = refl }

complete-IsArmed_example : IsArmed reading_client
unfolding reading_client
complete-IsArmed_example =
    complete-IsArmed (comes_back TagKind.read true) started_client reading_client
      started_client-IsArmed refl

take_batch-IsArmed_example : IsArmed (take_batch want_1 (pos 5) reading_client).1
unfolding reading_client
take_batch-IsArmed_example = take_batch-IsArmed want_1 (pos 5) reading_client (omega arith)

-- A message is accepted, goes out, and comes back.
abbrev one_sent : StreamState
one_sent = (on_tag false TagKind.start true nothing (opened 1 new_context (pos 1) (pos 2))).stream

one_sent-Life :
    Life
      (if (send_locked false (9 ∷ []) one_sent).1 then (9 ∷ []) ∷ [] else [])
      (send_locked false (9 ∷ []) one_sent).0.stream
one_sent-Life = Life.sends false (9 ∷ []) (
    Life.completes false TagKind.start true nothing (Life.opens 1 new_context (pos 1) (pos 2))
      (omega arith))

sent_in_order_example :
    let s = (send_locked false (9 ∷ []) one_sent).0.stream in
    (rest : List Bytes) × ((if (send_locked false (9 ∷ []) one_sent).1 then (9 ∷ []) ∷ [] else [])
      ≡ written s.rw ++ rest)
    × ((s.broken ≡ true) ⊎ (rest ≡ unsent s))
sent_in_order_example = sent_in_order one_sent-Life
