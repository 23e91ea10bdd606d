-- ===== src/Tests/Servers.antt =====
-- src/server.cpp: a server with one call, from its creation to its shutdown.
mod Polls
mod Gone
use rgrpc.Convert.{Bytes, grpc_byte_buffer_to_string, append_slices}
use rgrpc.Prelude.{
  ℕ, ◌+◌, ◌≤◌, ◌<◌, pos, ◌≡◌, ◌≢◌, ◌⊎◌, refl, sym, ap, Bool, true, false, not, Option, none, some,
  List, [], ◌∷◌, ◌++◌, length, arith, some-injective, if◌then◌else◌, find, insert, erase, size,
  push_back, select, is_empty,
}
use rgrpc.Wake.{wake_open, wake_signal, is_readable}
use rgrpc.Server.Types.{Svop, SvStreamOp, SvCall, Server, SvFilled, SvCompletion}
use rgrpc.Server.Call.{
  pump_locked, on_accepted, on_request, on_sv_read, on_sv_written, on_sv_write, on_sv_tag,
  sv_send_locked, finish_locked, terminal_of,
}
use rgrpc.Server.Round.{
  new_slot, sv_outstanding, sv_complete, post_accepts_locked, accepts_loop, wants_slot,
}
use rgrpc.Server.Api.{on_call}
use rgrpc.Server.Poll.{sv_matches, sv_take_batch}
use rgrpc.Server.Lifecycle.{new_server, create_server, begin_sv_shutdown, rserver_shutdown}
use rgrpc.Server.Frame.{accepts}
use rgrpc.Server.Invariant.{IsServer}
use rgrpc.Server.Asking.{SvRequest, ask}
use rgrpc.Server.Batch.{sv_take_batch_lem}
use rgrpc.Server.Life.{sv_written, sv_unsent, terminals}
use rgrpc.Server.Life.Ending.{SvLife, sv_sent_in_order, terminal_is_last}
use rgrpc.Server.System.{SvReach, created, later, completes, asks, SvReach-IsServer}
use rgrpc.Server.System.Safety.{tags_find_calls, one_terminal}
use rgrpc.Server.System.Refill.{refills, IsFull, rounds_refill}
use rgrpc.Server.System.Entries.{SvEntry}
use rgrpc.Server.System.Closing.{ServerPointer}
use rgrpc.Server.System.Ending.{SvDrain, server_shutdown_drains}

abbrev filled : SvFilled
filled = record {
  request = some ((7 ∷ []) ∷ []);
  method = 1 ∷ [];
  client_metadata = [];
  ms = pos 1000;
  peer = [];
  identity = none;
}

abbrev comes : Svop → Bool → SvCompletion
comes kind ok = record { tag = record { call = 1; kind = kind }; ok = ok; filled = filled }

abbrev server_of : Option Server → Server
server_of none = new_server (pos 1) (pos 2)
server_of (some s) = s

abbrev asked : Option (Server × Bool) → Server
asked none = new_server (pos 1) (pos 2)
asked (some r) = r.0

-- A server with one slot, whose slot is filled by a call, which sends its request; R sends one message.
waiting_server : Server
unfolding create_server wake_open post_accepts_locked accepts_loop insert
waiting_server = server_of (create_server true 4 true (pos 1) (pos 2))

accepting_server : Server
unfolding waiting_server sv_complete find on_sv_tag on_accepted
accepting_server = server_of (sv_complete (comes Svop.accept true) waiting_server)

serving_server : Server
unfolding accepting_server on_sv_read on_request wake_signal erase grpc_byte_buffer_to_string
    append_slices
serving_server = server_of (sv_complete (comes Svop.read true) accepting_server)

sending_server : Server
unfolding serving_server on_call sv_send_locked pump_locked
sending_server = asked (on_call 1 (ask false (SvRequest.send (9 ∷ []))) serving_server)

waiting_reached : SvReach waiting_server
unfolding waiting_server
waiting_reached = created waiting_server 4 (pos 1) (pos 2) refl

accepting_reached : SvReach accepting_server
unfolding accepting_server
accepting_reached =
    later waiting_reached
      (completes (comes Svop.accept true) accepting_server (omega arith) (omega arith) refl)

serving_reached : SvReach serving_server
unfolding serving_server
serving_reached =
    later accepting_reached
      (completes (comes Svop.read true) serving_server (omega arith) (omega arith) refl)

sending_reached : SvReach sending_server
unfolding sending_server
sending_reached =
    later serving_reached (asks 1 (SvRequest.send (9 ∷ [])) sending_server true refl refl)

-- The call holds one of the two places and the new slot the other; its write is outstanding.
sending_server_state :
    (size sending_server.active ≡ 1)
    × (accepts sending_server.cq ≡ 1)
    × (sv_outstanding 1 Svop.write sending_server.cq ≡ 1)
    × (length sending_server.ready ≡ 1)
unfolding sending_server
sending_server_state = (refl, refl, refl, refl)

abbrev call_of : Server → SvCall
call_of s = elim (find 1 s.heap) [ none ↦ new_slot | some c ↦ c ]

SvReach-IsServer_example : IsServer sending_server
SvReach-IsServer_example = SvReach-IsServer sending_reached

tags_find_calls_example :
    ((e : SvCompletion)
      → 0 < sv_outstanding e.tag.call e.tag.kind sending_server.cq
      → (d : Server) × (sv_complete e sending_server ≡ some d) × IsServer d)
    × ((want : ℕ) (q : SvRequest)
        → (d : Server × Bool) × (on_call want (ask sending_server.shutting q) sending_server
            ≡ some d)
          × IsServer d.0)
unfolding sending_server
tags_find_calls_example = tags_find_calls sending_reached (omega arith)

one_terminal_example :
    (sv_outstanding 1 Svop.read sending_server.cq ≤ 1)
    × (sv_outstanding 1 Svop.write sending_server.cq ≤ 1)
    × (sv_outstanding 1 Svop.finish sending_server.cq ≤ 1)
    × ((call_of sending_server).pending
        ≡ pos (
            sv_outstanding 1 Svop.accept sending_server.cq
            + sv_outstanding 1 Svop.read sending_server.cq
            + sv_outstanding 1 Svop.write sending_server.cq
            + sv_outstanding 1 Svop.done sending_server.cq
            + sv_outstanding 1 Svop.finish sending_server.cq))
    × ((call_of sending_server).pending ≢ pos 0)
    × ((sv_outstanding 1 Svop.finish sending_server.cq ≡ 0)
        ⊎ ((sv_outstanding 1 Svop.write sending_server.cq ≡ 0)
            × (is_empty (call_of sending_server).write_queue ≡ true)))
    × (length (call_of sending_server).write_queue ≤ (call_of sending_server).write_cap)
unfolding sending_server
one_terminal_example = one_terminal sending_reached 1 (call_of sending_server) refl

rounds_refill_example :
    (refills Svop.accept true ≡ true → IsFull accepting_server)
    × (Svop.accept ≢ Svop.accept
        → refills Svop.accept true ≡ false
        → accepts accepting_server.cq ≡ accepts waiting_server.cq)
unfolding accepting_server
rounds_refill_example =
    rounds_refill waiting_reached (comes Svop.accept true) accepting_server (omega arith)
      (omega arith) refl

-- The slot of a server that is shut down at once comes back unfilled.
slot_drains : SvDrain (comes Svop.accept false ∷ []) (begin_sv_shutdown waiting_server)
unfolding waiting_server begin_sv_shutdown sv_complete find on_sv_tag erase
slot_drains =
    SvDrain.turn (comes Svop.accept false) (omega arith)
      (λ d e. SvDrain.dry (ap (λ (s : Server). s.cq) (some-injective _ _ (sym e))))

server_shutdown_drains_example :
    (1 ≤ length waiting_server.cq + accepts waiting_server.cq)
    × ((d : Server) × (rserver_shutdown (comes Svop.accept false ∷ []) waiting_server ≡ some d)
        × (d.cq ≡ [])
        × (d.active ≡ [])
        × ((a : ℕ) → find a d.heap ≡ none))
unfolding waiting_server
server_shutdown_drains_example =
    server_shutdown_drains waiting_reached refl (omega arith) slot_drains

-- Its server is at the address 5.
abbrev waiting_pointer : ServerPointer
waiting_pointer = record { xp = some 5; servers = (5, waiting_server) ∷ [] }

-- A call that is accepted, asks, is sent one message and ended behind it.
abbrev delivered_call : SvCall
delivered_call =
    (on_sv_tag false 1 Svop.read true filled
      (on_sv_tag false 1 Svop.accept true filled new_slot).call).call

abbrev sent_call : SvCall
sent_call = (sv_send_locked false (9 ∷ []) delivered_call).0.call

abbrev ended_call : SvCall
ended_call =
    (on_sv_tag false 1 Svop.write true filled
      (finish_locked false (pos 0) [] none true sent_call).0.call).call

sent_call-SvLife :
    SvLife
      (if (sv_send_locked false (9 ∷ []) delivered_call).1 then (9 ∷ []) ∷ [] else [])
      false
      none
      sent_call
unfolding on_sv_tag on_accepted on_sv_read on_request
sent_call-SvLife = SvLife.sends false (9 ∷ []) (
    SvLife.completes false true 1 Svop.read filled
      (SvLife.completes false true 1 Svop.accept filled SvLife.opens (omega arith) refl)
      (omega arith) refl)

ended_call-SvLife :
    SvLife
      ((9 ∷ []) ∷ [])
      false
      (some (SvStreamOp.finish (record { code = pos 0; message = [] })))
      ended_call
unfolding on_sv_tag on_accepted on_sv_read on_request sv_send_locked finish_locked pump_locked
ended_call-SvLife =
    SvLife.completes false true 1 Svop.write filled
      (SvLife.finishes false (pos 0) [] none true sent_call-SvLife) (omega arith) refl

sv_sent_in_order_example :
    ((rest : List Bytes) × ((9 ∷ []) ∷ [] ≡ sv_written ended_call.stream ++ rest))
    × (ended_call.dead ≡ false
        → false ≡ false
        → (9 ∷ []) ∷ [] ≡ sv_written ended_call.stream ++ sv_unsent ended_call)
sv_sent_in_order_example = sv_sent_in_order ended_call-SvLife

terminal_is_last_example :
    (ended_call.finish_posted ≡ false → terminals ended_call.stream ≡ 0)
    × (ended_call.finish_posted ≡ true
        → (pre : List SvStreamOp) × (op : SvStreamOp) × (ended_call.stream ≡ push_back pre op)
          × (some (SvStreamOp.finish (record { code = pos 0; message = [] })) ≡ some op)
          × (terminals pre ≡ 0)
          × (terminals ended_call.stream ≡ 1)
          × (false ≡ false → (9 ∷ []) ∷ [] ≡ sv_written pre))
terminal_is_last_example = terminal_is_last ended_call-SvLife

-- The terminal operation is out behind the message.
ended_call_state : (ended_call.finish_posted ≡ true) × (terminals ended_call.stream ≡ 1)
unfolding on_sv_tag on_accepted on_sv_read on_request sv_send_locked finish_locked pump_locked
    on_sv_write on_sv_written
ended_call_state = (refl, refl)

abbrev ok_reply : SvEntry
ok_reply = SvEntry.reply 1 (some (5 ∷ [])) (pos 0) none none
