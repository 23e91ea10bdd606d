-- ===== src/Tests/Shims.antt =====
-- src/shim.cpp, src/wake.h, src/routines.h and the options of clients and servers, at concrete inputs.
use rgrpc.Prelude.{
  ℕ, ◌+◌, pos, ◌≡◌, ◌≢◌, ◌⊎◌, refl, true, false, bit, Option, none, some, [], ◌∷◌, arith, ltb, find,
  insert, erase, if◌then◌else◌, is_empty,
}
use rgrpc.Shim.Handles.{
  World, Object, Kind, Pointer, object_kind, finalizer, teardown, grpc_r_cq_create,
  grpc_r_server_create, grpc_r_server_port, PortAnswer,
}
use rgrpc.Shim.Contract.{Phase, phase_after}
use rgrpc.Shim.Ownership.{Owns, phase_at}
use rgrpc.Shim.Lifetimes.{
  ShimReach, empty_world, loaded, later, creates_queue, creates_server, destroys, handles_own,
  destroy_once,
}
use rgrpc.Shim.Library.{
  Library, LibraryReach, unloaded, later as library_later, loads, opens, grpc_r_library_init,
  grpc_r_library_shutdown, library_counts,
}
use Prim.Native.String.{String}
use rgrpc.Wake.Windows.{Winsock, Answers, invalid_handle, win_open, win_close}
use rgrpc.Wake.Balance.{win_open_balances}
use rgrpc.Channel.Arguments.{ArgKey, chr_or_empty, client_args, server_args}
use rgrpc.Channel.Agreement.{value_of, name_of, arguments_agree}

-- A server that runs, and then a queue, which is destroyed with two tags left.
server_world : World
unfolding grpc_r_server_create insert
server_world = (grpc_r_server_create true (pos 50051) empty_world).1

both_world : World
unfolding server_world grpc_r_cq_create
both_world = (grpc_r_cq_create server_world).1

abbrev world_of : Option World → World
world_of none = empty_world
world_of (some w) = w

queue_gone : World
unfolding both_world finalizer find erase teardown
queue_gone = world_of (finalizer Kind.queue 1 2 both_world)

both_reached : ShimReach both_world
unfolding both_world server_world
both_reached = later (later loaded (creates_server true (pos 50051))) creates_queue

gone_reached : ShimReach queue_gone
unfolding queue_gone
gone_reached =
    later both_reached
      (destroys 1 2 (record { kind = Kind.queue; address = some 1 }) queue_gone refl refl)

handles_own_example :
    ((xp : ℕ) (p : Pointer) → find xp queue_gone.pointers ≡ some p → Owns queue_gone xp p)
    × ((a : ℕ) (o : Object)
        → find a queue_gone.heap ≡ some o
        → find a queue_gone.pointers ≡ some (record { kind = object_kind o; address = some a }))
    × ((a : ℕ)
        → phase_after a Phase.unborn queue_gone.made
          ≡ some (phase_at (find a queue_gone.heap) (ltb a queue_gone.fresh)))
handles_own_example = handles_own gone_reached

destroy_once_example :
    (d : World) × (finalizer Kind.server 0 3 both_world ≡ some d)
    × (find 0 d.heap ≡ none)
    × (finalizer Kind.server 0 1 d ≡ some d)
    × (grpc_r_server_port 0 d ≡ PortAnswer.already_destroyed)
unfolding both_world server_world find
destroy_once_example =
    destroy_once both_reached 0 3 1 (record { kind = Kind.server; address = some 0 }) refl

-- The library with one object.
abbrev up_library : Library
up_library = record { users = 2; objects = 1; library_up = true }

up_reached : LibraryReach up_library
unfolding grpc_r_library_init
up_reached = library_later (library_later unloaded (loads refl)) opens

library_counts_example :
    (up_library.users ≡ up_library.objects + bit up_library.library_up)
    × (d : Library) × (grpc_r_library_shutdown up_library ≡ some d)
    × (d.users ≡ 1)
    × (grpc_r_library_shutdown d ≡ some d)
library_counts_example = library_counts up_reached

-- Winsock with one other socket, and a connection that fails, so that `accept` is not called.
abbrev some_winsock : Winsock
some_winsock = record { startups = 1; sockets = 3 ∷ []; fresh = 4 }

abbrev no_connection : Answers
no_connection = record {
  started = true;
  listener = true;
  bound = true;
  listening = true;
  named = true;
  w = true;
  connected = false;
  r = true;
  capacity = 8;
}

win_open_balances_example :
    let (ok, h, t) = win_open no_connection invalid_handle some_winsock in
    let (closed, u) = win_close h t in
    ((ok ≡ false) × (h ≡ invalid_handle) × (t.sockets ≡ 3 ∷ []) × (t.startups ≡ 1))
    ⊎ ((ok ≡ true)
        × ((r : ℕ) × (w : ℕ) × (h.r ≡ some r)
            × (h.w ≡ some w)
            × (r ≢ w)
            × (t.sockets ≡ r ∷ w ∷ 3 ∷ []))
        × (t.startups ≡ 2)
        × (u.sockets ≡ 3 ∷ [])
        × (u.startups ≡ 1)
        × (win_close closed u ≡ (closed, u)))
win_open_balances_example = win_open_balances no_connection some_winsock (omega arith, tt)

arguments_agree_example :
    let k = ArgKey.http2_max_pings_without_data in
    (value_of k (client_args (some []) (some (pos 10)) none) ≡ some (pos 0))
    × (value_of k (server_args (some (pos 10)) none (some (pos 5))) ≡ some (pos 0))
    × (name_of (client_args (some []) (some (pos 10)) none)
        ≡ (if is_empty (chr_or_empty (some [])) then none else some (chr_or_empty (some []))))
    × (name_of (server_args (some (pos 10)) none (some (pos 5))) ≡ none)
arguments_agree_example =
    arguments_agree (some []) (some (pos 10)) none (some (pos 5))
      ArgKey.http2_max_pings_without_data
