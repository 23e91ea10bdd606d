-- ===== src/Server/Lifecycle.antt =====
-- src/server.cpp: creation and shutdown.
use rgrpc.Prelude.{
  ℤ, pos, ℕ, Bool, true, false, List, [], ◌∷◌, if◌then◌else◌, Option, none, some, Map, erase,
}
use rgrpc.Wake.{no_handle, wake_open, wake_close}
use rgrpc.Server.Types.{SvCall, Server, SvCompletion}
use rgrpc.Server.Round.{post_accepts_locked, sv_complete_all}

-- `new rserver()`, with the window and the limit that R gives.
abbrev pub new_server : ℤ → ℤ → Server
new_server accept_window max_active = record {
  cq = [];
  wake = no_handle;
  accept_window = accept_window;
  max_active = max_active;
  heap = [];
  next_address = 1;
  active = [];
  ready = [];
  accepts_outstanding = pos 0;
  next_id = 1;
  closed = false;
  shutting = false;
}

-- The server that `grpc_r_server2_create` returns. `pipe_ok` and `capacity` are the answer of `pipe`,
-- and `started` says whether `BuildAndStart` gave a server; `none` is an error. Credentials and channel
-- arguments are gRPC's.
unfoldable pub create_server : Bool → ℕ → Bool → ℤ → ℤ → Option Server
unfolding post_accepts_locked
create_server pipe_ok capacity started accept_window max_active =
    let s = new_server accept_window max_active in
    let (opened, wake) = wake_open pipe_ok capacity s.wake in
    if opened
    then if started then some (post_accepts_locked (record s { wake = wake })) else none
    else none

-- The first part of `rserver_shutdown`.
unfoldable pub begin_sv_shutdown : Server → Server
begin_sv_shutdown s = record s { closed = true; shutting = true }

-- `for (auto &kv : s->active) delete kv.second;`
unfoldable pub delete_active : Map ℕ → Map SvCall → Map SvCall
delete_active [] heap = heap
delete_active ((id, address) ∷ active) heap = delete_active active (erase address heap)

-- What follows the join: the calls in `active` are deleted.
unfoldable pub end_sv_shutdown : Server → Server
unfolding delete_active
end_sv_shutdown s = record s {
  active = [];
  heap = delete_active s.active s.heap;
  wake = wake_close s.wake;
}

-- `rest` is what the completion thread still takes off the queue before `Next` returns false.
unfoldable pub rserver_shutdown : List SvCompletion → Server → Option Server
unfolding begin_sv_shutdown end_sv_shutdown
rserver_shutdown rest s =
    if s.closed then some s else (elim (sv_complete_all rest (begin_sv_shutdown s)) [
      | none ↦ none
      | some s1 ↦ some (end_sv_shutdown s1)
    ])
