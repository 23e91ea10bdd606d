-- ===== src/Client/Lifecycle.antt =====
-- src/client.cpp: creation and shutdown.
use rgrpc.Prelude.{ℕ, Bool, true, false, List, [], if◌then◌else◌, Option, none, some, map_values}
use rgrpc.Wake.{no_handle, wake_open, wake_close}
use rgrpc.Client.Types.{Client, Completion}
use rgrpc.Client.Completion.{complete_all}
use rgrpc.Client.Api.{cancel_call, cancel_stream}

-- `new client()`
abbrev pub new_client : Client
new_client = record {
  cq = [];
  wake = no_handle;
  calls = [];
  streams = [];
  ready = [];
  next_id = 1;
  closed = false;
  shutting = false;
}

-- The client that `grpc_r_client_create` returns; `none` is "wake handle creation failed". The
-- channel and its options are gRPC's.
unfoldable pub create_client : Bool → ℕ → Option Client
create_client pipe_ok capacity =
    let (opened, wake) = wake_open pipe_ok capacity new_client.wake in
    if opened then some (record new_client { wake = wake }) else none

-- The first critical section of `client_shutdown`.
unfoldable pub begin_shutdown : Client → Client
begin_shutdown c = record c {
  closed = true;
  shutting = true;
  calls = map_values cancel_call c.calls;
  streams = map_values cancel_stream c.streams;
}

-- What follows the join.
unfoldable pub end_shutdown : Client → Client
end_shutdown c = record c { calls = []; streams = []; ready = []; wake = wake_close c.wake }

-- `rest` is what the completion thread still takes off the queue before `Next` returns false.
unfoldable pub client_shutdown : List Completion → Client → Option Client
unfolding begin_shutdown end_shutdown
client_shutdown rest c = if c.closed then some c else (elim (complete_all rest (begin_shutdown c)) [
  | none ↦ none
  | some c1 ↦ some (end_shutdown c1)
])
