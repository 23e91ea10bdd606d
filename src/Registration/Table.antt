-- ===== src/Registration/Table.antt =====
-- src/routines.h: the routines, their names and their arities.
use Prim.Native.String.{String}
use rgrpc.Prelude.{ℕ, List, [], ◌∷◌}

-- Each routine, by its name without `grpc_r_`.
pub data Routine : Type 0 where
  available library_shutdown : Routine
  version channel_create channel_destroy cq_create cq_destroy : Routine
  server_create server_port server_destroy client_create client_state : Routine
  client_close client_fd client_pending client_poll call_start : Routine
  call_cancel server2_create server2_close server2_fd server2_port : Routine
  server2_pending server2_reply server2_poll stream_start stream_send : Routine
  stream_writes_done server2_read server2_cancel server2_send server2_finish : Routine

-- `RGRPC_GRPC_ROUTINES`
abbrev pub grpc_routines : List Routine
grpc_routines =
    Routine.version ∷ Routine.channel_create ∷ Routine.channel_destroy ∷ Routine.cq_create
    ∷ Routine.cq_destroy ∷ Routine.server_create ∷ Routine.server_port ∷ Routine.server_destroy
    ∷ Routine.client_create ∷ Routine.client_state ∷ Routine.client_close ∷ Routine.client_fd
    ∷ Routine.client_pending ∷ Routine.client_poll ∷ Routine.call_start ∷ Routine.call_cancel
    ∷ Routine.server2_create ∷ Routine.server2_close ∷ Routine.server2_fd ∷ Routine.server2_port
    ∷ Routine.server2_pending ∷ Routine.server2_reply ∷ Routine.server2_poll ∷ Routine.stream_start
    ∷ Routine.stream_send ∷ Routine.stream_writes_done ∷ Routine.server2_read
    ∷ Routine.server2_cancel ∷ Routine.server2_send ∷ Routine.server2_finish ∷ []

-- `RGRPC_ROUTINES`
abbrev pub routines : List Routine
routines = Routine.available ∷ Routine.library_shutdown ∷ grpc_routines

-- `#name`
abbrev pub routine_name : Routine → String
routine_name Routine.available = "grpc_r_available"
routine_name Routine.library_shutdown = "grpc_r_library_shutdown"
routine_name Routine.version = "grpc_r_version"
routine_name Routine.channel_create = "grpc_r_channel_create"
routine_name Routine.channel_destroy = "grpc_r_channel_destroy"
routine_name Routine.cq_create = "grpc_r_cq_create"
routine_name Routine.cq_destroy = "grpc_r_cq_destroy"
routine_name Routine.server_create = "grpc_r_server_create"
routine_name Routine.server_port = "grpc_r_server_port"
routine_name Routine.server_destroy = "grpc_r_server_destroy"
routine_name Routine.client_create = "grpc_r_client_create"
routine_name Routine.client_state = "grpc_r_client_state"
routine_name Routine.client_close = "grpc_r_client_close"
routine_name Routine.client_fd = "grpc_r_client_fd"
routine_name Routine.client_pending = "grpc_r_client_pending"
routine_name Routine.client_poll = "grpc_r_client_poll"
routine_name Routine.call_start = "grpc_r_call_start"
routine_name Routine.call_cancel = "grpc_r_call_cancel"
routine_name Routine.server2_create = "grpc_r_server2_create"
routine_name Routine.server2_close = "grpc_r_server2_close"
routine_name Routine.server2_fd = "grpc_r_server2_fd"
routine_name Routine.server2_port = "grpc_r_server2_port"
routine_name Routine.server2_pending = "grpc_r_server2_pending"
routine_name Routine.server2_reply = "grpc_r_server2_reply"
routine_name Routine.server2_poll = "grpc_r_server2_poll"
routine_name Routine.stream_start = "grpc_r_stream_start"
routine_name Routine.stream_send = "grpc_r_stream_send"
routine_name Routine.stream_writes_done = "grpc_r_stream_writes_done"
routine_name Routine.server2_read = "grpc_r_server2_read"
routine_name Routine.server2_cancel = "grpc_r_server2_cancel"
routine_name Routine.server2_send = "grpc_r_server2_send"
routine_name Routine.server2_finish = "grpc_r_server2_finish"

-- `n`
abbrev pub arity : Routine → ℕ
arity Routine.available = 0
arity Routine.library_shutdown = 0
arity Routine.version = 0
arity Routine.channel_create = 1
arity Routine.channel_destroy = 1
arity Routine.cq_create = 0
arity Routine.cq_destroy = 1
arity Routine.server_create = 1
arity Routine.server_port = 1
arity Routine.server_destroy = 1
arity Routine.client_create = 8
arity Routine.client_state = 1
arity Routine.client_close = 1
arity Routine.client_fd = 1
arity Routine.client_pending = 1
arity Routine.client_poll = 4
arity Routine.call_start = 6
arity Routine.call_cancel = 2
arity Routine.server2_create = 11
arity Routine.server2_close = 1
arity Routine.server2_fd = 1
arity Routine.server2_port = 1
arity Routine.server2_pending = 1
arity Routine.server2_reply = 6
arity Routine.server2_poll = 4
arity Routine.stream_start = 7
arity Routine.stream_send = 3
arity Routine.stream_writes_done = 2
arity Routine.server2_read = 2
arity Routine.server2_cancel = 2
arity Routine.server2_send = 3
arity Routine.server2_finish = 6
