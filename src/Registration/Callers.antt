-- ===== src/Registration/Callers.antt =====
-- R/client.R, R/server.R, R/shim.R, R/tls.R and R/rgrpc-package.R: what the R code passes to `.Call`, and
-- what it gets.
use Prim.Native.String.{String}
use text.Mathlib.Text.{◌==◌ as str_eq}
use rgrpc.Prelude.{ℕ, false, ◌==◌, if◌then◌else◌}
use rgrpc.Registration.Table.{Routine}
use rgrpc.Registration.Calls.{StubAnswer}

-- The symbol by which the R code names a routine.
abbrev pub symbol : Routine → String
symbol Routine.available = "grpc_r_available"
symbol Routine.library_shutdown = "grpc_r_library_shutdown"
symbol Routine.version = "grpc_r_version"
symbol Routine.channel_create = "grpc_r_channel_create"
symbol Routine.channel_destroy = "grpc_r_channel_destroy"
symbol Routine.cq_create = "grpc_r_cq_create"
symbol Routine.cq_destroy = "grpc_r_cq_destroy"
symbol Routine.server_create = "grpc_r_server_create"
symbol Routine.server_port = "grpc_r_server_port"
symbol Routine.server_destroy = "grpc_r_server_destroy"
symbol Routine.client_create = "grpc_r_client_create"
symbol Routine.client_state = "grpc_r_client_state"
symbol Routine.client_close = "grpc_r_client_close"
symbol Routine.client_fd = "grpc_r_client_fd"
symbol Routine.client_pending = "grpc_r_client_pending"
symbol Routine.client_poll = "grpc_r_client_poll"
symbol Routine.call_start = "grpc_r_call_start"
symbol Routine.call_cancel = "grpc_r_call_cancel"
symbol Routine.server2_create = "grpc_r_server2_create"
symbol Routine.server2_close = "grpc_r_server2_close"
symbol Routine.server2_fd = "grpc_r_server2_fd"
symbol Routine.server2_port = "grpc_r_server2_port"
symbol Routine.server2_pending = "grpc_r_server2_pending"
symbol Routine.server2_reply = "grpc_r_server2_reply"
symbol Routine.server2_poll = "grpc_r_server2_poll"
symbol Routine.stream_start = "grpc_r_stream_start"
symbol Routine.stream_send = "grpc_r_stream_send"
symbol Routine.stream_writes_done = "grpc_r_stream_writes_done"
symbol Routine.server2_read = "grpc_r_server2_read"
symbol Routine.server2_cancel = "grpc_r_server2_cancel"
symbol Routine.server2_send = "grpc_r_server2_send"
symbol Routine.server2_finish = "grpc_r_server2_finish"

-- How many arguments the R code passes to it, at each place where it calls it.
abbrev pub passed : Routine → ℕ
passed Routine.available = 0
passed Routine.library_shutdown = 0
passed Routine.version = 0
passed Routine.channel_create = 1
passed Routine.channel_destroy = 1
passed Routine.cq_create = 0
passed Routine.cq_destroy = 1
passed Routine.server_create = 1
passed Routine.server_port = 1
passed Routine.server_destroy = 1
passed Routine.client_create = 8
passed Routine.client_state = 1
passed Routine.client_close = 1
passed Routine.client_fd = 1
passed Routine.client_pending = 1
passed Routine.client_poll = 4
passed Routine.call_start = 6
passed Routine.call_cancel = 2
passed Routine.server2_create = 11
passed Routine.server2_close = 1
passed Routine.server2_fd = 1
passed Routine.server2_port = 1
passed Routine.server2_pending = 1
passed Routine.server2_reply = 6
passed Routine.server2_poll = 4
passed Routine.stream_start = 7
passed Routine.stream_send = 3
passed Routine.stream_writes_done = 2
passed Routine.server2_read = 2
passed Routine.server2_cancel = 2
passed Routine.server2_send = 3
passed Routine.server2_finish = 6

-- What R is to get without gRPC: FALSE, NULL, or an error.
abbrev pub without_grpc : String → StubAnswer
without_grpc s =
    if str_eq s "grpc_r_available"
    then StubAnswer.logical false
    else if str_eq s "grpc_r_library_shutdown"
    then StubAnswer.nil
    else StubAnswer.no_grpc
