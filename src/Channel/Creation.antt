-- ===== src/Channel/Creation.antt =====
-- src/client.cpp and src/server.cpp: `grpc_r_client_create` and `grpc_r_server2_create` from their
-- arguments on.
use rgrpc.Convert.{Bytes}
use rgrpc.Prelude.{ℕ, ℤ, Bool, List, Option, none, some}
use rgrpc.Client.Types.{Client}
use rgrpc.Client.Lifecycle.{create_client}
use rgrpc.Server.Types.{Server}
use rgrpc.Server.Lifecycle.{create_server}
use rgrpc.Channel.Arguments.{
  ArgCall, ChannelCredentials, ServerCredentials, client_credentials, client_args,
  server_credentials, server_args,
}

-- The options that R gives to a client.
pub record ClientOptions : Type 0 where
  pub target : Bytes
  pub tls : Bool
  pub ca : Option Bytes
  pub cert : Option Bytes
  pub key : Option Bytes
  pub override : Option Bytes
  pub keepalive_ms : Option ℤ
  pub keepalive_timeout_ms : Option ℤ

-- What `grpc::CreateCustomChannel` is given.
pub record ChannelSpec : Type 0 where
  pub target : Bytes
  pub creds : ChannelCredentials
  pub args : List ArgCall

-- `pipe_ok` and `capacity` are the answer of `pipe`; `none` is "wake handle creation failed".
unfoldable pub grpc_r_client_create : Bool → ℕ → ClientOptions → Option (ChannelSpec × Client)
unfolding create_client client_credentials client_args
grpc_r_client_create pipe_ok capacity o = elim (create_client pipe_ok capacity) [
  | none ↦ none
  | some c ↦ some (
    record {
      target = o.target;
      creds = client_credentials o.tls o.ca o.cert o.key;
      args = client_args o.override o.keepalive_ms o.keepalive_timeout_ms;
    },
    c,
  )
]

-- The options that R gives to a server.
pub record ServerOptions : Type 0 where
  pub address : Bytes
  pub accept_window : ℤ
  pub max_active : ℤ
  pub tls : Bool
  pub ca : Option Bytes
  pub cert : Option Bytes
  pub key : Option Bytes
  pub require_client : Bool
  pub keepalive_ms : Option ℤ
  pub keepalive_timeout_ms : Option ℤ
  pub min_ping_interval_ms : Option ℤ

-- What `grpc::ServerBuilder` is given.
pub record ListenSpec : Type 0 where
  pub address : Bytes
  pub creds : ServerCredentials
  pub args : List ArgCall

abbrev pub listen_spec : ServerOptions → ListenSpec
listen_spec o = record {
  address = o.address;
  creds = server_credentials o.tls o.ca o.cert o.key o.require_client;
  args = server_args o.keepalive_ms o.keepalive_timeout_ms o.min_ping_interval_ms;
}

-- `starts` says for which builders `BuildAndStart` gives a server; `none` is an error.
unfoldable pub grpc_r_server2_create :
    (ListenSpec → Bool) → Bool → ℕ → ServerOptions → Option (ListenSpec × Server)
unfolding create_server server_credentials server_args
grpc_r_server2_create starts pipe_ok capacity o =
    elim (create_server pipe_ok capacity (starts (listen_spec o)) o.accept_window o.max_active) [
      | none ↦ none
      | some s ↦ some (listen_spec o, s)
    ]
