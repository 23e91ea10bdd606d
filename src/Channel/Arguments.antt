-- ===== src/Channel/Arguments.antt =====
-- src/client.cpp and src/server.cpp: the options that R gives, as the calls that set them on gRPC.
use rgrpc.Convert.{Bytes}
use rgrpc.Prelude.{
  ℤ, pos, Bool, true, false, List, [], ◌∷◌, ◌++◌, Option, none, some, is_empty, if◌then◌else◌,
}

-- The names of the integer arguments, without `GRPC_ARG_`.
pub data ArgKey : Type 0 where
  keepalive_time_ms keepalive_timeout_ms http2_max_pings_without_data : ArgKey
  keepalive_permit_without_calls http2_min_recv_ping_interval_without_data_ms : ArgKey

abbrev pub key_eq : ArgKey → ArgKey → Bool
key_eq ArgKey.keepalive_time_ms ArgKey.keepalive_time_ms = true
key_eq ArgKey.keepalive_timeout_ms ArgKey.keepalive_timeout_ms = true
key_eq ArgKey.http2_max_pings_without_data ArgKey.http2_max_pings_without_data = true
key_eq ArgKey.keepalive_permit_without_calls ArgKey.keepalive_permit_without_calls = true
key_eq ArgKey.http2_min_recv_ping_interval_without_data_ms
      ArgKey.http2_min_recv_ping_interval_without_data_ms =
    true
key_eq _ _ = false

-- A call on `grpc::ChannelArguments` or `grpc::ServerBuilder`.
pub data ArgCall : Type 0 where
  set_int : ArgKey → ℤ → ArgCall
  set_ssl_target_name_override : Bytes → ArgCall

pub data ChannelCredentials : Type 0 where
  insecure : ChannelCredentials
  ssl : Bytes → Bytes → Bytes → ChannelCredentials  -- root certificates, private key, chain

pub data ServerCredentials : Type 0 where
  insecure : ServerCredentials
  ssl : Bool → Bytes → Bytes → Bytes → ServerCredentials  -- whether the client must have a certificate

-- A character vector, `none` for NULL.
unfoldable pub chr_or_empty : Option Bytes → Bytes
chr_or_empty none = []
chr_or_empty (some x) = x

-- `keepalive_ms != R_NilValue`
abbrev pub keepalive_args : Option ℤ → List ArgCall
keepalive_args none = []
keepalive_args (some ms) =
    ArgCall.set_int ArgKey.keepalive_time_ms ms
    ∷ ArgCall.set_int ArgKey.http2_max_pings_without_data (pos 0)
    ∷ ArgCall.set_int ArgKey.keepalive_permit_without_calls (pos 1)
    ∷ []

-- `x != R_NilValue`
abbrev pub int_arg : ArgKey → Option ℤ → List ArgCall
int_arg key none = []
int_arg key (some x) = ArgCall.set_int key x ∷ []

unfoldable pub client_credentials :
    Bool → Option Bytes → Option Bytes → Option Bytes → ChannelCredentials
unfolding chr_or_empty
client_credentials tls ca cert key =
    if tls
    then ChannelCredentials.ssl (chr_or_empty ca) (chr_or_empty key) (chr_or_empty cert)
    else ChannelCredentials.insecure

unfoldable pub client_args : Option Bytes → Option ℤ → Option ℤ → List ArgCall
unfolding chr_or_empty
client_args override keepalive timeout =
    let ov = chr_or_empty override in
    (if is_empty ov then [] else ArgCall.set_ssl_target_name_override ov ∷ [])
    ++ keepalive_args keepalive
    ++ int_arg ArgKey.keepalive_timeout_ms timeout

unfoldable pub server_credentials :
    Bool → Option Bytes → Option Bytes → Option Bytes → Bool → ServerCredentials
unfolding chr_or_empty
server_credentials tls ca cert key require_client =
    if tls
    then ServerCredentials.ssl require_client (chr_or_empty ca) (chr_or_empty key)
        (chr_or_empty cert)
    else ServerCredentials.insecure

unfoldable pub server_args : Option ℤ → Option ℤ → Option ℤ → List ArgCall
server_args keepalive timeout min_ping_interval =
    keepalive_args keepalive
    ++ int_arg ArgKey.keepalive_timeout_ms timeout
    ++ int_arg ArgKey.http2_min_recv_ping_interval_without_data_ms min_ping_interval
