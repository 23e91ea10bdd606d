-- ===== src/Channel/Agreement.antt =====
-- src/client.cpp and src/server.cpp: what the two ends of a connection are set up with.
use rgrpc.Convert.{Bytes}
use rgrpc.Prelude.{ℤ, pos, ◌≡◌, List, [], ◌∷◌, Option, none, some, is_empty, if◌then◌else◌, arith}
use rgrpc.Channel.Arguments.{ArgKey, key_eq, ArgCall, chr_or_empty, client_args, server_args}

-- The value that a list of calls leaves an argument with: the last one set.
abbrev pub value_of : ArgKey → List ArgCall → Option ℤ
value_of k [] = none
value_of k (ArgCall.set_int j x ∷ calls) = elim (value_of k calls) [
  | some y ↦ some y
  | none ↦ if key_eq j k then some x else none
]
value_of k (ArgCall.set_ssl_target_name_override name ∷ calls) = value_of k calls

-- The name that the certificate of the peer is checked against, if not the target's.
abbrev pub name_of : List ArgCall → Option Bytes
name_of [] = none
name_of (ArgCall.set_int j x ∷ calls) = name_of calls
name_of (ArgCall.set_ssl_target_name_override name ∷ calls) = elim (name_of calls) [
  | some other ↦ some other
  | none ↦ some name
]

-- What an integer argument should be, from the options.
abbrev pub wanted : Option ℤ → Option ℤ → Option ℤ → ArgKey → Option ℤ
wanted keepalive timeout min_ping ArgKey.keepalive_time_ms = keepalive
wanted keepalive timeout min_ping ArgKey.keepalive_timeout_ms = timeout
wanted keepalive timeout min_ping ArgKey.http2_min_recv_ping_interval_without_data_ms = min_ping
wanted none timeout min_ping _ = none
wanted (some ms) timeout min_ping ArgKey.http2_max_pings_without_data = some (pos 0)
wanted (some ms) timeout min_ping ArgKey.keepalive_permit_without_calls = some (pos 1)

-- A client and a server leave each integer argument with the same value, from the same options: the
-- keepalive time and timeout that R gives; with a keepalive time, pings without data unlimited (0) and
-- pings without calls allowed (1), and without one both as gRPC has them. Only the server sets the
-- interval that it accepts pings in. A client checks the certificate of its peer against the override,
-- unless that is NULL or empty; a server has no such name.
pub arguments_agree :
    (override : Option Bytes) (keepalive timeout min_ping : Option ℤ) (k : ArgKey)
    → (value_of k (client_args override keepalive timeout) ≡ wanted keepalive timeout none k)
      × (value_of k (server_args keepalive timeout min_ping) ≡ wanted keepalive timeout min_ping k)
      × (name_of (client_args override keepalive timeout)
          ≡ (if is_empty (chr_or_empty override) then none else some (chr_or_empty override)))
      × (name_of (server_args keepalive timeout min_ping) ≡ none)
unfolding client_args server_args chr_or_empty
arguments_agree override keepalive timeout min_ping k = ground arith
