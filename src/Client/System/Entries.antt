-- ===== src/Client/System/Entries.antt =====
-- src/client.cpp: the entry points that may change a client.
use rgrpc.Convert.{Bytes, MdPairs}
use rgrpc.Prelude.{ℕ, ℤ, Bool, Option, none, some}
use rgrpc.Client.Types.{Client}
use rgrpc.Client.Api.{
  grpc_r_call_start, grpc_r_stream_start, grpc_r_stream_send, grpc_r_stream_writes_done,
  grpc_r_call_cancel,
}

-- A call from R that may change the client.
pub data Entry : Type 0 where
  call_start : ℤ → Option ℤ → Option MdPairs → Bool → Entry
  stream_start : ℤ → Option ℤ → Option MdPairs → Bool → ℤ → ℤ → Entry
  stream_send : ℕ → Bytes → Entry
  stream_writes_done : ℕ → Entry
  call_cancel : ℕ → Entry

abbrev client_of {ℓ} : {A : Type ℓ} → Option (Client × A) → Option Client
client_of none = none
client_of (some r) = some r.0

-- The client after the call; `none` is an R error.
abbrev pub enters : Entry → Client → Option Client
enters (Entry.call_start now ms md wait) c = client_of (grpc_r_call_start now ms md wait c)
enters (Entry.stream_start now ms md wait r w) c =
    client_of (grpc_r_stream_start now ms md wait r w c)
enters (Entry.stream_send id bytes) c = client_of (grpc_r_stream_send id bytes c)
enters (Entry.stream_writes_done id) c = client_of (grpc_r_stream_writes_done id c)
enters (Entry.call_cancel id) c = grpc_r_call_cancel id c
