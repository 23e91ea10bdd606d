-- ===== src/Server/System/Entries.antt =====
-- src/server.cpp: the entry points, on an open server and on a closed one.
use rgrpc.Convert.{Bytes, MdPairs}
use rgrpc.Prelude.{ℕ, ℤ, is_zero, Bool, false, not, ◌&&◌, ◌||◌, Option, none, some}
use rgrpc.Server.Types.{Server}
use rgrpc.Server.Api.{
  is_none, bytes_or_empty, on_call, grpc_r_server2_reply, grpc_r_server2_read,
  grpc_r_server2_cancel, grpc_r_server2_send, grpc_r_server2_finish,
}
use rgrpc.Server.Asking.{SvRequest, ask}

-- A call from R that may change the server.
pub data SvEntry : Type 0 where
  reply : ℕ → Option Bytes → ℤ → Option Bytes → Option MdPairs → SvEntry
  read cancel : ℕ → SvEntry
  send : ℕ → Bytes → SvEntry
  finish : ℕ → ℤ → Option Bytes → Option MdPairs → Bool → SvEntry

-- Whether the arguments do not fit the status code.
abbrev pub misfits : SvEntry → Bool
misfits (SvEntry.reply want response code message metadata) =
    is_zero code && is_none response || not (is_zero code) && is_none message
misfits (SvEntry.finish want code message metadata drain) = not (is_zero code) && is_none message
misfits (SvEntry.read want) = false
misfits (SvEntry.cancel want) = false
misfits (SvEntry.send want bytes) = false

-- The result of the call; `none` is an R error.
abbrev pub sv_enters : SvEntry → Server → Option (Server × Bool)
sv_enters (SvEntry.reply want response code message metadata) s =
    grpc_r_server2_reply want response code message metadata s
sv_enters (SvEntry.read want) s = grpc_r_server2_read want s
sv_enters (SvEntry.cancel want) s = grpc_r_server2_cancel want s
sv_enters (SvEntry.send want bytes) s = grpc_r_server2_send want bytes s
sv_enters (SvEntry.finish want code message metadata drain) s =
    grpc_r_server2_finish want code message metadata drain s

abbrev guarded : (Server → Option (Server × Bool)) → Option Server → Option (Server × Bool)
guarded f none = none
guarded f (some t) = f t

-- The code behind the checks.
abbrev behind : SvEntry → Server → Option (Server × Bool)
behind (SvEntry.reply want response code message metadata) s =
    on_call want
      (ask s.shutting
        (SvRequest.reply (bytes_or_empty response) code (bytes_or_empty message) metadata))
      s
behind (SvEntry.read want) s = on_call want (ask s.shutting SvRequest.read) s
behind (SvEntry.cancel want) s = on_call want (ask s.shutting SvRequest.cancel) s
behind (SvEntry.send want bytes) s = on_call want (ask s.shutting (SvRequest.send bytes)) s
behind (SvEntry.finish want code message metadata drain) s =
    on_call want (ask s.shutting (SvRequest.finish code (bytes_or_empty message) metadata drain)) s
