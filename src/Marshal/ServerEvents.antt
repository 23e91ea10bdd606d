-- ===== src/Marshal/ServerEvents.antt =====
-- src/server.cpp: the end of `grpc_r_server2_poll`, an event as an R list.
use Prim.Native.String.{String}
use rgrpc.Convert.{Bytes}
use rgrpc.Prelude.{ℤ, pos, negsuc, List, [], ◌∷◌, Option, none, some}
use rgrpc.Server.Types.{SvEventType, SvEvent}
use rgrpc.Marshal.Values.{RValue, RList, c_str, double_of, grpc_pairs_to_r}

-- `type_names[ev.type]`
abbrev pub type_name : SvEventType → String
type_name SvEventType.request = "request"
type_name SvEventType.cancelled = "cancelled"
type_name SvEventType.stream_msg = "stream_msg"
type_name SvEventType.client_done = "client_done"
type_name SvEventType.stream_writable = "stream_writable"

-- `ev.deadline_ms < 0 ? NA_REAL : ev.deadline_ms`
abbrev pub deadline_to_r : ℤ → RValue
deadline_to_r (pos n) = RValue.real n
deadline_to_r (negsuc n) = RValue.na_real

-- The loop over the peer identities.
unfoldable pub identity_loop : List Bytes → List Bytes
unfolding c_str
identity_loop [] = []
identity_loop (i ∷ is) = c_str i ∷ identity_loop is

-- The eight fields.
abbrev pub sv_event_fields : SvEvent → RValue → RValue → RValue → RValue → RValue → RValue → RList
sv_event_fields ev method request metadata deadline peer identity =
    ("type", RValue.word (type_name ev.kind))
    ∷ ("id", RValue.real (double_of ev.id))
    ∷ ("method", method)
    ∷ ("request", request)
    ∷ ("metadata", metadata)
    ∷ ("deadline_ms", deadline)
    ∷ ("peer", peer)
    ∷ ("peer_identity", identity)
    ∷ []

-- The fields that stay NULL.
abbrev pub null_fields : SvEvent → RValue → RList
null_fields ev request =
    sv_event_fields ev RValue.r_null request RValue.r_null RValue.r_null RValue.r_null RValue.r_null

-- One round of the loop over the batch; `none` is an R error.
unfoldable pub sv_event_to_r : SvEvent → Option RList
unfolding grpc_pairs_to_r c_str double_of identity_loop
sv_event_to_r ev = elim ev.kind [
  | SvEventType.request ↦ elim (grpc_pairs_to_r ev.metadata) [
    | none ↦ none
    | some metadata ↦ some (
        sv_event_fields ev (RValue.character (c_str ev.method ∷ [])) (RValue.raw ev.request)
          metadata (deadline_to_r ev.deadline_ms) (RValue.character (c_str ev.peer ∷ []))
          (RValue.character (identity_loop ev.identity)))
  ]
  | SvEventType.stream_msg ↦ some (null_fields ev (RValue.raw ev.request))
  | _ ↦ some (null_fields ev RValue.r_null)
]

unfoldable pub sv_batch_to_r : List SvEvent → Option (List RList)
unfolding sv_event_to_r
sv_batch_to_r [] = some []
sv_batch_to_r (ev ∷ evs) = elim (sv_event_to_r ev) [
  | none ↦ none
  | some e ↦ elim (sv_batch_to_r evs) [ none ↦ none | some rest ↦ some (e ∷ rest) ]
]
