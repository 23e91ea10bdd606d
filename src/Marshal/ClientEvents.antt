-- ===== src/Marshal/ClientEvents.antt =====
-- src/client.cpp: the end of `grpc_r_client_poll`, an event as an R list.
use Prim.Native.String.{String}
use rgrpc.Convert.{MdPairs}
use rgrpc.Prelude.{pos, Bool, true, false, List, [], ◌∷◌, Option, none, some, if◌then◌else◌}
use rgrpc.Client.Types.{EvKind, ClEvent}
use rgrpc.Marshal.Values.{RValue, RList, c_str, double_of, grpc_pairs_to_r}

-- `kind_names[ev.kind]`
abbrev pub kind_name : EvKind → String
kind_name EvKind.unary = "unary"
kind_name EvKind.smsg = "stream_msg"
kind_name EvKind.writable = "stream_writable"
kind_name EvKind.status = "stream_status"

-- `ev.kind == EV_UNARY || ev.kind == EV_STATUS`
abbrev pub has_status : EvKind → Bool
has_status EvKind.unary = true
has_status EvKind.status = true
has_status EvKind.smsg = false
has_status EvKind.writable = false

unfoldable pub md_pairs_or_null : MdPairs → Option RValue
unfolding grpc_pairs_to_r
md_pairs_or_null md = grpc_pairs_to_r md

-- `response`: the bytes, or NULL.
abbrev pub response_of : ClEvent → RValue
response_of ev = if ev.has_bytes then RValue.raw ev.bytes else RValue.r_null

-- The seven fields.
abbrev pub event_fields : ClEvent → RValue → RValue → RValue → RValue → RList
event_fields ev status message initial trailing =
    ("kind", RValue.word (kind_name ev.kind))
    ∷ ("id", RValue.real (double_of ev.id))
    ∷ ("status", status)
    ∷ ("message", message)
    ∷ ("response", response_of ev)
    ∷ ("initial_metadata", initial)
    ∷ ("trailing_metadata", trailing)
    ∷ []

-- One round of the loop over the batch; `none` is an R error.
unfoldable pub event_to_r : ClEvent → Option RList
unfolding md_pairs_or_null c_str double_of
event_to_r ev =
    if has_status ev.kind
    then (elim (md_pairs_or_null ev.initial_md) [
      | none ↦ none
      | some initial ↦ elim (md_pairs_or_null ev.trailing_md) [
        | none ↦ none
        | some trailing ↦ some (
            event_fields ev (RValue.integer (pos ev.status))
              (RValue.character (c_str ev.message ∷ [])) initial trailing)
      ]
    ])
    else some (event_fields ev RValue.r_null RValue.r_null RValue.r_null RValue.r_null)

unfoldable pub batch_to_r : List ClEvent → Option (List RList)
unfolding event_to_r
batch_to_r [] = some []
batch_to_r (ev ∷ evs) = elim (event_to_r ev) [
  | none ↦ none
  | some e ↦ elim (batch_to_r evs) [ none ↦ none | some rest ↦ some (e ∷ rest) ]
]
