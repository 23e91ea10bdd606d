-- ===== src/Marshal/ClientBatch.antt =====
-- src/client.cpp: what R can read back from the list of an event.
use Prim.Native.String.{String}
use rgrpc.Convert.{MdPairs}
use rgrpc.Prelude.{
  Bool-cases, ◌∙◌, ◌⊎◌, inl, inr, ◌<◌, ◌^◌, pos, Bool, true, false, ◌&&◌, ◌≡◌, refl, List, [], ◌∷◌,
  Option, none, some, if◌then◌else◌, arith,
}
use text.Mathlib.Text.{◌==◌ as str_eq}
use rgrpc.Client.Types.{EvKind, ClEvent}
use rgrpc.Marshal.Values.{
  RValue, RList, has_nul, nul_free, c_str, double_of, grpc_pairs_to_r, pairs_loop_lem,
  double_of_exact, c_str-nul_free,
}
use rgrpc.Marshal.Readers.{
  field, read_integer, read_string, read_pairs, read_raw, read_real, read_word,
}
use rgrpc.Marshal.ClientEvents.{
  kind_name, has_status, md_pairs_or_null, event_to_r, event_fields, batch_to_r, response_of,
}

-- A reader of the list, field by field.
kind_of : String → Option EvKind
kind_of s =
    if str_eq s "unary"
    then some EvKind.unary
    else if str_eq s "stream_msg"
    then some EvKind.smsg
    else if str_eq s "stream_writable"
    then some EvKind.writable
    else if str_eq s "stream_status"
    then some EvKind.status
    else none

kind_of-kind_name : (k : EvKind) → kind_of (kind_name k) ≡ some k
unfolding kind_of
kind_of-kind_name EvKind.unary = refl
kind_of-kind_name EvKind.smsg = refl
kind_of-kind_name EvKind.writable = refl
kind_of-kind_name EvKind.status = refl

pub event_of_r : RList → Option ClEvent
unfolding field kind_of
event_of_r l = elim (kind_of (read_word (field "kind" l))) [
  | none ↦ none
  | some kind ↦ elim (read_real (field "id" l)) [
    | none ↦ none
    | some id ↦ some (record {
      kind = kind;
      id = id;
      status = read_integer (field "status" l);
      message = read_string (field "message" l);
      has_bytes = (read_raw (field "response" l)).0;
      bytes = (read_raw (field "response" l)).1;
      initial_md = read_pairs (field "initial_metadata" l);
      trailing_md = read_pairs (field "trailing_metadata" l);
    })
  ]
]

-- Whether the metadata of an event can be made an R value.
abbrev pub is_convertible : ClEvent → Bool
is_convertible ev =
    if has_status ev.kind then nul_free ev.initial_md && nul_free ev.trailing_md else true

-- An event that the list holds in full: a double holds its id, its message has no nul, and what its kind
-- leaves out is empty.
pub record IsPlain (ev : ClEvent) : Type 0 where
  pub id : ev.id < 2 ^ 53
  pub message : has_nul ev.message ≡ false
  pub bytes : ev.has_bytes ≡ false → ev.bytes ≡ []
  pub left_out :
      has_status ev.kind ≡ false
      → (ev.status ≡ 0) × (ev.message ≡ []) × (ev.initial_md ≡ []) × (ev.trailing_md ≡ [])

read_raw-response_of :
    (ev : ClEvent)
    → (ev.has_bytes ≡ false → ev.bytes ≡ [])
    → read_raw (response_of ev) ≡ (ev.has_bytes, ev.bytes)
read_raw-response_of ev h = ground (arith, h)

md_to_r :
    (md : MdPairs) → nul_free md ≡ true → md_pairs_or_null md ≡ some (RValue.named_character md)
unfolding md_pairs_or_null grpc_pairs_to_r
md_to_r md h = ground (arith, h, pairs_loop_lem md)

md_not_to_r : (md : MdPairs) → nul_free md ≡ false → md_pairs_or_null md ≡ none
unfolding md_pairs_or_null grpc_pairs_to_r
md_not_to_r md h = ground (arith, h, pairs_loop_lem md)

-- What the reader finds in the seven fields.
event_of_r-fields :
    (ev : ClEvent) (status message initial trailing : RValue)
    → event_of_r (event_fields ev status message initial trailing)
      ≡ some (record {
        kind = ev.kind;
        id = double_of ev.id;
        status = read_integer status;
        message = read_string message;
        has_bytes = (read_raw (response_of ev)).0;
        bytes = (read_raw (response_of ev)).1;
        initial_md = read_pairs initial;
        trailing_md = read_pairs trailing;
      })
unfolding event_of_r
event_of_r-fields ev status message initial trailing =
    rw (kind_of-kind_name ev.kind, event_of_r) refl

with_status :
    (ev : ClEvent)
    → IsPlain ev
    → nul_free ev.initial_md ≡ true
    → nul_free ev.trailing_md ≡ true
    → event_of_r (
        event_fields ev
          (RValue.integer (pos ev.status))
          (RValue.character (c_str ev.message ∷ []))
          (RValue.named_character ev.initial_md)
          (RValue.named_character ev.trailing_md))
      ≡ some ev
with_status ev h i t =
    event_of_r-fields ev _ _ _ _
    ∙ ground (arith, double_of_exact ev.id, c_str-nul_free ev.message, read_raw-response_of ev, h)

without_status :
    (ev : ClEvent)
    → IsPlain ev
    → has_status ev.kind ≡ false
    → event_of_r (event_fields ev RValue.r_null RValue.r_null RValue.r_null RValue.r_null) ≡ some ev
without_status ev h k =
    event_of_r-fields ev _ _ _ _
    ∙ ground (arith, double_of_exact ev.id, read_raw-response_of ev, h, k)

event_roundtrip :
    (ev : ClEvent)
    → IsPlain ev
    → is_convertible ev ≡ true
    → (l : RList) × (event_to_r ev ≡ some l) × (event_of_r l ≡ some ev)
unfolding event_to_r
event_roundtrip ev h ok = elim (Bool-cases (has_status ev.kind)) [
  | inr k ↦ (_, rw (k, event_to_r) refl, without_status ev h k)
  | inl k ↦
      let i : nul_free ev.initial_md ≡ true = ground (arith, ok, k) in
      let t : nul_free ev.trailing_md ≡ true = ground (arith, ok, k) in
      (
        _,
        rw (k, md_to_r ev.initial_md i, md_to_r ev.trailing_md t, event_to_r) refl,
        with_status ev h i t,
      )
]

event_fails : (ev : ClEvent) → is_convertible ev ≡ false → event_to_r ev ≡ none
unfolding event_to_r
event_fails ev bad =
    ground
      (arith, bad, md_to_r ev.initial_md, md_not_to_r ev.initial_md, md_not_to_r ev.trailing_md)

-- Every event of a batch can be made an R value.
abbrev pub all_convertible : List ClEvent → Bool
all_convertible [] = true
all_convertible (ev ∷ evs) = if is_convertible ev then all_convertible evs else false

abbrev pub AllPlain : List ClEvent → Type 0
AllPlain [] = Unit {0}
AllPlain (ev ∷ evs) = IsPlain ev × AllPlain evs

pub read_batch : List RList → Option (List ClEvent)
unfolding event_of_r
read_batch [] = some []
read_batch (l ∷ ls) = elim (event_of_r l) [
  | none ↦ none
  | some ev ↦ elim (read_batch ls) [ none ↦ none | some evs ↦ some (ev ∷ evs) ]
]

batch_fails : (evs : List ClEvent) → all_convertible evs ≡ false → batch_to_r evs ≡ none
unfolding batch_to_r
batch_fails [] h = cc
batch_fails (ev ∷ evs) h = ground (arith, event_fails ev, batch_fails evs)

batch_reads :
    (evs : List ClEvent)
    → AllPlain evs
    → all_convertible evs ≡ true
    → (ls : List RList) × (batch_to_r evs ≡ some ls) × (read_batch ls ≡ some evs)
unfolding batch_to_r read_batch
batch_reads [] h ok = ([], refl, refl)
batch_reads (ev ∷ evs) h ok =
    let (l, made, read) = event_roundtrip ev h.0 (ground (arith, ok)) in
    let (ls, all_made, all_read) = batch_reads evs h.1 (ground (arith, ok)) in
    (l ∷ ls, rw (made, all_made, batch_to_r) refl, rw (read, all_read, read_batch) refl)

-- The R lists of a batch hold its events in full. Each event is taken to have an id below 2^53; no nul in
-- its message; no bytes unless `has_bytes` is set; and, if it is neither of a unary call nor a stream's
-- status, the status 0 and no message and metadata. Then a reader gets the batch back from its lists.
-- But if the metadata of one event with a
-- status holds a nul, whichever event it is, the whole batch is an R error.
pub batch_roundtrip :
    (evs : List ClEvent)
    → AllPlain evs
    → ((all_convertible evs ≡ true)
        × (ls : List RList) × (batch_to_r evs ≡ some ls)
        × (read_batch ls ≡ some evs))
      ⊎ ((all_convertible evs ≡ false) × (batch_to_r evs ≡ none))
batch_roundtrip evs h = elim (Bool-cases (all_convertible evs)) [
  | inl ok ↦ let (ls, made, read) = batch_reads evs h ok in inl (ok, ls, made, read)
  | inr bad ↦ inr (bad, batch_fails evs bad)
]
