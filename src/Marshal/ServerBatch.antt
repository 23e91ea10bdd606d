-- ===== src/Marshal/ServerBatch.antt =====
-- src/server.cpp: what R can read back from the list of an event.
use Prim.Native.String.{String}
use text.Mathlib.Text.{◌==◌ as str_eq}
use rgrpc.Convert.{Bytes}
use rgrpc.Prelude.{
  ◌<◌, ◌^◌, ℤ, pos, ap, negsuc, Bool, true, false, ◌≡◌, refl, sym, ◌∙◌, ◌⊎◌, inl, inr, List, [],
  ◌∷◌, Option, none, some, arith, Bool-cases, if◌then◌else◌,
}
use rgrpc.Server.Types.{SvEventType, SvEvent}
use rgrpc.Marshal.Values.{
  RValue, RList, has_nul, nul_free, c_str, double_of, grpc_pairs_to_r, pairs_loop_lem,
  double_of_exact, c_str-nul_free,
}
use rgrpc.Marshal.Readers.{
  field, read_string, read_strings, read_pairs, read_raw, read_real, read_deadline, read_word,
}
use rgrpc.Marshal.ServerEvents.{
  type_name, deadline_to_r, identity_loop, sv_event_fields, null_fields, sv_event_to_r,
  sv_batch_to_r,
}

type_of : String → Option SvEventType
type_of s =
    if str_eq s "request"
    then some SvEventType.request
    else if str_eq s "cancelled"
    then some SvEventType.cancelled
    else if str_eq s "stream_msg"
    then some SvEventType.stream_msg
    else if str_eq s "client_done"
    then some SvEventType.client_done
    else if str_eq s "stream_writable"
    then some SvEventType.stream_writable
    else none

type_of-type_name : (k : SvEventType) → type_of (type_name k) ≡ some k
unfolding type_of
type_of-type_name SvEventType.request = refl
type_of-type_name SvEventType.cancelled = refl
type_of-type_name SvEventType.stream_msg = refl
type_of-type_name SvEventType.client_done = refl
type_of-type_name SvEventType.stream_writable = refl

-- A reader of the list, field by field.
pub sv_event_of_r : RList → Option SvEvent
unfolding field type_of
sv_event_of_r l = elim (type_of (read_word (field "type" l))) [
  | none ↦ none
  | some kind ↦ elim (read_real (field "id" l)) [
    | none ↦ none
    | some id ↦ some (record {
      kind = kind;
      id = id;
      method = read_string (field "method" l);
      request = (read_raw (field "request" l)).1;
      metadata = read_pairs (field "metadata" l);
      deadline_ms = read_deadline (field "deadline_ms" l);
      peer = read_string (field "peer" l);
      identity = read_strings (field "peer_identity" l);
    })
  ]
]

abbrev pub is_request : SvEventType → Bool
is_request SvEventType.request = true
is_request _ = false

abbrev pub has_request : SvEventType → Bool
has_request SvEventType.request = true
has_request SvEventType.stream_msg = true
has_request _ = false

-- Whether the metadata of an event can be made an R value.
abbrev pub is_sv_convertible : SvEvent → Bool
is_sv_convertible ev = if is_request ev.kind then nul_free ev.metadata else true

abbrev pub all_nul_free : List Bytes → Bool
all_nul_free [] = true
all_nul_free (s ∷ l) = if has_nul s then false else all_nul_free l

-- What the handlers leave in the fields of an event that is not of the first message.
abbrev pub BlankRequest : SvEvent → Type 0
BlankRequest ev =
    (ev.method ≡ [])
    × (ev.metadata ≡ [])
    × (ev.deadline_ms ≡ negsuc 0)
    × (ev.peer ≡ [])
    × (ev.identity ≡ [])

-- A time, or -1 for none.
abbrev pub IsDeadline : ℤ → Type 0
IsDeadline (pos n) = Unit {0}
IsDeadline (negsuc n) = n ≡ 0

deadline_kept : (ms : ℤ) → IsDeadline ms → read_deadline (deadline_to_r ms) ≡ ms
deadline_kept (pos n) h = refl
deadline_kept (negsuc n) h = ap negsuc (sym h)

-- An event that the list holds in full: a double holds its id, its strings have no nul, a deadline that
-- is not known is -1, and what its type leaves out is empty.
pub record IsPlainSv (ev : SvEvent) : Type 0 where
  pub id : ev.id < 2 ^ 53
  pub method : has_nul ev.method ≡ false
  pub peer : has_nul ev.peer ≡ false
  pub identity : all_nul_free ev.identity ≡ true
  pub deadline : IsDeadline ev.deadline_ms
  pub left_out : is_request ev.kind ≡ false → BlankRequest ev
  pub no_message : has_request ev.kind ≡ false → ev.request ≡ []

identity_loop-nul_free : (l : List Bytes) → all_nul_free l ≡ true → identity_loop l ≡ l
unfolding identity_loop
identity_loop-nul_free [] h = refl
identity_loop-nul_free (s ∷ l) h = ground (arith, h, c_str-nul_free s, identity_loop-nul_free l)

metadata_to_r :
    (ev : SvEvent)
    → grpc_pairs_to_r ev.metadata
      ≡ (if nul_free ev.metadata then some (RValue.named_character ev.metadata) else none)
unfolding grpc_pairs_to_r
metadata_to_r ev = ground (arith, pairs_loop_lem ev.metadata)

-- What the reader finds in the eight fields.
sv_event_of_r-fields :
    (ev : SvEvent) (method request metadata deadline peer identity : RValue)
    → sv_event_of_r (sv_event_fields ev method request metadata deadline peer identity)
      ≡ some (record {
        kind = ev.kind;
        id = double_of ev.id;
        method = read_string method;
        request = (read_raw request).1;
        metadata = read_pairs metadata;
        deadline_ms = read_deadline deadline;
        peer = read_string peer;
        identity = read_strings identity;
      })
unfolding sv_event_of_r
sv_event_of_r-fields ev method request metadata deadline peer identity =
    rw (type_of-type_name ev.kind, sv_event_of_r) refl

request_roundtrip :
    (ev : SvEvent)
    → IsPlainSv ev
    → sv_event_of_r (
        sv_event_fields ev
          (RValue.character (c_str ev.method ∷ []))
          (RValue.raw ev.request)
          (RValue.named_character ev.metadata)
          (deadline_to_r ev.deadline_ms)
          (RValue.character (c_str ev.peer ∷ []))
          (RValue.character (identity_loop ev.identity)))
      ≡ some ev
request_roundtrip ev h =
    sv_event_of_r-fields ev _ _ _ _ _ _
    ∙ ground (
      arith,
      double_of_exact ev.id,
      c_str-nul_free ev.method,
      c_str-nul_free ev.peer,
      identity_loop-nul_free ev.identity,
      deadline_kept ev.deadline_ms h.deadline,
      h,
    )

null_roundtrip :
    (ev : SvEvent) (request : RValue)
    → IsPlainSv ev
    → (read_raw request).1 ≡ ev.request
    → is_request ev.kind ≡ false
    → sv_event_of_r (null_fields ev request) ≡ some ev
null_roundtrip ev request h same other =
    let (method, metadata, deadline, peer, identity) = h.left_out other in
    sv_event_of_r-fields ev _ _ _ _ _ _
    ∙ ground (arith, double_of_exact ev.id, h.id, same, method, metadata, deadline, peer, identity)

sv_event_reads :
    (ev : SvEvent) (kind : SvEventType)
    → ev.kind ≡ kind
    → IsPlainSv ev
    → is_sv_convertible ev ≡ true
    → (l : RList) × (sv_event_to_r ev ≡ some l) × (sv_event_of_r l ≡ some ev)
unfolding sv_event_to_r
sv_event_reads ev SvEventType.request e h ok =
    let plain : nul_free ev.metadata ≡ true = ground (arith, ok, e) in
    (_, ground (arith, e, metadata_to_r ev, plain), request_roundtrip ev h)
sv_event_reads ev SvEventType.stream_msg e h ok =
    (_, ground (arith, e), null_roundtrip ev (RValue.raw ev.request) h refl (rw e refl))
sv_event_reads ev SvEventType.cancelled e h ok = (
  _,
  ground (arith, e),
  null_roundtrip ev RValue.r_null h (sym (h.no_message (rw e refl))) (rw e refl),
)
sv_event_reads ev SvEventType.client_done e h ok = (
  _,
  ground (arith, e),
  null_roundtrip ev RValue.r_null h (sym (h.no_message (rw e refl))) (rw e refl),
)
sv_event_reads ev SvEventType.stream_writable e h ok = (
  _,
  ground (arith, e),
  null_roundtrip ev RValue.r_null h (sym (h.no_message (rw e refl))) (rw e refl),
)

sv_event_fails : (ev : SvEvent) → is_sv_convertible ev ≡ false → sv_event_to_r ev ≡ none
unfolding sv_event_to_r
sv_event_fails ev bad = ground (arith, bad, metadata_to_r ev)

-- Every event of a batch can be made an R value.
abbrev pub all_sv_convertible : List SvEvent → Bool
all_sv_convertible [] = true
all_sv_convertible (ev ∷ evs) = if is_sv_convertible ev then all_sv_convertible evs else false

abbrev pub AllPlainSv : List SvEvent → Type 0
AllPlainSv [] = Unit {0}
AllPlainSv (ev ∷ evs) = IsPlainSv ev × AllPlainSv evs

pub read_sv_batch : List RList → Option (List SvEvent)
unfolding sv_event_of_r
read_sv_batch [] = some []
read_sv_batch (l ∷ ls) = elim (sv_event_of_r l) [
  | none ↦ none
  | some ev ↦ elim (read_sv_batch ls) [ none ↦ none | some evs ↦ some (ev ∷ evs) ]
]

sv_batch_fails : (evs : List SvEvent) → all_sv_convertible evs ≡ false → sv_batch_to_r evs ≡ none
unfolding sv_batch_to_r
sv_batch_fails [] h = cc
sv_batch_fails (ev ∷ evs) h = ground (arith, sv_event_fails ev, sv_batch_fails evs)

sv_batch_reads :
    (evs : List SvEvent)
    → AllPlainSv evs
    → all_sv_convertible evs ≡ true
    → (ls : List RList) × (sv_batch_to_r evs ≡ some ls) × (read_sv_batch ls ≡ some evs)
unfolding sv_batch_to_r read_sv_batch
sv_batch_reads [] h ok = ([], refl, refl)
sv_batch_reads (ev ∷ evs) h ok =
    let (l, made, read) = sv_event_reads ev ev.kind refl h.0 (ground (arith, ok)) in
    let (ls, all_made, all_read) = sv_batch_reads evs h.1 (ground (arith, ok)) in
    (l ∷ ls, rw (made, all_made, sv_batch_to_r) refl, rw (read, all_read, read_sv_batch) refl)

-- The R lists of a batch of the server hold its events in full. Each event is taken to have an id below
-- 2^53; no nul in its method, peer and identities; a deadline that is -1 or not negative; if it is not
-- of a first message, no method, metadata, peer and identities, and the deadline -1; and a message only
-- if it is of a first or a later message. Then either the metadata of every
-- first message is free of nuls and a reader gets the batch back from its lists; or the metadata of
-- some first message holds a nul, and the whole batch is an R error.
pub sv_batch_roundtrip :
    (evs : List SvEvent)
    → AllPlainSv evs
    → ((all_sv_convertible evs ≡ true)
        × (ls : List RList) × (sv_batch_to_r evs ≡ some ls)
        × (read_sv_batch ls ≡ some evs))
      ⊎ ((all_sv_convertible evs ≡ false) × (sv_batch_to_r evs ≡ none))
sv_batch_roundtrip evs h = elim (Bool-cases (all_sv_convertible evs)) [
  | inl ok ↦ let (ls, made, read) = sv_batch_reads evs h ok in inl (ok, ls, made, read)
  | inr bad ↦ inr (bad, sv_batch_fails evs bad)
]
