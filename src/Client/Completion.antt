-- ===== src/Client/Completion.antt =====
-- src/client.cpp: one round of the completion thread's loop in `run`, which holds the mutex.
use rgrpc.Convert.{grpc_byte_buffer_to_string}
use rgrpc.Prelude.{
  ℕ, Bool, ◌&&◌, List, [], ◌∷◌, ◌==◌, if◌then◌else◌, Option, none, some, is_zero, count, push_back,
  find, insert, erase,
}
use rgrpc.Wake.{wake_signal}
use rgrpc.Client.Types.{
  TagKind, kind_eq, EvKind, Ctag, ClEvent, CallState, StreamState, Client, Filled, Completion,
}
use rgrpc.Client.Stream.{Locked, status_event, on_tag}

abbrev pub is_tag : ℕ → TagKind → Ctag → Bool
is_tag obj kind t = t.obj == obj && kind_eq t.kind kind

-- How many times a tag is outstanding.
abbrev pub outstanding : ℕ → TagKind → List Ctag → ℕ
outstanding obj kind cq = count (is_tag obj kind) cq

-- `Next` takes the tag that it returns off the queue.
unfoldable pub take_tag : ℕ → TagKind → List Ctag → List Ctag
take_tag obj kind [] = []
take_tag obj kind (t ∷ cq) = if is_tag obj kind t then cq else t ∷ take_tag obj kind cq

-- `ready.push_back(ev); signal();`
abbrev pub push_event : ClEvent → Client → Client
push_event ev c = record c { ready = push_back c.ready ev; wake = wake_signal c.wake }

unfoldable pub push_events : List ClEvent → Client → Client
push_events [] c = c
push_events (ev ∷ evs) c = push_events evs (push_event ev c)

unfoldable pub post_tags : ℕ → List TagKind → List Ctag → List Ctag
post_tags obj [] cq = cq
post_tags obj (k ∷ ks) cq = record { obj = obj; kind = k } ∷ post_tags obj ks cq

-- The client after a critical section on the stream `id`.
unfoldable pub store_stream : ℕ → Locked → Client → Client
unfolding push_events post_tags
store_stream id w c =
    push_events w.events
      (record c { cq = post_tags id w.posted c.cq; streams = insert id w.stream c.streams })

unfoldable pub s_maybe_free_locked : StreamState → Client → Client
s_maybe_free_locked s c =
    if is_zero s.pending && s.status_emitted then record c { streams = erase s.id c.streams } else c

-- The event of a unary call.
abbrev pub unary_event : CallState → Filled → ClEvent
unary_event cs f =
    let (has_bytes, bytes) = grpc_byte_buffer_to_string f.buffer [] in
    if f.error_code == 0
    then record (status_event EvKind.unary cs.id f) { has_bytes = has_bytes; bytes = bytes }
    else status_event EvKind.unary cs.id f

unfoldable pub complete_call : CallState → Filled → Client → Client
complete_call cs f c = push_event (unary_event cs f) (record c { calls = erase cs.id c.calls })

unfoldable pub complete_stream : TagKind → Bool → Filled → StreamState → Client → Client
unfolding store_stream s_maybe_free_locked
complete_stream kind ok f s c =
    let w = on_tag c.shutting kind ok f s in s_maybe_free_locked w.stream (store_stream s.id w c)

-- The object behind the tag; `none` is a tag whose object has been deleted.
unfoldable pub dispatch : TagKind → ℕ → Bool → Filled → Client → Option Client
unfolding complete_call complete_stream
dispatch TagKind.unary obj ok f c = elim (find obj c.calls) [
  | none ↦ none
  | some cs ↦ some (complete_call cs f c)
]
dispatch kind obj ok f c = elim (find obj c.streams) [
  | none ↦ none
  | some s ↦ some (complete_stream kind ok f s c)
]

unfoldable pub complete : Completion → Client → Option Client
unfolding take_tag dispatch
complete e c =
    dispatch e.tag.kind e.tag.obj e.ok e.filled
      (record c { cq = take_tag e.tag.obj e.tag.kind c.cq })

-- Several rounds, in the order in which the queue returns the tags.
unfoldable pub complete_all : List Completion → Client → Option Client
unfolding complete
complete_all [] c = some c
complete_all (e ∷ es) c = elim (complete e c) [ none ↦ none | some c1 ↦ complete_all es c1 ]
