-- ===== src/Client/Stream.antt =====
-- src/client.cpp: what happens to one stream while the mutex is held.
-- The functions take `shutting` and a stream with what the critical section has done so far; the
-- caller puts the tags posted on the completion queue, and the events at the end of `ready`.
pub mod Rules
pub mod Discipline
pub mod Tracking
pub mod Handlers
pub mod Requests
pub mod Progress
pub mod Order
pub mod Owning
use rgrpc.Convert.{Bytes, MdPairs, grpc_byte_buffer_to_string, append_slices}
use rgrpc.Prelude.{
  ℕ, Bool, true, false, not, ◌&&◌, ◌||◌, List, [], ◌∷◌, ◌==◌, if◌then◌else◌, inc, dec, is_zero,
  ltb_ℤ, is_empty, pop_front, front, push_back, leb, length,
}
use rgrpc.Client.Types.{TagKind, EvKind, ClEvent, RwOp, StreamState, Filled}

pub record Locked : Type 0 where
  pub stream : StreamState
  pub posted : List TagKind
  pub events : List ClEvent

-- `cl_event ev; ev.kind = kind; ev.id = id;`
abbrev pub blank_event : EvKind → ℕ → ClEvent
blank_event kind id = record {
  kind = kind;
  id = id;
  status = 0;
  message = [];
  has_bytes = false;
  bytes = [];
  initial_md = [];
  trailing_md = [];
}

-- The event with the status of a finished call or stream.
abbrev pub status_event : EvKind → ℕ → Filled → ClEvent
status_event kind id f = record (blank_event kind id) {
  status = f.error_code;
  message = f.error_message;
  initial_md = f.initial_md;
  trailing_md = f.trailing_md;
}

-- The event with the bytes that a buffer holds.
abbrev pub bytes_event : EvKind → ℕ → Filled → ClEvent
bytes_event kind id f =
    let (has_bytes, bytes) = grpc_byte_buffer_to_string f.buffer [] in
    record (blank_event kind id) { has_bytes = has_bytes; bytes = bytes }

-- `++s->pending` and the call on `rw`, which puts the tag on the queue.
abbrev pub post : TagKind → RwOp → StreamState → Locked → Locked
post kind op s w = record w {
  stream = record s { pending = inc s.pending; rw = push_back s.rw op };
  posted = kind ∷ w.posted;
}

-- `ready.push_back(ev)`, after which the stream is `s`.
abbrev pub emit : ClEvent → StreamState → Locked → Locked
emit ev s w = record w { stream = s; events = push_back w.events ev }

abbrev pub with_stream : StreamState → Locked → Locked
with_stream s w = record w { stream = s }

unfoldable pub s_post_read_locked : Bool → Locked → Locked
s_post_read_locked shutting w =
    let s = w.stream in
    if shutting || s.read_inflight || s.reads_closed || s.broken || s.finish_posted || not s.started
    then w
    else post TagKind.read RwOp.read (record s { read_inflight = true }) w

unfoldable pub s_pump_writes_locked : Bool → Locked → Locked
s_pump_writes_locked shutting w =
    let s = w.stream in
    if shutting || not s.started || s.broken || s.finish_posted
    then w
    else if not s.write_inflight && not (is_empty s.write_queue)
    then post TagKind.write (RwOp.write (front [] s.write_queue))
        (record s { write_inflight = true }) w
    else if not s.write_inflight
        && is_empty s.write_queue
        && s.wdone_requested
        && not s.wdone_sent
        && not s.wdone_inflight
    then post TagKind.wdone RwOp.writes_done (record s { wdone_inflight = true }) w
    else w

unfoldable pub s_try_finish_locked : Bool → Locked → Locked
s_try_finish_locked shutting w =
    let s = w.stream in
    if shutting || not s.want_finish || s.finish_posted
    then w
    else if s.read_inflight || s.write_inflight || s.wdone_inflight
    then w
    else if not s.started
    then w
    else post TagKind.finish RwOp.finish (record s { finish_posted = true }) w

-- The cases of the `switch` in `run`, after `--s->pending`.
unfoldable pub on_start : Bool → Bool → Locked → Locked
on_start shutting true w = s_try_finish_locked shutting (
    s_pump_writes_locked shutting
      (s_post_read_locked shutting (with_stream (record w.stream { started = true }) w)))
on_start shutting false w =
    s_try_finish_locked shutting
      (with_stream (record w.stream { broken = true; started = true; want_finish = true }) w)

-- T_READ with a message, after `read_inflight = false`.
unfoldable pub on_message : Bool → Filled → Locked → Locked
on_message shutting filled w =
    let s = record w.stream { unread = inc w.stream.unread } in
    let queued = emit (bytes_event EvKind.smsg s.id filled) s w in
    if ltb_ℤ s.unread s.read_cap then s_post_read_locked shutting queued else queued

unfoldable pub on_read : Bool → Bool → Filled → Locked → Locked
on_read shutting ok filled w =
    let s = record w.stream { read_inflight = false } in
    s_try_finish_locked shutting (
      if ok && not s.broken
      then on_message shutting filled (with_stream s w)
      else with_stream (record s { reads_closed = true; want_finish = true }) w)

-- T_WRITE of a message that went out, after `write_inflight = false`.
unfoldable pub on_written : Bool → Locked → Locked
on_written shutting w =
    let s = record w.stream { write_queue = pop_front w.stream.write_queue } in
    s_pump_writes_locked shutting (
      if is_empty s.write_queue
      then emit (blank_event EvKind.writable s.id) s w
      else with_stream s w)

unfoldable pub on_write : Bool → Bool → Locked → Locked
on_write shutting ok w =
    let s = record w.stream { write_inflight = false } in
    s_try_finish_locked shutting (
      if ok && not s.broken
      then on_written shutting (with_stream s w)
      else with_stream (record s { broken = true; want_finish = true }) w)

unfoldable pub on_wdone : Bool → Bool → Locked → Locked
on_wdone shutting ok w =
    let s = record w.stream { wdone_inflight = false; wdone_sent = true } in
    s_try_finish_locked shutting (
      if not ok
      then with_stream (record s { broken = true; want_finish = true }) w
      else with_stream s w)

unfoldable pub on_finish : Filled → Locked → Locked
on_finish filled w =
    emit (status_event EvKind.status w.stream.id filled) (record w.stream { status_emitted = true })
      w

unfoldable pub stream_switch : Bool → TagKind → Bool → Filled → Locked → Locked
stream_switch shutting TagKind.start ok filled w = on_start shutting ok w
stream_switch shutting TagKind.read ok filled w = on_read shutting ok filled w
stream_switch shutting TagKind.write ok filled w = on_write shutting ok w
stream_switch shutting TagKind.wdone ok filled w = on_wdone shutting ok w
stream_switch shutting TagKind.finish ok filled w = on_finish filled w
stream_switch shutting TagKind.unary ok filled w = w

-- `--s->pending` and the switch.
unfoldable pub on_tag : Bool → TagKind → Bool → Filled → StreamState → Locked
unfolding stream_switch
on_tag shutting kind ok filled s =
    stream_switch shutting kind ok filled
      (record { stream = record s { pending = dec s.pending }; posted = []; events = [] })

-- What `grpc_r_stream_send` does to the stream that it has found.
unfoldable pub send_locked : Bool → Bytes → StreamState → Locked × Bool
send_locked shutting bytes s =
    let refused : Locked × Bool = (record { stream = s; posted = []; events = [] }, false) in
    let queued : StreamState = record s { write_queue = push_back s.write_queue bytes } in
    if s.broken || s.finish_posted || s.wdone_requested
    then refused
    else if leb s.write_cap (length s.write_queue)
    then refused
    else (
      s_pump_writes_locked shutting (record { stream = queued; posted = []; events = [] }),
      true,
    )

-- What `grpc_r_stream_writes_done` does to the stream that it has found.
unfoldable pub writes_done_locked : Bool → StreamState → Locked × Bool
writes_done_locked shutting s =
    let asked : StreamState = record s { wdone_requested = true } in
    if s.wdone_requested
    then (record { stream = s; posted = []; events = [] }, false)
    else (s_pump_writes_locked shutting (record { stream = asked; posted = []; events = [] }), true)

-- What the poll does to the stream of a message that it takes from `ready`.
unfoldable pub take_unread : Bool → StreamState → Locked
take_unread shutting s =
    let s1 = record s { unread = dec s.unread } in
    let w : Locked = record { stream = s1; posted = []; events = [] } in
    if ltb_ℤ s1.unread s1.read_cap then s_post_read_locked shutting w else w
