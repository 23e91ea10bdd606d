-- ===== src/Server/Call.antt =====
-- src/server.cpp: what happens to one call while the mutex is held.
-- The functions take `shutting` and a call with what the critical section has done so far; the caller
-- puts the tags posted on the completion queue, and the events at the end of `ready`.
use rgrpc.Convert.{Bytes, MdPairs, grpc_byte_buffer_to_string}
use rgrpc.Prelude.{
  ℕ, ℤ, pos, negsuc, inc, dec, is_zero, ltb_ℤ, Bool, true, false, not, ◌&&◌, ◌||◌, List, [], ◌∷◌,
  ◌++◌, if◌then◌else◌, Option, none, some, is_empty, pop_front, front, push_back, leb, length,
}
use rgrpc.Server.Types.{
  Svop, SvStatus, SvStreamOp, SvCall, SvEventType, SvEvent, SvFilled, ServerContext,
}

pub record CallLocked : Type 0 where
  pub call : SvCall
  pub posted : List Svop
  pub events : List SvEvent

-- A critical section begins.
abbrev pub enter : SvCall → CallLocked
enter c = record { call = c; posted = []; events = [] }

-- `sv_event ev; ev.type = kind; ev.id = id;`
abbrev pub blank_sv_event : SvEventType → ℕ → SvEvent
blank_sv_event kind id = record {
  kind = kind;
  id = id;
  method = [];
  request = [];
  metadata = [];
  deadline_ms = negsuc 0;
  peer = [];
  identity = [];
}

-- `ms > 0 && ms < 31536000000LL ? ms : -1`
abbrev pub deadline_of : ℤ → ℤ
deadline_of ms = if ltb_ℤ (pos 0) ms && ltb_ℤ ms (pos 31536000000) then ms else negsuc 0

-- The event of the first message.
abbrev pub request_event : ℕ → SvFilled → SvEvent
request_event id f = record (blank_sv_event SvEventType.request id) {
  request = (grpc_byte_buffer_to_string f.request []).1;
  method = f.method;
  metadata = f.client_metadata;
  deadline_ms = deadline_of f.ms;
  peer = f.peer;
  identity = elim f.identity [ none ↦ [] | some ids ↦ ids ];
}

-- The event of a later message.
abbrev pub message_event : ℕ → SvFilled → SvEvent
message_event id f = record (blank_sv_event SvEventType.stream_msg id) {
  request = (grpc_byte_buffer_to_string f.request []).1;
}

-- `++c->pending` and a call on `stream`, which puts the tag on the queue.
abbrev pub post_op : Svop → SvStreamOp → SvCall → CallLocked → CallLocked
post_op kind op c w = record w {
  call = record c { pending = inc c.pending; stream = push_back c.stream op };
  posted = kind ∷ w.posted;
}

-- `push_event_locked`, after which the call is `c`.
abbrev pub emit_sv : SvEvent → SvCall → CallLocked → CallLocked
emit_sv ev c w = record w { call = c; events = push_back w.events ev }

abbrev pub with_call : SvCall → CallLocked → CallLocked
with_call c w = record w { call = c }

-- The terminal operation of a call.
abbrev pub terminal_of : SvCall → SvStreamOp
terminal_of c =
    if c.has_final_write
    then SvStreamOp.write_and_finish c.final_write c.final_status
    else SvStreamOp.finish c.final_status

unfoldable pub pump_locked : Bool → CallLocked → CallLocked
pump_locked shutting w =
    let c = w.call in
    if shutting || c.dead || c.finish_posted
    then w
    else if c.write_inflight
    then w
    else if not (is_empty c.write_queue)
    then post_op Svop.write (SvStreamOp.write (front [] c.write_queue))
        (record c { write_inflight = true }) w
    else if c.replied
    then post_op Svop.finish (terminal_of c) (record c { finish_posted = true }) w
    else w

-- The slot that RequestCall has filled becomes the call `id`. Its done tag comes back when the call is
-- over, so it is outstanding from here on.
unfoldable pub on_accepted : Bool → ℕ → CallLocked → CallLocked
on_accepted shutting id w =
    let c = record w.call { id = id; pending = inc w.call.pending } in
    let started = record w { call = c; posted = Svop.done ∷ w.posted } in
    if shutting
    then with_call (record c { dead = true }) started
    else post_op Svop.read SvStreamOp.read (record c { read_inflight = true }) started

-- svop::read of a message, after `read_inflight = false`.
unfoldable pub on_request : SvFilled → CallLocked → CallLocked
on_request filled w =
    let c = w.call in
    if not c.delivered
    then emit_sv (request_event c.id filled) (record c { delivered = true }) w
    else emit_sv (message_event c.id filled) c w

unfoldable pub on_sv_read : Bool → SvFilled → CallLocked → CallLocked
on_sv_read ok filled w =
    let c = record w.call { read_inflight = false } in
    if ok && not c.dead
    then on_request filled (with_call c w)
    else if c.delivered && not c.dead
    then emit_sv (blank_sv_event SvEventType.client_done c.id) c w
    else with_call (record c { dead = true }) w

-- svop::write of a message that went out, after `write_inflight = false`.
unfoldable pub on_sv_written : Bool → CallLocked → CallLocked
on_sv_written shutting w =
    let c = record w.call { write_queue = pop_front w.call.write_queue } in
    pump_locked shutting (
      if is_empty c.write_queue && not c.replied
      then emit_sv (blank_sv_event SvEventType.stream_writable c.id) c w
      else with_call c w)

unfoldable pub on_sv_write : Bool → Bool → CallLocked → CallLocked
on_sv_write shutting ok w =
    let c = record w.call { write_inflight = false } in
    if ok && not c.dead
    then on_sv_written shutting (with_call c w)
    else with_call (record c { dead = true }) w

unfoldable pub on_done : CallLocked → CallLocked
on_done w =
    let c = w.call in
    if c.delivered && not c.replied
    then emit_sv (blank_sv_event SvEventType.cancelled c.id) (record c { dead = true }) w
    else w

-- `--c->pending` and the cases of the switch, up to the calls on the server. `id` is the id that an
-- accepted call draws.
unfoldable pub on_sv_tag : Bool → ℕ → Svop → Bool → SvFilled → SvCall → CallLocked
on_sv_tag shutting id kind ok filled c =
    let w = enter (record c { pending = dec c.pending }) in
    elim kind [
      | Svop.accept ↦ if ok then on_accepted shutting id w else w
      | Svop.read ↦ on_sv_read ok filled w
      | Svop.write ↦ on_sv_write shutting ok w
      | Svop.done ↦ on_done w
      | Svop.finish ↦ w
    ]

abbrev pub add_trailing : Option MdPairs → ServerContext → ServerContext
add_trailing none ctx = ctx
add_trailing (some md) ctx = record ctx { trailing = ctx.trailing ++ md }

abbrev pub status_of : ℤ → Bytes → SvStatus
status_of code message =
    if is_zero code
    then record { code = pos 0; message = [] }
    else record { code = code; message = message }

-- What `grpc_r_server2_reply` does to the call that it has found.
unfoldable pub reply_locked : Bool → Bytes → ℤ → Bytes → Option MdPairs → SvCall → CallLocked × Bool
reply_locked shutting response code message metadata c =
    let ctx = add_trailing metadata c.ctx in
    let answered : SvCall = record c {
      replied = true;
      ctx = ctx;
      has_final_write = is_zero code;
      final_write = if is_zero code then response else c.final_write;
      final_status = status_of code message;
    } in
    if not c.delivered || c.replied || c.dead
    then (enter c, false)
    else (pump_locked shutting (enter answered), true)

-- What `grpc_r_server2_read` does to the call that it has found.
unfoldable pub read_locked : SvCall → CallLocked × Bool
read_locked c =
    if not c.delivered || c.dead || c.read_inflight || c.finish_posted
    then (enter c, false)
    else (post_op Svop.read SvStreamOp.read (record c { read_inflight = true }) (enter c), true)

-- What `grpc_r_server2_cancel` does to the call that it has found.
unfoldable pub try_cancel_locked : SvCall → CallLocked × Bool
try_cancel_locked c =
    if c.dead
    then (enter c, false)
    else (enter (record c { ctx = record c.ctx { cancelled = true } }), true)

-- What `grpc_r_server2_send` does to the call that it has found.
unfoldable pub sv_send_locked : Bool → Bytes → SvCall → CallLocked × Bool
sv_send_locked shutting bytes c =
    let queued : SvCall = record c { write_queue = push_back c.write_queue bytes } in
    if not c.delivered || c.dead || c.replied
    then (enter c, false)
    else if leb c.write_cap (length c.write_queue)
    then (enter c, false)
    else (pump_locked shutting (enter queued), true)

-- The queue after an abortive finish: a message that is in flight stays at the front.
abbrev pub discard_queue : Bool → List Bytes → List Bytes
discard_queue true [] = []
discard_queue true (b ∷ queue) = b ∷ []
discard_queue false queue = []

-- What `grpc_r_server2_finish` does to the call that it has found.
unfoldable pub finish_locked : Bool → ℤ → Bytes → Option MdPairs → Bool → SvCall → CallLocked × Bool
finish_locked shutting code message metadata drain c =
    let ctx = add_trailing metadata c.ctx in
    let ended : SvCall = record c {
      replied = true;
      write_queue = if drain then c.write_queue else discard_queue c.write_inflight c.write_queue;
      ctx = ctx;
      has_final_write = false;
      final_status = status_of code message;
    } in
    if not c.delivered || c.replied || c.dead
    then (enter c, false)
    else (pump_locked shutting (enter ended), true)
