-- ===== src/Server/Round.antt =====
-- src/server.cpp: accept slots, and one round of the completion thread's loop in `run`, which holds
-- the mutex.
use rgrpc.Prelude.{
  ℕ, zero, suc, ◌+◌, ◌%◌, ◌^◌, pos, pos_part, ◌+ℤ◌, inc, dec, is_zero, ltb_ℤ, Bool, true, false,
  not, ◌&&◌, List, [], ◌∷◌, ◌==◌, if◌then◌else◌, Option, none, some, count, push_back, find, insert,
  erase, size,
}
use rgrpc.Wake.{wake_signal}
use rgrpc.Server.Types.{Svop, svop_eq, SvTag, SvCall, SvEvent, Server, SvFilled, SvCompletion}
use rgrpc.Server.Call.{CallLocked, on_sv_tag}

-- `new sv_call()`, with the accept tag counted.
abbrev pub new_slot : SvCall
new_slot = record {
  id = 0;
  ctx = record { cancelled = false; trailing = [] };
  stream = [];
  pending = pos 1;
  delivered = false;
  replied = false;
  dead = false;
  read_inflight = false;
  write_inflight = false;
  finish_posted = false;
  write_queue = [];
  write_cap = 16;
  has_final_write = false;
  final_write = [];
  final_status = record { code = pos 0; message = [] };
}

-- The condition of the loop in `post_accepts_locked`.
abbrev pub wants_slot : Server → Bool
wants_slot s =
    not s.shutting
    && ltb_ℤ s.accepts_outstanding s.accept_window
    && ltb_ℤ (pos (size s.active) +ℤ s.accepts_outstanding) s.max_active

-- Its body: a new slot, at a new address.
abbrev pub post_slot : Server → Server
post_slot s = record s {
  heap = insert s.next_address new_slot s.heap;
  next_address = suc s.next_address;
  cq = record { call = s.next_address; kind = Svop.accept } ∷ s.cq;
  accepts_outstanding = inc s.accepts_outstanding;
}

unfoldable pub accepts_loop : ℕ → Server → Server
accepts_loop zero s = s
accepts_loop (suc fuel) s = elim (wants_slot s) [
  | false ↦ s
  | true ↦ accepts_loop fuel (post_slot s)
]

-- Each round of the loop fills one place of the window.
unfoldable pub post_accepts_locked : Server → Server
unfolding accepts_loop
post_accepts_locked s = accepts_loop (pos_part s.accept_window) s

abbrev pub is_sv_tag : ℕ → Svop → SvTag → Bool
is_sv_tag call kind t = t.call == call && svop_eq t.kind kind

-- How many times a tag is outstanding.
abbrev pub sv_outstanding : ℕ → Svop → List SvTag → ℕ
sv_outstanding call kind cq = count (is_sv_tag call kind) cq

-- `Next` takes the tag that it returns off the queue.
unfoldable pub sv_take_tag : ℕ → Svop → List SvTag → List SvTag
sv_take_tag call kind [] = []
sv_take_tag call kind (t ∷ cq) = if is_sv_tag call kind t then cq else t ∷ sv_take_tag call kind cq

unfoldable pub push_sv_events : List SvEvent → Server → Server
push_sv_events [] s = s
push_sv_events (ev ∷ evs) s =
    push_sv_events evs (record s { ready = push_back s.ready ev; wake = wake_signal s.wake })

unfoldable pub post_sv_tags : ℕ → List Svop → List SvTag → List SvTag
post_sv_tags call [] cq = cq
post_sv_tags call (k ∷ ks) cq = record { call = call; kind = k } ∷ post_sv_tags call ks cq

-- The server after a critical section on the call at `address`.
unfoldable pub store_call : ℕ → CallLocked → Server → Server
unfolding push_sv_events post_sv_tags
store_call address w s =
    push_sv_events w.events
      (record s { cq = post_sv_tags address w.posted s.cq; heap = insert address w.call s.heap })

unfoldable pub maybe_free_locked : ℕ → SvCall → Server → Server
maybe_free_locked address c s =
    if is_zero c.pending
    then record s {
      heap = erase address s.heap;
      active = if not (c.id == 0) then erase c.id s.active else s.active;
    }
    else s

-- `--accepts_outstanding`, and the id and the place in `active` of an accepted call.
abbrev pub take_slot : Bool → ℕ → Server → Server
take_slot true address s = record s {
  accepts_outstanding = dec s.accepts_outstanding;
  active = insert s.next_id address s.active;
  next_id = (s.next_id + 1) % 2 ^ 64;
}
take_slot false address s = record s { accepts_outstanding = dec s.accepts_outstanding }

-- One case of the switch, for the call at `address`.
unfoldable pub sv_complete_call : ℕ → Svop → Bool → SvFilled → SvCall → Server → Server
unfolding store_call maybe_free_locked post_accepts_locked
sv_complete_call address Svop.accept ok f c s =
    let w = on_sv_tag s.shutting s.next_id Svop.accept ok f c in
    let stored = store_call address w (take_slot ok address s) in
    if ok then post_accepts_locked stored else maybe_free_locked address w.call stored
sv_complete_call address Svop.read ok f c s =
    let w = on_sv_tag s.shutting s.next_id Svop.read ok f c in
    maybe_free_locked address w.call (store_call address w s)
sv_complete_call address Svop.write ok f c s =
    let w = on_sv_tag s.shutting s.next_id Svop.write ok f c in
    maybe_free_locked address w.call (store_call address w s)
sv_complete_call address Svop.done ok f c s =
    let w = on_sv_tag s.shutting s.next_id Svop.done ok f c in
    post_accepts_locked (maybe_free_locked address w.call (store_call address w s))
sv_complete_call address Svop.finish ok f c s =
    let w = on_sv_tag s.shutting s.next_id Svop.finish ok f c in
    post_accepts_locked (maybe_free_locked address w.call (store_call address w s))

-- `none` is a tag whose call has been deleted.
unfoldable pub sv_complete : SvCompletion → Server → Option Server
unfolding sv_take_tag sv_complete_call
sv_complete e s = elim (find e.tag.call s.heap) [
  | none ↦ none
  | some c ↦ some (
      sv_complete_call e.tag.call e.tag.kind e.ok e.filled c
        (record s { cq = sv_take_tag e.tag.call e.tag.kind s.cq }))
]

-- Several rounds, in the order in which the queue returns the tags.
unfoldable pub sv_complete_all : List SvCompletion → Server → Option Server
unfolding sv_complete
sv_complete_all [] s = some s
sv_complete_all (e ∷ es) s = elim (sv_complete e s) [
  | none ↦ none
  | some s1 ↦ sv_complete_all es s1
]
