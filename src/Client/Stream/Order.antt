-- ===== src/Client/Stream/Order.antt =====
-- src/client.cpp: the order of a stream's messages.
use rgrpc.Convert.{Bytes}
use rgrpc.Prelude.{
  if_rule, ◌≡◌, ◌<◌, refl, sym, ◌∙◌, ap, Bool, true, false, not, ◌&&◌, ◌||◌, List, [], ◌∷◌, ◌++◌,
  arith, if◌then◌else◌, ltb_ℤ, leb, length, is_empty, pop_front, front, push_back, append-nil,
  append_assoc, inc, dec,
}
use rgrpc.Client.Types.{TagKind, RwOp, StreamState, Filled}
use rgrpc.Client.Stream.{
  Locked, s_post_read_locked, s_pump_writes_locked, s_try_finish_locked, on_tag, on_finish,
  with_stream, send_locked, writes_done_locked, take_unread,
}
use rgrpc.Client.Stream.Rules.{on_start_rule, on_read_rule, on_write_rule, on_wdone_rule}
use rgrpc.Client.Stream.Discipline.{flagged}
use rgrpc.Client.Stream.Handlers.{taken}

-- The messages handed to `Write`, oldest first.
abbrev pub written : List RwOp → List Bytes
written [] = []
written (RwOp.write b ∷ ops) = b ∷ written ops
written (RwOp.start_call ∷ ops) = written ops
written (RwOp.read ∷ ops) = written ops
written (RwOp.writes_done ∷ ops) = written ops
written (RwOp.finish ∷ ops) = written ops

written-append : (xs ys : List RwOp) → written (xs ++ ys) ≡ written xs ++ written ys
written-append [] ys = refl
written-append (RwOp.write b ∷ xs) ys = ap (◌∷◌ b) (written-append xs ys)
written-append (RwOp.start_call ∷ xs) ys = written-append xs ys
written-append (RwOp.read ∷ xs) ys = written-append xs ys
written-append (RwOp.writes_done ∷ xs) ys = written-append xs ys
written-append (RwOp.finish ∷ xs) ys = written-append xs ys

-- The messages in the queue that have not been handed over.
abbrev pub unsent : StreamState → List Bytes
unsent s = if s.write_inflight then pop_front s.write_queue else s.write_queue

-- Of the messages accepted, those written and those that wait; after a failure, some that never go.
abbrev pub InOrder : List Bytes → StreamState → Type 0
InOrder accepted s =
    (rest : List Bytes) × (accepted ≡ written s.rw ++ rest) × (s.broken ≡ false → rest ≡ unsent s)

module _ {accepted : List Bytes} (shutting : Bool) (w : Locked)
    (h : InOrder accepted w.stream) where
  post_read-InOrder : InOrder accepted (s_post_read_locked shutting w).stream
  unfolding s_post_read_locked
  post_read-InOrder = (
    h.0,
    ground (arith, written-append w.stream.rw (RwOp.read ∷ []), append-nil (written w.stream.rw)),
    ground arith,
  )

  try_finish-InOrder : InOrder accepted (s_try_finish_locked shutting w).stream
  unfolding s_try_finish_locked
  try_finish-InOrder = (
    h.0,
    ground (arith, written-append w.stream.rw (RwOp.finish ∷ []), append-nil (written w.stream.rw)),
    ground arith,
  )

front_of : (q : List Bytes) → is_empty q ≡ false → q ≡ front [] q ∷ pop_front q
front_of [] e = cc
front_of (b ∷ q) e = refl

unsent-push_back :
    (inflight : Bool) (q : List Bytes) (b : Bytes)
    → (inflight ≡ true → is_empty q ≡ false)
    → push_back (if inflight then pop_front q else q) b
      ≡ (if inflight then pop_front (push_back q b) else push_back q b)
unsent-push_back true [] b h = let e = h refl in cc
unsent-push_back true (x ∷ q) b h = refl
unsent-push_back false q b h = refl

-- The front of the queue is handed over.
write-InOrder :
    {accepted : List Bytes} (s : StreamState)
    → s.broken ≡ false
    → s.write_inflight ≡ false
    → is_empty s.write_queue ≡ false
    → InOrder accepted s
    → InOrder accepted (record s {
      write_inflight = true;
      pending = inc s.pending;
      rw = push_back s.rw (RwOp.write (front [] s.write_queue));
    })
write-InOrder s b idle some_left (rest, e, same) = (
  pop_front s.write_queue,
  e
      ∙ ap (◌++◌ (written s.rw)) (same b ∙ ground arith ∙ front_of s.write_queue some_left)
      ∙ sym (append_assoc (written s.rw) (front [] s.write_queue ∷ []) (pop_front s.write_queue))
      ∙ ap (λ l. l ++ pop_front s.write_queue)
          (sym (written-append s.rw (RwOp.write (front [] s.write_queue) ∷ []))),
  λ _. refl,
)

writes_done-InOrder :
    {accepted : List Bytes} (s : StreamState)
    → InOrder accepted s
    → InOrder accepted (record s {
      wdone_inflight = true;
      pending = inc s.pending;
      rw = push_back s.rw RwOp.writes_done;
    })
writes_done-InOrder s (rest, e, same) = (
  rest,
  ground (arith, written-append s.rw (RwOp.writes_done ∷ []), append-nil (written s.rw)),
  same,
)

module _ {accepted : List Bytes} (shutting : Bool) (w : Locked)
    (h : InOrder accepted w.stream) where
  pump-InOrder : InOrder accepted (s_pump_writes_locked shutting w).stream
  unfolding s_pump_writes_locked
  pump-InOrder =
      let s = w.stream in
      let P : Locked → Type 0 = λ u. InOrder accepted u.stream in
      if_rule P (shutting || not s.started || s.broken || s.finish_posted) (λ _. h)
        (λ may.
          if_rule P (not s.write_inflight && not (is_empty s.write_queue))
            (λ go.
              write-InOrder s (ground (arith, may)) (ground (arith, go)) (ground (arith, go)) h)
            (λ stay.
              if_rule P
                (not s.write_inflight
                  && is_empty s.write_queue
                  && s.wdone_requested
                  && not s.wdone_sent
                  && not s.wdone_inflight)
                (λ _. writes_done-InOrder s h) (λ _. h)))

-- The tag that comes back leaves the messages in order.
module _ {accepted : List Bytes} (shutting ok : Bool) (filled : Filled) (s : StreamState)
    (h : InOrder accepted s) where
  abbrev Keeps : Locked → Type 0
  Keeps w = InOrder accepted w.stream

  abbrev reads :
      (w : Locked)
      → ltb_ℤ w.stream.unread w.stream.read_cap ≡ true
      → Keeps w
      → Keeps (s_post_read_locked shutting w)
  reads w _ k = post_read-InOrder shutting w k

  pub on_tag-InOrder :
      (kind : TagKind)
      → 0 < flagged s kind
      → InOrder accepted (on_tag shutting kind ok filled s).stream
  unfolding on_tag on_finish
  on_tag-InOrder TagKind.start out =
      on_start_rule Keeps shutting reads (pump-InOrder shutting) (try_finish-InOrder shutting) ok
        (taken s)
        (post_read-InOrder shutting
          (with_stream (record (taken s).stream { started = true }) (taken s)) h)
        (h.0, h.1, λ b. cc)
  on_tag-InOrder TagKind.read out =
      on_read_rule Keeps shutting reads (pump-InOrder shutting) (try_finish-InOrder shutting) ok
        filled (taken s) (λ _. h) h
  on_tag-InOrder TagKind.write out =
      on_write_rule Keeps shutting reads (pump-InOrder shutting) (try_finish-InOrder shutting) ok
        (taken s) (λ _ _. popped) (λ _ _. popped) (h.0, h.1, λ b. cc)
    where
      popped : InOrder accepted (record s {
        pending = dec s.pending;
        write_inflight = false;
        write_queue = pop_front s.write_queue;
      })
      popped = (h.0, h.1, λ b. h.2 b ∙ ground arith)
  on_tag-InOrder TagKind.wdone out =
      on_wdone_rule Keeps shutting reads (pump-InOrder shutting) (try_finish-InOrder shutting) ok
        (taken s) h (h.0, h.1, λ b. cc)
  on_tag-InOrder TagKind.finish out = h
  on_tag-InOrder TagKind.unary out = h

module _ {accepted : List Bytes} (shutting : Bool) (s : StreamState) (h : InOrder accepted s) where
  pub writes_done_locked-InOrder : InOrder accepted (writes_done_locked shutting s).0.stream
  unfolding writes_done_locked
  writes_done_locked-InOrder =
      if_rule (λ (r : Locked × Bool). InOrder accepted r.0.stream) s.wdone_requested (λ _. h)
        (λ _. pump-InOrder shutting _ h)

  pub take_unread-InOrder : InOrder accepted (take_unread shutting s).stream
  unfolding take_unread
  take_unread-InOrder =
      if_rule (λ (w : Locked). InOrder accepted w.stream) (ltb_ℤ (dec s.unread) s.read_cap)
        (λ _. post_read-InOrder shutting _ h) (λ _. h)

  queued-InOrder :
      (bytes : Bytes)
      → s.broken ≡ false
      → (s.write_inflight ≡ true → is_empty s.write_queue ≡ false)
      → InOrder
          (push_back accepted bytes)
          (record s { write_queue = push_back s.write_queue bytes })
  queued-InOrder bytes b held =
      let (rest, e, same) = h in
      (
        push_back rest bytes,
        ap (λ l. push_back l bytes) e ∙ append_assoc (written s.rw) rest (bytes ∷ []),
        λ _.
            ap (λ l. push_back l bytes) (same b)
            ∙ unsent-push_back s.write_inflight s.write_queue bytes held,
      )

  -- A message counts as accepted exactly if the call answers TRUE.
  pub send_locked-InOrder :
      (bytes : Bytes)
      → (s.write_inflight ≡ true → is_empty s.write_queue ≡ false)
      → let (w, taken_in) = send_locked shutting bytes s in
        InOrder (if taken_in then push_back accepted bytes else accepted) w.stream
  unfolding send_locked
  send_locked-InOrder bytes held =
      let P : Locked × Bool → Type 0 =
        λ r. InOrder (if r.1 then push_back accepted bytes else accepted) r.0.stream in
      if_rule P (s.broken || s.finish_posted || s.wdone_requested) (λ _. h)
        (λ may.
          if_rule P (leb s.write_cap (length s.write_queue)) (λ _. h)
            (λ room. pump-InOrder shutting _ (queued-InOrder bytes (ground (arith, may)) held)))
