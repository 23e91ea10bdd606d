-- ===== src/Client/Stream/Progress.antt =====
-- src/client.cpp: which operations a stream may start, and whether they have been started.
use rgrpc.Convert.{Bytes}
use rgrpc.Prelude.{
  if_rule, ◌≡◌, ◌⊎◌, ◌<◌, [], inr, refl, Bool, true, false, not, ◌&&◌, ◌||◌, arith, inc, dec, ltb_ℤ,
  leb, length, is_empty, pop_front, push_back, is_empty-push_back,
}
use rgrpc.Client.Types.{StreamState, Filled, TagKind}
use rgrpc.Client.Stream.{
  Locked, with_stream, s_post_read_locked, s_pump_writes_locked, s_try_finish_locked, on_start,
  on_message, on_read, on_written, on_write, on_wdone, on_finish, on_tag, send_locked,
  writes_done_locked, take_unread,
}
use rgrpc.Client.Stream.Discipline.{flagged, IsSound}
use rgrpc.Client.Stream.Handlers.{taken}

-- A read is in flight unless the backlog is at the cap or no more may come.
abbrev Reads : StreamState → Type 0
Reads s =
    s.started ≡ true
    → s.reads_closed ≡ false
    → s.broken ≡ false
    → s.finish_posted ≡ false
    → ltb_ℤ s.unread s.read_cap ≡ true
    → s.read_inflight ≡ true

-- A queued message is on its way, and so is a half-close once the queue is empty.
abbrev Writes : StreamState → Type 0
Writes s =
    s.started ≡ true
    → s.broken ≡ false
    → s.finish_posted ≡ false
    → ((is_empty s.write_queue ≡ false → s.write_inflight ≡ true)
        × (is_empty s.write_queue ≡ true
            → s.wdone_requested ≡ true
            → (s.wdone_inflight ≡ true) ⊎ (s.wdone_sent ≡ true)))

-- Finish is posted once it is wanted and nothing is in flight.
abbrev Finishes : StreamState → Type 0
Finishes s =
    s.started ≡ true
    → s.want_finish ≡ true
    → s.read_inflight ≡ false
    → s.write_inflight ≡ false
    → s.wdone_inflight ≡ false
    → s.finish_posted ≡ true

pub record IsLive (s : StreamState) : Type 0 where
  pub reads : Reads s
  pub writes : Writes s
  pub finishes : Finishes s

-- What the last helper asks of the stream before it.
abbrev Transfers : Locked → Type 0
Transfers w = Reads w.stream × Writes w.stream

module _ (w : Locked) where
  post_read-Reads : Reads (s_post_read_locked false w).stream
  unfolding s_post_read_locked
  post_read-Reads = ground arith

  post_read-Writes : Writes w.stream → Writes (s_post_read_locked false w).stream
  unfolding s_post_read_locked
  post_read-Writes h = ground arith

  post_read-Finishes : Finishes w.stream → Finishes (s_post_read_locked false w).stream
  unfolding s_post_read_locked
  post_read-Finishes h = ground arith

  post_read-front :
      (w.stream.write_inflight ≡ true → is_empty w.stream.write_queue ≡ false)
      → (s_post_read_locked false w).stream.write_inflight ≡ true
      → is_empty (s_post_read_locked false w).stream.write_queue ≡ false
  unfolding s_post_read_locked
  post_read-front h = ground arith

  pump-Reads : Reads w.stream → Reads (s_pump_writes_locked false w).stream
  unfolding s_pump_writes_locked
  pump-Reads h = ground arith

  pump-Finishes : Finishes w.stream → Finishes (s_pump_writes_locked false w).stream
  unfolding s_pump_writes_locked
  pump-Finishes h = ground arith

  pump-Writes :
      (w.stream.write_inflight ≡ true → is_empty w.stream.write_queue ≡ false)
      → Writes (s_pump_writes_locked false w).stream
  unfolding s_pump_writes_locked
  pump-Writes h = ground arith

  pumped-IsLive :
      (w.stream.write_inflight ≡ true → is_empty w.stream.write_queue ≡ false)
      → Reads w.stream
      → Finishes w.stream
      → IsLive (s_pump_writes_locked false w).stream
  pumped-IsLive front r f = record {
    reads = pump-Reads r;
    writes = pump-Writes front;
    finishes = pump-Finishes f;
  }

  try_finish-IsLive : Transfers w → IsLive (s_try_finish_locked false w).stream
  unfolding s_try_finish_locked
  try_finish-IsLive h = ground arith

module _ (ok : Bool) (filled : Filled) (s : StreamState) (v : IsSound s) (l : IsLive s) where
  on_start-IsLive : s.started ≡ false → IsLive (on_start false ok (taken s)).stream
  unfolding on_start
  on_start-IsLive e = started ok
    where
      begun : Locked
      begun = with_stream (record (taken s).stream { started = true }) (taken s)

      started : (ok : Bool) → IsLive (on_start false ok (taken s)).stream
      started true = try_finish-IsLive _ (
        pump-Reads _ (post_read-Reads begun),
        pump-Writes _ (post_read-front begun (ground (arith, v.nonempty))),
      )
      started false = try_finish-IsLive _ (ground arith)

  on_message-Transfers : Transfers (
      on_message false filled
        (with_stream (record (taken s).stream { read_inflight = false }) (taken s)))
  unfolding on_message
  on_message-Transfers =
      if_rule Transfers (ltb_ℤ (inc s.unread) s.read_cap)
        (λ _. (post_read-Reads _, post_read-Writes _ l.writes))
        (λ full. ((λ _ _ _ _ room. cc), l.writes))

  on_read-IsLive : IsLive (on_read false ok filled (taken s)).stream
  unfolding on_read
  on_read-IsLive = try_finish-IsLive _ (
      if_rule Transfers (ok && not s.broken) (λ _. on_message-Transfers)
        (λ _. ((λ _ closed _ _ _. cc), l.writes)))

  on_written-Transfers : Transfers (
      on_written false (with_stream (record (taken s).stream { write_inflight = false }) (taken s)))
  unfolding on_written
  on_written-Transfers =
      if_rule (λ w. Transfers (s_pump_writes_locked false w)) (is_empty (pop_front s.write_queue))
        (λ _. (pump-Reads _ l.reads, pump-Writes _ (λ h. cc)))
        (λ _. (pump-Reads _ l.reads, pump-Writes _ (λ h. cc)))

  on_write-IsLive : IsLive (on_write false ok (taken s)).stream
  unfolding on_write
  on_write-IsLive = try_finish-IsLive _ (
      if_rule Transfers (ok && not s.broken) (λ _. on_written-Transfers)
        (λ _. ((λ _ _ b _ _. cc), (λ _ b _. cc))))

  on_wdone-IsLive : IsLive (on_wdone false ok (taken s)).stream
  unfolding on_wdone
  on_wdone-IsLive = try_finish-IsLive _ (
      if_rule Transfers (not ok) (λ _. ((λ _ _ b _ _. cc), (λ _ b _. cc)))
        (λ _. (l.reads, λ a b c. ((l.writes a b c).0, λ _ _. inr refl))))

  on_finish-IsLive : s.finish_posted ≡ true → IsLive (on_finish filled (taken s)).stream
  unfolding on_finish
  on_finish-IsLive e = record { reads = l.reads; writes = l.writes; finishes = l.finishes }

  pub on_tag-IsLive :
      (kind : TagKind) → 0 < flagged s kind → IsLive (on_tag false kind ok filled s).stream
  unfolding on_tag
  on_tag-IsLive TagKind.start h = on_start-IsLive (ground arith)
  on_tag-IsLive TagKind.read h = on_read-IsLive
  on_tag-IsLive TagKind.write h = on_write-IsLive
  on_tag-IsLive TagKind.wdone h = on_wdone-IsLive
  on_tag-IsLive TagKind.finish h = on_finish-IsLive (ground arith)
  on_tag-IsLive TagKind.unary h = elim h [ ]

module _ (s : StreamState) (v : IsSound s) (l : IsLive s) where
  pub send_locked-IsLive : (bytes : Bytes) → IsLive (send_locked false bytes s).0.stream
  unfolding send_locked
  send_locked-IsLive bytes =
      if_rule (λ (r : Locked × Bool). IsLive r.0.stream)
        (s.broken || s.finish_posted || s.wdone_requested) (λ _. l)
        (λ may.
          if_rule (λ (r : Locked × Bool). IsLive r.0.stream)
            (leb s.write_cap (length s.write_queue)) (λ _. l)
            (λ room.
              pumped-IsLive (queued bytes) (λ w. is_empty-push_back s.write_queue bytes)
                (λ a b c d e. l.reads a b c d e) l.finishes))
    where
      queued : Bytes → Locked
      queued bytes = record {
        stream = record s { write_queue = push_back s.write_queue bytes };
        posted = [];
        events = [];
      }

  pub writes_done_locked-IsLive : IsLive (writes_done_locked false s).0.stream
  unfolding writes_done_locked
  writes_done_locked-IsLive =
      if_rule (λ (r : Locked × Bool). IsLive r.0.stream) s.wdone_requested (λ _. l)
        (λ _. pumped-IsLive asked v.nonempty (λ a b c d e. l.reads a b c d e) l.finishes)
    where
      asked : Locked
      asked = record { stream = record s { wdone_requested = true }; posted = []; events = [] }

module _ (s : StreamState) (l : IsLive s) where
  pub take_unread-IsLive : IsLive (take_unread false s).stream
  unfolding take_unread
  take_unread-IsLive =
      if_rule (λ (w : Locked). IsLive w.stream) (ltb_ℤ (dec s.unread) s.read_cap)
        (λ _. record {
          reads = post_read-Reads _;
          writes = post_read-Writes _ l.writes;
          finishes = post_read-Finishes _ l.finishes;
        })
        (λ full. record { reads = λ _ _ _ _ room. cc; writes = l.writes; finishes = l.finishes })
