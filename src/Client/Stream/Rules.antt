-- ===== src/Client/Stream/Rules.antt =====
-- src/client.cpp: a rule for each handler of the completion thread. A property that the three
-- helpers keep holds after a handler if it holds where the handler calls the first of them.
use rgrpc.Prelude.{
  if_rule, Bool, true, false, not, ◌&&◌, ◌≡◌, arith, inc, ltb_ℤ, is_empty, pop_front,
}
use rgrpc.Client.Types.{EvKind, Filled}
use rgrpc.Client.Stream.{
  Locked, blank_event, bytes_event, emit, with_stream, s_post_read_locked, s_pump_writes_locked,
  s_try_finish_locked, on_start, on_message, on_read, on_written, on_write, on_wdone,
}

module _ (P : Locked → Type 0) (shutting : Bool)
    (reads : (w : Locked)
      → ltb_ℤ w.stream.unread w.stream.read_cap ≡ true
      → P w
      → P (s_post_read_locked shutting w))
    (pumps : (w : Locked) → P w → P (s_pump_writes_locked shutting w))
    (finishes : (w : Locked) → P w → P (s_try_finish_locked shutting w)) where
  pub on_start_rule :
      (ok : Bool) (w : Locked)
      → P (s_post_read_locked shutting (with_stream (record w.stream { started = true }) w))
      → P (with_stream (record w.stream { broken = true; started = true; want_finish = true }) w)
      → P (on_start shutting ok w)
  unfolding on_start
  on_start_rule true w h k = finishes _ (pumps _ h)
  on_start_rule false w h k = finishes _ k

  on_message_rule :
      (filled : Filled) (w : Locked)
      → P (
          emit
            (bytes_event EvKind.smsg w.stream.id filled)
            (record w.stream { unread = inc w.stream.unread })
            w)
      → P (on_message shutting filled w)
  unfolding on_message
  on_message_rule filled w h =
      if_rule P (ltb_ℤ (inc w.stream.unread) w.stream.read_cap) (λ e. reads _ e h) (λ _. h)

  pub on_read_rule :
      (ok : Bool) (filled : Filled) (w : Locked)
      → (w.stream.broken ≡ false
          → P (
              emit
                (bytes_event EvKind.smsg w.stream.id filled)
                (record w.stream { read_inflight = false; unread = inc w.stream.unread })
                w))
      → P (
          with_stream
            (record w.stream { read_inflight = false; reads_closed = true; want_finish = true })
            w)
      → P (on_read shutting ok filled w)
  unfolding on_read
  on_read_rule ok filled w h k = finishes _ (
      if_rule P (ok && not w.stream.broken) (λ e. on_message_rule filled _ (h (ground arith)))
        (λ _. k))

  on_written_rule :
      (w : Locked)
      → (is_empty (pop_front w.stream.write_queue) ≡ true
          → P (
              emit
                (blank_event EvKind.writable w.stream.id)
                (record w.stream { write_queue = pop_front w.stream.write_queue })
                w))
      → (is_empty (pop_front w.stream.write_queue) ≡ false
          → P (with_stream (record w.stream { write_queue = pop_front w.stream.write_queue }) w))
      → P (on_written shutting w)
  unfolding on_written
  on_written_rule w h k = pumps _ (if_rule P (is_empty (pop_front w.stream.write_queue)) h k)

  pub on_write_rule :
      (ok : Bool) (w : Locked)
      → (w.stream.broken ≡ false
          → is_empty (pop_front w.stream.write_queue) ≡ true
          → P (
              emit
                (blank_event EvKind.writable w.stream.id)
                (record w.stream {
                  write_inflight = false;
                  write_queue = pop_front w.stream.write_queue;
                })
                w))
      → (w.stream.broken ≡ false
          → is_empty (pop_front w.stream.write_queue) ≡ false
          → P (
              with_stream
                (record w.stream {
                  write_inflight = false;
                  write_queue = pop_front w.stream.write_queue;
                })
                w))
      → P (
          with_stream
            (record w.stream { write_inflight = false; broken = true; want_finish = true })
            w)
      → P (on_write shutting ok w)
  unfolding on_write
  on_write_rule ok w h k b = finishes _ (
      if_rule P (ok && not w.stream.broken)
        (λ e. on_written_rule _ (h (ground arith)) (k (ground arith))) (λ _. b))

  pub on_wdone_rule :
      (ok : Bool) (w : Locked)
      → P (with_stream (record w.stream { wdone_inflight = false; wdone_sent = true }) w)
      → P (
          with_stream
            (record w.stream {
              wdone_inflight = false;
              wdone_sent = true;
              broken = true;
              want_finish = true;
            })
            w)
      → P (on_wdone shutting ok w)
  unfolding on_wdone
  on_wdone_rule ok w h k = finishes _ (if_rule P (not ok) (λ _. k) (λ _. h))
