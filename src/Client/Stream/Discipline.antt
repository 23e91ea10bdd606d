-- ===== src/Client/Stream/Discipline.antt =====
-- src/client.cpp: the discipline of one stream's flags and counters, under the three helpers.
use rgrpc.Prelude.{ℕ, ◌+◌, pos, Bool, true, false, not, ◌&&◌, ◌≡◌, arith, bit, is_empty}
use rgrpc.Client.Types.{TagKind, StreamState}
use rgrpc.Client.Stream.{Locked, s_post_read_locked, s_pump_writes_locked, s_try_finish_locked}

-- Which tags of a stream its flags say are outstanding.
abbrev pub flagged : StreamState → TagKind → ℕ
flagged s TagKind.start = bit (not s.started)
flagged s TagKind.read = bit s.read_inflight
flagged s TagKind.write = bit s.write_inflight
flagged s TagKind.wdone = bit s.wdone_inflight
flagged s TagKind.finish = bit (s.finish_posted && not s.status_emitted)
flagged s TagKind.unary = 0

abbrev pub flagged_total : StreamState → ℕ
flagged_total s =
    flagged s TagKind.start
    + flagged s TagKind.read
    + flagged s TagKind.write
    + flagged s TagKind.wdone
    + flagged s TagKind.finish

pub record IsSound (s : StreamState) : Type 0 where
  -- `pending` counts the outstanding tags
  pub counted : s.pending ≡ pos (flagged_total s)
  -- nothing but the start is outstanding before the call has started
  pub idle :
      s.started ≡ false
      → (s.read_inflight ≡ false)
        × (s.write_inflight ≡ false)
        × (s.wdone_inflight ≡ false)
        × (s.finish_posted ≡ false)
  -- Finish is posted while no read or write is in flight, and none is posted after it
  pub last :
      s.finish_posted ≡ true
      → (s.read_inflight ≡ false)
        × (s.write_inflight ≡ false)
        × (s.wdone_inflight ≡ false)
        × (s.want_finish ≡ true)
  pub emitted : s.status_emitted ≡ true → s.finish_posted ≡ true
  -- `front` and `pop_front` are called on a queue that holds a message
  pub nonempty : s.write_inflight ≡ true → is_empty s.write_queue ≡ false
  -- WritesDone goes out behind the last message, and no message behind it
  pub half_closing :
      s.wdone_inflight ≡ true
      → (s.write_inflight ≡ false) × (is_empty s.write_queue ≡ true) × (s.wdone_requested ≡ true)
  pub half_closed :
      s.wdone_sent ≡ true → (is_empty s.write_queue ≡ true) × (s.wdone_requested ≡ true)
  -- a stream that is over on one side waits for its status
  pub broken_ends : s.broken ≡ true → s.want_finish ≡ true
  pub closed_ends : s.reads_closed ≡ true → s.want_finish ≡ true

pub s_post_read_locked-IsSound :
    (shutting : Bool) (w : Locked)
    → IsSound w.stream
    → IsSound (s_post_read_locked shutting w).stream
unfolding s_post_read_locked
s_post_read_locked-IsSound shutting w v = ground arith

pub s_pump_writes_locked-IsSound :
    (shutting : Bool) (w : Locked)
    → IsSound w.stream
    → IsSound (s_pump_writes_locked shutting w).stream
unfolding s_pump_writes_locked
s_pump_writes_locked-IsSound shutting w v = ground arith

pub s_try_finish_locked-IsSound :
    (shutting : Bool) (w : Locked)
    → IsSound w.stream
    → IsSound (s_try_finish_locked shutting w).stream
unfolding s_try_finish_locked
s_try_finish_locked-IsSound shutting w v = ground arith
