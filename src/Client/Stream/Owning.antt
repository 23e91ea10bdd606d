-- ===== src/Client/Stream/Owning.antt =====
-- src/client.cpp: every event of a critical section on a stream is of that stream.
use rgrpc.Prelude.{ℕ, ◌≡◌, refl, Bool, true, false, not, ◌&&◌, [], arith, if_rule}
use rgrpc.Client.Types.{TagKind, StreamState, Filled}
use rgrpc.Client.Stream.{
  Locked, on_tag, on_start, on_read, on_message, on_write, on_written, on_wdone, on_finish,
  stream_switch, s_post_read_locked, s_pump_writes_locked, s_try_finish_locked,
}
use rgrpc.Client.Stream.Tracking.{IsOwned}

-- The stream of a critical section, and its events.
abbrev Own : ℕ → Locked → Type 0
Own i w = (w.stream.id ≡ i) × IsOwned i w.events

module _ (i : ℕ) (shutting : Bool) where
  post_read-Own : (w : Locked) → Own i w → Own i (s_post_read_locked shutting w)
  unfolding s_post_read_locked
  post_read-Own w h = ground (arith, h)

  pump-Own : (w : Locked) → Own i w → Own i (s_pump_writes_locked shutting w)
  unfolding s_pump_writes_locked
  pump-Own w h = ground (arith, h)

  try_finish-Own : (w : Locked) → Own i w → Own i (s_try_finish_locked shutting w)
  unfolding s_try_finish_locked
  try_finish-Own w h = ground (arith, h)

module _ (i : ℕ) (shutting : Bool) (w : Locked) (named : w.stream.id ≡ i)
    (none_yet : w.events ≡ []) where
  message-Own : (f : Filled) → Own i (on_message shutting f w)
  unfolding on_message s_post_read_locked
  message-Own f = ground (arith, named, none_yet)

  written-Own : Own i (on_written shutting w)
  unfolding on_written s_pump_writes_locked
  written-Own = ground (arith, named, none_yet)

pub on_tag-IsOwned :
    (k : TagKind) (shutting ok : Bool) (f : Filled) (s : StreamState)
    → IsOwned s.id (on_tag shutting k ok f s).events
unfolding on_tag stream_switch on_start on_read on_write on_wdone on_finish
on_tag-IsOwned TagKind.unary shutting ok f s = tt
on_tag-IsOwned TagKind.start shutting true f s =
    (try_finish-Own s.id shutting _
      (pump-Own s.id shutting _ (post_read-Own s.id shutting _ (refl, tt)))).1
on_tag-IsOwned TagKind.start shutting false f s = (try_finish-Own s.id shutting _ (refl, tt)).1
on_tag-IsOwned TagKind.read shutting ok f s =
    (try_finish-Own s.id shutting _ (
      if_rule (Own s.id) (ok && not s.broken) (λ _. message-Own s.id shutting _ refl refl f)
        (λ _. (refl, tt)))).1
on_tag-IsOwned TagKind.write shutting ok f s =
    (try_finish-Own s.id shutting _ (
      if_rule (Own s.id) (ok && not s.broken) (λ _. written-Own s.id shutting _ refl refl)
        (λ _. (refl, tt)))).1
on_tag-IsOwned TagKind.wdone shutting ok f s =
    (try_finish-Own s.id shutting _
      (if_rule (Own s.id) (not ok) (λ _. (refl, tt)) (λ _. (refl, tt)))).1
on_tag-IsOwned TagKind.finish shutting ok f s = (refl, tt)
