-- ===== src/Server/Discipline.antt =====
-- src/server.cpp: the discipline of one call's flags and counters.
use rgrpc.Convert.{Bytes}
use rgrpc.Prelude.{
  if_rule, refl, pop_front, ℕ, ◌+◌, ◌≤◌, pos, dec, Bool, true, false, not, ◌&&◌, ◌≡◌, ◌≢◌, List,
  arith, bit, is_empty, length, count,
}
use rgrpc.Server.Types.{Svop, svop_eq, SvCall, SvFilled}
use rgrpc.Server.Call.{
  CallLocked, pump_locked, on_accepted, on_request, on_sv_read, on_sv_written, on_sv_write, on_done,
  on_sv_tag,
}

-- With `o` telling how often each tag of the call is outstanding.
pub record IsCall (o : Svop → ℕ) (c : SvCall) : Type 0 where
  -- `pending` counts the outstanding tags
  pub counted :
      c.pending ≡ pos (o Svop.accept + o Svop.read + o Svop.write + o Svop.done + o Svop.finish)
  pub reads : o Svop.read ≡ bit c.read_inflight
  pub writes : o Svop.write ≡ bit c.write_inflight
  pub finishes : o Svop.finish ≤ bit c.finish_posted
  pub over : o Svop.done ≤ 1
  -- a slot has its accept outstanding and nothing else
  pub slot :
      c.id ≡ 0
      → (o Svop.accept ≤ 1)
        × (o Svop.done ≡ 0)
        × (c.read_inflight ≡ false)
        × (c.write_inflight ≡ false)
        × (c.finish_posted ≡ false)
        × (c.delivered ≡ false)
  pub accepted : c.id ≢ 0 → o Svop.accept ≡ 0
  -- `front` and `pop_front` are called on a queue that holds a message
  pub nonempty : c.write_inflight ≡ true → is_empty c.write_queue ≡ false
  -- the terminal operation goes out behind the last message, and no message behind it
  pub last :
      c.finish_posted ≡ true
      → (c.write_inflight ≡ false) × (is_empty c.write_queue ≡ true) × (c.replied ≡ true)
  pub answered : c.replied ≡ true → c.delivered ≡ true
  pub queued : length c.write_queue ≤ c.write_cap

abbrev pub sv_tally : Svop → List Svop → ℕ
sv_tally k ks = count (λ j. svop_eq j k) ks

-- The tags outstanding after a critical section, with those of `base` outstanding before.
abbrev pub after : (Svop → ℕ) → CallLocked → Svop → ℕ
after base w k = base k + sv_tally k w.posted

abbrev pub CallHolds : (Svop → ℕ) → CallLocked → Type 0
CallHolds base w = IsCall (after base w) w.call

module _ (base : Svop → ℕ) (shutting : Bool) where
  pub pump_locked-CallHolds :
      (w : CallLocked) → CallHolds base w → w.call.id ≢ 0 → CallHolds base (pump_locked shutting w)
  unfolding pump_locked
  pump_locked-CallHolds w h named = ground arith

-- The tag `kind` has come back: what is outstanding now, and what was when it was taken off the queue.
abbrev pub Back : Svop → (Svop → ℕ) → (Svop → ℕ) → Type 0
Back kind base o = (k : Svop) → base k + bit (svop_eq kind k) ≡ o k

module _ (base o : Svop → ℕ) (shutting ok : Bool) (filled : SvFilled) (c : SvCall) (h : IsCall o c)
    (id : ℕ) where
  accept-CallHolds :
      id ≢ 0
      → Back Svop.accept base o
      → CallHolds base (on_sv_tag shutting id Svop.accept ok filled c)
  unfolding on_sv_tag on_accepted
  accept-CallHolds new b =
      ground (arith, h, new, b Svop.accept, b Svop.read, b Svop.write, b Svop.done, b Svop.finish)

  module _ (b : Back Svop.read base o) where
    read_back :
        (delivered dead : Bool)
        → (c.delivered ≡ true → delivered ≡ true)
        → IsCall
            (λ k. base k + 0)
            (record c {
              pending = dec c.pending;
              read_inflight = false;
              delivered = delivered;
              dead = dead;
            })
    read_back delivered dead sets =
        ground (arith, h, b Svop.accept, b Svop.read, b Svop.write, b Svop.done, b Svop.finish)

    read-CallHolds : CallHolds base (on_sv_tag shutting id Svop.read ok filled c)
    unfolding on_sv_tag on_sv_read on_request
    read-CallHolds =
        if_rule (CallHolds base) (ok && not c.dead)
          (λ _.
            if_rule (CallHolds base) (not c.delivered) (λ _. read_back true c.dead (λ _. refl))
              (λ _. read_back c.delivered c.dead (λ e. e)))
          (λ _.
            if_rule (CallHolds base) (c.delivered && not c.dead)
              (λ _. read_back c.delivered c.dead (λ e. e))
              (λ _. read_back c.delivered true (λ e. e)))

  module _ (b : Back Svop.write base o) where
    write_back :
        (queue : List Bytes) (dead : Bool)
        → length queue ≤ length c.write_queue
        → IsCall
            (λ k. base k + 0)
            (record c {
              pending = dec c.pending;
              write_inflight = false;
              write_queue = queue;
              dead = dead;
            })
    write_back queue dead shorter =
        ground (arith, h, b Svop.accept, b Svop.read, b Svop.write, b Svop.done, b Svop.finish)

    -- A slot has no write outstanding.
    write_named : c.id ≢ 0
    write_named = λ e. absurd (ground (arith, h.slot e, h.writes, b Svop.write))

    write-CallHolds : CallHolds base (on_sv_tag shutting id Svop.write ok filled c)
    unfolding on_sv_tag on_sv_write on_sv_written
    write-CallHolds =
        let popped = write_back (pop_front c.write_queue) c.dead (ground arith) in
        let next =
          if_rule (λ (w : CallLocked). CallHolds base w × (w.call.id ≢ 0))
            (is_empty (pop_front c.write_queue) && not c.replied) (λ _. (popped, write_named))
            (λ _. (popped, write_named)) in
        if_rule (CallHolds base) (ok && not c.dead)
          (λ _. pump_locked-CallHolds base shutting _ next.0 next.1)
          (λ _. write_back c.write_queue true (omega arith))

  done-CallHolds :
      Back Svop.done base o → CallHolds base (on_sv_tag shutting id Svop.done ok filled c)
  unfolding on_sv_tag on_done
  done-CallHolds b =
      ground (arith, h, b Svop.accept, b Svop.read, b Svop.write, b Svop.done, b Svop.finish)

  finish-CallHolds :
      Back Svop.finish base o → CallHolds base (on_sv_tag shutting id Svop.finish ok filled c)
  unfolding on_sv_tag
  finish-CallHolds b =
      ground (arith, h, b Svop.accept, b Svop.read, b Svop.write, b Svop.done, b Svop.finish)

-- A tag that comes back leaves the flags of its call in agreement with the tags that are outstanding.
pub on_sv_tag-CallHolds :
    (base o : Svop → ℕ) (shutting ok : Bool) (filled : SvFilled) (c : SvCall) (id : ℕ)
    → IsCall o c
    → id ≢ 0
    → (kind : Svop) → Back kind base o
    → CallHolds base (on_sv_tag shutting id kind ok filled c)
on_sv_tag-CallHolds base o shutting ok f c id h new Svop.accept b =
    accept-CallHolds base o shutting ok f c h id new b
on_sv_tag-CallHolds base o shutting ok f c id h new Svop.read b =
    read-CallHolds base o shutting ok f c h id b
on_sv_tag-CallHolds base o shutting ok f c id h new Svop.write b =
    write-CallHolds base o shutting ok f c h id b
on_sv_tag-CallHolds base o shutting ok f c id h new Svop.done b =
    done-CallHolds base o shutting ok f c h id b
on_sv_tag-CallHolds base o shutting ok f c id h new Svop.finish b =
    finish-CallHolds base o shutting ok f c h id b
