-- ===== src/Server/Life/Steps.antt =====
-- src/server.cpp: the life of one call, from `post_accepts_locked` on, by the critical sections that touch
-- it.
use rgrpc.Convert.{Bytes}
use rgrpc.Prelude.{
  if_rule, ℕ, ℤ, inc, dec, ◌==◌, Bool, true, false, not, ◌&&◌, ◌≡◌, ◌≢◌, refl, sym, ap, ◌∙◌, List,
  [], ◌∷◌, ◌++◌, arith, is_empty, pop_front, push_back, append-nil,
}
use rgrpc.Server.Types.{Svop, SvStreamOp, SvCall, SvFilled}
use rgrpc.Server.Call.{
  CallLocked, on_sv_tag, on_accepted, on_sv_read, on_request, on_sv_write, on_sv_written, on_done,
}
use rgrpc.Server.Life.{sv_written, sv_written-append, terminals-append, sv_unsent, IsOrdered}
use rgrpc.Server.Life.Order.{pump_locked-IsOrdered}

-- Whether the flags of a call let a tag be outstanding; the done tag has no flag.
abbrev pub may_return : SvCall → Svop → Bool
may_return c Svop.accept = c.id == 0
may_return c Svop.read = c.read_inflight
may_return c Svop.write = c.write_inflight
may_return c Svop.done = true
may_return c Svop.finish = c.finish_posted

module _ {accepted : List Bytes} {aborted : Bool} (c : SvCall)
    (h : IsOrdered accepted aborted c) where
  -- A read is posted on a call with no terminal operation.
  pub read_posted :
      (pending : ℤ) (id : ℕ)
      → id ≢ 0
      → c.finish_posted ≡ false
      → IsOrdered accepted aborted (record c {
        id = id;
        pending = pending;
        read_inflight = true;
        stream = push_back c.stream SvStreamOp.read;
      })
  read_posted pending id named open_end =
      let same : sv_written (push_back c.stream SvStreamOp.read) ≡ sv_written c.stream =
        sv_written-append c.stream (SvStreamOp.read ∷ []) ∙ append-nil (sv_written c.stream) in
      let (rest, e) = h.prefix in
      record {
        kept = ground (arith, h.kept, named);
        prefix = (rest, e ∙ ap (λ l. l ++ rest) (sym same));
        sent = λ d b. h.sent d b ∙ ap (λ l. l ++ sv_unsent c) (sym same);
        cut = h.cut;
        ending = h.ending;
        unfinished =
            λ f. terminals-append c.stream (SvStreamOp.read ∷ []) ∙ omega (arith, h.unfinished f);
        finished = λ f. cc;
      }

  -- A call whose peer is gone keeps what was said of its stream.
  died :
      (pending : ℤ) (id : ℕ) (reading writing : Bool)
      → (id ≡ 0 → c.id ≡ 0)
      → (writing ≡ true → c.write_inflight ≡ true)
      → (reading ≡ true → c.read_inflight ≡ true)
      → IsOrdered accepted aborted (record c {
        id = id;
        pending = pending;
        read_inflight = reading;
        write_inflight = writing;
        dead = true;
      })
  died pending id reading writing named fewer less = record {
    kept = ground (arith, h.kept, named, fewer, less);
    prefix = h.prefix;
    sent = λ d. cc;
    cut = λ d. cc;
    ending = h.ending;
    unfinished = h.unfinished;
    finished = h.finished;
  }

  counted :
      (pending : ℤ) (reading delivered : Bool)
      → (c.delivered ≡ true → delivered ≡ true)
      → (delivered ≡ true → c.id ≢ 0)
      → (reading ≡ true → c.read_inflight ≡ true)
      → IsOrdered accepted aborted
          (record c { pending = pending; read_inflight = reading; delivered = delivered })
  counted pending reading delivered sets named less = record {
    kept = ground (arith, h.kept, sets, named, less);
    prefix = h.prefix;
    sent = h.sent;
    cut = h.cut;
    ending = h.ending;
    unfinished = h.unfinished;
    finished = h.finished;
  }

  popped :
      (pending : ℤ)
      → c.write_inflight ≡ true
      → IsOrdered accepted aborted (record c {
        pending = pending;
        write_inflight = false;
        write_queue = pop_front c.write_queue;
      })
  popped pending busy = record {
    kept = ground (arith, h.kept, busy);
    prefix = h.prefix;
    sent = λ d b. h.sent d b ∙ ground (arith, busy);
    cut = λ d b. ground (arith, busy, h.cut d b);
    ending = h.ending;
    unfinished = h.unfinished;
    finished = h.finished;
  }

  abbrev Orders : CallLocked → Type 0
  Orders w = IsOrdered accepted aborted w.call

  module _ (shutting ok : Bool) (f : SvFilled) (id : ℕ) (new : id ≢ 0) where
    accept-IsOrdered : c.id ≡ 0 → Orders (on_sv_tag shutting id Svop.accept ok f c)
    unfolding on_sv_tag on_accepted
    accept-IsOrdered z =
        if_rule Orders ok
          (λ _.
            if_rule Orders shutting
              (λ _.
                died (inc (dec c.pending)) id c.read_inflight c.write_inflight (λ _. z) (λ e. e)
                  (λ e. e))
              (λ _. read_posted (inc (inc (dec c.pending))) id new (ground (arith, h.kept.slot z))))
          (λ _.
            counted (dec c.pending) c.read_inflight c.delivered (λ e. e)
              (λ e. ground (arith, e, h.kept.slot z)) (λ e. e))

    read-IsOrdered : c.read_inflight ≡ true → Orders (on_sv_tag shutting id Svop.read ok f c)
    unfolding on_sv_tag on_sv_read on_request
    read-IsOrdered busy =
        let named : c.id ≢ 0 = λ z. ground (arith, busy, h.kept.slot z) in
        let gone = died (dec c.pending) c.id false c.write_inflight (λ z. z) (λ e. e) (λ e. cc) in
        let back : (delivered : Bool)
            → (c.delivered ≡ true → delivered ≡ true)
            → IsOrdered accepted aborted (record c {
              pending = dec c.pending;
              read_inflight = false;
              delivered = delivered;
            }) =
          λ delivered sets. counted (dec c.pending) false delivered sets (λ _. named) (λ e. cc) in
        if_rule Orders (ok && not c.dead)
          (λ _.
            if_rule Orders (not c.delivered) (λ _. back true (λ _. refl))
              (λ _. back c.delivered (λ e. e)))
          (λ _.
            if_rule Orders (c.delivered && not c.dead) (λ _. back c.delivered (λ e. e)) (λ _. gone))

    write-back-IsOrdered :
        c.write_inflight ≡ true → Orders (on_sv_tag shutting id Svop.write ok f c)
    unfolding on_sv_tag on_sv_write on_sv_written
    write-back-IsOrdered busy =
        if_rule Orders (ok && not c.dead)
          (λ _. pump_locked-IsOrdered shutting _ (
            if_rule Orders (is_empty (pop_front c.write_queue) && not c.replied)
              (λ _. popped (dec c.pending) busy) (λ _. popped (dec c.pending) busy)))
          (λ _. died (dec c.pending) c.id c.read_inflight false (λ z. z) (λ e. cc) (λ e. e))

    done-IsOrdered : Orders (on_sv_tag shutting id Svop.done ok f c)
    unfolding on_sv_tag on_done
    done-IsOrdered =
        if_rule Orders (c.delivered && not c.replied)
          (λ _.
            died (dec c.pending) c.id c.read_inflight c.write_inflight (λ z. z) (λ e. e) (λ e. e))
          (λ _.
            counted (dec c.pending) c.read_inflight c.delivered (λ e. e)
              (λ e z. ground (arith, e, h.kept.slot z)) (λ e. e))

    finish-IsOrdered : Orders (on_sv_tag shutting id Svop.finish ok f c)
    unfolding on_sv_tag
    finish-IsOrdered =
        counted (dec c.pending) c.read_inflight c.delivered (λ e. e)
          (λ e z. ground (arith, e, h.kept.slot z)) (λ e. e)

    pub on_sv_tag-IsOrdered :
        (j : Svop) → may_return c j ≡ true → Orders (on_sv_tag shutting id j ok f c)
    on_sv_tag-IsOrdered Svop.accept e = accept-IsOrdered (ground (arith, e))
    on_sv_tag-IsOrdered Svop.read e = read-IsOrdered e
    on_sv_tag-IsOrdered Svop.write e = write-back-IsOrdered e
    on_sv_tag-IsOrdered Svop.done e = done-IsOrdered
    on_sv_tag-IsOrdered Svop.finish e = finish-IsOrdered
