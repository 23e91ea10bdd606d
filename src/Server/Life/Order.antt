-- ===== src/Server/Life/Order.antt =====
-- src/server.cpp: the pump and the order of a call's operations.
use rgrpc.Convert.{Bytes}
use rgrpc.Prelude.{
  if_rule, inc, Bool, true, false, not, ◌||◌, ◌≡◌, refl, sym, ap, ◌∙◌, List, [], ◌∷◌, ◌++◌, arith,
  is_empty, pop_front, front, push_back, append-nil, append_assoc, Bool-cases, inl, inr,
}
use rgrpc.Server.Types.{SvStreamOp, SvCall}
use rgrpc.Server.Call.{CallLocked, pump_locked, terminal_of}
use rgrpc.Server.Life.{sv_written, sv_written-append, terminals-append, sv_unsent, IsOrdered}

-- Writing, and what comes after: the prefix of `accepted` grows by a message.
module _ {accepted : List Bytes} {aborted : Bool} (c : SvCall)
    (h : IsOrdered accepted aborted c) where
  front_of : (q : List Bytes) → is_empty q ≡ false → q ≡ front [] q ∷ pop_front q
  front_of [] e = cc
  front_of (b ∷ q) e = refl

  -- With a message to hand over nothing has been cut.
  not_cut :
      c.dead ≡ false → c.write_inflight ≡ false → is_empty c.write_queue ≡ false → aborted ≡ false
  not_cut live idle full = elim (Bool-cases aborted) [
    | inr whole ↦ whole
    | inl yes_cut ↦ let e = h.cut live yes_cut in absurd (ground (arith, e, idle, full))
  ]

  abbrev wrote : SvCall
  wrote = record c {
    write_inflight = true;
    pending = inc c.pending;
    stream = push_back c.stream (SvStreamOp.write (front [] c.write_queue));
  }

  write-IsOrdered :
      c.dead ≡ false
      → c.finish_posted ≡ false
      → c.write_inflight ≡ false
      → is_empty c.write_queue ≡ false
      → IsOrdered accepted aborted wrote
  write-IsOrdered live open_end idle full =
      let b = not_cut live idle full in
      let all : accepted ≡ sv_written wrote.stream ++ pop_front c.write_queue =
        h.sent live b
        ∙ ap (◌++◌ (sv_written c.stream)) (ground (arith, idle) ∙ front_of c.write_queue full)
        ∙ sym (
            append_assoc (sv_written c.stream) (front [] c.write_queue ∷ [])
              (pop_front c.write_queue))
        ∙ ap (λ l. l ++ pop_front c.write_queue)
            (sym (sv_written-append c.stream (SvStreamOp.write (front [] c.write_queue) ∷ []))) in
      record {
        kept = ground (arith, h.kept, open_end, full);
        prefix = (pop_front c.write_queue, all);
        sent = λ _ _. all;
        cut = λ _ e. cc;
        ending = h.ending;
        unfinished = λ e.
            terminals-append c.stream (SvStreamOp.write (front [] c.write_queue) ∷ [])
            ∙ omega (arith, h.unfinished e);
        finished = λ e. cc;
      }

  abbrev ended : SvCall
  ended = record c {
    finish_posted = true;
    pending = inc c.pending;
    stream = push_back c.stream (terminal_of c);
  }

  terminal_written : sv_written (push_back c.stream (terminal_of c)) ≡ sv_written c.stream
  terminal_written =
      sv_written-append c.stream (terminal_of c ∷ [])
      ∙ ap (◌++◌ (sv_written c.stream)) nothing
      ∙ append-nil (sv_written c.stream)
    where
      nothing : sv_written (terminal_of c ∷ []) ≡ []
      nothing =
          if_rule (λ (op : SvStreamOp). sv_written (op ∷ []) ≡ []) c.has_final_write (λ _. refl)
            (λ _. refl)

  terminal-IsOrdered :
      c.dead ≡ false
      → c.finish_posted ≡ false
      → c.write_inflight ≡ false
      → is_empty c.write_queue ≡ true
      → c.replied ≡ true
      → IsOrdered accepted aborted ended
  terminal-IsOrdered live open_end idle empty over =
      let (rest, e) = h.prefix in
      let w = terminal_written in
      record {
        kept = ground (arith, h.kept, idle, empty, over);
        prefix = (rest, e ∙ ap (λ l. l ++ rest) (sym w));
        sent = λ d b. h.sent d b ∙ ap (λ l. l ++ sv_unsent c) (sym w);
        cut = h.cut;
        ending = h.ending;
        unfinished = λ f. cc;
        finished = λ _. (
          c.stream,
          refl,
          h.unfinished open_end,
          λ b.
              h.sent live b
              ∙ ap (◌++◌ (sv_written c.stream)) (ground (arith, idle, empty))
              ∙ append-nil (sv_written c.stream),
        );
      }

pub pump_locked-IsOrdered :
    {accepted : List Bytes} {aborted : Bool} (shutting : Bool) (w : CallLocked)
    → IsOrdered accepted aborted w.call
    → IsOrdered accepted aborted (pump_locked shutting w).call
unfolding pump_locked
pump_locked-IsOrdered {accepted} {aborted} shutting w h =
    let c = w.call in
    let P : CallLocked → Type 0 = λ u. IsOrdered accepted aborted u.call in
    if_rule P (shutting || c.dead || c.finish_posted) (λ _. h)
      (λ may.
        if_rule P c.write_inflight (λ _. h)
          (λ idle.
            if_rule P (not (is_empty c.write_queue))
              (λ full.
                write-IsOrdered c h (ground (arith, may)) (ground (arith, may)) idle
                  (ground (arith, full)))
              (λ empty.
                if_rule P c.replied
                  (λ over.
                    terminal-IsOrdered c h (ground (arith, may)) (ground (arith, may)) idle
                      (ground (arith, empty)) over)
                  (λ _. h))))
