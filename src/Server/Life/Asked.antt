-- ===== src/Server/Life/Asked.antt =====
-- src/server.cpp: what R asks of a call and the order of its operations.
use rgrpc.Convert.{Bytes, MdPairs}
use rgrpc.Prelude.{
  if_rule, ℤ, inc, is_zero, Bool, true, false, not, ◌&&◌, ◌||◌, ◌≡◌, refl, sym, ap, ◌∙◌, subst,
  List, [], ◌∷◌, ◌++◌, arith, if◌then◌else◌, is_empty, pop_front, push_back, append_assoc, length,
  leb, is_empty-push_back, Option,
}
use rgrpc.Server.Types.{SvCall, ServerContext, SvStatus}
use rgrpc.Server.Call.{
  CallLocked, discard_queue, add_trailing, status_of, reply_locked, read_locked, try_cancel_locked,
  sv_send_locked, finish_locked,
}
use rgrpc.Server.Life.{sv_written, sv_unsent, IsOrdered}
use rgrpc.Server.Life.Order.{pump_locked-IsOrdered}
use rgrpc.Server.Life.Steps.{read_posted}

unsent-push_back :
    (inflight : Bool) (q : List Bytes) (b : Bytes)
    → (inflight ≡ true → is_empty q ≡ false)
    → push_back (if inflight then pop_front q else q) b
      ≡ (if inflight then pop_front (push_back q b) else push_back q b)
unsent-push_back true [] b h = let e = h refl in cc
unsent-push_back true (x ∷ q) b h = refl
unsent-push_back false q b h = refl

or_false : (b : Bool) → (b || false) ≡ b
or_false true = refl
or_false false = refl

discarded :
    (inflight : Bool) (q : List Bytes)
    → (if inflight then pop_front (discard_queue inflight q) else discard_queue inflight q) ≡ []
discarded true [] = refl
discarded true (b ∷ q) = refl
discarded false q = refl

discard-kept :
    (inflight : Bool) (q : List Bytes)
    → is_empty q ≡ false
    → inflight ≡ true
    → is_empty (discard_queue inflight q) ≡ false
discard-kept true [] h e = cc
discard-kept true (b ∷ q) h e = refl
discard-kept false q h e = cc

module _ {accepted : List Bytes} {aborted : Bool} (c : SvCall)
    (h : IsOrdered accepted aborted c) where
  -- A reply or a finish is accepted: from now on no message is.
  over-IsOrdered :
      (drain : Bool) (ctx : ServerContext) (has : Bool) (final : Bytes) (status : SvStatus)
      → c.delivered ≡ true
      → c.replied ≡ false
      → IsOrdered accepted (aborted || not drain) (record c {
        replied = true;
        write_queue = if drain then c.write_queue else discard_queue c.write_inflight c.write_queue;
        ctx = ctx;
        has_final_write = has;
        final_write = final;
        final_status = status;
      })
  over-IsOrdered drain ctx has final status d r =
      let before : aborted ≡ false = ground (arith, h.ending, r) in
      let open_end : c.finish_posted ≡ false = ground (arith, h.kept.last, r) in
      record {
        kept = ground (arith, h.kept, d, r, discard-kept c.write_inflight c.write_queue);
        prefix = h.prefix;
        sent = λ live whole.
            h.sent live before ∙ ap (◌++◌ (sv_written c.stream)) (ground (arith, whole));
        cut = λ live cut_now.
            ground (arith, cut_now, before, discarded c.write_inflight c.write_queue);
        ending = λ _. refl;
        unfinished = h.unfinished;
        finished = λ f. absurd (ground (arith, f, open_end));
      }

  replied-IsOrdered :
      (ctx : ServerContext) (has : Bool) (final : Bytes) (status : SvStatus)
      → c.delivered ≡ true
      → c.replied ≡ false
      → IsOrdered accepted aborted (record c {
        replied = true;
        ctx = ctx;
        has_final_write = has;
        final_write = final;
        final_status = status;
      })
  replied-IsOrdered ctx has final status d r =
      subst
        (λ b. IsOrdered accepted b (record c {
          replied = true;
          ctx = ctx;
          has_final_write = has;
          final_write = final;
          final_status = status;
        }))
        (or_false aborted) (over-IsOrdered true ctx has final status d r)

  queued-IsOrdered :
      (bytes : Bytes)
      → c.delivered ≡ true
      → c.dead ≡ false
      → c.replied ≡ false
      → IsOrdered
          (push_back accepted bytes)
          aborted
          (record c { write_queue = push_back c.write_queue bytes })
  queued-IsOrdered bytes d live r =
      let before : aborted ≡ false = ground (arith, h.ending, r) in
      let open_end : c.finish_posted ≡ false = ground (arith, h.kept.last, r) in
      let (rest, e) = h.prefix in
      record {
        kept = ground (arith, h.kept, d, open_end, is_empty-push_back c.write_queue bytes);
        prefix = (
          push_back rest bytes,
          ap (λ l. push_back l bytes) e ∙ append_assoc (sv_written c.stream) rest (bytes ∷ []),
        );
        sent = λ l b.
            ap (λ x. push_back x bytes) (h.sent l b)
            ∙ append_assoc (sv_written c.stream) (sv_unsent c) (bytes ∷ [])
            ∙ ap (◌++◌ (sv_written c.stream))
                (unsent-push_back c.write_inflight c.write_queue bytes h.kept.nonempty);
        cut = λ _ b. cc;
        ending = λ b. cc;
        unfinished = h.unfinished;
        finished = λ f. cc;
      }

  module _ (shutting : Bool) where
    pub reply_locked-IsOrdered :
        (response : Bytes) (code : ℤ) (message : Bytes) (metadata : Option MdPairs)
        → IsOrdered accepted aborted (reply_locked shutting response code message metadata c).0.call
    unfolding reply_locked
    reply_locked-IsOrdered response code message metadata =
        if_rule (λ (r : CallLocked × Bool). IsOrdered accepted aborted r.0.call)
          (not c.delivered || c.replied || c.dead) (λ _. h)
          (λ may. pump_locked-IsOrdered shutting _ (
            replied-IsOrdered (add_trailing metadata c.ctx) (is_zero code)
              (if is_zero code then response else c.final_write) (status_of code message)
              (ground (arith, may)) (ground (arith, may))))

    pub finish_locked-IsOrdered :
        (code : ℤ) (message : Bytes) (metadata : Option MdPairs) (drain : Bool)
        → let (w, taken_in) = finish_locked shutting code message metadata drain c in
          IsOrdered accepted (aborted || taken_in && not drain) w.call
    unfolding finish_locked
    finish_locked-IsOrdered code message metadata drain =
        if_rule
          (λ (r : CallLocked × Bool). IsOrdered accepted (aborted || r.1 && not drain) r.0.call)
          (not c.delivered || c.replied || c.dead)
          (λ _. subst (λ b. IsOrdered accepted b c) (sym (or_false aborted)) h)
          (λ may. pump_locked-IsOrdered shutting _ (
            over-IsOrdered drain (add_trailing metadata c.ctx) false c.final_write
              (status_of code message) (ground (arith, may)) (ground (arith, may))))

    -- A message counts as accepted exactly if the call answers TRUE.
    pub sv_send_locked-IsOrdered :
        (bytes : Bytes)
        → let (w, taken_in) = sv_send_locked shutting bytes c in
          IsOrdered (if taken_in then push_back accepted bytes else accepted) aborted w.call
    unfolding sv_send_locked
    sv_send_locked-IsOrdered bytes =
        let P : CallLocked × Bool → Type 0 =
          λ r. IsOrdered (if r.1 then push_back accepted bytes else accepted) aborted r.0.call in
        if_rule P (not c.delivered || c.dead || c.replied) (λ _. h)
          (λ may.
            if_rule P (leb c.write_cap (length c.write_queue)) (λ _. h)
              (λ room. pump_locked-IsOrdered shutting _ (
                queued-IsOrdered bytes (ground (arith, may)) (ground (arith, may))
                  (ground (arith, may)))))

  pub read_locked-IsOrdered : IsOrdered accepted aborted (read_locked c).0.call
  unfolding read_locked
  read_locked-IsOrdered =
      if_rule (λ (r : CallLocked × Bool). IsOrdered accepted aborted r.0.call)
        (not c.delivered || c.dead || c.read_inflight || c.finish_posted) (λ _. h)
        (λ may.
          read_posted c h (inc c.pending) c.id (λ z. ground (arith, may, h.kept.slot z))
            (ground (arith, may)))

  pub try_cancel_locked-IsOrdered : IsOrdered accepted aborted (try_cancel_locked c).0.call
  unfolding try_cancel_locked
  try_cancel_locked-IsOrdered =
      if_rule (λ (r : CallLocked × Bool). IsOrdered accepted aborted r.0.call) c.dead (λ _. h)
        (λ _. record {
          kept = ground (arith, h.kept);
          prefix = h.prefix;
          sent = h.sent;
          cut = h.cut;
          ending = h.ending;
          unfinished = h.unfinished;
          finished = h.finished;
        })
