-- ===== src/Server/Requests.antt =====
-- src/server.cpp: what R asks of a call under the discipline of its flags.
use rgrpc.Convert.{Bytes, MdPairs}
use rgrpc.Prelude.{
  if_rule, ℕ, ℤ, Bool, true, false, not, ◌||◌, ◌≡◌, ◌≢◌, [], ◌∷◌, arith, if◌then◌else◌, push_back,
  is_empty-push_back, length, length-append, leb, Option,
}
use rgrpc.Server.Types.{Svop, SvCall, ServerContext, SvStatus}
use rgrpc.Server.Call.{
  CallLocked, enter, discard_queue, reply_locked, read_locked, try_cancel_locked, sv_send_locked,
  finish_locked,
}
use rgrpc.Server.Discipline.{IsCall, CallHolds, pump_locked-CallHolds}

-- A call after a request, with FALSE or TRUE for R.
abbrev AskHolds : (Svop → ℕ) → CallLocked × Bool → Type 0
AskHolds o r = CallHolds o r.0

module _ (o : Svop → ℕ) (c : SvCall) (h : IsCall o c) where
  enter-CallHolds : CallHolds o (enter c)
  enter-CallHolds = ground (arith, h)

  -- Only an accepted call has been delivered.
  delivered_named : c.delivered ≡ true → c.id ≢ 0
  delivered_named d = λ e. ground (arith, h.slot e)

  answered-CallHolds :
      (ctx : ServerContext) (has : Bool) (final : Bytes) (status : SvStatus)
      → c.delivered ≡ true
      → c.replied ≡ false
      → CallHolds o (
          enter (record c {
            replied = true;
            ctx = ctx;
            has_final_write = has;
            final_write = final;
            final_status = status;
          }))
  answered-CallHolds ctx has final status d r = ground (arith, h)

  queued-CallHolds :
      (bytes : Bytes)
      → c.delivered ≡ true
      → c.replied ≡ false
      → leb c.write_cap (length c.write_queue) ≡ false
      → CallHolds o (enter (record c { write_queue = push_back c.write_queue bytes }))
  queued-CallHolds bytes d r room =
      ground
        (arith, h, is_empty-push_back c.write_queue bytes, length-append c.write_queue (bytes ∷ []))

  ended-CallHolds :
      (ctx : ServerContext) (status : SvStatus) (drain : Bool)
      → c.delivered ≡ true
      → c.replied ≡ false
      → CallHolds o (
          enter (record c {
            replied = true;
            write_queue =
                if drain then c.write_queue else discard_queue c.write_inflight c.write_queue;
            ctx = ctx;
            has_final_write = false;
            final_status = status;
          }))
  ended-CallHolds ctx status drain d r = ground (arith, h)

  pub reply_locked-CallHolds :
      (shutting : Bool) (response : Bytes) (code : ℤ) (message : Bytes) (metadata : Option MdPairs)
      → CallHolds o (reply_locked shutting response code message metadata c).0
  unfolding reply_locked
  reply_locked-CallHolds shutting response code message metadata =
      if_rule (AskHolds o) (not c.delivered || c.replied || c.dead) (λ _. enter-CallHolds)
        (λ may.
          pump_locked-CallHolds o shutting _
            (answered-CallHolds _ _ _ _ (ground (arith, may)) (ground (arith, may)))
            (delivered_named (ground (arith, may))))

  pub read_locked-CallHolds : CallHolds o (read_locked c).0
  unfolding read_locked
  read_locked-CallHolds = ground (arith, h)

  pub try_cancel_locked-CallHolds : CallHolds o (try_cancel_locked c).0
  unfolding try_cancel_locked
  try_cancel_locked-CallHolds = ground (arith, h)

  pub sv_send_locked-CallHolds :
      (shutting : Bool) (bytes : Bytes) → CallHolds o (sv_send_locked shutting bytes c).0
  unfolding sv_send_locked
  sv_send_locked-CallHolds shutting bytes =
      if_rule (AskHolds o) (not c.delivered || c.dead || c.replied) (λ _. enter-CallHolds)
        (λ may.
          if_rule (AskHolds o) (leb c.write_cap (length c.write_queue)) (λ _. enter-CallHolds)
            (λ room.
              pump_locked-CallHolds o shutting _
                (queued-CallHolds bytes (ground (arith, may)) (ground (arith, may)) room)
                (delivered_named (ground (arith, may)))))

  pub finish_locked-CallHolds :
      (shutting : Bool) (code : ℤ) (message : Bytes) (metadata : Option MdPairs) (drain : Bool)
      → CallHolds o (finish_locked shutting code message metadata drain c).0
  unfolding finish_locked
  finish_locked-CallHolds shutting code message metadata drain =
      if_rule (AskHolds o) (not c.delivered || c.replied || c.dead) (λ _. enter-CallHolds)
        (λ may.
          pump_locked-CallHolds o shutting _
            (ended-CallHolds _ _ drain (ground (arith, may)) (ground (arith, may)))
            (delivered_named (ground (arith, may))))
