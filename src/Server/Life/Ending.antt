-- ===== src/Server/Life/Ending.antt =====
-- src/server.cpp: the life of one call, from the slot that `post_accepts_locked` makes, by the critical
-- sections that touch it, with the messages that sends have accepted and whether a finish without
-- drain was accepted.
use rgrpc.Convert.{Bytes, MdPairs}
use rgrpc.Prelude.{
  sym, leb, length, if_rule, ap, ◌∙◌, ◌∷◌, [], none, some, ℕ, ℤ, Bool, true, false, not, ◌&&◌, ◌||◌,
  ◌≡◌, ◌≢◌, refl, List, ◌++◌, arith, if◌then◌else◌, push_back, Option,
}
use rgrpc.Server.Types.{Svop, SvStreamOp, SvCall, SvFilled}
use rgrpc.Server.Call.{
  add_trailing, CallLocked, terminal_of, on_sv_tag, reply_locked, read_locked, try_cancel_locked,
  sv_send_locked, finish_locked,
}
use rgrpc.Server.Round.{new_slot}
use rgrpc.Server.Life.{sv_written, terminals, terminals-append, sv_unsent, IsOrdered}
use rgrpc.Server.Life.Steps.{may_return, on_sv_tag-IsOrdered}
use rgrpc.Server.Life.Asked.{
  reply_locked-IsOrdered, finish_locked-IsOrdered, sv_send_locked-IsOrdered, read_locked-IsOrdered,
  try_cancel_locked-IsOrdered,
}
use rgrpc.Server.Life.Terminal.{
  reply_op, finish_op, pump-terminal, tag-Keeps, reply_terminal, AskFits,
}

-- The indices: the messages that sends have accepted; whether a finish without drain was accepted; and
-- what the reply or finish that was accepted asks for.
pub data SvLife : List Bytes → Bool → Option SvStreamOp → SvCall → Type 0 where
  opens : SvLife [] false none new_slot
  completes :
      {accepted : List Bytes} {aborted : Bool} {asked : Option SvStreamOp} {c : SvCall}
      (shutting ok : Bool) (id : ℕ) (kind : Svop) (filled : SvFilled)
      → SvLife accepted aborted asked c
      → id ≢ 0
      → may_return c kind ≡ true
      → SvLife accepted aborted asked (on_sv_tag shutting id kind ok filled c).call
  replies :
      {accepted : List Bytes} {aborted : Bool} {asked : Option SvStreamOp} {c : SvCall}
      (shutting : Bool) (response : Bytes) (code : ℤ) (message : Bytes) (metadata : Option MdPairs)
      → SvLife accepted aborted asked c
      → SvLife accepted aborted
          (if (reply_locked shutting response code message metadata c).1
            then some (reply_op response code message)
            else asked)
          (reply_locked shutting response code message metadata c).0.call
  reads :
      {accepted : List Bytes} {aborted : Bool} {asked : Option SvStreamOp} {c : SvCall}
      → SvLife accepted aborted asked c
      → SvLife accepted aborted asked (read_locked c).0.call
  cancels :
      {accepted : List Bytes} {aborted : Bool} {asked : Option SvStreamOp} {c : SvCall}
      → SvLife accepted aborted asked c
      → SvLife accepted aborted asked (try_cancel_locked c).0.call
  sends :
      {accepted : List Bytes} {aborted : Bool} {asked : Option SvStreamOp} {c : SvCall}
      (shutting : Bool) (bytes : Bytes)
      → SvLife accepted aborted asked c
      → SvLife
          (if (sv_send_locked shutting bytes c).1 then push_back accepted bytes else accepted)
          aborted
          asked
          (sv_send_locked shutting bytes c).0.call
  finishes :
      {accepted : List Bytes} {aborted : Bool} {asked : Option SvStreamOp} {c : SvCall}
      (shutting : Bool) (code : ℤ) (message : Bytes) (metadata : Option MdPairs) (drain : Bool)
      → SvLife accepted aborted asked c
      → SvLife accepted
          (aborted || (finish_locked shutting code message metadata drain c).1 && not drain)
          (if (finish_locked shutting code message metadata drain c).1
            then some (finish_op code message)
            else asked)
          (finish_locked shutting code message metadata drain c).0.call

new_slot-IsOrdered : IsOrdered [] false new_slot
new_slot-IsOrdered = record {
  kept = ground arith;
  prefix = ([], refl);
  sent = λ _ _. refl;
  cut = λ _ e. cc;
  ending = λ e. cc;
  unfinished = λ _. refl;
  finished = λ e. cc;
}

ordered :
    {accepted : List Bytes} {aborted : Bool} {asked : Option SvStreamOp} {c : SvCall}
    → SvLife accepted aborted asked c
    → IsOrdered accepted aborted c
ordered opens = new_slot-IsOrdered
ordered (completes {c = c} shutting ok id kind filled l new may) =
    on_sv_tag-IsOrdered c (ordered l) shutting ok filled id new kind may
ordered (replies {c = c} shutting response code message metadata l) =
    reply_locked-IsOrdered c (ordered l) shutting response code message metadata
ordered (reads {c = c} l) = read_locked-IsOrdered c (ordered l)
ordered (cancels {c = c} l) = try_cancel_locked-IsOrdered c (ordered l)
ordered (sends {c = c} shutting bytes l) = sv_send_locked-IsOrdered c (ordered l) shutting bytes
ordered (finishes {c = c} shutting code message metadata drain l) =
    finish_locked-IsOrdered c (ordered l) shutting code message metadata drain

-- Over the whole life of a call the messages handed to `Write` are the first of those that a send has
-- accepted, each once and in that order. Unless the call is dead or was ended by a finish without
-- drain, the accepted ones that are not written are those in the queue that are not in flight, in order.
pub sv_sent_in_order :
    {accepted : List Bytes} {aborted : Bool} {asked : Option SvStreamOp} {c : SvCall}
    → SvLife accepted aborted asked c
    → ((rest : List Bytes) × (accepted ≡ sv_written c.stream ++ rest))
      × (c.dead ≡ false → aborted ≡ false → accepted ≡ sv_written c.stream ++ sv_unsent c)
sv_sent_in_order l = let h = ordered l in (h.prefix, h.sent)

asked_for :
    {accepted : List Bytes} {aborted : Bool} {asked : Option SvStreamOp} {c : SvCall}
    → SvLife accepted aborted asked c
    → c.replied ≡ true
    → asked ≡ some (terminal_of c)
unfolding reply_locked read_locked try_cancel_locked sv_send_locked finish_locked
asked_for opens e = cc
asked_for (completes {c = c} shutting ok id kind filled l new may) e =
    let (replied, terminal) = tag-Keeps shutting ok id kind filled c in
    asked_for l (sym replied ∙ e) ∙ ap some (sym terminal)
asked_for (replies {asked = before} {c = c} shutting response code message metadata l) e =
    if_rule (AskFits before (reply_op response code message))
      (not c.delivered || c.replied || c.dead) (λ _. asked_for l)
      (λ _ _. ap some (
        reply_terminal c (add_trailing metadata c.ctx) response code message
        ∙ sym (pump-terminal shutting _).1))
      e
asked_for (reads {c = c} l) e = ground (arith, asked_for l, e)
asked_for (cancels {c = c} l) e = ground (arith, asked_for l, e)
asked_for (sends {asked = asked} {c = c} shutting bytes l) e =
    let Fits : CallLocked × Bool → Type 0 =
      λ r. r.0.call.replied ≡ true → asked ≡ some (terminal_of r.0.call) in
    if_rule Fits (not c.delivered || c.dead || c.replied) (λ _. asked_for l)
      (λ _.
        if_rule Fits (leb c.write_cap (length c.write_queue)) (λ _. asked_for l)
          (λ _ on.
            let (replied, terminal) = pump-terminal shutting _ in
            asked_for l (sym replied ∙ on) ∙ ap some (sym terminal)))
      e
asked_for (finishes {asked = before} {c = c} shutting code message metadata drain l) e =
    if_rule (AskFits before (finish_op code message)) (not c.delivered || c.replied || c.dead)
      (λ _. asked_for l) (λ _ _. ap some (sym (pump-terminal shutting _).1)) e

-- Over the whole life of a call, as long as `finish_posted` is not set no terminal operation has been
-- posted. Once it is set, a reply or finish was accepted, and exactly one terminal operation has been
-- posted: the one that the last of them accepted asks for, with its response and status. It is the last
-- operation on the stream; and unless the call was ended without drain, every message that a send has
-- accepted was written before it.
pub terminal_is_last :
    {accepted : List Bytes} {aborted : Bool} {asked : Option SvStreamOp} {c : SvCall}
    → SvLife accepted aborted asked c
    → (c.finish_posted ≡ false → terminals c.stream ≡ 0)
      × (c.finish_posted ≡ true
          → (pre : List SvStreamOp) × (op : SvStreamOp) × (c.stream ≡ push_back pre op)
            × (asked ≡ some op)
            × (terminals pre ≡ 0)
            × (terminals c.stream ≡ 1)
            × (aborted ≡ false → accepted ≡ sv_written pre))
terminal_is_last {c = c} l =
    let h = ordered l in
    (
      h.unfinished,
      λ posted.
          let (pre, all, none_before, written) = h.finished posted in
          (
            pre,
            terminal_of c,
            all,
            asked_for l (h.kept.last posted).2,
            none_before,
            ap terminals all
                ∙ terminals-append pre (terminal_of c ∷ [])
                ∙ ground (arith, none_before),
            written,
          ),
    )
