-- ===== src/Server/Life/Terminal.antt =====
-- src/server.cpp: the terminal operation that a reply or a finish asks for.
use rgrpc.Convert.{Bytes}
use rgrpc.Prelude.{
  is_empty, pop_front, if_rule, ◌∙◌, [], pos, is_zero, some, ℕ, ℤ, Bool, true, not, ◌&&◌, ◌≡◌, refl,
  arith, if◌then◌else◌, Option,
}
use rgrpc.Server.Types.{Svop, SvStreamOp, SvCall, SvFilled, ServerContext}
use rgrpc.Server.Call.{
  status_of, CallLocked, pump_locked, on_accepted, on_sv_read, on_request, on_sv_write,
  on_sv_written, on_done, terminal_of, on_sv_tag,
}

-- The terminal operation that a reply asks for, and the one that a finish asks for.
abbrev pub reply_op : Bytes → ℤ → Bytes → SvStreamOp
reply_op response code message =
    if is_zero code
    then SvStreamOp.write_and_finish response (record { code = pos 0; message = [] })
    else SvStreamOp.finish (record { code = code; message = message })

abbrev pub finish_op : ℤ → Bytes → SvStreamOp
finish_op code message = SvStreamOp.finish (
    if is_zero code
    then record { code = pos 0; message = [] }
    else record { code = code; message = message })

-- What was asked for is kept in the call.
pub pump-terminal :
    (shutting : Bool) (w : CallLocked)
    → ((pump_locked shutting w).call.replied ≡ w.call.replied)
      × (terminal_of (pump_locked shutting w).call ≡ terminal_of w.call)
unfolding pump_locked
pump-terminal shutting w = ground arith

-- A section that does not answer keeps what was asked for.
abbrev pub Keeps : SvCall → CallLocked → Type 0
Keeps c w = (w.call.replied ≡ c.replied) × (terminal_of w.call ≡ terminal_of c)

pump-Keeps :
    (shutting : Bool) (c : SvCall) (w : CallLocked) → Keeps c w → Keeps c (pump_locked shutting w)
pump-Keeps shutting c w h =
    let (replied, terminal) = pump-terminal shutting w in (replied ∙ h.0, terminal ∙ h.1)

pub tag-Keeps :
    (shutting ok : Bool) (id : ℕ) (kind : Svop) (f : SvFilled) (c : SvCall)
    → Keeps c (on_sv_tag shutting id kind ok f c)
unfolding on_sv_tag on_accepted on_sv_read on_request on_sv_write on_sv_written on_done
tag-Keeps shutting ok id Svop.accept f c = ground arith
tag-Keeps shutting ok id Svop.read f c = ground arith
tag-Keeps shutting ok id Svop.write f c =
    if_rule (Keeps c) (ok && not c.dead)
      (λ _. pump-Keeps shutting c _ (
        if_rule (Keeps c) (is_empty (pop_front c.write_queue) && not c.replied) (λ _. (refl, refl))
          (λ _. (refl, refl))))
      (λ _. (refl, refl))
tag-Keeps shutting ok id Svop.done f c = ground arith
tag-Keeps shutting ok id Svop.finish f c = (refl, refl)

pub reply_terminal :
    (c : SvCall) (ctx : ServerContext) (response : Bytes) (code : ℤ) (message : Bytes)
    → reply_op response code message
      ≡ terminal_of (record c {
        replied = true;
        ctx = ctx;
        has_final_write = is_zero code;
        final_write = if is_zero code then response else c.final_write;
        final_status = status_of code message;
      })
reply_terminal c ctx response code message = ground arith

-- The same once a request has been asked.
abbrev pub AskFits : Option SvStreamOp → SvStreamOp → CallLocked × Bool → Type 0
AskFits asked op r =
    r.0.call.replied ≡ true → (if r.1 then some op else asked) ≡ some (terminal_of r.0.call)
