-- ===== src/Server/Owning.antt =====
-- src/server.cpp: whose events a critical section puts into `ready`.
use rgrpc.Prelude.{
  ℕ, Bool, not, ◌&&◌, ◌≡◌, ◌≢◌, refl, sym, subst, List, [], ◌∷◌, arith, count, if_rule, ◌==◌,
  is_empty, pop_front,
}
use rgrpc.Server.Types.{Svop, SvCall, SvEvent, SvFilled}
use rgrpc.Server.Call.{
  CallLocked, pump_locked, on_sv_tag, on_sv_read, on_request, on_sv_write, on_sv_written, on_done,
  on_accepted, reply_locked, read_locked, try_cancel_locked, sv_send_locked, finish_locked,
}
use rgrpc.Server.Asking.{SvRequest, ask}

-- The events of one call in `ready`.
abbrev pub sv_events_of : ℕ → List SvEvent → ℕ
sv_events_of i evs = count (λ ev. ev.id == i) evs

-- The events of a section are of the call `j`.
abbrev pub IsOwnedBy : ℕ → List SvEvent → Type 0
IsOwnedBy j [] = Unit {0}
IsOwnedBy j (ev ∷ evs) = (ev.id ≡ j) × IsOwnedBy j evs

pub other_events : (i j : ℕ) (evs : List SvEvent) → i ≢ j → IsOwnedBy j evs → sv_events_of i evs ≡ 0
other_events i j [] n h = refl
other_events i j (ev ∷ evs) n h = ground (arith, other_events i j evs n h.1)

pump-events : (shutting : Bool) (w : CallLocked) → (pump_locked shutting w).events ≡ w.events
unfolding pump_locked
pump-events shutting w = ground arith

pub tag-IsOwnedBy :
    (shutting ok : Bool) (id : ℕ) (j : Svop) (f : SvFilled) (c : SvCall)
    → IsOwnedBy c.id (on_sv_tag shutting id j ok f c).events
unfolding on_sv_tag on_accepted on_sv_read on_request on_sv_write on_sv_written on_done
tag-IsOwnedBy shutting ok id Svop.accept f c = ground arith
tag-IsOwnedBy shutting ok id Svop.read f c = ground arith
tag-IsOwnedBy shutting ok id Svop.write f c =
    if_rule (λ (w : CallLocked). IsOwnedBy c.id w.events) (ok && not c.dead)
      (λ _. subst (IsOwnedBy c.id) (sym (pump-events shutting _)) (
        if_rule (λ (w : CallLocked). IsOwnedBy c.id w.events)
          (is_empty (pop_front c.write_queue) && not c.replied) (λ _. (refl, tt)) (λ _. tt)))
      (λ _. tt)
tag-IsOwnedBy shutting ok id Svop.done f c = ground arith
tag-IsOwnedBy shutting ok id Svop.finish f c = tt

-- What R asks of a call puts no event into `ready`.
pub ask-quiet : (shutting : Bool) (q : SvRequest) (c : SvCall) → (ask shutting q c).0.events ≡ []
unfolding reply_locked read_locked try_cancel_locked sv_send_locked finish_locked pump_locked
ask-quiet shutting (SvRequest.reply response code message metadata) c = ground arith
ask-quiet shutting SvRequest.read c = ground arith
ask-quiet shutting SvRequest.cancel c = ground arith
ask-quiet shutting (SvRequest.send bytes) c = ground arith
ask-quiet shutting (SvRequest.finish code message metadata drain) c = ground arith
