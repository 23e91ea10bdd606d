-- ===== src/Server/Adding.antt =====
-- src/server.cpp: a round of the completion thread adds events at the end of `ready`.
use rgrpc.Prelude.{
  ℕ, Bool, true, false, ◌≡◌, refl, sym, ap, ◌∙◌, subst, inl, inr, List, [], ◌∷◌, ◌++◌, append-nil,
  append_assoc, some, zero, suc, arith, find, Bool-cases, Option-cases, some-injective, is_zero,
  if_rule,
}
use rgrpc.Wake.{WakeHandle, wake_signal}
use rgrpc.Server.Types.{Svop, SvEvent, SvCall, Server, SvFilled, SvCompletion}
use rgrpc.Server.Call.{CallLocked, on_sv_tag}
use rgrpc.Server.Round.{
  accepts_loop, maybe_free_locked, post_accepts_locked, post_slot, store_call, sv_complete,
  sv_complete_call, sv_take_tag, take_slot, wants_slot,
}
use rgrpc.Server.Frame.{sv_signals, store_call_lem}

-- What a round of the completion thread leaves of the rest: it only adds events at the end.
pub record SvAdds (s d : Server) : Type 0 where
  pub closed : d.closed ≡ s.closed
  pub capacity : d.wake.capacity ≡ s.wake.capacity
  pub ready : (new : List SvEvent) × (d.ready ≡ s.ready ++ new)

sv_signals-capacity :
    (evs : List SvEvent) (h : WakeHandle) → (sv_signals evs h).capacity ≡ h.capacity
unfolding sv_signals wake_signal
sv_signals-capacity [] h = refl
sv_signals-capacity (ev ∷ evs) h = sv_signals-capacity evs (wake_signal h) ∙ ground arith

pub SvAdds-refl : (s : Server) → SvAdds s s
SvAdds-refl s = record { closed = refl; capacity = refl; ready = ([], sym (append-nil s.ready)) }

pub SvAdds-trans : {s d e : Server} → SvAdds s d → SvAdds d e → SvAdds s e
SvAdds-trans {s} a b =
    let (new, e) = a.ready in
    let (more, f) = b.ready in
    record {
      closed = b.closed ∙ a.closed;
      capacity = b.capacity ∙ a.capacity;
      ready = (new ++ more, f ∙ ap (λ l. l ++ more) e ∙ append_assoc s.ready new more);
    }

store_call-SvAdds : (a : ℕ) (w : CallLocked) (s : Server) → SvAdds s (store_call a w s)
store_call-SvAdds a w s = rw (store_call_lem a w s) (record {
  closed = refl;
  capacity = sv_signals-capacity w.events s.wake;
  ready = (w.events, refl);
})

maybe_free-SvAdds : (a : ℕ) (c : SvCall) (s : Server) → SvAdds s (maybe_free_locked a c s)
unfolding maybe_free_locked
maybe_free-SvAdds a c s =
    let same = SvAdds-refl s in
    if_rule (SvAdds s) (is_zero c.pending)
      (λ _. record { closed = same.closed; capacity = same.capacity; ready = same.ready })
      (λ _. same)

accepts_loop-SvAdds : (fuel : ℕ) (s : Server) → SvAdds s (accepts_loop fuel s)
unfolding accepts_loop
accepts_loop-SvAdds zero s = SvAdds-refl s
accepts_loop-SvAdds (suc fuel) s = elim (Bool-cases (wants_slot s)) [
  | inr full ↦ rw (full, accepts_loop) (SvAdds-refl s)
  | inl room ↦
      let rest = accepts_loop-SvAdds fuel (post_slot s) in
      rw (room, accepts_loop)
        (record { closed = rest.closed; capacity = rest.capacity; ready = rest.ready })
]

post_accepts-SvAdds : (s : Server) → SvAdds s (post_accepts_locked s)
unfolding post_accepts_locked
post_accepts-SvAdds s = accepts_loop-SvAdds _ s

-- A section on a call, and its end.
round-SvAdds :
    (a : ℕ) (w : CallLocked) (s : Server) → SvAdds s (maybe_free_locked a w.call (store_call a w s))
round-SvAdds a w s =
    SvAdds-trans (store_call-SvAdds a w s) (maybe_free-SvAdds a w.call (store_call a w s))

slot-SvAdds :
    (ok : Bool) (a : ℕ) (w : CallLocked) (s : Server) → SvAdds s (store_call a w (take_slot ok a s))
slot-SvAdds true a w s =
    let b = store_call-SvAdds a w (take_slot true a s) in
    record { closed = b.closed; capacity = b.capacity; ready = b.ready }
slot-SvAdds false a w s =
    let b = store_call-SvAdds a w (take_slot false a s) in
    record { closed = b.closed; capacity = b.capacity; ready = b.ready }

sv_complete_call-SvAdds :
    (a : ℕ) (k : Svop) (ok : Bool) (f : SvFilled) (c : SvCall) (s : Server)
    → SvAdds s (sv_complete_call a k ok f c s)
unfolding sv_complete_call
sv_complete_call-SvAdds a Svop.accept ok f c s =
    let w = on_sv_tag s.shutting s.next_id Svop.accept ok f c in
    let stored = slot-SvAdds ok a w s in
    if_rule (SvAdds s) ok (λ _. SvAdds-trans stored (post_accepts-SvAdds _))
      (λ _. SvAdds-trans stored (maybe_free-SvAdds a w.call _))
sv_complete_call-SvAdds a Svop.read ok f c s =
    round-SvAdds a (on_sv_tag s.shutting s.next_id Svop.read ok f c) s
sv_complete_call-SvAdds a Svop.write ok f c s =
    round-SvAdds a (on_sv_tag s.shutting s.next_id Svop.write ok f c) s
sv_complete_call-SvAdds a Svop.done ok f c s =
    SvAdds-trans (round-SvAdds a (on_sv_tag s.shutting s.next_id Svop.done ok f c) s)
      (post_accepts-SvAdds _)
sv_complete_call-SvAdds a Svop.finish ok f c s =
    SvAdds-trans (round-SvAdds a (on_sv_tag s.shutting s.next_id Svop.finish ok f c) s)
      (post_accepts-SvAdds _)

pub sv_complete-SvAdds : (e : SvCompletion) (s d : Server) → sv_complete e s ≡ some d → SvAdds s d
unfolding sv_complete
sv_complete-SvAdds e s d done = elim (Option-cases (find e.tag.call s.heap)) [
  | inl gone ↦ let e1 = rw (gone, sv_complete) at done in cc
  | inr (c, found) ↦
      let b =
        sv_complete_call-SvAdds e.tag.call e.tag.kind e.ok e.filled c
          (record s { cq = sv_take_tag e.tag.call e.tag.kind s.cq }) in
      subst (SvAdds s) (some-injective _ _ (rw (found, sv_complete) at done))
        (record { closed = b.closed; capacity = b.capacity; ready = b.ready })
]
