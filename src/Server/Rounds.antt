-- ===== src/Server/Rounds.antt =====
-- src/server.cpp: each case of the switch in `run` and the invariant of the server.
use rgrpc.Prelude.{
  if_rule, ℕ, ◌+◌, ◌≤◌, ◌<◌, ◌^◌, ◌≡◌, ◌≢◌, refl, sym, ap, subst, ◌∙◌, inl, inr, Bool, true, false,
  arith, some, find, find-insert, find-insert-some, Option-cases, not, ◌&&◌, is_empty, pop_front,
}
use rgrpc.Server.Types.{Svop, SvCall, SvFilled, SvCompletion, Server}
use rgrpc.Server.Call.{
  CallLocked, on_sv_tag, on_accepted, on_sv_read, on_request, on_sv_write, on_sv_written, on_done,
  pump_locked,
}
use rgrpc.Server.Discipline.{sv_tally, on_sv_tag-CallHolds}
use rgrpc.Server.Round.{
  sv_outstanding, store_call, maybe_free_locked, take_slot, sv_complete_call, sv_complete,
}
use rgrpc.Server.Freeing.{maybe_free_locked-IsServer}
use rgrpc.Server.Invariant.{held_by, IsServer, stored-IsServer}
use rgrpc.Server.Slots.{post_accepts_locked-IsServer}
use rgrpc.Server.Completions.{
  taken, back, taken-IsServerBut, own_id, is_slot, slot-IsServerBut, accepted-IsServerBut,
}

-- Only an accepted slot gets an id, and no handler posts an accept.
abbrev pub Stays : ℕ → CallLocked → Type 0
Stays id w = (w.call.id ≡ id) × (sv_tally Svop.accept w.posted ≡ 0)

pub pump-Stays :
    (shutting : Bool) (id : ℕ) (w : CallLocked) → Stays id w → Stays id (pump_locked shutting w)
unfolding pump_locked
pump-Stays shutting id w h = ground (arith, h)

module _ (shutting ok : Bool) (f : SvFilled) (c : SvCall) (id : ℕ) where
  on_sv_tag-Stays : (j : Svop) → j ≢ Svop.accept → Stays c.id (on_sv_tag shutting id j ok f c)
  unfolding on_sv_tag on_sv_read on_request on_sv_write on_sv_written on_done
  on_sv_tag-Stays Svop.accept n = absurd (n refl)
  on_sv_tag-Stays Svop.read n = ground arith
  on_sv_tag-Stays Svop.write n =
      if_rule (Stays c.id) (ok && not c.dead)
        (λ _. pump-Stays shutting c.id _ (
          if_rule (Stays c.id) (is_empty (pop_front c.write_queue) && not c.replied)
            (λ _. (refl, refl)) (λ _. (refl, refl))))
        (λ _. (refl, refl))
  on_sv_tag-Stays Svop.done n = ground arith
  on_sv_tag-Stays Svop.finish n = (refl, refl)

  accepted_call :
      ok ≡ true
      → ((on_sv_tag shutting id Svop.accept ok f c).call.id ≡ id)
        × (sv_tally Svop.accept (on_sv_tag shutting id Svop.accept ok f c).posted ≡ 0)
        × (1 ≤ sv_tally Svop.done (on_sv_tag shutting id Svop.accept ok f c).posted)
  unfolding on_sv_tag on_accepted
  accepted_call e = ground (arith, e)

  refused_call : ok ≡ false → Stays c.id (on_sv_tag shutting id Svop.accept ok f c)
  unfolding on_sv_tag
  refused_call e = ground (arith, e)

-- A round that is not of an accept.
module _ (a : ℕ) (j : Svop) (ok : Bool) (f : SvFilled) (s : Server) (c : SvCall) (v : IsServer s)
    (found : find a s.heap ≡ some c) (out : 0 < sv_outstanding a j s.cq) (n : j ≢ Svop.accept) where
  pub round-IsServer :
      let w = on_sv_tag s.shutting s.next_id j ok f c in
      IsServer (maybe_free_locked a w.call (store_call a w (taken a j s)))
  round-IsServer =
      let w = on_sv_tag s.shutting s.next_id j ok f c in
      let l = v.calls a c found in
      let (same, quiet) = on_sv_tag-Stays s.shutting ok f c s.next_id j n in
      maybe_free_locked-IsServer a w (taken a j s) (taken-IsServerBut a j s c v found out n)
        (on_sv_tag-CallHolds _ (held_by s.cq a) s.shutting ok f c s.next_id l.sound
          (ground (arith, v.ids)) j (back a j s c v found out))
        quiet
        (λ i e. let (named, nonzero) = own_id a j s c v found out i e in (same ∙ named, nonzero))
        (λ nonzero. ap (λ i. find i s.active) same ∙ l.registered (λ z. nonzero (same ∙ z)))
        (subst (λ i. i < s.next_id) (sym same) l.old)

module _ (a : ℕ) (f : SvFilled) (s : Server) (c : SvCall) (v : IsServer s)
    (found : find a s.heap ≡ some c) (out : 0 < sv_outstanding a Svop.accept s.cq) where
  -- The accept of a slot that no call has filled.
  refused-IsServer :
      let w = on_sv_tag s.shutting s.next_id Svop.accept false f c in
      IsServer
        (maybe_free_locked a w.call (store_call a w (take_slot false a (taken a Svop.accept s))))
  refused-IsServer =
      let w = on_sv_tag s.shutting s.next_id Svop.accept false f c in
      let l = v.calls a c found in
      let (same, quiet) = refused_call s.shutting false f c s.next_id refl in
      maybe_free_locked-IsServer a w (take_slot false a (taken a Svop.accept s))
        (slot-IsServerBut a s c v found out)
        (on_sv_tag-CallHolds _ (held_by s.cq a) s.shutting false f c s.next_id l.sound
          (ground (arith, v.ids)) Svop.accept (back a Svop.accept s c v found out))
        quiet
        (λ i e.
          let (named, nonzero) = own_id a Svop.accept s c v found out i e in
          (same ∙ named, nonzero))
        (λ nonzero. ap (λ i. find i s.active) same ∙ l.registered (λ z. nonzero (same ∙ z)))
        (subst (λ i. i < s.next_id) (sym same) l.old)

  -- A call is accepted: it is stored under its new id.
  pub accepted-IsServer :
      s.next_id + 1 < 2 ^ 64
      → let w = on_sv_tag s.shutting s.next_id Svop.accept true f c in
        IsServer (store_call a w (take_slot true a (taken a Svop.accept s)))
  accepted-IsServer room =
      let w = on_sv_tag s.shutting s.next_id Svop.accept true f c in
      let l = v.calls a c found in
      let (named, quiet, live) = accepted_call s.shutting true f c s.next_id refl in
      let holds =
        on_sv_tag-CallHolds _ (held_by s.cq a) s.shutting true f c s.next_id l.sound
          (ground (arith, v.ids)) Svop.accept (back a Svop.accept s c v found out) in
      stored-IsServer a w (take_slot true a (taken a Svop.accept s))
        (accepted-IsServerBut a s c v found out room) holds quiet
        (λ i e. elim (find-insert-some i s.next_id a a s.active e) [
          | inl (here, _) ↦ (named ∙ sym here, ground (arith, here, v.ids))
          | inr (_, e1) ↦
              let (own, nonzero) = own_id a Svop.accept s c v found out i e1 in
              absurd (nonzero (sym own ∙ is_slot a s c v found out))
        ])
        (λ nonzero. ground (arith, named, find-insert s.next_id s.next_id a s.active))
        (ground (arith, holds.counted, live)) (ground (arith, named, room))

round_case :
    (j : Svop) (a : ℕ) (ok : Bool) (f : SvFilled) (s : Server) (c : SvCall)
    → IsServer s
    → find a s.heap ≡ some c
    → 0 < sv_outstanding a j s.cq
    → s.next_id + 1 < 2 ^ 64
    → IsServer (sv_complete_call a j ok f c (taken a j s))
unfolding sv_complete_call
round_case Svop.accept a true f s c v found out room =
    post_accepts_locked-IsServer _ (accepted-IsServer a f s c v found out room)
round_case Svop.accept a false f s c v found out room = refused-IsServer a f s c v found out
round_case Svop.read a ok f s c v found out room =
    round-IsServer a Svop.read ok f s c v found out (λ e. cc)
round_case Svop.write a ok f s c v found out room =
    round-IsServer a Svop.write ok f s c v found out (λ e. cc)
round_case Svop.done a ok f s c v found out room =
    post_accepts_locked-IsServer _ (round-IsServer a Svop.done ok f s c v found out (λ e. cc))
round_case Svop.finish a ok f s c v found out room =
    post_accepts_locked-IsServer _ (round-IsServer a Svop.finish ok f s c v found out (λ e. cc))

-- A tag that the queue returns finds its call, and the invariant holds again afterwards.
pub sv_complete-IsServer :
    (e : SvCompletion) (s : Server)
    → IsServer s
    → 0 < sv_outstanding e.tag.call e.tag.kind s.cq
    → s.next_id + 1 < 2 ^ 64
    → (d : Server) × (sv_complete e s ≡ some d) × IsServer d
unfolding sv_complete
sv_complete-IsServer e s v out room = elim (Option-cases (find e.tag.call s.heap)) [
  | inl gone ↦ absurd (omega (arith, v.no_call e.tag.call gone e.tag.kind))
  | inr (c, found) ↦ (
    _,
    rw (found, sv_complete) refl,
    round_case e.tag.kind e.tag.call e.ok e.filled s c v found out room,
  )
]
