-- ===== src/Server/System/Refill.antt =====
-- src/server.cpp: which rounds of the completion thread post accept slots.
use rgrpc.Prelude.{
  pos_part, ◌≤◌, ◌⊎◌, arith, size, if_rule, ℕ, ◌+◌, ◌<◌, ◌^◌, is_zero, ◌≡◌, ◌≢◌, refl, ap, subst,
  inl, inr, Bool, true, false, some, find, Option-cases, some-injective,
}
use rgrpc.Server.Types.{Svop, SvCall, SvFilled, SvCompletion, Server}
use rgrpc.Server.Call.{CallLocked, on_sv_tag}
use rgrpc.Server.Round.{
  sv_outstanding, sv_complete, sv_complete_call, store_call, maybe_free_locked, wants_slot,
}
use rgrpc.Server.Frame.{accepts, store_call_lem}
use rgrpc.Server.Invariant.{IsServer}
use rgrpc.Server.Slots.{slots_filled}
use rgrpc.Server.Completions.{taken}
use rgrpc.Server.Rounds.{round-IsServer, accepted-IsServer}
use rgrpc.Server.System.{SvReach, later, completes, SvReach-IsServer}

-- Whether the round of a tag ends in `post_accepts_locked`.
abbrev pub refills : Svop → Bool → Bool
refills Svop.accept ok = ok
refills Svop.read ok = false
refills Svop.write ok = false
refills Svop.done ok = true
refills Svop.finish ok = true

refill_case :
    (j : Svop) (a : ℕ) (ok : Bool) (f : SvFilled) (s : Server) (c : SvCall)
    → IsServer s
    → find a s.heap ≡ some c
    → 0 < sv_outstanding a j s.cq
    → s.next_id + 1 < 2 ^ 64
    → refills j ok ≡ true
    → wants_slot (sv_complete_call a j ok f c (taken a j s)) ≡ false
unfolding sv_complete_call
refill_case Svop.accept a true f s c v found out room r =
    slots_filled _ (accepted-IsServer a f s c v found out room)
refill_case Svop.accept a false f s c v found out room r = cc
refill_case Svop.read a ok f s c v found out room r = cc
refill_case Svop.write a ok f s c v found out room r = cc
refill_case Svop.done a ok f s c v found out room r =
    slots_filled _ (round-IsServer a Svop.done ok f s c v found out (λ e. cc))
refill_case Svop.finish a ok f s c v found out room r =
    slots_filled _ (round-IsServer a Svop.finish ok f s c v found out (λ e. cc))

kept_slots :
    (a : ℕ) (w : CallLocked) (s : Server)
    → (maybe_free_locked a w.call (store_call a w s)).accepts_outstanding ≡ s.accepts_outstanding
unfolding maybe_free_locked
kept_slots a w s =
    let same = ap (λ (d : Server). d.accepts_outstanding) (store_call_lem a w s) in
    if_rule (λ (d : Server). d.accepts_outstanding ≡ s.accepts_outstanding) (is_zero w.call.pending)
      (λ _. same) (λ _. same)

quiet_case :
    (j : Svop) (a : ℕ) (ok : Bool) (f : SvFilled) (s : Server) (c : SvCall)
    → j ≢ Svop.accept
    → refills j ok ≡ false
    → (sv_complete_call a j ok f c (taken a j s)).accepts_outstanding ≡ s.accepts_outstanding
unfolding sv_complete_call
quiet_case Svop.accept a ok f s c n r = absurd (n refl)
quiet_case Svop.read a ok f s c n r =
    kept_slots a (on_sv_tag s.shutting s.next_id Svop.read ok f c) (taken a Svop.read s)
quiet_case Svop.write a ok f s c n r =
    kept_slots a (on_sv_tag s.shutting s.next_id Svop.write ok f c) (taken a Svop.write s)
quiet_case Svop.done a ok f s c n r = cc
quiet_case Svop.finish a ok f s c n r = cc

-- The same, by the condition and the counter of the loop.
posts_slots :
    {s : Server} (r : SvReach s) (e : SvCompletion) (d : Server)
    → 0 < sv_outstanding e.tag.call e.tag.kind s.cq
    → s.next_id + 1 < 2 ^ 64
    → sv_complete e s ≡ some d
    → (refills e.tag.kind e.ok ≡ true → wants_slot d ≡ false)
      × (e.tag.kind ≢ Svop.accept
          → refills e.tag.kind e.ok ≡ false
          → d.accepts_outstanding ≡ s.accepts_outstanding)
unfolding sv_complete
posts_slots {s} r e d out room done = elim (Option-cases (find e.tag.call s.heap)) [
  | inl gone ↦ let e1 = rw (gone, sv_complete) at done in cc
  | inr (c, found) ↦
      let j = e.tag.kind in
      let a = e.tag.call in
      let same = some-injective _ _ (rw (found, sv_complete) at done) in
      subst
        (λ (x : Server).
          (refills j e.ok ≡ true → wants_slot x ≡ false)
          × (j ≢ Svop.accept
              → refills j e.ok ≡ false
              → x.accepts_outstanding ≡ s.accepts_outstanding))
        same
        (
          refill_case j a e.ok e.filled s c (SvReach-IsServer r) found out room,
          quiet_case j a e.ok e.filled s c,
        )
]

-- No further slot has a place.
abbrev pub IsFull : Server → Type 0
IsFull d =
    (d.shutting ≡ true)
    ⊎ (accepts d.cq ≡ pos_part d.accept_window)
    ⊎ (pos_part d.max_active ≤ size d.active + accepts d.cq)

no_place : (d : Server) → IsServer d → wants_slot d ≡ false → IsFull d
no_place d v h = ground (arith, v.counted, v.window, h)

same_accepts :
    (s d : Server)
    → IsServer s
    → IsServer d
    → d.accepts_outstanding ≡ s.accepts_outstanding
    → accepts d.cq ≡ accepts s.cq
same_accepts s d v w h = ground (arith, v.counted, w.counted, h)

-- In a server that can be reached, after the round of an accept that came back with ok, of a done or of
-- a finish no slot is missing: the server is shutting down, or accept_window accept tags are
-- outstanding (0 if it is negative), or the calls in `active` and the accept tags reach max_active.
-- After the round of a read or of a write as many accept tags are outstanding as before, also where the
-- round deletes its call. Fewer than 2^64 ids may have been drawn.
pub rounds_refill :
    {s : Server} (r : SvReach s) (e : SvCompletion) (d : Server)
    → 0 < sv_outstanding e.tag.call e.tag.kind s.cq
    → s.next_id + 1 < 2 ^ 64
    → sv_complete e s ≡ some d
    → (refills e.tag.kind e.ok ≡ true → IsFull d)
      × (e.tag.kind ≢ Svop.accept → refills e.tag.kind e.ok ≡ false → accepts d.cq ≡ accepts s.cq)
rounds_refill {s} r e d out room done =
    let v = SvReach-IsServer r in
    let w = SvReach-IsServer (later r (completes e d out room done)) in
    let (full, same) = posts_slots r e d out room done in
    (λ h. no_place d w (full h), λ n h. same_accepts s d v w (same n h))
