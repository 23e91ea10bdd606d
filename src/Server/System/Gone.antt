-- ===== src/Server/System/Gone.antt =====
-- src/server.cpp: what the completion thread and R's calls leave of a call that is over.
use rgrpc.Prelude.{
  ℕ, zero, suc, ◌+◌, ◌≤◌, ◌<◌, ◌^◌, Bool, true, false, not, ◌≡◌, ◌≢◌, ap, subst, inl, inr, List,
  none, some, some-injective, arith, count-append, find, find-insert, find-erase, Bool-cases,
  Option-cases, is_zero, if_rule, ◌==◌,
}
use rgrpc.Server.Types.{Svop, SvCall, Server, SvFilled, SvCompletion}
use rgrpc.Server.Call.{CallLocked, on_sv_tag}
use rgrpc.Server.Round.{
  accepts_loop, maybe_free_locked, post_accepts_locked, post_slot, store_call, sv_complete,
  sv_complete_call, sv_take_tag, take_slot, wants_slot,
}
use rgrpc.Server.Api.{on_call}
use rgrpc.Server.Frame.{store_call_lem}
use rgrpc.Server.Invariant.{IsServer}
use rgrpc.Server.Asking.{SvRequest, ask}
use rgrpc.Server.Owning.{sv_events_of, other_events, tag-IsOwnedBy, ask-quiet}

-- An id that was drawn, and of which there is no call in `active`.
pub record IsOver (i : ℕ) (s : Server) : Type 0 where
  pub named : 0 < i
  pub drawn : i < s.next_id
  pub gone : find i s.active ≡ none

-- What a step leaves of it.
pub record SvLeaves (i : ℕ) (s d : Server) : Type 0 where
  pub over : IsOver i d
  pub events : sv_events_of i d.ready ≤ sv_events_of i s.ready

module _ (i : ℕ) where
  SvLeaves-refl : (s : Server) → IsOver i s → SvLeaves i s s
  SvLeaves-refl s o = record { over = o; events = omega arith }

  then_leaves : (s d e : Server) → SvLeaves i s d → (IsOver i d → SvLeaves i d e) → SvLeaves i s e
  then_leaves s d e a f =
      let b = f a.over in record { over = b.over; events = omega (arith, a.events, b.events) }

  store_call-SvLeaves :
      (a : ℕ) (w : CallLocked) (s : Server)
      → IsOver i s
      → sv_events_of i w.events ≡ 0
      → SvLeaves i s (store_call a w s)
  store_call-SvLeaves a w s o quiet = rw (store_call_lem a w s) (record {
    over = record { named = o.named; drawn = o.drawn; gone = o.gone };
    events = omega (arith, count-append (λ ev. ev.id == i) s.ready w.events, quiet);
  })

  maybe_free-SvLeaves :
      (a : ℕ) (c : SvCall) (s : Server) → IsOver i s → SvLeaves i s (maybe_free_locked a c s)
  unfolding maybe_free_locked
  maybe_free-SvLeaves a c s o =
      if_rule (SvLeaves i s) (is_zero c.pending)
        (λ _. record {
          over = record {
            named = o.named;
            drawn = o.drawn;
            gone =
                if_rule (λ (m : List (ℕ × ℕ)). find i m ≡ none) (not (c.id == 0))
                  (λ _. ground (arith, o.gone, find-erase i c.id s.active)) (λ _. o.gone);
          };
          events = omega arith;
        })
        (λ _. SvLeaves-refl s o)

  accepts_loop-SvLeaves : (fuel : ℕ) (s : Server) → IsOver i s → SvLeaves i s (accepts_loop fuel s)
  unfolding accepts_loop
  accepts_loop-SvLeaves zero s o = SvLeaves-refl s o
  accepts_loop-SvLeaves (suc fuel) s o = elim (Bool-cases (wants_slot s)) [
    | inr full ↦ rw (full, accepts_loop) (SvLeaves-refl s o)
    | inl room ↦
        let rest =
          accepts_loop-SvLeaves fuel (post_slot s)
            (record { named = o.named; drawn = o.drawn; gone = o.gone }) in
        rw (room, accepts_loop) (record { over = rest.over; events = rest.events })
  ]

  post_accepts-SvLeaves : (s : Server) → IsOver i s → SvLeaves i s (post_accepts_locked s)
  unfolding post_accepts_locked
  post_accepts-SvLeaves s o = accepts_loop-SvLeaves _ s o

  -- A section on another call, and its end.
  round-SvLeaves :
      (a : ℕ) (w : CallLocked) (s : Server)
      → IsOver i s
      → sv_events_of i w.events ≡ 0
      → SvLeaves i s (maybe_free_locked a w.call (store_call a w s))
  round-SvLeaves a w s o quiet =
      then_leaves s (store_call a w s) _ (store_call-SvLeaves a w s o quiet)
        (maybe_free-SvLeaves a w.call (store_call a w s))

  -- The slot that is taken draws another id.
  take_slot-SvLeaves :
      (ok : Bool) (a : ℕ) (s : Server)
      → IsOver i s
      → s.next_id + 1 < 2 ^ 64
      → SvLeaves i s (take_slot ok a s)
  take_slot-SvLeaves true a s o room = record {
    over = record {
      named = o.named;
      drawn = ground (arith, o.drawn, room);
      gone = ground (arith, o.gone, o.drawn, find-insert i s.next_id a s.active);
    };
    events = omega arith;
  }
  take_slot-SvLeaves false a s o room = record {
    over = record { named = o.named; drawn = o.drawn; gone = o.gone };
    events = omega arith;
  }

  complete_call-SvLeaves :
      (a : ℕ) (k : Svop) (ok : Bool) (f : SvFilled) (c : SvCall) (s : Server)
      → IsOver i s
      → s.next_id + 1 < 2 ^ 64
      → i ≢ c.id
      → SvLeaves i s (sv_complete_call a k ok f c s)
  unfolding sv_complete_call
  complete_call-SvLeaves a k ok f c s o room other = by k
    where
      quiet : (j : Svop) → sv_events_of i (on_sv_tag s.shutting s.next_id j ok f c).events ≡ 0
      quiet j = other_events i c.id _ other (tag-IsOwnedBy s.shutting ok s.next_id j f c)

      after :
          (j : Svop)
          → let w = on_sv_tag s.shutting s.next_id j ok f c in
            SvLeaves i s (maybe_free_locked a w.call (store_call a w s))
      after j = round-SvLeaves a (on_sv_tag s.shutting s.next_id j ok f c) s o (quiet j)

      by : (j : Svop) → SvLeaves i s (sv_complete_call a j ok f c s)
      by Svop.accept =
          let w = on_sv_tag s.shutting s.next_id Svop.accept ok f c in
          let slot =
            then_leaves s (take_slot ok a s) (store_call a w (take_slot ok a s))
              (take_slot-SvLeaves ok a s o room)
              (λ o1. store_call-SvLeaves a w (take_slot ok a s) o1 (quiet Svop.accept)) in
          if_rule (SvLeaves i s) ok (λ _. then_leaves s _ _ slot (post_accepts-SvLeaves _))
            (λ _. then_leaves s _ _ slot (maybe_free-SvLeaves a w.call _))
      by Svop.read = after Svop.read
      by Svop.write = after Svop.write
      by Svop.done = then_leaves s _ _ (after Svop.done) (post_accepts-SvLeaves _)
      by Svop.finish = then_leaves s _ _ (after Svop.finish) (post_accepts-SvLeaves _)

-- A call that is not deleted has another id.
pub no_call_named :
    (i : ℕ) (s : Server)
    → IsServer s
    → IsOver i s
    → (a : ℕ) (c : SvCall) → find a s.heap ≡ some c
    → i ≢ c.id
no_call_named i s v o a c found same =
    let here = (v.calls a c found).registered (λ z. ground (arith, o.named, same, z)) in
    ground (arith, o.gone, here, same)

pub sv_complete-SvLeaves :
    (i : ℕ) (e : SvCompletion) (s d : Server)
    → IsServer s
    → IsOver i s
    → s.next_id + 1 < 2 ^ 64
    → sv_complete e s ≡ some d
    → SvLeaves i s d
unfolding sv_complete
sv_complete-SvLeaves i e s d v o room done = elim (Option-cases (find e.tag.call s.heap)) [
  | inl gone ↦ let e1 = rw (gone, sv_complete) at done in cc
  | inr (c, found) ↦
      let b =
        complete_call-SvLeaves i e.tag.call e.tag.kind e.ok e.filled c
          (record s { cq = sv_take_tag e.tag.call e.tag.kind s.cq })
          (record { named = o.named; drawn = o.drawn; gone = o.gone }) room
          (no_call_named i s v o e.tag.call c found) in
      subst (SvLeaves i s) (some-injective _ _ (rw (found, sv_complete) at done))
        (record { over = b.over; events = b.events })
]

pub on_call-SvLeaves :
    (i want : ℕ) (q : SvRequest) (s d : Server) (accepted : Bool)
    → IsOver i s
    → on_call want (ask s.shutting q) s ≡ some (d, accepted)
    → SvLeaves i s d
unfolding on_call
on_call-SvLeaves i want q s d accepted o done = elim (Option-cases (find want s.active)) [
  | inl gone ↦
      subst (λ (r : Server × Bool). SvLeaves i s r.0)
        (some-injective _ _ (rw (gone, on_call) at done)) (SvLeaves-refl i s o)
  | inr (a, here) ↦ elim (Option-cases (find a s.heap)) [
    | inl gone ↦ let e1 = rw (here, gone, on_call) at done in cc
    | inr (c, found) ↦
        subst (λ (r : Server × Bool). SvLeaves i s r.0)
          (some-injective _ _ (rw (here, found, on_call) at done))
          (store_call-SvLeaves i a (ask s.shutting q c).0 s o
            (ap (sv_events_of i) (ask-quiet s.shutting q c)))
  ]
]
