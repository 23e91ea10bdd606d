-- ===== src/Server/System/Finality.antt =====
-- src/server.cpp: a call that is over stays over.
use rgrpc.Prelude.{
  ℕ, suc, ◌≤◌, ◌<◌, ℤ, pos, ltb_ℤ, Bool, false, not, ◌≡◌, ◌≢◌, refl, ap, ◌∙◌, inl, inr, List, [],
  ◌∷◌, none, some, arith, find, Bool-cases, if_rule, is_empty, sym,
}
use rgrpc.Server.Types.{SvCall, SvEvent, Server}
use rgrpc.Server.Api.{on_call}
use rgrpc.Server.Poll.{sv_take_events, sv_take_batch}
use rgrpc.Server.Lifecycle.{begin_sv_shutdown}
use rgrpc.Server.Invariant.{IsServer}
use rgrpc.Server.Asking.{SvRequest, ask}
use rgrpc.Server.System.{
  completes, asks, waits, polls, shuts, SvReach, SvStep, later, SvReach-IsServer,
}
use rgrpc.Server.Owning.{sv_events_of}
use rgrpc.Server.System.Gone.{
  IsOver, SvLeaves, no_call_named, sv_complete-SvLeaves, on_call-SvLeaves,
}

left_events :
    (i : ℕ) (p : SvEvent → Bool) (maxn : ℤ) (n : ℕ) (evs : List SvEvent)
    → sv_events_of i (sv_take_events p maxn n evs).1 ≤ sv_events_of i evs
unfolding sv_take_events
left_events i p maxn n [] = omega arith
left_events i p maxn n (ev ∷ evs) = elim (Bool-cases (ltb_ℤ (pos n) maxn)) [
  | inr full ↦ rw (full, sv_take_events) (omega arith)
  | inl room ↦ elim (Bool-cases (p ev)) [
    | inl match ↦ rw (room, match, sv_take_events) (omega (arith, left_events i p maxn (suc n) evs))
    | inr other ↦ rw (room, other, sv_take_events) (omega (arith, left_events i p maxn n evs))
  ]
]

same-IsOver :
    (i : ℕ) (s d : Server) → IsOver i s → d.next_id ≡ s.next_id → d.active ≡ s.active → IsOver i d
same-IsOver i s d o ids actives = record {
  named = o.named;
  drawn = ground (arith, o.drawn, ids);
  gone = ap (find i) actives ∙ o.gone;
}

take_batch-SvLeaves :
    (i : ℕ) (p : SvEvent → Bool) (maxn : ℤ) (s : Server)
    → IsOver i s
    → SvLeaves i s (sv_take_batch p maxn s).1
unfolding sv_take_batch
take_batch-SvLeaves i p maxn s o =
    if_rule (SvLeaves i s) (not (is_empty (sv_take_events p maxn 0 s.ready).1))
      (λ _. record {
        over = same-IsOver i s _ o refl refl;
        events = left_events i p maxn 0 s.ready;
      })
      (λ _. record {
        over = same-IsOver i s _ o refl refl;
        events = left_events i p maxn 0 s.ready;
      })

SvStep-SvLeaves : (i : ℕ) {s d : Server} → IsServer s → IsOver i s → SvStep s d → SvLeaves i s d
unfolding begin_sv_shutdown
SvStep-SvLeaves i {s} v o (completes e d out room done) = sv_complete-SvLeaves i e s d v o room done
SvStep-SvLeaves i {s} v o (asks want q d accepted up done) =
    on_call-SvLeaves i want q s d accepted o done
SvStep-SvLeaves i {s} v o (waits up) = record {
  over = same-IsOver i s _ o refl refl;
  events = omega arith;
}
SvStep-SvLeaves i {s} v o (polls p maxn up) = take_batch-SvLeaves i p maxn s o
SvStep-SvLeaves i {s} v o (shuts up) = record {
  over = same-IsOver i s _ o refl refl;
  events = omega arith;
}

-- Any number of steps.
pub data SvSteps (s : Server) : Server → Type 0 where
  start : SvSteps s s
  next : {d e : Server} → SvSteps s d → SvStep d e → SvSteps s e

SvReach-SvSteps : {s d : Server} → SvReach s → SvSteps s d → SvReach d
SvReach-SvSteps r SvSteps.start = r
SvReach-SvSteps r (SvSteps.next more st) = later (SvReach-SvSteps r more) st

SvSteps-SvLeaves : (i : ℕ) {s d : Server} → SvReach s → IsOver i s → SvSteps s d → SvLeaves i s d
SvSteps-SvLeaves i r o SvSteps.start = record { over = o; events = omega arith }
SvSteps-SvLeaves i r o (SvSteps.next more st) =
    let a = SvSteps-SvLeaves i r o more in
    let b = SvStep-SvLeaves i (SvReach-IsServer (SvReach-SvSteps r more)) a.over st in
    record { over = b.over; events = omega (arith, a.events, b.events) }

-- A call that is over stays over. In a server that can be reached, take an id that has been drawn and is
-- not in `active`. Whatever happens afterwards, the id is not in `active` and no call that is not
-- deleted has it; no more events with the id are queued than were before; and every reply, read,
-- cancel, send or finish on it changes nothing and answers FALSE.
pub over_is_final :
    {s d : Server} (r : SvReach s) (i : ℕ)
    → 0 < i
    → i < s.next_id
    → find i s.active ≡ none
    → SvSteps s d
    → (find i d.active ≡ none)
      × ((a : ℕ) (c : SvCall) → find a d.heap ≡ some c → c.id ≢ i)
      × (sv_events_of i d.ready ≤ sv_events_of i s.ready)
      × ((q : SvRequest) → on_call i (ask d.shutting q) d ≡ some (d, false))
unfolding on_call
over_is_final {s} {d} r i named drawn gone more =
    let b = SvSteps-SvLeaves i r (record { named = named; drawn = drawn; gone = gone }) more in
    (
      b.over.gone,
      λ a c found same.
          no_call_named i d (SvReach-IsServer (SvReach-SvSteps r more)) b.over a c found (sym same),
      b.events,
      λ q. rw (b.over.gone, on_call) refl,
    )
