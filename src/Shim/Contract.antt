-- ===== src/Shim/Contract.antt =====
-- src/shim.cpp: the order of calls that the comment above `spike_server` asks for, as a machine on the
-- calls for one address.
use rgrpc.Prelude.{
  ℕ, suc, zero, Bool, true, false, ◌≡◌, refl, List, [], ◌∷◌, ◌++◌, Option, none, some, arith, ◌==◌,
  if◌then◌else◌, Bool-cases, Option-cases, inl, inr, ◌≢◌, sym,
}
use rgrpc.Shim.Handles.{GrpcCall, Object, next_loop, teardown}

-- `serving` has a running server and a queue, `idle` a queue only, `connected` a channel.
pub data Phase : Type 0 where
  unborn connected idle serving stopped : Phase
  draining drained : Bool → Phase  -- whether there is a server, which is shut down
  gone : Phase

-- A channel is closed after it is opened. A queue is reset only once it is shut down and drained, unless
-- no server was started on it; a queue that serves is shut down only after its server; and a server is
-- reset after its queue is drained, and before the queue is reset.
abbrev pub next_phase : Phase → GrpcCall → Option Phase
next_phase Phase.unborn (GrpcCall.open_channel a) = some Phase.connected
next_phase Phase.connected (GrpcCall.close_channel a) = some Phase.gone
next_phase Phase.unborn (GrpcCall.open_queue a) = some Phase.idle
next_phase Phase.idle (GrpcCall.start_server a) = some Phase.serving
next_phase Phase.idle (GrpcCall.shutdown_queue a) = some (Phase.draining false)
next_phase Phase.idle (GrpcCall.reset_queue a) = some Phase.gone
next_phase Phase.serving (GrpcCall.shutdown_server a) = some Phase.stopped
next_phase Phase.stopped (GrpcCall.shutdown_queue a) = some (Phase.draining true)
next_phase (Phase.draining had) (GrpcCall.next a true) = some (Phase.draining had)
next_phase (Phase.draining had) (GrpcCall.next a false) = some (Phase.drained had)
next_phase (Phase.drained true) (GrpcCall.reset_server a) = some (Phase.drained false)
next_phase (Phase.drained false) (GrpcCall.reset_queue a) = some Phase.gone
next_phase _ _ = none

abbrev pub address_of : GrpcCall → ℕ
address_of (GrpcCall.start_server a) = a
address_of (GrpcCall.shutdown_server a) = a
address_of (GrpcCall.reset_server a) = a
address_of (GrpcCall.open_queue a) = a
address_of (GrpcCall.shutdown_queue a) = a
address_of (GrpcCall.reset_queue a) = a
address_of (GrpcCall.next a ok) = a
address_of (GrpcCall.open_channel a) = a
address_of (GrpcCall.close_channel a) = a

-- The phase of the object at `a` after these calls; `none` if one was out of order.
unfoldable pub phase_after : ℕ → Phase → List GrpcCall → Option Phase
phase_after a p [] = some p
phase_after a p (g ∷ gs) = elim (address_of g == a) [
  | false ↦ phase_after a p gs
  | true ↦ elim (next_phase p g) [ none ↦ none | some q ↦ phase_after a q gs ]
]

pub phase_after-append :
    (a : ℕ) (p q : Phase) (xs ys : List GrpcCall)
    → phase_after a p xs ≡ some q
    → phase_after a p (xs ++ ys) ≡ phase_after a q ys
unfolding phase_after
phase_after-append a p q [] ys h = ground (arith, h)
phase_after-append a p q (g ∷ gs) ys h = elim (Bool-cases (address_of g == a)) [
  | inr other ↦ ground (arith, other, h, phase_after-append a p q gs ys)
  | inl same ↦ elim (Option-cases (next_phase p g)) [
    | inl bad ↦ ground (arith, same, bad, h)
    | inr (r, ok) ↦ ground (arith, same, ok, h, phase_after-append a r q gs ys)
  ]
]

-- Calls for another address.
abbrev pub Elsewhere : ℕ → List GrpcCall → Type 0
Elsewhere a [] = Unit {0}
Elsewhere a (g ∷ gs) = (address_of g ≢ a) × Elsewhere a gs

pub phase_after-Elsewhere :
    (a : ℕ) (p : Phase) (gs : List GrpcCall) → Elsewhere a gs → phase_after a p gs ≡ some p
unfolding phase_after
phase_after-Elsewhere a p [] h = refl
phase_after-Elsewhere a p (g ∷ gs) h = ground (arith, h.0, phase_after-Elsewhere a p gs h.1)

next_loop-Elsewhere :
    (a b n : ℕ) (rest : List GrpcCall)
    → b ≢ a
    → Elsewhere b rest
    → Elsewhere b (next_loop a n ++ rest)
next_loop-Elsewhere a b zero rest other h = (λ e. other (sym e), h)
next_loop-Elsewhere a b (suc n) rest other h =
    (λ e. other (sym e), next_loop-Elsewhere a b n rest other h)

-- A finalizer makes no call for another address.
pub teardown-Elsewhere : (o : Object) (a b n : ℕ) → b ≢ a → Elsewhere b (teardown o a n)
unfolding teardown
teardown-Elsewhere (Object.channel target) a b n other = (λ e. other (sym e), tt)
teardown-Elsewhere Object.queue a b n other =
    (λ e. other (sym e), next_loop-Elsewhere a b n _ other (λ e. other (sym e), tt))
teardown-Elsewhere (Object.spike_server true true bound) a b n other = (
  λ e. other (sym e),
  (
    λ e. other (sym e),
    next_loop-Elsewhere a b n _ other (λ e. other (sym e), (λ e. other (sym e), tt)),
  ),
)
teardown-Elsewhere (Object.spike_server false true bound) a b n other =
    (λ e. other (sym e), next_loop-Elsewhere a b n _ other (λ e. other (sym e), tt))
teardown-Elsewhere (Object.spike_server true false bound) a b n other =
    (λ e. other (sym e), (λ e. other (sym e), tt))
teardown-Elsewhere (Object.spike_server false false bound) a b n other = tt

-- The phase of what is not deleted.
abbrev pub phase_of : Object → Phase
phase_of (Object.channel target) = Phase.connected
phase_of Object.queue = Phase.idle
phase_of (Object.spike_server has_server has_cq bound) =
    if has_server then Phase.serving else Phase.idle

phase_after-next_loop :
    (a n : ℕ) (had : Bool) (rest : List GrpcCall)
    → phase_after a (Phase.draining had) (next_loop a n ++ rest)
      ≡ phase_after a (Phase.drained had) rest
unfolding phase_after
phase_after-next_loop a zero had rest = ground arith
phase_after-next_loop a (suc n) had rest = ground (arith, phase_after-next_loop a n had rest)

abbrev pub has_queue : Object → Bool
has_queue (Object.spike_server has_server has_cq bound) = has_cq
has_queue _ = true

-- Every finalizer keeps the order, however many tags its queue still holds.
pub teardown-phase :
    (o : Object) (a n : ℕ)
    → has_queue o ≡ true
    → phase_after a (phase_of o) (teardown o a n) ≡ some Phase.gone
unfolding phase_after teardown
teardown-phase (Object.channel target) a n h = ground arith
teardown-phase Object.queue a n h =
    ground (arith, phase_after-next_loop a n false (GrpcCall.reset_queue a ∷ []))
teardown-phase (Object.spike_server true true bound) a n h =
    ground (
      arith,
      phase_after-next_loop a n true (GrpcCall.reset_server a ∷ GrpcCall.reset_queue a ∷ []),
    )
teardown-phase (Object.spike_server false true bound) a n h =
    ground (arith, phase_after-next_loop a n false (GrpcCall.reset_queue a ∷ []))
teardown-phase (Object.spike_server has_server false bound) a n h = cc
