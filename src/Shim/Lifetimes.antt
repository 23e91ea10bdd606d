-- ===== src/Shim/Lifetimes.antt =====
-- src/shim.cpp: what R's pointers own, whatever R creates and destroys.
use rgrpc.Convert.{Bytes}
use rgrpc.Prelude.{
  ℕ, ℤ, Bool, true, false, ◌≡◌, refl, sym, ◌∙◌, subst, inl, inr, [], ◌∷◌, none, some, arith, ltb,
  find, Option-cases, some-injective, append_assoc,
}
use rgrpc.Shim.Handles.{
  World, Object, Pointer, GrpcCall, object_kind, finalizer, grpc_r_channel_create, grpc_r_cq_create,
  grpc_r_server_create, grpc_r_server_port, PortAnswer,
}
use rgrpc.Shim.Contract.{Phase, phase_after}
use rgrpc.Shim.Ownership.{
  IsOwned, Owns, phase_at, created-IsOwned, refused-IsOwned, finalizer-IsOwned,
}

-- A step of R, where each pointer goes to the routine for its kind, or to its finalizer, which is the
-- same function. `n` is the number of tags that its queue still holds.
pub data ShimStep (w : World) : World → Type 0 where
  creates_channel : (target : Bytes) → ShimStep w (grpc_r_channel_create target w).1
  creates_queue : ShimStep w (grpc_r_cq_create w).1
  creates_server : (started : Bool) (port : ℤ) → ShimStep w (grpc_r_server_create started port w).1
  destroys :
      (xp n : ℕ) (p : Pointer) (d : World)
      → find xp w.pointers ≡ some p
      → finalizer p.kind xp n w ≡ some d
      → ShimStep w d

abbrev pub empty_world : World
empty_world = record { heap = []; pointers = []; fresh = 0; made = [] }

pub data ShimReach : World → Type 0 where
  loaded : ShimReach empty_world
  later : {w d : World} → ShimReach w → ShimStep w d → ShimReach d

empty_world-IsOwned : IsOwned empty_world
unfolding find phase_after
empty_world-IsOwned = record {
  pointed = λ xp p e. cc;
  unpointed = λ a e. refl;
  ordered = λ a. ground arith;
}

ShimStep-IsOwned : {w d : World} → IsOwned w → ShimStep w d → IsOwned d
unfolding grpc_r_channel_create grpc_r_cq_create grpc_r_server_create phase_after
ShimStep-IsOwned {w} v (creates_channel target) =
    created-IsOwned w v (Object.channel target) (GrpcCall.open_channel w.fresh ∷ []) refl
      (λ a other. (λ e. other (sym e), tt)) (ground arith)
ShimStep-IsOwned {w} v creates_queue =
    created-IsOwned w v Object.queue (GrpcCall.open_queue w.fresh ∷ []) refl
      (λ a other. (λ e. other (sym e), tt)) (ground arith)
ShimStep-IsOwned {w} v (creates_server true bound) =
    rw (append_assoc w.made (GrpcCall.open_queue w.fresh ∷ []) (GrpcCall.start_server w.fresh ∷ []))
      (created-IsOwned w v (Object.spike_server true true bound)
        (GrpcCall.open_queue w.fresh ∷ GrpcCall.start_server w.fresh ∷ []) refl
        (λ a other. (λ e. other (sym e), (λ e. other (sym e), tt))) (ground arith))
ShimStep-IsOwned {w} v (creates_server false bound) =
    rw (append_assoc w.made (GrpcCall.open_queue w.fresh ∷ []) (GrpcCall.reset_queue w.fresh ∷ []))
      (refused-IsOwned w v (Object.spike_server false true bound)
        (GrpcCall.open_queue w.fresh ∷ GrpcCall.reset_queue w.fresh ∷ [])
        (λ a other. (λ e. other (sym e), (λ e. other (sym e), tt))) (ground arith))
ShimStep-IsOwned {w} v (destroys xp n p d found done) =
    let (e, ran, owned, _, _) = finalizer-IsOwned w v xp n p found in
    subst IsOwned (some-injective _ _ (sym ran ∙ done)) owned

ShimReach-IsOwned : {w : World} → ShimReach w → IsOwned w
ShimReach-IsOwned loaded = empty_world-IsOwned
ShimReach-IsOwned (later r st) = ShimStep-IsOwned (ShimReach-IsOwned r) st

-- Whatever R creates and destroys, in whatever order, each pointer is NULL with its object deleted, or has
-- its own object, of the type that its finalizer casts to; each object that is not deleted is behind a
-- pointer; and the calls on each address keep the order that the contract asks for, where they end
-- exactly if the object is deleted.
pub handles_own :
    {w : World}
    → ShimReach w
    → ((xp : ℕ) (p : Pointer) → find xp w.pointers ≡ some p → Owns w xp p)
      × ((a : ℕ) (o : Object)
          → find a w.heap ≡ some o
          → find a w.pointers ≡ some (record { kind = object_kind o; address = some a }))
      × ((a : ℕ)
          → phase_after a Phase.unborn w.made ≡ some (phase_at (find a w.heap) (ltb a w.fresh)))
handles_own {w} r = (λ xp p e. (v.pointed xp p e).1, behind, v.ordered)
  where
    v : IsOwned w
    v = ShimReach-IsOwned r

    behind :
        (a : ℕ) (o : Object)
        → find a w.heap ≡ some o
        → find a w.pointers ≡ some (record { kind = object_kind o; address = some a })
    behind a o e = elim (Option-cases (find a w.pointers)) [
      | inl gone ↦ ground (arith, e, v.unpointed a gone)
      | inr (p, found) ↦ ground (arith, e, found, (v.pointed a p found).1)
    ]

-- A pointer is destroyed once: its finalizer never meets a deleted object or one of another type,
-- deletes the object and clears the pointer. After that the finalizer changes nothing, and the port of
-- the pointer is an error.
pub destroy_once :
    {w : World} (r : ShimReach w) (xp n m : ℕ) (p : Pointer)
    → find xp w.pointers ≡ some p
    → (d : World) × (finalizer p.kind xp n w ≡ some d)
      × (find xp d.heap ≡ none)
      × (finalizer p.kind xp m d ≡ some d)
      × (grpc_r_server_port xp d ≡ PortAnswer.already_destroyed)
unfolding finalizer grpc_r_server_port
destroy_once {w} r xp n m p found =
    let (d, ran, _, gone, null) = finalizer-IsOwned w (ShimReach-IsOwned r) xp n p found in
    (d, ran, gone, rw (null, finalizer) refl, rw (null, grpc_r_server_port) refl)
