-- ===== src/Shim/Ownership.antt =====
-- src/shim.cpp: what R's pointers own, whatever R creates and destroys.
use rgrpc.Prelude.{
  ℕ, suc, ◌≤◌, ◌<◌, Bool, true, false, ◌≡◌, ◌≢◌, ◌∙◌, ◌⊎◌, inl, inr, List, ◌++◌, Option, none, some,
  arith, ltb, find, insert, erase, find-insert, find-insert-some, find-insert-none, find-erase,
  Option-cases, ℕ_discrete,
}
use rgrpc.Shim.Handles.{
  World, place, point_at, clear_pointer, delete_object, Object, Pointer, GrpcCall, object_kind,
  finalizer, teardown,
}
use rgrpc.Shim.Contract.{
  Phase, phase_after, phase_after-append, phase_after-Elsewhere, Elsewhere, phase_of, has_queue,
  teardown-phase, teardown-Elsewhere,
}

-- A pointer is NULL and its object deleted, or its object is there, of the type that its finalizer casts
-- to, with its queue.
abbrev pub Owns : World → ℕ → Pointer → Type 0
Owns w xp p =
    ((p.address ≡ none) × (find xp w.heap ≡ none))
    ⊎ ((p.address ≡ some xp)
        × (o : Object) × (find xp w.heap ≡ some o)
        × (object_kind o ≡ p.kind)
        × (has_queue o ≡ true))

-- The phase of an address, from what is there and whether it was used.
abbrev pub phase_at : Option Object → Bool → Phase
phase_at (some o) used = phase_of o
phase_at none true = Phase.gone
phase_at none false = Phase.unborn

pub record IsOwned (w : World) : Type 0 where
  pub pointed : (xp : ℕ) (p : Pointer) → find xp w.pointers ≡ some p → (xp < w.fresh) × Owns w xp p
  pub unpointed : (a : ℕ) → find a w.pointers ≡ none → find a w.heap ≡ none
  pub ordered :
      (a : ℕ) → phase_after a Phase.unborn w.made ≡ some (phase_at (find a w.heap) (ltb a w.fresh))

-- Nothing is at an address that is not used.
module _ (w : World) (v : IsOwned w) where
  fresh-unpointed : (a : ℕ) → w.fresh ≤ a → find a w.pointers ≡ none
  fresh-unpointed a h = elim (Option-cases (find a w.pointers)) [
    | inl gone ↦ gone
    | inr (p, found) ↦ absurd (omega (arith, (v.pointed a p found).0, h))
  ]

  fresh-empty : (a : ℕ) → w.fresh ≤ a → find a w.heap ≡ none
  fresh-empty a h = v.unpointed a (fresh-unpointed a h)

  -- A new object behind a new pointer, after calls that lead to its phase.
  pub created-IsOwned :
      (o : Object) (calls : List GrpcCall)
      → has_queue o ≡ true
      → ((a : ℕ) → a ≢ w.fresh → Elsewhere a calls)
      → phase_after w.fresh Phase.unborn calls ≡ some (phase_of o)
      → IsOwned (point_at (object_kind o) w.fresh (place o calls w))
  created-IsOwned o calls queued elsewhere phase = record {
    pointed = λ xp p e. elim (find-insert-some xp w.fresh _ p w.pointers e) [
      | inl (same, made) ↦ ground (arith, find-insert xp w.fresh o w.heap, queued)
      | inr (other, found) ↦
          let (old, owns) = v.pointed xp p found in
          (omega (arith, old), ground (arith, find-insert xp w.fresh o w.heap, other, owns))
    ];
    unpointed = λ a e.
        let (other, none_there) = find-insert-none a w.fresh _ w.pointers e in
        ground (arith, find-insert a w.fresh o w.heap, v.unpointed a none_there, other);
    ordered = λ a. ordered_at a (ℕ_discrete a w.fresh);
  }
    where
      ordered_at :
          (a : ℕ)
          → Dec (a ≡ w.fresh)
          → phase_after a Phase.unborn (w.made ++ calls)
            ≡ some (phase_at (find a (insert w.fresh o w.heap)) (ltb a (suc w.fresh)))
      ordered_at a (yes same) =
          phase_after-append a Phase.unborn Phase.unborn w.made calls
            (ground (arith, v.ordered a, fresh-empty a, same))
          ∙ ground (arith, phase, same, find-insert a w.fresh o w.heap)
      ordered_at a (no other) =
          phase_after-append a Phase.unborn _ w.made calls (v.ordered a)
          ∙ phase_after-Elsewhere a _ calls (elsewhere a other)
          ∙ ground (arith, other, find-insert a w.fresh o w.heap)

  -- An object that is deleted in the same call.
  pub refused-IsOwned :
      (o : Object) (calls : List GrpcCall)
      → ((a : ℕ) → a ≢ w.fresh → Elsewhere a calls)
      → phase_after w.fresh Phase.unborn calls ≡ some Phase.gone
      → IsOwned (record w {
        heap = erase w.fresh (insert w.fresh o w.heap);
        fresh = suc w.fresh;
        made = w.made ++ calls;
      })
  refused-IsOwned o calls elsewhere phase = record {
    pointed = λ xp p e.
        let (old, owns) = v.pointed xp p e in
        (omega (arith, old), ground (arith, owns, old, same_heap xp));
    unpointed = λ a e. same_heap a ∙ v.unpointed a e;
    ordered = λ a. ordered_at a (ℕ_discrete a w.fresh);
  }
    where
      same_heap : (a : ℕ) → find a (erase w.fresh (insert w.fresh o w.heap)) ≡ find a w.heap
      same_heap a = ground (
        arith,
        find-erase a w.fresh (insert w.fresh o w.heap),
        find-insert a w.fresh o w.heap,
        fresh-empty a,
      )

      ordered_at :
          (a : ℕ)
          → Dec (a ≡ w.fresh)
          → phase_after a Phase.unborn (w.made ++ calls)
            ≡ some
                (phase_at (find a (erase w.fresh (insert w.fresh o w.heap))) (ltb a (suc w.fresh)))
      ordered_at a (yes same) =
          phase_after-append a Phase.unborn Phase.unborn w.made calls
            (ground (arith, v.ordered a, fresh-empty a, same))
          ∙ ground (arith, phase, same, same_heap a, fresh-empty a)
      ordered_at a (no other) =
          phase_after-append a Phase.unborn _ w.made calls (v.ordered a)
          ∙ phase_after-Elsewhere a _ calls (elsewhere a other)
          ∙ ground (arith, other, same_heap a)

  -- A finalizer deletes an object that is there, and clears its pointer.
  deleted-IsOwned :
      (xp n : ℕ) (p : Pointer) (o : Object)
      → find xp w.pointers ≡ some p
      → find xp w.heap ≡ some o
      → has_queue o ≡ true
      → IsOwned (clear_pointer p.kind xp (delete_object xp (teardown o xp n) w))
  deleted-IsOwned xp n p o pointer object queued = record {
    pointed = λ yp q e. elim (find-insert-some yp xp _ q w.pointers e) [
      | inl (same, made) ↦ ground (arith, find-erase yp xp w.heap, v.pointed xp p pointer)
      | inr (other, found) ↦
          let (old, owns) = v.pointed yp q found in
          (old, ground (arith, find-erase yp xp w.heap, other, owns))
    ];
    unpointed = λ a e.
        let (other, none_there) = find-insert-none a xp _ w.pointers e in
        ground (arith, find-erase a xp w.heap, v.unpointed a none_there, other);
    ordered = λ a. ordered_at a (ℕ_discrete a xp);
  }
    where
      ordered_at :
          (a : ℕ)
          → Dec (a ≡ xp)
          → phase_after a Phase.unborn (w.made ++ teardown o xp n)
            ≡ some (phase_at (find a (erase xp w.heap)) (ltb a w.fresh))
      ordered_at a (yes same) =
          phase_after-append a Phase.unborn (phase_of o) w.made (teardown o xp n)
            (ground (arith, v.ordered a, object, same))
          ∙ ground (
            arith,
            teardown-phase o xp n queued,
            same,
            find-erase a xp w.heap,
            v.pointed xp p pointer,
          )
      ordered_at a (no other) =
          phase_after-append a Phase.unborn _ w.made (teardown o xp n) (v.ordered a)
          ∙ phase_after-Elsewhere a _ (teardown o xp n) (teardown-Elsewhere o xp a n other)
          ∙ ground (arith, other, find-erase a xp w.heap)

  -- A pointer goes to its finalizer: its object is deleted, and the pointer is NULL.
  pub finalizer-IsOwned :
      (xp n : ℕ) (p : Pointer)
      → find xp w.pointers ≡ some p
      → (d : World) × (finalizer p.kind xp n w ≡ some d)
        × IsOwned d
        × (find xp d.heap ≡ none)
        × (find xp d.pointers ≡ some (record p { address = none }))
  unfolding finalizer
  finalizer-IsOwned xp n p found = elim (v.pointed xp p found).1 [
    | inl (null, gone) ↦ (w, ground (arith, found, null), v, gone, ground (arith, found, null))
    | inr (own, o, object, same, queued) ↦ (
      clear_pointer p.kind xp (delete_object xp (teardown o xp n) w),
      ground (arith, found, own, object, same),
      deleted-IsOwned xp n p o found object queued,
      ground (arith, find-erase xp xp w.heap),
      ground (arith, find-insert xp xp (record p { address = none }) w.pointers),
    )
  ]
