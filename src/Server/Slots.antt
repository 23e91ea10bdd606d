-- ===== src/Server/Slots.antt =====
-- src/server.cpp: the loop that posts accept slots, its invariant and its end.
use rgrpc.Prelude.{
  ℕ, zero, suc, ◌+◌, ◌≤◌, pos_part, ◌≡◌, ◌≢◌, refl, sym, subst, ◌∙◌, inl, inr, true, false, arith,
  some, find, insert, find-insert, find-insert-some, find-insert-none, size, Bool-cases,
}
use rgrpc.Server.Types.{Svop, SvCall, Server}
use rgrpc.Server.Discipline.{IsCall}
use rgrpc.Server.Round.{
  sv_outstanding, new_slot, wants_slot, post_slot, accepts_loop, post_accepts_locked,
}
use rgrpc.Server.Frame.{accepts}
use rgrpc.Server.Invariant.{held_by, IsLiveCall, IsServer}

-- The window has room for the slot, and the limit too.
room_for :
    (s : Server)
    → IsServer s
    → wants_slot s ≡ true
    → (accepts s.cq + 1 ≤ pos_part s.accept_window)
      × (size s.active + accepts s.cq + 1 ≤ pos_part s.max_active)
room_for s v e = ground (arith, e, v.counted)

module _ (s : Server) (v : IsServer s) (e : wants_slot s ≡ true) where
  no_tags : (k : Svop) → sv_outstanding s.next_address k s.cq ≡ 0
  no_tags k = v.no_call s.next_address (v.fresh s.next_address (omega arith)) k

  slot-IsCall : IsCall (held_by (post_slot s).cq s.next_address) new_slot
  slot-IsCall = ground (
    arith,
    no_tags Svop.accept,
    no_tags Svop.read,
    no_tags Svop.write,
    no_tags Svop.done,
    no_tags Svop.finish,
  )

  others_kept :
      (b : ℕ) (k : Svop)
      → b ≢ s.next_address
      → sv_outstanding b k (post_slot s).cq ≡ sv_outstanding b k s.cq
  others_kept b k n = ground (arith, n)

  slot_calls :
      (b : ℕ) (c : SvCall)
      → find b (insert s.next_address new_slot s.heap) ≡ some c
      → IsLiveCall (post_slot s) b c
  slot_calls b c found = elim (find-insert-some b s.next_address new_slot c s.heap found) [
    | inl (here, same) ↦
        subst (λ x. IsLiveCall (post_slot s) x c) (sym here)
          (subst (IsLiveCall (post_slot s) s.next_address) same (record {
            sound = slot-IsCall;
            alive = λ z. cc;
            registered = λ nonzero. absurd (nonzero refl);
            old = v.ids;
          }))
    | inr (n, found1) ↦
        let l = v.calls b c found1 in
        record {
          sound = ground (
            arith,
            l.sound,
            others_kept b Svop.accept n,
            others_kept b Svop.read n,
            others_kept b Svop.write n,
            others_kept b Svop.done n,
            others_kept b Svop.finish n,
          );
          alive = l.alive;
          registered = l.registered;
          old = l.old;
        }
  ]

  post_slot-IsServer : IsServer (post_slot s)
  post_slot-IsServer = record {
    calls = slot_calls;
    no_call = λ b gone k.
        let (n, gone1) = find-insert-none b s.next_address new_slot s.heap gone in
        others_kept b k n ∙ v.no_call b gone1 k;
    active = λ i b found.
        let (c, here, named, nonzero) = v.active i b found in
        (
          c,
          ground
              (arith, here, v.fresh s.next_address, find-insert b s.next_address new_slot s.heap),
          named,
          nonzero,
        );
    fresh = λ b new.
        ground (arith, new, v.fresh b (omega arith), find-insert b s.next_address new_slot s.heap);
    counted = ground (arith, v.counted);
    window = ground (arith, room_for s v e);
    limit = ground (arith, room_for s v e);
    ids = v.ids;
  }

accepts_loop-IsServer : (fuel : ℕ) (s : Server) → IsServer s → IsServer (accepts_loop fuel s)
unfolding accepts_loop
accepts_loop-IsServer zero s v = v
accepts_loop-IsServer (suc fuel) s v = elim (Bool-cases (wants_slot s)) [
  | inl more ↦
      rw (more, accepts_loop)
        (accepts_loop-IsServer fuel (post_slot s) (post_slot-IsServer s v more))
  | inr full ↦ rw (full, accepts_loop) v
]

pub post_accepts_locked-IsServer : (s : Server) → IsServer s → IsServer (post_accepts_locked s)
unfolding post_accepts_locked
post_accepts_locked-IsServer s v = accepts_loop-IsServer (pos_part s.accept_window) s v

-- Enough rounds: the loop ends because its condition is false.
accepts_loop_lem :
    (fuel : ℕ) (s : Server)
    → IsServer s
    → pos_part s.accept_window ≤ accepts s.cq + fuel
    → wants_slot (accepts_loop fuel s) ≡ false
unfolding accepts_loop
accepts_loop_lem zero s v enough = ground (arith, v.counted)
accepts_loop_lem (suc fuel) s v enough = elim (Bool-cases (wants_slot s)) [
  | inl more ↦
      rw (more, accepts_loop)
        (accepts_loop_lem fuel (post_slot s) (post_slot-IsServer s v more) (ground arith))
  | inr full ↦ rw (full, accepts_loop) full
]

-- On a server that the invariant describes, the loop of `post_accepts_locked` ends with its condition
-- false: the server shuts down, or the window is full, or the calls and slots are at the limit.
pub slots_filled : (s : Server) → IsServer s → wants_slot (post_accepts_locked s) ≡ false
unfolding post_accepts_locked
slots_filled s v = accepts_loop_lem (pos_part s.accept_window) s v (omega arith)
