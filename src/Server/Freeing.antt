-- ===== src/Server/Freeing.antt =====
-- src/server.cpp: a call is deleted with its last tag.
use rgrpc.Prelude.{
  ℕ, ◌≤◌, ◌<◌, pos, is_zero, ◌≡◌, ◌≢◌, refl, sym, ap, subst, ◌∙◌, not, ◌==◌, if◌then◌else◌, if_rule,
  List, arith, some, some-injective, find, insert, erase, find-insert, find-erase, find-erase-some,
  size, ℕ_discrete,
}
use rgrpc.Server.Types.{Svop, SvCall, Server}
use rgrpc.Server.Call.{CallLocked}
use rgrpc.Server.Discipline.{CallHolds, sv_tally}
use rgrpc.Server.Round.{sv_outstanding, post_sv_tags, store_call, maybe_free_locked}
use rgrpc.Server.Frame.{store_call_lem, size-erase}
use rgrpc.Server.Invariant.{
  held_by, IsLiveCall, IsServerBut, IsServer, IsServer-same, same_accepts, live_others, none_others,
  itself, stored-IsServer,
}

-- The call at `a` leaves its critical section, and this may have been its last.
module _ (a : ℕ) (w : CallLocked) (s : Server) (v : IsServerBut a s)
    (h : CallHolds (held_by s.cq a) w) (quiet : sv_tally Svop.accept w.posted ≡ 0)
    (own : (i : ℕ) → find i s.active ≡ some a → (w.call.id ≡ i) × (i ≢ 0))
    (registered : w.call.id ≢ 0 → find w.call.id s.active ≡ some a) where
  module _ (over : w.call.pending ≡ pos 0) where
    abbrev kept_active : List (ℕ × ℕ)
    kept_active = if not (w.call.id == 0) then erase w.call.id s.active else s.active

    abbrev freed : Server
    freed = record s {
      cq = post_sv_tags a w.posted s.cq;
      heap = erase a (insert a w.call s.heap);
      active = kept_active;
    }

    freed_find : (b : ℕ) → b ≢ a → find b (erase a (insert a w.call s.heap)) ≡ find b s.heap
    freed_find b n =
        ground (arith, n, find-erase b a (insert a w.call s.heap), find-insert b a w.call s.heap)

    -- The id is taken off `active`, and no other.
    kept_find : (i : ℕ) → i ≢ w.call.id → find i kept_active ≡ find i s.active
    kept_find i n =
        if_rule (λ (m : List (ℕ × ℕ)). find i m ≡ find i s.active) (not (w.call.id == 0))
          (λ _. ground (arith, n, find-erase i w.call.id s.active)) (λ _. refl)

    kept_size : size kept_active ≤ size s.active
    kept_size =
        if_rule (λ (m : List (ℕ × ℕ)). size m ≤ size s.active) (not (w.call.id == 0))
          (λ _. size-erase w.call.id s.active) (λ _. omega arith)

    freed_calls :
        (b : ℕ) (c : SvCall)
        → find b (erase a (insert a w.call s.heap)) ≡ some c
        → IsLiveCall freed b c
    freed_calls b c e =
        let (n, e1) = find-erase-some b a c (insert a w.call s.heap) e in
        let l = v.calls b c n (sym (freed_find b n) ∙ e) in
        live_others a w s v h quiet own registered freed refl refl b c n l (λ nonzero.
          kept_find c.id (λ same. n (
            some-injective _ _ (
              sym (l.registered nonzero)
              ∙ ap (λ i. find i s.active) same
              ∙ registered (λ z. nonzero (same ∙ z)))))
          ∙ l.registered nonzero)

    -- The id of the call is in `active` no more.
    gone_id : (b : ℕ) → find w.call.id kept_active ≢ some b
    gone_id b e = elim (ℕ_discrete w.call.id 0) [
      | yes z ↦
          let e1 : find w.call.id s.active ≡ some b = ground (arith, z, e) in
          elim (ℕ_discrete b a) [
            | yes same ↦ (own w.call.id (e1 ∙ ap some same)).1 z
            | no n ↦ let (_, _, _, nonzero) = v.active w.call.id b n e1 in nonzero z
          ]
      | no nonzero ↦ ground (arith, nonzero, e, find-erase w.call.id w.call.id s.active)
    ]

    freed_active :
        (i b : ℕ)
        → find i kept_active ≡ some b
        → (c : SvCall) × (find b (erase a (insert a w.call s.heap)) ≡ some c) × (c.id ≡ i) × (i ≢ 0)
    freed_active i b e =
        let other : i ≢ w.call.id =
          λ same. gone_id b (subst (λ j. find j kept_active ≡ some b) same e) in
        let e1 = sym (kept_find i other) ∙ e in
        elim (ℕ_discrete b a) [
          | yes same ↦ absurd (other (sym (own i (e1 ∙ ap some same)).0))
          | no n ↦
              let (c, found, named, nonzero) = v.active i b n e1 in
              (c, freed_find b n ∙ found, named, nonzero)
        ]

    -- A deleted call has no tag left.
    freed_none : (k : Svop) → sv_outstanding a k (post_sv_tags a w.posted s.cq) ≡ 0
    freed_none Svop.accept = ground (arith, over, (itself a w s v h quiet own registered))
    freed_none Svop.read = ground (arith, over, (itself a w s v h quiet own registered))
    freed_none Svop.write = ground (arith, over, (itself a w s v h quiet own registered))
    freed_none Svop.done = ground (arith, over, (itself a w s v h quiet own registered))
    freed_none Svop.finish = ground (arith, over, (itself a w s v h quiet own registered))

    freed-IsServer : IsServer freed
    freed-IsServer = record {
      calls = freed_calls;
      no_call = λ b e k. elim (ℕ_discrete b a) [
        | yes same ↦
            subst (λ x. sv_outstanding x k (post_sv_tags a w.posted s.cq) ≡ 0) (sym same)
              (freed_none k)
        | no n ↦ none_others a w s v h quiet own registered b n (sym (freed_find b n) ∙ e) k
      ];
      active = freed_active;
      fresh = λ b new. let n : b ≢ a = omega (arith, v.below) in freed_find b n ∙ v.fresh b new n;
      counted = v.counted ∙ ap pos (sym (same_accepts a w s v h quiet own registered));
      window = omega (arith, (same_accepts a w s v h quiet own registered), v.window);
      limit = omega (arith, (same_accepts a w s v h quiet own registered), v.limit, kept_size);
      ids = v.ids;
    }

  -- The call goes on, or it is deleted with its last tag.
  pub maybe_free_locked-IsServer :
      w.call.id < s.next_id → IsServer (maybe_free_locked a w.call (store_call a w s))
  unfolding maybe_free_locked
  maybe_free_locked-IsServer old =
      if_rule IsServer (is_zero w.call.pending)
        (λ over.
          let z : w.call.pending ≡ pos 0 = ground (arith, over) in
          rw (store_call_lem a w s)
            (IsServer-same (freed z) _ _ s.closed s.shutting (freed-IsServer z)))
        (λ alive. stored-IsServer a w s v h quiet own registered (ground (arith, alive)) old)
