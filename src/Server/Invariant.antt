-- ===== src/Server/Invariant.antt =====
-- src/server.cpp: the invariant of the server, and the rule for a critical section on one call.
use rgrpc.Prelude.{
  ℕ, ◌+◌, ◌≤◌, ◌<◌, pos, pos_part, ◌≡◌, ◌≢◌, refl, sym, ap, subst, ◌∙◌, inl, inr, Bool, List, arith,
  none, some, find, insert, find-insert, find-insert-some, find-insert-none, size, ℕ_discrete,
}
use rgrpc.Wake.{WakeHandle}
use rgrpc.Server.Types.{Svop, SvTag, SvCall, SvEvent, Server}
use rgrpc.Server.Call.{CallLocked}
use rgrpc.Server.Discipline.{IsCall, CallHolds, sv_tally}
use rgrpc.Server.Round.{sv_outstanding, post_sv_tags, store_call}
use rgrpc.Server.Frame.{
  accepts, store_call_lem, sv_outstanding-post_self, sv_outstanding-post_ne, accepts-post,
}

abbrev pub held_by : List SvTag → ℕ → Svop → ℕ
held_by cq a k = sv_outstanding a k cq

-- A call that is not deleted.
pub record IsLiveCall (s : Server) (a : ℕ) (c : SvCall) : Type 0 where
  pub sound : IsCall (held_by s.cq a) c
  pub alive : c.pending ≢ pos 0
  pub registered : c.id ≢ 0 → find c.id s.active ≡ some a
  pub old : c.id < s.next_id

-- What holds of the server while the call at `x` is in a critical section.
pub record IsServerBut (x : ℕ) (s : Server) : Type 0 where
  pub calls : (a : ℕ) (c : SvCall) → a ≢ x → find a s.heap ≡ some c → IsLiveCall s a c
  pub no_call : (a : ℕ) → a ≢ x → find a s.heap ≡ none → (k : Svop) → sv_outstanding a k s.cq ≡ 0
  pub active :
      (i a : ℕ)
      → a ≢ x
      → find i s.active ≡ some a
      → (c : SvCall) × (find a s.heap ≡ some c) × (c.id ≡ i) × (i ≢ 0)
  pub fresh : (a : ℕ) → s.next_address ≤ a → a ≢ x → find a s.heap ≡ none
  pub below : x < s.next_address
  pub counted : s.accepts_outstanding ≡ pos (accepts s.cq)
  pub window : accepts s.cq ≤ pos_part s.accept_window
  pub limit : size s.active + accepts s.cq ≤ pos_part s.max_active
  pub ids : 0 < s.next_id

pub record IsServer (s : Server) : Type 0 where
  -- every call that is not deleted agrees with the queue
  pub calls : (a : ℕ) (c : SvCall) → find a s.heap ≡ some c → IsLiveCall s a c
  -- no tag of a deleted call is outstanding
  pub no_call : (a : ℕ) → find a s.heap ≡ none → (k : Svop) → sv_outstanding a k s.cq ≡ 0
  -- `active` holds no deleted call
  pub active :
      (i a : ℕ)
      → find i s.active ≡ some a
      → (c : SvCall) × (find a s.heap ≡ some c) × (c.id ≡ i) × (i ≢ 0)
  pub fresh : (a : ℕ) → s.next_address ≤ a → find a s.heap ≡ none
  -- the slots, and the two limits
  pub counted : s.accepts_outstanding ≡ pos (accepts s.cq)
  pub window : accepts s.cq ≤ pos_part s.accept_window
  pub limit : size s.active + accepts s.cq ≤ pos_part s.max_active
  pub ids : 0 < s.next_id

-- The invariant does not depend on the events, the descriptor, or whether the server is closed.
pub IsServer-same :
    (s : Server) (ready : List SvEvent) (wake : WakeHandle) (closed shutting : Bool)
    → IsServer s
    → IsServer (record s { ready = ready; wake = wake; closed = closed; shutting = shutting })
IsServer-same s ready wake closed shutting v = record {
  calls = λ a c e.
      let l = v.calls a c e in
      record { sound = l.sound; alive = l.alive; registered = l.registered; old = l.old };
  no_call = v.no_call;
  active = v.active;
  fresh = v.fresh;
  counted = v.counted;
  window = v.window;
  limit = v.limit;
  ids = v.ids;
}

-- The call at `a` leaves its critical section under its old id.
module _ (a : ℕ) (w : CallLocked) (s : Server) (v : IsServerBut a s)
    (h : CallHolds (held_by s.cq a) w) (quiet : sv_tally Svop.accept w.posted ≡ 0)
    (own : (i : ℕ) → find i s.active ≡ some a → (w.call.id ≡ i) × (i ≢ 0))
    (registered : w.call.id ≢ 0 → find w.call.id s.active ≡ some a) where
  pub same_accepts : accepts (post_sv_tags a w.posted s.cq) ≡ accepts s.cq
  same_accepts = omega (arith, accepts-post a w.posted s.cq)

  others :
      (b : ℕ) (c : SvCall)
      → b ≢ a
      → IsLiveCall s b c
      → IsCall (held_by (post_sv_tags a w.posted s.cq) b) c
  others b c n l = ground (
    arith,
    l.sound,
    sv_outstanding-post_ne a b Svop.accept w.posted s.cq n,
    sv_outstanding-post_ne a b Svop.read w.posted s.cq n,
    sv_outstanding-post_ne a b Svop.write w.posted s.cq n,
    sv_outstanding-post_ne a b Svop.done w.posted s.cq n,
    sv_outstanding-post_ne a b Svop.finish w.posted s.cq n,
  )

  pub itself : IsCall (held_by (post_sv_tags a w.posted s.cq) a) w.call
  itself = ground (
    arith,
    h,
    sv_outstanding-post_self a Svop.accept w.posted s.cq,
    sv_outstanding-post_self a Svop.read w.posted s.cq,
    sv_outstanding-post_self a Svop.write w.posted s.cq,
    sv_outstanding-post_self a Svop.done w.posted s.cq,
    sv_outstanding-post_self a Svop.finish w.posted s.cq,
  )

  pub live_others :
      (d : Server)
      → d.cq ≡ post_sv_tags a w.posted s.cq
      → d.next_id ≡ s.next_id
      → (b : ℕ) (c : SvCall) → b ≢ a
      → IsLiveCall s b c
      → (c.id ≢ 0 → find c.id d.active ≡ some b)
      → IsLiveCall d b c
  live_others d same_cq same_id b c n l reg = record {
    sound = subst (λ q. IsCall (held_by q b) c) (sym same_cq) (others b c n l);
    alive = l.alive;
    registered = reg;
    old = ground (arith, same_id, l.old);
  }

  pub none_others :
      (b : ℕ)
      → b ≢ a
      → find b s.heap ≡ none
      → (k : Svop) → sv_outstanding b k (post_sv_tags a w.posted s.cq) ≡ 0
  none_others b n gone k = sv_outstanding-post_ne a b k w.posted s.cq n ∙ v.no_call b n gone k

  module _ (alive : w.call.pending ≢ pos 0) (old : w.call.id < s.next_id) where
    abbrev stored : Server
    stored = record s { cq = post_sv_tags a w.posted s.cq; heap = insert a w.call s.heap }

    stored_calls :
        (b : ℕ) (c : SvCall) → find b (insert a w.call s.heap) ≡ some c → IsLiveCall stored b c
    stored_calls b c e = elim (find-insert-some b a w.call c s.heap e) [
      | inl (here, same) ↦
          subst (λ x. IsLiveCall stored x c) (sym here)
            (subst (IsLiveCall stored a) same
              (record { sound = itself; alive = alive; registered = registered; old = old }))
      | inr (n, found) ↦
          let l = v.calls b c n found in live_others stored refl refl b c n l l.registered
    ]

    stored_active :
        (i b : ℕ)
        → find i s.active ≡ some b
        → (c : SvCall) × (find b (insert a w.call s.heap) ≡ some c) × (c.id ≡ i) × (i ≢ 0)
    stored_active i b e = elim (ℕ_discrete b a) [
      | yes same ↦
          let mine = own i (e ∙ ap some same) in
          (w.call, ground (arith, same, find-insert b a w.call s.heap), mine.0, mine.1)
      | no n ↦
          let (c, found, named, nonzero) = v.active i b n e in
          (c, ground (arith, n, found, find-insert b a w.call s.heap), named, nonzero)
    ]

    pub stored-IsServer : IsServer (store_call a w s)
    stored-IsServer = rw (store_call_lem a w s) (record {
      calls = λ b c e.
          let l = stored_calls b c e in
          record { sound = l.sound; alive = l.alive; registered = l.registered; old = l.old };
      no_call =
          λ b e k. let (n, gone) = find-insert-none b a w.call s.heap e in none_others b n gone k;
      active = stored_active;
      fresh = λ b new.
          let n : b ≢ a = omega (arith, v.below) in
          ground (arith, n, v.fresh b new n, find-insert b a w.call s.heap);
      counted = v.counted ∙ ap pos (sym same_accepts);
      window = omega (arith, same_accepts, v.window);
      limit = omega (arith, same_accepts, v.limit);
      ids = v.ids;
    })
