-- ===== src/Server/Completions.antt =====
-- src/server.cpp: the server once `Next` has taken a tag off the queue.
use rgrpc.Prelude.{
  ℕ, ◌+◌, ◌<◌, ◌%◌, ◌^◌, pos, ◌≡◌, ◌≢◌, sym, ap, ◌∙◌, inl, inr, true, false, arith, none, some,
  some-injective, find, find-insert, find-insert-some, ℕ_discrete, dec_lt,
}
use rgrpc.Server.Types.{Svop, SvCall, Server}
use rgrpc.Server.Discipline.{IsCall, Back}
use rgrpc.Server.Round.{sv_outstanding, sv_take_tag, take_slot}
use rgrpc.Server.Frame.{
  accepts, sv_outstanding-take_self, sv_outstanding-take_ne, accepts-take, size-insert,
}
use rgrpc.Server.Invariant.{held_by, IsLiveCall, IsServerBut, IsServer}

-- The queue without the tag that `Next` returns.
abbrev pub taken : ℕ → Svop → Server → Server
taken a j s = record s { cq = sv_take_tag a j s.cq }

module _ (a : ℕ) (j : Svop) (s : Server) (c : SvCall) (v : IsServer s)
    (found : find a s.heap ≡ some c) (out : 0 < sv_outstanding a j s.cq) where
  pub back : Back j (held_by (sv_take_tag a j s.cq) a) (held_by s.cq a)
  back k = sv_outstanding-take_self a k j s.cq out

  call_below : a < s.next_address
  call_below = elim (dec_lt a s.next_address) [
    | yes lt ↦ lt
    | no ge ↦ let gone = v.fresh a (omega arith) in cc
  ]

  other-IsCall :
      (b : ℕ) (d : SvCall) → b ≢ a → IsLiveCall s b d → IsCall (held_by (sv_take_tag a j s.cq) b) d
  other-IsCall b d n l = ground (
    arith,
    l.sound,
    sv_outstanding-take_ne a b Svop.accept j s.cq n,
    sv_outstanding-take_ne a b Svop.read j s.cq n,
    sv_outstanding-take_ne a b Svop.write j s.cq n,
    sv_outstanding-take_ne a b Svop.done j s.cq n,
    sv_outstanding-take_ne a b Svop.finish j s.cq n,
  )

  other_none :
      (b : ℕ)
      → b ≢ a
      → find b s.heap ≡ none
      → (k : Svop) → sv_outstanding b k (sv_take_tag a j s.cq) ≡ 0
  other_none b n gone k = sv_outstanding-take_ne a b k j s.cq n ∙ v.no_call b gone k

  pub taken-IsServerBut : j ≢ Svop.accept → IsServerBut a (taken a j s)
  taken-IsServerBut n =
      let same : accepts (sv_take_tag a j s.cq) ≡ accepts s.cq =
        ground (arith, n, accepts-take a j s.cq out) in
      record {
        calls = λ b d m e.
            let l = v.calls b d e in
            record {
              sound = other-IsCall b d m l;
              alive = l.alive;
              registered = l.registered;
              old = l.old;
            };
        no_call = other_none;
        active = λ i b m e. v.active i b e;
        fresh = λ b new m. v.fresh b new;
        below = call_below;
        counted = v.counted ∙ ap pos (sym same);
        window = omega (arith, same, v.window);
        limit = omega (arith, same, v.limit);
        ids = v.ids;
      }

  -- The id that `active` gives to the address is that of the call.
  pub own_id : (i : ℕ) → find i s.active ≡ some a → (c.id ≡ i) × (i ≢ 0)
  own_id i e =
      let (d, here, named, nonzero) = v.active i a e in
      (ap (λ (x : SvCall). x.id) (some-injective _ _ (sym found ∙ here)) ∙ named, nonzero)

module _ (a : ℕ) (s : Server) (c : SvCall) (v : IsServer s) (found : find a s.heap ≡ some c)
    (out : 0 < sv_outstanding a Svop.accept s.cq) where
  -- A call whose accept is outstanding is a slot.
  pub is_slot : c.id ≡ 0
  is_slot = elim (ℕ_discrete c.id 0) [
    | yes z ↦ z
    | no n ↦ absurd (ground (arith, out, (v.calls a c found).sound.accepted n))
  ]

  pub slot-IsServerBut : IsServerBut a (take_slot false a (taken a Svop.accept s))
  slot-IsServerBut =
      let fewer = accepts-take a Svop.accept s.cq out in
      record {
        calls = λ b d m e.
            let l = v.calls b d e in
            record {
              sound = other-IsCall a Svop.accept s c v found out b d m l;
              alive = l.alive;
              registered = l.registered;
              old = l.old;
            };
        no_call = other_none a Svop.accept s c v found out;
        active = λ i b m e. v.active i b e;
        fresh = λ b new m. v.fresh b new;
        below = call_below a Svop.accept s c v found out;
        counted = ground (arith, v.counted, fewer);
        window = omega (arith, fewer, v.window);
        limit = omega (arith, fewer, v.limit);
        ids = v.ids;
      }

  module _ (room : s.next_id + 1 < 2 ^ 64) where
    new_id : (s.next_id + 1) % 2 ^ 64 ≡ s.next_id + 1
    new_id = ground (arith, room)

    pub accepted-IsServerBut : IsServerBut a (take_slot true a (taken a Svop.accept s))
    accepted-IsServerBut =
        let fewer = accepts-take a Svop.accept s.cq out in
        record {
          calls = λ b d m e.
              let l = v.calls b d e in
              record {
                sound = other-IsCall a Svop.accept s c v found out b d m l;
                alive = l.alive;
                registered = λ nonzero.
                    ground
                      (arith, l.old, l.registered nonzero, find-insert d.id s.next_id a s.active);
                old = omega (arith, l.old, new_id);
              };
          no_call = other_none a Svop.accept s c v found out;
          active = λ i b m e. elim (find-insert-some i s.next_id a b s.active e) [
            | inl (_, same) ↦ absurd (m (sym same))
            | inr (_, e1) ↦ v.active i b e1
          ];
          fresh = λ b new m. v.fresh b new;
          below = call_below a Svop.accept s c v found out;
          counted = ground (arith, v.counted, fewer);
          window = omega (arith, fewer, v.window);
          limit = omega (arith, fewer, v.limit, size-insert s.next_id a s.active);
          ids = omega (arith, new_id);
        }
