-- ===== src/Server/Batch.antt =====
-- src/server.cpp: which events a poll returns, and which it leaves.
use rgrpc.Prelude.{
  if_rule, ℕ, suc, ◌+◌, ◌≤◌, ◌<◌, ℤ, pos, pos_part, ltb_ℤ, Bool, not, ◌≡◌, refl, inl, inr, List, [],
  ◌∷◌, ◌++◌, arith, length, select, Bool-cases, ◌⊎◌, dec_lt, is_empty,
}
use rgrpc.Wake.{wake_drain, is_readable}
use rgrpc.Wake.Protocol.{wake_drain_lem, wake_signal_lem}
use rgrpc.Server.Types.{SvEvent, Server}
use rgrpc.Server.Poll.{sv_take_events, sv_take_batch}

-- What the loop promises of the batch and of what it leaves.
record Parts (p : SvEvent → Bool) (maxn : ℤ) (n : ℕ) (evs batch left : List SvEvent) : Type 0 where
  wanted : select p evs ≡ batch ++ select p left
  stepped_over : select (λ ev. not (p ev)) left ≡ select (λ ev. not (p ev)) evs
  limited : n ≤ pos_part maxn → n + length batch ≤ pos_part maxn
  exhausted : n + length batch < pos_part maxn → select p left ≡ []

sv_take_events-Parts :
    (p : SvEvent → Bool) (maxn : ℤ) (n : ℕ) (evs : List SvEvent)
    → let (batch, left) = sv_take_events p maxn n evs in Parts p maxn n evs batch left
unfolding sv_take_events
sv_take_events-Parts p maxn n [] = record {
  wanted = refl;
  stepped_over = refl;
  limited = λ h. omega arith;
  exhausted = λ h. refl;
}
sv_take_events-Parts p maxn n (ev ∷ evs) = elim (Bool-cases (ltb_ℤ (pos n) maxn)) [
  | inr full ↦
      rw (full, sv_take_events)
        (record {
          wanted = refl;
          stepped_over = refl;
          limited = λ h. omega arith;
          exhausted = λ h. ground arith;
        })
  | inl room ↦ elim (Bool-cases (p ev)) [
    | inl match ↦
        let ih = sv_take_events-Parts p maxn (suc n) evs in
        rw (room, match, sv_take_events)
          (record {
            wanted = ground (arith, ih.wanted);
            stepped_over = ground (arith, ih.stepped_over);
            limited = λ h. ground (arith, ih.limited);
            exhausted = λ h. ih.exhausted (omega arith);
          })
    | inr other ↦
        let ih = sv_take_events-Parts p maxn n evs in
        rw (room, other, sv_take_events)
          (record {
            wanted = ground (arith, ih.wanted);
            stepped_over = ground (arith, ih.stepped_over);
            limited = ih.limited;
            exhausted = λ h. ground (arith, ih.exhausted h);
          })
  ]
]

-- A poll of the server takes the first events that its filter wants, in their order, up to the number
-- asked for (none, if that is negative), and leaves events that it wants only if the batch is full. What
-- stays in `ready` keeps its order. And if the pipe can hold a byte, the descriptor is readable
-- afterwards exactly if events are left.
pub sv_take_batch_lem :
    (p : SvEvent → Bool) (maxn : ℤ) (s : Server)
    → 0 < s.wake.capacity
    → let (batch, d) = sv_take_batch p maxn s in
      (select p s.ready ≡ batch ++ select p d.ready)
      × (select (λ ev. not (p ev)) d.ready ≡ select (λ ev. not (p ev)) s.ready)
      × (length batch ≤ pos_part maxn)
      × ((length batch ≡ pos_part maxn) ⊎ (select p d.ready ≡ []))
      × (is_readable d.wake ≡ not (is_empty d.ready))
unfolding sv_take_batch
sv_take_batch_lem p maxn s room =
    let r = sv_take_events p maxn 0 s.ready in
    let parts = sv_take_events-Parts p maxn 0 s.ready in
    let s1 = record s { wake = wake_drain s.wake; ready = r.1 } in
    let Goal : Server → Type 0 = λ d.
      (select p s.ready ≡ r.0 ++ select p d.ready)
      × (select (λ ev. not (p ev)) d.ready ≡ select (λ ev. not (p ev)) s.ready)
      × (length r.0 ≤ pos_part maxn)
      × ((length r.0 ≡ pos_part maxn) ⊎ (select p d.ready ≡ []))
      × (is_readable d.wake ≡ not (is_empty d.ready)) in
    let off = wake_drain_lem s.wake in
    if_rule Goal (not (is_empty r.1))
      (λ left. (
        parts.wanted,
        parts.stepped_over,
        omega (arith, parts.limited),
        full_or_done r.0 r.1 parts,
        ground (arith, left, off, wake_signal_lem s1.wake),
      ))
      (λ done. (
        parts.wanted,
        parts.stepped_over,
        omega (arith, parts.limited),
        full_or_done r.0 r.1 parts,
        ground (arith, done, off),
      ))
  where
    full_or_done :
        (batch left : List SvEvent)
        → Parts p maxn 0 s.ready batch left
        → (length batch ≡ pos_part maxn) ⊎ (select p left ≡ [])
    full_or_done batch left parts = elim (dec_lt (length batch) (pos_part maxn)) [
      | yes more ↦ inr (parts.exhausted (omega arith))
      | no full ↦ inl (omega (arith, parts.limited))
    ]
