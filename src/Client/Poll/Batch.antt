-- ===== src/Client/Poll/Batch.antt =====
-- src/client.cpp: which events a poll returns, and which it leaves.
use rgrpc.Prelude.{
  ℕ, suc, ◌+◌, ◌≤◌, ◌<◌, ℤ, pos, pos_part, ltb_ℤ, Bool, true, false, not, ◌≡◌, refl, inl, inr, List,
  [], ◌∷◌, ◌++◌, arith, length, select, Bool-cases, ◌⊎◌, dec_lt, is_empty, if◌then◌else◌,
}
use rgrpc.Wake.{wake_drain, wake_signal}
use rgrpc.Client.Types.{ClEvent, Client}
use rgrpc.Client.Poll.{deliver, Taken, take_events, take_batch}

-- What the loop promises of the batch and of what it leaves.
pub record Splits (p : ClEvent → Bool) (maxn : ℤ) (n : ℕ) (evs : List ClEvent) (r : Taken)
    : Type 0 where
  pub wanted : select p evs ≡ r.batch ++ select p r.left
  pub stepped_over : select (λ ev. not (p ev)) r.left ≡ select (λ ev. not (p ev)) evs
  pub limited : n ≤ pos_part maxn → n + length r.batch ≤ pos_part maxn
  pub exhausted : n + length r.batch < pos_part maxn → select p r.left ≡ []

take_events-Splits :
    (p : ClEvent → Bool) (maxn : ℤ) (n : ℕ) (evs : List ClEvent) (c : Client)
    → Splits p maxn n evs (take_events p maxn n evs c)
unfolding take_events
take_events-Splits p maxn n [] c = record {
  wanted = refl;
  stepped_over = refl;
  limited = λ h. omega arith;
  exhausted = λ h. refl;
}
take_events-Splits p maxn n (ev ∷ evs) c = elim (Bool-cases (ltb_ℤ (pos n) maxn)) [
  | inr full ↦
      rw (full, take_events)
        (record {
          wanted = refl;
          stepped_over = refl;
          limited = λ h. omega arith;
          exhausted = λ h. ground arith;
        })
  | inl room ↦ elim (Bool-cases (p ev)) [
    | inl match ↦
        let ih = take_events-Splits p maxn (suc n) evs (deliver ev c) in
        rw (room, match, take_events)
          (record {
            wanted = ground (arith, ih.wanted);
            stepped_over = ground (arith, ih.stepped_over);
            limited = λ h. ground (arith, ih.limited);
            exhausted = λ h. ih.exhausted (omega arith);
          })
    | inr other ↦
        let ih = take_events-Splits p maxn n evs c in
        rw (room, other, take_events)
          (record {
            wanted = ground (arith, ih.wanted);
            stepped_over = ground (arith, ih.stepped_over);
            limited = ih.limited;
            exhausted = λ h. ground (arith, ih.exhausted h);
          })
  ]
]

rearmed-ready :
    (b : Bool) (c : Client)
    → (if b then record c { wake = wake_signal c.wake } else c).ready ≡ c.ready
rearmed-ready true c = refl
rearmed-ready false c = refl

-- A poll takes the first events that its filter wants, in their order, up to the number asked for
-- (none, if that is negative). The events that it does not want stay in their order, those that it
-- wants and leaves come after the batch in order, and it leaves such events only if the batch is full.
pub take_batch_lem :
    (p : ClEvent → Bool) (maxn : ℤ) (c : Client)
    → let (batch, d) = take_batch p maxn c in
      (select p c.ready ≡ batch ++ select p d.ready)
      × (select (λ ev. not (p ev)) d.ready ≡ select (λ ev. not (p ev)) c.ready)
      × (length batch ≤ pos_part maxn)
      × ((length batch ≡ pos_part maxn) ⊎ (select p d.ready ≡ []))
unfolding take_batch
take_batch_lem p maxn c =
    let drained = record c { wake = wake_drain c.wake } in
    let r = take_events p maxn 0 c.ready drained in
    let s = take_events-Splits p maxn 0 c.ready drained in
    let e = rearmed-ready (not (is_empty r.left)) (record r.client { ready = r.left }) in
    rw e (s.wanted, s.stepped_over, omega (arith, s.limited), full_or_done r s)
  where
    full_or_done :
        (r : Taken)
        → Splits p maxn 0 c.ready r
        → (length r.batch ≡ pos_part maxn) ⊎ (select p r.left ≡ [])
    full_or_done r s = elim (dec_lt (length r.batch) (pos_part maxn)) [
      | yes more ↦ inr (s.exhausted (omega arith))
      | no full ↦ inl (omega (arith, s.limited))
    ]
