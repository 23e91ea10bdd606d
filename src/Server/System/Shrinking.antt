-- ===== src/Server/System/Shrinking.antt =====
-- src/server.cpp: what a round of the shutdown leaves to do.
use rgrpc.Prelude.{
  if_rule, ℕ, zero, suc, ◌+◌, ◌≤◌, ◌<◌, ◌^◌, is_zero, ◌≡◌, ◌≢◌, ◌⊎◌, refl, sym, ap, ◌∙◌, subst, inl,
  inr, Bool, true, false, not, ◌&&◌, List, [], ◌∷◌, some, arith, find, length, Option-cases,
  some-injective, is_empty, pop_front,
}
use rgrpc.Server.Types.{Svop, SvTag, SvCall, SvFilled, SvCompletion, Server}
use rgrpc.Server.Call.{
  CallLocked, on_sv_tag, on_accepted, on_sv_read, on_request, on_sv_write, on_sv_written, on_done,
  pump_locked,
}
use rgrpc.Server.Round.{
  sv_outstanding, sv_take_tag, post_sv_tags, sv_complete, sv_complete_call, store_call,
  maybe_free_locked, take_slot, accepts_loop, post_accepts_locked, wants_slot,
}
use rgrpc.Server.Frame.{accepts, store_call_lem, accepts-post, accepts-take}
use rgrpc.Server.Completions.{taken}

-- The rounds that the queue still has: an accept may be followed by the done of its call.
abbrev pub rounds_left : Server → ℕ
rounds_left s = length s.cq + accepts s.cq

length-post :
    (a : ℕ) (ks : List Svop) (cq : List SvTag)
    → length (post_sv_tags a ks cq) ≡ length ks + length cq
unfolding post_sv_tags
length-post a [] cq = omega arith
length-post a (k ∷ ks) cq = omega (arith, length-post a ks cq)

length-take :
    (a : ℕ) (j : Svop) (cq : List SvTag)
    → 0 < sv_outstanding a j cq
    → length (sv_take_tag a j cq) + 1 ≡ length cq
unfolding sv_take_tag
length-take a j [] h = elim h [ ]
length-take a j (t ∷ cq) h = ground (arith, length-take a j cq)

-- What a handler posts while the server shuts down.
abbrev Quiet : CallLocked → Type 0
Quiet w = w.posted ≡ []

pump-Quiet : (w : CallLocked) → Quiet w → Quiet (pump_locked true w)
unfolding pump_locked
pump-Quiet w h = h

on_sv_tag-Quiet :
    (id : ℕ) (j : Svop) (ok : Bool) (f : SvFilled) (c : SvCall)
    → j ≢ Svop.accept
    → Quiet (on_sv_tag true id j ok f c)
unfolding on_sv_tag on_sv_read on_request on_sv_write on_sv_written on_done
on_sv_tag-Quiet id Svop.accept ok f c n = absurd (n refl)
on_sv_tag-Quiet id Svop.read ok f c n = ground arith
on_sv_tag-Quiet id Svop.write ok f c n =
    if_rule Quiet (ok && not c.dead)
      (λ _. pump-Quiet _ (
        if_rule Quiet (is_empty (pop_front c.write_queue) && not c.replied) (λ _. refl)
          (λ _. refl)))
      (λ _. refl)
on_sv_tag-Quiet id Svop.done ok f c n = ground arith
on_sv_tag-Quiet id Svop.finish ok f c n = refl

accept-posts :
    (id : ℕ) (f : SvFilled) (c : SvCall)
    → (on_sv_tag true id Svop.accept true f c).posted ≡ Svop.done ∷ []
unfolding on_sv_tag on_accepted
accept-posts id f c = refl

refused-Quiet :
    (id : ℕ) (f : SvFilled) (c : SvCall) → Quiet (on_sv_tag true id Svop.accept false f c)
unfolding on_sv_tag
refused-Quiet id f c = refl

idle_loop : (fuel : ℕ) (s : Server) → s.shutting ≡ true → accepts_loop fuel s ≡ s
unfolding accepts_loop
idle_loop zero s up = refl
idle_loop (suc fuel) s up =
    let full : wants_slot s ≡ false = ground (arith, up) in rw (full, accepts_loop) refl

no_slots : (s : Server) → s.shutting ≡ true → post_accepts_locked s ≡ s
unfolding post_accepts_locked
no_slots s up = idle_loop _ s up

-- What a round leaves of the things that the measure reads.
record Leaves (cq : List SvTag) (next_id : ℕ) (d : Server) : Type 0 where
  queue : d.cq ≡ cq
  ids : d.next_id ≡ next_id
  still : d.shutting ≡ true

stored-Leaves :
    (a : ℕ) (w : CallLocked) (s : Server)
    → s.shutting ≡ true
    → Leaves (post_sv_tags a w.posted s.cq) s.next_id (store_call a w s)
stored-Leaves a w s up = rw (store_call_lem a w s) (record { queue = refl; ids = refl; still = up })

freed-Leaves :
    (a : ℕ) (w : CallLocked) (s : Server)
    → s.shutting ≡ true
    → Leaves
        (post_sv_tags a w.posted s.cq)
        s.next_id
        (maybe_free_locked a w.call (store_call a w s))
unfolding maybe_free_locked
freed-Leaves a w s up =
    let l = stored-Leaves a w s up in
    if_rule (Leaves (post_sv_tags a w.posted s.cq) s.next_id) (is_zero w.call.pending)
      (λ _. record { queue = l.queue; ids = l.ids; still = l.still }) (λ _. l)

unslotted-Leaves :
    {cq : List SvTag} {n : ℕ} (s : Server) → Leaves cq n s → Leaves cq n (post_accepts_locked s)
unslotted-Leaves {cq} {n} s l = subst (Leaves cq n) (sym (no_slots s l.still)) l

-- A round of the shutdown gets nearer to its end, and draws at most the id of one slot.
pub record Nearer (s d : Server) : Type 0 where
  pub fewer : rounds_left d + 1 ≤ rounds_left s
  pub ids : d.next_id + accepts d.cq ≤ s.next_id + accepts s.cq
  pub still : d.shutting ≡ true

module _ (a : ℕ) (f : SvFilled) (s : Server) (c : SvCall) (up : s.shutting ≡ true) where
  quiet-Nearer :
      (j : Svop) (ok : Bool) (d : Server)
      → 0 < sv_outstanding a j s.cq
      → j ≢ Svop.accept
      → Leaves
          (post_sv_tags a (on_sv_tag s.shutting s.next_id j ok f c).posted (sv_take_tag a j s.cq))
          s.next_id
          d
      → Nearer s d
  quiet-Nearer j ok d out n l =
      let nothing : (on_sv_tag s.shutting s.next_id j ok f c).posted ≡ [] =
        subst (λ b. (on_sv_tag b s.next_id j ok f c).posted ≡ []) (sym up)
          (on_sv_tag-Quiet s.next_id j ok f c n) in
      let cq : d.cq ≡ post_sv_tags a [] (sv_take_tag a j s.cq) =
        l.queue ∙ ap (λ ks. post_sv_tags a ks (sv_take_tag a j s.cq)) nothing in
      let long = ap length cq ∙ length-post a [] (sv_take_tag a j s.cq) in
      let slots = ap accepts cq ∙ accepts-post a [] (sv_take_tag a j s.cq) in
      let shorter = length-take a j s.cq out in
      let fewer = accepts-take a j s.cq out in
      record {
        fewer = omega (arith, long, slots, shorter, fewer);
        ids = omega (arith, slots, fewer, l.ids);
        still = l.still;
      }

  accept-Nearer :
      (ok : Bool) (ks : List Svop) (d : Server)
      → 0 < sv_outstanding a Svop.accept s.cq
      → s.next_id + 1 < 2 ^ 64
      → ((ok ≡ true) × (ks ≡ Svop.done ∷ [])) ⊎ ((ok ≡ false) × (ks ≡ []))
      → Leaves (post_sv_tags a ks (sv_take_tag a Svop.accept s.cq)) (take_slot ok a s).next_id d
      → Nearer s d
  accept-Nearer ok ks d out room which l =
      let taken_cq = sv_take_tag a Svop.accept s.cq in
      let long = ap length l.queue ∙ length-post a ks taken_cq in
      let slots = ap accepts l.queue ∙ accepts-post a ks taken_cq in
      let shorter = length-take a Svop.accept s.cq out in
      let fewer = accepts-take a Svop.accept s.cq out in
      record {
        fewer = ground (arith, long, slots, shorter, fewer, which);
        ids = ground (arith, slots, fewer, l.ids, which, room);
        still = l.still;
      }

round_case :
    (j : Svop) (a : ℕ) (ok : Bool) (f : SvFilled) (s : Server) (c : SvCall)
    → s.shutting ≡ true
    → 0 < sv_outstanding a j s.cq
    → s.next_id + 1 < 2 ^ 64
    → Nearer s (sv_complete_call a j ok f c (taken a j s))
unfolding sv_complete_call
round_case Svop.accept a true f s c up out room =
    let w = on_sv_tag s.shutting s.next_id Svop.accept true f c in
    accept-Nearer a f s c up true w.posted _ out room
      (inl (
        refl,
        subst (λ b. (on_sv_tag b s.next_id Svop.accept true f c).posted ≡ Svop.done ∷ []) (sym up)
            (accept-posts s.next_id f c),
      ))
      (unslotted-Leaves _ (stored-Leaves a w (take_slot true a (taken a Svop.accept s)) up))
round_case Svop.accept a false f s c up out room =
    let w = on_sv_tag s.shutting s.next_id Svop.accept false f c in
    accept-Nearer a f s c up false w.posted _ out room
      (inr (
        refl,
        subst (λ b. (on_sv_tag b s.next_id Svop.accept false f c).posted ≡ []) (sym up)
            (refused-Quiet s.next_id f c),
      ))
      (freed-Leaves a w (take_slot false a (taken a Svop.accept s)) up)
round_case Svop.read a ok f s c up out room =
    quiet-Nearer a f s c up Svop.read ok _ out (λ e. cc)
      (freed-Leaves a (on_sv_tag s.shutting s.next_id Svop.read ok f c) (taken a Svop.read s) up)
round_case Svop.write a ok f s c up out room =
    quiet-Nearer a f s c up Svop.write ok _ out (λ e. cc)
      (freed-Leaves a (on_sv_tag s.shutting s.next_id Svop.write ok f c) (taken a Svop.write s) up)
round_case Svop.done a ok f s c up out room =
    quiet-Nearer a f s c up Svop.done ok _ out (λ e. cc)
      (unslotted-Leaves _
        (freed-Leaves a (on_sv_tag s.shutting s.next_id Svop.done ok f c) (taken a Svop.done s) up))
round_case Svop.finish a ok f s c up out room =
    quiet-Nearer a f s c up Svop.finish ok _ out (λ e. cc)
      (unslotted-Leaves _ (
        freed-Leaves a (on_sv_tag s.shutting s.next_id Svop.finish ok f c) (taken a Svop.finish s)
          up))

-- A round of the shutdown gets nearer to its end.
pub sv_complete-Nearer :
    (e : SvCompletion) (s d : Server)
    → s.shutting ≡ true
    → 0 < sv_outstanding e.tag.call e.tag.kind s.cq
    → s.next_id + 1 < 2 ^ 64
    → sv_complete e s ≡ some d
    → Nearer s d
unfolding sv_complete
sv_complete-Nearer e s d up out room done = elim (Option-cases (find e.tag.call s.heap)) [
  | inl gone ↦ let e1 = rw (gone, sv_complete) at done in cc
  | inr (c, found) ↦
      subst (Nearer s) (some-injective _ _ (rw (found, sv_complete) at done))
        (round_case e.tag.kind e.tag.call e.ok e.filled s c up out room)
]
