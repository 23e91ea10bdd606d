-- ===== src/Client/System/Waits.antt =====
-- src/client.cpp: the wait of `grpc_r_client_poll`, with what the completion thread does meanwhile.
use rgrpc.Prelude.{
  zero, suc, pos, ◌≢◌, length, ◌<◌, ℤ, Bool, true, false, not, ◌&&◌, ◌≡◌, refl, ◌∙◌, subst, ◌⊎◌,
  inl, inr, List, [], ◌∷◌, some, arith, any, Bool-cases, some-injective, if_rule,
}
use rgrpc.Wake.Protocol.{wake_drain_lem}
use rgrpc.Client.Types.{ClEvent, Client, Completion}
use rgrpc.Client.Completion.{outstanding, complete, complete_all}
use rgrpc.Client.Poll.{Round, Waited, is_positive, is_zero_timeout, wait_for, wait_loop}
use rgrpc.Client.System.Seen.{
  after_rounds, drained, gives_up, Prompt, WaitedFor, no_round, next_round,
}
use rgrpc.Client.System.{Reach, later, completes, waits}
use rgrpc.Client.System.Safety.{completion_finds_object}
use rgrpc.Client.Adding.{Adds, Adds-refl, Adds-trans, complete-Adds}

-- The queue returns these tags: each is outstanding when it comes back.
abbrev pub Returns : List Completion → Client → Type 0
Returns [] c = Unit {0}
Returns (e ∷ es) c =
    (0 < outstanding e.tag.obj e.tag.kind c.cq)
    × ((d : Client) → complete e c ≡ some d → Returns es d)

pub complete_all-Reach :
    (es : List Completion) {c : Client}
    → Reach c
    → Returns es c
    → (d : Client) × (complete_all es c ≡ some d) × Reach d × Adds c d
unfolding complete_all
complete_all-Reach [] {c} r h = (c, refl, r, Adds-refl c)
complete_all-Reach (e ∷ es) {c} r (out, rest) =
    let (d, done, _) = completion_finds_object r e out in
    let (last, all_done, r1, a) =
      complete_all-Reach es (later r (completes e d out done)) (rest d done) in
    (last, rw (done, complete_all) all_done, r1, Adds-trans (complete-Adds e c d done) a)

-- In each round the completion thread takes tags that are outstanding.
abbrev pub Runs : List Round → Client → Type 0
Runs [] c = Unit {0}
Runs (r ∷ rs) c =
    Returns r.meanwhile (drained c)
    × ((d : Client) → complete_all r.meanwhile (drained c) ≡ some d → Runs rs d)

-- What the wait promises.
abbrev pub WaitEnds : ℤ → (ClEvent → Bool) → List Round → Client → Waited → Type 0
WaitEnds timeout p rounds c (Waited.over d) =
    Reach d × Adds c d × WaitedFor timeout p rounds c d.ready
WaitEnds timeout p rounds c (Waited.waiting d) =
    Reach d
    × (timeout ≢ pos 0)
    × (after_rounds (length rounds) rounds c ≡ some d)
    × Prompt p (suc (length rounds)) rounds c
    × (any (gives_up timeout) rounds ≡ false)
WaitEnds timeout p rounds c Waited.fault = ⊥

drain-Adds : (c d : Client) → Adds (drained c) d → Adds c d
drain-Adds c d a = record {
  closed = a.closed;
  next_id = a.next_id;
  capacity = a.capacity ∙ (wake_drain_lem c.wake).1;
  ready = a.ready;
}

-- A wait that ends before the first round.
ends_first :
    (timeout : ℤ) (p : ClEvent → Bool) (rounds : List Round) (c : Client)
    → (timeout ≡ pos 0) ⊎ (any p c.ready ≡ true) ⊎ (any (gives_up timeout) rounds ≡ true)
    → WaitedFor timeout p rounds c c.ready
ends_first timeout p rounds c why = record {
  rounds_run = 0;
  last = c;
  ran = refl;
  queued = refl;
  prompt = no_round p rounds c;
  at_once = λ e. refl;
  why = why;
}

-- A round that does not end the wait passes its promise on.
one_more :
    (timeout : ℤ) (p : ClEvent → Bool) (r : Round) (rs : List Round) (c d : Client) (w : Waited)
    → Adds c d
    → timeout ≢ pos 0
    → any p c.ready ≡ false
    → complete_all r.meanwhile (drained c) ≡ some d
    → gives_up timeout r ≡ false
    → WaitEnds timeout p rs d w
    → WaitEnds timeout p (r ∷ rs) c w
one_more timeout p r rs c d (Waited.over e) a asked none_yet done go (reach, b, w) = (
  reach,
  Adds-trans a b,
  record {
    rounds_run = suc w.rounds_run;
    last = w.last;
    ran = rw (done, after_rounds) w.ran;
    queued = w.queued;
    prompt = next_round p w.rounds_run r rs c d none_yet done w.prompt;
    at_once = λ e. absurd (asked e);
    why = ground (arith, go, w.why);
  },
)
one_more timeout p r rs c d (Waited.waiting e) a asked none_yet done go
      (reach, more, ran, prompt, on) =
    (
      reach,
      more,
      rw (done, after_rounds) ran,
      next_round p _ r rs c d none_yet done prompt,
      rw go on,
    )
one_more timeout p r rs c d Waited.fault a asked none_yet done go h = h

-- The last round, after which `wake_poll` gives up.
last_round :
    (timeout : ℤ) (p : ClEvent → Bool) (r : Round) (rs : List Round) (c d : Client)
    → timeout ≢ pos 0
    → any p c.ready ≡ false
    → complete_all r.meanwhile (drained c) ≡ some d
    → gives_up timeout r ≡ true
    → WaitedFor timeout p (r ∷ rs) c d.ready
last_round timeout p r rs c d asked none_yet done stop = record {
  rounds_run = 1;
  last = d;
  ran = rw (done, after_rounds) refl;
  queued = refl;
  prompt = next_round p 0 r rs c d none_yet done (no_round p rs d);
  at_once = λ e. absurd (asked e);
  why = inr (inr (rw stop refl));
}

only_now : (p : ClEvent → Bool) (c : Client) → any p c.ready ≡ false → Prompt p 1 [] c
only_now p c none_yet zero m less e =
    subst (λ (x : Client). any p x.ready ≡ false) (some-injective _ _ e) none_yet
only_now p c none_yet (suc j) m less e = cc

wait_loop-WaitEnds :
    (timeout : ℤ) (p : ClEvent → Bool) (rounds : List Round) {c : Client}
    → Reach c
    → c.closed ≡ false
    → timeout ≢ pos 0
    → Runs rounds c
    → WaitEnds timeout p rounds c (wait_loop timeout p rounds c)
unfolding wait_loop
wait_loop-WaitEnds timeout p [] {c} r up asked h = elim (Bool-cases (any p c.ready)) [
  | inl found ↦ rw (found, wait_loop) (r, Adds-refl c, ends_first timeout p [] c (inr (inl found)))
  | inr none_yet ↦ rw (none_yet, wait_loop) (r, asked, refl, only_now p c none_yet, refl)
]
wait_loop-WaitEnds timeout p (t ∷ ts) {c} r up asked (run, rest) =
    elim (Bool-cases (any p c.ready)) [
      | inl found ↦
          rw (found, wait_loop) (r, Adds-refl c, ends_first timeout p (t ∷ ts) c (inr (inl found)))
      | inr none_yet ↦
          let r1 = later r (waits up) in
          elim (Bool-cases (is_positive timeout && not (is_positive t.remaining))) [
            | inl late ↦
                rw (none_yet, late, wait_loop)
                  (
                    r1,
                    drain-Adds c _ (Adds-refl (drained c)),
                    ends_first timeout p (t ∷ ts) c (inr (inr (ground (arith, late)))),
                  )
            | inr in_time ↦
                let (d, done, r2, a) = complete_all-Reach t.meanwhile r1 run in
                let b = drain-Adds c d a in
                elim (Bool-cases (is_positive t.polled)) [
                  | inr stop ↦
                      rw (none_yet, in_time, done, stop, wait_loop)
                        (
                          r2,
                          b,
                          last_round timeout p t ts c d asked none_yet done
                              (ground (arith, in_time, stop)),
                        )
                  | inl on ↦
                      rw (none_yet, in_time, done, on, wait_loop)
                        (one_more timeout p t ts c d _ b asked none_yet done
                          (ground (arith, in_time, on))
                          (wait_loop-WaitEnds timeout p ts r2 (b.closed ∙ up) asked (rest d done)))
                ]
          ]
    ]

pub wait_for-WaitEnds :
    (timeout : ℤ) (p : ClEvent → Bool) (rounds : List Round) {c : Client}
    → Reach c
    → c.closed ≡ false
    → Runs rounds c
    → WaitEnds timeout p rounds c (wait_for timeout p rounds c)
unfolding wait_for
wait_for-WaitEnds timeout p rounds {c} r up run =
    if_rule (WaitEnds timeout p rounds c) (is_zero_timeout timeout)
      (λ at_once. (r, Adds-refl c, ends_first timeout p rounds c (inl (ground (arith, at_once)))))
      (λ asked. wait_loop-WaitEnds timeout p rounds r up (λ e. ground (arith, asked, e)) run)
