-- ===== src/Server/System/Waits.antt =====
-- src/server.cpp: the wait of `grpc_r_server2_poll`, with what the completion thread does meanwhile.
use rgrpc.Prelude.{
  zero, suc, pos, ◌≢◌, length, subst, some-injective, ◌+◌, ◌<◌, ◌^◌, ℤ, Bool, true, false, not,
  ◌&&◌, ◌≡◌, refl, ◌∙◌, ◌⊎◌, inl, inr, List, [], ◌∷◌, some, arith, any, Bool-cases, if_rule,
}
use rgrpc.Wake.Protocol.{wake_drain_lem}
use rgrpc.Server.Types.{SvEvent, Server, SvCompletion}
use rgrpc.Server.Round.{sv_complete, sv_complete_all, sv_outstanding}
use rgrpc.Server.Poll.{SvRound, SvWaited, sv_positive, is_sv_zero, sv_wait_for, sv_wait_loop}
use rgrpc.Server.System.Seen.{
  sv_after_rounds, sv_drained, sv_gives_up, SvPrompt, SvWaitedFor, no_sv_round, next_sv_round,
}
use rgrpc.Server.System.{SvReach, later, completes, waits}
use rgrpc.Server.System.Safety.{tags_find_calls}
use rgrpc.Server.Adding.{SvAdds, SvAdds-refl, SvAdds-trans, sv_complete-SvAdds}

-- The queue returns these tags: each is outstanding when it comes back, and there is an id left.
abbrev pub SvReturns : List SvCompletion → Server → Type 0
SvReturns [] s = Unit {0}
SvReturns (e ∷ es) s =
    (0 < sv_outstanding e.tag.call e.tag.kind s.cq)
    × (s.next_id + 1 < 2 ^ 64)
    × ((d : Server) → sv_complete e s ≡ some d → SvReturns es d)

sv_complete_all-SvReach :
    (es : List SvCompletion) {s : Server}
    → SvReach s
    → SvReturns es s
    → (d : Server) × (sv_complete_all es s ≡ some d) × SvReach d × SvAdds s d
unfolding sv_complete_all
sv_complete_all-SvReach [] {s} r h = (s, refl, r, SvAdds-refl s)
sv_complete_all-SvReach (e ∷ es) {s} r (out, room, rest) =
    let (d, done, _) = (tags_find_calls r room).0 e out in
    let (last, all_done, r1, a) =
      sv_complete_all-SvReach es (later r (completes e d out room done)) (rest d done) in
    (last, rw (done, sv_complete_all) all_done, r1, SvAdds-trans (sv_complete-SvAdds e s d done) a)

-- In each round the completion thread takes tags that are outstanding.
abbrev pub SvRuns : List SvRound → Server → Type 0
SvRuns [] s = Unit {0}
SvRuns (r ∷ rs) s =
    SvReturns r.meanwhile (sv_drained s)
    × ((d : Server) → sv_complete_all r.meanwhile (sv_drained s) ≡ some d → SvRuns rs d)

-- What the wait promises.
abbrev pub SvWaitEnds : ℤ → (SvEvent → Bool) → List SvRound → Server → SvWaited → Type 0
SvWaitEnds timeout p rounds c (SvWaited.over d) =
    SvReach d × SvAdds c d × SvWaitedFor timeout p rounds c d.ready
SvWaitEnds timeout p rounds c (SvWaited.waiting d) =
    SvReach d
    × (timeout ≢ pos 0)
    × (sv_after_rounds (length rounds) rounds c ≡ some d)
    × SvPrompt p (suc (length rounds)) rounds c
    × (any (sv_gives_up timeout) rounds ≡ false)
SvWaitEnds timeout p rounds c SvWaited.fault = ⊥

drain-SvAdds : (s d : Server) → SvAdds (sv_drained s) d → SvAdds s d
drain-SvAdds s d a = record {
  closed = a.closed;
  capacity = a.capacity ∙ (wake_drain_lem s.wake).1;
  ready = a.ready;
}

-- A wait that ends before the first round.
ends_first :
    (timeout : ℤ) (p : SvEvent → Bool) (rounds : List SvRound) (c : Server)
    → (timeout ≡ pos 0) ⊎ (any p c.ready ≡ true) ⊎ (any (sv_gives_up timeout) rounds ≡ true)
    → SvWaitedFor timeout p rounds c c.ready
ends_first timeout p rounds c why = record {
  rounds_run = 0;
  last = c;
  ran = refl;
  queued = refl;
  prompt = no_sv_round p rounds c;
  at_once = λ e. refl;
  why = why;
}

-- A round that does not end the wait passes its promise on.
one_more :
    (timeout : ℤ) (p : SvEvent → Bool) (r : SvRound) (rs : List SvRound) (c d : Server)
    (w : SvWaited)
    → SvAdds c d
    → timeout ≢ pos 0
    → any p c.ready ≡ false
    → sv_complete_all r.meanwhile (sv_drained c) ≡ some d
    → sv_gives_up timeout r ≡ false
    → SvWaitEnds timeout p rs d w
    → SvWaitEnds timeout p (r ∷ rs) c w
one_more timeout p r rs c d (SvWaited.over e) a asked none_yet done go (reach, b, w) = (
  reach,
  SvAdds-trans a b,
  record {
    rounds_run = suc w.rounds_run;
    last = w.last;
    ran = rw (done, sv_after_rounds) w.ran;
    queued = w.queued;
    prompt = next_sv_round p w.rounds_run r rs c d none_yet done w.prompt;
    at_once = λ e. absurd (asked e);
    why = ground (arith, go, w.why);
  },
)
one_more timeout p r rs c d (SvWaited.waiting e) a asked none_yet done go
      (reach, more, ran, prompt, on) =
    (
      reach,
      more,
      rw (done, sv_after_rounds) ran,
      next_sv_round p _ r rs c d none_yet done prompt,
      rw go on,
    )
one_more timeout p r rs c d SvWaited.fault a asked none_yet done go h = h

-- The last round, after which `wake_poll` gives up.
last_round :
    (timeout : ℤ) (p : SvEvent → Bool) (r : SvRound) (rs : List SvRound) (c d : Server)
    → timeout ≢ pos 0
    → any p c.ready ≡ false
    → sv_complete_all r.meanwhile (sv_drained c) ≡ some d
    → sv_gives_up timeout r ≡ true
    → SvWaitedFor timeout p (r ∷ rs) c d.ready
last_round timeout p r rs c d asked none_yet done stop = record {
  rounds_run = 1;
  last = d;
  ran = rw (done, sv_after_rounds) refl;
  queued = refl;
  prompt = next_sv_round p 0 r rs c d none_yet done (no_sv_round p rs d);
  at_once = λ e. absurd (asked e);
  why = inr (inr (rw stop refl));
}

only_now : (p : SvEvent → Bool) (c : Server) → any p c.ready ≡ false → SvPrompt p 1 [] c
only_now p c none_yet zero m less e =
    subst (λ (x : Server). any p x.ready ≡ false) (some-injective _ _ e) none_yet
only_now p c none_yet (suc j) m less e = cc

sv_wait_loop-SvWaitEnds :
    (timeout : ℤ) (p : SvEvent → Bool) (rounds : List SvRound) {c : Server}
    → SvReach c
    → c.closed ≡ false
    → timeout ≢ pos 0
    → SvRuns rounds c
    → SvWaitEnds timeout p rounds c (sv_wait_loop timeout p rounds c)
unfolding sv_wait_loop
sv_wait_loop-SvWaitEnds timeout p [] {c} r up asked h = elim (Bool-cases (any p c.ready)) [
  | inl found ↦
      rw (found, sv_wait_loop) (r, SvAdds-refl c, ends_first timeout p [] c (inr (inl found)))
  | inr none_yet ↦ rw (none_yet, sv_wait_loop) (r, asked, refl, only_now p c none_yet, refl)
]
sv_wait_loop-SvWaitEnds timeout p (t ∷ ts) {c} r up asked (run, rest) =
    elim (Bool-cases (any p c.ready)) [
      | inl found ↦
          rw (found, sv_wait_loop)
            (r, SvAdds-refl c, ends_first timeout p (t ∷ ts) c (inr (inl found)))
      | inr none_yet ↦
          let r1 = later r (waits up) in
          elim (Bool-cases (sv_positive timeout && not (sv_positive t.remaining))) [
            | inl late ↦
                rw (none_yet, late, sv_wait_loop)
                  (
                    r1,
                    drain-SvAdds c _ (SvAdds-refl (sv_drained c)),
                    ends_first timeout p (t ∷ ts) c (inr (inr (ground (arith, late)))),
                  )
            | inr in_time ↦
                let (d, done, r2, a) = sv_complete_all-SvReach t.meanwhile r1 run in
                let b = drain-SvAdds c d a in
                elim (Bool-cases (sv_positive t.polled)) [
                  | inr stop ↦
                      rw (none_yet, in_time, done, stop, sv_wait_loop)
                        (
                          r2,
                          b,
                          last_round timeout p t ts c d asked none_yet done
                              (ground (arith, in_time, stop)),
                        )
                  | inl on ↦
                      rw (none_yet, in_time, done, on, sv_wait_loop)
                        (one_more timeout p t ts c d _ b asked none_yet done
                          (ground (arith, in_time, on))
                          (sv_wait_loop-SvWaitEnds timeout p ts r2 (b.closed ∙ up) asked
                            (rest d done)))
                ]
          ]
    ]

pub sv_wait_for-SvWaitEnds :
    (timeout : ℤ) (p : SvEvent → Bool) (rounds : List SvRound) {c : Server}
    → SvReach c
    → c.closed ≡ false
    → SvRuns rounds c
    → SvWaitEnds timeout p rounds c (sv_wait_for timeout p rounds c)
unfolding sv_wait_for
sv_wait_for-SvWaitEnds timeout p rounds {c} r up run =
    if_rule (SvWaitEnds timeout p rounds c) (is_sv_zero timeout)
      (λ at_once. (r, SvAdds-refl c, ends_first timeout p rounds c (inl (ground (arith, at_once)))))
      (λ asked. sv_wait_loop-SvWaitEnds timeout p rounds r up (λ e. ground (arith, asked, e)) run)
