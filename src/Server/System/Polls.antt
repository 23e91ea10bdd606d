-- ===== src/Server/System/Polls.antt =====
-- src/server.cpp: a whole call of `grpc_r_server2_poll`, among the rounds of the completion thread.
use rgrpc.Prelude.{
  suc, some, pos, ◌≢◌, ℕ, ◌≤◌, ◌<◌, ℤ, pos_part, Bool, false, not, ◌≡◌, refl, sym, ap, subst, ◌∙◌,
  ◌⊎◌, List, [], ◌++◌, Option, arith, any, length, select, is_empty, if_rule,
}
use rgrpc.Wake.{is_readable}
use rgrpc.Server.Types.{SvEvent, Server}
use rgrpc.Server.Poll.{SvRound, SvWaited, sv_matches, sv_take_batch}
use rgrpc.Server.Batch.{sv_take_batch_lem}
use rgrpc.Server.Poll.Call.{SvPolled, grpc_r_server2_poll, sv_poll_ready}
use rgrpc.Server.System.{SvReach, later, polls}
use rgrpc.Server.Adding.{SvAdds}
use rgrpc.Server.System.Waits.{SvRuns, SvWaitEnds, sv_wait_for-SvWaitEnds}
use rgrpc.Server.System.Seen.{sv_after_rounds, sv_gives_up, SvPrompt, SvWaitedFor}
use rgrpc.Marshal.Values.{RList}
use rgrpc.Marshal.ServerEvents.{sv_batch_to_r}

-- The answer of a call that began on `s` and left `d`: `new` came in while it waited.
pub record SvAnswers (p : SvEvent → Bool) (max_events : ℤ) (out : Option (List RList))
    (s d : Server) : Type 0 where
  pub new : List SvEvent
  pub batch : List SvEvent
  pub answer : out ≡ sv_batch_to_r batch
  pub wanted : select p (s.ready ++ new) ≡ batch ++ select p d.ready
  pub stepped_over : select (λ ev. not (p ev)) d.ready ≡ select (λ ev. not (p ev)) (s.ready ++ new)
  pub limited : length batch ≤ pos_part max_events
  pub exhausted : (length batch ≡ pos_part max_events) ⊎ (select p d.ready ≡ [])
  pub armed : is_readable d.wake ≡ not (is_empty d.ready)

-- What a call promises.
abbrev pub SvPollEnds : ℤ → ℤ → Option ℕ → List SvRound → Server → SvPolled → Type 0
SvPollEnds max timeout only_id rounds s (SvPolled.answered out d) =
    SvReach d
    × ((a : SvAnswers (sv_matches only_id) max out s d) × SvWaitedFor timeout (sv_matches only_id)
          rounds s (s.ready ++ a.new))
SvPollEnds max timeout only_id rounds s (SvPolled.unfinished d) =
    SvReach d
    × (timeout ≢ pos 0)
    × (sv_after_rounds (length rounds) rounds s ≡ some d)
    × SvPrompt (sv_matches only_id) (suc (length rounds)) rounds s
    × (any (sv_gives_up timeout) rounds ≡ false)
SvPollEnds max timeout only_id rounds s SvPolled.refused = ⊥
SvPollEnds max timeout only_id rounds s SvPolled.faulted = ⊥

sv_after_wait :
    (max timeout : ℤ) (only_id : Option ℕ) (rounds : List SvRound) (s d : Server)
    → SvReach d
    → d.closed ≡ false
    → 0 < s.wake.capacity
    → SvAdds s d
    → SvWaitedFor timeout (sv_matches only_id) rounds s d.ready
    → SvPollEnds max timeout only_id rounds s (sv_poll_ready only_id max d)
unfolding sv_poll_ready
sv_after_wait max timeout only_id rounds s d r up room a why =
    let p = sv_matches only_id in
    let (new, e) = a.ready in
    let (wanted, stepped_over, limited, exhausted, armed) =
      sv_take_batch_lem p max d (omega (arith, a.capacity)) in
    (
      later r (polls p max up),
      (
        record {
          new = new;
          batch = (sv_take_batch p max d).0;
          answer = refl;
          wanted = ap (select p) (sym e) ∙ wanted;
          stepped_over = stepped_over ∙ ap (select (λ ev. not (p ev))) e;
          limited = limited;
          exhausted = exhausted;
          armed = armed;
        },
        subst (SvWaitedFor timeout p rounds s) e why,
      ),
    )

sv_waited :
    (max timeout : ℤ) (only_id : Option ℕ) (rounds : List SvRound) (s : Server) (w : SvWaited)
    → s.closed ≡ false
    → 0 < s.wake.capacity
    → SvWaitEnds timeout (sv_matches only_id) rounds s w
    → SvPollEnds max timeout only_id rounds s (elim w [
      | SvWaited.over d ↦ sv_poll_ready only_id max d
      | SvWaited.waiting d ↦ SvPolled.unfinished d
      | SvWaited.fault ↦ SvPolled.faulted
    ])
sv_waited max timeout only_id rounds s (SvWaited.over d) up room (r, a, why) =
    sv_after_wait max timeout only_id rounds s d r (a.closed ∙ up) room a why
sv_waited max timeout only_id rounds s (SvWaited.waiting d) up room h = h
sv_waited max timeout only_id rounds s SvWaited.fault up room h = h

-- A poll of a server that can be reached and is not closed, whose pipe can hold a byte and whose
-- completion thread takes outstanding tags while it waits, never meets a deleted call and is not
-- refused. With the timeout 0 it answers before the first round. With another it waits for as long as no
-- event matches and no round times out or is interrupted. It answers after the first rounds, as many as
-- it has run, and no event matched before the last of them; `new` are the events that the thread has
-- queued in those rounds. Its batch is the first of the matching events of `ready ++ new`, at most as
-- many as asked for, and fewer only if no more match; every other event stays, in order; its result is
-- the batch as R lists; the descriptor is readable exactly while events are left; and it ended because
-- the timeout was 0, an event matches, or a round gave up.
pub server_poll_answers :
    {s : Server} (r : SvReach s) (max_events timeout_ms : ℤ) (only_id : Option ℕ)
    (rounds : List SvRound)
    → s.closed ≡ false
    → 0 < s.wake.capacity
    → SvRuns rounds s
    → SvPollEnds max_events timeout_ms only_id rounds s
        (grpc_r_server2_poll max_events timeout_ms only_id rounds s)
unfolding grpc_r_server2_poll
server_poll_answers {s} r max timeout only_id rounds up room run =
    if_rule (SvPollEnds max timeout only_id rounds s) s.closed (λ shut. cc)
      (λ _.
        sv_waited max timeout only_id rounds s _ up room
          (sv_wait_for-SvWaitEnds timeout (sv_matches only_id) rounds r up run))
