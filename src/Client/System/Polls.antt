-- ===== src/Client/System/Polls.antt =====
-- src/client.cpp: a whole call of `grpc_r_client_poll`, among the rounds of the completion thread.
use rgrpc.Prelude.{
  suc, some, pos, ◌≢◌, ℕ, ◌≤◌, ◌<◌, ℤ, pos_part, Bool, false, not, ◌≡◌, ◌⊎◌, List, [], ◌++◌, Option,
  arith, any, length, select, sym, ap, ◌∙◌, if_rule, refl, subst,
}
use rgrpc.Client.Types.{ClEvent, Client}
use rgrpc.Client.Poll.{Round, Waited, matches, take_batch}
use rgrpc.Client.Poll.Batch.{take_batch_lem}
use rgrpc.Client.Poll.Call.{Polled, grpc_r_client_poll, poll_ready}
use rgrpc.Client.Readiness.{IsArmed, take_batch-IsArmed}
use rgrpc.Client.System.{Reach, later, polls}
use rgrpc.Client.Adding.{Adds}
use rgrpc.Client.System.Waits.{Runs, WaitEnds, wait_for-WaitEnds}
use rgrpc.Client.System.Seen.{after_rounds, gives_up, Prompt, WaitedFor}
use rgrpc.Marshal.Values.{RList}
use rgrpc.Marshal.ClientEvents.{batch_to_r}

-- The answer of a call that began on `c` and left `d`: `new` came in while it waited.
pub record Answered (p : ClEvent → Bool) (max_events : ℤ) (out : Option (List RList)) (c d : Client)
    : Type 0 where
  pub new : List ClEvent
  pub batch : List ClEvent
  pub answer : out ≡ batch_to_r batch
  pub wanted : select p (c.ready ++ new) ≡ batch ++ select p d.ready
  pub stepped_over : select (λ ev. not (p ev)) d.ready ≡ select (λ ev. not (p ev)) (c.ready ++ new)
  pub limited : length batch ≤ pos_part max_events
  pub exhausted : (length batch ≡ pos_part max_events) ⊎ (select p d.ready ≡ [])
  pub armed : IsArmed d

-- What a call promises.
abbrev pub PollEnds : ℤ → ℤ → Option ℕ → List Round → Client → Polled → Type 0
PollEnds max timeout only_id rounds c (Polled.answered out d) =
    Reach d
    × ((a : Answered (matches only_id) max out c d) × WaitedFor timeout (matches only_id) rounds c
          (c.ready ++ a.new))
PollEnds max timeout only_id rounds c (Polled.unfinished d) =
    Reach d
    × (timeout ≢ pos 0)
    × (after_rounds (length rounds) rounds c ≡ some d)
    × Prompt (matches only_id) (suc (length rounds)) rounds c
    × (any (gives_up timeout) rounds ≡ false)
PollEnds max timeout only_id rounds c Polled.refused = ⊥
PollEnds max timeout only_id rounds c Polled.faulted = ⊥

after_wait :
    (max timeout : ℤ) (only_id : Option ℕ) (rounds : List Round) (c d : Client)
    → Reach d
    → d.closed ≡ false
    → 0 < c.wake.capacity
    → Adds c d
    → WaitedFor timeout (matches only_id) rounds c d.ready
    → PollEnds max timeout only_id rounds c (poll_ready only_id max d)
unfolding poll_ready
after_wait max timeout only_id rounds c d r up room a why =
    let (new, e) = a.ready in
    let (wanted, stepped_over, limited, exhausted) = take_batch_lem (matches only_id) max d in
    (
      later r (polls (matches only_id) max up),
      (
        record {
          new = new;
          batch = (take_batch (matches only_id) max d).0;
          answer = refl;
          wanted = ap (select (matches only_id)) (sym e) ∙ wanted;
          stepped_over = stepped_over ∙ ap (select (λ ev. not (matches only_id ev))) e;
          limited = limited;
          exhausted = exhausted;
          armed = take_batch-IsArmed (matches only_id) max d (omega (arith, a.capacity));
        },
        subst (WaitedFor timeout (matches only_id) rounds c) e why,
      ),
    )

waited :
    (max timeout : ℤ) (only_id : Option ℕ) (rounds : List Round) (c : Client) (w : Waited)
    → c.closed ≡ false
    → 0 < c.wake.capacity
    → WaitEnds timeout (matches only_id) rounds c w
    → PollEnds max timeout only_id rounds c (elim w [
      | Waited.over d ↦ poll_ready only_id max d
      | Waited.waiting d ↦ Polled.unfinished d
      | Waited.fault ↦ Polled.faulted
    ])
waited max timeout only_id rounds c (Waited.over d) up room (r, a, why) =
    after_wait max timeout only_id rounds c d r (a.closed ∙ up) room a why
waited max timeout only_id rounds c (Waited.waiting d) up room h = h
waited max timeout only_id rounds c Waited.fault up room h = h

-- A poll of a client that can be reached and is not closed, whose pipe can hold a byte and whose
-- completion thread takes outstanding tags while it waits, never meets a deleted object and is not
-- refused. With the timeout 0 it answers before the first round. With another it waits for as long as no
-- event matches and no round times out or is interrupted. It answers after the first rounds, as many as
-- it has run, and no event matched before the last of them; `new` are the events that the thread has
-- queued in those rounds. Its batch is the first of the matching events of `ready ++ new`, at most as
-- many as asked for, and fewer only if no more match; every other event stays, in order; its result is
-- the batch as R lists; the descriptor is readable exactly while events are left; and it ended because
-- the timeout was 0, an event matches, or a round gave up.
pub client_poll_answers :
    {c : Client} (r : Reach c) (max_events timeout_ms : ℤ) (only_id : Option ℕ)
    (rounds : List Round)
    → c.closed ≡ false
    → 0 < c.wake.capacity
    → Runs rounds c
    → PollEnds max_events timeout_ms only_id rounds c
        (grpc_r_client_poll max_events timeout_ms only_id rounds c)
unfolding grpc_r_client_poll
client_poll_answers {c} r max timeout only_id rounds up room run =
    if_rule (PollEnds max timeout only_id rounds c) c.closed (λ shut. cc)
      (λ _.
        waited max timeout only_id rounds c _ up room
          (wait_for-WaitEnds timeout (matches only_id) rounds r up run))
