-- ===== src/Client/Poll/Call.antt =====
-- src/client.cpp: `grpc_r_client_poll` from its arguments to its result.
use rgrpc.Prelude.{ℕ, ℤ, List, Option, if◌then◌else◌}
use rgrpc.Client.Types.{Client}
use rgrpc.Client.Poll.{matches, Round, Waited, wait_for, take_batch}
use rgrpc.Marshal.Values.{RList}
use rgrpc.Marshal.ClientEvents.{batch_to_r}

-- How a call of the poll ends, and the client that it leaves. The result `none` is an R error.
pub data Polled : Type 0 where
  refused : Polled  -- the client is closed
  answered : Option (List RList) → Client → Polled
  unfinished : Client → Polled  -- the rounds given are over, and the wait is not
  faulted : Polled  -- the completion thread met a deleted object

-- After the wait.
unfoldable pub poll_ready : Option ℕ → ℤ → Client → Polled
unfolding take_batch batch_to_r
poll_ready only_id max_events c =
    let (batch, d) = take_batch (matches only_id) max_events c in
    Polled.answered (batch_to_r batch) d

unfoldable pub grpc_r_client_poll : ℤ → ℤ → Option ℕ → List Round → Client → Polled
unfolding wait_for poll_ready
grpc_r_client_poll max_events timeout_ms only_id rounds c =
    if c.closed then Polled.refused else (elim (wait_for timeout_ms (matches only_id) rounds c) [
      | Waited.over d ↦ poll_ready only_id max_events d
      | Waited.waiting d ↦ Polled.unfinished d
      | Waited.fault ↦ Polled.faulted
    ])
