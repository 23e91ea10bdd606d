-- ===== src/Server/Poll/Call.antt =====
-- src/server.cpp: `grpc_r_server2_poll` from its arguments to its result.
use rgrpc.Prelude.{ℕ, ℤ, List, Option, if◌then◌else◌}
use rgrpc.Server.Types.{Server}
use rgrpc.Server.Poll.{sv_matches, SvRound, SvWaited, sv_wait_for, sv_take_batch}
use rgrpc.Marshal.Values.{RList}
use rgrpc.Marshal.ServerEvents.{sv_batch_to_r}

-- How a call of the poll ends, and the server that it leaves. The result `none` is an R error.
pub data SvPolled : Type 0 where
  refused : SvPolled  -- the server is closed
  answered : Option (List RList) → Server → SvPolled
  unfinished : Server → SvPolled  -- the rounds given are over, and the wait is not
  faulted : SvPolled  -- the completion thread met a deleted call

-- After the wait.
unfoldable pub sv_poll_ready : Option ℕ → ℤ → Server → SvPolled
unfolding sv_take_batch sv_batch_to_r
sv_poll_ready only_id max_events s =
    let (batch, d) = sv_take_batch (sv_matches only_id) max_events s in
    SvPolled.answered (sv_batch_to_r batch) d

unfoldable pub grpc_r_server2_poll : ℤ → ℤ → Option ℕ → List SvRound → Server → SvPolled
unfolding sv_wait_for sv_poll_ready
grpc_r_server2_poll max_events timeout_ms only_id rounds s =
    if s.closed
    then SvPolled.refused
    else (elim (sv_wait_for timeout_ms (sv_matches only_id) rounds s) [
      | SvWaited.over d ↦ sv_poll_ready only_id max_events d
      | SvWaited.waiting d ↦ SvPolled.unfinished d
      | SvWaited.fault ↦ SvPolled.faulted
    ])
