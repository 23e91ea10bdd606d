-- ===== src/Client/System/Safety.antt =====
-- src/client.cpp: what holds of every client that can be reached.
use rgrpc.Prelude.{ℕ, ◌+◌, ◌≤◌, ◌<◌, pos, pos_part, max, ◌≡◌, ◌⊎◌, [], some, arith, find, length}
use rgrpc.Client.Types.{TagKind, StreamState, Client, Completion}
use rgrpc.Client.Stream.Discipline.{flagged}
use rgrpc.Client.Completion.{outstanding, complete}
use rgrpc.Client.Frame.{smsgs_of}
use rgrpc.Client.Invariant.{held, IsStream, IsValid}
use rgrpc.Client.Invariant.Completions.{complete-IsValid}
use rgrpc.Client.System.{Reach, Reach-IsValid}

-- In a client that can be reached, whatever outstanding tag the queue returns, with whatever result,
-- the completion thread finds the call or stream behind it: no tag outlives its object. The client
-- that the round leaves is described by the invariant again.
pub completion_finds_object :
    {c : Client} (r : Reach c) (e : Completion)
    → 0 < outstanding e.tag.obj e.tag.kind c.cq
    → (d : Client) × (complete e c ≡ some d) × IsValid d
completion_finds_object {c} r e out = complete-IsValid e c (Reach-IsValid r) out

flagged-le : (s : StreamState) (k : TagKind) → flagged s k ≤ 1
flagged-le s TagKind.unary = omega arith
flagged-le s k = ground arith

-- Every stream of a client that can be reached has at most one operation of each kind outstanding;
-- `pending` is their number; either Finish is not outstanding or nothing else is; and either the
-- half-close is not outstanding or no write is and no message is queued.
pub one_op_per_direction :
    {c : Client} (r : Reach c) (i : ℕ) (s : StreamState)
    → find i c.streams ≡ some s
    → ((k : TagKind) → held c.cq i k ≤ 1)
      × (s.pending
          ≡ pos (
              outstanding i TagKind.start c.cq
              + outstanding i TagKind.read c.cq
              + outstanding i TagKind.write c.cq
              + outstanding i TagKind.wdone c.cq
              + outstanding i TagKind.finish c.cq))
      × ((outstanding i TagKind.finish c.cq ≡ 0)
          ⊎ ((outstanding i TagKind.start c.cq ≡ 0)
              × (outstanding i TagKind.read c.cq ≡ 0)
              × (outstanding i TagKind.write c.cq ≡ 0)
              × (outstanding i TagKind.wdone c.cq ≡ 0)))
      × ((outstanding i TagKind.wdone c.cq ≡ 0)
          ⊎ ((outstanding i TagKind.write c.cq ≡ 0) × (s.write_queue ≡ [])))
one_op_per_direction {c} r i s found = (
  λ k. omega (arith, h.tags k, flagged-le s k),
  ground (
    arith,
    h.sound.counted,
    h.tags TagKind.start,
    h.tags TagKind.read,
    h.tags TagKind.write,
    h.tags TagKind.wdone,
    h.tags TagKind.finish,
    h.alive,
  ),
  ground (
    arith,
    h.sound,
    h.tags TagKind.start,
    h.tags TagKind.read,
    h.tags TagKind.write,
    h.tags TagKind.wdone,
    h.tags TagKind.finish,
  ),
  ground (arith, h.sound, h.tags TagKind.write, h.tags TagKind.wdone),
)
  where
    h : IsStream c.cq c.ready i s
    h = (Reach-IsValid r).streams i s found

-- In a client that can be reached, the messages of a stream that wait in `ready`, with the read that
-- is in flight, are at most the read cap, or 1 if the cap is less; and no more messages than the write
-- cap are queued for writing.
pub buffers_bounded :
    {c : Client} (r : Reach c) (i : ℕ) (s : StreamState)
    → find i c.streams ≡ some s
    → (smsgs_of i c.ready + outstanding i TagKind.read c.cq ≤ max 1 (pos_part s.read_cap))
      × (length s.write_queue ≤ s.write_cap)
buffers_bounded {c} r i s found =
    let h = (Reach-IsValid r).streams i s found in
    (ground (arith, h.bounded.buffered, h.backlog, h.tags TagKind.read), h.bounded.queued)
