-- ===== src/Client/System.antt =====
-- src/client.cpp: the completion thread and the R thread, one critical section at a time. The mutex
-- orders the sections, and the completion queue returns any tag that is outstanding.
pub mod Safety
pub mod Entries
pub mod Seen
pub mod Waits
pub mod Polls
pub mod Ending
pub mod Closing
pub mod Gone
pub mod Finality
pub mod Progress
use rgrpc.Convert.{Bytes}
use rgrpc.Prelude.{
  ℕ, ◌+◌, ◌<◌, ◌^◌, ℤ, Bool, true, false, ◌≡◌, refl, some, arith, find, subst, sym, ◌∙◌,
  some-injective,
}
use rgrpc.Wake.{wake_open, wake_drain, no_handle}
use rgrpc.Client.Types.{TagKind, ClEvent, ClientContext, Client, Completion}
use rgrpc.Client.Stream.{send_locked, writes_done_locked}
use rgrpc.Client.Completion.{outstanding, complete}
use rgrpc.Client.Api.{start_call_locked, start_stream_locked, cancel_locked, on_stream}
use rgrpc.Client.Poll.{take_batch}
use rgrpc.Client.Lifecycle.{create_client, begin_shutdown, new_client}
use rgrpc.Client.Invariant.{IsValid}
use rgrpc.Client.Invariant.Completions.{complete-IsValid}
use rgrpc.Client.Invariant.Requests.{
  start_call_locked-IsValid, start_stream_locked-IsValid, send-IsValid, writes_done-IsValid,
}
use rgrpc.Client.Invariant.Polling.{take_batch-IsValid, wake-IsValid}
use rgrpc.Client.Invariant.Cancelling.{cancel_locked-IsValid, begin_shutdown-IsValid}

-- One critical section. R's calls are refused once the client is closed, and an id is never drawn
-- twice as long as fewer than 2^64 calls are made.
pub data Step (c : Client) : Client → Type 0 where
  completes :
      (e : Completion) (d : Client)
      → 0 < outstanding e.tag.obj e.tag.kind c.cq
      → complete e c ≡ some d
      → Step c d
  starts_call :
      (ctx : ClientContext)
      → c.closed ≡ false
      → c.next_id + 1 < 2 ^ 64
      → Step c (start_call_locked ctx c).0
  starts_stream :
      (ctx : ClientContext) (read_cap write_cap : ℤ)
      → c.closed ≡ false
      → c.next_id + 1 < 2 ^ 64
      → Step c (start_stream_locked ctx read_cap write_cap c).0
  sends :
      (id : ℕ) (bytes : Bytes)
      → c.closed ≡ false
      → Step c (on_stream id (send_locked c.shutting bytes) c).0
  half_closes :
      (id : ℕ) → c.closed ≡ false → Step c (on_stream id (writes_done_locked c.shutting) c).0
  cancels : (id : ℕ) → c.closed ≡ false → Step c (cancel_locked id c)
  waits : c.closed ≡ false → Step c (record c { wake = wake_drain c.wake })
  polls : (p : ClEvent → Bool) (maxn : ℤ) → c.closed ≡ false → Step c (take_batch p maxn c).1
  shuts : c.closed ≡ false → Step c (begin_shutdown c)

pub data Reach : Client → Type 0 where
  created : (c : Client) (capacity : ℕ) → create_client true capacity ≡ some c → Reach c
  later : {c d : Client} → Reach c → Step c d → Reach d

new_client-IsValid : IsValid new_client
unfolding find
new_client-IsValid = record {
  streams = λ i s e. cc;
  no_stream = λ i _. elim [ TagKind.unary ↦ refl | _ ↦ refl ];
  calls = λ i cs e. cc;
  no_call = λ i _. refl;
  fresh = λ i _. (refl, refl, refl);
}

create_client-IsValid :
    (pipe_ok : Bool) (capacity : ℕ) (c : Client)
    → create_client pipe_ok capacity ≡ some c
    → IsValid c
unfolding create_client wake_open
create_client-IsValid true capacity c e =
    subst IsValid (some-injective _ _ e) (wake-IsValid _ new_client new_client-IsValid)
create_client-IsValid false capacity c e = cc

Step-IsValid : {c d : Client} → IsValid c → Step c d → IsValid d
Step-IsValid {c} v (completes e d out done) =
    let (d1, done1, valid) = complete-IsValid e c v out in
    subst IsValid (some-injective _ _ (sym done1 ∙ done)) valid
Step-IsValid {c} v (starts_call ctx _ room) = start_call_locked-IsValid ctx c v room
Step-IsValid {c} v (starts_stream ctx r w _ room) = start_stream_locked-IsValid ctx r w c v room
Step-IsValid {c} v (sends id bytes _) = send-IsValid id bytes c v
Step-IsValid {c} v (half_closes id _) = writes_done-IsValid id c v
Step-IsValid {c} v (cancels id _) = cancel_locked-IsValid id c v
Step-IsValid {c} v (waits _) = wake-IsValid (wake_drain c.wake) c v
Step-IsValid {c} v (polls p maxn _) = take_batch-IsValid p maxn c v
Step-IsValid {c} v (shuts _) = begin_shutdown-IsValid c v

-- Every client that can be reached satisfies the invariant: the tags outstanding are those that the
-- flags of the live streams and the unary calls announce, `pending` counts them, `unread` counts the
-- messages in `ready`, the caps hold, and ids from `next_id` on are unused.
pub Reach-IsValid : {c : Client} → Reach c → IsValid c
Reach-IsValid (created c capacity e) = create_client-IsValid true capacity c e
Reach-IsValid (later r st) = Step-IsValid (Reach-IsValid r) st
