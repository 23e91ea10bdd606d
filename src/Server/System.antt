-- ===== src/Server/System.antt =====
-- src/server.cpp: the completion thread and the R thread, one critical section at a time. The mutex
-- orders the sections, and the completion queue returns any tag that is outstanding.
pub mod Safety
pub mod Entries
pub mod Refill
pub mod Shrinking
pub mod Seen
pub mod Waits
pub mod Polls
pub mod Ending
pub mod Closing
pub mod Gone
pub mod Finality
use rgrpc.Prelude.{
  ℕ, ◌+◌, ◌<◌, ◌^◌, ℤ, pos, Bool, true, false, not, ◌≡◌, refl, some, none, arith, find, subst, sym,
  ◌∙◌, some-injective, if_rule, is_empty,
}
use rgrpc.Wake.{wake_open, wake_drain, wake_signal}
use rgrpc.Server.Types.{SvEvent, Server, SvCompletion}
use rgrpc.Server.Round.{sv_outstanding, sv_complete, post_accepts_locked}
use rgrpc.Server.Api.{on_call}
use rgrpc.Server.Poll.{sv_take_batch, sv_take_events}
use rgrpc.Server.Lifecycle.{new_server, create_server, begin_sv_shutdown}
use rgrpc.Server.Invariant.{IsServer, IsServer-same}
use rgrpc.Server.Slots.{post_accepts_locked-IsServer}
use rgrpc.Server.Rounds.{sv_complete-IsServer}
use rgrpc.Server.Asking.{SvRequest, ask, ask-IsRequest, on_call-IsServer}

-- One critical section. R's calls are refused once the server is closed, and an id is never drawn
-- twice as long as fewer than 2^64 calls are accepted.
pub data SvStep (s : Server) : Server → Type 0 where
  completes :
      (e : SvCompletion) (d : Server)
      → 0 < sv_outstanding e.tag.call e.tag.kind s.cq
      → s.next_id + 1 < 2 ^ 64
      → sv_complete e s ≡ some d
      → SvStep s d
  asks :
      (want : ℕ) (q : SvRequest) (d : Server) (accepted : Bool)
      → s.closed ≡ false
      → on_call want (ask s.shutting q) s ≡ some (d, accepted)
      → SvStep s d
  waits : s.closed ≡ false → SvStep s (record s { wake = wake_drain s.wake })
  polls : (p : SvEvent → Bool) (maxn : ℤ) → s.closed ≡ false → SvStep s (sv_take_batch p maxn s).1
  shuts : s.closed ≡ false → SvStep s (begin_sv_shutdown s)

pub data SvReach : Server → Type 0 where
  created :
      (s : Server) (capacity : ℕ) (accept_window max_active : ℤ)
      → create_server true capacity true accept_window max_active ≡ some s
      → SvReach s
  later : {s d : Server} → SvReach s → SvStep s d → SvReach d

new_server-IsServer :
    (accept_window max_active : ℤ) → IsServer (new_server accept_window max_active)
unfolding find
new_server-IsServer accept_window max_active = record {
  calls = λ a c e. cc;
  no_call = λ a _ k. refl;
  active = λ i a e. cc;
  fresh = λ a _. refl;
  counted = refl;
  window = omega arith;
  limit = omega arith;
  ids = omega arith;
}

create_server-IsServer :
    (capacity : ℕ) (accept_window max_active : ℤ) (s : Server)
    → create_server true capacity true accept_window max_active ≡ some s
    → IsServer s
unfolding create_server wake_open
create_server-IsServer capacity accept_window max_active s e =
    subst IsServer (some-injective _ _ e) (
      post_accepts_locked-IsServer _ (
        IsServer-same (new_server accept_window max_active) _ _ false false
          (new_server-IsServer accept_window max_active)))

sv_take_batch-IsServer :
    (p : SvEvent → Bool) (maxn : ℤ) (s : Server) → IsServer s → IsServer (sv_take_batch p maxn s).1
unfolding sv_take_batch
sv_take_batch-IsServer p maxn s v =
    let left = (sv_take_events p maxn 0 s.ready).1 in
    let drained = wake_drain s.wake in
    if_rule IsServer (not (is_empty left))
      (λ _. IsServer-same s left (wake_signal drained) s.closed s.shutting v)
      (λ _. IsServer-same s left drained s.closed s.shutting v)

SvStep-IsServer : {s d : Server} → IsServer s → SvStep s d → IsServer d
unfolding begin_sv_shutdown
SvStep-IsServer {s} v (completes e d out room done) =
    let (d1, done1, valid) = sv_complete-IsServer e s v out room in
    subst IsServer (some-injective _ _ (sym done1 ∙ done)) valid
SvStep-IsServer {s} v (asks want q d accepted _ done) =
    let (r, done1, valid) =
      on_call-IsServer want (ask s.shutting q) s v (ask-IsRequest s.shutting q) in
    subst (λ (x : Server × Bool). IsServer x.0) (some-injective _ _ (sym done1 ∙ done)) valid
SvStep-IsServer {s} v (waits _) = IsServer-same s s.ready (wake_drain s.wake) s.closed s.shutting v
SvStep-IsServer {s} v (polls p maxn _) = sv_take_batch-IsServer p maxn s v
SvStep-IsServer {s} v (shuts _) = IsServer-same s s.ready s.wake true true v

-- Every server that can be reached satisfies the invariant: the tags outstanding are those of calls that
-- are not deleted, the flags and `pending` of each call agree with them, `active` holds each accepted
-- call under its id and no deleted one, and the two limits hold.
pub SvReach-IsServer : {s : Server} → SvReach s → IsServer s
SvReach-IsServer (created s capacity accept_window max_active e) =
    create_server-IsServer capacity accept_window max_active s e
SvReach-IsServer (later r st) = SvStep-IsServer (SvReach-IsServer r) st
