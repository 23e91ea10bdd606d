-- ===== src/Server/System/Safety.antt =====
-- src/server.cpp: what holds in every server that can be reached.
use rgrpc.Prelude.{
  ℕ, ◌+◌, ◌≤◌, ◌<◌, ◌^◌, pos, ◌≡◌, ◌≢◌, ◌⊎◌, Bool, true, some, arith, find, is_empty, length,
}
use rgrpc.Server.Types.{Svop, SvCall, Server, SvCompletion}
use rgrpc.Server.Round.{sv_outstanding, sv_complete}
use rgrpc.Server.Api.{on_call}
use rgrpc.Server.Invariant.{IsServer}
use rgrpc.Server.Rounds.{sv_complete-IsServer}
use rgrpc.Server.Asking.{SvRequest, ask, ask-IsRequest, on_call-IsServer}
use rgrpc.Server.System.{SvReach, SvReach-IsServer}

-- In a server that can be reached, whatever outstanding tag the queue returns, with whatever result,
-- the completion thread finds the call behind it: no tag outlives its call. And whatever R asks, on
-- whatever id, finds a call that is not deleted wherever `active` has the id. Both leave a server that
-- the invariant describes.
pub tags_find_calls :
    {s : Server}
    → SvReach s
    → s.next_id + 1 < 2 ^ 64
    → ((e : SvCompletion)
        → 0 < sv_outstanding e.tag.call e.tag.kind s.cq
        → (d : Server) × (sv_complete e s ≡ some d) × IsServer d)
      × ((want : ℕ) (q : SvRequest)
          → (d : Server × Bool) × (on_call want (ask s.shutting q) s ≡ some d) × IsServer d.0)
tags_find_calls {s} r room =
    let v = SvReach-IsServer r in
    (
      λ e out. sv_complete-IsServer e s v out room,
      λ want q. on_call-IsServer want (ask s.shutting q) s v (ask-IsRequest s.shutting q),
    )

-- Every call of a server that can be reached has at most one read, one write and one terminal operation
-- outstanding; `pending` is the number of its tags and is not 0; while the terminal operation is
-- outstanding no write is and no message is queued; and the queue holds at most write_cap messages.
pub one_terminal :
    {s : Server}
    → SvReach s
    → (a : ℕ) (c : SvCall) → find a s.heap ≡ some c
    → (sv_outstanding a Svop.read s.cq ≤ 1)
      × (sv_outstanding a Svop.write s.cq ≤ 1)
      × (sv_outstanding a Svop.finish s.cq ≤ 1)
      × (c.pending
          ≡ pos (
              sv_outstanding a Svop.accept s.cq
              + sv_outstanding a Svop.read s.cq
              + sv_outstanding a Svop.write s.cq
              + sv_outstanding a Svop.done s.cq
              + sv_outstanding a Svop.finish s.cq))
      × (c.pending ≢ pos 0)
      × ((sv_outstanding a Svop.finish s.cq ≡ 0)
          ⊎ ((sv_outstanding a Svop.write s.cq ≡ 0) × (is_empty c.write_queue ≡ true)))
      × (length c.write_queue ≤ c.write_cap)
one_terminal {s} r a c found =
    let l = (SvReach-IsServer r).calls a c found in
    let h = l.sound in
    (
      ground (arith, h.reads),
      ground (arith, h.writes),
      ground (arith, h.finishes),
      h.counted,
      l.alive,
      ground (arith, h.finishes, h.writes, h.last),
      h.queued,
    )
