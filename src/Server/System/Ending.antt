-- ===== src/Server/System/Ending.antt =====
-- src/server.cpp: how the server ends.
use rgrpc.Prelude.{
  ℕ, ◌+◌, ◌≤◌, ◌<◌, ◌^◌, pos, ◌≡◌, refl, subst, inl, inr, true, false, List, [], ◌∷◌, some, none,
  arith, find, find-erase, erase, length, Map, Option-cases,
}
use rgrpc.Server.Types.{Svop, SvCall, SvCompletion, Server}
use rgrpc.Server.Round.{sv_outstanding, sv_complete, sv_complete_all}
use rgrpc.Server.Frame.{accepts}
use rgrpc.Server.Lifecycle.{begin_sv_shutdown, end_sv_shutdown, delete_active, rserver_shutdown}
use rgrpc.Server.Invariant.{IsServer, IsServer-same}
use rgrpc.Server.Rounds.{sv_complete-IsServer}
use rgrpc.Server.System.Shrinking.{rounds_left, sv_complete-Nearer}
use rgrpc.Server.System.{SvReach, SvReach-IsServer}

-- What the queue returns until it is empty.
pub data SvDrain : List SvCompletion → Server → Type 0 where
  dry : {s : Server} → s.cq ≡ [] → SvDrain [] s
  turn :
      {es : List SvCompletion} {s : Server} (e : SvCompletion)
      → 0 < sv_outstanding e.tag.call e.tag.kind s.cq
      → ((d : Server) → sv_complete e s ≡ some d → SvDrain es d)
      → SvDrain (e ∷ es) s

SvDrain-ends :
    {es : List SvCompletion} {s : Server}
    → IsServer s
    → s.shutting ≡ true
    → s.next_id + accepts s.cq + 1 < 2 ^ 64
    → SvDrain es s
    → (length es ≤ rounds_left s)
      × ((d : Server) × (sv_complete_all es s ≡ some d) × (d.cq ≡ []) × IsServer d)
unfolding sv_complete_all
SvDrain-ends {s = s} v up room (dry empty) = (omega arith, (s, refl, empty, v))
SvDrain-ends {s = s} v up room (turn {es = es} e out rest) =
    let (d, done, valid) = sv_complete-IsServer e s v out (omega arith) in
    let n = sv_complete-Nearer e s d up out (omega arith) done in
    let (rounds, (last, all_done, empty, fine)) =
      SvDrain-ends valid n.still (omega (arith, n.ids)) (rest d done) in
    (omega (arith, n.fewer, rounds), (last, rw (done, sv_complete_all) all_done, empty, fine))

-- With nothing outstanding there is no call left.
no_call_left : (s : Server) → IsServer s → s.cq ≡ [] → (a : ℕ) → find a s.heap ≡ none
no_call_left s v empty a = elim (Option-cases (find a s.heap)) [
  | inl gone ↦ gone
  | inr (c, found) ↦
      let l = v.calls a c found in
      absurd (
        l.alive (
          subst
            (λ q.
              c.pending
              ≡ pos (
                  sv_outstanding a Svop.accept q
                  + sv_outstanding a Svop.read q
                  + sv_outstanding a Svop.write q
                  + sv_outstanding a Svop.done q
                  + sv_outstanding a Svop.finish q))
            empty l.sound.counted))
]

delete_active-none :
    (a : ℕ) (active : Map ℕ) (heap : Map SvCall)
    → find a heap ≡ none
    → find a (delete_active active heap) ≡ none
unfolding delete_active
delete_active-none a [] heap gone = gone
delete_active-none a ((i, b) ∷ active) heap gone =
    delete_active-none a active (erase b heap) (ground (arith, gone, find-erase a b heap))

-- When a server that can be reached is shut down, the completion thread runs at most one round for each
-- tag that is outstanding at that moment and one more for each accept slot among them, in any order
-- in which the queue returns tags; each round finds its call; and afterwards the queue is empty,
-- `active` is empty, and every call and slot has been deleted. Fewer than 2^64 ids may have been drawn.
pub server_shutdown_drains :
    {s : Server} (r : SvReach s) {es : List SvCompletion}
    → s.closed ≡ false
    → s.next_id + accepts s.cq + 1 < 2 ^ 64
    → SvDrain es (begin_sv_shutdown s)
    → (length es ≤ length s.cq + accepts s.cq)
      × ((d : Server) × (rserver_shutdown es s ≡ some d)
          × (d.cq ≡ [])
          × (d.active ≡ [])
          × ((a : ℕ) → find a d.heap ≡ none))
unfolding begin_sv_shutdown rserver_shutdown end_sv_shutdown
server_shutdown_drains {s} r {es} up room run =
    let (rounds, (last, all_done, empty, fine)) =
      SvDrain-ends (IsServer-same s s.ready s.wake true true (SvReach-IsServer r)) refl room run in
    (
      rounds,
      (
        end_sv_shutdown last,
        rw (up, all_done, rserver_shutdown) refl,
        empty,
        refl,
        λ a. delete_active-none a last.active last.heap (no_call_left last fine empty a),
      ),
    )
