-- ===== src/Client/Invariant/Requests.antt =====
-- src/client.cpp: the calls that R makes and the invariant of the client.
use rgrpc.Convert.{Bytes}
use rgrpc.Prelude.{
  ℕ, ◌+◌, ◌≤◌, ◌<◌, ◌^◌, ℤ, pos, ◌≡◌, ◌≢◌, refl, sym, ap, ◌∙◌, inl, inr, Bool, false, List, [], ◌∷◌,
  arith, some, find, find-insert, find-insert-some, find-insert-none, subst, Option-cases,
}
use rgrpc.Client.Types.{TagKind, Ctag, ClientContext, CallState, StreamState, Client, RwOp}
use rgrpc.Client.Stream.{Locked, send_locked, writes_done_locked, s_pump_writes_locked}
use rgrpc.Client.Stream.Handlers.{Holds}
use rgrpc.Client.Stream.Requests.{send_locked-Holds, writes_done_locked-Holds}
use rgrpc.Client.Api.{start_call_locked, start_stream_locked, new_stream, on_stream, u64}
use rgrpc.Client.Frame.{smsgs_of}
use rgrpc.Client.Invariant.{
  held, IsStream, IsStream-same, IsValid, IsValid-IsValidBut, store_stream-IsValid,
}
use rgrpc.Client.Invariant.Completions.{old_id}

u64_next : (n : ℕ) → n + 1 < 2 ^ 64 → u64 (n + 1) ≡ n + 1
u64_next n h = omega arith

-- A new call gets an id that no call, stream or event has.
pub start_call_locked-IsValid :
    (ctx : ClientContext) (c : Client)
    → IsValid c
    → c.next_id + 1 < 2 ^ 64
    → IsValid (start_call_locked ctx c).0
unfolding start_call_locked
start_call_locked-IsValid ctx c v room = record {
  streams = λ x s found.
      IsStream-same x s (elim [ TagKind.unary ↦ refl | _ ↦ ground arith ]) refl
        (v.streams x s found);
  no_stream = λ x gone. elim [ TagKind.unary ↦ refl | k ↦ ground (arith, v.no_stream x gone k) ];
  calls = λ x cs found. elim (find-insert-some x c.next_id _ cs c.calls found) [
    | inl (here, same) ↦ (
      ap (λ (r : CallState). r.id) (sym same) ∙ sym here,
      ground (arith, v.no_call x (v.fresh x (omega arith)).1),
    )
    | inr (n, before) ↦ ground (arith, v.calls x cs before)
  ];
  no_call = λ x gone.
      let (n, before) = find-insert-none x c.next_id _ c.calls gone in
      ground (arith, v.no_call x before);
  fresh = λ x new.
      let above : c.next_id < x = omega (arith, u64_next c.next_id room) in
      let (gone, no_call, quiet) = v.fresh x (omega arith) in
      (
        gone,
        ground (arith, find-insert x c.next_id (record { id = c.next_id; context = ctx }) c.calls),
        quiet,
      );
}

new_stream-IsStream :
    (ctx : ClientContext) (read_cap write_cap : ℤ) (i : ℕ) (c : Client)
    → IsValid c
    → c.next_id ≤ i
    → IsStream
        (record { obj = i; kind = TagKind.start } ∷ c.cq)
        c.ready
        i
        (record (new_stream i ctx read_cap write_cap) {
          pending = pos 1;
          rw = RwOp.start_call ∷ [];
        })
new_stream-IsStream ctx read_cap write_cap i c v new =
    let (gone, _, quiet) = v.fresh i new in
    record {
      named = refl;
      sound = ground arith;
      bounded = ground arith;
      tags = elim [ TagKind.unary ↦ refl | k ↦ ground (arith, v.no_stream i gone k) ];
      backlog = ap pos (sym quiet);
      alive = refl;
    }

held_new_ne :
    (x i : ℕ) (cq : List Ctag)
    → x ≢ i
    → (k : TagKind) → held (record { obj = i; kind = TagKind.start } ∷ cq) x k ≡ held cq x k
held_new_ne x i cq n TagKind.unary = refl
held_new_ne x i cq n k = ground arith

-- So does a new stream, whose start is outstanding.
pub start_stream_locked-IsValid :
    (ctx : ClientContext) (read_cap write_cap : ℤ) (c : Client)
    → IsValid c
    → c.next_id + 1 < 2 ^ 64
    → IsValid (start_stream_locked ctx read_cap write_cap c).0
unfolding start_stream_locked
start_stream_locked-IsValid ctx read_cap write_cap c v room = record {
  streams = λ x s found. elim (find-insert-some x c.next_id _ s c.streams found) [
    | inl (here, same) ↦
        subst (λ (y : ℕ). IsStream cq1 c.ready y s) (sym here)
          (subst (IsStream cq1 c.ready c.next_id) same
            (new_stream-IsStream ctx read_cap write_cap c.next_id c v (omega arith)))
    | inr (n, before) ↦
        IsStream-same x s (held_new_ne x c.next_id c.cq n) refl (v.streams x s before)
  ];
  no_stream = λ x gone k.
      let (n, before) = find-insert-none x c.next_id _ c.streams gone in
      held_new_ne x c.next_id c.cq n k ∙ v.no_stream x before k;
  calls = λ x cs found. ground (arith, v.calls x cs found);
  no_call = λ x gone. ground (arith, v.no_call x gone);
  fresh = λ x new.
      let above : c.next_id < x = omega (arith, u64_next c.next_id room) in
      let (gone, no_call, quiet) = v.fresh x (omega arith) in
      (ground (arith, find-insert x c.next_id s1 c.streams), no_call, quiet);
}
  where
    cq1 : List Ctag
    cq1 = record { obj = c.next_id; kind = TagKind.start } ∷ c.cq

    s1 : StreamState
    s1 = record (new_stream c.next_id ctx read_cap write_cap) {
      pending = pos 1;
      rw = RwOp.start_call ∷ [];
    }

-- A call on one stream, from what it does to the stream.
on_stream-IsValid :
    (want : ℕ) (f : StreamState → Locked × Bool) (c : Client)
    → IsValid c
    → ((s : StreamState)
        → find want c.streams ≡ some s
        → Holds (held c.cq want) (smsgs_of want c.ready) want (f s).0
          × ((f s).0.stream.status_emitted ≡ false))
    → IsValid (on_stream want f c).0
unfolding on_stream
on_stream-IsValid want f c v keeps = elim (Option-cases (find want c.streams)) [
  | inl gone ↦ rw (gone, on_stream) v
  | inr (s, found) ↦
      let (h, alive) = keeps s found in
      rw (found, on_stream)
        (store_stream-IsValid want (f s).0 c (IsValid-IsValidBut want v) h (old_id c want s v found)
          alive)
]

send_locked-alive :
    (shutting : Bool) (bytes : Bytes) (s : StreamState)
    → (send_locked shutting bytes s).0.stream.status_emitted ≡ s.status_emitted
unfolding send_locked s_pump_writes_locked
send_locked-alive shutting bytes s = ground arith

writes_done_locked-alive :
    (shutting : Bool) (s : StreamState)
    → (writes_done_locked shutting s).0.stream.status_emitted ≡ s.status_emitted
unfolding writes_done_locked s_pump_writes_locked
writes_done_locked-alive shutting s = ground arith

pub send-IsValid :
    (want : ℕ) (bytes : Bytes) (c : Client)
    → IsValid c
    → IsValid (on_stream want (send_locked c.shutting bytes) c).0
send-IsValid want bytes c v = on_stream-IsValid want _ c v λ s found.
    let h = v.streams want s found in
    (
      subst
          (λ i. Holds (held c.cq want) (smsgs_of want c.ready) i (send_locked c.shutting bytes s).0)
          h.named (send_locked-Holds c.shutting s h.sound h.bounded h.tags bytes h.backlog),
      send_locked-alive c.shutting bytes s ∙ h.alive,
    )

pub writes_done-IsValid :
    (want : ℕ) (c : Client)
    → IsValid c
    → IsValid (on_stream want (writes_done_locked c.shutting) c).0
writes_done-IsValid want c v = on_stream-IsValid want _ c v λ s found.
    let h = v.streams want s found in
    (
      subst
          (λ i.
            Holds (held c.cq want) (smsgs_of want c.ready) i (writes_done_locked c.shutting s).0)
          h.named (writes_done_locked-Holds c.shutting s h.sound h.bounded h.tags h.backlog),
      writes_done_locked-alive c.shutting s ∙ h.alive,
    )
