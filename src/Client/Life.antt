-- ===== src/Client/Life.antt =====
-- src/client.cpp: the life of one stream, from `grpc_r_stream_start` on, by the critical sections that
-- touch it, with the messages that `grpc_r_stream_send` has accepted.
use rgrpc.Convert.{Bytes}
use rgrpc.Prelude.{
  ℕ, ◌≡◌, ◌<◌, ◌⊎◌, inl, inr, ℤ, pos, pos_part, ◌+◌, ◌-◌, bit, inc, refl, Bool, true, false, List,
  [], ◌++◌, arith, if◌then◌else◌, push_back,
}
use rgrpc.Client.Types.{TagKind, kind_eq, RwOp, StreamState, Filled, ClientContext}
use rgrpc.Client.Stream.{Locked, on_tag, send_locked, writes_done_locked, take_unread}
use rgrpc.Client.Stream.Discipline.{flagged, IsSound}
use rgrpc.Client.Stream.Tracking.{IsBounded}
use rgrpc.Client.Stream.Handlers.{Holds, on_tag-Holds}
use rgrpc.Client.Stream.Requests.{send_locked-Holds, writes_done_locked-Holds, take_unread-Holds}
use rgrpc.Client.Stream.Order.{
  InOrder, written, unsent, on_tag-InOrder, writes_done_locked-InOrder, take_unread-InOrder,
  send_locked-InOrder,
}
use rgrpc.Client.Invariant.Cancelling.{cancel_stream-IsSound, cancel_stream-IsBounded}
use rgrpc.Client.Api.{new_stream, cancel_stream}

-- A stream as `grpc_r_stream_start` leaves it.
abbrev pub opened : ℕ → ClientContext → ℤ → ℤ → StreamState
opened id ctx read_cap write_cap =
    let s = new_stream id ctx read_cap write_cap in
    record s { pending = inc s.pending; rw = push_back s.rw RwOp.start_call }

pub data Life : List Bytes → StreamState → Type 0 where
  opens :
      (id : ℕ) (ctx : ClientContext) (read_cap write_cap : ℤ)
      → Life [] (opened id ctx read_cap write_cap)
  completes :
      {accepted : List Bytes} {s : StreamState} (shutting : Bool) (kind : TagKind) (ok : Bool)
      (filled : Filled)
      → Life accepted s
      → 0 < flagged s kind
      → Life accepted (on_tag shutting kind ok filled s).stream
  sends :
      {accepted : List Bytes} {s : StreamState} (shutting : Bool) (bytes : Bytes)
      → Life accepted s
      → Life
          (if (send_locked shutting bytes s).1 then push_back accepted bytes else accepted)
          (send_locked shutting bytes s).0.stream
  half_closes :
      {accepted : List Bytes} {s : StreamState} (shutting : Bool)
      → Life accepted s
      → Life accepted (writes_done_locked shutting s).0.stream
  delivers :
      {accepted : List Bytes} {s : StreamState} (shutting : Bool)
      → 0 < pos_part s.unread
      → Life accepted s
      → Life accepted (take_unread shutting s).stream
  cancels :
      {accepted : List Bytes} {s : StreamState} → Life accepted s → Life accepted (cancel_stream s)

-- What the single stream keeps; the client's invariant says how the rest of the client agrees.
record Kept (s : StreamState) : Type 0 where
  sound : IsSound s
  bounded : IsBounded s
  counted : s.unread ≡ pos (pos_part s.unread)

base_of : StreamState → TagKind → TagKind → ℕ
base_of s kind k = flagged s k - bit (kind_eq kind k)

base_of-Back :
    (s : StreamState) (kind : TagKind)
    → 0 < flagged s kind
    → (k : TagKind) → base_of s kind k + bit (kind_eq kind k) ≡ flagged s k
unfolding base_of
base_of-Back s TagKind.unary out k = elim out [ ]
base_of-Back s kind out TagKind.unary = ground arith
base_of-Back s kind out k = ground arith

Holds-Kept : {base : TagKind → ℕ} {n id : ℕ} (w : Locked) → Holds base n id w → Kept w.stream
Holds-Kept w h = record {
  sound = h.sound;
  bounded = h.bounded;
  counted = ground (arith, h.tracked.backlog);
}

Life-Kept : {accepted : List Bytes} {s : StreamState} → Life accepted s → Kept s
Life-Kept (opens id ctx read_cap write_cap) = record {
  sound = ground arith;
  bounded = ground arith;
  counted = refl;
}
Life-Kept (completes {s = s} shutting kind ok filled l out) =
    let k = Life-Kept l in
    Holds-Kept (on_tag shutting kind ok filled s) (
      on_tag-Holds (base_of s kind) (pos_part s.unread) shutting ok filled s k.sound k.bounded
        k.counted kind (base_of-Back s kind out))
Life-Kept (sends {s = s} shutting bytes l) =
    let k = Life-Kept l in
    Holds-Kept (send_locked shutting bytes s).0 (
      send_locked-Holds {base = flagged s} shutting s k.sound k.bounded (λ _. refl) bytes k.counted)
Life-Kept (half_closes {s = s} shutting l) =
    let k = Life-Kept l in
    Holds-Kept (writes_done_locked shutting s).0 (
      writes_done_locked-Holds {base = flagged s} shutting s k.sound k.bounded (λ _. refl)
        k.counted)
Life-Kept (delivers {s = s} shutting some_unread l) =
    let k = Life-Kept l in
    Holds-Kept (take_unread shutting s) (
      take_unread-Holds {base = flagged s} {n = pos_part s.unread - 1} shutting s k.sound k.bounded
        (λ _. refl) (ground (arith, k.counted)))
Life-Kept (cancels {s = s} l) =
    let k = Life-Kept l in
    record {
      sound = cancel_stream-IsSound s k.sound;
      bounded = cancel_stream-IsBounded s k.bounded;
      counted = k.counted;
    }

in_order : {accepted : List Bytes} {s : StreamState} → Life accepted s → InOrder accepted s
in_order (opens id ctx read_cap write_cap) = ([], refl, λ _. refl)
in_order (completes {s = s} shutting kind ok filled l out) =
    on_tag-InOrder shutting ok filled s (in_order l) kind out
in_order (sends {s = s} shutting bytes l) =
    send_locked-InOrder shutting s (in_order l) bytes (Life-Kept l).sound.nonempty
in_order (half_closes {s = s} shutting l) = writes_done_locked-InOrder shutting s (in_order l)
in_order (delivers {s = s} shutting _ l) = take_unread-InOrder shutting s (in_order l)
in_order (cancels l) = in_order l

-- Over the whole life of a stream the messages handed to `Write` are the first of those that a send
-- has accepted, each once and in that order; and unless the stream is broken, the accepted ones that
-- are not written are those in the queue that are not in flight, in order.
pub sent_in_order :
    {accepted : List Bytes} {s : StreamState}
    → Life accepted s
    → (rest : List Bytes) × (accepted ≡ written s.rw ++ rest)
      × ((s.broken ≡ true) ⊎ (rest ≡ unsent s))
sent_in_order {s = s} l = let (rest, e, same) = in_order l in (rest, e, broken_or s.broken same)
  where
    broken_or : {A : Type 0} (b : Bool) → (b ≡ false → A) → (b ≡ true) ⊎ A
    broken_or true h = inl refl
    broken_or false h = inr (h refl)
