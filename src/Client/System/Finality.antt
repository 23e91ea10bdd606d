-- ===== src/Client/System/Finality.antt =====
-- src/client.cpp: a stream that is gone stays gone.
use rgrpc.Convert.{Bytes}
use rgrpc.Prelude.{
  ℕ, suc, ◌≤◌, ◌<◌, ℤ, pos, Bool, false, not, ◌≡◌, refl, sym, ap, ◌∙◌, ◌⊎◌, subst, inl, inr, List,
  [], ◌∷◌, none, some, arith, ltb_ℤ, find, find-insert, find-map_values, Bool-cases, Option-cases,
  some-injective, if_rule, is_empty, push_back,
}
use rgrpc.Client.Types.{TagKind, EvKind, ClEvent, StreamState, Client, Filled, is_smsg}
use rgrpc.Client.Stream.{status_event, send_locked, writes_done_locked, take_unread}
use rgrpc.Client.Completion.{outstanding, complete}
use rgrpc.Client.Api.{
  start_call_locked, start_stream_locked, cancel_locked, on_stream, cancel_stream,
}
use rgrpc.Client.Poll.{deliver, take_events, take_batch}
use rgrpc.Client.Lifecycle.{begin_shutdown}
use rgrpc.Client.Invariant.{held, IsValid}
use rgrpc.Client.Invariant.Completions.{old_id}
use rgrpc.Client.Invariant.Polling.{deliver_other, deliver_stream, take_unread-posts_no_event}
use rgrpc.Wake.{wake_drain}
use rgrpc.Client.Adding.{complete-Adds}
use rgrpc.Client.System.Ending.{finish_frees}
use rgrpc.Client.System.{
  completes, starts_call, starts_stream, sends, half_closes, cancels, waits, polls, shuts, Reach,
  Step, later, Reach-IsValid,
}
use rgrpc.Client.System.Gone.{
  events_of, IsGone, Leaves, stored, completed, asked, send-quiet, writes_done-quiet,
}

module _ (i : ℕ) where
  delivered : (ev : ClEvent) (c : Client) → IsGone i c → IsGone i (deliver ev c)
  delivered ev c g = elim (Bool-cases (is_smsg ev.kind)) [
    | inr other ↦ rw (deliver_other ev c (inl other)) g
    | inl message ↦ elim (Option-cases (find ev.id c.streams)) [
      | inl gone ↦ rw (deliver_other ev c (inr gone)) g
      | inr (s, found) ↦
          let b =
            stored i ev.id (take_unread c.shutting s) c g
              (λ same. ground (arith, g.stream, found, same))
              (ap (events_of i) (take_unread-posts_no_event c.shutting s).0) in
          rw (deliver_stream ev c s message found) (record { stream = b.stream; drawn = b.drawn })
    ]
  ]

  events_taken :
      (p : ClEvent → Bool) (maxn : ℤ) (n : ℕ) (evs : List ClEvent) (c : Client)
      → IsGone i c
      → let r = take_events p maxn n evs c in
        IsGone i r.client × (events_of i r.left ≤ events_of i evs)
  unfolding take_events
  events_taken p maxn n [] c g = (g, omega arith)
  events_taken p maxn n (ev ∷ evs) c g = elim (Bool-cases (ltb_ℤ (pos n) maxn)) [
    | inr full ↦ rw (full, take_events) (g, omega arith)
    | inl room ↦ elim (Bool-cases (p ev)) [
      | inl match ↦
          let (kept, fewer) = events_taken p maxn (suc n) evs (deliver ev c) (delivered ev c g) in
          rw (room, match, take_events) (kept, omega (arith, fewer))
      | inr other ↦
          let (kept, fewer) = events_taken p maxn n evs c g in
          rw (room, other, take_events) (kept, omega (arith, fewer))
    ]
  ]

  polled :
      (p : ClEvent → Bool) (maxn : ℤ) (c : Client) → IsGone i c → Leaves i c (take_batch p maxn c).1
  unfolding take_batch
  polled p maxn c g =
      let r = take_events p maxn 0 c.ready (record c { wake = wake_drain c.wake }) in
      let (kept, fewer) =
        events_taken p maxn 0 c.ready (record c { wake = wake_drain c.wake })
          (record { stream = g.stream; drawn = g.drawn }) in
      if_rule (Leaves i c) (not (is_empty r.left))
        (λ _. record { stream = kept.stream; drawn = kept.drawn; events = fewer })
        (λ _. record { stream = kept.stream; drawn = kept.drawn; events = fewer })

  Step-Leaves : {c d : Client} → IsValid c → IsGone i c → Step c d → Leaves i c d
  unfolding start_call_locked start_stream_locked cancel_locked begin_shutdown
  Step-Leaves {c} v g (completes e d out done) = completed i e c d v g done
  Step-Leaves {c} v g (starts_call ctx up room) = record {
    stream = g.stream;
    drawn = ground (arith, g.drawn, room);
    events = omega arith;
  }
  Step-Leaves {c} v g (starts_stream ctx read_cap write_cap up room) = record {
    stream = find-insert i c.next_id _ c.streams ∙ ground (arith, g.stream, g.drawn);
    drawn = ground (arith, g.drawn, room);
    events = omega arith;
  }
  Step-Leaves {c} v g (sends id bytes up) =
      asked i id (send_locked c.shutting bytes) c g (send-quiet c.shutting bytes)
  Step-Leaves {c} v g (half_closes id up) =
      asked i id (writes_done_locked c.shutting) c g (writes_done-quiet c.shutting)
  Step-Leaves {c} v g (cancels id up) = record {
    stream = cancelled (Option-cases (find id c.streams));
    drawn = g.drawn;
    events = omega arith;
  }
    where
      cancelled :
          (find id c.streams ≡ none) ⊎ ((s : StreamState) × (find id c.streams ≡ some s))
          → find i (cancel_locked id c).streams ≡ none
      cancelled (inl gone) = rw (gone, cancel_locked) g.stream
      cancelled (inr (s, found)) =
          rw (found, cancel_locked)
            (find-insert i id (cancel_stream s) c.streams ∙ ground (arith, g.stream, found))
  Step-Leaves {c} v g (waits up) = record {
    stream = g.stream;
    drawn = g.drawn;
    events = omega arith;
  }
  Step-Leaves {c} v g (polls p maxn up) = polled p maxn c g
  Step-Leaves {c} v g (shuts up) = record {
    stream = find-map_values i cancel_stream c.streams ∙ ground (arith, g.stream);
    drawn = g.drawn;
    events = omega arith;
  }

-- Any number of steps.
pub data Steps (c : Client) : Client → Type 0 where
  start : Steps c c
  next : {d e : Client} → Steps c d → Step d e → Steps c e

Reach-Steps : {c d : Client} → Reach c → Steps c d → Reach d
Reach-Steps r Steps.start = r
Reach-Steps r (Steps.next more st) = later (Reach-Steps r more) st

gone_stays :
    (i : ℕ) {c d : Client}
    → Reach c
    → IsGone i c
    → Steps c d
    → IsGone i d × (events_of i d.ready ≤ events_of i c.ready)
gone_stays i r g Steps.start = (g, omega arith)
gone_stays i r g (Steps.next more st) =
    let (kept, fewer) = gone_stays i r g more in
    let b = Step-Leaves i (Reach-IsValid (Reach-Steps r more)) kept st in
    (record { stream = b.stream; drawn = b.drawn }, omega (arith, fewer, b.events))

-- The status of a stream is its last event, and its end. When the Finish of a stream comes back in a client
-- that can be reached, its status is put behind the events that are queued; and whatever happens
-- afterwards, no more events of the stream are queued than were then, no operation on it is
-- outstanding, and a send or a half-close on it changes nothing and answers FALSE.
pub status_is_last :
    {c d e : Client} (r : Reach c) (i : ℕ) (s : StreamState) (ok : Bool) (f : Filled)
    → find i c.streams ≡ some s
    → 0 < outstanding i TagKind.finish c.cq
    → complete (record { tag = record { obj = i; kind = TagKind.finish }; ok = ok; filled = f }) c
      ≡ some d
    → Steps d e
    → (d.ready ≡ push_back c.ready (status_event EvKind.status i f))
      × (events_of i e.ready ≤ events_of i d.ready)
      × ((k : TagKind) → held e.cq i k ≡ 0)
      × ((bytes : Bytes) → on_stream i (send_locked e.shutting bytes) e ≡ (e, false))
      × (on_stream i (writes_done_locked e.shutting) e ≡ (e, false))
unfolding on_stream
status_is_last {c} {d} {e} r i s ok f found out done more =
    let (d1, done1, queued, gone, _) = finish_frees r i s ok f found out in
    let same : d1 ≡ d = some-injective _ _ (sym done1 ∙ done) in
    let r1 = later r (completes _ d out done) in
    let g : IsGone i d = record {
      stream = subst (λ (x : Client). find i x.streams ≡ none) same gone;
      drawn =
          ground (arith, old_id c i s (Reach-IsValid r) found, (complete-Adds _ c d done).next_id);
    } in
    let (kept, fewer) = gone_stays i r1 g more in
    (
      subst (λ (x : Client). x.ready ≡ push_back c.ready (status_event EvKind.status i f)) same
          queued,
      fewer,
      (Reach-IsValid (Reach-Steps r1 more)).no_stream i kept.stream,
      λ bytes. rw (kept.stream, on_stream) refl,
      rw (kept.stream, on_stream) refl,
    )
