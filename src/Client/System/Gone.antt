-- ===== src/Client/System/Gone.antt =====
-- src/client.cpp: what the completion thread and R's calls leave of a stream that is gone.
use rgrpc.Convert.{Bytes}
use rgrpc.Prelude.{
  ℕ, ◌≤◌, ◌<◌, Bool, true, false, ◌&&◌, ◌≡◌, ◌≢◌, refl, ap, ◌∙◌, subst, inl, inr, List, [], ◌∷◌,
  none, some, arith, count, count-append, find, find-insert, find-erase, Option-cases,
  some-injective, if_rule, is_zero, ◌==◌,
}
use rgrpc.Client.Types.{
  TagKind, EvKind, ClEvent, CallState, StreamState, Client, Filled, Completion,
}
use rgrpc.Client.Stream.{Locked, on_tag, send_locked, writes_done_locked, s_pump_writes_locked}
use rgrpc.Client.Stream.Owning.{on_tag-IsOwned}
use rgrpc.Client.Stream.Tracking.{IsOwned}
use rgrpc.Client.Completion.{
  complete, complete_call, complete_stream, unary_event, dispatch, store_stream,
  s_maybe_free_locked, take_tag,
}
use rgrpc.Client.Api.{on_stream}
use rgrpc.Client.Frame.{store_stream_lem}
use rgrpc.Client.Invariant.{IsValid}

-- Whether an event is of a stream, and not of a unary call.
abbrev pub is_of_stream : EvKind → Bool
is_of_stream EvKind.unary = false
is_of_stream _ = true

-- The events of one stream in `ready`.
abbrev pub events_of : ℕ → List ClEvent → ℕ
events_of i evs = count (λ ev. is_of_stream ev.kind && ev.id == i) evs

-- An id that was drawn, and of which there is no stream.
pub record IsGone (i : ℕ) (c : Client) : Type 0 where
  pub stream : find i c.streams ≡ none
  pub drawn : i < c.next_id

-- What a step leaves of it.
pub record Leaves (i : ℕ) (c d : Client) : Type 0 where
  pub stream : find i d.streams ≡ none
  pub drawn : i < d.next_id
  pub events : events_of i d.ready ≤ events_of i c.ready

events_of_ne : (i j : ℕ) (evs : List ClEvent) → i ≢ j → IsOwned j evs → events_of i evs ≡ 0
events_of_ne i j [] n h = refl
events_of_ne i j (ev ∷ evs) n h = ground (arith, events_of_ne i j evs n h.1)

module _ (i : ℕ) where
  pub unchanged : (c : Client) → IsGone i c → Leaves i c c
  unchanged c g = record { stream = g.stream; drawn = g.drawn; events = omega arith }

  -- A critical section on another stream.
  pub stored :
      (x : ℕ) (w : Locked) (c : Client)
      → IsGone i c
      → i ≢ x
      → events_of i w.events ≡ 0
      → Leaves i c (store_stream x w c)
  stored x w c g other quiet = rw (store_stream_lem x w c) (record {
    stream = find-insert i x w.stream c.streams ∙ ground (arith, other, g.stream);
    drawn = g.drawn;
    events =
        omega
          (arith, count-append (λ ev. is_of_stream ev.kind && ev.id == i) c.ready w.events, quiet);
  })

  stream_completed :
      (k : TagKind) (ok : Bool) (f : Filled) (s : StreamState) (c : Client)
      → IsGone i c
      → i ≢ s.id
      → Leaves i c (complete_stream k ok f s c)
  unfolding complete_stream s_maybe_free_locked
  stream_completed k ok f s c g other =
      let w = on_tag c.shutting k ok f s in
      let b =
        stored s.id w c g other
          (events_of_ne i s.id w.events other (on_tag-IsOwned k c.shutting ok f s)) in
      if_rule (Leaves i c) (is_zero w.stream.pending && w.stream.status_emitted)
        (λ _. record {
          stream =
              find-erase i w.stream.id (store_stream s.id w c).streams ∙ ground (arith, b.stream);
          drawn = b.drawn;
          events = b.events;
        })
        (λ _. b)

  call_completed :
      (cs : CallState) (f : Filled) (c : Client) → IsGone i c → Leaves i c (complete_call cs f c)
  unfolding complete_call
  call_completed cs f c g = record {
    stream = g.stream;
    drawn = g.drawn;
    events = omega (
      arith,
      count-append (λ ev. is_of_stream ev.kind && ev.id == i) c.ready (unary_event cs f ∷ []),
      quiet,
    );
  }
    where
      quiet : events_of i (unary_event cs f ∷ []) ≡ 0
      quiet = ground arith

  dispatched :
      (k : TagKind) (x : ℕ) (ok : Bool) (f : Filled) (c d : Client)
      → IsGone i c
      → ((s : StreamState) → find x c.streams ≡ some s → s.id ≡ x)
      → dispatch k x ok f c ≡ some d
      → Leaves i c d
  unfolding dispatch
  dispatched TagKind.unary x ok f c d g stream_named e = elim (Option-cases (find x c.calls)) [
    | inl gone ↦ let e1 = rw (gone, dispatch) at e in cc
    | inr (cs, found) ↦
        subst (Leaves i c) (some-injective _ _ (rw (found, dispatch) at e))
          (call_completed cs f c g)
  ]
  dispatched k x ok f c d g stream_named e = elim (Option-cases (find x c.streams)) [
    | inl gone ↦ let e1 = rw (gone, dispatch) at e in cc
    | inr (s, found) ↦ subst (Leaves i c) (some-injective _ _ (rw (found, dispatch) at e)) (
        stream_completed k ok f s c g
          (λ same. ground (arith, g.stream, found, stream_named s found, same)))
  ]

  pub completed :
      (e : Completion) (c d : Client)
      → IsValid c
      → IsGone i c
      → complete e c ≡ some d
      → Leaves i c d
  unfolding complete
  completed e c d v g done =
      let taken : Client = record c { cq = take_tag e.tag.obj e.tag.kind c.cq } in
      let b =
        dispatched e.tag.kind e.tag.obj e.ok e.filled taken d
          (record { stream = g.stream; drawn = g.drawn })
          (λ s found. (v.streams e.tag.obj s found).named) done in
      record { stream = b.stream; drawn = b.drawn; events = b.events }

  pub asked :
      (x : ℕ) (f : StreamState → Locked × Bool) (c : Client)
      → IsGone i c
      → ((s : StreamState) → (f s).0.events ≡ [])
      → Leaves i c (on_stream x f c).0
  unfolding on_stream
  asked x f c g quiet = elim (Option-cases (find x c.streams)) [
    | inl gone ↦ rw (gone, on_stream) (unchanged c g)
    | inr (s, found) ↦
        rw (found, on_stream)
          (stored x (f s).0 c g (λ same. ground (arith, g.stream, found, same))
            (ap (events_of i) (quiet s)))
  ]

pub send-quiet :
    (shutting : Bool) (bytes : Bytes) (s : StreamState)
    → (send_locked shutting bytes s).0.events ≡ []
unfolding send_locked s_pump_writes_locked
send-quiet shutting bytes s = ground arith

pub writes_done-quiet :
    (shutting : Bool) (s : StreamState) → (writes_done_locked shutting s).0.events ≡ []
unfolding writes_done_locked s_pump_writes_locked
writes_done-quiet shutting s = ground arith
