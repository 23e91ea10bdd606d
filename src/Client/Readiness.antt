-- ===== src/Client/Readiness.antt =====
-- src/client.cpp: when the descriptor of the wake handle is readable.
use rgrpc.Prelude.{
  if_rule, ℕ, suc, ◌<◌, ℤ, Bool, not, ◌&&◌, ◌||◌, ◌≡◌, refl, ap, ◌∙◌, subst, inl, inr, List, [],
  ◌∷◌, ◌++◌, arith, Bool-cases, is_empty, is_zero, some, find, Option-cases, some-injective,
  is_empty-push_back,
}
use rgrpc.Wake.{WakeHandle, wake_drain, wake_signal, is_readable}
use rgrpc.Wake.Protocol.{wake_drain_lem, wake_signal_lem}
use rgrpc.Client.Types.{TagKind, is_smsg, ClEvent, Client, Completion, StreamState, Filled}
use rgrpc.Client.Stream.{Locked, take_unread, on_tag}
use rgrpc.Client.Completion.{
  take_tag, push_event, store_stream, s_maybe_free_locked, complete, complete_stream, complete_call,
  dispatch,
}
use rgrpc.Client.Poll.{deliver, take_events, take_batch}
use rgrpc.Client.Frame.{signals, store_stream_lem}
use rgrpc.Client.Invariant.Polling.{deliver_other, deliver_stream, take_unread-posts_no_event}

-- The pipe can hold a byte, and the descriptor is readable exactly while events are queued.
pub record IsArmed (c : Client) : Type 0 where
  pub room : 0 < c.wake.capacity
  pub exact : is_readable c.wake ≡ not (is_empty c.ready)

signals_lem :
    (evs : List ClEvent) (h : WakeHandle)
    → 0 < h.capacity
    → (is_readable (signals evs h) ≡ (not (is_empty evs) || is_readable h))
      × ((signals evs h).capacity ≡ h.capacity)
unfolding signals
signals_lem [] h room = (refl, refl)
signals_lem (ev ∷ evs) h room =
    ground (arith, wake_signal_lem h room, signals_lem evs (wake_signal h))

signals-nil : (h : WakeHandle) → signals [] h ≡ h
unfolding signals
signals-nil h = refl

is_empty-append :
    (evs fvs : List ClEvent)
    → not (is_empty (evs ++ fvs)) ≡ (not (is_empty fvs) || not (is_empty evs))
is_empty-append [] fvs = ground arith
is_empty-append (ev ∷ evs) fvs = ground arith

store_stream-IsArmed : (i : ℕ) (w : Locked) (c : Client) → IsArmed c → IsArmed (store_stream i w c)
store_stream-IsArmed i w c a = rw (store_stream_lem i w c) (record {
  room = ground (arith, signals_lem w.events c.wake a.room);
  exact =
      ground (arith, signals_lem w.events c.wake a.room, is_empty-append c.ready w.events, a.exact);
})

push_event-IsArmed : (ev : ClEvent) (c : Client) → IsArmed c → IsArmed (push_event ev c)
push_event-IsArmed ev c a =
    ground (arith, wake_signal_lem c.wake a.room, is_empty-push_back c.ready ev)

complete_stream-IsArmed :
    (k : TagKind) (ok : Bool) (f : Filled) (s : StreamState) (c : Client)
    → IsArmed c
    → IsArmed (complete_stream k ok f s c)
unfolding complete_stream s_maybe_free_locked
complete_stream-IsArmed k ok f s c a =
    let w = on_tag c.shutting k ok f s in
    let b = store_stream-IsArmed s.id w c a in
    if_rule IsArmed (is_zero w.stream.pending && w.stream.status_emitted)
      (λ _. record { room = b.room; exact = b.exact }) (λ _. b)

dispatch-IsArmed :
    (k : TagKind) (i : ℕ) (ok : Bool) (f : Filled) (c d : Client)
    → IsArmed c
    → dispatch k i ok f c ≡ some d
    → IsArmed d
unfolding dispatch complete_call
dispatch-IsArmed TagKind.unary i ok f c d a e = elim (Option-cases (find i c.calls)) [
  | inl gone ↦ let e1 = rw (gone, dispatch) at e in cc
  | inr (cs, found) ↦
      subst IsArmed (some-injective _ _ (rw (found, dispatch) at e))
        (push_event-IsArmed _ (record c { calls = _ }) (record { room = a.room; exact = a.exact }))
]
dispatch-IsArmed k i ok f c d a e = elim (Option-cases (find i c.streams)) [
  | inl gone ↦ let e1 = rw (gone, dispatch) at e in cc
  | inr (s, found) ↦
      subst IsArmed (some-injective _ _ (rw (found, dispatch) at e))
        (complete_stream-IsArmed k ok f s c a)
]

-- A round of the completion thread leaves the descriptor readable exactly while events are queued, if
-- it was so before and the pipe can hold a byte.
pub complete-IsArmed :
    (e : Completion) (c d : Client) → IsArmed c → complete e c ≡ some d → IsArmed d
unfolding complete
complete-IsArmed e c d a done =
    dispatch-IsArmed e.tag.kind e.tag.obj e.ok e.filled
      (record c { cq = take_tag e.tag.obj e.tag.kind c.cq }) d
      (record { room = a.room; exact = a.exact }) done

deliver-wake : (ev : ClEvent) (c : Client) → (deliver ev c).wake ≡ c.wake
deliver-wake ev c = elim (Bool-cases (is_smsg ev.kind)) [
  | inr other ↦ ap (λ (d : Client). d.wake) (deliver_other ev c (inl other))
  | inl message ↦ elim (Option-cases (find ev.id c.streams)) [
    | inl gone ↦ ap (λ (d : Client). d.wake) (deliver_other ev c (inr gone))
    | inr (s, found) ↦
        ap (λ (d : Client). d.wake)
          (deliver_stream ev c s message found
            ∙ store_stream_lem ev.id (take_unread c.shutting s) c)
        ∙ ap (λ evs. signals evs c.wake) (take_unread-posts_no_event c.shutting s).0
        ∙ signals-nil c.wake
  ]
]

take_events-wake :
    (p : ClEvent → Bool) (maxn : ℤ) (n : ℕ) (evs : List ClEvent) (c : Client)
    → (take_events p maxn n evs c).client.wake ≡ c.wake
unfolding take_events
take_events-wake p maxn n [] c = refl
take_events-wake p maxn n (ev ∷ evs) c = ground (
  arith,
  take_events-wake p maxn (suc n) evs (deliver ev c),
  take_events-wake p maxn n evs c,
  deliver-wake ev c,
)

-- Whatever it found, the poll leaves the descriptor readable exactly while events are queued, if the
-- pipe can hold a byte.
pub take_batch-IsArmed :
    (p : ClEvent → Bool) (maxn : ℤ) (c : Client)
    → 0 < c.wake.capacity
    → IsArmed (take_batch p maxn c).1
unfolding take_batch
take_batch-IsArmed p maxn c room =
    let drained = record c { wake = wake_drain c.wake } in
    let r = take_events p maxn 0 c.ready drained in
    let same = take_events-wake p maxn 0 c.ready drained in
    let off = wake_drain_lem c.wake in
    if_rule IsArmed (not (is_empty r.left))
      (λ left. record {
        room = ground (arith, same, off, wake_signal_lem r.client.wake);
        exact = ground (arith, left, same, off, wake_signal_lem r.client.wake);
      })
      (λ none_left. record {
        room = ground (arith, same, off);
        exact = ground (arith, none_left, same, off);
      })
