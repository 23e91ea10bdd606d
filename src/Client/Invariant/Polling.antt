-- ===== src/Client/Invariant/Polling.antt =====
-- src/client.cpp: the poll takes events from `ready` and keeps `unread` in step with it.
use rgrpc.Prelude.{
  ℕ, suc, ◌+◌, ℤ, pos, ltb_ℤ, ◌≡◌, refl, sym, ap, ◌∙◌, ◌⊎◌, inl, inr, Bool, true, false, not, ◌&&◌,
  List, [], ◌∷◌, ◌++◌, arith, ◌==◌, if◌then◌else◌, none, some, find, insert, subst, Option-cases,
  Bool-cases, append-nil, append_assoc, is_empty,
}
use rgrpc.Wake.{WakeHandle, wake_signal, wake_drain}
use rgrpc.Client.Types.{is_smsg, ClEvent, StreamState, Client}
use rgrpc.Client.Stream.{Locked, take_unread, s_post_read_locked}
use rgrpc.Client.Stream.Handlers.{Holds}
use rgrpc.Client.Stream.Requests.{take_unread-Holds}
use rgrpc.Client.Completion.{store_stream, post_tags}
use rgrpc.Client.Poll.{deliver, take_events, take_batch}
use rgrpc.Client.Frame.{smsgs_of, smsgs_of-append, store_stream_lem, signals}
use rgrpc.Client.Invariant.{held, IsStream-same, IsValid, IsValidBut, store_stream-IsValid}
use rgrpc.Client.Invariant.Completions.{old_id}

pub take_unread-posts_no_event :
    (shutting : Bool) (s : StreamState)
    → ((take_unread shutting s).events ≡ [])
      × ((take_unread shutting s).stream.status_emitted ≡ s.status_emitted)
unfolding take_unread s_post_read_locked
take_unread-posts_no_event shutting s = ground arith

-- The handle plays no part in the invariant.
pub wake-IsValid : (h : WakeHandle) (c : Client) → IsValid c → IsValid (record c { wake = h })
wake-IsValid h c v = record {
  streams = v.streams;
  no_stream = v.no_stream;
  calls = v.calls;
  no_call = v.no_call;
  fresh = v.fresh;
}

-- `ready` as the loop sees it: what it has stepped over, and what is to come.
abbrev with_ready : List ClEvent → Client → Client
with_ready evs c = record c { ready = evs }

pub deliver_other :
    (ev : ClEvent) (c : Client)
    → (is_smsg ev.kind ≡ false) ⊎ (find ev.id c.streams ≡ none)
    → deliver ev c ≡ c
unfolding deliver
deliver_other ev c h = ground arith

pub deliver_stream :
    (ev : ClEvent) (c : Client) (s : StreamState)
    → is_smsg ev.kind ≡ true
    → find ev.id c.streams ≡ some s
    → deliver ev c ≡ store_stream ev.id (take_unread c.shutting s) c
unfolding deliver
deliver_stream ev c s m e = ground arith

store_stream_quiet :
    (i : ℕ) (w : Locked) (evs : List ClEvent) (c : Client)
    → w.events ≡ []
    → with_ready evs (store_stream i w c) ≡ store_stream i w (with_ready evs c)
store_stream_quiet i w evs c e =
    rw (store_stream_lem i w c, store_stream_lem i w (with_ready evs c), e)
      (ap
        (λ (r : List ClEvent). record c {
          cq = post_tags i w.posted c.cq;
          wake = signals [] c.wake;
          streams = insert i w.stream c.streams;
          ready = r;
        })
        (sym (append-nil evs)))

smsgs_of-middle :
    (i : ℕ) (ev : ClEvent) (kept evs : List ClEvent)
    → smsgs_of i (kept ++ ev ∷ evs)
      ≡ smsgs_of i (kept ++ evs) + (if is_smsg ev.kind && ev.id == i then 1 else 0)
smsgs_of-middle i ev kept evs =
    ground (arith, smsgs_of-append i kept (ev ∷ evs), smsgs_of-append i kept evs)

module _ (ev : ClEvent) (kept evs : List ClEvent) (c : Client)
    (v : IsValid (with_ready (kept ++ ev ∷ evs) c)) where
  -- The event leaves `ready`; only its own stream notices.
  left-IsValidBut : IsValidBut ev.id (with_ready (kept ++ evs) c)
  left-IsValidBut = record {
    streams = λ i s n e.
        IsStream-same i s (λ _. refl) (ground (arith, smsgs_of-middle i ev kept evs))
          (v.streams i s e);
    no_stream = λ i _. v.no_stream i;
    calls = v.calls;
    no_call = v.no_call;
    fresh = λ i new.
        let (gone, no_call, quiet) = v.fresh i new in
        (gone, no_call, omega (arith, smsgs_of-middle i ev kept evs));
  }

  no_stream-IsValid :
      (is_smsg ev.kind ≡ false) ⊎ (find ev.id c.streams ≡ none)
      → IsValid (with_ready (kept ++ evs) c)
  no_stream-IsValid h = record {
    streams = λ i s e.
        IsStream-same i s (λ _. refl) (ground (arith, smsgs_of-middle i ev kept evs, h))
          (v.streams i s e);
    no_stream = v.no_stream;
    calls = v.calls;
    no_call = v.no_call;
    fresh = λ i new.
        let (gone, no_call, quiet) = v.fresh i new in
        (gone, no_call, omega (arith, smsgs_of-middle i ev kept evs));
  }

  delivered-IsValid :
      (s : StreamState)
      → is_smsg ev.kind ≡ true
      → find ev.id c.streams ≡ some s
      → IsValid (store_stream ev.id (take_unread c.shutting s) (with_ready (kept ++ evs) c))
  delivered-IsValid s m e =
      let h = v.streams ev.id s e in
      store_stream-IsValid ev.id (take_unread c.shutting s) (with_ready (kept ++ evs) c)
        left-IsValidBut
        (subst
          (λ i. Holds (held c.cq ev.id) (smsgs_of ev.id (kept ++ evs)) i (take_unread c.shutting s))
          h.named
          (take_unread-Holds c.shutting s h.sound h.bounded h.tags
            (h.backlog ∙ ap pos (ground (arith, smsgs_of-middle ev.id ev kept evs)))))
        (old_id (with_ready (kept ++ ev ∷ evs) c) ev.id s v e)
        ((take_unread-posts_no_event c.shutting s).1 ∙ h.alive)

  deliver-IsValid : IsValid (with_ready (kept ++ evs) (deliver ev c))
  deliver-IsValid = elim (Bool-cases (is_smsg ev.kind)) [
    | inr other ↦
        subst (λ d. IsValid (with_ready (kept ++ evs) d)) (sym (deliver_other ev c (inl other)))
          (no_stream-IsValid (inl other))
    | inl message ↦ elim (Option-cases (find ev.id c.streams)) [
      | inl gone ↦
          subst (λ d. IsValid (with_ready (kept ++ evs) d)) (sym (deliver_other ev c (inr gone)))
            (no_stream-IsValid (inr gone))
      | inr (s, found) ↦
          subst (λ d. IsValid (with_ready (kept ++ evs) d))
            (sym (deliver_stream ev c s message found))
            (subst IsValid
              (sym (
                store_stream_quiet ev.id (take_unread c.shutting s) (kept ++ evs) c
                  (take_unread-posts_no_event c.shutting s).0))
              (delivered-IsValid s message found))
    ]
  ]

take_events-IsValid :
    (p : ClEvent → Bool) (maxn : ℤ) (n : ℕ) (kept evs : List ClEvent) (c : Client)
    → IsValid (with_ready (kept ++ evs) c)
    → let r = take_events p maxn n evs c in IsValid (with_ready (kept ++ r.left) r.client)
unfolding take_events
take_events-IsValid p maxn n kept [] c v = v
take_events-IsValid p maxn n kept (ev ∷ evs) c v = elim (Bool-cases (ltb_ℤ (pos n) maxn)) [
  | inr full ↦ rw (full, take_events) v
  | inl room ↦ elim (Bool-cases (p ev)) [
    | inl match ↦
        rw (room, match, take_events)
          (take_events-IsValid p maxn (suc n) kept evs (deliver ev c)
            (deliver-IsValid ev kept evs c v))
    | inr other ↦
        rw (room, other, take_events)
          (subst (λ l. IsValid (with_ready l (take_events p maxn n evs c).client))
            (append_assoc kept (ev ∷ []) (take_events p maxn n evs c).left)
            (take_events-IsValid p maxn n (kept ++ ev ∷ []) evs c
              (subst (λ l. IsValid (with_ready l c)) (sym (append_assoc kept (ev ∷ []) evs)) v)))
  ]
]

-- The batch leaves `ready`, and every stream whose messages are in it has its backlog lowered.
pub take_batch-IsValid :
    (p : ClEvent → Bool) (maxn : ℤ) (c : Client) → IsValid c → IsValid (take_batch p maxn c).1
unfolding take_batch
take_batch-IsValid p maxn c v =
    let r = take_events p maxn 0 c.ready (record c { wake = wake_drain c.wake }) in
    rearmed (not (is_empty r.left)) (record r.client { ready = r.left })
      (take_events-IsValid p maxn 0 [] c.ready (record c { wake = wake_drain c.wake })
        (wake-IsValid (wake_drain c.wake) c v))
  where
    rearmed :
        (b : Bool) (d : Client)
        → IsValid d
        → IsValid (if b then record d { wake = wake_signal d.wake } else d)
    rearmed true d h = wake-IsValid (wake_signal d.wake) d h
    rearmed false d h = h
