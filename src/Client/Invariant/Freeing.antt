-- ===== src/Client/Invariant/Freeing.antt =====
-- src/client.cpp: `s_maybe_free_locked` deletes a stream when nothing of it is outstanding.
use rgrpc.Prelude.{
  ℕ, ◌<◌, ◌≡◌, sym, ◌∙◌, inl, inr, Bool, true, false, ◌&&◌, ◌++◌, arith, none, some, find, insert,
  erase, find-erase, find-insert-some, find-erase-some, find-erase-none, subst, is_zero, Bool-cases,
}
use rgrpc.Client.Types.{TagKind, StreamState, Client}
use rgrpc.Client.Stream.{Locked}
use rgrpc.Client.Stream.Discipline.{flagged, IsSound}
use rgrpc.Client.Stream.Handlers.{Holds}
use rgrpc.Client.Completion.{post_tags, store_stream, s_maybe_free_locked}
use rgrpc.Client.Frame.{smsgs_of, store_stream_lem}
use rgrpc.Client.Invariant.{
  held, held-post_tags_self, IsStream, IsStream-ne, IsValidBut, IsValid, unary_same, stored_none,
  stored_fresh, store_stream-IsValid,
}

-- A stream whose status has been emitted has no tag outstanding.
nothing_flagged :
    (s : StreamState) → IsSound s → s.status_emitted ≡ true → (k : TagKind) → flagged s k ≡ 0
nothing_flagged s v e TagKind.unary = ground arith
nothing_flagged s v e k = ground arith

emitted-is_zero : (s : StreamState) → IsSound s → s.status_emitted ≡ true → is_zero s.pending ≡ true
emitted-is_zero s v e = ground arith

and_false : (b : Bool) → (b && false) ≡ false
and_false b = ground arith

module _ (i : ℕ) (w : Locked) (c : Client) (v : IsValidBut i c)
    (h : Holds (held c.cq i) (smsgs_of i c.ready) i w) (old : i < c.next_id) where
  module _ (over : w.stream.status_emitted ≡ true) where
    freed_streams :
        (j : ℕ) (s : StreamState)
        → find j (erase i (insert i w.stream c.streams)) ≡ some s
        → IsStream (post_tags i w.posted c.cq) (c.ready ++ w.events) j s
    freed_streams j s e =
        let (n, e1) = find-erase-some j i s (insert i w.stream c.streams) e in
        elim (find-insert-some j i w.stream s c.streams e1) [
          | inl (here, _) ↦ absurd (n here)
          | inr (_, found) ↦ IsStream-ne i j w c s n h.tracked.owned (v.streams j s n found)
        ]

    freed_none :
        (j : ℕ)
        → find j (erase i (insert i w.stream c.streams)) ≡ none
        → (k : TagKind) → held (post_tags i w.posted c.cq) j k ≡ 0
    freed_none j e k = elim (find-erase-none j i (insert i w.stream c.streams) e) [
      | inl here ↦
          subst (λ x. held (post_tags i w.posted c.cq) x k ≡ 0) (sym here)
            (held-post_tags_self i w.posted c.cq w.stream k (h.tracked.tags k)
              ∙ nothing_flagged w.stream h.sound over k)
      | inr (_, gone) ↦ stored_none i w c v h old j gone k
    ]

    freed-IsValid :
        IsValid (record (store_stream i w c) { streams = erase i (store_stream i w c).streams })
    freed-IsValid = rw (store_stream_lem i w c) (record {
      streams = freed_streams;
      no_stream = freed_none;
      calls =
          λ j cs e. let (named, one) = v.calls j cs e in (named, unary_same i w c v h old j ∙ one);
      no_call = λ j e. unary_same i w c v h old j ∙ v.no_call j e;
      fresh = λ j new.
          let (gone, no_call, quiet) = stored_fresh i w c v h old j new in
          (ground (arith, find-erase j i (insert i w.stream c.streams)), no_call, quiet);
    })

  -- Either the stream goes on, or it is deleted in the critical section that emits its status.
  pub s_maybe_free_locked-IsValid : IsValid (s_maybe_free_locked w.stream (store_stream i w c))
  unfolding s_maybe_free_locked
  s_maybe_free_locked-IsValid = elim (Bool-cases w.stream.status_emitted) [
    | inl over ↦
        simp (over, emitted-is_zero w.stream h.sound over, h.tracked.named) (freed-IsValid over)
    | inr alive ↦ simp (alive, and_false) (store_stream-IsValid i w c v h old alive)
  ]
