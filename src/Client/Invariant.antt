-- ===== src/Client/Invariant.antt =====
-- src/client.cpp: the invariant of the client, and the rule for a critical section on one stream.
pub mod Freeing
pub mod Calls
pub mod Completions
pub mod Requests
pub mod Polling
pub mod Cancelling
use rgrpc.Prelude.{
  ℕ, ◌+◌, ◌≤◌, ◌<◌, pos, ◌≡◌, ◌≢◌, refl, sym, ap, ◌∙◌, ◌⊎◌, inl, inr, Bool, true, false, ◌&&◌, List,
  [], ◌∷◌, ◌++◌, arith, ◌==◌, if◌then◌else◌, Option, none, some, find, find-insert, find-erase,
  find-insert-some, find-insert-none, subst, ℕ_discrete, insert, erase,
}
use rgrpc.Client.Types.{TagKind, kind_eq, Ctag, ClEvent, CallState, StreamState, Client}
use rgrpc.Client.Stream.{Locked}
use rgrpc.Client.Stream.Discipline.{flagged, IsSound}
use rgrpc.Client.Stream.Tracking.{tally, smsgs, IsOwned, IsTracked, IsBounded}
use rgrpc.Client.Stream.Handlers.{Holds}
use rgrpc.Client.Completion.{outstanding, post_tags, store_stream}
use rgrpc.Client.Frame.{
  smsgs_of, signals, store_stream_lem, outstanding-post_tags_self, outstanding-post_tags_ne,
  smsgs_of-append, smsgs_of_self, smsgs_of_ne,
}

-- The outstanding tags of a stream.
abbrev pub held : List Ctag → ℕ → TagKind → ℕ
held cq i TagKind.unary = 0
held cq i TagKind.start = outstanding i TagKind.start cq
held cq i TagKind.read = outstanding i TagKind.read cq
held cq i TagKind.write = outstanding i TagKind.write cq
held cq i TagKind.wdone = outstanding i TagKind.wdone cq
held cq i TagKind.finish = outstanding i TagKind.finish cq

-- A stream in the map: its flags agree with the queue, and `unread` with `ready`.
pub record IsStream (cq : List Ctag) (ready : List ClEvent) (i : ℕ) (s : StreamState) : Type 0 where
  pub named : s.id ≡ i
  pub sound : IsSound s
  pub bounded : IsBounded s
  pub tags : (k : TagKind) → held cq i k ≡ flagged s k
  pub backlog : s.unread ≡ pos (smsgs_of i ready)
  pub alive : s.status_emitted ≡ false

-- What holds of the client while the stream `x` is in a critical section.
pub record IsValidBut (x : ℕ) (c : Client) : Type 0 where
  pub streams :
      (i : ℕ) (s : StreamState) → i ≢ x → find i c.streams ≡ some s → IsStream c.cq c.ready i s
  -- a tag of a stream or of a call has its object
  pub no_stream : (i : ℕ) → i ≢ x → find i c.streams ≡ none → (k : TagKind) → held c.cq i k ≡ 0
  pub calls :
      (i : ℕ) (cs : CallState)
      → find i c.calls ≡ some cs
      → (cs.id ≡ i) × (outstanding i TagKind.unary c.cq ≡ 1)
  pub no_call : (i : ℕ) → find i c.calls ≡ none → outstanding i TagKind.unary c.cq ≡ 0
  -- ids from `next_id` on are new
  pub fresh :
      (i : ℕ)
      → c.next_id ≤ i
      → (find i c.streams ≡ none) × (find i c.calls ≡ none) × (smsgs_of i c.ready ≡ 0)

pub record IsValid (c : Client) : Type 0 where
  pub streams : (i : ℕ) (s : StreamState) → find i c.streams ≡ some s → IsStream c.cq c.ready i s
  pub no_stream : (i : ℕ) → find i c.streams ≡ none → (k : TagKind) → held c.cq i k ≡ 0
  pub calls :
      (i : ℕ) (cs : CallState)
      → find i c.calls ≡ some cs
      → (cs.id ≡ i) × (outstanding i TagKind.unary c.cq ≡ 1)
  pub no_call : (i : ℕ) → find i c.calls ≡ none → outstanding i TagKind.unary c.cq ≡ 0
  pub fresh :
      (i : ℕ)
      → c.next_id ≤ i
      → (find i c.streams ≡ none) × (find i c.calls ≡ none) × (smsgs_of i c.ready ≡ 0)

pub IsValid-IsValidBut : (x : ℕ) {c : Client} → IsValid c → IsValidBut x c
IsValid-IsValidBut x v = record {
  streams = λ i s _. v.streams i s;
  no_stream = λ i _. v.no_stream i;
  calls = v.calls;
  no_call = v.no_call;
  fresh = v.fresh;
}

held-post_tags_ne :
    (i j : ℕ) (ks : List TagKind) (cq : List Ctag) (k : TagKind)
    → j ≢ i
    → held (post_tags i ks cq) j k ≡ held cq j k
held-post_tags_ne i j ks cq TagKind.unary h = refl
held-post_tags_ne i j ks cq k h = outstanding-post_tags_ne i j k ks cq h

pub held-post_tags_self :
    (i : ℕ) (ks : List TagKind) (cq : List Ctag) (s : StreamState) (k : TagKind)
    → held cq i k + tally k ks ≡ flagged s k
    → held (post_tags i ks cq) i k ≡ flagged s k
held-post_tags_self i ks cq s TagKind.unary h = refl
held-post_tags_self i ks cq s k h = omega (arith, outstanding-post_tags_self i k ks cq)

-- A change of the queue and of `ready` that passes a stream by.
pub IsStream-same :
    (i : ℕ) (s : StreamState) {cq cq' : List Ctag} {ready ready' : List ClEvent}
    → ((k : TagKind) → held cq' i k ≡ held cq i k)
    → smsgs_of i ready' ≡ smsgs_of i ready
    → IsStream cq ready i s
    → IsStream cq' ready' i s
IsStream-same i s same_tags same_events h = record {
  named = h.named;
  sound = h.sound;
  bounded = h.bounded;
  tags = λ k. same_tags k ∙ h.tags k;
  backlog = h.backlog ∙ ap pos (sym same_events);
  alive = h.alive;
}

pub IsStream-ne :
    (i j : ℕ) (w : Locked) (c : Client) (s : StreamState)
    → j ≢ i
    → IsOwned i w.events
    → IsStream c.cq c.ready j s
    → IsStream (post_tags i w.posted c.cq) (c.ready ++ w.events) j s
IsStream-ne i j w c s n o h =
    IsStream-same j s (λ k. held-post_tags_ne i j w.posted c.cq k n)
      (omega (arith, smsgs_of-append j c.ready w.events, smsgs_of_ne i j w.events n o)) h

module _ (i : ℕ) (w : Locked) (c : Client) (v : IsValidBut i c)
    (h : Holds (held c.cq i) (smsgs_of i c.ready) i w) (old : i < c.next_id) where
  pub unary_same :
      (j : ℕ)
      → outstanding j TagKind.unary (post_tags i w.posted c.cq) ≡ outstanding j TagKind.unary c.cq
  unary_same j = elim (ℕ_discrete j i) [
    | yes e ↦ rw e (
        omega (
          arith,
          outstanding-post_tags_self i TagKind.unary w.posted c.cq,
          h.tracked.tags TagKind.unary,
        ))
    | no n ↦ outstanding-post_tags_ne i j TagKind.unary w.posted c.cq n
  ]

  pub stored_none :
      (j : ℕ)
      → find j (insert i w.stream c.streams) ≡ none
      → (k : TagKind) → held (post_tags i w.posted c.cq) j k ≡ 0
  stored_none j e k =
      let (n, gone) = find-insert-none j i w.stream c.streams e in
      held-post_tags_ne i j w.posted c.cq k n ∙ v.no_stream j n gone k

  pub stored_fresh :
      (j : ℕ)
      → c.next_id ≤ j
      → (find j (insert i w.stream c.streams) ≡ none)
        × (find j c.calls ≡ none)
        × (smsgs_of j (c.ready ++ w.events) ≡ 0)
  stored_fresh j new =
      let n : j ≢ i = omega arith in
      let (gone, no_call, quiet) = v.fresh j new in
      (
        ground (arith, find-insert j i w.stream c.streams),
        no_call,
        omega
            (arith, smsgs_of-append j c.ready w.events, smsgs_of_ne i j w.events n h.tracked.owned),
      )

module _ (i : ℕ) (w : Locked) (c : Client) (v : IsValidBut i c)
    (h : Holds (held c.cq i) (smsgs_of i c.ready) i w) (old : i < c.next_id)
    (alive : w.stream.status_emitted ≡ false) where
  stored : IsStream (post_tags i w.posted c.cq) (c.ready ++ w.events) i w.stream
  stored = record {
    named = h.tracked.named;
    sound = h.sound;
    bounded = h.bounded;
    tags = λ k. held-post_tags_self i w.posted c.cq w.stream k (h.tracked.tags k);
    backlog =
        h.tracked.backlog
        ∙ ap pos (
            omega (
              arith,
              smsgs_of-append i c.ready w.events,
              smsgs_of_self i w.events h.tracked.owned,
            ));
    alive = alive;
  }

  stored_streams :
      (j : ℕ) (s : StreamState)
      → find j (insert i w.stream c.streams) ≡ some s
      → IsStream (post_tags i w.posted c.cq) (c.ready ++ w.events) j s
  stored_streams j s e = elim (find-insert-some j i w.stream s c.streams e) [
    | inl (here, same) ↦
        subst (λ k. IsStream (post_tags i w.posted c.cq) (c.ready ++ w.events) k s) (sym here)
          (subst (IsStream (post_tags i w.posted c.cq) (c.ready ++ w.events) i) same stored)
    | inr (n, found) ↦ IsStream-ne i j w c s n h.tracked.owned (v.streams j s n found)
  ]

  pub store_stream-IsValid : IsValid (store_stream i w c)
  store_stream-IsValid = rw (store_stream_lem i w c) (record {
    streams = stored_streams;
    no_stream = stored_none i w c v h old;
    calls =
        λ j cs e. let (named, one) = v.calls j cs e in (named, unary_same i w c v h old j ∙ one);
    no_call = λ j e. unary_same i w c v h old j ∙ v.no_call j e;
    fresh = stored_fresh i w c v h old;
  })
