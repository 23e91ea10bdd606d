-- ===== src/Client/Frame.antt =====
-- src/client.cpp: what a critical section on one stream changes in the client, and what it leaves.
use rgrpc.Prelude.{
  ℕ, ◌+◌, ◌<◌, ◌≡◌, refl, sym, ap, ◌∙◌, ◌&&◌, List, [], ◌∷◌, ◌++◌, arith, ◌==◌, if◌then◌else◌,
  append-nil, append_assoc, count, count-append, insert, ◌≢◌,
}
use rgrpc.Wake.{WakeHandle, wake_signal}
use rgrpc.Client.Types.{TagKind, kind_eq, is_smsg, Ctag, ClEvent, Client}
use rgrpc.Client.Stream.{Locked}
use rgrpc.Client.Stream.Tracking.{tally, smsgs, IsOwned}
use rgrpc.Client.Completion.{
  outstanding, take_tag, push_event, push_events, post_tags, store_stream,
}

-- The messages of stream `i` that wait in `ready`.
abbrev pub smsgs_of : ℕ → List ClEvent → ℕ
smsgs_of i evs = count (λ ev. is_smsg ev.kind && ev.id == i) evs

-- One signal for each event.
unfoldable pub signals : List ClEvent → WakeHandle → WakeHandle
signals [] h = h
signals (ev ∷ evs) h = signals evs (wake_signal h)

push_events_lem :
    (evs : List ClEvent) (c : Client)
    → push_events evs c ≡ record c { ready = c.ready ++ evs; wake = signals evs c.wake }
unfolding push_events signals
push_events_lem [] c = ap (λ r. record c { ready = r }) (sym (append-nil c.ready))
push_events_lem (ev ∷ evs) c =
    push_events_lem evs (push_event ev c)
    ∙ ap (λ r. record c { ready = r; wake = signals evs (wake_signal c.wake) })
        (append_assoc c.ready (ev ∷ []) evs)

-- The client after a critical section, field by field.
pub store_stream_lem :
    (id : ℕ) (w : Locked) (c : Client)
    → store_stream id w c ≡ record c {
      cq = post_tags id w.posted c.cq;
      streams = insert id w.stream c.streams;
      ready = c.ready ++ w.events;
      wake = signals w.events c.wake;
    }
unfolding store_stream
store_stream_lem id w c = push_events_lem w.events _

pub outstanding-post_tags_self :
    (i : ℕ) (k : TagKind) (ks : List TagKind) (cq : List Ctag)
    → outstanding i k (post_tags i ks cq) ≡ tally k ks + outstanding i k cq
unfolding post_tags
outstanding-post_tags_self i k [] cq = omega arith
outstanding-post_tags_self i k (j ∷ ks) cq = ground (arith, outstanding-post_tags_self i k ks cq)

pub outstanding-post_tags_ne :
    (i j : ℕ) (k : TagKind) (ks : List TagKind) (cq : List Ctag)
    → j ≢ i
    → outstanding j k (post_tags i ks cq) ≡ outstanding j k cq
unfolding post_tags
outstanding-post_tags_ne i j k [] cq h = refl
outstanding-post_tags_ne i j k (_ ∷ ks) cq h =
    ground (arith, outstanding-post_tags_ne i j k ks cq h)

pub outstanding-take_tag_self :
    (i : ℕ) (k j : TagKind) (cq : List Ctag)
    → 0 < outstanding i j cq
    → outstanding i k (take_tag i j cq) + (if kind_eq j k then 1 else 0) ≡ outstanding i k cq
unfolding take_tag
outstanding-take_tag_self i k j [] h = elim h [ ]
outstanding-take_tag_self i k j (t ∷ cq) h = ground (arith, outstanding-take_tag_self i k j cq)

pub outstanding-take_tag_ne :
    (i x : ℕ) (k j : TagKind) (cq : List Ctag)
    → x ≢ i
    → outstanding x k (take_tag i j cq) ≡ outstanding x k cq
unfolding take_tag
outstanding-take_tag_ne i x k j [] h = refl
outstanding-take_tag_ne i x k j (t ∷ cq) h = ground (arith, outstanding-take_tag_ne i x k j cq h)

pub smsgs_of-append :
    (i : ℕ) (evs fvs : List ClEvent) → smsgs_of i (evs ++ fvs) ≡ smsgs_of i evs + smsgs_of i fvs
smsgs_of-append i evs fvs = count-append _ evs fvs

pub smsgs_of_self : (i : ℕ) (evs : List ClEvent) → IsOwned i evs → smsgs_of i evs ≡ smsgs evs
smsgs_of_self i [] h = refl
smsgs_of_self i (ev ∷ evs) h = ground (arith, smsgs_of_self i evs h.1)

pub smsgs_of_ne : (i j : ℕ) (evs : List ClEvent) → j ≢ i → IsOwned i evs → smsgs_of j evs ≡ 0
smsgs_of_ne i j [] n h = refl
smsgs_of_ne i j (ev ∷ evs) n h = ground (arith, smsgs_of_ne i j evs n h.1)
