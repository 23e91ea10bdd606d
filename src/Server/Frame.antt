-- ===== src/Server/Frame.antt =====
-- src/server.cpp: what a critical section on one call changes in the server, and what it leaves.
use rgrpc.Prelude.{
  ℕ, ◌+◌, ◌≤◌, ◌<◌, ◌≡◌, ◌≢◌, refl, sym, ap, ◌∙◌, List, [], ◌∷◌, ◌++◌, arith, bit, append-nil,
  append_assoc, count, insert, erase, size, Map,
}
use rgrpc.Wake.{WakeHandle, wake_signal}
use rgrpc.Server.Types.{Svop, svop_eq, SvTag, SvEvent, Server}
use rgrpc.Server.Call.{CallLocked}
use rgrpc.Server.Discipline.{sv_tally}
use rgrpc.Server.Round.{sv_outstanding, sv_take_tag, push_sv_events, post_sv_tags, store_call}

-- The accept slots that are outstanding.
abbrev pub accepts : List SvTag → ℕ
accepts cq = count (λ t. svop_eq t.kind Svop.accept) cq

-- One signal for each event.
unfoldable pub sv_signals : List SvEvent → WakeHandle → WakeHandle
sv_signals [] h = h
sv_signals (ev ∷ evs) h = sv_signals evs (wake_signal h)

push_sv_events_lem :
    (evs : List SvEvent) (s : Server)
    → push_sv_events evs s ≡ record s { ready = s.ready ++ evs; wake = sv_signals evs s.wake }
unfolding push_sv_events sv_signals
push_sv_events_lem [] s = ap (λ r. record s { ready = r }) (sym (append-nil s.ready))
push_sv_events_lem (ev ∷ evs) s =
    push_sv_events_lem evs (record s { ready = s.ready ++ ev ∷ []; wake = wake_signal s.wake })
    ∙ ap (λ r. record s { ready = r; wake = sv_signals evs (wake_signal s.wake) })
        (append_assoc s.ready (ev ∷ []) evs)

-- The server after a critical section, field by field.
pub store_call_lem :
    (a : ℕ) (w : CallLocked) (s : Server)
    → store_call a w s ≡ record s {
      cq = post_sv_tags a w.posted s.cq;
      heap = insert a w.call s.heap;
      ready = s.ready ++ w.events;
      wake = sv_signals w.events s.wake;
    }
unfolding store_call
store_call_lem a w s = push_sv_events_lem w.events _

pub sv_outstanding-post_self :
    (a : ℕ) (k : Svop) (ks : List Svop) (cq : List SvTag)
    → sv_outstanding a k (post_sv_tags a ks cq) ≡ sv_outstanding a k cq + sv_tally k ks
unfolding post_sv_tags
sv_outstanding-post_self a k [] cq = omega arith
sv_outstanding-post_self a k (j ∷ ks) cq = ground (arith, sv_outstanding-post_self a k ks cq)

pub sv_outstanding-post_ne :
    (a b : ℕ) (k : Svop) (ks : List Svop) (cq : List SvTag)
    → b ≢ a
    → sv_outstanding b k (post_sv_tags a ks cq) ≡ sv_outstanding b k cq
unfolding post_sv_tags
sv_outstanding-post_ne a b k [] cq n = refl
sv_outstanding-post_ne a b k (_ ∷ ks) cq n = ground (arith, sv_outstanding-post_ne a b k ks cq n)

pub accepts-post :
    (a : ℕ) (ks : List Svop) (cq : List SvTag)
    → accepts (post_sv_tags a ks cq) ≡ accepts cq + sv_tally Svop.accept ks
unfolding post_sv_tags
accepts-post a [] cq = omega arith
accepts-post a (_ ∷ ks) cq = ground (arith, accepts-post a ks cq)

pub sv_outstanding-take_self :
    (a : ℕ) (k j : Svop) (cq : List SvTag)
    → 0 < sv_outstanding a j cq
    → sv_outstanding a k (sv_take_tag a j cq) + bit (svop_eq j k) ≡ sv_outstanding a k cq
unfolding sv_take_tag
sv_outstanding-take_self a k j [] h = elim h [ ]
sv_outstanding-take_self a k j (t ∷ cq) h = ground (arith, sv_outstanding-take_self a k j cq)

pub sv_outstanding-take_ne :
    (a b : ℕ) (k j : Svop) (cq : List SvTag)
    → b ≢ a
    → sv_outstanding b k (sv_take_tag a j cq) ≡ sv_outstanding b k cq
unfolding sv_take_tag
sv_outstanding-take_ne a b k j [] n = refl
sv_outstanding-take_ne a b k j (t ∷ cq) n = ground (arith, sv_outstanding-take_ne a b k j cq n)

pub accepts-take :
    (a : ℕ) (j : Svop) (cq : List SvTag)
    → 0 < sv_outstanding a j cq
    → accepts (sv_take_tag a j cq) + bit (svop_eq j Svop.accept) ≡ accepts cq
unfolding sv_take_tag
accepts-take a j [] h = elim h [ ]
accepts-take a j (t ∷ cq) h = ground (arith, accepts-take a j cq)

module _ {V : Type 0} where
  pub size-insert : (k : ℕ) (v : V) (m : Map V) → size (insert k v m) ≤ size m + 1
  unfolding insert
  size-insert k v [] = omega arith
  size-insert k v ((j, u) ∷ m) = ground (arith, size-insert k v m)

  pub size-erase : (k : ℕ) (m : Map V) → size (erase k m) ≤ size m
  unfolding erase
  size-erase k [] = omega arith
  size-erase k ((j, u) ∷ m) = ground (arith, size-erase k m)
