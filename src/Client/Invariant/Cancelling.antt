-- ===== src/Client/Invariant/Cancelling.antt =====
-- src/client.cpp: cancellation only marks contexts; the shutdown cancels everything.
use rgrpc.Prelude.{
  ℕ, ◌≡◌, ◌⊎◌, refl, sym, ◌∙◌, inl, inr, Bool, true, List, arith, Option, none, some, find, insert,
  find-insert, ℕ_discrete, subst, Option-cases, find-map_values, map_values, Map,
}
use rgrpc.Client.Types.{TagKind, Ctag, ClEvent, CallState, StreamState, Client}
use rgrpc.Client.Stream.Discipline.{IsSound}
use rgrpc.Client.Stream.Tracking.{IsBounded}
use rgrpc.Client.Api.{cancel_locked, cancel_call, cancel_stream}
use rgrpc.Client.Lifecycle.{begin_shutdown}
use rgrpc.Client.Invariant.{IsStream, IsValid}

pub cancel_stream-IsSound : (s : StreamState) → IsSound s → IsSound (cancel_stream s)
cancel_stream-IsSound s v = record {
  counted = v.counted;
  idle = v.idle;
  last = v.last;
  emitted = v.emitted;
  nonempty = v.nonempty;
  half_closing = v.half_closing;
  half_closed = v.half_closed;
  broken_ends = v.broken_ends;
  closed_ends = v.closed_ends;
}

pub cancel_stream-IsBounded : (s : StreamState) → IsBounded s → IsBounded (cancel_stream s)
cancel_stream-IsBounded s b = record { queued = b.queued; buffered = b.buffered; fresh = b.fresh }

cancel_stream-IsStream :
    {cq : List Ctag} {ready : List ClEvent} (i : ℕ) (s : StreamState)
    → IsStream cq ready i s
    → IsStream cq ready i (cancel_stream s)
cancel_stream-IsStream i s h = record {
  named = h.named;
  sound = cancel_stream-IsSound s h.sound;
  bounded = cancel_stream-IsBounded s h.bounded;
  tags = elim [ TagKind.unary ↦ h.tags TagKind.unary | k ↦ h.tags k ];
  backlog = h.backlog;
  alive = h.alive;
}

-- A map each of whose values is the old one or the old one cancelled.
abbrev Cancels : {V : Type 0} → (V → V) → Map V → Map V → Type 0
Cancels {V} f m m' =
    (q : ℕ) → (find q m' ≡ find q m) ⊎ ((v : V) × (find q m ≡ some v) × (find q m' ≡ some (f v)))

module _ {V : Type 0} (f : V → V) (m m' : Map V) (h : Cancels f m m') where
  Cancels-some :
      (q : ℕ) (v' : V)
      → find q m' ≡ some v'
      → (v : V) × (find q m ≡ some v) × ((v' ≡ v) ⊎ (v' ≡ f v))
  Cancels-some q v' e = elim (h q) [
    | inl same ↦ (v', sym same ∙ e, inl refl)
    | inr (v, old, new) ↦ (v, old, inr (ground arith))
  ]

  Cancels-none : (q : ℕ) → find q m' ≡ none → find q m ≡ none
  Cancels-none q e = elim (h q) [ inl same ↦ sym same ∙ e | inr (v, old, new) ↦ cc ]

  Cancels_none : (q : ℕ) → find q m ≡ none → find q m' ≡ none
  Cancels_none q e = elim (h q) [ inl same ↦ same ∙ e | inr (v, old, new) ↦ cc ]

Cancels-insert :
    {V : Type 0} (f : V → V) (k : ℕ) (v : V) (m : Map V)
    → find k m ≡ some v
    → Cancels f m (insert k (f v) m)
Cancels-insert f k v m e q = elim (ℕ_discrete q k) [
  | yes here ↦ inr (v, ground arith, ground (arith, find-insert q k (f v) m))
  | no n ↦ inl (ground (arith, find-insert q k (f v) m))
]

Cancels-map_values : {V : Type 0} (f : V → V) (m : Map V) → Cancels f m (map_values f m)
Cancels-map_values f m q = elim (Option-cases (find q m)) [
  | inl gone ↦ inl (ground (arith, find-map_values q f m))
  | inr (v, found) ↦ inr (v, found, ground (arith, find-map_values q f m))
]

cancelled-IsValid :
    (c : Client) (calls : Map CallState) (streams : Map StreamState) (closed shutting : Bool)
    → IsValid c
    → Cancels cancel_call c.calls calls
    → Cancels cancel_stream c.streams streams
    → IsValid (record c { calls = calls; streams = streams; closed = closed; shutting = shutting })
cancelled-IsValid c calls streams closed shutting v hc hs = record {
  streams = λ q s' e.
      let (s, old, either) = Cancels-some cancel_stream c.streams streams hs q s' e in
      elim either [
        | inl same ↦ subst (IsStream c.cq c.ready q) (sym same) (v.streams q s old)
        | inr changed ↦
            subst (IsStream c.cq c.ready q) (sym changed)
              (cancel_stream-IsStream q s (v.streams q s old))
      ];
  no_stream = λ q e. v.no_stream q (Cancels-none cancel_stream c.streams streams hs q e);
  calls = λ q cs' e.
      let (cs, old, either) = Cancels-some cancel_call c.calls calls hc q cs' e in
      ground (arith, either, v.calls q cs old);
  no_call = λ q e. v.no_call q (Cancels-none cancel_call c.calls calls hc q e);
  fresh = λ q new.
      let (gone, no_call, quiet) = v.fresh q new in
      (
        Cancels_none cancel_stream c.streams streams hs q gone,
        Cancels_none cancel_call c.calls calls hc q no_call,
        quiet,
      );
}

pub cancel_locked-IsValid : (want : ℕ) (c : Client) → IsValid c → IsValid (cancel_locked want c)
unfolding cancel_locked
cancel_locked-IsValid want c v =
    cancelled-IsValid c _ _ c.closed c.shutting v (on_call (find want c.calls) refl)
      (on_one_stream (find want c.streams) refl)
  where
    on_call :
        (o : Option CallState)
        → find want c.calls ≡ o
        → Cancels cancel_call c.calls
            (elim o [ none ↦ c.calls | some cs ↦ insert want (cancel_call cs) c.calls ])
    on_call none e = λ q. inl refl
    on_call (some cs) e = Cancels-insert cancel_call want cs c.calls e

    on_one_stream :
        (o : Option StreamState)
        → find want c.streams ≡ o
        → Cancels cancel_stream c.streams
            (elim o [ none ↦ c.streams | some s ↦ insert want (cancel_stream s) c.streams ])
    on_one_stream none e = λ q. inl refl
    on_one_stream (some s) e = Cancels-insert cancel_stream want s c.streams e

pub begin_shutdown-IsValid : (c : Client) → IsValid c → IsValid (begin_shutdown c)
unfolding begin_shutdown
begin_shutdown-IsValid c v =
    cancelled-IsValid c _ _ true true v (Cancels-map_values cancel_call c.calls)
      (Cancels-map_values cancel_stream c.streams)
