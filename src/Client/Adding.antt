-- ===== src/Client/Adding.antt =====
-- src/client.cpp: a round of the completion thread adds events at the end of `ready`.
use rgrpc.Prelude.{
  ℕ, Bool, ◌&&◌, ◌≡◌, refl, sym, ap, ◌∙◌, subst, inl, inr, List, [], ◌∷◌, ◌++◌, append-nil,
  append_assoc, some, arith, find, Option-cases, some-injective, is_zero, if_rule,
}
use rgrpc.Wake.{WakeHandle, wake_signal}
use rgrpc.Client.Types.{TagKind, ClEvent, StreamState, Client, Filled, Completion}
use rgrpc.Client.Stream.{on_tag}
use rgrpc.Client.Completion.{
  take_tag, complete, complete_call, complete_stream, dispatch, store_stream, s_maybe_free_locked,
}
use rgrpc.Client.Frame.{signals, store_stream_lem}

-- What a round of the completion thread leaves of the rest: it only adds events at the end.
pub record Adds (c d : Client) : Type 0 where
  pub closed : d.closed ≡ c.closed
  pub next_id : d.next_id ≡ c.next_id
  pub capacity : d.wake.capacity ≡ c.wake.capacity
  pub ready : (new : List ClEvent) × (d.ready ≡ c.ready ++ new)

capacity-signals : (evs : List ClEvent) (h : WakeHandle) → (signals evs h).capacity ≡ h.capacity
unfolding signals wake_signal
capacity-signals [] h = refl
capacity-signals (ev ∷ evs) h = capacity-signals evs (wake_signal h) ∙ ground arith

pub Adds-refl : (c : Client) → Adds c c
Adds-refl c = record {
  closed = refl;
  next_id = refl;
  capacity = refl;
  ready = ([], sym (append-nil c.ready));
}

pub Adds-trans : {c d e : Client} → Adds c d → Adds d e → Adds c e
Adds-trans {c} a b =
    let (new, e) = a.ready in
    let (more, f) = b.ready in
    record {
      closed = b.closed ∙ a.closed;
      next_id = b.next_id ∙ a.next_id;
      capacity = b.capacity ∙ a.capacity;
      ready = (new ++ more, f ∙ ap (λ l. l ++ more) e ∙ append_assoc c.ready new more);
    }

store_stream-Adds :
    (k : TagKind) (ok : Bool) (f : Filled) (s : StreamState) (c : Client)
    → Adds c (complete_stream k ok f s c)
unfolding complete_stream s_maybe_free_locked
store_stream-Adds k ok f s c =
    let w = on_tag c.shutting k ok f s in
    let stored : Adds c (store_stream s.id w c) = rw (store_stream_lem s.id w c) (record {
      closed = refl;
      next_id = refl;
      capacity = capacity-signals w.events c.wake;
      ready = (w.events, refl);
    }) in
    if_rule (Adds c) (is_zero w.stream.pending && w.stream.status_emitted)
      (λ _. record {
        closed = stored.closed;
        next_id = stored.next_id;
        capacity = stored.capacity;
        ready = stored.ready;
      })
      (λ _. stored)

dispatch-Adds :
    (k : TagKind) (i : ℕ) (ok : Bool) (f : Filled) (c d : Client)
    → dispatch k i ok f c ≡ some d
    → Adds c d
unfolding dispatch complete_call wake_signal
dispatch-Adds TagKind.unary i ok f c d e = elim (Option-cases (find i c.calls)) [
  | inl gone ↦ let e1 = rw (gone, dispatch) at e in cc
  | inr (cs, found) ↦
      subst (Adds c) (some-injective _ _ (rw (found, dispatch) at e))
        (record { closed = refl; next_id = refl; capacity = ground arith; ready = (_, refl) })
]
dispatch-Adds k i ok f c d e = elim (Option-cases (find i c.streams)) [
  | inl gone ↦ let e1 = rw (gone, dispatch) at e in cc
  | inr (s, found) ↦
      subst (Adds c) (some-injective _ _ (rw (found, dispatch) at e)) (store_stream-Adds k ok f s c)
]

pub complete-Adds : (e : Completion) (c d : Client) → complete e c ≡ some d → Adds c d
unfolding complete
complete-Adds e c d done =
    let a =
      dispatch-Adds e.tag.kind e.tag.obj e.ok e.filled
        (record c { cq = take_tag e.tag.obj e.tag.kind c.cq }) d done in
    record { closed = a.closed; next_id = a.next_id; capacity = a.capacity; ready = a.ready }
