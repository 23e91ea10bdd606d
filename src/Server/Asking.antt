-- ===== src/Server/Asking.antt =====
-- src/server.cpp: what R asks of a server and its invariant.
use rgrpc.Convert.{Bytes, MdPairs}
use rgrpc.Prelude.{
  if_rule, ℕ, ◌<◌, ℤ, pos, ◌≡◌, ◌≢◌, refl, sym, ap, ◌∙◌, inl, inr, Bool, false, not, ◌||◌, arith,
  some, some-injective, find, Option, Option-cases, leb, length, subst,
}
use rgrpc.Server.Types.{Svop, SvCall, Server}
use rgrpc.Server.Call.{
  CallLocked, reply_locked, read_locked, try_cancel_locked, sv_send_locked, finish_locked,
}
use rgrpc.Server.Discipline.{IsCall, CallHolds}
use rgrpc.Server.Requests.{
  reply_locked-CallHolds, read_locked-CallHolds, try_cancel_locked-CallHolds,
  sv_send_locked-CallHolds, finish_locked-CallHolds,
}
use rgrpc.Server.Api.{on_call}
use rgrpc.Server.Round.{store_call}
use rgrpc.Server.Invariant.{held_by, IsServerBut, IsServer, stored-IsServer}
use rgrpc.Server.Rounds.{Stays, pump-Stays}

-- What R asks of one call.
pub data SvRequest : Type 0 where
  reply : Bytes → ℤ → Bytes → Option MdPairs → SvRequest
  read cancel : SvRequest
  send : Bytes → SvRequest
  finish : ℤ → Bytes → Option MdPairs → Bool → SvRequest

-- The part of its entry point that has found the call.
abbrev pub ask : Bool → SvRequest → SvCall → CallLocked × Bool
ask shutting (SvRequest.reply response code message metadata) =
    reply_locked shutting response code message metadata
ask shutting SvRequest.read = read_locked
ask shutting SvRequest.cancel = try_cancel_locked
ask shutting (SvRequest.send bytes) = sv_send_locked shutting bytes
ask shutting (SvRequest.finish code message metadata drain) =
    finish_locked shutting code message metadata drain

-- What a request promises of the call that it finds.
pub record IsRequest (f : SvCall → CallLocked × Bool) : Type 0 where
  pub holds : (o : Svop → ℕ) (c : SvCall) → IsCall o c → CallHolds o (f c).0
  pub stays : (c : SvCall) → Stays c.id (f c).0

still_alive :
    (o : Svop → ℕ) (c : SvCall) (w : CallLocked)
    → IsCall o c
    → CallHolds o w
    → c.pending ≢ pos 0
    → w.call.pending ≢ pos 0
still_alive o c w h k alive = ground (arith, h.counted, k.counted, alive)

entered-IsServerBut :
    (a : ℕ) (s : Server) (c : SvCall) → IsServer s → find a s.heap ≡ some c → IsServerBut a s
entered-IsServerBut a s c v found = record {
  calls = λ b d _ e. v.calls b d e;
  no_call = λ b _ gone k. v.no_call b gone k;
  active = λ i b _ e. v.active i b e;
  fresh = λ b new _. v.fresh b new;
  below = ground (arith, found, v.fresh a);
  counted = v.counted;
  window = v.window;
  limit = v.limit;
  ids = v.ids;
}

-- A request finds a call behind every id in `active`, and keeps the invariant.
pub on_call-IsServer :
    (want : ℕ) (f : SvCall → CallLocked × Bool) (s : Server)
    → IsServer s
    → IsRequest f
    → (r : Server × Bool) × (on_call want f s ≡ some r) × IsServer r.0
unfolding on_call
on_call-IsServer want f s v q = elim (Option-cases (find want s.active)) [
  | inl gone ↦ ((s, false), rw (gone, on_call) refl, v)
  | inr (a, here) ↦
      let (c, found, named, nonzero) = v.active want a here in
      let l = v.calls a c found in
      let (same, quiet) = q.stays c in
      (
        (store_call a (f c).0 s, (f c).1),
        rw (here, found, on_call) refl,
        stored-IsServer a (f c).0 s (entered-IsServerBut a s c v found)
            (q.holds (held_by s.cq a) c l.sound) quiet
            (λ i e.
              let (d, at, id_of, other) = v.active i a e in
              (
                same ∙ ap (λ (x : SvCall). x.id) (some-injective _ _ (sym found ∙ at)) ∙ id_of,
                other,
              ))
            (λ n. ap (λ i. find i s.active) same ∙ l.registered (λ z. n (same ∙ z)))
            (still_alive (held_by s.cq a) c (f c).0 l.sound (q.holds _ c l.sound) l.alive)
            (subst (λ i. i < s.next_id) (sym same) l.old),
      )
]

abbrev AskStays : ℕ → CallLocked × Bool → Type 0
AskStays id r = Stays id r.0

reply-IsRequest :
    (shutting : Bool) (response : Bytes) (code : ℤ) (message : Bytes) (metadata : Option MdPairs)
    → IsRequest (reply_locked shutting response code message metadata)
unfolding reply_locked
reply-IsRequest shutting response code message metadata = record {
  holds = λ o c h. reply_locked-CallHolds o c h shutting response code message metadata;
  stays = λ c.
      if_rule (AskStays c.id) (not c.delivered || c.replied || c.dead) (λ _. (refl, refl))
        (λ _. pump-Stays shutting c.id _ (refl, refl));
}

read-IsRequest : IsRequest read_locked
unfolding read_locked
read-IsRequest = record { holds = λ o c h. read_locked-CallHolds o c h; stays = λ c. ground arith }

try_cancel-IsRequest : IsRequest try_cancel_locked
unfolding try_cancel_locked
try_cancel-IsRequest = record {
  holds = λ o c h. try_cancel_locked-CallHolds o c h;
  stays = λ c. ground arith;
}

send-IsRequest : (shutting : Bool) (bytes : Bytes) → IsRequest (sv_send_locked shutting bytes)
unfolding sv_send_locked
send-IsRequest shutting bytes = record {
  holds = λ o c h. sv_send_locked-CallHolds o c h shutting bytes;
  stays = λ c.
      if_rule (AskStays c.id) (not c.delivered || c.dead || c.replied) (λ _. (refl, refl))
        (λ _.
          if_rule (AskStays c.id) (leb c.write_cap (length c.write_queue)) (λ _. (refl, refl))
            (λ _. pump-Stays shutting c.id _ (refl, refl)));
}

finish-IsRequest :
    (shutting : Bool) (code : ℤ) (message : Bytes) (metadata : Option MdPairs) (drain : Bool)
    → IsRequest (finish_locked shutting code message metadata drain)
unfolding finish_locked
finish-IsRequest shutting code message metadata drain = record {
  holds = λ o c h. finish_locked-CallHolds o c h shutting code message metadata drain;
  stays = λ c.
      if_rule (AskStays c.id) (not c.delivered || c.replied || c.dead) (λ _. (refl, refl))
        (λ _. pump-Stays shutting c.id _ (refl, refl));
}

pub ask-IsRequest : (shutting : Bool) (q : SvRequest) → IsRequest (ask shutting q)
ask-IsRequest shutting (SvRequest.reply response code message metadata) =
    reply-IsRequest shutting response code message metadata
ask-IsRequest shutting SvRequest.read = read-IsRequest
ask-IsRequest shutting SvRequest.cancel = try_cancel-IsRequest
ask-IsRequest shutting (SvRequest.send bytes) = send-IsRequest shutting bytes
ask-IsRequest shutting (SvRequest.finish code message metadata drain) =
    finish-IsRequest shutting code message metadata drain
