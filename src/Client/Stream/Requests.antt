-- ===== src/Client/Stream/Requests.antt =====
-- src/client.cpp: a send, a half-close and a delivered message under the discipline of the stream.
use rgrpc.Convert.{Bytes}
use rgrpc.Prelude.{
  if_rule, ℕ, suc, ◌+◌, pos, dec, ltb_ℤ, Bool, true, false, [], ◌∷◌, ◌≡◌, refl, arith, push_back,
  is_empty-push_back, leb, length, ◌||◌, length-append,
}
use rgrpc.Client.Types.{TagKind, StreamState}
use rgrpc.Client.Stream.{Locked, send_locked, writes_done_locked, take_unread}
use rgrpc.Client.Stream.Discipline.{flagged, IsSound}
use rgrpc.Client.Stream.Tracking.{IsBounded}
use rgrpc.Client.Stream.Handlers.{Holds, s_post_read_locked-Holds, s_pump_writes_locked-Holds}

abbrev untouched : StreamState → Locked
untouched s = record { stream = s; posted = []; events = [] }

module _ {base : TagKind → ℕ} (s : StreamState) (t : (k : TagKind) → base k ≡ flagged s k) where
  same_tags : (k : TagKind) → base k + 0 ≡ flagged s k
  same_tags k = omega (arith, t k)

module _ {base : TagKind → ℕ} {n : ℕ} (shutting : Bool) (s : StreamState) (v : IsSound s)
    (b : IsBounded s) (t : (k : TagKind) → base k ≡ flagged s k) where
  untouched-Holds : s.unread ≡ pos n → Holds base n s.id (untouched s)
  untouched-Holds u = record {
    sound = v;
    tracked = record {
      tags = same_tags s t;
      backlog = ground arith;
      named = refl;
      owned = ground arith;
    };
    bounded = b;
  }

  queued-Holds :
      (bytes : Bytes)
      → s.unread ≡ pos n
      → s.wdone_requested ≡ false
      → leb s.write_cap (length s.write_queue) ≡ false
      → Holds base n s.id (untouched (record s { write_queue = push_back s.write_queue bytes }))
  queued-Holds bytes u open_side room = record {
    sound = ground (arith, is_empty-push_back s.write_queue bytes);
    tracked = record {
      tags = elim [ TagKind.unary ↦ same_tags s t TagKind.unary | k ↦ same_tags s t k ];
      backlog = ground arith;
      named = refl;
      owned = ground arith;
    };
    bounded = ground (arith, length-append s.write_queue (bytes ∷ []));
  }

  pub send_locked-Holds :
      (bytes : Bytes) → s.unread ≡ pos n → Holds base n s.id (send_locked shutting bytes s).0
  unfolding send_locked
  send_locked-Holds bytes u =
      if_rule (λ (r : Locked × Bool). Holds base n s.id r.0)
        (s.broken || s.finish_posted || s.wdone_requested) (λ _. untouched-Holds u)
        (λ may.
          if_rule (λ (r : Locked × Bool). Holds base n s.id r.0)
            (leb s.write_cap (length s.write_queue)) (λ _. untouched-Holds u)
            (λ room.
              s_pump_writes_locked-Holds shutting _ (queued-Holds bytes u (ground arith) room)))

  pub writes_done_locked-Holds :
      s.unread ≡ pos n → Holds base n s.id (writes_done_locked shutting s).0
  unfolding writes_done_locked
  writes_done_locked-Holds u =
      if_rule (λ (r : Locked × Bool). Holds base n s.id r.0) s.wdone_requested
        (λ _. untouched-Holds u)
        (λ new.
          s_pump_writes_locked-Holds shutting (untouched (record s { wdone_requested = true }))
            (record {
              sound = ground arith;
              tracked = record {
                tags = elim [ TagKind.unary ↦ same_tags s t TagKind.unary | k ↦ same_tags s t k ];
                backlog = ground arith;
                named = refl;
                owned = ground arith;
              };
              bounded = ground arith;
            }))

  -- `unread` counts the message that the poll has just taken.
  pub take_unread-Holds : s.unread ≡ pos (suc n) → Holds base n s.id (take_unread shutting s)
  unfolding take_unread
  take_unread-Holds u =
      if_rule (Holds base n s.id) (ltb_ℤ (dec s.unread) s.read_cap)
        (λ e. s_post_read_locked-Holds shutting _ fewer e) (λ _. fewer)
    where
      fewer : Holds base n s.id (untouched (record s { unread = dec s.unread }))
      fewer = record {
        sound = ground arith;
        tracked = record {
          tags = elim [ TagKind.unary ↦ same_tags s t TagKind.unary | k ↦ same_tags s t k ];
          backlog = ground arith;
          named = refl;
          owned = ground arith;
        };
        bounded = ground arith;
      }
