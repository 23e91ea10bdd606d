-- ===== src/Client/Stream/Tracking.antt =====
-- src/client.cpp: the tags and events of a critical section, and the bounds on what is buffered.
use rgrpc.Prelude.{
  ℕ, ◌+◌, ◌≤◌, pos, pos_part, max, Bool, true, false, List, [], ◌∷◌, ◌≡◌, arith, bit, ltb_ℤ, length,
  count,
}
use rgrpc.Client.Types.{TagKind, kind_eq, is_smsg, ClEvent, StreamState}
use rgrpc.Client.Stream.{Locked, s_post_read_locked, s_pump_writes_locked, s_try_finish_locked}
use rgrpc.Client.Stream.Discipline.{flagged, IsSound}

abbrev pub tally : TagKind → List TagKind → ℕ
tally k ks = count (λ j. kind_eq j k) ks

abbrev pub smsgs : List ClEvent → ℕ
smsgs evs = count (λ ev. is_smsg ev.kind) evs

-- Every event is one of the stream `id`.
abbrev pub IsOwned : ℕ → List ClEvent → Type 0
IsOwned id [] = Unit
IsOwned id (ev ∷ evs) = (ev.id ≡ id) × IsOwned id evs

-- With `base` outstanding and `n` messages in `ready` before the critical section: the flags agree
-- with the tags outstanding after it, `unread` with the messages, and the events are the stream's.
pub record IsTracked (base : TagKind → ℕ) (n : ℕ) (id : ℕ) (w : Locked) : Type 0 where
  pub tags : (k : TagKind) → base k + tally k w.posted ≡ flagged w.stream k
  pub backlog : w.stream.unread ≡ pos (n + smsgs w.events)
  pub named : w.stream.id ≡ id
  pub owned : IsOwned id w.events

pub record IsBounded (s : StreamState) : Type 0 where
  pub queued : length s.write_queue ≤ s.write_cap
  -- A read in flight has its place in the backlog.
  pub buffered : pos_part s.unread + bit s.read_inflight ≤ max 1 (pos_part s.read_cap)
  pub fresh : s.started ≡ false → s.unread ≡ pos 0

module _ (shutting : Bool) (w : Locked) where
  s_post_read_locked-tags :
      (base : TagKind → ℕ) (k : TagKind)
      → base k + tally k w.posted ≡ flagged w.stream k
      → base k + tally k (s_post_read_locked shutting w).posted
        ≡ flagged (s_post_read_locked shutting w).stream k
  unfolding s_post_read_locked
  s_post_read_locked-tags base TagKind.unary h = ground arith
  s_post_read_locked-tags base _ h = ground arith

  s_pump_writes_locked-tags :
      (base : TagKind → ℕ) (k : TagKind)
      → base k + tally k w.posted ≡ flagged w.stream k
      → base k + tally k (s_pump_writes_locked shutting w).posted
        ≡ flagged (s_pump_writes_locked shutting w).stream k
  unfolding s_pump_writes_locked
  s_pump_writes_locked-tags base TagKind.unary h = ground arith
  s_pump_writes_locked-tags base _ h = ground arith

  s_try_finish_locked-tags :
      (base : TagKind → ℕ) (k : TagKind)
      → IsSound w.stream
      → base k + tally k w.posted ≡ flagged w.stream k
      → base k + tally k (s_try_finish_locked shutting w).posted
        ≡ flagged (s_try_finish_locked shutting w).stream k
  unfolding s_try_finish_locked
  s_try_finish_locked-tags base TagKind.unary v h = ground arith
  s_try_finish_locked-tags base _ v h = ground arith

  module _ {base : TagKind → ℕ} {n id : ℕ} (t : IsTracked base n id w) where
    pub s_post_read_locked-IsTracked : IsTracked base n id (s_post_read_locked shutting w)
    unfolding s_post_read_locked
    s_post_read_locked-IsTracked = record {
      tags = λ k. s_post_read_locked-tags base k (t.tags k);
      backlog = ground arith;
      named = ground arith;
      owned = ground arith;
    }

    pub s_pump_writes_locked-IsTracked : IsTracked base n id (s_pump_writes_locked shutting w)
    unfolding s_pump_writes_locked
    s_pump_writes_locked-IsTracked = record {
      tags = λ k. s_pump_writes_locked-tags base k (t.tags k);
      backlog = ground arith;
      named = ground arith;
      owned = ground arith;
    }

    pub s_try_finish_locked-IsTracked :
        IsSound w.stream → IsTracked base n id (s_try_finish_locked shutting w)
    unfolding s_try_finish_locked
    s_try_finish_locked-IsTracked v = record {
      tags = λ k. s_try_finish_locked-tags base k v (t.tags k);
      backlog = ground arith;
      named = ground arith;
      owned = ground arith;
    }

  module _ (b : IsBounded w.stream) where
    pub s_post_read_locked-IsBounded :
        ltb_ℤ w.stream.unread w.stream.read_cap ≡ true
        → IsBounded (s_post_read_locked shutting w).stream
    unfolding s_post_read_locked
    s_post_read_locked-IsBounded e = ground arith

    pub s_pump_writes_locked-IsBounded : IsBounded (s_pump_writes_locked shutting w).stream
    unfolding s_pump_writes_locked
    s_pump_writes_locked-IsBounded = ground arith

    pub s_try_finish_locked-IsBounded : IsBounded (s_try_finish_locked shutting w).stream
    unfolding s_try_finish_locked
    s_try_finish_locked-IsBounded = ground arith
