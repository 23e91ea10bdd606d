-- ===== src/Client/Stream/Handlers.antt =====
-- src/client.cpp: the cases of the completion thread's switch under the discipline of their stream.
use rgrpc.Prelude.{ℕ, ◌+◌, pos, dec, ltb_ℤ, Bool, true, [], ◌≡◌, refl, arith, bit}
use rgrpc.Client.Types.{TagKind, kind_eq, StreamState, Filled}
use rgrpc.Client.Stream.{
  Locked, s_post_read_locked, s_pump_writes_locked, s_try_finish_locked, on_start, on_read,
  on_write, on_wdone, on_finish, on_tag, with_stream,
}
use rgrpc.Client.Stream.Rules.{on_start_rule, on_read_rule, on_write_rule, on_wdone_rule}
use rgrpc.Client.Stream.Discipline.{
  flagged, IsSound, s_post_read_locked-IsSound, s_pump_writes_locked-IsSound,
  s_try_finish_locked-IsSound,
}
use rgrpc.Client.Stream.Tracking.{
  IsTracked, IsBounded, s_post_read_locked-IsTracked, s_pump_writes_locked-IsTracked,
  s_try_finish_locked-IsTracked, s_post_read_locked-IsBounded, s_pump_writes_locked-IsBounded,
  s_try_finish_locked-IsBounded,
}

pub record Holds (base : TagKind → ℕ) (n id : ℕ) (w : Locked) : Type 0 where
  pub sound : IsSound w.stream
  pub tracked : IsTracked base n id w
  pub bounded : IsBounded w.stream

module _ {base : TagKind → ℕ} {n id : ℕ} (shutting : Bool) (w : Locked)
    (h : Holds base n id w) where
  pub s_post_read_locked-Holds :
      ltb_ℤ w.stream.unread w.stream.read_cap ≡ true
      → Holds base n id (s_post_read_locked shutting w)
  s_post_read_locked-Holds e = record {
    sound = s_post_read_locked-IsSound shutting w h.sound;
    tracked = s_post_read_locked-IsTracked shutting w h.tracked;
    bounded = s_post_read_locked-IsBounded shutting w h.bounded e;
  }

  pub s_pump_writes_locked-Holds : Holds base n id (s_pump_writes_locked shutting w)
  s_pump_writes_locked-Holds = record {
    sound = s_pump_writes_locked-IsSound shutting w h.sound;
    tracked = s_pump_writes_locked-IsTracked shutting w h.tracked;
    bounded = s_pump_writes_locked-IsBounded shutting w h.bounded;
  }

  s_try_finish_locked-Holds : Holds base n id (s_try_finish_locked shutting w)
  s_try_finish_locked-Holds = record {
    sound = s_try_finish_locked-IsSound shutting w h.sound;
    tracked = s_try_finish_locked-IsTracked shutting w h.tracked h.sound;
    bounded = s_try_finish_locked-IsBounded shutting w h.bounded;
  }

-- The stream that the switch starts from.
abbrev pub taken : StreamState → Locked
taken s = record { stream = record s { pending = dec s.pending }; posted = []; events = [] }

-- `base` is what is outstanding of the stream once the tag `kind` is back.
module _ (base : TagKind → ℕ) (n : ℕ) (shutting ok : Bool) (filled : Filled) (s : StreamState)
    (v : IsSound s) (b : IsBounded s) (u : s.unread ≡ pos n) where
  abbrev Back : TagKind → Type 0
  Back kind = (k : TagKind) → base k + bit (kind_eq kind k) ≡ flagged s k

  abbrev as_started : Locked
  as_started = with_stream (record (taken s).stream { started = true }) (taken s)

  started : Back TagKind.start → Holds base n s.id (s_post_read_locked shutting as_started)
  unfolding s_post_read_locked
  started t = record {
    sound = s_post_read_locked-IsSound shutting as_started (ground (arith, t TagKind.start));
    tracked = s_post_read_locked-IsTracked shutting as_started (record {
      tags = elim [ TagKind.unary ↦ ground (arith, t TagKind.unary) | k ↦ ground (arith, t k) ];
      backlog = ground arith;
      named = refl;
      owned = ground arith;
    });
    bounded = ground (arith, t TagKind.start);
  }

  abbrev reads :
      (w : Locked)
      → ltb_ℤ w.stream.unread w.stream.read_cap ≡ true
      → Holds base n s.id w
      → Holds base n s.id (s_post_read_locked shutting w)
  reads w e h = s_post_read_locked-Holds shutting w h e

  on_start-Holds : Back TagKind.start → Holds base n s.id (on_start shutting ok (taken s))
  on_start-Holds t =
      on_start_rule (Holds base n s.id) shutting reads (s_pump_writes_locked-Holds shutting)
        (s_try_finish_locked-Holds shutting) ok (taken s) (started t)
        (record {
          sound = ground (arith, t TagKind.start);
          tracked = record {
            tags = elim [
              | TagKind.unary ↦ ground (arith, t TagKind.unary)
              | k ↦ ground (arith, t k)
            ];
            backlog = ground arith;
            named = refl;
            owned = ground arith;
          };
          bounded = ground (arith, t TagKind.start);
        })

  on_read-Holds : Back TagKind.read → Holds base n s.id (on_read shutting ok filled (taken s))
  on_read-Holds t =
      on_read_rule (Holds base n s.id) shutting reads (s_pump_writes_locked-Holds shutting)
        (s_try_finish_locked-Holds shutting) ok filled (taken s)
        (λ _. record {
          sound = ground (arith, t TagKind.read);
          tracked = record {
            tags = elim [
              | TagKind.unary ↦ ground (arith, t TagKind.unary)
              | k ↦ ground (arith, t k)
            ];
            backlog = ground arith;
            named = refl;
            owned = ground arith;
          };
          bounded = ground (arith, t TagKind.read);
        })
        (record {
          sound = ground (arith, t TagKind.read);
          tracked = record {
            tags = elim [
              | TagKind.unary ↦ ground (arith, t TagKind.unary)
              | k ↦ ground (arith, t k)
            ];
            backlog = ground arith;
            named = refl;
            owned = ground arith;
          };
          bounded = ground (arith, t TagKind.read);
        })

  on_write-Holds : Back TagKind.write → Holds base n s.id (on_write shutting ok (taken s))
  on_write-Holds t =
      on_write_rule (Holds base n s.id) shutting reads (s_pump_writes_locked-Holds shutting)
        (s_try_finish_locked-Holds shutting) ok (taken s)
        (λ _ e. record {
          sound = ground (arith, t TagKind.write);
          tracked = record {
            tags = elim [
              | TagKind.unary ↦ ground (arith, t TagKind.unary)
              | k ↦ ground (arith, t k)
            ];
            backlog = ground arith;
            named = refl;
            owned = ground arith;
          };
          bounded = ground (arith, t TagKind.write);
        })
        (λ _ e. record {
          sound = ground (arith, t TagKind.write);
          tracked = record {
            tags = elim [
              | TagKind.unary ↦ ground (arith, t TagKind.unary)
              | k ↦ ground (arith, t k)
            ];
            backlog = ground arith;
            named = refl;
            owned = ground arith;
          };
          bounded = ground (arith, t TagKind.write);
        })
        (record {
          sound = ground (arith, t TagKind.write);
          tracked = record {
            tags = elim [
              | TagKind.unary ↦ ground (arith, t TagKind.unary)
              | k ↦ ground (arith, t k)
            ];
            backlog = ground arith;
            named = refl;
            owned = ground arith;
          };
          bounded = ground (arith, t TagKind.write);
        })

  on_wdone-Holds : Back TagKind.wdone → Holds base n s.id (on_wdone shutting ok (taken s))
  on_wdone-Holds t =
      on_wdone_rule (Holds base n s.id) shutting reads (s_pump_writes_locked-Holds shutting)
        (s_try_finish_locked-Holds shutting) ok (taken s)
        (record {
          sound = ground (arith, t TagKind.wdone);
          tracked = record {
            tags = elim [
              | TagKind.unary ↦ ground (arith, t TagKind.unary)
              | k ↦ ground (arith, t k)
            ];
            backlog = ground arith;
            named = refl;
            owned = ground arith;
          };
          bounded = ground (arith, t TagKind.wdone);
        })
        (record {
          sound = ground (arith, t TagKind.wdone);
          tracked = record {
            tags = elim [
              | TagKind.unary ↦ ground (arith, t TagKind.unary)
              | k ↦ ground (arith, t k)
            ];
            backlog = ground arith;
            named = refl;
            owned = ground arith;
          };
          bounded = ground (arith, t TagKind.wdone);
        })

  on_finish-Holds : Back TagKind.finish → Holds base n s.id (on_finish filled (taken s))
  unfolding on_finish
  on_finish-Holds t = record {
    sound = ground (arith, t TagKind.finish);
    tracked = record {
      tags = elim [ TagKind.unary ↦ ground (arith, t TagKind.unary) | k ↦ ground (arith, t k) ];
      backlog = ground arith;
      named = refl;
      owned = ground arith;
    };
    bounded = ground (arith, t TagKind.finish);
  }

  -- The tag that comes back is one that the flags of its stream account for.
  pub on_tag-Holds :
      (kind : TagKind) → Back kind → Holds base n s.id (on_tag shutting kind ok filled s)
  unfolding on_tag
  on_tag-Holds TagKind.start t = on_start-Holds t
  on_tag-Holds TagKind.read t = on_read-Holds t
  on_tag-Holds TagKind.write t = on_write-Holds t
  on_tag-Holds TagKind.wdone t = on_wdone-Holds t
  on_tag-Holds TagKind.finish t = on_finish-Holds t
  on_tag-Holds TagKind.unary t = absurd (omega (arith, t TagKind.unary))
