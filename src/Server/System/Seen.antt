-- ===== src/Server/System/Seen.antt =====
-- src/server.cpp: what a wait of `grpc_r_server2_poll` has seen of the completion thread's rounds.
use rgrpc.Prelude.{
  ℕ, zero, suc, ◌<◌, ℤ, pos, Bool, true, false, not, ◌&&◌, ◌≡◌, ◌⊎◌, List, [], ◌∷◌, Option, none,
  some, some-injective, any, subst, arith, if◌then◌else◌,
}
use rgrpc.Wake.{wake_drain}
use rgrpc.Server.Types.{SvEvent, Server}
use rgrpc.Server.Round.{sv_complete_all}
use rgrpc.Server.Poll.{SvRound, sv_positive}

-- The server at the start of a round of the wait.
abbrev pub sv_drained : Server → Server
sv_drained c = record c { wake = wake_drain c.wake }

-- The server once the completion thread has run in the first `k` rounds; `none` if there are not so many.
abbrev pub sv_after_rounds : ℕ → List SvRound → Server → Option Server
sv_after_rounds zero rs c = some c
sv_after_rounds (suc k) [] c = none
sv_after_rounds (suc k) (r ∷ rs) c = elim (sv_complete_all r.meanwhile (sv_drained c)) [
  | none ↦ none
  | some d ↦ sv_after_rounds k rs d
]

-- The deadline has passed, or `wake_poll` was interrupted or timed out.
abbrev pub sv_gives_up : ℤ → SvRound → Bool
sv_gives_up timeout r =
    if sv_positive timeout && not (sv_positive r.remaining)
    then true
    else not (sv_positive r.polled)

-- No event has matched in a round before the last.
abbrev pub SvPrompt : (SvEvent → Bool) → ℕ → List SvRound → Server → Type 0
SvPrompt p k rounds c =
    (j : ℕ) (m : Server) → j < k → sv_after_rounds j rounds c ≡ some m → any p m.ready ≡ false

-- A wait that has ended with `ready` queued: after how many rounds, and why.
pub record SvWaitedFor (timeout : ℤ) (p : SvEvent → Bool) (rounds : List SvRound) (c : Server)
    (ready : List SvEvent) : Type 0 where
  pub rounds_run : ℕ
  pub last : Server
  pub ran : sv_after_rounds rounds_run rounds c ≡ some last
  pub queued : last.ready ≡ ready
  pub prompt : SvPrompt p rounds_run rounds c
  pub at_once : timeout ≡ pos 0 → rounds_run ≡ 0
  pub why : (timeout ≡ pos 0) ⊎ (any p ready ≡ true) ⊎ (any (sv_gives_up timeout) rounds ≡ true)

pub no_sv_round : (p : SvEvent → Bool) (rounds : List SvRound) (c : Server) → SvPrompt p 0 rounds c
no_sv_round p rounds c j m h e = elim h [ ]

pub next_sv_round :
    (p : SvEvent → Bool) (k : ℕ) (r : SvRound) (rs : List SvRound) (c d : Server)
    → any p c.ready ≡ false
    → sv_complete_all r.meanwhile (sv_drained c) ≡ some d
    → SvPrompt p k rs d
    → SvPrompt p (suc k) (r ∷ rs) c
next_sv_round p k r rs c d no_match done h zero m less e =
    subst (λ (x : Server). any p x.ready ≡ false) (some-injective _ _ e) no_match
next_sv_round p k r rs c d no_match done h (suc j) m less e =
    h j m (omega (arith, less)) (rw (done, sv_after_rounds) at e)
