-- ===== src/Client/System/Seen.antt =====
-- src/client.cpp: what a wait of `grpc_r_client_poll` has seen of the completion thread's rounds.
use rgrpc.Prelude.{
  ℕ, zero, suc, ◌<◌, ℤ, pos, Bool, true, false, not, ◌&&◌, ◌≡◌, ◌⊎◌, List, [], ◌∷◌, Option, none,
  some, some-injective, any, subst, arith, if◌then◌else◌,
}
use rgrpc.Wake.{wake_drain}
use rgrpc.Client.Types.{ClEvent, Client}
use rgrpc.Client.Completion.{complete_all}
use rgrpc.Client.Poll.{Round, is_positive}

-- The client at the start of a round of the wait.
abbrev pub drained : Client → Client
drained c = record c { wake = wake_drain c.wake }

-- The client once the completion thread has run in the first `k` rounds; `none` if there are not so many.
abbrev pub after_rounds : ℕ → List Round → Client → Option Client
after_rounds zero rs c = some c
after_rounds (suc k) [] c = none
after_rounds (suc k) (r ∷ rs) c = elim (complete_all r.meanwhile (drained c)) [
  | none ↦ none
  | some d ↦ after_rounds k rs d
]

-- The deadline has passed, or `wake_poll` was interrupted or timed out.
abbrev pub gives_up : ℤ → Round → Bool
gives_up timeout r =
    if is_positive timeout && not (is_positive r.remaining)
    then true
    else not (is_positive r.polled)

-- No event has matched in a round before the last.
abbrev pub Prompt : (ClEvent → Bool) → ℕ → List Round → Client → Type 0
Prompt p k rounds c =
    (j : ℕ) (m : Client) → j < k → after_rounds j rounds c ≡ some m → any p m.ready ≡ false

-- A wait that has ended with `ready` queued: after how many rounds, and why.
pub record WaitedFor (timeout : ℤ) (p : ClEvent → Bool) (rounds : List Round) (c : Client)
    (ready : List ClEvent) : Type 0 where
  pub rounds_run : ℕ
  pub last : Client
  pub ran : after_rounds rounds_run rounds c ≡ some last
  pub queued : last.ready ≡ ready
  pub prompt : Prompt p rounds_run rounds c
  pub at_once : timeout ≡ pos 0 → rounds_run ≡ 0
  pub why : (timeout ≡ pos 0) ⊎ (any p ready ≡ true) ⊎ (any (gives_up timeout) rounds ≡ true)

pub no_round : (p : ClEvent → Bool) (rounds : List Round) (c : Client) → Prompt p 0 rounds c
no_round p rounds c j m h e = elim h [ ]

pub next_round :
    (p : ClEvent → Bool) (k : ℕ) (r : Round) (rs : List Round) (c d : Client)
    → any p c.ready ≡ false
    → complete_all r.meanwhile (drained c) ≡ some d
    → Prompt p k rs d
    → Prompt p (suc k) (r ∷ rs) c
next_round p k r rs c d no_match done h zero m less e =
    subst (λ (x : Client). any p x.ready ≡ false) (some-injective _ _ e) no_match
next_round p k r rs c d no_match done h (suc j) m less e =
    h j m (omega (arith, less)) (rw (done, after_rounds) at e)
