-- ===== src/Client/Invariant/Calls.antt =====
-- src/client.cpp: unary calls and the invariant of the client.
use rgrpc.Prelude.{
  ℕ, ◌<◌, ◌≡◌, ◌≢◌, refl, ◌∙◌, inl, inr, List, [], ◌∷◌, ◌++◌, arith, none, some, find, erase,
  find-erase, find-erase-some, find-erase-none, ℕ_discrete,
}
use rgrpc.Client.Types.{TagKind, Ctag, ClEvent, CallState, Client, Filled}
use rgrpc.Client.Completion.{outstanding, take_tag, complete_call, unary_event}
use rgrpc.Client.Frame.{
  smsgs_of, smsgs_of-append, outstanding-take_tag_self, outstanding-take_tag_ne,
}
use rgrpc.Client.Invariant.{held, IsStream-same, IsValid}

outstanding_other :
    (x i : ℕ) (k : TagKind) (cq : List Ctag)
    → k ≢ TagKind.unary
    → 0 < outstanding i TagKind.unary cq
    → outstanding x k (take_tag i TagKind.unary cq) ≡ outstanding x k cq
outstanding_other x i k cq n h = elim (ℕ_discrete x i) [
  | yes e ↦ rw e (ground (arith, outstanding-take_tag_self i k TagKind.unary cq h, n))
  | no d ↦ outstanding-take_tag_ne i x k TagKind.unary cq d
]

held_kept :
    (x i : ℕ) (cq : List Ctag)
    → 0 < outstanding i TagKind.unary cq
    → (k : TagKind) → held (take_tag i TagKind.unary cq) x k ≡ held cq x k
held_kept x i cq h TagKind.unary = refl
held_kept x i cq h k = outstanding_other x i k cq (λ e. cc) h

unary_quiet :
    (i : ℕ) (cs : CallState) (f : Filled) (ready : List ClEvent)
    → smsgs_of i (ready ++ unary_event cs f ∷ []) ≡ smsgs_of i ready
unary_quiet i cs f ready = ground (arith, smsgs_of-append i ready (unary_event cs f ∷ []))

-- The event of a call goes out once, and takes the call with it.
pub complete_call-IsValid :
    (cs : CallState) (f : Filled) (c : Client)
    → IsValid c
    → find cs.id c.calls ≡ some cs
    → IsValid (complete_call cs f (record c { cq = take_tag cs.id TagKind.unary c.cq }))
unfolding complete_call
complete_call-IsValid cs f c v e = record {
  streams = λ x s found.
      IsStream-same x s (held_kept x cs.id c.cq out) (unary_quiet x cs f c.ready)
        (v.streams x s found);
  no_stream = λ x gone k. held_kept x cs.id c.cq out k ∙ v.no_stream x gone k;
  calls = λ x xs found.
      let (n, before) = find-erase-some x cs.id xs c.calls found in
      let (named, one) = v.calls x xs before in
      (named, outstanding-take_tag_ne cs.id x TagKind.unary TagKind.unary c.cq n ∙ one);
  no_call = no_call_left;
  fresh = λ x new.
      let (gone, no_call, quiet) = v.fresh x new in
      (gone, ground (arith, find-erase x cs.id c.calls), unary_quiet x cs f c.ready ∙ quiet);
}
  where
    one : outstanding cs.id TagKind.unary c.cq ≡ 1
    one = (v.calls cs.id cs e).1

    out : 0 < outstanding cs.id TagKind.unary c.cq
    out = omega (arith, one)

    no_call_left :
        (x : ℕ)
        → find x (erase cs.id c.calls) ≡ none
        → outstanding x TagKind.unary (take_tag cs.id TagKind.unary c.cq) ≡ 0
    no_call_left x gone = elim (find-erase-none x cs.id c.calls gone) [
      | inl here ↦
          rw here (
            omega
              (arith, one, outstanding-take_tag_self cs.id TagKind.unary TagKind.unary c.cq out))
      | inr (n, before) ↦
          outstanding-take_tag_ne cs.id x TagKind.unary TagKind.unary c.cq n ∙ v.no_call x before
    ]
