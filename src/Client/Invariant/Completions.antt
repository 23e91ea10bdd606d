-- ===== src/Client/Invariant/Completions.antt =====
-- src/client.cpp: a round of the completion thread and the invariant of the client.
use rgrpc.Prelude.{
  ℕ, ◌+◌, ◌<◌, ◌≡◌, ◌≢◌, refl, sym, subst, ◌∙◌, inl, inr, Bool, bit, List, arith, some, find,
  Option-cases, ℕ_discrete, dec_lt,
}
use rgrpc.Client.Types.{TagKind, kind_eq, Ctag, CallState, StreamState, Client, Filled, Completion}
use rgrpc.Client.Stream.{on_tag}
use rgrpc.Client.Stream.Handlers.{on_tag-Holds}
use rgrpc.Client.Completion.{
  outstanding, take_tag, complete_stream, complete_call, dispatch, complete,
}
use rgrpc.Client.Frame.{smsgs_of, outstanding-take_tag_self, outstanding-take_tag_ne}
use rgrpc.Client.Invariant.{held, IsStream-same, IsValidBut, IsValid}
use rgrpc.Client.Invariant.Calls.{complete_call-IsValid}
use rgrpc.Client.Invariant.Freeing.{s_maybe_free_locked-IsValid}

-- The queue without the tag that `Next` returns.
abbrev without : ℕ → TagKind → Client → Client
without i k c = record c { cq = take_tag i k c.cq }

held-take_tag_self :
    (i : ℕ) (j : TagKind) (cq : List Ctag) (k : TagKind)
    → j ≢ TagKind.unary
    → 0 < held cq i j
    → held (take_tag i j cq) i k + bit (kind_eq j k) ≡ held cq i k
held-take_tag_self i TagKind.unary cq k n h = absurd (n refl)
held-take_tag_self i j cq TagKind.unary n h = refl
held-take_tag_self i j cq k n h = ground (arith, outstanding-take_tag_self i k j cq h)

held-take_tag_ne :
    (i x : ℕ) (j : TagKind) (cq : List Ctag) (k : TagKind)
    → x ≢ i
    → held (take_tag i j cq) x k ≡ held cq x k
held-take_tag_ne i x j cq TagKind.unary n = refl
held-take_tag_ne i x j cq k n = outstanding-take_tag_ne i x k j cq n

unary_kept :
    (x i : ℕ) (j : TagKind) (cq : List Ctag)
    → j ≢ TagKind.unary
    → 0 < outstanding i j cq
    → outstanding x TagKind.unary (take_tag i j cq) ≡ outstanding x TagKind.unary cq
unary_kept x i j cq n h = elim (ℕ_discrete x i) [
  | yes e ↦ rw e (ground (arith, outstanding-take_tag_self i TagKind.unary j cq h, n))
  | no d ↦ outstanding-take_tag_ne i x TagKind.unary j cq d
]

held→outstanding : (cq : List Ctag) (i : ℕ) (k : TagKind) → 0 < held cq i k → 0 < outstanding i k cq
held→outstanding cq i TagKind.unary h = elim h [ ]
held→outstanding cq i k h = h

module _ (j : TagKind) (i : ℕ) (c : Client) (v : IsValid c) (n : j ≢ TagKind.unary)
    (out : 0 < held c.cq i j) where
  without-IsValidBut : IsValidBut i (without i j c)
  without-IsValidBut = record {
    streams =
        λ x s d e. IsStream-same x s (λ k. held-take_tag_ne i x j c.cq k d) refl (v.streams x s e);
    no_stream = λ x d e k. held-take_tag_ne i x j c.cq k d ∙ v.no_stream x e k;
    calls = λ x cs e. let (named, one) = v.calls x cs e in (named, kept x ∙ one);
    no_call = λ x e. kept x ∙ v.no_call x e;
    fresh = v.fresh;
  }
    where
      kept :
          (x : ℕ)
          → outstanding x TagKind.unary (take_tag i j c.cq) ≡ outstanding x TagKind.unary c.cq
      kept x = unary_kept x i j c.cq n (held→outstanding c.cq i j out)

pub old_id :
    (c : Client) (i : ℕ) (s : StreamState) → IsValid c → find i c.streams ≡ some s → i < c.next_id
old_id c i s v e = elim (dec_lt i c.next_id) [
  | yes lt ↦ lt
  | no ge ↦ let gone = (v.fresh i (omega arith)).0 in cc
]

complete_stream-IsValid :
    (j : TagKind) (ok : Bool) (f : Filled) (s : StreamState) (c : Client)
    → IsValid c
    → find s.id c.streams ≡ some s
    → j ≢ TagKind.unary
    → 0 < held c.cq s.id j
    → IsValid (complete_stream j ok f s (without s.id j c))
unfolding complete_stream
complete_stream-IsValid j ok f s c v e n out =
    let h = v.streams s.id s e in
    s_maybe_free_locked-IsValid s.id (on_tag c.shutting j ok f s) (without s.id j c)
      (without-IsValidBut j s.id c v n out)
      (on_tag-Holds (held (take_tag s.id j c.cq) s.id) (smsgs_of s.id c.ready) c.shutting ok f s
        h.sound h.bounded h.backlog j (λ k. held-take_tag_self s.id j c.cq k n out ∙ h.tags k))
      (old_id c s.id s v e)

stream-dispatch :
    (k : TagKind) (i : ℕ) (ok : Bool) (f : Filled) (c : Client)
    → IsValid c
    → k ≢ TagKind.unary
    → 0 < held c.cq i k
    → (s : StreamState) × (find i c.streams ≡ some s)
      × IsValid (complete_stream k ok f s (without i k c))
stream-dispatch k i ok f c v n out = elim (Option-cases (find i c.streams)) [
  | inl gone ↦ absurd (omega (arith, v.no_stream i gone k))
  | inr (s, found) ↦
      let named = (v.streams i s found).named in
      (
        s,
        found,
        subst (λ x. IsValid (complete_stream k ok f s (without x k c))) named
            (complete_stream-IsValid k ok f s c v
              (subst (λ x. find x c.streams ≡ some s) (sym named) found) n
              (subst (λ x. 0 < held c.cq x k) (sym named) out)),
      )
]

call-dispatch :
    (i : ℕ) (f : Filled) (c : Client)
    → IsValid c
    → 0 < outstanding i TagKind.unary c.cq
    → (cs : CallState) × (find i c.calls ≡ some cs)
      × IsValid (complete_call cs f (without i TagKind.unary c))
call-dispatch i f c v out = elim (Option-cases (find i c.calls)) [
  | inl gone ↦ absurd (omega (arith, v.no_call i gone))
  | inr (cs, found) ↦
      let named = (v.calls i cs found).0 in
      (
        cs,
        found,
        subst (λ x. IsValid (complete_call cs f (without x TagKind.unary c))) named
            (complete_call-IsValid cs f c v
              (subst (λ x. find x c.calls ≡ some cs) (sym named) found)),
      )
]

dispatch-IsValid :
    (k : TagKind) (i : ℕ) (ok : Bool) (f : Filled) (c : Client)
    → IsValid c
    → 0 < outstanding i k c.cq
    → (d : Client) × (dispatch k i ok f (without i k c) ≡ some d) × IsValid d
unfolding dispatch
dispatch-IsValid TagKind.unary i ok f c v out =
    let (cs, found, valid) = call-dispatch i f c v out in (_, rw (found, dispatch), valid)
dispatch-IsValid k i ok f c v out =
    let (s, found, valid) = stream-dispatch k i ok f c v (λ e. cc) out in
    (_, rw (found, dispatch), valid)

-- A tag that the queue returns finds its object, and the invariant holds again afterwards.
pub complete-IsValid :
    (e : Completion) (c : Client)
    → IsValid c
    → 0 < outstanding e.tag.obj e.tag.kind c.cq
    → (d : Client) × (complete e c ≡ some d) × IsValid d
unfolding complete
complete-IsValid e c v out = dispatch-IsValid e.tag.kind e.tag.obj e.ok e.filled c v out
