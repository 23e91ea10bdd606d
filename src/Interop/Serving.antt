-- ===== src/Interop/Serving.antt =====
-- tools/interop/cpp_server.cc: what the server does on each call, and that its loop ends.
use rgrpc.Convert.{Bytes}
use rgrpc.Prelude.{
  not, ◌&&◌, is_empty, sym, ap, ◌∙◌, ℕ, zero, suc, ◌≤◌, ◌<◌, pos_part, Bool, true, false, ◌≡◌, refl,
  ◌⊎◌, inl, inr, List, [], ◌∷◌, ◌++◌, none, some, arith, length, if◌then◌else◌, Bool-cases, if_rule,
}
use rgrpc.Interop.Common.{ascii, EchoRequest, EchoReply, from_buffer}
use rgrpc.Interop.Server.{
  status_ok, tag_eq, PeerTag, PeerNext, next_is, ends_with, PeerOp, Incoming, answer_call, last_op,
  serve, serve_one, stream_loop,
}

-- Writes, and one terminal operation at the end.
abbrev pub is_reply : List PeerOp → Bool
is_reply (PeerOp.write b ∷ ops) = is_reply ops
is_reply (PeerOp.finish status ∷ []) = true
is_reply (PeerOp.write_and_finish b status ∷ []) = true
is_reply _ = false

-- The answers but the first `n`.
abbrev pub skip : ℕ → List PeerNext → List PeerNext
skip zero answers = answers
skip (suc n) [] = []
skip (suc n) (a ∷ answers) = skip n answers

-- Whether the first answer is that the operation behind the tag went well.
abbrev pub goes_well : PeerTag → List PeerNext → Bool
goes_well t [] = false
goes_well t (n ∷ answers) = n.ok && tag_eq n.tag t

-- A read, and a reply exactly if the read went well.
abbrev pub is_served : Bool → List PeerOp → Bool
is_served read_well (PeerOp.read ∷ ops) = if read_well then is_reply ops else is_empty ops
is_served _ _ = false

-- The calls served, by the answers: one accepts the call, and one ends each of its operations. There is
-- no further call once one is not accepted.
abbrev pub all_served : List PeerNext → List (List PeerOp) → Bool
all_served answers [] = not (goes_well PeerTag.k_accept answers)
all_served answers (ops ∷ calls) =
    goes_well PeerTag.k_accept answers
    && is_served (goes_well PeerTag.k_op (skip 1 answers)) ops
    && all_served (skip (suc (length ops)) answers) calls

skip-nil : (n : ℕ) → skip n [] ≡ []
skip-nil zero = refl
skip-nil (suc n) = refl

skip-skip_one : (n : ℕ) (answers : List PeerNext) → skip n (skip 1 answers) ≡ skip (suc n) answers
skip-skip_one n [] = skip-nil n
skip-skip_one n (a ∷ answers) = refl

skip_one-skip : (n : ℕ) (answers : List PeerNext) → skip 1 (skip n answers) ≡ skip (suc n) answers
skip_one-skip zero answers = refl
skip_one-skip (suc n) [] = refl
skip_one-skip (suc n) (a ∷ answers) = skip_one-skip n answers

skip-shorter : (n : ℕ) (answers : List PeerNext) → length (skip n answers) ≤ length answers
skip-shorter zero answers = omega arith
skip-shorter (suc n) [] = omega arith
skip-shorter (suc n) (a ∷ answers) = omega (arith, skip-shorter n answers)

next_is_lem :
    (t : PeerTag) (answers : List PeerNext)
    → next_is t answers ≡ (goes_well t answers, skip 1 answers)
unfolding next_is
next_is_lem t [] = refl
next_is_lem t (n ∷ answers) = refl

module _ (parse : Bytes → EchoRequest) (serialize : EchoReply → Bytes) where
  -- A reply takes an answer for each of its operations.
  abbrev IsDone : List PeerNext → List PeerOp × List PeerNext → Type 0
  IsDone answers r = (is_reply r.0 ≡ true) × (r.1 ≡ skip (length r.0) answers)

  stream_loop_lem :
      (req : EchoRequest) (left i : ℕ) (answers : List PeerNext) (end : List PeerOp)
      → is_reply end ≡ true
      → let r = stream_loop parse serialize req left i answers in
        (is_reply (r.0 ++ end) ≡ true) × (r.1 ≡ skip (length r.0) answers)
  unfolding stream_loop
  stream_loop_lem req zero i answers end h = (h, refl)
  stream_loop_lem req (suc left) i answers end h =
      let (replied, rest) = stream_loop_lem req left (suc i) (skip 1 answers) end h in
      elim (Bool-cases (goes_well PeerTag.k_op answers)) [
        | inr failed ↦ rw (next_is_lem PeerTag.k_op answers, failed, stream_loop) (h, refl)
        | inl well ↦
            rw (next_is_lem PeerTag.k_op answers, well, stream_loop)
              (replied, rest ∙ skip-skip_one _ answers)
      ]

  streamed_lem :
      (req : EchoRequest) (answers : List PeerNext)
      → let (ops, rest) = stream_loop parse serialize req (pos_part req.number) 0 answers in
        let (end, left) = last_op parse serialize (PeerOp.finish status_ok) rest in
        IsDone answers (ops ++ end, left)
  streamed_lem req answers =
      let r = stream_loop parse serialize req (pos_part req.number) 0 answers in
      let (replied, rest) =
        stream_loop_lem req (pos_part req.number) 0 answers (PeerOp.finish status_ok ∷ []) refl in
      (
        replied,
        ap (λ (p : Bool × List PeerNext). p.1) (next_is_lem PeerTag.k_op r.1)
            ∙ ap (skip 1) rest
            ∙ skip_one-skip (length r.0) answers
            ∙ ap (λ n. skip n answers) (sym (length_end r.0)),
      )
    where
      length_end :
          (ops : List PeerOp) → length (ops ++ PeerOp.finish status_ok ∷ []) ≡ suc (length ops)
      length_end [] = refl
      length_end (op ∷ ops) = omega (arith, length_end ops)

  answer_call_lem :
      (call : Incoming) (answers : List PeerNext)
      → IsDone answers (answer_call parse serialize call answers)
  unfolding answer_call
  answer_call_lem call answers =
      let last = ap (λ (p : Bool × List PeerNext). p.1) (next_is_lem PeerTag.k_op answers) in
      if_rule (IsDone answers) (ends_with call.method (ascii "/Echo")) (λ _. (refl, last))
        (λ _.
          if_rule (IsDone answers) (ends_with call.method (ascii "/EchoStream"))
            (λ _. streamed_lem (parse (from_buffer call.message)) answers)
            (λ _.
              if_rule (IsDone answers) (ends_with call.method (ascii "/Fail")) (λ _. (refl, last))
                (λ _. (refl, last))))

  -- A round ends the loop, or serves a call.
  serve_one_lem :
      (call : Incoming) (answers : List PeerNext)
      → let r = serve_one parse serialize call answers in
        ((r.0 ≡ none) × (goes_well PeerTag.k_accept answers ≡ false))
        ⊎ ((ops : List PeerOp) × (r.0 ≡ some ops)
            × (goes_well PeerTag.k_accept answers ≡ true)
            × (is_served (goes_well PeerTag.k_op (skip 1 answers)) ops ≡ true)
            × (r.1 ≡ skip (suc (length ops)) answers))
  unfolding serve_one
  serve_one_lem call answers =
      let a1 = skip 1 answers in
      let (replied, rest) = answer_call_lem call (skip 1 a1) in
      elim (Bool-cases (goes_well PeerTag.k_accept answers)) [
        | inr over ↦ rw (next_is_lem PeerTag.k_accept answers, over, serve_one) (inl (refl, refl))
        | inl on ↦ elim (Bool-cases (goes_well PeerTag.k_op a1)) [
          | inr failed ↦
              rw
                (
                  next_is_lem PeerTag.k_accept answers,
                  on,
                  next_is_lem PeerTag.k_op a1,
                  failed,
                  serve_one,
                )
                (inr (PeerOp.read ∷ [], refl, refl, refl, skip-skip_one 1 answers))
          | inl well ↦
              rw
                (
                  next_is_lem PeerTag.k_accept answers,
                  on,
                  next_is_lem PeerTag.k_op a1,
                  well,
                  serve_one,
                )
                (inr (
                  PeerOp.read ∷ (answer_call parse serialize call (skip 1 a1)).0,
                  refl,
                  refl,
                  replied,
                  rest
                      ∙ skip-skip_one _ a1
                      ∙ skip-skip_one
                          (suc (length (answer_call parse serialize call (skip 1 a1)).0)) answers,
                ))
        ]
      ]

  shorter :
      (n : ℕ) (answers : List PeerNext)
      → goes_well PeerTag.k_accept answers ≡ true
      → length (skip (suc n) answers) < length answers
  shorter n [] h = cc
  shorter n (a ∷ answers) h = omega (arith, skip-shorter n answers)

  serve_lem :
      (fuel : ℕ) (incoming : ℕ → Incoming) (i : ℕ) (answers : List PeerNext)
      → length answers < fuel
      → (calls : List (List PeerOp)) × (serve parse serialize fuel incoming i answers ≡ some calls)
        × (all_served answers calls ≡ true)
  unfolding serve
  serve_lem zero incoming i answers h = elim h [ ]
  serve_lem (suc fuel) incoming i answers h = elim (serve_one_lem (incoming i) answers) [
    | inl (over, ended) ↦ ([], rw (over, serve) refl, rw ended refl)
    | inr (ops, served, on, good, rest) ↦
        let left = skip (suc (length ops)) answers in
        let (calls, all, fine) =
          serve_lem fuel incoming (suc i) left
            (omega (arith, shorter (length ops) answers on, h)) in
        (ops ∷ calls, rw (served, rest, all, serve) refl, rw (on, good, fine) refl)
  ]

  -- The server's loop ends, however the queue answers: after at most as many rounds as there are answers,
  -- and one more, and only once a call is not accepted. On each call that it accepts it reads once; if
  -- the read fails it does nothing more on the call, and if it goes well it makes any number of writes
  -- and then exactly one terminal operation, which comes last. It waits for an answer to each operation.
  pub serve_ends :
      (incoming : ℕ → Incoming) (answers : List PeerNext)
      → (calls : List (List PeerOp)) × (serve parse serialize
            (suc (length answers))
            incoming
            0
            answers
          ≡ some calls)
        × (all_served answers calls ≡ true)
  serve_ends incoming answers = serve_lem (suc (length answers)) incoming 0 answers (omega arith)
