-- ===== src/Interop/Passing.antt =====
-- tools/interop/cpp_client.cc: when the client exits with 0.
use rgrpc.Convert.{Bytes}
use rgrpc.Prelude.{
  ℕ, suc, ℤ, pos, Bool, true, false, ◌≡◌, refl, sym, ap, ◌∙◌, ◌↔◌, List, [], ◌∷◌, Option, none, ◌-◌,
  ◌%◌, ◌^◌, negsuc, subst, some, some-injective, arith, length, ◌==◌, if◌then◌else◌,
}
use rgrpc.Interop.Common.{
  ascii, bytes_eq, from_buffer, Checker, new_checker, check, finish, Item, EchoReply,
}
use rgrpc.Interop.Suffix.{bytes_eq_sound, bytes_eq_refl}
use rgrpc.Interop.Client.{
  await_tag, UnaryOutcome, StreamOutcome, label, int_eq, low_word, signed_word, check_items,
  unary_checks, read_loop, start_stream, stream_checks, fail_checks, client_main,
}

-- No check has failed.
abbrev Clean : Checker → Type 0
Clean c = c.failures ≡ 0

-- A check and the checks before it.
pass_iff : (ok : Bool) (f : ℕ) → ((if ok then f else suc f) ≡ 0) ↔ ((ok ≡ true) × (f ≡ 0))
pass_iff true f = (λ h. (refl, h), λ h. h.1)
pass_iff false f = (λ h. cc, λ h. cc)

bytes_eq_iff : (s t : Bytes) → (bytes_eq s t ≡ true) ↔ (s ≡ t)
bytes_eq_iff s t = (bytes_eq_sound s t, λ e. ap (bytes_eq s) (sym e) ∙ bytes_eq_refl s)

-- A count that is 2 in its low 32 bits, which are all that the check looks at.
abbrev pub CountsTwo : ℤ → Type 0
CountsTwo (pos n) = n % 2 ^ 32 ≡ 2
CountsTwo (negsuc n) = n % 2 ^ 32 ≡ 2 ^ 32 - 3

-- The reply to a unary call that went well.
pub record EchoPassed (parse : Bytes → EchoReply) (u : UnaryOutcome) : Type 0 where
  pub completed : (await_tag 1 u.answers).0 ≡ true
  pub status : u.status.code ≡ 0
  pub text : (parse (from_buffer u.recv)).text ≡ ascii "hello"
  pub responder : (parse (from_buffer u.recv)).responder ≡ ascii "r"
  pub items :
      (a b : Item) × ((parse (from_buffer u.recv)).items ≡ a ∷ b ∷ [])
      × (a.name ≡ ascii "a")
      × CountsTwo b.count
  pub label : label (ascii "k") (parse (from_buffer u.recv)).labels ≡ some (ascii "v")

pub record StreamPassed (parse : Bytes → EchoReply) (s : StreamOutcome) : Type 0 where
  pub started : (start_stream s.answers).0 ≡ true
  pub texts :
      read_loop parse s.msg 0 (start_stream s.answers).1 [] ≡ ascii "hello-0,hello-1,hello-2"
  pub status : s.status.code ≡ 0

pub record FailPassed (u : UnaryOutcome) : Type 0 where
  pub status : u.status.code ≡ 9
  pub message : u.status.message ≡ ascii "interop failure"

eq_iff_nat : (a b : ℕ) → ((a == b) ≡ true) ↔ (a ≡ b)
eq_iff_nat a b = (λ h. ground (arith, h), λ h. ground (arith, h))

CountsTwo-iff : (x : ℤ) → (int_eq (signed_word (low_word x)) (pos 2) ≡ true) ↔ CountsTwo x
CountsTwo-iff (pos n) = (λ h. ground (arith, h), λ h. ground (arith, h))
CountsTwo-iff (negsuc n) = (λ h. ground (arith, h), λ h. ground (arith, h))

abbrev snd_item : Item → List Item → Item
snd_item d (a ∷ b ∷ items) = b
snd_item d _ = d

abbrev fst_item : Item → List Item → Item
fst_item d [] = d
fst_item d (i ∷ items) = i

items_iff :
    (items : List Item) (c : Checker)
    → Clean (check_items items (check "unary.items" (length items == 2) c))
      ↔ (((a b : Item) × (items ≡ a ∷ b ∷ []) × (a.name ≡ ascii "a") × CountsTwo b.count) × Clean c)
unfolding check
items_iff [] c = (λ h. cc, λ h. let (a, b, e, _, _) = h.0 in cc)
items_iff (a ∷ []) c = (λ h. cc, λ h. let (a1, b, e, _, _) = h.0 in cc)
items_iff (a ∷ b ∷ []) c = (
  λ h.
      let (count, h1) = (pass_iff _ _).0 h in
      let (name, h0) = (pass_iff _ _).0 h1 in
      ((a, b, refl, bytes_eq_sound _ _ name, (CountsTwo-iff b.count).0 count), h0),
  λ h.
      let (a1, b1, e, name, count) = h.0 in
      (pass_iff _ _).1 (
        (CountsTwo-iff b.count).1
            (subst (λ (i : Item). CountsTwo i.count) (ap (snd_item b) (sym e)) count),
        (pass_iff _ _).1
            ((bytes_eq_iff _ _).1 (ap (λ (i : Item). i.name) (ap (fst_item a) e) ∙ name), h.1),
      ),
)
items_iff (a ∷ b ∷ d ∷ items) c =
    let more : (length (a ∷ b ∷ d ∷ items) == 2) ≡ false = ground arith in
    (λ h. let failed = rw more at h in cc, λ h. let (a1, b1, e, _, _) = h.0 in cc)

label_iff :
    (found : Option Bytes)
    → ((elim found [
      | none ↦ bytes_eq (ascii "<missing>") (ascii "v")
      | some v ↦ bytes_eq v (ascii "v")
    ])
        ≡ true)
      ↔ (found ≡ some (ascii "v"))
label_iff none = (λ h. cc, λ h. cc)
label_iff (some v) = (
  λ h. ap some (bytes_eq_sound v _ h),
  λ e. (bytes_eq_iff v (ascii "v")).1 (some-injective _ _ e),
)

unary_iff :
    (parse : Bytes → EchoReply) (u : UnaryOutcome) (c : Checker)
    → Clean (unary_checks parse u c) ↔ (EchoPassed parse u × Clean c)
unfolding unary_checks check
unary_iff parse u c =
    let reply = parse (from_buffer u.recv) in
    (
      λ h.
          let (found, h6) = (pass_iff _ _).0 h in
          let (items, h4) = (items_iff reply.items _).0 h6 in
          let (responder, h3) = (pass_iff _ _).0 h4 in
          let (text, h2) = (pass_iff _ _).0 h3 in
          let (status, h1) = (pass_iff _ _).0 h2 in
          let (completed, h0) = (pass_iff _ _).0 h1 in
          (
            record {
              completed = completed;
              status = (eq_iff_nat _ 0).0 status;
              text = bytes_eq_sound _ _ text;
              responder = bytes_eq_sound _ _ responder;
              items = items;
              label = (label_iff (label (ascii "k") reply.labels)).0 found;
            },
            h0,
          ),
      λ (p, h). (pass_iff _ _).1 (
        (label_iff (label (ascii "k") reply.labels)).1 p.label,
        (items_iff reply.items _).1 (
          p.items,
          (pass_iff _ _).1 (
            (bytes_eq_iff _ _).1 p.responder,
            (pass_iff _ _).1 (
              (bytes_eq_iff _ _).1 p.text,
              (pass_iff _ _).1 ((eq_iff_nat _ 0).1 p.status, (pass_iff _ _).1 (p.completed, h)),
            ),
          ),
        ),
      ),
    )

stream_iff :
    (parse : Bytes → EchoReply) (s : StreamOutcome) (c : Checker)
    → Clean (stream_checks parse s c) ↔ (StreamPassed parse s × Clean c)
unfolding stream_checks check
stream_iff parse s c = (
  λ h.
      let (status, h2) = (pass_iff _ _).0 h in
      let (texts, h1) = (pass_iff _ _).0 h2 in
      let (started, h0) = (pass_iff _ _).0 h1 in
      (
        record {
          started = started;
          texts = bytes_eq_sound _ _ texts;
          status = (eq_iff_nat _ 0).0 status;
        },
        h0,
      ),
  λ (p, h). (pass_iff _ _).1 (
    (eq_iff_nat _ 0).1 p.status,
    (pass_iff _ _).1 ((bytes_eq_iff _ _).1 p.texts, (pass_iff _ _).1 (p.started, h)),
  ),
)

fail_iff : (u : UnaryOutcome) (c : Checker) → Clean (fail_checks u c) ↔ (FailPassed u × Clean c)
unfolding fail_checks check
fail_iff u c = (
  λ h.
      let (message, h1) = (pass_iff _ _).0 h in
      let (status, h0) = (pass_iff _ _).0 h1 in
      (record { status = (eq_iff_nat _ 9).0 status; message = bytes_eq_sound _ _ message }, h0),
  λ (p, h).
      (pass_iff _ _).1
        ((bytes_eq_iff _ _).1 p.message, (pass_iff _ _).1 ((eq_iff_nat _ 9).1 p.status, h)),
)

-- The client exits with 0 exactly if its three calls went as they should: the unary call completed with
-- OK and a reply with the text hello, the responder r, two items of which the first is named a and the
-- second counts 2 in the low 32 bits of its int64, and the label k = v; the stream was started, its reads gave hello-0,hello-1,hello-2,
-- and its status is OK; and the failing call ended with FAILED_PRECONDITION and the message of
-- the server. A check that is left out, as those on the items may be, does not make it pass.
pub client_passes_iff :
    (parse : Bytes → EchoReply) (unary : UnaryOutcome) (stream : StreamOutcome)
    (fail : UnaryOutcome)
    → (client_main parse unary stream fail ≡ 0)
      ↔ (EchoPassed parse unary × StreamPassed parse stream × FailPassed fail)
unfolding client_main finish
client_passes_iff parse unary stream fail =
    let c1 = unary_checks parse unary new_checker in
    let c2 = stream_checks parse stream c1 in
    (
      λ h.
          let (failed, h2) = (fail_iff fail c2).0 (exit_zero (fail_checks fail c2).failures h) in
          let (streamed, h1) = (stream_iff parse stream c1).0 h2 in
          (((unary_iff parse unary new_checker).0 h1).0, streamed, failed),
      λ (echoed, streamed, failed).
          let h1 = (unary_iff parse unary new_checker).1 (echoed, refl) in
          let h2 = (stream_iff parse stream c1).1 (streamed, h1) in
          rw ((fail_iff fail c2).1 (failed, h2)) refl,
    )
  where
    exit_zero : (n : ℕ) → ◌≡◌ {A = ℕ} (if n == 0 then 0 else 1) 0 → n ≡ 0
    exit_zero n h = ground (arith, h)
