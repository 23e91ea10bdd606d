-- ===== src/Interop/Client.antt =====
-- tools/interop/cpp_client.cc: the client, and the checks that it makes.
use rgrpc.Convert.{Bytes, ByteBuffer}
use rgrpc.Prelude.{
  ◌-◌, ◌%◌, ◌^◌, ltb, ℕ, suc, ℤ, pos, negsuc, Bool, false, ◌&&◌, not, List, [], ◌∷◌, ◌++◌, Option,
  none, some, ◌==◌, is_empty, length, if◌then◌else◌,
}
use rgrpc.Interop.Common.{
  ascii, bytes_eq, from_buffer, Checker, new_checker, check, finish, Item, EchoRequest, EchoReply,
}
use rgrpc.Interop.Server.{PeerStatus}

unfoldable pub make_request : EchoRequest
make_request = record {
  text = ascii "hello";
  items =
      record { name = ascii "a"; count = pos 1 } ∷ record { name = ascii "b"; count = pos 2 } ∷ [];
  labels = (ascii "k", ascii "v") ∷ [];
  number = pos 3;
}

-- One answer of `Next`: a tag and whether its operation went well. After the last, `Next` returns
-- false.
pub record TagNext : Type 0 where
  pub tag : ℕ
  pub ok : Bool

-- The result, and the answers that are left.
unfoldable pub await_tag : ℕ → List TagNext → Bool × List TagNext
await_tag expect [] = (false, [])
await_tag expect (n ∷ answers) = (n.ok && n.tag == expect, answers)

-- What gRPC fills in for a unary call.
pub record UnaryOutcome : Type 0 where
  pub answers : List TagNext
  pub recv : ByteBuffer
  pub status : PeerStatus

-- And for a stream: the message of each read, in order.
pub record StreamOutcome : Type 0 where
  pub answers : List TagNext
  pub msg : ℕ → ByteBuffer
  pub status : PeerStatus

-- `find` on the labels
abbrev pub label : Bytes → List (Bytes × Bytes) → Option Bytes
label k [] = none
label k ((j, v) ∷ labels) = if bytes_eq k j then some v else label k labels

abbrev pub int_eq : ℤ → ℤ → Bool
int_eq (pos a) (pos b) = a == b
int_eq (negsuc a) (negsuc b) = a == b
int_eq _ _ = false

-- `static_cast<int>` of an int64: the low 32 bits, as a signed number.
abbrev pub low_word : ℤ → ℕ
low_word (pos n) = n % 2 ^ 32
low_word (negsuc n) = 2 ^ 32 - 1 - n % 2 ^ 32

abbrev pub signed_word : ℕ → ℤ
signed_word u = if ltb u (2 ^ 31) then pos u else negsuc (2 ^ 32 - 1 - u)

-- The two checks on the items, made if there are two.
abbrev pub check_items : List Item → Checker → Checker
check_items (a ∷ b ∷ []) c =
    check "unary.count1" (int_eq (signed_word (low_word b.count)) (pos 2))
      (check "unary.item0" (bytes_eq a.name (ascii "a")) c)
check_items _ c = c

-- `StartCall`, `Write` and `WritesDone`: once one has failed, the queue is not asked again.
unfoldable pub start_stream : List TagNext → Bool × List TagNext
unfolding await_tag
start_stream answers =
    let (started, a1) = await_tag 2 answers in
    let (wrote, a2) = if started then await_tag 2 a1 else (false, a1) in
    if wrote then await_tag 2 a2 else (false, a2)

unfoldable pub fail_checks : UnaryOutcome → Checker → Checker
unfolding check
fail_checks u c =
    check "fail.message" (bytes_eq u.status.message (ascii "interop failure"))
      (check "fail.status" (u.status.code == 9) c)

-- `parse` is protobuf's.
module _ (parse : Bytes → EchoReply) where
  unfoldable pub unary_checks : UnaryOutcome → Checker → Checker
  unfolding await_tag from_buffer check
  unary_checks u c =
      let done = (await_tag 1 u.answers).0 in
      let reply = parse (from_buffer u.recv) in
      let c1 = check "unary.completed" done c in
      let c2 = check "unary.status" (u.status.code == 0) c1 in
      let c3 = check "unary.text" (bytes_eq reply.text (ascii "hello")) c2 in
      let c4 = check "unary.responder" (bytes_eq reply.responder (ascii "r")) c3 in
      let c5 = check "unary.items" (length reply.items == 2) c4 in
      check "unary.label"
        (elim (label (ascii "k") reply.labels) [
          | none ↦ bytes_eq (ascii "<missing>") (ascii "v")
          | some v ↦ bytes_eq v (ascii "v")
        ])
        (check_items reply.items c5)

  -- The reads, from message `i` on, until one fails.
  unfoldable pub read_loop : (ℕ → ByteBuffer) → ℕ → List TagNext → Bytes → Bytes
  unfolding from_buffer
  read_loop msg i [] joined = joined
  read_loop msg i (n ∷ answers) joined =
      let text = (parse (from_buffer (msg i))).text in
      let more =
        read_loop msg (suc i) answers
          ((if not (is_empty joined) then joined ++ ascii "," else joined) ++ text) in
      if n.ok && n.tag == 2 then more else joined

  unfoldable pub stream_checks : StreamOutcome → Checker → Checker
  unfolding start_stream read_loop check
  stream_checks s c =
      let (ok, answers) = start_stream s.answers in
      let c1 = check "stream.started" ok c in
      let joined = read_loop s.msg 0 answers [] in
      let c2 = check "stream.texts" (bytes_eq joined (ascii "hello-0,hello-1,hello-2")) c1 in
      check "stream.status" (s.status.code == 0) c2

  -- The exit code of the client, from the outcomes of its three calls.
  unfoldable pub client_main : UnaryOutcome → StreamOutcome → UnaryOutcome → ℕ
  unfolding unary_checks stream_checks fail_checks finish
  client_main unary stream fail =
      finish (fail_checks fail (stream_checks stream (unary_checks unary new_checker)))
