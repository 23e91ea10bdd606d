-- ===== src/Interop/Server.antt =====
-- tools/interop/cpp_server.cc: the server that answers one call after another.
use rgrpc.Convert.{Bytes, ByteBuffer}
use rgrpc.Prelude.{
  ℕ, zero, suc, ◌-◌, pos_part, Bool, true, false, ◌&&◌, List, [], ◌∷◌, ◌++◌, Option, none, some,
  leb, length, if◌then◌else◌,
}
use rgrpc.Interop.Common.{
  ascii, bytes_eq, to_buffer, from_buffer, to_string, EchoRequest, EchoReply,
}

-- The tags `kAccept` and `kOp`.
pub data PeerTag : Type 0 where
  k_accept k_op : PeerTag

abbrev pub tag_eq : PeerTag → PeerTag → Bool
tag_eq PeerTag.k_accept PeerTag.k_accept = true
tag_eq PeerTag.k_op PeerTag.k_op = true
tag_eq _ _ = false

-- One answer of `Next`: a tag and whether its operation went well. After the last, `Next` returns
-- false.
pub record PeerNext : Type 0 where
  pub tag : PeerTag
  pub ok : Bool

-- The result, and the answers that are left.
unfoldable pub next_is : PeerTag → List PeerNext → Bool × List PeerNext
next_is expect [] = (false, [])
next_is expect (n ∷ answers) = (n.ok && tag_eq n.tag expect, answers)

-- `s.substr(pos, len)`
abbrev pub take : ℕ → Bytes → Bytes
take zero s = []
take (suc n) [] = []
take (suc n) (b ∷ s) = b ∷ take n s

abbrev pub drop : ℕ → Bytes → Bytes
drop zero s = s
drop (suc n) [] = []
drop (suc n) (b ∷ s) = drop n s

unfoldable pub ends_with : Bytes → Bytes → Bool
ends_with s suffix =
    leb (length suffix) (length s)
    && bytes_eq (take (length suffix) (drop (length s - length suffix) s)) suffix

pub record PeerStatus : Type 0 where
  pub code : ℕ
  pub message : Bytes

-- `grpc::Status::OK`
abbrev pub status_ok : PeerStatus
status_ok = record { code = 0; message = [] }

-- A call on the reader-writer of a call.
pub data PeerOp : Type 0 where
  read : PeerOp
  write : ByteBuffer → PeerOp
  write_and_finish : ByteBuffer → PeerStatus → PeerOp
  finish : PeerStatus → PeerOp

-- A call that the peer accepts: its method, and the message that its first read gives.
pub record Incoming : Type 0 where
  pub method : Bytes
  pub message : ByteBuffer

-- `parse` and `serialize` are protobuf's.
module _ (parse : Bytes → EchoRequest) (serialize : EchoReply → Bytes) where
  -- The reply of Echo.
  abbrev pub echo_of : EchoRequest → EchoReply
  echo_of req = record {
    text = req.text;
    items = req.items;
    labels = req.labels;
    responder = ascii "cpp";
  }

  -- The reply of EchoStream with number `i`.
  abbrev pub stream_reply : EchoRequest → ℕ → EchoReply
  stream_reply req i = record {
    text = req.text ++ ascii "-" ++ to_string i;
    items = [];
    labels = [];
    responder = ascii "cpp";
  }

  -- The loop of EchoStream, with `left` rounds to go from `i` on.
  unfoldable pub stream_loop : EchoRequest → ℕ → ℕ → List PeerNext → List PeerOp × List PeerNext
  unfolding next_is to_buffer to_string
  stream_loop req zero i answers = ([], answers)
  stream_loop req (suc left) i answers =
      let (ok, rest) = next_is PeerTag.k_op answers in
      let wrote = PeerOp.write (to_buffer (serialize (stream_reply req i))) in
      let more = stream_loop req left (suc i) rest in
      if ok then (wrote ∷ more.0, more.1) else (wrote ∷ [], rest)

  -- One operation, and the wait for its tag.
  abbrev pub last_op : PeerOp → List PeerNext → List PeerOp × List PeerNext
  last_op op answers = (op ∷ [], (next_is PeerTag.k_op answers).1)

  -- What follows the read: the answer to each method.
  unfoldable pub answer_call : Incoming → List PeerNext → List PeerOp × List PeerNext
  unfolding ends_with from_buffer stream_loop
  answer_call call answers =
      let req = parse (from_buffer call.message) in
      if ends_with call.method (ascii "/Echo")
      then last_op (PeerOp.write_and_finish (to_buffer (serialize (echo_of req))) status_ok) answers
      else if ends_with call.method (ascii "/EchoStream")
      then (let (ops, rest) = stream_loop req (pos_part req.number) 0 answers in
          let (end, left) = last_op (PeerOp.finish status_ok) rest in (ops ++ end, left))
      else if ends_with call.method (ascii "/Fail")
      then last_op (PeerOp.finish (record { code = 9; message = ascii "interop failure" })) answers
      else last_op (PeerOp.finish (record { code = 12; message = call.method })) answers

  -- One round of the loop: the operations on the call, or `none` once no call is accepted.
  unfoldable pub serve_one : Incoming → List PeerNext → Option (List PeerOp) × List PeerNext
  unfolding answer_call
  serve_one call answers =
      let (accepted, a1) = next_is PeerTag.k_accept answers in
      let (got, a2) = next_is PeerTag.k_op a1 in
      let (ops, a3) = answer_call call a2 in
      if accepted
      then if got then (some (PeerOp.read ∷ ops), a3) else (some (PeerOp.read ∷ []), a2)
      else (none, a1)

  -- The loop. Each round takes an answer at least, so as many rounds as there are answers and one more
  -- are enough. `incoming` gives the calls in order; the result has the operations on each.
  unfoldable pub serve : ℕ → (ℕ → Incoming) → ℕ → List PeerNext → Option (List (List PeerOp))
  unfolding serve_one
  serve zero incoming i answers = none
  serve (suc fuel) incoming i answers =
      let (ops, rest) = serve_one (incoming i) answers in
      let more = serve fuel incoming (suc i) rest in
      elim ops [ none ↦ some [] | some o ↦ elim more [ none ↦ none | some os ↦ some (o ∷ os) ] ]
