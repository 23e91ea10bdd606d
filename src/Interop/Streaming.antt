-- ===== src/Interop/Streaming.antt =====
-- tools/interop: the stream that the server sends, as the client joins it.
use rgrpc.Convert.{Bytes, ByteBuffer}
use rgrpc.Prelude.{
  ℕ, zero, suc, ◌+◌, ◌≤◌, ◌<◌, pos_part, true, false, ◌≡◌, refl, sym, ap, ◌∙◌, List, [], ◌∷◌, ◌++◌,
  none, arith, append_assoc, append-nil, is_empty,
}
use rgrpc.Interop.Common.{ascii, to_buffer, from_buffer, to_string, EchoRequest, EchoReply}
use rgrpc.Interop.Server.{
  PeerTag, PeerNext, next_is, ends_with, PeerOp, Incoming, answer_call, status_ok, stream_loop,
  stream_reply,
}
use rgrpc.Interop.Client.{TagNext, read_loop}

-- The texts of the replies from number `i` on.
abbrev pub texts : EchoRequest → ℕ → ℕ → List Bytes
texts req i zero = []
texts req i (suc left) = (req.text ++ ascii "-" ++ to_string i) ∷ texts req (suc i) left

-- Texts with a comma before each, and with a comma between any two.
abbrev pub commas : List Bytes → Bytes
commas [] = []
commas (t ∷ ts) = ascii "," ++ t ++ commas ts

abbrev pub join : List Bytes → Bytes
join [] = []
join (t ∷ ts) = t ++ commas ts

-- The queues of the two peers, when `n` operations go well.
abbrev pub all_well : ℕ → List PeerNext
all_well zero = []
all_well (suc n) = record { tag = PeerTag.k_op; ok = true } ∷ all_well n

abbrev pub all_read : ℕ → List TagNext
all_read zero = []
all_read (suc n) = record { tag = 2; ok = true } ∷ all_read n

-- The message that the client's read number `i` gets: that of the server's write number `i`.
abbrev pub message_at : List PeerOp → ℕ → ByteBuffer
message_at (PeerOp.write b ∷ ops) zero = b
message_at (PeerOp.write b ∷ ops) (suc i) = message_at ops i
message_at _ i = none

module _ (parse : Bytes → EchoRequest) (serialize : EchoReply → Bytes) where
  -- When all goes well, each reply is written, in order.
  sent :
      (req : EchoRequest) (left i : ℕ) (rest : List PeerNext)
      → (stream_loop parse serialize req left i (all_well left ++ rest)).1 ≡ rest
  unfolding stream_loop next_is
  sent req zero i rest = refl
  sent req (suc left) i rest = sent req left (suc i) rest

  sent_at :
      (req : EchoRequest) (left i j : ℕ) (rest : List PeerNext) (end : List PeerOp)
      → j < left
      → message_at ((stream_loop parse serialize req left i (all_well left ++ rest)).0 ++ end) j
        ≡ to_buffer (serialize (stream_reply parse serialize req (i + j)))
  unfolding stream_loop next_is
  sent_at req zero i j rest end h = elim h [ ]
  sent_at req (suc left) i zero rest end h =
      ap (λ n. to_buffer (serialize (stream_reply parse serialize req n))) {x = i} {y = i + 0}
        (omega arith)
  sent_at req (suc left) i (suc j) rest end h =
      sent_at req left (suc i) j rest end (omega (arith, h))
      ∙ ap (λ n. to_buffer (serialize (stream_reply parse serialize req n))) {x = suc i + j}
          {y = i + suc j} (omega arith)

-- The client's loop on messages with these texts, after it has joined some.
module _ (parse : Bytes → EchoReply) (req : EchoRequest) (msg : ℕ → ByteBuffer) where
  abbrev one_text : ℕ → Bytes
  one_text i = req.text ++ ascii "-" ++ to_string i

  text-not_empty : (i : ℕ) → is_empty (one_text i) ≡ false
  text-not_empty i = not_empty req.text
    where
      not_empty : (s : Bytes) → is_empty ((s ++ ascii "-") ++ to_string i) ≡ false
      not_empty [] = refl
      not_empty (b ∷ s) = refl

  append-not_empty : (s t : Bytes) → is_empty s ≡ false → is_empty (s ++ t) ≡ false
  append-not_empty [] t h = cc
  append-not_empty (b ∷ s) t h = refl

  read_more :
      (left i : ℕ) (joined : Bytes)
      → is_empty joined ≡ false
      → ((j : ℕ) → i ≤ j → j < i + left → (parse (from_buffer (msg j))).text ≡ one_text j)
      → read_loop parse msg i (all_read left) joined ≡ joined ++ commas (texts req i left)
  unfolding read_loop
  read_more zero i joined filled h = sym (append-nil joined)
  read_more (suc left) i joined filled h =
      rw (filled, h i (omega arith) (omega arith))
        (read_more left (suc i) ((joined ++ ascii ",") ++ one_text i)
            (append-not_empty (joined ++ ascii ",") (one_text i)
              (append-not_empty joined (ascii ",") filled))
            (λ j at_least less. h j (omega (arith, at_least)) (omega (arith, less)))
          ∙ regroup (one_text i) (commas (texts req (suc i) left)))
    where
      regroup :
          (t rest : Bytes)
          → ((joined ++ ascii ",") ++ t) ++ rest ≡ joined ++ ((ascii "," ++ t) ++ rest)
      regroup t rest =
          append_assoc (joined ++ ascii ",") t rest
          ∙ append_assoc joined (ascii ",") (t ++ rest)
          ∙ ap (λ l. joined ++ l) (sym (append_assoc (ascii ",") t rest))

  read_all :
      (left : ℕ)
      → ((j : ℕ) → j < left → (parse (from_buffer (msg j))).text ≡ one_text j)
      → read_loop parse msg 0 (all_read left) [] ≡ join (texts req 0 left)
  unfolding read_loop
  read_all zero h = refl
  read_all (suc left) h = rw (h 0 (omega arith)) (
      read_more left 1 (one_text 0) (text-not_empty 0)
        (λ j at_least less. h j (omega (arith, less))))

all_well-suc : (n : ℕ) → all_well (suc n) ≡ all_well n ++ all_well 1
all_well-suc zero = refl
all_well-suc (suc n) = ap (λ l. record { tag = PeerTag.k_op; ok = true } ∷ l) (all_well-suc n)

-- A call of EchoStream on the server, read by the client. Where protobuf gives the text of a reply
-- back from its bytes, and every write of the server, its Finish, and as many reads of the client go well: the texts
-- that the client joins are those of the request with -0, -1 and so on, in order and with commas between
-- them, as many as the request's number says (none, if that is negative); and the server has then
-- taken every answer of its queue.
pub echo_stream_arrives :
    (parse_request : Bytes → EchoRequest) (serialize : EchoReply → Bytes)
    (parse_reply : Bytes → EchoReply)
    → ((r : EchoReply) → (parse_reply (serialize r)).text ≡ r.text)
    → (call : Incoming) → ends_with call.method (ascii "/Echo") ≡ false
    → ends_with call.method (ascii "/EchoStream") ≡ true
    → let req = parse_request (from_buffer call.message) in
      let n = pos_part req.number in
      let (ops, left) = answer_call parse_request serialize call (all_well (suc n)) in
      (read_loop parse_reply (message_at ops) 0 (all_read n) [] ≡ join (texts req 0 n))
      × (left ≡ [])
unfolding answer_call from_buffer to_buffer next_is
echo_stream_arrives parse_request serialize parse_reply roundtrip call not_echo is_stream =
    let req = parse_request (from_buffer call.message) in
    let n = pos_part req.number in
    let end = PeerOp.finish status_ok ∷ [] in
    rw (not_echo, is_stream, all_well-suc n)
      (
        read_all parse_reply req
            (message_at
              ((stream_loop parse_request serialize req n 0 (all_well n ++ all_well 1)).0 ++ end))
            n
            (λ j less.
              ap (λ b. (parse_reply (from_buffer b)).text)
                (sent_at parse_request serialize req n 0 j (all_well 1) end less)
              ∙ roundtrip (stream_reply parse_request serialize req (0 + j))
              ∙ ap (one_text parse_reply req (λ i. none)) {x = 0 + j} {y = j} (omega arith)),
        ap (λ l. (next_is PeerTag.k_op l).1) (sent parse_request serialize req n 0 (all_well 1)),
      )
