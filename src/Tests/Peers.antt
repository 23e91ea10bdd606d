-- ===== src/Tests/Peers.antt =====
-- tools/interop: the two peers at concrete inputs.
use rgrpc.Prelude.{suc, pos, ◌≡◌, ◌↔◌, refl, true, false, some, List, [], ◌∷◌, ◌++◌, length}
use rgrpc.Convert.{Bytes}
use rgrpc.Interop.Common.{ascii, from_buffer, EchoRequest, EchoReply, to_string}
use rgrpc.Interop.Server.{PeerTag, PeerNext, ends_with, PeerOp, Incoming, answer_call, serve}
use rgrpc.Interop.Suffix.{ends_with_iff}
use rgrpc.Interop.Serving.{all_served, serve_ends}
use rgrpc.Interop.Client.{UnaryOutcome, StreamOutcome, read_loop, client_main}
use rgrpc.Interop.Streaming.{texts, join, all_well, all_read, message_at, echo_stream_arrives}
use rgrpc.Interop.Passing.{EchoPassed, StreamPassed, FailPassed, client_passes_iff}

ends_with_iff_example :
    (ends_with (ascii "/interop.v1.Interop/Echo") (ascii "/Echo") ≡ true)
    ↔ ((before : Bytes) × (ascii "/interop.v1.Interop/Echo" ≡ before ++ ascii "/Echo"))
ends_with_iff_example = ends_with_iff (ascii "/interop.v1.Interop/Echo") (ascii "/Echo")

-- A format that keeps the text alone, which is enough for the texts of a stream.
abbrev parse_any : Bytes → EchoRequest
parse_any b = record { text = b; items = []; labels = []; number = pos 2 }

abbrev text_only : EchoReply → Bytes
text_only r = r.text

abbrev reply_of : Bytes → EchoReply
reply_of b = record { text = b; items = []; labels = []; responder = ascii "r" }

abbrev stream_call : Incoming
stream_call = record {
  method = ascii "/interop.v1.Interop/EchoStream";
  message = some (ascii "hi" ∷ []);
}

abbrev accepted : PeerNext
accepted = record { tag = PeerTag.k_accept; ok = true }

-- A call whose second write fails, and one whose read fails.
abbrev some_answers : List PeerNext
some_answers =
    accepted
    ∷ record { tag = PeerTag.k_op; ok = true }
    ∷ record { tag = PeerTag.k_op; ok = true }
    ∷ record { tag = PeerTag.k_op; ok = false }
    ∷ record { tag = PeerTag.k_op; ok = true }
    ∷ accepted
    ∷ record { tag = PeerTag.k_op; ok = false }
    ∷ []

serve_ends_example :
    (calls : List (List PeerOp)) × (serve parse_any text_only
        (suc (length some_answers))
        (λ i. stream_call)
        0
        some_answers
      ≡ some calls)
    × (all_served some_answers calls ≡ true)
serve_ends_example = serve_ends parse_any text_only (λ i. stream_call) some_answers

echo_stream_arrives_example :
    let req = parse_any (from_buffer stream_call.message) in
    let (ops, left) = answer_call parse_any text_only stream_call (all_well 3) in
    (read_loop reply_of (message_at ops) 0 (all_read 2) [] ≡ join (texts req 0 2)) × (left ≡ [])
unfolding ends_with
echo_stream_arrives_example =
    echo_stream_arrives parse_any text_only reply_of (λ r. refl) stream_call refl refl

-- What the client joins.
joined_texts : join (texts (parse_any (ascii "hi")) 0 2) ≡ ascii "hi-0,hi-1"
unfolding to_string
joined_texts = refl

-- Outcomes of which one fails: the reply has no items.
abbrev unary_outcome : UnaryOutcome
unary_outcome = record {
  answers = record { tag = 1; ok = true } ∷ [];
  recv = some (ascii "hello" ∷ []);
  status = record { code = 0; message = [] };
}

abbrev stream_outcome : StreamOutcome
stream_outcome = record {
  answers = all_read 5;
  msg = λ i. some (ascii "hello-0" ∷ []);
  status = record { code = 0; message = [] };
}

client_passes_iff_example :
    (client_main reply_of unary_outcome stream_outcome unary_outcome ≡ 0) ↔ (
      EchoPassed reply_of unary_outcome
      × StreamPassed reply_of stream_outcome
      × FailPassed unary_outcome)
client_passes_iff_example = client_passes_iff reply_of unary_outcome stream_outcome unary_outcome

not_passed : client_main reply_of unary_outcome stream_outcome unary_outcome ≡ 1
unfolding client_main
not_passed = refl
