-- ===== src/Client/Api.antt =====
-- src/client.cpp: the entry points that R calls, but for poll and close. `none` is an R error.
use rgrpc.Convert.{Bytes, MdPairs}
use rgrpc.Prelude.{
  ℕ, ◌+◌, ◌%◌, ◌^◌, ℤ, pos, ◌+ℤ◌, inc, size_t_of, Bool, true, false, [], ◌∷◌, ◌++◌, if◌then◌else◌,
  Option, none, some, push_back, find, insert, size,
}
use rgrpc.Wake.{WakeHandle}
use rgrpc.Client.Types.{TagKind, ClientContext, CallState, RwOp, StreamState, Client}
use rgrpc.Client.Stream.{Locked, send_locked, writes_done_locked}
use rgrpc.Client.Completion.{store_stream}

abbrev pub get_client : Client → Option Client
get_client c = if c.closed then none else some c

-- `deadline_ms` is the double as `(int64_t) ms` takes it, and `now` the system clock, both in
-- milliseconds; `none` is NULL.
unfoldable pub apply_context_opts :
    ClientContext → ℤ → Option ℤ → Option MdPairs → Bool → ClientContext
apply_context_opts ctx now deadline_ms metadata wait_for_ready = record ctx {
  deadline = elim deadline_ms [ none ↦ ctx.deadline | some ms ↦ some (now +ℤ ms) ];
  metadata = elim metadata [ none ↦ ctx.metadata | some md ↦ ctx.metadata ++ md ];
  wait_for_ready = wait_for_ready;
}

abbrev pub new_context : ClientContext
new_context = record { deadline = none; metadata = []; wait_for_ready = false; cancelled = false }

-- `next_id++` on a uint64_t
abbrev pub u64 : ℕ → ℕ
u64 n = n % 2 ^ 64

unfoldable pub grpc_r_client_fd : Client → Option WakeHandle
grpc_r_client_fd c = elim (get_client c) [ none ↦ none | some c ↦ some c.wake ]

unfoldable pub grpc_r_client_pending : Client → Option ℕ
grpc_r_client_pending c = elim (get_client c) [
  | none ↦ none
  | some c ↦ some (size c.calls + size c.streams)
]

-- `ctx` is the context after `apply_context_opts`.
unfoldable pub start_call_locked : ClientContext → Client → Client × ℕ
start_call_locked ctx c =
    let id = c.next_id in
    let cs : CallState = record { id = id; context = ctx } in
    (
      record c {
        next_id = u64 (id + 1);
        calls = insert id cs c.calls;
        cq = record { obj = id; kind = TagKind.unary } ∷ c.cq;
      },
      id,
    )

unfoldable pub grpc_r_call_start :
    ℤ → Option ℤ → Option MdPairs → Bool → Client → Option (Client × ℕ)
unfolding start_call_locked
grpc_r_call_start now deadline_ms metadata wait_for_ready c = elim (get_client c) [
  | none ↦ none
  | some c ↦
      some (
        start_call_locked (apply_context_opts new_context now deadline_ms metadata wait_for_ready)
          c)
]

abbrev pub cancel : ClientContext → ClientContext
cancel ctx = record ctx { cancelled = true }

abbrev pub cancel_call : CallState → CallState
cancel_call cs = record cs { context = cancel cs.context }

abbrev pub cancel_stream : StreamState → StreamState
cancel_stream s = record s { context = cancel s.context }

unfoldable pub cancel_locked : ℕ → Client → Client
cancel_locked want c = record c {
  calls = elim (find want c.calls) [
    | none ↦ c.calls
    | some cs ↦ insert want (cancel_call cs) c.calls
  ];
  streams = elim (find want c.streams) [
    | none ↦ c.streams
    | some s ↦ insert want (cancel_stream s) c.streams
  ];
}

unfoldable pub grpc_r_call_cancel : ℕ → Client → Option Client
unfolding cancel_locked
grpc_r_call_cancel want c = elim (get_client c) [
  | none ↦ none
  | some c ↦ some (cancel_locked want c)
]

-- `new stream_state()` with the context and the caps set.
abbrev pub new_stream : ℕ → ClientContext → ℤ → ℤ → StreamState
new_stream id ctx read_cap write_cap = record {
  id = id;
  context = ctx;
  rw = [];
  pending = pos 0;
  started = false;
  read_inflight = false;
  write_inflight = false;
  wdone_inflight = false;
  wdone_requested = false;
  wdone_sent = false;
  reads_closed = false;
  broken = false;
  want_finish = false;
  finish_posted = false;
  status_emitted = false;
  unread = pos 0;
  read_cap = read_cap;
  write_cap = size_t_of write_cap;
  write_queue = [];
}

unfoldable pub start_stream_locked : ClientContext → ℤ → ℤ → Client → Client × ℕ
start_stream_locked ctx read_cap write_cap c =
    let id = c.next_id in
    let s = new_stream id ctx read_cap write_cap in
    (
      record c {
        next_id = u64 (id + 1);
        streams =
            insert id (record s { pending = inc s.pending; rw = push_back s.rw RwOp.start_call })
              c.streams;
        cq = record { obj = id; kind = TagKind.start } ∷ c.cq;
      },
      id,
    )

unfoldable pub grpc_r_stream_start :
    ℤ → Option ℤ → Option MdPairs → Bool → ℤ → ℤ → Client → Option (Client × ℕ)
unfolding start_stream_locked
grpc_r_stream_start now deadline_ms metadata wait_for_ready read_cap write_cap c =
    elim (get_client c) [
      | none ↦ none
      | some c ↦ some (
          start_stream_locked
            (apply_context_opts new_context now deadline_ms metadata wait_for_ready) read_cap
            write_cap c)
    ]

-- The stream `want` goes through `f`; on a stream that is gone the answer is FALSE.
unfoldable pub on_stream : ℕ → (StreamState → Locked × Bool) → Client → Client × Bool
unfolding store_stream
on_stream want f c = elim (find want c.streams) [
  | none ↦ (c, false)
  | some s ↦ let (w, accepted) = f s in (store_stream want w c, accepted)
]

unfoldable pub grpc_r_stream_send : ℕ → Bytes → Client → Option (Client × Bool)
unfolding on_stream send_locked
grpc_r_stream_send want bytes c = elim (get_client c) [
  | none ↦ none
  | some c ↦ some (on_stream want (send_locked c.shutting bytes) c)
]

unfoldable pub grpc_r_stream_writes_done : ℕ → Client → Option (Client × Bool)
unfolding on_stream writes_done_locked
grpc_r_stream_writes_done want c = elim (get_client c) [
  | none ↦ none
  | some c ↦ some (on_stream want (writes_done_locked c.shutting) c)
]
