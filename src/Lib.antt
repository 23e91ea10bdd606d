-- ===== src/Lib.antt =====
-- rgrpc gives R an asynchronous gRPC client and server. Each is a C++ object with one background
-- thread, which takes the tags of finished operations off a gRPC completion queue, and the entry points
-- that R calls; a mutex orders the two. Events pass from the thread to R through the deque `ready` and a
-- self-pipe whose read end R polls.
--
-- How the source is read. A critical section, the code that runs under one lock of the mutex, is a
-- function from the client or the server to itself. The completion queue is the list of the tags that
-- are outstanding: posting an operation adds its tag, and `Next` takes any outstanding tag off it,
-- with a result `ok` and with what gRPC has filled in (a buffer, a status, metadata) as arguments.
-- gRPC itself, R's allocator and `pipe` are arguments too. An R error is `none`. A call of the server
-- has an address from `new` on and an id once it is accepted; the client's calls and streams have
-- their id from the start, and it stands for the address. A tag that comes back after its object was
-- deleted is `none` as well, so that such an access shows.
--
-- The files:
--   Prelude (Tests, Int, Lists, Dict)  the tests, machine integers, lists and maps that all files share
--   Convert   src/common.h: a ByteBuffer as bytes, by appending slices and by memcpy into a raw vector
--   Wake      src/wake.h: wake_open, wake_signal, wake_drain and wake_close on a pipe
--     Protocol              what a signal and a drain of the pipe do
--     Windows, Balance      the socket pair, with the bytes in transit between its ends, and the startups
--                           and sockets that it holds of Winsock
--   Client    src/client.cpp, by these modules
--     Types       the enums and structs
--     Stream      the s_*_locked helpers, the cases of the switch in `run`, and what stream_send,
--                 stream_writes_done and poll do to the stream that they find
--     Completion  one round of the loop in `run`
--     Api         the entry points that R calls
--     Poll        grpc_r_client_poll: the wait, the loop that takes events, and (Call) the whole call
--     Lifecycle   the creation of a client, and client_shutdown
--     Frame, Invariant  what each critical section changes, and the invariant
--     Readiness   the descriptor and `ready`
--     Adding      what a round adds to `ready`
--     Life        one stream with the messages that its sends have accepted
--     System      the critical sections as steps, what holds in every client they can reach, the
--                 entry points as such steps, a poll among the rounds of the thread (Seen, Waits, Polls),
--                 the close of the pointer that R holds (Closing), and what is left of a stream
--                 that has ended (Ending, Gone, Finality)
--   Server    src/server.cpp, by these modules
--     Types       the enums and structs
--     Call        pump_locked, the cases of the switch in `run`, and what reply, read, cancel, send and
--                 finish do to the call that they find
--     Round       post_accepts_locked, maybe_free_locked, and one round of the loop in `run`
--     Api, Poll, Lifecycle  the entry points; grpc_r_server2_poll; creation and rserver_shutdown
--     Adding, Owning  what a round adds to `ready`, and of which call its events are
--     Discipline, Requests  the flags of one call and its outstanding tags
--     Frame, Invariant, Freeing, Slots, Completions, Rounds, Asking  the invariant of the server, with
--                 the delete of a call, the accept loop, the cases of the switch and the requests
--     Batch       what a poll returns
--     Life        one call with the operations on its stream, in order
--     System      the critical sections as steps, and the rest as for the client; Refill: the window
--                 after a round; Shrinking: what a shutdown uses up
--   Marshal   src/common.h and the ends of the two polls: metadata and events as R values, with the
--             reader that gets them back (Values, Readers, ClientEvents, ClientBatch, ServerEvents,
--             ServerBatch)
--   Channel   grpc_r_client_create and grpc_r_server2_create: credentials and channel arguments, as the
--             calls that set them (Arguments, Creation, Agreement)
--   Shim      src/shim.cpp: channels, queues and servers behind external pointers (Handles), the order of
--             the calls on them (Contract), what pointers own (Ownership, Lifetimes), and the
--             initialization of gRPC (Library)
--   Registration  src/routines.h, src/init.cpp, src/stub.cpp: the table of routines (Table), and what
--             `.Call` finds in it with and without gRPC (Calls), and what the R code passes (Callers)
--   Interop   tools/interop/cpp_common.h, cpp_server.cc, cpp_client.cc: the C++ peers (Common, Server,
--             Client), how methods are told apart (Suffix), the server's loop (Serving), the stream
--             between the two (Streaming) and the client's exit code (Passing)
--   Tests     a client with one stream, a server with one call, pointers, handles and peers, and the
--             theorems at them
--
-- Numbers. `int` counters (`pending`, `unread`, `accepts_outstanding`) and what R passes as an int are
-- integers. `write_cap` is the size_t that the cast of an int gives, with its wrap-around. `next_id` wraps
-- at 2^64, and the steps that draw an id ask for fewer than 2^64 calls. The loop of `post_accepts_locked`
-- takes one place of the window in each round, so accept_window rounds are enough. `wake_drain` reads at
-- least one byte in each round that goes on, so the number of bytes and one more is enough fuel. The
-- rounds of the wait in `poll` are given as a list. An id becomes a double with 53 bits, rounded to even.
-- The loop of the C++ peer takes an answer of its queue in each round, so their number and one is enough.
--
-- The done tag of a server call is outstanding from the moment the call is accepted, which is when gRPC
-- makes AsyncNotifyWhenDone live.
--
-- Parameters. protobuf's parse and serialize are arguments of the peers, with what they need of them as
-- a hypothesis. What a queue returns, in which order and with which result, is an argument everywhere.
--
-- What is not modelled: the connectivity state and the port, which gRPC computes; the conversion of R's
-- arguments (coercion of numbers, translation of strings to UTF-8); strings of more than 2^31 bytes; the
-- R code, but for the symbols and the numbers of arguments of its calls; and the tests and scripts.
pub mod Prelude
pub mod Convert
pub mod Wake
pub mod Client
pub mod Server
pub mod Marshal
pub mod Shim
pub mod Registration
pub mod Channel
pub mod Interop
mod Tests
