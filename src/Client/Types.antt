-- ===== src/Client/Types.antt =====
-- src/client.cpp: tags, events, and the state of calls, streams and the client.
use rgrpc.Convert.{Bytes, MdPairs, ByteBuffer}
use rgrpc.Prelude.{ℕ, ℤ, Bool, true, false, Option, List, Map}
use rgrpc.Wake.{WakeHandle}

-- `tag_kind`
pub data TagKind : Type 0 where
  unary start read write wdone finish : TagKind

-- `ev_kind`
pub data EvKind : Type 0 where
  unary smsg writable status : EvKind

-- Equality of tag kinds.
abbrev pub kind_eq : TagKind → TagKind → Bool
kind_eq TagKind.unary TagKind.unary = true
kind_eq TagKind.start TagKind.start = true
kind_eq TagKind.read TagKind.read = true
kind_eq TagKind.write TagKind.write = true
kind_eq TagKind.wdone TagKind.wdone = true
kind_eq TagKind.finish TagKind.finish = true
kind_eq _ _ = false

-- `ev.kind == EV_SMSG`
abbrev pub is_smsg : EvKind → Bool
is_smsg EvKind.smsg = true
is_smsg _ = false

-- A tag. Calls and streams draw their ids from one counter and stand in `calls` or `streams` from
-- their creation until they are deleted, so the id is the address of the object.
pub record Ctag : Type 0 where
  pub obj : ℕ
  pub kind : TagKind

pub record ClEvent : Type 0 where
  pub kind : EvKind
  pub id : ℕ
  pub status : ℕ
  pub message : Bytes
  pub has_bytes : Bool
  pub bytes : Bytes
  pub initial_md : MdPairs
  pub trailing_md : MdPairs

-- What the code sets on a `grpc::ClientContext`.
pub record ClientContext : Type 0 where
  pub deadline : Option ℤ
  pub metadata : MdPairs
  pub wait_for_ready : Bool
  pub cancelled : Bool

pub record CallState : Type 0 where
  pub id : ℕ
  pub context : ClientContext

-- A call on the stream's reader-writer.
pub data RwOp : Type 0 where
  start_call read writes_done finish : RwOp
  write : Bytes → RwOp

pub record StreamState : Type 0 where
  pub id : ℕ
  pub context : ClientContext
  pub rw : List RwOp  -- the calls made on it, oldest first
  pub pending : ℤ
  pub started : Bool
  pub read_inflight : Bool
  pub write_inflight : Bool
  pub wdone_inflight : Bool
  pub wdone_requested : Bool
  pub wdone_sent : Bool
  pub reads_closed : Bool
  pub broken : Bool
  pub want_finish : Bool
  pub finish_posted : Bool
  pub status_emitted : Bool
  pub unread : ℤ
  pub read_cap : ℤ
  pub write_cap : ℕ  -- size_t
  pub write_queue : List Bytes

pub record Client : Type 0 where
  pub cq : List Ctag  -- the tags of the operations started on it that `Next` has not returned
  pub wake : WakeHandle
  pub calls : Map CallState
  pub streams : Map StreamState
  pub ready : List ClEvent
  pub next_id : ℕ  -- uint64_t
  pub closed : Bool
  pub shutting : Bool

-- What gRPC has filled in by the time a tag comes back: the buffer that was read, the status, and
-- the server's metadata.
pub record Filled : Type 0 where
  pub buffer : ByteBuffer
  pub error_code : ℕ
  pub error_message : Bytes
  pub initial_md : MdPairs
  pub trailing_md : MdPairs

-- The answer of `cq.Next`.
pub record Completion : Type 0 where
  pub tag : Ctag
  pub ok : Bool
  pub filled : Filled
