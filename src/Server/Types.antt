-- ===== src/Server/Types.antt =====
-- src/server.cpp: tags, events, and the state of calls and the server.
use rgrpc.Convert.{Bytes, MdPairs, ByteBuffer}
use rgrpc.Prelude.{ℕ, ℤ, Bool, true, false, Option, List, Map}
use rgrpc.Wake.{WakeHandle}

pub data Svop : Type 0 where
  accept read write done finish : Svop

-- Equality of operations.
abbrev pub svop_eq : Svop → Svop → Bool
svop_eq Svop.accept Svop.accept = true
svop_eq Svop.read Svop.read = true
svop_eq Svop.write Svop.write = true
svop_eq Svop.done Svop.done = true
svop_eq Svop.finish Svop.finish = true
svop_eq _ _ = false

-- A tag, by the address of its call.
pub record SvTag : Type 0 where
  pub call : ℕ
  pub kind : Svop

-- What the code sets on a `grpc::GenericServerContext`.
pub record ServerContext : Type 0 where
  pub cancelled : Bool
  pub trailing : MdPairs

pub record SvStatus : Type 0 where
  pub code : ℤ
  pub message : Bytes

-- A call on the reader-writer of a call.
pub data SvStreamOp : Type 0 where
  read : SvStreamOp
  write : Bytes → SvStreamOp
  write_and_finish : Bytes → SvStatus → SvStreamOp
  finish : SvStatus → SvStreamOp

pub record SvCall : Type 0 where
  pub id : ℕ
  pub ctx : ServerContext
  pub stream : List SvStreamOp  -- the calls made on it, oldest first
  pub pending : ℤ
  pub delivered : Bool
  pub replied : Bool
  pub dead : Bool
  pub read_inflight : Bool
  pub write_inflight : Bool
  pub finish_posted : Bool
  pub write_queue : List Bytes
  pub write_cap : ℕ
  pub has_final_write : Bool
  pub final_write : Bytes
  pub final_status : SvStatus

-- The `type` of an event, 0 to 4.
pub data SvEventType : Type 0 where
  request cancelled stream_msg client_done stream_writable : SvEventType

pub record SvEvent : Type 0 where
  pub kind : SvEventType
  pub id : ℕ
  pub method : Bytes
  pub request : Bytes
  pub metadata : MdPairs
  pub deadline_ms : ℤ
  pub peer : Bytes
  pub identity : List Bytes

pub record Server : Type 0 where
  pub cq : List SvTag  -- the tags of started operations that `Next` has not returned
  pub wake : WakeHandle
  pub accept_window : ℤ
  pub max_active : ℤ
  pub heap : Map SvCall  -- the calls that are not deleted, by address
  pub next_address : ℕ
  pub active : Map ℕ  -- the address of each call, by its id
  pub ready : List SvEvent
  pub accepts_outstanding : ℤ
  pub next_id : ℕ  -- uint64_t
  pub closed : Bool
  pub shutting : Bool

-- What gRPC has filled in by the time a tag comes back. `ms` is the time left until the deadline of
-- the call, and `identity` is `none` where there is no authentication context.
pub record SvFilled : Type 0 where
  pub request : ByteBuffer
  pub method : Bytes
  pub client_metadata : MdPairs
  pub ms : ℤ
  pub peer : Bytes
  pub identity : Option (List Bytes)

-- The answer of `cq->Next`.
pub record SvCompletion : Type 0 where
  pub tag : SvTag
  pub ok : Bool
  pub filled : SvFilled
