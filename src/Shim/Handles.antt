-- ===== src/Shim/Handles.antt =====
-- src/shim.cpp: channels, completion queues and servers behind external pointers.
use rgrpc.Convert.{Bytes}
use rgrpc.Prelude.{
  ℕ, zero, suc, ℤ, Bool, true, false, List, [], ◌∷◌, ◌++◌, Option, none, some, Map, find, insert,
  erase, if◌then◌else◌,
}

-- What is behind a pointer. Of a `spike_server`, whether `server` and `cq` are set, and the port.
pub data Object : Type 0 where
  channel : Bytes → Object
  queue : Object
  spike_server : Bool → Bool → ℤ → Object

-- The type that the finalizer of a pointer casts to.
pub data Kind : Type 0 where
  channel queue server : Kind

abbrev pub same_kind : Kind → Kind → Bool
same_kind Kind.channel Kind.channel = true
same_kind Kind.queue Kind.queue = true
same_kind Kind.server Kind.server = true
same_kind _ _ = false

-- An external pointer of R: its registered finalizer, and its address, `none` for NULL.
pub record Pointer : Type 0 where
  pub kind : Kind
  pub address : Option ℕ

-- A call on a gRPC object, or its end, by the address of the object that holds it.
pub data GrpcCall : Type 0 where
  start_server shutdown_server reset_server : ℕ → GrpcCall
  open_queue shutdown_queue reset_queue : ℕ → GrpcCall
  next : ℕ → Bool → GrpcCall
  open_channel close_channel : ℕ → GrpcCall

pub record World : Type 0 where
  pub heap : Map Object  -- the objects that are not deleted
  pub pointers : Map Pointer
  pub fresh : ℕ  -- the next address
  pub made : List GrpcCall  -- the calls, oldest first

abbrev pub object_kind : Object → Kind
object_kind (Object.channel target) = Kind.channel
object_kind Object.queue = Kind.queue
object_kind (Object.spike_server has_server has_cq bound) = Kind.server

-- `new`
abbrev pub place : Object → List GrpcCall → World → World
place o calls w = record w {
  heap = insert w.fresh o w.heap;
  fresh = suc w.fresh;
  made = w.made ++ calls;
}

-- `delete`
abbrev pub delete_object : ℕ → List GrpcCall → World → World
delete_object a calls w = record w { heap = erase a w.heap; made = w.made ++ calls }

-- `R_MakeExternalPtr`, `R_RegisterCFinalizerEx`: the pointer, by its address in R's memory.
abbrev pub point_at : Kind → ℕ → World → World
point_at kind a w = record w {
  pointers = insert a (record { kind = kind; address = some a }) w.pointers;
}

-- `R_ClearExternalPtr`
abbrev pub clear_pointer : Kind → ℕ → World → World
clear_pointer kind xp w = record w {
  pointers = insert xp (record { kind = kind; address = none }) w.pointers;
}

-- `while (cq->Next(&tag, &ok)) { }` on a queue that is shut down and holds `n` more tags.
abbrev pub next_loop : ℕ → ℕ → List GrpcCall
next_loop a zero = GrpcCall.next a false ∷ []
next_loop a (suc n) = GrpcCall.next a true ∷ next_loop a n

unfoldable pub grpc_r_channel_create : Bytes → World → ℕ × World
grpc_r_channel_create target w = (
  w.fresh,
  point_at Kind.channel w.fresh
      (place (Object.channel target) (GrpcCall.open_channel w.fresh ∷ []) w),
)

unfoldable pub grpc_r_cq_create : World → ℕ × World
grpc_r_cq_create w =
    (w.fresh, point_at Kind.queue w.fresh (place Object.queue (GrpcCall.open_queue w.fresh ∷ []) w))

-- `started` says whether `BuildAndStart` gives a server, and `bound` is the port it sets. The answer
-- `none` is an R error.
unfoldable pub grpc_r_server_create : Bool → ℤ → World → Option ℕ × World
grpc_r_server_create started bound w =
    let a = w.fresh in
    let built = place (Object.spike_server started true bound) (GrpcCall.open_queue a ∷ []) w in
    if started
    then (
      some a,
      point_at Kind.server a (record built { made = built.made ++ GrpcCall.start_server a ∷ [] }),
    )
    else (none, delete_object a (GrpcCall.reset_queue a ∷ []) built)

-- What `server_finalizer` calls before it deletes the object.
abbrev pub stop_server : Bool → Bool → ℕ → ℕ → List GrpcCall
stop_server has_server has_cq a n =
    let reset_cq = if has_cq then GrpcCall.reset_queue a ∷ [] else [] in
    let resets = if has_server then GrpcCall.reset_server a ∷ reset_cq else reset_cq in
    let drains = if has_cq then GrpcCall.shutdown_queue a ∷ next_loop a n ++ resets else resets in
    if has_server then GrpcCall.shutdown_server a ∷ drains else drains

-- What each finalizer calls on the object that it casts its pointer to, which is at `a` and whose queue
-- holds `n` more tags.
unfoldable pub teardown : Object → ℕ → ℕ → List GrpcCall
teardown (Object.channel target) a n = GrpcCall.close_channel a ∷ []
teardown Object.queue a n = GrpcCall.shutdown_queue a ∷ next_loop a n ++ GrpcCall.reset_queue a ∷ []
teardown (Object.spike_server has_server has_cq bound) a n = stop_server has_server has_cq a n

-- `channel_finalizer`, `cq_finalizer` and `server_finalizer`; `none` is a use of an object that is not
-- there or has another type.
unfoldable pub finalizer : Kind → ℕ → ℕ → World → Option World
unfolding teardown
finalizer kind xp n w = elim (find xp w.pointers) [
  | none ↦ none
  | some p ↦ elim p.address [
    | none ↦ some w
    | some a ↦ elim (find a w.heap) [
      | none ↦ none
      | some o ↦
          if same_kind (object_kind o) kind
          then some (clear_pointer p.kind xp (delete_object a (teardown o a n) w))
          else none
    ]
  ]
]

unfoldable pub grpc_r_channel_destroy : ℕ → World → Option World
unfolding finalizer
grpc_r_channel_destroy xp w = finalizer Kind.channel xp 0 w

unfoldable pub grpc_r_cq_destroy : ℕ → ℕ → World → Option World
unfolding finalizer
grpc_r_cq_destroy xp n w = finalizer Kind.queue xp n w

unfoldable pub grpc_r_server_destroy : ℕ → ℕ → World → Option World
unfolding finalizer
grpc_r_server_destroy xp n w = finalizer Kind.server xp n w

-- The port of a server.
pub data PortAnswer : Type 0 where
  port : ℤ → PortAnswer
  already_destroyed : PortAnswer
  fault : PortAnswer  -- the object is not there or has another type

unfoldable pub grpc_r_server_port : ℕ → World → PortAnswer
grpc_r_server_port xp w = elim (find xp w.pointers) [
  | none ↦ PortAnswer.fault
  | some p ↦ elim p.address [
    | none ↦ PortAnswer.already_destroyed
    | some a ↦ elim (find a w.heap) [
      | some (Object.spike_server has_server has_cq bound) ↦ PortAnswer.port bound
      | _ ↦ PortAnswer.fault
    ]
  ]
]
