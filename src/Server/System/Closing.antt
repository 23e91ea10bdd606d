-- ===== src/Server/System/Closing.antt =====
-- src/server.cpp: the external pointer of a server, which R closes or the garbage collector finalizes.
use rgrpc.Prelude.{ℕ, List, Option, none, some, Map, find, insert, erase}
use rgrpc.Server.Types.{Server, SvCompletion}
use rgrpc.Server.Lifecycle.{rserver_shutdown}
use rgrpc.Server.System.Entries.{SvEntry, sv_enters}

-- The address that the pointer holds, `none` for NULL, and the servers that are not deleted.
pub record ServerPointer : Type 0 where
  pub xp : Option ℕ
  pub servers : Map Server

-- The finalizer; `rest` is what the completion thread still takes off the queue. `none` is a use of
-- a deleted server, or of the call behind a tag.
unfoldable pub rserver_finalizer : List SvCompletion → ServerPointer → Option ServerPointer
unfolding rserver_shutdown
rserver_finalizer rest p = elim p.xp [
  | none ↦ some p
  | some a ↦ elim (find a p.servers) [
    | none ↦ none
    | some c ↦ elim (rserver_shutdown rest c) [
      | none ↦ none
      | some d ↦ some (record { xp = none; servers = erase a p.servers })
    ]
  ]
]

unfoldable pub grpc_r_server2_close : List SvCompletion → ServerPointer → Option ServerPointer
unfolding rserver_finalizer
grpc_r_server2_close rest p = rserver_finalizer rest p

-- How a call of R on the pointer goes on.
pub data SvCalled : Type 0 where
  refused : SvCalled  -- an R error, such as "grpc server is closed"
  fault : SvCalled  -- the address is of a deleted server
  left : ServerPointer → SvCalled

-- An entry point, which gets its server by `get_server` on the pointer.
abbrev pub sv_call_entry : SvEntry → ServerPointer → SvCalled
sv_call_entry q p = elim p.xp [
  | none ↦ SvCalled.refused
  | some a ↦ elim (find a p.servers) [
    | none ↦ SvCalled.fault
    | some c ↦ elim (sv_enters q c) [
      | none ↦ SvCalled.refused
      | some (d, accepted) ↦ SvCalled.left (record p { servers = insert a d p.servers })
    ]
  ]
]
