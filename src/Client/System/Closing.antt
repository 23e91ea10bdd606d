-- ===== src/Client/System/Closing.antt =====
-- src/client.cpp: the external pointer of a client, which R closes or the garbage collector finalizes.
use rgrpc.Prelude.{ℕ, List, Option, none, some, Map, find, insert, erase}
use rgrpc.Client.Types.{Client, Completion}
use rgrpc.Client.Lifecycle.{client_shutdown}
use rgrpc.Client.System.Entries.{Entry, enters}

-- The address that the pointer holds, `none` for NULL, and the clients that are not deleted.
pub record ClientPointer : Type 0 where
  pub xp : Option ℕ
  pub clients : Map Client

-- The finalizer; `rest` is what the completion thread still takes off the queue. `none` is a use of
-- a deleted client, or of the object behind a tag.
unfoldable pub client_finalizer : List Completion → ClientPointer → Option ClientPointer
unfolding client_shutdown
client_finalizer rest p = elim p.xp [
  | none ↦ some p
  | some a ↦ elim (find a p.clients) [
    | none ↦ none
    | some c ↦ elim (client_shutdown rest c) [
      | none ↦ none
      | some d ↦ some (record { xp = none; clients = erase a p.clients })
    ]
  ]
]

unfoldable pub grpc_r_client_close : List Completion → ClientPointer → Option ClientPointer
unfolding client_finalizer
grpc_r_client_close rest p = client_finalizer rest p

-- How a call of R on the pointer goes on.
pub data Called : Type 0 where
  refused : Called  -- an R error, such as "grpc client is closed"
  fault : Called  -- the address is of a deleted client
  left : ClientPointer → Called

-- An entry point, which gets its client by `get_client` on the pointer.
abbrev pub call_entry : Entry → ClientPointer → Called
call_entry q p = elim p.xp [
  | none ↦ Called.refused
  | some a ↦ elim (find a p.clients) [
    | none ↦ Called.fault
    | some c ↦ elim (enters q c) [
      | none ↦ Called.refused
      | some d ↦ Called.left (record p { clients = insert a d p.clients })
    ]
  ]
]
