-- ===== src/Server/Api.antt =====
-- src/server.cpp: the entry points that R calls, but for poll, create and close. `none` is an R error.
use rgrpc.Convert.{Bytes, MdPairs}
use rgrpc.Prelude.{
  ℕ, ℤ, is_zero, Bool, true, false, not, ◌&&◌, ◌||◌, [], Option, none, some, if◌then◌else◌, find,
  size,
}
use rgrpc.Wake.{WakeHandle}
use rgrpc.Server.Types.{SvCall, Server}
use rgrpc.Server.Call.{
  CallLocked, reply_locked, read_locked, try_cancel_locked, sv_send_locked, finish_locked,
}
use rgrpc.Server.Round.{store_call}

abbrev pub get_server : Server → Option Server
get_server s = if s.closed then none else some s

unfoldable pub grpc_r_server2_fd : Server → Option WakeHandle
grpc_r_server2_fd s = elim (get_server s) [ none ↦ none | some s ↦ some s.wake ]

unfoldable pub grpc_r_server2_pending : Server → Option ℕ
grpc_r_server2_pending s = elim (get_server s) [ none ↦ none | some s ↦ some (size s.active) ]

-- The call `want` goes through `f`; on a call that is not active the answer is FALSE, and on an
-- address that is not of a call it is `none`.
unfoldable pub on_call : ℕ → (SvCall → CallLocked × Bool) → Server → Option (Server × Bool)
unfolding store_call
on_call want f s = elim (find want s.active) [
  | none ↦ some (s, false)
  | some address ↦ elim (find address s.heap) [
    | none ↦ none
    | some c ↦ let (w, accepted) = f c in some (store_call address w s, accepted)
  ]
]

abbrev pub is_none {ℓ} : {A : Type ℓ} → Option A → Bool
is_none none = true
is_none (some a) = false

abbrev pub bytes_or_empty : Option Bytes → Bytes
bytes_or_empty none = []
bytes_or_empty (some b) = b

-- `response` is `none` unless it is a raw vector, `message` unless it is a character vector, and
-- `metadata` is `none` for NULL.
unfoldable pub grpc_r_server2_reply :
    ℕ → Option Bytes → ℤ → Option Bytes → Option MdPairs → Server → Option (Server × Bool)
unfolding on_call reply_locked
grpc_r_server2_reply want response code message metadata s = elim (get_server s) [
  | none ↦ none
  | some s ↦
      if is_zero code && is_none response || not (is_zero code) && is_none message
      then none
      else on_call want
          (reply_locked s.shutting (bytes_or_empty response) code (bytes_or_empty message) metadata)
          s
]

unfoldable pub grpc_r_server2_read : ℕ → Server → Option (Server × Bool)
unfolding on_call read_locked
grpc_r_server2_read want s = elim (get_server s) [
  | none ↦ none
  | some s ↦ on_call want read_locked s
]

unfoldable pub grpc_r_server2_cancel : ℕ → Server → Option (Server × Bool)
unfolding on_call try_cancel_locked
grpc_r_server2_cancel want s = elim (get_server s) [
  | none ↦ none
  | some s ↦ on_call want try_cancel_locked s
]

unfoldable pub grpc_r_server2_send : ℕ → Bytes → Server → Option (Server × Bool)
unfolding on_call sv_send_locked
grpc_r_server2_send want bytes s = elim (get_server s) [
  | none ↦ none
  | some s ↦ on_call want (sv_send_locked s.shutting bytes) s
]

unfoldable pub grpc_r_server2_finish :
    ℕ → ℤ → Option Bytes → Option MdPairs → Bool → Server → Option (Server × Bool)
unfolding on_call finish_locked
grpc_r_server2_finish want code message metadata drain s = elim (get_server s) [
  | none ↦ none
  | some s ↦
      if not (is_zero code) && is_none message
      then none
      else on_call want (finish_locked s.shutting code (bytes_or_empty message) metadata drain) s
]
