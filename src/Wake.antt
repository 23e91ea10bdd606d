-- ===== src/Wake.antt =====
-- src/wake.h: the self-pipe behind the descriptor that R polls.
pub mod Protocol
pub mod Windows
pub mod Balance
use rgrpc.Prelude.{ℕ, zero, suc, ◌+◌, ◌-◌, min, Bool, true, false, ◌==◌, ltb, if◌then◌else◌}

-- What the descriptors name: whether both ends are open, the bytes that the pipe holds, and how
-- many it can hold.
pub record WakeHandle : Type 0 where
  pub is_open : Bool
  pub bytes : ℕ
  pub capacity : ℕ

-- A handle before `wake_open`: both descriptors are -1.
abbrev pub no_handle : WakeHandle
no_handle = record { is_open = false; bytes = 0; capacity = 0 }

-- `pipe_ok` and `capacity` are the answer of `pipe(2)`.
unfoldable pub wake_open : Bool → ℕ → WakeHandle → Bool × WakeHandle
wake_open pipe_ok capacity h =
    if pipe_ok
    then (true, record { is_open = true; bytes = 0; capacity = capacity })
    else (false, h)

-- A write of one byte, which a full pipe refuses with EAGAIN.
unfoldable pub wake_signal : WakeHandle → WakeHandle
wake_signal h = if ltb h.bytes h.capacity then record h { bytes = h.bytes + 1 } else h

-- `while (read(h.r, buf, sizeof buf) > 0)`: each read takes up to 256 of the bytes left.
unfoldable pub drain_loop : ℕ → ℕ → ℕ
drain_loop zero bytes = bytes
drain_loop (suc fuel) bytes =
    let rest = drain_loop fuel (bytes - min 256 bytes) in if min 256 bytes == 0 then bytes else rest

unfoldable pub wake_drain : WakeHandle → WakeHandle
unfolding drain_loop
wake_drain h = record h { bytes = drain_loop (suc h.bytes) h.bytes }

-- What `poll` on the read end answers without waiting.
unfoldable pub is_readable : WakeHandle → Bool
is_readable h = ltb 0 h.bytes

unfoldable pub wake_close : WakeHandle → WakeHandle
wake_close h = no_handle
