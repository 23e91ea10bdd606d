-- ===== src/Wake/Protocol.antt =====
-- src/wake.h: a drain and a signal, by whether the pipe is readable.
use rgrpc.Prelude.{ℕ, zero, suc, ◌-◌, ◌<◌, min, ◌≡◌, true, false, arith}
use rgrpc.Wake.{WakeHandle, drain_loop, wake_drain, wake_signal, is_readable}

-- Enough reads empty the pipe; each takes at least one byte.
pub drain_loop-eq-zero : (fuel bytes : ℕ) → bytes < fuel → drain_loop fuel bytes ≡ 0
unfolding drain_loop
drain_loop-eq-zero zero bytes h = elim h [ ]
drain_loop-eq-zero (suc fuel) zero h = ground arith
drain_loop-eq-zero (suc fuel) (suc bytes) h =
    ground (arith, drain_loop-eq-zero fuel (suc bytes - min 256 (suc bytes)))

pub wake_drain_lem :
    (h : WakeHandle) → (is_readable (wake_drain h) ≡ false) × ((wake_drain h).capacity ≡ h.capacity)
unfolding wake_drain is_readable
wake_drain_lem h = ground (arith, drain_loop-eq-zero (suc h.bytes) h.bytes)

pub wake_signal_lem :
    (h : WakeHandle)
    → 0 < h.capacity
    → (is_readable (wake_signal h) ≡ true) × ((wake_signal h).capacity ≡ h.capacity)
unfolding wake_signal is_readable
wake_signal_lem h room = ground arith
