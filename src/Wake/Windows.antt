-- ===== src/Wake/Windows.antt =====
-- src/wake.h: the socket pair that stands for the pipe on Windows.
use rgrpc.Prelude.{
  min, ℕ, suc, ◌+◌, ◌-◌, Bool, true, false, ◌&&◌, List, [], ◌∷◌, Option, none, some, ◌==◌, ltb,
  if◌then◌else◌, not,
}
use rgrpc.Wake.{drain_loop}

-- What Winsock keeps for the process: how often it is started up, and the sockets that are not closed.
pub record Winsock : Type 0 where
  pub startups : ℕ
  pub sockets : List ℕ
  pub fresh : ℕ  -- the next socket

-- Both ends, `none` for INVALID_SOCKET; the bytes that have arrived at the one to read, those still in
-- transit, and how many the connection can hold.
pub record WinHandle : Type 0 where
  pub r : Option ℕ
  pub w : Option ℕ
  pub bytes : ℕ
  pub in_transit : ℕ
  pub capacity : ℕ

abbrev pub invalid_handle : WinHandle
invalid_handle = record { r = none; w = none; bytes = 0; in_transit = 0; capacity = 0 }

-- The answers of Winsock to the calls of `wake_open`.
pub record Answers : Type 0 where
  pub started : Bool
  pub listener : Bool
  pub bound : Bool
  pub listening : Bool
  pub named : Bool
  pub w : Bool
  pub connected : Bool
  pub r : Bool
  pub capacity : ℕ

-- `socket`, `accept`
abbrev pub new_socket : Bool → Winsock → Option ℕ × Winsock
new_socket true s = (some s.fresh, record s { sockets = s.fresh ∷ s.sockets; fresh = suc s.fresh })
new_socket false s = (none, s)

abbrev pub remove_socket : ℕ → List ℕ → List ℕ
remove_socket a [] = []
remove_socket a (b ∷ l) = if a == b then remove_socket a l else b ∷ remove_socket a l

-- `if (s != INVALID_SOCKET) closesocket(s)`
abbrev pub close_valid : Option ℕ → Winsock → Winsock
close_valid none s = s
close_valid (some a) s = record s { sockets = remove_socket a s.sockets }

-- `WSACleanup`
abbrev pub cleanup : Winsock → Winsock
cleanup s = record s { startups = s.startups - 1 }

abbrev pub is_valid : Option ℕ → Bool
is_valid none = false
is_valid (some a) = true

-- The last of the three sockets, made only when all before it went well.
abbrev pub accept_one : Answers → Option ℕ → Winsock → Option ℕ × Winsock
accept_one a w s = if is_valid w && a.connected then new_socket a.r s else (none, s)

-- The socket to write to, made only when the listener is set up.
abbrev pub connect_one : Answers → Option ℕ → Winsock → Option ℕ × Winsock
connect_one a listener s =
    if is_valid listener && a.bound && a.listening && a.named then new_socket a.w s else (none, s)

-- What follows `ok`: the listener is closed, and `w` if there is no `r`.
abbrev pub finish_open :
    Answers → Option ℕ → Option ℕ → Option ℕ → WinHandle → Winsock → Bool × WinHandle × Winsock
finish_open a listener w r h s =
    if is_valid r
    then (
      true,
      record { r = r; w = w; bytes = 0; in_transit = 0; capacity = a.capacity },
      close_valid listener s,
    )
    else (false, h, cleanup (close_valid w (close_valid listener s)))

unfoldable pub win_open : Answers → WinHandle → Winsock → Bool × WinHandle × Winsock
win_open a h s0 =
    if a.started
    then (let s1 = record s0 { startups = suc s0.startups } in
        let (listener, s2) = new_socket a.listener s1 in
        let (w, s3) = connect_one a listener s2 in
        let (r, s4) = accept_one a w s3 in finish_open a listener w r h s4)
    else (false, h, s0)

-- TCP delivers up to `n` of the bytes in transit.
abbrev pub arrive : ℕ → WinHandle → WinHandle
arrive n h = record h { bytes = h.bytes + min n h.in_transit; in_transit = h.in_transit - n }

-- `send` of one byte, which a full connection refuses with WSAEWOULDBLOCK. It may not arrive at once.
unfoldable pub win_signal : WinHandle → WinHandle
win_signal h =
    if ltb (h.bytes + h.in_transit) h.capacity
    then record h { in_transit = h.in_transit + 1 }
    else h

-- `while (recv(h.r, buf, sizeof buf, 0) > 0)`, which also reads the `late` bytes that arrive meanwhile;
-- what is still in transit stays.
unfoldable pub win_drain : ℕ → WinHandle → WinHandle
unfolding drain_loop
win_drain late h = let g = arrive late h in record g { bytes = drain_loop (suc g.bytes) g.bytes }

-- What `WSAPoll` on the read end answers without waiting.
unfoldable pub is_win_readable : WinHandle → Bool
is_win_readable h = ltb 0 h.bytes

unfoldable pub win_close : WinHandle → Winsock → WinHandle × Winsock
win_close h s =
    if not (is_valid h.r) && not (is_valid h.w)
    then (h, s)
    else (record h { r = none; w = none }, cleanup (close_valid h.w (close_valid h.r s)))
