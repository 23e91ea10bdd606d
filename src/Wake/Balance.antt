-- ===== src/Wake/Balance.antt =====
-- src/wake.h: what the Windows handle leaves open.
use rgrpc.Prelude.{ℕ, suc, ◌≤◌, ◌<◌, true, false, ◌≡◌, ◌≢◌, refl, ◌⊎◌, List, [], ◌∷◌, some, arith}
use rgrpc.Wake.Windows.{Winsock, invalid_handle, Answers, remove_socket, win_open, win_close}

-- The sockets that are open are older than the next one.
abbrev pub AllBelow : ℕ → List ℕ → Type 0
AllBelow n [] = Unit {0}
AllBelow n (a ∷ l) = (a < n) × AllBelow n l

remove_socket-unused : (n a : ℕ) (l : List ℕ) → AllBelow n l → n ≤ a → remove_socket a l ≡ l
remove_socket-unused n a [] h le = refl
remove_socket-unused n a (b ∷ l) h le = ground (arith, remove_socket-unused n a l h.1 le, h.0, le)

-- `wake_open` on Windows keeps no socket and no startup of Winsock when it fails, whatever call it was
-- that failed, and leaves the handle as it was. When it succeeds it keeps one startup and the two sockets
-- of the handle, which `wake_close` then gives back; a second `wake_close` changes nothing.
pub win_open_balances :
    (a : Answers) (s : Winsock)
    → AllBelow s.fresh s.sockets
    → let (ok, h, t) = win_open a invalid_handle s in
      let (closed, u) = win_close h t in
      ((ok ≡ false) × (h ≡ invalid_handle) × (t.sockets ≡ s.sockets) × (t.startups ≡ s.startups))
      ⊎ ((ok ≡ true)
          × ((r : ℕ) × (w : ℕ) × (h.r ≡ some r)
              × (h.w ≡ some w)
              × (r ≢ w)
              × (t.sockets ≡ r ∷ w ∷ s.sockets))
          × (t.startups ≡ suc s.startups)
          × (u.sockets ≡ s.sockets)
          × (u.startups ≡ s.startups)
          × (win_close closed u ≡ (closed, u)))
unfolding win_open win_close
win_open_balances a s below = ground (
  arith,
  remove_socket-unused s.fresh s.fresh s.sockets below (omega arith),
  remove_socket-unused s.fresh (suc s.fresh) s.sockets below (omega arith),
  remove_socket-unused s.fresh (suc (suc s.fresh)) s.sockets below (omega arith),
)
