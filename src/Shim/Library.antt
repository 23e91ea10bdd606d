-- ===== src/Shim/Library.antt =====
-- src/shim.cpp: gRPC's initialization for the life of the DLL.
use rgrpc.Prelude.{
  ℕ, zero, suc, ◌+◌, Bool, true, false, bit, ◌≡◌, refl, Option, none, some, arith, if◌then◌else◌,
  Bool-cases, inl, inr,
}

-- `users` is gRPC's count of `grpc_init` less `grpc_shutdown`; it is up while that is not 0. `objects` of
-- these belong to channels, queues and servers.
pub record Library : Type 0 where
  pub users : ℕ
  pub objects : ℕ
  pub library_up : Bool

unfoldable pub grpc_r_library_init : Library → Library
grpc_r_library_init l = record l { users = suc l.users; library_up = true }

-- `none` is a `grpc_shutdown_blocking` that no `grpc_init` matches.
unfoldable pub grpc_r_library_shutdown : Library → Option Library
grpc_r_library_shutdown l =
    if l.library_up
    then (elim l.users [ zero ↦ none | suc n ↦ some (record l { users = n; library_up = false }) ])
    else some l

-- `R_init_rgrpc` runs when the DLL is loaded, which starts with `library_up` false. The shutdown runs from
-- the finalizer at exit, from `R_unload_rgrpc`, or as a routine. Objects come and go meanwhile.
pub data LibraryStep (l : Library) : Library → Type 0 where
  loads : l.library_up ≡ false → LibraryStep l (grpc_r_library_init l)
  shuts_down : (d : Library) → grpc_r_library_shutdown l ≡ some d → LibraryStep l d
  opens : LibraryStep l (record l { users = suc l.users; objects = suc l.objects })
  closes :
      (users objects : ℕ)
      → l.users ≡ suc users
      → l.objects ≡ suc objects
      → LibraryStep l (record l { users = users; objects = objects })

pub data LibraryReach : Library → Type 0 where
  unloaded : LibraryReach (record { users = 0; objects = 0; library_up = false })
  later : {l d : Library} → LibraryReach l → LibraryStep l d → LibraryReach d

counted : {l : Library} → LibraryReach l → l.users ≡ l.objects + bit l.library_up
unfolding grpc_r_library_init grpc_r_library_shutdown
counted unloaded = refl
counted (later {l} r (loads down)) = ground (arith, counted r, down)
counted (later {l} r (shuts_down d done)) = ground (arith, counted r, done)
counted (later {l} r opens) = omega (arith, counted r)
counted (later {l} r (closes users objects one another)) = omega (arith, counted r, one, another)

-- However often the DLL is loaded, shut down and unloaded, and whatever objects come and go, gRPC has one
-- user for each object and one for `library_up`: while the library is up, gRPC is, with no object
-- left too. A shutdown always has its initialization; it leaves the users that objects are; and
-- a second one does nothing.
pub library_counts :
    {l : Library}
    → LibraryReach l
    → (l.users ≡ l.objects + bit l.library_up)
      × (d : Library) × (grpc_r_library_shutdown l ≡ some d)
      × (d.users ≡ l.objects)
      × (grpc_r_library_shutdown d ≡ some d)
unfolding grpc_r_library_shutdown
library_counts {l} r = elim (Bool-cases l.library_up) [
  | inr down ↦ (
    counted r,
    l,
    rw (down, grpc_r_library_shutdown) refl,
    ground (arith, counted r, down),
    rw (down, grpc_r_library_shutdown) refl,
  )
  | inl up ↦ (
    counted r,
    record l { users = l.objects; library_up = false },
    ground (arith, counted r, up),
    refl,
    refl,
  )
]
