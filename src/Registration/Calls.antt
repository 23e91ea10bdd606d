-- ===== src/Registration/Calls.antt =====
-- src/init.cpp and src/stub.cpp: what R finds in the table, and what it gets without gRPC.
use Prim.Native.String.{String}
use text.Mathlib.Text.{◌==◌ as str_eq}
use text.Mathlib.TextEquality.{eq_iff}
use rgrpc.Prelude.{
  ℕ, Bool, false, ◌≡◌, refl, Bool-cases, ◌⊎◌, inl, inr, List, [], ◌∷◌, Option, none, some, ◌==◌,
  if◌then◌else◌, map,
}
use rgrpc.Registration.Table.{Routine, routines, routine_name, arity}

-- A row of `call_methods`.
pub record CallMethod : Type 0 where
  pub name : String
  pub fun : Routine
  pub num_args : ℕ

-- `RGRPC_CALLDEF`
abbrev pub calldef : Routine → CallMethod
calldef r = record { name = routine_name r; fun = r; num_args = arity r }

-- The rows before the one of nulls.
abbrev pub call_methods : List CallMethod
call_methods = map calldef routines

-- R looks a name up in the rows that `R_registerRoutines` got, and in nothing else, since
-- `R_useDynamicSymbols` is off.
unfoldable pub registered : String → List CallMethod → Option CallMethod
registered s [] = none
registered s (m ∷ ms) = if str_eq m.name s then some m else registered s ms

-- How `.Call` goes on.
pub data DotCall : Type 0 where
  not_available : DotCall  -- no such name
  wrong_arguments : DotCall  -- the wrong number of arguments
  calls : Routine → DotCall

unfoldable pub dot_call : String → ℕ → DotCall
unfolding registered
dot_call s n = elim (registered s call_methods) [
  | none ↦ DotCall.not_available
  | some m ↦ if m.num_args == n then DotCall.calls m.fun else DotCall.wrong_arguments
]

-- What a routine does in the build without gRPC.
pub data StubAnswer : Type 0 where
  logical : Bool → StubAnswer
  nil no_grpc : StubAnswer  -- NULL; the error of `no_grpc`

abbrev pub stub : Routine → StubAnswer
stub Routine.available = StubAnswer.logical false
stub Routine.library_shutdown = StubAnswer.nil
stub _ = StubAnswer.no_grpc

abbrev pub stub_of : DotCall → Option StubAnswer
stub_of (DotCall.calls r) = some (stub r)
stub_of _ = none

-- What R gets of `.Call` in that build; `none` is an error of `.Call` itself.
unfoldable pub stub_call : String → ℕ → Option StubAnswer
unfolding dot_call
stub_call s n = stub_of (dot_call s n)

-- A name that is found is the name of the routine found.
pub named :
    (s : String) (rs : List Routine)
    → (registered s (map calldef rs) ≡ none)
      ⊎ ((r : Routine) × (registered s (map calldef rs) ≡ some (calldef r)) × (routine_name r ≡ s))
unfolding registered
named s [] = inl refl
named s (r ∷ rs) = elim (Bool-cases (str_eq (routine_name r) s)) [
  | inl same ↦ inr (r, rw (same, registered) refl, (eq_iff (routine_name r) s).0 same)
  | inr other ↦ rw (other, registered) (named s rs)
]
