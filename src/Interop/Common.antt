-- ===== src/Interop/Common.antt =====
-- tools/interop/cpp_common.h, and what the two peers share.
use Prim.Native.Char.{code}
use Prim.Native.String.{String, [] as no_text, ◌∷◌ as then_char}
use rgrpc.Convert.{Bytes, ByteBuffer, append_slices}
use rgrpc.Prelude.{
  ℕ, zero, suc, ◌+◌, ◌/◌, ◌%◌, ℤ, Bool, true, false, List, [], ◌∷◌, ◌++◌, none, some, ◌==◌, ltb,
  if◌then◌else◌,
}

-- The bytes of a text of ASCII.
abbrev pub ascii : String → Bytes
ascii no_text = []
ascii (then_char c s) = code c ∷ ascii s

-- `s == t`
abbrev pub bytes_eq : Bytes → Bytes → Bool
bytes_eq [] [] = true
bytes_eq (a ∷ s) (b ∷ t) = if a == b then bytes_eq s t else false
bytes_eq _ _ = false

unfoldable pub to_buffer : Bytes → ByteBuffer
to_buffer s = some (s ∷ [])

unfoldable pub from_buffer : ByteBuffer → Bytes
unfolding append_slices
from_buffer none = []
from_buffer (some slices) = append_slices [] slices

-- `std::to_string(n)`, which has a digit more only for each factor of ten.
unfoldable pub digits : ℕ → ℕ → Bytes → Bytes
digits zero n acc = acc
digits (suc fuel) n acc =
    let rest = digits fuel (n / 10) ((48 + n % 10) ∷ acc) in
    if ltb n 10 then (48 + n) ∷ acc else rest

unfoldable pub to_string : ℕ → Bytes
unfolding digits
to_string n = digits (suc n) n []

-- The checks that failed, and every line printed: whether it says ok, and for which check.
pub record Checker : Type 0 where
  pub failures : ℕ
  pub lines : List (Bool × String)

abbrev pub new_checker : Checker
new_checker = record { failures = 0; lines = [] }

-- `ok` is `got == want`.
unfoldable pub check : String → Bool → Checker → Checker
check name ok c = record {
  failures = if ok then c.failures else suc c.failures;
  lines = c.lines ++ (ok, name) ∷ [];
}

-- The exit code.
unfoldable pub finish : Checker → ℕ
finish c = if c.failures == 0 then 0 else 1

pub record Item : Type 0 where
  pub name : Bytes
  pub count : ℤ

pub record EchoRequest : Type 0 where
  pub text : Bytes
  pub items : List Item
  pub labels : List (Bytes × Bytes)
  pub number : ℤ

pub record EchoReply : Type 0 where
  pub text : Bytes
  pub items : List Item
  pub labels : List (Bytes × Bytes)
  pub responder : Bytes
