-- ===== src/Convert.antt =====
-- src/common.h: the conversions that the client and the server share.
pub mod Copies
use rgrpc.Prelude.{
  ℕ, zero, suc, ◌+◌, Bool, true, false, Option, none, some, List, [], ◌∷◌, ◌++◌, length,
}

-- `std::string`, raw vectors and slices: their bytes.
abbrev pub Bytes : Type 0
Bytes = List ℕ

-- `std::vector<std::pair<std::string, std::string>>`
abbrev pub MdPairs : Type 0
MdPairs = List (Bytes × Bytes)

-- A `grpc::ByteBuffer`, by what its `Dump` answers: the slices, or a status that is not OK.
abbrev pub ByteBuffer : Type 0
ByteBuffer = Option (List Bytes)

unfoldable pub total_size : List Bytes → ℕ
total_size [] = 0
total_size (s ∷ slices) = length s + total_size slices

-- `for (const auto &s : slices) out->append(...)`
unfoldable pub append_slices : Bytes → List Bytes → Bytes
append_slices out [] = out
append_slices out (s ∷ slices) = append_slices (out ++ s) slices

-- The result, and the string behind `out` afterwards.
unfoldable pub grpc_byte_buffer_to_string : ByteBuffer → Bytes → Bool × Bytes
unfolding append_slices
grpc_byte_buffer_to_string none out = (false, out)
grpc_byte_buffer_to_string (some slices) out = (true, append_slices [] slices)

-- `memcpy(p, s.begin(), s.size())`, where `p` stands `at` bytes into the vector.
unfoldable pub memcpy : Bytes → ℕ → Bytes → Bytes
memcpy [] at s = []
memcpy (b ∷ buf) (suc at) s = b ∷ memcpy buf at s
memcpy (b ∷ buf) zero [] = b ∷ buf
memcpy (b ∷ buf) zero (x ∷ s) = x ∷ memcpy buf zero s

unfoldable pub copy_slices : Bytes → ℕ → List Bytes → Bytes
unfolding memcpy
copy_slices buf at [] = buf
copy_slices buf at (s ∷ slices) = copy_slices (memcpy buf at s) (at + length s) slices

-- `alloc n` is the vector that `Rf_allocVector(RAWSXP, n)` gives; `none` is `R_NilValue`.
unfoldable pub grpc_byte_buffer_to_raw : (ℕ → Bytes) → ByteBuffer → Option Bytes
unfolding total_size copy_slices
grpc_byte_buffer_to_raw alloc none = none
grpc_byte_buffer_to_raw alloc (some slices) =
    some (copy_slices (alloc (total_size slices)) 0 slices)
