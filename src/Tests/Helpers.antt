-- ===== src/Tests/Helpers.antt =====
-- src/common.h: the copies of a buffer at a concrete input.
use rgrpc.Prelude.{
  ℕ, zero, suc, ◌≡◌, ◌⊎◌, refl, true, false, none, some, List, [], ◌∷◌, length, arith,
}
use rgrpc.Convert.{Bytes, grpc_byte_buffer_to_raw, grpc_byte_buffer_to_string}
use rgrpc.Convert.Copies.{to_raw-eq-to_string}

zeros : ℕ → Bytes
zeros zero = []
zeros (suc n) = 0 ∷ zeros n

length-zeros : (n : ℕ) → length (zeros n) ≡ n
unfolding zeros
length-zeros zero = refl
length-zeros (suc n) = omega (arith, length-zeros n)

abbrev two_slices : List Bytes
two_slices = (1 ∷ 2 ∷ []) ∷ (3 ∷ []) ∷ []

two_slices_raw : grpc_byte_buffer_to_raw zeros (some two_slices) ≡ some (1 ∷ 2 ∷ 3 ∷ [])
unfolding grpc_byte_buffer_to_raw zeros
two_slices_raw = refl

to_raw-eq-to_string_example :
    ((some two_slices ≡ none)
      × (grpc_byte_buffer_to_raw zeros (some two_slices) ≡ none)
      × (grpc_byte_buffer_to_string (some two_slices) [] ≡ (false, [])))
    ⊎ ((bytes : Bytes) × (grpc_byte_buffer_to_raw zeros (some two_slices) ≡ some bytes)
        × (grpc_byte_buffer_to_string (some two_slices) [] ≡ (true, bytes)))
to_raw-eq-to_string_example = to_raw-eq-to_string zeros (some two_slices) [] length-zeros
