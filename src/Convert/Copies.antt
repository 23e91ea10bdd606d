-- ===== src/Convert/Copies.antt =====
-- src/common.h: the two ways in which the bytes of a buffer are copied out.
use rgrpc.Prelude.{
  ℕ, zero, suc, ◌+◌, ◌≤◌, ◌≡◌, refl, sym, ap, ◌∙◌, true, false, none, some, List, [], ◌∷◌, ◌++◌,
  length, append_assoc, append-nil, arith, length-append, ◌⊎◌, inl, inr,
}
use rgrpc.Convert.{
  Bytes, ByteBuffer, total_size, append_slices, grpc_byte_buffer_to_string, memcpy, copy_slices,
  grpc_byte_buffer_to_raw,
}

split_at :
    (n : ℕ) (l : Bytes)
    → n ≤ length l
    → (mid : Bytes) × (rest : Bytes) × (l ≡ mid ++ rest) × (length mid ≡ n)
split_at zero l h = ([], l, refl, refl)
split_at (suc n) [] h = elim h [ ]
split_at (suc n) (b ∷ l) h =
    let (mid, rest, e, long) = split_at n l (omega arith) in
    (b ∷ mid, rest, ap (◌∷◌ b) e, omega arith)

memcpy_here : (mid rest s : Bytes) → length mid ≡ length s → memcpy (mid ++ rest) 0 s ≡ s ++ rest
unfolding memcpy
memcpy_here [] [] [] h = refl
memcpy_here [] (b ∷ rest) [] h = refl
memcpy_here [] rest (x ∷ s) h = absurd (omega arith)
memcpy_here (b ∷ mid) rest [] h = absurd (omega arith)
memcpy_here (b ∷ mid) rest (x ∷ s) h = ap (◌∷◌ x) (memcpy_here mid rest s (omega arith))

memcpy_lem :
    (done mid rest s : Bytes)
    → length mid ≡ length s
    → memcpy (done ++ (mid ++ rest)) (length done) s ≡ done ++ (s ++ rest)
unfolding memcpy
memcpy_lem [] mid rest s h = memcpy_here mid rest s h
memcpy_lem (b ∷ done) mid rest s h = ap (◌∷◌ b) (memcpy_lem done mid rest s h)

copy_slices_lem :
    (slices : List Bytes) (done room : Bytes)
    → length room ≡ total_size slices
    → copy_slices (done ++ room) (length done) slices ≡ append_slices done slices
unfolding copy_slices append_slices total_size
copy_slices_lem [] done [] h = append-nil done
copy_slices_lem [] done (b ∷ room) h = absurd (omega arith)
copy_slices_lem (s ∷ slices) done room h =
    let (mid, rest, e, long) = split_at (length s) room (omega arith) in
    ap (λ l. copy_slices (memcpy (done ++ l) (length done) s) (length done + length s) slices) e
    ∙ ap (λ l. copy_slices l (length done + length s) slices)
        (memcpy_lem done mid rest s long ∙ sym (append_assoc done s rest))
    ∙ ap (λ n. copy_slices ((done ++ s) ++ rest) n slices) (sym (length-append done s))
    ∙ copy_slices_lem slices (done ++ s) rest (omega (arith, ap length e, length-append mid rest))

-- Copying the slices into a raw vector of the total size, whatever it held, gives the bytes that
-- appending them to a string gives; a buffer that cannot be dumped gives NULL and `false` instead.
pub to_raw-eq-to_string :
    (alloc : ℕ → Bytes) (bb : ByteBuffer) (out : Bytes)
    → ((n : ℕ) → length (alloc n) ≡ n)
    → ((bb ≡ none)
        × (grpc_byte_buffer_to_raw alloc bb ≡ none)
        × (grpc_byte_buffer_to_string bb out ≡ (false, out)))
      ⊎ ((bytes : Bytes) × (grpc_byte_buffer_to_raw alloc bb ≡ some bytes)
          × (grpc_byte_buffer_to_string bb out ≡ (true, bytes)))
unfolding grpc_byte_buffer_to_raw grpc_byte_buffer_to_string
to_raw-eq-to_string alloc none out sized = inl (refl, refl, refl)
to_raw-eq-to_string alloc (some slices) out sized = inr (
  append_slices [] slices,
  ap some (copy_slices_lem slices [] (alloc (total_size slices)) (sized (total_size slices))),
  refl,
)
