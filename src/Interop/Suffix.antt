-- ===== src/Interop/Suffix.antt =====
-- tools/interop/cpp_server.cc: the methods are told apart by how they end.
use rgrpc.Convert.{Bytes}
use rgrpc.Prelude.{
  ℕ, zero, suc, ◌-◌, ◌≤◌, true, ◌≡◌, refl, sym, ap, ◌∙◌, ◌↔◌, [], ◌∷◌, ◌++◌, arith, leb, length,
  length-append,
}
use rgrpc.Interop.Common.{bytes_eq}
use rgrpc.Interop.Server.{take, drop, ends_with}

pub bytes_eq_sound : (s t : Bytes) → bytes_eq s t ≡ true → s ≡ t
bytes_eq_sound [] [] h = refl
bytes_eq_sound [] (b ∷ t) h = cc
bytes_eq_sound (a ∷ s) [] h = cc
bytes_eq_sound (a ∷ s) (b ∷ t) h = ground (arith, bytes_eq_sound s t, h)

pub bytes_eq_refl : (s : Bytes) → bytes_eq s s ≡ true
bytes_eq_refl [] = refl
bytes_eq_refl (a ∷ s) = ground (arith, bytes_eq_refl s)

-- The part of a text that `compare` looks at: the last bytes.
take_all : (s : Bytes) → take (length s) s ≡ s
take_all [] = refl
take_all (b ∷ s) = ap (λ t. b ∷ t) (take_all s)

drop_append : (s t : Bytes) → drop (length s) (s ++ t) ≡ t
drop_append [] t = refl
drop_append (b ∷ s) t = drop_append s t

take-drop : (n : ℕ) (s : Bytes) → take n s ++ drop n s ≡ s
take-drop zero s = refl
take-drop (suc n) [] = refl
take-drop (suc n) (b ∷ s) = ap (λ t. b ∷ t) (take-drop n s)

length-drop : (n : ℕ) (s : Bytes) → length (drop n s) ≡ length s - n
length-drop zero s = omega arith
length-drop (suc n) [] = omega arith
length-drop (suc n) (b ∷ s) = omega (arith, length-drop n s)

-- `ends_with` is true exactly if the text is some other text followed by the suffix.
pub ends_with_iff :
    (s suffix : Bytes) → (ends_with s suffix ≡ true) ↔ ((before : Bytes) × (s ≡ before ++ suffix))
unfolding ends_with
ends_with_iff s suffix = (split, joined)
  where
    split : ends_with s suffix ≡ true → (before : Bytes) × (s ≡ before ++ suffix)
    split h =
        let at = length s - length suffix in
        let fits : length suffix ≤ length s = ground (arith, h) in
        let same : bytes_eq (take (length suffix) (drop at s)) suffix ≡ true = ground (arith, h) in
        let all : length (drop at s) ≡ length suffix = omega (arith, length-drop at s, fits) in
        let whole : take (length suffix) (drop at s) ≡ drop at s =
          ap (λ n. take n (drop at s)) (sym all) ∙ take_all (drop at s) in
        (
          take at s,
          sym (take-drop at s)
              ∙ ap (λ t. take at s ++ t) (sym whole ∙ bytes_eq_sound _ suffix same),
        )

    joined : (before : Bytes) × (s ≡ before ++ suffix) → ends_with s suffix ≡ true
    joined (before, e) =
        let at : length s - length suffix ≡ length before =
          omega (arith, ap length e, length-append before suffix) in
        let fits : leb (length suffix) (length s) ≡ true =
          ground (arith, ap length e, length-append before suffix) in
        let rest : drop (length s - length suffix) s ≡ suffix =
          ap (λ n. drop n s) at ∙ ap (drop (length before)) e ∙ drop_append before suffix in
        rw (fits, rest, take_all suffix) (bytes_eq_refl suffix)
