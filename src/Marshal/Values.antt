-- ===== src/Marshal/Values.antt =====
-- src/common.h: strings, ids and metadata as R values.
use Prim.Native.String.{String}
use rgrpc.Convert.{Bytes, MdPairs}
use rgrpc.Prelude.{
  ℕ, zero, suc, ◌+◌, ◌*◌, ◌/◌, ◌%◌, ◌^◌, ◌<◌, ℤ, Bool, true, false, ◌&&◌, ◌||◌, ◌≡◌, refl, List, [],
  ◌∷◌, Option, none, some, ◌==◌, ltb, if◌then◌else◌, arith,
}

-- The R values that the package builds. A double is a whole number here, or NA.
pub data RValue : Type 0 where
  r_null na_real : RValue
  integer : ℤ → RValue
  real : ℕ → RValue
  raw : Bytes → RValue
  word : String → RValue  -- a character vector of one constant
  character : List Bytes → RValue
  named_character : MdPairs → RValue  -- the names and the values of a character vector

-- A list with names.
abbrev pub RList : Type 0
RList = List (String × RValue)

-- `Rf_mkCharLen`, which raises an error on an embedded nul.
abbrev pub has_nul : Bytes → Bool
has_nul [] = false
has_nul (b ∷ bytes) = b == 0 || has_nul bytes

unfoldable pub mk_char_len : Bytes → Option Bytes
mk_char_len bytes = if has_nul bytes then none else some bytes

-- `c_str()` as `Rf_mkChar` and `Rf_mkString` read it: the bytes before the first nul.
unfoldable pub c_str : Bytes → Bytes
c_str [] = []
c_str (b ∷ bytes) = if b == 0 then [] else b ∷ c_str bytes

-- `(double) n`: 53 bits, rounded to even. `exponent` is the number of bits that are cut off.
unfoldable pub exponent : ℕ → ℕ → ℕ
exponent zero n = 0
exponent (suc fuel) n = let rest = suc (exponent fuel (n / 2)) in if ltb n (2 ^ 53) then 0 else rest

unfoldable pub round_at : ℕ → ℕ → ℕ
round_at zero n = n
round_at (suc e) n =
    let q = n / 2 ^ suc e in
    let r = n % 2 ^ suc e in
    if ltb r (2 ^ e) || r == 2 ^ e && q % 2 == 0 then q * 2 ^ suc e else (q + 1) * 2 ^ suc e

unfoldable pub double_of : ℕ → ℕ
unfolding exponent round_at
double_of n = round_at (exponent 11 n) n

-- The loop that fills names and values; `none` is an R error.
unfoldable pub pairs_loop : MdPairs → Option MdPairs
unfolding mk_char_len
pairs_loop [] = some []
pairs_loop ((name, value) ∷ md) = elim (mk_char_len name) [
  | none ↦ none
  | some n ↦ elim (mk_char_len value) [
    | none ↦ none
    | some v ↦ elim (pairs_loop md) [ none ↦ none | some rest ↦ some ((n, v) ∷ rest) ]
  ]
]

unfoldable pub grpc_pairs_to_r : MdPairs → Option RValue
unfolding pairs_loop
grpc_pairs_to_r md = elim (pairs_loop md) [ none ↦ none | some p ↦ some (RValue.named_character p) ]

-- The loop over a multimap, in its order.
unfoldable pub metadata_loop : MdPairs → Option MdPairs
unfolding mk_char_len
metadata_loop [] = some []
metadata_loop (kv ∷ md) = elim (mk_char_len kv.0) [
  | none ↦ none
  | some n ↦ elim (mk_char_len kv.1) [
    | none ↦ none
    | some v ↦ elim (metadata_loop md) [ none ↦ none | some rest ↦ some ((n, v) ∷ rest) ]
  ]
]

unfoldable pub grpc_metadata_to_r : MdPairs → Option RValue
unfolding metadata_loop
grpc_metadata_to_r md = elim (metadata_loop md) [
  | none ↦ none
  | some p ↦ some (RValue.named_character p)
]

-- Whether no name and no value of the pairs holds a nul.
abbrev pub nul_free : MdPairs → Bool
nul_free [] = true
nul_free ((name, value) ∷ md) =
    if has_nul name then false else if has_nul value then false else nul_free md

pub pairs_loop_lem : (md : MdPairs) → pairs_loop md ≡ (if nul_free md then some md else none)
unfolding pairs_loop mk_char_len
pairs_loop_lem [] = refl
pairs_loop_lem ((name, value) ∷ md) = ground (arith, pairs_loop_lem md)

-- A double holds every number below 2^53 exactly.
pub double_of_exact : (n : ℕ) → n < 2 ^ 53 → double_of n ≡ n
unfolding double_of exponent round_at
double_of_exact n h = ground (arith, h)

-- A string with no nul is what `c_str` reads.
pub c_str-nul_free : (bytes : Bytes) → has_nul bytes ≡ false → c_str bytes ≡ bytes
unfolding c_str
c_str-nul_free [] h = refl
c_str-nul_free (b ∷ bytes) h = ground (arith, c_str-nul_free bytes)
