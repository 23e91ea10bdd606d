-- ===== src/Prelude/Lists.antt =====
-- Lists measured by native numbers, and counted by a Boolean test.
use Prim.Native.Nat.{ℕ, suc, ◌+◌}
use mathlib.Core.Bool.{Bool, true, false}
use mathlib.Core.List.{List, [], ◌∷◌, ◌++◌}
use mathlib.Core.Path.{◌≡◌, refl}
use native.Mathlib.Omega.{arith}
use rgrpc.Prelude.Tests.{if◌then◌else◌, bit}

module _ {ℓ} {A : Type ℓ} where
  abbrev pub length : List A → ℕ
  length [] = 0
  length (x ∷ xs) = suc (length xs)

  -- `empty()`
  abbrev pub is_empty : List A → Bool
  is_empty [] = true
  is_empty (x ∷ xs) = false

  -- `pop_front()`, which has no defined result on an empty container
  abbrev pub pop_front : List A → List A
  pop_front [] = []
  pop_front (x ∷ xs) = xs

  -- `front()`, where the container is not empty
  abbrev pub front : A → List A → A
  front d [] = d
  front d (x ∷ xs) = x

  -- `push_back`
  abbrev pub push_back : List A → A → List A
  push_back xs a = xs ++ a ∷ []

  pub is_empty-push_back : (xs : List A) (a : A) → is_empty (push_back xs a) ≡ false
  is_empty-push_back [] a = refl
  is_empty-push_back (x ∷ xs) a = refl

  pub length-append : (xs ys : List A) → length (xs ++ ys) ≡ length xs + length ys
  length-append [] ys = omega arith
  length-append (x ∷ xs) ys = omega (arith, length-append xs ys)

module _ {ℓ} {A : Type ℓ} (p : A → Bool) where
  -- how many items pass the test
  abbrev pub count : List A → ℕ
  count [] = 0
  count (x ∷ xs) = bit (p x) + count xs

  -- the items that pass the test, in order
  abbrev pub select : List A → List A
  select [] = []
  select (x ∷ xs) = if p x then x ∷ select xs else select xs

  -- whether some item passes the test
  abbrev pub any : List A → Bool
  any [] = false
  any (x ∷ xs) = if p x then true else any xs

  pub count-append : (xs ys : List A) → count (xs ++ ys) ≡ count xs + count ys
  count-append [] ys = omega arith
  count-append (x ∷ xs) ys = omega (arith, count-append xs ys)
