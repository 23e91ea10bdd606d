-- ===== src/Prelude/Dict.antt =====
-- `std::map` with numeric keys, as an association list in the order of its keys.
use Prim.Native.Nat.{ℕ}
use mathlib.Core.List.{List, [], ◌∷◌}
use mathlib.Core.Option
use mathlib.Core.Option.{Option, none, some}
use mathlib.Core.Logic.{◌⊎◌, ◌≢◌}
use mathlib.Core.Path.{◌≡◌, refl}
use native.Mathlib.Omega.{arith}
use rgrpc.Prelude.Tests.{◌==◌, ltb, if◌then◌else◌}
use rgrpc.Prelude.Lists.{length}

abbrev pub Map {ℓ} : Type ℓ → Type ℓ
Map V = List (ℕ × V)

module _ {ℓ} {V : Type ℓ} where
  -- `find`; `none` is `end()`
  unfoldable pub find : ℕ → Map V → Option V
  find k [] = none
  find k ((j, v) ∷ m) = if k == j then some v else find k m

  -- `m[k] = v`
  unfoldable pub insert : ℕ → V → Map V → Map V
  insert k v [] = (k, v) ∷ []
  insert k v ((j, w) ∷ m) =
      if k == j then (k, v) ∷ m else if ltb k j then (k, v) ∷ (j, w) ∷ m else (j, w) ∷ insert k v m

  -- `erase(k)`
  unfoldable pub erase : ℕ → Map V → Map V
  erase k [] = []
  erase k ((j, w) ∷ m) = if k == j then erase k m else (j, w) ∷ erase k m

  -- `size()`
  abbrev pub size : Map V → ℕ
  size m = length m

  -- every value, in the order of the keys
  unfoldable pub map_values : (V → V) → Map V → Map V
  map_values f [] = []
  map_values f ((k, v) ∷ m) = (k, f v) ∷ map_values f m

  pub find-insert :
      (q k : ℕ) (v : V) (m : Map V) → find q (insert k v m) ≡ (if q == k then some v else find q m)
  unfolding find insert
  find-insert q k v [] = refl
  find-insert q k v ((j, w) ∷ m) = ground (arith, find-insert q k v m)

  pub find-erase : (q k : ℕ) (m : Map V) → find q (erase k m) ≡ (if q == k then none else find q m)
  unfolding find erase
  find-erase q k [] = ground arith
  find-erase q k ((j, w) ∷ m) = ground (arith, find-erase q k m)

module _ {V : Type 0} where
  -- What a lookup after an update says of the map before it.
  pub find-insert-some :
      (q k : ℕ) (v w : V) (m : Map V)
      → find q (insert k v m) ≡ some w
      → ((q ≡ k) × (v ≡ w)) ⊎ ((q ≢ k) × (find q m ≡ some w))
  find-insert-some q k v w m h = ground (arith, find-insert q k v m)

  pub find-insert-none :
      (q k : ℕ) (v : V) (m : Map V) → find q (insert k v m) ≡ none → (q ≢ k) × (find q m ≡ none)
  find-insert-none q k v m h = ground (arith, find-insert q k v m)

  pub find-erase-some :
      (q k : ℕ) (w : V) (m : Map V) → find q (erase k m) ≡ some w → (q ≢ k) × (find q m ≡ some w)
  find-erase-some q k w m h = ground (arith, find-erase q k m)

  pub find-erase-none :
      (q k : ℕ) (m : Map V) → find q (erase k m) ≡ none → (q ≡ k) ⊎ ((q ≢ k) × (find q m ≡ none))
  find-erase-none q k m h = ground (arith, find-erase q k m)

  pub find-map_values :
      (q : ℕ) (f : V → V) (m : Map V) → find q (map_values f m) ≡ Option.map f (find q m)
  unfolding find map_values
  find-map_values q f [] = refl
  find-map_values q f ((j, w) ∷ m) = ground (arith, find-map_values q f m)
