-- ===== src/Base/Tables.antt =====
-- Maps with numbers for keys, as lists of pairs.
use Prim.Native.Nat.{ℕ}
use mathlib.Core.Path.{◌≡◌, refl}
use mathlib.Core.Option.{Option, none, some}
use mathlib.Core.List.{List, [], ◌∷◌}
use native.Mathlib.Omega.{arith}
use knet.Base.Tests.{◌==◌, if◌then◌else◌}

module _ {ℓ} {V : Type ℓ} where
  unfoldable pub find_at : ℕ → List (ℕ × V) → Option V
  find_at key [] = none
  find_at key ((k, v) ∷ m) = let rest = find_at key m in if k == key then some v else rest

  unfoldable pub put_at : ℕ → V → List (ℕ × V) → List (ℕ × V)
  put_at key v [] = (key, v) ∷ []
  put_at key v ((k, w) ∷ m) =
      let rest = put_at key v m in if k == key then (k, v) ∷ m else (k, w) ∷ rest

  -- A key stands in the table once.
  unfoldable pub erase_at : ℕ → List (ℕ × V) → List (ℕ × V)
  erase_at key [] = []
  erase_at key ((k, w) ∷ m) = let rest = erase_at key m in if k == key then rest else (k, w) ∷ rest

  pub find_at-put_at :
      (key k : ℕ) (v : V) (m : List (ℕ × V))
      → find_at k (put_at key v m) ≡ (if key == k then some v else find_at k m)
  unfolding find_at put_at
  find_at-put_at key k v [] = refl
  find_at-put_at key k v ((j, w) ∷ m) = ground (arith, find_at-put_at key k v m)

  pub find_at-erase_at :
      (key k : ℕ) (m : List (ℕ × V))
      → find_at k (erase_at key m) ≡ (if key == k then none else find_at k m)
  unfolding find_at erase_at
  find_at-erase_at key k [] = ground arith
  find_at-erase_at key k ((j, w) ∷ m) = ground (arith, find_at-erase_at key k m)
