-- ===== src/Base/Slices.antt =====
-- Parts of lists: what `take`, `drop` and a block write do to each other.
use Prim.Native.Nat.{ℕ, zero, suc, ◌+◌, ◌-◌, ◌≤◌, ◌<◌}
use mathlib.Core.Path.{◌≡◌, refl, sym, ap, ◌∙◌}
use mathlib.Core.List.{List, [], ◌∷◌, ◌++◌, append_assoc, append-nil}
use native.Mathlib.Omega.{arith}
use knet.Base.Lists.{length, set, take, drop, copy_to, length-set}

suc_add : (a b : ℕ) → suc a + b ≡ suc (a + b)
suc_add a b = omega arith

module _ {ℓ} {A : Type ℓ} where
  pub take_nil : (n : ℕ) → take {A = A} n [] ≡ []
  take_nil zero = refl
  take_nil (suc n) = refl

  drop_nil : (n : ℕ) → drop {A = A} n [] ≡ []
  drop_nil zero = refl
  drop_nil (suc n) = refl

  pub take-take : (a b : ℕ) (xs : List A) → a ≤ b → take (a - 0) xs ≡ take a (take b xs)
  take-take zero b xs h = refl
  take-take (suc a) zero xs h = absurd (omega arith)
  take-take (suc a) (suc b) [] h = take_nil (suc a - 0)
  take-take (suc a) (suc b) (x ∷ xs) h =
      let e : suc a - 0 ≡ suc (a - 0) = omega arith in
      ap (λ n. take n (x ∷ xs)) e ∙ ap (λ r. x ∷ r) (take-take a b xs (omega arith))

  pub take_add : (a b : ℕ) (xs : List A) → take (a + b) xs ≡ take a xs ++ take b (drop a xs)
  take_add zero b xs = ap (λ n. take n xs) (omega arith)
  take_add (suc a) b [] = take_nil (suc a + b) ∙ sym (take_nil b)
  take_add (suc a) b (x ∷ xs) =
      ap (λ n. take n (x ∷ xs)) (suc_add a b) ∙ ap (λ r. x ∷ r) (take_add a b xs)

  pub drop_add : (a b : ℕ) (xs : List A) → drop (a + b) xs ≡ drop b (drop a xs)
  drop_add zero b xs = ap (λ n. drop n xs) (omega arith)
  drop_add (suc a) b [] = drop_nil (suc a + b) ∙ sym (drop_nil b)
  drop_add (suc a) b (x ∷ xs) = ap (λ n. drop n (x ∷ xs)) (suc_add a b) ∙ drop_add a b xs

  pub take-drop : (a b : ℕ) (xs : List A) → take (b - a) (drop a xs) ≡ drop a (take b xs)
  take-drop zero b xs = ap (λ n. take n xs) (omega arith)
  take-drop (suc a) zero xs =
      let e : 0 - suc a ≡ 0 = omega arith in ap (λ n. take n (drop (suc a) xs)) e
  take-drop (suc a) (suc b) [] = take_nil (suc b - suc a)
  take-drop (suc a) (suc b) (x ∷ xs) =
      let e : suc b - suc a ≡ b - a = omega arith in
      ap (λ n. take n (drop a xs)) e ∙ take-drop a b xs

  take-set :
      (at : ℕ) (v : A) (xs : List A)
      → at < length xs
      → take (suc at) (set xs at v) ≡ take at xs ++ (v ∷ [])
  take-set at v [] h = absurd (omega arith)
  take-set zero v (x ∷ xs) h = refl
  take-set (suc at) v (x ∷ xs) h = ap (λ r. x ∷ r) (take-set at v xs (omega arith))

  -- What stands in front of the end of a block that is written.
  pub take-copy_to :
      (src dst : List A) (at : ℕ)
      → at + length src ≤ length dst
      → take (at + length src) (copy_to dst at src) ≡ take at dst ++ src
  take-copy_to [] dst at h = ap (λ n. take n dst) (omega arith) ∙ sym (append-nil (take at dst))
  take-copy_to (x ∷ src) dst at h =
      ap (λ n. take n (copy_to (set dst at x) (suc at) src)) (omega arith)
      ∙ take-copy_to src (set dst at x) (suc at) (omega (arith, length-set dst at x))
      ∙ ap (λ l. l ++ src) (take-set at x dst (omega arith))
      ∙ append_assoc (take at dst) (x ∷ []) src
