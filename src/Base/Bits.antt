-- ===== src/Base/Bits.antt =====
-- Laws of the bit operations at variables: `x & (2^k - 1)` is a remainder, and `^` undoes itself.
use Prim.Native.Nat.{ℕ, zero, suc, ◌+◌, ◌-◌, ◌*◌, ◌/◌, ◌%◌, ◌^◌, ◌≤◌, ◌<◌, min, bit_and, bit_xor}
use Prim.Native.Nat.{digits, differ, bit_and-bitwise, bit_xor-bitwise}
use mathlib.Core.Path.{◌≡◌, refl, sym, ap, subst, ◌∙◌}
use native.Mathlib.Decide.{dec_lt}
use native.Mathlib.Nat.{pow-suc, one-le-pow}
use native.Mathlib.Omega.{arith}

-- The value that `digits` has once its fuel is at least the first number, and its recursion by
-- halves.
module _ (last : ℕ → ℕ) (op : ℕ → ℕ → ℕ) where
  abbrev value : ℕ → ℕ → ℕ
  value x y = digits last op x x y

  -- One unit of fuel more than enough changes nothing.
  one_more_fuel : (k x y : ℕ) → x ≤ k → digits last op (suc k) x y ≡ digits last op k x y
  one_more_fuel zero x y h = let x0 : x ≡ 0 = omega arith in rw x0 refl
  one_more_fuel (suc k) zero y h = refl
  one_more_fuel (suc k) (suc x) y h =
      ap (λ (r : ℕ). r * 2 + op (suc x % 2) (y % 2))
        (one_more_fuel k (suc x / 2) (y / 2) (omega arith))

  more_fuel : (d x y : ℕ) → digits last op (d + x) x y ≡ value x y
  more_fuel zero x y = let e : 0 + x ≡ x = omega arith in ap (λ k. digits last op k x y) e
  more_fuel (suc d) x y =
      let e : suc d + x ≡ suc (d + x) = omega arith in
      ap (λ k. digits last op k x y) e ∙ one_more_fuel (d + x) x y (omega arith) ∙ more_fuel d x y

  value_halves :
      (x y : ℕ) → value (suc x) y ≡ value (suc x / 2) (y / 2) * 2 + op (suc x % 2) (y % 2)
  value_halves x y =
      let e : (x - suc x / 2) + suc x / 2 ≡ x = omega arith in
      let half : digits last op x (suc x / 2) (y / 2) ≡ value (suc x / 2) (y / 2) =
        ap (λ k. digits last op k (suc x / 2) (y / 2)) (sym e)
        ∙ more_fuel (x - suc x / 2) (suc x / 2) (y / 2) in
      ap (λ (r : ℕ). r * 2 + op (suc x % 2) (y % 2)) half

bit_and_halves : (x y : ℕ) → bit_and x y ≡ min (x % 2) (y % 2) + 2 * bit_and (x / 2) (y / 2)
bit_and_halves x y = elim (dec_lt 0 x) [
  | no h ↦
      let x0 : x ≡ 0 = omega arith in
      rw x0 (omega (arith, bit_and-bitwise 0 y, bit_and-bitwise 0 (y / 2)))
  | yes h ↦
      let e : x ≡ suc (x - 1) = omega arith in
      subst (λ z. bit_and z y ≡ min (z % 2) (y % 2) + 2 * bit_and (z / 2) (y / 2)) (sym e)
        (omega (
          arith,
          value_halves (λ l. 0) min (x - 1) y,
          bit_and-bitwise (suc (x - 1)) y,
          bit_and-bitwise (suc (x - 1) / 2) (y / 2),
        ))
]

-- A conjunction is at most its second number.
bit_and_le : (bound x y : ℕ) → x ≤ bound → bit_and x y ≤ y
bit_and_le zero x y h = let x0 : x ≡ 0 = omega arith in rw x0 (omega (arith, bit_and-bitwise 0 y))
bit_and_le (suc bound) x y h =
    ground (arith, bit_and_halves x y, bit_and_le bound (x / 2) (y / 2) (omega arith))

bit_and-none : (x : ℕ) → bit_and x 0 ≡ 0
bit_and-none x = omega (arith, bit_and_le x x 0 (omega arith))

scaled-two-pow : (q k : ℕ) → q * 2 ^ suc k ≡ 2 * (q * 2 ^ k)
scaled-two-pow q k = omega (arith, ap (λ (p : ℕ). q * p) (pow-suc 2 k))

masked_sum : (k q r : ℕ) → r < 2 ^ k → bit_and (q * 2 ^ k + r) (2 ^ k - 1) ≡ r
masked_sum zero q r h = omega (arith, bit_and-none (q * 1 + r))
masked_sum (suc k) q r h = ground (
  arith,
  scaled-two-pow q k,
  pow-suc 2 k,
  bit_and_halves (q * 2 ^ suc k + r) (2 ^ suc k - 1),
  masked_sum k q (r / 2) (omega arith),
)

-- Masking with 2^k - 1 takes the remainder by 2^k.
pub bit_and-mask : (k x : ℕ) → bit_and x (2 ^ k - 1) ≡ x % 2 ^ k
bit_and-mask k x = ground (arith, one-le-pow k 2, masked_sum k (x / 2 ^ k) (x % 2 ^ k))

bit_xor_halves : (x y : ℕ) → bit_xor x y ≡ differ (x % 2) (y % 2) + 2 * bit_xor (x / 2) (y / 2)
bit_xor_halves x y = elim (dec_lt 0 x) [
  | no h ↦
      let x0 : x ≡ 0 = omega arith in
      rw x0 (omega (arith, bit_xor-bitwise 0 y, bit_xor-bitwise 0 (y / 2)))
  | yes h ↦
      let e : x ≡ suc (x - 1) = omega arith in
      subst (λ z. bit_xor z y ≡ differ (z % 2) (y % 2) + 2 * bit_xor (z / 2) (y / 2)) (sym e)
        (omega (
          arith,
          value_halves (λ l. l) differ (x - 1) y,
          bit_xor-bitwise (suc (x - 1)) y,
          bit_xor-bitwise (suc (x - 1) / 2) (y / 2),
        ))
]

differ_lt : (x y : ℕ) → x < 2 → y < 2 → differ x y < 2
differ_lt zero y hx hy = hy
differ_lt (suc zero) zero hx hy = omega arith
differ_lt (suc zero) (suc y) hx hy = omega arith
differ_lt (suc (suc x)) y hx hy = absurd (omega arith)

differ_twice : (x y : ℕ) → x < 2 → y < 2 → differ (differ x y) y ≡ x
differ_twice zero zero hx hy = refl
differ_twice zero (suc zero) hx hy = refl
differ_twice zero (suc (suc y)) hx hy = absurd (omega arith)
differ_twice (suc zero) zero hx hy = refl
differ_twice (suc zero) (suc zero) hx hy = refl
differ_twice (suc zero) (suc (suc y)) hx hy = absurd (omega arith)
differ_twice (suc (suc x)) y hx hy = absurd (omega arith)

xor_twice_below : (bound x y : ℕ) → x + y ≤ bound → bit_xor (bit_xor x y) y ≡ x
xor_twice_below zero x y h =
    let x0 : x ≡ 0 = omega arith in let y0 : y ≡ 0 = omega arith in rw (x0, y0) refl
xor_twice_below (suc bound) zero zero h = refl
xor_twice_below (suc bound) x y h =
    let ih = xor_twice_below bound (x / 2) (y / 2) (omega arith) in
    let low = differ_lt (x % 2) (y % 2) (omega arith) (omega arith) in
    let halves = bit_xor_halves x y in
    let rest : bit_xor x y / 2 ≡ bit_xor (x / 2) (y / 2) = omega arith in
    let digit : bit_xor x y % 2 ≡ differ (x % 2) (y % 2) = omega arith in
    rw
      (
        bit_xor_halves (bit_xor x y) y,
        rest,
        digit,
        ih,
        differ_twice (x % 2) (y % 2) (omega arith) (omega arith),
      )
      (omega arith)

-- Masking twice with one key gives the value back.
pub bit_xor_twice : (x y : ℕ) → bit_xor (bit_xor x y) y ≡ x
bit_xor_twice x y = xor_twice_below (x + y) x y (omega arith)
