-- ===== src/Websocket/Frame/Bytes.antt =====
-- The bytes of a frame's head: the mask bit, the seven bits of the length, and the length in
-- network order.
use Prim.Native.Nat.{bit_and, bit_or}
use native.Mathlib.Decide.{ℕ_discrete}
use knet.Base.{
  ℕ, zero, suc, ◌+◌, ◌*◌, ◌/◌, ◌%◌, ◌^◌, ◌≤◌, ◌<◌, ◌≡◌, refl, Bool, true, false, arith,
  if◌then◌else◌, ◌==◌, ==_iff, bit_and-mask,
}
use knet.Websocket.Frame.{byte_of, is_masked}

if_holds : (b : Bool) {c : Bool} → (if b then c else false) ≡ true → (b ≡ true) × (c ≡ true)
if_holds true e = (refl, e)
if_holds false e = absurd (cc e)

-- Two functions have the same values at the numbers below `n`; `n` is small where it is evaluated.
agree : (ℕ → ℕ) → (ℕ → ℕ) → ℕ → Bool
agree f g zero = true
agree f g (suc n) = if f n == g n then agree f g n else false

agree_entry : (f g : ℕ → ℕ) (n : ℕ) {i : ℕ} → agree f g n ≡ true → i < n → f i ≡ g i
unfolding agree
agree_entry f g zero e h = absurd (omega arith)
agree_entry f g (suc n) {i} e h = elim (ℕ_discrete i n) [
  | yes same ↦ rw same ((==_iff (f n) (g n)).0 (if_holds (f n == g n) e).0)
  | no other ↦ agree_entry f g n (if_holds (f n == g n) e).1 (omega arith)
]

mask_bit_table : agree (λ n. bit_or n 0x80) (λ n. n + 128) 128 ≡ true
unfolding agree
mask_bit_table = refl

fin_bit_table : agree (λ n. bit_or 0x80 n) (λ n. n + 128) 128 ≡ true
unfolding agree
fin_bit_table = refl

no_mask_table : agree (λ n. bit_or n 0) (λ n. n) 128 ≡ true
unfolding agree
no_mask_table = refl

high_bit_table : agree (λ v. bit_and v 0x80) (λ v. v / 128 * 128) 256 ≡ true
unfolding agree
high_bit_table = refl

pub with_mask_bit : (n : ℕ) → n < 128 → bit_or n 0x80 ≡ n + 128
with_mask_bit n h = agree_entry _ _ 128 mask_bit_table h

pub with_fin_bit : (n : ℕ) → n < 128 → bit_or 0x80 n ≡ n + 128
with_fin_bit n h = agree_entry _ _ 128 fin_bit_table h

pub without_mask_bit : (n : ℕ) → n < 128 → bit_or n 0 ≡ n
without_mask_bit n h = agree_entry _ _ 128 no_mask_table h

high_bit : (v : ℕ) → v < 256 → bit_and v 0x80 ≡ v / 128 * 128
high_bit v h = agree_entry _ _ 256 high_bit_table h

pub is_masked_high : (v : ℕ) → 128 ≤ v → v < 256 → is_masked v ≡ true
is_masked_high v lo hi = ground (arith, high_bit v hi)

pub is_masked_low : (v : ℕ) → v < 128 → is_masked v ≡ false
is_masked_low v h = ground (arith, high_bit v (omega arith))

pub low_bits : (v : ℕ) → bit_and v 0x7f ≡ v % 128
low_bits v = bit_and-mask 7 v

pub byte_of-eq : (n s : ℕ) → byte_of n s ≡ n / 2 ^ s % 256
byte_of-eq n s = bit_and-mask 8 (n / 2 ^ s)

-- Two bytes hold a length below 2^16, eight bytes one below 2^64.
pub join16 : (n : ℕ) → n < 2 ^ 16 → byte_of n 8 * 2 ^ 8 + byte_of n 0 ≡ n
join16 n h = omega (arith, byte_of-eq n 8, byte_of-eq n 0)

pub join64 :
    (n : ℕ)
    → n < 2 ^ 64
    → byte_of n 56 * 2 ^ 56
        + byte_of n 48 * 2 ^ 48
        + byte_of n 40 * 2 ^ 40
        + byte_of n 32 * 2 ^ 32
        + byte_of n 24 * 2 ^ 24
        + byte_of n 16 * 2 ^ 16
        + byte_of n 8 * 2 ^ 8
        + byte_of n 0
      ≡ n
join64 n h = omega (
  arith,
  byte_of-eq n 56,
  byte_of-eq n 48,
  byte_of-eq n 40,
  byte_of-eq n 32,
  byte_of-eq n 24,
  byte_of-eq n 16,
  byte_of-eq n 8,
  byte_of-eq n 0,
)
