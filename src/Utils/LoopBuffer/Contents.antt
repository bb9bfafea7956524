-- ===== src/Utils/LoopBuffer/Contents.antt =====
-- What a valid ring holds, and what the two copies of `push` write.
use native.Mathlib.Nat.{
  pow-suc, one-le-pow, dvd_refl, dvd-mul_right_of_dvd, mod-mod_of_dvd, mod-lt, mod-eq_of_lt,
  mod-eq-sub-mod, mod-add-mod, le_of_dvd,
}
use native.Mathlib.Decide.{dec_lt}
use Prim.Native.Nat.{◌∣◌, bit_and}
use knet.Base.{
  ℕ, zero, suc, ◌+◌, ◌-◌, ◌%◌, ◌^◌, ◌≤◌, ◌<◌, ◌≡◌, ap₂, ◌∙◌, ◌⊎◌, inl, inr, List, ◌∷◌, ◌++◌, arith,
  length, get_or, take, drop, copy_to, tabulate, length-take, length-drop, length-copy_to,
  get_or-copy_to, get_or-copy_to_below, get_or-copy_to_above, sub32, bit_and-mask, tabulate_eq,
  get_or-take, get_or-drop,
}
use knet.Utils.LoopBuffer.{LoopBuffer, size, store}

pub two-pow-dvd : (k j n : ℕ) → k + j ≡ n → 2 ^ k ∣ 2 ^ n
two-pow-dvd k zero n e = let e' : k ≡ n = omega arith in rw e' (dvd_refl (2 ^ n))
two-pow-dvd k (suc j) zero e = absurd (omega arith)
two-pow-dvd k (suc j) (suc n) e =
    rw (pow-suc 2 n) (dvd-mul_right_of_dvd (2 ^ k) (two-pow-dvd k j n (omega arith)) 2)

-- A power of two as the size, an array of that size, and counters that are at most it apart.
pub record IsValid (b : LoopBuffer) : Type 0 where
  pub exponent : ℕ
  pub exponent_le : exponent ≤ 31
  pub size_pow : b.buffer_size ≡ 2 ^ exponent
  pub array : length b.buffer ≡ b.buffer_size
  pub head_word : b.head < 2 ^ 32
  pub tail_word : b.tail < 2 ^ 32
  pub fits : size b ≤ b.buffer_size

module _ {b : LoopBuffer} (v : IsValid b) where
  size-dvd : b.buffer_size ∣ 2 ^ 32
  size-dvd =
      rw v.size_pow (two-pow-dvd v.exponent (32 - v.exponent) 32 (omega (arith, v.exponent_le)))

  pub buffer_size_bounds : (0 < b.buffer_size) × (b.buffer_size ≤ 2 ^ 31)
  buffer_size_bounds = (
    rw v.size_pow (one-le-pow v.exponent 2 (omega arith)),
    rw v.size_pow (
        le_of_dvd (omega arith)
          (two-pow-dvd v.exponent (31 - v.exponent) 31 (omega (arith, v.exponent_le)))),
  )

  -- The mask of the code is a remainder, and a counter that wraps at 2^32 keeps its place.
  pub mask : (x : ℕ) → bit_and x (b.buffer_size - 1) ≡ x % b.buffer_size
  mask x = rw v.size_pow (bit_and-mask v.exponent x)

  pub word_place : (x : ℕ) → x % 2 ^ 32 % b.buffer_size ≡ x % b.buffer_size
  word_place x = mod-mod_of_dvd b.buffer_size x size-dvd

-- The bytes held, oldest first.
abbrev pub contents : LoopBuffer → List ℕ
contents b = tabulate (size b) (λ i. get_or b.buffer ((b.head + i) % b.buffer_size) 0)

-- Going `i` places on from `h` round a ring of `cap` places.
abbrev pub Wraps : ℕ → ℕ → ℕ → Type 0
Wraps cap h i =
    (((h + i) % cap ≡ h % cap + i) × (h % cap + i < cap))
    ⊎ (((h + i) % cap + cap ≡ h % cap + i) × (cap ≤ h % cap + i))

pub wraps : (cap h i : ℕ) → i ≤ cap → 0 < cap → Wraps cap h i
wraps cap h i hi pos = elim (dec_lt (h % cap + i) cap) [
  | yes p ↦ inl (rw (← mod-add-mod h cap i) (mod-eq_of_lt p), p)
  | no p ↦
      let r : h % cap < cap = mod-lt h pos in
      elim (dec_lt (h % cap + i - cap) cap) [
        | yes q ↦ inr (
          omega (
            arith,
            mod-add-mod h cap i,
            mod-eq-sub-mod {n = h % cap + i} {m = cap} (omega arith),
            mod-eq_of_lt q,
          ),
          omega arith,
        )
        | no q ↦ absurd (omega arith)
      ]
]

-- A list of n + m entries, of which the last m are `ys`.
pub tabulate-append :
    (n m t : ℕ) (f g : ℕ → ℕ) (ys : List ℕ)
    → t ≡ n + m
    → length ys ≡ m
    → ((i : ℕ) → i < n → f i ≡ g i)
    → ((i j : ℕ) → j < m → i ≡ n + j → f i ≡ get_or ys j 0)
    → tabulate t f ≡ tabulate n g ++ ys
tabulate-append zero m t f g ys e el old new = rw e (
    rw (let z : zero + m ≡ m = omega arith in z)
      (tabulate_eq f m ys el (λ j h. new j j h (omega arith))))
tabulate-append (suc n) m zero f g ys e el old new = absurd (omega arith)
tabulate-append (suc n) m (suc t) f g ys e el old new = ap₂ ◌∷◌ (old 0 (omega arith)) (
    tabulate-append n m t (λ i. f (suc i)) (λ i. g (suc i)) ys (omega arith) el
      (λ i h. old (suc i) (omega arith)) (λ i j h p. new (suc i) j h (omega arith)))

module _ (cap w : ℕ) (buf bytes : List ℕ) (len_buf : length buf ≡ cap) (inside : w < cap)
    (room : length bytes ≤ cap) (small : cap ≤ 2 ^ 31) where
  pub length-store : length (store cap buf w bytes) ≡ cap
  unfolding store
  length-store = ground (
    arith,
    length-copy_to bytes buf w,
    length-copy_to (take (sub32 cap w) bytes) buf w,
    length-copy_to (drop (sub32 cap w) bytes) (copy_to buf w (take (sub32 cap w) bytes)) 0,
  )

  store_flat : w + length bytes ≤ cap → store cap buf w bytes ≡ copy_to buf w bytes
  unfolding store
  store_flat h = ground arith

  tail_size : sub32 cap w ≡ cap - w
  tail_size = omega arith

  store_split :
      cap < w + length bytes
      → store cap buf w bytes
        ≡ copy_to (copy_to buf w (take (cap - w) bytes)) 0 (drop (cap - w) bytes)
  unfolding store
  store_split h = rw tail_size (ground arith)

  -- Places that the write does not reach keep their byte.
  pub get_or-store_old :
      (j : ℕ)
      → j < cap
      → (j < w) ⊎ (w + length bytes ≤ j)
      → w + length bytes ≤ j + cap
      → get_or (store cap buf w bytes) j 0 ≡ get_or buf j 0
  get_or-store_old j hj out1 out2 = elim (dec_lt cap (w + length bytes)) [
    | no p ↦ rw (store_flat (omega arith)) (elim out1 [
      | inl below ↦ get_or-copy_to_below bytes buf w j 0 below
      | inr above ↦ get_or-copy_to_above bytes buf w j 0 above
    ])
    | yes p ↦
        rw
          (
            store_split p,
            get_or-copy_to_above (drop (cap - w) bytes) (copy_to buf w (take (cap - w) bytes)) 0 j 0
                (omega (arith, length-drop (cap - w) bytes)),
          )
          (get_or-copy_to_below (take (cap - w) bytes) buf w j 0 (omega arith))
  ]

  -- Byte `i` of the message goes to the place `i` steps on from `w`.
  pub get_or-store_new :
      (i j : ℕ)
      → i < length bytes
      → ((j ≡ w + i) × (j < cap)) ⊎ ((j + cap ≡ w + i) × (cap ≤ w + i))
      → get_or (store cap buf w bytes) j 0 ≡ get_or bytes i 0
  get_or-store_new i j hi at = elim (dec_lt cap (w + length bytes)) [
    | no p ↦
        rw (store_flat (omega arith))
          (get_or-copy_to bytes buf w i j 0 (omega arith) hi (omega arith))
    | yes p ↦ rw (store_split p) (elim at [
      | inl (e, inside') ↦
          rw
            (get_or-copy_to_above (drop (cap - w) bytes) (copy_to buf w (take (cap - w) bytes)) 0 j
              0 (omega (arith, length-drop (cap - w) bytes)))
            (get_or-copy_to (take (cap - w) bytes) buf w i j 0
                (omega (arith, length-take (cap - w) bytes))
                (omega (arith, length-take (cap - w) bytes)) e
              ∙ get_or-take (cap - w) bytes i (omega arith))
      | inr (e, over) ↦
          get_or-copy_to (drop (cap - w) bytes) (copy_to buf w (take (cap - w) bytes)) 0 j j 0
            (omega
              (arith, length-drop (cap - w) bytes, length-copy_to (take (cap - w) bytes) buf w))
            (omega (arith, length-drop (cap - w) bytes)) (omega arith)
          ∙ get_or-drop (cap - w) bytes j i (omega arith)
    ])
  ]
