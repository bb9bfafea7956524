-- ===== src/Utils/LoopBuffer/Write.antt =====
-- `LoopBuffer::push` of include/utils/loop_buffer.hpp.
use native.Mathlib.Decide.{dec_lt}
use native.Mathlib.Nat.{mod-lt}
use knet.Base.{
  ℕ, zero, suc, ◌+◌, ◌-◌, ◌%◌, ◌^◌, ◌≤◌, ◌<◌, ◌≡◌, refl, ap, ◌⊎◌, inl, inr, List, ◌++◌, arith,
  length, get_or, tabulate, sub32, add32,
}
use knet.Utils.LoopBuffer.{LoopBuffer, size, peek, store, push}
use knet.Utils.LoopBuffer.Contents.{
  IsValid, contents, Wraps, wraps, tabulate-append, length-store, get_or-store_old,
  get_or-store_new, buffer_size_bounds, mask, word_place,
}

pub length-tabulate : (n : ℕ) (f : ℕ → ℕ) → length (tabulate n f) ≡ n
length-tabulate zero f = refl
length-tabulate (suc n) f = ap suc (length-tabulate n (λ i. f (suc i)))

pub length-contents : (b : LoopBuffer) → length (contents b) ≡ size b
length-contents b = length-tabulate (size b) _

-- `peek` is the free space.
pub peek-eq : {b : LoopBuffer} → IsValid b → peek b ≡ b.buffer_size - size b
unfolding peek
peek-eq {b} v = omega (arith, v.fits, buffer_size_bounds v)

push_full : {b : LoopBuffer} (xs : List ℕ) → peek b < length xs → push b xs ≡ (0, b)
unfolding push
push_full xs h = ground arith

-- The ring after a `push` that fits.
abbrev pushed : LoopBuffer → List ℕ → LoopBuffer
pushed b xs = record b {
  tail = add32 b.tail (length xs);
  buffer = store b.buffer_size b.buffer (b.tail % b.buffer_size) xs;
}

push_fits :
    {b : LoopBuffer} (xs : List ℕ)
    → IsValid b
    → length xs ≤ peek b
    → push b xs ≡ (length xs, pushed b xs)
unfolding push
push_fits {b} xs v h = rw (← mask v b.tail) (ground arith)

module _ {b : LoopBuffer} (v : IsValid b) (xs : List ℕ)
    (room : size b + length xs ≤ b.buffer_size) where
  place : Wraps b.buffer_size b.head (size b)
  place = wraps b.buffer_size b.head (size b) v.fits (buffer_size_bounds v).0

  size-pushed : size (pushed b xs) ≡ size b + length xs
  unfolding size
  size-pushed = omega (arith, v.head_word, v.tail_word, buffer_size_bounds v, room)

  pushed-IsValid : IsValid (pushed b xs)
  pushed-IsValid = record {
    exponent = v.exponent;
    exponent_le = v.exponent_le;
    size_pow = v.size_pow;
    array =
        length-store b.buffer_size (b.tail % b.buffer_size) b.buffer xs v.array
          (mod-lt b.tail (buffer_size_bounds v).0) (omega (arith, room)) (buffer_size_bounds v).1;
    head_word = v.head_word;
    tail_word = omega arith;
    fits = rw size-pushed room;
  }

  -- The place that `push` writes first is `size` places on from the head.
  tail_place : b.tail % b.buffer_size ≡ (b.head + size b) % b.buffer_size
  unfolding size
  tail_place =
      let e : (b.head + sub32 b.tail b.head) % 2 ^ 32 ≡ b.tail =
        omega (arith, v.head_word, v.tail_word) in
      rw (← word_place v (b.head + sub32 b.tail b.head), e)

  tail_lt : b.tail % b.buffer_size < b.buffer_size
  tail_lt = mod-lt b.tail (buffer_size_bounds v).0

  head_lt : b.head % b.buffer_size < b.buffer_size
  head_lt = mod-lt b.head (buffer_size_bounds v).0

  old_byte :
      (i : ℕ)
      → i < size b
      → get_or (pushed b xs).buffer ((b.head + i) % b.buffer_size) 0
        ≡ get_or b.buffer ((b.head + i) % b.buffer_size) 0
  old_byte i hi =
      let at = wraps b.buffer_size b.head i (omega (arith, room)) (buffer_size_bounds v).0 in
      get_or-store_old b.buffer_size (b.tail % b.buffer_size) b.buffer xs v.array tail_lt
        (omega (arith, room)) (buffer_size_bounds v).1 ((b.head + i) % b.buffer_size)
        (mod-lt (b.head + i) (buffer_size_bounds v).0)
        (omega (arith, at, place, tail_place, room, head_lt))
        (omega (arith, at, place, tail_place, room, head_lt))

  new_byte :
      (i j : ℕ)
      → j < length xs
      → i ≡ size b + j
      → get_or (pushed b xs).buffer ((b.head + i) % b.buffer_size) 0 ≡ get_or xs j 0
  new_byte i j hj e =
      let at = wraps b.buffer_size b.head i (omega (arith, room)) (buffer_size_bounds v).0 in
      get_or-store_new b.buffer_size (b.tail % b.buffer_size) b.buffer xs v.array tail_lt
        (omega (arith, room)) (buffer_size_bounds v).1 j ((b.head + i) % b.buffer_size) hj
        (omega (arith, at, place, tail_place, room, head_lt))

  contents-pushed : contents (pushed b xs) ≡ contents b ++ xs
  contents-pushed =
      tabulate-append (size b) (length xs) (size (pushed b xs)) _ _ xs size-pushed refl old_byte
        new_byte

-- What a `push` has done: all bytes or none, by the free space.
pub record Pushed (b : LoopBuffer) (xs : List ℕ) (r : ℕ × LoopBuffer) : Type 0 where
  pub valid : IsValid r.1
  pub same_size : r.1.buffer_size ≡ b.buffer_size
  pub outcome :
      ((size b + length xs ≤ b.buffer_size) × (r.0 ≡ length xs) × (contents r.1 ≡ contents b ++ xs))
      ⊎ ((b.buffer_size < size b + length xs) × (r.0 ≡ 0) × (r.1 ≡ b))

-- `push` on a valid ring appends all bytes, in order, exactly when they fit the free space, and
-- returns their number; otherwise it returns 0 and leaves the ring as it was.
pub push-Pushed : {b : LoopBuffer} (xs : List ℕ) → IsValid b → Pushed b xs (push b xs)
push-Pushed {b} xs v = elim (dec_lt (peek b) (length xs)) [
  | yes full ↦ rw (push_full xs full) (record {
    valid = v;
    same_size = refl;
    outcome = inr (omega (arith, peek-eq v, v.fits), refl, refl);
  })
  | no free ↦
      let room : size b + length xs ≤ b.buffer_size = omega (arith, peek-eq v, v.fits) in
      rw (push_fits xs v (omega arith)) (record {
        valid = pushed-IsValid v xs room;
        same_size = refl;
        outcome = inl (room, refl, contents-pushed v xs room);
      })
]
