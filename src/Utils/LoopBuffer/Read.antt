-- ===== src/Utils/LoopBuffer/Read.antt =====
-- `LoopBuffer::read`, `commit` and `pop`: how bytes leave.
use native.Mathlib.Decide.{ℕ_discrete}
use native.Mathlib.Nat.{mod-add-mod, mod-lt, mod-eq_of_lt}
use knet.Base.{
  ℕ, zero, suc, ◌+◌, ◌-◌, ◌%◌, ◌≤◌, ◌<◌, min, ◌≡◌, ◌≢◌, refl, ap, sym, List, [], ◌++◌, arith,
  length, get_or, take, drop, tabulate, length-take, length-drop, sub32, add32, take-append-drop,
  tabulate_eq, eq_of_entries, get_or-take, get_or-drop,
}
use knet.Utils.LoopBuffer.{LoopBuffer, size, pop, readable, commit}
use knet.Utils.LoopBuffer.Contents.{IsValid, contents, buffer_size_bounds, mask, word_place}
use knet.Utils.LoopBuffer.Write.{length-contents}

get_or-tabulate : (n : ℕ) (f : ℕ → ℕ) (j : ℕ) → j < n → get_or (tabulate n f) j 0 ≡ f j
get_or-tabulate zero f j h = absurd (omega arith)
get_or-tabulate (suc n) f zero h = refl
get_or-tabulate (suc n) f (suc j) h = get_or-tabulate n (λ i. f (suc i)) j (omega arith)

-- The length of the block that a reader is handed.
abbrev pub block_size : LoopBuffer → ℕ
block_size b = min (size b) (sub32 b.buffer_size (b.head % b.buffer_size))

module _ {b : LoopBuffer} (v : IsValid b) where
  readable-eq : readable b ≡ take (block_size b) (drop (b.head % b.buffer_size) b.buffer)
  unfolding readable
  readable-eq = rw (mask v b.head)

  place_lt : b.head % b.buffer_size < b.buffer_size
  place_lt = mod-lt b.head (buffer_size_bounds v).0

  block_size-le : (block_size b ≤ size b) × (b.head % b.buffer_size + block_size b ≤ b.buffer_size)
  block_size-le = (omega arith, omega (arith, place_lt, buffer_size_bounds v))

  length-readable : length (readable b) ≡ block_size b
  length-readable = rw readable-eq (
      omega (
        arith,
        length-take (block_size b) (drop (b.head % b.buffer_size) b.buffer),
        length-drop (b.head % b.buffer_size) b.buffer,
        v.array,
        block_size-le,
      ))

  -- A reader is handed a first part of the bytes held.
  pub readable_lem : readable b ≡ take (block_size b) (contents b)
  readable_lem =
      eq_of_entries (readable b) (take (block_size b) (contents b))
        (omega (
          arith,
          length-readable,
          length-take (block_size b) (contents b),
          length-contents b,
          block_size-le,
        ))
        λ j h.
          let hj : j < block_size b = omega (arith, length-readable) in
          rw
            (
              readable-eq,
              get_or-take (block_size b) (drop (b.head % b.buffer_size) b.buffer) j hj,
              get_or-drop (b.head % b.buffer_size) b.buffer j (b.head % b.buffer_size + j) refl,
              get_or-take (block_size b) (contents b) j hj,
              get_or-tabulate (size b) (λ i. get_or b.buffer ((b.head + i) % b.buffer_size) 0) j
                  (omega (arith, block_size-le)),
              ← mod-add-mod b.head b.buffer_size j,
              mod-eq_of_lt {n = b.head % b.buffer_size + j} {m = b.buffer_size}
                  (omega (arith, block_size-le)),
            )
            refl

  module _ (k : ℕ) (le : k ≤ size b) where
    size-commit : size (commit b k).1 ≡ size b - k
    unfolding size commit
    size-commit = omega (arith, v.head_word, v.tail_word, le)

    -- Committing what is held keeps the ring valid.
    pub commit-IsValid : IsValid (commit b k).1
    unfolding commit
    commit-IsValid = record {
      exponent = v.exponent;
      exponent_le = v.exponent_le;
      size_pow = v.size_pow;
      array = v.array;
      head_word = omega arith;
      tail_word = v.tail_word;
      fits = omega (arith, size-commit, v.fits);
    }

    committed_byte :
        (j : ℕ)
        → j < size b - k
        → get_or b.buffer ((add32 b.head k + j) % b.buffer_size) 0
          ≡ get_or (drop k (contents b)) j 0
    committed_byte j h =
        rw
          (
            get_or-drop k (contents b) j (k + j) refl,
            get_or-tabulate (size b) (λ i. get_or b.buffer ((b.head + i) % b.buffer_size) 0) (k + j)
                (omega arith),
            ← mod-add-mod (add32 b.head k) b.buffer_size j,
            word_place v (b.head + k),
            mod-add-mod (b.head + k) b.buffer_size j,
          )
          (ap (λ (p : ℕ). get_or b.buffer (p % b.buffer_size) 0) (omega arith))

    -- What is committed leaves at the front.
    pub contents-commit : contents (commit b k).1 ≡ drop k (contents b)
    unfolding commit
    contents-commit =
        tabulate_eq (λ j. get_or b.buffer ((add32 b.head k + j) % b.buffer_size) 0)
          (size (commit b k).1) (drop k (contents b))
          (omega (arith, size-commit, length-drop k (contents b), length-contents b))
          (λ j h. committed_byte j (omega (arith, size-commit)))

pop_empty : (b : LoopBuffer) → size b ≡ 0 → pop b ≡ (0, [], b)
unfolding pop
pop_empty b e = ground arith

pop_block :
    {b : LoopBuffer}
    → IsValid b
    → size b ≢ 0
    → pop b ≡ (block_size b, readable b, (commit b (block_size b)).1)
unfolding pop commit
pop_block {b} v ne = rw (← mask v b.head) (ground arith)

block_size_pos : {b : LoopBuffer} → IsValid b → size b ≢ 0 → 0 < block_size b
block_size_pos {b} v ne = omega (arith, place_lt v, buffer_size_bounds v)

-- What a `pop` has done: `n` bytes, the block handed over, and the ring left.
pub record Popped (b : LoopBuffer) (r : ℕ × List ℕ × LoopBuffer) : Type 0 where
  pub valid : IsValid r.2
  pub kept : contents b ≡ r.1 ++ contents r.2
  pub counted : length r.1 ≡ r.0
  pub progress : size b ≢ 0 → 0 < r.0

-- `pop` of a valid ring hands over a first part of the bytes held, in order, returns its length,
-- leaves the rest in a valid ring, and hands over at least one byte of a ring that is not empty.
pub pop-Popped : {b : LoopBuffer} → IsValid b → Popped b (pop b)
pop-Popped {b} v = elim (ℕ_discrete (size b) 0) [
  | yes e ↦
      rw (pop_empty b e)
        (record { valid = v; kept = refl; counted = refl; progress = λ ne. absurd (ne e) })
  | no ne ↦ rw (pop_block v ne) (record {
    valid = commit-IsValid v (block_size b) (block_size-le v).0;
    kept =
        rw (readable_lem v, contents-commit v (block_size b) (block_size-le v).0)
          (sym (take-append-drop (block_size b) (contents b)));
    counted = length-readable v;
    progress = λ _. block_size_pos v ne;
  })
]
