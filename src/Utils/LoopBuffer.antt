-- ===== src/Utils/LoopBuffer.antt =====
-- include/utils/loop_buffer.hpp: the byte ring of class `LoopBuffer`, for one thread. A buffer
-- passed to `push` is the list of its bytes; what a handler is called with is a result.
pub mod Contents
pub mod Write
pub mod Read
mod History
mod Parts
mod Tests
use Prim.Native.Nat.{bit_and, bit_or}
use knet.Base.{
  ℕ, ◌+◌, ◌-◌, ◌/◌, ◌%◌, ◌^◌, ◌≤◌, ◌<◌, min, ◌≡◌, Bool, List, [], ◌∷◌, if◌then◌else◌, ltb, ◌==◌,
  length, take, drop, copy_to, add32, sub32, u32_mod,
}

-- `buffer_size` is the template's `BufferSize`.
pub record LoopBuffer : Type 0 where
  pub buffer_size : ℕ
  pub head : ℕ
  pub tail : ℕ
  pub buffer : List ℕ

-- n |= n >> s
abbrev pub smear : ℕ → ℕ → ℕ
smear s n = bit_or n (n / 2 ^ s)

unfoldable pub get_power_of_two : ℕ → ℕ
get_power_of_two n = add32 (smear 16 (smear 8 (smear 4 (smear 2 (smear 1 (sub32 n 1)))))) 1

-- `BufferSize` of `kMaxSize`, a `size_t` that the call cuts to 32 bits.
unfoldable pub buffer_size_of : ℕ → ℕ
unfolding get_power_of_two
buffer_size_of max_size =
    if bit_and max_size (max_size - 1) == 0
    then max_size % u32_mod
    else get_power_of_two (max_size % u32_mod)

unfoldable pub size : LoopBuffer → ℕ
size b = sub32 b.tail b.head

unfoldable pub peek : LoopBuffer → ℕ
unfolding size
peek b = sub32 b.buffer_size (size b)

unfoldable pub is_empty : LoopBuffer → Bool
is_empty b = b.head == b.tail

unfoldable pub clear : LoopBuffer → LoopBuffer
clear b = record b { head = 0; tail = 0 }

-- The two `memcpy` of `push`.
unfoldable pub store : ℕ → List ℕ → ℕ → List ℕ → List ℕ
store cap buffer write_pos bytes =
    let tail_size = sub32 cap write_pos in
    if ltb tail_size (length bytes)
    then copy_to (copy_to buffer write_pos (take tail_size bytes)) 0 (drop tail_size bytes)
    else copy_to buffer write_pos bytes

unfoldable pub push : LoopBuffer → List ℕ → ℕ × LoopBuffer
unfolding store peek
push b bytes =
    let len = length bytes in
    if ltb (peek b) len then (0, b) else (
      len,
      record b {
        tail = add32 b.tail len;
        buffer = store b.buffer_size b.buffer (bit_and b.tail (b.buffer_size - 1)) bytes;
      },
    )

-- `_mpush` stops at the first part of which `push` takes nothing.
unfoldable pub mpush : LoopBuffer → List (List ℕ) → ℕ × LoopBuffer
unfolding push
mpush b [] = (0, b)
mpush b (part ∷ rest) =
    let (ret, b') = push b part in
    let more = mpush b' rest in if ltb 0 ret then (add32 ret more.0, more.1) else (0, b')

-- The block that a reader is handed: up to the end of the array.
unfoldable pub readable : LoopBuffer → List ℕ
unfolding size
readable b =
    let read_pos = bit_and b.head (b.buffer_size - 1) in
    take (min (size b) (sub32 b.buffer_size read_pos)) (drop read_pos b.buffer)

-- Both `read`: the length and the block, `none` of it taken out.
unfoldable pub read : LoopBuffer → ℕ × List ℕ
unfolding readable size
read b =
    if size b == 0
    then (0, [])
    else (min (size b) (sub32 b.buffer_size (bit_and b.head (b.buffer_size - 1))), readable b)

unfoldable pub commit : LoopBuffer → ℕ → ℕ × LoopBuffer
commit b len = (len, record b { head = add32 b.head len })

-- `pop`: the length returned, the block handed over, and the buffer after it.
unfoldable pub pop : LoopBuffer → ℕ × List ℕ × LoopBuffer
unfolding readable size
pop b =
    if size b == 0
    then (0, [], b)
    else let len = min (size b) (sub32 b.buffer_size (bit_and b.head (b.buffer_size - 1))) in
      (len, readable b, record b { head = add32 b.head len })
