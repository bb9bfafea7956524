-- ===== src/Websocket/Frame.antt =====
-- The frames of include/websocket: `WSockConnection::send_text`, `get_message_length` and
-- `handle_package`, and `WSMessageReader::read` of wsock_protocol.hpp. A buffer is the list of its
-- bytes. The random masking key and the message are arguments, and the handler is set.
pub mod Encode
pub mod Bytes
use Prim.Native.Nat.{bit_and, bit_or, bit_xor}
use knet.Base.{
  ℕ, zero, suc, ◌+◌, ◌-◌, ◌*◌, ◌/◌, ◌%◌, ◌^◌, Bool, true, false, Option, none, some, List, [], ◌∷◌,
  if◌then◌else◌, ltb, leb, ◌==◌, length, get_or, set, ℤ, pos, to_int32,
}

pub record MaskKey : Type 0 where
  pub key0 : ℕ
  pub key1 : ℕ
  pub key2 : ℕ
  pub key3 : ℕ

-- maskKey[j]
abbrev pub key_at : MaskKey → ℕ → ℕ
key_at k zero = k.key0
key_at k (suc zero) = k.key1
key_at k (suc (suc zero)) = k.key2
key_at k (suc (suc (suc j))) = k.key3

-- header[i] = v for each pair; `none` is a write past the end of the vector.
abbrev pub put_all : List ℕ → List (ℕ × ℕ) → Option (List ℕ)
put_all header [] = some header
put_all header ((i, v) ∷ writes) =
    let rest = put_all (set header i v) writes in if ltb i (length header) then rest else none

abbrev pub replicate : ℕ → ℕ → List ℕ
replicate zero v = []
replicate (suc n) v = v ∷ replicate n v

-- The size given to `header.assign` for a message of `n` bytes.
abbrev pub header_size : ℕ → Bool → ℕ
header_size n mask =
    2 + (if leb 126 n then 2 else 0) + (if leb 65536 n then 6 else 0) + (if mask then 4 else 0)

-- The byte of `n` at bit `s`.
abbrev pub byte_of : ℕ → ℕ → ℕ
byte_of n s = bit_and (n / 2 ^ s) 0xff

-- The four writes of the key from index `at` on.
abbrev pub key_writes : Bool → MaskKey → ℕ → List (ℕ × ℕ)
key_writes true k at = (at, k.key0) ∷ (at + 1, k.key1) ∷ (at + 2, k.key2) ∷ (at + 3, k.key3) ∷ []
key_writes false k at = []

-- The assignments to `header` of `send_text`.
unfoldable pub header_writes : ℕ → ℕ → Bool → MaskKey → List (ℕ × ℕ)
header_writes n op mask k =
    let payload_byte = if mask then 0x80 else 0 in
    (0, bit_or 0x80 op)
    ∷ (if ltb n 126
        then (1, bit_or (bit_and n 0xff) payload_byte) ∷ key_writes mask k 2
        else if ltb n 65535
        then (1, bit_or 126 payload_byte)
          ∷ (2, byte_of n 8)
          ∷ (3, byte_of n 0)
          ∷ key_writes mask k 4
        else (1, bit_or 127 payload_byte)
          ∷ (2, byte_of n 56)
          ∷ (3, byte_of n 48)
          ∷ (4, byte_of n 40)
          ∷ (5, byte_of n 32)
          ∷ (6, byte_of n 24)
          ∷ (7, byte_of n 16)
          ∷ (8, byte_of n 8)
          ∷ (9, byte_of n 0)
          ∷ key_writes mask k 10)

-- sendMsg[i] ^= maskKey[i % 4], from index `i` on
abbrev pub mask_from : MaskKey → ℕ → List ℕ → List ℕ
mask_from k i [] = []
mask_from k i (x ∷ xs) = bit_xor x (key_at k (i % 4)) ∷ mask_from k (suc i) xs

-- `send_text` up to its `msend`: the header and the body that it sends. `none`: it writes past the end
-- of its header, or the loop over a masked message of 2 ^ 32 bytes or more, whose index is a `uint32_t`,
-- does not end.
unfoldable pub send_text : List ℕ → ℕ → Bool → MaskKey → Option (List ℕ × List ℕ)
unfolding header_writes
send_text msg op mask k =
    elim (put_all (replicate (header_size (length msg) mask) 0)
      (header_writes (length msg) op mask k)) [
        | none ↦ none
        | some header ↦
            if mask
            then if ltb (length msg) (2 ^ 32) then some (header, mask_from k 0 msg) else none
            else some (header, msg)
      ]

-- `ntohs` and `ntohll` of the bytes behind the first two.
abbrev pub length16 : List ℕ → ℕ
length16 data' = get_or data' 2 0 * 2 ^ 8 + get_or data' 3 0

abbrev pub length64 : List ℕ → ℕ
length64 data' =
    get_or data' 2 0 * 2 ^ 56
    + get_or data' 3 0 * 2 ^ 48
    + get_or data' 4 0 * 2 ^ 40
    + get_or data' 5 0 * 2 ^ 32
    + get_or data' 6 0 * 2 ^ 24
    + get_or data' 7 0 * 2 ^ 16
    + get_or data' 8 0 * 2 ^ 8
    + get_or data' 9 0

abbrev pub is_masked : ℕ → Bool
is_masked v1 = bit_and v1 0x80 == 0x80

-- sizeof(MinFrameHead)
abbrev pub min_frame_head : ℕ
min_frame_head = 16

unfoldable pub get_message_length : List ℕ → ℕ
get_message_length data' =
    let v1 = get_or data' 1 0 in
    let mark = bit_and v1 0x7f in
    let head = 2 + (if is_masked v1 then 4 else 0) in
    if ltb (length data') min_frame_head
    then 0
    else if ltb mark 126
    then head + mark
    else if mark == 126
    then head + 2 + length16 data'
    else (head + 8 + length64 data') % 2 ^ 64

-- The result is an `int32_t`; the data is shorter than 2 ^ 32 bytes, the range of `len`.
unfoldable pub handle_package : List ℕ → ℤ
unfolding get_message_length
handle_package data' =
    let ws_len = get_message_length data' in
    if ltb (length data') ws_len then pos 0 else to_int32 ws_len
