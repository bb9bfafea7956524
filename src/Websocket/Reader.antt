-- ===== src/Websocket/Reader.antt =====
-- `WSMessageReader` of include/websocket/wsock_protocol.hpp. `read` gives what it returns, the
-- views that it hands to the handler and the reader after the call. A view ends where the data ends,
-- and a byte behind the data is 0: the code reads what lies there.
pub mod View
pub mod RoundTrip
mod Messages
mod Delimit
mod Tests
use Prim.Native.Nat.{bit_and, bit_xor}
use knet.Base.{
  ℕ, ◌+◌, ◌-◌, ◌%◌, ◌^◌, min, Bool, List, [], ◌∷◌, if◌then◌else◌, ltb, ◌==◌, length, get_or, take,
  drop, tabulate,
}
use knet.Websocket.Frame.{length16, length64, is_masked}

pub record MinFrameHead : Type 0 where
  pub fin : Bool
  pub opcode : ℕ
  pub mask : Bool
  pub len : ℕ

pub record Reader : Type 0 where
  pub head : MinFrameHead
  pub buffer_size : ℕ
  pub left_length : ℕ
  pub payload_length : ℕ
  pub status : ℕ

pub record Reply : Type 0 where
  pub consumed : ℕ
  pub handed : List (List ℕ)
  pub reader : Reader

-- A view of `n` bytes from `at` on.
abbrev pub slice : List ℕ → ℕ → ℕ → List ℕ
slice bytes at n = take n (drop at bytes)

-- payload[i] = pData[payloadPos + i] ^ maskKey[i % 4], with the key at `key_pos`.
abbrev pub unmask : List ℕ → ℕ → ℕ → ℕ → List ℕ
unmask bytes key_pos payload_pos n =
    tabulate n λ i. bit_xor (get_or bytes (payload_pos + i) 0) (get_or bytes (key_pos + i % 4) 0)

-- The view handed over for the first `n` bytes of the payload behind a head of `head_size`.
abbrev pub payload_view : Bool → List ℕ → ℕ → ℕ → List ℕ
payload_view mask bytes head_size n =
    if mask then unmask bytes head_size (head_size + 4) n else slice bytes head_size n

abbrev pub frame_size : ℕ → ℕ → Bool → ℕ
frame_size payload_length head_size mask =
    (payload_length + head_size + (if mask then 4 else 0)) % 2 ^ 64

-- The branch `payloadMark < 126`.
unfoldable pub read_short : Reader → List ℕ → Bool → ℕ → Reply
read_short r bytes mask mark = record {
  consumed = frame_size mark 2 mask % 2 ^ 32;
  handed = payload_view mask bytes 2 mark ∷ [];
  reader = record r { payload_length = mark };
}

-- The branch `payloadMark == 126`.
unfoldable pub read_medium : Reader → List ℕ → Bool → Reply
read_medium r bytes mask =
    if ltb (length bytes) 4
    then record { consumed = 0; handed = []; reader = r }
    else let n = length16 bytes in
      let total = frame_size n 4 mask in
      let room = (r.buffer_size + 2 ^ 64 - 4) % 2 ^ 64 in
      if ltb r.buffer_size total
      then record {
        consumed = length bytes;
        handed = payload_view mask bytes 4 (if ltb n room then n else room) ∷ [];
        reader = record r { payload_length = n; left_length = total - r.buffer_size };
      }
      else record {
        consumed = total % 2 ^ 32;
        handed = payload_view mask bytes 4 n ∷ [];
        reader = record r { payload_length = n };
      }

-- The branch `payloadMark == 127`; a frame beyond the buffer is handed over as it came.
unfoldable pub read_long : Reader → List ℕ → Bool → Reply
read_long r bytes mask =
    if ltb (length bytes) 10
    then record { consumed = 0; handed = []; reader = r }
    else let n = length64 bytes in
      let total = frame_size n 10 mask in
      if ltb r.buffer_size total
      then record {
        consumed = length bytes;
        handed = slice bytes 10 ((r.buffer_size + 2 ^ 64 - 10) % 2 ^ 64) ∷ [];
        reader = record r { payload_length = n; left_length = total - r.buffer_size };
      }
      else record {
        consumed = total % 2 ^ 32;
        handed = payload_view mask bytes 10 n ∷ [];
        reader = record r { payload_length = n };
      }

-- The branch `status == 0`.
unfoldable pub read_head : Reader → List ℕ → Reply
unfolding read_short read_medium read_long
read_head r bytes =
    let v0 = get_or bytes 0 0 in
    let v1 = get_or bytes 1 0 in
    let mask = is_masked v1 in
    let mark = bit_and v1 0x7f in
    let head : MinFrameHead = record {
      fin = bit_and v0 0x80 == 0x80;
      opcode = bit_and v0 0x0f;
      mask = mask;
      len = mark;
    } in
    let r' = record r { head = head } in
    if ltb mark 126
    then read_short r' bytes mask mark
    else if mark == 126
    then read_medium r' bytes mask
    else if mark == 127
    then read_long r' bytes mask
    else record { consumed = 0; handed = []; reader = r' }

-- The branch `status == 1`.
unfoldable pub read_chunk : Reader → List ℕ → Reply
read_chunk r bytes =
    if ltb r.left_length (length bytes)
    then record {
      consumed = r.left_length % 2 ^ 32;
      handed = take r.left_length bytes ∷ [];
      reader = record r { left_length = 0; payload_length = 0 };
    }
    else record {
      consumed = length bytes;
      handed = bytes ∷ [];
      reader = record r { left_length = r.left_length - length bytes };
    }

unfoldable pub read : Reader → List ℕ → Reply
unfolding read_head read_chunk
read r bytes =
    if ltb (length bytes) 2
    then record { consumed = 0; handed = []; reader = r }
    else if r.status == 0
    then read_head r bytes
    else if r.status == 1
    then read_chunk r bytes
    else record { consumed = 0; handed = []; reader = r }
