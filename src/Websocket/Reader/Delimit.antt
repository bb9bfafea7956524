-- ===== src/Websocket/Reader/Delimit.antt =====
-- `get_message_length` and `handle_package` on what `send_text` sent.
use Prim.Native.Nat.{bit_or}
use native.Mathlib.Decide.{dec_lt}
use knet.Base.{
  ℤ, pos, negsuc, to_int32, ◌-◌, ℕ, ◌+◌, ◌%◌, ◌^◌, ◌≤◌, ◌<◌, ◌≡◌, refl, ap, ◌∙◌, sym, Bool, List,
  ◌∷◌, ◌++◌, arith, if◌then◌else◌, ltb, ◌==◌, lt→ltb, le→not-ltb, if_true, if_false, length,
  length-append,
}
use knet.Websocket.Frame.{MaskKey, get_message_length, handle_package, length16, length64}
use knet.Websocket.Frame.Bytes.{join16, join64}
use knet.Websocket.Frame.Encode.{header, mask_bit, body}
use knet.Websocket.Reader.View.{length-body}
use knet.Websocket.Reader.RoundTrip.{
  wire, tail_bytes, wire_short, wire_medium, wire_long, length-header, length-key_bytes,
  mask_bytes_le, second_byte_masked, second_byte_mark,
}

too_few :
    (bytes : List ℕ) (n : ℤ)
    → length bytes < 16
    → handle_package bytes ≡ (if ltb (length bytes) 16 then pos 0 else n)
unfolding handle_package
too_few bytes n h = ground arith

module _ (msg : List ℕ) (op : ℕ) (mask : Bool) (k : MaskKey) (rest : List ℕ) where
  mark_eq :
      (b0 mark : ℕ) (tail : List ℕ)
      → mark < 128
      → 16 ≤ length (b0 ∷ bit_or mark (mask_bit mask) ∷ tail)
      → get_message_length (b0 ∷ bit_or mark (mask_bit mask) ∷ tail) ≡ (
          if ltb mark 126
          then 2 + (if mask then 4 else 0) + mark
          else if mark == 126
          then 2 + (if mask then 4 else 0) + 2 + length16 (b0 ∷ bit_or mark (mask_bit mask) ∷ tail)
          else (2
              + (if mask then 4 else 0)
              + 8
              + length64 (b0 ∷ bit_or mark (mask_bit mask) ∷ tail))
            % 2 ^ 64)
  unfolding get_message_length
  mark_eq b0 mark tail h long =
      rw
        (
          get_message_length,
          second_byte_masked mark mask h,
          second_byte_mark mark mask h,
          le→not-ltb (length (b0 ∷ bit_or mark (mask_bit mask) ∷ tail)) 16 long,
        )
        refl

  sizes :
      (hs : ℕ)
      → (if ltb (length msg) 126 then 2 else if ltb (length msg) 65535 then 4 else 10) ≡ hs
      → hs + (if mask then 4 else 0) + length msg
        ≡ length (header (length msg) op mask k) + length msg
  sizes hs e =
      omega (arith, length-header msg op mask k rest, length-key_bytes msg op mask k rest, e)

  length-wire :
      length (wire msg op mask k rest)
      ≡ length (header (length msg) op mask k) + length msg + length rest
  length-wire = omega (
    arith,
    length-append (header (length msg) op mask k) (body mask k msg ++ rest),
    length-append (body mask k msg) rest,
    length-body mask k msg,
  )

  module _ (small : length msg < 2 ^ 62) (long : 16 ≤ length (wire msg op mask k rest)) where
    message_length_short :
        length msg < 126
        → get_message_length (wire msg op mask k rest)
          ≡ length (header (length msg) op mask k) + length msg
    message_length_short h =
        ap get_message_length (wire_short msg op mask k rest h)
        ∙ mark_eq (bit_or 0x80 op) (length msg) (tail_bytes msg op mask k rest) (omega arith)
            (omega (arith, long, ap length (wire_short msg op mask k rest h)))
        ∙ if_true (ltb (length msg) 126) _ (lt→ltb (length msg) 126 h)
        ∙ sizes 2 (ground arith)

    message_length_medium :
        126 ≤ length msg
        → length msg < 65535
        → get_message_length (wire msg op mask k rest)
          ≡ length (header (length msg) op mask k) + length msg
    message_length_medium lo h =
        ap get_message_length (wire_medium msg op mask k rest lo h)
        ∙ mark_eq (bit_or 0x80 op) 126 _ (omega arith)
            (omega (arith, long, ap length (wire_medium msg op mask k rest lo h)))
        ∙ ap (λ (n : ℕ). 2 + (if mask then 4 else 0) + 2 + n) (join16 (length msg) (omega arith))
        ∙ omega (arith, sizes 4 (ground arith))

    message_length_long :
        65535 ≤ length msg
        → get_message_length (wire msg op mask k rest)
          ≡ length (header (length msg) op mask k) + length msg
    message_length_long h =
        ap get_message_length (wire_long msg op mask k rest h)
        ∙ mark_eq (bit_or 0x80 op) 127 _ (omega arith)
            (omega (arith, long, ap length (wire_long msg op mask k rest h)))
        ∙ ap (λ (n : ℕ). (2 + (if mask then 4 else 0) + 8 + n) % 2 ^ 64)
            (join64 (length msg) (omega arith))
        ∙ omega (arith, sizes 10 (ground arith), mask_bytes_le msg op mask k rest)

    get_message_length-wire :
        get_message_length (wire msg op mask k rest)
        ≡ length (header (length msg) op mask k) + length msg
    get_message_length-wire = elim (dec_lt (length msg) 126) [
      | yes h ↦ message_length_short h
      | no lo ↦ elim (dec_lt (length msg) 65535) [
        | yes h ↦ message_length_medium (omega arith) h
        | no hi ↦ message_length_long (omega arith)
      ]
    ]

  abbrev pub frame_size : ℕ
  frame_size = length (header (length msg) op mask k) + length msg

  -- On data of fewer than 2^32 bytes, the range of `len`, that starts with a frame of `send_text`,
  -- `handle_package` returns, whatever follows, the size of that frame if the data has at least 16
  -- bytes, and 0 otherwise, although the frame may be there whole. For a frame of 2^31 bytes or more
  -- it returns the size less 2^32, which is negative.
  pub handle_package-wire :
      length (wire msg op mask k rest) < 2 ^ 32
      → handle_package (wire msg op mask k rest) ≡ (
          if ltb (length (wire msg op mask k rest)) 16
          then pos 0
          else if ltb frame_size (2 ^ 31)
          then pos frame_size
          else negsuc (2 ^ 32 - 1 - frame_size))
  unfolding handle_package
  handle_package-wire fits = elim (dec_lt (length (wire msg op mask k rest)) 16) [
    | yes few ↦ too_few (wire msg op mask k rest) _ few
    | no many ↦
        let e = get_message_length-wire (omega (arith, length-wire)) (omega arith) in
        let low : frame_size % 2 ^ 32 ≡ frame_size = omega (arith, length-wire) in
        ap (λ (n : ℕ). if ltb (length (wire msg op mask k rest)) n then pos 0 else to_int32 n) e
        ∙ if_false _ _
            (le→not-ltb (length (wire msg op mask k rest)) frame_size (omega (arith, length-wire)))
        ∙ ap (λ (w : ℕ). if ltb w (2 ^ 31) then pos w else negsuc (2 ^ 32 - 1 - w)) low
        ∙ sym (if_false _ _ (le→not-ltb (length (wire msg op mask k rest)) 16 (omega arith)))
  ]
