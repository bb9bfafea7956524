-- ===== src/Websocket/Reader/Messages.antt =====
-- What the reader hands over of a message that `send_text` sent.
use native.Mathlib.Decide.{dec_lt}
use knet.Base.{
  ℕ, ◌+◌, ◌-◌, ◌%◌, ◌^◌, ◌≤◌, ◌<◌, min, ◌≡◌, ◌≢◌, refl, ap, ◌∙◌, sym, Bool, List, [], ◌∷◌, ◌++◌,
  arith, if◌then◌else◌, ltb, lt→ltb, le→not-ltb, if_true, length, take,
}
use knet.Websocket.Frame.{MaskKey}
use knet.Websocket.Frame.Bytes.{join16}
use knet.Websocket.Frame.Encode.{header}
use knet.Websocket.Reader.{Reader, Reply, read, read_medium, payload_view}
use knet.Websocket.Reader.View.{payload_view_lem}
use knet.Websocket.Reader.RoundTrip.{
  wire, seen, whole, read_dispatch, tail_bytes, pre16, wire_short, wire_medium, wire_long,
  short_whole, medium_whole, long_whole, reply_eq, size_of,
}

module _ (r : Reader) (msg : List ℕ) (op : ℕ) (mask : Bool) (k : MaskKey) (rest : List ℕ)
    (ready : r.status ≡ 0) (small : op < 16) where
  -- A frame of `send_text` that fits the reader's buffer is read as it was sent, masked or not,
  -- whatever follows it: the reader hands over the message, consumes the header and the message, and
  -- is left with the opcode, the mask bit and the length of the frame. The reader is in status 0,
  -- the opcode below 16, the buffer size below 2^32, and the message has not exactly 65535 bytes.
  pub read-wire :
      length msg ≢ 65535
      → length (header (length msg) op mask k) + length msg ≤ r.buffer_size
      → r.buffer_size < 2 ^ 32
      → read r (wire msg op mask k rest) ≡ whole msg op mask k r
  read-wire ne fits word = elim (dec_lt (length msg) 126) [
    | yes h ↦
        ap (read r) (wire_short msg op mask k rest h)
        ∙ read_dispatch r op mask (length msg) (tail_bytes msg op mask k rest) ready small
            (omega arith)
        ∙ if_true (ltb (length msg) 126) _ (lt→ltb (length msg) 126 h)
        ∙ short_whole msg op mask k rest r fits word h
    | no lo ↦ elim (dec_lt (length msg) 65535) [
      | yes h ↦
          ap (read r) (wire_medium msg op mask k rest (omega arith) h)
          ∙ read_dispatch r op mask 126 _ ready small (omega arith)
          ∙ medium_whole msg op mask k rest r fits word (omega arith) h
      | no hi ↦
          ap (read r) (wire_long msg op mask k rest (omega arith))
          ∙ read_dispatch r op mask 127 _ ready small (omega arith)
          ∙ long_whole msg op mask k rest r fits word (omega arith)
    ]
  ]

-- The reply to a frame of 126 to 65534 bytes that is larger than the reader's buffer.
abbrev pub cut : List ℕ → ℕ → Bool → MaskKey → List ℕ → Reader → Reply
cut msg op mask k rest r = record {
  consumed = length (wire msg op mask k rest);
  handed = take (min (length msg) (r.buffer_size - 4)) msg ∷ [];
  reader = record (seen r op mask 126) {
    payload_length = length msg;
    left_length = length (header (length msg) op mask k) + length msg - r.buffer_size;
  };
}

module _ (r : Reader) (msg : List ℕ) (op : ℕ) (mask : Bool) (k : MaskKey) (rest : List ℕ)
    (lo : 126 ≤ length msg) (h : length msg < 65535) (room : 4 ≤ r.buffer_size)
    (word : r.buffer_size < 2 ^ 32)
    (over : r.buffer_size < length (header (length msg) op mask k) + length msg) where
  view_cut :
      (n : ℕ)
      → n ≡ min (length msg) (r.buffer_size - 4)
      → payload_view mask (pre16 msg op mask k rest ++ tail_bytes msg op mask k rest) 4 n
        ≡ take (min (length msg) (r.buffer_size - 4)) msg
  view_cut n e = rw e (
      payload_view_lem (pre16 msg op mask k rest) k msg rest (min (length msg) (r.buffer_size - 4))
        (omega arith) mask)

  room_eq : (r.buffer_size + 2 ^ 64 - 4) % 2 ^ 64 ≡ r.buffer_size - 4
  room_eq = omega arith

  shown :
      (if ltb (length msg) (r.buffer_size - 4) then length msg else r.buffer_size - 4)
      ≡ min (length msg) (r.buffer_size - 4)
  shown = ground arith

  medium_cut :
      read_medium
        (seen r op mask 126)
        (pre16 msg op mask k rest ++ tail_bytes msg op mask k rest)
        mask
      ≡ cut msg op mask k rest r
  unfolding read_medium
  medium_cut =
      rw
        (
          join16 (length msg) (omega arith),
          size_of msg op mask k rest 4 (ground arith) (omega arith) (omega arith),
          room_eq,
          le→not-ltb (length (pre16 msg op mask k rest ++ tail_bytes msg op mask k rest)) 4
              (omega arith),
          lt→ltb r.buffer_size (length (header (length msg) op mask k) + length msg) over,
        )
        (reply_eq (ap length (sym (wire_medium msg op mask k rest lo h)))
          (ap (λ x. x ∷ []) (view_cut _ shown)) refl)

  -- A message of 126 to 65534 bytes whose frame is larger than the reader's buffer is cut: the
  -- reader hands over its first `buffer_size - 4` bytes, or all of it where only the masking key is
  -- over, takes all the data given for consumed, and keeps its status 0, so that the rest of the
  -- message is never handed over. The buffer size is at least 4 and below 2^32, the opcode below 16.
  pub read-wire-cut :
      r.status ≡ 0 → op < 16 → read r (wire msg op mask k rest) ≡ cut msg op mask k rest r
  read-wire-cut ready small =
      ap (read r) (wire_medium msg op mask k rest lo h)
      ∙ read_dispatch r op mask 126 _ ready small (omega arith)
      ∙ medium_cut
