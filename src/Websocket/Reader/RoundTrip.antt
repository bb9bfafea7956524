-- ===== src/Websocket/Reader/RoundTrip.antt =====
-- Reading what `send_text` sent.
use Prim.Native.Nat.{bit_and, bit_or}
use native.Mathlib.Nat.{mod-eq_of_lt}
use knet.Base.{
  ℕ, ◌+◌, ◌^◌, ◌≤◌, ◌<◌, ◌≡◌, refl, sym, ap, ◌∙◌, Bool, true, false, List, [], ◌∷◌, ◌++◌, arith,
  if◌then◌else◌, ltb, lt→ltb, le→not-ltb, ==_iff, ◌==◌, length, take_all, bit_and-mask,
}
use knet.Websocket.Frame.{MaskKey, byte_of, is_masked}
use knet.Websocket.Frame.Bytes.{
  with_mask_bit, with_fin_bit, without_mask_bit, is_masked_high, is_masked_low, low_bits, join16,
  join64,
}
use knet.Websocket.Frame.Encode.{header, key_bytes, mask_bit, body}
use knet.Websocket.Reader.{
  Reader, Reply, payload_view, frame_size, read, read_head, read_short, read_medium, read_long,
}
use knet.Websocket.Reader.View.{payload_view_lem}

-- The bytes that `send_text` sends for a message, and what follows them.
abbrev pub wire : List ℕ → ℕ → Bool → MaskKey → List ℕ → List ℕ
wire msg op mask k rest = header (length msg) op mask k ++ (body mask k msg ++ rest)

pub second_byte_masked :
    (mark : ℕ) (mask : Bool) → mark < 128 → is_masked (bit_or mark (mask_bit mask)) ≡ mask
second_byte_masked mark true h =
    rw (with_mask_bit mark h) (is_masked_high (mark + 128) (omega arith) (omega arith))
second_byte_masked mark false h = rw (without_mask_bit mark h) (is_masked_low mark h)

pub second_byte_mark :
    (mark : ℕ) (mask : Bool) → mark < 128 → bit_and (bit_or mark (mask_bit mask)) 0x7f ≡ mark
second_byte_mark mark true h = rw (with_mask_bit mark h, low_bits) (omega arith)
second_byte_mark mark false h = rw (without_mask_bit mark h, low_bits) (omega arith)

first_byte_fin : (op : ℕ) → op < 16 → (bit_and (bit_or 0x80 op) 0x80 == 0x80) ≡ true
first_byte_fin op h =
    rw (with_fin_bit op (omega arith)) (is_masked_high (op + 128) (omega arith) (omega arith))

first_byte_opcode : (op : ℕ) → op < 16 → bit_and (bit_or 0x80 op) 0x0f ≡ op
first_byte_opcode op h = rw (with_fin_bit op (omega arith), bit_and-mask 4 (op + 128)) (omega arith)

-- The reader after the two first bytes of a frame.
abbrev pub seen : Reader → ℕ → Bool → ℕ → Reader
seen r op mask mark = record r {
  head = record { fin = true; opcode = op; mask = mask; len = mark };
}

module _ (r : Reader) (op : ℕ) (mask : Bool) (mark : ℕ) (tail : List ℕ) (ready : r.status ≡ 0)
    (small : op < 16) where
  abbrev pub head_bytes : List ℕ
  head_bytes = bit_or 0x80 op ∷ bit_or mark (mask_bit mask) ∷ tail

  read_ready : read r head_bytes ≡ read_head r head_bytes
  unfolding read
  read_ready = rw ((==_iff r.status 0).1 ready, le→not-ltb (length head_bytes) 2 (omega arith)) refl

  pub read_dispatch :
      mark < 128
      → read r head_bytes ≡ (
          if ltb mark 126
          then read_short (seen r op mask mark) head_bytes mask mark
          else if mark == 126
          then read_medium (seen r op mask mark) head_bytes mask
          else if mark == 127
          then read_long (seen r op mask mark) head_bytes mask
          else record { consumed = 0; handed = []; reader = seen r op mask mark })
  unfolding read_head
  read_dispatch h =
      read_ready
      ∙ rw
          (
            read_head,
            second_byte_masked mark mask h,
            second_byte_mark mark mask h,
            first_byte_fin op small,
            first_byte_opcode op small,
          )
          refl

pub reply_eq :
    {c c' : ℕ} {h h' : List (List ℕ)} {s s' : Reader}
    → c ≡ c'
    → h ≡ h'
    → s ≡ s'
    → ◌≡◌ {A = Reply}
        (record { consumed = c; handed = h; reader = s })
        (record { consumed = c'; handed = h'; reader = s' })
reply_eq p q e = λ i. record { consumed = p i; handed = q i; reader = e i }

-- The two first bytes and the length field, by the length of the message.
abbrev pub mark_of : ℕ → ℕ
mark_of n = if ltb n 126 then n else if ltb n 65535 then 126 else 127

-- The reply to a frame that is handed over whole.
abbrev pub whole : List ℕ → ℕ → Bool → MaskKey → Reader → Reply
whole msg op mask k r = record {
  consumed = length (header (length msg) op mask k) + length msg;
  handed = msg ∷ [];
  reader = record (seen r op mask (mark_of (length msg))) { payload_length = length msg };
}

module _ (msg : List ℕ) (op : ℕ) (mask : Bool) (k : MaskKey) (rest : List ℕ) where
  abbrev pub tail_bytes : List ℕ
  tail_bytes = key_bytes mask k ++ (body mask k msg ++ rest)

  abbrev pub pre16 : List ℕ
  pre16 =
      bit_or 0x80 op
      ∷ bit_or 126 (mask_bit mask)
      ∷ byte_of (length msg) 8
      ∷ byte_of (length msg) 0
      ∷ []

  abbrev pub pre64 : List ℕ
  pre64 =
      bit_or 0x80 op
      ∷ bit_or 127 (mask_bit mask)
      ∷ byte_of (length msg) 56
      ∷ byte_of (length msg) 48
      ∷ byte_of (length msg) 40
      ∷ byte_of (length msg) 32
      ∷ byte_of (length msg) 24
      ∷ byte_of (length msg) 16
      ∷ byte_of (length msg) 8
      ∷ byte_of (length msg) 0
      ∷ []

  pub wire_short :
      length msg < 126
      → wire msg op mask k rest
        ≡ (bit_or 0x80 op ∷ bit_or (length msg) (mask_bit mask) ∷ []) ++ tail_bytes
  wire_short h =
      rw
        (
          lt→ltb (length msg) 126 h,
          bit_and-mask 8 (length msg),
          mod-eq_of_lt {n = length msg} {m = 256} (omega arith),
        )
        refl

  pub wire_medium :
      126 ≤ length msg → length msg < 65535 → wire msg op mask k rest ≡ pre16 ++ tail_bytes
  wire_medium lo h = rw (le→not-ltb (length msg) 126 lo, lt→ltb (length msg) 65535 h) refl

  pub wire_long : 65535 ≤ length msg → wire msg op mask k rest ≡ pre64 ++ tail_bytes
  wire_long h = rw (le→not-ltb (length msg) 126 (omega arith), le→not-ltb (length msg) 65535 h) refl

  -- The bytes in front of the body.
  pub length-header :
      length (header (length msg) op mask k)
      ≡ (if ltb (length msg) 126 then 2 else if ltb (length msg) 65535 then 4 else 10)
        + length (key_bytes mask k)
  length-header = ground arith

  pub length-key_bytes : length (key_bytes mask k) ≡ (if mask then 4 else 0)
  length-key_bytes = ground arith

  pub mask_bytes_le : (if mask then 4 else 0) ≤ 4
  mask_bytes_le = ground arith

  pub size_of :
      (hs : ℕ)
      → (if ltb (length msg) 126 then 2 else if ltb (length msg) 65535 then 4 else 10) ≡ hs
      → hs ≤ 10
      → length msg < 2 ^ 62
      → frame_size (length msg) hs mask ≡ length (header (length msg) op mask k) + length msg
  size_of hs e small h = omega (arith, length-header, length-key_bytes, e, mask_bytes_le)

  module _ (r : Reader) (fits : length (header (length msg) op mask k) + length msg ≤ r.buffer_size)
      (word : r.buffer_size < 2 ^ 32) where
    view : (pre : List ℕ) → payload_view mask (pre ++ tail_bytes) (length pre) (length msg) ≡ msg
    view pre =
        payload_view_lem pre k msg rest (length msg) (omega arith) mask
        ∙ take_all (length msg) msg (omega arith)

    reader_eq :
        (mark : ℕ)
        → mark_of (length msg) ≡ mark
        → ◌≡◌ {A = Reader}
            (record (seen r op mask mark) { payload_length = length msg })
            (whole msg op mask k r).reader
    reader_eq mark e =
        ap (λ (m : ℕ). record (seen r op mask m) { payload_length = length msg }) (sym e)

    pub short_whole :
        length msg < 126
        → read_short
            (seen r op mask (length msg))
            ((bit_or 0x80 op ∷ bit_or (length msg) (mask_bit mask) ∷ []) ++ tail_bytes)
            mask
            (length msg)
          ≡ whole msg op mask k r
    unfolding read_short
    short_whole h =
        reply_eq
          (omega
            (arith, size_of 2 (ground arith) (omega arith) (omega (arith, fits, word)), fits, word))
          (ap (λ x. x ∷ []) (view (bit_or 0x80 op ∷ bit_or (length msg) (mask_bit mask) ∷ [])))
          (reader_eq (length msg) (ground arith))

    pub medium_whole :
        126 ≤ length msg
        → length msg < 65535
        → read_medium (seen r op mask 126) (pre16 ++ tail_bytes) mask ≡ whole msg op mask k r
    unfolding read_medium
    medium_whole lo h =
        rw
          (
            join16 (length msg) (omega arith),
            size_of 4 (ground arith) (omega arith) (omega (arith, fits, word)),
            le→not-ltb (length (pre16 ++ tail_bytes)) 4 (omega arith),
            le→not-ltb r.buffer_size (length (header (length msg) op mask k) + length msg) fits,
          )
          (reply_eq (omega (arith, fits, word)) (ap (λ x. x ∷ []) (view pre16))
            (reader_eq 126 (ground arith)))

    pub long_whole :
        65535 ≤ length msg
        → read_long (seen r op mask 127) (pre64 ++ tail_bytes) mask ≡ whole msg op mask k r
    unfolding read_long
    long_whole h =
        rw
          (
            join64 (length msg) (omega (arith, fits, word)),
            size_of 10 (ground arith) (omega arith) (omega (arith, fits, word)),
            le→not-ltb (length (pre64 ++ tail_bytes)) 10 (omega arith),
            le→not-ltb r.buffer_size (length (header (length msg) op mask k) + length msg) fits,
          )
          (reply_eq (omega (arith, fits, word)) (ap (λ x. x ∷ []) (view pre64))
            (reader_eq 127 (ground arith)))
