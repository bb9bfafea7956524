-- ===== src/Websocket/Frame/Encode.antt =====
-- What `send_text` puts on the wire.
use Prim.Native.Nat.{bit_and, bit_or, bit_xor}
use knet.Base.{
  ℕ, zero, suc, ◌+◌, ◌%◌, ◌^◌, sym, ap, ◌∙◌, Option, get_or, tabulate, tabulate_eq, if_true,
  if_false, ◌≤◌, ◌<◌, ◌≡◌, ◌≢◌, refl, Bool, true, false, none, some, List, [], ◌∷◌, arith,
  if◌then◌else◌, ltb, ◌==◌, le→leb, le→not-ltb, ==_iff, ne→not-==, length,
}
use native.Mathlib.Decide.{dec_lt, ℕ_discrete}
use knet.Websocket.Frame.{
  MaskKey, put_all, header_size, header_writes, byte_of, key_at, mask_from, send_text, replicate,
}

-- The key's bytes in a header, and the mask bit of its second byte.
abbrev pub key_bytes : Bool → MaskKey → List ℕ
key_bytes true k = k.key0 ∷ k.key1 ∷ k.key2 ∷ k.key3 ∷ []
key_bytes false k = []

abbrev pub mask_bit : Bool → ℕ
mask_bit mask = if mask then 0x80 else 0

abbrev pub body : Bool → MaskKey → List ℕ → List ℕ
body mask k msg = if mask then mask_from k 0 msg else msg

-- The header as `send_text` leaves it.
abbrev pub header : ℕ → ℕ → Bool → MaskKey → List ℕ
header n op mask k =
    bit_or 0x80 op
    ∷ (if ltb n 126
        then bit_or (bit_and n 0xff) (mask_bit mask) ∷ key_bytes mask k
        else if ltb n 65535
        then bit_or 126 (mask_bit mask) ∷ byte_of n 8 ∷ byte_of n 0 ∷ key_bytes mask k
        else bit_or 127 (mask_bit mask)
          ∷ byte_of n 56
          ∷ byte_of n 48
          ∷ byte_of n 40
          ∷ byte_of n 32
          ∷ byte_of n 24
          ∷ byte_of n 16
          ∷ byte_of n 8
          ∷ byte_of n 0
          ∷ key_bytes mask k)

put_short :
    (n op : ℕ) (mask : Bool) (k : MaskKey)
    → n < 126
    → put_all (replicate (header_size n mask) 0) (header_writes n op mask k)
      ≡ some (header n op mask k)
unfolding header_writes
put_short n op true k h = ground arith
put_short n op false k h = ground arith

put_medium :
    (n op : ℕ) (mask : Bool) (k : MaskKey)
    → 126 ≤ n
    → n < 65535
    → put_all (replicate (header_size n mask) 0) (header_writes n op mask k)
      ≡ some (header n op mask k)
unfolding header_writes
put_medium n op true k lo h = ground arith
put_medium n op false k lo h = ground arith

put_long :
    (n op : ℕ) (mask : Bool) (k : MaskKey)
    → 65536 ≤ n
    → put_all (replicate (header_size n mask) 0) (header_writes n op mask k)
      ≡ some (header n op mask k)
unfolding header_writes
put_long n op true k h =
    rw
      (
        le→leb 126 n (omega arith),
        le→leb 65536 n (omega arith),
        le→not-ltb n 126 (omega arith),
        le→not-ltb n 65535 (omega arith),
      )
      refl
put_long n op false k h = ground arith

put_overrun :
    (op : ℕ) (mask : Bool) (k : MaskKey)
    → put_all (replicate (header_size 65535 mask) 0) (header_writes 65535 op mask k) ≡ none
unfolding header_writes
put_overrun op true k = refl
put_overrun op false k = refl

written_ok :
    (n op : ℕ) (mask : Bool) (k : MaskKey)
    → n ≢ 65535
    → put_all (replicate (header_size n mask) 0) (header_writes n op mask k)
      ≡ some (header n op mask k)
written_ok n op mask k ne = elim (dec_lt n 126) [
  | yes p ↦ put_short n op mask k p
  | no p ↦ elim (dec_lt n 65535) [
    | yes q ↦ put_medium n op mask k (omega arith) q
    | no q ↦ put_long n op mask k (omega arith)
  ]
]

written_overrun :
    (n op : ℕ) (mask : Bool) (k : MaskKey)
    → n ≡ 65535
    → put_all (replicate (header_size n mask) 0) (header_writes n op mask k) ≡ none
written_overrun n op mask k e = rw e (put_overrun op mask k)

pub length-mask_from : (k : MaskKey) (i : ℕ) (xs : List ℕ) → length (mask_from k i xs) ≡ length xs
length-mask_from k i [] = refl
length-mask_from k i (x ∷ xs) = ap suc (length-mask_from k (suc i) xs)

pub get_or-mask_from :
    (k : MaskKey) (xs : List ℕ) (s i j : ℕ)
    → i < length xs
    → j ≡ s + i
    → get_or (mask_from k s xs) i 0 ≡ bit_xor (get_or xs i 0) (key_at k (j % 4))
get_or-mask_from k [] s i j h e = absurd (omega arith)
get_or-mask_from k (x ∷ xs) s zero j h e = let e' : j ≡ s = omega arith in rw e'
get_or-mask_from k (x ∷ xs) s (suc i) j h e =
    get_or-mask_from k xs (suc s) i j (omega arith) (omega arith)

key_at-get_or :
    (k : MaskKey) (j : ℕ) → j < 4 → get_or (k.key0 ∷ k.key1 ∷ k.key2 ∷ k.key3 ∷ []) j 0 ≡ key_at k j
key_at-get_or k zero h = refl
key_at-get_or k (suc zero) h = refl
key_at-get_or k (suc (suc zero)) h = refl
key_at-get_or k (suc (suc (suc zero))) h = refl
key_at-get_or k (suc (suc (suc (suc j)))) h = absurd (omega arith)

-- The exclusive or of each byte and the key's bytes in turn.
abbrev pub xored : MaskKey → List ℕ → List ℕ
xored k msg =
    tabulate (length msg)
      (λ i. bit_xor (get_or msg i 0) (get_or (k.key0 ∷ k.key1 ∷ k.key2 ∷ k.key3 ∷ []) (i % 4) 0))

xored-mask_from : (k : MaskKey) (msg : List ℕ) → xored k msg ≡ mask_from k 0 msg
xored-mask_from k msg =
    tabulate_eq _ (length msg) (mask_from k 0 msg) (length-mask_from k 0 msg) (λ j h.
      ap (bit_xor (get_or msg j 0)) (key_at-get_or k (j % 4) (omega arith))
      ∙ sym (get_or-mask_from k msg 0 j j h (omega arith)))

-- `send_text` sends the header and the message, in which each byte is combined with the key's bytes in
-- turn by an exclusive or, if it is masked. It writes past the end of its header for a message of
-- exactly 65535 bytes, and does not end for a masked one of 2^32 bytes or more.
pub send_text-frame :
    (msg : List ℕ) (op : ℕ) (mask : Bool) (k : MaskKey)
    → send_text msg op mask k ≡ (
        if length msg == 65535
        then none
        else if mask
        then if ltb (length msg) (2 ^ 32)
          then some (header (length msg) op mask k, xored k msg)
          else none
        else some (header (length msg) op mask k, msg))
unfolding send_text
send_text-frame msg op mask k =
    let finish : Option (List ℕ) → List ℕ → Option (List ℕ × List ℕ) = λ o masked_. elim o [
      | none ↦ none
      | some h ↦
          if mask
          then if ltb (length msg) (2 ^ 32) then some (h, masked_) else none
          else some (h, msg)
    ] in
    let written =
      put_all (replicate (header_size (length msg) mask) 0)
        (header_writes (length msg) op mask k) in
    ap (finish written) (sym (xored-mask_from k msg)) ∙ elim (ℕ_discrete (length msg) 65535) [
      | yes e ↦
          ap (λ o. finish o (xored k msg)) (written_overrun (length msg) op mask k e)
          ∙ sym (if_true _ _ ((==_iff (length msg) 65535).1 e))
      | no ne ↦
          ap (λ o. finish o (xored k msg)) (written_ok (length msg) op mask k ne)
          ∙ sym (if_false _ _ (ne→not-== (length msg) 65535 ne))
    ]
