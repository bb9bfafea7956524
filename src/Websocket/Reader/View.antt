-- ===== src/Websocket/Reader/View.antt =====
-- What a view of a masked or plain payload shows.
use Prim.Native.Nat.{bit_xor}
use knet.Base.{
  ℕ, zero, suc, ◌+◌, ◌%◌, ◌≤◌, ◌<◌, ◌≡◌, refl, ap, ◌∙◌, sym, Bool, true, false, List, [], ◌∷◌, ◌++◌,
  arith, length, get_or, take, length-take, tabulate_eq, get_or-take, get_or-append_left,
  get_or-append_right, bit_xor_twice, drop_append,
}
use knet.Websocket.Frame.{MaskKey, key_at, mask_from}
use knet.Websocket.Frame.Encode.{key_bytes, body, length-mask_from, get_or-mask_from}
use knet.Websocket.Reader.{payload_view}

pub length-body : (mask : Bool) (k : MaskKey) (xs : List ℕ) → length (body mask k xs) ≡ length xs
length-body true k xs = length-mask_from k 0 xs
length-body false k xs = refl

get_or-key :
    (k : MaskKey) (ys : List ℕ) (j : ℕ) → j < 4 → get_or (key_bytes true k ++ ys) j 0 ≡ key_at k j
get_or-key k ys zero h = refl
get_or-key k ys (suc zero) h = refl
get_or-key k ys (suc (suc zero)) h = refl
get_or-key k ys (suc (suc (suc zero))) h = refl
get_or-key k ys (suc (suc (suc (suc j)))) h = absurd (omega arith)

take-append : (n : ℕ) (xs ys : List ℕ) → n ≤ length xs → take n (xs ++ ys) ≡ take n xs
take-append zero xs ys h = refl
take-append (suc n) [] ys h = absurd (omega arith)
take-append (suc n) (x ∷ xs) ys h = ap (λ l. x ∷ l) (take-append n xs ys (omega arith))

module _ (pre : List ℕ) (k : MaskKey) (msg rest : List ℕ) (m : ℕ) (le : m ≤ length msg) where
  -- The bytes of a frame behind its length field.
  abbrev pub frame : Bool → List ℕ
  frame mask = pre ++ (key_bytes mask k ++ (body mask k msg ++ rest))

  masked_byte :
      (j : ℕ)
      → j < m
      → bit_xor
          (get_or (frame true) (length pre + 4 + j) 0)
          (get_or (frame true) (length pre + j % 4) 0)
        ≡ get_or msg j 0
  masked_byte j h =
      rw
        (
          get_or-append_right pre (key_bytes true k ++ (body true k msg ++ rest)) (4 + j)
              (length pre + 4 + j) (omega arith),
          get_or-append_right pre (key_bytes true k ++ (body true k msg ++ rest)) (j % 4)
              (length pre + j % 4) refl,
          get_or-append_right (key_bytes true k) (body true k msg ++ rest) j (4 + j) (omega arith),
          get_or-key k (body true k msg ++ rest) (j % 4) (omega arith),
          get_or-append_left (mask_from k 0 msg) rest j (omega (arith, length-mask_from k 0 msg)),
          get_or-mask_from k msg 0 j j (omega arith) (omega arith),
        )
        (bit_xor_twice (get_or msg j 0) (key_at k (j % 4)))

  -- A view of `m` bytes shows the first `m` bytes of the message, masked or not.
  pub payload_view_lem : (mask : Bool) → payload_view mask (frame mask) (length pre) m ≡ take m msg
  payload_view_lem true =
      tabulate_eq _ m (take m msg) (omega (arith, length-take m msg))
        (λ j h. masked_byte j h ∙ sym (get_or-take m msg j h))
  payload_view_lem false = rw (drop_append pre (msg ++ rest)) (take-append m msg rest le)
