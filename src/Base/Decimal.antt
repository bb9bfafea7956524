-- ===== src/Base/Decimal.antt =====
-- Decimal numerals: `std::to_string` of an unsigned number, and `std::stoi`.
use Prim.Native.Nat.{ℕ, zero, suc, ◌+◌, ◌-◌, ◌*◌, ◌/◌, ◌%◌, ◌^◌, ◌<◌}
use mathlib.Core.Path.{◌≡◌, ap, sym, subst, ◌∙◌}
use mathlib.Core.Logic.{inl, inr}
use mathlib.Core.Bool.{Bool, true, false, not, ◌&&◌, ◌||◌}
use mathlib.Core.Option.{Option, none, some}
use mathlib.Core.List.{[], ◌∷◌, ◌++◌}
use native.Mathlib.Omega.{arith}
use knet.Base.Tests.{ltb, leb, ◌==◌, if◌then◌else◌, Bool-cases, if_true, if_false, ltb→lt}
use knet.Base.Texts.{Text, is_empty, Lacks}
use knet.Base.Int.{ℤ, pos, negsuc}

-- The number of rounds bounds the number of digits.
abbrev digits : ℕ → ℕ → Text
digits zero n = []
digits (suc f) n =
    let more = digits f (n / 10) ++ ((b'0' + n % 10) ∷ []) in
    if ltb n 10 then (b'0' + n) ∷ [] else more

unfoldable pub to_decimal : ℕ → Text
to_decimal n = digits (suc n) n

abbrev pub is_digit : ℕ → Bool
is_digit c = leb b'0' c && leb c b'9'

abbrev is_space : ℕ → Bool
is_space c = c == 32 || (leb 9 c && leb c 13)

skip_space : Text → Text
skip_space [] = []
skip_space (c ∷ s) = if is_space c then skip_space s else c ∷ s

-- The digits in front, read from the left.
from_digits : ℕ → Text → ℕ
from_digits v [] = v
from_digits v (c ∷ s) =
    let rest = from_digits (v * 10 + (c - b'0')) s in if is_digit c then rest else v

-- The sign and what stands behind it.
sign : Text → Bool × Text
sign [] = (false, [])
sign (c ∷ s) = if c == b'-' then (true, s) else if c == b'+' then (false, s) else (false, c ∷ s)

-- std::invalid_argument and std::out_of_range are `none`.
in_range : Bool → ℕ → Option ℤ
in_range false v = if ltb v (2 ^ 31) then some (pos v) else none
in_range true zero = some (pos 0)
in_range true (suc v) = if ltb v (2 ^ 31) then some (negsuc v) else none

number : Bool → Text → Option ℤ
number minus [] = none
number minus (c ∷ s) = if is_digit c then in_range minus (from_digits 0 (c ∷ s)) else none

unfoldable pub stoi : Text → Option ℤ
unfolding skip_space from_digits sign in_range number
stoi s = let (minus, t) = sign (skip_space s) in number minus t

digits_only : Text → Bool
digits_only [] = true
digits_only (c ∷ s) = is_digit c && digits_only s

-- `stream >> value` into a `uint32_t`, with nothing left in the stream; a minus wraps round.
unfoldable pub read_u32 : Text → Option ℕ
unfolding skip_space from_digits sign digits_only
read_u32 s =
    let (minus, t) = sign (skip_space s) in
    let v = from_digits 0 t in
    if is_empty t || not (digits_only t) || leb (2 ^ 32) v
    then none
    else some (if minus then (2 ^ 32 - v) % 2 ^ 32 else v)

-- A numeral is not empty and has digits only.
pub data IsNumeral : Text → Type 0 where
  one : {c : ℕ} → is_digit c ≡ true → IsNumeral (c ∷ [])
  more : {c : ℕ} {s : Text} → is_digit c ≡ true → IsNumeral s → IsNumeral (c ∷ s)

IsNumeral-concat : {s : Text} (c : ℕ) → IsNumeral s → is_digit c ≡ true → IsNumeral (s ++ (c ∷ []))
IsNumeral-concat c (one h) k = more h (one k)
IsNumeral-concat c (more h m) k = more h (IsNumeral-concat c m k)

from_digits-concat :
    {s : Text} (v c : ℕ)
    → IsNumeral s
    → is_digit c ≡ true
    → from_digits v (s ++ (c ∷ [])) ≡ from_digits v s * 10 + (c - b'0')
unfolding from_digits
from_digits-concat {s = []} v c m k = elim m [ ]
from_digits-concat {s = d ∷ []} v c (one h) k =
    if_true _ _ h ∙ if_true _ _ k ∙ ap (λ n. n * 10 + (c - b'0')) (sym (if_true _ _ h))
from_digits-concat {s = d ∷ s} v c (more h m) k =
    if_true _ _ h
    ∙ from_digits-concat (v * 10 + (d - b'0')) c m k
    ∙ ap (λ n. n * 10 + (c - b'0')) (sym (if_true _ _ h))

digit_low : (n : ℕ) → n < 10 → is_digit (b'0' + n) ≡ true
digit_low n h = ground arith

digits-IsNumeral : (f n : ℕ) → n < f → IsNumeral (digits f n)
digits-IsNumeral zero n h = absurd (omega arith)
digits-IsNumeral (suc f) n h = elim (Bool-cases (ltb n 10)) [
  | inl low ↦ subst IsNumeral (sym (if_true _ _ low)) (one (digit_low n (ltb→lt _ _ low)))
  | inr high ↦ subst IsNumeral (sym (if_false _ _ high)) (
      IsNumeral-concat (b'0' + n % 10) (digits-IsNumeral f (n / 10) (ground arith))
        (digit_low (n % 10) (omega arith)))
]

from_digits-digits : (f n : ℕ) → n < f → from_digits 0 (digits f n) ≡ n
unfolding from_digits
from_digits-digits zero n h = absurd (omega arith)
from_digits-digits (suc f) n h = elim (Bool-cases (ltb n 10)) [
  | inl low ↦ rw low (if_true _ _ (digit_low n (ltb→lt _ _ low)) ∙ omega arith)
  | inr high ↦ rw high (
      from_digits-concat 0 (b'0' + n % 10) (digits-IsNumeral f (n / 10) (ground arith))
        (digit_low (n % 10) (omega arith))
      ∙ omega (arith, from_digits-digits f (n / 10) (ground arith)))
]

-- The first byte of a numeral is a digit, so no space and no sign.
number_of_numeral :
    {s : Text} → IsNumeral s → from_digits 0 s < 2 ^ 31 → stoi s ≡ some (pos (from_digits 0 s))
unfolding stoi
number_of_numeral {s = []} m k = elim m [ ]
number_of_numeral {s = c ∷ []} (one h) k = ground arith
number_of_numeral {s = c ∷ s} (more h m) k = ground arith

pub stoi-to_decimal : (n : ℕ) → n < 2 ^ 31 → stoi (to_decimal n) ≡ some (pos n)
unfolding to_decimal
stoi-to_decimal n h =
    let value = from_digits-digits (suc n) n (omega arith) in
    number_of_numeral (digits-IsNumeral (suc n) n (omega arith)) (omega (arith, value))
    ∙ ap (λ v. some (pos v)) value

pub to_decimal-IsNumeral : (n : ℕ) → IsNumeral (to_decimal n)
unfolding to_decimal
to_decimal-IsNumeral n = digits-IsNumeral (suc n) n (omega arith)

pub IsNumeral-Lacks : {s : Text} (b : ℕ) → is_digit b ≡ false → IsNumeral s → Lacks b s
IsNumeral-Lacks {s = []} b h m = tt
IsNumeral-Lacks {s = c ∷ []} b h (one k) = ground arith
IsNumeral-Lacks {s = c ∷ s} b h (more k m) = ground (arith, IsNumeral-Lacks b h m)

IsNumeral-digits_only : {s : Text} → IsNumeral s → digits_only s ≡ true
unfolding digits_only
IsNumeral-digits_only {s = []} m = elim m [ ]
IsNumeral-digits_only {s = c ∷ []} (one h) = ground arith
IsNumeral-digits_only {s = c ∷ s} (more h m) = ground (arith, IsNumeral-digits_only m)

read_numeral :
    {s : Text}
    → IsNumeral s
    → digits_only s ≡ true
    → from_digits 0 s < 2 ^ 32
    → read_u32 s ≡ some (from_digits 0 s)
unfolding read_u32
read_numeral {s = []} m d k = elim m [ ]
read_numeral {s = c ∷ []} (one h) d k = ground arith
read_numeral {s = c ∷ s} (more h m) d k = ground arith

pub read_u32-to_decimal : (n : ℕ) → n < 2 ^ 32 → read_u32 (to_decimal n) ≡ some n
unfolding to_decimal
read_u32-to_decimal n h =
    let value = from_digits-digits (suc n) n (omega arith) in
    let m = digits-IsNumeral (suc n) n (omega arith) in
    read_numeral m (IsNumeral-digits_only m) (omega (arith, value)) ∙ ap some value
