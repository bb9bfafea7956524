-- ===== src/Base/Texts.antt =====
-- Texts as the lists of their bytes: equality and search (`std::string`), and maps from text to text
-- as lists of pairs.
use Prim.Native.Char.{code}
use Prim.Native.Nat.{ℕ, suc}
use Prim.Native.String.{String}
use mathlib.Core.Path.{◌≡◌, refl, ap, ◌∙◌}
use mathlib.Core.Logic.{◌↔◌}
use mathlib.Core.Bool.{Bool, true, false, ◌&&◌}
use mathlib.Core.Option
use mathlib.Core.Option.{Option, none, some}
use mathlib.Core.List.{List, [], ◌∷◌, ◌++◌}
use native.Mathlib.Omega.{arith}
use knet.Base.Tests.{◌==◌, if◌then◌else◌, if_true, if_false, ==_self}
use knet.Base.Lists.{length}

abbrev pub Text : Type 0
Text = List ℕ

-- The bytes of a literal.
abbrev pub codes : String → Text
codes String.[] = []
codes (String.◌∷◌ c s) = code c ∷ codes s

abbrev pub same_text : Text → Text → Bool
same_text [] [] = true
same_text [] (y ∷ ys) = false
same_text (x ∷ xs) [] = false
same_text (x ∷ xs) (y ∷ ys) = (x == y) && same_text xs ys

pub same_text_iff : (s t : Text) → (same_text s t ≡ true) ↔ (s ≡ t)
same_text_iff [] [] = ground arith
same_text_iff [] (y ∷ ys) = ground arith
same_text_iff (x ∷ xs) [] = ground arith
same_text_iff (x ∷ xs) (y ∷ ys) = ground (arith, same_text_iff xs ys)

abbrev pub is_empty : Text → Bool
is_empty [] = true
is_empty (c ∷ s) = false

abbrev pub starts_with : Text → Text → Bool
starts_with [] s = true
starts_with (p ∷ pattern_) [] = false
starts_with (p ∷ pattern_) (c ∷ s) = (p == c) && starts_with pattern_ s

-- The first place of a text in another, of one byte at least.
abbrev pub find_text : Text → Text → Option ℕ
find_text p [] = none
find_text p (c ∷ s) =
    let rest = Option.map suc (find_text p s) in if starts_with p (c ∷ s) then some 0 else rest

abbrev pub find_byte : ℕ → Text → Option ℕ
find_byte b [] = none
find_byte b (c ∷ s) = let rest = Option.map suc (find_byte b s) in if c == b then some 0 else rest

-- A text without the byte `b`.
abbrev pub Lacks : ℕ → Text → Type 0
Lacks b [] = Unit {0}
Lacks b (c ∷ s) = ((c == b) ≡ false) × Lacks b s

pub Lacks-append : (b : ℕ) (s t : Text) → Lacks b s → Lacks b t → Lacks b (s ++ t)
Lacks-append b [] t h k = k
Lacks-append b (c ∷ s) t h k = (h.0, Lacks-append b s t h.1 k)

pub find_byte-none : (b : ℕ) (s : Text) → Lacks b s → find_byte b s ≡ none
find_byte-none b [] h = refl
find_byte-none b (c ∷ s) h = if_false _ _ h.0 ∙ ap (Option.map suc) (find_byte-none b s h.1)

pub Lacks-of_none : (b : ℕ) (s : Text) → find_byte b s ≡ none → Lacks b s
Lacks-of_none b [] h = tt
Lacks-of_none b (c ∷ s) h = ground (arith, Lacks-of_none b s)

pub find_byte-append :
    (b : ℕ) (s t : Text) → Lacks b s → find_byte b (s ++ (b ∷ t)) ≡ some (length s)
find_byte-append b [] t h = if_true _ _ (==_self b)
find_byte-append b (c ∷ s) t h = if_false _ _ h.0 ∙ ap (Option.map suc) (find_byte-append b s t h.1)

-- A text that begins with a byte that the front lacks is found behind the front.
pub find_text-append :
    (b : ℕ) (p s t : Text)
    → Lacks b s
    → starts_with (b ∷ p) t ≡ true
    → find_text (b ∷ p) (s ++ t) ≡ some (length s)
find_text-append b p [] [] h k = absurd (cc k)
find_text-append b p [] (c ∷ t) h k = if_true _ _ k
find_text-append b p (c ∷ s) t h k =
    if_false (starts_with (b ∷ p) (c ∷ (s ++ t))) _ (ground (arith, h.0))
    ∙ ap (Option.map suc) (find_text-append b p s t h.1 k)

-- `m[key] = value` and `m.find(key)` of a `std::unordered_map`; the list is in the order in which the
-- map is gone through.
module _ {ℓ} {V : Type ℓ} where
  unfoldable pub lookup : Text → List (Text × V) → Option V
  lookup key [] = none
  lookup key ((k, v) ∷ m) = if same_text k key then some v else lookup key m

  unfoldable pub insert : Text → V → List (Text × V) → List (Text × V)
  insert key v [] = (key, v) ∷ []
  insert key v ((k, w) ∷ m) = if same_text k key then (k, v) ∷ m else (k, w) ∷ insert key v m

  pub lookup-insert :
      (key k : Text) (v : V) (m : List (Text × V))
      → lookup k (insert key v m) ≡ (if same_text key k then some v else lookup k m)
  unfolding lookup insert
  lookup-insert key k v [] = refl
  lookup-insert key k v ((j, w) ∷ m) =
      ground (
        arith,
        same_text_iff key k,
        same_text_iff j key,
        same_text_iff j k,
        lookup-insert key k v m,
      )

  pub insert_new :
      (key : Text) (v : V) (m : List (Text × V))
      → lookup key m ≡ none
      → insert key v m ≡ m ++ ((key, v) ∷ [])
  unfolding lookup insert
  insert_new key v [] h = refl
  insert_new key v ((k, w) ∷ m) h = ground (arith, insert_new key v m)
