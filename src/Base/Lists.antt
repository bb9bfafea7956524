-- ===== src/Base/Lists.antt =====
-- Lists measured and indexed by native numbers, under the library's names; a write of a block into
-- an array, and a list given by its entries.
use Prim.Native.Nat.{ℕ, zero, suc, ◌+◌, ◌-◌, ◌≤◌, ◌<◌, min}
use mathlib.Core.Path.{◌≡◌, refl, sym, ap, ap₂, ◌∙◌}
use mathlib.Core.List.{List, [], ◌∷◌, ◌++◌, append_assoc}
use native.Mathlib.Omega.{arith}

module _ {ℓ} {A : Type ℓ} where
  abbrev pub length : List A → ℕ
  length [] = 0
  length (x ∷ xs) = suc (length xs)

  abbrev pub get_or : List A → ℕ → A → A
  get_or [] i d = d
  get_or (x ∷ xs) zero d = x
  get_or (x ∷ xs) (suc i) d = get_or xs i d

  abbrev pub set : List A → ℕ → A → List A
  set [] i v = []
  set (x ∷ xs) zero v = v ∷ xs
  set (x ∷ xs) (suc i) v = x ∷ set xs i v

  abbrev pub take : ℕ → List A → List A
  take zero xs = []
  take (suc n) [] = []
  take (suc n) (x ∷ xs) = x ∷ take n xs

  abbrev pub drop : ℕ → List A → List A
  drop zero xs = xs
  drop (suc n) [] = []
  drop (suc n) (x ∷ xs) = drop n xs

  -- The entries f 0, …, f (n - 1).
  abbrev pub tabulate : ℕ → (ℕ → A) → List A
  tabulate zero f = []
  tabulate (suc n) f = f 0 ∷ tabulate n (λ i. f (suc i))

  -- `memcpy(&dst[at], src, n)` for the whole of `src`; what would fall outside `dst` is dropped.
  abbrev pub copy_to : List A → ℕ → List A → List A
  copy_to dst at [] = dst
  copy_to dst at (x ∷ src) = copy_to (set dst at x) (suc at) src

  pub length-append : (xs ys : List A) → length (xs ++ ys) ≡ length xs + length ys
  length-append [] ys = omega arith
  length-append (x ∷ xs) ys = omega (arith, length-append xs ys)

  pub length-set : (xs : List A) (i : ℕ) (v : A) → length (set xs i v) ≡ length xs
  length-set [] i v = refl
  length-set (x ∷ xs) zero v = refl
  length-set (x ∷ xs) (suc i) v = ap suc (length-set xs i v)

  pub length-take : (n : ℕ) (xs : List A) → length (take n xs) ≡ min n (length xs)
  length-take zero xs = omega arith
  length-take (suc n) [] = omega arith
  length-take (suc n) (x ∷ xs) = omega (arith, length-take n xs)

  pub length-drop : (n : ℕ) (xs : List A) → length (drop n xs) ≡ length xs - n
  length-drop zero xs = omega arith
  length-drop (suc n) [] = omega arith
  length-drop (suc n) (x ∷ xs) = omega (arith, length-drop n xs)

  pub take-append-drop : (n : ℕ) (xs : List A) → take n xs ++ drop n xs ≡ xs
  take-append-drop zero xs = refl
  take-append-drop (suc n) [] = refl
  take-append-drop (suc n) (x ∷ xs) = ap (λ r. x ∷ r) (take-append-drop n xs)

  pub take_all : (n : ℕ) (xs : List A) → length xs ≤ n → take n xs ≡ xs
  take_all zero [] h = refl
  take_all zero (x ∷ xs) h = absurd (omega arith)
  take_all (suc n) [] h = refl
  take_all (suc n) (x ∷ xs) h = ap (λ r. x ∷ r) (take_all n xs (omega arith))

  pub take_append : (xs ys : List A) → take (length xs) (xs ++ ys) ≡ xs
  take_append [] ys = refl
  take_append (x ∷ xs) ys = ap (λ r. x ∷ r) (take_append xs ys)

  pub drop_append : (xs ys : List A) → drop (length xs) (xs ++ ys) ≡ ys
  drop_append [] ys = refl
  drop_append (x ∷ xs) ys = drop_append xs ys

  pub length-copy_to : (src dst : List A) (at : ℕ) → length (copy_to dst at src) ≡ length dst
  length-copy_to [] dst at = refl
  length-copy_to (x ∷ src) dst at =
      omega (arith, length-copy_to src (set dst at x) (suc at), length-set dst at x)

  get_or-set_self : (xs : List A) (i : ℕ) (v d : A) → i < length xs → get_or (set xs i v) i d ≡ v
  get_or-set_self [] i v d h = absurd (omega arith)
  get_or-set_self (x ∷ xs) zero v d h = refl
  get_or-set_self (x ∷ xs) (suc i) v d h = get_or-set_self xs i v d (omega arith)

  get_or-set_above :
      (xs : List A) (i j : ℕ) (v d : A) → i < j → get_or (set xs i v) j d ≡ get_or xs j d
  get_or-set_above [] i j v d h = refl
  get_or-set_above (x ∷ xs) i zero v d h = absurd (omega arith)
  get_or-set_above (x ∷ xs) zero (suc j) v d h = refl
  get_or-set_above (x ∷ xs) (suc i) (suc j) v d h = get_or-set_above xs i j v d (omega arith)

  get_or-set_below :
      (xs : List A) (i j : ℕ) (v d : A) → j < i → get_or (set xs i v) j d ≡ get_or xs j d
  get_or-set_below [] i j v d h = refl
  get_or-set_below (x ∷ xs) zero j v d h = absurd (omega arith)
  get_or-set_below (x ∷ xs) (suc i) zero v d h = refl
  get_or-set_below (x ∷ xs) (suc i) (suc j) v d h = get_or-set_below xs i j v d (omega arith)

  pub get_or-copy_to_below :
      (src dst : List A) (at j : ℕ) (d : A)
      → j < at
      → get_or (copy_to dst at src) j d ≡ get_or dst j d
  get_or-copy_to_below [] dst at j d h = refl
  get_or-copy_to_below (x ∷ src) dst at j d h =
      rw (get_or-copy_to_below src (set dst at x) (suc at) j d (omega arith))
        (get_or-set_below dst at j x d h)

  pub get_or-copy_to_above :
      (src dst : List A) (at j : ℕ) (d : A)
      → at + length src ≤ j
      → get_or (copy_to dst at src) j d ≡ get_or dst j d
  get_or-copy_to_above [] dst at j d h = refl
  get_or-copy_to_above (x ∷ src) dst at j d h =
      rw (get_or-copy_to_above src (set dst at x) (suc at) j d (omega arith))
        (get_or-set_above dst at j x d (omega arith))

  pub get_or-copy_to :
      (src dst : List A) (at i j : ℕ) (d : A)
      → at + length src ≤ length dst
      → i < length src
      → j ≡ at + i
      → get_or (copy_to dst at src) j d ≡ get_or src i d
  get_or-copy_to [] dst at i j d h hi e = absurd (omega arith)
  get_or-copy_to (x ∷ src) dst at zero j d h hi e =
      rw
        (
          get_or-copy_to_below src (set dst at x) (suc at) j d (omega arith),
          e,
          let z : at + 0 ≡ at = omega arith in z,
        )
        (get_or-set_self dst at x d (omega arith))
  get_or-copy_to (x ∷ src) dst at (suc i) j d h hi e =
      get_or-copy_to src (set dst at x) (suc at) i j d (omega (arith, length-set dst at x))
        (omega arith) (omega arith)

-- Lists of one length with the same entries are equal.
pub eq_of_entries :
    (xs ys : List ℕ)
    → length xs ≡ length ys
    → ((j : ℕ) → j < length xs → get_or xs j 0 ≡ get_or ys j 0)
    → xs ≡ ys
eq_of_entries [] [] e h = refl
eq_of_entries [] (y ∷ ys) e h = absurd (omega arith)
eq_of_entries (x ∷ xs) [] e h = absurd (omega arith)
eq_of_entries (x ∷ xs) (y ∷ ys) e h =
    ap₂ ◌∷◌ (h 0 (omega arith)) (eq_of_entries xs ys (omega arith) (λ j k. h (suc j) (omega arith)))

pub tabulate_eq :
    (f : ℕ → ℕ) (n : ℕ) (ys : List ℕ)
    → length ys ≡ n
    → ((j : ℕ) → j < n → f j ≡ get_or ys j 0)
    → tabulate n f ≡ ys
tabulate_eq f zero [] e new = refl
tabulate_eq f zero (y ∷ ys) e new = absurd (omega arith)
tabulate_eq f (suc n) [] e new = absurd (omega arith)
tabulate_eq f (suc n) (y ∷ ys) e new =
    ap₂ ◌∷◌ (new 0 (omega arith))
      (tabulate_eq (λ i. f (suc i)) n ys (omega arith) (λ j h. new (suc j) (omega arith)))

pub get_or-take : (t : ℕ) (xs : List ℕ) (i : ℕ) → i < t → get_or (take t xs) i 0 ≡ get_or xs i 0
get_or-take zero xs i h = absurd (omega arith)
get_or-take (suc t) [] i h = refl
get_or-take (suc t) (x ∷ xs) zero h = refl
get_or-take (suc t) (x ∷ xs) (suc i) h = get_or-take t xs i (omega arith)

pub get_or-drop :
    (t : ℕ) (xs : List ℕ) (i j : ℕ) → j ≡ t + i → get_or (drop t xs) i 0 ≡ get_or xs j 0
get_or-drop zero xs i j e = let e' : j ≡ i = omega arith in rw e'
get_or-drop (suc t) [] i j e = refl
get_or-drop (suc t) (x ∷ xs) i zero e = absurd (omega arith)
get_or-drop (suc t) (x ∷ xs) i (suc j) e = get_or-drop t xs i j (omega arith)

pub get_or-append_left :
    (xs ys : List ℕ) (i : ℕ) → i < length xs → get_or (xs ++ ys) i 0 ≡ get_or xs i 0
get_or-append_left [] ys i h = absurd (omega arith)
get_or-append_left (x ∷ xs) ys zero h = refl
get_or-append_left (x ∷ xs) ys (suc i) h = get_or-append_left xs ys i (omega arith)

pub get_or-append_right :
    (xs ys : List ℕ) (i j : ℕ) → j ≡ length xs + i → get_or (xs ++ ys) j 0 ≡ get_or ys i 0
get_or-append_right [] ys i j e = let e' : j ≡ i = omega arith in rw e'
get_or-append_right (x ∷ xs) ys i zero e = absurd (omega arith)
get_or-append_right (x ∷ xs) ys i (suc j) e = get_or-append_right xs ys i j (omega arith)

-- The parts of a message, one behind the other.
module _ {ℓ} {A : Type ℓ} where
  abbrev pub join : List (List A) → List A
  join [] = []
  join (x ∷ xs) = x ++ join xs

  pub join-append : (xs ys : List (List A)) → join (xs ++ ys) ≡ join xs ++ join ys
  join-append [] ys = refl
  join-append (x ∷ xs) ys =
      ap (λ r. x ++ r) (join-append xs ys) ∙ sym (append_assoc x (join xs) (join ys))

  pub eq_nil : (xs : List A) → length xs ≡ 0 → xs ≡ []
  eq_nil [] e = refl
  eq_nil (x ∷ xs) e = absurd (omega arith)
