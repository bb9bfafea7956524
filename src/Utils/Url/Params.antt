-- ===== src/Utils/Url/Params.antt =====
-- The parameters of a URL: what the loop of `parse` makes of them, and that `get`, `has` and `set`
-- are those of a function from keys to values.
use knet.Base.{
  ℕ, ◌≡◌, refl, sym, ap, subst, ◌∙◌, true, false, none, List, [], ◌∷◌, ◌++◌, append-nil,
  append_assoc, arith, if◌then◌else◌, ◌==◌, if_false, is_empty, Text, Lacks, same_text,
  same_text_iff, lookup, insert, lookup-insert, insert_new,
}
use knet.Utils.Url.{Scan, scan_byte, scan, scan_params, encode_params}

abbrev pub Params : Type 0
Params = List (Text × Text)

-- A text that may stand for a key or a value.
pub record IsPlain (s : Text) : Type 0 where
  pub no_equals : Lacks b'=' s
  pub no_and : Lacks b'&' s

abbrev pub AllPlain : Params → Type 0
AllPlain [] = Unit {0}
AllPlain ((k, v) ∷ ps) = IsPlain k × IsPlain v × AllPlain ps

-- Each key has one value.
abbrev pub Distinct : Params → Type 0
Distinct [] = Unit {0}
Distinct ((k, v) ∷ ps) = (lookup k ps ≡ none) × Distinct ps

pub insert-Distinct : (k v : Text) (m : Params) → Distinct m → Distinct (insert k v m)
unfolding insert lookup
insert-Distinct k v [] d = (refl, tt)
insert-Distinct k v ((j, w) ∷ m) d =
    ground
      (arith, lookup-insert k j v m, same_text_iff k j, same_text_iff j k, insert-Distinct k v m)

other_key :
    (j k v : Text) (m ps : Params) → lookup j (m ++ ((k, v) ∷ ps)) ≡ none → same_text k j ≡ false
unfolding lookup
other_key j k v [] ps h = ground arith
other_key j k v ((i, w) ∷ m) ps h = ground (arith, other_key j k v m ps)

middle_new : (k v : Text) (m ps : Params) → Distinct (m ++ ((k, v) ∷ ps)) → lookup k m ≡ none
unfolding lookup
middle_new k v [] ps d = refl
middle_new k v ((j, w) ∷ m) ps d =
    ground (
      arith,
      other_key j k v m ps d.0,
      middle_new k v m ps d.1,
      same_text_iff k j,
      same_text_iff j k,
    )

-- Pairs that are put into a map, one after the other.
abbrev pub load : Params → Params → Params
load m [] = m
load m ((k, v) ∷ ps) = load (insert k v m) ps

pub load-Distinct : (m ps : Params) → Distinct (m ++ ps) → load m ps ≡ m ++ ps
load-Distinct m [] d = sym (append-nil m)
load-Distinct m ((k, v) ∷ ps) d =
    let e = append_assoc m ((k, v) ∷ []) ps in
    ap (λ n. load n ps) (insert_new k v m (middle_new k v m ps d))
    ∙ load-Distinct (m ++ ((k, v) ∷ [])) ps (subst Distinct (sym e) d)
    ∙ e

-- What a byte other than `=` and `&` is added to.
abbrev pub in_key : Text → Text → Params → Scan
in_key k v m = record { is_key = true; key = k; value = v; params = m }

abbrev pub in_value : Text → Text → Params → Scan
in_value k v m = record { is_key = false; key = k; value = v; params = m }

key_byte :
    (k v : Text) (m : Params) (c : ℕ)
    → (c == b'=') ≡ false
    → (c == b'&') ≡ false
    → scan_byte (in_key k v m) c ≡ in_key (k ++ (c ∷ [])) v m
key_byte k v m c h h' = if_false _ _ h ∙ if_false _ _ h'

value_byte :
    (k v : Text) (m : Params) (c : ℕ)
    → (c == b'=') ≡ false
    → (c == b'&') ≡ false
    → scan_byte (in_value k v m) c ≡ in_value k (v ++ (c ∷ [])) m
value_byte k v m c h h' = if_false _ _ h ∙ if_false _ _ h'

IsPlain-tail : {c : ℕ} {s : Text} → IsPlain (c ∷ s) → IsPlain s
IsPlain-tail h = record { no_equals = h.no_equals.1; no_and = h.no_and.1 }

pub scan_key :
    (k v s rest : Text) (m : Params)
    → IsPlain s
    → scan (in_key k v m) (s ++ rest) ≡ scan (in_key (k ++ s) v m) rest
scan_key k v [] rest m h = ap (λ n. scan (in_key n v m) rest) (sym (append-nil k))
scan_key k v (c ∷ s) rest m h =
    ap (λ n. scan n (s ++ rest)) (key_byte k v m c h.no_equals.0 h.no_and.0)
    ∙ scan_key (k ++ (c ∷ [])) v s rest m (IsPlain-tail h)
    ∙ ap (λ n. scan (in_key n v m) rest) (append_assoc k (c ∷ []) s)

pub scan_value :
    (k v s rest : Text) (m : Params)
    → IsPlain s
    → scan (in_value k v m) (s ++ rest) ≡ scan (in_value k (v ++ s) m) rest
scan_value k v [] rest m h = ap (λ n. scan (in_value k n m) rest) (sym (append-nil v))
scan_value k v (c ∷ s) rest m h =
    ap (λ n. scan n (s ++ rest)) (value_byte k v m c h.no_equals.0 h.no_and.0)
    ∙ scan_value k (v ++ (c ∷ [])) s rest m (IsPlain-tail h)
    ∙ ap (λ n. scan (in_value k n m) rest) (append_assoc v (c ∷ []) s)

-- A key, its value and the `&` behind it are one pair of the map.
pub scan_pair :
    (k v rest : Text) (m : Params)
    → IsPlain k
    → IsPlain v
    → scan (in_key [] [] m) ((k ++ (b'=' ∷ (v ++ (b'&' ∷ [])))) ++ rest)
      ≡ scan (in_key [] [] (insert k v m)) rest
scan_pair k v rest m hk hv =
    ap (scan (in_key [] [] m)) (append_assoc k (b'=' ∷ (v ++ (b'&' ∷ []))) rest)
    ∙ scan_key [] [] k (b'=' ∷ ((v ++ (b'&' ∷ [])) ++ rest)) m hk
    ∙ ap (scan (in_value k [] m)) (append_assoc v (b'&' ∷ []) rest)
    ∙ scan_value k [] v (b'&' ∷ rest) m hv

pub scan_encoded :
    (m ps : Params)
    → AllPlain ps
    → scan (in_key [] [] m) (encode_params ps) ≡ in_key [] [] (load m ps)
scan_encoded m [] h = refl
scan_encoded m ((k, v) ∷ ps) h =
    scan_pair k v (encode_params ps) m h.0 h.1 ∙ scan_encoded (insert k v m) ps h.2

pub scan_params-encode_params :
    (ps : Params) → AllPlain ps → Distinct ps → scan_params (encode_params ps) ≡ ps
scan_params-encode_params ps h d =
    ap (λ s. if is_empty s.key then s.params else insert s.key s.value s.params)
      (scan_encoded [] ps h)
    ∙ load-Distinct [] ps d
