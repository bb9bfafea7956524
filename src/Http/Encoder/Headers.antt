-- ===== src/Http/Encoder/Headers.antt =====
-- What the headers say of a key behind `add_header`.
use knet.Base.{
  ◌≡◌, refl, some, [], ◌∷◌, arith, if◌then◌else◌, Text, same_text, same_text_iff, lookup,
}
use knet.Http.Encoder.{Headers, add_header}

pub lookup-add_header :
    (key value k : Text) (hs : Headers)
    → lookup k (add_header key value hs) ≡ (if same_text key k then some value else lookup k hs)
unfolding lookup add_header
lookup-add_header key value k [] = refl
lookup-add_header key value k ((j, w) ∷ hs) = ground (
  arith,
  same_text_iff key k,
  same_text_iff j key,
  same_text_iff j k,
  lookup-add_header key value k hs,
)
