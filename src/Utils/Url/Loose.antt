-- ===== src/Utils/Url/Loose.antt =====
-- Queries that `encode` does not write: a last pair with no `&`, a value with a `=`, a key with no
-- value.
use knet.Base.{
  ℕ, ◌^◌, ◌<◌, ◌≡◌, refl, sym, ap, ◌∙◌, true, false, some, [], ◌∷◌, ◌++◌, append-nil, if◌then◌else◌,
  if_false, Text, Lacks, is_empty, same_text, insert,
}
use knet.Utils.Url.{KNetUrl, Scan, scan_byte, scan, scan_params, encode_params, parse}
use knet.Utils.Url.Params.{
  Params, IsPlain, AllPlain, Distinct, load, load-Distinct, in_key, in_value, scan_key, scan_value,
  scan_encoded,
}
use knet.Utils.Url.Encode.{url_text, parse-url_text}

abbrev finished : Scan → Params
finished s = if is_empty s.key then s.params else insert s.key s.value s.params

-- A first part of a query is read before the rest.
scan-append : (s : Scan) (a b : Text) → scan s (a ++ b) ≡ scan (scan s a) b
scan-append s [] b = refl
scan-append s (c ∷ a) b = scan-append (scan_byte s c) a b

-- A pair at the end.
scan_last :
    (m : Params) (k v : Text)
    → IsPlain k
    → IsPlain v
    → scan (in_key [] [] m) (k ++ (b'=' ∷ v)) ≡ in_value k v m
scan_last m k v hk hv =
    scan_key [] [] k (b'=' ∷ v) m hk
    ∙ ap (scan (in_value k [] m)) (sym (append-nil v))
    ∙ scan_value k [] v [] m hv

load_last : (m ps : Params) (k v : Text) → insert k v (load m ps) ≡ load m (ps ++ ((k, v) ∷ []))
load_last m [] k v = refl
load_last m ((j, w) ∷ ps) k v = load_last (insert j w m) ps k v

scan_all :
    (ps : Params) (k v : Text)
    → AllPlain ps
    → IsPlain k
    → IsPlain v
    → is_empty k ≡ false
    → Distinct (ps ++ ((k, v) ∷ []))
    → scan_params (encode_params ps ++ (k ++ (b'=' ∷ v))) ≡ ps ++ ((k, v) ∷ [])
scan_all ps k v hp hk hv filled d =
    ap finished (
      scan-append (in_key [] [] []) (encode_params ps) (k ++ (b'=' ∷ v))
      ∙ ap (λ s. scan s (k ++ (b'=' ∷ v))) (scan_encoded [] ps hp)
      ∙ scan_last (load [] ps) k v hk hv)
    ∙ if_false _ _ filled
    ∙ load_last [] ps k v
    ∙ load-Distinct [] (ps ++ ((k, v) ∷ [])) d

module _ (u0 : KNetUrl) (p h : Text) (n : ℕ) (p_ok : Lacks b':' p) (h_ok : Lacks b':' h)
    (h_ok' : Lacks b'?' h) (fits : n < 2 ^ 16) where
  with_query :
      (query : Text) (ps : Params)
      → scan_params query ≡ ps
      → parse u0 (url_text p h n query)
        ≡ (record { protocol = p; host = h; port = n; params = ps }, some true)
  with_query query ps e =
      parse-url_text u0 p h n query p_ok h_ok h_ok' fits
      ∙ ap (λ m. (record { protocol = p; host = h; port = n; params = m }, some true)) e

  -- Pairs joined by `&`, none behind the last one, are the parameters in their order, where each key
  -- comes once, the last key is not empty and no key or value has a `=` or a `&`; the protocol and the
  -- host have no colon, the host no `?`, and the port fits 16 bits.
  pub parse-joined :
      (ps : Params) (k v : Text)
      → AllPlain ps
      → IsPlain k
      → IsPlain v
      → is_empty k ≡ false
      → Distinct (ps ++ ((k, v) ∷ []))
      → parse u0 (url_text p h n (encode_params ps ++ (k ++ (b'=' ∷ v))))
        ≡ (record { protocol = p; host = h; port = n; params = ps ++ ((k, v) ∷ []) }, some true)
  parse-joined ps k v hp hk hv filled d = with_query _ _ (scan_all ps k v hp hk hv filled d)

  -- A value `a=b` is not kept: what stands behind its `=` is added to the key.
  pub parse-equals :
      (k a b : Text)
      → IsPlain k
      → IsPlain a
      → IsPlain b
      → is_empty (k ++ b) ≡ false
      → parse u0 (url_text p h n (k ++ (b'=' ∷ (a ++ (b'=' ∷ b)))))
        ≡ (record { protocol = p; host = h; port = n; params = (k ++ b, a) ∷ [] }, some true)
  unfolding insert
  parse-equals k a b hk ha hb filled = with_query _ _ (
      ap finished (
        scan_key [] [] k (b'=' ∷ (a ++ (b'=' ∷ b))) [] hk
        ∙ scan_value k [] a (b'=' ∷ b) [] ha
        ∙ ap (scan (in_key k a [])) (sym (append-nil b))
        ∙ scan_key k a b [] [] hb)
      ∙ if_false _ _ filled)

  -- A key with no `=` makes the next pair's value its key, and the next pair's key its value.
  pub parse-flag :
      (f k v : Text)
      → IsPlain f
      → IsPlain k
      → IsPlain v
      → is_empty v ≡ false
      → same_text f v ≡ false
      → parse u0 (url_text p h n (f ++ (b'&' ∷ (k ++ (b'=' ∷ v)))))
        ≡ (record { protocol = p; host = h; port = n; params = (f, []) ∷ (v, k) ∷ [] }, some true)
  unfolding insert
  parse-flag f k v hf hk hv filled other = with_query _ _ (
      ap finished (
        scan_key [] [] f (b'&' ∷ (k ++ (b'=' ∷ v))) [] hf
        ∙ scan_value [] [] k (b'=' ∷ v) ((f, []) ∷ []) hk
        ∙ ap (scan (in_key [] k ((f, []) ∷ []))) (sym (append-nil v))
        ∙ scan_key [] k v [] ((f, []) ∷ []) hv)
      ∙ if_false _ _ filled
      ∙ if_false _ _ other)
