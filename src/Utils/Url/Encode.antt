-- ===== src/Utils/Url/Encode.antt =====
-- `parse` of what `encode` writes, and of texts of the grammar in the comment of
-- include/utils/knet_url.hpp.
use knet.Base.{
  ℕ, suc, ◌+◌, ◌%◌, ◌^◌, ◌<◌, ◌≡◌, refl, sym, ap, ap₂, subst, ◌∙◌, true, false, Option, none, some,
  [], ◌∷◌, ◌++◌, append-nil, append_assoc, arith, ltb, if_true, if_false, length, drop, take_append,
  drop_append, drop_add, Text, codes, Lacks, Lacks-append, find_byte, find_byte-none,
  find_byte-append, find_text-append, is_empty, to_decimal, to_decimal-IsNumeral, IsNumeral,
  IsNumeral-Lacks, stoi-to_decimal, Bool-cases, lt→ltb, inl, inr, zero,
}
use knet.Utils.Url.{
  KNetUrl, to_u16, reset, split_query, parse_rest, parse_port, with_params, parse_at, parse_host,
  parse, port_text, query_text, encode, encode_params, scan_params,
}
use knet.Utils.Url.Params.{Params, AllPlain, Distinct, scan_params-encode_params}

-- A URL that its text determines.
pub record IsEncodable (u : KNetUrl) : Type 0 where
  pub protocol_lacks : Lacks b':' u.protocol
  pub host_lacks : Lacks b':' u.host
  pub host_no_query : Lacks b'?' u.host
  pub port_fits : u.port < 2 ^ 16
  pub plain : AllPlain u.params
  pub distinct : Distinct u.params

abbrev at_host : Text → KNetUrl
at_host p = record { protocol = p; host = []; port = 0; params = [] }

drop-append-suc : (a t : Text) (c : ℕ) → drop (suc (length a)) (a ++ (c ∷ t)) ≡ t
drop-append-suc [] t c = refl
drop-append-suc (x ∷ a) t c = drop-append-suc a t c

-- The protocol ends at the first "://".
parse_front :
    (u : KNetUrl) (p rest : Text)
    → Lacks b':' p
    → parse u (p ++ (codes "://" ++ rest)) ≡ parse_rest (at_host p) rest
unfolding parse reset
parse_front u p rest h =
    let t = codes "://" ++ rest in
    ap (parse_at (at_host []) (p ++ t)) (find_text-append b':' (codes "//") p t h refl)
    ∙ ap (λ q. parse_rest (at_host q) (drop (length p + 3) (p ++ t))) (take_append p t)
    ∙ ap (parse_rest (at_host p)) (drop_add (length p) 3 (p ++ t) ∙ ap (drop 3) (drop_append p t))

-- The host and the port end at the first `?`.
split_query-text :
    (a : Text) (ps : Params)
    → Lacks b'?' a
    → split_query (a ++ query_text ps) (find_byte b'?' (a ++ query_text ps)) ≡ (a, encode_params ps)
split_query-text a [] h =
    subst (λ t. split_query t (find_byte b'?' t) ≡ (a, [])) (sym (append-nil a))
      (ap (split_query a) (find_byte-none b'?' a h))
split_query-text a (p ∷ ps) h =
    let t = encode_params (p ∷ ps) in
    ap (split_query (a ++ (b'?' ∷ t))) (find_byte-append b'?' a t h)
    ∙ ap₂ (λ x y. (x, y)) (take_append a (b'?' ∷ t)) (drop-append-suc a t b'?')

abbrev at_port : Text → Text → ℕ → KNetUrl
at_port p h n = record { protocol = p; host = h; port = n; params = [] }

numeral_filled : {s : Text} → IsNumeral s → is_empty s ≡ false
numeral_filled {s = []} m = elim m [ ]
numeral_filled {s = c ∷ s} m = refl

parse_port-to_decimal :
    (p h : Text) (n : ℕ)
    → n < 2 ^ 16
    → parse_port (at_port p h 0) (to_decimal n) ≡ (at_port p h n, some tt)
parse_port-to_decimal p h n fits =
    let e : n % 2 ^ 16 ≡ n = omega arith in
    if_false _ _ (numeral_filled (to_decimal-IsNumeral n))
    ∙ ap
        (λ o.
          let r : KNetUrl × Option (Unit {0}) = elim o [
            | none ↦ (at_port p h 0, none)
            | some m ↦ (at_port p h (to_u16 m), some tt)
          ] in
          r)
        (stoi-to_decimal n (omega arith))
    ∙ ap (λ m. (at_port p h m, some tt)) e

parse_host-text :
    (p h : Text) (n : ℕ)
    → Lacks b':' h
    → n < 2 ^ 16
    → parse_host (at_host p) (h ++ port_text n) (find_byte b':' (h ++ port_text n))
      ≡ (at_port p h n, some tt)
parse_host-text p h zero no_colon fits =
    subst (λ t. parse_host (at_host p) t (find_byte b':' t) ≡ (at_port p h 0, some tt))
      (sym (append-nil h)) (ap (parse_host (at_host p) h) (find_byte-none b':' h no_colon))
parse_host-text p h (suc n) no_colon fits =
    let d = to_decimal (suc n) in
    let text : port_text (suc n) ≡ b':' ∷ d = if_true _ _ (lt→ltb 0 (suc n) (omega arith)) in
    subst
      (λ t.
        parse_host (at_host p) (h ++ t) (find_byte b':' (h ++ t)) ≡ (at_port p h (suc n), some tt))
      (sym text)
      (ap (parse_host (at_host p) (h ++ (b':' ∷ d))) (find_byte-append b':' h d no_colon)
        ∙ ap₂ (λ a b. parse_port (at_port p a 0) b) (take_append h (b':' ∷ d))
            (drop-append-suc h d b':')
        ∙ parse_port-to_decimal p h (suc n) fits)

port_text-Lacks : (n : ℕ) → Lacks b'?' (port_text n)
port_text-Lacks n = elim (Bool-cases (ltb 0 n)) [
  | inl some_port ↦
      subst (Lacks b'?') (sym (if_true _ _ some_port))
        (refl, IsNumeral-Lacks b'?' refl (to_decimal-IsNumeral n))
  | inr no_port ↦ subst (Lacks b'?') (sym (if_false _ _ no_port)) tt
]

-- A URL with any query.
pub url_text : Text → Text → ℕ → Text → Text
url_text p h n query = p ++ (codes "://" ++ ((h ++ port_text n) ++ (b'?' ∷ query)))

pub parse-url_text :
    (u0 : KNetUrl) (p h : Text) (n : ℕ) (query : Text)
    → Lacks b':' p
    → Lacks b':' h
    → Lacks b'?' h
    → n < 2 ^ 16
    → parse u0 (url_text p h n query)
      ≡ (record { protocol = p; host = h; port = n; params = scan_params query }, some true)
unfolding url_text
parse-url_text u0 p h n query p_ok h_ok h_ok' fits =
    let a = h ++ port_text n in
    let a_ok = Lacks-append b'?' h (port_text n) h_ok' (port_text-Lacks n) in
    parse_front u0 p (a ++ (b'?' ∷ query)) p_ok
    ∙ ap (λ q. with_params (q.1) (parse_host (at_host p) (q.0) (find_byte b':' (q.0))))
        (ap (split_query (a ++ (b'?' ∷ query))) (find_byte-append b'?' a query a_ok)
          ∙ ap₂ (λ x y. (x, y)) (take_append a (b'?' ∷ query)) (drop-append-suc a query b'?'))
    ∙ ap (with_params query) (parse_host-text p h n h_ok fits)

-- `parse` of the text that `encode` writes gives that URL again and returns true, whatever the
-- parsed object held before, where the protocol has no colon, the host no colon and no `?`, the port
-- fits 16 bits, no key and no value has a `=` or a `&`, and each key has one value. The parameters
-- come in the order in which `encode` went through them.
pub parse-encode : (u0 u : KNetUrl) → IsEncodable u → parse u0 (encode u) ≡ (u, some true)
unfolding encode
parse-encode u0 u ok =
    let address = u.host ++ port_text u.port in
    parse_front u0 u.protocol (u.host ++ (port_text u.port ++ query_text u.params))
      ok.protocol_lacks
    ∙ ap (parse_rest (at_host u.protocol))
        (sym (append_assoc u.host (port_text u.port) (query_text u.params)))
    ∙ ap (λ q. with_params (q.1) (parse_host (at_host u.protocol) (q.0) (find_byte b':' (q.0))))
        (split_query-text address u.params
          (Lacks-append b'?' u.host (port_text u.port) ok.host_no_query (port_text-Lacks u.port)))
    ∙ ap (with_params (encode_params u.params))
        (parse_host-text u.protocol u.host u.port ok.host_lacks ok.port_fits)
    ∙ ap (λ ps. (record u { params = ps }, some true))
        (scan_params-encode_params u.params ok.plain ok.distinct)
