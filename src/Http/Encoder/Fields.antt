-- ===== src/Http/Encoder/Fields.antt =====
-- What a reader finds in the headers of an encoded message: the field "Content-Length".
use knet.Base.{
  ℕ, ◌≡◌, refl, sym, ap, subst, ◌∙◌, Bool, true, false, Option, none, some, List, [], ◌∷◌, ◌++◌,
  append_assoc, arith, if◌then◌else◌, if_true, if_false, if_split, ◌==◌, length, drop, Text, codes,
  same_text, same_text_iff, is_empty, Lacks, Lacks-append, Lacks-of_none, starts_with, lookup,
  to_decimal, Bool-cases, inl, inr,
}
use knet.Http.Message.{status_string}
use knet.Http.Encoder.{
  Headers, text_ltb, add_header, HttpMessage, set_content, crlf, header_lines, lines_text,
  encode_response, write_content,
}
use knet.Http.Encoder.Body.{
  body_of, AllPlain, status_string-IsLine, body_of-encode_response, set_content-AllPlain,
  content-set_content, headers-set_content, length_header,
}

-- The pieces between the CRs; each but the first begins with the LF.
abbrev cons_first : ℕ → List Text → List Text
cons_first c [] = (c ∷ []) ∷ []
cons_first c (p ∷ ps) = (c ∷ p) ∷ ps

abbrev pub pieces : Text → List Text
pieces [] = [] ∷ []
pieces (c ∷ s) = let rest = pieces s in if c == 13 then [] ∷ rest else cons_first c rest

-- The value behind the name, a colon and a space, of the first piece that has them, up to the empty
-- line.
abbrev pub field_in : Text → List Text → Option Text
field_in key [] = none
field_in key (p ∷ ps) =
    let rest = field_in key ps in
    if is_empty (drop 1 p)
    then none
    else if starts_with (10 ∷ (key ++ codes ": ")) p
    then some (drop (length (10 ∷ (key ++ codes ": "))) p)
    else rest

abbrev behind_first : List Text → List Text
behind_first [] = []
behind_first (p ∷ ps) = ps

-- What a reader takes for the value of a header, behind the status line.
abbrev pub field_of : Text → Text → Option Text
field_of key t = field_in key (behind_first (pieces t))

pieces-line : (l s : Text) → Lacks 13 l → pieces (l ++ (13 ∷ s)) ≡ l ∷ pieces s
pieces-line [] s h = refl
pieces-line (c ∷ l) s h = if_false (c == 13) _ h.0 ∙ ap (cons_first c) (pieces-line l s h.1)

-- Names without a colon.
abbrev pub AllNamed : Headers → Type 0
AllNamed [] = Unit {0}
AllNamed ((k, v) ∷ hs) = Lacks 58 k × AllNamed hs

add_header-AllNamed :
    (key value : Text) (hs : Headers)
    → Lacks 58 key
    → AllNamed hs
    → AllNamed (add_header key value hs)
unfolding add_header
add_header-AllNamed key value [] hk h = (hk, tt)
add_header-AllNamed key value ((k, v) ∷ hs) hk h =
    if_split AllNamed (same_text k key) _ _ (λ _. h)
      (λ _.
        if_split AllNamed (text_ltb key k) _ _ (λ _. (hk, h))
          (λ _. (h.0, add_header-AllNamed key value hs hk h.1)))

-- A line begins with a name if it is the line of that name.
starts_with-name :
    (key k v : Text)
    → Lacks 58 key
    → Lacks 58 k
    → starts_with (key ++ codes ": ") (k ++ (codes ": " ++ v)) ≡ same_text k key
starts_with-name [] [] v hk h = refl
starts_with-name [] (y ∷ k) v hk h = ground (arith, h)
starts_with-name (x ∷ key) [] v hk h = ground (arith, hk)
starts_with-name (x ∷ key) (y ∷ k) v hk h = ground (arith, starts_with-name key k v, hk, h)

drop-name : (key v : Text) → drop (length (key ++ codes ": ")) (key ++ (codes ": " ++ v)) ≡ v
drop-name [] v = refl
drop-name (x ∷ key) v = drop-name key v

filled-name : (k v : Text) → is_empty (k ++ (codes ": " ++ v)) ≡ false
filled-name [] v = refl
filled-name (c ∷ k) v = refl

field_in-headers :
    (key v : Text) (hs : Headers) (more : List Text) (tail : Text)
    → is_empty key ≡ false
    → Lacks 58 key
    → AllPlain hs
    → AllNamed hs
    → lookup key hs ≡ some v
    → field_in key (pieces (10 ∷ (lines_text (header_lines hs ++ more) ++ tail))) ≡ some v
unfolding lookup
field_in-headers [] v hs more tail filled hk plain named e = absurd (cc filled)
field_in-headers (x ∷ key) v [] more tail filled hk plain named e = absurd (cc e)
field_in-headers (x ∷ key) v (([], w) ∷ hs) more tail filled hk plain named e =
    field_in-headers (x ∷ key) v hs more tail filled hk plain.2 named.1 e
field_in-headers (x ∷ key) v ((y ∷ k, w) ∷ hs) more tail filled hk plain named e =
    let l = (y ∷ k) ++ (codes ": " ++ w) in
    let others = lines_text (header_lines hs ++ more) in
    let ps = pieces (10 ∷ (others ++ tail)) in
    let no_cr : Lacks 13 (10 ∷ l) =
      (refl, Lacks-append 13 (y ∷ k) (codes ": " ++ w) plain.0 (refl, (refl, plain.1))) in
    let value = drop (length ((x ∷ key) ++ codes ": ")) l in
    let pick : Bool → Option Text = λ b. if b then some value else field_in (x ∷ key) ps in
    ap (λ t. field_in (x ∷ key) (pieces (10 ∷ t))) (append_assoc l (crlf ++ others) tail)
    ∙ ap (field_in (x ∷ key)) (pieces-line (10 ∷ l) (10 ∷ (others ++ tail)) no_cr)
    ∙ ap pick (starts_with-name (x ∷ key) (y ∷ k) w hk named.0)
    ∙ elim (Bool-cases (same_text (y ∷ k) (x ∷ key))) [
      | inl same ↦
          let names : (y ∷ k) ≡ (x ∷ key) = (same_text_iff (y ∷ k) (x ∷ key)).0 same in
          ap pick same
          ∙ ap
              (λ (n : Text).
                some (drop (length ((x ∷ key) ++ codes ": ")) (n ++ (codes ": " ++ w))))
              names
          ∙ ap some (drop-name (x ∷ key) w)
          ∙ sym (if_true _ _ same)
          ∙ e
      | inr other ↦
          ap pick other
          ∙ field_in-headers (x ∷ key) v hs more tail filled hk plain.2 named.1
              (sym (if_false _ _ other) ∙ e)
    ]

field_of-encode_response :
    (key v date : Text) (m : HttpMessage)
    → is_empty key ≡ false
    → Lacks 58 key
    → AllPlain m.http_headers
    → AllNamed m.http_headers
    → lookup key m.http_headers ≡ some v
    → field_of key (encode_response date m) ≡ some v
unfolding encode_response
field_of-encode_response key v date m filled hk plain named e =
    let extra = codes "Server: KNet Http Server v0.1" ∷ (codes "Date: " ++ date) ∷ [] in
    let others = lines_text (header_lines m.http_headers ++ extra) in
    let tail = crlf ++ m.content in
    let first = status_string m.status_code in
    ap (λ t. field_of key t) (append_assoc first (crlf ++ others) tail)
    ∙ ap (λ (ps : List Text). field_in key (behind_first ps))
        (pieces-line first (10 ∷ (others ++ tail)) (status_string-IsLine m.status_code).no_cr)
    ∙ field_in-headers key v m.http_headers extra tail filled hk plain named e

-- A response with a writer to which a body that is not empty is written gives the writer one text, in
-- which a reader finds that body behind the first empty line, and in the lines before that, behind the
-- name "Content-Length", the length of the body in decimal, if neither the date nor a header has a CR
-- and no header's name has a colon.
pub write_content-sent :
    (date msg : Text) (code : ℕ) (r : HttpMessage)
    → is_empty msg ≡ false
    → Lacks 13 date
    → AllPlain r.http_headers
    → AllNamed r.http_headers
    → (t : Text) × ((write_content true date msg code r).1 ≡ some t)
      × (body_of t ≡ some msg)
      × (field_of (codes "Content-Length") t ≡ some (to_decimal (length msg)))
unfolding write_content
write_content-sent date msg code r filled h plain named =
    let r0 = record r { status_code = if r.status_code == 0 then code else r.status_code } in
    let r' = set_content msg (codes "txt") r0 in
    let plain' = set_content-AllPlain msg (codes "txt") r0 filled plain in
    let named' : AllNamed r'.http_headers =
      subst AllNamed (sym (headers-set_content msg (codes "txt") r0 filled)) (
        add_header-AllNamed (codes "Content-Length") (to_decimal (length msg)) r.http_headers
          (Lacks-of_none 58 (codes "Content-Length") refl) named) in
    (
      encode_response date r',
      refl,
      body_of-encode_response date r' h plain'
          ∙ ap some (content-set_content msg (codes "txt") r0 filled),
      field_of-encode_response (codes "Content-Length") (to_decimal (length msg)) date r' refl
          (Lacks-of_none 58 (codes "Content-Length") refl) plain' named'
          (length_header msg (codes "txt") r0 filled),
    )
