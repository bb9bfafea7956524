-- ===== src/Http/Encoder/Body.antt =====
-- What a reader finds in an encoded message: the body behind the first empty line.
use knet.Base.{
  ℕ, ◌≡◌, refl, sym, ap, subst, ◌∙◌, Bool, true, false, not, ◌&&◌, Option, none, some, List, [],
  ◌∷◌, ◌++◌, append_assoc, arith, if◌then◌else◌, if_false, if_split, ◌==◌, length, drop, Text,
  codes, same_text, is_empty, Lacks, Lacks-append, Lacks-of_none, find_byte, starts_with, lookup,
  to_decimal, to_decimal-IsNumeral, IsNumeral-Lacks,
}
use knet.Http.Message.{status_string, status_table, find_status, bad_request, to_mime}
use knet.Http.Encoder.{
  Headers, text_ltb, add_header, HttpMessage, set_content, crlf, header_lines, lines_text,
  encode_response,
}
use knet.Http.Encoder.Headers.{lookup-add_header}

-- Two line ends.
abbrev gap : Text
gap = 13 ∷ 10 ∷ 13 ∷ 10 ∷ []

-- What a reader takes for the body.
abbrev pub body_of : Text → Option Text
body_of [] = none
body_of (c ∷ s) =
    let rest = body_of s in if starts_with gap (c ∷ s) then some (drop 4 (c ∷ s)) else rest

-- A line has a byte and no CR.
pub record IsLine (l : Text) : Type 0 where
  pub filled : is_empty l ≡ false
  pub no_cr : Lacks 13 l

abbrev pub AllLines : List Text → Type 0
AllLines [] = Unit {0}
AllLines (l ∷ ls) = IsLine l × AllLines ls

past_byte : (c : ℕ) (s : Text) → (c == 13) ≡ false → body_of (c ∷ s) ≡ body_of s
past_byte c s h = if_false (starts_with gap (c ∷ s)) _ (ground arith)

past_line : (l s : Text) → Lacks 13 l → body_of (l ++ s) ≡ body_of s
past_line [] s h = refl
past_line (c ∷ l) s h = past_byte c (l ++ s) h.0 ∙ past_line l s h.1

past_end : (x : ℕ) (s : Text) → (x == 13) ≡ false → body_of (13 ∷ 10 ∷ x ∷ s) ≡ body_of (x ∷ s)
past_end x s h =
    if_false (starts_with gap (13 ∷ 10 ∷ x ∷ s)) _ (ground arith) ∙ past_byte 10 (x ∷ s) refl

body_of-lines :
    (l : Text) (ls : List Text) (body : Text)
    → IsLine l
    → AllLines ls
    → body_of (lines_text (l ∷ ls) ++ (crlf ++ body)) ≡ some body
body_of-lines l [] body h hs =
    ap body_of (append_assoc l (crlf ++ []) (crlf ++ body))
    ∙ past_line l (crlf ++ (crlf ++ body)) h.no_cr
body_of-lines l ([] ∷ ls) body h hs = absurd (cc hs.0.filled)
body_of-lines l ((x ∷ k) ∷ ls) body h hs =
    ap body_of (append_assoc l (crlf ++ lines_text ((x ∷ k) ∷ ls)) (crlf ++ body))
    ∙ past_line l (crlf ++ (lines_text ((x ∷ k) ∷ ls) ++ (crlf ++ body))) h.no_cr
    ∙ past_end x ((k ++ (crlf ++ lines_text ls)) ++ (crlf ++ body)) hs.0.no_cr.0
    ∙ body_of-lines (x ∷ k) ls body hs.0 hs.1

-- Headers without a CR.
abbrev pub AllPlain : Headers → Type 0
AllPlain [] = Unit {0}
AllPlain ((k, v) ∷ hs) = Lacks 13 k × Lacks 13 v × AllPlain hs

filled-append : (k s : Text) → is_empty k ≡ false → is_empty (k ++ s) ≡ false
filled-append [] s h = cc h
filled-append (c ∷ k) s h = refl

header_lines-AllLines : (hs : Headers) → AllPlain hs → AllLines (header_lines hs)
header_lines-AllLines [] h = tt
header_lines-AllLines ((k, v) ∷ hs) h =
    if_split AllLines (is_empty k) _ _ (λ _. header_lines-AllLines hs h.2)
      (λ filled. (
        record {
          filled = filled-append k (codes ": " ++ v) filled;
          no_cr = Lacks-append 13 k (codes ": " ++ v) h.0 (refl, (refl, h.1));
        },
        header_lines-AllLines hs h.2,
      ))

add_header-AllPlain :
    (key value : Text) (hs : Headers)
    → Lacks 13 key
    → Lacks 13 value
    → AllPlain hs
    → AllPlain (add_header key value hs)
unfolding add_header
add_header-AllPlain key value [] hk hv h = (hk, hv, tt)
add_header-AllPlain key value ((k, v) ∷ hs) hk hv h =
    if_split AllPlain (same_text k key) _ _ (λ _. (h.0, hv, h.2))
      (λ _.
        if_split AllPlain (text_ltb key k) _ _ (λ _. (hk, hv, h))
          (λ _. (h.0, h.1, add_header-AllPlain key value hs hk hv h.2)))

AllLines-append : (ls ks : List Text) → AllLines ls → AllLines ks → AllLines (ls ++ ks)
AllLines-append [] ks h k = k
AllLines-append (l ∷ ls) ks h k = (h.0, AllLines-append ls ks h.1 k)

-- The status lines.
literal : (s : Text) → is_empty s ≡ false → find_byte 13 s ≡ none → IsLine s
literal s h k = record { filled = h; no_cr = Lacks-of_none 13 s k }

AllTexts : List (ℕ × Text) → Type 0
AllTexts [] = Unit {0}
AllTexts ((c, t) ∷ ts) = IsLine t × AllTexts ts

find_status-IsLine : (ts : List (ℕ × Text)) (code : ℕ) → AllTexts ts → IsLine (find_status ts code)
unfolding AllTexts
find_status-IsLine [] code h = literal bad_request refl refl
find_status-IsLine ((c, t) ∷ ts) code h =
    if_split IsLine (c == code) _ _ (λ _. h.0) (λ _. find_status-IsLine ts code h.1)

-- A test of all texts of the table.
all_texts : List (ℕ × Text) → Bool
all_texts [] = true
all_texts ((c, t) ∷ ts) =
    not (is_empty t) && (elim (find_byte 13 t) [ none ↦ true | some _ ↦ false ] && all_texts ts)

all_texts-AllTexts : (ts : List (ℕ × Text)) → all_texts ts ≡ true → AllTexts ts
unfolding AllTexts all_texts
all_texts-AllTexts [] h = tt
all_texts-AllTexts ((c, t) ∷ ts) h =
    (literal t (ground (arith, h)) (ground (arith, h)), all_texts-AllTexts ts (ground (arith, h)))

table_checked : all_texts status_table ≡ true
unfolding all_texts
table_checked = refl

pub status_string-IsLine : (code : ℕ) → IsLine (status_string code)
unfolding status_string
status_string-IsLine code =
    find_status-IsLine status_table code (all_texts-AllTexts status_table table_checked)

pub body_of-encode_response :
    (date : Text) (m : HttpMessage)
    → Lacks 13 date
    → AllPlain m.http_headers
    → body_of (encode_response date m) ≡ some m.content
unfolding encode_response
body_of-encode_response date m h hs =
    body_of-lines (status_string m.status_code)
      (header_lines m.http_headers
        ++ (codes "Server: KNet Http Server v0.1" ∷ (codes "Date: " ++ date) ∷ []))
      m.content (status_string-IsLine m.status_code)
      (AllLines-append (header_lines m.http_headers) _ (header_lines-AllLines m.http_headers hs) (
        literal (codes "Server: KNet Http Server v0.1") refl refl,
        (
          record {
            filled = refl;
            no_cr =
                Lacks-append 13 (codes "Date: ") date (Lacks-of_none 13 (codes "Date: ") refl) h;
          },
          tt,
        ),
      ))

module _ (body type_ : Text) (m : HttpMessage) (filled : is_empty body ≡ false) where
  abbrev new_headers : Headers
  new_headers = add_header (codes "Content-Length") (to_decimal (length body)) m.http_headers

  set_content_filled :
      set_content body type_ m
      ≡ record m { content_type = to_mime type_; content = body; http_headers = new_headers }
  unfolding set_content
  set_content_filled = if_false _ _ filled

  pub content-set_content : (set_content body type_ m).content ≡ body
  content-set_content = ap (λ (n : HttpMessage). n.content) set_content_filled

  pub headers-set_content : (set_content body type_ m).http_headers ≡ new_headers
  headers-set_content = ap (λ (n : HttpMessage). n.http_headers) set_content_filled

  new_headers-AllPlain : AllPlain m.http_headers → AllPlain new_headers
  new_headers-AllPlain h =
      add_header-AllPlain (codes "Content-Length") (to_decimal (length body)) m.http_headers
        (Lacks-of_none 13 (codes "Content-Length") refl)
        (IsNumeral-Lacks 13 refl (to_decimal-IsNumeral (length body))) h

  pub set_content-AllPlain :
      AllPlain m.http_headers → AllPlain (set_content body type_ m).http_headers
  set_content-AllPlain h = subst AllPlain (sym headers-set_content) (new_headers-AllPlain h)

  pub length_header :
      lookup (codes "Content-Length") (set_content body type_ m).http_headers
      ≡ some (to_decimal (length body))
  length_header =
      ap (lookup (codes "Content-Length")) headers-set_content
      ∙ lookup-add_header (codes "Content-Length") (to_decimal (length body))
          (codes "Content-Length") m.http_headers
