-- ===== src/Http/Encoder.antt =====
-- `HttpEncoder` of include/http/http_encoder.hpp with the requests and responses that it writes for
-- (include/http/http_request.hpp, include/http/http_response.hpp). The text of the date is an argument.
pub mod Headers
pub mod Body
pub mod Fields
use knet.Base.{
  ℕ, suc, Bool, true, false, ◌&&◌, Option, none, some, List, [], ◌∷◌, ◌++◌, ℤ, minus_one,
  if◌then◌else◌, ltb, ◌==◌, length, Text, codes, same_text, is_empty, to_decimal,
}
use knet.Http.Message.{
  HttpMethod, http_get, http_method_string, http_version_1_1, to_mime, status_string,
}

-- `std::map` in the order of its keys, byte by byte.
abbrev pub Headers : Type 0
Headers = List (Text × Text)

abbrev pub text_ltb : Text → Text → Bool
text_ltb [] [] = false
text_ltb [] (y ∷ ys) = true
text_ltb (x ∷ xs) [] = false
text_ltb (x ∷ xs) (y ∷ ys) =
    let rest = text_ltb xs ys in if ltb x y then true else if x == y then rest else false

-- http_headers[key] = value
unfoldable pub add_header : Text → Text → Headers → Headers
add_header key value [] = (key, value) ∷ []
add_header key value ((k, v) ∷ hs) =
    let rest = add_header key value hs in
    if same_text k key
    then (k, value) ∷ hs
    else if text_ltb key k
    then (key, value) ∷ (k, v) ∷ hs
    else (k, v) ∷ rest

-- The members that the encoder reads and writes, of both classes.
pub record HttpMessage : Type 0 where
  pub http_method : HttpMethod
  pub http_url : Text
  pub status_code : ℕ
  pub content_type : Text
  pub content : Text
  pub http_headers : Headers

abbrev pub empty_message : HttpMessage
empty_message = record {
  http_method = http_get;
  http_url = [];
  status_code = 0;
  content_type = [];
  content = [];
  http_headers = [];
}

unfoldable pub set_content : Text → Text → HttpMessage → HttpMessage
unfolding add_header to_mime
set_content body type_ m = if is_empty body then m else record m {
  content_type = to_mime type_;
  content = body;
  http_headers = add_header (codes "Content-Length") (to_decimal (length body)) m.http_headers;
}

abbrev pub crlf : Text
crlf = 13 ∷ 10 ∷ []

abbrev pub header_lines : Headers → List Text
header_lines [] = []
header_lines ((k, v) ∷ hs) =
    let rest = header_lines hs in if is_empty k then rest else (k ++ (codes ": " ++ v)) ∷ rest

abbrev pub lines_text : List Text → Text
lines_text [] = []
lines_text (l ∷ ls) = l ++ (crlf ++ lines_text ls)

-- The lines in front of the empty line.
abbrev pub request_lines : HttpMessage → List Text
request_lines m =
    (http_method_string m.http_method
      ++ (codes " " ++ (m.http_url ++ (codes " " ++ http_version_1_1))))
    ∷ header_lines m.http_headers

abbrev pub response_lines : Text → HttpMessage → List Text
response_lines date m =
    status_string m.status_code
    ∷ (header_lines m.http_headers
        ++ (codes "Server: KNet Http Server v0.1" ∷ (codes "Date: " ++ date) ∷ []))

unfoldable pub encode_request : HttpMessage → Text
unfolding http_method_string
encode_request m = lines_text (request_lines m) ++ (crlf ++ m.content)

unfoldable pub encode_response : Text → HttpMessage → Text
unfolding status_string
encode_response date m = lines_text (response_lines date m) ++ (crlf ++ m.content)

-- The constructors.
unfoldable pub make_request : HttpMethod → Text → Text → Text → HttpMessage
unfolding set_content
make_request method url body type_ =
    set_content body type_ (record empty_message { http_method = method; http_url = url })

unfoldable pub make_response : ℕ → Text → Text → HttpMessage
unfolding set_content
make_response code body type_ = set_content body type_ (record empty_message { status_code = code })

-- The methods of a response with a writer: what it is called with, if there is one. Its result is
-- theirs, and -1 without a writer.
unfoldable pub write_content : Bool → Text → Text → ℕ → HttpMessage → HttpMessage × Option Text
unfolding set_content encode_response
write_content writer date msg code r =
    let r' =
      set_content msg (codes "txt")
        (record r { status_code = if r.status_code == 0 then code else r.status_code }) in
    if writer then (r', some (encode_response date r')) else (r, none)

unfoldable pub write : Bool → Text → HttpMessage → HttpMessage × Option Text
unfolding encode_response
write writer date r =
    let r' = record r { status_code = if r.status_code == 0 then 200 else r.status_code } in
    if writer then (r', some (encode_response date r')) else (r, none)

-- The argument is not used.
unfoldable pub json : Bool → Text → Text → HttpMessage → HttpMessage × Option Text
unfolding encode_response add_header
json writer date msg r =
    let r' = record r {
      http_headers = add_header (codes "Content-Type") (codes "application/json") r.http_headers;
    } in
    if writer then (r', some (encode_response date r')) else (r, none)
