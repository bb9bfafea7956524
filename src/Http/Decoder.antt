-- ===== src/Http/Decoder.antt =====
-- `HttpDecoder` of include/http/http_decoder.hpp, for requests and responses. The parser (http_parser.hpp,
-- a copy of another project) is a parameter: the callbacks that it makes for some bytes, in order, and
-- how many bytes it says it took.
pub mod Calls
use mathlib.Core.Option
use knet.Base.{
  ℕ, Bool, true, false, Option, none, some, List, [], ◌∷◌, ◌++◌, if◌then◌else◌, ltb, length, take,
  Text, same_text,
}

pub data Callback : Type 0 where
  on_url on_field on_value on_body : Text → Callback
  -- The text and the code.
  on_status : Text → ℕ → Callback
  -- The method.
  on_headers_complete : ℕ → Callback

-- What `http_parser_parse_url` says of a URL that it takes.
pub record UrlInfo : Type 0 where
  pub path : Option Text
  pub query : Option Text

-- The calls if every callback returns 0, and the bytes taken then, or up to a callback that does not.
pub record Parser : Type 0 where
  pub calls : Text → List Callback
  pub taken : Text → ℕ
  pub taken_before_error : Text → ℕ
  pub parse_url : Text → Option UrlInfo

-- The members of the decoder, and those of the message that it sets.
pub record Decoder : Type 0 where
  pub request_url : Text
  pub http_url : Text
  pub http_status : Text
  pub status_code : ℕ
  pub http_body : Text
  pub http_path : Text
  pub http_query : Text
  pub method_value : Option ℕ
  pub parse_header : Text × Text
  pub headers : List (Text × Text)
  pub raw_data : Text

abbrev pub new_decoder : Decoder
new_decoder = record {
  request_url = [];
  http_url = [];
  http_status = [];
  status_code = 0;
  http_body = [];
  http_path = [];
  http_query = [];
  method_value = none;
  parse_header = ([], []);
  headers = [];
  raw_data = [];
}

-- Whether the callback returned 0.
abbrev pub Called : Type 0
Called = Bool × Decoder

abbrev pub query_or : Text → Option Text → Text
query_or old none = old
query_or old (some q) = q

-- parse_header_complete, by what is known of the URL.
abbrev pub header_complete : ℕ → Option UrlInfo → Decoder → Called
header_complete method none d = (true, d)
header_complete method (some info) d = elim info.path [
  | none ↦ (false, d)
  | some p ↦ (
    true,
    record d {
      http_path = p;
      http_query = query_or d.http_query info.query;
      method_value = some method;
    },
  )
]

abbrev pub parse_value : Text → Decoder → Decoder
parse_value v d = record d {
  parse_header = (d.parse_header.0, v);
  headers = d.headers ++ ((d.parse_header.0, v) ∷ []);
}

unfoldable pub request_callback : Parser → Callback → Decoder → Called
request_callback p (on_url s) d = (true, record d { request_url = s; http_url = s })
request_callback p (on_field s) d = (true, record d { parse_header = (s, d.parse_header.1) })
request_callback p (on_value s) d = (true, parse_value s d)
request_callback p (on_body s) d = (true, record d { http_body = s })
request_callback p (on_status s code) d = (true, d)
request_callback p (on_headers_complete method) d =
    header_complete method (p.parse_url d.request_url) d

unfoldable pub response_callback : Parser → Callback → Decoder → Called
response_callback p (on_url s) d = (true, d)
response_callback p (on_field s) d = (true, record d { parse_header = (s, d.parse_header.1) })
response_callback p (on_value s) d = (true, parse_value s d)
response_callback p (on_body s) d = (true, record d { http_body = s })
response_callback p (on_status s code) d = (true, record d { http_status = s; status_code = code })
response_callback p (on_headers_complete method) d = (true, d)

-- The parser stops at a callback that does not return 0.
abbrev pub next_call : Called → (Decoder → Called) → Called
next_call (true, d) f = f d
next_call (false, d) f = (false, d)

abbrev pub run_calls : (Callback → Decoder → Called) → List Callback → Decoder → Called
run_calls f [] d = (true, d)
run_calls f (c ∷ cs) d = next_call (f c d) (run_calls f cs)

abbrev executed : Parser → Text → Called → ℕ × Decoder
executed p bytes (ok, d) = (if ok then p.taken bytes else p.taken_before_error bytes, d)

-- `parse_request` and `parse_response`; a copy of the data is kept if it is not in place.
abbrev kept : Bool → Text → ℕ × Decoder → ℕ × Decoder
kept true bytes r = r
kept false bytes (n, d) =
    (n, record d { raw_data = if ltb n (length bytes) then take n bytes else bytes })

unfoldable pub parse_request : Parser → Text → Bool → Decoder → ℕ × Decoder
unfolding request_callback
parse_request p bytes inplace d =
    kept inplace bytes (executed p bytes (run_calls (request_callback p) (p.calls bytes) d))

unfoldable pub parse_response : Parser → Text → Bool → Decoder → ℕ × Decoder
unfolding response_callback
parse_response p bytes inplace d =
    kept inplace bytes (executed p bytes (run_calls (response_callback p) (p.calls bytes) d))

-- The first header of that name, or nothing.
abbrev find_header : List (Text × Text) → Text → Text
find_header [] key = []
find_header ((k, v) ∷ hs) key = let rest = find_header hs key in if same_text k key then v else rest

unfoldable pub get_header : Decoder → Text → Text
get_header d key = find_header d.headers key
