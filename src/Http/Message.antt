-- ===== src/Http/Message.antt =====
-- The tables of include/http/http_message.hpp.
use knet.Base.{ℕ, ◌++◌, List, [], ◌∷◌, if◌then◌else◌, ◌==◌, Text, codes, same_text, is_empty}

pub data HttpMethod : Type 0 where
  http_get http_head http_post http_put http_delete http_trace http_options http_connect
        http_patch :
      HttpMethod

unfoldable pub http_method_string : HttpMethod → Text
http_method_string http_get = codes "GET"
http_method_string http_post = codes "POST"
http_method_string http_head = codes "HEAD"
http_method_string http_put = codes "PUT"
http_method_string http_delete = codes "DELETE"
http_method_string http_trace = codes "TRACE"
http_method_string http_options = codes "OPTIONS"
http_method_string http_connect = codes "CONNECT"
http_method_string http_patch = codes "TRACE"

abbrev pub http_version_1_1 : Text
http_version_1_1 = codes "HTTP/1.1"

-- HttpQueryParameter::add
unfoldable pub add : Text → Text → Text → Text
add k v parameters =
    (if is_empty parameters then parameters else parameters ++ codes "&") ++ (k ++ (codes "=" ++ v))

abbrev mappings : List (Text × Text)
mappings =
    (codes "gif", codes "image/gif")
    ∷ (codes "htm", codes "text/html")
    ∷ (codes "html", codes "text/html")
    ∷ (codes "jpg", codes "image/jpeg")
    ∷ (codes "png", codes "image/png")
    ∷ (codes "txt", codes "text/html")
    ∷ []

abbrev to_mime_in : List (Text × Text) → Text → Text
to_mime_in [] ext = codes "text/plain"
to_mime_in ((e, m) ∷ ms) ext = let rest = to_mime_in ms ext in if same_text e ext then m else rest

unfoldable pub to_mime : Text → Text
to_mime ext = to_mime_in mappings ext

abbrev pub bad_request : Text
bad_request = codes "HTTP/1.0 400 Bad Request"

-- The cases of status_strings::to_string.
abbrev pub status_table : List (ℕ × Text)
status_table =
    (101, codes "HTTP/1.1 101  Web Socket Protocol Handshake")
    ∷ (200, codes "HTTP/1.0 200 OK")
    ∷ (201, codes "HTTP/1.0 201 Created")
    ∷ (202, codes "HTTP/1.0 202 Accepted")
    ∷ (204, codes "HTTP/1.0 204 No Content")
    ∷ (300, codes "HTTP/1.0 300 Multiple Choices")
    ∷ (301, codes "HTTP/1.0 301 Moved Permanently")
    ∷ (302, codes "HTTP/1.0 302 Moved Temporarily")
    ∷ (304, codes "HTTP/1.0 304 Not Modified")
    ∷ (400, bad_request)
    ∷ (401, codes "HTTP/1.0 401 Unauthorized")
    ∷ (403, codes "HTTP/1.0 403 Forbidden")
    ∷ (404, codes "HTTP/1.0 404 Not Found")
    ∷ (500, codes "HTTP/1.0 500 Internal Server Error")
    ∷ (501, codes "HTTP/1.0 501 Not Implemented")
    ∷ (502, codes "HTTP/1.0 502 Bad Gateway")
    ∷ (503, codes "HTTP/1.0 503 Service Unavailable")
    ∷ []

abbrev pub find_status : List (ℕ × Text) → ℕ → Text
find_status [] code = bad_request
find_status ((c, t) ∷ ts) code = let rest = find_status ts code in if c == code then t else rest

unfoldable pub status_string : ℕ → Text
status_string code = find_status status_table code
