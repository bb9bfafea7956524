-- ===== src/Http/Tests.antt =====
-- Messages, callbacks and routes at concrete inputs.
use knet.Base.{
  ◌≡◌, ◌≢◌, refl, true, false, none, some, List, [], ◌∷◌, ◌++◌, arith, pos, minus_one,
  if◌then◌else◌, length, Text, codes, same_text, Lacks-of_none, lookup, to_decimal,
}
use knet.Http.Message.{http_get, http_patch, http_method_string, add, to_mime, status_string}
use knet.Http.Encoder.{
  empty_message, add_header, encode_request, encode_response, make_request, make_response,
  write_content, json,
}
use knet.Http.Encoder.Body.{body_of}
use knet.Http.Encoder.Fields.{field_of, write_content-sent}
use knet.Http.Decoder.{
  on_url, on_headers_complete, Parser, new_decoder, request_callback, run_calls, parse_request,
}
use knet.Http.Decoder.Calls.{header_calls, body_calls, run_calls-request}
use knet.Http.Connection.{sent, closed, Handler, RouteMap, HttpLink, handle_data, call}
use knet.Http.Connection.Routes.{
  texts_sent, answer, ends_closed, handle_data-answered, handle_data-partial,
}

patch_is_trace : http_method_string http_patch ≡ codes "TRACE"
unfolding http_method_string
patch_is_trace = refl

unknown_status : status_string 418 ≡ codes "HTTP/1.0 400 Bad Request"
unfolding status_string
unknown_status = refl

mime_types :
    (to_mime (codes "txt") ≡ codes "text/html") × (to_mime (codes "js") ≡ codes "text/plain")
unfolding to_mime
mime_types = (refl, refl)

two_parameters : add (codes "b") (codes "2") (add (codes "a") (codes "1") []) ≡ codes "a=1&b=2"
unfolding add
two_parameters = refl

request_text :
    encode_request (make_request http_get (codes "/a") (codes "hi") (codes "txt"))
    ≡ codes "GET /a HTTP/1.1\r\nContent-Length: 2\r\n\r\nhi"
unfolding encode_request make_request to_decimal
request_text = refl

response_text :
    encode_response (codes "now") (make_response 404 [] (codes "txt"))
    ≡ codes "HTTP/1.0 404 Not Found\r\nServer: KNet Http Server v0.1\r\nDate: now\r\n\r\n"
unfolding encode_response make_response
response_text = refl

json_has_no_body : (json true (codes "now") (codes "{}") empty_message).0.content ≡ []
unfolding json
json_has_no_body = refl

write_content-sent_example :
    (t : Text) × ((write_content true (codes "now") (codes "hi") 200 empty_message).1 ≡ some t)
    × (body_of t ≡ some (codes "hi"))
    × (field_of (codes "Content-Length") t ≡ some (to_decimal 2))
write_content-sent_example =
    write_content-sent (codes "now") (codes "hi") 200 empty_message refl
      (Lacks-of_none 13 (codes "now") refl) tt tt

abbrev two_headers : List (Text × Text)
two_headers = (codes "Host", codes "h") ∷ (codes "Cookie", codes "c") ∷ []

sorted_headers :
    add_header (codes "Cookie") (codes "c") (add_header (codes "Host") (codes "h") [])
    ≡ (codes "Cookie", codes "c") ∷ (codes "Host", codes "h") ∷ []
unfolding add_header
sorted_headers = refl

abbrev whole : Text
whole = codes "GET /a?x HTTP/1.1\r\n\r\n"

abbrev part : Text
part = codes "GET /a"

-- Both texts are known to it.
abbrev parser : Parser
parser = record {
  calls = λ bytes.
      if same_text bytes whole
      then on_url (codes "/a?x") ∷ on_headers_complete 1 ∷ []
      else on_url (codes "/a") ∷ [];
  taken = length;
  taken_before_error = length;
  parse_url = λ url. some (record { path = some (codes "/a"); query = some (codes "x") });
}

abbrev greet : Handler
greet req rsp = (pos 2, codes "hi" ∷ [])

abbrev refuse : Handler
refuse req rsp = (minus_one, [])

abbrev routes : RouteMap
routes = (codes "/a", record { http_handler = some greet; context_handler = none }) ∷ []

abbrev link : HttpLink
link = record { is_connected = true; send_result = λ t. pos (length t); routers = some routes }

greeted : handle_data parser link (codes "now") whole ≡ sent (codes "hi") ∷ closed ∷ []
unfolding handle_data
greeted = refl

run_calls-request_example :
    run_calls
      (request_callback parser)
      (on_url (codes "/a?x")
        ∷ (header_calls two_headers
            ++ (on_headers_complete 1 ∷ body_calls (codes "one" ∷ codes "two" ∷ []))))
      new_decoder
    ≡ (
      true,
      record new_decoder {
        http_path = codes "/a";
        http_query = codes "x";
        request_url = codes "/a?x";
        http_url = codes "/a?x";
        method_value = some 1;
        headers = [] ++ two_headers;
        parse_header = (codes "Cookie", codes "c");
        http_body = codes "two";
      },
    )
run_calls-request_example =
    run_calls-request parser (codes "/a?x") (codes "/a") (some (codes "x")) 1 two_headers
      (codes "one" ∷ codes "two" ∷ []) new_decoder refl

takes : (t : Text) → (parse_request parser t false new_decoder).0 ≡ length t
unfolding parse_request
takes t = ground arith

taken_whole : (parse_request parser whole false new_decoder).0 ≢ 0
unfolding parse_request
taken_whole = omega arith

taken_part : (parse_request parser part false new_decoder).0 ≢ 0
unfolding parse_request
taken_part = omega arith

handle_data-answered_example :
    (texts_sent (handle_data parser link (codes "now") whole)
      ≡ answer true (codes "now") (some (pos 2, codes "hi" ∷ [])))
    × (ends_closed (handle_data parser link (codes "now") whole) ≡ true)
unfolding call lookup parse_request
handle_data-answered_example =
    handle_data-answered parser link routes (codes "now") whole refl taken_whole

handle_data-partial_example :
    handle_data parser link (codes "now") part
    ≡ sent (encode_response (codes "now") (make_response 404 [] (codes "txt")))
      ∷ closed
      ∷ closed
      ∷ []
unfolding lookup
handle_data-partial_example =
    handle_data-partial parser link routes (codes "now") part refl refl refl refl taken_part
