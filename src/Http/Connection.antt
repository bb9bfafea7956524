-- ===== src/Http/Connection.antt =====
-- `HttpConnection` of include/http/http_connection.hpp with its handlers, and the table of routes of
-- `HttpFactory` (include/http/http_factory.hpp).
pub mod Routes
use knet.Base.{
  ℕ, Bool, true, false, Option, none, some, List, [], ◌∷◌, ◌++◌, map, ℤ, negsuc, pos, minus_one,
  if◌then◌else◌, ◌==◌, Text, codes, lookup, insert,
}
use knet.Http.Message.{HttpMethod}
use knet.Http.Encoder.{
  HttpMessage, empty_message, encode_request, encode_response, make_response, write,
}
use knet.Http.Decoder.{Parser, Decoder, new_decoder, parse_request}

-- What the connection does: it sends, and it is closed.
pub data HttpEffect : Type 0 where
  sent : Text → HttpEffect
  closed : HttpEffect

-- A user's handler, of the request and the response: its result and what it gives the writer.
abbrev pub Handler : Type 0
Handler = Decoder → HttpMessage → ℤ × List Text

pub record HttpHandler : Type 0 where
  pub http_handler : Option Handler
  pub context_handler : Option Handler

abbrev pub RouteMap : Type 0
RouteMap = List (Text × HttpHandler)

-- What the connection is asked for: whether it is connected, and what `send` returns.
pub record HttpLink : Type 0 where
  pub is_connected : Bool
  pub send_result : Text → ℤ
  pub routers : Option RouteMap

abbrev pub texts_of : Option Text → List Text
texts_of none = []
texts_of (some t) = t ∷ []

abbrev pub first_handler : Option Handler → Option Handler → Option Handler
first_handler none h = h
first_handler (some c) h = some c

-- `HttpHandler::call`; with no handler the response is written as it is.
unfoldable pub call : HttpLink → Text → HttpHandler → Handler
unfolding write
call link date h req rsp = elim (first_handler h.context_handler h.http_handler) [
  | some f ↦ f req rsp
  | none ↦ elim (write true date rsp).1 [
    | none ↦ (minus_one, [])
    | some t ↦ (link.send_result t, t ∷ [])
  ]
]

-- `write` of a response: it is sent if the connection is up, and the connection is closed.
unfoldable pub write_response : HttpLink → Text → HttpMessage → List HttpEffect
unfolding encode_response
write_response link date rsp =
    if link.is_connected then sent (encode_response date rsp) ∷ closed ∷ [] else closed ∷ []

-- `write` of a text.
unfoldable pub write_text : HttpLink → Text → List HttpEffect
write_text link msg = if link.is_connected then sent msg ∷ closed ∷ [] else closed ∷ []

unfoldable pub send_first_request : Option HttpMessage → Option Text
unfolding encode_request
send_first_request none = none
send_first_request (some req) = some (encode_request req)

-- rst < 0
abbrev pub is_negative : ℤ → Bool
is_negative (pos n) = false
is_negative (negsuc n) = true

abbrev pub sent_all : List Text → List HttpEffect
sent_all [] = []
sent_all (t ∷ ts) = sent t ∷ sent_all ts

-- Behind the handler of a route.
abbrev pub handled : HttpLink → Text → ℤ × List Text → List HttpEffect
handled link date (rst, texts) =
    sent_all texts
    ++ ((if is_negative rst
          then write_response link date (make_response 501 [] (codes "txt"))
          else [])
        ++ (closed ∷ []))

abbrev pub routed : HttpLink → Text → Decoder → Option HttpHandler → List HttpEffect
routed link date req none =
    write_response link date (make_response 404 [] (codes "txt")) ++ (closed ∷ [])
routed link date req (some h) = handled link date (call link date h req empty_message)

abbrev pub by_routers : HttpLink → Text → Decoder → Option RouteMap → List HttpEffect
by_routers link date req none = []
by_routers link date req (some rs) = routed link date req (lookup req.http_path rs)

unfoldable pub handle_data : Parser → HttpLink → Text → Text → List HttpEffect
unfolding call write_response parse_request make_response lookup
handle_data p link date bytes =
    let (n, req) = parse_request p bytes false new_decoder in
    if n == 0 then [] else by_routers link date req link.routers

-- HttpFactory::register_router, for a handler of each kind: `http_routers[path].http_handler = f`
-- keeps what the entry has besides.
abbrev pub entry_or : Option HttpHandler → HttpHandler
entry_or none = record { http_handler = none; context_handler = none }
entry_or (some h) = h

unfoldable pub register_handler : Text → HttpHandler → RouteMap → RouteMap
unfolding insert
register_handler path h rs = insert path h rs

unfoldable pub register_request_handler : Text → Handler → RouteMap → RouteMap
unfolding insert lookup
register_request_handler path f rs =
    insert path (record (entry_or (lookup path rs)) { http_handler = some f }) rs

unfoldable pub register_context_handler : Text → Handler → RouteMap → RouteMap
unfolding insert lookup
register_context_handler path f rs =
    insert path (record (entry_or (lookup path rs)) { context_handler = some f }) rs
