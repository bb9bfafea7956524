-- ===== src/Http/Connection/Routes.antt =====
-- What an HTTP connection does with a request.
use knet.Base.{
  ℕ, sym, inl, inr, Bool-cases, append-nil, codes, ◌≡◌, ◌≢◌, refl, ap, ◌∙◌, Bool, true, false,
  Option, none, some, List, [], ◌∷◌, ◌++◌, arith, ℤ, pos, negsuc, if_true, if_false, ne→not-==,
  Text, same_text, same_text_iff, lookup, insert, lookup-insert,
}
use knet.Http.Encoder.{HttpMessage, empty_message, encode_response, make_response}
use knet.Http.Decoder.{
  Callback, on_url, on_field, on_value, on_body, on_status, on_headers_complete, Parser, Decoder,
  new_decoder, run_calls, request_callback, parse_request,
}
use knet.Http.Connection.{
  HttpEffect, sent, closed, Handler, HttpHandler, RouteMap, HttpLink, call, write_response,
  sent_all, handled, routed, by_routers, handle_data, entry_or, register_request_handler,
  register_context_handler,
}

abbrev only_closed : List HttpEffect → Bool
only_closed [] = true
only_closed (sent t ∷ es) = false
only_closed (closed ∷ es) = only_closed es

-- Some texts, and then the connection is closed, once or more, and nothing is sent any more.
abbrev pub ends_closed : List HttpEffect → Bool
ends_closed [] = false
ends_closed (sent t ∷ es) = ends_closed es
ends_closed (closed ∷ es) = only_closed es

ends_closed-sent_all :
    (ts : List Text) (es : List HttpEffect) → ends_closed (sent_all ts ++ es) ≡ ends_closed es
ends_closed-sent_all [] es = refl
ends_closed-sent_all (t ∷ ts) es = ends_closed-sent_all ts es

response_ends :
    (link : HttpLink) (date : Text) (rsp : HttpMessage)
    → ends_closed (write_response link date rsp ++ (closed ∷ [])) ≡ true
unfolding write_response
response_ends link date rsp = ground arith

handled_ends :
    (link : HttpLink) (date : Text) (r : ℤ × List Text) → ends_closed (handled link date r) ≡ true
handled_ends link date (pos n, ts) = ends_closed-sent_all ts (closed ∷ [])
handled_ends link date (negsuc n, ts) =
    ends_closed-sent_all ts _ ∙ response_ends link date (make_response 501 [] (codes "txt"))

routed_ends :
    (link : HttpLink) (date : Text) (req : Decoder) (h : Option HttpHandler)
    → ends_closed (routed link date req h) ≡ true
routed_ends link date req none = response_ends link date (make_response 404 [] (codes "txt"))
routed_ends link date req (some h) = handled_ends link date (call link date h req empty_message)

-- The texts that are sent, in their order.
abbrev pub texts_sent : List HttpEffect → List Text
texts_sent [] = []
texts_sent (sent t ∷ es) = t ∷ texts_sent es
texts_sent (closed ∷ es) = texts_sent es

-- The response of a status without a body, on a connection that is up.
abbrev pub status_text : Bool → Text → ℕ → List Text
status_text true date code = encode_response date (make_response code [] (codes "txt")) ∷ []
status_text false date code = []

-- What a request is to be answered with, by the route of its path.
abbrev pub answer : Bool → Text → Option (ℤ × List Text) → List Text
answer up date none = status_text up date 404
answer up date (some (pos n, ts)) = ts
answer up date (some (negsuc n, ts)) = ts ++ status_text up date 501

-- What the handler of a route returns, and the texts that it gives the writer.
abbrev pub returned : HttpLink → Text → Decoder → Option HttpHandler → Option (ℤ × List Text)
returned link date req none = none
returned link date req (some h) = some (call link date h req empty_message)

texts_sent-sent_all :
    (ts : List Text) (es : List HttpEffect) → texts_sent (sent_all ts ++ es) ≡ ts ++ texts_sent es
texts_sent-sent_all [] es = refl
texts_sent-sent_all (t ∷ ts) es = ap (λ r. t ∷ r) (texts_sent-sent_all ts es)

status_sent :
    (link : HttpLink) (date : Text) (code : ℕ)
    → texts_sent (write_response link date (make_response code [] (codes "txt")) ++ (closed ∷ []))
      ≡ status_text link.is_connected date code
unfolding write_response
status_sent link date code = elim (Bool-cases link.is_connected) [
  | inl up ↦
      ap (λ es. texts_sent (es ++ (closed ∷ []))) (if_true _ _ up)
      ∙ ap (λ u. status_text u date code) (sym up)
  | inr down ↦
      ap (λ es. texts_sent (es ++ (closed ∷ []))) (if_false _ _ down)
      ∙ ap (λ u. status_text u date code) (sym down)
]

routed_sent :
    (link : HttpLink) (date : Text) (req : Decoder) (o : Option HttpHandler)
    → texts_sent (routed link date req o) ≡ answer link.is_connected date (returned link date req o)
routed_sent link date req none = status_sent link date 404
routed_sent link date req (some h) = handled_sent (call link date h req empty_message)
  where
    handled_sent :
        (r : ℤ × List Text)
        → texts_sent (handled link date r) ≡ answer link.is_connected date (some r)
    handled_sent (pos n, ts) = texts_sent-sent_all ts (closed ∷ []) ∙ append-nil ts
    handled_sent (negsuc n, ts) =
        texts_sent-sent_all ts _ ∙ ap (λ r. ts ++ r) (status_sent link date 501)

-- Of a connection with a table of routes, for bytes of which the parser takes some: without a route for
-- the path, the status 404 is sent, if the connection is up; with one, what its handler writes, and
-- behind that, if the handler returns a negative number and the connection is up, the status 501.
-- Nothing else is sent. Then the connection is closed, and nothing is sent any more.
pub handle_data-answered :
    (p : Parser) (link : HttpLink) (rs : RouteMap) (date bytes : Text)
    → link.routers ≡ some rs
    → (parse_request p bytes false new_decoder).0 ≢ 0
    → let req = (parse_request p bytes false new_decoder).1 in
      (texts_sent (handle_data p link date bytes)
        ≡ answer link.is_connected date (returned link date req (lookup req.http_path rs)))
      × (ends_closed (handle_data p link date bytes) ≡ true)
unfolding handle_data
handle_data-answered p link rs date bytes e some_ =
    let (n, req) = parse_request p bytes false new_decoder in
    let routes : handle_data p link date bytes ≡ routed link date req (lookup req.http_path rs) =
      if_false _ _ (ne→not-== n 0 some_) ∙ ap (by_routers link date req) e in
    (
      ap texts_sent routes ∙ routed_sent link date req (lookup req.http_path rs),
      ap ends_closed routes ∙ routed_ends link date req (lookup req.http_path rs),
    )

-- Callbacks without that for the end of the headers.
abbrev pub headers_open : List Callback → Bool
headers_open [] = true
headers_open (on_headers_complete m ∷ cs) = false
headers_open (on_url s ∷ cs) = headers_open cs
headers_open (on_field s ∷ cs) = headers_open cs
headers_open (on_value s ∷ cs) = headers_open cs
headers_open (on_body s ∷ cs) = headers_open cs
headers_open (on_status s code ∷ cs) = headers_open cs

path_kept :
    (p : Parser) (cs : List Callback) (d : Decoder)
    → headers_open cs ≡ true
    → (run_calls (request_callback p) cs d).1.http_path ≡ d.http_path
unfolding request_callback
path_kept p [] d h = refl
path_kept p (on_headers_complete m ∷ cs) d h = cc h
path_kept p (on_url s ∷ cs) d h = path_kept p cs _ h
path_kept p (on_field s ∷ cs) d h = path_kept p cs _ h
path_kept p (on_value s ∷ cs) d h = path_kept p cs _ h
path_kept p (on_body s ∷ cs) d h = path_kept p cs _ h
path_kept p (on_status s code ∷ cs) d h = path_kept p cs _ h

no_path :
    (p : Parser) (bytes : Text)
    → headers_open (p.calls bytes) ≡ true
    → (parse_request p bytes false new_decoder).1.http_path ≡ []
unfolding parse_request
no_path p bytes h = path_kept p (p.calls bytes) new_decoder h

-- A connection that is up, with a table of routes that has none for the empty path: bytes that end
-- before the headers do, of which the parser takes some, are answered by the status 404, and the
-- connection is closed.
pub handle_data-partial :
    (p : Parser) (link : HttpLink) (rs : RouteMap) (date bytes : Text)
    → link.is_connected ≡ true
    → link.routers ≡ some rs
    → lookup [] rs ≡ none
    → headers_open (p.calls bytes) ≡ true
    → (parse_request p bytes false new_decoder).0 ≢ 0
    → handle_data p link date bytes
      ≡ sent (encode_response date (make_response 404 [] (codes "txt"))) ∷ closed ∷ closed ∷ []
unfolding handle_data write_response
handle_data-partial p link rs date bytes up e unrouted open_ some_ =
    let (n, req) = parse_request p bytes false new_decoder in
    if_false _ _ (ne→not-== n 0 some_)
    ∙ ap (by_routers link date req) e
    ∙ ap (λ path. routed link date req (lookup path rs)) (no_path p bytes open_)
    ∙ ap (routed link date req) unrouted
    ∙ ap (λ es. es ++ (closed ∷ [])) (if_true _ _ up)

-- A handler of requests that is registered for a path after a handler of contexts is not called: the
-- route calls the handler of contexts.
pub register_request_handler-call :
    (path : Text) (f g : Handler) (rs : RouteMap) (link : HttpLink) (date : Text) (req : Decoder)
    (rsp : HttpMessage)
    → let rs' = register_request_handler path g (register_context_handler path f rs) in
      (h : HttpHandler) × (lookup path rs' ≡ some h)
      × (h.http_handler ≡ some g)
      × (call link date h req rsp ≡ f req rsp)
unfolding register_request_handler register_context_handler call
register_request_handler-call path f g rs link date req rsp =
    let e = record (entry_or (lookup path rs)) { context_handler = some f } in
    let m = insert path e rs in
    let same : same_text path path ≡ true = (same_text_iff path path).1 refl in
    let found : lookup path m ≡ some e = lookup-insert path path e rs ∙ if_true _ _ same in
    let h = record (entry_or (lookup path m)) { http_handler = some g } in
    (
      h,
      lookup-insert path path h m ∙ if_true _ _ same,
      refl,
      ap (λ o. call link date (record (entry_or o) { http_handler = some g }) req rsp) found,
    )
