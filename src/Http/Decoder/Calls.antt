-- ===== src/Http/Decoder/Calls.antt =====
-- What the callbacks of a whole request make of a decoder.
use knet.Base.{
  ℕ, ◌≡◌, refl, sym, ap, ◌∙◌, true, Option, some, List, [], ◌∷◌, ◌++◌, append-nil, append_assoc,
  Text,
}
use knet.Http.Decoder.{
  Callback, on_url, on_field, on_value, on_body, on_headers_complete, Parser, Decoder, Called,
  query_or, header_complete, parse_value, request_callback, next_call, run_calls,
}

abbrev pub header_calls : List (Text × Text) → List Callback
header_calls [] = []
header_calls ((k, v) ∷ hs) = on_field k ∷ on_value v ∷ header_calls hs

abbrev pub body_calls : List Text → List Callback
body_calls [] = []
body_calls (b ∷ bs) = on_body b ∷ body_calls bs

abbrev pub last_or : Text → List Text → Text
last_or d [] = d
last_or d (b ∷ bs) = last_or b bs

abbrev last_header : Text × Text → List (Text × Text) → Text × Text
last_header h [] = h
last_header h (k ∷ ks) = last_header k ks

module _ (p : Parser) where
  abbrev run : List Callback → Decoder → Called
  run cs d = run_calls (request_callback p) cs d

  run-headers :
      (hs : List (Text × Text)) (rest : List Callback) (d : Decoder)
      → run (header_calls hs ++ rest) d
        ≡ run rest
            (record d { headers = d.headers ++ hs; parse_header = last_header d.parse_header hs })
  unfolding request_callback
  run-headers [] rest d = ap (λ l. run rest (record d { headers = l })) (sym (append-nil d.headers))
  run-headers ((k, v) ∷ hs) rest d =
      run-headers hs rest (parse_value v (record d { parse_header = (k, d.parse_header.1) }))
      ∙ ap (λ l. run rest (record d { headers = l; parse_header = last_header (k, v) hs }))
          (append_assoc d.headers ((k, v) ∷ []) hs)

  run-bodies :
      (bs : List Text) (d : Decoder)
      → run (body_calls bs) d ≡ (true, record d { http_body = last_or d.http_body bs })
  unfolding request_callback
  run-bodies [] d = refl
  run-bodies (b ∷ bs) d = run-bodies bs (record d { http_body = b })

  completed :
      (url path : Text) (query : Option Text) (method : ℕ) (bs : List Text) (d : Decoder)
      → p.parse_url d.request_url ≡ some (record { path = some path; query = query })
      → run (on_headers_complete method ∷ body_calls bs) d ≡ (
        true,
        record d {
          http_path = path;
          http_query = query_or d.http_query query;
          method_value = some method;
          http_body = last_or d.http_body bs;
        },
      )
  unfolding request_callback
  completed url path query method bs d e =
      ap (λ o. next_call (header_complete method o d) (run (body_calls bs))) e
      ∙ run-bodies bs (record d {
        http_path = path;
        http_query = query_or d.http_query query;
        method_value = some method;
      })

  -- The callbacks of a request whose URL has a path: the decoder has the URL, the path, the query if
  -- there is one, the method and the headers behind those that it had, in their order; of the pieces
  -- of the body it has the last one only.
  pub run_calls-request :
      (url path : Text) (query : Option Text) (method : ℕ) (hs : List (Text × Text))
      (bs : List Text) (d : Decoder)
      → p.parse_url url ≡ some (record { path = some path; query = query })
      → run_calls
          (request_callback p)
          (on_url url ∷ (header_calls hs ++ (on_headers_complete method ∷ body_calls bs)))
          d
        ≡ (
          true,
          record d {
            http_path = path;
            http_query = query_or d.http_query query;
            request_url = url;
            http_url = url;
            method_value = some method;
            headers = d.headers ++ hs;
            parse_header = last_header d.parse_header hs;
            http_body = last_or d.http_body bs;
          },
        )
  unfolding request_callback
  run_calls-request url path query method hs bs d e =
      let d1 = record d { request_url = url; http_url = url } in
      run-headers hs (on_headers_complete method ∷ body_calls bs) d1
      ∙ completed url path query method bs
          (record d1 { headers = d.headers ++ hs; parse_header = last_header d.parse_header hs })
          (e)
