-- ===== src/Websocket/Upgrade/Routed.antt =====
-- Which handler gets the messages of a server's connection.
use knet.Base.{
  ℕ, ◌≡◌, refl, sym, subst, Bool, true, Option, none, some, List, [], ◌∷◌, ◌++◌, if_split, leb,
  ◌==◌, length, Text, codes, same_text, lookup,
}
use knet.Event.{NetEvent, evt_connect, event_code}
use knet.Http.Encoder.{HttpMessage, encode_response, encode_request, make_response}
use knet.Http.Decoder.{Decoder, new_decoder, parse_request, get_header}
use knet.Http.Connection.{HttpHandler}
use knet.Websocket.Reader.{read}
use knet.Websocket.Upgrade.{
  WSockStatus, wsock_init, wsock_connecting, WSockConnection, WSockEffect, sent, closed, handed,
  Surroundings, Routes, Step, write_response, reply, handle_event, upgrade_response,
  upgrade_websocket, read_message, read_websocket, http_routed, upgraded, wsock_routed, on_request,
  handle_http, handle_data,
}

-- The handler of a route.
abbrev pub IsRoute : Routes → Option ℕ → Type 0
IsRoute rs m = (path : Text) × (lookup path rs.wsock_routers ≡ some m)

-- Messages are handed to handlers of routes.
abbrev pub AllRouted : Routes → List WSockEffect → Type 0
AllRouted rs [] = Unit {0}
AllRouted rs (sent t ∷ es) = AllRouted rs es
AllRouted rs (closed ∷ es) = AllRouted rs es
AllRouted rs (handed h msg ∷ es) = IsRoute rs (some h) × AllRouted rs es

-- A connection that a server made: no request is sent first, and one that was upgraded has the handler
-- of a route.
pub record IsServer (rs : Routes) (c : WSockConnection) : Type 0 where
  pub status : c.m_status ≡ wsock_init
  pub no_request : c.first_request ≡ none
  pub routed : c.is_websocket ≡ true → IsRoute rs c.message

pub data Input : Type 0 where
  event : NetEvent → Input
  bytes : Text → Input

abbrev pub step : Routes → Surroundings × Input → WSockConnection → Step
step rs (w, event evt) c = handle_event evt c
step rs (w, bytes b) c = (handle_data w rs b c).1

abbrev pub andthen : Step → (WSockConnection → Step) → Step
andthen (c, es) f = let (c', fs) = f c in (c', es ++ fs)

abbrev pub run : Routes → List (Surroundings × Input) → WSockConnection → Step
run rs [] c = (c, [])
run rs (i ∷ is_) c = andthen (step rs i c) (run rs is_)

abbrev Kept : Routes → Step → Type 0
Kept rs s = IsServer rs s.0 × AllRouted rs s.1

AllRouted-append :
    (rs : Routes) (es fs : List WSockEffect)
    → AllRouted rs es
    → AllRouted rs fs
    → AllRouted rs (es ++ fs)
AllRouted-append rs [] fs h k = k
AllRouted-append rs (sent t ∷ es) fs h k = AllRouted-append rs es fs h k
AllRouted-append rs (closed ∷ es) fs h k = AllRouted-append rs es fs h k
AllRouted-append rs (handed g msg ∷ es) fs h k = (h.0, AllRouted-append rs es fs h.1 k)

module _ (rs : Routes) where
  write_quiet : (w : Surroundings) (rsp : HttpMessage) → AllRouted rs (write_response w rsp)
  unfolding write_response
  write_quiet w rsp = if_split (AllRouted rs) (leb 200 rsp.status_code) _ _ (λ _. tt) (λ _. tt)

  reply_quiet : (w : Surroundings) (msg : Text) (code : ℕ) → AllRouted rs (reply w msg code true)
  unfolding reply
  reply_quiet w msg code =
      if_split (λ (es : List WSockEffect). AllRouted rs (es ++ (closed ∷ []))) w.is_connected
        (sent (encode_response w.date (make_response code msg (codes "txt"))) ∷ []) [] (λ _. tt)
        (λ _. tt)

  message_routed :
      (m : Option ℕ) (msgs : List (List ℕ)) → IsRoute rs m → AllRouted rs (read_message m msgs)
  message_routed none msgs h = tt
  message_routed (some g) [] h = tt
  message_routed (some g) (msg ∷ msgs) h = (h, message_routed (some g) msgs h)

  read_websocket-Kept :
      (b : Text) (c : WSockConnection)
      → IsServer rs c
      → c.is_websocket ≡ true
      → Kept rs (read_websocket b c)
  unfolding read_websocket
  read_websocket-Kept b c s up = (
    record { status = s.status; no_request = s.no_request; routed = s.routed },
    message_routed c.message (read c.wsock_reader b).handed (s.routed up),
  )

  upgraded-Kept :
      (w : Surroundings) (req : Decoder) (c : WSockConnection) (m : Option ℕ)
      → IsServer rs c
      → IsRoute rs m
      → Kept rs (upgraded m (upgrade_websocket w req c)).1
  unfolding upgrade_websocket
  upgraded-Kept w req c m s r =
      let key = get_header req (codes "Sec-WebSocket-Key") in
      if_split (λ (o : Bool × Step). Kept rs (upgraded m o).1) (length key == 24) _ _
        (λ _. (
          record { status = s.status; no_request = s.no_request; routed = λ _. r },
          write_quiet w (upgrade_response (w.accept_key key)),
        ))
        (λ _. (s, reply_quiet w (codes "bad websocket key") 400))

  wsock_routed-Kept :
      (w : Surroundings) (req : Decoder) (c : WSockConnection) (path : Text) (o : Option (Option ℕ))
      → lookup path rs.wsock_routers ≡ o
      → IsServer rs c
      → Kept rs (wsock_routed w req c o).1
  wsock_routed-Kept w req c path none e s = (s, write_quiet w (make_response 404 [] (codes "txt")))
  wsock_routed-Kept w req c path (some m) e s = upgraded-Kept w req c m s (path, e)

  http_routed-Kept :
      (w : Surroundings) (req : Decoder) (c : WSockConnection) (o : Option HttpHandler)
      → IsServer rs c
      → Kept rs (http_routed w req c o).1
  http_routed-Kept w req c none s = (s, write_quiet w (make_response 404 [] (codes "txt")))
  http_routed-Kept w req c (some h) s = (s, tt)

  on_request-Kept :
      (w : Surroundings) (r : ℕ × Decoder) (c : WSockConnection)
      → IsServer rs c
      → Kept rs (on_request w rs r c).1
  on_request-Kept w (n, req) c s =
      if_split (λ (o : Bool × Step). Kept rs o.1) (n == 0) _ _ (λ _. (s, tt))
        (λ _.
          if_split (λ (o : Bool × Step). Kept rs o.1)
            (same_text (get_header req (codes "Upgrade")) (codes "websocket")) _ _
            (λ _. wsock_routed-Kept w req c (w.url_path req.http_url) _ refl s)
            (λ _. http_routed-Kept w req c _ s))

  handle_data-Kept :
      (w : Surroundings) (b : Text) (c : WSockConnection)
      → IsServer rs c
      → Kept rs (handle_data w rs b c).1
  unfolding handle_data
  handle_data-Kept w b c s =
      if_split (λ (o : Bool × Step). Kept rs o.1) c.is_websocket _ _ (read_websocket-Kept b c s)
        (λ _.
          subst (λ (t : WSockStatus). Kept rs (handle_http t w rs b c).1) (sym s.status)
            (on_request-Kept w (parse_request w.parser b true new_decoder) c s))

  handle_event-Kept :
      (evt : NetEvent) (c : WSockConnection) → IsServer rs c → Kept rs (handle_event evt c)
  unfolding handle_event
  handle_event-Kept evt c s =
      if_split (Kept rs) (event_code evt == event_code evt_connect) _ _
        (λ _.
          let go : Option HttpMessage → Step = λ o. elim o [
            | none ↦ (c, [])
            | some req ↦ (record c { m_status = wsock_connecting }, sent (encode_request req) ∷ [])
          ] in
          subst (λ (o : Option HttpMessage). Kept rs (go o)) (sym s.no_request) (s, tt))
        (λ _. (s, tt))

  step-Kept :
      (i : Surroundings × Input) (c : WSockConnection) → IsServer rs c → Kept rs (step rs i c)
  step-Kept (w, event evt) c s = handle_event-Kept evt c s
  step-Kept (w, bytes b) c s = handle_data-Kept w b c s

-- Whatever events and bytes a server's connection gets, in any order, with the HTTP parser and the other
-- surroundings different each time: a connection that was upgraded has the handler of a route, and
-- messages are handed to handlers of routes only.
pub run-IsServer :
    (rs : Routes) (is_ : List (Surroundings × Input)) (c : WSockConnection)
    → IsServer rs c
    → IsServer rs (run rs is_ c).0 × AllRouted rs (run rs is_ c).1
run-IsServer rs [] c s = (s, tt)
run-IsServer rs (i ∷ is_) c s =
    let (s', es) = step-Kept rs i c s in
    let (s'', fs) = run-IsServer rs is_ (step rs i c).0 s' in
    (s'', AllRouted-append rs (step rs i c).1 (run rs is_ (step rs i c).0).1 es fs)
