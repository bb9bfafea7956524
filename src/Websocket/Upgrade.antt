-- ===== src/Websocket/Upgrade.antt =====
-- The state of `WSockConnection` (include/websocket/wsock_connection.hpp), its upgrade, and `handle_data` of
-- WSockFactory (include/websocket/wsock_factory.hpp). Handlers of messages are numbers; a handler of HTTP
-- requests gets a response without a writer.
pub mod Routed
mod Tests
use knet.Base.{
  ℕ, Bool, true, false, Option, none, some, List, [], ◌∷◌, ◌++◌, ℤ, minus_one, if◌then◌else◌, leb,
  ◌==◌, length, Text, codes, same_text, lookup,
}
use knet.Event.{NetEvent, evt_connect, event_code}
use knet.Http.Encoder.{
  HttpMessage, empty_message, add_header, encode_request, encode_response, make_request,
  make_response, write,
}
use knet.Http.Message.{http_get}
use knet.Http.Decoder.{Parser, Decoder, new_decoder, parse_request, parse_response, get_header}
use knet.Http.Connection.{HttpHandler, RouteMap, first_handler, is_negative}
use knet.Websocket.Reader.{Reader, read}

pub data WSockStatus : Type 0 where
  wsock_init wsock_connecting wsock_open wsock_closing wsock_closed : WSockStatus

pub record WSockConnection : Type 0 where
  pub is_websocket : Bool
  pub m_status : WSockStatus
  pub first_request : Option HttpMessage
  pub wsock_reader : Reader
  -- `wsock_handler.message`
  pub message : Option ℕ

pub data WSockEffect : Type 0 where
  sent : Text → WSockEffect
  closed : WSockEffect
  handed : ℕ → List ℕ → WSockEffect

-- The HTTP parser with its flag `upgrade` after some bytes, the path of a URL and the key of a
-- handshake, which are code of other projects; the text of the date, and whether the connection is up.
pub record Surroundings : Type 0 where
  pub parser : Parser
  pub upgrades : Text → Bool
  pub url_path : Text → Text
  pub accept_key : Text → Text
  pub date : Text
  pub is_connected : Bool

pub record Routes : Type 0 where
  pub http_routers : RouteMap
  pub wsock_routers : List (Text × Option ℕ)

abbrev pub Step : Type 0
Step = WSockConnection × List WSockEffect

-- Of a response, in both forms of `write`.
unfoldable pub write_response : Surroundings → HttpMessage → List WSockEffect
unfolding encode_response
write_response w rsp =
    sent (encode_response w.date rsp) ∷ (if leb 200 rsp.status_code then closed ∷ [] else [])

unfoldable pub reply : Surroundings → Text → ℕ → Bool → List WSockEffect
unfolding encode_response make_response
reply w msg code fin =
    (if w.is_connected
      then sent (encode_response w.date (make_response code msg (codes "txt"))) ∷ []
      else [])
    ++ (if fin then closed ∷ [] else [])

unfoldable pub handle_event : NetEvent → WSockConnection → Step
unfolding encode_request
handle_event evt c =
    if event_code evt == event_code evt_connect
    then elim c.first_request [
      | none ↦ (c, [])
      | some req ↦ (record c { m_status = wsock_connecting }, sent (encode_request req) ∷ [])
    ]
    else (c, [])

abbrev pub upgrade_response : Text → HttpMessage
upgrade_response accept =
    let rsp = make_response 101 [] (codes "txt") in
    record rsp {
      http_headers = add_header (codes "Accept-Encoding") (codes "gzip, deflate") (
          add_header (codes "Sec-WebSocket-Accept") accept (
            add_header (codes "Connection") (codes "Upgrade")
              (add_header (codes "Upgrade") (codes "websocket") rsp.http_headers)));
    }

unfoldable pub upgrade_websocket : Surroundings → Decoder → WSockConnection → Bool × Step
unfolding get_header make_response add_header write_response reply
upgrade_websocket w req c =
    let key = get_header req (codes "Sec-WebSocket-Key") in
    if length key == 24
    then (
      true,
      (record c { is_websocket = true }, write_response w (upgrade_response (w.accept_key key))),
    )
    else (false, (c, reply w (codes "bad websocket key") 400 true))

-- `read_websocket` with `read_message`.
abbrev pub read_message : Option ℕ → List (List ℕ) → List WSockEffect
read_message none msgs = []
read_message (some h) [] = []
read_message (some h) (msg ∷ msgs) = handed h msg ∷ read_message (some h) msgs

unfoldable pub read_websocket : List ℕ → WSockConnection → Step
unfolding read
read_websocket bytes c =
    let r = read c.wsock_reader bytes in
    (record c { wsock_reader = r.reader }, read_message c.message r.handed)

-- `HttpHandler::call`, whose `write` has no writer.
abbrev pub call : HttpHandler → Decoder → ℤ
call h req = elim (first_handler h.context_handler h.http_handler) [
  | none ↦ minus_one
  | some f ↦ (f req empty_message).0
]

abbrev pub not_found : Surroundings → WSockConnection → Bool × Step
not_found w c = (true, (c, write_response w (make_response 404 [] (codes "txt"))))

abbrev pub http_routed : Surroundings → Decoder → WSockConnection → Option HttpHandler → Bool × Step
http_routed w req c none = not_found w c
http_routed w req c (some h) = (if is_negative (call h req) then false else true, (c, []))

abbrev pub upgraded : Option ℕ → Bool × Step → Bool × Step
upgraded h (false, s) = (true, s)
upgraded h (true, (c, es)) = (true, (record c { is_websocket = true; message = h }, es))

abbrev pub wsock_routed : Surroundings → Decoder → WSockConnection → Option (Option ℕ) → Bool × Step
wsock_routed w req c none = not_found w c
wsock_routed w req c (some h) = upgraded h (upgrade_websocket w req c)

abbrev pub on_request : Surroundings → Routes → ℕ × Decoder → WSockConnection → Bool × Step
on_request w rs (n, req) c =
    if n == 0
    then (true, (c, []))
    else if same_text (get_header req (codes "Upgrade")) (codes "websocket")
    then wsock_routed w req c (lookup (w.url_path req.http_url) rs.wsock_routers)
    else http_routed w req c (lookup (w.url_path req.http_url) rs.http_routers)

abbrev pub on_response : Surroundings → Text → ℕ → WSockConnection → Bool × Step
on_response w bytes n c =
    if n == 0
    then (true, (c, []))
    else (true, (if w.upgrades bytes then record c { is_websocket = true } else c, []))

-- By the status.
abbrev pub handle_http : WSockStatus → Surroundings → Routes → Text → WSockConnection → Bool × Step
handle_http wsock_init w rs bytes c =
    on_request w rs (parse_request w.parser bytes true new_decoder) c
handle_http wsock_connecting w rs bytes c =
    on_response w bytes (parse_response w.parser bytes false new_decoder).0 c
handle_http wsock_open w rs bytes c = (true, (c, []))
handle_http wsock_closing w rs bytes c = (true, (c, []))
handle_http wsock_closed w rs bytes c = (true, (c, []))

-- `handle_data` of the factory.
unfoldable pub handle_data : Surroundings → Routes → Text → WSockConnection → Bool × Step
unfolding read_websocket upgrade_websocket parse_request parse_response get_header lookup
    write_response make_response
handle_data w rs bytes c =
    if c.is_websocket then (true, read_websocket bytes c) else handle_http c.m_status w rs bytes c

-- `WSockClient::create_request`; the host, the path and the key are arguments.
unfoldable pub create_request : Text → Text → Text → HttpMessage
unfolding make_request add_header
create_request host path sec_key =
    let req = make_request http_get path [] (codes "txt") in
    record req {
      http_headers = add_header (codes "Sec-WebSocket-Key") sec_key (
          add_header (codes "Accept-Encoding") (codes "gzip,deflate") (
            add_header (codes "Accept-Language") (codes "en-us") (
              add_header (codes "Sec-WebSocket-Version") (codes "13") (
                add_header (codes "Upgrade") (codes "websocket") (
                  add_header (codes "Connection") (codes "Upgrade")
                    (add_header (codes "Host") host req.http_headers))))));
    }
