-- ===== src/Websocket/Upgrade/Tests.antt =====
-- Tests and examples of the upgrade.
use knet.Base.{
  ◌≡◌, refl, true, false, none, some, List, [], ◌∷◌, arith, if◌then◌else◌, length, Text, codes,
  same_text,
}
use knet.Event.{evt_connect}
use knet.Http.Encoder.{make_response, encode_response}
use knet.Http.Decoder.{Parser, on_url, on_field, on_value, on_headers_complete}
use knet.Websocket.Reader.{Reader}
use knet.Websocket.Reader.RoundTrip.{wire}
use knet.Websocket.Upgrade.{
  wsock_init, WSockConnection, sent, closed, handed, Surroundings, Routes, handle_event,
  upgrade_response, handle_data,
}
use knet.Websocket.Upgrade.Routed.{IsServer, AllRouted, Input, event, bytes, run, run-IsServer}

abbrev asks : Text
asks = codes "upgrade"

abbrev parser : Parser
parser = record {
  calls = λ t.
      if same_text t asks
      then on_url (codes "/chat")
        ∷ on_field (codes "Upgrade")
        ∷ on_value (codes "websocket")
        ∷ on_field (codes "Sec-WebSocket-Key")
        ∷ on_value (codes "dGhlIHNhbXBsZSBub25jZQ==")
        ∷ on_headers_complete 1
        ∷ []
      else on_url (codes "/other") ∷ on_headers_complete 1 ∷ [];
  taken = length;
  taken_before_error = length;
  parse_url = λ url. some (record { path = some url; query = none });
}

abbrev around : Surroundings
around = record {
  parser = parser;
  upgrades = λ t. false;
  url_path = λ url. url;
  accept_key = λ key. codes "accepted";
  date = codes "now";
  is_connected = true;
}

abbrev routes : Routes
routes = record { http_routers = []; wsock_routers = (codes "/chat", some 3) ∷ [] }

abbrev fresh : Reader
fresh = record {
  head = record { fin = false; opcode = 0; mask = false; len = 0 };
  buffer_size = 4096;
  left_length = 0;
  payload_length = 0;
  status = 0;
}

abbrev accepted : WSockConnection
accepted = record {
  is_websocket = false;
  m_status = wsock_init;
  first_request = none;
  wsock_reader = fresh;
  message = none;
}

abbrev frame : Text
frame = wire (codes "Hello") 1 true (record { key0 = 18; key1 = 52; key2 = 86; key3 = 120 }) []

abbrev inputs : List (Surroundings × Input)
inputs = (around, event evt_connect) ∷ (around, bytes asks) ∷ (around, bytes frame) ∷ []

-- A text message behind the upgrade.
messages_test :
    (run routes inputs accepted).1
    ≡ sent (encode_response (codes "now") (upgrade_response (codes "accepted")))
      ∷ handed 3 (codes "Hello")
      ∷ []
unfolding handle_event handle_data
messages_test = refl

other_test : handle_data around routes (codes "GET") accepted ≡ (
  true,
  (
    accepted,
    sent (encode_response (codes "now") (make_response 404 [] (codes "txt"))) ∷ closed ∷ [],
  ),
)
unfolding handle_data
other_test = refl

accepted-IsServer : IsServer routes accepted
accepted-IsServer = record { status = refl; no_request = refl; routed = λ on. ground arith }

run-IsServer_example :
    IsServer routes (run routes inputs accepted).0 × AllRouted routes (run routes inputs accepted).1
run-IsServer_example = run-IsServer routes inputs accepted accepted-IsServer
