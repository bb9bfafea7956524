-- ===== src/Kcp/Listener/Tests.antt =====
-- Tests and examples of the listener.
use knet.Base.{ℕ, Option, none, ◌≡◌, refl, true, false, some, List, [], ◌∷◌, codes}
use knet.Event.{evt_connect}
use knet.Kcp.Message.{msg_bytes, kcp_shakehand_request, kcp_shakehand_response}
use knet.Kcp.Connection.{KcpConnection, sent, told, timer_started}
use knet.Kcp.Listener.{KcpListener, Received, find_connection, on_received, stop}
use knet.Kcp.Listener.Isolated.{receive_all}
use knet.Kcp.Samples.{Block, toy, server}

abbrev listener : KcpListener Block
listener = record {
  connections = (codes "a", server) ∷ [];
  has_socket = true;
  sock_open = true;
  running = true;
  recv_buffer = [];
}

abbrev request_from_b : Received Block
request_from_b = record {
  peer = codes "b";
  bytes = some (msg_bytes (record { conv = 7; cmd = kcp_shakehand_request }));
  now = 5;
  listen_tid = 4;
  tid = 6;
  created = record server { cid = 1030; kcp_timerid = 0 };
}

abbrev some_receives : List (Received Block)
some_receives =
    request_from_b
    ∷ record request_from_b { peer = codes "a"; tid = 8 }
    ∷ record request_from_b { bytes = some [] }
    ∷ record request_from_b { peer = codes "a" }
    ∷ []

-- A new peer is answered at once.
request_test :
    (on_received toy request_from_b listener).1
    ≡ (codes "b", timer_started 4 1000000)
      ∷ (codes "b", sent (record { conv = 7; cmd = kcp_shakehand_response }))
      ∷ (codes "b", timer_started 6 100)
      ∷ (codes "b", told evt_connect)
      ∷ []
unfolding on_received msg_bytes
request_test = refl

stop_test : (stop listener).sock_open ≡ false
unfolding stop
stop_test = refl

abbrev cid_of : Option (KcpConnection Block) → Option ℕ
cid_of none = none
cid_of (some c) = some c.cid

-- A datagram of one byte is taken for a request, by what the datagram of another peer left in the
-- buffer.
stale_request :
    cid_of (
      find_connection
        (codes "a")
        (receive_all toy
          (request_from_b ∷ record request_from_b { peer = codes "a"; bytes = some (9 ∷ []) } ∷ [])
          listener).0)
    ≡ some 9
unfolding on_received msg_bytes
stale_request = refl
