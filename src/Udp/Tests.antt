-- ===== src/Udp/Tests.antt =====
-- Datagrams at a connection and at a listener.
use knet.Base.{Option, none, some, ◌≡◌, refl, true, false, some, List, [], ◌∷◌, ◌++◌, arith, codes}
use knet.Event.{evt_create, evt_connect, evt_recv, evt_release}
use knet.Udp.Connection.{
  sock_closed, UdpConnection, conn_idle, UdpHandlers, user_told, own_told, user_handed,
  process_data, check_peer,
}
use knet.Udp.Connector.{UdpConnector, Target, does, worker_stops, connect_to, add_net_handler}
use knet.Udp.Connector as Connector
use knet.Udp.Listener.{
  UdpListener, ListenerHandlers, conn_told, chain_told, conn_handed, chain_handed, on_received,
  find_connection,
}
use knet.Udp.Arrivals.{Arrival, run, IsTable, run-Keeps, run-empty_datagram}

abbrev peer : UdpConnection
peer = record {
  cid = 1025;
  net_status = conn_idle;
  udp_socket = true;
  sock_open = true;
  has_timer = false;
  last_msg_time = 0;
}

abbrev accepting : UdpHandlers
accepting = record {
  has_user = true;
  user_event = λ evt. true;
  user_data = λ bytes. false;
  own_event = λ evt. true;
  own_data = λ bytes. true;
  is_user = λ bytes. true;
}

user_keeps : (process_data accepting (codes "a")) ≡ (false, user_handed (codes "a") ∷ [])
unfolding process_data
user_keeps = refl

silent_peer :
    check_peer accepting 9000000000 peer ≡ user_told evt_release ∷ own_told evt_release ∷ []
unfolding check_peer
silent_peer = refl

abbrev listener : UdpListener
listener = record {
  connections = (codes "1.1.1.1:5", 1025) ∷ [];
  index = 1025;
  running = true;
  sock_open = true;
  multi_host = [];
  handlers = 0 ∷ [];
}

abbrev all_true : ListenerHandlers
all_true = record {
  chain_event = λ k cid evt. true;
  chain_data = λ k cid bytes. true;
  conn_event = λ cid evt. true;
  conn_data = λ cid bytes. true;
  is_user = λ cid bytes. true;
}

abbrev arrivals : List Arrival
arrivals = (codes "2.2.2.2:6", some (codes "x")) ∷ (codes "1.1.1.1:5", some (codes "y")) ∷ []

two_peers :
    (run all_true arrivals listener).1
    ≡ chain_told 0 1026 evt_create
      ∷ conn_told 1026 evt_create
      ∷ conn_told 1026 evt_connect
      ∷ chain_told 0 1026 evt_connect
      ∷ conn_handed 1026 (codes "x")
      ∷ chain_handed 0 1026 (codes "x")
      ∷ conn_told 1026 evt_recv
      ∷ chain_told 0 1026 evt_recv
      ∷ conn_handed 1025 (codes "y")
      ∷ chain_handed 0 1025 (codes "y")
      ∷ conn_told 1025 evt_recv
      ∷ chain_told 0 1025 evt_recv
      ∷ []
unfolding on_received
two_peers = refl

run-Keeps_example :
    IsTable (run all_true arrivals listener).0
    × (find_connection (codes "1.1.1.1:5") (run all_true arrivals listener).0 ≡ some 1025)
unfolding find_connection
run-Keeps_example =
    run-Keeps all_true arrivals (codes "1.1.1.1:5") 1025 listener (omega arith) refl (omega arith)

run-empty_datagram_example :
    run all_true (arrivals ++ ((codes "3.3.3.3:7", some []) ∷ arrivals)) listener
    ≡ run all_true (arrivals ++ ((codes "3.3.3.3:7", some []) ∷ [])) listener
run-empty_datagram_example =
    run-empty_datagram all_true arrivals arrivals (codes "3.3.3.3:7") listener

abbrev connector : UdpConnector
connector = record {
  net_factory = false;
  net_worker = some true;
  net_handler_chain = [];
  connections = [];
}

abbrev target : Target
target = record {
  created = record peer { net_status = conn_idle; udp_socket = false; sock_open = false };
  address = codes "a";
  is_multicast = false;
  port = 80;
  resolves = true;
  bind_port = 0;
}

abbrev connected : UdpConnector → Option Connector.Step → UdpConnector
connected c none = c
connected c (some s) = s.0

connect-stop_test :
    (Connector.stop (connected connector (connect_to accepting target connector))).1
    ≡ does sock_closed ∷ worker_stops ∷ []
unfolding connect_to Connector.stop
connect-stop_test = refl
