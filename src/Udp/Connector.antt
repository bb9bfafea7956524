-- ===== src/Udp/Connector.antt =====
-- `UdpConnector` of include/udp/udp_connector.hpp. The chain of its handlers is the user's handler of its
-- connections (`UdpHandlers`). An address is a text, and one that `make_address` takes.
use knet.Base.{
  ℕ, Bool, true, false, Option, none, some, List, [], ◌∷◌, ◌++◌, if◌then◌else◌, ◌==◌, Text, insert,
}
use knet.Event.{NetEvent, evt_release, event_code}
use knet.Udp.Connection.{UdpConnection, UdpHandlers, UdpEffect, init, connect, close}

-- `net_worker` is none without a worker, and otherwise whether the connector made it.
pub record UdpConnector : Type 0 where
  pub net_factory : Bool
  pub net_worker : Option Bool
  pub net_handler_chain : List ℕ
  pub connections : List (Text × UdpConnection)

pub data ConnectorEffect : Type 0 where
  worker_starts worker_stops : ConnectorEffect
  does : UdpEffect → ConnectorEffect
  posts_release : ConnectorEffect

abbrev pub Step : Type 0
Step = UdpConnector × List ConnectorEffect

-- The connection that the factory or the constructor gives, the address, whether it is one of a group,
-- its port, whether it resolves, and the port of the URL to bind.
pub record Target : Type 0 where
  pub created : UdpConnection
  pub address : Text
  pub is_multicast : Bool
  pub port : ℕ
  pub resolves : Bool
  pub bind_port : ℕ

abbrev pub all_do : List UdpEffect → List ConnectorEffect
all_do [] = []
all_do (e ∷ es) = does e ∷ all_do es

unfoldable pub start : Bool → UdpConnector → Step
start factory c = elim c.net_worker [
  | none ↦ (record c { net_factory = factory; net_worker = some true }, worker_starts ∷ [])
  | some inner ↦ (record c { net_factory = factory }, [])
]

abbrev pub connect_by : Target → UdpConnection → UdpConnection × List UdpEffect
connect_by t u =
    if t.is_multicast
    then connect t.port true t.port u
    else if t.resolves
    then connect t.port false t.bind_port u
    else (u, [])

-- `connect`: none is a null pointer.
abbrev pub connected_by : UdpHandlers → Target → UdpConnector → Option Bool → Option Step
connected_by h t c none = none
connected_by h t c (some inner) =
    let (u, es) = init h false t.created in
    let (u', fs) = connect_by t u in
    some (record c { connections = insert t.address u' c.connections }, all_do (es ++ fs))

unfoldable pub connect_to : UdpHandlers → Target → UdpConnector → Option Step
unfolding init connect insert
connect_to h t c = connected_by h t c c.net_worker

abbrev pub close_each : List (Text × UdpConnection) → List UdpEffect
close_each [] = []
close_each ((a, u) ∷ us) = (close u).1 ++ close_each us

abbrev pub stop_worker : Option Bool → List ConnectorEffect
stop_worker none = []
stop_worker (some inner) = if inner then worker_stops ∷ [] else []

unfoldable pub stop : UdpConnector → Step
unfolding close
stop c =
    (record c { connections = [] }, all_do (close_each c.connections) ++ stop_worker c.net_worker)

unfoldable pub add_net_handler : Option ℕ → UdpConnector → UdpConnector
add_net_handler none c = c
add_net_handler (some h) c = record c { net_handler_chain = c.net_handler_chain ++ (h ∷ []) }

-- `invoke_event_chain` and `invoke_data_chain`: whether the last handler that was called returned true,
-- and which ones were called.
unfoldable pub invoke_chain : (ℕ → Bool) → List ℕ → Bool × List ℕ
invoke_chain answer [] = (true, [])
invoke_chain answer (h ∷ hs) =
    let rest = invoke_chain answer hs in if answer h then (rest.0, h ∷ rest.1) else (false, h ∷ [])

-- A release is posted to the worker, if there is one.
abbrev pub posted : Option Bool → List ConnectorEffect
posted none = []
posted (some inner) = posts_release ∷ []

unfoldable pub handle_event :
    (ℕ → Bool) → NetEvent → UdpConnector → (Bool × List ℕ) × List ConnectorEffect
unfolding invoke_chain
handle_event answer evt c = (
  invoke_chain answer c.net_handler_chain,
  if event_code evt == event_code evt_release then posted c.net_worker else [],
)
