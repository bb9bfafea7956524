-- ===== src/Kcp/Connector.antt =====
-- `KcpConnector` of include/kcp/kcp_connector.hpp. Whether the peer's name resolves is an argument, and so
-- is the connection that the factory or the constructor gives.
use knet.Base.{
  ℕ, Bool, true, false, none, some, List, [], ◌∷◌, if◌then◌else◌, ◌==◌, find_at, put_at, erase_at,
}
use knet.Kcp.Connection.{KcpConnection, KcpEffect, Step}
use knet.Kcp.Connection as Connection
use knet.Kcp.Listener.{init}

pub record KcpConnector (K : Type 0) : Type 0 where
  pub net_factory : Bool
  pub connections : List (ℕ × KcpConnection K)

-- What is posted to the worker: the release of a connection with this id.
pub data Task : Type 0 where
  release_of : ℕ → Task

module _ {K : Type 0} where
  unfoldable pub start : Bool → KcpConnector K → KcpConnector K
  start factory k = record k { net_factory = factory }

  -- The table holds a pointer: it has the connection as `connect` leaves it, by the id before.
  abbrev pub connect_new :
      Bool → Bool → ℕ → KcpConnection K → KcpConnector K → KcpConnector K × List KcpEffect
  connect_new resolves reconn tid c k =
      let (c', es) = if resolves then Connection.connect reconn tid c else (c, []) in
      (record k { connections = put_at c.cid c' k.connections }, es)

  unfoldable pub add_connection :
      Bool → ℕ → KcpConnection K → KcpConnector K → KcpConnector K × List KcpEffect
  unfolding Connection.connect init put_at
  add_connection resolves tid created k = connect_new resolves true tid (init created) k

  unfoldable pub connect :
      ℕ → Bool → Bool → ℕ → KcpConnection K → KcpConnector K → KcpConnector K × List KcpEffect
  unfolding Connection.connect init put_at
  connect id reconn resolves tid created k =
      connect_new resolves reconn tid
        (init (record created { cid = if id == 0 then created.cid else id })) k

  -- By the id that the connection has now.
  unfoldable pub remove : KcpConnection K → KcpConnector K → Bool × KcpConnector K
  unfolding find_at erase_at
  remove c k = elim (find_at c.cid k.connections) [
    | none ↦ (false, k)
    | some d ↦ (true, record k { connections = erase_at c.cid k.connections })
  ]

  unfoldable pub release : KcpConnection K → List Task
  release c = release_of c.cid ∷ []

  -- What the factory is given when the task runs.
  unfoldable pub run_task : Task → KcpConnector K → List ℕ
  run_task (release_of cid) k = if k.net_factory then cid ∷ [] else []
