-- ===== src/Kcp/Listener.antt =====
-- `KcpListener` of include/kcp/kcp_listener.hpp. A peer is named by the text of its address. The counter
-- `server_conv_index` is read only by a connection whose id is 0, and is one of its own for each here.
pub mod Isolated
mod Tests
use knet.Base.{
  ℕ, zero, suc, Bool, true, false, Option, none, some, List, [], ◌∷◌, ◌++◌, ℤ, if◌then◌else◌, take,
  drop, length, Text, lookup, insert,
}
use knet.Kcp.Ikcp.{Ikcp}
use knet.Kcp.Connection.{KcpConnection, KcpEffect, ConnectionStatus, conn_idle, Step, listen, msend}
use knet.Kcp.Control.{check_control_message}
use knet.Kcp.Receive.{handle_receive, andthen}

-- `running` is whether a receive is outstanding; all peers share `recv_buffer`.
pub record KcpListener (K : Type 0) : Type 0 where
  pub connections : List (Text × KcpConnection K)
  pub has_socket : Bool
  pub sock_open : Bool
  pub running : Bool
  pub recv_buffer : List ℕ

-- What the handler of a receive is called with: the peer and the bytes that were received, at most 4096
-- (none for an error), and, for what it calls, the time, the ids of the timers that are started, and the
-- connection that the factory or the constructor gives.
pub record Received (K : Type 0) : Type 0 where
  pub peer : Text
  pub bytes : Option (List ℕ)
  pub now : ℕ
  pub listen_tid : ℕ
  pub tid : ℕ
  pub created : KcpConnection K

-- A datagram lies in front of what the buffer held behind it.
abbrev pub fill : List ℕ → List ℕ → List ℕ
fill bytes buffer = bytes ++ drop (length bytes) buffer

-- The effects of a connection, with its peer.
abbrev pub of_peer : Text → List KcpEffect → List (Text × KcpEffect)
of_peer pt [] = []
of_peer pt (e ∷ es) = (pt, e) ∷ of_peer pt es

module _ {K : Type 0} where
  unfoldable pub find_connection : Text → KcpListener K → Option (KcpConnection K)
  unfolding lookup
  find_connection pt l = lookup pt l.connections

  -- `init` of a connection.
  unfoldable pub init : KcpConnection K → KcpConnection K
  init c = record c { conn_status = conn_idle }

  unfoldable pub create_connection :
      Text → KcpConnection K → KcpListener K → KcpConnection K × KcpListener K
  unfolding init insert
  create_connection pt created l =
      (init created, record l { connections = insert pt (init created) l.connections })

  unfoldable pub stop : KcpListener K → KcpListener K
  stop l = record l { sock_open = if l.has_socket then false else l.sock_open }

  -- The handler that is posted by `run`.
  unfoldable pub run : KcpListener K → KcpListener K
  run l = record l { has_socket = true; sock_open = true; running = true }

module _ (ikcp : Ikcp) where
  open ikcp use {Control}

  abbrev pub Listening : Type 0
  Listening = KcpListener Control × List (Text × KcpEffect)

  -- A connection is shared by pointer: what a step makes of it stands in the table.
  abbrev pub put_step : Text → Step Control → KcpListener Control → Listening
  put_step pt (c, es) l = (record l { connections = insert pt c l.connections }, of_peer pt es)

  -- The connection of the peer, made if there is none.
  abbrev pub connection_of :
      Received Control
      → Option (KcpConnection Control)
      → KcpListener Control
      → Step Control × KcpListener Control
  connection_of r (some c) l = ((c, []), l)
  connection_of r none l =
      let (c, l') = create_connection r.peer r.created l in (listen true r.listen_tid c, l')

  -- What a connection does with a datagram of `n` bytes in the buffer.
  unfoldable pub receive_on : Received Control → ℕ → List ℕ → KcpConnection Control → Step Control
  unfolding check_control_message handle_receive
  receive_on r n buffer c =
      let (control, s) =
        check_control_message ikcp r.tid buffer (record c { last_msg_time = r.now }) in
      if control then s else andthen ikcp s (handle_receive ikcp (take n buffer))

  abbrev pub received_by :
      Received Control → ℕ → List ℕ → Step Control × KcpListener Control → Listening
  received_by r n buffer (s, l) = put_step r.peer (andthen ikcp s (receive_on r n buffer)) l

  -- By the bytes: an error and a datagram of no bytes end the receiving.
  abbrev pub on_bytes : Option (List ℕ) → Received Control → KcpListener Control → Listening
  on_bytes none r l = (record l { running = false }, [])
  on_bytes (some []) r l = (record l { running = false }, [])
  on_bytes (some (x ∷ xs)) r l =
      let buffer = fill (x ∷ xs) l.recv_buffer in
      let l' = record l { recv_buffer = buffer } in
      received_by r (suc (length xs)) buffer (connection_of r (find_connection r.peer l') l')

  unfoldable pub on_received : Received Control → KcpListener Control → Listening
  unfolding receive_on find_connection create_connection listen insert
  on_received r l = on_bytes r.bytes r l

  abbrev pub send_each :
      List (List ℕ)
      → List (Text × KcpConnection Control)
      → List (Text × KcpConnection Control) × List (Text × KcpEffect)
  send_each parts [] = ([], [])
  send_each parts ((pt, c) ∷ cs) =
      let (ret, s) = msend ikcp parts c in
      let (cs', es) = send_each parts cs in ((pt, s.0) ∷ cs', of_peer pt s.1 ++ es)

  unfoldable pub broadcast : List ℕ → KcpListener Control → Listening
  unfolding msend
  broadcast msg l =
      let (cs, es) = send_each (msg ∷ []) l.connections in (record l { connections = cs }, es)
