-- ===== src/Kcp/Control.antt =====
-- `check_control_message` of include/kcp/kcp_connection.hpp. The first argument is the id that the
-- worker gives to a timer, the second what lies in the receive buffer.
pub mod Agreement
use knet.Base.{
  ℕ, ◌+◌, Bool, true, false, ◌&&◌, ◌||◌, List, [], ◌∷◌, ◌++◌, if◌then◌else◌, ◌==◌, add32,
}
use knet.Event.{evt_connect}
use knet.Kcp.Message.{KcpMsg, msg_of, kcp_shakehand_request, kcp_shakehand_response, kcp_heartbeat}
use knet.Kcp.Ikcp.{Ikcp}
use knet.Kcp.Connection.{
  ConnectionStatus, conn_idle, conn_open, conn_kcp_ready, conn_closing, conn_closed, KcpConnection,
  KcpEffect, told, Step, init_kcp, shakehand_request, shakehand_response,
}

-- head->cmd is one of these three; the goodbye is not.
abbrev pub is_control : ℕ → Bool
is_control cmd =
    cmd == kcp_shakehand_request || cmd == kcp_shakehand_response || cmd == kcp_heartbeat

module _ {K : Type 0} where
  -- A passive side without an id takes one from the static counter.
  abbrev pub allocate : ℕ → KcpConnection K → KcpConnection K
  allocate conv c =
      if c.is_passive && conv == 0 && c.cid == 0
      then record c { cid = c.server_conv_index; server_conv_index = add32 c.server_conv_index 1 }
      else c

  abbrev pub adopt : ℕ → KcpConnection K → KcpConnection K
  adopt conv c = record c { cid = if conv == 0 then c.cid else conv }

  -- The id of the other side, for one that has none.
  abbrev pub keep_or_take : ℕ → KcpConnection K → KcpConnection K
  keep_or_take conv c = record c { cid = if c.cid == 0 then conv else c.cid }

module _ (ikcp : Ikcp) where
  open ikcp use {Control}

  abbrev pub connected : Step Control → Step Control
  connected (c, es) = (c, es ++ (told evt_connect ∷ []))

  -- KCP_SHAKEHAND_REQUEST on an open connection.
  unfoldable pub request_on_open : ℕ → ℕ → KcpConnection Control → Step Control
  unfolding init_kcp shakehand_response
  request_on_open tid conv c =
      let c' = adopt conv (allocate conv c) in
      if c'.cid == 0
      then (c', [])
      else connected
          ((init_kcp ikcp tid c').0, shakehand_response c'.cid c' ++ (init_kcp ikcp tid c').1)

  unfoldable pub response_on_open : ℕ → ℕ → KcpConnection Control → Step Control
  unfolding init_kcp
  response_on_open tid conv c = connected (init_kcp ikcp tid (keep_or_take conv c))

  unfoldable pub request_on_ready : ℕ → ℕ → KcpConnection Control → Step Control
  unfolding init_kcp shakehand_response
  request_on_ready tid conv c =
      let c' = if conv == 0 then c else keep_or_take conv c in
      let r = init_kcp ikcp tid (record c' { conn_status = conn_open }) in
      (r.0, r.1 ++ shakehand_response r.0.cid r.0)

  unfoldable pub response_on_ready : ℕ → ℕ → KcpConnection Control → Step Control
  unfolding init_kcp
  response_on_ready tid conv c = init_kcp ikcp tid (keep_or_take conv c)

  unfoldable pub message_on_open : ℕ → KcpMsg → KcpConnection Control → Bool × Step Control
  unfolding request_on_open response_on_open shakehand_request
  message_on_open tid m c =
      if m.cmd == kcp_shakehand_request
      then (true, request_on_open tid m.conv c)
      else if m.cmd == kcp_shakehand_response
      then (true, response_on_open tid m.conv c)
      else if m.cmd == kcp_heartbeat
      then (true, (c, []))
      else (true, (c, shakehand_request 0 c))

  unfoldable pub message_on_ready : ℕ → KcpMsg → KcpConnection Control → Bool × Step Control
  unfolding request_on_ready response_on_ready
  message_on_ready tid m c = (
    is_control m.cmd,
    if m.cmd == kcp_shakehand_request
        then request_on_ready tid m.conv c
        else if m.cmd == kcp_shakehand_response
        then response_on_ready tid m.conv c
        else (c, []),
  )

  -- By the status.
  unfoldable pub control_in :
      ConnectionStatus → ℕ → KcpMsg → KcpConnection Control → Bool × Step Control
  unfolding message_on_open message_on_ready
  control_in conn_open tid m c = message_on_open tid m c
  control_in conn_kcp_ready tid m c = message_on_ready tid m c
  control_in conn_idle tid m c = (is_control m.cmd, (c, []))
  control_in conn_closing tid m c = (is_control m.cmd, (c, []))
  control_in conn_closed tid m c = (is_control m.cmd, (c, []))

  -- Whether the message is one for the connection itself, and what it does.
  unfoldable pub check_control_message : ℕ → List ℕ → KcpConnection Control → Bool × Step Control
  unfolding control_in msg_of
  check_control_message tid buffer c = control_in c.conn_status tid (msg_of buffer) c
