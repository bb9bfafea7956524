-- ===== src/Kcp/Connection.antt =====
-- `KcpConnection` of include/kcp/kcp_connection.hpp. A datagram that is sent, a timer and an event are
-- effects; the completion of a send and a round of a timer are operations of their own. A timer's id
-- is an argument of what starts it, the time one of what reads it, in milliseconds.
use knet.Base.{
  ℕ, ◌%◌, ◌^◌, take, length, ◌-◌, Bool, true, false, not, ◌&&◌, Option, none, some, List, [], ◌∷◌,
  ◌++◌, ℤ, pos, minus_one, if◌then◌else◌, ltb, ◌==◌,
}
use knet.Event.{NetEvent, evt_send, evt_disconnect}
use knet.Utils.LoopBuffer.{LoopBuffer, push, read}
use knet.Kcp.Message.{
  KcpMsg, kcp_shakehand_request, kcp_shakehand_response, kcp_heartbeat, kcp_goodbye,
}
use knet.Kcp.Ikcp.{Ikcp}

pub data ConnectionStatus : Type 0 where
  conn_idle conn_open conn_kcp_ready conn_closing conn_closed : ConnectionStatus

-- conn_status == CONN_KCP_READY and the like
abbrev pub rank : ConnectionStatus → ℕ
rank conn_idle = 0
rank conn_open = 1
rank conn_kcp_ready = 2
rank conn_closing = 3
rank conn_closed = 4

abbrev pub is_ready : ConnectionStatus → Bool
is_ready s = rank s == 2

-- `kcp_sock` is whether there is a socket; `server_conv_index` is the static counter of
-- `check_control_message`.
pub record KcpConnection (K : Type 0) : Type 0 where
  pub cid : ℕ
  pub conn_status : ConnectionStatus
  pub kcp_sock : Bool
  pub is_passive : Bool
  pub reconnect_flag : Bool
  pub kcp : Option K
  pub kcp_timerid : ℕ
  pub heartbeat_timerid : ℕ
  pub last_msg_time : ℕ
  pub send_buffer : LoopBuffer
  pub server_conv_index : ℕ

-- What the connection asks of its socket, its worker and its handlers, in order.
pub data KcpEffect : Type 0 where
  sent : KcpMsg → KcpEffect
  datagram : List ℕ → KcpEffect
  told : NetEvent → KcpEffect
  handed : List ℕ → KcpEffect
  timer_started : ℕ → ℕ → KcpEffect
  timer_stopped : ℕ → KcpEffect
  sock_closed : KcpEffect
  receiving : KcpEffect

abbrev pub Step : Type 0 → Type 0
Step K = KcpConnection K × List KcpEffect

-- The completion of `do_send`.
unfoldable pub on_datagram_sent : Bool → List KcpEffect
on_datagram_sent ok = if ok then told evt_send ∷ [] else []

module _ {K : Type 0} where
  abbrev pub tell : NetEvent → Step K → Step K
  tell evt (c, es) = (c, told evt ∷ es)

  unfoldable pub shakehand_request : ℕ → KcpConnection K → List KcpEffect
  shakehand_request id c =
      if c.kcp_sock
      then sent (record { conv = if id == 0 then c.cid else id; cmd = kcp_shakehand_request }) ∷ []
      else []

  unfoldable pub shakehand_response : ℕ → KcpConnection K → List KcpEffect
  shakehand_response id c =
      if c.kcp_sock
      then sent (record { conv = if id == 0 then c.cid else id; cmd = kcp_shakehand_response }) ∷ []
      else []

  unfoldable pub send_heartbeat : KcpConnection K → List KcpEffect
  send_heartbeat c =
      if c.kcp_sock then sent (record { conv = c.cid; cmd = kcp_heartbeat }) ∷ [] else []

  unfoldable pub do_send : List ℕ → KcpConnection K → ℤ × List KcpEffect
  do_send bytes c = if c.kcp_sock then (pos 0, datagram bytes ∷ []) else (minus_one, [])

  unfoldable pub release : KcpConnection K → Step K
  release c =
      if rank c.conn_status == 4
      then (c, [])
      else let closing = c.kcp_sock && not c.is_passive in
        (
          record c {
            conn_status = conn_closed;
            kcp_sock = if closing then false else c.kcp_sock;
            kcp = none;
          },
          timer_stopped c.heartbeat_timerid
              ∷ timer_stopped c.kcp_timerid
              ∷ (if closing then sock_closed ∷ [] else []),
        )

  unfoldable pub disconnect : KcpConnection K → ℤ × Step K
  disconnect c =
      if c.kcp_sock && ltb (rank c.conn_status) 3
      then (
        pos 0,
        (
          record c { conn_status = conn_closing; kcp_timerid = 0 },
          (if c.kcp_timerid == 0 then [] else timer_stopped c.kcp_timerid ∷ [])
              ++ (sent (record { conv = c.cid; cmd = kcp_goodbye }) ∷ []),
        ),
      )
      else (minus_one, (c, []))

  -- The completion of the send of `disconnect`.
  unfoldable pub on_goodbye_sent : KcpConnection K → Step K
  unfolding release
  on_goodbye_sent c = tell evt_disconnect (release c)

  unfoldable pub listen : Bool → ℕ → KcpConnection K → Step K
  listen sock tid c =
      let c' = record c { kcp_sock = sock; conn_status = conn_open; is_passive = true } in
      if sock
      then (record c' { heartbeat_timerid = tid }, timer_started tid 1000000 ∷ [])
      else (c', [])

  unfoldable pub connect : Bool → ℕ → KcpConnection K → Step K
  unfolding shakehand_request
  connect reconn tid c =
      let c' = record c {
        is_passive = false;
        reconnect_flag = reconn;
        kcp_sock = true;
        heartbeat_timerid = tid;
        conn_status = conn_open;
      } in
      (c', timer_started tid 1000000 ∷ (shakehand_request 0 c' ++ (receiving ∷ [])))

  -- A round of the heartbeat timer of `listen`.
  unfoldable pub check_listen : ℕ → KcpConnection K → Step K
  unfolding release send_heartbeat
  check_listen now c =
      if ltb 3000 (now - c.last_msg_time)
      then tell evt_disconnect (release c)
      else (c, send_heartbeat c)

  -- A round of the heartbeat timer of `connect`.
  unfoldable pub check_connect : ℕ → KcpConnection K → Step K
  unfolding release send_heartbeat
  check_connect now c =
      if ltb 3000 (now - c.last_msg_time)
      then tell evt_disconnect (if c.reconnect_flag then (c, []) else release c)
      else (c, send_heartbeat c)

-- The pushes of `mpush`, whose results are not looked at; the length given to `push` is a `uint32_t`.
abbrev pub write_data : List (List ℕ) → LoopBuffer → LoopBuffer
write_data [] b = b
write_data (part ∷ rest) b = write_data rest (push b (take (length part % 2 ^ 32) part)).1

module _ (ikcp : Ikcp) where
  open ikcp use {Control}

  unfoldable pub init_kcp : ℕ → KcpConnection Control → Step Control
  init_kcp tid c = (
    record c {
      kcp = some (ikcp.create c.cid);
      kcp_timerid = if c.kcp_timerid == 0 then tid else c.kcp_timerid;
      conn_status = conn_kcp_ready;
    },
    if c.kcp_timerid == 0 then timer_started tid 100 ∷ [] else [],
  )

  abbrev pub send_all : List (List ℕ) → KcpConnection Control → List KcpEffect
  send_all [] c = []
  send_all (d ∷ ds) c = (do_send d c).1 ++ send_all ds c

  abbrev pub update_by : Option Control → ℕ → KcpConnection Control → Step Control
  update_by none now c = (c, [])
  update_by (some k) now c =
      if is_ready c.conn_status
      then (record c { kcp = some (ikcp.update k now).0 }, send_all (ikcp.update k now).1 c)
      else (c, [])

  -- A round of the timer of `init_kcp`.
  unfoldable pub update_kcp : ℕ → KcpConnection Control → Step Control
  unfolding do_send
  update_kcp now c = update_by c.kcp now c

  abbrev pub send_by : Option Control → List ℕ → KcpConnection Control → Option ℕ × Step Control
  send_by none bytes c = (none, (c, []))
  send_by (some k) bytes c =
      let (k', ret) = ikcp.send k bytes in (ret, (record c { kcp = some k' }, []))

  unfoldable pub send : List ℕ → KcpConnection Control → Option ℕ × Step Control
  unfolding shakehand_request
  send bytes c =
      if is_ready c.conn_status then send_by c.kcp bytes c else (none, (c, shakehand_request 0 c))

  -- `ikcp_send` of the length and the block that the reader is handed; nothing is committed.
  abbrev pub flush_by : Option Control → ℕ × List ℕ → KcpConnection Control → ℤ × Step Control
  flush_by none block c = (minus_one, (c, []))
  flush_by (some k) block c =
      if block.0 == 0
      then (pos 0, (c, []))
      else (pos block.0, (record c { kcp = some (ikcp.send k block.1).0 }, []))

  -- The last `mpush`.
  unfoldable pub flush : KcpConnection Control → ℤ × Step Control
  unfolding shakehand_request read
  flush c =
      if is_ready c.conn_status
      then flush_by c.kcp (read c.send_buffer) c
      else (minus_one, (c, shakehand_request 0 c))

  -- `msend`: an empty string goes in front of the parts.
  unfoldable pub msend : List (List ℕ) → KcpConnection Control → ℤ × Step Control
  unfolding flush push
  msend parts c = flush (record c { send_buffer = write_data ([] ∷ parts) c.send_buffer })
