-- ===== src/Kcp/Tests.antt =====
-- A small library in place of KCP, runs of the connection on it, and the theorems at them.
use knet.Base.{
  ℕ, ◌<◌, ◌≡◌, ◌≢◌, refl, sym, subst, true, false, some, List, [], ◌∷◌, ◌++◌, arith, pos, length,
  tabulate,
}
use knet.Event.{evt_recv, evt_disconnect}
use knet.Utils.LoopBuffer.Write.{length-tabulate}
use knet.Kcp.Message.{msg_bytes, kcp_goodbye}
use knet.Kcp.Connection.{
  conn_open, sent, handed, told, timer_stopped, sock_closed, receiving, connect, send, msend,
}
use knet.Kcp.Control.{check_control_message}
use knet.Kcp.Control.Agreement.{
  messages, request, response, IsUp, absorb, shakehand-agrees, crossed-requests,
}
use knet.Kcp.Receive.{handle_receive, on_received, max_message_length, ikcp_cmd_ack}
use knet.Kcp.Receive.Drain.{Received, handle_receive-Received}
use knet.Kcp.Receive.Blocked.{IsStuck, receive_each, receive_each-IsStuck}
use knet.Kcp.Sending.{Holds, resent, msend_each, msend_each-resent, msend-dropped}
use knet.Kcp.Life.{
  Operation, sending, disconnecting, goodbye_sent, datagram_sent, receiving as receiving_op,
  operate, operate_all,
}
use knet.Kcp.Life.Fits.{IsConsistent}
use knet.Kcp.Life.Consistent.{operate_all-IsConsistent}
use knet.Kcp.Life.Closed.{IsClosed, loud, completions, operate_all-IsClosed}
use knet.Kcp.Connector.{KcpConnector, add_connection, remove}
use knet.Kcp.Samples.{Block, toy, toy_laws, ring-Holds, block, ready, server, client, closed}

second_send :
    ((msend toy ((8 ∷ []) ∷ []) ready).1.0).kcp ≡ some (record block { given = (7 ∷ 8 ∷ []) ∷ [] })
unfolding msend
second_send = refl

abbrev no_connections : KcpConnector Block
no_connections = record { net_factory = false; connections = [] }

-- A connection that took another id is not found any more.
renamed_kept :
    (remove
      (check_control_message toy 3
        (msg_bytes (request 2000))
        (record client { conn_status = conn_open })).1.0
      (add_connection false 2 client no_connections).0).0
    ≡ false
unfolding remove add_connection check_control_message msg_bytes
renamed_kept = refl

goodbye :
    check_control_message toy 9 (msg_bytes (record { conv = 1025; cmd = kcp_goodbye })) ready
    ≡ (false, (ready, []))
unfolding check_control_message msg_bytes
goodbye = refl

received_data :
    (on_received toy 5 9 3 (1 ∷ 2 ∷ 3 ∷ 4 ∷ 5 ∷ []) ready).1
    ≡ handed (1 ∷ 2 ∷ 3 ∷ []) ∷ told evt_recv ∷ receiving ∷ []
unfolding on_received
received_data = refl

disconnected :
    (operate_all toy (disconnecting ∷ goodbye_sent ∷ []) ready).1
    ≡ timer_stopped 3
      ∷ sent (record { conv = 1025; cmd = kcp_goodbye })
      ∷ told evt_disconnect
      ∷ timer_stopped 2
      ∷ timer_stopped 0
      ∷ sock_closed
      ∷ []
unfolding operate
disconnected = refl

not_ack : some 81 ≢ some ikcp_cmd_ack
not_ack = ground arith

handle_receive-Received_example :
    Received toy toy_laws 2 ((1 ∷ 2 ∷ []) ∷ []) (handle_receive toy (1 ∷ 2 ∷ []) ready)
handle_receive-Received_example =
    handle_receive-Received toy toy_laws ready block (1 ∷ 2 ∷ []) refl not_ack

large : List ℕ
large = tabulate 4097 (λ i. 0)

large_length : max_message_length < length large
unfolding large
large_length = subst (λ n. 4096 < n) (sym (length-tabulate 4097 (λ i. 0))) (omega arith)

abbrev full_block : Block
full_block = record block { waiting = large ∷ (1 ∷ []) ∷ [] }

stuck : IsStuck toy toy_laws (record ready { kcp = some full_block })
stuck = record {
  block = full_block;
  holds = refl;
  message = large;
  others = (1 ∷ []) ∷ [];
  next = refl;
  large = large_length;
}

receive_each-IsStuck_example :
    IsStuck toy toy_laws
      (receive_each toy toy_laws
        ((2 ∷ []) ∷ (3 ∷ []) ∷ [])
        (record ready { kcp = some full_block })).0
    × ((receive_each toy toy_laws
          ((2 ∷ []) ∷ (3 ∷ []) ∷ [])
          (record ready { kcp = some full_block })).1
        ≡ [])
receive_each-IsStuck_example =
    receive_each-IsStuck toy toy_laws ((2 ∷ []) ∷ (3 ∷ []) ∷ [])
      (record ready { kcp = some full_block }) stuck

shakehand-agrees_example :
    (messages (connect false 2 client).1 ≡ request 1025 ∷ [])
    × (messages (check_control_message toy 4 (msg_bytes (request 1025) ++ (0 ∷ [])) server).1.1
        ≡ response 1025 ∷ [])
    × IsUp toy 1025 (
        absorb toy
          ((5, 0 ∷ []) ∷ [])
          (check_control_message toy 4 (msg_bytes (request 1025) ++ (0 ∷ [])) server).1.0)
    × IsUp toy 1025 (
        absorb toy []
          (check_control_message toy 3
            (msg_bytes (response 1025) ++ [])
            (connect false 2 client).0).1.0)
shakehand-agrees_example =
    shakehand-agrees toy false 2 3 4 client server (0 ∷ []) [] ((5, 0 ∷ []) ∷ []) [] (omega arith)
      (omega arith) refl refl

crossed-requests_example :
    (messages (send toy (1 ∷ []) (record client { conn_status = conn_open; kcp_sock = true })).1.1
      ≡ request 1025 ∷ [])
    × (messages (send toy (2 ∷ []) server).1.1 ≡ request 2000 ∷ [])
    × IsUp toy 2000 (
        absorb toy []
          (check_control_message toy 3
            (msg_bytes (request 2000) ++ [])
            (record client { conn_status = conn_open; kcp_sock = true })).1.0)
    × IsUp toy 1025
        (absorb toy [] (check_control_message toy 4 (msg_bytes (request 1025) ++ []) server).1.0)
    × ((absorb toy []
          (check_control_message toy 3
            (msg_bytes (request 2000) ++ [])
            (record client { conn_status = conn_open; kcp_sock = true })).1.0).cid
        ≢ (absorb toy []
            (check_control_message toy 4 (msg_bytes (request 1025) ++ []) server).1.0).cid)
crossed-requests_example =
    crossed-requests toy 3 4 (record client { conn_status = conn_open; kcp_sock = true }) server
      (1 ∷ []) (2 ∷ []) [] [] [] [] refl refl refl refl (omega arith) (omega arith) (omega arith)
      (omega arith) (omega arith)

msend_each-resent_example :
    ((msend_each toy (((8 ∷ []) ∷ []) ∷ ((9 ∷ []) ∷ []) ∷ []) ready).kcp
      ≡ some (resent toy block (7 ∷ []) (((8 ∷ []) ∷ []) ∷ ((9 ∷ []) ∷ []) ∷ [])))
    × Holds
        (msend_each toy (((8 ∷ []) ∷ []) ∷ ((9 ∷ []) ∷ []) ∷ []) ready).send_buffer
        (7 ∷ 8 ∷ 9 ∷ [])
msend_each-resent_example =
    msend_each-resent toy (((8 ∷ []) ∷ []) ∷ ((9 ∷ []) ∷ []) ∷ []) ready block (7 ∷ []) refl refl
      ring-Holds (omega arith) (omega arith, (omega arith, tt))

msend-dropped_example :
    ((msend toy ((1 ∷ 2 ∷ 3 ∷ 4 ∷ []) ∷ []) ready).0 ≡ pos 1)
    × ((msend toy ((1 ∷ 2 ∷ 3 ∷ 4 ∷ []) ∷ []) ready).1.0.kcp ≡ some (toy.send block (7 ∷ [])).0)
    × Holds (msend toy ((1 ∷ 2 ∷ 3 ∷ 4 ∷ []) ∷ []) ready).1.0.send_buffer (7 ∷ [])
msend-dropped_example =
    msend-dropped toy (1 ∷ 2 ∷ 3 ∷ 4 ∷ []) ready block (7 ∷ []) refl refl ring-Holds (omega arith)
      (omega arith)

abbrev script : List Operation
script = sending (1 ∷ []) ∷ receiving_op 5 9 1 (1 ∷ 2 ∷ []) ∷ disconnecting ∷ []

operate_all-IsConsistent_example : IsConsistent toy toy_laws (operate_all toy script ready).0
operate_all-IsConsistent_example =
    operate_all-IsConsistent toy toy_laws script ready (refl, omega arith)

abbrev late_script : List Operation
late_script = datagram_sent true ∷ script ++ (datagram_sent false ∷ [])

operate_all-IsClosed_example :
    IsClosed toy (operate_all toy late_script closed).0
    × (loud (operate_all toy late_script closed).1 ≡ completions late_script)
operate_all-IsClosed_example =
    operate_all-IsClosed toy late_script closed (record { status = refl; no_block = refl }) refl
