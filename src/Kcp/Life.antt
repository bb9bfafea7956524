-- ===== src/Kcp/Life.antt =====
-- The operations of a connection in any order: what its status says of its control block.
pub mod Fits
pub mod Consistent
pub mod Closed
use knet.Base.{
  ℕ, zero, suc, ◌+◌, ◌≡◌, ◌≢◌, refl, sym, ap, subst, ◌∙◌, inl, inr, Bool, true, false, not, ◌&&◌,
  ◌||◌, Option, none, some, List, [], ◌∷◌, ◌++◌, arith, ℤ, if◌then◌else◌, if_split, ltb, ◌==◌,
  Bool-cases, length, take, set,
}
use knet.Kcp.Message.{KcpMsg, msg_of}
use knet.Kcp.Ikcp.{Ikcp, IkcpLaws}
use knet.Kcp.Connection.{
  ConnectionStatus, conn_idle, conn_open, conn_kcp_ready, conn_closing, conn_closed, rank,
  KcpConnection, Step, shakehand_request, send_heartbeat, release, disconnect, on_goodbye_sent,
  listen, connect, check_listen, check_connect, init_kcp, update_kcp, send, flush_by, flush, msend,
  write_data, on_datagram_sent,
}
use knet.Utils.LoopBuffer.{read}
use knet.Kcp.Control.{
  adopt, allocate, keep_or_take, request_on_open, response_on_open, request_on_ready,
  response_on_ready, message_on_open, message_on_ready, control_in, check_control_message,
  is_control,
}
use knet.Kcp.Receive.{
  Drained, with_message, receive_round, drain, drained, after_input, receive_by, handle_receive,
  andthen, on_received, max_message_length, ikcp_cmd_ack,
}

pub data Operation : Type 0 where
  listening : Bool → ℕ → Operation
  connecting : Bool → ℕ → Operation
  sending : List ℕ → Operation
  sending_parts : List (List ℕ) → Operation
  updating checking_listen checking_connect : ℕ → Operation
  disconnecting goodbye_sent releasing : Operation
  -- The completion of `do_send`, without an error or with one.
  datagram_sent : Bool → Operation
  -- The time, the id of a timer, the length and the buffer.
  receiving : ℕ → ℕ → ℕ → List ℕ → Operation

module _ (ikcp : Ikcp) where
  open ikcp use {Control}

  unfoldable pub operate : Operation → KcpConnection Control → Step Control
  unfolding listen connect send msend update_kcp check_listen check_connect disconnect
      on_goodbye_sent release on_received on_datagram_sent
  operate (listening sock tid) c = listen sock tid c
  operate (connecting reconn tid) c = connect reconn tid c
  operate (sending bytes) c = (send ikcp bytes c).1
  operate (sending_parts parts) c = (msend ikcp parts c).1
  operate (updating now) c = update_kcp ikcp now c
  operate (checking_listen now) c = check_listen now c
  operate (checking_connect now) c = check_connect now c
  operate disconnecting c = (disconnect c).1
  operate goodbye_sent c = on_goodbye_sent c
  operate releasing c = release c
  operate (datagram_sent ok) c = (c, on_datagram_sent ok)
  operate (receiving now tid n buffer) c = on_received ikcp now tid n buffer c

  abbrev pub operate_all : List Operation → KcpConnection Control → Step Control
  operate_all [] c = (c, [])
  operate_all (o ∷ os) c = andthen ikcp (operate o c) (operate_all os)
