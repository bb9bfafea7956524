-- ===== src/Kcp/Receive.antt =====
-- `handle_receive` and the handler of `do_receive` of include/kcp/kcp_connection.hpp.
pub mod Drain
pub mod Blocked
use knet.Base.{
  ℕ, zero, suc, ◌+◌, Bool, true, false, Option, none, some, List, [], ◌∷◌, ◌++◌, if◌then◌else◌, ltb,
  leb, ◌==◌, length, take, set,
}
use knet.Event.{evt_recv}
use knet.Kcp.Ikcp.{Ikcp}
use knet.Kcp.Connection.{KcpConnection, KcpEffect, handed, told, receiving, Step}
use knet.Kcp.Control.{check_control_message}

-- kMaxMessageLength
abbrev pub max_message_length : ℕ
max_message_length = 4096

-- IKCP_CMD_ACK
abbrev pub ikcp_cmd_ack : ℕ
ikcp_cmd_ack = 82

module _ (ikcp : Ikcp) where
  open ikcp use {Control}

  abbrev pub Drained : Type 0
  Drained = Option (Control × List KcpEffect)

  abbrev pub with_message : List ℕ → Drained → Drained
  with_message bytes none = none
  with_message bytes (some (k, es)) = some (k, handed bytes ∷ told evt_recv ∷ es)

  -- Behind `ikcp_recv`; the last argument is the rest of the loop.
  abbrev pub after_recv : Control → Option (List ℕ) → (Control → Drained) → Drained
  after_recv k none next = some (k, [])
  after_recv k (some bytes) next =
      if length bytes == 0 then some (k, []) else with_message bytes (next k)

  -- One round behind the size of the next message.
  abbrev pub receive_round : Option ℕ → Control → (ℕ → Control → Drained) → Drained
  receive_round none k next = some (k, [])
  receive_round (some zero) k next = some (k, [])
  receive_round (some (suc n)) k next =
      let (k', got) = ikcp.recv k max_message_length in after_recv k' got (next (suc n))

  -- The loop, from `recv_len` on; `none` means that the fuel ran out.
  unfoldable pub drain : ℕ → ℕ → ℕ → Control → Drained
  drain zero data_len recv_len k = none
  drain (suc fuel) data_len recv_len k =
      let next = λ (n : ℕ) (k' : Control). drain fuel data_len (recv_len + n) k' in
      if ltb recv_len data_len then receive_round (ikcp.peeksize k) k next else some (k, [])

  abbrev pub drained : KcpConnection Control → Drained → Step Control
  drained c none = (c, [])
  drained c (some (k, es)) = (record c { kcp = some k }, es)

  -- Behind `ikcp_input`, by its result.
  abbrev pub after_input : ℕ → KcpConnection Control → Control → Option ℕ → Step Control
  after_input data_len c k none = drained c (drain (suc data_len) data_len 0 k)
  after_input data_len c k (some cmd) =
      if cmd == ikcp_cmd_ack
      then (record c { kcp = some k }, [])
      else drained c (drain (suc data_len) data_len 0 k)

  abbrev pub receive_by : Option Control → List ℕ → KcpConnection Control → Step Control
  receive_by none data' c = (c, [])
  receive_by (some k) data' c =
      let (k', cmd) = ikcp.input k data' in after_input (length data') c k' cmd

  unfoldable pub handle_receive : List ℕ → KcpConnection Control → Step Control
  unfolding drain
  handle_receive data' c = receive_by c.kcp data' c

  abbrev pub andthen : Step Control → (KcpConnection Control → Step Control) → Step Control
  andthen (c, es) f = let (c', fs) = f c in (c', es ++ fs)

  -- A datagram of `n` bytes in the receive buffer, which gets a 0 behind it: in the array for less
  -- than 4096 bytes, behind its end for 4096.
  unfoldable pub on_received : ℕ → ℕ → ℕ → List ℕ → KcpConnection Control → Step Control
  unfolding check_control_message handle_receive
  on_received now tid n buffer c =
      let buffer' = set buffer n 0 in
      let (control, r) =
        check_control_message ikcp tid buffer' (record c { last_msg_time = now }) in
      andthen (if control then r else andthen r (handle_receive (take n buffer')))
        (λ c'. (c', receiving ∷ []))
