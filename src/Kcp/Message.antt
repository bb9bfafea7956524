-- ===== src/Kcp/Message.antt =====
-- The control messages of include/kcp/kcp_message.hpp. A message is sent as it lies in memory: four
-- bytes `conv`, then `cmd`, `frg` and the two bytes of `wnd`.
use knet.Base.{
  ℕ, ◌+◌, ◌*◌, ap, ◌%◌, ◌/◌, ◌^◌, ◌<◌, ◌≡◌, List, [], ◌∷◌, ◌++◌, arith, get_or, take, to_bytes,
  from_bytes,
}

-- KcpMsgType
abbrev pub kcp_shakehand_request : ℕ
kcp_shakehand_request = 250

abbrev pub kcp_shakehand_response : ℕ
kcp_shakehand_response = 251

abbrev pub kcp_heartbeat : ℕ
kcp_heartbeat = 252

abbrev pub kcp_goodbye : ℕ
kcp_goodbye = 253

-- KcpShakeHandMsg and KcpHeartbeat; `frg` and `wnd` stay 0.
pub record KcpMsg : Type 0 where
  pub conv : ℕ
  pub cmd : ℕ

unfoldable pub msg_bytes : KcpMsg → List ℕ
msg_bytes m = to_bytes 4 m.conv ++ (m.cmd ∷ 0 ∷ 0 ∷ 0 ∷ [])

-- (KcpMsgHead*)pData, of what lies in the buffer, whatever the length of the datagram.
unfoldable pub msg_of : List ℕ → KcpMsg
msg_of buffer = record { conv = from_bytes (take 4 buffer); cmd = get_or buffer 4 0 }

pub msg_of-msg_bytes :
    (m : KcpMsg) (rest : List ℕ) → m.conv < 2 ^ 32 → msg_of (msg_bytes m ++ rest) ≡ m
unfolding msg_of msg_bytes
msg_of-msg_bytes m rest h =
    let e : m.conv % 256
          + 256
            * (m.conv / 256 % 256
                + 256
                  * (m.conv / 256 / 256 % 256 + 256 * (m.conv / 256 / 256 / 256 % 256 + 256 * 0)))
        ≡ m.conv =
      omega arith in
    ap (λ c. record { conv = c; cmd = m.cmd }) e
