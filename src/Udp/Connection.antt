-- ===== src/Udp/Connection.antt =====
-- `UdpConnection` of include/udp/udp_connection.hpp. An asynchronous send and what the handlers are
-- called with are effects; the handlers' results are arguments. Times are in nanoseconds.
use knet.Base.{
  ℕ, ◌+◌, ◌-◌, Bool, true, false, not, Option, none, some, List, [], ◌∷◌, ◌++◌, ℤ, pos, negsuc,
  minus_one, if◌then◌else◌, ltb, ◌==◌, length, take, set, Text, is_empty,
}
use knet.Event.{NetEvent, evt_create, evt_release}

pub data ConnectionStatus : Type 0 where
  conn_idle conn_open conn_closing conn_closed : ConnectionStatus

pub record UdpConnection : Type 0 where
  pub cid : ℕ
  pub net_status : ConnectionStatus
  pub udp_socket : Bool
  pub sock_open : Bool
  pub has_timer : Bool
  pub last_msg_time : ℕ

-- Whether there is a user's handler, and the results of its handlers and of the connection's own.
pub record UdpHandlers : Type 0 where
  pub has_user : Bool
  pub user_event : NetEvent → Bool
  pub user_data : Text → Bool
  pub own_event : NetEvent → Bool
  pub own_data : Text → Bool
  -- handle_package gives PACKAGE_USER
  pub is_user : Text → Bool

pub data UdpEffect : Type 0 where
  datagram : Text → UdpEffect
  user_told own_told : NetEvent → UdpEffect
  user_handed own_handed : Text → UdpEffect
  sock_closed sock_opened receiving timer_started : UdpEffect
  bound : ℕ → UdpEffect
  joined : UdpEffect

abbrev pub Step : Type 0
Step = UdpConnection × List UdpEffect

-- `mpush` of the parts behind the bytes in the buffer: its result and what is sent.
abbrev pub add_result : ℕ → ℤ × List UdpEffect → ℤ × List UdpEffect
add_result ret (pos rst, es) = (pos (ret + rst), es)
add_result ret (negsuc n, es) = (minus_one, es)

unfoldable pub mpush : UdpConnection → List Text → Text → ℤ × List UdpEffect
mpush c [] buffer =
    if not c.udp_socket
    then (minus_one, [])
    else if is_empty buffer
    then (pos 0, [])
    else (pos (length buffer), datagram buffer ∷ [])
mpush c (part ∷ rest) buffer = add_result (length part) (mpush c rest (buffer ++ part))

unfoldable pub msend : UdpConnection → List Text → ℤ × List UdpEffect
unfolding mpush
msend c parts = mpush c parts []

unfoldable pub send : UdpConnection → Text → ℤ × List UdpEffect
unfolding msend
send c msg = msend c (msg ∷ [])

-- The result of `send_to`, or none for an error.
unfoldable pub sync_send : UdpConnection → Option ℕ → ℤ
sync_send c result =
    if c.udp_socket then elim result [ none ↦ minus_one | some n ↦ pos n ] else minus_one

unfoldable pub process_event : UdpHandlers → NetEvent → Bool × List UdpEffect
process_event h evt =
    if h.has_user
    then if h.user_event evt
      then (h.own_event evt, user_told evt ∷ own_told evt ∷ [])
      else (false, user_told evt ∷ [])
    else (h.own_event evt, own_told evt ∷ [])

unfoldable pub process_data : UdpHandlers → Text → Bool × List UdpEffect
process_data h bytes =
    if h.has_user
    then if h.user_data bytes
      then (h.own_data bytes, user_handed bytes ∷ own_handed bytes ∷ [])
      else (false, user_handed bytes ∷ [])
    else (h.own_data bytes, own_handed bytes ∷ [])

unfoldable pub init : UdpHandlers → Bool → UdpConnection → Step
unfolding process_event
init h socket c = (record c { udp_socket = socket }, (process_event h evt_create).1)

unfoldable pub close : UdpConnection → Step
close c =
    if c.udp_socket
    then (
      record c { udp_socket = false; sock_open = false },
      if c.sock_open then sock_closed ∷ [] else [],
    )
    else (c, [])

unfoldable pub release : UdpHandlers → List UdpEffect
unfolding process_event
release h = (process_event h evt_release).1

-- `connect`; the arguments are the port of the peer, whether its address is one of a group, and the
-- local port.
unfoldable pub connect : ℕ → Bool → ℕ → UdpConnection → Step
connect port multicast local_port c = (
  record c {
    udp_socket = true;
    sock_open = true;
    net_status = conn_open;
    has_timer = if multicast then c.has_timer else true;
  },
  sock_opened
      ∷ ((if multicast
            then bound port ∷ joined ∷ []
            else (if ltb 0 local_port then bound local_port ∷ [] else []) ++ (timer_started ∷ []))
          ++ (receiving ∷ [])),
)

-- A round of the timer of `connect`.
unfoldable pub check_peer : UdpHandlers → ℕ → UdpConnection → List UdpEffect
unfolding release
check_peer h now c = if ltb 3000000000 (now - c.last_msg_time) then release h else []

-- The handler of `do_receive`: an error or the number of bytes, and the buffer, which gets a 0 behind
-- them: in the array for less than 4096 bytes, behind its end for 4096.
unfoldable pub on_received : UdpHandlers → ℕ → Option ℕ → Text → UdpConnection → Step
unfolding process_data
on_received h now none buffer c = (c, [])
on_received h now (some n) buffer c =
    let bytes = take n (set buffer n 0) in
    if n == 0 then (c, []) else (
      record c { last_msg_time = now },
      (if h.is_user bytes then (process_data h bytes).1 else []) ++ (receiving ∷ []),
    )
