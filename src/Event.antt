-- ===== src/Event.antt =====
-- `NetEvent` of include/knet_handler.hpp and its texts.
mod Tests
use Prim.Native.String.{String}
use knet.Base.{ℕ, zero, suc, Option, none, some, List, [], ◌∷◌}

pub data NetEvent : Type 0 where
  evt_thread_init evt_thread_exit evt_listen_start evt_listen_fail evt_listen_stop evt_create
        evt_release evt_connect evt_connect_fail evt_recv evt_send evt_disconnect evt_recyle_timer
        evt_user1 evt_user2 evt_end :
      NetEvent

-- The values of the enumeration.
abbrev pub event_code : NetEvent → ℕ
event_code evt_thread_init = 0
event_code evt_thread_exit = 1
event_code evt_listen_start = 2
event_code evt_listen_fail = 3
event_code evt_listen_stop = 4
event_code evt_create = 5
event_code evt_release = 6
event_code evt_connect = 7
event_code evt_connect_fail = 8
event_code evt_recv = 9
event_code evt_send = 10
event_code evt_disconnect = 11
event_code evt_recyle_timer = 12
event_code evt_user1 = 13
event_code evt_user2 = 14
event_code evt_end = 15

-- kEventMessage
abbrev pub event_message : List String
event_message =
    "Net Event: thread init" ∷ "Net Event: thread exit" ∷ "Net Event: listen start"
    ∷ "Net Event: listen failed" ∷ "Net Event: listen stop" ∷ "Net Event: connection create"
    ∷ "Net Event: connection release" ∷ "Net Event: connect" ∷ "Net Event: connect failed"
    ∷ "Net Event: data received" ∷ "Net Event: data sent" ∷ "Net Event: disconnect"
    ∷ "Net Event: recyle timer timeout" ∷ []

abbrev pub entry : List String → ℕ → Option String
entry [] i = none
entry (t ∷ ts) zero = some t
entry (t ∷ ts) (suc i) = entry ts i

-- `none` is a read behind the end of the table.
unfoldable pub event_string : NetEvent → Option String
event_string evt = entry event_message (event_code evt)
