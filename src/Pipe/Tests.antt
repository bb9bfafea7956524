-- ===== src/Pipe/Tests.antt =====
-- Pipes at concrete inputs.
use knet.Base.{ℕ, ◌≡◌, refl, inr, Bool, true, false, none, List, [], ◌∷◌, ◌++◌, arith}
use knet.Event.{evt_connect}
use knet.Tcp.Socket.{Socket, deliver, socket_open}
use knet.Tcp.Reading.{process_data}
use knet.Tcp.Reading.Stream.{pending}
use knet.Tcp.Reading.Frames.{none_left, one_more}
use knet.Pipe.Proto.{message, shake_hand, data_msg}
use knet.Pipe.Delimit.{IsMessage, IsPart, pipe_conn, process_data-messages}
use knet.Pipe.Session.{Session, Factory, is_ready}
use knet.Pipe.Factory.{handle_event, handle_data, send_to}
use knet.Pipe.Factory.Handshake.{Bound}
use knet.Pipe.Factory.Agreement.{messages_to, handshake-agrees, unnamed_unreachable}

abbrev five : List ℕ
five = message data_msg 0 (5 ∷ [])

abbrev begun : List ℕ
begun = 9 ∷ 0 ∷ []

-- A message of one byte, two bytes of another, and older bytes behind.
abbrev filled : Socket
filled = record {
  has_connection = true;
  sock_open = true;
  status = socket_open;
  read_buffer = five ++ (begun ++ (7 ∷ 7 ∷ 7 ∷ []));
  read_buffer_pos = 0;
  send_buffer = [];
  cache_buffer = [];
  is_writing = false;
}

five-IsMessage : IsMessage five
unfolding message
five-IsMessage = record {
  type_field = 3;
  obdata = 0;
  body = 5 ∷ [];
  built = refl;
  fits = omega arith;
}

begun-IsPart : IsPart begun
unfolding message
begun-IsPart = record {
  whole = message data_msg 0 (1 ∷ 2 ∷ 3 ∷ 4 ∷ 5 ∷ 6 ∷ 7 ∷ 8 ∷ 9 ∷ []);
  whole_message = record {
    type_field = 3;
    obdata = 0;
    body = 1 ∷ 2 ∷ 3 ∷ 4 ∷ 5 ∷ 6 ∷ 7 ∷ 8 ∷ 9 ∷ [];
    built = refl;
    fits = omega arith;
  };
  size = 2;
  shorter = omega arith;
  taken = refl;
}

process_data-messages_example :
    ((process_data (pipe_conn false) filled 19).1 ≡ deliver five ∷ [])
    × (pending (process_data (pipe_conn false) filled 19).0 ≡ begun)
unfolding message
process_data-messages_example =
    process_data-messages false filled 19 (five ∷ []) begun (omega arith) (omega arith) refl
      (one_more five-IsMessage none_left) (inr begun-IsPart) refl

-- "p"
abbrev name : List ℕ
name = b'p' ∷ []

abbrev lone : ℕ → Session
lone i = record { pipe_id = name; ready_flag = false; connection = none }

abbrev side : Bool → Factory
side passive = record {
  sessions = lone;
  session_count = 1;
  links = λ c. record { passive = passive; connected = true; pipeid = name; session = none };
  bind_pipes = (name, 0) ∷ [];
  unbind_pipes = [];
  pid_index = 0;
}

handshake-agrees_example :
    (messages_to 8 (handle_event 8 evt_connect (side false)).1 ≡ message shake_hand 0 name ∷ [])
    × (messages_to 4 (handle_data (λ n. n ∷ []) 4 (message shake_hand 0 name) (side true)).1
        ≡ message shake_hand 0 name ∷ [])
    × Bound 0 4 (handle_data (λ n. n ∷ []) 4 (message shake_hand 0 name) (side true)).0
    × Bound 0 8 (handle_data (λ n. n ∷ []) 8 (message shake_hand 0 name) (side false)).0
unfolding is_ready
handshake-agrees_example =
    handshake-agrees (λ n. n ∷ []) (side true) (side false) 4 8 0 0 refl refl (omega arith)
      (omega arith) refl refl refl refl

unnamed_unreachable_example :
    (messages_to 4 (handle_data (λ n. n ∷ []) 4 (message shake_hand 0 []) (side true)).1
      ≡ message shake_hand 0 (0 ∷ []) ∷ [])
    × (((handle_data (λ n. n ∷ []) 4 (message shake_hand 0 []) (side true)).0.sessions 1).pipe_id
        ≡ [])
    × (send_to
          (0 ∷ [])
          (1 ∷ [])
          (handle_data (λ n. n ∷ []) 4 (message shake_hand 0 []) (side true)).0
        ≡ none)
unnamed_unreachable_example =
    unnamed_unreachable (λ n. n ∷ []) 4 (1 ∷ []) (side true) refl refl refl
