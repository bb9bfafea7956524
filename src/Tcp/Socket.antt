-- ===== src/Tcp/Socket.antt =====
-- `TcpSocket` of include/tcp/asio/tcp_socket.hpp. An asynchronous call is an effect when it starts
-- and an operation of its own when its handler runs; `asio::post` and `async_*` run handlers later.
-- What the connection says of itself (`need_reconnect`, `handle_package`) is a parameter; its event
-- and data handlers do not call back into the socket before they return.
pub mod Send
pub mod Flow
use knet.Base.{
  ℕ, zero, suc, ◌+◌, ◌-◌, ◌*◌, ◌%◌, ◌^◌, add32, to_int32, Bool, true, false, not, ◌&&◌, ◌||◌, List,
  [], ◌∷◌, ◌++◌, ℤ, pos, negsuc, minus_one, if◌then◌else◌, ltb, leb, ◌==◌, length, take, drop,
  copy_to,
}
use knet.Event.{NetEvent, evt_connect, evt_send, evt_disconnect}

pub data SocketStatus : Type 0 where
  socket_idle socket_init socket_connecting socket_open socket_closing socket_reconnect
        socket_closed :
      SocketStatus

-- The order of the enumeration.
abbrev pub rank : SocketStatus → ℕ
rank socket_idle = 0
rank socket_init = 1
rank socket_connecting = 2
rank socket_open = 3
rank socket_closing = 4
rank socket_reconnect = 5
rank socket_closed = 6

-- kReadBufferSize
abbrev pub read_buffer_size : ℕ
read_buffer_size = 1024 * 16

-- What the socket asks of its connection and of asio, in order.
pub data Effect : Type 0 where
  event : NetEvent → Effect
  deliver : List ℕ → Effect
  released : Effect
  start_read : ℕ → Effect
  start_write : List ℕ → Effect
  start_connect : Effect
  close_sock : Effect

-- `has_connection` is `connection != nullptr`; `sock_open` is `tcp_sock.is_open()`.
pub record Socket : Type 0 where
  pub has_connection : Bool
  pub sock_open : Bool
  pub status : SocketStatus
  pub read_buffer : List ℕ
  pub read_buffer_pos : ℕ
  pub send_buffer : List ℕ
  pub cache_buffer : List ℕ
  pub is_writing : Bool

-- `need_reconnect()` and `process_package` of the connection.
pub record Conn : Type 0 where
  pub need_reconnect : Bool
  pub process_package : List ℕ → ℤ

abbrev pub Step : Type 0
Step = Socket × List Effect

-- What follows a step: effects are done in order.
infixl 5 ◌then◌
abbrev pub ◌then◌ : Step → (Socket → Step) → Step
(s, es) then f = let (s', fs) = f s in (s', es ++ fs)

unfoldable pub is_open : Socket → Bool
is_open s = s.sock_open && (rank s.status == 3)

unfoldable pub is_connecting : Socket → Bool
is_connecting s = rank s.status == 2

abbrev pub is_closed_or_closing : SocketStatus → Bool
is_closed_or_closing st = (rank st == 4) || (rank st == 6)

-- The effect of `tcp_sock.close()` under `if (tcp_sock.is_open())`.
abbrev pub close_if_open : Socket → List Effect
close_if_open s = if s.sock_open then close_sock ∷ [] else []

-- `do_close` with a connection, from the status that its first lines leave.
unfoldable pub drop_connection : Conn → Socket → Step
drop_connection c s =
    let told = if leb (rank s.status) 4 then event evt_disconnect ∷ [] else [] in
    if c.need_reconnect
    then (
      record s {
        send_buffer = [];
        cache_buffer = [];
        status = socket_reconnect;
        read_buffer_pos = 0;
      },
      told,
    )
    else (
      record s {
        send_buffer = [];
        cache_buffer = [];
        status = socket_closed;
        sock_open = false;
        has_connection = false;
        read_buffer_pos = 0;
      },
      told ++ (close_if_open s ++ (released ∷ [])),
    )

unfoldable pub do_close : Conn → Socket → Step
unfolding drop_connection
do_close c s =
    if is_closed_or_closing s.status
    then (s, [])
    else let status' = if ltb (rank s.status) 4 then socket_closing else s.status in
      let s' = record s { status = status' } in
      if s.has_connection then drop_connection c s' else (
        record s { status = socket_closed; sock_open = false; read_buffer_pos = 0 },
        close_if_open s,
      )

-- `do_async_write`: the two buffers are swapped where the one in use is empty.
unfoldable pub do_async_write : Socket → Step
do_async_write s =
    let swaps = not (length s.send_buffer == 0) && (length s.cache_buffer == 0) in
    let s' =
      if swaps
      then record s { send_buffer = s.cache_buffer; cache_buffer = s.send_buffer }
      else s in
    if length s'.cache_buffer == 0
    then (record s' { is_writing = false }, [])
    else (record s' { is_writing = true }, start_write s'.cache_buffer ∷ [])

-- The handler of `async_write`, without and with an error.
unfoldable pub on_written : Socket → Step
unfolding do_async_write
on_written s =
    (record s { cache_buffer = [] }, if s.has_connection then event evt_send ∷ [] else [])
    then do_async_write

unfoldable pub on_write_error : Conn → Socket → Step
unfolding do_close
on_write_error c s = do_close c (record s { cache_buffer = [] })

-- `write_data` appends and returns the size of the whole buffer, as a `uint32_t`.
unfoldable pub write_data : Socket → List ℕ → ℕ × Socket
write_data s bytes =
    let sent = s.send_buffer ++ bytes in (length sent % 2 ^ 32, record s { send_buffer = sent })

-- The sum is one of 32 bits.
unfoldable pub mpush : Socket → List (List ℕ) → ℕ × Socket
unfolding write_data
mpush s [] = (0, s)
mpush s (part ∷ rest) =
    let (len, s') = write_data s part in
    let more = mpush s' rest in if ltb 0 len then (add32 len more.0, more.1) else (0, s')

-- `msend`; where it is open, `do_send` posts `send_task`.
unfoldable pub msend : Socket → List (List ℕ) → ℤ × Socket
unfolding is_open mpush
msend s parts = let r = mpush s parts in if is_open s then (to_int32 r.0, r.1) else (minus_one, s)

-- The task that `do_send` posts.
unfoldable pub send_task : Socket → Step
unfolding do_async_write
send_task s = if s.is_writing then (s, []) else do_async_write s

-- `close` returns at once in these two states, and posts `close_task` otherwise.
unfoldable pub close_posts : Socket → Bool
close_posts s = not (is_closed_or_closing s.status)

-- The end of the posted task with a connection, once the status is `socket_closed`.
unfoldable pub finish_close : Conn → Socket → Step
finish_close c s =
    let s' = record s { status = socket_closed; sock_open = false; read_buffer_pos = 0 } in
    if c.need_reconnect
    then (record s' { status = socket_reconnect }, close_if_open s)
    else (record s' { has_connection = false }, close_if_open s ++ (released ∷ []))

-- The task that `close` posts: a last write, the event, and the end.
unfoldable pub close_task : Conn → Socket → Step
unfolding do_async_write finish_close
close_task c s =
    let s' = record s { status = socket_closing } in
    if s.has_connection
    then (if length s.send_buffer == 0 then (s', []) else do_async_write s')
    then (λ t.
        (t, if leb (rank t.status) 4 then event evt_disconnect ∷ [] else []) then finish_close c)
    else (
      record s' { status = socket_closed; sock_open = false; read_buffer_pos = 0 },
      close_if_open s',
    )
