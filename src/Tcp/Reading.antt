-- ===== src/Tcp/Reading.antt =====
-- The reading half of `TcpSocket`: `connect`, `init_read`, `do_read` and `process_data` of
-- include/tcp/asio/tcp_socket.hpp, with the handlers of `async_connect` and `async_read_some`.
pub mod Framing
pub mod Frames
pub mod Stream
use knet.Base.{
  ℕ, zero, suc, ◌+◌, ◌-◌, Bool, true, false, not, ◌&&◌, ◌||◌, List, [], ◌∷◌, ◌++◌, ℤ, pos, negsuc,
  if◌then◌else◌, ltb, leb, ◌==◌, length, take, drop, copy_to,
}
use knet.Event.{NetEvent, evt_connect}
use knet.Tcp.Socket.{
  SocketStatus, socket_connecting, socket_open, socket_closed, rank, Socket, Conn, Step, Effect,
  event, deliver, start_read, start_connect, close_sock, ◌then◌, do_close, read_buffer_size,
}

-- How the loop of `process_data` ends: at `read_pos`, or by `do_close` on a package that is too big.
pub data Cut : Type 0 where
  stopped : ℕ → Cut
  too_big : Cut

-- The view that `process_package` is given: `read_buffer_pos` bytes from `read_pos` on.
abbrev pub view_at : Socket → ℕ → List ℕ
view_at s read_pos = take s.read_buffer_pos (drop read_pos s.read_buffer)

-- What the loop does with the length that `process_package` returns; `rest` is the next round.
abbrev pub on_package : Socket → ℕ → ℤ → (ℕ → Cut × List Effect) → Cut × List Effect
on_package s read_pos (negsuc n) rest = (stopped read_pos, [])
on_package s read_pos (pos len) rest =
    if (len == 0) || ltb (s.read_buffer_pos - read_pos) len
    then ((if ltb read_buffer_size len then too_big else stopped read_pos), [])
    else let (cut, es) = rest len in (cut, deliver (take len (drop read_pos s.read_buffer)) ∷ es)

-- The `while` loop. The first argument bounds the rounds: each takes a byte at least.
unfoldable pub cut_packages : Conn → Socket → ℕ → ℕ → Cut × List Effect
cut_packages c s zero read_pos = (stopped read_pos, [])
cut_packages c s (suc fuel) read_pos = elim (ltb read_pos s.read_buffer_pos && s.has_connection) [
  | true ↦
      on_package s read_pos (c.process_package (view_at s read_pos))
        (λ len. cut_packages c s fuel (read_pos + len))
  | false ↦ (stopped read_pos, [])
]

-- The lines behind the loop: what is left moves to the front.
unfoldable pub keep_rest : Socket → ℕ → Socket
keep_rest s read_pos = record s {
  read_buffer =
      if ltb read_pos s.read_buffer_pos
      then copy_to s.read_buffer 0
          (take (s.read_buffer_pos - read_pos) (drop read_pos s.read_buffer))
      else s.read_buffer;
  read_buffer_pos = s.read_buffer_pos - read_pos;
}

-- The two ends of `process_data`.
abbrev pub end_round : Conn → Socket → Cut × List Effect → Step
end_round c s (stopped read_pos, es) = (keep_rest s read_pos, es)
end_round c s (too_big, es) = (s, es) then do_close c

unfoldable pub process_data : Conn → Socket → ℕ → Step
unfolding cut_packages keep_rest do_close
process_data c s nread =
    let s' = record s { read_buffer_pos = s.read_buffer_pos + nread } in
    end_round c s' (cut_packages c s' (suc s'.read_buffer_pos) 0)

-- `do_read` with room left in the buffer, and without.
unfoldable pub do_read : Conn → Socket → Step
unfolding process_data do_close
do_read c s =
    if s.sock_open
    then if ltb s.read_buffer_pos read_buffer_size
      then (s, start_read (read_buffer_size - s.read_buffer_pos) ∷ [])
      else process_data c s 0
    then (λ t. if leb read_buffer_size t.read_buffer_pos then do_close c t else (t, []))
    else (s, [])

-- The handler of `async_read_some`: asio has put the bytes behind those that wait.
unfoldable pub on_read : Conn → Socket → List ℕ → Step
unfolding process_data do_read
on_read c s bytes =
    process_data c (record s { read_buffer = copy_to s.read_buffer s.read_buffer_pos bytes })
      (length bytes)
    then do_read c

unfoldable pub on_read_error : Conn → Socket → Step
unfolding do_close
on_read_error c s = do_close c (record s { cache_buffer = [] })

unfoldable pub init_read : Conn → Socket → Step
unfolding do_read
init_read c s =
    if s.has_connection
    then (record s { status = socket_open }, event evt_connect ∷ [])
    then do_read c
    else (s, [])

-- `connect` once the address is resolved: the old socket is closed, a new one is opened by asio.
unfoldable pub connect : Socket → Step
connect s =
    (record s { status = socket_connecting; sock_open = true }, close_sock ∷ start_connect ∷ [])

-- The handler of `async_connect`.
unfoldable pub on_connected : Conn → Socket → Step
unfolding init_read
on_connected c s = init_read c s

unfoldable pub on_connect_error : Socket → Step
on_connect_error s = (record s { status = socket_closed; sock_open = false }, close_sock ∷ [])
