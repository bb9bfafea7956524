-- ===== src/Tcp/Connection.antt =====
-- `TcpConnection` of include/tcp/asio/tcp_connection.hpp: its timers, its reconnect state and the chain
-- of handlers. The worker's timers are those of Utils.Timer; a step takes the connection with them.
-- `std::rand()` and what handlers return are arguments.
mod Timers
mod Tests
use knet.Base.{
  ℕ, zero, suc, ◌+◌, ◌*◌, ◌/◌, ◌%◌, Bool, true, false, not, ◌&&◌, ◌||◌, List, [], ◌∷◌, ◌++◌,
  if◌then◌else◌, ltb, ◌==◌, u32_mod,
}
use knet.Event.{NetEvent, evt_release}
use knet.Utils.Timer.{Timer, TimerEffect}
use knet.Utils.Timer

-- `has_socket`, `has_worker` and `has_handler` say that the pointer is set.
pub record Connection : Type 0 where
  pub has_socket : Bool
  pub has_worker : Bool
  pub has_handler : Bool
  pub reconn_flag : Bool
  pub reconn_timer : ℕ
  pub reconn_interval : ℕ
  pub passive_mode : Bool
  pub conn_timers : List ℕ

-- What the connection asks of its handlers and its socket.
pub data ConnEffect : Type 0 where
  user_event : NetEvent → ConnEffect
  own_event : NetEvent → ConnEffect
  user_data : List ℕ → ConnEffect
  own_data : List ℕ → ConnEffect
  socket_connect : ConnEffect
  socket_close : ConnEffect

-- The connection with the timers of its worker.
pub record World : Type 0 where
  pub conn : Connection
  pub timers : Timer

unfoldable pub start_timer : ℕ → Bool → World → ℕ × World
start_timer interval loop w =
    let (tid, step) = Timer.start_timer true interval loop w.timers in
    if w.conn.has_worker
    then (
      tid,
      record {
        conn = record w.conn { conn_timers = w.conn.conn_timers ++ (tid ∷ []) };
        timers = step.0;
      },
    )
    else (0, w)

unfoldable pub stop_timer : ℕ → World → World
stop_timer id w =
    if w.conn.has_worker then record w { timers = (Timer.stop_timer id w.timers).0 } else w

abbrev pub stop_all : List ℕ → World → World
stop_all [] w = w
stop_all (id ∷ ids) w = stop_all ids (stop_timer id w)

unfoldable pub clear_timers : World → World
unfolding stop_timer
clear_timers w =
    let w' = stop_all w.conn.conn_timers w in
    record w' { conn = record w'.conn { conn_timers = [] } }

-- `user` and `own` are what the two handlers return; the result is the last of them.
unfoldable pub process_event : Bool → Bool → NetEvent → Connection → Bool × List ConnEffect
process_event user own evt c =
    let ret = if c.has_handler then user else true in
    let told = if c.has_handler then user_event evt ∷ [] else [] in
    if ret then (own, told ++ (own_event evt ∷ [])) else (ret, told)

unfoldable pub process_data : Bool → Bool → List ℕ → Connection → Bool × List ConnEffect
process_data user own bytes c =
    let ret = if c.has_handler then user else true in
    let told = if c.has_handler then user_data bytes ∷ [] else [] in
    if ret then (own, told ++ (own_data bytes ∷ [])) else (ret, told)

unfoldable pub release : Bool → Bool → World → World × List ConnEffect
unfolding clear_timers process_event
release user own w = (clear_timers w, (process_event user own evt_release w.conn).1)

-- (std::rand()%10 +1) * 100000
abbrev pub rand_time : ℕ → ℕ
rand_time r = (r % 10 + 1) * 100000

-- The delay of the next `enable_reconnect`: half as much again, about 30 seconds at most.
abbrev pub next_interval : ℕ → ℕ → ℕ
next_interval interval rand =
    let grown = interval * 3 / 2 + rand in if ltb 30000000 grown then 30000000 + rand else grown

unfoldable pub enable_reconnect : ℕ → ℕ → World → World
unfolding start_timer
enable_reconnect interval r w =
    let c = w.conn in
    let now =
      if c.reconn_interval == 0 then (interval + rand_time r) % u32_mod else c.reconn_interval in
    let w' = record w { conn = record c { reconn_interval = now } } in
    if c.reconn_flag
    then w'
    else let (tid, w'') =
        start_timer now true (record w' { conn = record w'.conn { reconn_flag = true } }) in
      record w'' {
        conn = record w''.conn {
          reconn_timer = tid;
          reconn_interval = next_interval now (rand_time r);
        };
      }

unfoldable pub disable_reconnect : World → World
unfolding stop_timer
disable_reconnect w =
    let w' = record w { conn = record w.conn { reconn_flag = false } } in
    if ltb 0 w.conn.reconn_timer
    then (let w'' = stop_timer w.conn.reconn_timer w' in
        record w'' { conn = record w''.conn { reconn_timer = 0 } })
    else w'

unfoldable pub need_reconnect : Connection → Bool
need_reconnect c = c.reconn_flag && not c.passive_mode

unfoldable pub connect : Connection → Connection × List ConnEffect
connect c = (record c { passive_mode = false }, socket_connect ∷ [])

-- The handler of the reconnect timer, with what the socket says; it returns true.
unfoldable pub reconnect_tick : Bool → Bool → Connection → Connection × List ConnEffect
unfolding connect
reconnect_tick is_open is_connecting c =
    if c.has_socket && not (is_open || is_connecting) then connect c else (c, [])

unfoldable pub close : Bool → World → World × List ConnEffect
unfolding disable_reconnect
close force w =
    let w' = if force then disable_reconnect w else w in
    (w', if w.conn.has_socket then socket_close ∷ [] else [])
