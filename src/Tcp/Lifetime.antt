-- ===== src/Tcp/Lifetime.antt =====
-- What a connection that does not reconnect is told by its `TcpSocket`, over any sequence of calls,
-- handlers and tasks.
use knet.Base.{ℕ, ◌≡◌, sym, ap, ◌∙◌, true, false, some, List, [], ◌∷◌, if◌then◌else◌}
use knet.Tcp.Socket.{Socket, Conn, Step, ◌then◌, on_written, on_write_error, send_task, close_task}
use knet.Tcp.Reading.{on_read, on_read_error, init_read, connect, on_connected, on_connect_error}
use knet.Tcp.Protocol.{attached, gone, phase_of, settled, Follows, FollowAll, then_all}
use knet.Tcp.Socket.{msend}
use knet.Tcp.Socket.Send.{msend_keeps}
use knet.Tcp.Handlers.{
  nothing, send_task-Follows, on_written-Follows, on_write_error-Follows, on_read_error-Follows,
  on_read-Follows, init_read-Follows, connect-Follows, on_connect_error-Follows,
}
use knet.Tcp.Handlers.Closing.{close_task-Follows}

-- What can happen to a socket: calls of `msend`, the handlers of asio, the posted tasks, and `connect`.
pub data Happening : Type 0 where
  sends writes write_fails closes read_fails begins_reading connects connected connect_fails :
      Happening
  reads : List ℕ → Happening
  submits : List (List ℕ) → Happening

abbrev pub happen : Conn → Happening → Socket → Step
happen c sends s = send_task s
happen c writes s = on_written s
happen c write_fails s = on_write_error c s
happen c closes s = close_task c s
happen c read_fails s = on_read_error c s
happen c begins_reading s = init_read c s
happen c connects s = connect s
happen c connected s = on_connected c s
happen c connect_fails s = on_connect_error s
happen c (reads bytes) s = on_read c s bytes
happen c (submits parts) s = ((msend s parts).1, [])

unfoldable pub history : Conn → List Happening → Socket → Step
history c [] s = (s, [])
history c (h ∷ hs) s = happen c h s then history c hs

msend-Follows : (parts : List (List ℕ)) → FollowAll (λ s. ((msend s parts).1, []))
msend-Follows parts s ok = record {
  heard = ap (λ b. some (if b then attached else gone)) (sym (msend_keeps s parts).1);
  status_ok = ap settled (msend_keeps s parts).0 ∙ ok;
}

happen-Follows : (c : Conn) → c.need_reconnect ≡ false → (h : Happening) → FollowAll (happen c h)
unfolding on_connected
happen-Follows c stays sends s ok = send_task-Follows c stays s ok
happen-Follows c stays writes s ok = on_written-Follows c stays s ok
happen-Follows c stays write_fails s ok = on_write_error-Follows c stays s ok
happen-Follows c stays closes s ok = close_task-Follows c stays s ok
happen-Follows c stays read_fails s ok = on_read_error-Follows c stays s ok
happen-Follows c stays begins_reading s ok = init_read-Follows c stays s ok
happen-Follows c stays connects s ok = connect-Follows c stays s ok
happen-Follows c stays connected s ok = init_read-Follows c stays s ok
happen-Follows c stays connect_fails s ok = on_connect_error-Follows c stays s ok
happen-Follows c stays (reads bytes) s ok = on_read-Follows c stays bytes s ok
happen-Follows c stays (submits parts) s ok = msend-Follows parts s ok

-- A connection that does not reconnect is called by its socket in this order, whatever happens and
-- however often it is closed: events and data, then the disconnect event, then `release`, each once,
-- then nothing. The socket starts in any status but `socket_reconnect`.
pub history-Follows :
    (c : Conn)
    → c.need_reconnect ≡ false
    → (hs : List Happening) (s : Socket) → settled s.status ≡ true
    → Follows (phase_of s) (history c hs s)
unfolding history
history-Follows c stays [] s ok = nothing s ok
history-Follows c stays (h ∷ hs) s ok =
    then_all (history c hs) (happen-Follows c stays h s ok) (history-Follows c stays hs)
