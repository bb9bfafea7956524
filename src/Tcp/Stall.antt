-- ===== src/Tcp/Stall.antt =====
-- The flag `is_writting` after a failed write (include/tcp/asio/tcp_socket.hpp).
use knet.Base.{
  ℕ, zero, suc, ◌+◌, ◌-◌, ◌≡◌, refl, sym, subst, ◌∙◌, inl, inr, Bool, true, false, ◌&&◌, ◌||◌, List,
  [], ◌∷◌, ◌++◌, arith, if◌then◌else◌, ltb, leb, ◌==◌, length, copy_to, Bool-cases, if_true, ℤ, pos,
  negsuc,
}
use knet.Event.{evt_connect}
use knet.Tcp.Socket.{
  Socket, Conn, Step, Effect, event, deliver, released, start_read, start_write, start_connect,
  close_sock, ◌then◌, socket_open, send_task, msend, do_close, read_buffer_size, on_write_error,
}
use knet.Tcp.Socket.Send.{msend_keeps}
use knet.Tcp.Socket.Flow.{writes_of}
use knet.Tcp.Reading.{
  Cut, stopped, too_big, end_round, view_at, on_package, cut_packages, keep_rest, process_data,
  do_read, on_read, on_read_error, init_read, connect, on_connected, on_connect_error,
}
use knet.Tcp.Reading.Framing.{cut_stop, cut_more}
use knet.Tcp.Lifetime.{
  Happening, sends, writes, write_fails, closes, read_fails, begins_reading, connects, connected,
  connect_fails, reads, submits, history,
}

-- All that can happen but the end of a write and `close`.
abbrev pub calm : List Happening → Bool
calm [] = true
calm (writes ∷ hs) = false
calm (write_fails ∷ hs) = false
calm (closes ∷ hs) = false
calm (h ∷ hs) = calm hs

-- The step starts no write and leaves the flag set.
pub record Stuck (r : Step) : Type 0 where
  pub no_writes : writes_of r.1 ≡ 0
  pub flag : r.0.is_writing ≡ true

writes_of-append : (es fs : List Effect) → writes_of (es ++ fs) ≡ writes_of es + writes_of fs
writes_of-append [] fs = omega arith
writes_of-append (start_write b ∷ es) fs = omega (arith, writes_of-append es fs)
writes_of-append (event e ∷ es) fs = writes_of-append es fs
writes_of-append (deliver b ∷ es) fs = writes_of-append es fs
writes_of-append (released ∷ es) fs = writes_of-append es fs
writes_of-append (start_read n ∷ es) fs = writes_of-append es fs
writes_of-append (start_connect ∷ es) fs = writes_of-append es fs
writes_of-append (close_sock ∷ es) fs = writes_of-append es fs

abbrev StickAll : (Socket → Step) → Type 0
StickAll f = (t : Socket) → t.is_writing ≡ true → Stuck (f t)

then-Stuck : {r : Step} (f : Socket → Step) → Stuck r → StickAll f → Stuck (r then f)
then-Stuck {r} f a b =
    let b' = b r.0 a.flag in
    record {
      no_writes = omega (arith, writes_of-append r.1 (f r.0).1, a.no_writes, b'.no_writes);
      flag = b'.flag;
    }

do_close-Stuck : (c : Conn) → StickAll (do_close c)
unfolding do_close
do_close-Stuck c s w = record { no_writes = ground arith; flag = ground arith }

package_quiet :
    (s : Socket) (at : ℕ) (len : ℤ) (rest : ℕ → Cut × List Effect)
    → ((n : ℕ) → writes_of (rest n).1 ≡ 0)
    → writes_of (on_package s at len rest).1 ≡ 0
package_quiet s at (negsuc n) rest h = refl
package_quiet s at (pos len) rest h =
    elim (Bool-cases ((len == 0) || ltb (s.read_buffer_pos - at) len)) [
      | inl e ↦ rw e refl
      | inr e ↦ rw e (h len)
    ]

cut_quiet : (c : Conn) (s : Socket) (fuel at : ℕ) → writes_of (cut_packages c s fuel at).1 ≡ 0
unfolding cut_packages
cut_quiet c s zero at = refl
cut_quiet c s (suc fuel) at = elim (Bool-cases (ltb at s.read_buffer_pos && s.has_connection)) [
  | inr e ↦ rw (cut_stop c s fuel at e) refl
  | inl e ↦ rw (cut_more c s fuel at e) (
      package_quiet s at (c.process_package (view_at s at))
        (λ len. cut_packages c s fuel (at + len)) (λ n. cut_quiet c s fuel (at + n)))
]

end_round-Stuck :
    (c : Conn) (s : Socket) (r : Cut × List Effect)
    → s.is_writing ≡ true
    → writes_of r.1 ≡ 0
    → Stuck (end_round c s r)
unfolding keep_rest
end_round-Stuck c s (stopped at, es) w h = record { no_writes = h; flag = w }
end_round-Stuck c s (too_big, es) w h =
    then-Stuck (do_close c) (record { no_writes = h; flag = w }) (do_close-Stuck c)

process_data-Stuck : (c : Conn) (n : ℕ) → StickAll (λ s. process_data c s n)
unfolding process_data
process_data-Stuck c n s w =
    let s' = record s { read_buffer_pos = s.read_buffer_pos + n } in
    end_round-Stuck c s' (cut_packages c s' (suc s'.read_buffer_pos) 0) w
      (cut_quiet c s' (suc s'.read_buffer_pos) 0)

-- A test with a stuck step on both sides.
either-Stuck : (b : Bool) {x y : Step} → Stuck x → Stuck y → Stuck (if b then x else y)
either-Stuck true u v = u
either-Stuck false u v = v

rest-Stuck : (s : Socket) → s.is_writing ≡ true → Stuck (s, [])
rest-Stuck s w = record { no_writes = refl; flag = w }

do_read-Stuck : (c : Conn) → StickAll (do_read c)
unfolding do_read
do_read-Stuck c s w =
    either-Stuck s.sock_open
      (either-Stuck (ltb s.read_buffer_pos read_buffer_size) (record { no_writes = refl; flag = w })
        (then-Stuck (λ t. if leb read_buffer_size t.read_buffer_pos then do_close c t else (t, []))
          (process_data-Stuck c 0 s w)
          (λ t w'.
            either-Stuck (leb read_buffer_size t.read_buffer_pos) (do_close-Stuck c t w')
              (rest-Stuck t w'))))
      (rest-Stuck s w)

on_read-Stuck : (c : Conn) (bytes : List ℕ) → StickAll (λ s. on_read c s bytes)
unfolding on_read
on_read-Stuck c bytes s w =
    then-Stuck (do_read c)
      (process_data-Stuck c (length bytes)
        (record s { read_buffer = copy_to s.read_buffer s.read_buffer_pos bytes }) w)
      (do_read-Stuck c)

init_read-Stuck : (c : Conn) → StickAll (init_read c)
unfolding init_read
init_read-Stuck c s w =
    either-Stuck s.has_connection
      (then-Stuck {r = (record s { status = socket_open }, event evt_connect ∷ [])} (do_read c)
        (record { no_writes = refl; flag = w }) (do_read-Stuck c))
      (rest-Stuck s w)

history-Stuck :
    (c : Conn) (hs : List Happening) (s : Socket)
    → calm hs ≡ true
    → s.is_writing ≡ true
    → Stuck (history c hs s)
unfolding history send_task on_read_error connect on_connected on_connect_error
history-Stuck c [] s k w = rest-Stuck s w
history-Stuck c (sends ∷ hs) s k w =
    then-Stuck (history c hs) (subst Stuck (sym (if_true _ _ w)) (rest-Stuck s w))
      (λ t. history-Stuck c hs t k)
history-Stuck c (writes ∷ hs) s k w = absurd (cc k)
history-Stuck c (write_fails ∷ hs) s k w = absurd (cc k)
history-Stuck c (closes ∷ hs) s k w = absurd (cc k)
history-Stuck c (read_fails ∷ hs) s k w =
    then-Stuck (history c hs) (do_close-Stuck c (record s { cache_buffer = [] }) w)
      (λ t. history-Stuck c hs t k)
history-Stuck c (begins_reading ∷ hs) s k w =
    then-Stuck (history c hs) (init_read-Stuck c s w) (λ t. history-Stuck c hs t k)
history-Stuck c (connects ∷ hs) s k w =
    then-Stuck {r = connect s} (history c hs) (record { no_writes = refl; flag = w })
      (λ t. history-Stuck c hs t k)
history-Stuck c (connected ∷ hs) s k w =
    then-Stuck (history c hs) (init_read-Stuck c s w) (λ t. history-Stuck c hs t k)
history-Stuck c (connect_fails ∷ hs) s k w =
    then-Stuck {r = on_connect_error s} (history c hs) (record { no_writes = refl; flag = w })
      (λ t. history-Stuck c hs t k)
history-Stuck c (reads bytes ∷ hs) s k w =
    then-Stuck (history c hs) (on_read-Stuck c bytes s w) (λ t. history-Stuck c hs t k)
history-Stuck c (submits parts ∷ hs) s k w =
    then-Stuck {r = ((msend s parts).1, [])} (history c hs)
      (record { no_writes = refl; flag = (msend_keeps s parts).2 ∙ w })
      (λ t. history-Stuck c hs t k)

-- Once a write has failed, with or without a reconnect, no sends, reads, connects and connections made
-- afterwards start another write: the flag of the failed write is never taken back.
pub on_write_error-Stuck :
    (c : Conn) (hs : List Happening) (s : Socket)
    → s.is_writing ≡ true
    → calm hs ≡ true
    → writes_of (history c hs (on_write_error c s).0).1 ≡ 0
unfolding on_write_error
on_write_error-Stuck c hs s w k =
    (history-Stuck c hs (on_write_error c s).0 k
      (do_close-Stuck c (record s { cache_buffer = [] }) w).flag).no_writes
