-- ===== src/Tcp/Handlers.antt =====
-- The handlers of a socket whose connection does not reconnect, and the protocol: the lemmas on each.
pub mod Closing
use knet.Base.{
  ℕ, zero, suc, ◌+◌, ◌≡◌, ◌≢◌, refl, sym, ap, ◌∙◌, inl, inr, Bool, true, false, Option, none, some,
  List, [], ◌∷◌, ◌++◌, arith, if◌then◌else◌, ltb, leb, ◌==◌, length, Bool-cases, copy_to, if_true,
  if_false, subst, ℤ, pos, negsuc, ◌&&◌, ◌||◌, ◌-◌,
}
use knet.Event.{NetEvent, evt_connect, evt_send, evt_disconnect}
use knet.Tcp.Socket.{
  SocketStatus, read_buffer_size, rank, is_closed_or_closing, socket_idle, socket_init,
  socket_connecting, socket_open, socket_closing, socket_reconnect, socket_closed, Socket, Conn,
  Step, Effect, event, deliver, released, start_read, start_write, start_connect, close_sock,
  ◌then◌, do_async_write, on_written, on_write_error, send_task, do_close, drop_connection,
  finish_close, close_task, close_if_open,
}
use knet.Tcp.Reading.Framing.{cut_stop, cut_more}
use knet.Tcp.Reading.{
  Cut, stopped, too_big, end_round, view_at, on_package, cut_packages, keep_rest, process_data,
  do_read, on_read, on_read_error, init_read, connect, on_connected, on_connect_error,
}
use knet.Tcp.Protocol.{
  Phase, attached, told, gone, hear, hear_all, phase_of, settled, Follows, then_at, FollowAll,
  then_all,
}

pub nothing : (s : Socket) → settled s.status ≡ true → Follows (phase_of s) (s, [])
nothing s ok = record { heard = refl; status_ok = ok }

below :
    (st : SocketStatus)
    → settled st ≡ true
    → is_closed_or_closing st ≡ false
    → ltb (rank st) 4 ≡ true
below socket_idle h h' = refl
below socket_init h h' = refl
below socket_connecting h h' = refl
below socket_open h h' = refl
below socket_closing h h' = absurd (cc h')
below socket_reconnect h h' = absurd (cc h)
below socket_closed h h' = absurd (cc h')

pub write_kept :
    (s : Socket)
    → ((do_async_write s).0.status ≡ s.status)
      × ((do_async_write s).0.has_connection ≡ s.has_connection)
unfolding do_async_write
write_kept s = ground arith

pub write_heard : (s : Socket) (p : Phase) → hear_all (some p) (do_async_write s).1 ≡ some p
unfolding do_async_write
write_heard s p = ground arith

-- `on_package` adds a delivery at most.
package_heard :
    (s : Socket) (at : ℕ) (len : ℤ) (rest : ℕ → Cut × List Effect)
    → ((n : ℕ) → hear_all (some attached) (rest n).1 ≡ some attached)
    → hear_all (some attached) (on_package s at len rest).1 ≡ some attached
package_heard s at (negsuc n) rest h = refl
package_heard s at (pos len) rest h =
    elim (Bool-cases ((len == 0) || ltb (s.read_buffer_pos - at) len)) [
      | inl e ↦ rw e refl
      | inr e ↦ rw e (h len)
    ]

cut_live :
    (c : Conn) (s : Socket) (fuel at : ℕ)
    → s.has_connection ≡ true
    → hear_all (some attached) (cut_packages c s fuel at).1 ≡ some attached
unfolding cut_packages
cut_live c s zero at h = refl
cut_live c s (suc fuel) at h = elim (Bool-cases (ltb at s.read_buffer_pos && s.has_connection)) [
  | inr e ↦ rw (cut_stop c s fuel at e) refl
  | inl e ↦ rw (cut_more c s fuel at e) (
      package_heard s at (c.process_package (view_at s at))
        (λ len. cut_packages c s fuel (at + len)) (λ n. cut_live c s fuel (at + n) h))
]

pub cut_heard :
    (c : Conn) (s : Socket) (fuel at : ℕ)
    → hear_all (some (phase_of s)) (cut_packages c s (suc fuel) at).1 ≡ some (phase_of s)
cut_heard c s fuel at = elim (Bool-cases s.has_connection) [
  | inl h ↦
      subst (λ p. hear_all (some p) (cut_packages c s (suc fuel) at).1 ≡ some p)
        (sym (if_true _ _ h)) (cut_live c s (suc fuel) at h)
  | inr h ↦ rw (cut_stop c s fuel at (ground arith)) refl
]

send_heard :
    (s : Socket)
    → hear_all (some (phase_of s)) (if s.has_connection then event evt_send ∷ [] else [])
      ≡ some (phase_of s)
send_heard s = ground arith

module _ (c : Conn) (stays : c.need_reconnect ≡ false) where
  close_told : (s : Socket) → hear_all (some told) (close_if_open s ++ (released ∷ [])) ≡ some gone
  close_told s = ground arith

  pub drop_connection-Follows :
      (s : Socket) → leb (rank s.status) 4 ≡ true → Follows attached (drop_connection c s)
  unfolding drop_connection
  drop_connection-Follows s l = rw (stays, l) (record { heard = close_told s; status_ok = refl })

  pub closed_over : (s : Socket) → hear_all (some gone) (close_if_open s) ≡ some gone
  closed_over s = ground arith

  pub do_close-Follows :
      (s : Socket) → settled s.status ≡ true → Follows (phase_of s) (do_close c s)
  unfolding do_close
  do_close-Follows s ok = elim (Bool-cases (is_closed_or_closing s.status)) [
    | inl over ↦ rw over (nothing s ok)
    | inr live ↦ elim (Bool-cases s.has_connection) [
      | inl h ↦
          rw (live, below s.status ok live, h)
            (drop_connection-Follows (record s { status = socket_closing; has_connection = true })
              refl)
      | inr h ↦ rw (live, h) (record { heard = closed_over s; status_ok = refl })
    ]
  ]

  pub do_async_write-Follows :
      (s : Socket) → settled s.status ≡ true → Follows (phase_of s) (do_async_write s)
  do_async_write-Follows s ok = record {
    heard =
        write_heard s (phase_of s)
        ∙ ap some (sym (ap (λ b. if b then attached else gone) (write_kept s).1));
    status_ok = ap settled (write_kept s).0 ∙ ok;
  }

  pub finish_close-Follows : (s : Socket) → Follows told (finish_close c s)
  unfolding finish_close
  finish_close-Follows s = rw stays (record { heard = close_told s; status_ok = refl })

  pub send_task-Follows : FollowAll send_task
  unfolding send_task
  send_task-Follows s ok = elim (Bool-cases s.is_writing) [
    | inl w ↦ subst (Follows (phase_of s)) (sym (if_true _ _ w)) (nothing s ok)
    | inr w ↦ subst (Follows (phase_of s)) (sym (if_false _ _ w)) (do_async_write-Follows s ok)
  ]

  pub on_written-Follows : FollowAll on_written
  unfolding on_written
  on_written-Follows s ok =
      then_all
        {r = (record s { cache_buffer = [] }, if s.has_connection then event evt_send ∷ [] else [])}
        do_async_write (record { heard = send_heard s; status_ok = ok }) do_async_write-Follows

  pub on_write_error-Follows : FollowAll (on_write_error c)
  unfolding on_write_error
  on_write_error-Follows s ok = do_close-Follows (record s { cache_buffer = [] }) ok

  pub on_read_error-Follows : FollowAll (on_read_error c)
  unfolding on_read_error
  on_read_error-Follows s ok = do_close-Follows (record s { cache_buffer = [] }) ok

  pub end_round-Follows :
      (s : Socket) (r : Cut × List Effect)
      → settled s.status ≡ true
      → hear_all (some (phase_of s)) r.1 ≡ some (phase_of s)
      → Follows (phase_of s) (end_round c s r)
  unfolding keep_rest
  end_round-Follows s (stopped at, es) ok h = record { heard = h; status_ok = ok }
  end_round-Follows s (too_big, es) ok h =
      then_all (do_close c) (record { heard = h; status_ok = ok }) do_close-Follows

  pub process_data-Follows : (n : ℕ) → FollowAll (λ s. process_data c s n)
  unfolding process_data
  process_data-Follows n s ok =
      let s' = record s { read_buffer_pos = s.read_buffer_pos + n } in
      end_round-Follows s' (cut_packages c s' (suc s'.read_buffer_pos) 0) ok
        (cut_heard c s' s'.read_buffer_pos 0)

  full_or_not :
      FollowAll (λ t. if leb read_buffer_size t.read_buffer_pos then do_close c t else (t, []))
  full_or_not t ok = elim (Bool-cases (leb read_buffer_size t.read_buffer_pos)) [
    | inl e ↦ subst (Follows (phase_of t)) (sym (if_true _ _ e)) (do_close-Follows t ok)
    | inr e ↦ subst (Follows (phase_of t)) (sym (if_false _ _ e)) (nothing t ok)
  ]

  reads_on :
      (s : Socket)
      → settled s.status ≡ true
      → Follows (phase_of s) (
          if ltb s.read_buffer_pos read_buffer_size
          then (s, start_read (read_buffer_size - s.read_buffer_pos) ∷ [])
          else process_data c s 0
            then (λ t. if leb read_buffer_size t.read_buffer_pos then do_close c t else (t, [])))
  reads_on s ok = elim (Bool-cases (ltb s.read_buffer_pos read_buffer_size)) [
    | inl e ↦
        subst (Follows (phase_of s)) (sym (if_true _ _ e)) (record { heard = refl; status_ok = ok })
    | inr e ↦ subst (Follows (phase_of s)) (sym (if_false _ _ e)) (
        then_all (λ t. if leb read_buffer_size t.read_buffer_pos then do_close c t else (t, []))
          (process_data-Follows 0 s ok) full_or_not)
  ]

  pub do_read-Follows : FollowAll (do_read c)
  unfolding do_read
  do_read-Follows s ok = elim (Bool-cases s.sock_open) [
    | inr o ↦ subst (Follows (phase_of s)) (sym (if_false _ _ o)) (nothing s ok)
    | inl o ↦ subst (Follows (phase_of s)) (sym (if_true _ _ o)) (reads_on s ok)
  ]

  pub on_read-Follows : (bytes : List ℕ) → FollowAll (λ s. on_read c s bytes)
  unfolding on_read
  on_read-Follows bytes s ok =
      then_all (do_read c)
        (process_data-Follows (length bytes)
          (record s { read_buffer = copy_to s.read_buffer s.read_buffer_pos bytes }) ok)
        do_read-Follows

  pub init_read-Follows : FollowAll (init_read c)
  unfolding init_read
  init_read-Follows s ok = elim (Bool-cases s.has_connection) [
    | inr h ↦ subst (Follows (phase_of s)) (sym (if_false _ _ h)) (nothing s ok)
    | inl h ↦ subst (Follows (phase_of s)) (sym (if_true _ _ h)) (
        then_all {r = (record s { status = socket_open }, event evt_connect ∷ [])} (do_read c)
          (record { heard = rw h refl; status_ok = refl }) do_read-Follows)
  ]

  pub connect-Follows : FollowAll connect
  unfolding connect
  connect-Follows s ok = record { heard = refl; status_ok = refl }

  pub on_connect_error-Follows : FollowAll on_connect_error
  unfolding on_connect_error
  on_connect_error-Follows s ok = record { heard = refl; status_ok = refl }
