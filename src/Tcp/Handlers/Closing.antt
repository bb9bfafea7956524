-- ===== src/Tcp/Handlers/Closing.antt =====
-- The task of `close` and the protocol.
use knet.Base.{
  ◌≡◌, refl, sym, ◌∙◌, inl, inr, false, [], ◌∷◌, if◌then◌else◌, leb, ◌==◌, length, Bool-cases,
  if_true, if_false, subst,
}
use knet.Event.{evt_disconnect}
use knet.Tcp.Socket.{
  rank, socket_closing, Socket, Conn, Step, event, ◌then◌, do_async_write, finish_close, close_task,
}
use knet.Tcp.Protocol.{attached, phase_of, Follows, then_at, FollowAll}
use knet.Tcp.Handlers.{
  nothing, write_kept, do_async_write-Follows, finish_close-Follows, closed_over,
}

module _ (c : Conn) (stays : c.need_reconnect ≡ false) where
  -- The end of `close_task`, once the last write is started.
  abbrev tell : Socket → Step
  tell t = (t, if leb (rank t.status) 4 then event evt_disconnect ∷ [] else [])

  pub tell-Follows :
      (t : Socket) → t.status ≡ socket_closing → Follows attached (tell t then finish_close c)
  tell-Follows t e =
      let f = finish_close-Follows c stays (record t { status = socket_closing }) in
      rw e (record { heard = f.heard; status_ok = f.status_ok })

  -- The last write, from a socket that is closing.
  abbrev last : Socket → Step
  last s = if length s.send_buffer == 0 then (s, []) else do_async_write s

  pub last-Follows : FollowAll last
  last-Follows s ok = elim (Bool-cases (length s.send_buffer == 0)) [
    | inl e ↦ subst (Follows (phase_of s)) (sym (if_true _ _ e)) (nothing s ok)
    | inr e ↦
        subst (Follows (phase_of s)) (sym (if_false _ _ e)) (do_async_write-Follows c stays s ok)
  ]

  last_kept :
      (s : Socket) → ((last s).0.status ≡ s.status) × ((last s).0.has_connection ≡ s.has_connection)
  last_kept s = elim (Bool-cases (length s.send_buffer == 0)) [
    | inl e ↦ rw e (refl, refl)
    | inr e ↦ rw e (write_kept s)
  ]

  pub close_task-Follows : FollowAll (close_task c)
  unfolding close_task
  close_task-Follows s ok = elim (Bool-cases s.has_connection) [
    | inr h ↦ rw h (record { heard = closed_over c stays s; status_ok = refl })
    | inl h ↦
        let s' = record s { status = socket_closing } in
        let kept = last_kept s' in
        subst (Follows (phase_of s)) (sym (if_true _ _ h)) (
          then_at (λ t. tell t then finish_close c) (last-Follows s' refl)
            (subst (λ p. Follows p (tell (last s').0 then finish_close c))
              (sym (if_true _ _ (kept.1 ∙ h))) (tell-Follows (last s').0 kept.0)))
  ]
