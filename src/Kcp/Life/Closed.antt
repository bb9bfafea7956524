-- ===== src/Kcp/Life/Closed.antt =====
-- A connection that is closed.
use knet.Base.{
  ℕ, ◌-◌, ◌≡◌, refl, sym, ap, ap₂, subst, ◌∙◌, Bool, true, false, ◌&&◌, Option, none, List, [], ◌∷◌,
  ◌++◌, arith, ℤ, if◌then◌else◌, if_true, if_false, if_split, ltb, ◌==◌, take, set,
}
use knet.Event.{event_code, evt_disconnect, evt_send}
use knet.Kcp.Message.{msg_of}
use knet.Kcp.Ikcp.{Ikcp}
use knet.Kcp.Connection.{
  conn_closed, rank, KcpConnection, KcpEffect, sent, datagram, told, handed, timer_started,
  timer_stopped, sock_closed, receiving, Step, tell, shakehand_request, send_heartbeat, release,
  update_by, write_data,
}
use knet.Kcp.Control.{control_in, check_control_message}
use knet.Kcp.Receive.{receive_by, handle_receive, andthen, on_received}
use knet.Kcp.Life.{
  Operation, listening, connecting, sending, sending_parts, updating, checking_listen,
  checking_connect, disconnecting, goodbye_sent, releasing, datagram_sent,
  receiving as receiving_op, operate, operate_all,
}

-- Neither data nor an event other than the disconnect.
abbrev pub quiet : KcpEffect → Bool
quiet (handed bytes) = false
quiet (told evt) = event_code evt == event_code evt_disconnect
quiet (sent m) = true
quiet (datagram bytes) = true
quiet (timer_started id interval) = true
quiet (timer_stopped id) = true
quiet sock_closed = true
quiet receiving = true

-- The others, in their order.
abbrev pub loud : List KcpEffect → List KcpEffect
loud [] = []
loud (e ∷ es) = let rest = loud es in if quiet e then rest else e ∷ rest

loud-append : (es fs : List KcpEffect) → loud (es ++ fs) ≡ loud es ++ loud fs
loud-append [] fs = refl
loud-append (e ∷ es) fs = ground (arith, loud-append es fs)

and_false : (b : Bool) → (b && false) ≡ false
and_false true = refl
and_false false = refl

-- Operations other than `listen` and `connect`, which the listener and the connector call once.
abbrev pub continues : Operation → Bool
continues (listening sock tid) = false
continues (connecting reconn tid) = false
continues _ = true

abbrev pub all_continue : List Operation → Bool
all_continue [] = true
all_continue (o ∷ os) = continues o && all_continue os

abbrev completion : Operation → List KcpEffect
completion (datagram_sent true) = told evt_send ∷ []
completion _ = []

-- One send event for each send that ends without an error.
abbrev pub completions : List Operation → List KcpEffect
completions [] = []
completions (o ∷ os) = completion o ++ completions os

module _ (ikcp : Ikcp) where
  open ikcp use {Control}

  pub record IsClosed (c : KcpConnection Control) : Type 0 where
    pub status : c.conn_status ≡ conn_closed
    pub no_block : c.kcp ≡ none

  abbrev Stays : Step Control → Type 0
  Stays r = IsClosed r.0 × (loud r.1 ≡ [])

  request_quiet : (c : KcpConnection Control) → loud (shakehand_request 0 c) ≡ []
  unfolding shakehand_request
  request_quiet c = ground arith

  heartbeat_quiet : (c : KcpConnection Control) → loud (send_heartbeat c) ≡ []
  unfolding send_heartbeat
  heartbeat_quiet c = ground arith

  release-Stays : (c : KcpConnection Control) → IsClosed c → Stays (release c)
  unfolding release
  release-Stays c e = subst Stays (sym (if_true _ _ (ap (λ s. rank s == 4) e.status))) (e, refl)

  receive_closed :
      (c : KcpConnection Control) (d : List ℕ) → IsClosed c → Stays (handle_receive ikcp d c)
  unfolding handle_receive
  receive_closed c d e = subst (λ o. Stays (receive_by ikcp o d c)) (sym e.no_block) (e, refl)

  control_closed :
      (tid : ℕ) (buffer : List ℕ) (c : KcpConnection Control)
      → IsClosed c
      → Stays (check_control_message ikcp tid buffer c).1
  unfolding check_control_message control_in
  control_closed tid buffer c e =
      subst (λ s. Stays (control_in ikcp s tid (msg_of buffer) c).1) (sym e.status) (e, refl)

  andthen-Stays :
      (r : Step Control) (f : KcpConnection Control → Step Control)
      → Stays r
      → ((c : KcpConnection Control) → IsClosed c → Stays (f c))
      → Stays (andthen ikcp r f)
  andthen-Stays (c, es) f (e, q) g =
      let (e', q') = g c e in (e', loud-append es (f c).1 ∙ ap₂ (λ a b. a ++ b) q q')

  received_closed :
      (now tid n : ℕ) (buffer : List ℕ) (c : KcpConnection Control)
      → IsClosed c
      → Stays (on_received ikcp now tid n buffer c)
  unfolding on_received
  received_closed now tid n buffer c e =
      let b = set buffer n 0 in
      let c0 = record c { last_msg_time = now } in
      let e0 : IsClosed c0 = record { status = e.status; no_block = e.no_block } in
      let checked = check_control_message ikcp tid b c0 in
      let s = control_closed tid b c0 e0 in
      let receive = handle_receive ikcp (take n b) in
      let r = if checked.0 then checked.1 else andthen ikcp checked.1 receive in
      let s' =
        if_split Stays checked.0 checked.1 (andthen ikcp checked.1 receive) (λ _. s)
          (λ _. andthen-Stays checked.1 receive s (λ c' e'. receive_closed c' (take n b) e')) in
      andthen-Stays r (λ c'. (c', receiving ∷ [])) s' (λ c' e'. (e', refl))

  not_ready : (c : KcpConnection Control) → IsClosed c → (rank c.conn_status == 2) ≡ false
  not_ready c e = ap (λ s. rank s == 2) e.status

  not_live :
      (c : KcpConnection Control) → IsClosed c → (c.kcp_sock && ltb (rank c.conn_status) 3) ≡ false
  not_live c e = ap (λ s. c.kcp_sock && ltb (rank s) 3) e.status ∙ and_false c.kcp_sock

  operate_told :
      (o : Operation) (c : KcpConnection Control)
      → IsClosed c
      → continues o ≡ true
      → IsClosed (operate ikcp o c).0 × (loud (operate ikcp o c).1 ≡ completion o)
  unfolding operate
  operate_told (listening sock tid) c e h = cc h
  operate_told (connecting reconn tid) c e h = cc h
  operate_told (sending d) c e h =
      subst (λ (r : Option ℕ × Step Control). Stays r.1) (sym (if_false _ _ (not_ready c e)))
        (e, request_quiet c)
  operate_told (sending_parts parts) c e h =
      let c' = record c { send_buffer = write_data ([] ∷ parts) c.send_buffer } in
      let e' : IsClosed c' = record { status = e.status; no_block = e.no_block } in
      subst (λ (r : ℤ × Step Control). Stays r.1) (sym (if_false _ _ (not_ready c e)))
        (e', request_quiet c')
  operate_told (updating now) c e h =
      subst (λ o. Stays (update_by ikcp o now c)) (sym e.no_block) (e, refl)
  operate_told (checking_listen now) c e h =
      if_split Stays (ltb 3000 (now - c.last_msg_time)) _ _ (λ _. release-Stays c e)
        (λ _. (e, heartbeat_quiet c))
  operate_told (checking_connect now) c e h =
      if_split Stays (ltb 3000 (now - c.last_msg_time)) _ _
        (λ _.
          if_split (λ (r : Step Control). Stays (tell evt_disconnect r)) c.reconnect_flag _ _
            (λ _. (e, refl)) (λ _. release-Stays c e))
        (λ _. (e, heartbeat_quiet c))
  operate_told disconnecting c e h =
      subst (λ (r : ℤ × Step Control). Stays r.1) (sym (if_false _ _ (not_live c e))) (e, refl)
  operate_told goodbye_sent c e h = release-Stays c e
  operate_told releasing c e h = release-Stays c e
  operate_told (receiving_op now tid n buffer) c e h = received_closed now tid n buffer c e
  operate_told (datagram_sent true) c e h = (e, refl)
  operate_told (datagram_sent false) c e h = (e, refl)

  -- A closed connection without a control block stays so whatever operations are run, `listen` and
  -- `connect` excepted, whatever is received, and whichever sends are still under way; its handlers get
  -- no data and no event but the disconnect, and the send event once for each send that ends without
  -- an error.
  pub operate_all-IsClosed :
      (os : List Operation) (c : KcpConnection Control)
      → IsClosed c
      → all_continue os ≡ true
      → IsClosed (operate_all ikcp os c).0 × (loud (operate_all ikcp os c).1 ≡ completions os)
  operate_all-IsClosed [] c e h = (e, refl)
  operate_all-IsClosed (o ∷ os) c e h =
      let (h1, h2) : (continues o ≡ true) × (all_continue os ≡ true) = ground arith in
      let (e', q) = operate_told o c e h1 in
      let (e'', q') = operate_all-IsClosed os (operate ikcp o c).0 e' h2 in
      (
        e'',
        loud-append (operate ikcp o c).1 (operate_all ikcp os (operate ikcp o c).0).1
            ∙ ap₂ (λ a b. a ++ b) q q',
      )
