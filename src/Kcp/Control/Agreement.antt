-- ===== src/Kcp/Control/Agreement.antt =====
-- Two connections that exchange their control messages.
use knet.Base.{
  ℕ, ◌^◌, ◌<◌, ◌≡◌, ◌≢◌, refl, sym, ap, subst, ◌∙◌, Bool, true, some, List, [], ◌∷◌, ◌++◌, arith,
}
use knet.Kcp.Message.{
  KcpMsg, msg_bytes, msg_of, msg_of-msg_bytes, kcp_shakehand_request, kcp_shakehand_response,
}
use knet.Kcp.Ikcp.{Ikcp}
use knet.Kcp.Connection.{
  ConnectionStatus, conn_open, conn_kcp_ready, KcpConnection, KcpEffect, sent, Step, connect, send,
}
use knet.Kcp.Control.{
  request_on_open, response_on_open, message_on_ready, control_in, check_control_message,
}

-- The control messages that go out.
abbrev pub messages : List KcpEffect → List KcpMsg
messages [] = []
messages (sent m ∷ es) = m ∷ messages es
messages (e ∷ es) = messages es

abbrev pub request : ℕ → KcpMsg
request n = record { conv = n; cmd = kcp_shakehand_request }

abbrev pub response : ℕ → KcpMsg
response n = record { conv = n; cmd = kcp_shakehand_response }

module _ (ikcp : Ikcp) where
  open ikcp use {Control}

  -- Ready with the conversation `n`.
  pub record IsUp (n : ℕ) (c : KcpConnection Control) : Type 0 where
    pub ready : c.conn_status ≡ conn_kcp_ready
    pub id : c.cid ≡ n
    pub block : c.kcp ≡ some (ikcp.create n)

  -- A message of the other side in the buffer, with any bytes behind it.
  read_message :
      (tid : ℕ) (m : KcpMsg) (rest : List ℕ) (c : KcpConnection Control) (s : ConnectionStatus)
      → m.conv < 2 ^ 32
      → c.conn_status ≡ s
      → check_control_message ikcp tid (msg_bytes m ++ rest) c ≡ control_in ikcp s tid m c
  unfolding check_control_message
  read_message tid m rest c s small e =
      ap (λ t. control_in ikcp t tid (msg_of (msg_bytes m ++ rest)) c) e
      ∙ ap (λ n. control_in ikcp s tid n c) (msg_of-msg_bytes m rest small)

  request_answered :
      (tid n : ℕ) (c : KcpConnection Control)
      → n ≢ 0
      → c.kcp_sock ≡ true
      → IsUp n (request_on_open ikcp tid n c).0
        × (messages (request_on_open ikcp tid n c).1 ≡ response n ∷ [])
  unfolding request_on_open
  request_answered tid n c nonzero sock = ground arith

  -- A request with an id, at an open connection.
  answer :
      (tid n : ℕ) (rest : List ℕ) (c : KcpConnection Control)
      → n < 2 ^ 32
      → n ≢ 0
      → c.conn_status ≡ conn_open
      → c.kcp_sock ≡ true
      → IsUp n (check_control_message ikcp tid (msg_bytes (request n) ++ rest) c).1.0
        × (messages (check_control_message ikcp tid (msg_bytes (request n) ++ rest) c).1.1
            ≡ response n ∷ [])
  unfolding control_in
  answer tid n rest c small nonzero open_ sock =
      subst (λ (r : Bool × Step Control). IsUp n r.1.0 × (messages r.1.1 ≡ response n ∷ []))
        (sym (read_message tid (request n) rest c conn_open small open_))
        (request_answered tid n c nonzero sock)

  response_taken :
      (tid n : ℕ) (c : KcpConnection Control)
      → n ≢ 0
      → c.cid ≡ n
      → IsUp n (response_on_open ikcp tid n c).0
  unfolding response_on_open
  response_taken tid n c nonzero e = ground arith

  -- The answer to its own id, at an open connection.
  taken :
      (tid n : ℕ) (rest : List ℕ) (c : KcpConnection Control)
      → n < 2 ^ 32
      → n ≢ 0
      → c.conn_status ≡ conn_open
      → c.cid ≡ n
      → IsUp n (check_control_message ikcp tid (msg_bytes (response n) ++ rest) c).1.0
  unfolding control_in
  taken tid n rest c small nonzero open_ e =
      subst (λ (r : Bool × Step Control). IsUp n r.1.0)
        (sym (read_message tid (response n) rest c conn_open small open_))
        (response_taken tid n c nonzero e)

  on_ready-IsUp :
      (tid n : ℕ) (m : KcpMsg) (c : KcpConnection Control)
      → n ≢ 0
      → IsUp n c
      → IsUp n (message_on_ready ikcp tid m c).1.0
  unfolding message_on_ready
  on_ready-IsUp tid n m c nonzero up = ground (arith, up.ready, up.id, up.block)

  -- What lies in the buffer does not matter.
  check_control_message-IsUp :
      (tid n : ℕ) (buffer : List ℕ) (c : KcpConnection Control)
      → n ≢ 0
      → IsUp n c
      → IsUp n (check_control_message ikcp tid buffer c).1.0
  unfolding check_control_message control_in
  check_control_message-IsUp tid n buffer c nonzero up =
      subst (λ s. IsUp n (control_in ikcp s tid (msg_of buffer) c).1.0) (sym up.ready)
        (on_ready-IsUp tid n (msg_of buffer) c nonzero up)

  -- Buffers that come in one after the other, each with the id of a timer.
  abbrev pub absorb : List (ℕ × List ℕ) → KcpConnection Control → KcpConnection Control
  absorb [] c = c
  absorb ((tid, buffer) ∷ more) c = absorb more (check_control_message ikcp tid buffer c).1.0

  absorb-IsUp :
      (n : ℕ) (more : List (ℕ × List ℕ)) (c : KcpConnection Control)
      → n ≢ 0
      → IsUp n c
      → IsUp n (absorb more c)
  absorb-IsUp n [] c nonzero up = up
  absorb-IsUp n ((tid, buffer) ∷ more) c nonzero up =
      absorb-IsUp n more (check_control_message ikcp tid buffer c).1.0 nonzero
        (check_control_message-IsUp tid n buffer c nonzero up)

  connect_lem :
      (reconn : Bool) (tid : ℕ) (c : KcpConnection Control)
      → ((connect reconn tid c).0.conn_status ≡ conn_open)
        × ((connect reconn tid c).0.cid ≡ c.cid)
        × (messages (connect reconn tid c).1 ≡ request c.cid ∷ [])
  unfolding connect
  connect_lem reconn tid c = (refl, refl, refl)

  -- A client that connects sends its id n, which is not 0, in one request; an open server that gets it
  -- is ready with n and answers n in one response; the client that gets this is ready with n. Both
  -- have a new control block for n, and stay so whatever control messages and other datagrams they
  -- check afterwards.
  pub shakehand-agrees :
      (reconn : Bool) (tid tid_c tid_s : ℕ) (client server : KcpConnection Control)
      (rest rest' : List ℕ) (later later' : List (ℕ × List ℕ))
      → client.cid < 2 ^ 32
      → client.cid ≢ 0
      → server.conn_status ≡ conn_open
      → server.kcp_sock ≡ true
      → let n = client.cid in
        let (client', es) = connect reconn tid client in
        let (_, (server', es')) =
          check_control_message ikcp tid_s (msg_bytes (request n) ++ rest) server in
        let (_, (client'', _)) =
          check_control_message ikcp tid_c (msg_bytes (response n) ++ rest') client' in
        (messages es ≡ request n ∷ [])
        × (messages es' ≡ response n ∷ [])
        × IsUp n (absorb later server')
        × IsUp n (absorb later' client'')
  shakehand-agrees reconn tid tid_c tid_s client server rest rest' later later' small nonzero open_
        sock =
      let n = client.cid in
      let (status, id, greeting) = connect_lem reconn tid client in
      let (up, reply) = answer tid_s n rest server small nonzero open_ sock in
      (
        greeting,
        reply,
        absorb-IsUp n later _ nonzero up,
        absorb-IsUp n later' _ nonzero
            (taken tid_c n rest' (connect reconn tid client).0 small nonzero status id),
      )

  request_of_send :
      (bytes : List ℕ) (c : KcpConnection Control)
      → c.conn_status ≡ conn_open
      → c.kcp_sock ≡ true
      → messages (send ikcp bytes c).1.1 ≡ request c.cid ∷ []
  unfolding send
  request_of_send bytes c open_ sock = ground arith

  -- Two open connections with different ids that both send before a message of the other arrives: each
  -- sends a request with its own id, and takes the other's. From then on, whatever they check, each is
  -- ready with the id that the other had, and not with the id that the other has.
  pub crossed-requests :
      (tid tid' : ℕ) (x y : KcpConnection Control) (bytes bytes' rest rest' : List ℕ)
      (later later' : List (ℕ × List ℕ))
      → x.conn_status ≡ conn_open
      → y.conn_status ≡ conn_open
      → x.kcp_sock ≡ true
      → y.kcp_sock ≡ true
      → x.cid < 2 ^ 32
      → y.cid < 2 ^ 32
      → x.cid ≢ 0
      → y.cid ≢ 0
      → x.cid ≢ y.cid
      → let (_, (x', _)) = check_control_message ikcp tid (msg_bytes (request y.cid) ++ rest) x in
        let (_, (y', _)) = check_control_message ikcp tid' (msg_bytes (request x.cid) ++ rest') y in
        (messages (send ikcp bytes x).1.1 ≡ request x.cid ∷ [])
        × (messages (send ikcp bytes' y).1.1 ≡ request y.cid ∷ [])
        × IsUp y.cid (absorb later x')
        × IsUp x.cid (absorb later' y')
        × ((absorb later x').cid ≢ (absorb later' y').cid)
  crossed-requests tid tid' x y bytes bytes' rest rest' later later' ox oy sx sy small small' nx ny
        other =
      let up_x = absorb-IsUp y.cid later _ ny (answer tid y.cid rest x small' ny ox sx).0 in
      let up_y = absorb-IsUp x.cid later' _ nx (answer tid' x.cid rest' y small nx oy sy).0 in
      (
        request_of_send bytes x ox sx,
        request_of_send bytes' y oy sy,
        up_x,
        up_y,
        λ e. other (sym up_y.id ∙ sym e ∙ up_x.id),
      )
