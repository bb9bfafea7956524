-- ===== src/Kcp/Life/Consistent.antt =====
-- What the status of a connection says of its control block, after any operations.
use knet.Base.{
  ℕ, zero, suc, ◌+◌, ◌-◌, ◌≡◌, ◌≢◌, refl, subst, ◌∙◌, ◌&&◌, Option, none, some, List, [], ◌∷◌, ℤ,
  if_split, ltb, ◌==◌, length, take, set,
}
use knet.Kcp.Message.{msg_of}
use knet.Kcp.Ikcp.{Ikcp, IkcpLaws}
use knet.Kcp.Connection.{
  ConnectionStatus, rank, KcpConnection, Step, disconnect, update_by, send_by, flush_by, write_data,
}
use knet.Utils.LoopBuffer.{read}
use knet.Kcp.Control.{check_control_message}
use knet.Kcp.Receive.{
  Drained, with_message, after_recv, receive_round, drain, drained, after_input, receive_by,
  handle_receive, on_received, max_message_length, ikcp_cmd_ack,
}
use knet.Kcp.Life.{
  Operation, listening, connecting, sending, sending_parts, updating, checking_listen,
  checking_connect, disconnecting, goodbye_sent, releasing, receiving, datagram_sent, operate,
  operate_all,
}
use knet.Kcp.Life.Fits.{
  Fits, IsConsistent, Fits-open, Fits-closing, After, release-IsConsistent, control_in-IsConsistent,
}

module _ (ikcp : Ikcp) (laws : IkcpLaws ikcp) where
  open ikcp use {Control}

  -- The loop keeps the conversation.
  abbrev Keeps : ℕ → Drained ikcp → Type 0
  Keeps n none = Unit {0}
  Keeps n (some (k, es)) = laws.conv k ≡ n

  with_message-Keeps :
      (n : ℕ) (bytes : List ℕ) (r : Drained ikcp) → Keeps n r → Keeps n (with_message ikcp bytes r)
  with_message-Keeps n bytes none e = e
  with_message-Keeps n bytes (some (k, es)) e = e

  after_recv-Keeps :
      (n : ℕ) (k : Control) (got : Option (List ℕ)) (next : Control → Drained ikcp)
      → laws.conv k ≡ n
      → Keeps n (next k)
      → Keeps n (after_recv ikcp k got next)
  after_recv-Keeps n k none next e g = e
  after_recv-Keeps n k (some bytes) next e g =
      if_split (Keeps n) (length bytes == 0) _ _ (λ _. e) (λ _. with_message-Keeps n bytes _ g)

  receive_round-Keeps :
      (n : ℕ) (size_ : Option ℕ) (k : Control) (next : ℕ → Control → Drained ikcp)
      → laws.conv k ≡ n
      → ((len : ℕ) (k' : Control) → laws.conv k' ≡ n → Keeps n (next len k'))
      → Keeps n (receive_round ikcp size_ k next)
  receive_round-Keeps n none k next e g = e
  receive_round-Keeps n (some zero) k next e g = e
  receive_round-Keeps n (some (suc len)) k next e g =
      let (k', got) = ikcp.recv k max_message_length in
      let e' : laws.conv k' ≡ n = laws.conv_recv k max_message_length ∙ e in
      after_recv-Keeps n k' got (next (suc len)) e' (g (suc len) k' e')

  drain-Keeps :
      (fuel data_len recv_len n : ℕ) (k : Control)
      → laws.conv k ≡ n
      → Keeps n (drain ikcp fuel data_len recv_len k)
  unfolding drain
  drain-Keeps zero data_len recv_len n k e = tt
  drain-Keeps (suc fuel) data_len recv_len n k e =
      if_split (Keeps n) (ltb recv_len data_len) _ _
        (λ _.
          receive_round-Keeps n (ikcp.peeksize k) k _ e
            (λ len k' e'. drain-Keeps fuel data_len (recv_len + len) n k' e'))
        (λ _. e)

  drained-IsConsistent :
      (c : KcpConnection Control) (r : Drained ikcp)
      → (IsConsistent ikcp laws) c
      → rank c.conn_status ≢ 4
      → Keeps c.cid r
      → (After ikcp laws) (drained ikcp c r)
  drained-IsConsistent c none f live e = f
  drained-IsConsistent c (some (k, es)) f live e = (e, live)

  after_input-IsConsistent :
      (data_len : ℕ) (c : KcpConnection Control) (k : Control) (cmd : Option ℕ)
      → (IsConsistent ikcp laws) c
      → rank c.conn_status ≢ 4
      → laws.conv k ≡ c.cid
      → (After ikcp laws) (after_input ikcp data_len c k cmd)
  after_input-IsConsistent data_len c k none f live e =
      drained-IsConsistent c _ f live (drain-Keeps (suc data_len) data_len 0 c.cid k e)
  after_input-IsConsistent data_len c k (some cmd) f live e =
      if_split (After ikcp laws) (cmd == ikcp_cmd_ack) _ _ (λ _. (e, live))
        (λ _. drained-IsConsistent c _ f live (drain-Keeps (suc data_len) data_len 0 c.cid k e))

  receive_by-IsConsistent :
      (o : Option Control) (d : List ℕ) (c : KcpConnection Control)
      → c.kcp ≡ o
      → (IsConsistent ikcp laws) c
      → (After ikcp laws) (receive_by ikcp o d c)
  receive_by-IsConsistent none d c e f = f
  receive_by-IsConsistent (some k) d c e f =
      let (same, live) = subst ((Fits ikcp laws) c.conn_status c.cid) e f in
      after_input-IsConsistent (length d) c (ikcp.input k d).0 (ikcp.input k d).1 f live
        (laws.conv_input k d ∙ same)

  on_received-IsConsistent :
      (now tid n : ℕ) (buffer : List ℕ) (c : KcpConnection Control)
      → (IsConsistent ikcp laws) c
      → (After ikcp laws) (on_received ikcp now tid n buffer c)
  unfolding on_received check_control_message handle_receive
  on_received-IsConsistent now tid n buffer c f =
      let b = set buffer n 0 in
      let c0 = record c { last_msg_time = now } in
      let checked = check_control_message ikcp tid b c0 in
      let g = (control_in-IsConsistent ikcp laws) c.conn_status tid (msg_of b) c0 f in
      if_split (After ikcp laws) checked.0 _ _ (λ _. g)
        (λ _. receive_by-IsConsistent checked.1.0.kcp (take n b) checked.1.0 refl g)

  blocks-IsConsistent :
      (s : ConnectionStatus) (n : ℕ) (k : Control) (d : List ℕ)
      → (Fits ikcp laws) s n (some k)
      → (Fits ikcp laws) s n (some (ikcp.send k d).0)
  blocks-IsConsistent s n k d (e, live) = (laws.conv_send k d ∙ e, live)

  send_by-IsConsistent :
      (o : Option Control) (d : List ℕ) (c : KcpConnection Control)
      → c.kcp ≡ o
      → (IsConsistent ikcp laws) c
      → (After ikcp laws) (send_by ikcp o d c).1
  send_by-IsConsistent none d c e f = f
  send_by-IsConsistent (some k) d c e f =
      blocks-IsConsistent c.conn_status c.cid k d (subst ((Fits ikcp laws) c.conn_status c.cid) e f)

  flush_by-IsConsistent :
      (o : Option Control) (block : ℕ × List ℕ) (c : KcpConnection Control)
      → c.kcp ≡ o
      → (IsConsistent ikcp laws) c
      → (After ikcp laws) (flush_by ikcp o block c).1
  flush_by-IsConsistent none block c e f = f
  flush_by-IsConsistent (some k) block c e f =
      if_split (λ (r : ℤ × Step Control). (After ikcp laws) r.1) (block.0 == 0) _ _ (λ _. f)
        (λ _.
          blocks-IsConsistent c.conn_status c.cid k block.1
            (subst ((Fits ikcp laws) c.conn_status c.cid) e f))

  update_by-IsConsistent :
      (o : Option Control) (now : ℕ) (c : KcpConnection Control)
      → c.kcp ≡ o
      → (IsConsistent ikcp laws) c
      → (After ikcp laws) (update_by ikcp o now c)
  update_by-IsConsistent none now c e f = f
  update_by-IsConsistent (some k) now c e f =
      let (same, live) = subst ((Fits ikcp laws) c.conn_status c.cid) e f in
      if_split (After ikcp laws) (rank c.conn_status == 2) _ _
        (λ _. (laws.conv_update k now ∙ same, live)) (λ _. f)

  disconnect-IsConsistent :
      (c : KcpConnection Control) → (IsConsistent ikcp laws) c → (After ikcp laws) (disconnect c).1
  unfolding disconnect
  disconnect-IsConsistent c f =
      if_split (λ (r : ℤ × Step Control). (After ikcp laws) r.1)
        (c.kcp_sock && ltb (rank c.conn_status) 3) _ _
        (λ _. (Fits-closing ikcp laws) c.conn_status c.cid c.kcp f) (λ _. f)

  operate-IsConsistent :
      (o : Operation) (c : KcpConnection Control)
      → (IsConsistent ikcp laws) c
      → (After ikcp laws) (operate ikcp o c)
  unfolding operate
  operate-IsConsistent (listening sock tid) c f =
      if_split (After ikcp laws) sock _ _ (λ _. (Fits-open ikcp laws) c.conn_status c.cid c.kcp f)
        (λ _. (Fits-open ikcp laws) c.conn_status c.cid c.kcp f)
  operate-IsConsistent (connecting reconn tid) c f =
      (Fits-open ikcp laws) c.conn_status c.cid c.kcp f
  operate-IsConsistent (sending d) c f =
      if_split (λ (r : Option ℕ × Step Control). (After ikcp laws) r.1) (rank c.conn_status == 2) _
        _ (λ _. send_by-IsConsistent c.kcp d c refl f) (λ _. f)
  operate-IsConsistent (sending_parts parts) c f =
      let c' = record c { send_buffer = write_data ([] ∷ parts) c.send_buffer } in
      if_split (λ (r : ℤ × Step Control). (After ikcp laws) r.1) (rank c.conn_status == 2) _ _
        (λ _. flush_by-IsConsistent c.kcp (read c'.send_buffer) c' refl f) (λ _. f)
  operate-IsConsistent (updating now) c f = update_by-IsConsistent c.kcp now c refl f
  operate-IsConsistent (checking_listen now) c f =
      if_split (After ikcp laws) (ltb 3000 (now - c.last_msg_time)) _ _
        (λ _. (release-IsConsistent ikcp laws) c f) (λ _. f)
  operate-IsConsistent (checking_connect now) c f =
      if_split (After ikcp laws) (ltb 3000 (now - c.last_msg_time)) _ _
        (λ _.
          if_split (After ikcp laws) c.reconnect_flag _ _ (λ _. f)
            (λ _. (release-IsConsistent ikcp laws) c f))
        (λ _. f)
  operate-IsConsistent disconnecting c f = disconnect-IsConsistent c f
  operate-IsConsistent goodbye_sent c f = (release-IsConsistent ikcp laws) c f
  operate-IsConsistent releasing c f = (release-IsConsistent ikcp laws) c f
  operate-IsConsistent (datagram_sent ok) c f = f
  operate-IsConsistent (receiving now tid n buffer) c f =
      on_received-IsConsistent now tid n buffer c f

  -- Whatever operations are run, in any order, on a connection whose control block is for its id, that
  -- has one when it is ready and none when it is closed: so it is afterwards.
  pub operate_all-IsConsistent :
      (os : List Operation) (c : KcpConnection Control)
      → (IsConsistent ikcp laws) c
      → (IsConsistent ikcp laws) (operate_all ikcp os c).0
  operate_all-IsConsistent [] c f = f
  operate_all-IsConsistent (o ∷ os) c f =
      operate_all-IsConsistent os (operate ikcp o c).0 (operate-IsConsistent o c f)
