-- ===== src/Kcp/Life/Fits.antt =====
-- Connections whose control block fits their status and their id, and the steps of the handshake on them.
use knet.Base.{
  ℕ, ◌≡◌, ◌≢◌, sym, subst, Bool, true, Option, none, some, arith, if◌then◌else◌, if_split, ◌==◌,
}
use knet.Kcp.Message.{KcpMsg}
use knet.Kcp.Ikcp.{Ikcp, IkcpLaws}
use knet.Kcp.Connection.{
  ConnectionStatus, conn_idle, conn_open, conn_kcp_ready, conn_closing, conn_closed, rank,
  KcpConnection, Step, release, init_kcp,
}
use knet.Kcp.Control.{
  adopt, allocate, keep_or_take, request_on_open, response_on_open, request_on_ready,
  response_on_ready, control_in,
}

module _ (ikcp : Ikcp) (laws : IkcpLaws ikcp) where
  open ikcp use {Control}

  -- A control block is for the connection's id, and there is none when it is closed; there is one when
  -- it is ready.
  abbrev pub Fits : ConnectionStatus → ℕ → Option Control → Type 0
  Fits s n none = rank s ≢ 2
  Fits s n (some k) = (laws.conv k ≡ n) × (rank s ≢ 4)

  abbrev pub IsConsistent : KcpConnection Control → Type 0
  IsConsistent c = Fits c.conn_status c.cid c.kcp

  pub Fits-open :
      (s : ConnectionStatus) (n : ℕ) (o : Option Control) → Fits s n o → Fits conn_open n o
  Fits-open s n none f = omega arith
  Fits-open s n (some k) f = (f.0, omega arith)

  pub Fits-closing :
      (s : ConnectionStatus) (n : ℕ) (o : Option Control) → Fits s n o → Fits conn_closing n o
  Fits-closing s n none f = omega arith
  Fits-closing s n (some k) f = (f.0, omega arith)

  -- Of a step, and of a step with a result.
  abbrev pub After : Step Control → Type 0
  After r = IsConsistent r.0

  abbrev AfterControl : Bool × Step Control → Type 0
  AfterControl r = IsConsistent r.1.0

  pub release-IsConsistent : (c : KcpConnection Control) → IsConsistent c → After (release c)
  unfolding release
  release-IsConsistent c f =
      if_split After (rank c.conn_status == 4) _ _ (λ closed. f) (λ live. omega arith)

  init_kcp-IsConsistent : (tid : ℕ) (c : KcpConnection Control) → After (init_kcp ikcp tid c)
  unfolding init_kcp
  init_kcp-IsConsistent tid c = (laws.conv_create c.cid, omega arith)

  adopted_zero :
      (conv : ℕ) (c : KcpConnection Control)
      → ((adopt conv (allocate conv c)).cid == 0) ≡ true
      → c.cid ≡ (adopt conv (allocate conv c)).cid
  adopted_zero conv c h = ground arith

  same_block :
      (conv : ℕ) (c : KcpConnection Control)
      → ((adopt conv (allocate conv c)).kcp ≡ c.kcp)
        × ((adopt conv (allocate conv c)).conn_status ≡ c.conn_status)
  same_block conv c = ground arith

  request_on_open-IsConsistent :
      (tid conv : ℕ) (c : KcpConnection Control)
      → IsConsistent c
      → After (request_on_open ikcp tid conv c)
  unfolding request_on_open
  request_on_open-IsConsistent tid conv c f =
      let c' = adopt conv (allocate conv c) in
      let (blocks, states) = same_block conv c in
      if_split After (c'.cid == 0) _ _
        (λ zero_.
          subst (λ s. Fits s c'.cid c'.kcp) (sym states)
            (subst (λ o. Fits c.conn_status c'.cid o) (sym blocks)
              (subst (λ n. Fits c.conn_status n c.kcp) (adopted_zero conv c zero_) f)))
        (λ some_. init_kcp-IsConsistent tid c')

  request_on_ready-IsConsistent :
      (tid conv : ℕ) (c : KcpConnection Control) → After (request_on_ready ikcp tid conv c)
  unfolding request_on_ready
  request_on_ready-IsConsistent tid conv c =
      init_kcp-IsConsistent tid
        (record (if conv == 0 then c else keep_or_take conv c) { conn_status = conn_open })

  pub control_in-IsConsistent :
      (s : ConnectionStatus) (tid : ℕ) (m : KcpMsg) (c : KcpConnection Control)
      → IsConsistent c
      → AfterControl (control_in ikcp s tid m c)
  unfolding control_in response_on_open response_on_ready
  control_in-IsConsistent conn_open tid m c f =
      if_split AfterControl (m.cmd == 250) _ _ (λ _. request_on_open-IsConsistent tid m.conv c f)
        (λ _.
          if_split AfterControl (m.cmd == 251) _ _
            (λ _. init_kcp-IsConsistent tid (keep_or_take m.conv c))
            (λ _. if_split AfterControl (m.cmd == 252) _ _ (λ _. f) (λ _. f)))
  control_in-IsConsistent conn_kcp_ready tid m c f =
      if_split After (m.cmd == 250) _ _ (λ _. request_on_ready-IsConsistent tid m.conv c)
        (λ _.
          if_split After (m.cmd == 251) _ _ (λ _. init_kcp-IsConsistent tid (keep_or_take m.conv c))
            (λ _. f))
  control_in-IsConsistent conn_idle tid m c f = f
  control_in-IsConsistent conn_closing tid m c f = f
  control_in-IsConsistent conn_closed tid m c f = f
