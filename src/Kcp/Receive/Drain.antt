-- ===== src/Kcp/Receive/Drain.antt =====
-- The loop of `handle_receive`: that it ends, and which of the messages that wait it hands over.
use knet.Base.{
  ℕ, zero, suc, ◌+◌, ◌-◌, ◌≤◌, ◌<◌, ◌≡◌, refl, sym, ap, subst, ◌∙◌, ◌⊎◌, ◌≢◌, inl, inr, ne→not-==,
  false, Option, none, some, List, [], ◌∷◌, ◌++◌, arith, ltb, ltb→lt, ◌==◌, if_true, if_false,
  Bool-cases, length,
}
use native.Mathlib.Decide.{dec_lt}
use knet.Event.{evt_recv}
use knet.Kcp.Ikcp.{Ikcp, IkcpLaws}
use knet.Kcp.Connection.{KcpConnection, KcpEffect, handed, told, Step}
use knet.Kcp.Receive.{
  Drained, with_message, after_recv, receive_round, drain, drained, after_input, receive_by,
  handle_receive, max_message_length, ikcp_cmd_ack,
}

-- What the handlers are told of some messages.
abbrev pub deliveries : List (List ℕ) → List KcpEffect
deliveries [] = []
deliveries (m ∷ ms) = handed m ∷ told evt_recv ∷ deliveries ms

abbrev pub total : List (List ℕ) → ℕ
total [] = 0
total (m ∷ ms) = length m + total ms

-- No message, or one that the loop stops at: an empty one, or one that is too large for the array.
abbrev pub Blocked : List (List ℕ) → Type 0
Blocked [] = Unit {0}
Blocked (m ∷ ms) = (length m ≡ 0) ⊎ (max_message_length < length m)

abbrev pub AllFit : List (List ℕ) → Type 0
AllFit [] = Unit {0}
AllFit (m ∷ ms) = (0 < length m) × (length m ≤ max_message_length) × AllFit ms

module _ (ikcp : Ikcp) (laws : IkcpLaws ikcp) where
  open ikcp use {Control}

  -- The loop has handed over the first messages in their order, and stopped for one of the reasons.
  pub record Delivered (data_len recv_len : ℕ) (queue : List (List ℕ)) (k' : Control)
      (es : List KcpEffect) : Type 0 where
    pub taken : List (List ℕ)
    pub rest : List (List ℕ)
    pub in_order : queue ≡ taken ++ rest
    pub handed_over : es ≡ deliveries taken
    pub fitting : AllFit taken
    pub left : laws.waiting k' ≡ rest
    pub reason : (data_len ≤ recv_len + total taken) ⊎ Blocked rest

  -- The loop has a result, and it is such.
  abbrev pub Returns : ℕ → ℕ → List (List ℕ) → Drained ikcp → Type 0
  Returns data_len recv_len queue none = ⊥
  Returns data_len recv_len queue (some (k', es)) = Delivered data_len recv_len queue k' es

  nothing :
      (data_len recv_len : ℕ) (queue : List (List ℕ)) (k : Control)
      → laws.waiting k ≡ queue
      → (data_len ≤ recv_len) ⊎ Blocked queue
      → Delivered data_len recv_len queue k []
  nothing data_len recv_len queue k e why = record {
    taken = [];
    rest = queue;
    in_order = refl;
    handed_over = refl;
    fitting = tt;
    left = e;
    reason = elim why [ inl h ↦ inl (omega arith) | inr b ↦ inr b ];
  }

  one_more :
      (data_len recv_len : ℕ) (m : List ℕ) (ms : List (List ℕ)) (r : Drained ikcp)
      → 0 < length m
      → length m ≤ max_message_length
      → Returns data_len (recv_len + length m) ms r
      → Returns data_len recv_len (m ∷ ms) (with_message ikcp m r)
  one_more data_len recv_len m ms none filled fits d = d
  one_more data_len recv_len m ms (some (k', es)) filled fits d = record {
    taken = m ∷ d.taken;
    rest = d.rest;
    in_order = ap (λ l. m ∷ l) d.in_order;
    handed_over = ap (λ l. handed m ∷ told evt_recv ∷ l) d.handed_over;
    fitting = (filled, fits, d.fitting);
    left = d.left;
    reason = elim d.reason [ inl h ↦ inl (omega arith) | inr b ↦ inr b ];
  }

  -- `recv` of a message that fits.
  round_fits :
      (data_len recv_len : ℕ) (m : List ℕ) (ms : List (List ℕ)) (k : Control)
      (next : ℕ → Control → Drained ikcp)
      → laws.waiting k ≡ m ∷ ms
      → 0 < length m
      → length m ≤ max_message_length
      → ((k' : Control)
          → laws.waiting k' ≡ ms
          → Returns data_len (recv_len + length m) ms (next (length m) k'))
      → Returns data_len recv_len (m ∷ ms) (receive_round ikcp (some (length m)) k next)
  round_fits data_len recv_len [] ms k next w filled fits go = absurd (omega arith)
  round_fits data_len recv_len (x ∷ m) ms k next w filled fits go =
      let (got, left) = laws.recv_fits k (x ∷ m) ms max_message_length w fits in
      let k' = (ikcp.recv k max_message_length).0 in
      let full : (length (x ∷ m) == 0) ≡ false = ground arith in
      subst
        (λ o.
          Returns data_len recv_len ((x ∷ m) ∷ ms) (after_recv ikcp k' o (next (length (x ∷ m)))))
        (sym got)
        (subst (Returns data_len recv_len ((x ∷ m) ∷ ms)) (sym (if_false _ _ full)) (
          one_more data_len recv_len (x ∷ m) ms (next (length (x ∷ m)) k') filled fits
            (go k' left)))

  round_blocked :
      (data_len recv_len : ℕ) (m : List ℕ) (ms : List (List ℕ)) (k : Control)
      (next : ℕ → Control → Drained ikcp)
      → laws.waiting k ≡ m ∷ ms
      → (length m ≡ 0) ⊎ (max_message_length < length m)
      → Returns data_len recv_len (m ∷ ms) (receive_round ikcp (some (length m)) k next)
  round_blocked data_len recv_len [] ms k next w why =
      nothing data_len recv_len ([] ∷ ms) k w (inr (inl refl))
  round_blocked data_len recv_len (x ∷ m) ms k next w (inl z) = absurd (omega arith)
  round_blocked data_len recv_len (x ∷ m) ms k next w (inr large) =
      let (got, left) = laws.recv_large k (x ∷ m) ms max_message_length w large in
      let k' = (ikcp.recv k max_message_length).0 in
      subst
        (λ o.
          Returns data_len recv_len ((x ∷ m) ∷ ms) (after_recv ikcp k' o (next (length (x ∷ m)))))
        (sym got) (nothing data_len recv_len ((x ∷ m) ∷ ms) k' (left ∙ w) (inr (inr large)))

  fits_or_not :
      (m : List ℕ)
      → ((0 < length m) × (length m ≤ max_message_length))
        ⊎ ((length m ≡ 0) ⊎ (max_message_length < length m))
  fits_or_not m = elim (dec_lt max_message_length (length m)) [
    | yes large ↦ inr (inr large)
    | no small ↦ elim (dec_lt 0 (length m)) [
      | yes filled ↦ inl (filled, omega arith)
      | no empty ↦ inr (inl (omega arith))
    ]
  ]

  drain-Returns :
      (fuel data_len recv_len : ℕ) (queue : List (List ℕ)) (k : Control)
      → data_len - recv_len < fuel
      → laws.waiting k ≡ queue
      → Returns data_len recv_len queue (drain ikcp fuel data_len recv_len k)
  unfolding drain
  drain-Returns zero data_len recv_len queue k f w = absurd (omega arith)
  drain-Returns (suc fuel) data_len recv_len queue k f w =
      elim (Bool-cases (ltb recv_len data_len)) [
        | inr done ↦
            subst (Returns data_len recv_len queue) (sym (if_false _ _ done))
              (nothing data_len recv_len queue k w (inl (ground arith)))
        | inl more ↦ subst (Returns data_len recv_len queue) (sym (if_true _ _ more)) (
            round queue w (λ n ms k' filled w'.
              drain-Returns fuel data_len (recv_len + n) ms k' (omega (arith, ltb→lt _ _ more)) w'))
      ]
    where
      round :
          (q : List (List ℕ))
          → laws.waiting k ≡ q
          → ((n : ℕ) (ms : List (List ℕ)) (k' : Control)
              → 0 < n
              → laws.waiting k' ≡ ms
              → Returns data_len (recv_len + n) ms (drain ikcp fuel data_len (recv_len + n) k'))
          → Returns data_len recv_len q (
              receive_round ikcp
                (ikcp.peeksize k)
                k
                (λ n k'. drain ikcp fuel data_len (recv_len + n) k'))
      round [] e go =
          subst
            (λ o.
              Returns data_len recv_len []
                (receive_round ikcp o k (λ n k'. drain ikcp fuel data_len (recv_len + n) k')))
            (sym (laws.peeksize_none k e)) (nothing data_len recv_len [] k e (inr tt))
      round (m ∷ ms) e go =
          subst
            (λ o.
              Returns data_len recv_len (m ∷ ms)
                (receive_round ikcp o k (λ n k'. drain ikcp fuel data_len (recv_len + n) k')))
            (sym (laws.peeksize_some k m ms e))
            (elim (fits_or_not m) [
              | inl (filled, fits) ↦
                  round_fits data_len recv_len m ms k _ e filled fits
                    (λ k' w'. go (length m) ms k' filled w')
              | inr blocked ↦ round_blocked data_len recv_len m ms k _ e blocked
            ])

  -- The state and the effects that a result of the loop makes.
  pub record Received (data_len : ℕ) (queue : List (List ℕ)) (r : Step Control) : Type 0 where
    pub block : Control
    pub holds : r.0.kcp ≡ some block
    pub delivered : Delivered data_len 0 queue block r.1

  drained-Received :
      (data_len : ℕ) (queue : List (List ℕ)) (c : KcpConnection Control) (o : Drained ikcp)
      → Returns data_len 0 queue o
      → Received data_len queue (drained ikcp c o)
  drained-Received data_len queue c none d = absurd d
  drained-Received data_len queue c (some (k, es)) d = record {
    block = k;
    holds = refl;
    delivered = d;
  }

  pub after_input-Received :
      (data_len : ℕ) (c : KcpConnection Control) (k : Control) (cmd : Option ℕ)
      → cmd ≢ some ikcp_cmd_ack
      → Received data_len (laws.waiting k) (after_input ikcp data_len c k cmd)
  after_input-Received data_len c k none other =
      drained-Received data_len (laws.waiting k) c _
        (drain-Returns (suc data_len) data_len 0 (laws.waiting k) k (omega arith) refl)
  after_input-Received data_len c k (some n) other =
      subst (Received data_len (laws.waiting k))
        (sym (if_false _ _ (ne→not-== n ikcp_cmd_ack (λ e. other (ap some e)))))
        (drained-Received data_len (laws.waiting k) c _
          (drain-Returns (suc data_len) data_len 0 (laws.waiting k) k (omega arith) refl))

  -- A datagram that the library takes, and does not answer by the number of an acknowledgement: the
  -- loop ends, the handlers are told of the first messages that wait, in their order, each one once,
  -- and the others still wait. It stops only when the lengths of the messages add up to the length of
  -- the datagram, or no message waits, or the next one is empty or has more than 4096 bytes.
  pub handle_receive-Received :
      (c : KcpConnection Control) (k : Control) (datagram : List ℕ)
      → c.kcp ≡ some k
      → (ikcp.input k datagram).1 ≢ some ikcp_cmd_ack
      → Received
          (length datagram)
          (laws.waiting (ikcp.input k datagram).0)
          (handle_receive ikcp datagram c)
  unfolding handle_receive
  handle_receive-Received c k datagram e other =
      subst
        (λ o.
          Received (length datagram) (laws.waiting (ikcp.input k datagram).0)
            (receive_by ikcp o datagram c))
        (sym e)
        (after_input-Received (length datagram) c (ikcp.input k datagram).0
          (ikcp.input k datagram).1 other)
