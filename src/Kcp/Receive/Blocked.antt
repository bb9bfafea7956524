-- ===== src/Kcp/Receive/Blocked.antt =====
-- A message that is larger than the array of `handle_receive`.
use knet.Base.{
  ℕ, ◌<◌, ◌≡◌, refl, sym, ap, subst, ◌∙◌, Option, none, some, List, [], ◌∷◌, ◌++◌, arith, if_true,
  ◌==◌, inl, inr, Bool-cases, length,
}
use knet.Kcp.Ikcp.{Ikcp, IkcpLaws}
use knet.Kcp.Connection.{KcpConnection, Step}
use knet.Kcp.Receive.{
  after_input, receive_by, handle_receive, andthen, max_message_length, ikcp_cmd_ack,
}
use knet.Kcp.Receive.Drain.{deliveries, AllFit, Received, after_input-Received}

module _ (ikcp : Ikcp) (laws : IkcpLaws ikcp) where
  open ikcp use {Control}

  -- A message of more than 4096 bytes is the next one.
  pub record IsStuck (c : KcpConnection Control) : Type 0 where
    pub block : Control
    pub holds : c.kcp ≡ some block
    pub message : List ℕ
    pub others : List (List ℕ)
    pub next : laws.waiting block ≡ message ∷ others
    pub large : max_message_length < length message

  none_taken :
      (taken rest : List (List ℕ)) (m : List ℕ) (ms : List (List ℕ))
      → max_message_length < length m
      → m ∷ ms ≡ taken ++ rest
      → AllFit taken
      → (taken ≡ []) × (m ∷ ms ≡ rest)
  none_taken [] rest m ms large e fit = (refl, e)
  none_taken (t ∷ ts) rest m ms large e fit =
      let same : length m ≡ length t = ap head_length e in absurd (omega (arith, fit.1))
    where
      head_length : List (List ℕ) → ℕ
      head_length [] = 0
      head_length (x ∷ xs) = length x

  Received-IsStuck :
      (n : ℕ) (m : List ℕ) (ms : List (List ℕ)) (r : Step Control)
      → max_message_length < length m
      → Received ikcp laws n (m ∷ ms) r
      → IsStuck r.0 × (r.1 ≡ [])
  Received-IsStuck n m ms r large d =
      let del = d.delivered in
      let (empty, same) = none_taken del.taken del.rest m ms large del.in_order del.fitting in
      (
        record {
          block = d.block;
          holds = d.holds;
          message = m;
          others = ms;
          next = del.left ∙ sym same;
          large = large;
        },
        del.handed_over ∙ ap deliveries empty,
      )

  after_input-IsStuck :
      (n : ℕ) (c : KcpConnection Control) (k : Control) (cmd : Option ℕ) (m : List ℕ)
      (ms : List (List ℕ))
      → max_message_length < length m
      → laws.waiting k ≡ m ∷ ms
      → IsStuck (after_input ikcp n c k cmd).0 × ((after_input ikcp n c k cmd).1 ≡ [])
  after_input-IsStuck n c k none m ms large w = Received-IsStuck n m ms _ large (
      subst (λ q. Received ikcp laws n q (after_input ikcp n c k none)) w
        (after_input-Received ikcp laws n c k none (λ e. cc e)))
  after_input-IsStuck n c k (some cmd) m ms large w = elim (Bool-cases (cmd == ikcp_cmd_ack)) [
    | inl ack ↦
        subst (λ (r : Step Control). IsStuck r.0 × (r.1 ≡ [])) (sym (if_true _ _ ack))
          (
            record { block = k; holds = refl; message = m; others = ms; next = w; large = large },
            refl,
          )
    | inr other ↦ Received-IsStuck n m ms _ large (
        subst (λ q. Received ikcp laws n q (after_input ikcp n c k (some cmd))) w
          (after_input-Received ikcp laws n c k (some cmd) (ground arith)))
  ]

  handle_receive-IsStuck :
      (d : List ℕ) (c : KcpConnection Control)
      → IsStuck c
      → IsStuck (handle_receive ikcp d c).0 × ((handle_receive ikcp d c).1 ≡ [])
  unfolding handle_receive
  handle_receive-IsStuck d c s =
      let (new, e) = laws.input_adds s.block d in
      subst (λ o. IsStuck (receive_by ikcp o d c).0 × ((receive_by ikcp o d c).1 ≡ []))
        (sym s.holds)
        (after_input-IsStuck (length d) c (ikcp.input s.block d).0 (ikcp.input s.block d).1
          s.message (s.others ++ new) s.large (e ∙ ap (λ q. q ++ new) s.next))

  abbrev pub receive_each : List (List ℕ) → KcpConnection Control → Step Control
  receive_each [] c = (c, [])
  receive_each (d ∷ ds) c = andthen ikcp (handle_receive ikcp d c) (receive_each ds)

  -- While a message of more than 4096 bytes is the next one, the handlers are told of no message any
  -- more, whatever datagrams come in.
  pub receive_each-IsStuck :
      (ds : List (List ℕ)) (c : KcpConnection Control)
      → IsStuck c
      → IsStuck (receive_each ds c).0 × ((receive_each ds c).1 ≡ [])
  receive_each-IsStuck [] c s = (s, refl)
  receive_each-IsStuck (d ∷ ds) c s =
      let (s', quiet) = handle_receive-IsStuck d c s in
      let (s'', quiet') = receive_each-IsStuck ds (handle_receive ikcp d c).0 s' in
      (s'', ap (λ es. es ++ (receive_each ds (handle_receive ikcp d c).0).1) quiet ∙ quiet')
