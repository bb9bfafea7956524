-- ===== src/Kcp/Ikcp.antt =====
-- What the connection calls of the KCP library (kcp/ikcp.h, a copy of another project): a parameter.
-- A negative result is `none`. The library sends through its callback in `update` only.
use knet.Base.{ℕ, ◌≤◌, ◌<◌, ◌≡◌, Option, none, some, List, [], ◌∷◌, ◌++◌, length}

pub record Ikcp : Type 1 where
  pub Control : Type 0
  -- ikcp_create
  pub create : ℕ → Control
  -- ikcp_send: the block afterwards, and whether the result is not negative.
  pub send : Control → List ℕ → Control × Option ℕ
  -- ikcp_input
  pub input : Control → List ℕ → Control × Option ℕ
  -- ikcp_update, with the datagrams given to the callback.
  pub update : Control → ℕ → Control × List (List ℕ)
  -- ikcp_peeksize
  pub peeksize : Control → Option ℕ
  -- ikcp_recv into an array of the given size.
  pub recv : Control → ℕ → Control × Option (List ℕ)

module _ (i : Ikcp) where
  open i use {Control, create, send, input, update, peeksize, recv}

  -- What the library documents of its numbers and its queue of received messages.
  pub record IkcpLaws : Type 0 where
    -- The conversation of a block is that of its creation.
    pub conv : Control → ℕ
    pub conv_create : (n : ℕ) → conv (create n) ≡ n
    pub conv_send : (k : Control) (bytes : List ℕ) → conv (send k bytes).0 ≡ conv k
    pub conv_input : (k : Control) (bytes : List ℕ) → conv (input k bytes).0 ≡ conv k
    pub conv_update : (k : Control) (now : ℕ) → conv (update k now).0 ≡ conv k
    pub conv_recv : (k : Control) (n : ℕ) → conv (recv k n).0 ≡ conv k
    -- The whole messages that wait, oldest first.
    pub waiting : Control → List (List ℕ)
    pub peeksize_none : (k : Control) → waiting k ≡ [] → peeksize k ≡ none
    pub peeksize_some :
        (k : Control) (m : List ℕ) (ms : List (List ℕ))
        → waiting k ≡ m ∷ ms
        → peeksize k ≡ some (length m)
    pub recv_fits :
        (k : Control) (m : List ℕ) (ms : List (List ℕ)) (n : ℕ)
        → waiting k ≡ m ∷ ms
        → length m ≤ n
        → ((recv k n).1 ≡ some m) × (waiting (recv k n).0 ≡ ms)
    pub recv_large :
        (k : Control) (m : List ℕ) (ms : List (List ℕ)) (n : ℕ)
        → waiting k ≡ m ∷ ms
        → n < length m
        → ((recv k n).1 ≡ none) × (waiting (recv k n).0 ≡ waiting k)
    -- What is received is added at the end.
    pub input_adds :
        (k : Control) (bytes : List ℕ)
        → (new : List (List ℕ)) × (waiting (input k bytes).0 ≡ waiting k ++ new)
