-- ===== src/Kcp/Samples.antt =====
-- A library and some connections for the tests.
use knet.Base.{
  ℕ, ◌≤◌, ◌<◌, ◌≡◌, refl, ap, true, false, Option, none, some, List, [], ◌∷◌, ◌++◌, arith,
  if◌then◌else◌, leb, length,
}
use knet.Utils.LoopBuffer.{LoopBuffer, size}
use knet.Kcp.Ikcp.{Ikcp, IkcpLaws}
use knet.Kcp.Connection.{conn_idle, conn_open, conn_kcp_ready, conn_closed, KcpConnection}
use knet.Kcp.Sending.{Holds}

-- Each datagram is a message; what is sent is kept.
pub record Block : Type 0 where
  pub conv : ℕ
  pub waiting : List (List ℕ)
  pub given : List (List ℕ)

abbrev next_size : List (List ℕ) → Option ℕ
next_size [] = none
next_size (m ∷ ms) = some (length m)

abbrev take_next : Block → List (List ℕ) → ℕ → Block × Option (List ℕ)
take_next k [] n = (k, none)
take_next k (m ∷ ms) n = if leb (length m) n then (record k { waiting = ms }, some m) else (k, none)

abbrev pub toy : Ikcp
toy = record {
  Control = Block;
  create = λ n. record { conv = n; waiting = []; given = [] };
  send = λ k bytes. (record k { given = k.given ++ (bytes ∷ []) }, some 0);
  input = λ k bytes. (record k { waiting = k.waiting ++ (bytes ∷ []) }, some 81);
  update = λ k now. (k, []);
  peeksize = λ k. next_size k.waiting;
  recv = λ k n. take_next k k.waiting n;
}

pub conv_take : (k : Block) (q : List (List ℕ)) (n : ℕ) → (take_next k q n).0.conv ≡ k.conv
conv_take k [] n = refl
conv_take k (m ∷ ms) n = ground arith

pub take_fits :
    (k : Block) (m : List ℕ) (ms : List (List ℕ)) (n : ℕ)
    → k.waiting ≡ m ∷ ms
    → length m ≤ n
    → ((take_next k k.waiting n).1 ≡ some m) × ((take_next k k.waiting n).0.waiting ≡ ms)
take_fits k m ms n e h = rw e (ground arith)

pub take_large :
    (k : Block) (m : List ℕ) (ms : List (List ℕ)) (n : ℕ)
    → k.waiting ≡ m ∷ ms
    → n < length m
    → ((take_next k k.waiting n).1 ≡ none) × ((take_next k k.waiting n).0.waiting ≡ k.waiting)
take_large k m ms n e h = ground (arith, e)

abbrev pub toy_laws : IkcpLaws toy
toy_laws = record {
  conv = λ k. k.conv;
  conv_create = λ n. refl;
  conv_send = λ k bytes. refl;
  conv_input = λ k bytes. refl;
  conv_update = λ k now. refl;
  conv_recv = λ k n. conv_take k k.waiting n;
  waiting = λ k. k.waiting;
  peeksize_none = λ k e. ap next_size e;
  peeksize_some = λ k m ms e. ap next_size e;
  recv_fits = take_fits;
  recv_large = take_large;
  input_adds = λ k bytes. (bytes ∷ [], refl);
}

abbrev pub ring : LoopBuffer
ring = record { buffer_size = 4; head = 0; tail = 1; buffer = 7 ∷ 0 ∷ 0 ∷ 0 ∷ [] }

pub ring-Holds : Holds ring (7 ∷ [])
unfolding size
ring-Holds = record {
  valid = record {
    exponent = 2;
    exponent_le = omega arith;
    size_pow = refl;
    array = refl;
    head_word = omega arith;
    tail_word = omega arith;
    fits = omega arith;
  };
  at_start = refl;
  held = refl;
}

abbrev pub block : Block
block = record { conv = 1025; waiting = []; given = [] }

abbrev pub ready : KcpConnection Block
ready = record {
  cid = 1025;
  conn_status = conn_kcp_ready;
  kcp_sock = true;
  is_passive = false;
  reconnect_flag = false;
  kcp = some block;
  kcp_timerid = 3;
  heartbeat_timerid = 2;
  last_msg_time = 0;
  send_buffer = ring;
  server_conv_index = 4096;
}

abbrev pub server : KcpConnection Block
server = record ready { cid = 2000; conn_status = conn_open; is_passive = true; kcp = none }

abbrev pub client : KcpConnection Block
client = record ready { conn_status = conn_idle; kcp_sock = false; kcp = none }

abbrev pub closed : KcpConnection Block
closed = record ready { conn_status = conn_closed; kcp = none }
