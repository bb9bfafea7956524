-- ===== src/Tcp/Listener/Tests.antt =====
-- The listener at concrete inputs.
use knet.Base.{◌≡◌, refl, true, false, [], ◌∷◌, arith}
use knet.Tcp.Listener.{
  Listener, worker_starts, opens, binds, start, invoke_chain, on_accepted, new_conn, accepts_for,
}
use knet.Tcp.Listener.Turns.{turns, turns-rotate}

abbrev three : Listener
three = record {
  user_workers = 10 ∷ 20 ∷ 30 ∷ [];
  listen_worker = 1;
  worker_index = 7;
  is_running = false;
  has_factory = true;
}

turns-rotate_example : turns 3 three ≡ 20 ∷ 30 ∷ 10 ∷ []
turns-rotate_example = turns-rotate three (omega arith) 7 (omega arith)

-- A bind that fails leaves the listener stopped, and the workers that were started with it.
bind_fails : start (40 ∷ []) true false true three ≡ (
  false,
  (record three { user_workers = 10 ∷ 20 ∷ 30 ∷ 40 ∷ [] }, worker_starts 40 ∷ opens ∷ binds ∷ []),
)
unfolding start
bind_fails = refl

second_refuses : invoke_chain (true ∷ false ∷ true ∷ []) ≡ (false, 2)
unfolding invoke_chain
second_refuses = refl

next_accept : (on_accepted 10 true three).1 ≡ new_conn 10 ∷ accepts_for 20 ∷ []
unfolding on_accepted
next_accept = refl
