-- ===== src/Tcp/Listener.antt =====
-- `TcpListener` of include/tcp/asio/tcp_listener.hpp: start and stop, the workers in turn, the accept
-- loop and the chain of handlers. What asio and the handlers answer is an argument; workers are numbers.
mod Turns
mod Tests
use knet.Base.{
  ℕ, zero, suc, ◌+◌, ◌%◌, Bool, true, false, ◌||◌, List, [], ◌∷◌, ◌++◌, if◌then◌else◌, ltb, ◌==◌,
  length, get_or, u32_mod,
}
use knet.Event.{NetEvent, evt_release}

pub record Listener : Type 0 where
  pub user_workers : List ℕ
  pub listen_worker : ℕ
  pub worker_index : ℕ
  pub is_running : Bool
  pub has_factory : Bool

pub data ListenEffect : Type 0 where
  worker_starts worker_stops : ℕ → ListenEffect
  opens binds listens closes : ListenEffect
  accepts_for : ℕ → ListenEffect
  new_conn : ℕ → ListenEffect
  drops_socket : ListenEffect
  factory_release : ListenEffect

abbrev pub ListenStep : Type 0
ListenStep = Listener × List ListenEffect

abbrev pub each : (ℕ → ListenEffect) → List ℕ → List ListenEffect
each f [] = []
each f (w ∷ ws) = f w ∷ each f ws

-- `worker_index++` is one of 32 bits.
unfoldable pub get_worker : Listener → ℕ × Listener
get_worker l = if length l.user_workers == 0 then (l.listen_worker, l) else (
  get_or l.user_workers (l.worker_index % length l.user_workers) 0,
  record l { worker_index = (l.worker_index + 1) % u32_mod },
)

unfoldable pub do_accept : Listener → ListenStep
unfolding get_worker
do_accept l = let (w, l') = get_worker l in (l', accepts_for w ∷ [])

-- The handler of `async_accept` for the worker `w`: no error and a peer, no error, or an error.
unfoldable pub on_accepted : ℕ → Bool → Listener → ListenStep
unfolding do_accept
on_accepted w has_peer l =
    let (l', es) = do_accept l in (l', (if has_peer then new_conn w else drops_socket) ∷ es)

unfoldable pub on_accept_error : ℕ → Listener → ListenStep
unfolding do_accept
on_accept_error value l = if value == 24 then do_accept l else (l, [])

-- `start` without threads that accept synchronously, with the workers `fresh` that it makes, and what open, bind and listen answer.
unfoldable pub start : List ℕ → Bool → Bool → Bool → Listener → Bool × ListenStep
unfolding do_accept
start fresh open_ok bind_ok listen_ok l =
    let made = record l { is_running = true; user_workers = l.user_workers ++ fresh } in
    let begun = each worker_starts fresh ++ (opens ∷ []) in
    let (accepting, es) = do_accept made in
    if l.is_running
    then (false, (l, []))
    else if open_ok
    then if bind_ok
      then if listen_ok
        then (true, (accepting, begun ++ (binds ∷ listens ∷ es)))
        else (false, (record made { is_running = false }, begun ++ (binds ∷ listens ∷ [])))
      else (false, (record made { is_running = false }, begun ++ (binds ∷ [])))
    else (false, (made, begun))

unfoldable pub stop : Listener → ListenStep
stop l =
    if l.is_running
    then (
      record l { is_running = false; user_workers = [] },
      closes ∷ (each worker_stops l.user_workers ++ (worker_stops l.listen_worker ∷ [])),
    )
    else (l, [])

-- The chain of handlers that are set, given by what each of them returns: the result, and how many of
-- them are called.
unfoldable pub invoke_chain : List Bool → Bool × ℕ
invoke_chain [] = (true, 0)
invoke_chain (answer ∷ rest) =
    let (ret, n) = invoke_chain rest in if answer then (ret, suc n) else (false, 1)

-- `handle_event`: the chain, and the posted release of the connection.
unfoldable pub handle_event : List Bool → NetEvent → Listener → Bool × List ListenEffect
unfolding invoke_chain
handle_event answers evt_release l =
    ((invoke_chain answers).0, if l.has_factory then factory_release ∷ [] else [])
handle_event answers evt l = ((invoke_chain answers).0, [])
