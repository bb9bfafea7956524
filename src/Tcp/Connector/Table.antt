-- ===== src/Tcp/Connector/Table.antt =====
-- The table of connections under any calls but `stop`.
use mathlib.Core.Path.{fun_ext}
use knet.Base.{
  put_at, find_at-put_at, find_at-erase_at, ℕ, ◌≡◌, refl, ap, ◌∙◌, Bool, true, ◌&&◌, Option, none,
  some, List, [], ◌∷◌, ◌++◌, arith, pos, if◌then◌else◌, ltb, ◌==◌, length, if_true, if_false,
  lt→ltb,
}
use knet.Event.{NetEvent, evt_release, event_code}
use knet.Tcp.Connector.{
  Worker, Connector, ConnectorEffect, worker_starts, worker_stops, inits, connects, deinits, closes,
  handler_told, posts_release, starts, made, start, remove_connection, find_connection, worker_at,
  next_worker, get_worker, added, add_connection, invoke_chain, handle_event,
}

pub data Call : Type 0 where
  -- The id and the connection.
  adds : ℕ → ℕ → Call
  removes : ℕ → Call
  -- What the handlers return, the connection and the event.
  tells : (ℕ → Bool) → ℕ → NetEvent → Call
  starts_more : Bool → List ℕ → Call

abbrev pub State : Type 0
State = Connector × List ConnectorEffect

abbrev pub call : Call → Connector → Option State
call (adds cid conn) c = add_connection cid conn c
call (removes cid) c = some ((remove_connection cid c).1, [])
call (tells answer conn evt) c = let (ret, c', es) = handle_event answer conn evt c in some (c', es)
call (starts_more factory fresh) c = some (start factory fresh c)

abbrev behind : List ConnectorEffect → Option State → Option State
behind es none = none
behind es (some (c, fs)) = some (c, es ++ fs)

abbrev next : Option State → (Connector → Option State) → Option State
next none f = none
next (some (c, es)) f = behind es (f c)

abbrev pub run : List Call → Connector → Option State
run [] c = some (c, [])
run (k ∷ ks) c = next (call k c) (run ks)

-- The table as a function that is changed at one id; events change nothing.
abbrev pub Table : Type 0
Table = ℕ → Option ℕ

abbrev pub changed : Call → Table → Table
changed (adds cid conn) f = λ k. if cid == k then some conn else f k
changed (removes cid) f = λ k. if cid == k then none else f k
changed (tells answer conn evt) f = f
changed (starts_more factory fresh) f = f

abbrev pub replay : List Call → Table → Table
replay [] f = f
replay (k ∷ ks) f = replay ks (changed k f)

abbrev pub table : Connector → Table
table c k = find_connection k c

-- Every connection is initialised with this worker.
abbrev pub only_on : ℕ → List ConnectorEffect → Bool
only_on w [] = true
only_on w (inits conn v ∷ es) = (v == w) && only_on w es
only_on w (worker_starts v ∷ es) = only_on w es
only_on w (worker_stops v ∷ es) = only_on w es
only_on w (connects conn ∷ es) = only_on w es
only_on w (deinits conn ∷ es) = only_on w es
only_on w (closes conn ∷ es) = only_on w es
only_on w (handler_told h ∷ es) = only_on w es
only_on w (posts_release conn ∷ es) = only_on w es

only_on-append :
    (w : ℕ) (es fs : List ConnectorEffect)
    → only_on w es ≡ true
    → only_on w fs ≡ true
    → only_on w (es ++ fs) ≡ true
only_on-append w [] fs h k = k
only_on-append w (inits conn v ∷ es) fs h k = ground (arith, only_on-append w es fs)
only_on-append w (worker_starts v ∷ es) fs h k = only_on-append w es fs h k
only_on-append w (worker_stops v ∷ es) fs h k = only_on-append w es fs h k
only_on-append w (connects conn ∷ es) fs h k = only_on-append w es fs h k
only_on-append w (deinits conn ∷ es) fs h k = only_on-append w es fs h k
only_on-append w (closes conn ∷ es) fs h k = only_on-append w es fs h k
only_on-append w (handler_told g ∷ es) fs h k = only_on-append w es fs h k
only_on-append w (posts_release conn ∷ es) fs h k = only_on-append w es fs h k

-- What a call has done: the state it leaves, with the first worker that it had.
pub record Done (w : Worker) (f : Table) (r : Option State) : Type 0 where
  pub state : State
  pub workers : List Worker
  pub returned : r ≡ some state
  pub first : state.0.user_workers ≡ w ∷ workers
  pub refined : table state.0 ≡ f
  pub on_first : only_on w.id state.1 ≡ true

chain_quiet :
    (w : ℕ) (answer : ℕ → Bool) (hs : List ℕ) → only_on w (invoke_chain answer hs).1 ≡ true
unfolding invoke_chain
chain_quiet w answer [] = refl
chain_quiet w answer (h ∷ hs) = ground (arith, chain_quiet w answer hs)

starts_quiet : (w : ℕ) (ws : List ℕ) → only_on w (starts ws) ≡ true
starts_quiet w [] = refl
starts_quiet w (v ∷ ws) = starts_quiet w ws

module _ (w : Worker) (ws : List Worker) (c : Connector) (e : c.user_workers ≡ w ∷ ws) where
  first_worker : get_worker (pos 0) c ≡ (some w, c)
  unfolding get_worker
  first_worker =
      ap
        (λ l.
          let r : Option Worker × Connector =
            if length l == 0
            then (none, c)
            else if ltb 0 (length l)
            then (worker_at l 0, c)
            else next_worker c in
          r)
        e
      ∙ if_false (length (w ∷ ws) == 0) _ (ground arith)
      ∙ if_true _ _ (lt→ltb 0 (length (w ∷ ws)) (omega arith))

  add-Done : (cid conn : ℕ) → Done w (changed (adds cid conn) (table c)) (add_connection cid conn c)
  unfolding add_connection find_connection
  add-Done cid conn = record {
    state = (
      record c { connections = put_at cid conn c.connections },
      inits conn w.id ∷ connects conn ∷ [],
    );
    workers = ws;
    returned = ap (added cid conn) first_worker;
    first = e;
    refined = fun_ext λ k. find_at-put_at cid k conn c.connections;
    on_first = ground arith;
  }

  removed : (cid : ℕ) → table (remove_connection cid c).1 ≡ changed (removes cid) (table c)
  unfolding remove_connection find_connection
  removed cid = fun_ext λ k. ground (arith, find_at-erase_at cid k c.connections)

  workers_kept : (cid : ℕ) → (remove_connection cid c).1.user_workers ≡ c.user_workers
  unfolding remove_connection
  workers_kept cid = ground arith

  release_quiet :
      (n conn : ℕ)
      → only_on w.id (if n == event_code evt_release then posts_release conn ∷ [] else []) ≡ true
  release_quiet n conn = ground arith

  event-Done :
      (answer : ℕ → Bool) (conn : ℕ) (evt : NetEvent)
      → Done w (table c) (call (tells answer conn evt) c)
  unfolding handle_event
  event-Done answer conn evt = record {
    state = ((handle_event answer conn evt c).1, (handle_event answer conn evt c).2);
    workers = ws;
    returned = refl;
    first = e;
    refined = refl;
    on_first =
        only_on-append w.id (invoke_chain answer c.net_handler_chain).1 _
          (chain_quiet w.id answer c.net_handler_chain) (release_quiet (event_code evt) conn);
  }

  call-Done : (k : Call) → Done w (changed k (table c)) (call k c)
  unfolding start find_connection
  call-Done (adds cid conn) = add-Done cid conn
  call-Done (removes cid) = record {
    state = ((remove_connection cid c).1, []);
    workers = ws;
    returned = refl;
    first = workers_kept cid ∙ e;
    refined = removed cid;
    on_first = refl;
  }
  call-Done (tells answer conn evt) = event-Done answer conn evt
  call-Done (starts_more factory fresh) = record {
    state = start factory fresh c;
    workers = ws ++ made fresh;
    returned = refl;
    first = ap (λ l. l ++ made fresh) e;
    refined = refl;
    on_first = starts_quiet w.id fresh;
  }

-- On a connector with a worker, any calls of add_connection, remove_connection, start and handle_event
-- return. The table is afterwards what the same calls make of a function from ids to connections, which
-- an event, the release of a connection too, does not change; every connection is initialised with the
-- first worker, and that stays the first.
pub run-Done :
    (ks : List Call) (w : Worker) (ws : List Worker) (c : Connector)
    → c.user_workers ≡ w ∷ ws
    → Done w (replay ks (table c)) (run ks c)
run-Done [] w ws c e = record {
  state = (c, []);
  workers = ws;
  returned = refl;
  first = e;
  refined = refl;
  on_first = refl;
}
run-Done (k ∷ ks) w ws c e =
    let d = call-Done w ws c e k in
    let d' = run-Done ks w d.workers d.state.0 d.first in
    record {
      state = (d'.state.0, d.state.1 ++ d'.state.1);
      workers = d'.workers;
      returned = ap (λ o. next o (run ks)) d.returned ∙ ap (behind d.state.1) d'.returned;
      first = d'.first;
      refined = d'.refined ∙ ap (replay ks) d.refined;
      on_first = only_on-append w.id d.state.1 d'.state.1 d.on_first d'.on_first;
    }
