-- ===== src/Tcp/Connector.antt =====
-- `TcpConnector` of include/tcp/asio/tcp_connector.hpp: its workers, its table of connections and the
-- chain of handlers. Workers, connections and handlers are numbers that stand for pointers.
mod Table
mod Chain
mod Tests
use knet.Base.{
  ℕ, zero, suc, ◌+◌, ◌%◌, Bool, true, false, Option, none, some, List, [], ◌∷◌, ◌++◌, map, ℤ, pos,
  negsuc, if◌then◌else◌, ltb, ◌==◌, length, get_or, find_at, put_at, erase_at,
}
use knet.Event.{NetEvent, event_code, evt_release}

-- A worker, and whether the connector made it (`get_user_data() == this`).
pub record Worker : Type 0 where
  pub id : ℕ
  pub inner : Bool

pub record Connector : Type 0 where
  pub worker_index : ℕ
  pub user_workers : List Worker
  pub connections : List (ℕ × ℕ)
  pub net_factory : Bool
  pub net_handler_chain : List ℕ

pub data ConnectorEffect : Type 0 where
  worker_starts worker_stops : ℕ → ConnectorEffect
  -- The connection and its worker.
  inits : ℕ → ℕ → ConnectorEffect
  connects deinits closes : ℕ → ConnectorEffect
  handler_told : ℕ → ConnectorEffect
  posts_release : ℕ → ConnectorEffect

abbrev pub starts : List ℕ → List ConnectorEffect
starts [] = []
starts (w ∷ ws) = worker_starts w ∷ starts ws

abbrev pub made : List ℕ → List Worker
made [] = []
made (w ∷ ws) = (record { id = w; inner = true }) ∷ made ws

-- The constructors: with a worker, or with the one that they make.
unfoldable pub make_connector : Option ℕ → ℕ → Bool → Option ℕ → Connector × List ConnectorEffect
make_connector worker fresh factory handler = (
  record {
    worker_index = 0;
    user_workers = elim worker [
      | none ↦ made (fresh ∷ [])
      | some w ↦ (record { id = w; inner = false }) ∷ []
    ];
    connections = [];
    net_factory = factory;
    net_handler_chain = elim handler [ none ↦ [] | some h ↦ h ∷ [] ];
  },
  elim worker [ none ↦ worker_starts fresh ∷ [] | some w ↦ [] ],
)

unfoldable pub add_worker : Option Worker → Connector → Connector
add_worker none c = c
add_worker (some w) c = record c { user_workers = c.user_workers ++ (w ∷ []) }

-- The workers `fresh` are those of the threads that are asked for.
unfoldable pub start : Bool → List ℕ → Connector → Connector × List ConnectorEffect
start factory fresh c = (
  record c {
    net_factory = if factory then true else c.net_factory;
    user_workers = c.user_workers ++ made fresh;
  },
  starts fresh,
)

abbrev pub closing : List (ℕ × ℕ) → List ConnectorEffect
closing [] = []
closing ((k, conn) ∷ m) = deinits conn ∷ closes conn ∷ closing m

abbrev pub stopping : List Worker → List ConnectorEffect
stopping [] = []
stopping (w ∷ ws) = (if w.inner then worker_stops w.id ∷ [] else []) ++ stopping ws

unfoldable pub stop : Connector → Connector × List ConnectorEffect
stop c = (
  record c { connections = []; user_workers = [] },
  closing c.connections ++ stopping c.user_workers,
)

unfoldable pub remove_connection : ℕ → Connector → Bool × Connector
unfolding find_at erase_at
remove_connection cid c = elim (find_at cid c.connections) [
  | none ↦ (false, c)
  | some conn ↦ (true, record c { connections = erase_at cid c.connections })
]

unfoldable pub find_connection : ℕ → Connector → Option ℕ
unfolding find_at
find_connection sid c = find_at sid c.connections

abbrev pub worker_at : List Worker → ℕ → Option Worker
worker_at [] i = none
worker_at (w ∷ ws) zero = some w
worker_at (w ∷ ws) (suc i) = worker_at ws i

-- An index that is out of range, or negative, asks for the next worker in turn; `none` is a null
-- pointer.
abbrev pub next_worker : Connector → Option Worker × Connector
next_worker c =
    let i = (c.worker_index + 1) % length c.user_workers in
    (worker_at c.user_workers i, record c { worker_index = i })

unfoldable pub get_worker : ℤ → Connector → Option Worker × Connector
get_worker idx c = if length c.user_workers == 0 then (none, c) else elim idx [
  | pos i ↦ if ltb i (length c.user_workers) then (worker_at c.user_workers i, c) else next_worker c
  | negsuc i ↦ next_worker c
]

-- `add_connection` of a connection with its id: `none` is the use of a null pointer for a worker.
abbrev pub added : ℕ → ℕ → Option Worker × Connector → Option (Connector × List ConnectorEffect)
added cid conn (none, c) = none
added cid conn (some w, c) =
    some (
      record c { connections = put_at cid conn c.connections },
      inits conn w.id ∷ connects conn ∷ [],
    )

unfoldable pub add_connection : ℕ → ℕ → Connector → Option (Connector × List ConnectorEffect)
unfolding get_worker put_at
add_connection cid conn c = added cid conn (get_worker (pos 0) c)

-- `add_net_handler` and `push_back`.
unfoldable pub push_back : Option ℕ → Connector → Connector
push_back none c = c
push_back (some h) c = record c { net_handler_chain = c.net_handler_chain ++ (h ∷ []) }

unfoldable pub push_front : Option ℕ → Connector → Connector
push_front none c = c
push_front (some h) c = record c { net_handler_chain = h ∷ c.net_handler_chain }

abbrev pub erase_place : ℕ → List ℕ → List ℕ
erase_place i [] = []
erase_place zero (x ∷ xs) = xs
erase_place (suc i) (x ∷ xs) = x ∷ erase_place i xs

-- The loop of `remove_event_handler`, in which nothing moves the iterator; `none` means that the
-- rounds are over before it returns.
unfoldable pub remove_from : ℕ → ℕ → ℕ → List ℕ → Option (List ℕ)
remove_from zero itr handler chain = none
remove_from (suc fuel) itr handler chain =
    let next = remove_from fuel itr handler chain in
    if itr == length chain
    then some chain
    else if get_or chain itr 0 == handler
    then some (erase_place itr chain)
    else next

unfoldable pub remove_event_handler : ℕ → Option ℕ → Connector → Option Connector
unfolding remove_from
remove_event_handler fuel none c = some c
remove_event_handler fuel (some h) c = elim (remove_from fuel 0 h c.net_handler_chain) [
  | none ↦ none
  | some chain ↦ some (record c { net_handler_chain = chain })
]

-- `invoke_event_chain` and `invoke_data_chain`, by what each handler returns.
unfoldable pub invoke_chain : (ℕ → Bool) → List ℕ → Bool × List ConnectorEffect
invoke_chain answer [] = (true, [])
invoke_chain answer (h ∷ hs) =
    let rest = invoke_chain answer hs in
    if answer h then (rest.0, handler_told h ∷ rest.1) else (false, handler_told h ∷ [])

-- The release of a connection is posted: it ends the reconnecting and gives it to the factory.
unfoldable pub handle_event :
    (ℕ → Bool) → ℕ → NetEvent → Connector → Bool × Connector × List ConnectorEffect
unfolding invoke_chain
handle_event answer conn evt c =
    let (ret, es) = invoke_chain answer c.net_handler_chain in
    (
      ret,
      c,
      es ++ (if event_code evt == event_code evt_release then posts_release conn ∷ [] else []),
    )
