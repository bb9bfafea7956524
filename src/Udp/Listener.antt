-- ===== src/Udp/Listener.antt =====
-- `UdpListener` of include/udp/udp_listener.hpp. A peer is named by the text of its address; a
-- connection by its `cid`, which its constructor counts on.
use knet.Base.{
  ℕ, suc, ◌%◌, ◌^◌, Bool, true, false, Option, none, some, List, [], ◌∷◌, ◌++◌, if◌then◌else◌, ltb,
  ◌==◌, Text, is_empty, lookup, insert,
}
use knet.Event.{
  NetEvent, evt_create, evt_connect, evt_recv, evt_disconnect, evt_release, event_code,
}

-- `running` is whether a receive is outstanding; `index` is the static counter of the
-- constructor, of which a `cid` has the low 32 bits.
pub record UdpListener : Type 0 where
  pub connections : List (Text × ℕ)
  pub index : ℕ
  pub running : Bool
  pub sock_open : Bool
  pub multi_host : Text
  pub handlers : List ℕ

-- What a handler of the chain, the connection's handlers and its `handle_package` return.
pub record ListenerHandlers : Type 0 where
  pub chain_event : ℕ → ℕ → NetEvent → Bool
  pub chain_data : ℕ → ℕ → Text → Bool
  pub conn_event : ℕ → NetEvent → Bool
  pub conn_data : ℕ → Text → Bool
  pub is_user : ℕ → Text → Bool

-- What is called, with the id of the connection: the handlers of the chain by their numbers.
pub data ListenerEffect : Type 0 where
  chain_told : ℕ → ℕ → NetEvent → ListenerEffect
  chain_handed : ℕ → ℕ → Text → ListenerEffect
  conn_told : ℕ → NetEvent → ListenerEffect
  conn_handed : ℕ → Text → ListenerEffect
  sent_to : ℕ → Text → ListenerEffect
  sent_multi : Text → ListenerEffect
  joined : Text → ListenerEffect
  bound : ListenerEffect
  sock_closed : ListenerEffect
  -- The release that is posted.
  posts_release : ℕ → ListenerEffect

-- What a call returns, and what it calls.
abbrev pub Result : Type 0
Result = Bool × List ListenerEffect

abbrev pub then_if : Result → Result → Result
then_if (ret, es) (ret', es') = if ret then (ret', es ++ es') else (false, es)

unfoldable pub invoke_event_chain : ListenerHandlers → List ℕ → ℕ → NetEvent → Result
invoke_event_chain h [] cid evt = (true, [])
invoke_event_chain h (k ∷ ks) cid evt =
    then_if (h.chain_event k cid evt, chain_told k cid evt ∷ []) (invoke_event_chain h ks cid evt)

unfoldable pub invoke_data_chain : ListenerHandlers → List ℕ → ℕ → Text → Result
invoke_data_chain h [] cid bytes = (true, [])
invoke_data_chain h (k ∷ ks) cid bytes =
    then_if (h.chain_data k cid bytes, chain_handed k cid bytes ∷ [])
      (invoke_data_chain h ks cid bytes)

-- A release is posted to the worker, which gives the connection to the factory.
unfoldable pub handle_event : ListenerHandlers → List ℕ → ℕ → NetEvent → Result
unfolding invoke_event_chain
handle_event h ks cid evt =
    let (ret, es) = invoke_event_chain h ks cid evt in
    (ret, es ++ (if event_code evt == event_code evt_release then posts_release cid ∷ [] else []))

unfoldable pub push_back : Option ℕ → UdpListener → UdpListener
push_back none l = l
push_back (some k) l = record l { handlers = l.handlers ++ (k ∷ []) }

unfoldable pub push_front : Option ℕ → UdpListener → UdpListener
push_front none l = l
push_front (some k) l = record l { handlers = k ∷ l.handlers }

-- The connection's handler, and the chain if that returns true.
abbrev pub tell : ListenerHandlers → UdpListener → ℕ → NetEvent → List ListenerEffect
tell h l cid evt =
    (then_if (h.conn_event cid evt, conn_told cid evt ∷ []) (handle_event h l.handlers cid evt)).1

abbrev pub hand : ListenerHandlers → UdpListener → ℕ → Text → List ListenerEffect
hand h l cid bytes =
    (then_if (h.conn_data cid bytes, conn_handed cid bytes ∷ [])
      (invoke_data_chain h l.handlers cid bytes)).1

-- `init` of a connection tells the chain first, and the connection if that returns true.
abbrev pub tell_create : ListenerHandlers → UdpListener → ℕ → List ListenerEffect
tell_create h l cid =
    (then_if (handle_event h l.handlers cid evt_create)
      (h.conn_event cid evt_create, conn_told cid evt_create ∷ [])).1

unfoldable pub find_connection : Text → UdpListener → Option ℕ
unfolding lookup
find_connection pt l = lookup pt l.connections

unfoldable pub create_connection : Text → UdpListener → UdpListener
unfolding insert
create_connection pt l = record l {
  connections = insert pt (suc l.index % 2 ^ 32) l.connections;
  index = suc l.index;
}

-- The connection of a peer, and what making it calls.
abbrev pub connection_of :
    ListenerHandlers → Text → UdpListener → Option ℕ → UdpListener × ℕ × List ListenerEffect
connection_of h pt l (some cid) = (l, cid, [])
connection_of h pt l none =
    let l' = create_connection pt l in
    let cid = l'.index % 2 ^ 32 in (l', cid, tell_create h l' cid ++ tell h l' cid evt_connect)

abbrev pub told_error : ListenerHandlers → UdpListener → Option ℕ → List ListenerEffect
told_error h l none = []
told_error h l (some cid) = tell h l cid evt_disconnect

-- The handler of `do_receive`: the peer, and an error or the bytes received. A receive of no bytes is
-- taken for an error, and no other one is started.
unfoldable pub on_received :
    ListenerHandlers → Text → Option Text → UdpListener → UdpListener × List ListenerEffect
unfolding find_connection create_connection handle_event invoke_data_chain
on_received h pt none l = (record l { running = false }, told_error h l (find_connection pt l))
on_received h pt (some bytes) l =
    if is_empty bytes
    then (record l { running = false }, told_error h l (find_connection pt l))
    else let (l', cid, es) = connection_of h pt l (find_connection pt l) in
      (
        l',
        es ++ (if h.is_user cid bytes then hand h l' cid bytes ++ tell h l' cid evt_recv else []),
      )

-- `start`: the group, if there is one, is joined, and otherwise a port is bound.
unfoldable pub start : Text → ℕ → UdpListener → UdpListener × List ListenerEffect
start multi port l = (
  record l {
    multi_host = if is_empty multi then l.multi_host else multi;
    sock_open = true;
    running = true;
  },
  if is_empty multi then if ltb 0 port then bound ∷ [] else [] else joined multi ∷ [],
)

unfoldable pub stop : UdpListener → UdpListener × List ListenerEffect
stop l =
    (record l { connections = []; sock_open = false }, if l.sock_open then sock_closed ∷ [] else [])

abbrev send_each : List (Text × ℕ) → Text → List ListenerEffect
send_each [] msg = []
send_each ((pt, cid) ∷ cs) msg = sent_to cid msg ∷ send_each cs msg

unfoldable pub broadcast : Text → UdpListener → List ListenerEffect
broadcast msg l = if is_empty l.multi_host then send_each l.connections msg else sent_multi msg ∷ []
