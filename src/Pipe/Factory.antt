-- ===== src/Pipe/Factory.antt =====
-- `PipeFactory` of include/pipe/pipe_factory.hpp: the two handshakes, events, data and `send_to`. The
-- text of a generated id is a parameter (fmt::format).
pub mod Handshake
pub mod Agreement
use knet.Base.{
  ℕ, zero, suc, ◌+◌, Bool, true, false, not, ◌&&◌, Option, none, some, List, [], ◌∷◌, ◌++◌,
  if◌then◌else◌, ltb, ◌==◌, length, take, drop,
}
use knet.Event.{NetEvent, evt_connect, evt_disconnect}
use knet.Pipe.Proto.{PipeMsgHead, head_of, head_size, message, shake_hand, heart_beat, data_msg}
use knet.Pipe.Session.{
  Session, Link, Factory, PipeEffect, PipeStep, ◌andthen◌, update, find_bind, find_unbind,
  erase_unbind, add_bind_pipe, add_unbind_pipe, remove_unbind_pipe, is_ready, bind, unbind,
  update_pipeid, on_ready, new_session, body_of, sent, closed, session_event, session_data,
  heartbeat_timer,
}

-- The server's answer to a client that names its pipe.
unfoldable pub server_named : ℕ → List ℕ → Factory → PipeStep
unfolding bind on_ready is_ready message
server_named cid pid f = elim (find_bind f.bind_pipes pid) [
  | none ↦ (f, closed cid ∷ [])
  | some p ↦
      if is_ready f p
      then (f, [])
      else (bind p cid f, sent cid (message shake_hand 0 pid) ∷ []) andthen on_ready p andthen λ g.
          (g, session_event p evt_connect ∷ [])
]

-- The server's answer to a client without a name: it makes one up.
unfoldable pub server_unnamed : (ℕ → List ℕ) → ℕ → Factory → PipeStep
unfolding bind add_unbind_pipe update_pipeid message
server_unnamed format cid f =
    let pid = format f.pid_index in
    let f' = record f { pid_index = suc f.pid_index } in
    elim (find_unbind f.unbind_pipes cid) [
      | some p ↦ (
        update_pipeid p pid f',
        sent cid (message shake_hand 0 pid) ∷ session_event p evt_connect ∷ [],
      )
      | none ↦ (
        add_unbind_pipe cid f.session_count (bind f.session_count cid (new_session f')),
        sent cid (message shake_hand 0 pid) ∷ session_event f.session_count evt_connect ∷ [],
      )
    ]

unfoldable pub process_server_handshake : (ℕ → List ℕ) → ℕ → List ℕ → Factory → PipeStep
unfolding server_named server_unnamed
process_server_handshake format cid msg f =
    if ltb 0 (head_of msg).length_field
    then server_named cid (body_of msg) f
    else server_unnamed format cid f

-- The client's answer to the name that the server sends.
unfoldable pub client_named : ℕ → List ℕ → Factory → PipeStep
unfolding bind on_ready is_ready update_pipeid add_bind_pipe remove_unbind_pipe
client_named cid pid f = elim (find_bind f.bind_pipes pid) [
  | some p ↦
      if is_ready f p
      then (f, [])
      else (update_pipeid p pid (bind p cid f), session_event p evt_connect ∷ [])
  | none ↦ elim (find_unbind f.unbind_pipes cid) [
    | none ↦ (f, closed cid ∷ [])
    | some p ↦
        (
          remove_unbind_pipe cid (add_bind_pipe pid p (update_pipeid p pid (bind p cid f))),
          session_event p evt_connect ∷ [],
        )
        andthen on_ready p
  ]
]

unfoldable pub process_client_handshake : ℕ → List ℕ → Factory → PipeStep
unfolding client_named message
process_client_handshake cid msg f =
    if ltb 0 (head_of msg).length_field
    then client_named cid (body_of msg) f
    else (f, sent cid (message shake_hand 0 (f.links cid).pipeid) ∷ [])

unfoldable pub handle_event : ℕ → NetEvent → Factory → PipeStep
unfolding message unbind remove_unbind_pipe
handle_event cid evt_connect f =
    (
      f,
      if (f.links cid).passive
          then []
          else sent cid (message shake_hand 0 (f.links cid).pipeid) ∷ [],
    )
    andthen λ g.
        (g, elim (f.links cid).session [ none ↦ [] | some p ↦ session_event p evt_connect ∷ [] ])
handle_event cid evt_disconnect f = elim (f.links cid).session [
  | none ↦ (remove_unbind_pipe cid f, [])
  | some p ↦ (remove_unbind_pipe cid (unbind p f), session_event p evt_disconnect ∷ [])
]
handle_event cid evt f =
    (f, elim (f.links cid).session [ none ↦ [] | some p ↦ session_event p evt ∷ [] ])

-- A message that is no shake hand and no heartbeat.
unfoldable pub handle_body : ℕ → List ℕ → Factory → PipeStep
unfolding message
handle_body cid msg f = elim (f.links cid).session [
  | some p ↦ (f, session_data p (body_of msg) (head_of msg).data_field ∷ [])
  | none ↦ (f, if (f.links cid).passive then sent cid (message shake_hand 0 []) ∷ [] else [])
]

unfoldable pub handle_data : (ℕ → List ℕ) → ℕ → List ℕ → Factory → PipeStep
unfolding process_server_handshake process_client_handshake handle_body message
handle_data format cid msg f =
    let h = head_of msg in
    if ltb (length msg) (h.length_field + head_size)
    then (f, [])
    else if h.type_field == shake_hand
    then (if (f.links cid).passive
        then process_server_handshake format cid msg f
        else process_client_handshake cid msg f)
    else if h.type_field == heart_beat
    then (f, if (f.links cid).passive then [] else sent cid (message heart_beat 0 []) ∷ [])
    else handle_body cid msg f

-- `send_to`: the message that goes out, `none` where it returns -1.
unfoldable pub send_to : List ℕ → List ℕ → Factory → Option (ℕ × List ℕ)
unfolding is_ready message
send_to pid body f = elim (find_bind f.bind_pipes pid) [
  | none ↦ none
  | some p ↦ elim (f.sessions p).connection [
    | none ↦ none
    | some cid ↦ if is_ready f p then some (cid, message data_msg 0 body) else none
  ]
]

-- register_pipe
unfoldable pub register_pipe : ℕ → ℕ → Factory → Factory
unfolding add_unbind_pipe add_bind_pipe
register_pipe p cid f =
    if length (f.sessions p).pipe_id == 0
    then (if cid == 0 then f else add_unbind_pipe cid p f)
    else add_bind_pipe (f.sessions p).pipe_id p f
