-- ===== src/Pipe/Factory/Agreement.antt =====
-- What client and server have after a handshake.
use knet.Base.{
  ℕ, ◌<◌, ◌^◌, ◌≡◌, refl, sym, ap, subst, ◌∙◌, true, false, ◌&&◌, none, some, Option-cases, inl,
  inr, List, [], ◌∷◌, ◌++◌, arith, if◌then◌else◌, if_true, if_false, Bool-cases, ltb, ◌==◌, ==_self,
  length,
}
use knet.Event.{evt_connect}
use knet.Pipe.Proto.{message, shake_hand}
use knet.Pipe.Session.{
  Session, Factory, PipeEffect, sent, closed, session_event, session_data, heartbeat_timer,
  PipeStep, find_bind, find_unbind, is_ready, bind, on_ready, new_session, add_unbind_pipe, body_of,
}
use knet.Pipe.Factory.{
  server_named, server_unnamed, process_server_handshake, handle_event, handle_data, send_to,
}
use knet.Pipe.Factory.Handshake.{
  Bound, server_named-Bound, client_named-Bound, named_server, named_client, dispatch, length_read,
  type_read, length_whole, update_self,
}

-- The messages that go out on a connection.
abbrev pub messages_to : ℕ → List PipeEffect → List (List ℕ)
messages_to cid [] = []
messages_to cid (sent c msg ∷ es) =
    let rest = messages_to cid es in if c == cid then msg ∷ rest else rest
messages_to cid (closed c ∷ es) = messages_to cid es
messages_to cid (session_event p evt ∷ es) = messages_to cid es
messages_to cid (session_data p body obdata ∷ es) = messages_to cid es
messages_to cid (heartbeat_timer c ∷ es) = messages_to cid es

on_ready_quiet :
    (cid p : ℕ) (f : Factory) (es : List PipeEffect)
    → messages_to cid ((on_ready p f).1 ++ es) ≡ messages_to cid es
unfolding on_ready
on_ready_quiet cid p f es = elim (Option-cases (f.sessions p).connection) [
  | inl e ↦ rw (e, on_ready) refl
  | inr (c, e) ↦ elim (Bool-cases ((f.links c).connected && (f.links c).passive)) [
    | inl h ↦ rw (e, on_ready, h) refl
    | inr h ↦ rw (e, on_ready, h) refl
  ]
]

-- The answer of the server.
answer :
    (cid p : ℕ) (pid : List ℕ) (f : Factory)
    → find_bind f.bind_pipes pid ≡ some p
    → is_ready f p ≡ false
    → messages_to cid (server_named cid pid f).1 ≡ message shake_hand 0 pid ∷ []
unfolding server_named
answer cid p pid f found free =
    rw (found, free, server_named)
      (if_true _ _ (==_self cid)
        ∙ ap (λ l. message shake_hand 0 pid ∷ l)
            (on_ready_quiet cid p (bind p cid f) (session_event p evt_connect ∷ [])))

-- The first message of a client.
greeting :
    (cid : ℕ) (f : Factory)
    → (f.links cid).passive ≡ false
    → messages_to cid (handle_event cid evt_connect f).1
      ≡ message shake_hand 0 (f.links cid).pipeid ∷ []
unfolding handle_event
greeting cid f h = elim (Option-cases (f.links cid).session) [
  | inl e ↦ rw (h, e, handle_event) (if_true _ _ (==_self cid))
  | inr (p, e) ↦ rw (h, e, handle_event) (if_true _ _ (==_self cid))
]

-- A client that knows its name greets the server with it; the server answers with the same name; and
-- then the session of that name is bound to the connection and ready on both sides. Each side has a
-- session of that name that is not ready; `a` is the server's connection and `b` the client's.
pub handshake-agrees :
    (format : ℕ → List ℕ) (server client : Factory) (a b p q : ℕ)
    → (server.links a).passive ≡ true
    → (client.links b).passive ≡ false
    → 0 < length (client.links b).pipeid
    → length (client.links b).pipeid < 2 ^ 32
    → find_bind server.bind_pipes (client.links b).pipeid ≡ some p
    → is_ready server p ≡ false
    → find_bind client.bind_pipes (client.links b).pipeid ≡ some q
    → is_ready client q ≡ false
    → let m = message shake_hand 0 (client.links b).pipeid in
      (messages_to b (handle_event b evt_connect client).1 ≡ m ∷ [])
      × (messages_to a (handle_data format a m server).1 ≡ m ∷ [])
      × Bound p a (handle_data format a m server).0
      × Bound q b (handle_data format b m client).0
handshake-agrees format server client a b p q pa pb some_byte small found_s free_s found_c free_c =
    let pid = (client.links b).pipeid in
    let on_server = named_server format a pid server some_byte small pa in
    let on_client = named_client format b pid client some_byte small pb in
    (
      greeting b client pb,
      ap (λ (r : PipeStep). messages_to a r.1) on_server ∙ answer a p pid server found_s free_s,
      subst (λ (r : PipeStep). Bound p a r.0) (sym on_server)
          (server_named-Bound a p pid server found_s free_s),
      subst (λ (r : PipeStep). Bound q b r.0) (sym on_client)
          (client_named-Bound b q pid client found_c free_c),
    )

-- The step of the server on a shake hand without a name, where no session waits for the connection.
unnamed :
    (format : ℕ → List ℕ) (cid : ℕ) (f : Factory)
    → (f.links cid).passive ≡ true
    → handle_data format cid (message shake_hand 0 []) f ≡ server_unnamed format cid f
unfolding process_server_handshake
unnamed format cid f p =
    dispatch format cid (message shake_hand 0 []) f
      (type_read shake_hand 0 [] (omega arith) (omega arith))
      (omega (
        arith,
        length_read shake_hand 0 [] (omega arith),
        length_whole shake_hand 0 [] (omega arith),
      ))
    ∙ if_true _ _ p
    ∙ if_false _ (server_named cid (body_of (message shake_hand 0 [])) f)
        (ap (λ n. ltb 0 n) (length_read shake_hand 0 [] (omega arith)))

module _ (format : ℕ → List ℕ) (cid : ℕ) (f : Factory)
    (nobody : find_unbind f.unbind_pipes cid ≡ none) where
  unnamed_says :
      messages_to cid (server_unnamed format cid f).1
      ≡ message shake_hand 0 (format f.pid_index) ∷ []
  unfolding server_unnamed
  unnamed_says = rw (nobody, server_unnamed) (if_true _ _ (==_self cid))

  unnamed_binds : (server_unnamed format cid f).0.bind_pipes ≡ f.bind_pipes
  unfolding server_unnamed bind add_unbind_pipe
  unnamed_binds = rw (nobody, server_unnamed) refl

  unnamed_session : ((server_unnamed format cid f).0.sessions f.session_count).pipe_id ≡ []
  unfolding server_unnamed bind add_unbind_pipe
  unnamed_session =
      rw (nobody, server_unnamed)
        (ap (λ (s : Session). s.pipe_id) (update_self (new_session f).sessions f.session_count _)
          ∙ ap (λ (s : Session). s.pipe_id) (update_self f.sessions f.session_count _))

send_to_unknown :
    (pid body : List ℕ) (f : Factory)
    → find_bind f.bind_pipes pid ≡ none
    → send_to pid body f ≡ none
unfolding send_to
send_to_unknown pid body f e = rw (e, send_to) refl

-- A client without a name, for whom no session waits at the server, is told a generated name; but the
-- server's new session does not have that name, and the server cannot send to it unless a pipe of that
-- name was registered before.
pub unnamed_unreachable :
    (format : ℕ → List ℕ) (cid : ℕ) (body : List ℕ) (f : Factory)
    → (f.links cid).passive ≡ true
    → find_unbind f.unbind_pipes cid ≡ none
    → find_bind f.bind_pipes (format f.pid_index) ≡ none
    → let r = handle_data format cid (message shake_hand 0 []) f in
      (messages_to cid r.1 ≡ message shake_hand 0 (format f.pid_index) ∷ [])
      × ((r.0.sessions f.session_count).pipe_id ≡ [])
      × (send_to (format f.pid_index) body r.0 ≡ none)
unnamed_unreachable format cid body f p nobody unknown =
    let e = unnamed format cid f p in
    (
      ap (λ (r : PipeStep). messages_to cid r.1) e ∙ unnamed_says format cid f nobody,
      ap (λ (r : PipeStep). (r.0.sessions f.session_count).pipe_id) e
          ∙ unnamed_session format cid f nobody,
      ap (λ (r : PipeStep). send_to (format f.pid_index) body r.0) e
          ∙ send_to_unknown (format f.pid_index) body (server_unnamed format cid f).0 (
              ap (λ ps. find_bind ps (format f.pid_index)) (unnamed_binds format cid f nobody)
              ∙ unknown),
    )
