-- ===== src/Pipe/Factory/Handshake.antt =====
-- The two sides of the handshake, one after the other.
use knet.Base.{
  ℕ, ◌+◌, ◌^◌, ◌≤◌, ◌<◌, ◌≡◌, refl, sym, ap, subst, ◌∙◌, true, false, some, Option-cases, inl, inr,
  List, arith, if◌then◌else◌, if_true, if_false, lt→ltb, le→not-ltb, ◌==◌, ==_self, length, take,
  take_all, from_bytes, to_bytes,
}
use knet.Pipe.Proto.{head_of, head_size, message, shake_hand}
use knet.Pipe.Session.{
  Session, Link, Factory, update, find_bind, is_ready, bind, on_ready, update_pipeid, body_of,
}
use knet.Pipe.Factory.{
  server_named, process_server_handshake, client_named, process_client_handshake, handle_data,
}

-- What a receiver reads in a message.
module _ (t o : ℕ) (body : List ℕ) (small : length body < 2 ^ 32) where
  pub length_read : (head_of (message t o body)).length_field ≡ length body
  unfolding message
  length_read = omega arith

  pub type_read : t < 2 ^ 32 → (head_of (message t o body)).type_field ≡ t
  unfolding message
  type_read h = omega arith

  body_read : body_of (message t o body) ≡ body
  unfolding message
  body_read =
      let e : from_bytes (to_bytes 4 (length body)) ≡ length body = omega arith in
      ap (λ n. take n body) e ∙ take_all (length body) body (omega arith)

  pub length_whole : length (message t o body) ≡ length body + head_size
  unfolding message
  length_whole = omega arith

-- The session `p` and the connection `cid` have each other, and the session is ready to be used.
pub record Bound (p cid : ℕ) (f : Factory) : Type 0 where
  pub flagged : (f.sessions p).ready_flag ≡ true
  pub goes_to : (f.sessions p).connection ≡ some cid
  pub comes_back : (f.links cid).session ≡ some p

pub update_self : {A : Type 0} (f : ℕ → A) (i : ℕ) (v : A) → update f i v i ≡ v
update_self f i v = if_true _ _ (==_self i)

bind-Bound : (p cid : ℕ) (f : Factory) → Bound p cid (bind p cid f)
unfolding bind
bind-Bound p cid f = record {
  flagged = ap (λ (s : Session). s.ready_flag) (update_self f.sessions p _);
  goes_to = ap (λ (s : Session). s.connection) (update_self f.sessions p _);
  comes_back = ap (λ (l : Link). l.session) (update_self f.links cid _);
}

-- A name leaves the binding alone.
update_pipeid-Bound :
    (p cid : ℕ) (pid : List ℕ) (f : Factory) → Bound p cid f → Bound p cid (update_pipeid p pid f)
unfolding update_pipeid
update_pipeid-Bound p cid pid f b = record {
  flagged = ap (λ (s : Session). s.ready_flag) (update_self f.sessions p _) ∙ b.flagged;
  goes_to = ap (λ (s : Session). s.connection) (update_self f.sessions p _) ∙ b.goes_to;
  comes_back = b.comes_back;
}

on_ready_keeps : (p : ℕ) (f : Factory) → (on_ready p f).0 ≡ f
unfolding on_ready
on_ready_keeps p f = elim (Option-cases (f.sessions p).connection) [
  | inl e ↦ rw (e, on_ready) refl
  | inr (cid, e) ↦ rw (e, on_ready) refl
]

pub server_named-Bound :
    (cid p : ℕ) (pid : List ℕ) (f : Factory)
    → find_bind f.bind_pipes pid ≡ some p
    → is_ready f p ≡ false
    → Bound p cid (server_named cid pid f).0
unfolding server_named
server_named-Bound cid p pid f found free =
    rw (found, free, server_named)
      (subst (Bound p cid) (sym (on_ready_keeps p (bind p cid f))) (bind-Bound p cid f))

pub client_named-Bound :
    (cid p : ℕ) (pid : List ℕ) (f : Factory)
    → find_bind f.bind_pipes pid ≡ some p
    → is_ready f p ≡ false
    → Bound p cid (client_named cid pid f).0
unfolding client_named
client_named-Bound cid p pid f found free =
    rw (found, free, client_named)
      (update_pipeid-Bound p cid pid (bind p cid f) (bind-Bound p cid f))

-- A shake hand is dispatched to the side of the connection.
module _ (format : ℕ → List ℕ) (cid : ℕ) (msg : List ℕ) (f : Factory) where
  pub dispatch :
      (head_of msg).type_field ≡ shake_hand
      → (head_of msg).length_field + head_size ≤ length msg
      → handle_data format cid msg f ≡ (
          if (f.links cid).passive
          then process_server_handshake format cid msg f
          else process_client_handshake cid msg f)
  unfolding handle_data
  dispatch t whole =
      if_false _ _ (le→not-ltb (length msg) ((head_of msg).length_field + head_size) whole)
      ∙ if_true _ _ (ap (λ n. n == shake_hand) t)

  server_side :
      0 < (head_of msg).length_field
      → process_server_handshake format cid msg f ≡ server_named cid (body_of msg) f
  unfolding process_server_handshake
  server_side h = if_true _ _ (lt→ltb 0 (head_of msg).length_field h)

  client_side :
      0 < (head_of msg).length_field
      → process_client_handshake cid msg f ≡ client_named cid (body_of msg) f
  unfolding process_client_handshake
  client_side h = if_true _ _ (lt→ltb 0 (head_of msg).length_field h)

-- What a shake hand with a name does on either side.
module _ (format : ℕ → List ℕ) (cid : ℕ) (pid : List ℕ) (f : Factory) (some_byte : 0 < length pid)
    (small : length pid < 2 ^ 32) where
  dispatched : handle_data format cid (message shake_hand 0 pid) f ≡ (
      if (f.links cid).passive
      then process_server_handshake format cid (message shake_hand 0 pid) f
      else process_client_handshake cid (message shake_hand 0 pid) f)
  dispatched =
      dispatch format cid (message shake_hand 0 pid) f
        (type_read shake_hand 0 pid small (omega arith))
        (omega (arith, length_read shake_hand 0 pid small, length_whole shake_hand 0 pid small))

  pub named_server :
      (f.links cid).passive ≡ true
      → handle_data format cid (message shake_hand 0 pid) f ≡ server_named cid pid f
  named_server p =
      dispatched
      ∙ if_true _ _ p
      ∙ server_side format cid (message shake_hand 0 pid) f
          (omega (arith, length_read shake_hand 0 pid small))
      ∙ ap (λ b. server_named cid b f) (body_read shake_hand 0 pid small)

  pub named_client :
      (f.links cid).passive ≡ false
      → handle_data format cid (message shake_hand 0 pid) f ≡ client_named cid pid f
  named_client p =
      dispatched
      ∙ if_false _ _ p
      ∙ client_side format cid (message shake_hand 0 pid) f
          (omega (arith, length_read shake_hand 0 pid small))
      ∙ ap (λ b. client_named cid b f) (body_read shake_hand 0 pid small)
