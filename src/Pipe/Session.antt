-- ===== src/Pipe/Session.antt =====
-- `PipeSession` of include/pipe/pipe_session.hpp, what a `PipeConnection` keeps of its session, and the
-- tables of `PipeFactory` (include/pipe/pipe_factory.hpp). Sessions are shared by pointer: a pointer is a
-- number into the store. A connection is named by its `get_cid()`.
use knet.Base.{
  ℕ, suc, Bool, true, false, ◌&&◌, Option, none, some, List, [], ◌∷◌, ◌++◌, if◌then◌else◌, ◌==◌,
  length, take, drop, same_text,
}
use knet.Event.{NetEvent}
use knet.Pipe.Proto.{head_of, head_size}

pub record Session : Type 0 where
  pub pipe_id : List ℕ
  pub ready_flag : Bool
  pub connection : Option ℕ

pub record Link : Type 0 where
  pub passive : Bool
  pub connected : Bool
  pub pipeid : List ℕ
  pub session : Option ℕ

pub record Factory : Type 0 where
  pub sessions : ℕ → Session
  pub session_count : ℕ
  pub links : ℕ → Link
  pub bind_pipes : List (List ℕ × ℕ)
  pub unbind_pipes : List (ℕ × ℕ)
  pub pid_index : ℕ

-- What is asked of a connection, and what a session's handlers are told.
pub data PipeEffect : Type 0 where
  sent : ℕ → List ℕ → PipeEffect
  closed : ℕ → PipeEffect
  session_event : ℕ → NetEvent → PipeEffect
  session_data : ℕ → List ℕ → ℕ → PipeEffect
  heartbeat_timer : ℕ → PipeEffect

abbrev pub PipeStep : Type 0
PipeStep = Factory × List PipeEffect

infixl 5 ◌andthen◌
abbrev pub ◌andthen◌ : PipeStep → (Factory → PipeStep) → PipeStep
(f, es) andthen k = let (f', fs) = k f in (f', es ++ fs)

abbrev pub update : {A : Type 0} → (ℕ → A) → ℕ → A → ℕ → A
update f i v j = if i == j then v else f j

abbrev pub find_bind : List (List ℕ × ℕ) → List ℕ → Option ℕ
find_bind [] key = none
find_bind ((k, v) ∷ ps) key =
    let rest = find_bind ps key in if same_text k key then some v else rest

abbrev pub find_unbind : List (ℕ × ℕ) → ℕ → Option ℕ
find_unbind [] key = none
find_unbind ((k, v) ∷ ps) key = let rest = find_unbind ps key in if k == key then some v else rest

abbrev pub erase_unbind : List (ℕ × ℕ) → ℕ → List (ℕ × ℕ)
erase_unbind [] key = []
erase_unbind ((k, v) ∷ ps) key =
    let rest = erase_unbind ps key in if k == key then rest else (k, v) ∷ rest

-- An assignment `pipes[key] = value` hides the older pair.
unfoldable pub add_bind_pipe : List ℕ → ℕ → Factory → Factory
add_bind_pipe key p f = record f { bind_pipes = (key, p) ∷ f.bind_pipes }

unfoldable pub add_unbind_pipe : ℕ → ℕ → Factory → Factory
add_unbind_pipe cid p f = record f { unbind_pipes = (cid, p) ∷ f.unbind_pipes }

unfoldable pub remove_unbind_pipe : ℕ → Factory → Factory
remove_unbind_pipe cid f = record f { unbind_pipes = erase_unbind f.unbind_pipes cid }

-- PipeSession::is_ready
unfoldable pub is_ready : Factory → ℕ → Bool
is_ready f p =
    let s = f.sessions p in
    s.ready_flag && elim s.connection [ none ↦ false | some cid ↦ (f.links cid).connected ]

-- PipeSession::bind
unfoldable pub bind : ℕ → ℕ → Factory → Factory
bind p cid f =
    let s = f.sessions p in
    record f {
      sessions = update f.sessions p (record s { connection = some cid; ready_flag = true });
      links = update f.links cid (record (f.links cid) { pipeid = s.pipe_id; session = some p });
    }

unfoldable pub unbind : ℕ → Factory → Factory
unbind p f = record f {
  sessions = update f.sessions p (record (f.sessions p) { ready_flag = false });
}

unfoldable pub update_pipeid : ℕ → List ℕ → Factory → Factory
update_pipeid p pid f =
    let s = f.sessions p in
    record f {
      sessions =
          update f.sessions p
            (record s { pipe_id = if length s.pipe_id == 0 then pid else s.pipe_id });
    }

-- PipeSession::on_ready
unfoldable pub on_ready : ℕ → Factory → PipeStep
on_ready p f = elim (f.sessions p).connection [
  | none ↦ (f, [])
  | some cid ↦
      (f, if (f.links cid).connected && (f.links cid).passive then heartbeat_timer cid ∷ [] else [])
]

-- make_shared<PipeSession>()
abbrev pub new_session : Factory → Factory
new_session f = record f {
  sessions =
      update f.sessions f.session_count
        (record { pipe_id = []; ready_flag = false; connection = none });
  session_count = suc f.session_count;
}

-- The body of a message.
abbrev pub body_of : List ℕ → List ℕ
body_of msg = take (head_of msg).length_field (drop head_size msg)
