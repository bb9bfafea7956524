-- ===== src/Pipe/Delimit.antt =====
-- `handle_package` of a pipe and the buffer of its socket.
use native.Mathlib.Decide.{dec_lt}
use knet.Base.{
  ℕ, zero, suc, ◌+◌, ◌/◌, ◌%◌, ◌^◌, ◌≤◌, ◌<◌, ◌≡◌, refl, sym, ap, subst, ◌∙◌, ◌⊎◌, inl, inr, Bool,
  true, false, List, [], ◌∷◌, ◌++◌, map, arith, pos, le→not-ltb, length, length-append, length-take,
  take, drop, join, to_bytes, from_bytes,
}
use knet.Tcp.Socket.{Socket, Conn, deliver, read_buffer_size}
use knet.Tcp.Reading.{process_data}
use knet.Tcp.Reading.Framing.{usable}
use knet.Tcp.Reading.Stream.{pending, received}
use knet.Tcp.Reading.Frames.{Delimits, All, process_data-frames}
use knet.Pipe.Proto.{head_of, message, handle_package}

-- A message of the protocol that fits a socket's buffer.
pub record IsMessage (f : List ℕ) : Type 0 where
  pub type_field : ℕ
  pub obdata : ℕ
  pub body : List ℕ
  pub built : f ≡ message type_field obdata body
  pub fits : length f ≤ read_buffer_size

-- A first part of a message.
pub record IsPart (g : List ℕ) : Type 0 where
  pub whole : List ℕ
  pub whole_message : IsMessage whole
  pub size : ℕ
  pub shorter : size < length whole
  pub taken : g ≡ take size whole

-- What `TcpConnection` calls with `handle_package` of a pipe.
abbrev pub pipe_conn : Bool → Conn
pipe_conn again = record {
  need_reconnect = again;
  process_package = λ data'. pos (handle_package data');
}

value4 : (v : ℕ) → v < 2 ^ 32 → from_bytes (to_bytes 4 v) ≡ v
value4 v h = omega arith

length-message : (t o : ℕ) (body : List ℕ) → length (message t o body) ≡ 16 + length body
unfolding message
length-message t o body = omega arith

-- The length that a message's first four bytes hold, whatever follows them.
length_said :
    (t o : ℕ) (body ys : List ℕ)
    → length body < 2 ^ 32
    → (head_of (message t o body ++ ys)).length_field ≡ length body
unfolding message
length_said t o body ys h = value4 (length body) h

package_at :
    (t o : ℕ) (body ys : List ℕ)
    → length (message t o body) ≤ read_buffer_size
    → handle_package (message t o body ++ ys) ≡ length (message t o body)
unfolding handle_package
package_at t o body ys fits =
    let size = length-message t o body in
    let all = length-append (message t o body) ys in
    rw
      (
        length_said t o body ys (omega (arith, fits, size)),
        le→not-ltb (length (message t o body ++ ys)) 16 (omega (arith, size, all)),
        le→not-ltb (length (message t o body ++ ys)) (length body + 16) (omega (arith, size, all)),
        size,
      )
      refl

package_some :
    (data' : List ℕ)
    → (handle_package data' ≡ 0)
      ⊎ ((handle_package data' ≡ 16 + (head_of data').length_field)
          × (16 + (head_of data').length_field ≤ length data'))
unfolding handle_package
package_some data' = ground arith

-- Four bytes in front are in front of every part that has them.
front4 :
    (a b c d k : ℕ) (l ys : List ℕ)
    → 4 ≤ k
    → take 4 (take k (a ∷ b ∷ c ∷ d ∷ l) ++ ys) ≡ a ∷ b ∷ c ∷ d ∷ []
front4 a b c d (suc (suc (suc (suc k)))) l ys h = refl
front4 a b c d (suc (suc (suc zero))) l ys h = absurd (omega arith)
front4 a b c d (suc (suc zero)) l ys h = absurd (omega arith)
front4 a b c d (suc zero) l ys h = absurd (omega arith)
front4 a b c d zero l ys h = absurd (omega arith)

-- The first four bytes of a message, with the rest.
front : ℕ → ℕ → List ℕ → List ℕ
front t o body = drop 4 (message t o body)

message-front :
    (t o : ℕ) (body : List ℕ)
    → message t o body
      ≡ length body % 256
        ∷ length body / 256 % 256
        ∷ length body / 256 / 256 % 256
        ∷ length body / 256 / 256 / 256 % 256
        ∷ front t o body
unfolding message front
message-front t o body = refl

-- A part of a message with four bytes says the length of the whole.
part_said :
    (t o : ℕ) (body ys : List ℕ) (k : ℕ)
    → 4 ≤ k
    → length body < 2 ^ 32
    → (head_of (take k (message t o body) ++ ys)).length_field ≡ length body
part_said t o body ys k four h =
    ap (λ m. from_bytes (take 4 (take k m ++ ys))) (message-front t o body)
    ∙ ap from_bytes (front4 _ _ _ _ k (front t o body) ys four)
    ∙ value4 (length body) h

usable_short : (n left : ℕ) → (n ≡ 0) ⊎ (left < n) → usable (pos n) left ≡ false
usable_short n left (inl z) = ground arith
usable_short n left (inr l) = ground arith

-- What is said at a part is more than the part.
part_below :
    (t o : ℕ) (body ys : List ℕ) (k : ℕ)
    → k < length (message t o body)
    → length (message t o body) ≤ read_buffer_size
    → k < 16 + (head_of (take k (message t o body) ++ ys)).length_field
part_below t o body ys k less fits = elim (dec_lt k 16) [
  | yes few ↦ omega arith
  | no many ↦ omega (
    arith,
    less,
    fits,
    length-message t o body,
    part_said t o body ys k (omega arith) (omega (arith, fits, length-message t o body)),
  )
]

part_short :
    (t o : ℕ) (body ys : List ℕ) (k : ℕ)
    → k < length (message t o body)
    → length (message t o body) ≤ read_buffer_size
    → length (take k (message t o body) ++ ys) ≤ read_buffer_size
    → (handle_package (take k (message t o body) ++ ys) ≤ read_buffer_size)
      × (usable
            (pos (handle_package (take k (message t o body) ++ ys)))
            (length (take k (message t o body)))
          ≡ false)
part_short t o body ys k less fits view =
    let part = take k (message t o body) in
    let size : length part ≡ k = omega (arith, length-take k (message t o body), less) in
    elim (package_some (part ++ ys)) [
      | inl z ↦ (omega (arith, z), usable_short (handle_package (part ++ ys)) (length part) (inl z))
      | inr (e, le) ↦ (
        omega (arith, e, le, view),
        usable_short (handle_package (part ++ ys)) (length part)
            (inr (omega (arith, e, size, part_below t o body ys k less fits))),
      )
    ]

-- `handle_package` of a pipe delimits its messages.
frame_length : (f ys : List ℕ) → IsMessage f → pos (handle_package (f ++ ys)) ≡ pos (length f)
frame_length f ys m =
    subst (λ l. pos (handle_package (l ++ ys)) ≡ pos (length l)) (sym m.built)
      (ap pos (
        package_at m.type_field m.obdata m.body ys
          (subst (λ l. length l ≤ read_buffer_size) m.built m.fits)))

frame_nonempty : (f : List ℕ) → IsMessage f → 0 < length f
frame_nonempty f m = omega (arith, ap length m.built, length-message m.type_field m.obdata m.body)

part_short_of :
    (g ys : List ℕ)
    → IsPart g
    → length (g ++ ys) ≤ read_buffer_size
    → (handle_package (g ++ ys) ≤ read_buffer_size)
      × (usable (pos (handle_package (g ++ ys))) (length g) ≡ false)
part_short_of g ys p h =
    let m = p.whole_message in
    let e : g ≡ take p.size (message m.type_field m.obdata m.body) =
      p.taken ∙ ap (take p.size) m.built in
    subst
      (λ l.
        (handle_package (l ++ ys) ≤ read_buffer_size)
        × (usable (pos (handle_package (l ++ ys))) (length l) ≡ false))
      (sym e)
      (part_short m.type_field m.obdata m.body ys p.size
        (subst (λ l. p.size < length l) m.built p.shorter)
        (subst (λ l. length l ≤ read_buffer_size) m.built m.fits)
        (subst (λ l. length (l ++ ys) ≤ read_buffer_size) e h))

pub pipe-Delimits : (again : Bool) → Delimits (pipe_conn again) IsMessage IsPart
pipe-Delimits again = record {
  frame_length = frame_length;
  frame_nonempty = frame_nonempty;
  part_waits = λ x g ys p h.
      let (a, b) = part_short_of (x ∷ g) ys p h in (handle_package (x ∷ (g ++ ys)), refl, a, b);
}

-- The socket of a pipe, with whole messages and then nothing or a first part of a message in its
-- buffer, 16384 bytes at most, hands over exactly the messages, one by one, and keeps the part.
pub process_data-messages :
    (again : Bool) (s : Socket) (n : ℕ) (ms : List (List ℕ)) (g : List ℕ)
    → s.read_buffer_pos + n ≤ length s.read_buffer
    → s.read_buffer_pos + n ≤ read_buffer_size
    → s.has_connection ≡ true
    → All IsMessage ms
    → (g ≡ []) ⊎ IsPart g
    → pending (received s n) ≡ join ms ++ g
    → ((process_data (pipe_conn again) s n).1 ≡ map deliver ms)
      × (pending (process_data (pipe_conn again) s n).0 ≡ g)
process_data-messages again s n = process_data-frames (pipe-Delimits again) s n
