-- ===== src/Tcp/Protocol.antt =====
-- The protocol in which a `TcpSocket` calls its connection, as a machine that hears the effects.
use knet.Base.{
  ◌≡◌, refl, sym, ap, ◌∙◌, Bool, true, false, Option, none, some, List, [], ◌∷◌, ◌++◌,
  if◌then◌else◌,
}
use knet.Event.{evt_disconnect}
use knet.Tcp.Socket.{
  SocketStatus, socket_reconnect, Socket, Step, Effect, event, deliver, released, start_read,
  start_write, start_connect, close_sock, ◌then◌,
}

-- The protocol of the calls into a connection: any events and data, then the disconnect event, then
-- `release`, then nothing.
pub data Phase : Type 0 where
  attached told gone : Phase

-- `none` is a call out of order. What only asio sees does not count.
abbrev pub hear : Phase → Effect → Option Phase
hear p (start_read n) = some p
hear p (start_write bytes) = some p
hear p start_connect = some p
hear p close_sock = some p
hear attached (event evt_disconnect) = some told
hear attached (event e) = some attached
hear attached (deliver bytes) = some attached
hear attached released = none
hear told (event e) = none
hear told (deliver bytes) = none
hear told released = some gone
hear gone (event e) = none
hear gone (deliver bytes) = none
hear gone released = none

abbrev pub hear_all : Option Phase → List Effect → Option Phase
hear_all o [] = o
hear_all none (e ∷ es) = none
hear_all (some p) (e ∷ es) = hear_all (hear p e) es

abbrev pub phase_of : Socket → Phase
phase_of s = if s.has_connection then attached else gone

-- A status that a socket without reconnect keeps away from.
abbrev pub settled : SocketStatus → Bool
settled socket_reconnect = false
settled _ = true

-- The step keeps to the protocol, from the phase `p`.
pub record Follows (p : Phase) (r : Step) : Type 0 where
  pub heard : hear_all (some p) r.1 ≡ some (phase_of r.0)
  pub status_ok : settled r.0.status ≡ true

hear_all-none : (es : List Effect) → hear_all none es ≡ none
hear_all-none [] = refl
hear_all-none (e ∷ es) = refl

pub hear_all-append :
    (o : Option Phase) (es fs : List Effect) → hear_all o (es ++ fs) ≡ hear_all (hear_all o es) fs
hear_all-append o [] fs = refl
hear_all-append none (e ∷ es) fs = sym (hear_all-none fs)
hear_all-append (some p) (e ∷ es) fs = hear_all-append (hear p e) es fs

pub then_at :
    {p : Phase} {r : Step} (f : Socket → Step)
    → Follows p r
    → Follows (phase_of r.0) (f r.0)
    → Follows p (r then f)
then_at {p} {r} f a b = record {
  heard = hear_all-append (some p) r.1 (f r.0).1 ∙ ap (λ o. hear_all o (f r.0).1) a.heard ∙ b.heard;
  status_ok = b.status_ok;
}

-- A handler that follows the protocol from every settled socket.
abbrev pub FollowAll : (Socket → Step) → Type 0
FollowAll f = (t : Socket) → settled t.status ≡ true → Follows (phase_of t) (f t)

pub then_all :
    {p : Phase} {r : Step} (f : Socket → Step) → Follows p r → FollowAll f → Follows p (r then f)
then_all {p} {r} f a b = then_at f a (b r.0 a.status_ok)
