-- ===== src/Kcp/Listener/Isolated.antt =====
-- What the listener makes of the datagrams of several peers, against one connection on its own.
use knet.Base.{
  ℕ, suc, Bool, ◌&&◌, leb, length, ◌≡◌, true, Option, none, some, List, [], ◌∷◌, ◌++◌,
  if◌then◌else◌, Text, same_text,
}
use knet.Kcp.Ikcp.{Ikcp}
use knet.Kcp.Connection.{KcpConnection, KcpEffect, Step}
use knet.Kcp.Receive.{andthen}
use knet.Kcp.Listener.{KcpListener, Received, find_connection, Listening, receive_on, on_received}

-- The effects that have this peer.
abbrev pub effects_of : Text → List (Text × KcpEffect) → List KcpEffect
effects_of pt [] = []
effects_of pt ((q, e) ∷ es) =
    let rest = effects_of pt es in if same_text q pt then e ∷ rest else rest

module _ (ikcp : Ikcp) where
  open ikcp use {Control}

  abbrev pub both : Listening ikcp → (KcpListener Control → Listening ikcp) → Listening ikcp
  both (l, es) f = let (l', fs) = f l in (l', es ++ fs)

  -- The receives of the listener, as long as one is outstanding.
  abbrev pub receive_all : List (Received Control) → KcpListener Control → Listening ikcp
  receive_all [] l = (l, [])
  receive_all (r ∷ rs) l =
      let rest = both (on_received ikcp r l) (receive_all rs) in if l.running then rest else (l, [])

  -- A connection that is given the datagrams of its peer, and nothing else in the buffer, up to the end
  -- of the receiving.
  abbrev pub own_by :
      Option (List ℕ)
      → Text
      → Received Control
      → (KcpConnection Control → Step Control)
      → KcpConnection Control
      → Step Control
  own_by none pt r f c = (c, [])
  own_by (some []) pt r f c = (c, [])
  own_by (some (x ∷ xs)) pt r f c =
      andthen ikcp
        (if same_text r.peer pt then receive_on ikcp r (suc (length xs)) (x ∷ xs) c else (c, [])) f

  abbrev pub own : Text → List (Received Control) → KcpConnection Control → Step Control
  own pt [] c = (c, [])
  own pt (r ∷ rs) c = own_by r.bytes pt r (own pt rs) c

  -- The datagrams of a peer have the five bytes of a message head that are read.
  abbrev pub whole_by : Option (List ℕ) → Text → Received Control → Bool
  whole_by none pt r = true
  whole_by (some []) pt r = true
  whole_by (some (x ∷ xs)) pt r = if same_text r.peer pt then leb 5 (length (x ∷ xs)) else true

  abbrev pub all_whole : Text → List (Received Control) → Bool
  all_whole pt [] = true
  all_whole pt (r ∷ rs) = whole_by r.bytes pt r && all_whole pt rs

  -- The table has what a step made of the connection of a peer, and so have the effects.
  abbrev Shows : Text → Listening ikcp → Step Control → Type 0
  Shows pt (l, es) (c, fs) = (find_connection pt l ≡ some c) × (effects_of pt es ≡ fs)
