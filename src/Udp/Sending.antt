-- ===== src/Udp/Sending.antt =====
-- The result of `msend`, and what it sends.
use knet.Base.{
  ◌+◌, ◌*◌, ◌≡◌, sym, ap, ap₂, ◌∙◌, true, false, List, [], ◌∷◌, ◌++◌, append_assoc, append-nil,
  arith, pos, minus_one, if◌then◌else◌, length, length-append, join, Text, is_empty, Bool-cases,
  inl, inr, if_true, if_false,
}
use knet.Udp.Connection.{UdpConnection, UdpEffect, datagram, add_result, mpush, msend}

-- One datagram, unless there are no bytes.
abbrev pub one_datagram : Text → List UdpEffect
one_datagram bytes = if is_empty bytes then [] else datagram bytes ∷ []

push_last :
    (c : UdpConnection) (buffer : Text)
    → c.udp_socket ≡ true
    → mpush c [] buffer ≡ (pos (length buffer), one_datagram buffer)
unfolding mpush
push_last c [] up = ground arith
push_last c (x ∷ buffer) up = ground arith

mpush_sum :
    (c : UdpConnection) (parts : List Text) (buffer : Text)
    → c.udp_socket ≡ true
    → mpush c parts buffer ≡ (
      pos (length (join parts) + length (buffer ++ join parts)),
      one_datagram (buffer ++ join parts),
    )
unfolding mpush
mpush_sum c [] buffer up =
    push_last c buffer up
    ∙ ap₂ (λ n (b : Text). (pos n, one_datagram b)) (omega (arith, length-append buffer []))
        (sym (append-nil buffer))
mpush_sum c (part ∷ rest) buffer up =
    ap (add_result (length part)) (mpush_sum c rest (buffer ++ part) up)
    ∙ ap₂ (λ n (b : Text). (pos n, one_datagram b))
        (omega
          (arith, length-append part (join rest), ap length (append_assoc buffer part (join rest))))
        (append_assoc buffer part (join rest))

mpush_closed :
    (c : UdpConnection) (parts : List Text) (buffer : Text)
    → c.udp_socket ≡ false
    → mpush c parts buffer ≡ (minus_one, [])
unfolding mpush
mpush_closed c [] buffer down = ground arith
mpush_closed c (part ∷ rest) buffer down =
    ap (add_result (length part)) (mpush_closed c rest (buffer ++ part) down)

-- With a socket, msend sends the bytes of all parts in one datagram, or none if there are no bytes, and
-- returns twice their number; without one it sends nothing and returns -1.
pub msend-twice :
    (c : UdpConnection) (parts : List Text)
    → msend c parts ≡ (
        if c.udp_socket
        then (pos (2 * length (join parts)), one_datagram (join parts))
        else (minus_one, []))
unfolding msend
msend-twice c parts = elim (Bool-cases c.udp_socket) [
  | inl up ↦
      mpush_sum c parts [] up
      ∙ ap (λ n. (pos n, one_datagram (join parts))) (omega arith)
      ∙ sym (if_true _ _ up)
  | inr down ↦ mpush_closed c parts [] down ∙ sym (if_false _ _ down)
]
