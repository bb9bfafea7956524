-- ===== src/Tcp/Reading/Stream.antt =====
-- `process_data` of include/tcp/asio/tcp_socket.hpp: what becomes of the bytes that are received.
use knet.Base.{
  ℕ, suc, ◌+◌, ◌-◌, ◌≤◌, ◌<◌, ◌≡◌, refl, sym, ap, ◌∙◌, ◌⊎◌, inl, inr, List, pos, arith, ltb, length,
  take, drop, copy_to, length-take, length-drop, take-drop, take-copy_to, take-take, Bool-cases,
  min,
}
use knet.Tcp.Socket.{Socket, Conn, Step, Effect, do_close, read_buffer_size}
use knet.Tcp.Reading.{Cut, stopped, too_big, view_at, keep_rest, end_round, process_data}
use knet.Tcp.Reading.Framing.{delivered, Rests, Cutting, cut_packages-Cutting, closing_delivers}

-- The bytes that are in the buffer and not handed over.
abbrev pub pending : Socket → List ℕ
pending s = take s.read_buffer_pos s.read_buffer

-- `read_buffer_pos += nread`
abbrev pub received : Socket → ℕ → Socket
received s n = record s { read_buffer_pos = s.read_buffer_pos + n }

abbrev left_over : Socket → ℕ → List ℕ
left_over s p = take (s.read_buffer_pos - p) (drop p s.read_buffer)

length-left_over :
    (s : Socket) (p : ℕ)
    → length (left_over s p) ≡ min (s.read_buffer_pos - p) (length s.read_buffer - p)
length-left_over s p =
    omega (
      arith,
      length-take (s.read_buffer_pos - p) (drop p s.read_buffer),
      length-drop p s.read_buffer,
    )

pub pending-keep_rest :
    (s : Socket) (p : ℕ)
    → p ≤ s.read_buffer_pos
    → s.read_buffer_pos ≤ length s.read_buffer
    → pending (keep_rest s p) ≡ drop p (pending s)
unfolding keep_rest
pending-keep_rest s p le fits = elim (Bool-cases (ltb p s.read_buffer_pos)) [
  | inl e ↦
      let n : s.read_buffer_pos - p ≡ 0 + length (left_over s p) =
        omega (arith, length-left_over s p, fits) in
      rw e (
        ap (λ m. take m (copy_to s.read_buffer 0 (left_over s p))) n
        ∙ take-copy_to (left_over s p) s.read_buffer 0 (omega (arith, length-left_over s p, fits))
        ∙ take-drop p s.read_buffer_pos s.read_buffer)
  | inr e ↦
      let z : s.read_buffer_pos - p ≡ 0 = ground arith in
      rw e (
        ap (λ m. take m s.read_buffer) z
        ∙ ap (λ m. take m (drop p s.read_buffer)) (sym z)
        ∙ take-drop p s.read_buffer_pos s.read_buffer)
]

-- What `process_data` does with what is there, and why it stops: there is no package at the end that
-- it leaves, or a package is larger than the buffer.
abbrev pub Handled : Conn → Socket → Step → Type 0
Handled c s (t, es) =
    ((p : ℕ) × (delivered es ≡ take p (pending s))
      × (pending t ≡ drop p (pending s))
      × (t.read_buffer_pos ≤ s.read_buffer_pos)
      × Rests c s p)
    ⊎ ((p : ℕ) × (n : ℕ) × (delivered es ≡ take p (pending s))
        × (c.process_package (view_at s p) ≡ pos n)
        × (read_buffer_size < n)
        × (t ≡ (do_close c s).0))

take-pending :
    (s : Socket) (p : ℕ)
    → p ≤ s.read_buffer_pos
    → take (p - 0) (drop 0 s.read_buffer) ≡ take p (pending s)
take-pending s p le = take-take p s.read_buffer_pos s.read_buffer le

end_round-Handled :
    (c : Conn) (s : Socket) (r : Cut × List Effect)
    → s.read_buffer_pos ≤ length s.read_buffer
    → Cutting c s 0 r
    → Handled c s (end_round c s r)
unfolding keep_rest
end_round-Handled c s (stopped p, es) fits (lo, hi, d, why) =
    inl (p, d ∙ take-pending s p hi, pending-keep_rest s p hi fits, omega arith, why)
end_round-Handled c s (too_big, es) fits (p, lo, hi, d, n, said, big) =
    inr (p, n, closing_delivers c s es ∙ d ∙ take-pending s p hi, said, big, refl)

-- `process_data` hands over a first part of the bytes that are there, in order, and moves the rest to
-- the front of the buffer, where the loop has found no package to take; or it closes, on a package
-- that says it is larger than the buffer. The received bytes are within the buffer.
pub process_data-Handled :
    (c : Conn) (s : Socket) (n : ℕ)
    → s.read_buffer_pos + n ≤ length s.read_buffer
    → Handled c (received s n) (process_data c s n)
unfolding process_data
process_data-Handled c s n fits = end_round-Handled c (received s n) _ fits (
    cut_packages-Cutting c (received s n) (suc (s.read_buffer_pos + n)) 0 (omega arith)
      (omega arith))
