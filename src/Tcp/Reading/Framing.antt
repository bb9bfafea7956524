-- ===== src/Tcp/Reading/Framing.antt =====
-- The rounds of the loop of `process_data`.
use knet.Base.{
  ℕ, zero, suc, ◌+◌, ◌-◌, ◌≤◌, ◌<◌, ◌≡◌, refl, sym, ap, ◌∙◌, ◌⊎◌, inl, inr, Bool, true, false, not,
  ◌&&◌, ◌||◌, ltb, ltb→lt, ◌==◌, List, [], ◌∷◌, ◌++◌, append_assoc, append-nil, ℤ, pos, negsuc,
  arith, take, drop, take_add, drop_add, Bool-cases,
}
use knet.Tcp.Socket.{
  Socket, Conn, Effect, event, deliver, released, start_read, start_write, start_connect,
  close_sock, read_buffer_size, do_close,
}
use knet.Tcp.Reading.{Cut, stopped, too_big, on_package, view_at, cut_packages}

-- The bytes that effects hand to the connection.
abbrev pub delivered : List Effect → List ℕ
delivered [] = []
delivered (deliver bytes ∷ es) = bytes ++ delivered es
delivered (event e ∷ es) = delivered es
delivered (released ∷ es) = delivered es
delivered (start_read n ∷ es) = delivered es
delivered (start_write bytes ∷ es) = delivered es
delivered (start_connect ∷ es) = delivered es
delivered (close_sock ∷ es) = delivered es

delivered-append : (es fs : List Effect) → delivered (es ++ fs) ≡ delivered es ++ delivered fs
delivered-append [] fs = refl
delivered-append (deliver bytes ∷ es) fs =
    ap (λ l. bytes ++ l) (delivered-append es fs)
    ∙ sym (append_assoc bytes (delivered es) (delivered fs))
delivered-append (event e ∷ es) fs = delivered-append es fs
delivered-append (released ∷ es) fs = delivered-append es fs
delivered-append (start_read n ∷ es) fs = delivered-append es fs
delivered-append (start_write bytes ∷ es) fs = delivered-append es fs
delivered-append (start_connect ∷ es) fs = delivered-append es fs
delivered-append (close_sock ∷ es) fs = delivered-append es fs

-- A close delivers nothing.
delivered-do_close : (c : Conn) (s : Socket) → delivered (do_close c s).1 ≡ []
unfolding do_close
delivered-do_close c s = ground arith

pub closing_delivers :
    (c : Conn) (s : Socket) (es : List Effect) → delivered (es ++ (do_close c s).1) ≡ delivered es
closing_delivers c s es =
    delivered-append es (do_close c s).1
    ∙ ap (λ l. delivered es ++ l) (delivered-do_close c s)
    ∙ append-nil (delivered es)

-- A length of `process_package` that the loop takes where `left` bytes are left.
abbrev pub usable : ℤ → ℕ → Bool
usable (negsuc n) left = false
usable (pos n) left = not ((n == 0) || ltb left n)

-- Why the loop stops at `p`: no byte or no connection is left, or no package begins there.
abbrev pub Rests : Conn → Socket → ℕ → Type 0
Rests c s p =
    ((ltb p s.read_buffer_pos && s.has_connection) ≡ false)
    ⊎ (usable (c.process_package (view_at s p)) (s.read_buffer_pos - p) ≡ false)

-- The loop from `at` on: what is handed over is what lies before the end, in order, and it ends for
-- a reason of the code.
abbrev pub Cutting : Conn → Socket → ℕ → Cut × List Effect → Type 0
Cutting c s at (stopped p, es) =
    (at ≤ p)
    × (p ≤ s.read_buffer_pos)
    × (delivered es ≡ take (p - at) (drop at s.read_buffer))
    × Rests c s p
Cutting c s at (too_big, es) =
    (p : ℕ) × (at ≤ p)
    × (p ≤ s.read_buffer_pos)
    × (delivered es ≡ take (p - at) (drop at s.read_buffer))
    × (n : ℕ) × (c.process_package (view_at s p) ≡ pos n)
    × (read_buffer_size < n)

pub cut_stop :
    (c : Conn) (s : Socket) (fuel at : ℕ)
    → (ltb at s.read_buffer_pos && s.has_connection) ≡ false
    → cut_packages c s (suc fuel) at ≡ (stopped at, [])
unfolding cut_packages
cut_stop c s fuel at e = rw (e, cut_packages) refl

pub cut_more :
    (c : Conn) (s : Socket) (fuel at : ℕ)
    → (ltb at s.read_buffer_pos && s.has_connection) ≡ true
    → cut_packages c s (suc fuel) at
      ≡ on_package s at (c.process_package (view_at s at)) (λ len. cut_packages c s fuel (at + len))
unfolding cut_packages
cut_more c s fuel at e = rw (e, cut_packages) refl

or_false : (n left : ℕ) → ((n == 0) || ltb left n) ≡ false → (0 < n) × (n ≤ left)
or_false n left e = (ground arith, ground arith)

module _ (c : Conn) (s : Socket) where
  slice_add :
      (at n p : ℕ)
      → at + n ≤ p
      → take n (drop at s.read_buffer) ++ take (p - (at + n)) (drop (at + n) s.read_buffer)
        ≡ take (p - at) (drop at s.read_buffer)
  slice_add at n p h =
      ap (λ l. take n (drop at s.read_buffer) ++ take (p - (at + n)) l)
        (drop_add at n s.read_buffer)
      ∙ sym (take_add n (p - (at + n)) (drop at s.read_buffer))
      ∙ (let e : n + (p - (at + n)) ≡ p - at = omega arith in
          ap (λ m. take m (drop at s.read_buffer)) e)

  -- A package of `n` bytes in front of what the next rounds cut.
  package-Cutting :
      (at n : ℕ) (r : Cut × List Effect)
      → Cutting c s (at + n) r
      → Cutting c s at (r.0, deliver (take n (drop at s.read_buffer)) ∷ r.1)
  package-Cutting at n (stopped p, es) (lo, hi, d, why) =
      (omega arith, hi, ap (λ l. take n (drop at s.read_buffer) ++ l) d ∙ slice_add at n p lo, why)
  package-Cutting at n (too_big, es) (p, lo, hi, d, m, said, big) = (
    p,
    omega arith,
    hi,
    ap (λ l. take n (drop at s.read_buffer) ++ l) d ∙ slice_add at n p lo,
    m,
    said,
    big,
  )

  -- Nothing is cut.
  none_cut : (at : ℕ) → take (at - at) (drop at s.read_buffer) ≡ []
  none_cut at = let e : at - at ≡ 0 = omega arith in ap (λ m. take m (drop at s.read_buffer)) e

  on_package-Cutting :
      (at : ℕ) (len : ℤ) (rest : ℕ → Cut × List Effect)
      → at ≤ s.read_buffer_pos
      → c.process_package (view_at s at) ≡ len
      → ((n : ℕ) → 0 < n → at + n ≤ s.read_buffer_pos → Cutting c s (at + n) (rest n))
      → Cutting c s at (on_package s at len rest)
  on_package-Cutting at (negsuc n) rest hi said more =
      (omega arith, hi, sym (none_cut at), inr (rw said refl))
  on_package-Cutting at (pos n) rest hi said more =
      elim (Bool-cases ((n == 0) || ltb (s.read_buffer_pos - at) n)) [
        | inr e ↦ rw e (
            package-Cutting at n (rest n) (
              more n (or_false n (s.read_buffer_pos - at) e).0
                (omega (arith, (or_false n (s.read_buffer_pos - at) e).1, hi))))
        | inl e ↦ elim (Bool-cases (ltb read_buffer_size n)) [
          | inl b ↦
              rw (e, b)
                (at, omega arith, hi, sym (none_cut at), n, said, ltb→lt read_buffer_size n b)
          | inr b ↦ rw (e, b) (omega arith, hi, sym (none_cut at), inr (rw said (ap not e)))
        ]
      ]

  pub cut_packages-Cutting :
      (fuel at : ℕ)
      → s.read_buffer_pos - at < fuel
      → at ≤ s.read_buffer_pos
      → Cutting c s at (cut_packages c s fuel at)
  cut_packages-Cutting zero at h hi = absurd (omega arith)
  cut_packages-Cutting (suc fuel) at h hi =
      elim (Bool-cases (ltb at s.read_buffer_pos && s.has_connection)) [
        | inr e ↦ rw (cut_stop c s fuel at e) (omega arith, hi, sym (none_cut at), inl e)
        | inl e ↦ rw (cut_more c s fuel at e) (
            on_package-Cutting at (c.process_package (view_at s at))
              (λ len. cut_packages c s fuel (at + len)) hi refl
              (λ n p q. cut_packages-Cutting fuel (at + n) (omega arith) q))
      ]
