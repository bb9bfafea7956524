-- ===== src/Tcp/Reading/Frames.antt =====
-- `process_data` with a connection whose `process_package` finds the frames of a stream.
use knet.Base.{
  ℕ, zero, suc, ◌+◌, ◌-◌, ◌≤◌, ◌<◌, ◌≡◌, refl, sym, ap, ap₂, ◌∙◌, ◌⊎◌, inl, inr, true, false, ◌||◌,
  not, List, [], ◌∷◌, ◌++◌, map, append_assoc, pos, arith, ltb, lt→ltb, ◌==◌, length, take, drop,
  join, length-append, length-take, length-drop, take-append-drop, take_add, take-drop, drop_add,
  take_append, drop_append, Bool-cases, le→not-ltb, ne→not-==,
}
use knet.Tcp.Socket.{Socket, Conn, Effect, deliver, read_buffer_size}
use knet.Tcp.Reading.{
  Cut, stopped, on_package, view_at, cut_packages, keep_rest, end_round, process_data,
}
use knet.Tcp.Reading.Framing.{usable, cut_more, cut_stop}
use knet.Tcp.Reading.Stream.{pending, received, pending-keep_rest}

-- What a protocol's `process_package` says at a frame and at a part of one, whatever bytes of the
-- buffer follow.
pub record Delimits (c : Conn) (IsFrame IsPart : List ℕ → Type 0) : Type 0 where
  pub frame_length : (f ys : List ℕ) → IsFrame f → c.process_package (f ++ ys) ≡ pos (length f)
  pub frame_nonempty : (f : List ℕ) → IsFrame f → 0 < length f
  pub part_waits :
      (x : ℕ) (g ys : List ℕ)
      → IsPart (x ∷ g)
      → suc (length (g ++ ys)) ≤ read_buffer_size
      → (n : ℕ) × (c.process_package (x ∷ (g ++ ys)) ≡ pos n)
        × (n ≤ read_buffer_size)
        × (usable (pos n) (suc (length g)) ≡ false)

pub data All (P : List ℕ → Type 0) : List (List ℕ) → Type 0 where
  none_left : All P []
  one_more : {f : List ℕ} {fs : List (List ℕ)} → P f → All P fs → All P (f ∷ fs)

module _ (s : Socket) (fits : s.read_buffer_pos ≤ length s.read_buffer) where
  length-pending : length (pending s) ≡ s.read_buffer_pos
  length-pending = omega (arith, length-take s.read_buffer_pos s.read_buffer, fits)

  -- The view goes beyond the bytes that are there, by as many as the loop has passed.
  view_at-pending :
      (at : ℕ)
      → at ≤ s.read_buffer_pos
      → view_at s at ≡ drop at (pending s) ++ take at (drop s.read_buffer_pos s.read_buffer)
  view_at-pending at le =
      let e : s.read_buffer_pos ≡ (s.read_buffer_pos - at) + at = omega arith in
      let e' : at + (s.read_buffer_pos - at) ≡ s.read_buffer_pos = omega arith in
      ap (λ n. take n (drop at s.read_buffer)) e
      ∙ take_add (s.read_buffer_pos - at) at (drop at s.read_buffer)
      ∙ ap₂ (λ (a b : List ℕ). a ++ b) (take-drop at s.read_buffer_pos s.read_buffer)
          (ap (take at) (
            sym (drop_add at (s.read_buffer_pos - at) s.read_buffer)
            ∙ ap (λ n. drop n s.read_buffer) e'))

  -- A frame that is there is what the loop hands over.
  block_at :
      (at : ℕ) (f ys : List ℕ)
      → drop at (pending s) ≡ f ++ ys
      → take (length f) (drop at s.read_buffer) ≡ f
  block_at at f ys e =
      let l = drop at s.read_buffer in
      let d = drop (s.read_buffer_pos - at) l in
      let split : l ≡ f ++ (ys ++ d) =
        sym (take-append-drop (s.read_buffer_pos - at) l)
        ∙ ap (λ b. b ++ d) (take-drop at s.read_buffer_pos s.read_buffer ∙ e)
        ∙ append_assoc f ys d in
      ap (take (length f)) split ∙ take_append f (ys ++ d)

  left_at :
      (at : ℕ) (ys : List ℕ)
      → at ≤ s.read_buffer_pos
      → drop at (pending s) ≡ ys
      → s.read_buffer_pos - at ≡ length ys
  left_at at ys le e = omega (arith, length-drop at (pending s), length-pending, ap length e)

  -- A length that is not usable ends the loop.
  too_short :
      (at n left : ℕ) (rest : ℕ → Cut × List Effect)
      → s.read_buffer_pos - at ≡ left
      → n ≤ read_buffer_size
      → usable (pos n) left ≡ false
      → on_package s at (pos n) rest ≡ (stopped at, [])
  too_short at n left rest e small waits = elim (Bool-cases ((n == 0) || ltb left n)) [
    | inl h ↦ rw (e, h, le→not-ltb read_buffer_size n small) refl
    | inr h ↦ absurd (cc (waits, ap not h))
  ]

module _ {c : Conn} {IsFrame IsPart : List ℕ → Type 0} (speaks : Delimits c IsFrame IsPart)
    (s : Socket) (fits : s.read_buffer_pos ≤ length s.read_buffer) (here : s.has_connection ≡ true)
    (small : s.read_buffer_pos ≤ read_buffer_size) where
  -- The loop at a frame: it hands the frame over and goes on behind it.
  cut_frame :
      (fuel at : ℕ) (f ys : List ℕ)
      → IsFrame f
      → at ≤ s.read_buffer_pos
      → drop at (pending s) ≡ f ++ ys
      → cut_packages c s (suc fuel) at ≡ (
        (cut_packages c s fuel (at + length f)).0,
        deliver f ∷ (cut_packages c s fuel (at + length f)).1,
      )
  cut_frame fuel at f ys isf le e =
      let some_byte = speaks.frame_nonempty f isf in
      let left = left_at s fits at (f ++ ys) le e in
      let many = length-append f ys in
      let stale = take at (drop s.read_buffer_pos s.read_buffer) in
      let said : c.process_package (view_at s at) ≡ pos (length f) =
        ap c.process_package
          (view_at-pending s fits at le ∙ ap (λ b. b ++ stale) e ∙ append_assoc f ys stale)
        ∙ speaks.frame_length f (ys ++ stale) isf in
      cut_more c s fuel at
        (rw (lt→ltb at s.read_buffer_pos (omega (arith, some_byte, left, many)), here) refl)
      ∙ ap (λ n. on_package s at n (λ len. cut_packages c s fuel (at + len))) said
      ∙ rw
          (
            ne→not-== (length f) 0 (omega (arith, some_byte)),
            le→not-ltb (s.read_buffer_pos - at) (length f) (omega (arith, left, many)),
          )
          (ap
            (λ b. (
              (cut_packages c s fuel (at + length f)).0,
              deliver b ∷ (cut_packages c s fuel (at + length f)).1,
            ))
            (block_at s fits at f ys e))

  -- The loop at a part of a frame, and at the end.
  cut_part :
      (fuel at x : ℕ) (g : List ℕ)
      → IsPart (x ∷ g)
      → at ≤ s.read_buffer_pos
      → drop at (pending s) ≡ x ∷ g
      → cut_packages c s (suc fuel) at ≡ (stopped at, [])
  cut_part fuel at x g isp le e =
      let left = left_at s fits at (x ∷ g) le e in
      let stale = take at (drop s.read_buffer_pos s.read_buffer) in
      let view : view_at s at ≡ x ∷ (g ++ stale) =
        view_at-pending s fits at le ∙ ap (λ b. b ++ stale) e in
      let short : suc (length (g ++ stale)) ≤ read_buffer_size =
        omega
          (arith, small, ap length view, length-take s.read_buffer_pos (drop at s.read_buffer)) in
      let (n, says, fits_buffer, waits) = speaks.part_waits x g stale isp short in
      let said : c.process_package (view_at s at) ≡ pos n = ap c.process_package view ∙ says in
      cut_more c s fuel at (rw (lt→ltb at s.read_buffer_pos (omega (arith, left)), here) refl)
      ∙ ap (λ m. on_package s at m (λ len. cut_packages c s fuel (at + len))) said
      ∙ too_short s fits at n (suc (length g)) (λ len. cut_packages c s fuel (at + len)) left
          fits_buffer waits

  cut_end :
      (fuel at : ℕ)
      → at ≤ s.read_buffer_pos
      → drop at (pending s) ≡ []
      → cut_packages c s (suc fuel) at ≡ (stopped at, [])
  cut_end fuel at le e =
      let left = left_at s fits at [] le e in
      cut_stop c s fuel at (rw (le→not-ltb at s.read_buffer_pos (omega (arith, left))) refl)

  cut_rest :
      (fuel at : ℕ) (g : List ℕ)
      → (g ≡ []) ⊎ IsPart g
      → at ≤ s.read_buffer_pos
      → drop at (pending s) ≡ g
      → cut_packages c s (suc fuel) at ≡ (stopped at, [])
  cut_rest fuel at [] isp le e = cut_end fuel at le e
  cut_rest fuel at (x ∷ g) (inl none) le e = absurd (cc none)
  cut_rest fuel at (x ∷ g) (inr isp) le e = cut_part fuel at x g isp le e

  cut_frames :
      (fs : List (List ℕ)) (g : List ℕ) (fuel at : ℕ)
      → All IsFrame fs
      → (g ≡ []) ⊎ IsPart g
      → s.read_buffer_pos - at < fuel
      → at ≤ s.read_buffer_pos
      → drop at (pending s) ≡ join fs ++ g
      → cut_packages c s fuel at ≡ (stopped (at + length (join fs)), map deliver fs)
  cut_frames fs g zero at a isp enough le e = absurd (omega arith)
  cut_frames [] g (suc fuel) at a isp enough le e =
      let z : at ≡ at + 0 = omega arith in cut_rest fuel at g isp le e ∙ ap (λ n. (stopped n, [])) z
  cut_frames (f ∷ fs) g (suc fuel) at (one_more isf a) isp enough le e =
      let ys = join fs ++ g in
      let e' : drop at (pending s) ≡ f ++ ys = e ∙ append_assoc f (join fs) g in
      let left = left_at s fits at (f ++ ys) le e' in
      let many = length-append f ys in
      let more = speaks.frame_nonempty f isf in
      let sum : at + length f + length (join fs) ≡ at + length (f ++ join fs) =
        omega (arith, length-append f (join fs)) in
      let next : drop (at + length f) (pending s) ≡ ys =
        drop_add at (length f) (pending s) ∙ ap (drop (length f)) e' ∙ drop_append f ys in
      cut_frame fuel at f ys isf le e'
      ∙ ap (λ (r : Cut × List Effect). (r.0, deliver f ∷ r.1))
          (cut_frames fs g fuel (at + length f) a isp (omega (arith, left, many, more))
            (omega (arith, left, many)) next)
      ∙ ap (λ n. (stopped n, deliver f ∷ map deliver fs)) sum

-- On a connection that is there, with the frames `fs` and then `g` in the buffer, `g` being empty or a
-- part of a frame, `process_data` hands over exactly the frames, one by one, and keeps `g`, whatever
-- older bytes lie behind, which `process_package` is shown too. At most 16384 bytes are there. The connection's protocol says the
-- length of a frame at the frame, and at a part 0 or more than is there, the buffer size at most.
pub process_data-frames :
    {c : Conn} {IsFrame IsPart : List ℕ → Type 0} (speaks : Delimits c IsFrame IsPart) (s : Socket)
    (n : ℕ) (fs : List (List ℕ)) (g : List ℕ)
    → s.read_buffer_pos + n ≤ length s.read_buffer
    → s.read_buffer_pos + n ≤ read_buffer_size
    → s.has_connection ≡ true
    → All IsFrame fs
    → (g ≡ []) ⊎ IsPart g
    → pending (received s n) ≡ join fs ++ g
    → ((process_data c s n).1 ≡ map deliver fs) × (pending (process_data c s n).0 ≡ g)
unfolding process_data
process_data-frames {c} speaks s n fs g fits small here a isp e =
    let s' = received s n in
    let k = length (join fs) in
    let cut =
      cut_frames speaks s' fits here small fs g (suc s'.read_buffer_pos) 0 a isp (omega arith)
        (omega arith) e in
    let fit_fs : k ≤ s'.read_buffer_pos =
      omega (arith, length-pending s' fits, ap length e, length-append (join fs) g) in
    let k' : 0 + k ≡ k = omega arith in
    (
      ap (λ r. (end_round c s' r).1) cut,
      ap (λ r. pending (end_round c s' r).0) cut
          ∙ ap (λ m. pending (keep_rest s' m)) k'
          ∙ pending-keep_rest s' k fit_fs fits
          ∙ ap (drop k) e
          ∙ drop_append (join fs) g,
    )
