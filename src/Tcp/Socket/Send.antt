-- ===== src/Tcp/Socket/Send.antt =====
-- What `msend` and the handlers of the write buffers do to a socket.
use knet.Base.{
  ℕ, suc, ◌%◌, ◌^◌, ◌≡◌, refl, sym, ap, ◌∙◌, ◌⊎◌, inl, inr, Bool, add32, ltb, true, false, List, [],
  ◌∷◌, ◌++◌, append_assoc, append-nil, arith, if◌then◌else◌, ◌==◌, length, Bool-cases, if_false,
  if_true, ne→not-==,
}
use knet.Tcp.Socket.{
  Socket, Step, start_write, ◌then◌, do_async_write, send_task, mpush, msend, write_data, is_open,
}

-- The bytes of `parts` that `mpush` appends to `buffer`: it stops behind a part that leaves the buffer
-- with a size of 0 in 32 bits.
abbrev pub taken : List ℕ → List (List ℕ) → List ℕ
taken buffer [] = []
taken buffer (part ∷ rest) =
    let more = taken (buffer ++ part) rest in
    if length (buffer ++ part) % 2 ^ 32 == 0 then part else part ++ more

suc_test : (n : ℕ) → (suc n == 0) ≡ false
suc_test n = ne→not-== (suc n) 0 (omega arith)

-- `do_async_write` on an empty cache.
abbrev pub flush : Socket → List ℕ → Step
flush s [] = (record s { is_writing = false }, [])
flush s (x ∷ xs) = (
  record s { send_buffer = s.cache_buffer; cache_buffer = s.send_buffer; is_writing = true },
  start_write s.send_buffer ∷ [],
)

pub List-cases : {A : Type 0} (l : List A) → (l ≡ []) ⊎ ((x : A) × (xs : List A) × (l ≡ x ∷ xs))
List-cases [] = inl refl
List-cases (x ∷ xs) = inr (x, xs, refl)

pub do_async_write-flush :
    (s : Socket) → s.cache_buffer ≡ [] → do_async_write s ≡ flush s s.send_buffer
unfolding do_async_write
do_async_write-flush s e = elim (List-cases s.send_buffer) [
  | inl e' ↦ rw (e, e') refl
  | inr (x, xs, e') ↦ rw (e, e', suc_test (length xs)) (if_false _ _ (suc_test (length xs)))
]

mpush_taken :
    (parts : List (List ℕ)) (s : Socket)
    → (mpush s parts).1 ≡ record s { send_buffer = s.send_buffer ++ taken s.send_buffer parts }
unfolding mpush write_data
mpush_taken [] s = ap (λ b. record s { send_buffer = b }) (sym (append-nil s.send_buffer))
mpush_taken (part ∷ rest) s =
    let sent = s.send_buffer ++ part in
    let n = length sent % 2 ^ 32 in
    let s' = record s { send_buffer = sent } in
    let m = mpush s' rest in
    let pick : Bool → ℕ × Socket = λ b. if b then (add32 n m.0, m.1) else (0, s') in
    elim (Bool-cases (n == 0)) [
      | inl e ↦
          let none_left : ltb 0 n ≡ false = ground arith in
          ap (λ b. (pick b).1) none_left
          ∙ ap (λ l. record s { send_buffer = s.send_buffer ++ l }) (sym (if_true _ _ e))
      | inr e ↦
          let some_left : ltb 0 n ≡ true = ground arith in
          ap (λ b. (pick b).1) some_left
          ∙ mpush_taken rest s'
          ∙ ap (λ l. record s { send_buffer = l })
              (append_assoc s.send_buffer part (taken sent rest))
          ∙ ap (λ l. record s { send_buffer = s.send_buffer ++ l }) (sym (if_false _ _ e))
    ]

-- What `msend` does to an open socket, and to another.
pub msend-open :
    (s : Socket) (parts : List (List ℕ))
    → is_open s ≡ true
    → (msend s parts).1 ≡ record s { send_buffer = s.send_buffer ++ taken s.send_buffer parts }
unfolding msend
msend-open s parts o = rw o (mpush_taken parts s)

pub msend-shut : (s : Socket) (parts : List (List ℕ)) → is_open s ≡ false → (msend s parts).1 ≡ s
unfolding msend
msend-shut s parts o = rw o refl

-- `msend` touches the send buffer only.
pub msend_keeps :
    (s : Socket) (parts : List (List ℕ))
    → ((msend s parts).1.status ≡ s.status)
      × ((msend s parts).1.has_connection ≡ s.has_connection)
      × ((msend s parts).1.is_writing ≡ s.is_writing)
msend_keeps s parts = elim (Bool-cases (is_open s)) [
  | inl o ↦ rw (msend-open s parts o) (refl, refl, refl)
  | inr o ↦ rw (msend-shut s parts o) (refl, refl, refl)
]

-- The handlers on an empty cache.
pub send_task-idle :
    (s : Socket) → s.is_writing ≡ false → s.cache_buffer ≡ [] → send_task s ≡ flush s s.send_buffer
unfolding send_task
send_task-idle s w e = if_false _ _ w ∙ do_async_write-flush s e

pub send_task-busy : (s : Socket) → s.is_writing ≡ true → send_task s ≡ (s, [])
unfolding send_task
send_task-busy s w = if_true _ _ w
