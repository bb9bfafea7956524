-- ===== src/Kcp/Sending.antt =====
-- What `msend` of include/kcp/kcp_connection.hpp gives to the KCP library: the reader of the ring is
-- called, and nothing is taken out of the ring afterwards.
use knet.Base.{
  ℕ, ◌+◌, ◌%◌, ◌^◌, ◌≤◌, ◌<◌, min, ◌≡◌, ◌≢◌, refl, sym, ap, ap₂, subst, ◌∙◌, inl, inr, some, List,
  [], ◌∷◌, ◌++◌, append-nil, append_assoc, arith, ℤ, pos, if_true, if_false, ◌==◌, ne→not-==,
  length, length-append, take, take_all, length-take, join, join-append, sub32,
}
use knet.Utils.LoopBuffer.{LoopBuffer, size, push, read, readable}
use knet.Utils.LoopBuffer.Contents.{IsValid, contents, buffer_size_bounds, mask}
use knet.Utils.LoopBuffer.Write.{push-Pushed, length-contents}
use knet.Utils.LoopBuffer.Read.{block_size, readable_lem}
use native.Mathlib.Nat.{mod-eq_of_lt}
use knet.Kcp.Ikcp.{Ikcp}
use knet.Kcp.Connection.{
  conn_kcp_ready, rank, KcpConnection, Step, write_data, flush_by, flush, msend,
}

-- A ring from which nothing was taken, with these bytes.
pub record Holds (b : LoopBuffer) (bytes : List ℕ) : Type 0 where
  pub valid : IsValid b
  pub at_start : b.head ≡ 0
  pub held : contents b ≡ bytes

head-push : (b : LoopBuffer) (xs : List ℕ) → (push b xs).1.head ≡ b.head
unfolding push
head-push b xs = ground arith

size_held : (b : LoopBuffer) (bytes : List ℕ) → Holds b bytes → size b ≡ length bytes
size_held b bytes h = sym (length-contents b) ∙ ap length h.held

-- A part that fits is added, and one that does not is not.
push-Holds :
    (b : LoopBuffer) (bytes xs : List ℕ)
    → Holds b bytes
    → length bytes + length xs ≤ b.buffer_size
    → Holds (push b xs).1 (bytes ++ xs) × ((push b xs).1.buffer_size ≡ b.buffer_size)
push-Holds b bytes xs h room =
    let p = push-Pushed xs h.valid in
    let n = size_held b bytes h in
    elim p.outcome [
      | inl (_, _, e) ↦ (
        record {
          valid = p.valid;
          at_start = head-push b xs ∙ h.at_start;
          held = e ∙ ap (λ l. l ++ xs) h.held;
        },
        p.same_size,
      )
      | inr (full, _, _) ↦ absurd (omega arith)
    ]

push_no_room :
    (b : LoopBuffer) (bytes xs : List ℕ)
    → Holds b bytes
    → b.buffer_size < length bytes + length xs
    → (push b xs).1 ≡ b
push_no_room b bytes xs h full =
    let p = push-Pushed xs h.valid in
    let n = size_held b bytes h in
    elim p.outcome [ inl (room, _, _) ↦ absurd (omega arith) | inr (_, _, same) ↦ same ]

-- A part of fewer than 2^32 bytes is given whole.
part_whole : (x : List ℕ) → length x < 2 ^ 32 → take (length x % 2 ^ 32) x ≡ x
part_whole x h = take_all (length x % 2 ^ 32) x (omega arith)

-- A part that fits the ring of fewer bytes than that.
part_fits :
    (b : LoopBuffer) (n : ℕ) (x : List ℕ)
    → IsValid b
    → n + length x ≤ b.buffer_size
    → length x < 2 ^ 32
part_fits b n x v h = omega (arith, (buffer_size_bounds v).1)

write_data-Holds :
    (parts : List (List ℕ)) (b : LoopBuffer) (bytes : List ℕ)
    → Holds b bytes
    → length bytes + length (join parts) ≤ b.buffer_size
    → Holds (write_data parts b) (bytes ++ join parts)
      × ((write_data parts b).buffer_size ≡ b.buffer_size)
write_data-Holds [] b bytes h room = (subst (Holds b) (sym (append-nil bytes)) h, refl)
write_data-Holds (x ∷ parts) b bytes h room =
    let n = length-append x (join parts) in
    let (h', same) = push-Holds b bytes x h (omega arith) in
    let (h'', same') =
      write_data-Holds parts (push b x).1 (bytes ++ x) h'
        (omega (arith, same, length-append bytes x)) in
    subst
      (λ (y : List ℕ).
        Holds (write_data parts (push b y).1) (bytes ++ join (x ∷ parts))
        × ((write_data parts (push b y).1).buffer_size ≡ b.buffer_size))
      (sym (part_whole x (part_fits b (length bytes) x h.valid (omega arith))))
      (
        subst (Holds (write_data parts (push b x).1)) (append_assoc bytes x (join parts)) h'',
        same' ∙ same,
      )

-- The reader is handed all of it.
block_all : (b : LoopBuffer) → IsValid b → b.head ≡ 0 → block_size b ≡ size b
block_all b v e =
    let z : b.head % b.buffer_size ≡ 0 =
      ap (λ h. h % b.buffer_size) e ∙ mod-eq_of_lt (buffer_size_bounds v).0 in
    omega (arith, z, v.fits, (buffer_size_bounds v).1)

read_block : (b : LoopBuffer) → IsValid b → size b ≢ 0 → read b ≡ (block_size b, readable b)
unfolding read
read_block b v some_ =
    if_false _ _ (ne→not-== _ 0 some_)
    ∙ ap (λ m. (min (size b) (sub32 b.buffer_size m), readable b)) (mask v b.head)

read-Holds :
    (b : LoopBuffer) (bytes : List ℕ)
    → Holds b bytes
    → 0 < length bytes
    → read b ≡ (length bytes, bytes)
read-Holds b bytes h filled =
    let n = size_held b bytes h in
    let all : block_size b ≡ length bytes = block_all b h.valid h.at_start ∙ n in
    read_block b h.valid (omega arith)
    ∙ ap₂ (λ i l. (i, l)) all
        (readable_lem h.valid ∙ ap₂ take all h.held ∙ take_all (length bytes) bytes (omega arith))

module _ (ikcp : Ikcp) where
  open ikcp use {Control}

  flush-Holds :
      (c : KcpConnection Control) (k : Control) (bytes : List ℕ)
      → c.conn_status ≡ conn_kcp_ready
      → c.kcp ≡ some k
      → Holds c.send_buffer bytes
      → 0 < length bytes
      → flush ikcp c ≡ (pos (length bytes), (record c { kcp = some (ikcp.send k bytes).0 }, []))
  unfolding flush
  flush-Holds c k bytes ready e h filled =
      if_true _ _ (ap (λ s. rank s == 2) ready)
      ∙ ap (λ o. flush_by ikcp o (read c.send_buffer) c) e
      ∙ ap (λ r. flush_by ikcp (some k) r c) (read-Holds c.send_buffer bytes h filled)
      ∙ if_false _ _ (ne→not-== (length bytes) 0 (omega arith))

  -- What is sent by calls of `msend` if each sends all bytes so far.
  abbrev pub resent : Control → List ℕ → List (List (List ℕ)) → Control
  resent k old [] = k
  resent k old (parts ∷ calls) =
      resent (ikcp.send k (old ++ join parts)).0 (old ++ join parts) calls

  abbrev pub msend_each : List (List (List ℕ)) → KcpConnection Control → KcpConnection Control
  msend_each [] c = c
  msend_each (parts ∷ calls) c = msend_each calls (msend ikcp parts c).1.0

  -- Each call has something to send.
  abbrev pub AllFilled : List (List (List ℕ)) → Type 0
  AllFilled [] = Unit {0}
  AllFilled (parts ∷ calls) = (0 < length (join parts)) × AllFilled calls

  written :
      (parts : List (List ℕ)) (b : LoopBuffer) (bytes : List ℕ)
      → Holds b bytes
      → length bytes + length (join parts) ≤ b.buffer_size
      → Holds (write_data ([] ∷ parts) b) (bytes ++ join parts)
        × ((write_data ([] ∷ parts) b).buffer_size ≡ b.buffer_size)
  written parts b bytes h room = write_data-Holds ([] ∷ parts) b bytes h room

  msend-Holds :
      (parts : List (List ℕ)) (c : KcpConnection Control) (k : Control) (old : List ℕ)
      → c.conn_status ≡ conn_kcp_ready
      → c.kcp ≡ some k
      → Holds c.send_buffer old
      → length old + length (join parts) ≤ c.send_buffer.buffer_size
      → 0 < length (join parts)
      → msend ikcp parts c ≡ (
        pos (length (old ++ join parts)),
        (
          record c {
            send_buffer = write_data ([] ∷ parts) c.send_buffer;
            kcp = some (ikcp.send k (old ++ join parts)).0;
          },
          [],
        ),
      )
  unfolding msend
  msend-Holds parts c k old ready e h room filled =
      flush-Holds (record c { send_buffer = write_data ([] ∷ parts) c.send_buffer }) k
        (old ++ join parts) ready e (written parts c.send_buffer old h room).0
        (omega (arith, length-append old (join parts)))

  -- A ready connection whose ring holds the bytes `old` and from which nothing was taken: as long as
  -- the ring has room, the n-th of several calls of `msend` gives the library `old` and the parts of
  -- all of the first n calls again, and the ring holds all of them afterwards.
  pub msend_each-resent :
      (calls : List (List (List ℕ))) (c : KcpConnection Control) (k : Control) (old : List ℕ)
      → c.conn_status ≡ conn_kcp_ready
      → c.kcp ≡ some k
      → Holds c.send_buffer old
      → length old + length (join (join calls)) ≤ c.send_buffer.buffer_size
      → AllFilled calls
      → ((msend_each calls c).kcp ≡ some (resent k old calls))
        × Holds (msend_each calls c).send_buffer (old ++ join (join calls))
  msend_each-resent [] c k old ready e h room filled =
      (e, subst (Holds c.send_buffer) (sym (append-nil old)) h)
  msend_each-resent (parts ∷ calls) c k old ready e h room filled =
      let pieces = join-append parts (join calls) in
      let n = ap length pieces ∙ length-append (join parts) (join (join calls)) in
      let c' = record c {
        send_buffer = write_data ([] ∷ parts) c.send_buffer;
        kcp = some (ikcp.send k (old ++ join parts)).0;
      } in
      let room' : length old + length (join parts) ≤ c.send_buffer.buffer_size = omega arith in
      let (h', same) = written parts c.send_buffer old h room' in
      let (e', h'') =
        msend_each-resent calls c' (ikcp.send k (old ++ join parts)).0 (old ++ join parts) ready
          refl h' (omega (arith, length-append old (join parts))) filled.1 in
      let step : (msend ikcp parts c).1.0 ≡ c' =
        ap (λ (r : ℤ × Step Control). r.1.0) (msend-Holds parts c k old ready e h room' filled.0) in
      (
        ap (λ d. (msend_each calls d).kcp) step ∙ e',
        subst (λ d. Holds (msend_each calls d).send_buffer (old ++ join (join (parts ∷ calls))))
            (sym step)
            (subst (Holds (msend_each calls c').send_buffer)
              (append_assoc old (join parts) (join (join calls)) ∙ ap (λ l. old ++ l) (sym pieces))
              h''),
      )

  -- A part is dropped if the ring of such a connection has no room for it, by its length in 32 bits:
  -- `msend` gives the library the bytes of the earlier calls again, and returns their number, which is
  -- not 0.
  pub msend-dropped :
      (part : List ℕ) (c : KcpConnection Control) (k : Control) (old : List ℕ)
      → c.conn_status ≡ conn_kcp_ready
      → c.kcp ≡ some k
      → Holds c.send_buffer old
      → 0 < length old
      → c.send_buffer.buffer_size < length old + length part % 2 ^ 32
      → ((msend ikcp (part ∷ []) c).0 ≡ pos (length old))
        × ((msend ikcp (part ∷ []) c).1.0.kcp ≡ some (ikcp.send k old).0)
        × Holds (msend ikcp (part ∷ []) c).1.0.send_buffer old
  unfolding msend
  msend-dropped part c k old ready e h filled full =
      let b = c.send_buffer in
      let (h', same) =
        write_data-Holds ([] ∷ []) b old h (omega (arith, h.valid.fits, size_held b old h)) in
      let h'' = subst (Holds (push b []).1) (append-nil old) h' in
      let x = take (length part % 2 ^ 32) part in
      let n : length x ≡ length part % 2 ^ 32 =
        length-take (length part % 2 ^ 32) part ∙ omega arith in
      let no_room = push_no_room (push b []).1 old x h'' (omega arith) in
      let h3 = subst (λ r. Holds r old) (sym no_room) h'' in
      let c' = record c { send_buffer = write_data ([] ∷ part ∷ []) b } in
      let sent_ = flush-Holds c' k old ready e h3 filled in
      (
        ap (λ (r : ℤ × Step Control). r.0) sent_,
        ap (λ (r : ℤ × Step Control). r.1.0.kcp) sent_,
        subst (λ (r : ℤ × Step Control). Holds r.1.0.send_buffer old) (sym sent_) h3,
      )
