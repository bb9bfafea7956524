-- ===== src/Utils/LoopBuffer/Parts.antt =====
-- `LoopBuffer::mpush`, which pushes its arguments one by one.
use knet.Base.{
  ℕ, suc, ◌+◌, ◌≤◌, ◌^◌, ◌%◌, ◌≡◌, ◌≢◌, refl, sym, ap, ◌∙◌, inl, inr, List, [], ◌∷◌, ◌++◌,
  append_assoc, append-nil, arith, length, length-append, take, join,
}
use native.Mathlib.Decide.{dec_lt}
use knet.Utils.LoopBuffer.{LoopBuffer, push, mpush}
use knet.Utils.LoopBuffer.Contents.{IsValid, contents, buffer_size_bounds}
use knet.Utils.LoopBuffer.Write.{push-Pushed, length-contents}

-- The first `count` parts are in the ring, and their bytes are counted.
pub record Mpushed (b : LoopBuffer) (parts : List (List ℕ)) (r : ℕ × LoopBuffer) : Type 0 where
  pub count : ℕ
  pub valid : IsValid r.1
  pub appended : contents r.1 ≡ contents b ++ join (take count parts)
  pub counted : r.0 ≡ length (join (take count parts))

mpush_stop :
    (b : LoopBuffer) (xs : List ℕ) (parts : List (List ℕ))
    → (push b xs).0 ≡ 0
    → mpush b (xs ∷ parts) ≡ (0, (push b xs).1)
unfolding mpush
mpush_stop b xs parts e = ground arith

mpush_more :
    (b : LoopBuffer) (xs : List ℕ) (parts : List (List ℕ))
    → (push b xs).0 ≢ 0
    → mpush b (xs ∷ parts)
      ≡ (((push b xs).0 + (mpush (push b xs).1 parts).0) % 2 ^ 32, (mpush (push b xs).1 parts).1)
unfolding mpush
mpush_more b xs parts ne = ground arith

mpush_size :
    {b : LoopBuffer} (parts : List (List ℕ))
    → IsValid b
    → (r : ℕ × LoopBuffer) → Mpushed b parts r
    → length (contents b) + r.0 ≤ 2 ^ 31
mpush_size {b} parts v r m = omega (
  arith,
  ap length m.appended,
  length-append (contents b) (join (take m.count parts)),
  m.counted,
  length-contents r.1,
  m.valid.fits,
  buffer_size_bounds m.valid,
)

-- `mpush` on a valid ring leaves it valid, with the bytes of a first run of its arguments appended
-- in order, and returns how many bytes these are.
pub mpush-Mpushed :
    (parts : List (List ℕ)) {b : LoopBuffer} → IsValid b → Mpushed b parts (mpush b parts)
mpush-Mpushed [] {b} v =
    unfold mpush in
    record { count = 0; valid = v; appended = sym (append-nil (contents b)); counted = refl }
mpush-Mpushed (xs ∷ parts) {b} v =
    let p = push-Pushed xs v in
    let m = mpush-Mpushed parts p.valid in
    elim p.outcome [
      | inr (_, n, same) ↦ rw (mpush_stop b xs parts n) (record {
        count = 0;
        valid = p.valid;
        appended = rw same (sym (append-nil (contents b)));
        counted = refl;
      })
      | inl (_, n, c) ↦ elim (dec_lt 0 (length xs)) [
        | no z ↦ rw (mpush_stop b xs parts (omega (arith, n))) (record {
          count = 1;
          valid = p.valid;
          appended = rw append-nil c;
          counted = rw append-nil (omega arith);
        })
        | yes pos ↦
            let total : ((push b xs).0 + (mpush (push b xs).1 parts).0) % 2 ^ 32
                ≡ length (xs ++ join (take m.count parts)) =
              omega (
                arith,
                n,
                m.counted,
                mpush_size parts p.valid _ m,
                ap length c,
                length-append (contents b) xs,
                length-append xs (join (take m.count parts)),
              ) in
            rw (mpush_more b xs parts (omega (arith, n))) (record {
              count = suc m.count;
              valid = m.valid;
              appended =
                  m.appended
                  ∙ ap (λ l. l ++ join (take m.count parts)) c
                  ∙ append_assoc (contents b) xs (join (take m.count parts));
              counted = total;
            })
      ]
    ]
