-- ===== src/Utils/LoopBuffer/History.antt =====
-- Any sequence of `push` and `pop` calls on include/utils/loop_buffer.hpp.
use knet.Base.{
  ℕ, zero, suc, length, ◌≡◌, refl, sym, ap, ◌∙◌, inl, inr, List, [], ◌∷◌, ◌++◌, append_assoc,
  append-nil,
}
use knet.Utils.LoopBuffer.{LoopBuffer, push, pop}
use knet.Utils.LoopBuffer.Contents.{IsValid, contents}
use knet.Utils.LoopBuffer.Write.{push-Pushed}
use knet.Utils.LoopBuffer.Read.{pop-Popped}

pub data Op : Type 0 where
  put : List ℕ → Op
  get : Op

-- What the calls took in, what they handed out, and the ring after them.
pub record Trace : Type 0 where
  pub accepted : List ℕ
  pub taken : List ℕ
  pub ring : LoopBuffer

-- The bytes that a `push` with this return value took.
abbrev pub accepts : ℕ → List ℕ → List ℕ
accepts zero xs = []
accepts (suc n) xs = xs

accepts-length : (xs : List ℕ) → accepts (length xs) xs ≡ xs
accepts-length [] = refl
accepts-length (x ∷ xs) = refl

pub run : LoopBuffer → List Op → Trace
run b [] = record { accepted = []; taken = []; ring = b }
run b (put xs ∷ ops) =
    let (n, b') = push b xs in
    let t = run b' ops in record t { accepted = accepts n xs ++ t.accepted }
run b (get ∷ ops) =
    let (n, block, b') = pop b in let t = run b' ops in record t { taken = block ++ t.taken }

push-accepts :
    {b : LoopBuffer} (xs : List ℕ)
    → IsValid b
    → contents (push b xs).1 ≡ contents b ++ accepts (push b xs).0 xs
push-accepts {b} xs v = elim (push-Pushed xs v).outcome [
  | inl (_, n, c) ↦ rw (n, accepts-length xs) c
  | inr (_, n, same) ↦ rw (n, same) (sym (append-nil _))
]

-- From a valid ring, the bytes held at first followed by all bytes accepted are the bytes handed
-- out followed by the bytes held in the end, in order, and the ring stays valid.
pub run-contents :
    (ops : List Op) {b : LoopBuffer}
    → IsValid b
    → IsValid (run b ops).ring
      × (contents b ++ (run b ops).accepted ≡ (run b ops).taken ++ contents (run b ops).ring)
unfolding run
run-contents [] v = (v, append-nil _)
run-contents (put xs ∷ ops) {b} v =
    let p = push-Pushed xs v in
    let (v', e) = run-contents ops p.valid in
    (
      v',
      sym (append_assoc (contents b) (accepts (push b xs).0 xs) _)
          ∙ ap (λ c. c ++ (run (push b xs).1 ops).accepted) (sym (push-accepts xs v))
          ∙ e,
    )
run-contents (get ∷ ops) {b} v =
    let p = pop-Popped v in
    let (v', e) = run-contents ops p.valid in
    (
      v',
      ap (λ c. c ++ (run (pop b).2 ops).accepted) p.kept
          ∙ append_assoc (pop b).1 (contents (pop b).2) _
          ∙ ap (λ c. (pop b).1 ++ c) e
          ∙ sym (append_assoc (pop b).1 (run (pop b).2 ops).taken _),
    )
