-- ===== src/Utils/LoopBuffer/Tests.antt =====
-- The byte ring at concrete inputs.
use knet.Base.{◌-◌, ◌^◌, ◌≡◌, refl, List, [], ◌∷◌, ◌++◌, arith}
use knet.Utils.LoopBuffer.{LoopBuffer, size, pop, get_power_of_two, buffer_size_of}
use knet.Utils.LoopBuffer.Contents.{IsValid, contents}
use knet.Utils.LoopBuffer.History.{Op, put, get, run, run-contents}

-- Three bytes round the end of the array and round 2^32: 7, 8, 9.
abbrev wrapped : LoopBuffer
wrapped = record { buffer_size = 4; head = 2 ^ 32 - 2; tail = 1; buffer = 9 ∷ 0 ∷ 7 ∷ 8 ∷ [] }

wrapped-IsValid : IsValid wrapped
unfolding size
wrapped-IsValid = record {
  exponent = 2;
  exponent_le = omega arith;
  size_pow = refl;
  array = refl;
  head_word = omega arith;
  tail_word = omega arith;
  fits = omega arith;
}

contents-wrapped : contents wrapped ≡ 7 ∷ 8 ∷ 9 ∷ []
unfolding size
contents-wrapped = refl

pop-wrapped : ((pop wrapped).0 ≡ 2) × ((pop wrapped).1 ≡ 7 ∷ 8 ∷ [])
unfolding pop
pop-wrapped = (refl, refl)

rounding :
    (get_power_of_two 4097 ≡ 8192) × (buffer_size_of 4096 ≡ 4096) × (buffer_size_of 5000 ≡ 8192)
unfolding buffer_size_of
rounding = (refl, refl, refl)

abbrev script : List Op
script = put (1 ∷ []) ∷ put (2 ∷ []) ∷ get ∷ put (2 ∷ 3 ∷ []) ∷ get ∷ []

run-contents_example :
    IsValid (run wrapped script).ring
    × (contents wrapped ++ (run wrapped script).accepted
        ≡ (run wrapped script).taken ++ contents (run wrapped script).ring)
run-contents_example = run-contents script wrapped-IsValid
