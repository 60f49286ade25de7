-- ===== src/Examples/Bitmaps.antt =====
-- Bitmaps of kernel/linux_func.c.
use webcamd.Prelude.{◌≡◌, not, ◌==◌, if◌then◌else◌, [], ◌∷◌, refl, arith}
use webcamd.Bits.Single.{Bitmap, bits, bit_mask, word_not}
use webcamd.Bits.Sets.{Call, run, set_run, run-set_run}
use webcamd.Bits.Next.{
  find_next_bit, find_next_zero_bit, find_next, find_loop, ffsl, ffs, IsWords, IsNext,
}
use webcamd.Bits.Search.{find_next_bit-IsNext}

-- The bits 1, 3 and 66 are on.
abbrev sample : Bitmap
sample n = if n == 0 then 10 else if n == 1 then 4 else 0

-- The bits 1 and 2 are on.
abbrev other : Bitmap
other n = if n == 0 then 6 else 0

sample-IsWords : IsWords sample
sample-IsWords n = ground arith

other-IsWords : IsWords other
other-IsWords n = ground arith

run-set_run_example :
    (bits (run (Call.test_and_set 70 ∷ Call.flip 3 ∷ Call.test 3 ∷ []) sample).0
      ≡ (set_run (Call.test_and_set 70 ∷ Call.flip 3 ∷ Call.test 3 ∷ []) (bits sample)).0)
    × ((run (Call.test_and_set 70 ∷ Call.flip 3 ∷ Call.test 3 ∷ []) sample).1
        ≡ (set_run (Call.test_and_set 70 ∷ Call.flip 3 ∷ Call.test 3 ∷ []) (bits sample)).1)
run-set_run_example = run-set_run (Call.test_and_set 70 ∷ Call.flip 3 ∷ Call.test 3 ∷ []) sample

find_next_bit-IsNext_example :
    IsNext (bits sample) 100 4 (find_next_bit sample 100 4)
    × IsNext (λ j. not (bits sample j)) 100 4 (find_next_zero_bit sample 100 4)
find_next_bit-IsNext_example = find_next_bit-IsNext sample 100 4 sample-IsWords (omega arith)

find_next_bit_test : find_next_bit sample 100 4 ≡ 66
unfolding find_next_bit find_next find_loop ffsl ffs bit_mask word_not
find_next_bit_test = refl

find_next_zero_bit_test : find_next_zero_bit sample 100 3 ≡ 4
unfolding find_next_zero_bit find_next find_loop ffsl ffs bit_mask word_not
find_next_zero_bit_test = refl

find_next_bit_none : find_next_bit sample 66 4 ≡ 66
unfolding find_next_bit find_next find_loop ffsl ffs bit_mask word_not
find_next_bit_none = refl
