-- ===== src/Bits/Clear.antt =====
-- What bitmap_clear leaves.
use webcamd.Prelude.{
  ℕ, zero, suc, ◌+◌, ◌-◌, ◌*◌, ◌/◌, ◌%◌, ◌^◌, ◌<◌, ◌≤◌, ◌≡◌, bit_and, not, ◌&&◌, ◌==◌, leb, ltb,
  if◌then◌else◌, arith, Bool-cases, inl, inr,
}
use webcamd.Bits.Words.{bit, bit-and, bit-not, bit-ones, ones-lt, pow-lt}
use webcamd.Bits.Single.{Bitmap, word_not, put_word, bits}
use webcamd.Bits.Sets.{bits-put_word}
use webcamd.Bits.Maps.{clear_end, clear_loop, bitmap_clear}

-- A word without the bits of a mask.
bits-masked :
    (m : Bitmap) (p mask j : ℕ)
    → mask < 2 ^ 64
    → bits (put_word m p (bit_and (m p) (word_not mask))) j
      ≡ (bits m j && not (j / 64 == p && bit (j % 64) mask))
unfolding bits word_not
bits-masked m p mask j h = ground (
  arith,
  bits-put_word m p (bit_and (m p) (word_not mask)) j,
  bit-and (j % 64) (m p) (word_not mask),
  bit-not 64 (j % 64) mask (omega arith) h,
)

clear_end-bits :
    (size p nr k : ℕ) (m : Bitmap) (j : ℕ)
    → k ≤ 64
    → bits (clear_end size p nr (2 ^ k - 1) m) j ≡ (
        bits m j
        && not (not (nr == 0) && (j / 64 == p && (ltb (j % 64) k && ltb (j % 64) (size % 64)))))
unfolding clear_end
clear_end-bits size p nr k m j h =
    let small : bit_and (2 ^ k - 1) (2 ^ (size % 64) - 1) < 2 ^ 64 =
      omega (arith, ones-lt (size % 64) (2 ^ k - 1), pow-lt 64 (size % 64)) in
    ground (
      arith,
      bits-masked m p (bit_and (2 ^ k - 1) (2 ^ (size % 64) - 1)) j small,
      bit-and (j % 64) (2 ^ k - 1) (2 ^ (size % 64) - 1),
      bit-ones (j % 64) k,
      bit-ones (j % 64) (size % 64),
    )

-- The loop after the first word: a whole number of words and the rest.
clear_loop-later :
    (fuel p nr : ℕ) (m : Bitmap) (size j : ℕ)
    → nr < fuel
    → size ≡ p * 64 + nr
    → bits (clear_loop fuel size p nr 64 (2 ^ 64 - 1) m) j
      ≡ (bits m j && not (not (ltb j (p * 64)) && ltb j size))
unfolding clear_loop
clear_loop-later zero p nr m size j h e = absurd (omega arith)
clear_loop-later (suc fuel) p nr m size j h e = elim (Bool-cases (leb 64 nr)) [
  | inl c ↦
      let next = put_word m p (bit_and (m p) (word_not (2 ^ 64 - 1))) in
      rw c (
        ground (
          arith,
          clear_loop-later fuel (suc p) (nr - 64) next size j (ground arith) (ground arith),
          bits-masked m p (2 ^ 64 - 1) j (omega arith),
          bit-ones (j % 64) 64,
        ))
  | inr c ↦ rw c (ground (arith, clear_end-bits size p nr 64 m j (omega arith)))
]

-- Clearing `nr` bits from `start` on, of which there is at least one: the bits of the following
-- words up to the end of the range are off afterwards, but in the word of `start` it is the bits
-- below `start` that are turned off, and those of the range keep their value.
bitmap_clear-bits :
    (m : Bitmap) (start nr j : ℕ)
    → 0 < nr
    → bits (bitmap_clear m start nr) j ≡ (
        bits m j
        && not (if j / 64 == start / 64 then ltb j start else ltb start j && ltb j (start + nr)))
unfolding bitmap_clear clear_loop
bitmap_clear-bits m start nr j pos = elim (Bool-cases (leb (64 - start % 64) nr)) [
  | inl c ↦
      let mask = 2 ^ (start % 64) - 1 in
      let next = put_word m (start / 64) (bit_and (m (start / 64)) (word_not mask)) in
      rw c (
        ground (
          arith,
          clear_loop-later nr (suc (start / 64)) (nr - (64 - start % 64)) next (start + nr) j
              (omega arith) (ground arith),
          bits-masked m (start / 64) mask j (omega (arith, pow-lt 64 (start % 64))),
          bit-ones (j % 64) (start % 64),
        ))
  | inr c ↦
      rw c
        (ground (arith, clear_end-bits (start + nr) (start / 64) nr (start % 64) m j (omega arith)))
]
