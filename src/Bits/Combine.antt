-- ===== src/Bits/Combine.antt =====
-- The bitmaps that the joining operations write.
use Prim.Native.Nat.{bit_or, bit_or-bitwise}
use webcamd.Prelude.{
  ℕ, zero, suc, ◌+◌, ◌-◌, ◌*◌, ◌/◌, ◌%◌, ◌^◌, ◌<◌, ◌≤◌, ◌≡◌, ◌≢◌, bit_and, Bool, true, false, not,
  ◌&&◌, ◌||◌, ◌==◌, ltb, if◌then◌else◌, refl, ap, ◌∙◌, arith,
}
use webcamd.Bits.Words.{
  bit, differs, bit-zero, bit-or, bit-ones, or_halves, bit-and, bit-not, and-le, or-lt,
}
use webcamd.Bits.Single.{Bitmap, word_not, put_word, bits}
use webcamd.Bits.Sets.{flag}
use webcamd.Bits.Next.{IsWords}
use webcamd.Bits.Query.{any_ext, words-any}
use webcamd.Bits.Maps.{
  any, combine, bits_to_longs, bitmap_andnot, bitmap_and, bitmap_or, bitmap_xor, bitmap_copy,
  bitmap_fill, bitmap_zero,
}

or-zero : (k a b : ℕ) → a ≤ k → (bit_or a b == 0) ≡ ((a == 0) && (b == 0))
or-zero zero a b h = let e : a ≡ 0 = omega arith in rw e (ground (arith, bit_or-bitwise 0 b))
or-zero (suc k) a b h = ground (arith, or_halves a b, or-zero k (a / 2) (b / 2) (omega arith))

-- Word `n` after the loop, and whether the loop has seen a bit.
combine-word :
    (f : ℕ → ℕ → ℕ) (b1 b2 : Bitmap) (k x : ℕ) (dst : Bitmap) (r n : ℕ)
    → (combine f b1 b2 k x dst r).0 n
      ≡ (if not (ltb n x) && ltb n (x + k) then f (b1 n) (b2 n) else dst n)
unfolding combine put_word
combine-word f b1 b2 zero x dst r n = ground arith
combine-word f b1 b2 (suc k) x dst r n = ground (
  arith,
  combine-word f b1 b2 k (suc x) (put_word dst x (f (b1 x) (b2 x))) (bit_or r (f (b1 x) (b2 x))) n,
)

combine-seen :
    (f : ℕ → ℕ → ℕ) (b1 b2 : Bitmap) (k x : ℕ) (dst : Bitmap) (r : ℕ)
    → ((combine f b1 b2 k x dst r).1 == 0)
      ≡ ((r == 0) && not (any k (λ i. not (f (b1 (x + i)) (b2 (x + i)) == 0))))
unfolding combine any
combine-seen f b1 b2 zero x dst r = ground arith
combine-seen f b1 b2 (suc k) x dst r =
    let start : x + 0 ≡ x = omega arith in
    ground (
      arith,
      combine-seen f b1 b2 k (suc x) (put_word dst x (f (b1 x) (b2 x)))
          (bit_or r (f (b1 x) (b2 x))),
      or-zero r r (f (b1 x) (b2 x)) (omega arith),
      ap (λ i. f (b1 i) (b2 i)) start,
      any_ext k (λ i. not (f (b1 (suc x + i)) (b2 (suc x + i)) == 0))
          (λ i. not (f (b1 (x + suc i)) (b2 (x + suc i)) == 0))
          (λ i _. ap (λ n. not (f (b1 n) (b2 n) == 0)) (omega arith)),
    )

module _ (f : ℕ → ℕ → ℕ) (q : Bool → Bool → Bool)
    (bit-f : (i a b : ℕ) → i < 64 → a < 2 ^ 64 → b < 2 ^ 64 → bit i (f a b) ≡ q (bit i a) (bit i b))
    (f-lt : (a b : ℕ) → a < 2 ^ 64 → b < 2 ^ 64 → f a b < 2 ^ 64) (dst b1 b2 : Bitmap)
    (h1 : IsWords b1) (h2 : IsWords b2) (len : ℕ) where
  -- The bits of the bitmap that is written.
  joined :
      (j : ℕ)
      → bits (combine f b1 b2 len 0 dst 0).0 j
        ≡ (if ltb j (len * 64) then q (bits b1 j) (bits b2 j) else bits dst j)
  unfolding bits
  joined j = ground (
    arith,
    combine-word f b1 b2 len 0 dst 0 (j / 64),
    bit-f (j % 64) (b1 (j / 64)) (b2 (j / 64)) (omega arith) (h1 (j / 64)) (h2 (j / 64)),
  )

  bits-f : (j : ℕ) → bits (λ i. f (b1 i) (b2 i)) j ≡ q (bits b1 j) (bits b2 j)
  unfolding bits
  bits-f j = bit-f (j % 64) (b1 (j / 64)) (b2 (j / 64)) (omega arith) (h1 (j / 64)) (h2 (j / 64))

  -- Whether one of them is on.
  seen :
      ((combine f b1 b2 len 0 dst 0).1 == 0) ≡ not (any (len * 64) (λ j. q (bits b1 j) (bits b2 j)))
  seen = ground (
    arith,
    combine-seen f b1 b2 len 0 dst 0,
    any_ext len (λ i. not (f (b1 (0 + i)) (b2 (0 + i)) == 0)) (λ i. not (f (b1 i) (b2 i) == 0))
        (λ i _. ap (λ n. not (f (b1 n) (b2 n) == 0)) (omega arith)),
    words-any len (λ i. f (b1 i) (b2 i)) (λ i. f-lt (b1 i) (b2 i) (h1 i) (h2 i)),
    any_ext (len * 64) (bits (λ i. f (b1 i) (b2 i))) (λ j. q (bits b1 j) (bits b2 j))
        (λ j _. bits-f j),
  )

abbrev without : Bool → Bool → Bool
without a b = a && not b

bit-andnot :
    (i a b : ℕ)
    → i < 64
    → a < 2 ^ 64
    → b < 2 ^ 64
    → bit i (bit_and a (word_not b)) ≡ without (bit i a) (bit i b)
unfolding word_not
bit-andnot i a b h p q = bit-and i a (2 ^ 64 - 1 - b) ∙ ap (λ c. bit i a && c) (bit-not 64 i b h q)

andnot-lt : (a b : ℕ) → a < 2 ^ 64 → b < 2 ^ 64 → bit_and a (word_not b) < 2 ^ 64
andnot-lt a b p q = omega (arith, and-le 64 a (word_not b) p)

and-lt : (a b : ℕ) → a < 2 ^ 64 → b < 2 ^ 64 → bit_and a b < 2 ^ 64
and-lt a b p q = omega (arith, and-le 64 a b p)

module _ (dst b1 b2 : Bitmap) (n : ℕ) (h1 : IsWords b1) (h2 : IsWords b2) where
  -- On two bitmaps of any words: bitmap_and, bitmap_andnot and bitmap_or write, in as many whole
  -- words as hold `n` bits, the bits that are on in both, in the first and not the second, and in
  -- one of them, and leave the other words as they were. The first two answer 1 exactly when a bit
  -- of these words is on in what they write, else 0.
  bitmap_joins :
      ((j : ℕ)
        → (bits (bitmap_and dst b1 b2 n).0 j
            ≡ (if ltb j (bits_to_longs n * 64) then bits b1 j && bits b2 j else bits dst j))
          × (bits (bitmap_andnot dst b1 b2 n).0 j
              ≡ (if ltb j (bits_to_longs n * 64) then bits b1 j && not (bits b2 j) else bits dst j))
          × (bits (bitmap_or dst b1 b2 n) j
              ≡ (if ltb j (bits_to_longs n * 64) then bits b1 j || bits b2 j else bits dst j)))
      × ((bitmap_and dst b1 b2 n).1
          ≡ flag (any (bits_to_longs n * 64) (λ j. bits b1 j && bits b2 j)))
      × ((bitmap_andnot dst b1 b2 n).1
          ≡ flag (any (bits_to_longs n * 64) (λ j. bits b1 j && not (bits b2 j))))
  unfolding bitmap_and bitmap_andnot bitmap_or bits_to_longs
  bitmap_joins = (
    λ j. (
      joined bit_and ◌&&◌ (λ i a b _ _ _. bit-and i a b) and-lt dst b1 b2 h1 h2 ((n + 63) / 64) j,
      joined (λ a b. bit_and a (word_not b)) without bit-andnot andnot-lt dst b1 b2 h1 h2
          ((n + 63) / 64) j,
      joined bit_or ◌||◌ (λ i a b _ _ _. bit-or i a b) (or-lt 64) dst b1 b2 h1 h2 ((n + 63) / 64) j,
    ),
    ground (
      arith,
      seen bit_and ◌&&◌ (λ i a b _ _ _. bit-and i a b) and-lt dst b1 b2 h1 h2 ((n + 63) / 64),
    ),
    ground (
      arith,
      seen (λ a b. bit_and a (word_not b)) without bit-andnot andnot-lt dst b1 b2 h1 h2
          ((n + 63) / 64),
    ),
  )

  -- On two bitmaps of any words, bitmap_xor writes the bits that are on in one of them, also where
  -- they are on in both: what it writes is not their exclusive or at any such bit below `n`.
  bitmap_xor-or :
      (j : ℕ)
      → j < n
      → bits b1 j ≡ true
      → bits b2 j ≡ true
      → (bits (bitmap_xor dst b1 b2 n) j ≡ true)
        × (bitmap_xor dst b1 b2 n ≡ bitmap_or dst b1 b2 n)
        × (bits (bitmap_xor dst b1 b2 n) j ≢ differs (bits b1 j) (bits b2 j))
  unfolding bitmap_xor bitmap_or bits_to_longs
  bitmap_xor-or j lt on1 on2 =
      let on : bits (combine bit_or b1 b2 ((n + 63) / 64) 0 dst 0).0 j ≡ true = ground (
        arith,
        joined bit_or ◌||◌ (λ i a b _ _ _. bit-or i a b) (or-lt 64) dst b1 b2 h1 h2 ((n + 63) / 64)
            j,
      ) in
      (on, refl, ground arith)

-- Filling, clearing and copying whole words: bitmap_fill turns on the bits of the words that hold
-- `n` bits, bitmap_zero turns them off, bitmap_copy takes them from `src`; no other bit changes.
pub bitmap_words :
    (dst src : Bitmap) (n j : ℕ)
    → (bits (bitmap_fill dst n) j ≡ (if ltb j (bits_to_longs n * 64) then true else bits dst j))
      × (bits (bitmap_zero dst n) j ≡ (if ltb j (bits_to_longs n * 64) then false else bits dst j))
      × (bits (bitmap_copy dst src n) j
          ≡ (if ltb j (bits_to_longs n * 64) then bits src j else bits dst j))
unfolding bits bitmap_fill bitmap_zero bitmap_copy bits_to_longs
bitmap_words dst src n j =
    (ground (arith, bit-ones (j % 64) 64), ground (arith, bit-zero (j % 64)), ground arith)
