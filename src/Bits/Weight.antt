-- ===== src/Bits/Weight.antt =====
-- bitmap_weight counts the bits that are on.
use webcamd.Prelude.{
  ℕ, zero, suc, ◌+◌, ◌/◌, ◌<◌, ◌≡◌, bit_and, Bool, true, false, not, ◌==◌, if◌then◌else◌, refl, ap,
  arith,
}
use webcamd.Bits.Single.{Bitmap, bit_mask, bits, test_bit, set_bit, clear_bit}
use webcamd.Bits.Sets.{flag, and-mask, test_bit-bits, set_bit-bits, clear_bit-bits}
use webcamd.Bits.Maps.{any, weight_loop, bitmap_weight, bitmap_full, bitmap_empty}
use webcamd.Bits.Query.{bitmap_full_lem, bitmap_empty_lem}
use webcamd.Bits.Next.{IsWords}

-- How many numbers below `n` have `p`.
unfoldable pub count : ℕ → (ℕ → Bool) → ℕ
count zero p = 0
count (suc n) p = flag (p 0) + count n (λ i. p (suc i))

count_ext : (n : ℕ) (p q : ℕ → Bool) → ((i : ℕ) → i < n → p i ≡ q i) → count n p ≡ count n q
unfolding count
count_ext zero p q h = refl
count_ext (suc n) p q h =
    ground
      (arith, h 0, count_ext n (λ i. p (suc i)) (λ i. q (suc i)) (λ i lt. h (suc i) (omega arith)))

count_shift :
    (m : Bitmap) (k x : ℕ) → count k (λ i. bits m (suc x + i)) ≡ count k (λ i. bits m (x + suc i))
count_shift m k x = count_ext k _ _ (λ i _. ap (bits m) (omega arith))

weight_loop-count :
    (m : Bitmap) (k x y : ℕ) → weight_loop m k x y ≡ y + count k (λ i. bits m (x + i))
unfolding weight_loop count bits
weight_loop-count m zero x y = omega arith
weight_loop-count m (suc k) x y =
    let start : x + 0 ≡ x = omega arith in
    ground (
      arith,
      and-mask (m (x / 64)) x,
      ap (bits m) start,
      weight_loop-count m k (suc x) (if bit_and (m (x / 64)) (bit_mask x) == 0 then y else suc y),
      count_shift m k x,
    )

bitmap_weight-count : (m : Bitmap) (n : ℕ) → bitmap_weight m n ≡ count n (bits m)
unfolding bitmap_weight
bitmap_weight-count m n = omega (
  arith,
  weight_loop-count m n 0 0,
  count_ext n (λ i. bits m (0 + i)) (bits m) (λ i _. ap (bits m) (omega arith)),
)

-- Putting one number in or out changes the count by at most one.
count-update :
    (n j : ℕ) (b : Bool) (p : ℕ → Bool)
    → j < n
    → count n (λ i. if i == j then b else p i) + flag (p j) ≡ count n p + flag b
unfolding count
count-update zero j b p h = absurd (omega arith)
count-update (suc n) zero b p h = omega (
  arith,
  count_ext n (λ i. if suc i == 0 then b else p (suc i)) (λ i. p (suc i)) (λ i _. ground arith),
)
count-update (suc n) (suc j) b p h =
    let shift : count n (λ i. if suc i == suc j then b else p (suc i))
        ≡ count n (λ i. if i == j then b else p (suc i)) =
      count_ext n _ _ (λ i _. ground arith) in
    ground (arith, count-update n j b (λ i. p (suc i)))

any-count : (n : ℕ) (p : ℕ → Bool) → any n p ≡ not (count n p == 0)
unfolding any count
any-count zero p = ground arith
any-count (suc n) p = ground (arith, any-count n (λ i. p (suc i)))

count-not : (n : ℕ) (p : ℕ → Bool) → count n (λ i. not (p i)) + count n p ≡ n
unfolding count
count-not zero p = omega arith
count-not (suc n) p = ground (arith, count-not n (λ i. p (suc i)))

-- For a bit below `n`, on bitmaps of any words: setting it makes the weight of the first `n` bits
-- grow by one just when it was off, clearing it makes the weight fall by one just when it was on;
-- bitmap_full answers 1 exactly when the weight is `n`, and bitmap_empty exactly when it is 0.
pub bitmap_weight-calls :
    (m : Bitmap) (n j : ℕ)
    → IsWords m
    → j < n
    → (bitmap_weight (set_bit j m) n + test_bit j m ≡ bitmap_weight m n + 1)
      × (bitmap_weight (clear_bit j m) n + test_bit j m ≡ bitmap_weight m n)
      × (bitmap_full m n ≡ flag (bitmap_weight m n == n))
      × (bitmap_empty m n ≡ flag (bitmap_weight m n == 0))
bitmap_weight-calls m n j h lt = (
  omega (
    arith,
    bitmap_weight-count (set_bit j m) n,
    count_ext n _ _ (λ i _. set_bit-bits j m i),
    count-update n j true (bits m) lt,
    bitmap_weight-count m n,
    test_bit-bits j m,
  ),
  omega (
    arith,
    bitmap_weight-count (clear_bit j m) n,
    count_ext n _ _ (λ i _. clear_bit-bits j m i),
    count-update n j false (bits m) lt,
    bitmap_weight-count m n,
    test_bit-bits j m,
  ),
  ground (
    arith,
    bitmap_full_lem m h n,
    any-count n (λ i. not (bits m i)),
    count-not n (bits m),
    bitmap_weight-count m n,
  ),
  ground (arith, bitmap_empty_lem m h n, any-count n (bits m), bitmap_weight-count m n),
)
