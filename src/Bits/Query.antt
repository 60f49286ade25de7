-- ===== src/Bits/Query.antt =====
-- What the questions about whole bitmaps answer: one bit at a time.
use Prim.Native.Nat.{bit_xor}
use native.Mathlib.Nat.{pow-suc}
use webcamd.Prelude.{
  ℕ, zero, suc, ◌+◌, ◌-◌, ◌*◌, ◌/◌, ◌%◌, ◌^◌, ◌<◌, ◌≤◌, ◌≡◌, bit_and, Bool, false, not, ◌&&◌, ◌||◌,
  ◌==◌, refl, sym, ap, ◌∙◌, arith, inl, inr, Bool-cases, ==_iff,
}
use webcamd.Bits.Words.{
  bit, bit-and, bit-not, bit-xor, bit-ones, bit-zero, and-le, xor-lt, bit_ext, differs, ones-lt,
}
use webcamd.Bits.Single.{Bitmap, bit_mask, word_not, bits}
use webcamd.Bits.Next.{IsWords}
use webcamd.Bits.Sets.{flag, and-mask}
use webcamd.Bits.Maps.{
  any, tail_of, bitmap_subset, bitmap_full, bitmap_equal, bitmap_empty, bitmap_intersects,
}

pub any_ext : (n : ℕ) (p q : ℕ → Bool) → ((i : ℕ) → i < n → p i ≡ q i) → any n p ≡ any n q
unfolding any
any_ext zero p q h = refl
any_ext (suc n) p q h =
    ground
      (arith, h 0, any_ext n (λ i. p (suc i)) (λ i. q (suc i)) (λ i lt. h (suc i) (omega arith)))

pub any-add : (a b : ℕ) (p : ℕ → Bool) → any (a + b) p ≡ (any a p || any b (λ i. p (a + i)))
unfolding any
any-add zero b p =
    ap (λ n. any n p) (omega arith) ∙ any_ext b p (λ i. p (0 + i)) (λ i _. ap p (omega arith))
any-add (suc a) b p =
    let more : suc a + b ≡ suc (a + b) = omega arith in
    let shift : any b (λ i. p (suc (a + i))) ≡ any b (λ i. p (suc a + i)) =
      any_ext b _ _ (λ i _. ap p (omega arith)) in
    rw more (ground (arith, any-add a b (λ i. p (suc i))))

pub any-false : (n : ℕ) (p : ℕ → Bool) → any n p ≡ false → (i : ℕ) → i < n → p i ≡ false
unfolding any
any-false zero p e i h = absurd (omega arith)
any-false (suc n) p e zero h = ground arith
any-false (suc n) p e (suc i) h = any-false n (λ i. p (suc i)) (ground arith) i (omega arith)

pub any-none : (n : ℕ) (p : ℕ → Bool) → ((i : ℕ) → i < n → p i ≡ false) → any n p ≡ false
unfolding any
any-none zero p h = refl
any-none (suc n) p h =
    ground (arith, h 0, any-none n (λ i. p (suc i)) (λ i lt. h (suc i) (omega arith)))

-- A word is not 0 when one of its bits is on.
pub nonzero-any : (k w : ℕ) → w < 2 ^ k → not (w == 0) ≡ any k (λ i. bit i w)
unfolding any bit
nonzero-any zero w h = ground arith
nonzero-any (suc k) w h =
    ground (arith, pow-suc 2 k, nonzero-any k (w / 2) (omega (arith, pow-suc 2 k)))

bits_next : (g : Bitmap) (j : ℕ) → bits g (64 + j) ≡ bits (λ n. g (suc n)) j
unfolding bits
bits_next g j =
    let e : (64 + j) % 64 ≡ j % 64 = omega arith in
    let f : (64 + j) / 64 ≡ suc (j / 64) = omega arith in rw (e, f) refl

bits_at : (g : Bitmap) (e i : ℕ) → i < 64 → bits g (e * 64 + i) ≡ bit i (g e)
unfolding bits
bits_at g e i h =
    let r : (e * 64 + i) % 64 ≡ i = omega arith in
    let q : (e * 64 + i) / 64 ≡ e = omega arith in rw (r, q) refl

word_any : (g : Bitmap) → IsWords g → any 64 (bits g) ≡ not (g 0 == 0)
word_any g words =
    any_ext 64 (bits g) (λ i. bit i (g 0)) (λ i lt. ap (bits g) (omega arith) ∙ bits_at g 0 i lt)
    ∙ sym (nonzero-any 64 (g 0) (words 0))

pub words-any :
    (e : ℕ) (g : Bitmap) → IsWords g → any e (λ k. not (g k == 0)) ≡ any (e * 64) (bits g)
unfolding any
words-any zero g words = refl
words-any (suc e) g words =
    let split : any (suc e * 64) (bits g)
        ≡ (any 64 (bits g) || any (e * 64) (bits (λ n. g (suc n)))) =
      ap (λ n. any n (bits g)) (omega arith)
      ∙ any-add 64 (e * 64) (bits g)
      ∙ ap (λ b. any 64 (bits g) || b)
          (any_ext (e * 64) (λ i. bits g (64 + i)) (bits (λ n. g (suc n)))
            (λ i _. bits_next g i)) in
    let word : any 64 (bits g) ≡ not (g 0 == 0) = word_any g words in
    ground (arith, words-any e (λ n. g (suc n)) (λ n. words (suc n)))

-- Some bit below `n` is on: in one of the whole words, or in the rest.
any-bits :
    (n : ℕ) (g : Bitmap)
    → IsWords g
    → any n (bits g)
      ≡ (any (n / 64) (λ k. not (g k == 0)) || any (n % 64) (λ i. bit i (g (n / 64))))
any-bits n g words =
    ap (λ n. any n (bits g)) (omega arith)
    ∙ any-add (n / 64 * 64) (n % 64) (bits g)
    ∙ ap (λ b. b || any (n % 64) (λ i. bits g (n / 64 * 64 + i))) (sym (words-any (n / 64) g words))
    ∙ ap (λ b. any (n / 64) (λ k. not (g k == 0)) || b)
        (any_ext (n % 64) _ _ (λ i lt. bits_at g (n / 64) i (omega arith)))

tail-any : (n w : ℕ) → not (tail_of w n == 0) ≡ any n (λ i. bit i w)
unfolding tail_of
tail-any n w =
    nonzero-any n (bit_and w (2 ^ n - 1)) (ones-lt n w)
    ∙ any_ext n _ _ (λ i lt. bit-and i w (2 ^ n - 1) ∙ ground (arith, bit-ones i n))

-- The rest of a bitmap, when there is one.
rest-any : (n w : ℕ) → (not (n == 0) && not (tail_of w n == 0)) ≡ any n (λ i. bit i w)
unfolding any
rest-any zero w = refl
rest-any (suc n) w = let e : (suc n == 0) ≡ false = ground arith in rw e (tail-any (suc n) w)

masks-any :
    (n w : ℕ) → n ≤ 64 → any n (λ i. not (bit_and w (bit_mask i) == 0)) ≡ any n (λ i. bit i w)
masks-any n w h =
    any_ext n _ _ (λ i lt.
      let e : i % 64 ≡ i = omega arith in ground (arith, and-mask w i, ap (λ j. bit j w) e))

and-IsWords : (a b : Bitmap) → IsWords a → IsWords (λ k. bit_and (a k) (b k))
and-IsWords a b h k = omega (arith, h k, and-le 64 (a k) (b k) (h k))

not-IsWords : (a : Bitmap) → IsWords (λ k. word_not (a k))
unfolding word_not
not-IsWords a k = omega arith

-- The bits of words that are joined and turned, each at its place.
bits-and : (a b : Bitmap) (j : ℕ) → bits (λ k. bit_and (a k) (b k)) j ≡ (bits a j && bits b j)
unfolding bits
bits-and a b j = bit-and (j % 64) (a (j / 64)) (b (j / 64))

pub bits-not : (a : Bitmap) (j : ℕ) → IsWords a → bits (λ k. word_not (a k)) j ≡ not (bits a j)
unfolding bits word_not
bits-not a j h = bit-not 64 (j % 64) (a (j / 64)) (omega arith) (h (j / 64))

bits-xor :
    (a b : Bitmap) (j : ℕ) → bits (λ k. bit_xor (a k) (b k)) j ≡ differs (bits a j) (bits b j)
unfolding bits
bits-xor a b j = bit-xor (j % 64) (a (j / 64)) (b (j / 64))

xor_same : (a : ℕ) → a < 2 ^ 64 → bit_xor a a ≡ 0
xor_same a h =
    bit_ext 64 (bit_xor a a) 0 (xor-lt 64 a a h h) (omega arith)
      (λ i _. ground (arith, bit-xor i a a, bit-zero i))

xor_eq : (a b : ℕ) → a < 2 ^ 64 → b < 2 ^ 64 → bit_xor a b ≡ 0 → a ≡ b
xor_eq a b p q e =
    bit_ext 64 a b p q (λ i _. ground (arith, bit-xor i a b, ap (bit i) e, bit-zero i))

-- A comparison of words.
word-eq : (a b : ℕ) → a < 2 ^ 64 → b < 2 ^ 64 → (a == b) ≡ (bit_xor a b == 0)
word-eq a b p q = elim (Bool-cases (a == b)) [
  | inl e ↦
      let same : bit_xor a b ≡ 0 = ap (bit_xor a) (sym ((==_iff a b).0 e)) ∙ xor_same a p in
      ground arith
  | inr e ↦ ground (arith, λ (z : bit_xor a b ≡ 0). xor_eq a b p q z)
]

module _ (pa pb : Bitmap) (ha : IsWords pa) (hb : IsWords pb) (n : ℕ) where
  -- bitmap_subset answers 1 when no bit below `n` is on in the first and off in the second.
  pub bitmap_subset_lem :
      bitmap_subset pa pb n ≡ flag (not (any n (λ j. bits pa j && not (bits pb j))))
  unfolding bitmap_subset
  bitmap_subset_lem = ground (
    arith,
    rest-any (n % 64) (bit_and (pa (n / 64)) (word_not (pb (n / 64)))),
    any-bits n (λ k. bit_and (pa k) (word_not (pb k))) (and-IsWords pa (λ k. word_not (pb k)) ha),
    any_ext n _ _
        (λ i _. bits-and pa (λ k. word_not (pb k)) i ∙ ap (λ b. bits pa i && b) (bits-not pb i hb)),
  )

  pub bitmap_intersects_lem : bitmap_intersects pa pb n ≡ flag (any n (λ j. bits pa j && bits pb j))
  unfolding bitmap_intersects
  bitmap_intersects_lem = ground (
    arith,
    masks-any (n % 64) (bit_and (pa (n / 64)) (pb (n / 64))) (omega arith),
    any-bits n (λ k. bit_and (pa k) (pb k)) (and-IsWords pa pb ha),
    any_ext n _ _ (λ i _. bits-and pa pb i),
  )

  pub bitmap_equal_lem :
      bitmap_equal pa pb n ≡ flag (not (any n (λ j. differs (bits pa j) (bits pb j))))
  unfolding bitmap_equal
  bitmap_equal_lem = ground (
    arith,
    any_ext (n / 64) (λ k. not (pa k == pb k)) (λ k. not (bit_xor (pa k) (pb k) == 0))
        (λ k _. ap not (word-eq (pa k) (pb k) (ha k) (hb k))),
    masks-any (n % 64) (bit_xor (pa (n / 64)) (pb (n / 64))) (omega arith),
    any-bits n (λ k. bit_xor (pa k) (pb k)) (λ k. xor-lt 64 (pa k) (pb k) (ha k) (hb k)),
    any_ext n _ _ (λ i _. bits-xor pa pb i),
  )

module _ (m : Bitmap) (h : IsWords m) (n : ℕ) where
  pub bitmap_full_lem : bitmap_full m n ≡ flag (not (any n (λ j. not (bits m j))))
  unfolding bitmap_full
  bitmap_full_lem = ground (
    arith,
    rest-any (n % 64) (word_not (m (n / 64))),
    any-bits n (λ k. word_not (m k)) (not-IsWords m),
    any_ext n _ _ (λ i _. bits-not m i h),
  )

  pub bitmap_empty_lem : bitmap_empty m n ≡ flag (not (any n (bits m)))
  unfolding bitmap_empty
  bitmap_empty_lem = ground (arith, masks-any (n % 64) (m (n / 64)) (omega arith), any-bits n m h)

-- On bitmaps of any words and for any number `n` of bits: bitmap_subset answers 1 exactly when no
-- bit below `n` is on in the first and off in the second, bitmap_intersects when one is on in both,
-- bitmap_equal when none differs, bitmap_full when none is off and bitmap_empty when none is on;
-- otherwise they answer 0.
queries_lem :
    (pa pb : Bitmap) (n : ℕ)
    → IsWords pa
    → IsWords pb
    → (bitmap_subset pa pb n ≡ flag (not (any n (λ j. bits pa j && not (bits pb j)))))
      × (bitmap_intersects pa pb n ≡ flag (any n (λ j. bits pa j && bits pb j)))
      × (bitmap_equal pa pb n ≡ flag (not (any n (λ j. differs (bits pa j) (bits pb j)))))
      × (bitmap_full pa n ≡ flag (not (any n (λ j. not (bits pa j)))))
      × (bitmap_empty pa n ≡ flag (not (any n (bits pa))))
queries_lem pa pb n ha hb = (
  bitmap_subset_lem pa pb ha hb n,
  bitmap_intersects_lem pa pb ha hb n,
  bitmap_equal_lem pa pb ha hb n,
  bitmap_full_lem pa ha n,
  bitmap_empty_lem pa ha n,
)
