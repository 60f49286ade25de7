-- ===== src/Math/Highest.antt =====
-- fls and __flsl find the highest bit; the roundings answer the nearest powers of two.
use native.Mathlib.Nat.{pow-suc, one-le-pow, mul-le-mul_right, div-mul-le_self, lt-div-mul-add}
use Prim.Native.Nat.{bit_and-bitwise}
use webcamd.Prelude.{
  ℕ, zero, suc, ◌+◌, ◌-◌, ◌*◌, ◌/◌, ◌%◌, ◌^◌, ◌<◌, ◌≤◌, ◌≡◌, ◌≢◌, bit_and, ◌==◌, refl, ap, ◌∙◌,
  arith, dec_lt, true, false,
}
use webcamd.Bits.Words.{and_halves, and-zero, pow-lt}
use webcamd.Math.Powers.{narrow, fls, flsl, shifted_one, rounddown_pow_of_two, roundup_pow_of_two}

pow-add : (a b : ℕ) → 2 ^ (a + b) ≡ 2 ^ a * 2 ^ b
pow-add zero b = let e : 0 + b ≡ b = omega arith in ap (λ (t : ℕ). 2 ^ t) e ∙ omega arith
pow-add (suc a) b =
    let e : suc a + b ≡ suc (a + b) = omega arith in
    rw (e, pow-suc 2 (a + b), pow-suc 2 a, pow-add a b) (grind arith)

-- Bits from `b` on, of a number below 2^b and of another one.
and-low_zero : (b c w : ℕ) → w < 2 ^ b → bit_and w (c * 2 ^ b) ≡ 0
and-low_zero zero c w h =
    let e : w ≡ 0 = omega arith in rw e (omega (arith, bit_and-bitwise 0 (c * 1)))
and-low_zero (suc b) c w h =
    let e : c * 2 ^ suc b ≡ c * 2 ^ b * 2 = rw (pow-suc 2 b) (grind arith) in
    let f : c * 2 ^ suc b / 2 ≡ c * 2 ^ b = omega arith in
    omega (
      arith,
      and_halves w (c * 2 ^ suc b),
      ap (bit_and (w / 2)) f,
      and-low_zero b c (w / 2) (omega (arith, pow-suc 2 b)),
    )

and-ones : (k w : ℕ) → w < 2 ^ k → bit_and w (2 ^ k - 1) ≡ w
and-ones zero w h = omega (arith, and-zero w)
and-ones (suc k) w h =
    let f : (2 ^ suc k - 1) / 2 ≡ 2 ^ k - 1 = omega (arith, pow-suc 2 k, one-le-pow k 2) in
    omega (
      arith,
      and_halves w (2 ^ suc k - 1),
      ap (bit_and (w / 2)) f,
      and-ones k (w / 2) (omega (arith, pow-suc 2 k)),
      pow-suc 2 k,
      one-le-pow k 2,
    )

and-high : (b k w : ℕ) → 2 ^ b ≤ w → w < 2 ^ b * 2 ^ k → bit_and w ((2 ^ k - 1) * 2 ^ b) ≢ 0
and-high zero k w low high z =
    let e : (2 ^ k - 1) * 1 ≡ 2 ^ k - 1 = omega arith in
    omega (arith, and-ones k w (omega arith), ap (bit_and w) e)
and-high (suc b) k w low high z =
    let e : (2 ^ k - 1) * 2 ^ suc b ≡ (2 ^ k - 1) * 2 ^ b * 2 = rw (pow-suc 2 b) (grind arith) in
    let f : (2 ^ k - 1) * 2 ^ suc b / 2 ≡ (2 ^ k - 1) * 2 ^ b = omega arith in
    let g : 2 ^ suc b * 2 ^ k ≡ 2 ^ b * 2 ^ k * 2 = rw (pow-suc 2 b) (grind arith) in
    and-high b k (w / 2) (omega (arith, pow-suc 2 b)) (omega arith)
      (omega (arith, and_halves w ((2 ^ k - 1) * 2 ^ suc b), ap (bit_and (w / 2)) f))

-- `w` has its highest bit at that of `mask`, moved up by `bit - 1`.
record IsAt (w bound bit mask : ℕ) : Type 0 where
  positive : 0 < bit
  nonzero : 0 < mask
  small : mask < bound
  low : mask * 2 ^ (bit - 1) ≤ w
  high : w < (mask + 1) * 2 ^ (bit - 1)

low_part : (d m mask p w : ℕ) → d * m ≤ mask → mask * p ≤ w → d * (p * m) ≤ w
low_part d m mask p w h k = grind (arith, mul-le-mul_right p h)

high_part : (d m mask p w : ℕ) → mask < d * m + m → w < (mask + 1) * p → w < (d + 1) * (p * m)
high_part d m mask p w h k =
    let e : mask + 1 ≤ d * m + m = omega arith in grind (arith, mul-le-mul_right p e)

quotient_lt : (d m mask : ℕ) → d * m ≤ mask → mask < m * m → d < m
quotient_lt d m mask h k = elim (dec_lt d m) [
  | yes lt ↦ lt
  | no ge ↦ let e : m ≤ d = omega arith in absurd (omega (arith, mul-le-mul_right m e))
]

quotient_pos : (d m mask : ℕ) → mask < d * m + m → m ≤ mask → 0 < d
quotient_pos zero m mask h k = absurd (omega arith)
quotient_pos (suc d) m mask h k = omega arith

-- One step of the search halves the bound on the number of bits.
narrow-IsAt :
    (w n bit mask : ℕ)
    → IsAt w (2 ^ n * 2 ^ n) bit mask
    → IsAt w
        (2 ^ n)
        (narrow ((2 ^ n - 1) * 2 ^ n) n (bit, mask)).0
        (narrow ((2 ^ n - 1) * 2 ^ n) n (bit, mask)).1
unfolding narrow
narrow-IsAt w n bit mask h = elim (dec_lt mask (2 ^ n)) [
  | yes lt ↦
      let e : (bit_and mask ((2 ^ n - 1) * 2 ^ n) == 0) ≡ true =
        ground (arith, and-low_zero n (2 ^ n - 1) mask lt) in
      rw e (record {
        positive = h.positive;
        nonzero = h.nonzero;
        small = lt;
        low = h.low;
        high = h.high;
      })
  | no ge ↦
      let e : (bit_and mask ((2 ^ n - 1) * 2 ^ n) == 0) ≡ false =
        ground (arith, and-high n n mask (omega arith) h.small) in
      let below = div-mul-le_self mask (2 ^ n) in
      let above = lt-div-mul-add {a = mask} {b = 2 ^ n} (one-le-pow n 2 (omega arith)) in
      let split : 2 ^ (bit + n - 1) ≡ 2 ^ (bit - 1) * 2 ^ n =
        let sum : bit + n - 1 ≡ bit - 1 + n = omega (arith, h.positive) in
        ap (λ (t : ℕ). 2 ^ t) sum ∙ pow-add (bit - 1) n in
      rw e (record {
        positive = omega (arith, h.positive);
        nonzero = quotient_pos (mask / 2 ^ n) (2 ^ n) mask above (omega arith);
        small = quotient_lt (mask / 2 ^ n) (2 ^ n) mask below h.small;
        low = rw split (low_part (mask / 2 ^ n) (2 ^ n) mask (2 ^ (bit - 1)) w below h.low);
        high = rw split (high_part (mask / 2 ^ n) (2 ^ n) mask (2 ^ (bit - 1)) w above h.high);
      })
]

-- `r` is the place of the highest bit of `w`, counted from 1.
abbrev pub IsHighest : ℕ → ℕ → Type 0
IsHighest w r = (0 < r) × (2 ^ (r - 1) ≤ w) × (w < 2 ^ r)

found : (w bit mask : ℕ) → IsAt w 2 bit mask → IsHighest w bit
found w bit mask h =
    let one : mask ≡ 1 = omega (arith, h.nonzero, h.small) in
    let next : 2 ^ bit ≡ 2 ^ (bit - 1) * 2 =
      let e : bit ≡ suc (bit - 1) = omega (arith, h.positive) in
      ap (λ (t : ℕ). 2 ^ t) e ∙ pow-suc 2 (bit - 1) in
    let p = 2 ^ (bit - 1) in
    (
      h.positive,
      omega (arith, h.low, ap (λ (t : ℕ). t * 2 ^ (bit - 1)) one),
      omega (arith, h.high, next, ap (λ (t : ℕ). (t + 1) * 2 ^ (bit - 1)) one),
    )

start : (w bound : ℕ) → 0 < w → w < bound → IsAt w bound 1 w
start w bound pos lt = record {
  positive = omega arith;
  nonzero = pos;
  small = lt;
  low = omega arith;
  high = omega arith;
}

-- The steps after the first ones.
search_16 :
    (w bit mask : ℕ)
    → IsAt w (2 ^ 16) bit mask
    → IsHighest w (narrow 0x2 1 (narrow 0xc 2 (narrow 0xf0 4 (narrow 0xff00 8 (bit, mask))))).0
search_16 w bit mask h =
    found w _ _
      (narrow-IsAt w 1 _ _ (narrow-IsAt w 2 _ _ (narrow-IsAt w 4 _ _ (narrow-IsAt w 8 bit mask h))))

-- On every positive 32-bit number fls answers the place of the highest bit, counted from 1.
pub fls-IsHighest : (w : ℕ) → 0 < w → w < 2 ^ 32 → IsHighest w (fls w)
unfolding fls
fls-IsHighest w pos lt =
    let e : (w == 0) ≡ false = ground arith in
    rw e (search_16 w _ _ (narrow-IsAt w 16 1 w (start w (2 ^ 16 * 2 ^ 16) pos lt)))

flsl-IsHighest : (w : ℕ) → 0 < w → w < 2 ^ 64 → IsHighest w (flsl w)
unfolding flsl
flsl-IsHighest w pos lt =
    let e : (w == 0) ≡ false = ground arith in
    rw e (
      search_16 w _ _
        (narrow-IsAt w 16 _ _ (narrow-IsAt w 32 1 w (start w (2 ^ 32 * 2 ^ 32) pos lt))))

exponent_lt : (n k w : ℕ) → 2 ^ n ≤ w → w < 2 ^ k → n < k
exponent_lt n k w low high = elim (dec_lt n k) [
  | yes lt ↦ lt
  | no ge ↦ elim (dec_lt k n) [
    | yes gt ↦ absurd (omega (arith, pow-lt n k gt))
    | no le ↦ let e : n ≡ k = omega arith in absurd (omega (arith, ap (λ (t : ℕ). 2 ^ t) e))
  ]
]

rounddown_lem :
    (x : ℕ)
    → 0 < x
    → x < 2 ^ 64
    → (k : ℕ) × (rounddown_pow_of_two x ≡ 2 ^ k) × (2 ^ k ≤ x) × (x < 2 * 2 ^ k)
unfolding rounddown_pow_of_two shifted_one
rounddown_lem x pos h =
    let f = flsl x in
    let (top, low, high) = flsl-IsHighest x pos h in
    let e : (x == 0) ≡ false = ground arith in
    let next : 2 ^ f ≡ 2 ^ (f - 1) * 2 =
      let s : f ≡ suc (f - 1) = omega (arith, top) in ap (λ (t : ℕ). 2 ^ t) s ∙ pow-suc 2 (f - 1) in
    let small : (f - 1) % 64 ≡ f - 1 = omega (arith, exponent_lt (f - 1) 64 x low h) in
    (f - 1, rw e (ap (λ (t : ℕ). 2 ^ t) small), low, omega (arith, high, next))

roundup_lem :
    (y : ℕ)
    → 0 < y
    → y ≤ 2 ^ 63
    → (l : ℕ) × (roundup_pow_of_two y ≡ 2 ^ l) × (y ≤ 2 ^ l) × (2 ^ l < 2 * y)
unfolding roundup_pow_of_two shifted_one
roundup_lem (suc zero) pos h = (0, unfold flsl in refl, omega arith, omega arith)
roundup_lem (suc (suc z)) pos h =
    let y = suc z in
    let e : (suc (suc z) == 0) ≡ false = ground arith in
    let d : suc (suc z) - 1 ≡ y = omega arith in
    let f = flsl y in
    let (top, low, high) = flsl-IsHighest y (omega arith) (omega arith) in
    let next : 2 ^ f ≡ 2 ^ (f - 1) * 2 =
      let s : f ≡ suc (f - 1) = omega (arith, top) in ap (λ (t : ℕ). 2 ^ t) s ∙ pow-suc 2 (f - 1) in
    let small : f % 64 ≡ f = omega (arith, exponent_lt (f - 1) 63 y low (omega arith)) in
    (f, rw (e, d) (ap (λ (t : ℕ). 2 ^ t) small), omega (arith, high), omega (arith, next, low))
roundup_lem zero pos h = absurd (omega arith)

-- On positive 64-bit numbers, the second one up to 2^63: rounddown_pow_of_two answers a power of two
-- that is at most `x` and more than half of it, and roundup_pow_of_two one that is at least `y` and
-- less than twice `y`.
pow_of_two_bounds :
    (x y : ℕ)
    → 0 < x
    → x < 2 ^ 64
    → 0 < y
    → y ≤ 2 ^ 63
    → (k : ℕ) × (l : ℕ) × (rounddown_pow_of_two x ≡ 2 ^ k)
      × (2 ^ k ≤ x)
      × (x < 2 * 2 ^ k)
      × (roundup_pow_of_two y ≡ 2 ^ l)
      × (y ≤ 2 ^ l)
      × (2 ^ l < 2 * y)
pow_of_two_bounds x y px hx py hy =
    let (k, d, dlow, dhigh) = rounddown_lem x px hx in
    let (l, u, ulow, uhigh) = roundup_lem y py hy in (k, l, d, dlow, dhigh, u, ulow, uhigh)
