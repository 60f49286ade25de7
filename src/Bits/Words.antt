-- ===== src/Bits/Words.antt =====
-- Words bit by bit: what `&`, `|`, `^` and `~` do to each bit.
use Prim.Native.Nat.{
  min, max, digits, bit_or, bit_xor, bit_and-bitwise, bit_or-bitwise, bit_xor-bitwise, differ,
}
use native.Mathlib.Nat.{pow-suc, one-le-pow}
use webcamd.Prelude.{
  ℕ, zero, suc, ◌+◌, ◌-◌, ◌*◌, ◌/◌, ◌%◌, ◌^◌, ◌<◌, ◌≤◌, ◌≡◌, bit_and, Bool, true, false, not, ◌&&◌,
  ◌||◌, ◌==◌, ltb, if◌then◌else◌, refl, ap, ◌∙◌, arith,
}

-- Bit `i` of a word, bit 0 the lowest.
unfoldable pub bit : ℕ → ℕ → Bool
bit zero w = w % 2 == 1
bit (suc i) w = bit i (w / 2)

-- Exclusive or, for the laws below.
abbrev pub differs : Bool → Bool → Bool
differs true b = not b
differs false b = b

-- The native operations run on as many rounds as the first number counts; any larger number of
-- rounds gives the same.
module _ (z : ℕ → ℕ) (f : ℕ → ℕ → ℕ) where
  rounds : (n m a b : ℕ) → a ≤ n → a ≤ m → digits z f n a b ≡ digits z f m a b
  rounds zero zero a b p q = refl
  rounds (suc n) zero zero b p q = refl
  rounds zero (suc m) zero b p q = refl
  rounds (suc n) (suc m) zero b p q = refl
  rounds zero m (suc a) b p q = absurd (omega arith)
  rounds n zero (suc a) b p q = absurd (omega arith)
  rounds (suc n) (suc m) (suc a) b p q =
      ap (λ (t : ℕ). t * 2 + f (suc a % 2) (b % 2))
        (rounds n m (suc a / 2) (b / 2) (omega arith) (omega arith))

  halved :
      (a b : ℕ)
      → digits z f (suc a) (suc a) b
        ≡ digits z f (suc a / 2) (suc a / 2) (b / 2) * 2 + f (suc a % 2) (b % 2)
  halved a b =
      ap (λ (t : ℕ). t * 2 + f (suc a % 2) (b % 2))
        (rounds a (suc a / 2) (suc a / 2) (b / 2) (omega arith) (omega arith))

pub and_halves : (a b : ℕ) → bit_and a b ≡ bit_and (a / 2) (b / 2) * 2 + min (a % 2) (b % 2)
and_halves zero b = simp bit_and-bitwise (omega arith)
and_halves (suc a) b = simp bit_and-bitwise (halved (λ y. 0) min a b)

pub or_halves : (a b : ℕ) → bit_or a b ≡ bit_or (a / 2) (b / 2) * 2 + max (a % 2) (b % 2)
or_halves zero b = simp bit_or-bitwise (omega arith)
or_halves (suc a) b = simp bit_or-bitwise (halved (λ y. y) max a b)

pub xor_halves : (a b : ℕ) → bit_xor a b ≡ bit_xor (a / 2) (b / 2) * 2 + differ (a % 2) (b % 2)
xor_halves zero b = simp bit_xor-bitwise (omega arith)
xor_halves (suc a) b = simp bit_xor-bitwise (halved (λ y. y) differ a b)

pub bit-and : (i a b : ℕ) → bit i (bit_and a b) ≡ (bit i a && bit i b)
unfolding bit
bit-and zero a b = ground (arith, and_halves a b)
bit-and (suc i) a b = ap (bit i) (omega (arith, and_halves a b)) ∙ bit-and i (a / 2) (b / 2)

pub bit-or : (i a b : ℕ) → bit i (bit_or a b) ≡ (bit i a || bit i b)
unfolding bit
bit-or zero a b = ground (arith, or_halves a b)
bit-or (suc i) a b = ap (bit i) (omega (arith, or_halves a b)) ∙ bit-or i (a / 2) (b / 2)

differ_one : (x y : ℕ) → x < 2 → y < 2 → differ x y ≡ (x + y) % 2
differ_one zero y p q = omega arith
differ_one (suc zero) zero p q = refl
differ_one (suc zero) (suc zero) p q = refl
differ_one (suc zero) (suc (suc y)) p q = absurd (omega arith)
differ_one (suc (suc x)) y p q = absurd (omega arith)

pub xor_step : (a b : ℕ) → bit_xor a b ≡ bit_xor (a / 2) (b / 2) * 2 + (a % 2 + b % 2) % 2
xor_step a b = omega (arith, xor_halves a b, differ_one (a % 2) (b % 2) (omega arith) (omega arith))

pub bit-xor : (i a b : ℕ) → bit i (bit_xor a b) ≡ differs (bit i a) (bit i b)
unfolding bit
bit-xor zero a b = ground (arith, xor_step a b)
bit-xor (suc i) a b = ap (bit i) (omega (arith, xor_step a b)) ∙ bit-xor i (a / 2) (b / 2)

pub bit-not : (k i w : ℕ) → i < k → w < 2 ^ k → bit i (2 ^ k - 1 - w) ≡ not (bit i w)
unfolding bit
bit-not zero i w h lt = absurd (omega arith)
bit-not (suc k) zero w h lt = ground (arith, pow-suc 2 k, one-le-pow k 2)
bit-not (suc k) (suc i) w h lt =
    ap (bit i) (omega (arith, pow-suc 2 k, one-le-pow k 2))
    ∙ bit-not k i (w / 2) (omega arith) (omega (arith, pow-suc 2 k))

pub bit-zero : (i : ℕ) → bit i 0 ≡ false
unfolding bit
bit-zero zero = refl
bit-zero (suc i) = bit-zero i

pub bit-pow : (i n : ℕ) → bit i (2 ^ n) ≡ (i == n)
unfolding bit
bit-pow zero zero = refl
bit-pow zero (suc n) = ground (arith, pow-suc 2 n)
bit-pow (suc i) zero = bit-zero i ∙ ground arith
bit-pow (suc i) (suc n) = ap (bit i) (omega (arith, pow-suc 2 n)) ∙ bit-pow i n ∙ ground arith

pub bit-ones : (i n : ℕ) → bit i (2 ^ n - 1) ≡ ltb i n
unfolding bit
bit-ones zero zero = refl
bit-ones zero (suc n) = ground (arith, pow-suc 2 n, one-le-pow n 2)
bit-ones (suc i) zero = bit-zero i ∙ ground arith
bit-ones (suc i) (suc n) =
    ap (bit i) (omega (arith, pow-suc 2 n, one-le-pow n 2)) ∙ bit-ones i n ∙ ground arith

and-zero_below : (k w : ℕ) → w < k → bit_and w 0 ≡ 0
and-zero_below zero w h = absurd (omega arith)
and-zero_below (suc k) zero h = refl
and-zero_below (suc k) (suc w) h =
    omega (arith, and_halves (suc w) 0, and-zero_below k (suc w / 2) (omega arith))

pub and-zero : (w : ℕ) → bit_and w 0 ≡ 0
and-zero w = and-zero_below (suc w) w (omega arith)

-- A single bit taken out of a word.
pub and-pow : (n w : ℕ) → bit_and w (2 ^ n) ≡ (if bit n w then 2 ^ n else 0)
unfolding bit
and-pow zero w = ground (arith, and_halves w 1, and-zero (w / 2))
and-pow (suc n) w = ground (arith, and_halves w (2 ^ suc n), and-pow n (w / 2), pow-suc 2 n)

-- Words below `2 ^ k` with the same lower `k` bits are equal.
pub bit_ext : (k a b : ℕ) → a < 2 ^ k → b < 2 ^ k → ((i : ℕ) → i < k → bit i a ≡ bit i b) → a ≡ b
unfolding bit
bit_ext zero a b p q h = omega arith
bit_ext (suc k) a b p q h = ground (
  arith,
  pow-suc 2 k,
  h 0,
  bit_ext k (a / 2) (b / 2) (omega (arith, pow-suc 2 k)) (omega (arith, pow-suc 2 k))
      (λ i lt. h (suc i) (omega arith)),
)

pub and-le : (k a b : ℕ) → a < 2 ^ k → bit_and a b ≤ a
and-le zero a b h = let e : a ≡ 0 = omega arith in rw e (omega (arith, bit_and-bitwise 0 b))
and-le (suc k) a b h = omega (arith, pow-suc 2 k, and_halves a b, and-le k (a / 2) (b / 2))

pub or-lt : (k a b : ℕ) → a < 2 ^ k → b < 2 ^ k → bit_or a b < 2 ^ k
or-lt zero a b p q =
    let e : a ≡ 0 = omega arith in let f : b ≡ 0 = omega arith in rw (e, f) (omega arith)
or-lt (suc k) a b p q = omega (arith, pow-suc 2 k, or_halves a b, or-lt k (a / 2) (b / 2))

pub xor-lt : (k a b : ℕ) → a < 2 ^ k → b < 2 ^ k → bit_xor a b < 2 ^ k
xor-lt zero a b p q =
    let e : a ≡ 0 = omega arith in let f : b ≡ 0 = omega arith in rw (e, f) (omega arith)
xor-lt (suc k) a b p q = ground (arith, pow-suc 2 k, xor_step a b, xor-lt k (a / 2) (b / 2))

-- Numbers with no bit in common are joined by adding them.
pub or-add : (k a b : ℕ) → a < 2 ^ k → bit_or a (b * 2 ^ k) ≡ a + b * 2 ^ k
or-add zero a b p = let e : a ≡ 0 = omega arith in rw e (omega (arith, bit_or-bitwise 0 (b * 1)))
or-add (suc k) a b p =
    let e : b * 2 ^ suc k ≡ b * 2 ^ k * 2 = omega (arith, ap (λ (t : ℕ). b * t) (pow-suc 2 k)) in
    let f : b * 2 ^ suc k / 2 ≡ b * 2 ^ k = omega arith in
    let g : bit_or (a / 2) (b * 2 ^ suc k / 2) ≡ a / 2 + b * 2 ^ k =
      ap (bit_or (a / 2)) f ∙ or-add k (a / 2) b (omega (arith, pow-suc 2 k)) in
    omega (arith, or_halves a (b * 2 ^ suc k))

pub pow-lt : (k n : ℕ) → n < k → 2 ^ n < 2 ^ k
pow-lt zero n h = absurd (omega arith)
pow-lt (suc k) zero h = omega (arith, pow-suc 2 k, one-le-pow k 2)
pow-lt (suc k) (suc n) h = omega (arith, pow-suc 2 k, pow-suc 2 n, pow-lt k n (omega arith))

pub ones-lt : (k w : ℕ) → bit_and w (2 ^ k - 1) < 2 ^ k
ones-lt zero w = omega (arith, and-zero w)
ones-lt (suc k) w =
    let half : (2 ^ suc k - 1) / 2 ≡ 2 ^ k - 1 = omega (arith, pow-suc 2 k, one-le-pow k 2) in
    omega (
      arith,
      pow-suc 2 k,
      and_halves w (2 ^ suc k - 1),
      ap (bit_and (w / 2)) half,
      ones-lt k (w / 2),
    )

or-zero_below : (k w : ℕ) → w < k → bit_or w 0 ≡ w
or-zero_below zero w h = absurd (omega arith)
or-zero_below (suc k) zero h = refl
or-zero_below (suc k) (suc w) h =
    omega (arith, or_halves (suc w) 0, or-zero_below k (suc w / 2) (omega arith))

-- The same with the higher number first.
pub or_shift : (k a b : ℕ) → a < 2 ^ k → bit_or (b * 2 ^ k) a ≡ b * 2 ^ k + a
or_shift zero a b p =
    let e : a ≡ 0 = omega arith in
    rw e (omega (arith, or-zero_below (suc (b * 1)) (b * 1) (omega arith)))
or_shift (suc k) a b p =
    let e : b * 2 ^ suc k ≡ b * 2 ^ k * 2 = omega (arith, ap (λ (t : ℕ). b * t) (pow-suc 2 k)) in
    let f : b * 2 ^ suc k / 2 ≡ b * 2 ^ k = omega arith in
    let g : bit_or (b * 2 ^ suc k / 2) (a / 2) ≡ b * 2 ^ k + a / 2 =
      ap (λ (t : ℕ). bit_or t (a / 2)) f ∙ or_shift k (a / 2) b (omega (arith, pow-suc 2 k)) in
    omega (arith, or_halves (b * 2 ^ suc k) a)
