-- ===== src/Math/Root.antt =====
-- int_sqrt of kernel/linux_func.c.
use Prim.Native.Nat.{bit_xor}
use native.Mathlib.Nat.{pow-suc}
use webcamd.Prelude.{
  ℕ, zero, suc, ◌+◌, ◌-◌, ◌*◌, ◌/◌, ◌^◌, ◌<◌, ◌≤◌, ◌≡◌, leb, if◌then◌else◌, refl, ap, ◌∙◌, arith,
  subst, Bool-cases, inl, inr,
}
use webcamd.Bits.Words.{xor_step}

-- The rounds of int_sqrt that are left, which the code writes one below the other: round `i` works
-- on bit `i` of the root, with constants that are 7 and 3 times 4^(i - 1).
unfoldable pub sqrt_rounds : ℕ → ℕ → ℕ → ℕ
sqrt_rounds zero a b = if leb b a then bit_xor (b / 2) 1 else b / 2
sqrt_rounds (suc i) a b =
    let taken = sqrt_rounds i (a - b) (bit_xor (b / 2) (7 * 4 ^ i)) in
    let passed = sqrt_rounds i a (bit_xor (b / 2) (3 * 4 ^ i)) in if leb b a then taken else passed

unfoldable pub int_sqrt : ℕ → ℕ
unfolding sqrt_rounds
int_sqrt a = sqrt_rounds 31 a 0x4000000000000000

xor-zero_below : (k w : ℕ) → w < k → bit_xor w 0 ≡ w
xor-zero_below zero w h = absurd (omega arith)
xor-zero_below (suc k) zero h = refl
xor-zero_below (suc k) (suc w) h =
    omega (arith, xor_step (suc w) 0, xor-zero_below k (suc w / 2) (omega arith))

xor-zero : (w : ℕ) → bit_xor w 0 ≡ w
xor-zero w = xor-zero_below (suc w) w (omega arith)

xor-one : (q : ℕ) → bit_xor (2 * q) 1 ≡ 2 * q + 1
xor-one q =
    let e : 2 * q / 2 ≡ q = omega arith in
    omega (arith, xor_step (2 * q) 1, ap (λ (t : ℕ). bit_xor t 0) e, xor-zero q)

xor-three : (q : ℕ) → bit_xor (4 * q + 1) 3 ≡ 4 * q + 2
xor-three q =
    let e : (4 * q + 1) / 2 ≡ 2 * q = omega arith in
    omega (arith, xor_step (4 * q + 1) 3, ap (λ (t : ℕ). bit_xor t 1) e, xor-one q)

xor-seven : (q : ℕ) → bit_xor (8 * q + 2) 7 ≡ 8 * q + 5
xor-seven q =
    let e : (8 * q + 2) / 2 ≡ 4 * q + 1 = omega arith in
    omega (arith, xor_step (8 * q + 2) 7, ap (λ (t : ℕ). bit_xor t 3) e, xor-three q)

xor-three_two : (q : ℕ) → bit_xor (8 * q + 2) 3 ≡ 8 * q + 1
xor-three_two q =
    let e : (8 * q + 2) / 2 ≡ 2 * (2 * q) + 1 = omega arith in
    let f : (2 * (2 * q) + 1) / 2 ≡ 2 * q = omega arith in
    omega (
      arith,
      xor_step (8 * q + 2) 3,
      ap (λ (t : ℕ). bit_xor t 1) e,
      xor_step (2 * (2 * q) + 1) 1,
      ap (λ (t : ℕ). bit_xor t 0) f,
      xor-zero (2 * q),
    )

xor-double : (a b : ℕ) → bit_xor (a * 2) (b * 2) ≡ bit_xor a b * 2
xor-double a b =
    let e : a * 2 / 2 ≡ a = omega arith in
    let f : b * 2 / 2 ≡ b = omega arith in
    omega
      (arith, xor_step (a * 2) (b * 2), ap (λ (t : ℕ). bit_xor t (b * 2 / 2)) e, ap (bit_xor a) f)

-- Facts about products.
quadruple : (a x : ℕ) → a * (x * 4) ≡ a * x * 2 * 2
quadruple a x = grind arith

halved_lem : (x q : ℕ) → x * 4 * (4 * q + 1) ≡ (8 * q + 2) * x * 2
halved_lem x q = grind arith

odd_square : (x q : ℕ) → x * ((2 * q + 1) * (2 * q + 1)) ≡ x * 4 * (q * q) + x * (4 * q + 1)
odd_square x q = grind arith

even_square : (x q : ℕ) → x * (2 * q * (2 * q)) ≡ x * 4 * (q * q)
even_square x q = grind arith

less : (x q : ℕ) → x * 4 * (2 * q + 1) ≡ x * (4 * q + 1) + x * (2 * (2 * q + 1) + 1)
less x q = grind arith

xor-scaled : (i a b : ℕ) → bit_xor (a * 4 ^ i) (b * 4 ^ i) ≡ bit_xor a b * 4 ^ i
xor-scaled zero a b =
    let e : a * 1 ≡ a = omega arith in
    let f : b * 1 ≡ b = omega arith in
    omega (arith, ap (λ (t : ℕ). bit_xor t (b * 1)) e, ap (bit_xor a) f)
xor-scaled (suc i) a b =
    let e : a * 4 ^ suc i ≡ a * 4 ^ i * 2 * 2 = rw (pow-suc 4 i) (quadruple a (4 ^ i)) in
    let f : b * 4 ^ suc i ≡ b * 4 ^ i * 2 * 2 = rw (pow-suc 4 i) (quadruple b (4 ^ i)) in
    let g : bit_xor a b * 4 ^ suc i ≡ bit_xor a b * 4 ^ i * 2 * 2 =
      rw (pow-suc 4 i) (quadruple (bit_xor a b) (4 ^ i)) in
    rw (e, f, g)
      (xor-double (a * 4 ^ i * 2) (b * 4 ^ i * 2)
        ∙ ap (λ (t : ℕ). t * 2)
            (xor-double (a * 4 ^ i) (b * 4 ^ i) ∙ ap (λ (t : ℕ). t * 2) (xor-scaled i a b)))

-- `r` is the square root of `n`, rounded down.
abbrev pub IsRoot : ℕ → ℕ → Type 0
IsRoot n r = (r * r ≤ n) × (n < (r + 1) * (r + 1))

half : (i q : ℕ) → 4 ^ suc i * (4 * q + 1) / 2 ≡ (8 * q + 2) * 4 ^ i
half i q =
    let e : 4 ^ suc i * (4 * q + 1) ≡ (8 * q + 2) * 4 ^ i * 2 =
      rw (pow-suc 4 i) (halved_lem (4 ^ i) q) in
    omega arith

taken_next :
    (i q : ℕ) → bit_xor (4 ^ suc i * (4 * q + 1) / 2) (7 * 4 ^ i) ≡ 4 ^ i * (4 * (2 * q + 1) + 1)
taken_next i q =
    ap (λ (t : ℕ). bit_xor t (7 * 4 ^ i)) (half i q)
    ∙ xor-scaled i (8 * q + 2) 7
    ∙ ap (λ (t : ℕ). t * 4 ^ i) (xor-seven q)
    ∙ grind arith

passed_next :
    (i q : ℕ) → bit_xor (4 ^ suc i * (4 * q + 1) / 2) (3 * 4 ^ i) ≡ 4 ^ i * (4 * (2 * q) + 1)
passed_next i q =
    ap (λ (t : ℕ). bit_xor t (3 * 4 ^ i)) (half i q)
    ∙ xor-scaled i (8 * q + 2) 3
    ∙ ap (λ (t : ℕ). t * 4 ^ i) (xor-three_two q)
    ∙ grind arith

sqrt_rounds-IsRoot :
    (i a q : ℕ)
    → a < 4 ^ suc i * (2 * q + 1)
    → IsRoot (a + 4 ^ suc i * (q * q)) (sqrt_rounds i a (4 ^ i * (4 * q + 1)))
unfolding sqrt_rounds
sqrt_rounds-IsRoot zero a q h =
    let b : 1 * (4 * q + 1) ≡ 4 * q + 1 = omega arith in
    let low : (4 * q + 1) / 2 ≡ 2 * q = omega arith in
    elim (Bool-cases (leb (4 * q + 1) a)) [
      | inl e ↦ rw (b, e, low, xor-one q) (grind arith, grind arith)
      | inr e ↦ rw (b, e, low) (grind arith, grind arith)
    ]
sqrt_rounds-IsRoot (suc i) a q h = elim (Bool-cases (leb (4 ^ suc i * (4 * q + 1)) a)) [
  | inl e ↦
      let fits : 4 ^ suc i * (4 * q + 1) ≤ a = ground arith in
      let rest : a - 4 ^ suc i * (4 * q + 1) < 4 ^ suc i * (2 * (2 * q + 1) + 1) = omega (
        arith,
        pow-suc 4 (suc i),
        less (4 ^ suc i) q,
        ap (λ (t : ℕ). t * (2 * q + 1)) (pow-suc 4 (suc i)),
      ) in
      let same : a - 4 ^ suc i * (4 * q + 1) + 4 ^ suc i * ((2 * q + 1) * (2 * q + 1))
          ≡ a + 4 ^ suc (suc i) * (q * q) =
        omega (arith, odd_square (4 ^ suc i) q, ap (λ (t : ℕ). t * (q * q)) (pow-suc 4 (suc i))) in
      rw (e, taken_next i q)
        (subst
          (λ (n : ℕ).
            IsRoot n (sqrt_rounds i (a - 4 ^ suc i * (4 * q + 1)) (4 ^ i * (4 * (2 * q + 1) + 1))))
          same (sqrt_rounds-IsRoot i (a - 4 ^ suc i * (4 * q + 1)) (2 * q + 1) rest))
  | inr e ↦
      let rest : a < 4 ^ suc i * (2 * (2 * q) + 1) = ground arith in
      let same : a + 4 ^ suc i * ((2 * q) * (2 * q)) ≡ a + 4 ^ suc (suc i) * (q * q) =
        omega (arith, even_square (4 ^ suc i) q, ap (λ (t : ℕ). t * (q * q)) (pow-suc 4 (suc i))) in
      rw (e, passed_next i q)
        (subst (λ (n : ℕ). IsRoot n (sqrt_rounds i a (4 ^ i * (4 * (2 * q) + 1)))) same
          (sqrt_rounds-IsRoot i a (2 * q) rest))
]

-- On every 64-bit number int_sqrt answers the square root, rounded down.
pub int_sqrt-IsRoot : (a : ℕ) → a < 2 ^ 64 → IsRoot a (int_sqrt a)
unfolding int_sqrt
int_sqrt-IsRoot a h =
    subst (λ (n : ℕ). IsRoot n (sqrt_rounds 31 a 0x4000000000000000)) (omega arith)
      (sqrt_rounds-IsRoot 31 a 0 (omega arith))
