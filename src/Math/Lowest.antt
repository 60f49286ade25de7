-- ===== src/Math/Lowest.antt =====
-- What __ffs and __ffz answer.
use native.Mathlib.Nat.{pow-suc, one-le-pow}
use webcamd.Prelude.{
  ℕ, zero, suc, ◌+◌, ◌-◌, ◌/◌, ◌%◌, ◌^◌, ◌<◌, ◌≡◌, bit_and, ◌==◌, refl, ap, ◌∙◌, arith, Bool-cases,
  inl, inr, true, false,
}
use webcamd.Bits.Words.{bit, bit-not, and_halves}
use webcamd.Bits.Next.{ffs}
use webcamd.Bits.Search.{ffs-pos, ffs_lem}
use webcamd.Math.Powers.{not32, lowest_one, lowest_zero}

and-not_self : (k y : ℕ) → y < 2 ^ k → bit_and (2 ^ k - 1 - y) y ≡ 0
and-not_self zero y h = let e : y ≡ 0 = omega arith in rw e refl
and-not_self (suc k) y h =
    let f : (2 ^ suc k - 1 - y) / 2 ≡ 2 ^ k - 1 - y / 2 =
      omega (arith, pow-suc 2 k, one-le-pow k 2) in
    omega (
      arith,
      and_halves (2 ^ suc k - 1 - y) y,
      ap (λ (t : ℕ). bit_and t (y / 2)) f,
      and-not_self k (y / 2) (omega (arith, pow-suc 2 k)),
      pow-suc 2 k,
    )

-- The lowest bit of a number is what it has in common with the complement of its predecessor.
lowest : (k x : ℕ) → 0 < x → x < 2 ^ k → bit_and (2 ^ k - 1 - (x - 1)) x ≡ 2 ^ (ffs k x - 1)
unfolding ffs
lowest zero x pos h = absurd (omega arith)
lowest (suc k) x pos h = elim (Bool-cases (x % 2 == 1)) [
  | inl odd ↦
      let f : (2 ^ suc k - 1 - (x - 1)) / 2 ≡ 2 ^ k - 1 - x / 2 = ground (arith, pow-suc 2 k) in
      rw odd (
        ground (
          arith,
          and_halves (2 ^ suc k - 1 - (x - 1)) x,
          ap (λ (t : ℕ). bit_and t (x / 2)) f,
          and-not_self k (x / 2) (omega (arith, pow-suc 2 k)),
          pow-suc 2 k,
        ))
  | inr even ↦
      let half : x / 2 < 2 ^ k = omega (arith, pow-suc 2 k) in
      let more : 0 < x / 2 = ground arith in
      let pos' : 0 < ffs k (x / 2) = ffs-pos k (x / 2) half (λ e. omega arith) in
      let some : (ffs k (x / 2) == 0) ≡ false = ground arith in
      let f : (2 ^ suc k - 1 - (x - 1)) / 2 ≡ 2 ^ k - 1 - (x / 2 - 1) =
        ground (arith, pow-suc 2 k) in
      let up : suc (ffs k (x / 2)) - 1 ≡ suc (ffs k (x / 2) - 1) = omega arith in
      rw (even, some, up)
        (ground (
          arith,
          and_halves (2 ^ suc k - 1 - (x - 1)) x,
          ap (λ (t : ℕ). bit_and t (x / 2)) f,
          lowest k (x / 2) more half,
          pow-suc 2 (ffs k (x / 2) - 1),
        ))
]

-- On a positive int, as a bit pattern, __ffs answers not the place of the lowest bit that is on but
-- that bit itself, the power of two; on any int but -1, __ffz answers in this way the lowest bit
-- that is off.
lowest_bits :
    (x y : ℕ)
    → 0 < x
    → x < 2 ^ 32
    → y < 2 ^ 32 - 1
    → (lowest_one x ≡ 2 ^ (ffs 32 x - 1))
      × (bit (ffs 32 x - 1) x ≡ true)
      × (lowest_zero y ≡ 2 ^ (ffs 32 (2 ^ 32 - 1 - y) - 1))
      × (bit (ffs 32 (2 ^ 32 - 1 - y) - 1) y ≡ false)
unfolding lowest_one lowest_zero not32
lowest_bits x y pos hx hy =
    let z = 2 ^ 32 - 1 - y in
    let one : (x + 2 ^ 32 - 1) % 2 ^ 32 ≡ x - 1 = omega arith in
    let next : (y + 1) % 2 ^ 32 ≡ 2 ^ 32 - 1 - (z - 1) = omega arith in
    let place = ffs_lem 32 z (omega arith) (λ e. omega arith) in
    (
      ap (λ (t : ℕ). bit_and (2 ^ 32 - 1 - t) x) one ∙ lowest 32 x pos hx,
      (ffs_lem 32 x hx (λ e. omega arith)).on,
      ap (λ (t : ℕ). bit_and t z) next ∙ lowest 32 z (omega arith) (omega arith),
      ground (arith, place.on, bit-not 32 (ffs 32 z - 1) y place.low (omega arith)),
    )
