-- ===== src/Radix/Digits.antt =====
-- The positions that an index takes on its way down, and when two indices take the same way
-- (radix_pos and radix_max of kernel/linux_radix.c).
use native.Mathlib.Nat.{div-div-eq-div-mul, pow-suc, div-eq_of_lt, pow-le-pow_right, one-le-pow}
use webcamd.Prelude.{
  ℕ, zero, suc, ◌+◌, ◌*◌, ◌/◌, ◌%◌, ◌^◌, ◌≤◌, ◌<◌, ◌≡◌, Bool, true, ltb, ◌==◌, ◌&&◌, arith, sym,
  not, ℕ_discrete, Bool-cases, inl, inr, ap, ◌∙◌,
}
use webcamd.Radix.Tree.{radix_max, radix_pos, sign_extend}

-- The two indices agree at every level from `h` down.
unfoldable pub same_path : ℕ → ℕ → ℕ → Bool
same_path i j zero = radix_pos i 0 == radix_pos j 0
same_path i j (suc h) = radix_pos i (suc h) == radix_pos j (suc h) && same_path i j h

pub radix_pos-lt : (i h : ℕ) → radix_pos i h < 64
unfolding radix_pos
radix_pos-lt i h = omega arith

-- 64 ^ h, as the shifts write it
abbrev pub span : ℕ → ℕ
span h = 2 ^ (6 * h)

six_more : (n : ℕ) → 2 ^ suc (suc (suc (suc (suc (suc n))))) ≡ 2 ^ n * 64
six_more n = simp pow-suc (omega arith)

pub span-suc : (h : ℕ) → span (suc h) ≡ span h * 64
span-suc h = ap (λ k. 2 ^ k) six ∙ six_more (6 * h)
  where
    six : 6 * suc h ≡ suc (suc (suc (suc (suc (suc (6 * h))))))
    six = omega arith

pub radix_pos_lem : (i h : ℕ) → i < 2 ^ 60 → radix_pos i h ≡ i / span h % 64
unfolding radix_pos sign_extend
radix_pos_lem i h b = ground arith

pub div-span : (i h : ℕ) → i / span (suc h) ≡ i / span h / 64
div-span i h = rw span-suc (sym (div-div-eq-div-mul i (span h) 64))

pub pow-pos : (h : ℕ) → 0 < span h
pow-pos h = one-le-pow (6 * h) 2 (omega arith)

pub span-le : (h k : ℕ) → h ≤ k → span h ≤ span k
span-le h k b = pow-le-pow_right {n = 2} (omega arith) (omega arith)

pub span-small : (i h : ℕ) → h < 10 → i < span (suc h) → i < 2 ^ 60
span-small i h b lt = omega (arith, span-le (suc h) 10 b)

-- Equal above level `h` and equal from there down is equal.
same_path-eq :
    (i j h : ℕ)
    → i < 2 ^ 60
    → j < 2 ^ 60
    → i / span (suc h) ≡ j / span (suc h)
    → same_path i j h ≡ true
    → i ≡ j
unfolding same_path
same_path-eq i j zero bi bj top e = ground (arith, radix_pos_lem i 0 bi, radix_pos_lem j 0 bj, top)
same_path-eq i j (suc h) bi bj top e =
    same_path-eq i j h bi bj
      (ground (
        arith,
        radix_pos_lem i (suc h) bi,
        radix_pos_lem j (suc h) bj,
        div-span i (suc h),
        div-span j (suc h),
        top,
      ))
      (ground arith)

same_path_refl : (i h : ℕ) → same_path i i h ≡ true
unfolding same_path
same_path_refl i zero = ground arith
same_path_refl i (suc h) = ground (arith, same_path_refl i h)

-- Below the limit of a tree of height `h + 1`, two indices take the same way only if they are one.
pub same_path-== :
    (i j h : ℕ) → h < 10 → i < span (suc h) → j < span (suc h) → same_path i j h ≡ (i == j)
same_path-== i j h b hi hj = elim (ℕ_discrete i j) [
  | yes e ↦ rw e (same_path_refl j h ∙ ground arith)
  | no d ↦ elim (Bool-cases (same_path i j h)) [
    | inl same ↦ absurd (
        d (
          same_path-eq i j h (span-small i h b hi) (span-small j h b hj)
            (div-eq_of_lt hi ∙ sym (div-eq_of_lt hj)) same))
    | inr other ↦ rw other (ground arith)
  ]
]

-- The limit of a tree of height `h`, where the shift does not run out of bits.
pub radix_max-span : (h : ℕ) → h ≤ 10 → radix_max h + 1 ≡ span h
unfolding radix_max
radix_max-span h b = rw small (omega (arith, pow-pos h))
  where
    small : h * 6 % 64 ≡ 6 * h
    small = omega arith

pub ltb-radix_max : (h i : ℕ) → h ≤ 10 → ltb (radix_max h) i ≡ not (ltb i (span h))
ltb-radix_max h i b = ground (arith, radix_max-span h b)
