-- ===== src/Radix/Rounding.antt =====
-- `index += step; index &= -step;` of radix_tree_iter_find (kernel/linux_radix.c): the next index
-- that takes another way at level `h`.
use native.Mathlib.Nat.{
  div-lt_iff_lt-mul, le-div_iff_mul-le, add-div_right, mul-div_left, div-mul-le_self,
}
use webcamd.Prelude.{
  ℕ, zero, suc, ◌+◌, ◌*◌, ◌/◌, ◌%◌, ◌^◌, ◌≤◌, ◌<◌, ◌≡◌, ◌≢◌, arith, ap, ◌∙◌, ℕ_discrete,
}
use webcamd.Radix.Digits.{span, span-le, pow-pos, div-span}
use webcamd.Radix.Iterate.{round_up}

pub round_up_lem :
    (index h : ℕ) → h < 10 → index < 2 ^ 60 → round_up index h ≡ (index / span h + 1) * span h
unfolding round_up
round_up_lem index h b i =
    ap (λ k. k / span h * span h) small ∙ ap (λ k. k * span h) (add-div_right index (pow-pos h))
  where
    small : (index + span h) % 2 ^ 64 ≡ index + span h
    small = omega (arith, span-le h 10 (omega arith))

module _ (index h : ℕ) (b : h < 10) (i : index < 2 ^ 60) where
  pub lt-round_up : index < round_up index h
  lt-round_up = rw (round_up_lem index h b i) ((div-lt_iff_lt-mul (pow-pos h)).0 (omega arith))

  pub round_up-div : round_up index h / span h ≡ index / span h + 1
  round_up-div = rw (round_up_lem index h b i) (mul-div_left (index / span h + 1) (pow-pos h))

  -- All indices that are stepped over take the way of `index` at this level.
  pub div_between : (j : ℕ) → index ≤ j → j < round_up index h → j / span h ≡ index / span h
  div_between j ge lt = omega (
    arith,
    (div-lt_iff_lt-mul (pow-pos h)).1 (rw (round_up_lem index h b i) at lt),
    (le-div_iff_mul-le (pow-pos h)).1 (below ge),
  )
    where
      below : index ≤ j → index / span h * span h ≤ j
      below ge = omega (arith, div-mul-le_self index (span h))

  -- Where the digit does not wrap, the way above this level stays the same.
  pub round_up_same :
      round_up index h / span h % 64 ≢ 0 → round_up index h / span (suc h) ≡ index / span (suc h)
  round_up_same d = omega (arith, round_up-div, div-span index h, div-span (round_up index h) h)

pub div_above : (a c h t : ℕ) → h ≤ t → a / span h ≡ c / span h → a / span t ≡ c / span t
div_above a c zero zero le e = e
div_above a c (suc h) zero le e = absurd (omega arith)
div_above a c h (suc t) le e = elim (ℕ_discrete h (suc t)) [
  | yes same ↦ rw same at e
  | no d ↦ omega (arith, div_above a c h t (omega arith) e, div-span a t, div-span c t)
]

pub lt_of_div : (a h : ℕ) → a / span h ≡ 0 → a < span h
lt_of_div a h e =
    omega (arith, (div-lt_iff_lt-mul {k = span h} {x = a} {y = 1} (pow-pos h)).0 (omega arith))
