-- ===== src/Math/Gcd.antt =====
-- gcd of kernel/linux_func.c.
use native.Mathlib.Nat.{mul-sub, mul_comm, mul-add, div-add-mod', mod-eq-sub-div-mul, mod-lt}
use webcamd.Prelude.{
  ℕ, zero, suc, ◌+◌, ◌-◌, ◌*◌, ◌/◌, ◌%◌, ◌<◌, ◌≤◌, ◌≡◌, ◌==◌, ltb, if◌then◌else◌, sym, arith,
  Bool-cases, inl, inr, false, subst,
}

-- `while ((r = a % b) != 0) { a = b; b = r; }`
unfoldable pub gcd_loop : ℕ → ℕ → ℕ → ℕ
gcd_loop zero a b = b
gcd_loop (suc fuel) a b = let rest = gcd_loop fuel b (a % b) in if a % b == 0 then b else rest

-- The divisor falls in every round, so that it bounds their number.
unfoldable pub gcd_from : ℕ → ℕ → ℕ
unfolding gcd_loop
gcd_from a b = if b == 0 then a else gcd_loop b a b

unfoldable pub gcd : ℕ → ℕ → ℕ
unfolding gcd_from
gcd a b = if ltb a b then gcd_from b a else gcd_from a b

abbrev pub Divides : ℕ → ℕ → Type 0
Divides d n = (k : ℕ) × (k * d ≡ n)

-- The greatest common divisor, in the order of divisibility.
pub record IsGcd (a b r : ℕ) : Type 0 where
  pub left : Divides r a
  pub right : Divides r b
  pub greatest : (d : ℕ) → Divides d a → Divides d b → Divides d r

times : (q l d b : ℕ) → l * d ≡ b → d * (q * l) ≡ q * b
times q l d b f = rw (← f) (grind arith)

Divides-mod : (d a b : ℕ) → Divides d a → Divides d b → Divides d (a % b)
Divides-mod d a b (k, e) (l, f) = (
  k - a / b * l,
  omega (
    arith,
    mul_comm (k - a / b * l) d,
    mul-sub d k (a / b * l),
    mul_comm d k,
    times (a / b) l d b f,
    mod-eq-sub-div-mul a b,
  ),
)

Divides-back : (d a b : ℕ) → Divides d b → Divides d (a % b) → Divides d a
Divides-back d a b (l, f) (m, g) = (
  a / b * l + m,
  omega (
    arith,
    mul_comm (a / b * l + m) d,
    mul-add d (a / b * l) m,
    mul_comm d m,
    times (a / b) l d b f,
    div-add-mod' a b,
  ),
)

Divides_zero : (d : ℕ) → Divides d 0
Divides_zero d = (0, omega arith)

Divides_self : (d : ℕ) → Divides d d
Divides_self d = (1, omega arith)

gcd_loop-IsGcd : (fuel a b : ℕ) → 0 < b → b ≤ fuel → IsGcd a b (gcd_loop fuel a b)
unfolding gcd_loop
gcd_loop-IsGcd zero a b pos h = absurd (omega arith)
gcd_loop-IsGcd (suc fuel) a b pos h = elim (Bool-cases (a % b == 0)) [
  | inl last ↦
      let e : a % b ≡ 0 = ground arith in
      rw last (record {
        left = Divides-back b a b (Divides_self b) (subst (Divides b) (sym e) (Divides_zero b));
        right = Divides_self b;
        greatest = λ d p q. q;
      })
  | inr more ↦
      let ih = gcd_loop-IsGcd fuel b (a % b) (ground arith) (omega (arith, mod-lt a pos)) in
      let r = gcd_loop fuel b (a % b) in
      rw more (record {
        left = Divides-back r a b ih.left ih.right;
        right = ih.left;
        greatest = λ d p q. ih.greatest d q (Divides-mod d a b p q);
      })
]

gcd_from-IsGcd : (a b : ℕ) → IsGcd a b (gcd_from a b)
unfolding gcd_from
gcd_from-IsGcd a zero = record {
  left = Divides_self a;
  right = Divides_zero a;
  greatest = λ d p q. p;
}
gcd_from-IsGcd a (suc b) =
    let e : (suc b == 0) ≡ false = ground arith in
    rw e (gcd_loop-IsGcd (suc b) a (suc b) (omega arith) (omega arith))

-- gcd answers a common divisor of its arguments that every common divisor divides.
pub gcd-IsGcd : (a b : ℕ) → IsGcd a b (gcd a b)
unfolding gcd
gcd-IsGcd a b = elim (Bool-cases (ltb a b)) [
  | inl e ↦
      let h = gcd_from-IsGcd b a in
      rw e (record { left = h.right; right = h.left; greatest = λ d p q. h.greatest d q p })
  | inr e ↦ rw e (gcd_from-IsGcd a b)
]
