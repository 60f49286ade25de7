-- ===== src/Clock/Nanoseconds.antt =====
-- The calls on points in time are those on numbers of nanoseconds.
use webcamd.Prelude.{
  ℕ, zero, suc, ◌+◌, ◌-◌, ◌*◌, ◌/◌, ◌%◌, ◌^◌, ◌<◌, ◌≡◌, if◌then◌else◌, refl, arith, ap, ◌∙◌, true,
  Bool-cases, inl, inr,
}
use webcamd.Prelude.Int.{
  ℤ, pos, negsuc, ◌+ℤ◌, ◌-ℤ◌, ◌*ℕ◌, ◌≤ℤ◌, ltb_ℤ, quot, rem, add_one, sub_one, pos_part, neg_part,
  int_laws, +ℤ_parts, -ℤ_parts, *ℕ_parts, eq_of_parts,
}
use webcamd.Clock.Times.{
  Timespec, nsec_per_sec, carry_up, carry_down, ktime_add, ktime_sub, timespec_add, ktime_to_ns,
  ns_to_timespec, ktime_compare, ktime_add_us, timeval_to_ns, ns_to_timeval, ktime_us_delta,
  ktime_to_us, ktime_to_timeval,
}

-- The nanoseconds lie within a second.
pub record IsNormal (t : Timespec) : Type 0 where
  pub nonneg : pos 0 ≤ℤ t.tv_nsec
  pub small : ltb_ℤ t.tv_nsec (pos nsec_per_sec) ≡ true

-- The difference of two integers from their parts, at a second's nanoseconds.
add_one_parts : (a : ℤ) → pos_part (add_one a) + neg_part a ≡ neg_part (add_one a) + pos_part a + 1
add_one_parts (pos n) = omega arith
add_one_parts (negsuc zero) = omega arith
add_one_parts (negsuc (suc n)) = omega arith

sub_one_parts : (a : ℤ) → pos_part (sub_one a) + neg_part a + 1 ≡ neg_part (sub_one a) + pos_part a
sub_one_parts (pos zero) = omega arith
sub_one_parts (pos (suc n)) = omega arith
sub_one_parts (negsuc n) = omega arith

-- Carrying does not change the point in time.
carry_up-ns : (r : Timespec) → ktime_to_ns (carry_up r) ≡ ktime_to_ns r
unfolding ktime_to_ns carry_up
carry_up-ns r = elim (Bool-cases (ltb_ℤ r.tv_nsec (pos nsec_per_sec))) [
  | inl e ↦ rw e refl
  | inr e ↦ rw e (omega (int_laws, add_one_parts r.tv_sec))
]

carry_down-ns : (r : Timespec) → ktime_to_ns (carry_down r) ≡ ktime_to_ns r
unfolding ktime_to_ns carry_down
carry_down-ns r = elim (Bool-cases (ltb_ℤ r.tv_nsec (pos 0))) [
  | inl e ↦ rw e (omega (int_laws, sub_one_parts r.tv_sec))
  | inr e ↦ rw e refl
]

ktime_add-ns : (a b : Timespec) → ktime_to_ns (ktime_add a b) ≡ ktime_to_ns a +ℤ ktime_to_ns b
unfolding ktime_add
ktime_add-ns a b =
    carry_up-ns (record { tv_sec = a.tv_sec +ℤ b.tv_sec; tv_nsec = a.tv_nsec +ℤ b.tv_nsec })
    ∙ unfold ktime_to_ns in omega int_laws

ktime_sub-ns : (a b : Timespec) → ktime_to_ns (ktime_sub a b) ≡ ktime_to_ns a -ℤ ktime_to_ns b
unfolding ktime_sub
ktime_sub-ns a b =
    carry_down-ns (record { tv_sec = a.tv_sec -ℤ b.tv_sec; tv_nsec = a.tv_nsec -ℤ b.tv_nsec })
    ∙ unfold ktime_to_ns in omega int_laws

ktime_add-IsNormal : {a b : Timespec} → IsNormal a → IsNormal b → IsNormal (ktime_add a b)
unfolding ktime_add carry_up
ktime_add-IsNormal {a} {b} h k =
    elim (Bool-cases (ltb_ℤ (a.tv_nsec +ℤ b.tv_nsec) (pos nsec_per_sec))) [
      | inl e ↦ rw e (record { nonneg = omega (int_laws, h.nonneg, k.nonneg); small = e })
      | inr e ↦ rw e (record {
        nonneg = ground (arith, -ℤ_parts (a.tv_nsec +ℤ b.tv_nsec) (pos nsec_per_sec));
        small = ground (
          arith,
          h.small,
          k.small,
          +ℤ_parts a.tv_nsec b.tv_nsec,
          -ℤ_parts (a.tv_nsec +ℤ b.tv_nsec) (pos nsec_per_sec),
        );
      })
    ]

ktime_sub-IsNormal : {a b : Timespec} → IsNormal a → IsNormal b → IsNormal (ktime_sub a b)
unfolding ktime_sub carry_down
ktime_sub-IsNormal {a} {b} h k = elim (Bool-cases (ltb_ℤ (a.tv_nsec -ℤ b.tv_nsec) (pos 0))) [
  | inl e ↦ rw e (record {
    nonneg = ground (
      arith,
      h.nonneg,
      k.small,
      -ℤ_parts a.tv_nsec b.tv_nsec,
      +ℤ_parts (a.tv_nsec -ℤ b.tv_nsec) (pos nsec_per_sec),
    );
    small = ground (arith, +ℤ_parts (a.tv_nsec -ℤ b.tv_nsec) (pos nsec_per_sec));
  })
  | inr e ↦ rw e (record {
    nonneg = ground (arith, -ℤ_parts a.tv_nsec b.tv_nsec);
    small = ground (arith, h.small, k.nonneg, -ℤ_parts a.tv_nsec b.tv_nsec);
  })
]

-- Points in time within a second are ordered by their seconds first.
ktime_compare-ns :
    (a b : Timespec)
    → IsNormal a
    → IsNormal b
    → ktime_compare a b ≡ (
        if ltb_ℤ (ktime_to_ns a) (ktime_to_ns b)
        then negsuc 0
        else if ltb_ℤ (ktime_to_ns b) (ktime_to_ns a)
        then pos 1
        else pos 0)
unfolding ktime_compare ktime_to_ns
ktime_compare-ns a b h k = ground (
  arith,
  h.small,
  h.nonneg,
  k.small,
  k.nonneg,
  +ℤ_parts (a.tv_sec *ℕ nsec_per_sec) a.tv_nsec,
  +ℤ_parts (b.tv_sec *ℕ nsec_per_sec) b.tv_nsec,
  *ℕ_parts a.tv_sec nsec_per_sec,
  *ℕ_parts b.tv_sec nsec_per_sec,
)

-- For points in time whose nanoseconds lie within a second: ktime_add and ktime_sub add and subtract
-- them as numbers of nanoseconds, with results that are normal in the same way, and ktime_compare
-- answers -1, 1 or 0 as the first number is less, greater or the same.
ktime_calls-ns :
    (a b : Timespec)
    → IsNormal a
    → IsNormal b
    → (ktime_to_ns (ktime_add a b) ≡ ktime_to_ns a +ℤ ktime_to_ns b)
      × IsNormal (ktime_add a b)
      × (ktime_to_ns (ktime_sub a b) ≡ ktime_to_ns a -ℤ ktime_to_ns b)
      × IsNormal (ktime_sub a b)
      × (ktime_compare a b ≡ (
          if ltb_ℤ (ktime_to_ns a) (ktime_to_ns b)
          then negsuc 0
          else if ltb_ℤ (ktime_to_ns b) (ktime_to_ns a)
          then pos 1
          else pos 0))
ktime_calls-ns a b h k = (
  ktime_add-ns a b,
  ktime_add-IsNormal h k,
  ktime_sub-ns a b,
  ktime_sub-IsNormal h k,
  ktime_compare-ns a b h k,
)

ns_parts :
    (t : Timespec)
    → pos_part (ktime_to_ns t) + neg_part t.tv_sec * nsec_per_sec + neg_part t.tv_nsec
      ≡ neg_part (ktime_to_ns t) + pos_part t.tv_sec * nsec_per_sec + pos_part t.tv_nsec
unfolding ktime_to_ns
ns_parts t =
    omega (arith, +ℤ_parts (t.tv_sec *ℕ nsec_per_sec) t.tv_nsec, *ℕ_parts t.tv_sec nsec_per_sec)

normal_unique : {a b : Timespec} → IsNormal a → IsNormal b → ktime_to_ns a ≡ ktime_to_ns b → a ≡ b
normal_unique {a} {b} h k e =
    let secs : a.tv_sec ≡ b.tv_sec = eq_of_parts a.tv_sec b.tv_sec (
      ground (
        arith,
        h.small,
        h.nonneg,
        k.small,
        k.nonneg,
        ns_parts a,
        ns_parts b,
        ap pos_part e,
        ap neg_part e,
      )) in
    let nsecs : a.tv_nsec ≡ b.tv_nsec = eq_of_parts a.tv_nsec b.tv_nsec (
      omega (
        arith,
        ns_parts a,
        ns_parts b,
        ap pos_part e,
        ap neg_part e,
        ap pos_part secs,
        ap neg_part secs,
      )) in
    ground arith

quot_nonneg :
    (n : ℤ) (d : ℕ)
    → pos 0 ≤ℤ n
    → (pos_part (quot n d) ≡ pos_part n / d) × (neg_part (quot n d) ≡ 0) × (neg_part n ≡ 0)
unfolding quot
quot_nonneg (pos n) d h = (refl, refl, refl)
quot_nonneg (negsuc n) d h = absurd (omega arith)

ns_to_timespec-IsNormal : (n : ℤ) → IsNormal (ns_to_timespec n)
unfolding ns_to_timespec rem ◌+ℤ◌
ns_to_timespec-IsNormal (pos n) = record { nonneg = ground arith; small = ground arith }
ns_to_timespec-IsNormal (negsuc n) = record { nonneg = ground arith; small = ground arith }

ktime_to_ns-ns_to_timespec : (n : ℤ) → ktime_to_ns (ns_to_timespec n) ≡ n
unfolding ns_to_timespec ktime_to_ns rem quot ◌+ℤ◌ ◌*ℕ◌
ktime_to_ns-ns_to_timespec (pos n) = ground arith
ktime_to_ns-ns_to_timespec (negsuc n) = ground arith

-- Numbers of nanoseconds and points in time within a second are turned into one another.
ns_to_timespec_inverse :
    (n : ℤ) (t : Timespec)
    → IsNormal t
    → (ktime_to_ns (ns_to_timespec n) ≡ n)
      × IsNormal (ns_to_timespec n)
      × (ns_to_timespec (ktime_to_ns t) ≡ t)
ns_to_timespec_inverse n t h = (
  ktime_to_ns-ns_to_timespec n,
  ns_to_timespec-IsNormal n,
  normal_unique (ns_to_timespec-IsNormal (ktime_to_ns t)) h
      (ktime_to_ns-ns_to_timespec (ktime_to_ns t)),
)

-- ktime_add_us adds the microseconds, and keeps the nanoseconds within a second.
ktime_add_us-ns :
    (t : Timespec) (usec : ℕ)
    → IsNormal t
    → (ktime_to_ns (ktime_add_us t usec) ≡ ktime_to_ns t +ℤ pos (usec * 1000))
      × IsNormal (ktime_add_us t usec)
unfolding ktime_add_us
ktime_add_us-ns t usec h =
    let d : Timespec = record {
      tv_sec = pos (usec / 1000000);
      tv_nsec = pos (1000 * (usec % 1000000));
    } in
    let ns : ktime_to_ns d ≡ pos (usec * 1000) = unfold ktime_to_ns ◌+ℤ◌ ◌*ℕ◌ in ground arith in
    let normal : IsNormal d = record { nonneg = omega arith; small = ground arith } in
    (
      unfold timespec_add ktime_add in (ktime_add-ns t d ∙ ap (λ n. ktime_to_ns t +ℤ n) ns),
      unfold timespec_add ktime_add in (ktime_add-IsNormal h normal),
    )

to_us :
    (t : Timespec)
    → IsNormal t
    → (ktime_to_us t *ℕ 1000 ≤ℤ ktime_to_ns t)
      × (ktime_to_ns t ≤ℤ (ktime_to_us t *ℕ 1000 +ℤ pos 999))
unfolding ktime_to_us ktime_to_timeval ktime_to_ns
to_us t h =
    let (q, z, n) = quot_nonneg t.tv_nsec 1000 h.nonneg in
    let us = t.tv_sec *ℕ 1000000 +ℤ quot t.tv_nsec 1000 in
    let sum = +ℤ_parts (t.tv_sec *ℕ 1000000) (quot t.tv_nsec 1000) in
    let secs = *ℕ_parts t.tv_sec 1000000 in
    let nano = *ℕ_parts t.tv_sec nsec_per_sec in
    let all = +ℤ_parts (t.tv_sec *ℕ nsec_per_sec) t.tv_nsec in
    let scaled = *ℕ_parts us 1000 in (omega arith, omega (arith, +ℤ_parts (us *ℕ 1000) (pos 999)))

-- The microseconds between two points in time within a second are those of the nanoseconds between
-- them, rounded down.
ktime_us_delta-ns :
    (last first : Timespec)
    → IsNormal last
    → IsNormal first
    → (ktime_us_delta last first *ℕ 1000 ≤ℤ (ktime_to_ns last -ℤ ktime_to_ns first))
      × ((ktime_to_ns last -ℤ ktime_to_ns first) ≤ℤ (ktime_us_delta last first *ℕ 1000 +ℤ pos 999))
unfolding ktime_us_delta
ktime_us_delta-ns last first h k =
    rw (← ktime_sub-ns last first) (to_us (ktime_sub last first) (ktime_sub-IsNormal h k))

-- Turning nanoseconds into a timeval and back loses what is less than a microsecond.
pub timeval_to_ns-ns_to_timeval :
    (n : ℕ) → n < 2 ^ 64 → timeval_to_ns (ns_to_timeval n).0 (ns_to_timeval n).1 ≡ n - n % 1000
unfolding timeval_to_ns ns_to_timeval
timeval_to_ns-ns_to_timeval n h = omega arith
