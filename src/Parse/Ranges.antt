-- ===== src/Parse/Ranges.antt =====
-- The functions kstrto* accept just the numbers of their types.
use webcamd.Prelude.{ℕ, ◌%◌, ◌^◌, ◌≡◌, Bool, true, not, ◌&&◌, ltb, leb, if◌then◌else◌, List, arith}
use webcamd.Prelude.Int.{ℤ, pos, negsuc}
use webcamd.Parse.Kstrto.{
  Parser, same, bits_of, as_signed, cast, checked, to_signed, to_unsigned, kstrtos16, kstrtou16,
  kstrtos8, kstrtou8, kstrtouint, kstrtoint, kstrtoul, einval, erange,
}

-- From - half up to half - 1.
unfoldable pub in_signed : ℕ → ℤ → Bool
in_signed half (pos n) = ltb n half
in_signed half (negsuc n) = ltb n half

-- A string that is a number in a base from 2 to 35, and whether its type has it.
unfoldable pub answer : Bool → Bool → ℤ → ℕ → ℤ × ℤ
answer rest fits value base =
    if (leb 2 base && leb base 35) && not rest
    then (if fits then (value, pos 0) else (pos 0, erange))
    else (pos 0, einval)

checked-answer :
    (temp narrow : ℤ) (rest fits : Bool) (base : ℕ)
    → same temp narrow ≡ fits
    → checked temp narrow rest base ≡ answer rest fits temp base
unfolding checked answer
checked-answer temp narrow rest fits base e = ground (arith, e)

same-cast_8 : (z : ℤ) → same z (cast (2 ^ 7) z) ≡ in_signed (2 ^ 7) z
unfolding same cast as_signed bits_of in_signed
same-cast_8 (pos n) = ground arith
same-cast_8 (negsuc n) = ground arith

same-cast_16 : (z : ℤ) → same z (cast (2 ^ 15) z) ≡ in_signed (2 ^ 15) z
unfolding same cast as_signed bits_of in_signed
same-cast_16 (pos n) = ground arith
same-cast_16 (negsuc n) = ground arith

same-cast_32 : (z : ℤ) → same z (cast (2 ^ 31) z) ≡ in_signed (2 ^ 31) z
unfolding same cast as_signed bits_of in_signed
same-cast_32 (pos n) = ground arith
same-cast_32 (negsuc n) = ground arith

same-low_8 : (n : ℕ) → same (pos n) (pos (n % 2 ^ 8)) ≡ ltb n (2 ^ 8)
unfolding same
same-low_8 n = ground arith

same-low_16 : (n : ℕ) → same (pos n) (pos (n % 2 ^ 16)) ≡ ltb n (2 ^ 16)
unfolding same
same-low_16 n = ground arith

same-low_32 : (n : ℕ) → same (pos n) (pos (n % 2 ^ 32)) ≡ ltb n (2 ^ 32)
unfolding same
same-low_32 n = ground arith

-- Whatever strtoll and strtoull read: with a base from 2 to 35 and no characters left, each of
-- kstrtos8, kstrtou8, kstrtos16, kstrtou16, kstrtoint and kstrtouint stores the number and answers 0
-- where its type has it, and stores 0 and answers ERANGE otherwise; with any other base, or with
-- characters left, it stores 0 and answers EINVAL. kstrtoul does so too, but takes any number that
-- strtoul reads.
pub kstrto-answer :
    (parser : Parser) (nptr : List ℕ) (base : ℕ)
    → let (s, s_rest) = parser.signed nptr base in
      let (u, u_rest) = parser.unsigned nptr base in
      (kstrtos8 parser nptr base ≡ answer s_rest (in_signed (2 ^ 7) s) s base)
      × (kstrtou8 parser nptr base ≡ answer u_rest (ltb u (2 ^ 8)) (pos u) base)
      × (kstrtos16 parser nptr base ≡ answer s_rest (in_signed (2 ^ 15) s) s base)
      × (kstrtou16 parser nptr base ≡ answer u_rest (ltb u (2 ^ 16)) (pos u) base)
      × (kstrtoint parser nptr base ≡ answer s_rest (in_signed (2 ^ 31) s) s base)
      × (kstrtouint parser nptr base ≡ answer u_rest (ltb u (2 ^ 32)) (pos u) base)
      × (kstrtoul parser nptr base ≡ answer u_rest true (pos u) base)
unfolding kstrtos8 kstrtou8 kstrtos16 kstrtou16 kstrtoint kstrtouint kstrtoul to_signed to_unsigned
    answer
kstrto-answer parser nptr base =
    let s = parser.signed nptr base in
    let u = parser.unsigned nptr base in
    (
      checked-answer s.0 (cast (2 ^ 7) s.0) s.1 (in_signed (2 ^ 7) s.0) base (same-cast_8 s.0),
      checked-answer (pos u.0) (pos (u.0 % 2 ^ 8)) u.1 (ltb u.0 (2 ^ 8)) base (same-low_8 u.0),
      checked-answer s.0 (cast (2 ^ 15) s.0) s.1 (in_signed (2 ^ 15) s.0) base (same-cast_16 s.0),
      checked-answer (pos u.0) (pos (u.0 % 2 ^ 16)) u.1 (ltb u.0 (2 ^ 16)) base (same-low_16 u.0),
      checked-answer s.0 (cast (2 ^ 31) s.0) s.1 (in_signed (2 ^ 31) s.0) base (same-cast_32 s.0),
      checked-answer (pos u.0) (pos (u.0 % 2 ^ 32)) u.1 (ltb u.0 (2 ^ 32)) base (same-low_32 u.0),
      ground arith,
    )
