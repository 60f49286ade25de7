-- ===== src/Parse/Kstrto.antt =====
-- The functions kstrto* of kernel/linux_func.c.
use webcamd.Prelude.{ℕ, ◌-◌, ◌*◌, ◌%◌, ◌^◌, Bool, not, ◌&&◌, ◌||◌, ◌==◌, ltb, if◌then◌else◌, List}
use webcamd.Prelude.Int.{ℤ, pos, negsuc, pos_part, neg_part}

abbrev pub einval : ℤ
einval = negsuc 21

abbrev pub erange : ℤ
erange = negsuc 33

-- strtoll, and strtoull or strtoul, of the C library: the number that a string has in a base, and
-- whether characters are left behind it.
pub record Parser : Type 0 where
  pub signed : List ℕ → ℕ → ℤ × Bool
  pub unsigned : List ℕ → ℕ → ℕ × Bool

unfoldable pub same : ℤ → ℤ → Bool
same a b = (pos_part a == pos_part b) && (neg_part a == neg_part b)

-- The bits of an integer in `size` values, and what they are as a signed number.
unfoldable pub bits_of : ℕ → ℤ → ℕ
bits_of size (pos n) = n % size
bits_of size (negsuc n) = size - 1 - n % size

unfoldable pub as_signed : ℕ → ℕ → ℤ
as_signed half n = if ltb n half then pos n else negsuc (2 * half - 1 - n)

-- A cast to a signed type with `half` values that are not negative.
unfoldable pub cast : ℕ → ℤ → ℤ
unfolding bits_of as_signed
cast half z = as_signed half (bits_of (2 * half) z)

-- `*res` and the answer, for a number that the cast makes `narrow`.
unfoldable pub checked : ℤ → ℤ → Bool → ℕ → ℤ × ℤ
unfolding same
checked temp narrow rest base =
    if ltb base 2 || ltb 35 base
    then (pos 0, einval)
    else if rest
    then (pos 0, einval)
    else if not (same temp narrow)
    then (pos 0, erange)
    else (temp, pos 0)

unfoldable pub to_signed : ℕ → Parser → List ℕ → ℕ → ℤ × ℤ
unfolding checked cast
to_signed half parser nptr base =
    let temp = parser.signed nptr base in checked temp.0 (cast half temp.0) temp.1 base

unfoldable pub to_unsigned : ℕ → Parser → List ℕ → ℕ → ℤ × ℤ
unfolding checked
to_unsigned size parser nptr base =
    let temp = parser.unsigned nptr base in checked (pos temp.0) (pos (temp.0 % size)) temp.1 base

unfoldable pub kstrtos16 : Parser → List ℕ → ℕ → ℤ × ℤ
unfolding to_signed
kstrtos16 parser nptr base = to_signed (2 ^ 15) parser nptr base

unfoldable pub kstrtou16 : Parser → List ℕ → ℕ → ℤ × ℤ
unfolding to_unsigned
kstrtou16 parser nptr base = to_unsigned (2 ^ 16) parser nptr base

unfoldable pub kstrtos8 : Parser → List ℕ → ℕ → ℤ × ℤ
unfolding to_signed
kstrtos8 parser nptr base = to_signed (2 ^ 7) parser nptr base

unfoldable pub kstrtou8 : Parser → List ℕ → ℕ → ℤ × ℤ
unfolding to_unsigned
kstrtou8 parser nptr base = to_unsigned (2 ^ 8) parser nptr base

unfoldable pub kstrtouint : Parser → List ℕ → ℕ → ℤ × ℤ
unfolding to_unsigned
kstrtouint parser nptr base = to_unsigned (2 ^ 32) parser nptr base

unfoldable pub kstrtoint : Parser → List ℕ → ℕ → ℤ × ℤ
unfolding to_signed
kstrtoint parser nptr base = to_signed (2 ^ 31) parser nptr base

-- There is no check of the range.
unfoldable pub kstrtoul : Parser → List ℕ → ℕ → ℤ × ℤ
kstrtoul parser nptr base =
    let temp = parser.unsigned nptr base in
    if ltb base 2 || ltb 35 base
    then (pos 0, einval)
    else if temp.1
    then (pos 0, einval)
    else (pos temp.0, pos 0)
