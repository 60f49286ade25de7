-- ===== src/Math/Powers.antt =====
-- The highest and the lowest bit of a number, of kernel/linux_func.c: fls, __flsl, __ffs, __ffz and
-- the rounding to powers of two.
use webcamd.Prelude.{ℕ, ◌+◌, ◌-◌, ◌/◌, ◌%◌, ◌^◌, bit_and, ◌==◌, if◌then◌else◌}

-- `if (mask & high) { bit += n; mask >>= n; }`
unfoldable pub narrow : ℕ → ℕ → ℕ × ℕ → ℕ × ℕ
narrow high n (bit, mask) = if bit_and mask high == 0 then (bit, mask) else (bit + n, mask / 2 ^ n)

unfoldable pub fls : ℕ → ℕ
unfolding narrow
fls mask =
    if mask == 0
    then 0
    else (narrow 0x2 1
        (narrow 0xc 2 (narrow 0xf0 4 (narrow 0xff00 8 (narrow 0xffff0000 16 (1, mask)))))).0

unfoldable pub flsl : ℕ → ℕ
unfolding narrow
flsl mask =
    if mask == 0
    then 0
    else (narrow 0x2 1 (
        narrow 0xc 2 (
          narrow 0xf0 4
            (narrow 0xff00 8 (narrow 0xffff0000 16 (narrow 0xffffffff00000000 32 (1, mask))))))).0

-- `1UL << s`, where amd64 takes the count modulo 64.
unfoldable pub shifted_one : ℕ → ℕ
shifted_one s = 2 ^ (s % 64)

unfoldable pub rounddown_pow_of_two : ℕ → ℕ
rounddown_pow_of_two x = if x == 0 then 0 else shifted_one (flsl x - 1)

unfoldable pub roundup_pow_of_two : ℕ → ℕ
roundup_pow_of_two x = if x == 0 then 0 else shifted_one (flsl (x - 1))

-- `~x` on an unsigned int.
unfoldable pub not32 : ℕ → ℕ
not32 x = 2 ^ 32 - 1 - x

unfoldable pub lowest_one : ℕ → ℕ
unfolding not32
lowest_one x = bit_and (not32 ((x + 2 ^ 32 - 1) % 2 ^ 32)) x

unfoldable pub lowest_zero : ℕ → ℕ
unfolding not32
lowest_zero x = bit_and ((x + 1) % 2 ^ 32) (not32 x)
