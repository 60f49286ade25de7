-- ===== src/Examples/Numbers.antt =====
-- Numbers in memory and the arithmetic helpers of kernel/linux_func.c.
use webcamd.Prelude.{some, ◌+◌, ◌-◌, ◌*◌, ◌^◌, ◌≡◌, ◌||◌, ltb, if◌then◌else◌, refl, arith}
use webcamd.Bits.Bytes.{put_unaligned_be32, put_be, write}
use webcamd.Math.Root.{int_sqrt, IsRoot, int_sqrt-IsRoot, sqrt_rounds}
use webcamd.Math.Sizes.{
  kmalloc_array, allocated, array_size, array3_size, struct_size_sub, checked, ssize_max, size_max,
  sizes_checked,
}
use webcamd.Math.Powers.{lowest_one, fls, narrow, not32}

put_unaligned_be32_test : put_unaligned_be32 0x12345678 (λ i. 7) 1 ≡ 0x34
unfolding put_unaligned_be32 put_be write
put_unaligned_be32_test = refl

int_sqrt-IsRoot_example : IsRoot 1000000 (int_sqrt 1000000)
int_sqrt-IsRoot_example = int_sqrt-IsRoot 1000000 (omega arith)

int_sqrt_test : int_sqrt 99 ≡ 9
unfolding int_sqrt sqrt_rounds
int_sqrt_test = refl

sizes_checked_example :
    (array_size (2 ^ 40) (2 ^ 30) ≡ checked (2 ^ 40 * 2 ^ 30))
    × (array3_size (2 ^ 40) (2 ^ 30) 3 ≡ checked (2 ^ 40 * 2 ^ 30 * 3))
    × (struct_size_sub (2 ^ 40) (2 ^ 30) 3 ≡ (
        if ltb ssize_max (2 ^ 40) || (ltb ssize_max (2 ^ 30) || ltb ssize_max 3)
        then size_max
        else checked (2 ^ 40 * 2 ^ 30 + 3)))
    × (kmalloc_array (2 ^ 40) (2 ^ 30) ≡ allocated (2 ^ 40 * 2 ^ 30))
sizes_checked_example = sizes_checked (2 ^ 40) (2 ^ 30) 3 (omega arith) (omega arith)

-- Of 2 ^ 64 bytes none are allocated.
kmalloc_array_test : kmalloc_array (2 ^ 32) (2 ^ 32) ≡ some 0
unfolding kmalloc_array
kmalloc_array_test = refl

array_size_test : array_size (2 ^ 40) (2 ^ 30) ≡ 2 ^ 64 - 1
unfolding array_size
array_size_test = refl

fls_test : fls 0x80000000 ≡ 32
unfolding fls narrow
fls_test = refl

-- The bit 3 is the lowest of 24, and what __ffs answers is 8.
lowest_one_test : lowest_one 24 ≡ 8
unfolding lowest_one not32
lowest_one_test = refl
