-- ===== src/Bits/Single.antt =====
-- The operations on one bit of a bitmap, of kernel/linux_func.c.
use Prim.Native.Nat.{bit_or, bit_xor}
use webcamd.Prelude.{ℕ, ◌-◌, ◌/◌, ◌%◌, ◌^◌, bit_and, Bool, ◌==◌, if◌then◌else◌}
use webcamd.Bits.Words.{bit}

-- A bitmap is an array of words of 64 bits: `addr[n]` is `m n`.
abbrev pub Bitmap : Type 0
Bitmap = ℕ → ℕ

unfoldable pub bit_mask : ℕ → ℕ
bit_mask nr = 2 ^ (nr % 64)

-- `~w` on an unsigned long.
unfoldable pub word_not : ℕ → ℕ
word_not w = 2 ^ 64 - 1 - w

-- `m[n] = w`.
unfoldable pub put_word : Bitmap → ℕ → ℕ → Bitmap
put_word m n w k = if k == n then w else m k

-- Bit `j` of a bitmap.
unfoldable pub bits : Bitmap → ℕ → Bool
unfolding bit
bits m j = bit (j % 64) (m (j / 64))

-- `(w & mask) != 0` as the int that the calls return.
unfoldable pub has_bits : ℕ → ℕ → ℕ
has_bits w mask = if bit_and w mask == 0 then 0 else 1

unfoldable pub test_bit : ℕ → Bitmap → ℕ
unfolding has_bits bit_mask
test_bit nr m = has_bits (m (nr / 64)) (bit_mask nr)

-- The answer is the bit as it was.
unfoldable pub test_and_set_bit : ℕ → Bitmap → Bitmap × ℕ
unfolding has_bits bit_mask put_word
test_and_set_bit nr m =
    let old = m (nr / 64) in
    (put_word m (nr / 64) (bit_or old (bit_mask nr)), has_bits old (bit_mask nr))

unfoldable pub test_and_clear_bit : ℕ → Bitmap → Bitmap × ℕ
unfolding has_bits bit_mask put_word word_not
test_and_clear_bit nr m =
    let old = m (nr / 64) in
    (put_word m (nr / 64) (bit_and old (word_not (bit_mask nr))), has_bits old (bit_mask nr))

unfoldable pub set_bit : ℕ → Bitmap → Bitmap
unfolding bit_mask put_word
set_bit nr m = put_word m (nr / 64) (bit_or (m (nr / 64)) (bit_mask nr))

unfoldable pub clear_bit : ℕ → Bitmap → Bitmap
unfolding bit_mask put_word word_not
clear_bit nr m = put_word m (nr / 64) (bit_and (m (nr / 64)) (word_not (bit_mask nr)))

unfoldable pub change_bit : ℕ → Bitmap → Bitmap
unfolding bit_mask put_word
change_bit nr m = put_word m (nr / 64) (bit_xor (m (nr / 64)) (bit_mask nr))
