-- ===== src/Bits/Bytes.antt =====
-- Numbers in memory: put_unaligned_* and get_unaligned_* of kernel/linux_func.c.
use Prim.Native.Nat.{bit_or}
use webcamd.Prelude.{ℕ, zero, suc, ◌*◌, ◌/◌, ◌%◌, ◌^◌, ◌==◌, if◌then◌else◌}

-- The bytes from the pointer of a call on.
abbrev pub Bytes : Type 0
Bytes = ℕ → ℕ

-- `ptr[i] = val`, on an array of uint8_t.
unfoldable pub write : Bytes → ℕ → ℕ → Bytes
write ptr i val j = if j == i then val % 256 else ptr j

-- `k` bytes from index `i` upwards, the lowest first: `ptr[i] = val; val >>= 8` and on.
unfoldable pub put_le : ℕ → ℕ → ℕ → Bytes → Bytes
unfolding write
put_le zero i val ptr = ptr
put_le (suc k) i val ptr = put_le k (suc i) (val / 256) (write ptr i val)

-- `k` bytes from index `k - 1` downwards.
unfoldable pub put_be : ℕ → ℕ → Bytes → Bytes
unfolding write
put_be zero val ptr = ptr
put_be (suc k) val ptr = put_be k (val / 256) (write ptr k val)

unfoldable pub put_unaligned_le64 : ℕ → Bytes → Bytes
unfolding put_le
put_unaligned_le64 val ptr = put_le 8 0 (val % 2 ^ 64) ptr

unfoldable pub put_unaligned_be64 : ℕ → Bytes → Bytes
unfolding put_be
put_unaligned_be64 val ptr = put_be 8 (val % 2 ^ 64) ptr

unfoldable pub put_unaligned_le32 : ℕ → Bytes → Bytes
unfolding put_le
put_unaligned_le32 val ptr = put_le 4 0 (val % 2 ^ 32) ptr

unfoldable pub put_unaligned_be32 : ℕ → Bytes → Bytes
unfolding put_be
put_unaligned_be32 val ptr = put_be 4 (val % 2 ^ 32) ptr

unfoldable pub put_unaligned_be16 : ℕ → Bytes → Bytes
unfolding write
put_unaligned_be16 val ptr = let v = val % 2 ^ 16 in write (write ptr 0 (v / 256)) 1 v

unfoldable pub put_unaligned_le16 : ℕ → Bytes → Bytes
unfolding put_le
put_unaligned_le16 val ptr = put_le 2 0 (val % 2 ^ 16) ptr

-- `val <<= 8; val |= ptr[k - 1]` and down to index 0, on a word below `m`.
unfoldable pub get_down : ℕ → ℕ → ℕ → Bytes → ℕ
get_down m zero val ptr = val
get_down m (suc k) val ptr = get_down m k (bit_or (val * 256 % m) (ptr k)) ptr

-- `val <<= 8; val |= ptr[i]` and up, `k` times.
unfoldable pub get_up : ℕ → ℕ → ℕ → ℕ → Bytes → ℕ
get_up m zero i val ptr = val
get_up m (suc k) i val ptr = get_up m k (suc i) (bit_or (val * 256 % m) (ptr i)) ptr

unfoldable pub get_unaligned_le64 : Bytes → ℕ
unfolding get_down
get_unaligned_le64 ptr = get_down (2 ^ 64) 7 (ptr 7) ptr

unfoldable pub get_unaligned_be64 : Bytes → ℕ
unfolding get_up
get_unaligned_be64 ptr = get_up (2 ^ 64) 7 1 (ptr 0) ptr

unfoldable pub get_unaligned_le32 : Bytes → ℕ
unfolding get_down
get_unaligned_le32 ptr = get_down (2 ^ 32) 3 (ptr 3) ptr

unfoldable pub get_unaligned_be32 : Bytes → ℕ
unfolding get_up
get_unaligned_be32 ptr = get_up (2 ^ 32) 3 1 (ptr 0) ptr

unfoldable pub get_unaligned_be16 : Bytes → ℕ
unfolding get_up
get_unaligned_be16 ptr = get_up (2 ^ 16) 1 1 (ptr 0) ptr

unfoldable pub get_unaligned_le16 : Bytes → ℕ
unfolding get_down
get_unaligned_le16 ptr = get_down (2 ^ 16) 1 (ptr 1) ptr
