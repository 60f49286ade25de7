-- ===== src/Bits/Next.antt =====
-- The search for the next bit of kernel/linux_func.c: find_next_bit and find_next_zero_bit.
use Prim.Native.Nat.{bit_or}
use webcamd.Prelude.{
  ℕ, zero, suc, ◌+◌, ◌-◌, ◌*◌, ◌/◌, ◌%◌, ◌^◌, ◌<◌, ◌≤◌, ◌≡◌, bit_and, Bool, true, false, ◌==◌, ltb,
  if◌then◌else◌,
}
use webcamd.Bits.Single.{Bitmap, bit_mask, word_not}

-- ffsl(3): the place of the lowest bit that is on, counted from 1, and 0 when there is none.
unfoldable pub ffs : ℕ → ℕ → ℕ
ffs zero w = 0
ffs (suc k) w =
    let rest = ffs k (w / 2) in if w % 2 == 1 then 1 else (if rest == 0 then 0 else suc rest)

unfoldable pub ffsl : ℕ → ℕ
unfolding ffs
ffsl w = ffs 64 w

unfoldable pub find_loop : Bitmap → ℕ → ℕ → ℕ → ℕ → ℕ
find_loop m zero mask size offset = offset
find_loop m (suc fuel) mask size offset =
    let found = bit_and (m (offset / 64)) (word_not mask) in
    let rest = find_loop m fuel found size ((offset + (63 - offset % 64) + 1) % 2 ^ 64) in
    if ltb offset size
    then (if found == 0 then rest else bit_or (ffsl found - 1) (offset / 64 * 64))
    else offset

unfoldable pub find_next : Bitmap → ℕ → ℕ → ℕ
unfolding find_loop bit_mask
find_next m size offset =
    let r = find_loop m (suc (size / 64)) (bit_mask offset - 1) size offset in
    if ltb size r then size else r

unfoldable pub find_next_bit : Bitmap → ℕ → ℕ → ℕ
unfolding find_next
find_next_bit m size offset = find_next m size offset

unfoldable pub find_next_zero_bit : Bitmap → ℕ → ℕ → ℕ
unfolding find_next word_not
find_next_zero_bit m size offset = find_next (λ n. word_not (m n)) size offset

abbrev pub IsWords : Bitmap → Type 0
IsWords m = (n : ℕ) → m n < 2 ^ 64

-- `r` is the first number from `offset` on that has `p`, or `size` if none below it has.
pub record IsNext (p : ℕ → Bool) (size offset r : ℕ) : Type 0 where
  pub within : r ≤ size
  pub after : offset ≤ size → offset ≤ r
  pub before : (j : ℕ) → offset ≤ j → j < r → p j ≡ false
  pub there : r < size → p r ≡ true
