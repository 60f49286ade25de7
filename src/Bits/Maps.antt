-- ===== src/Bits/Maps.antt =====
-- The bitmap operations of kernel/linux_func.c.
use Prim.Native.Nat.{bit_or, bit_xor}
use webcamd.Prelude.{
  ℕ, zero, suc, ◌+◌, ◌-◌, ◌/◌, ◌%◌, ◌^◌, bit_and, Bool, true, false, not, ◌&&◌, ◌==◌, leb, ltb,
  if◌then◌else◌,
}
use webcamd.Bits.Single.{Bitmap, bit_mask, word_not, put_word, set_bit, clear_bit}

-- BITS_TO_LONGS.
unfoldable pub bits_to_longs : ℕ → ℕ
bits_to_longs nbits = (nbits + 63) / 64

-- `for (k = 0; k != n; k++) if (p(k)) return`, with whether the loop was left that way.
unfoldable pub any : ℕ → (ℕ → Bool) → Bool
any zero p = false
any (suc n) p = if p 0 then true else any n (λ i. p (suc i))

-- memcpy of whole longs.
unfoldable pub bitmap_copy : Bitmap → Bitmap → ℕ → Bitmap
bitmap_copy dst src nbits k = if ltb k (bits_to_longs nbits) then src k else dst k

-- memset of whole longs by 255 and by 0.
unfoldable pub bitmap_fill : Bitmap → ℕ → Bitmap
bitmap_fill dst nbits k = if ltb k (bits_to_longs nbits) then 2 ^ 64 - 1 else dst k

unfoldable pub bitmap_zero : Bitmap → ℕ → Bitmap
bitmap_zero dst nbits k = if ltb k (bits_to_longs nbits) then 0 else dst k

unfoldable pub weight_loop : Bitmap → ℕ → ℕ → ℕ → ℕ
weight_loop m zero x y = y
weight_loop m (suc k) x y =
    weight_loop m k (suc x) (if bit_and (m (x / 64)) (bit_mask x) == 0 then y else suc y)

unfoldable pub bitmap_weight : Bitmap → ℕ → ℕ
unfolding weight_loop
bitmap_weight m nbits = weight_loop m nbits 0 0

-- The loop over the words of two bitmaps, with the words it has seen joined in `retval`.
unfoldable pub combine : (ℕ → ℕ → ℕ) → Bitmap → Bitmap → ℕ → ℕ → Bitmap → ℕ → Bitmap × ℕ
combine f b1 b2 zero n dst retval = (dst, retval)
combine f b1 b2 (suc k) n dst retval =
    let temp = f (b1 n) (b2 n) in
    combine f b1 b2 k (suc n) (put_word dst n temp) (bit_or retval temp)

unfoldable pub bitmap_andnot : Bitmap → Bitmap → Bitmap → ℕ → Bitmap × ℕ
unfolding bits_to_longs
bitmap_andnot dst b1 b2 nbits =
    let (d, retval) = combine (λ a b. bit_and a (word_not b)) b1 b2 (bits_to_longs nbits) 0 dst 0 in
    (d, if retval == 0 then 0 else 1)

unfoldable pub bitmap_and : Bitmap → Bitmap → Bitmap → ℕ → Bitmap × ℕ
unfolding bits_to_longs
bitmap_and dst b1 b2 nbits =
    let (d, retval) = combine bit_and b1 b2 (bits_to_longs nbits) 0 dst 0 in
    (d, if retval == 0 then 0 else 1)

unfoldable pub bitmap_or : Bitmap → Bitmap → Bitmap → ℕ → Bitmap
unfolding bits_to_longs
bitmap_or dst b1 b2 nbits = (combine bit_or b1 b2 (bits_to_longs nbits) 0 dst 0).0

-- The code joins the words by `|` here too.
unfoldable pub bitmap_xor : Bitmap → Bitmap → Bitmap → ℕ → Bitmap
unfolding bits_to_longs
bitmap_xor dst b1 b2 nbits = (combine bit_or b1 b2 (bits_to_longs nbits) 0 dst 0).0

-- The lower `n` bits of `w`, for the rest of a bitmap.
unfoldable pub tail_of : ℕ → ℕ → ℕ
tail_of w n = bit_and w (2 ^ n - 1)

unfoldable pub bitmap_subset : Bitmap → Bitmap → ℕ → ℕ
bitmap_subset pa pb nbits =
    let end = nbits / 64 in
    let x = nbits % 64 in
    if any end (λ k. not (bit_and (pa k) (word_not (pb k)) == 0))
    then 0
    else if not (x == 0) && not (tail_of (bit_and (pa end) (word_not (pb end))) x == 0)
    then 0
    else 1

unfoldable pub bitmap_full : Bitmap → ℕ → ℕ
bitmap_full m n =
    let k = n / 64 in
    let lim = n % 64 in
    if any k (λ k. not (word_not (m k) == 0))
    then 0
    else if not (lim == 0) && not (tail_of (word_not (m k)) lim == 0)
    then 0
    else 1

unfoldable pub bitmap_equal : Bitmap → Bitmap → ℕ → ℕ
bitmap_equal pa pb n =
    let k = n / 64 in
    if any k (λ k. not (pa k == pb k))
    then 0
    else if any (n % 64) (λ lim. not (bit_and (bit_xor (pa k) (pb k)) (bit_mask lim) == 0))
    then 0
    else 1

unfoldable pub bitmap_empty : Bitmap → ℕ → ℕ
bitmap_empty m n =
    let k = n / 64 in
    if any k (λ k. not (m k == 0))
    then 0
    else if any (n % 64) (λ lim. not (bit_and (m k) (bit_mask lim) == 0))
    then 0
    else 1

unfoldable pub bitmap_intersects : Bitmap → Bitmap → ℕ → ℕ
bitmap_intersects pa pb n =
    let k = n / 64 in
    if any k (λ k. not (bit_and (pa k) (pb k) == 0))
    then 1
    else if any (n % 64) (λ lim. not (bit_and (bit_and (pa k) (pb k)) (bit_mask lim) == 0))
    then 1
    else 0

-- The loops of the two shifts: `k` bits of `src` from `y` on go to `dst` from `x` on.
unfoldable pub move_bits : Bitmap → ℕ → ℕ → ℕ → Bitmap → Bitmap
move_bits src zero x y dst = dst
move_bits src (suc k) x y dst =
    move_bits src k (suc x) (suc y)
      (if bit_and (src (y / 64)) (bit_mask y) == 0 then clear_bit x dst else set_bit x dst)

unfoldable pub clear_bits : ℕ → ℕ → Bitmap → Bitmap
clear_bits zero x dst = dst
clear_bits (suc k) x dst = clear_bits k (suc x) (clear_bit x dst)

unfoldable pub bitmap_shift_right : Bitmap → Bitmap → ℕ → ℕ → Bitmap
bitmap_shift_right dst src n nbits =
    let x = nbits - n in clear_bits (nbits - x) x (move_bits src x 0 n dst)

unfoldable pub bitmap_shift_left : Bitmap → Bitmap → ℕ → ℕ → Bitmap
bitmap_shift_left dst src n nbits = move_bits src (nbits - n) n 0 (clear_bits n 0 dst)

-- The end of bitmap_clear, on the word at `p`.
unfoldable pub clear_end : ℕ → ℕ → ℕ → ℕ → Bitmap → Bitmap
clear_end size p nr mask map =
    if nr == 0
    then map
    else put_word map p (bit_and (map p) (word_not (bit_and mask (2 ^ (size % 64) - 1))))

unfoldable pub clear_loop : ℕ → ℕ → ℕ → ℕ → ℕ → ℕ → Bitmap → Bitmap
clear_loop zero size p nr bits_to_clear mask map = map
clear_loop (suc fuel) size p nr bits_to_clear mask map =
    let next = put_word map p (bit_and (map p) (word_not mask)) in
    let rest = clear_loop fuel size (suc p) (nr - bits_to_clear) 64 (2 ^ 64 - 1) next in
    if leb bits_to_clear nr then rest else clear_end size p nr mask map

unfoldable pub bitmap_clear : Bitmap → ℕ → ℕ → Bitmap
bitmap_clear map start nr =
    let rem = start % 64 in
    clear_loop (suc nr) (start + nr) (start / 64) nr (64 - rem) (2 ^ rem - 1) map
