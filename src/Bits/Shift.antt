-- ===== src/Bits/Shift.antt =====
-- What the shifts of bitmaps write.
use webcamd.Prelude.{
  ℕ, zero, suc, ◌+◌, ◌-◌, ◌/◌, ◌<◌, ◌≤◌, ◌≡◌, bit_and, false, not, ◌&&◌, ◌==◌, ltb, if◌then◌else◌,
  ap, arith, Bool-cases, inl, inr, dec_lt,
}
use webcamd.Bits.Single.{Bitmap, bit_mask, bits, set_bit, clear_bit}
use webcamd.Bits.Sets.{and-mask, set_bit-bits, clear_bit-bits}
use webcamd.Bits.Maps.{move_bits, clear_bits, bitmap_shift_right, bitmap_shift_left}

clear_bits-bits :
    (k x : ℕ) (m : Bitmap) (j : ℕ)
    → bits (clear_bits k x m) j ≡ (if not (ltb j x) && ltb j (x + k) then false else bits m j)
unfolding clear_bits
clear_bits-bits zero x m j = ground arith
clear_bits-bits (suc k) x m j =
    ground (arith, clear_bits-bits k (suc x) (clear_bit x m) j, clear_bit-bits x m j)

-- The bit that one round writes.
move_bit :
    (src : Bitmap) (x y : ℕ) (m : Bitmap) (j : ℕ)
    → bits (if bit_and (src (y / 64)) (bit_mask y) == 0 then clear_bit x m else set_bit x m) j
      ≡ (if j == x then bits src y else bits m j)
unfolding bits
move_bit src x y m j = elim (Bool-cases (bit_and (src (y / 64)) (bit_mask y) == 0)) [
  | inl e ↦ rw e (ground (arith, clear_bit-bits x m j, and-mask (src (y / 64)) y))
  | inr e ↦ rw e (ground (arith, set_bit-bits x m j, and-mask (src (y / 64)) y))
]

move_bits-bits :
    (src : Bitmap) (k x y : ℕ) (m : Bitmap) (j : ℕ)
    → bits (move_bits src k x y m) j
      ≡ (if not (ltb j x) && ltb j (x + k) then bits src (y + (j - x)) else bits m j)
unfolding move_bits
move_bits-bits src zero x y m j = ground arith
move_bits-bits src (suc k) x y m j =
    let next = if bit_and (src (y / 64)) (bit_mask y) == 0 then clear_bit x m else set_bit x m in
    elim (dec_lt x j) [
      | yes p ↦
          let at : suc y + (j - suc x) ≡ y + (j - x) = omega arith in
          ground (
            arith,
            move_bits-bits src k (suc x) (suc y) next j,
            move_bit src x y m j,
            ap (bits src) at,
          )
      | no p ↦
          let at : y + (j - x) ≡ y = omega arith in
          ground (
            arith,
            move_bits-bits src k (suc x) (suc y) next j,
            move_bit src x y m j,
            ap (bits src) at,
          )
    ]

bitmap_shift_right-bits :
    (dst src : Bitmap) (n nbits j : ℕ)
    → bits (bitmap_shift_right dst src n nbits) j ≡ (
        if ltb j nbits then (if ltb j (nbits - n) then bits src (j + n) else false) else bits dst j)
unfolding bitmap_shift_right
bitmap_shift_right-bits dst src n nbits j =
    let at : n + (j - 0) ≡ j + n = omega arith in
    ground (
      arith,
      clear_bits-bits (nbits - (nbits - n)) (nbits - n) (move_bits src (nbits - n) 0 n dst) j,
      move_bits-bits src (nbits - n) 0 n dst j,
      ap (bits src) at,
    )

bitmap_shift_left-bits :
    (dst src : Bitmap) (n nbits j : ℕ)
    → n ≤ nbits
    → bits (bitmap_shift_left dst src n nbits) j
      ≡ (if ltb j n then false else if ltb j nbits then bits src (j - n) else bits dst j)
unfolding bitmap_shift_left
bitmap_shift_left-bits dst src n nbits j h =
    let at : 0 + (j - n) ≡ j - n = omega arith in
    ground (
      arith,
      clear_bits-bits n 0 dst j,
      move_bits-bits src (nbits - n) n 0 (clear_bits n 0 dst) j,
      ap (bits src) at,
    )

shift_right-shift_left :
    (d e src : Bitmap) (n nbits j : ℕ)
    → n ≤ nbits
    → j < nbits
    → bits (bitmap_shift_right d (bitmap_shift_left e src n nbits) n nbits) j
      ≡ (if ltb j (nbits - n) then bits src j else false)
shift_right-shift_left d e src n nbits j h lt =
    let at : j + n - n ≡ j = omega arith in
    ground (
      arith,
      bitmap_shift_right-bits d (bitmap_shift_left e src n nbits) n nbits j,
      bitmap_shift_left-bits e src n nbits (j + n) h,
      ap (bits src) at,
    )

-- For bitmaps that do not overlap, and `n` of at most `nbits`: bitmap_shift_right moves the first
-- `nbits` bits of `src` down by `n` and fills with bits that are off, bitmap_shift_left moves them up
-- by `n` and fills below; no other bit of `dst` changes.
bitmap_shift-bits :
    (dst src : Bitmap) (n nbits j : ℕ)
    → n ≤ nbits
    → (bits (bitmap_shift_right dst src n nbits) j ≡ (
        if ltb j nbits
        then (if ltb j (nbits - n) then bits src (j + n) else false)
        else bits dst j))
      × (bits (bitmap_shift_left dst src n nbits) j
          ≡ (if ltb j n then false else if ltb j nbits then bits src (j - n) else bits dst j))
bitmap_shift-bits dst src n nbits j h =
    (bitmap_shift_right-bits dst src n nbits j, bitmap_shift_left-bits dst src n nbits j h)
