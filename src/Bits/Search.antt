-- ===== src/Bits/Search.antt =====
-- The search for the next bit finds the first one.
use Prim.Native.Nat.{bit_or}
use native.Mathlib.Nat.{pow-suc}
use webcamd.Prelude.{
  ℕ, zero, suc, ◌+◌, ◌-◌, ◌*◌, ◌/◌, ◌%◌, ◌^◌, ◌<◌, ◌≤◌, ◌≡◌, ◌≢◌, bit_and, Bool, true, false, not,
  ◌&&◌, ◌==◌, ltb, if◌then◌else◌, refl, sym, ap, ◌∙◌, arith, inl, inr, Bool-cases, subst, fun_ext,
  dec_lt,
}
use webcamd.Bits.Words.{bit, bit-and, bit-not, bit-ones, bit-zero, and-le, or-add, pow-lt}
use webcamd.Bits.Single.{Bitmap, bit_mask, word_not, bits}
use webcamd.Bits.Next.{
  ffs, ffsl, find_loop, find_next, find_next_bit, find_next_zero_bit, IsWords, IsNext,
}

pub record IsLowest (k w r : ℕ) : Type 0 where
  pub low : r < k
  pub on : bit r w ≡ true
  pub off : (i : ℕ) → i < r → bit i w ≡ false

off_below :
    (w r : ℕ)
    → w % 2 ≡ 0
    → ((i : ℕ) → i < r → bit i (w / 2) ≡ false)
    → (i : ℕ) → i < suc r
    → bit i w ≡ false
unfolding bit
off_below w r e h zero lt = ground arith
off_below w r e h (suc i) lt = h i (omega arith)

pub ffs-pos : (k w : ℕ) → w < 2 ^ k → w ≢ 0 → 0 < ffs k w
unfolding ffs
ffs-pos zero w h n = absurd (n (omega arith))
ffs-pos (suc k) w h n = ground (arith, pow-suc 2 k, ffs-pos k (w / 2) (omega (arith, pow-suc 2 k)))

shift-IsLowest :
    (k w f : ℕ) → w % 2 ≡ 0 → 0 < f → IsLowest k (w / 2) (f - 1) → IsLowest (suc k) w (suc f - 1)
unfolding bit
shift-IsLowest k w f e p h = subst (IsLowest (suc k) w) (omega arith) (
    let r : IsLowest (suc k) w (suc (f - 1)) = record {
      low = omega (arith, h.low);
      on = h.on;
      off = off_below w (f - 1) e h.off;
    } in
    r)

pub ffs_lem : (k w : ℕ) → w < 2 ^ k → w ≢ 0 → IsLowest k w (ffs k w - 1)
unfolding ffs bit
ffs_lem zero w h n = absurd (n (omega arith))
ffs_lem (suc k) w h n = elim (Bool-cases (w % 2 == 1)) [
  | inl e ↦ rw e (record { low = omega arith; on = e; off = λ i lt. absurd (omega arith) })
  | inr e ↦
      let even : w % 2 ≡ 0 = ground arith in
      let small : w / 2 < 2 ^ k = omega (arith, pow-suc 2 k) in
      let more : w / 2 ≢ 0 = λ z. n (omega arith) in
      let pos : 0 < ffs k (w / 2) = ffs-pos k (w / 2) small more in
      let z : (ffs k (w / 2) == 0) ≡ false = ground arith in
      rw (e, z) (shift-IsLowest k w (ffs k (w / 2)) even pos (ffs_lem k (w / 2) small more))
]

bits-not :
    (m : Bitmap) (j : ℕ) → m (j / 64) < 2 ^ 64 → bits (λ n. word_not (m n)) j ≡ not (bits m j)
unfolding bits word_not
bits-not m j h = bit-not 64 (j % 64) (m (j / 64)) (omega arith) h

record IsFound (p : ℕ → Bool) (size offset r : ℕ) : Type 0 where
  after : offset ≤ r
  before : (j : ℕ) → offset ≤ j → j < r → p j ≡ false
  there : r < size → p r ≡ true

-- The bits that are left of the word at `offset`.
left : Bitmap → ℕ → ℕ
left m offset = bit_and (m (offset / 64)) (word_not (2 ^ (offset % 64) - 1))

bit-left :
    (m : Bitmap) (offset i : ℕ)
    → i < 64
    → bit i (left m offset) ≡ (bit i (m (offset / 64)) && not (ltb i (offset % 64)))
unfolding left word_not
bit-left m offset i h =
    bit-and i (m (offset / 64)) (word_not (2 ^ (offset % 64) - 1))
    ∙ ap (λ b. bit i (m (offset / 64)) && b)
        (bit-not 64 i (2 ^ (offset % 64) - 1) h (omega (arith, pow-lt 64 (offset % 64)))
          ∙ ap not (bit-ones i (offset % 64)))

module _ (m : Bitmap) (words : IsWords m) (size : ℕ) (small : size ≤ 2 ^ 63) where
  left-lt : (offset : ℕ) → left m offset < 2 ^ 64
  unfolding left
  left-lt offset = omega (
    arith,
    words (offset / 64),
    and-le 64 (m (offset / 64)) (word_not (2 ^ (offset % 64) - 1)) (words (offset / 64)),
  )

  off_at :
      (offset j : ℕ)
      → j / 64 ≡ offset / 64
      → offset ≤ j
      → bit (j % 64) (left m offset) ≡ false
      → bits m j ≡ false
  unfolding bits
  off_at offset j same p e =
      ground (arith, bit-left m offset (j % 64) (omega arith), ap (λ n. bit (j % 64) (m n)) same)

  -- The rest of a word with no bit left is off.
  none_left :
      (offset j : ℕ) → left m offset ≡ 0 → offset ≤ j → j < offset / 64 * 64 + 64 → bits m j ≡ false
  none_left offset j e p q =
      off_at offset j (omega arith) p (ap (bit (j % 64)) e ∙ bit-zero (j % 64))

  left-IsLowest :
      (offset : ℕ) → left m offset ≢ 0 → IsLowest 64 (left m offset) (ffsl (left m offset) - 1)
  unfolding ffsl
  left-IsLowest offset n = ffs_lem 64 (left m offset) (left-lt offset) n

  -- One round of the loop, on a word with a bit left.
  here-IsFound :
      (offset : ℕ)
      → offset < size
      → left m offset ≢ 0
      → IsFound (bits m) size offset (bit_or (ffsl (left m offset) - 1) (offset / 64 * 64))
  unfolding bits
  here-IsFound offset lt n =
      let f = ffsl (left m offset) - 1 in
      let low = left-IsLowest offset n in
      rw (or-add 6 f (offset / 64) low.low) (
        let hit = bit-left m offset f low.low in
        let at : (f + offset / 64 * 64) / 64 ≡ offset / 64 = omega (arith, low.low) in
        let place : (f + offset / 64 * 64) % 64 ≡ f = omega (arith, low.low) in
        record {
          after = ground (arith, low.low, low.on);
          before = λ j p q.
              off_at offset j (omega (arith, low.low)) p
                (low.off (j % 64) (omega (arith, low.low)));
          there = λ _. rw (at, place) (ground (arith, low.on));
        })

  -- The first number of the next word.
  next_word : ℕ → ℕ
  next_word offset = (offset + (63 - offset % 64) + 1) % 2 ^ 64

  next_word_lem : (offset : ℕ) → offset < size → next_word offset ≡ offset / 64 * 64 + 64
  unfolding next_word
  next_word_lem offset lt = omega arith

  find_loop-suc :
      (fuel offset : ℕ)
      → find_loop m (suc fuel) (2 ^ (offset % 64) - 1) size offset ≡ (
          if ltb offset size
          then (if left m offset == 0
              then find_loop m fuel (left m offset) size (next_word offset)
              else bit_or (ffsl (left m offset) - 1) (offset / 64 * 64))
          else offset)
  unfolding find_loop left next_word
  find_loop-suc fuel offset = refl

  later-IsFound :
      (offset r : ℕ)
      → offset < size
      → left m offset ≡ 0
      → IsFound (bits m) size (next_word offset) r
      → IsFound (bits m) size offset r
  later-IsFound offset r lt e h =
      let next = next_word_lem offset lt in
      record {
        after = omega (arith, h.after);
        before = λ j p q. elim (dec_lt j (next_word offset)) [
          | yes a ↦ none_left offset j e p (omega arith)
          | no b ↦ h.before j (omega arith) q
        ];
        there = h.there;
      }

  loop-IsFound :
      (fuel offset : ℕ)
      → size / 64 < fuel + offset / 64
      → IsFound (bits m) size offset (find_loop m fuel (2 ^ (offset % 64) - 1) size offset)
  loop-IsFound zero offset enough =
      unfold find_loop in
      record {
        after = omega arith;
        before = λ j p q. absurd (omega arith);
        there = λ lt. absurd (omega arith);
      }
  loop-IsFound (suc fuel) offset enough =
      rw (find_loop-suc fuel offset) (elim (Bool-cases (ltb offset size)) [
        | inr e ↦ rw e (record {
          after = omega arith;
          before = λ j p q. absurd (omega arith);
          there = λ lt. absurd (ground arith);
        })
        | inl e ↦ elim (Bool-cases (left m offset == 0)) [
          | inr n ↦ rw (e, n) (here-IsFound offset (ground arith) (λ z. ground arith))
          | inl z ↦
              let lt : offset < size = ground arith in
              let none : left m offset ≡ 0 = ground arith in
              let next = next_word_lem offset lt in
              let even : next_word offset % 64 ≡ 0 = omega arith in
              let start : 2 ^ (next_word offset % 64) - 1 ≡ left m offset =
                ap (λ (t : ℕ). 2 ^ t - 1) even ∙ sym none in
              rw (e, z)
                (later-IsFound offset _ lt none (
                  subst
                    (λ (mask : ℕ).
                      IsFound (bits m) size (next_word offset)
                        (find_loop m fuel mask size (next_word offset)))
                    start (loop-IsFound fuel (next_word offset) (omega arith))))
        ]
      ])

  find_next-IsNext : (offset : ℕ) → IsNext (bits m) size offset (find_next m size offset)
  unfolding find_next bit_mask
  find_next-IsNext offset =
      let found = loop-IsFound (suc (size / 64)) offset (omega arith) in
      let r = find_loop m (suc (size / 64)) (2 ^ (offset % 64) - 1) size offset in
      elim (Bool-cases (ltb size r)) [
        | inl e ↦ rw e (record {
          within = omega arith;
          after = λ le. le;
          before = λ j p q. found.before j p (ground arith);
          there = λ lt. absurd (omega arith);
        })
        | inr e ↦ rw e (record {
          within = ground arith;
          after = λ _. found.after;
          before = found.before;
          there = found.there;
        })
      ]

not-IsWords : (m : Bitmap) → IsWords (λ n. word_not (m n))
unfolding word_not
not-IsWords m n = omega arith

-- On a bitmap of any words and up to 2^63 bits, find_next_bit answers the first bit that is on from
-- `offset` on and below `size`, or `size` when there is none; find_next_zero_bit answers in the same
-- way the first bit that is off.
pub find_next_bit-IsNext :
    (m : Bitmap) (size offset : ℕ)
    → IsWords m
    → size ≤ 2 ^ 63
    → IsNext (bits m) size offset (find_next_bit m size offset)
      × IsNext (λ j. not (bits m j)) size offset (find_next_zero_bit m size offset)
unfolding find_next_bit find_next_zero_bit
find_next_bit-IsNext m size offset words small = (
  find_next-IsNext m words size small offset,
  subst (λ p. IsNext p size offset (find_next (λ n. word_not (m n)) size offset))
      (fun_ext (λ j. bits-not m j (words (j / 64))))
      (find_next-IsNext (λ n. word_not (m n)) (not-IsWords m) size small offset),
)
