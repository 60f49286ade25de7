-- ===== src/Bits/Sets.antt =====
-- The operations on single bits refine the operations on a set of numbers.
use Prim.Native.Nat.{bit_or, bit_xor}
use native.Mathlib.Nat.{one-le-pow}
use webcamd.Prelude.{
  ℕ, ◌/◌, ◌%◌, ◌^◌, ◌<◌, ◌≡◌, bit_and, Bool, true, false, not, ◌==◌, if◌then◌else◌, List, [], ◌∷◌,
  refl, ap, ◌∙◌, arith, inl, inr, Bool-cases, fun_ext,
}
use webcamd.Bits.Words.{bit, bit-and, bit-or, bit-xor, bit-not, bit-pow, and-pow, pow-lt}
use webcamd.Bits.Single.{
  Bitmap, bit_mask, word_not, put_word, bits, has_bits, test_bit, test_and_set_bit,
  test_and_clear_bit, set_bit, clear_bit, change_bit,
}

-- What the bits of a word answer.
abbrev pub flag : Bool → ℕ
flag b = if b then 1 else 0

pub bits-put_word :
    (m : Bitmap) (n w j : ℕ)
    → bits (put_word m n w) j ≡ (if j / 64 == n then bit (j % 64) w else bits m j)
unfolding bits put_word
bits-put_word m n w j = elim (Bool-cases (j / 64 == n)) [ inl e ↦ rw e refl | inr e ↦ rw e refl ]

pub bit-mask : (i nr : ℕ) → bit i (bit_mask nr) ≡ (i == nr % 64)
unfolding bit_mask
bit-mask i nr = bit-pow i (nr % 64)

pub bit-mask_not : (i nr : ℕ) → i < 64 → bit i (word_not (bit_mask nr)) ≡ not (i == nr % 64)
unfolding bit_mask word_not
bit-mask_not i nr h =
    bit-not 64 i (2 ^ (nr % 64)) h (pow-lt 64 (nr % 64) (omega arith))
    ∙ ap not (bit-pow i (nr % 64))

pub and-mask : (w nr : ℕ) → (bit_and w (bit_mask nr) == 0) ≡ not (bit (nr % 64) w)
unfolding bit_mask
and-mask w nr = ground (arith, and-pow (nr % 64) w, one-le-pow (nr % 64) 2)

pub has_bits-flag : (w nr : ℕ) → has_bits w (bit_mask nr) ≡ flag (bit (nr % 64) w)
unfolding has_bits
has_bits-flag w nr = ground (arith, and-mask w nr)

pub test_bit-bits : (nr : ℕ) (m : Bitmap) → test_bit nr m ≡ flag (bits m nr)
unfolding test_bit bits
test_bit-bits nr m = has_bits-flag (m (nr / 64)) nr

pub set_bit-bits :
    (nr : ℕ) (m : Bitmap) (j : ℕ) → bits (set_bit nr m) j ≡ (if j == nr then true else bits m j)
unfolding set_bit bits
set_bit-bits nr m j = ground (
  arith,
  bits-put_word m (nr / 64) (bit_or (m (nr / 64)) (bit_mask nr)) j,
  bit-or (j % 64) (m (nr / 64)) (bit_mask nr),
  bit-mask (j % 64) nr,
)

pub clear_bit-bits :
    (nr : ℕ) (m : Bitmap) (j : ℕ) → bits (clear_bit nr m) j ≡ (if j == nr then false else bits m j)
unfolding clear_bit bits
clear_bit-bits nr m j = ground (
  arith,
  bits-put_word m (nr / 64) (bit_and (m (nr / 64)) (word_not (bit_mask nr))) j,
  bit-and (j % 64) (m (nr / 64)) (word_not (bit_mask nr)),
  bit-mask_not (j % 64) nr (omega arith),
)

pub change_bit-bits :
    (nr : ℕ) (m : Bitmap) (j : ℕ)
    → bits (change_bit nr m) j ≡ (if j == nr then not (bits m j) else bits m j)
unfolding change_bit bits
change_bit-bits nr m j = ground (
  arith,
  bits-put_word m (nr / 64) (bit_xor (m (nr / 64)) (bit_mask nr)) j,
  bit-xor (j % 64) (m (nr / 64)) (bit_mask nr),
  bit-mask (j % 64) nr,
)

test_and_set_lem : (nr : ℕ) (m : Bitmap) → test_and_set_bit nr m ≡ (set_bit nr m, test_bit nr m)
unfolding test_and_set_bit set_bit test_bit
test_and_set_lem nr m = refl

test_and_clear_lem :
    (nr : ℕ) (m : Bitmap) → test_and_clear_bit nr m ≡ (clear_bit nr m, test_bit nr m)
unfolding test_and_clear_bit clear_bit test_bit
test_and_clear_lem nr m = refl

-- A call on one bit.
pub data Call : Type 0 where
  test : ℕ → Call
  test_and_set : ℕ → Call
  test_and_clear : ℕ → Call
  turn_on : ℕ → Call
  turn_off : ℕ → Call
  flip : ℕ → Call

unfoldable pub call : Call → Bitmap → Bitmap × ℕ
call (Call.test nr) m = (m, test_bit nr m)
call (Call.test_and_set nr) m = test_and_set_bit nr m
call (Call.test_and_clear nr) m = test_and_clear_bit nr m
call (Call.turn_on nr) m = (set_bit nr m, 0)
call (Call.turn_off nr) m = (clear_bit nr m, 0)
call (Call.flip nr) m = (change_bit nr m, 0)

-- A set of numbers after `nr` was put in or taken out.
abbrev pub update : ℕ → Bool → (ℕ → Bool) → ℕ → Bool
update nr b s j = if j == nr then b else s j

-- What a call does to the set of the numbers whose bits are on.
unfoldable pub set_call : Call → (ℕ → Bool) → (ℕ → Bool) × ℕ
set_call (Call.test nr) s = (s, flag (s nr))
set_call (Call.test_and_set nr) s = (update nr true s, flag (s nr))
set_call (Call.test_and_clear nr) s = (update nr false s, flag (s nr))
set_call (Call.turn_on nr) s = (update nr true s, 0)
set_call (Call.turn_off nr) s = (update nr false s, 0)
set_call (Call.flip nr) s = (update nr (not (s nr)) s, 0)

unfoldable pub run : List Call → Bitmap → Bitmap × List ℕ
run [] m = (m, [])
run (c ∷ cs) m = let (m', r) = call c m in let (m'', rs) = run cs m' in (m'', r ∷ rs)

unfoldable pub set_run : List Call → (ℕ → Bool) → (ℕ → Bool) × List ℕ
set_run [] s = (s, [])
set_run (c ∷ cs) s = let (s', r) = set_call c s in let (s'', rs) = set_run cs s' in (s'', r ∷ rs)

abbrev view : Bitmap × ℕ → (ℕ → Bool) × ℕ
view p = (bits p.0, p.1)

flip_update :
    (nr j : ℕ) (m : Bitmap)
    → (if j == nr then not (bits m j) else bits m j) ≡ update nr (not (bits m nr)) (bits m) j
flip_update nr j m = ground arith

call-set_call : (c : Call) (m : Bitmap) → view (call c m) ≡ set_call c (bits m)
unfolding call set_call
call-set_call (Call.test nr) m = rw (test_bit-bits nr m) refl
call-set_call (Call.test_and_set nr) m =
    rw (test_and_set_lem nr m, test_bit-bits nr m, fun_ext (set_bit-bits nr m)) refl
call-set_call (Call.test_and_clear nr) m =
    rw (test_and_clear_lem nr m, test_bit-bits nr m, fun_ext (clear_bit-bits nr m)) refl
call-set_call (Call.turn_on nr) m = rw (fun_ext (set_bit-bits nr m)) refl
call-set_call (Call.turn_off nr) m = rw (fun_ext (clear_bit-bits nr m)) refl
call-set_call (Call.flip nr) m =
    rw (fun_ext (λ j. change_bit-bits nr m j ∙ flip_update nr j m)) refl

-- For any calls on single bits, in any order, the answers are those of the operations on the set
-- of the numbers whose bits are on, and the bits in the end are those of that set.
pub run-set_run :
    (cs : List Call) (m : Bitmap)
    → (bits (run cs m).0 ≡ (set_run cs (bits m)).0) × ((run cs m).1 ≡ (set_run cs (bits m)).1)
unfolding run set_run
run-set_run [] m = (refl, refl)
run-set_run (c ∷ cs) m =
    let ih = run-set_run cs (call c m).0 in
    rw (← call-set_call c m) (ih.0, ap (λ r. (call c m).1 ∷ r) ih.1)
