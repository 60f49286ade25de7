-- ===== src/ModParam/Reading.antt =====
-- What a module parameter of each type can hold of a value (kernel/linux_mod_param.c).
use webcamd.Prelude.{
  ℕ, zero, suc, ◌+◌, ◌-◌, ◌%◌, ◌^◌, ◌<◌, ◌≡◌, true, ◌==◌, ltb, if◌then◌else◌, Option, none, some,
  List, [], ◌∷◌, take, refl, arith, Bool-cases, inl, inr,
}
use webcamd.Prelude.Int.{ℤ, pos, negsuc}
use webcamd.ModParam.Params.{
  Kind, string, short, ushort, int, bool, uint, charp, other, ModParam, same_name, strlcpy, int16,
  int32,
}

pub same_name_sound : (a b : List ℕ) → same_name a b ≡ true → a ≡ b
same_name_sound [] [] e = refl
same_name_sound [] (y ∷ b) e = absurd (ground (arith, e))
same_name_sound (x ∷ a) [] e = absurd (ground (arith, e))
same_name_sound (x ∷ a) (y ∷ b) e = ground (arith, e, same_name_sound a b (ground (arith, e)))

-- A C integer of `w` bits that holds the number `n`, in two's complement.
abbrev pub IsInt : ℕ → ℕ → ℤ → Type 0
IsInt w n (pos m) = (m + m < 2 ^ w) × (n % 2 ^ w ≡ m)
IsInt w n (negsuc m) = (m + m < 2 ^ w) × (n % 2 ^ w + suc m ≡ 2 ^ w)

-- How the parameter `p` of the given kind reads once it holds a value that `strtoul` reads as `n`.
abbrev pub IsRead : (List ℕ → ℤ) → List ℕ → ℕ → ModParam → Kind → ℤ → Type 0
IsRead atoi value n p string got =
    got ≡ atoi (if p.size == 0 then p.text else take (p.size - 1) value)
IsRead atoi value n p short got = IsInt 16 n got
IsRead atoi value n p ushort got = got ≡ pos (n % 2 ^ 16)
IsRead atoi value n p int got = IsInt 32 n got
IsRead atoi value n p bool got = got ≡ (if n == 0 then pos 0 else pos 1)
IsRead atoi value n p uint got = IsInt 32 n got
IsRead atoi value n p charp got = got ≡ pos 0
IsRead atoi value n p other got = got ≡ pos 0

pub int16-IsInt : (n : ℕ) → IsInt 16 n (int16 (n % 2 ^ 16))
unfolding int16
int16-IsInt n = elim (Bool-cases (ltb (n % 2 ^ 16) (2 ^ 15))) [
  | inl e ↦ rw e (ground (arith, e), refl)
  | inr e ↦ rw e (ground (arith, e), ground (arith, e))
]

pub int32-IsInt : (n : ℕ) → IsInt 32 n (int32 (n % 2 ^ 32))
unfolding int32
int32-IsInt n = elim (Bool-cases (ltb (n % 2 ^ 32) (2 ^ 31))) [
  | inl e ↦ rw e (ground (arith, e), refl)
  | inr e ↦ rw e (ground (arith, e), ground (arith, e))
]

abbrev pub text_or : ModParam → Option ModParam → List ℕ
text_or p none = p.text
text_or p (some q) = q.text

abbrev pub number_or : ModParam → Option ModParam → ℕ
number_or p none = p.number
number_or p (some q) = q.number

abbrev pub param_or : ModParam → Option ModParam → ModParam
param_or p none = p
param_or p (some q) = q

abbrev pub name_or : ModParam → Option ModParam → List ℕ
name_or p none = p.name
name_or p (some q) = q.name

abbrev pub kind_or : ModParam → Option ModParam → Kind
kind_or p none = p.kind
kind_or p (some q) = q.kind

pub strlcpy_lem :
    (dst src : List ℕ) (size : ℕ)
    → strlcpy dst src size ≡ (if size == 0 then dst else take (size - 1) src)
unfolding strlcpy
strlcpy_lem dst src zero = refl
strlcpy_lem dst src (suc size) = ground arith
