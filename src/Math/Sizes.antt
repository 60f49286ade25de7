-- ===== src/Math/Sizes.antt =====
-- The sizes of arrays, of kernel/linux_func.c: array_size, array3_size,
-- struct_size_sub and kmalloc_array.
use webcamd.Prelude.{
  ℕ, ◌+◌, ◌-◌, ◌*◌, ◌/◌, ◌%◌, ◌^◌, ◌<◌, ◌≤◌, ◌≡◌, true, ◌&&◌, ◌||◌, not, Option, none, some, ◌==◌,
  ltb, if◌then◌else◌, refl, ap, arith, Bool-cases, inl, inr, dec_lt,
}
use native.Mathlib.Nat.{mod-eq_of_lt, div-mul-le_self, mul-div_left, mul_comm}

abbrev pub size_max : ℕ
size_max = 2 ^ 64 - 1

abbrev pub ssize_max : ℕ
ssize_max = 2 ^ 63 - 1

unfoldable pub array_size : ℕ → ℕ → ℕ
array_size a b =
    if a == 0 || b == 0
    then 0
    else let temp = a * b % 2 ^ 64 in
      if not (temp / b == a) then size_max else if ltb ssize_max temp then size_max else temp

unfoldable pub array3_size : ℕ → ℕ → ℕ → ℕ
array3_size a b c =
    if a == 0 || (b == 0 || c == 0)
    then 0
    else let temp = a * b % 2 ^ 64 in
      if not (temp / b == a)
      then size_max
      else let all = temp * c % 2 ^ 64 in
        if not (all / c == temp) then size_max else if ltb ssize_max all then size_max else all

unfoldable pub struct_size_sub : ℕ → ℕ → ℕ → ℕ
struct_size_sub n m_size b_size =
    if ltb ssize_max n || (ltb ssize_max m_size || ltb ssize_max b_size)
    then size_max
    else if not (n == 0)
    then (let temp = n * m_size % 2 ^ 64 in
        if not (temp / n == m_size)
        then size_max
        else if ltb ssize_max temp
        then size_max
        else (let sum = (temp + b_size) % 2 ^ 64 in if ltb ssize_max sum then size_max else sum))
    else b_size

-- The size that kmalloc is asked for, or NULL.
unfoldable pub kmalloc_array : ℕ → ℕ → Option ℕ
kmalloc_array n s =
    let total = n * s % 2 ^ 64 in
    if not (total == 0) && not (total / n == s) then none else some total

-- A number that a signed size can hold, or else the greatest size.
unfoldable pub checked : ℕ → ℕ
checked n = if ltb ssize_max n then size_max else n

-- The division shows whether a product of words has wrapped around.
div-wrap : (a b : ℕ) → 0 < b → a < 2 ^ 64 → (a * b % 2 ^ 64 / b == a) ≡ ltb (a * b) (2 ^ 64)
div-wrap a b pos small = elim (dec_lt (a * b) (2 ^ 64)) [
  | yes fits ↦ ground (
    arith,
    mod-eq_of_lt {n = a * b} {m = 2 ^ 64} fits,
    ap (λ (t : ℕ). t / b) (mod-eq_of_lt {n = a * b} {m = 2 ^ 64} fits),
    mul-div_left a {n = b} pos,
  )
  | no over ↦ ground (
    arith,
    div-mul-le_self (a * b % 2 ^ 64) b,
    λ (e : a * b % 2 ^ 64 / b ≡ a). ap (λ (t : ℕ). t * b) e,
  )
]

-- A product that is checked by dividing it.
product :
    (a b : ℕ)
    → 0 < b
    → a < 2 ^ 64
    → (if not (a * b % 2 ^ 64 / b == a)
        then size_max
        else if ltb ssize_max (a * b % 2 ^ 64)
        then size_max
        else a * b % 2 ^ 64)
      ≡ checked (a * b)
unfolding checked
product a b pos h = elim (Bool-cases (ltb (a * b) (2 ^ 64))) [
  | inl fits ↦
      ground (arith, div-wrap a b pos h, mod-eq_of_lt {n = a * b} {m = 2 ^ 64} (ground arith))
  | inr over ↦ ground (arith, div-wrap a b pos h)
]

zero-right : (a : ℕ) → a * 0 ≡ 0 * 0
zero-right a = omega arith

checked_zero : (b : ℕ) → checked (0 * b) ≡ 0
unfolding checked
checked_zero b = ground arith

array_size_lem : (a b : ℕ) → a < 2 ^ 64 → array_size a b ≡ checked (a * b)
unfolding array_size
array_size_lem a b h = elim (dec_lt 0 b) [
  | no zero_lem ↦
      let e : b ≡ 0 = omega arith in
      rw e (ground (arith, checked_zero 0, ap checked (zero-right a)))
  | yes pos ↦ ground (arith, product a b pos h, checked_zero b)
]

checked_over : (n : ℕ) → 2 ^ 64 ≤ n → checked n ≡ size_max
unfolding checked
checked_over n h = ground arith

grows : (x c : ℕ) → 0 < c → x ≤ x * c
grows x c h = grind arith

array3_positive :
    (a b c : ℕ) → 0 < a → 0 < b → 0 < c → a < 2 ^ 64 → array3_size a b c ≡ checked (a * b * c)
unfolding array3_size
array3_positive a b c ha hb hc h = elim (Bool-cases (ltb (a * b) (2 ^ 64))) [
  | inl fits ↦
      let temp : a * b % 2 ^ 64 ≡ a * b = mod-eq_of_lt {n = a * b} {m = 2 ^ 64} (ground arith) in
      let whole : a * b / b ≡ a = mul-div_left a {n = b} hb in
      rw (temp, whole) (ground (arith, product (a * b) c hc (ground arith)))
  | inr over ↦ ground (arith, div-wrap a b hb h, grows (a * b) c hc, checked_over (a * b * c))
]

-- A product with a factor 0.
none_lem : (a b c : ℕ) → (a == 0 || (b == 0 || c == 0)) ≡ true → a * b * c ≡ 0
none_lem a b c h = grind arith

array3_size_lem : (a b c : ℕ) → a < 2 ^ 64 → array3_size a b c ≡ checked (a * b * c)
array3_size_lem a b c h = elim (Bool-cases (a == 0 || (b == 0 || c == 0))) [
  | inl is_none ↦
      rw (none_lem a b c is_none) (unfold array3_size in unfold checked in ground (arith, is_none))
  | inr positive ↦ array3_positive a b c (ground arith) (ground arith) (ground arith) h
]

struct_size_sub_lem :
    (n m b : ℕ)
    → struct_size_sub n m b ≡ (
        if ltb ssize_max n || (ltb ssize_max m || ltb ssize_max b)
        then size_max
        else checked (n * m + b))
unfolding struct_size_sub
struct_size_sub_lem n m b =
    elim (Bool-cases (ltb ssize_max n || (ltb ssize_max m || ltb ssize_max b))) [
      | inl large ↦ rw large refl
      | inr small ↦ rw small (elim (dec_lt 0 n) [
        | yes pos ↦ rw (mul_comm n m) (elim (Bool-cases (ltb (m * n) (2 ^ 64))) [
          | inl fits ↦
              let temp : m * n % 2 ^ 64 ≡ m * n =
                mod-eq_of_lt {n = m * n} {m = 2 ^ 64} (ground arith) in
              let whole : m * n / n ≡ m = mul-div_left m {n = n} pos in
              rw (temp, whole) (unfold checked in ground arith)
          | inr over ↦ ground (arith, div-wrap m n pos (ground arith), checked_over (m * n + b))
        ])
        | no zero_lem ↦ let e : n ≡ 0 = omega arith in rw e (unfold checked in ground arith)
      ])
    ]

-- The check of kmalloc_array misses the products that wrap around to 0.
unfoldable pub allocated : ℕ → Option ℕ
allocated m = if ltb m (2 ^ 64) then some m else if m % 2 ^ 64 == 0 then some 0 else none

kmalloc_array_lem : (n s : ℕ) → s < 2 ^ 64 → kmalloc_array n s ≡ allocated (n * s)
unfolding kmalloc_array allocated
kmalloc_array_lem n s h = elim (dec_lt 0 n) [
  | no zero_lem ↦ let e : n ≡ 0 = omega arith in rw e (ground arith)
  | yes pos ↦ rw (mul_comm n s) (elim (Bool-cases (ltb (s * n) (2 ^ 64))) [
    | inl fits ↦
        ground (arith, div-wrap s n pos h, mod-eq_of_lt {n = s * n} {m = 2 ^ 64} (ground arith))
    | inr over ↦ ground (arith, div-wrap s n pos h)
  ])
]

-- On words, array_size and array3_size answer the exact product when a signed size can hold it, and
-- SIZE_MAX otherwise, also where the product wraps around. So does struct_size_sub with the size of
-- `n` members and a head, when none of its arguments is too large for a signed size; else it
-- answers SIZE_MAX. kmalloc_array asks for the exact product where a word can hold it, and answers
-- NULL otherwise, but for a product that wraps around to 0, where it asks for no bytes.
pub sizes_checked :
    (a b c : ℕ)
    → a < 2 ^ 64
    → b < 2 ^ 64
    → (array_size a b ≡ checked (a * b))
      × (array3_size a b c ≡ checked (a * b * c))
      × (struct_size_sub a b c ≡ (
          if ltb ssize_max a || (ltb ssize_max b || ltb ssize_max c)
          then size_max
          else checked (a * b + c)))
      × (kmalloc_array a b ≡ allocated (a * b))
sizes_checked a b c h k = (
  array_size_lem a b h,
  array3_size_lem a b c h,
  struct_size_sub_lem a b c,
  kmalloc_array_lem a b k,
)
