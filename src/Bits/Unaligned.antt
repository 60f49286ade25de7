-- ===== src/Bits/Unaligned.antt =====
-- The numbers that put_unaligned_* writes and get_unaligned_* reads.
use Prim.Native.Nat.{bit_or}
use native.Mathlib.Nat.{mod-eq_of_lt}
use webcamd.Prelude.{
  ℕ, zero, suc, ◌+◌, ◌-◌, ◌*◌, ◌/◌, ◌%◌, ◌^◌, ◌<◌, ◌≤◌, ◌≡◌, ◌&&◌, not, ltb, if◌then◌else◌, refl,
  ap, ◌∙◌, arith, dec_lt, fun_ext,
}
use webcamd.Bits.Words.{or_shift}
use webcamd.Bits.Bytes.{
  Bytes, write, put_le, put_be, get_down, get_up, put_unaligned_le64, put_unaligned_be64,
  put_unaligned_le32, put_unaligned_be32, put_unaligned_be16, put_unaligned_le16,
  get_unaligned_le64, get_unaligned_be64, get_unaligned_le32, get_unaligned_be32,
  get_unaligned_be16, get_unaligned_le16,
}

-- `v >> (8 * k)`.
unfoldable pub shr8 : ℕ → ℕ → ℕ
shr8 zero v = v
shr8 (suc k) v = shr8 k v / 256

shr8-div : (k v : ℕ) → shr8 k (v / 256) ≡ shr8 k v / 256
unfolding shr8
shr8-div zero v = refl
shr8-div (suc k) v = ap (λ (t : ℕ). t / 256) (shr8-div k v)

shr8-le : (k v : ℕ) → shr8 k v ≤ v
unfolding shr8
shr8-le zero v = omega arith
shr8-le (suc k) v = omega (arith, shr8-le k v)

put_le-byte :
    (k i v : ℕ) (p : Bytes) (j : ℕ)
    → put_le k i v p j ≡ (if not (ltb j i) && ltb j (i + k) then shr8 (j - i) v % 256 else p j)
unfolding put_le write shr8
put_le-byte zero i v p j = ground arith
put_le-byte (suc k) i v p j = elim (dec_lt i j) [
  | yes lt ↦
      let at : j - i ≡ suc (j - suc i) = omega arith in
      ground (
        arith,
        put_le-byte k (suc i) (v / 256) (write p i v) j,
        shr8-div (j - suc i) v,
        ap (λ t. shr8 t v) at,
      )
  | no ge ↦
      let at : j - i ≡ 0 = omega arith in
      ground (arith, put_le-byte k (suc i) (v / 256) (write p i v) j, ap (λ t. shr8 t v) at)
]

put_be-byte :
    (k v : ℕ) (p : Bytes) (j : ℕ)
    → put_be k v p j ≡ (if ltb j k then shr8 (k - 1 - j) v % 256 else p j)
unfolding put_be write shr8
put_be-byte zero v p j = ground arith
put_be-byte (suc k) v p j = elim (dec_lt j k) [
  | yes lt ↦
      let at : suc k - 1 - j ≡ suc (k - 1 - j) = omega arith in
      ground (
        arith,
        put_be-byte k (v / 256) (write p k v) j,
        shr8-div (k - 1 - j) v,
        ap (λ t. shr8 t v) at,
      )
  | no ge ↦
      let at : suc k - 1 - j ≡ 0 = omega arith in
      ground (arith, put_be-byte k (v / 256) (write p k v) j, ap (λ t. shr8 t v) at)
]

-- One byte more.
take_byte : (m v : ℕ) → v < m → bit_or (v / 256 * 256 % m) (v % 256) ≡ v
take_byte m v h =
    ap (λ (t : ℕ). bit_or t (v % 256)) (mod-eq_of_lt {n = v / 256 * 256} {m = m} (omega arith))
    ∙ or_shift 8 (v % 256) (v / 256) (omega arith)
    ∙ omega arith

get_down-shr8 :
    (m k v : ℕ) (p : Bytes)
    → v < m
    → ((i : ℕ) → i < k → p i ≡ shr8 i v % 256)
    → get_down m k (shr8 k v) p ≡ v
unfolding get_down shr8
get_down-shr8 m zero v p h bytes = refl
get_down-shr8 m (suc k) v p h bytes =
    ap (λ (t : ℕ). get_down m k t p)
      (ap (bit_or (shr8 k v / 256 * 256 % m)) (bytes k (omega arith))
        ∙ take_byte m (shr8 k v) (omega (arith, shr8-le k v)))
    ∙ get_down-shr8 m k v p h (λ i lt. bytes i (omega arith))

get_up-shr8 :
    (m k i v : ℕ) (p : Bytes)
    → v < m
    → ((j : ℕ) → j < k → p (i + j) ≡ shr8 (k - 1 - j) v % 256)
    → get_up m k i (shr8 k v) p ≡ v
unfolding get_up shr8
get_up-shr8 m zero i v p h bytes = refl
get_up-shr8 m (suc k) i v p h bytes =
    let here : p i ≡ shr8 k v % 256 =
      ap p (omega arith) ∙ bytes 0 (omega arith) ∙ ap (λ t. shr8 t v % 256) (omega arith) in
    ap (λ (t : ℕ). get_up m k (suc i) t p)
      (ap (bit_or (shr8 (suc k) v * 256 % m)) here
        ∙ take_byte m (shr8 k v) (omega (arith, shr8-le k v)))
    ∙ get_up-shr8 m k (suc i) v p h (λ j lt.
      ap p (omega arith) ∙ bytes (suc j) (omega arith) ∙ ap (λ t. shr8 t v % 256) (omega arith))

-- What is read back after `n + 1` bytes were written, the lowest first or the highest first.
get_down-put_le :
    (m n v : ℕ) (p : Bytes)
    → v < m
    → shr8 n v < 256
    → get_down m n (put_le (suc n) 0 v p n) (put_le (suc n) 0 v p) ≡ v
get_down-put_le m n v p h top =
    let last : n - 0 ≡ n = omega arith in
    let first : put_le (suc n) 0 v p n ≡ shr8 n v =
      ground (arith, put_le-byte (suc n) 0 v p n, ap (λ t. shr8 t v) last) in
    ap (λ (t : ℕ). get_down m n t (put_le (suc n) 0 v p)) first
    ∙ get_down-shr8 m n v (put_le (suc n) 0 v p) h (λ i lt.
      let at : i - 0 ≡ i = omega arith in
      ground (arith, put_le-byte (suc n) 0 v p i, ap (λ t. shr8 t v) at))

get_up-put_be :
    (m n v : ℕ) (p : Bytes)
    → v < m
    → shr8 n v < 256
    → get_up m n 1 (put_be (suc n) v p 0) (put_be (suc n) v p) ≡ v
get_up-put_be m n v p h top =
    let last : suc n - 1 - 0 ≡ n = omega arith in
    let first : put_be (suc n) v p 0 ≡ shr8 n v =
      ground (arith, put_be-byte (suc n) v p 0, ap (λ t. shr8 t v) last) in
    ap (λ (t : ℕ). get_up m n 1 t (put_be (suc n) v p)) first
    ∙ get_up-shr8 m n 1 v (put_be (suc n) v p) h (λ j lt.
      let at : suc n - 1 - (1 + j) ≡ n - 1 - j = omega arith in
      ground (arith, put_be-byte (suc n) v p (1 + j), ap (λ t. shr8 t v) at))

be16 : (val : ℕ) (ptr : Bytes) → put_unaligned_be16 val ptr ≡ put_be 2 (val % 2 ^ 16) ptr
unfolding put_unaligned_be16 put_be write
be16 val ptr = fun_ext (λ j. ground arith)

reversed :
    (n v : ℕ) (p : Bytes) (j : ℕ)
    → put_be (suc n) v p j ≡ (if ltb j (suc n) then put_le (suc n) 0 v p (n - j) else p j)
reversed n v p j =
    let at : suc n - 1 - j ≡ n - j - 0 = omega arith in
    ground
      (arith, put_be-byte (suc n) v p j, put_le-byte (suc n) 0 v p (n - j), ap (λ t. shr8 t v) at)

-- Reading a number of 64, 32 or 16 bits, in the order in which it was written, gives it back, cut to
-- the width of the call's parameter.
get_unaligned-put_unaligned :
    (val : ℕ) (ptr : Bytes)
    → (get_unaligned_le64 (put_unaligned_le64 val ptr) ≡ val % 2 ^ 64)
      × (get_unaligned_be64 (put_unaligned_be64 val ptr) ≡ val % 2 ^ 64)
      × (get_unaligned_le32 (put_unaligned_le32 val ptr) ≡ val % 2 ^ 32)
      × (get_unaligned_be32 (put_unaligned_be32 val ptr) ≡ val % 2 ^ 32)
      × (get_unaligned_le16 (put_unaligned_le16 val ptr) ≡ val % 2 ^ 16)
      × (get_unaligned_be16 (put_unaligned_be16 val ptr) ≡ val % 2 ^ 16)
unfolding get_unaligned_le64 put_unaligned_le64 get_unaligned_be64 put_unaligned_be64
    get_unaligned_le32 put_unaligned_le32 get_unaligned_be32 put_unaligned_be32 get_unaligned_le16
    put_unaligned_le16 get_unaligned_be16
get_unaligned-put_unaligned val ptr = (
  get_down-put_le (2 ^ 64) 7 (val % 2 ^ 64) ptr (omega arith) (unfold shr8 in omega arith),
  get_up-put_be (2 ^ 64) 7 (val % 2 ^ 64) ptr (omega arith) (unfold shr8 in omega arith),
  get_down-put_le (2 ^ 32) 3 (val % 2 ^ 32) ptr (omega arith) (unfold shr8 in omega arith),
  get_up-put_be (2 ^ 32) 3 (val % 2 ^ 32) ptr (omega arith) (unfold shr8 in omega arith),
  get_down-put_le (2 ^ 16) 1 (val % 2 ^ 16) ptr (omega arith) (unfold shr8 in omega arith),
  rw (be16 val ptr)
      (get_up-put_be (2 ^ 16) 1 (val % 2 ^ 16) ptr (omega arith) (unfold shr8 in omega arith)),
)

-- The two orders write the same bytes, one in the reverse of the other, and no byte outside: at any
-- index `j`, for 64, 32 and 16 bits.
pub put_unaligned_be-reversed :
    (val : ℕ) (ptr : Bytes) (j : ℕ)
    → (put_unaligned_be64 val ptr j
        ≡ (if ltb j 8 then put_unaligned_le64 val ptr (7 - j) else ptr j))
      × (put_unaligned_be32 val ptr j
          ≡ (if ltb j 4 then put_unaligned_le32 val ptr (3 - j) else ptr j))
      × (put_unaligned_be16 val ptr j
          ≡ (if ltb j 2 then put_unaligned_le16 val ptr (1 - j) else ptr j))
unfolding put_unaligned_le64 put_unaligned_be64 put_unaligned_le32 put_unaligned_be32
    put_unaligned_le16
put_unaligned_be-reversed val ptr j = (
  reversed 7 (val % 2 ^ 64) ptr j,
  reversed 3 (val % 2 ^ 32) ptr j,
  rw (be16 val ptr) (reversed 1 (val % 2 ^ 16) ptr j),
)
