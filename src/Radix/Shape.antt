-- ===== src/Radix/Shape.antt =====
-- Well-formed radix trees (kernel/linux_radix.c): every node counts its occupied slots, the levels
-- hold what `height` says, and only on the way to an insertion may a node be empty.
use webcamd.Prelude.{ℕ, zero, suc, ◌+◌, ◌≤◌, ◌<◌, ◌≡◌, refl, ◌⊎◌, ◌≢◌, arith, dec_lt}
use webcamd.Radix.Tree.{Slot, null, item, node, Root, radix_pos, update, count_of, top_level}

abbrev pub weight : Slot → ℕ
weight null = 0
weight _ = 1

-- How many of the first `n` slots are occupied.
unfoldable pub used : ℕ → (ℕ → Slot) → ℕ
used zero s = 0
used (suc n) s = used n s + weight (s n)

used-update_of_le :
    (n : ℕ) (s : ℕ → Slot) (p : ℕ) (v : Slot) → n ≤ p → used n (update s p v) ≡ used n s
unfolding used
used-update_of_le zero s p v h = refl
used-update_of_le (suc n) s p v h = ground (arith, used-update_of_le n s p v)

pub used-update :
    (n : ℕ) (s : ℕ → Slot) (p : ℕ) (v : Slot)
    → p < n
    → used n (update s p v) + weight (s p) ≡ used n s + weight v
unfolding used
used-update zero s p v h = absurd (omega arith)
used-update (suc n) s p v h = elim (dec_lt p n) [
  | yes below ↦ ground (arith, used-update n s p v below)
  | no last ↦ ground (arith, used-update_of_le n s p v)
]

pub weight-le-used : (n : ℕ) (s : ℕ → Slot) (p : ℕ) → p < n → weight (s p) ≤ used n s
unfolding used
weight-le-used zero s p h = absurd (omega arith)
weight-le-used (suc n) s p h = elim (dec_lt p n) [
  | yes below ↦ ground (arith, weight-le-used n s p below)
  | no last ↦ ground arith
]

pub used_none : (n : ℕ) → used n (λ _. null) ≡ 0
unfolding used
used_none zero = refl
used_none (suc n) = omega (arith, used_none n)

-- The slots of the lowest level, and those above it with what their nodes satisfy.
abbrev pub IsLeaf : Slot → Type 0
IsLeaf null = Unit
IsLeaf (item x) = Unit
IsLeaf (node c s) = ⊥

abbrev pub IsInner : (Slot → Type 0) → Slot → Type 0
IsInner P null = Unit
IsInner P (item x) = ⊥
IsInner P (node c s) = (0 < c) × P (node c s)

abbrev pub IsNode : ℕ → Slot → Type 0
IsNode zero (node c s) = (c ≡ used 64 s) × ((p : ℕ) → p < 64 → IsLeaf (s p))
IsNode zero _ = ⊥
IsNode (suc h) (node c s) = (c ≡ used 64 s) × ((p : ℕ) → p < 64 → IsInner (IsNode h) (s p))
IsNode (suc h) _ = ⊥

-- As `IsNode`, but the nodes on the way of `index` are there, and may be empty.
abbrev pub IsOpen : ℕ → ℕ → Slot → Type 0
IsOpen index zero n = IsNode zero n
IsOpen index (suc h) (node c s) =
    (c ≡ used 64 s)
    × ((p : ℕ) → p < 64 → p ≢ radix_pos index (suc h) → IsInner (IsNode h) (s p))
    × IsOpen index h (s (radix_pos index (suc h)))
IsOpen index (suc h) _ = ⊥

-- A tree with a root node, which may still be empty.
pub record IsGrown (r : Root) : Type 0 where
  pub low : 0 < r.height
  pub high : r.height ≤ 10
  pub shape : IsNode (top_level r.height) r.rnode

abbrev pub IsEmptyRoot : Root → Type 0
IsEmptyRoot r = (r.height ≡ 0) × (r.rnode ≡ null)

-- A tree between two calls: no root node, or one that is not empty.
abbrev pub IsRoot : Root → Type 0
IsRoot r = IsEmptyRoot r ⊎ (IsGrown r × (0 < count_of r.rnode))
