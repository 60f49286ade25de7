-- ===== src/Radix/Growth.antt =====
-- The growth of a tree before an insertion (the allocation of the root and the loop
-- `while (radix_max(root) < index)` of kernel/linux_radix.c).
use native.Mathlib.Nat.{div-eq_of_lt, div-lt_iff_lt-mul, le-div_iff_mul-le}
use webcamd.Prelude.{
  ℕ, zero, suc, ◌+◌, ◌^◌, ◌≤◌, ◌<◌, ◌≡◌, ◌/◌, refl, true, false, if◌then◌else◌, ltb, ◌⊎◌, inl, inr,
  arith, dec_lt, ℕ_discrete, Bool-cases, none, sym, ◌∙◌, ◌==◌, subst, [],
}
use webcamd.Radix.Tree.{
  Slot, null, node, Root, Mem, success, enomem, malloc, radix_pos, radix_max, count_of, walk,
  lookup,
}
use webcamd.Radix.Insert.{Outcome, expand, new_level}
use webcamd.Radix.Digits.{
  span, span-suc, span-le, span-small, ltb-radix_max, radix_pos_lem, pow-pos, radix_pos-lt,
}
use webcamd.Radix.Shape.{used, weight-le-used, used_none, used-update, IsNode, IsGrown}
use webcamd.Radix.Paths.{get, get-null, IsInner-IsNode, update_ne, IsNode-weight}

-- A tree with a root node, of height `h + 1`.
abbrev pub tree : Slot → ℕ → Root
tree n h = record { rnode = n; height = suc h }

pub lookup-tree :
    (n : Slot) (h j : ℕ)
    → h < 10
    → lookup (tree n h) j ≡ (if ltb j (span (suc h)) then get j h n else none)
unfolding lookup
lookup-tree n h j b = ground (arith, ltb-radix_max (suc h) j b)

pub slots_null : (s : ℕ → Slot) → used 64 s ≡ 0 → (p : ℕ) → p < 64 → s p ≡ null
slots_null s e p b = ground (arith, weight-le-used 64 s p b)

slots_get : (c : ℕ) (s : ℕ → Slot) → used 64 s ≡ 0 → (k j : ℕ) → get j k (node c s) ≡ none
unfolding walk
slots_get c s e zero j = ground (arith, slots_null s e (radix_pos j 0) (radix_pos-lt j 0))
slots_get c s e (suc k) j =
    rw (slots_null s e (radix_pos j (suc k)) (radix_pos-lt j (suc k))) (get-null j k)

slots_IsNode : (c : ℕ) (s : ℕ → Slot) → c ≡ 0 → c ≡ used 64 s → (k : ℕ) → IsNode k (node c s)
slots_IsNode c s z e zero = (e, λ p b. rw (slots_null s (sym e ∙ z) p b) tt)
slots_IsNode c s z e (suc k) = (e, λ p b. rw (slots_null s (sym e ∙ z) p b) tt)

pub empty-get : (h k j : ℕ) (n : Slot) → IsNode h n → count_of n ≡ 0 → get j k n ≡ none
unfolding walk
empty-get zero k j (node c s) o e = slots_get c s (sym o.0 ∙ e) k j
empty-get zero k j _ o e = elim o [ ]
empty-get (suc h) k j (node c s) o e = slots_get c s (sym o.0 ∙ e) k j
empty-get (suc h) k j _ o e = elim o [ ]

empty-IsNode : (h k : ℕ) (n : Slot) → IsNode h n → count_of n ≡ 0 → IsNode k n
empty-IsNode zero k (node c s) o e = slots_IsNode c s e o.0 k
empty-IsNode zero k _ o e = elim o [ ]
empty-IsNode (suc h) k (node c s) o e = slots_IsNode c s e o.0 k
empty-IsNode (suc h) k _ o e = elim o [ ]

digit_small : (h j : ℕ) → j < span (suc (suc h)) → j / span (suc h) < 64
digit_small h j lt = (div-lt_iff_lt-mul (pow-pos (suc h))).1 (omega (arith, span-suc (suc h)))

digit_zero : (h j : ℕ) → j < span (suc h) → j / span (suc h) ≡ 0
digit_zero h j lt = div-eq_of_lt lt

digit_pos : (h j : ℕ) → span (suc h) ≤ j → 1 ≤ j / span (suc h)
digit_pos h j le = (le-div_iff_mul-le (pow-pos (suc h))).1 (omega arith)

-- The digit that a new top level adds is 0 below the old limit, and not 0 above it.
top_digit :
    (h j : ℕ)
    → suc h < 10
    → j < span (suc (suc h))
    → ((0 == radix_pos j (suc h)) ≡ ltb j (span (suc h)))
top_digit h j b lt = ground (
  arith,
  radix_pos_lem j (suc h) (span-small j (suc h) b lt),
  digit_small h j lt,
  digit_zero h j,
  digit_pos h j,
)

pub lookup-new_level :
    (n : Slot) (h j : ℕ) → suc h < 10 → lookup (new_level (tree n h)) j ≡ lookup (tree n h) j
unfolding walk
lookup-new_level n h j b = ground (
  arith,
  lookup-tree n h j (omega arith),
  lookup-tree (new_level (tree n h)).rnode (suc h) j b,
  get-null j h,
  top_digit h j b,
  span-le (suc h) (suc (suc h)) (omega arith),
)

lookup-taller :
    (n : Slot) (h j : ℕ)
    → suc h < 10
    → IsNode h n
    → count_of n ≡ 0
    → lookup (tree n (suc h)) j ≡ lookup (tree n h) j
lookup-taller n h j b o e = ground (
  arith,
  lookup-tree n h j (omega arith),
  lookup-tree n (suc h) j b,
  empty-get h h j n o e,
  empty-get h (suc h) j n o e,
)

new_level-IsNode :
    (n : Slot) (h : ℕ) → IsNode h n → 0 < count_of n → IsNode (suc h) (new_level (tree n h)).rnode
new_level-IsNode n h o b = (
  omega (arith, used-update 64 (λ _. null) 0 n (omega arith), used_none 64, IsNode-weight h n o),
  λ p q. elim (ℕ_discrete 0 p) [
    | yes here ↦ rw (← here) (IsInner-IsNode h n o b)
    | no other ↦ rw (update_ne (λ _. null) 0 n p other) tt
  ],
)

-- What the steps before an insertion keep, and what they reach.
pub record Grows (index : ℕ) (r : Root) (o : Outcome) : Type 0 where
  pub grown : IsGrown o.root
  pub same : (j : ℕ) → lookup o.root j ≡ lookup r j
  pub reaches : o.code ≡ success → index < span o.root.height
  pub ends : (o.code ≡ success) ⊎ ((o.code ≡ enomem) × (0 < count_of o.root.rnode))

pub Grows-from :
    {index : ℕ} {r s : Root} {o : Outcome}
    → ((j : ℕ) → lookup s j ≡ lookup r j)
    → Grows index s o
    → Grows index r o
Grows-from e g = record {
  grown = g.grown;
  same = λ j. g.same j ∙ e j;
  reaches = g.reaches;
  ends = g.ends;
}

pub limit_reached :
    (h index : ℕ) → h < 10 → ltb (radix_max (suc h)) index ≡ false → index < span (suc h)
limit_reached h index b e = ground (arith, ltb-radix_max (suc h) index b)

ltb-true : (i : ℕ) → i < 2 ^ 60 → ltb i (2 ^ 60) ≡ true
ltb-true i b = ground arith

-- At height 10 the limit is 2 ^ 60, so such an index never asks for an eleventh level.
room_left :
    (h index : ℕ) → h < 10 → index < 2 ^ 60 → ltb (radix_max (suc h)) index ≡ true → suc h < 10
room_left h index b i e = elim (dec_lt (suc h) 10) [
  | yes lt ↦ lt
  | no last ↦ absurd (
      let nine : h ≡ 9 = omega arith in
      let e' = ltb-radix_max (suc h) index b in
      let top = subst (λ k. (ltb index (span (suc k)) ≡ true)) (sym nine) (ltb-true index i) in
      ground (arith, e, e', top))
]

pub expand-Grows :
    (levels index h : ℕ) (n : Slot) (mem : Mem)
    → levels + suc h ≡ 11
    → h < 10
    → index < 2 ^ 60
    → IsNode h n
    → Grows index (tree n h) (expand levels index (tree n h) mem)
unfolding expand
expand-Grows zero index h n mem l b i o = absurd (omega arith)
expand-Grows (suc levels) index h n mem l b i o =
    elim (Bool-cases (ltb (radix_max (suc h)) index)) [
      | inr reached ↦ rw reached (record {
        grown = record { low = omega arith; high = omega arith; shape = o };
        same = λ j. refl;
        reaches = λ _. limit_reached h index b reached;
        ends = inl refl;
      })
      | inl short ↦
          let b' = room_left h index b i short in
          elim (Bool-cases (count_of n == 0)) [
            | inl free ↦
                rw (short, free)
                  (Grows-from (λ j. lookup-taller n h j b' o (ground arith))
                    (expand-Grows levels index (suc h) n mem (omega arith) b' i
                      (empty-IsNode h (suc h) n o (ground arith))))
            | inr full ↦ elim (Bool-cases (malloc mem).0) [
              | inl got ↦
                  rw (short, full, got)
                    (Grows-from (λ j. lookup-new_level n h j b')
                      (expand-Grows levels index (suc h) _ (malloc mem).1 (omega arith) b' i
                        (new_level-IsNode n h o (ground arith))))
              | inr failed ↦
                  rw (short, full, failed)
                    (record {
                      grown = record { low = omega arith; high = omega arith; shape = o };
                      same = λ j. refl;
                      reaches = λ e. cc;
                      ends = inr (refl, ground arith);
                    })
            ]
          ]
    ]

-- With no failing allocation ahead the loop succeeds.
pub expand-ample :
    (levels index h : ℕ) (n : Slot)
    → levels + suc h ≡ 11
    → h < 10
    → index < 2 ^ 60
    → ((expand levels index (tree n h) []).code ≡ success)
      × ((expand levels index (tree n h) []).mem ≡ [])
unfolding expand
expand-ample zero index h n l b i = absurd (omega arith)
expand-ample (suc levels) index h n l b i = ground (
  arith,
  room_left h index b i,
  expand-ample levels index (suc h) n (omega arith),
  expand-ample levels index (suc h) (new_level (tree n h)).rnode (omega arith),
)
