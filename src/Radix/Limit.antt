-- ===== src/Radix/Limit.antt =====
-- An index of 2 ^ 60 or more, for which the tree of kernel/linux_radix.c has a level too few.
use webcamd.Prelude.{
  ℕ, zero, suc, ◌+◌, ◌-◌, ◌^◌, ◌≤◌, ◌<◌, ◌≡◌, true, ltb, arith, none, some, [], ℕ_discrete,
}
use webcamd.Radix.Tree.{Slot, e2big, radix_max, max_height, count_of, lookup, clean_root_node}
use webcamd.Radix.Insert.{expand, insert, prepare, alloc_root, new_level, make_path, insert_last}
use webcamd.Radix.Digits.{span-le, radix_max-span}
use webcamd.Radix.Shape.{IsNode}
use webcamd.Radix.Growth.{tree}
use webcamd.Radix.Insertion.{and_then-error}
use webcamd.Radix.Preparation.{node-is_null}

limit_short : (h index : ℕ) → h ≤ 10 → 2 ^ 60 ≤ index → ltb (radix_max (suc h)) index ≡ true
unfolding radix_max
limit_short h index b i = elim (ℕ_discrete h 10) [
  | yes e ↦ rw e (ground arith)
  | no d ↦ ground (arith, radix_max-span (suc h) (omega arith), span-le (suc h) 10 (omega arith))
]

expand-too_big :
    (levels index h : ℕ) (n : Slot)
    → levels + suc h ≡ 11
    → 2 ^ 60 ≤ index
    → 0 < count_of n
    → ((expand levels index (tree n h) []).code ≡ e2big)
      × ((expand levels index (tree n h) []).root.height ≡ 11)
      × (0 < count_of (expand levels index (tree n h) []).root.rnode)
unfolding expand clean_root_node
expand-too_big zero index h n l i full = ground (arith, limit_short h index (omega arith) i)
expand-too_big (suc levels) index h n l i full = ground (
  arith,
  limit_short h index (omega arith) i,
  expand-too_big levels index (suc h) (new_level (tree n h)).rnode (omega arith) i (omega arith),
)

-- A well-formed tree with entries, of at most ten levels, that is asked to take an index of 2 ^ 60 or more while
-- no malloc fails refuses with E2BIG. But it has height 11 then, and its root is not empty, while none
-- of its indices above 3 is found any more: there the shift in `radix_max` runs over.
pub insert-too_big :
    (n : Slot) (h index x : ℕ)
    → IsNode h n
    → 0 < count_of n
    → h < 10
    → 2 ^ 60 ≤ index
    → ((insert (tree n h) index (some x) []).code ≡ e2big)
      × ((insert (tree n h) index (some x) []).root.height ≡ 11)
      × (0 < count_of (insert (tree n h) index (some x) []).root.rnode)
      × ((j : ℕ) → 3 < j → lookup (insert (tree n h) index (some x) []).root j ≡ none)
unfolding insert prepare alloc_root
insert-too_big n h index x o full b i =
    let e = expand-too_big (max_height - suc h) index h n (omega arith) i full in
    let grown = expand (max_height - suc h) index (tree n h) [] in
    let stop = and_then-error grown (make_path index) (λ c. ground (arith, c, e.0)) in
    rw (node-is_null h n o) (
      rw stop (
        rw (and_then-error grown (insert_last index x) (λ c. ground (arith, c, e.0)))
          (e.0, e.1, e.2, λ j b'. unfold lookup radix_max in rw e.1 (ground arith))))
