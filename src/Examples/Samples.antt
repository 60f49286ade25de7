-- ===== src/Examples/Samples.antt =====
-- Small radix trees (kernel/linux_radix.c) that the examples share.
use webcamd.Prelude.{ℕ, zero, refl, ◌==◌, inl, inr, arith, some, [], Bool-cases}
use webcamd.Radix.Tree.{Root, Slot, node, item, null, update}
use webcamd.Radix.Insert.{insert}
use webcamd.Radix.Shape.{IsNode, IsRoot, IsLeaf, used}
use webcamd.Radix.Preparation.{empty_root}
use webcamd.Radix.Insertion.{insert-Inserts}

-- The item 7 at index 70, in a tree of two levels.
abbrev pub two_levels : Root
two_levels = (insert empty_root 70 (some 7) []).root

pub two_levels-IsRoot : IsRoot two_levels
two_levels-IsRoot = (insert-Inserts empty_root 70 7 [] (inl (refl, refl)) (omega arith)).root

-- One node with the item 7 in slot 5.
abbrev pub one_level : Slot
one_level = node 1 (update (λ _. null) 5 (item 7))

pub one_level-IsNode : IsNode zero one_level
unfolding used
one_level-IsNode = (refl, λ p b. leaf p)
  where
    leaf : (p : ℕ) → IsLeaf (update (λ _. null) 5 (item 7) p)
    leaf p = elim (Bool-cases (5 == p)) [ inl e ↦ rw e tt | inr e ↦ rw e tt ]
