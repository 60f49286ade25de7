-- ===== src/Examples/RadixTree.antt =====
-- Tests of the radix tree of kernel/linux_radix.c, and its theorems at small trees.
use webcamd.Prelude.{ℕ, ◌^◌, ◌<◌, ◌≡◌, refl, true, false, arith, none, some, [], ◌∷◌}
use webcamd.Radix.Tree.{
  count_of, item, success, e2big, lookup, delete, radix_max, sign_extend, radix_pos, walk, remove,
  malloc, empty_node,
}
use webcamd.Radix.Insert.{
  insert, store, prepare, insert_last, put, link, missing, alloc_levels, alloc_root, expand,
  make_path,
}
use webcamd.Radix.Growth.{tree}
use webcamd.Radix.Preparation.{empty_root}
use webcamd.Radix.Insertion.{Inserts, insert-Inserts}
use webcamd.Radix.Storing.{Stores, store-Stores}
use webcamd.Radix.Deletion.{Deletes, delete-Deletes}
use webcamd.Radix.Iterate.{found, iter_find, restart, iter_loop, iter_fuel, round_up}
use webcamd.Radix.Scanning.{Scans, iter_find-Scans}
use webcamd.Examples.Samples.{two_levels, two_levels-IsRoot, one_level, one_level-IsNode}
use webcamd.Radix.Limit.{insert-too_big}

two_levels_height : (two_levels.height ≡ 2) × (lookup two_levels 70 ≡ some 7)
unfolding insert prepare insert_last put link missing alloc_levels alloc_root expand make_path
    radix_max radix_pos sign_extend walk malloc lookup empty_node
two_levels_height = (refl, refl)

delete_last : delete two_levels 70 ≡ (empty_root, some 7)
unfolding insert prepare insert_last put link missing alloc_levels alloc_root expand make_path
    radix_max radix_pos sign_extend walk malloc delete remove empty_node
delete_last = refl

no_memory : (insert empty_root 70 (some 7) (true ∷ true ∷ false ∷ [])).code ≡ success
unfolding insert prepare insert_last put link missing alloc_levels alloc_root expand make_path
    radix_max radix_pos sign_extend walk malloc empty_node
no_memory = refl

found_next : iter_find two_levels 3 ≡ found 70 (item 7)
unfolding insert prepare insert_last put link missing alloc_levels alloc_root expand make_path
    radix_max radix_pos sign_extend walk malloc iter_find restart iter_loop iter_fuel round_up
    empty_node
found_next = refl

insert-Inserts_example : Inserts two_levels 3 9 (insert two_levels 3 (some 9) (false ∷ []))
insert-Inserts_example = insert-Inserts two_levels 3 9 (false ∷ []) two_levels-IsRoot (omega arith)

store-Stores_example : Stores two_levels 70 9 (store two_levels 70 (some 9) [])
store-Stores_example = store-Stores two_levels 70 9 [] two_levels-IsRoot (omega arith)

delete-Deletes_example : Deletes two_levels 70 (delete two_levels 70)
delete-Deletes_example = delete-Deletes two_levels 70 two_levels-IsRoot

iter_find-Scans_example : Scans two_levels 3 (iter_find two_levels 3)
iter_find-Scans_example = iter_find-Scans two_levels 3 two_levels-IsRoot

insert-too_big_example :
    ((insert (tree one_level 0) (2 ^ 60) (some 9) []).code ≡ e2big)
    × ((insert (tree one_level 0) (2 ^ 60) (some 9) []).root.height ≡ 11)
    × (0 < count_of (insert (tree one_level 0) (2 ^ 60) (some 9) []).root.rnode)
    × ((j : ℕ) → 3 < j → lookup (insert (tree one_level 0) (2 ^ 60) (some 9) []).root j ≡ none)
insert-too_big_example =
    insert-too_big one_level 0 (2 ^ 60) 9 one_level-IsNode (omega arith) (omega arith) (omega arith)
