-- ===== src/Xarray/Walks.antt =====
-- xa_destroy, xa_empty, xa_next and xa_for_each of kernel/linux_xarray.c and
-- kernel/linux_xarray.h: the functions that walk an array.
use webcamd.Prelude.{
  ℕ, zero, suc, ◌+◌, ◌^◌, ◌%◌, ◌≤◌, ◌<◌, ◌≡◌, ◌≢◌, Bool, true, false, ◌==◌, Option, none, some,
  List, [], ◌∷◌, arith, refl, inl, inr, dec_lt, ◌⊎◌,
}
use mathlib.Core.Option
use webcamd.Radix.Tree.{Root, lookup, item_of}
use webcamd.Radix.Shape.{IsRoot}
use webcamd.Radix.Digits.{span-le}
use webcamd.Radix.Growth.{lookup-tree}
use webcamd.Radix.Preparation.{Root-elim, lookup_empty}
use webcamd.Radix.Deletion.{delete-Deletes}
use webcamd.Radix.Iterate.{Scan, found, not_found, stuck, iter_find, iter_delete}
use webcamd.Radix.Scanning.{Clear, Scans, iter_find-Scans}
use webcamd.Xarray.Calls.{
  Xarray, destroy_round, destroy_loop, walk_fuel, xa_destroy, nothing_found, xa_empty,
  empty_unlocked, next_entry, xa_next, next_unlocked, visit_round, visit_loop, xa_for_each, xa_lock,
}

-- No index of 2 ^ 60 or more holds anything.
lookup-small : (r : Root) (j : ℕ) → IsRoot r → lookup r j ≢ none → j < 2 ^ 60
lookup-small r j v =
    Root-elim (λ r. lookup r j ≢ none → j < 2 ^ 60) r v (λ d. absurd (d (lookup_empty j)))
      λ n h b o full d. ground (arith, lookup-tree n h j b, span-le (suc h) 10 (omega arith))

abbrev pub IsCleared : Option Root → Type 0
IsCleared none = ⊥
IsCleared (some r) = IsRoot r × ((j : ℕ) → lookup r j ≡ none)

destroy_round-IsCleared :
    (r : Root) (index : ℕ) (s : Scan) (rest : ℕ → Root → Option Root)
    → IsRoot r
    → Clear r 0 index
    → Scans r index s
    → ((j : ℕ) (r' : Root)
        → index ≤ j
        → j < 2 ^ 60
        → IsRoot r'
        → Clear r' 0 (j + 1)
        → IsCleared (rest (j + 1) r'))
    → IsCleared (destroy_round s rest r)
unfolding iter_delete
destroy_round-IsCleared r index (found j slot) rest v clear (le, e, d, between) go =
    rw (next j (lookup-small r j v d)) (
      go j _ le (lookup-small r j v d) (delete-Deletes r j v).root
        λ k g l. ground (arith, (delete-Deletes r j v).entries k, clear k g, between k))
  where
    next : (j : ℕ) → j < 2 ^ 60 → (j + 1) % 2 ^ 64 ≡ j + 1
    next j b = omega arith
destroy_round-IsCleared r index not_found rest v clear s go =
    (v, λ j. elim (dec_lt j index) [ yes l ↦ clear j (omega arith) l | no g ↦ s j (omega arith) ])
destroy_round-IsCleared r index stuck rest v clear s go = s

destroy_loop-IsCleared :
    (fuel index : ℕ) (r : Root)
    → index ≤ 2 ^ 60
    → 2 ^ 60 < index + fuel
    → IsRoot r
    → Clear r 0 index
    → IsCleared (destroy_loop fuel index r)
unfolding destroy_loop
destroy_loop-IsCleared zero index r le f v clear = absurd (omega arith)
destroy_loop-IsCleared (suc fuel) index r le f v clear =
    destroy_round-IsCleared r index _ _ v clear (iter_find-Scans r index v)
      λ j r' g b v' c. destroy_loop-IsCleared fuel (j + 1) r' (omega arith) (omega arith) v' c

-- Destroying an array ends, and leaves a well-formed tree in which no index holds anything.
pub xa_destroy-IsCleared : (r : Root) → IsRoot r → IsCleared (xa_destroy r)
unfolding xa_destroy walk_fuel
xa_destroy-IsCleared r v =
    destroy_loop-IsCleared (2 ^ 61) 0 r (omega arith) (omega arith) v
      (λ k g l. absurd (omega arith))

nothing_found-cases :
    (r : Root) (s : Scan)
    → Scans r 0 s
    → ((nothing_found s ≡ some true) × ((j : ℕ) → lookup r j ≡ none))
      ⊎ ((nothing_found s ≡ some false) × (j : ℕ) × (lookup r j ≢ none))
nothing_found-cases r (found j slot) v = inr (refl, j, v.2)
nothing_found-cases r not_found v = inl (refl, λ j. v j (omega arith))
nothing_found-cases r stuck v = absurd v

-- `xa_empty` always answers: true if no index holds an element, false if one does.
pub xa_empty_cases :
    (xa : Xarray)
    → IsRoot xa.root
    → (((xa_empty xa).1 ≡ some true) × ((j : ℕ) → lookup xa.root j ≡ none))
      ⊎ (((xa_empty xa).1 ≡ some false) × (j : ℕ) × (lookup xa.root j ≢ none))
unfolding xa_empty empty_unlocked
xa_empty_cases xa v = nothing_found-cases xa.root _ (iter_find-Scans xa.root 0 v)

-- The entries from an index on, each once and in ascending order.
abbrev pub Lists : Root → ℕ → List (ℕ × ℕ) → Type 0
Lists r from [] = (j : ℕ) → from ≤ j → lookup r j ≡ none
Lists r from ((j, x) ∷ rest) =
    (from ≤ j) × (lookup r j ≡ some x) × Clear r from j × Lists r (j + 1) rest

abbrev pub IsListed : Root → ℕ → Option (List (ℕ × ℕ)) → Type 0
IsListed r from none = ⊥
IsListed r from (some xs) = Lists r from xs

visit_more :
    (r : Root) (from j x : ℕ) (rest : Option (List (ℕ × ℕ)))
    → from ≤ j
    → lookup r j ≡ some x
    → Clear r from j
    → IsListed r (j + 1) rest
    → IsListed r from (Option.map (λ xs. (j, x) ∷ xs) rest)
visit_more r from j x none le e c v = v
visit_more r from j x (some xs) le e c v = (le, e, c, v)

visit_found :
    (r : Root) (from j : ℕ) (entry : Option ℕ) (rest : ℕ → Option (List (ℕ × ℕ)))
    → from ≤ j
    → lookup r j ≡ entry
    → lookup r j ≢ none
    → Clear r from j
    → IsListed r (j + 1) (rest j)
    → IsListed r from (visit_round (some (entry, j)) rest)
visit_found r from j none rest le e d c v = absurd (d e)
visit_found r from j (some x) rest le e d c v = visit_more r from j x (rest j) le e c v

visit_round-IsListed :
    (r : Root) (from index : ℕ) (s : Scan) (rest : ℕ → Option (List (ℕ × ℕ)))
    → Scans r from s
    → ((j : ℕ) → from ≤ j → lookup r j ≢ none → IsListed r (j + 1) (rest j))
    → IsListed r from (visit_round (next_entry index s) rest)
visit_round-IsListed r from index (found j slot) rest (le, e, d, c) go =
    visit_found r from j (item_of slot) rest le e d c (go j le d)
visit_round-IsListed r from index not_found rest s go = s
visit_round-IsListed r from index stuck rest s go = s

-- The first index that a call of `xa_next` may answer.
abbrev first_index : Bool → ℕ → ℕ
first_index true index = index + 1
first_index false index = index

xa_next_lem :
    (index : ℕ) (not_first : Bool) (xa : Xarray)
    → index < 2 ^ 60
    → (xa_next index not_first xa).1
      ≡ next_entry index (iter_find xa.root (first_index not_first index))
unfolding xa_next next_unlocked xa_lock
xa_next_lem index false xa b = refl
xa_next_lem index true xa b = rw (small, positive)
  where
    small : (index + 1) % 2 ^ 64 ≡ index + 1
    small = omega arith

    positive : (index + 1 == 0) ≡ false
    positive = ground arith

visit_loop-IsListed :
    (fuel : ℕ) (xa : Xarray) (not_first : Bool) (index : ℕ)
    → IsRoot xa.root
    → index < 2 ^ 60
    → 2 ^ 60 < first_index not_first index + fuel
    → IsListed xa.root (first_index not_first index) (visit_loop fuel xa not_first index)
unfolding visit_loop
visit_loop-IsListed zero xa not_first index v b f = absurd (ground (arith, f))
visit_loop-IsListed (suc fuel) xa not_first index v b f = rw (xa_next_lem index not_first xa b) (
    visit_round-IsListed xa.root (first_index not_first index) index _ (visit_loop fuel xa true)
      (iter_find-Scans xa.root (first_index not_first index) v)
      λ j le d. visit_loop-IsListed fuel xa true j v (lookup-small xa.root j v d) (omega arith))

-- `xa_for_each` ends, and its body sees every entry once, in ascending order of the indices, and
-- nothing else.
pub xa_for_each-IsListed : (xa : Xarray) → IsRoot xa.root → IsListed xa.root 0 (xa_for_each xa)
unfolding xa_for_each walk_fuel
xa_for_each-IsListed xa v = visit_loop-IsListed (2 ^ 61) xa false 0 v (omega arith) (omega arith)
