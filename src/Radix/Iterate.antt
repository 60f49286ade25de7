-- ===== src/Radix/Iterate.antt =====
-- radix_tree_iter_find and radix_tree_iter_delete of kernel/linux_radix.c.
use webcamd.Prelude.{ℕ, zero, suc, ◌+◌, ◌*◌, ◌/◌, ◌%◌, ◌^◌, ltb, ◌==◌, if◌then◌else◌}
use webcamd.Radix.Tree.{
  Slot, Root, map_size, map_shift, radix_max, radix_pos, is_null, child, delete,
}

-- What `radix_tree_iter_find` answers: the new `iter->index` with the content of the slot, or
-- false. `stuck` is no answer of the code: the fuel ran out.
pub data Scan : Type 0 where
  found : (index : ℕ) (slot : Slot) → Scan
  not_found stuck : Scan

-- `1UL << (RADIX_TREE_MAP_SHIFT * height)`
abbrev pub step_at : ℕ → ℕ
step_at height = 2 ^ (map_shift * height)

-- `index += step; index &= -step;`
unfoldable pub round_up : ℕ → ℕ → ℕ
round_up index height = (index + step_at height) % 2 ^ 64 / step_at height * step_at height

-- `index & mask`, as the digit that `mask` selects
abbrev pub masked_digit : ℕ → ℕ → ℕ
masked_digit index height = index / step_at height % map_size

-- From the label `restart` to the loop.
unfoldable pub restart : (ℕ → Slot → ℕ → Scan) → Root → ℕ → Scan
restart loop r index = elim r.height [
  | zero ↦ not_found
  | suc h ↦
      if is_null r.rnode
      then not_found
      else if ltb (radix_max (suc h)) index
      then not_found
      else loop index r.rnode h
]

-- The rounds of `do ... while (height != -1)`.
unfoldable pub iter_loop : ℕ → Root → ℕ → Slot → ℕ → Scan
unfolding restart round_up
iter_loop zero r index n h = stuck
iter_loop (suc fuel) r index n h =
    let next = child n (radix_pos index h) in
    let index' = round_up index h in
    let again = restart (iter_loop fuel r) r index' in
    let along = iter_loop fuel r index' n h in
    let down : Scan = elim h [ zero ↦ found index next | suc k ↦ iter_loop fuel r index next k ] in
    if is_null next then if masked_digit index' h == 0 then again else along else down

-- More rounds than there are indices and levels.
unfoldable pub iter_fuel : ℕ
iter_fuel = 2 ^ 64

unfoldable pub iter_find : Root → ℕ → Scan
iter_find r index = restart (iter_loop iter_fuel r) r index

unfoldable pub iter_delete : Root → ℕ → Root
iter_delete r index = (delete r index).0
