-- ===== src/Xarray/Calls.antt =====
-- The functions of kernel/linux_xarray.c. The lock is the recursive one of `atomic_lock`.
use webcamd.Prelude.{
  ℕ, zero, suc, ◌+◌, ◌-◌, ◌^◌, ◌%◌, Bool, true, false, ◌==◌, ◌&&◌, if◌then◌else◌, Option, none,
  some, bit_and, List, [], ◌∷◌,
}
use mathlib.Core.Option
use webcamd.Radix.Tree.{null, Root, Code, success, enomem, eexist, Mem, lookup, delete, item_of}
use webcamd.Radix.Insert.{Outcome, insert, store}
use webcamd.Radix.Iterate.{Scan, found, not_found, stuck, iter_find, iter_delete}

-- The array, with the allocator and how often the lock is held around it.
pub record Xarray : Type 0 where
  pub root : Root
  pub mem : Mem
  pub locks : ℕ

unfoldable pub xa_lock : Xarray → Xarray
xa_lock xa = record xa { locks = xa.locks + 1 }

unfoldable pub xa_unlock : Xarray → Xarray
xa_unlock xa = record xa { locks = xa.locks - 1 }

-- `xa_lock(xa); retval = ...; xa_unlock(xa); return (retval);`
abbrev pub locked {ℓ} : {A : Type ℓ} → (Xarray → Xarray × A) → Xarray → Xarray × A
locked f xa = let (xa', a) = f (xa_lock xa) in (xa_unlock xa', a)

abbrev pub after : Xarray → Outcome → Xarray
after xa o = record xa { root = o.root; mem = o.mem }

-- The `uint32_t` that an index is passed as.
unfoldable pub index32 : ℕ → ℕ
index32 index = index % 2 ^ 32

unfoldable pub erase_unlocked : ℕ → Xarray → Xarray × Option ℕ
unfolding index32
erase_unlocked index xa =
    let (r, old) = delete xa.root (index32 index) in (record xa { root = r }, old)

unfoldable pub xa_erase : ℕ → Xarray → Xarray × Option ℕ
unfolding erase_unlocked xa_lock xa_unlock
xa_erase index = locked (erase_unlocked index)

unfoldable pub xa_load : ℕ → Xarray → Xarray × Option ℕ
unfolding xa_lock xa_unlock index32
xa_load index = locked (λ xa. (xa, lookup xa.root (index32 index)))

-- The `switch` of `__xa_alloc`, with the further rounds that `goto retry` would make.
abbrev pub alloc_switch :
    Code → ℕ → ℕ → Xarray → Xarray × Option (Code × ℕ) → Xarray × Option (Code × ℕ)
alloc_switch eexist index mask xa retry =
    if index == mask then (xa, some (enomem, index)) else retry
alloc_switch code index mask xa retry = (xa, some (code, index))

-- `retry:` of `__xa_alloc`; the answer is the code with the last `*pindex`, and `none` says that
-- the rounds ran out.
unfoldable pub alloc_loop : ℕ → ℕ → Option ℕ → ℕ → Xarray → Xarray × Option (Code × ℕ)
alloc_loop zero index ptr mask xa = (xa, none)
alloc_loop (suc fuel) index ptr mask xa =
    let o = insert xa.root index ptr xa.mem in
    let retry = alloc_loop fuel ((index + 1) % 2 ^ 32) ptr mask (after xa o) in
    alloc_switch o.code index mask (after xa o) retry

-- There are `mask + 1` indices to try.
unfoldable pub alloc_unlocked : Option ℕ → ℕ → Xarray → Xarray × Option (Code × ℕ)
alloc_unlocked ptr mask xa = alloc_loop (suc mask) 0 ptr mask xa

unfoldable pub xa_alloc : Option ℕ → ℕ → Xarray → Xarray × Option (Code × ℕ)
unfolding xa_lock xa_unlock
xa_alloc ptr mask = locked (alloc_unlocked ptr mask)

-- The `switch` of `__xa_alloc_cyclic`.
abbrev pub cyclic_switch :
    Code → ℕ → ℕ → ℕ → Xarray → Xarray × Option (Code × ℕ) → Xarray × Option (Code × ℕ)
cyclic_switch eexist next timeout mask xa retry =
    if next == mask && timeout == 0 then (xa, some (enomem, next)) else retry
cyclic_switch code next timeout mask xa retry = (xa, some (code, next))

-- `retry:` of `__xa_alloc_cyclic`, over `*pnext_index` and `timeout`.
unfoldable pub cyclic_loop : ℕ → ℕ → ℕ → Option ℕ → ℕ → Xarray → Xarray × Option (Code × ℕ)
cyclic_loop zero next timeout ptr mask xa = (xa, none)
cyclic_loop (suc fuel) next timeout ptr mask xa =
    let o = insert xa.root next ptr xa.mem in
    let next' = bit_and ((next + 1) % 2 ^ 32) mask in
    let timeout' = if next == mask then timeout - 1 else timeout in
    let retry = cyclic_loop fuel next' timeout' ptr mask (after xa o) in
    cyclic_switch o.code next timeout mask (after xa o) retry

-- `*pnext_index = 0` comes first, so the caller's position is not read. The answer is both
-- `*pindex` and `*pnext_index`.
unfoldable pub alloc_cyclic_unlocked : Option ℕ → ℕ → ℕ → Xarray → Xarray × Option (Code × ℕ)
alloc_cyclic_unlocked ptr mask next_index xa = cyclic_loop (2 ^ 33) 0 1 ptr mask xa

unfoldable pub xa_alloc_cyclic : Option ℕ → ℕ → ℕ → Xarray → Xarray × Option (Code × ℕ)
unfolding xa_lock xa_unlock
xa_alloc_cyclic ptr mask next_index = locked (alloc_cyclic_unlocked ptr mask next_index)

unfoldable pub insert_unlocked : ℕ → Option ℕ → Xarray → Xarray × Code
unfolding index32
insert_unlocked index ptr xa =
    let o = insert xa.root (index32 index) ptr xa.mem in (after xa o, o.code)

unfoldable pub xa_insert : ℕ → Option ℕ → Xarray → Xarray × Code
unfolding insert_unlocked xa_lock xa_unlock
xa_insert index ptr = locked (insert_unlocked index ptr)

-- The pointer that `xa_store` returns: the old element, or `XA_ERROR(retval)`.
pub data Pointer : Type 0 where
  element : Option ℕ → Pointer
  xa_error : Code → Pointer

abbrev pub stored : Code → Option ℕ → Pointer
stored success ptr = element ptr
stored code ptr = xa_error code

unfoldable pub store_unlocked : ℕ → Option ℕ → Xarray → Xarray × Pointer
unfolding index32
store_unlocked index ptr xa =
    let (o, old) = store xa.root (index32 index) ptr xa.mem in (after xa o, stored o.code old)

unfoldable pub xa_store : ℕ → Option ℕ → Xarray → Xarray × Pointer
unfolding store_unlocked xa_lock xa_unlock
xa_store index ptr = locked (store_unlocked index ptr)

unfoldable pub xa_init_flags : Mem → Xarray
xa_init_flags mem = record { root = record { rnode = null; height = 0 }; mem = mem; locks = 0 }

-- `radix_tree_for_each_slot` with `radix_tree_iter_delete` as its body: one round, given what the
-- search found. `none` says that the rounds ran out.
abbrev pub destroy_round : Scan → (ℕ → Root → Option Root) → Root → Option Root
destroy_round (found j slot) rest r = rest ((j + 1) % 2 ^ 64) (iter_delete r j)
destroy_round not_found rest r = some r
destroy_round stuck rest r = none

unfoldable pub destroy_loop : ℕ → ℕ → Root → Option Root
destroy_loop zero index r = none
destroy_loop (suc fuel) index r = destroy_round (iter_find r index) (destroy_loop fuel) r

-- More rounds than a tree has indices.
unfoldable pub walk_fuel : ℕ
walk_fuel = 2 ^ 61

unfoldable pub xa_destroy : Root → Option Root
xa_destroy r = destroy_loop walk_fuel 0 r

-- `!radix_tree_iter_find(...)`; `none` says that the search did not end.
abbrev pub nothing_found : Scan → Option Bool
nothing_found (found j slot) = some false
nothing_found not_found = some true
nothing_found stuck = none

unfoldable pub empty_unlocked : Xarray → Xarray × Option Bool
empty_unlocked xa = (xa, nothing_found (iter_find xa.root 0))

unfoldable pub xa_empty : Xarray → Xarray × Option Bool
unfolding empty_unlocked xa_lock xa_unlock
xa_empty = locked empty_unlocked

-- The entry that `__xa_next` returns, NULL for none, with `*pindex` after the call.
abbrev pub next_entry : ℕ → Scan → Option (Option ℕ × ℕ)
next_entry index (found j slot) = some (item_of slot, j)
next_entry index not_found = some (none, index)
next_entry index stuck = none

unfoldable pub next_unlocked : ℕ → Bool → Xarray → Xarray × Option (Option ℕ × ℕ)
next_unlocked index not_first xa =
    let from = if not_first then (index + 1) % 2 ^ 64 else index in
    if not_first && from == 0
    then (xa, some (none, index))
    else (xa, next_entry index (iter_find xa.root from))

unfoldable pub xa_next : ℕ → Bool → Xarray → Xarray × Option (Option ℕ × ℕ)
unfolding next_unlocked xa_lock xa_unlock
xa_next index not_first = locked (next_unlocked index not_first)

-- `xa_for_each`: the entries that the body of the loop sees, with their indices.
abbrev pub visit_round : Option (Option ℕ × ℕ) → (ℕ → Option (List (ℕ × ℕ))) → Option (List (ℕ × ℕ))
visit_round none rest = none
visit_round (some (none, index)) rest = some []
visit_round (some (some x, index)) rest = Option.map (λ xs. (index, x) ∷ xs) (rest index)

unfoldable pub visit_loop : ℕ → Xarray → Bool → ℕ → Option (List (ℕ × ℕ))
visit_loop zero xa not_first index = none
visit_loop (suc fuel) xa not_first index =
    visit_round (xa_next index not_first xa).1 (visit_loop fuel xa true)

unfoldable pub xa_for_each : Xarray → Option (List (ℕ × ℕ))
xa_for_each xa = visit_loop walk_fuel xa false 0
