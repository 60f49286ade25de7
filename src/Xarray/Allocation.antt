-- ===== src/Xarray/Allocation.antt =====
-- __xa_alloc and __xa_alloc_cyclic of kernel/linux_xarray.c: which index a new element gets.
use webcamd.Prelude.{
  ℕ, suc, ◌-◌, ◌^◌, ◌≤◌, ◌<◌, ◌≡◌, ◌≢◌, ◌==◌, if◌then◌else◌, Option, none, some, [], arith, refl,
}
use webcamd.Radix.Tree.{Root, Mem, Code, success, enomem, lookup}
use webcamd.Radix.Shape.{IsRoot}
use webcamd.Radix.Insertion.{insert-ample}
use webcamd.Radix.Insert.{insert}
use webcamd.Xarray.Calls.{Xarray, cyclic_loop, alloc_cyclic_unlocked, xa_alloc_cyclic, xa_lock}

abbrev pub Occupied : Root → ℕ → ℕ → Type 0
Occupied r from to = (k : ℕ) → from ≤ k → k < to → lookup r k ≢ none

-- What an allocation may answer. `ample` says that no `malloc` is going to fail.
abbrev pub Allocates : Root → Type 0 → ℕ → ℕ → Root → Option (Code × ℕ) → Type 0
Allocates r ample x mask r' none = ⊥
Allocates r ample x mask r' (some (success, i)) =
    IsRoot r'
    × (i ≤ mask)
    × (lookup r i ≡ none)
    × Occupied r 0 i
    × ((j : ℕ) → lookup r' j ≡ (if i == j then some x else lookup r j))
Allocates r ample x mask r' (some (enomem, i)) =
    IsRoot r' × ((j : ℕ) → lookup r' j ≡ lookup r j) × (ample → Occupied r 0 (suc mask))
Allocates r ample x mask r' (some (code, i)) = ⊥

cyclic_first :
    (fuel x mask : ℕ) (xa : Xarray)
    → (insert xa.root 0 (some x) xa.mem).code ≡ success
    → (cyclic_loop (suc fuel) 0 1 (some x) mask xa).1 ≡ some (success, 0)
unfolding cyclic_loop
cyclic_first fuel x mask xa e = rw e refl

insert_free :
    (r : Root) (i x : ℕ) (mem : Mem)
    → IsRoot r
    → i < 2 ^ 60
    → mem ≡ []
    → lookup r i ≡ none
    → (insert r i (some x) mem).code ≡ success
insert_free r i x mem v b e free = rw e (ground (arith, insert-ample r i x v b, free))

-- The position that the caller of `xa_alloc_cyclic` hands in is not read: as long as index 0 is
-- free and memory is at hand the new element goes to index 0, wherever the last one went.
pub xa_alloc_cyclic_zero :
    (x mask next_index : ℕ) (xa : Xarray)
    → IsRoot xa.root
    → lookup xa.root 0 ≡ none
    → xa.mem ≡ []
    → (xa_alloc_cyclic (some x) mask next_index xa).1 ≡ some (success, 0)
unfolding xa_alloc_cyclic alloc_cyclic_unlocked
xa_alloc_cyclic_zero x mask next_index xa v free ample =
    cyclic_first (2 ^ 33 - 1) x mask (xa_lock xa)
      (insert_free xa.root 0 x xa.mem v (omega arith) ample free)
