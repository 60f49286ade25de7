-- ===== src/Radix/Tree.antt =====
-- kernel/linux_radix.h and the lookups and deletions of kernel/linux_radix.c.
use webcamd.Prelude.{
  ℕ, zero, suc, ◌+◌, ◌-◌, ◌*◌, ◌/◌, ◌%◌, ◌^◌, Bool, true, false, ltb, ◌==◌, if◌then◌else◌, Option,
  none, some, List, [], ◌∷◌,
}

-- `void *slots[]` holds NULL, a child node, or, at the lowest level, an item. An index into
-- `slots` is always masked below `map_size`, so the array is a function.
pub data Slot : Type 0 where
  null : Slot
  item : (pointer : ℕ) → Slot
  node : (count : ℕ) (slots : ℕ → Slot) → Slot

-- `gfp_mask` is left out: no function of the tree reads it.
pub record Root : Type 0 where
  pub rnode : Slot
  pub height : ℕ

abbrev pub map_shift : ℕ
map_shift = 6

abbrev pub map_size : ℕ
map_size = 64

-- howmany(sizeof(long) * 8, RADIX_TREE_MAP_SHIFT)
abbrev pub max_height : ℕ
max_height = 11

-- Zero, or the negated error number that a function returns.
pub data Code : Type 0 where
  success einval enomem e2big eexist : Code

-- What each further `malloc` answers; from the end of the list on it succeeds.
abbrev pub Mem : Type 0
Mem = List Bool

unfoldable pub malloc : Mem → Bool × Mem
malloc [] = (true, [])
malloc (b ∷ m) = (b, m)

-- `1UL << n`, with the count taken modulo 64 as the 64-bit shift instructions do. C leaves the
-- value open from 64 on, which `radix_max` reaches at height 11.
abbrev pub one_shl : ℕ → ℕ
one_shl n = 2 ^ (n % 64)

unfoldable pub radix_max : ℕ → ℕ
radix_max height = one_shl (height * map_shift) - 1

-- `id` is a signed long there: the shift brings copies of the sign bit in, and the mask keeps six
-- bits of the result.
unfoldable pub sign_extend : ℕ → ℕ
sign_extend id = if ltb id (2 ^ 63) then id else id + 63 * 2 ^ 64

unfoldable pub radix_pos : ℕ → ℕ → ℕ
radix_pos id height = sign_extend id / 2 ^ (map_shift * height) % map_size

unfoldable pub empty_node : Slot
empty_node = node 0 (λ _. null)

abbrev pub update : (ℕ → Slot) → ℕ → Slot → ℕ → Slot
update slots p v q = if p == q then v else slots q

abbrev pub is_null : Slot → Bool
is_null null = true
is_null _ = false

abbrev pub count_of : Slot → ℕ
count_of (node c s) = c
count_of _ = 0

-- `node->slots[p]`. Of what is no node there is no slot; well-formed trees never ask.
abbrev pub child : Slot → ℕ → Slot
child (node c s) p = s p
child _ p = null

-- `node->slots[p] = v`, and the same with `node->count++`.
abbrev pub set_slot : Slot → ℕ → Slot → Slot
set_slot (node c s) p v = node c (update s p v)
set_slot n p v = n

abbrev pub add_slot : Slot → ℕ → Slot → Slot
add_slot (node c s) p v = node (c + 1) (update s p v)
add_slot n p v = n

abbrev pub item_of : Slot → Option ℕ
item_of (item x) = some x
item_of _ = none

unfoldable pub clean_root_node : Root → Root
clean_root_node r = if count_of r.rnode == 0 then record { rnode = null; height = 0 } else r

-- `root->height - 1`. For an empty tree C has -1 there, with a NULL root below which no level is read.
abbrev pub top_level : ℕ → ℕ
top_level zero = 0
top_level (suc h) = h

-- `while (height && node) node = node->slots[radix_pos(index, height--)];`
unfoldable pub walk : ℕ → ℕ → Slot → Slot
walk index zero n = n
walk index (suc h) n = walk index h (child n (radix_pos index (suc h)))

abbrev pub find : ℕ → ℕ → Slot → Slot
find index h n = child (walk index h n) (radix_pos index 0)

-- radix_tree_lookup
unfoldable pub lookup : Root → ℕ → Option ℕ
unfolding walk
lookup r index =
    if ltb (radix_max r.height) index
    then none
    else item_of (find index (top_level r.height) r.rnode)

-- `slots[p] = NULL; count--`, and the node is freed when that leaves it empty.
abbrev pub drop_slot : ℕ → (ℕ → Slot) → ℕ → Slot
drop_slot c s p = if c - 1 == 0 then null else node (c - 1) (update s p null)

-- One level on the way back up: a freed child leaves its slot, any other stays in place.
abbrev pub back_up : ℕ → (ℕ → Slot) → ℕ → Slot × Option ℕ → Slot × Option ℕ
back_up c s p (n, none) = (node c s, none)
back_up c s p (null, some x) = (drop_slot c s p, some x)
back_up c s p (n, some x) = (node c (update s p n), some x)

abbrev pub take_item : ℕ → (ℕ → Slot) → ℕ → Slot → Slot × Option ℕ
take_item c s p (item x) = (drop_slot c s p, some x)
take_item c s p _ = (node c s, none)

-- The two loops of `radix_tree_delete`: the recursion is the descent, and its return the way back
-- up the recorded stack.
unfoldable pub remove : ℕ → ℕ → Slot → Slot × Option ℕ
remove index zero (node c s) = take_item c s (radix_pos index 0) (s (radix_pos index 0))
remove index zero n = (n, none)
remove index (suc h) (node c s) =
    back_up c s (radix_pos index (suc h)) (remove index h (s (radix_pos index (suc h))))
remove index (suc h) n = (n, none)

abbrev pub removed : Root → Slot × Option ℕ → Root × Option ℕ
removed r (n, none) = (r, none)
removed r (null, some x) = (record { rnode = null; height = 0 }, some x)
removed r (n, some x) = (record r { rnode = n }, some x)

unfoldable pub delete : Root → ℕ → Root × Option ℕ
unfolding remove
delete r index =
    if ltb (radix_max r.height) index
    then (r, none)
    else removed r (remove index (top_level r.height) r.rnode)
