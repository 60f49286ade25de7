-- ===== src/Radix/Insert.antt =====
-- radix_tree_insert and radix_tree_store of kernel/linux_radix.c, which share all but their ends.
use webcamd.Prelude.{
  ℕ, zero, suc, ◌-◌, Bool, true, false, ltb, ◌==◌, if◌then◌else◌, Option, none, some,
}
use webcamd.Radix.Tree.{
  Slot, null, item, node, Root, Code, success, einval, enomem, e2big, eexist, Mem, malloc,
  max_height, radix_max, radix_pos, empty_node, update, is_null, count_of, child, set_slot,
  add_slot, item_of, clean_root_node, find, top_level, delete,
}

-- What a step leaves: its code, the tree, and the answers that `malloc` has left.
pub record Outcome : Type 0 where
  pub code : Code
  pub root : Root
  pub mem : Mem

-- Allocate the root node of an empty tree.
unfoldable pub alloc_root : Root → Mem → Outcome
unfolding malloc
alloc_root r mem =
    let (got, mem') = malloc mem in
    if is_null r.rnode
    then if got
      then record {
        code = success;
        root = record { rnode = empty_node; height = suc r.height };
        mem = mem';
      }
      else record { code = enomem; root = r; mem = mem' }
    else record { code = success; root = r; mem = mem }

-- `root->height++`, and below a tree that is not empty a new root node for it.
abbrev pub taller : Root → Root
taller r = record r { height = suc r.height }

abbrev pub new_level : Root → Root
new_level r = record { rnode = node 1 (update (λ _. null) 0 r.rnode); height = suc r.height }

-- `while (radix_max(root) < index)`. The first argument is RADIX_TREE_MAX_HEIGHT - root->height.
unfoldable pub expand : ℕ → ℕ → Root → Mem → Outcome
unfolding malloc
expand zero index r mem =
    if ltb (radix_max r.height) index
    then record { code = e2big; root = clean_root_node r; mem = mem }
    else record { code = success; root = r; mem = mem }
expand (suc levels) index r mem =
    let on_empty = expand levels index (taller r) mem in
    let (got, mem') = malloc mem in
    let on_full = expand levels index (new_level r) mem' in
    let no_memory : Outcome = record { code = enomem; root = r; mem = mem' } in
    if ltb (radix_max r.height) index
    then if count_of r.rnode == 0 then on_empty else if got then on_full else no_memory
    else record { code = success; root = r; mem = mem }

-- The height at which the walk down meets the first missing node, 0 if none is missing.
unfoldable pub missing : ℕ → ℕ → Slot → ℕ
missing index zero n = 0
missing index (suc h) n =
    let deeper = missing index h (child n (radix_pos index (suc h))) in
    if is_null (child n (radix_pos index (suc h))) then suc h else deeper

-- `for (idx = 0; idx != height; idx++) temp[idx] = malloc(...)`
unfoldable pub alloc_levels : ℕ → Mem → Bool × Mem
unfolding malloc
alloc_levels zero mem = (true, mem)
alloc_levels (suc n) mem =
    let (got, mem') = malloc mem in
    let rest = alloc_levels n mem' in if got then rest else (false, mem')

-- Link the allocated levels in, along the path of `index`.
unfoldable pub link : ℕ → ℕ → Slot → Slot
link index zero n = n
link index (suc h) n =
    let p = radix_pos index (suc h) in
    let fresh = link index h empty_node in
    let deeper = link index h (child n p) in
    if is_null (child n p) then add_slot n p fresh else set_slot n p deeper

-- `node->slots[idx] = item` at the end of the path, counted if `count` says so.
unfoldable pub put : ℕ → ℕ → Bool → ℕ → Slot → Slot
put index zero count x n =
    if count
    then add_slot n (radix_pos index 0) (item x)
    else set_slot n (radix_pos index 0) (item x)
put index (suc h) count x n =
    let p = radix_pos index (suc h) in set_slot n p (put index h count x (child n p))

-- The walk, the allocation of the missing levels and their linking.
unfoldable pub make_path : ℕ → Root → Mem → Outcome
make_path index r mem =
    let (got, mem') = alloc_levels (missing index (top_level r.height) r.rnode) mem in
    if got
    then record {
      code = success;
      root = record r { rnode = link index (top_level r.height) r.rnode };
      mem = mem';
    }
    else record { code = enomem; root = clean_root_node r; mem = mem' }

-- Go on with the next part after success; an error is returned as it is.
abbrev pub on_code : Code → Outcome → (Root → Mem → Outcome) → Outcome
on_code success o f = f o.root o.mem
on_code _ o f = o

abbrev pub and_then : Outcome → (Root → Mem → Outcome) → Outcome
and_then o f = on_code o.code o f

-- What both functions do before their last step.
unfoldable pub prepare : ℕ → Root → Mem → Outcome
prepare index r mem = and_then (alloc_root r mem) λ r₁ mem₁.
    and_then (expand (max_height - r₁.height) index r₁ mem₁) λ r₂ mem₂. make_path index r₂ mem₂

-- `if (node->slots[idx]) return (-EEXIST);` and the insertion.
unfoldable pub insert_last : ℕ → ℕ → Root → Mem → Outcome
insert_last index x r mem =
    if is_null (find index (top_level r.height) r.rnode)
    then record {
      code = success;
      root = record r { rnode = put index (top_level r.height) true x r.rnode };
      mem = mem;
    }
    else record { code = eexist; root = r; mem = mem }

unfoldable pub insert : Root → ℕ → Option ℕ → Mem → Outcome
insert r index none mem = record { code = einval; root = r; mem = mem }
insert r index (some x) mem = and_then (prepare index r mem) (insert_last index x)

-- `*ppitem` after the call stands beside the outcome.
abbrev pub swap_last : ℕ → ℕ → Root → Mem → Outcome × Option ℕ
swap_last index x r mem =
    let old = find index (top_level r.height) r.rnode in
    (
      record {
        code = success;
        root = record r { rnode = put index (top_level r.height) (is_null old) x r.rnode };
        mem = mem;
      },
      item_of old,
    )

abbrev pub store_rest : Code → ℕ → ℕ → Outcome → Outcome × Option ℕ
store_rest success index x o = swap_last index x o.root o.mem
store_rest _ index x o = (o, some x)

unfoldable pub store : Root → ℕ → Option ℕ → Mem → Outcome × Option ℕ
store r index none mem =
    let (r', old) = delete r index in (record { code = success; root = r'; mem = mem }, old)
store r index (some x) mem = let o = prepare index r mem in store_rest o.code index x o
