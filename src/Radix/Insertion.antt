-- ===== src/Radix/Insertion.antt =====
-- What radix_tree_insert of kernel/linux_radix.c do to the entries of a tree.
use webcamd.Prelude.{
  ℕ, zero, suc, ◌-◌, ◌^◌, ◌≤◌, ◌<◌, ◌≡◌, ◌≢◌, refl, Bool, true, false, if◌then◌else◌, ◌⊎◌, inl, inr,
  arith, Bool-cases, Option, none, some, sym, ap, ◌∙◌, ◌==◌, ◌&&◌, subst, [],
}
use webcamd.Radix.Tree.{
  empty_node, max_height, Slot, null, node, item, Root, Mem, Code, success, enomem, eexist, is_null,
  count_of, find, walk, lookup, top_level, item_of,
}
use webcamd.Radix.Insert.{
  alloc_root, alloc_levels, expand, make_path, missing, Outcome, put, prepare, on_code, and_then,
  insert, insert_last,
}
use webcamd.Radix.Digits.{span, same_path-==, radix_pos-lt}
use webcamd.Radix.Shape.{IsNode, IsOpen, IsLeaf, IsRoot}
use webcamd.Radix.Paths.{get-put, find-put, put-IsOpen, close-IsNode}
use webcamd.Radix.Growth.{tree, lookup-tree, expand-ample}
use webcamd.Radix.Preparation.{node-is_null, Root-elim, IsReady, Fails, prepare-Prepared}

abbrev pub is_success : Code → Bool
is_success success = true
is_success _ = false

abbrev pub is_none : Option ℕ → Bool
is_none none = true
is_none (some x) = false

-- The end of a way is a slot of the lowest level.
find-IsLeaf : (i h : ℕ) (n : Slot) → IsOpen i h n → IsLeaf (find i h n)
unfolding walk
find-IsLeaf i zero (node c s) o = o.1 _ (radix_pos-lt i 0)
find-IsLeaf i zero _ o = elim o [ ]
find-IsLeaf i (suc h) (node c s) o = find-IsLeaf i h _ o.2
find-IsLeaf i (suc h) _ o = elim o [ ]

leaf_null : (v : Slot) → IsLeaf v → is_null v ≡ is_none (item_of v)
leaf_null null l = refl
leaf_null (item x) l = refl
leaf_null (node c s) l = elim l [ ]

pub Ready-elim {ℓ} :
    (P : Root → Type ℓ) (index : ℕ) (r s : Root)
    → IsReady index r s
    → ((n : Slot) (h : ℕ)
        → h < 10
        → index < span (suc h)
        → IsOpen index h n
        → ((j : ℕ) → lookup (tree n h) j ≡ lookup r j)
        → P (tree n h))
    → P s
Ready-elim P index r s y f = go s.height s.rnode y.low y.high y.within y.way y.same
  where
    go :
        (h : ℕ) (n : Slot)
        → 0 < h
        → h ≤ 10
        → index < span h
        → IsOpen index (top_level h) n
        → ((j : ℕ) → lookup (record { rnode = n; height = h }) j ≡ lookup r j)
        → P (record { rnode = n; height = h })
    go zero n low high w o e = absurd (omega arith)
    go (suc h) n low high w o e = f n h (omega arith) w o e

-- Whether the slot of the index is free is what the lookup says of the tree before the call.
slot_free :
    (index h : ℕ) (n : Slot) (r : Root)
    → h < 10
    → index < span (suc h)
    → IsOpen index h n
    → ((j : ℕ) → lookup (tree n h) j ≡ lookup r j)
    → is_null (find index h n) ≡ is_none (lookup r index)
slot_free index h n r b w o e =
    leaf_null _ (find-IsLeaf index h n o)
    ∙ ap is_none (ground (arith, e index, lookup-tree n h index b))

-- The tree after the last write.
pub lookup-put :
    (index h : ℕ) (count : Bool) (x : ℕ) (n : Slot) (j : ℕ)
    → h < 10
    → index < span (suc h)
    → IsOpen index h n
    → lookup (tree (put index h count x n) h) j
      ≡ (if index == j then some x else lookup (tree n h) j)
lookup-put index h count x n j b w o = ground (
  arith,
  lookup-tree n h j b,
  lookup-tree (put index h count x n) h j b,
  get-put index j h count x n o,
  same_path-== index j h b w,
)

full_IsRoot : (h : ℕ) (n : Slot) → h < 10 → IsNode h n × (0 < count_of n) → IsRoot (tree n h)
full_IsRoot h n b closed =
    inr (record { low = omega arith; high = omega arith; shape = closed.0 }, closed.1)

pub put-IsRoot :
    (index h x : ℕ) (n : Slot)
    → h < 10
    → IsOpen index h n
    → IsRoot (tree (put index h (is_null (find index h n)) x n) h)
put-IsRoot index h x n b o =
    let closed =
      close-IsNode index h _ (put-IsOpen index h x n o)
        (rw (find-put index h (is_null (find index h n)) x n o) refl) in
    full_IsRoot h _ b closed

-- What an insertion does, on every branch.
pub record Inserts (r : Root) (index x : ℕ) (o : Outcome) : Type 0 where
  pub root : IsRoot o.root
  pub entries :
      (j : ℕ) → lookup o.root j ≡ (if is_success o.code && index == j then some x else lookup r j)
  pub code : (o.code ≡ enomem) ⊎ (o.code ≡ (if is_none (lookup r index) then success else eexist))

insert_last-Inserts :
    (r s : Root) (index x : ℕ) (mem : Mem)
    → IsReady index r s
    → Inserts r index x (insert_last index x s mem)
unfolding insert_last
insert_last-Inserts r s index x mem y =
    Ready-elim (λ s. Inserts r index x (insert_last index x s mem)) index r s y
      λ n h b w o e. elim (Bool-cases (is_null (find index h n))) [
        | inl free ↦ rw free (record {
          root = subst (λ c. IsRoot (tree (put index h c x n) h)) free (put-IsRoot index h x n b o);
          entries = λ j. ground (arith, lookup-put index h true x n j b w o, e j);
          code = inr (rw (sym (slot_free index h n r b w o e) ∙ free) refl);
        })
        | inr taken ↦ rw taken (record {
          root = full_IsRoot h n b (close-IsNode index h n o taken);
          entries = e;
          code = inr (rw (sym (slot_free index h n r b w o e) ∙ taken) refl);
        })
      ]

module _ (o : Outcome) (f : Root → Mem → Outcome) where
  and_then-success : o.code ≡ success → and_then o f ≡ f o.root o.mem
  and_then-success = go o.code
    where
      go : (c : Code) → c ≡ success → on_code c o f ≡ f o.root o.mem
      go success e = refl
      go _ e = absurd (ground (arith, e))

  pub and_then-error : o.code ≢ success → and_then o f ≡ o
  and_then-error = go o.code
    where
      go : (c : Code) → c ≢ success → on_code c o f ≡ o
      go success d = absurd (d refl)
      go _ d = refl

Fails-Inserts : (r : Root) (index x : ℕ) (o : Outcome) → Fails r o → Inserts r index x o
Fails-Inserts r index x o v = record {
  root = v.root;
  entries = λ j. ground (arith, v.same j, v.code);
  code = inl v.code;
}

-- For every index below 2 ^ 60, a well-formed tree stays well-formed under an insertion; the call
-- either runs out of memory, or succeeds exactly if the index had no item, else answers EEXIST;
-- after a success the index holds the item and every other index what it held, and after an error
-- all indices hold what they held.
pub insert-Inserts :
    (r : Root) (index x : ℕ) (mem : Mem)
    → IsRoot r
    → index < 2 ^ 60
    → Inserts r index x (insert r index (some x) mem)
unfolding insert
insert-Inserts r index x mem v i = elim (prepare-Prepared index r mem i v) [
  | inl (c, y) ↦
      rw (and_then-success (prepare index r mem) (insert_last index x) c)
        (insert_last-Inserts r _ index x _ y)
  | inr failed ↦
      rw
        (and_then-error (prepare index r mem) (insert_last index x)
          (λ e. absurd (ground (arith, failed.code, e))))
        (Fails-Inserts r index x _ failed)
]

alloc_levels-ample : (n : ℕ) → alloc_levels n [] ≡ (true, [])
unfolding alloc_levels
alloc_levels-ample zero = refl
alloc_levels-ample (suc n) = alloc_levels-ample n

-- Success, with the allocator still able to give.
abbrev IsAmple : Outcome → Type 0
IsAmple o = (o.code ≡ success) × (o.mem ≡ [])

make_path-IsAmple : (index : ℕ) (r : Root) → IsAmple (make_path index r [])
unfolding make_path
make_path-IsAmple index r =
    rw (alloc_levels-ample (missing index (top_level r.height) r.rnode)) (refl, refl)

grown-IsAmple :
    (index h : ℕ) (n : Slot)
    → h < 10
    → index < 2 ^ 60
    → IsAmple (and_then (expand (max_height - suc h) index (tree n h) []) (make_path index))
grown-IsAmple index h n b i =
    let e = expand-ample (max_height - suc h) index h n (omega arith) b i in
    rw (and_then-success (expand (max_height - suc h) index (tree n h) []) (make_path index) e.0)
      (rw e.1 (make_path-IsAmple index _))

-- With memory at hand the shared part succeeds.
pub prepare-IsAmple :
    (index : ℕ) (r : Root) → index < 2 ^ 60 → IsRoot r → IsAmple (prepare index r [])
unfolding prepare alloc_root
prepare-IsAmple index r i v =
    Root-elim (λ r. IsAmple (prepare index r [])) r v
      (grown-IsAmple index 0 empty_node (omega arith) i)
      λ n h b o full. rw (node-is_null h n o) (grown-IsAmple index h n b i)

insert_last-ne-enomem :
    (index x : ℕ) (r : Root) (mem : Mem) → (insert_last index x r mem).code ≢ enomem
unfolding insert_last
insert_last-ne-enomem index x r mem = ground arith

-- Where every allocation succeeds, an insertion below 2 ^ 60 into a well-formed tree succeeds if
-- the index has no item, and answers EEXIST if it has one.
pub insert-ample :
    (r : Root) (index x : ℕ)
    → IsRoot r
    → index < 2 ^ 60
    → (insert r index (some x) []).code ≡ (if is_none (lookup r index) then success else eexist)
insert-ample r index x v i = elim (insert-Inserts r index x [] v i).code [
  | inl e ↦ absurd (never e)
  | inr e ↦ e
]
  where
    never : (insert r index (some x) []).code ≢ enomem
    never =
        unfold insert in
        rw
          (and_then-success (prepare index r []) (insert_last index x)
            (prepare-IsAmple index r i v).0)
          (insert_last-ne-enomem index x _ _)

pub insert-mem :
    (r : Root) (index : ℕ) (ptr : Option ℕ)
    → IsRoot r
    → index < 2 ^ 60
    → (insert r index ptr []).mem ≡ []
unfolding insert insert_last
insert-mem r index none v i = refl
insert-mem r index (some x) v i =
    let e = prepare-IsAmple index r i v in
    rw (and_then-success (prepare index r []) (insert_last index x) e.0) (ground (arith, e.1))
