-- ===== src/Radix/Preparation.antt =====
-- From a tree between two calls to one with every node on the way of the index: the part that
-- radix_tree_insert and radix_tree_store of kernel/linux_radix.c share.
use webcamd.Prelude.{
  ℕ, zero, suc, ◌-◌, ◌^◌, ◌≤◌, ◌<◌, ◌≡◌, refl, false, ◌⊎◌, inl, inr, arith, Bool-cases, none, sym,
  ◌∙◌, ◌==◌, subst,
}
use webcamd.Radix.Tree.{
  Slot, null, node, Root, Mem, Code, success, enomem, malloc, empty_node, is_null, count_of,
  clean_root_node, lookup, top_level, max_height,
}
use webcamd.Radix.Insert.{
  Outcome, expand, alloc_root, alloc_levels, link, missing, make_path, prepare, on_code, and_then,
}
use webcamd.Radix.Digits.{span}
use webcamd.Radix.Shape.{IsNode, IsOpen, IsGrown, IsRoot}
use webcamd.Radix.Paths.{get-empty, get-link, link-IsOpen, empty_node-IsNode}
use webcamd.Radix.Growth.{tree, lookup-tree, expand-Grows, empty-get}

-- A tree with a root node is `tree n h` for some `n` and `h`.
pub Grown-elim {ℓ} :
    (P : Root → Type ℓ) (r : Root)
    → IsGrown r
    → ((n : Slot) (h : ℕ) → h < 10 → IsNode h n → P (tree n h))
    → P r
Grown-elim P r g f = go r.height r.rnode g.low g.high g.shape
  where
    go :
        (h : ℕ) (n : Slot)
        → 0 < h
        → h ≤ 10
        → IsNode (top_level h) n
        → P (record { rnode = n; height = h })
    go zero n low high o = absurd (omega arith)
    go (suc h) n low high o = f n h (omega arith) o

pub lookup_empty : (j : ℕ) → lookup (record { rnode = null; height = 0 }) j ≡ none
unfolding lookup
lookup_empty j = ground arith

-- Cleaning frees a root node with no slot in use, and changes no lookup.
pub clean-IsRoot : (r : Root) → IsGrown r → IsRoot (clean_root_node r)
unfolding clean_root_node
clean-IsRoot r g = Grown-elim (λ r. IsRoot (clean_root_node r)) r g on_tree
  where
    on_tree : (n : Slot) (h : ℕ) → h < 10 → IsNode h n → IsRoot (clean_root_node (tree n h))
    on_tree n h b o = elim (Bool-cases (count_of n == 0)) [
      | inl free ↦ rw (free, clean_root_node) (inl (refl, refl))
      | inr full ↦
          rw (full, clean_root_node)
            (inr (record { low = omega arith; high = omega arith; shape = o }, ground arith))
    ]

pub lookup-clean : (r : Root) (j : ℕ) → IsGrown r → lookup (clean_root_node r) j ≡ lookup r j
unfolding clean_root_node
lookup-clean r j g =
    Grown-elim (λ r. lookup (clean_root_node r) j ≡ lookup r j) r g
      λ n h b o. ground (arith, lookup-tree n h j b, empty-get h h j n o, lookup_empty j)

-- A call that fails leaves a tree with the same entries.
pub record Fails (r : Root) (o : Outcome) : Type 0 where
  pub code : o.code ≡ enomem
  pub root : IsRoot o.root
  pub same : (j : ℕ) → lookup o.root j ≡ lookup r j

-- A tree that is ready for the last write at the index.
pub record IsReady (index : ℕ) (r s : Root) : Type 0 where
  pub low : 0 < s.height
  pub high : s.height ≤ 10
  pub within : index < span s.height
  pub way : IsOpen index (top_level s.height) s.rnode
  pub same : (j : ℕ) → lookup s j ≡ lookup r j

abbrev pub Prepared : ℕ → Root → Outcome → Type 0
Prepared index r o = ((o.code ≡ success) × IsReady index r o.root) ⊎ Fails r o

abbrev pub empty_root : Root
empty_root = record { rnode = null; height = 0 }

-- A tree between two calls is the empty one or a `tree n h` with a slot in use.
pub Root-elim {ℓ} :
    (P : Root → Type ℓ) (r : Root)
    → IsRoot r
    → P empty_root
    → ((n : Slot) (h : ℕ) → h < 10 → IsNode h n → 0 < count_of n → P (tree n h))
    → P r
Root-elim P r (inl e) base step =
    subst P (λ i. record { rnode = sym e.1 i; height = sym e.0 i }) base
Root-elim P r (inr (g, b)) base step =
    Grown-elim (λ r. 0 < count_of r.rnode → P r) r g (λ n h b o full. step n h b o full) b

tree-IsGrown : (n : Slot) (h : ℕ) → h < 10 → IsNode h n → IsGrown (tree n h)
tree-IsGrown n h b o = record { low = omega arith; high = omega arith; shape = o }

-- `alloc_root` gives a tree with a root node and the same entries, or fails.
abbrev RootStep : Root → Outcome → Type 0
RootStep r o =
    ((o.code ≡ success) × IsGrown o.root × ((j : ℕ) → lookup o.root j ≡ lookup r j)) ⊎ Fails r o

pub node-is_null : (h : ℕ) (n : Slot) → IsNode h n → is_null n ≡ false
node-is_null zero (node c s) o = refl
node-is_null zero _ o = elim o [ ]
node-is_null (suc h) (node c s) o = refl
node-is_null (suc h) _ o = elim o [ ]

alloc_root-empty : (mem : Mem) → RootStep empty_root (alloc_root empty_root mem)
unfolding alloc_root
alloc_root-empty mem = elim (Bool-cases (malloc mem).0) [
  | inl got ↦ rw got (
      inl (
        refl,
        tree-IsGrown empty_node 0 (omega arith) (empty_node-IsNode 0),
        λ j.
            ground (arith, lookup-tree empty_node 0 j (omega arith), get-empty j 0, lookup_empty j),
      ))
  | inr failed ↦ rw failed (inr (record { code = refl; root = inl (refl, refl); same = λ j. refl }))
]

alloc_root-RootStep : (r : Root) (mem : Mem) → IsRoot r → RootStep r (alloc_root r mem)
unfolding alloc_root
alloc_root-RootStep r mem v =
    Root-elim (λ r. RootStep r (alloc_root r mem)) r v (alloc_root-empty mem)
      λ n h b o full. rw (node-is_null h n o) (inl (refl, tree-IsGrown n h b o, λ j. refl))

lookup-link :
    (index j : ℕ) (r : Root)
    → lookup (record r { rnode = link index (top_level r.height) r.rnode }) j ≡ lookup r j
unfolding lookup
lookup-link index j r = rw (get-link index j (top_level r.height) r.rnode)

make_path-Prepared :
    (index : ℕ) (r : Root) (mem : Mem)
    → IsGrown r
    → index < span r.height
    → Prepared index r (make_path index r mem)
unfolding make_path
make_path-Prepared index r mem g w =
    elim (Bool-cases (alloc_levels (missing index (top_level r.height) r.rnode) mem).0) [
      | inl got ↦ rw got (
          inl (
            refl,
            record {
              low = g.low;
              high = g.high;
              within = w;
              way = link-IsOpen index _ _ g.shape;
              same = λ j. lookup-link index j r;
            },
          ))
      | inr failed ↦
          rw failed
            (inr (record { code = refl; root = clean-IsRoot r g; same = λ j. lookup-clean r j g }))
    ]

-- An error is passed on; after success the next part has its say.
and_then-Prepared :
    (index : ℕ) (r : Root) (o : Outcome) (f : Root → Mem → Outcome)
    → (o.code ≡ success → Prepared index r (f o.root o.mem))
    → (o.code ≡ success) ⊎ Fails r o
    → Prepared index r (and_then o f)
and_then-Prepared index r o f next (inl e) = rw e (next e)
and_then-Prepared index r o f next (inr x) = stop o.code x.code
  where
    stop : (c : Code) → c ≡ enomem → Prepared index r (on_code c o f)
    stop success e = absurd (ground (arith, e))
    stop _ e = inr x

Prepared-from :
    {index : ℕ} {r s : Root} {o : Outcome}
    → ((j : ℕ) → lookup s j ≡ lookup r j)
    → Prepared index s o
    → Prepared index r o
Prepared-from e (inl (c, y)) = inl (
  c,
  record { low = y.low; high = y.high; within = y.within; way = y.way; same = λ j. y.same j ∙ e j },
)
Prepared-from e (inr x) = inr (record { code = x.code; root = x.root; same = λ j. x.same j ∙ e j })

grown-Prepared :
    (index : ℕ) (r : Root) (mem : Mem)
    → index < 2 ^ 60
    → IsGrown r
    → Prepared index r
        (and_then (expand (max_height - r.height) index r mem) (λ r₂ mem₂. make_path index r₂ mem₂))
grown-Prepared index r mem i g =
    Grown-elim
      (λ r. Prepared index r (
        and_then (expand (max_height - r.height) index r mem) (λ r₂ mem₂. make_path index r₂ mem₂)))
      r g
      λ n h b o.
        let e = expand-Grows (max_height - suc h) index h n mem (omega arith) b i o in
        and_then-Prepared index (tree n h) _ _
          (λ c. Prepared-from e.same (make_path-Prepared index _ _ e.grown (e.reaches c)))
          (elim e.ends [
            | inl c ↦ inl c
            | inr (c, full) ↦ inr (record { code = c; root = inr (e.grown, full); same = e.same })
          ])

-- The shared part gives a tree ready for the last write, or fails for want of memory.
pub prepare-Prepared :
    (index : ℕ) (r : Root) (mem : Mem)
    → index < 2 ^ 60
    → IsRoot r
    → Prepared index r (prepare index r mem)
unfolding prepare
prepare-Prepared index r mem i v = elim (alloc_root-RootStep r mem v) [
  | inl (c, g, e) ↦
      and_then-Prepared index r (alloc_root r mem) _
        (λ _. Prepared-from e (grown-Prepared index _ _ i g)) (inl c)
  | inr x ↦
      and_then-Prepared index r (alloc_root r mem) _ (λ c. absurd (ground (arith, c, x.code)))
        (inr x)
]
