-- ===== src/Radix/Deletion.antt =====
-- What radix_tree_delete of kernel/linux_radix.c does to the entries and the shape of a tree.
use webcamd.Prelude.{
  ℕ, zero, suc, ◌+◌, ◌-◌, ◌<◌, ◌≡◌, refl, true, false, if◌then◌else◌, ltb, inl, inr, arith,
  Bool-cases, Option, none, some, sym, ap, ◌∙◌, ◌==◌, subst, ℕ_discrete,
}
use webcamd.Radix.Tree.{
  Slot, null, node, item, Root, is_null, count_of, walk, child, update, radix_max, lookup,
  radix_pos, item_of, drop_slot, back_up, take_item, remove, delete, removed,
}
use webcamd.Radix.Digits.{span, same_path, same_path-==, radix_pos-lt, ltb-radix_max}
use webcamd.Radix.Shape.{used, used-update, IsLeaf, IsInner, IsNode, IsRoot}
use webcamd.Radix.Paths.{get, get-null, IsInner-IsNode, weight_there, update_ne, update_self}
use webcamd.Radix.Growth.{tree, lookup-tree, slots_null, limit_reached}
use webcamd.Radix.Preparation.{Root-elim, empty_root, lookup_empty}

-- What a deletion below a node at level `h` does.
record Removes (i h : ℕ) (n : Slot) (a : Slot × Option ℕ) : Type 0 where
  shape : IsInner (IsNode h) a.0
  old : a.1 ≡ get i h n
  entries : (j : ℕ) → get j h a.0 ≡ (if same_path i j h then none else get j h n)

module _ (c : ℕ) (s : ℕ → Slot) (counted : c ≡ used 64 s) (p : ℕ) (b : p < 64)
    (there : is_null (s p) ≡ false) where
  drop_counted : used 64 (update s p null) + 1 ≡ c
  drop_counted = omega (arith, used-update 64 s p null b, weight_there (s p) there, counted)

  -- Below the dropped slot there is nothing; the other slots are what they were.
  drop-child : (q : ℕ) → q < 64 → child (drop_slot c s p) q ≡ (if p == q then null else s q)
  drop-child q b' = elim (Bool-cases (c - 1 == 0)) [
    | inl last ↦ rw last (sym (slots_null (update s p null) (ground (arith, drop_counted)) q b'))
    | inr more ↦ rw more
  ]

  drop-shape :
      (h : ℕ)
      → ((q : ℕ) → q < 64 → IsInner (IsNode h) (s q))
      → IsInner (IsNode (suc h)) (drop_slot c s p)
  drop-shape h f = elim (Bool-cases (c - 1 == 0)) [
    | inl last ↦ rw last tt
    | inr more ↦ rw more (
      ground arith,
      (
        omega (arith, drop_counted),
        λ q b'. elim (ℕ_discrete p q) [
          | yes e ↦ rw e (rw (update_self s q null) tt)
          | no d ↦ rw (update_ne s p null q d) (f q b')
        ],
      ),
    )
  ]

  drop-leaves : ((q : ℕ) → q < 64 → IsLeaf (s q)) → IsInner (IsNode zero) (drop_slot c s p)
  drop-leaves f = elim (Bool-cases (c - 1 == 0)) [
    | inl last ↦ rw last tt
    | inr more ↦ rw more (
      ground arith,
      (
        omega (arith, drop_counted),
        λ q b'. elim (ℕ_discrete p q) [
          | yes e ↦ rw e (rw (update_self s q null) tt)
          | no d ↦ rw (update_ne s p null q d) (f q b')
        ],
      ),
    )
  ]

take-Removes :
    (i c : ℕ) (s : ℕ → Slot) (v : Slot)
    → s (radix_pos i 0) ≡ v
    → 0 < c
    → IsNode zero (node c s)
    → Removes i zero (node c s) (take_item c s (radix_pos i 0) v)
unfolding walk same_path
take-Removes i c s null e b o = record {
  shape = (b, o);
  old = ground (arith, e);
  entries = λ j. ground (arith, e);
}
take-Removes i c s (item x) e b o = record {
  shape = drop-leaves c s o.0 (radix_pos i 0) (radix_pos-lt i 0) (rw e) o.1;
  old = ground (arith, e);
  entries = λ j. ground (
    arith,
    e,
    drop-child c s o.0 (radix_pos i 0) (radix_pos-lt i 0) (rw e) (radix_pos j 0) (radix_pos-lt j 0),
  );
}
take-Removes i c s (node c' s') e b o = absurd (subst IsLeaf e (o.1 _ (radix_pos-lt i 0)))

get-same_path : (i j h : ℕ) (n : Slot) → same_path i j h ≡ true → get j h n ≡ get i h n
unfolding walk same_path
get-same_path i j zero n e = ap (λ q. item_of (child n q)) (ground arith)
get-same_path i j (suc h) n e =
    ap (λ q. get j h (child n q)) (ground arith)
    ∙ get-same_path i j h (child n (radix_pos i (suc h))) (ground arith)

null-Removes : (i h : ℕ) → Removes i h null (null, none)
null-Removes i h = record {
  shape = tt;
  old = sym (get-null i h);
  entries = λ j. ground (arith, get-null j h);
}

-- A child with an item below it is no NULL.
occupied : (n : Slot) (i h x : ℕ) → some x ≡ get i h n → is_null n ≡ false
occupied null i h x e = ground (arith, e, get-null i h)
occupied (item y) i h x e = refl
occupied (node c s) i h x e = refl

back_up-Removes :
    (i h c : ℕ) (s : ℕ → Slot) (a : Slot × Option ℕ)
    → 0 < c
    → IsNode (suc h) (node c s)
    → Removes i h (s (radix_pos i (suc h))) a
    → Removes i (suc h) (node c s) (back_up c s (radix_pos i (suc h)) a)
unfolding walk same_path
back_up-Removes i h c s (n, none) b o v = record {
  shape = (b, o);
  old = v.old;
  entries = λ j. ground (arith, v.old, get-same_path i j h (s (radix_pos i (suc h))));
}
back_up-Removes i h c s (null, some x) b o v = record {
  shape = drop-shape c s o.0 _ (radix_pos-lt i (suc h)) there h o.1;
  old = v.old;
  entries = λ j.
      let q = radix_pos j (suc h) in
      rw (drop-child c s o.0 _ (radix_pos-lt i (suc h)) there q (radix_pos-lt j (suc h)))
        (ground (arith, v.entries j, get-null j h));
}
  where
    there : is_null (s (radix_pos i (suc h))) ≡ false
    there = occupied _ i h x v.old
back_up-Removes i h c s (item y, some x) b o v = elim v.shape [ ]
back_up-Removes i h c s (node c' s', some x) b o v = record {
  shape = (
    b,
    (
      omega (
        arith,
        used-update 64 s (radix_pos i (suc h)) (node c' s') (radix_pos-lt i (suc h)),
        weight_there _ (occupied _ i h x v.old),
        o.0,
      ),
      λ q b'. elim (ℕ_discrete (radix_pos i (suc h)) q) [
        | yes e ↦ rw e (rw (update_self s q (node c' s')) v.shape)
        | no d ↦ rw (update_ne s _ (node c' s') q d) (o.1 q b')
      ],
    ),
  );
  old = v.old;
  entries = λ j. ground (arith, v.entries j);
}

remove-Removes : (i h : ℕ) (n : Slot) → IsInner (IsNode h) n → Removes i h n (remove i h n)
unfolding remove
remove-Removes i zero (node c s) o = take-Removes i c s _ refl o.0 o.1
remove-Removes i zero null o = null-Removes i zero
remove-Removes i zero (item x) o = elim o [ ]
remove-Removes i (suc h) (node c s) o =
    back_up-Removes i h c s _ o.0 o.1
      (remove-Removes i h (s (radix_pos i (suc h))) (o.1.1 _ (radix_pos-lt i (suc h))))
remove-Removes i (suc h) null o = null-Removes i (suc h)
remove-Removes i (suc h) (item x) o = elim o [ ]

-- What a deletion does: the caller gets what the index held, and only the index is left empty.
pub record Deletes (r : Root) (index : ℕ) (a : Root × Option ℕ) : Type 0 where
  pub root : IsRoot a.0
  pub old : a.1 ≡ lookup r index
  pub entries : (j : ℕ) → lookup a.0 j ≡ (if index == j then none else lookup r j)

removed-Deletes :
    (index h : ℕ) (n : Slot) (a : Slot × Option ℕ)
    → h < 10
    → index < span (suc h)
    → IsNode h n
    → 0 < count_of n
    → Removes index h n a
    → Deletes (tree n h) index (removed (tree n h) a)
removed-Deletes index h n (m, none) b w o full v = record {
  root = inr (record { low = omega arith; high = omega arith; shape = o }, full);
  old = ground (arith, lookup-tree n h index b, v.old);
  entries = λ j. ground (arith, lookup-tree n h index b, v.old);
}
removed-Deletes index h n (null, some x) b w o full v = record {
  root = inl (refl, refl);
  old = ground (arith, lookup-tree n h index b, v.old);
  entries = λ j. ground (
    arith,
    lookup-tree n h j b,
    lookup_empty j,
    v.entries j,
    get-null j h,
    same_path-== index j h b w,
  );
}
removed-Deletes index h n (item y, some x) b w o full v = elim v.shape [ ]
removed-Deletes index h n (node c s, some x) b w o full v = record {
  root = inr (record { low = omega arith; high = omega arith; shape = v.shape.1 }, v.shape.0);
  old = ground (arith, lookup-tree n h index b, v.old);
  entries = λ j. ground (
    arith,
    lookup-tree n h j b,
    lookup-tree (node c s) h j b,
    v.entries j,
    same_path-== index j h b w,
  );
}

outside-Deletes :
    (r : Root) (index : ℕ) → IsRoot r → lookup r index ≡ none → Deletes r index (r, none)
outside-Deletes r index v e = record { root = v; old = sym e; entries = λ j. ground (arith, e) }

-- A deletion from a well-formed tree, at any index: the tree stays well-formed, the caller gets
-- what the index held, that index is empty afterwards, and every other index keeps what it held.
pub delete-Deletes : (r : Root) (index : ℕ) → IsRoot r → Deletes r index (delete r index)
unfolding delete
delete-Deletes r index v =
    Root-elim (λ r. Deletes r index (delete r index)) r v
      (rw same_end (outside-Deletes empty_root index (inl (refl, refl)) (lookup_empty index)))
      λ n h b o full. elim (Bool-cases (ltb (radix_max (suc h)) index)) [
        | inl out ↦ rw out (
            outside-Deletes (tree n h) index
              (inr (record { low = omega arith; high = omega arith; shape = o }, full))
              (ground (arith, lookup-tree n h index b, ltb-radix_max (suc h) index b)))
        | inr within ↦ rw within (
            removed-Deletes index h n _ b (limit_reached h index b within) o full
              (remove-Removes index h n (IsInner-IsNode h n o full)))
      ]
  where
    same_end : delete empty_root index ≡ (empty_root, none)
    same_end = elim (Bool-cases (ltb (radix_max 0) index)) [ inl e ↦ rw e | inr e ↦ rw e ]
