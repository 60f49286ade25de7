-- ===== src/Radix/Paths.antt =====
-- What the two halves of an insertion, `link` and `put`, do to the lookups and to the shape of a
-- node (the end of radix_tree_insert and radix_tree_store in kernel/linux_radix.c).
use webcamd.Prelude.{
  ℕ, zero, suc, ◌+◌, ◌<◌, ◌≡◌, ◌≢◌, refl, Bool, true, false, if◌then◌else◌, inl, inr, arith,
  ℕ_discrete, Bool-cases, Option, none, some, sym, ap,
}
use webcamd.Radix.Tree.{
  Slot, null, item, node, radix_pos, empty_node, update, is_null, count_of, item_of, walk, find,
}
use webcamd.Radix.Insert.{link, put}
use webcamd.Radix.Digits.{same_path, radix_pos-lt}
use webcamd.Radix.Shape.{
  used, weight, used-update, weight-le-used, used_none, IsInner, IsNode, IsOpen,
}

-- What the lookup finds below a node at level `h`.
abbrev pub get : ℕ → ℕ → Slot → Option ℕ
get index h n = item_of (find index h n)

pub get-null : (j h : ℕ) → get j h null ≡ none
unfolding walk
get-null j zero = refl
get-null j (suc h) = get-null j h

pub get-empty : (j h : ℕ) → get j h empty_node ≡ none
unfolding walk empty_node
get-empty j zero = refl
get-empty j (suc h) = get-null j h

pub null_of : (n : Slot) → is_null n ≡ true → n ≡ null
null_of null e = refl
null_of (item x) e = cc
null_of (node c s) e = cc

-- Linking the missing levels changes no lookup.
pub get-link : (i j h : ℕ) (n : Slot) → get j h (link i h n) ≡ get j h n
unfolding link walk
get-link i j zero n = refl
get-link i j (suc h) null = refl
get-link i j (suc h) (item x) = refl
get-link i j (suc h) (node c s) = elim (Bool-cases (is_null (s (radix_pos i (suc h))))) [
  | inl absent ↦ rw absent (
      ground (
        arith,
        null_of (s (radix_pos i (suc h))) absent,
        get-link i j h empty_node,
        get-empty j h,
        get-null j h,
      ))
  | inr there ↦ rw there (ground (arith, get-link i j h (s (radix_pos i (suc h)))))
]

-- The insertion changes the lookups of the index alone.
pub get-put :
    (i j h : ℕ) (count : Bool) (x : ℕ) (n : Slot)
    → IsOpen i h n
    → get j h (put i h count x n) ≡ (if same_path i j h then some x else get j h n)
unfolding put walk same_path
get-put i j zero true x (node c s) o = ground arith
get-put i j zero false x (node c s) o = ground arith
get-put i j zero _ x n o = elim o [ ]
get-put i j (suc h) count x (node c s) o =
    ground (arith, get-put i j h count x (s (radix_pos i (suc h))) o.2)
get-put i j (suc h) count x n o = elim o [ ]

pub find-put :
    (i h : ℕ) (count : Bool) (x : ℕ) (n : Slot)
    → IsOpen i h n
    → find i h (put i h count x n) ≡ item x
unfolding put walk
find-put i zero true x (node c s) o = ground arith
find-put i zero false x (node c s) o = ground arith
find-put i zero _ x n o = elim o [ ]
find-put i (suc h) count x (node c s) o =
    ground (arith, find-put i h count x (s (radix_pos i (suc h))) o.2)
find-put i (suc h) count x n o = elim o [ ]

pub empty_node-IsNode : (h : ℕ) → IsNode h empty_node
unfolding empty_node
empty_node-IsNode zero = (sym (used_none 64), λ p b. tt)
empty_node-IsNode (suc h) = (sym (used_none 64), λ p b. tt)

pub update_self : (s : ℕ → Slot) (p : ℕ) (v : Slot) → update s p v p ≡ v
update_self s p v = ground arith

pub update_ne : (s : ℕ → Slot) (p : ℕ) (v : Slot) (q : ℕ) → p ≢ q → update s p v q ≡ s q
update_ne s p v q d = ground arith

pub inner-child : (P : Slot → Type 0) (n : Slot) → IsInner P n → is_null n ≡ false → P n
inner-child P null o e = cc
inner-child P (item x) o e = elim o [ ]
inner-child P (node c s) o e = o.1

pub IsInner-IsNode : (h : ℕ) (n : Slot) → IsNode h n → 0 < count_of n → IsInner (IsNode h) n
IsInner-IsNode zero (node c s) o b = (b, o)
IsInner-IsNode zero _ o b = elim o [ ]
IsInner-IsNode (suc h) (node c s) o b = (b, o)
IsInner-IsNode (suc h) _ o b = elim o [ ]

pub IsNode-weight : (h : ℕ) (n : Slot) → IsNode h n → weight n ≡ 1
IsNode-weight zero (node c s) o = refl
IsNode-weight zero _ o = elim o [ ]
IsNode-weight (suc h) (node c s) o = refl
IsNode-weight (suc h) _ o = elim o [ ]

IsOpen-weight : (i h : ℕ) (n : Slot) → IsOpen i h n → weight n ≡ 1
IsOpen-weight i zero n o = IsNode-weight zero n o
IsOpen-weight i (suc h) (node c s) o = refl
IsOpen-weight i (suc h) _ o = elim o [ ]

pub weight_there : (n : Slot) → is_null n ≡ false → weight n ≡ 1
weight_there null e = cc
weight_there (item x) e = refl
weight_there (node c s) e = refl

-- A node with a new child on the way of the index.
IsOpen-step :
    (i h c : ℕ) (s : ℕ → Slot) (v : Slot)
    → c ≡ used 64 (update s (radix_pos i (suc h)) v)
    → ((p : ℕ) → p < 64 → p ≢ radix_pos i (suc h) → IsInner (IsNode h) (s p))
    → IsOpen i h v
    → IsOpen i (suc h) (node c (update s (radix_pos i (suc h)) v))
IsOpen-step i h c s v e others o = (
  e,
  λ p b d. rw (update_ne s _ v p (λ q. d (sym q))) (others p b d),
  rw (update_self s (radix_pos i (suc h)) v) o,
)

-- Linking leaves a tree whose nodes are all there on the way of the index.
pub link-IsOpen : (i h : ℕ) (n : Slot) → IsNode h n → IsOpen i h (link i h n)
unfolding link
link-IsOpen i zero n o = o
link-IsOpen i (suc h) (node c s) o = elim (Bool-cases (is_null (s (radix_pos i (suc h))))) [
  | inl absent ↦
      let fresh = link-IsOpen i h empty_node (empty_node-IsNode h) in
      rw absent (
        IsOpen-step i h (c + 1) s (link i h empty_node)
          (omega (
            arith,
            used-update 64 s (radix_pos i (suc h)) (link i h empty_node) (radix_pos-lt i (suc h)),
            IsOpen-weight i h _ fresh,
            ap weight (null_of _ absent),
            o.0,
          ))
          (λ p b _. o.1 p b) fresh)
  | inr there ↦
      let deeper =
        link-IsOpen i h (s (radix_pos i (suc h)))
          (inner-child (IsNode h) _ (o.1 _ (radix_pos-lt i (suc h))) there) in
      rw there (
        IsOpen-step i h c s (link i h (s (radix_pos i (suc h))))
          (omega (
            arith,
            used-update 64 s (radix_pos i (suc h)) (link i h (s (radix_pos i (suc h))))
                (radix_pos-lt i (suc h)),
            IsOpen-weight i h _ deeper,
            weight_there _ there,
            o.0,
          ))
          (λ p b _. o.1 p b) deeper)
]
link-IsOpen i (suc h) n o = elim o [ ]

-- With an item at its end, a way has no empty node.
pub close-IsNode :
    (i h : ℕ) (n : Slot)
    → IsOpen i h n
    → is_null (find i h n) ≡ false
    → IsNode h n × (0 < count_of n)
unfolding walk
close-IsNode i zero (node c s) o e =
    (o, omega (arith, o.0, weight_there _ e, weight-le-used 64 s _ (radix_pos-lt i 0)))
close-IsNode i zero n o e = elim o [ ]
close-IsNode i (suc h) (node c s) o e =
    let below = close-IsNode i h (s (radix_pos i (suc h))) o.2 e in
    (
      (
        o.0,
        λ p b. elim (ℕ_discrete p (radix_pos i (suc h))) [
          | yes here ↦ rw here (IsInner-IsNode h _ below.0 below.1)
          | no other ↦ o.1 p b other
        ],
      ),
      omega (
        arith,
        o.0,
        IsOpen-weight i h _ o.2,
        weight-le-used 64 s (radix_pos i (suc h)) (radix_pos-lt i (suc h)),
      ),
    )
close-IsNode i (suc h) n o e = elim o [ ]

leaf_step :
    (c : ℕ) (s : ℕ → Slot)
    → IsNode zero (node c s)
    → (c' p x : ℕ) → c' ≡ used 64 (update s p (item x))
    → IsNode zero (node c' (update s p (item x)))
leaf_step c s o c' p x e = (
  e,
  λ q b. elim (ℕ_discrete p q) [
    | yes here ↦ rw here (rw (update_self s q (item x)) tt)
    | no other ↦ rw (update_ne s p (item x) q other) (o.1 q b)
  ],
)

-- The last write of an insertion: the slot is counted exactly if it was free.
pub put-IsOpen :
    (i h x : ℕ) (n : Slot) → IsOpen i h n → IsOpen i h (put i h (is_null (find i h n)) x n)
unfolding put walk
put-IsOpen i zero x (node c s) o = elim (Bool-cases (is_null (s (radix_pos i 0)))) [
  | inl free ↦ rw free (
      leaf_step c s o (c + 1) (radix_pos i 0) x (
        omega (
          arith,
          used-update 64 s (radix_pos i 0) (item x) (radix_pos-lt i 0),
          ap weight (null_of _ free),
          o.0,
        )))
  | inr taken ↦ rw taken (
      leaf_step c s o c (radix_pos i 0) x (
        omega (
          arith,
          used-update 64 s (radix_pos i 0) (item x) (radix_pos-lt i 0),
          weight_there _ taken,
          o.0,
        )))
]
put-IsOpen i zero x n o = elim o [ ]
put-IsOpen i (suc h) x (node c s) o =
    let below = put-IsOpen i h x (s (radix_pos i (suc h))) o.2 in
    IsOpen-step i h c s _
      (omega (
        arith,
        used-update 64 s (radix_pos i (suc h))
            (put i h (is_null (find i h (s (radix_pos i (suc h))))) x (s (radix_pos i (suc h))))
            (radix_pos-lt i (suc h)),
        IsOpen-weight i h _ below,
        IsOpen-weight i h _ o.2,
        o.0,
      ))
      o.1 below
put-IsOpen i (suc h) x n o = elim o [ ]
