-- ===== src/Radix/Scanning.antt =====
-- radix_tree_iter_find of kernel/linux_radix.c finds the next entry, and the loop ends.
use webcamd.Prelude.{
  ℕ, zero, suc, ◌+◌, ◌-◌, ◌*◌, ◌/◌, ◌%◌, ◌^◌, ◌≤◌, ◌<◌, ◌≡◌, ◌≢◌, refl, false, if◌then◌else◌, ltb,
  inl, inr, arith, Bool-cases, none, sym, ap, ◌∙◌, ◌==◌, dec_lt,
}
use webcamd.Radix.Tree.{
  Slot, null, node, item, Root, is_null, walk, child, radix_max, lookup, radix_pos, item_of,
}
use webcamd.Radix.Digits.{span, span-le, span-small, radix_pos-lt, radix_pos_lem, ltb-radix_max}
use native.Mathlib.Nat.{div-eq_of_lt}
use webcamd.Radix.Rounding.{lt-round_up, div_between, round_up_same, div_above, lt_of_div}
use webcamd.Radix.Shape.{IsLeaf, IsInner, IsNode, IsRoot}
use webcamd.Radix.Paths.{get, get-null, inner-child, null_of}
use webcamd.Radix.Growth.{tree, lookup-tree, limit_reached}
use webcamd.Radix.Preparation.{Root-elim, lookup_empty, node-is_null}
use webcamd.Radix.Iterate.{
  Scan, found, not_found, stuck, round_up, restart, iter_loop, iter_find, iter_fuel, masked_digit,
}

-- No entry from `a` up to `b`.
abbrev pub Clear : Root → ℕ → ℕ → Type 0
Clear r a b = (j : ℕ) → a ≤ j → j < b → lookup r j ≡ none

-- The answer names the least entry from `start` on, or says that there is none.
abbrev pub Scans : Root → ℕ → Scan → Type 0
Scans r start (found j slot) =
    (start ≤ j) × (lookup r j ≡ item_of slot) × (lookup r j ≢ none) × Clear r start j
Scans r start not_found = (j : ℕ) → start ≤ j → lookup r j ≡ none
Scans r start stuck = ⊥

Scans-from : (r : Root) (a b : ℕ) (s : Scan) → a ≤ b → Clear r a b → Scans r b s → Scans r a s
Scans-from r a b (found j slot) le c (ge, e, some', clear) = (
  omega arith,
  e,
  some',
  λ k ge' lt. elim (dec_lt k b) [ yes l ↦ c k ge' l | no g ↦ clear k (omega arith) lt ],
)
Scans-from r a b not_found le c f =
    λ k ge. elim (dec_lt k b) [ yes l ↦ c k ge l | no g ↦ f k (omega arith) ]
Scans-from r a b stuck le c f = f

-- The node at level `h` on the way of `index` answers for all indices that share the way so far.
abbrev Answers : Root → ℕ → ℕ → Slot → Type 0
Answers r index h n = (j : ℕ) → j / span (suc h) ≡ index / span (suc h) → lookup r j ≡ get j h n

get-child_null : (j h : ℕ) (n : Slot) → child n (radix_pos j h) ≡ null → get j h n ≡ none
unfolding walk
get-child_null j zero n e = rw e
get-child_null j (suc h) n e = rw e (get-null j h)

-- The next index stays below the limit of the tree, where its way above level `h` is the same.
along_lt :
    (index h top : ℕ)
    → h ≤ top
    → index < span (suc top)
    → round_up index h / span (suc h) ≡ index / span (suc h)
    → round_up index h < span (suc top)
along_lt index h top le lt e =
    lt_of_div (round_up index h) (suc top)
      (div_above (round_up index h) index (suc h) (suc top) (omega arith) e ∙ div-eq_of_lt lt)

-- Below a free slot there is no entry.
step-Clear :
    (r : Root) (index h : ℕ) (n : Slot)
    → h < 10
    → index < 2 ^ 60
    → Answers r index h n
    → child n (radix_pos index h) ≡ null
    → Clear r index (round_up index h)
step-Clear r index h n b i a e j ge lt =
    let same = div_between index h b i j ge lt in
    let small : j < span 10 =
      lt_of_div j 10 (div_above j index h 10 (omega arith) same ∙ div-eq_of_lt i) in
    a j (div_above j index h (suc h) (omega arith) same)
    ∙ get-child_null j h n
        (ap (child n) (omega (arith, same, radix_pos_lem j h small, radix_pos_lem index h i)) ∙ e)

-- Going down one level, the child answers for the indices that go the same way.
Answers-child :
    (r : Root) (index h : ℕ) (n : Slot)
    → suc h < 10
    → index < 2 ^ 60
    → Answers r index (suc h) n
    → Answers r index h (child n (radix_pos index (suc h)))
unfolding walk
Answers-child r index h n b i a j e =
    let small : j < span 10 =
      lt_of_div j 10 (div_above j index (suc h) 10 (omega arith) e ∙ div-eq_of_lt i) in
    a j (div_above j index (suc h) (suc (suc h)) (omega arith) e)
    ∙ ap (λ p. get j h (child n p))
        (omega (arith, e, radix_pos_lem j (suc h) small, radix_pos_lem index (suc h) i))

child-IsInner :
    (h : ℕ) (n : Slot) (p : ℕ) → p < 64 → IsNode (suc h) n → IsInner (IsNode h) (child n p)
child-IsInner h (node c s) p b o = o.1 p b
child-IsInner h _ p b o = elim o [ ]

leaf_item : (v : Slot) → IsLeaf v → is_null v ≡ false → item_of v ≢ none
leaf_item null l e = cc
leaf_item (item x) l e = ground arith
leaf_item (node c s) l e = elim l [ ]

end_found :
    (r : Root) (index : ℕ) (n : Slot)
    → IsNode zero n
    → Answers r index zero n
    → is_null (child n (radix_pos index 0)) ≡ false
    → Scans r index (found index (child n (radix_pos index 0)))
unfolding walk
end_found r index (node c s) o a there = (
  omega arith,
  a index refl,
  λ e. leaf_item _ (o.1 _ (radix_pos-lt index 0)) there (sym (a index refl) ∙ e),
  λ j ge lt. absurd (omega arith),
)
end_found r index _ o a there = elim o [ ]

module _ (m : Slot) (top : ℕ) (b : top < 10) (o : IsNode top m) where
  abbrev whole : Root
  whole = tree m top

  Answers-top : (index : ℕ) → index < span (suc top) → Answers whole index top m
  Answers-top index lt j e =
      ground (arith, lookup-tree m top j b, lt_of_div j (suc top) (e ∙ div-eq_of_lt lt))

  -- What the rounds from a state of the loop on are to do.
  abbrev Rounds : ℕ → ℕ → ℕ → Slot → Type 0
  Rounds fuel index h n =
      h ≤ top
      → IsNode h n
      → index < span (suc top)
      → Answers whole index h n
      → 12 * (span (suc top) - index) + h < fuel
      → Scans whole index (iter_loop fuel whole index n h)

  restart-Scans :
      (fuel index : ℕ)
      → (index < span (suc top) → Scans whole index (iter_loop fuel whole index m top))
      → Scans whole index (restart (iter_loop fuel whole) whole index)
  unfolding restart
  restart-Scans fuel index rounds = elim (Bool-cases (ltb (radix_max (suc top)) index)) [
    | inl out ↦
        rw (node-is_null top m o, out)
          λ j ge. ground (arith, lookup-tree m top j b, ltb-radix_max (suc top) index b)
    | inr within ↦ rw (node-is_null top m o, within) (rounds (limit_reached top index b within))
  ]

  free-Scans :
      (fuel index h : ℕ) (n : Slot)
      → ((index' h' : ℕ) (n' : Slot) → Rounds fuel index' h' n')
      → h ≤ top
      → IsNode h n
      → index < span (suc top)
      → Answers whole index h n
      → 12 * (span (suc top) - index) + h < suc fuel
      → child n (radix_pos index h) ≡ null
      → Scans whole index (
          if masked_digit (round_up index h) h == 0
          then restart (iter_loop fuel whole) whole (round_up index h)
          else iter_loop fuel whole (round_up index h) n h)
  free-Scans fuel index h n rec le s lt a f e =
      Scans-from whole index (round_up index h) _ (omega (arith, further))
        (step-Clear whole index h n (omega arith) small a e)
        (elim (Bool-cases (masked_digit (round_up index h) h == 0)) [
          | inl wraps ↦ rw wraps (
              restart-Scans fuel (round_up index h)
                λ lt'. rec _ top m (omega arith) o lt' (Answers-top _ lt') (omega (arith, further)))
          | inr stays ↦ rw stays (along (ground (arith, stays)))
        ])
    where
      small : index < 2 ^ 60
      small = span-small index top b lt

      further : index < round_up index h
      further = lt-round_up index h (omega arith) small

      along :
          round_up index h / span h % 64 ≢ 0
          → Scans whole (round_up index h) (iter_loop fuel whole (round_up index h) n h)
      along d =
          let same = round_up_same index h (omega arith) small d in
          let lt' = along_lt index h top le lt same in
          rec (round_up index h) h n le s lt' (λ j e'. a j (e' ∙ same)) (omega (arith, further))

  -- The rounds end, and with the least entry from the start on.
  loop-Scans : (fuel index h : ℕ) (n : Slot) → Rounds fuel index h n
  unfolding iter_loop
  loop-Scans zero index h n le s lt a f = elim f [ ]
  loop-Scans (suc fuel) index zero n le s lt a f =
      elim (Bool-cases (is_null (child n (radix_pos index zero)))) [
        | inl free ↦
            rw free (free-Scans fuel index zero n (loop-Scans fuel) le s lt a f (null_of _ free))
        | inr there ↦ rw there (end_found whole index n s a there)
      ]
  loop-Scans (suc fuel) index (suc h) n le s lt a f =
      elim (Bool-cases (is_null (child n (radix_pos index (suc h))))) [
        | inl free ↦
            rw free (free-Scans fuel index (suc h) n (loop-Scans fuel) le s lt a f (null_of _ free))
        | inr there ↦ rw there (
            loop-Scans fuel index h (child n (radix_pos index (suc h))) (omega arith)
              (inner-child (IsNode h) _ (child-IsInner h n _ (radix_pos-lt index (suc h)) s) there)
              lt (Answers-child whole index h n (omega arith) (span-small index top b lt) a)
              (omega arith))
      ]

enough : (top index : ℕ) → top < 10 → 12 * (span (suc top) - index) + top < iter_fuel
unfolding iter_fuel
enough top index b = omega (arith, span-le (suc top) 10 (omega arith))

-- In a well-formed tree the search from any start ends, names the least index from there on that
-- has an item, with its slot, and says that there is none only if there is none.
pub iter_find-Scans : (r : Root) (index : ℕ) → IsRoot r → Scans r index (iter_find r index)
unfolding iter_find
iter_find-Scans r index v =
    Root-elim (λ r. Scans r index (restart (iter_loop iter_fuel r) r index)) r v
      (unfold restart in λ j _. lookup_empty j)
      λ n h b o full. restart-Scans n h b o iter_fuel index λ lt.
        loop-Scans n h b o iter_fuel index h n (omega arith) o lt (Answers-top n h b o index lt)
          (enough h index b)
