-- ===== src/Radix/Storing.antt =====
-- What radix_tree_store of kernel/linux_radix.c does to the entries of a tree.
use webcamd.Prelude.{
  ℕ, ◌^◌, ◌<◌, ◌≡◌, refl, if◌then◌else◌, ◌⊎◌, inl, inr, arith, Option, none, some, ◌==◌, ◌&&◌, [],
}
use webcamd.Radix.Tree.{Root, Mem, Code, success, enomem, is_null, find, lookup}
use webcamd.Radix.Insert.{Outcome, prepare, store, swap_last, store_rest}
use webcamd.Radix.Shape.{IsRoot}
use webcamd.Radix.Growth.{lookup-tree}
use webcamd.Radix.Preparation.{IsReady, Fails, prepare-Prepared}
use webcamd.Radix.Insertion.{Ready-elim, is_success, lookup-put, put-IsRoot, prepare-IsAmple}

-- What a store of an item does, on every branch.
pub record Stores (r : Root) (index x : ℕ) (a : Outcome × Option ℕ) : Type 0 where
  pub root : IsRoot a.0.root
  pub entries :
      (j : ℕ)
      → lookup a.0.root j ≡ (if is_success a.0.code && index == j then some x else lookup r j)
  pub code : (a.0.code ≡ success) ⊎ (a.0.code ≡ enomem)
  pub old : a.1 ≡ (if is_success a.0.code then lookup r index else some x)

swap_last-Stores :
    (r s : Root) (index x : ℕ) (mem : Mem)
    → IsReady index r s
    → Stores r index x (swap_last index x s mem)
swap_last-Stores r s index x mem y =
    Ready-elim (λ s. Stores r index x (swap_last index x s mem)) index r s y
      λ n h b w o e. record {
        root = put-IsRoot index h x n b o;
        entries =
            λ j. ground (arith, lookup-put index h (is_null (find index h n)) x n j b w o, e j);
        code = inl refl;
        old = ground (arith, e index, lookup-tree n h index b);
      }

-- For every index below 2 ^ 60, a well-formed tree stays well-formed under a store of an item. The
-- call succeeds or runs out of memory. After a success the index holds the new item, every other
-- index what it held, and the caller gets what the index held; after a failure nothing changed and
-- the caller's item is still in its place.
pub store-Stores :
    (r : Root) (index x : ℕ) (mem : Mem)
    → IsRoot r
    → index < 2 ^ 60
    → Stores r index x (store r index (some x) mem)
unfolding store
store-Stores r index x mem v i = elim (prepare-Prepared index r mem i v) [
  | inl (c, y) ↦ on_success (prepare index r mem).code c y
  | inr failed ↦ on_failure (prepare index r mem).code failed.code failed
]
  where
    on_success :
        (c : Code)
        → c ≡ success
        → IsReady index r (prepare index r mem).root
        → Stores r index x (store_rest c index x (prepare index r mem))
    on_success success e y = swap_last-Stores r _ index x _ y
    on_success _ e y = absurd (ground (arith, e))

    on_failure :
        (c : Code)
        → c ≡ enomem
        → Fails r (prepare index r mem)
        → Stores r index x (store_rest c index x (prepare index r mem))
    on_failure success e f = absurd (ground (arith, e))
    on_failure _ e f = record {
      root = f.root;
      entries = λ j. ground (arith, f.same j, f.code);
      code = inr f.code;
      old = ground (arith, f.code);
    }

-- A store succeeds where every allocation does.
pub store-ample :
    (r : Root) (index : ℕ) (ptr : Option ℕ)
    → IsRoot r
    → index < 2 ^ 60
    → ((store r index ptr []).0.code ≡ success) × ((store r index ptr []).0.mem ≡ [])
unfolding store
store-ample r index none v i = (refl, refl)
store-ample r index (some x) v i = go (prepare index r []).code (prepare-IsAmple index r i v).0
  where
    go :
        (c : Code)
        → c ≡ success
        → ((store_rest c index x (prepare index r [])).0.code ≡ success)
          × ((store_rest c index x (prepare index r [])).0.mem ≡ [])
    go success e = (refl, (prepare-IsAmple index r i v).1)
    go _ e = absurd (ground (arith, e))
