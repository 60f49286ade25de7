-- ===== src/Examples/Arrays.antt =====
-- Tests of the xarray of kernel/linux_xarray.c, and its theorems at small arrays.
use webcamd.Prelude.{◌+◌, ◌^◌, ◌≡◌, refl, inl, none, some, List, [], ◌∷◌}
use webcamd.Radix.Tree.{lookup, radix_max, success, Code}
use webcamd.Radix.Shape.{IsRoot}
use webcamd.Examples.Samples.{two_levels, two_levels-IsRoot}
use webcamd.Xarray.Calls.{Xarray, xa_init_flags, xa_destroy, xa_for_each}
use webcamd.Xarray.Laws.{Call, inserts, stores, erases, loads, run, map_run, run-map_run}
use webcamd.Xarray.Walks.{IsCleared, IsListed, xa_destroy-IsCleared, xa_for_each-IsListed}

abbrev fresh : Xarray
fresh = record {
  root = record { rnode = webcamd.Radix.Tree.null; height = 0 };
  mem = [];
  locks = 0;
}

fresh-IsRoot : IsRoot fresh.root
fresh-IsRoot = inl (refl, refl)

fresh_is_init : xa_init_flags [] ≡ fresh
unfolding xa_init_flags
fresh_is_init = refl

abbrev client : List Call
client =
    inserts 4 (some 9)
    ∷ loads 4
    ∷ stores 4 (some 2)
    ∷ inserts (2 ^ 32 + 4) (some 3)
    ∷ erases 4
    ∷ loads 4
    ∷ []

run-map_run_example : run client fresh ≡ map_run client (λ _. none)
run-map_run_example =
    run-map_run client fresh (λ _. none)
      (record {
        root = fresh-IsRoot;
        ample = refl;
        entries = λ j. webcamd.Radix.Preparation.lookup_empty j;
      })

-- An array with one entry.
abbrev stocked : Xarray
stocked = record { root = two_levels; mem = []; locks = 0 }

xa_destroy-IsCleared_example : IsCleared (xa_destroy stocked.root)
xa_destroy-IsCleared_example = xa_destroy-IsCleared stocked.root two_levels-IsRoot

xa_for_each-IsListed_example : IsListed stocked.root 0 (xa_for_each stocked)
xa_for_each-IsListed_example = xa_for_each-IsListed stocked two_levels-IsRoot
