-- ===== src/Xarray/Laws.antt =====
-- The xarray of kernel/linux_xarray.c is a finite map: what a run of calls answers.
use webcamd.Prelude.{
  ℕ, ◌%◌, ◌^◌, ◌<◌, ◌≡◌, ◌==◌, if◌then◌else◌, Option, none, some, List, [], ◌∷◌, arith, refl,
  Bool-cases, inl, inr,
}
use mathlib.Core.Path.{ap₂}
use webcamd.Radix.Tree.{Mem, Root, Code, success, einval, eexist, lookup}
use webcamd.Radix.Shape.{IsRoot}
use webcamd.Radix.Insertion.{is_none, insert-Inserts, insert-ample, insert-mem}
use webcamd.Radix.Storing.{store-Stores, store-ample}
use webcamd.Radix.Deletion.{delete-Deletes}
use webcamd.Radix.Insert.{Outcome, insert, store}
use webcamd.Xarray.Calls.{Xarray, Pointer, element, index32, xa_erase, xa_load, xa_insert, xa_store}

-- A call of a client, with its index and its pointer.
pub data Call : Type 0 where
  inserts stores : (index : ℕ) (ptr : Option ℕ) → Call
  erases loads : (index : ℕ) → Call

pub data Answer : Type 0 where
  code : Code → Answer
  pointer : Pointer → Answer
  value : Option ℕ → Answer

abbrev tagged {ℓ} : {A : Type ℓ} → (A → Answer) → Xarray × A → Xarray × Answer
tagged f (xa, a) = (xa, f a)

unfoldable pub call : Call → Xarray → Xarray × Answer
unfolding xa_insert xa_store xa_erase xa_load
call (inserts i p) xa = tagged code (xa_insert i p xa)
call (stores i p) xa = tagged pointer (xa_store i p xa)
call (erases i) xa = tagged value (xa_erase i xa)
call (loads i) xa = tagged value (xa_load i xa)

-- The same calls on a map from the indices that a word of 32 bits has.
abbrev pub Map : Type 0
Map = ℕ → Option ℕ

abbrev pub assign : ℕ → Option ℕ → Map → Map
assign i v m j = if i == j then v else m j

unfoldable pub map_call : Call → Map → Map × Answer
map_call (inserts i none) m = (m, code einval)
map_call (inserts i (some x)) m =
    let k = i % 2 ^ 32 in
    if is_none (m k) then (assign k (some x) m, code success) else (m, code eexist)
map_call (stores i p) m = let k = i % 2 ^ 32 in (assign k p m, pointer (element (m k)))
map_call (erases i) m = let k = i % 2 ^ 32 in (assign k none m, value (m k))
map_call (loads i) m = (m, value (m (i % 2 ^ 32)))

unfoldable pub run : List Call → Xarray → List Answer
run [] xa = []
run (c ∷ cs) xa = let (xa', a) = call c xa in a ∷ run cs xa'

unfoldable pub map_run : List Call → Map → List Answer
map_run [] m = []
map_run (c ∷ cs) m = let (m', a) = map_call c m in a ∷ map_run cs m'

-- The array holds what the map holds, and its allocations will succeed.
pub record Holds (xa : Xarray) (m : Map) : Type 0 where
  pub root : IsRoot xa.root
  pub ample : xa.mem ≡ []
  pub entries : (j : ℕ) → lookup xa.root j ≡ m j

-- A store with memory at hand.
record StoresAmply (r : Root) (i : ℕ) (ptr : Option ℕ) (a : Outcome × Option ℕ) : Type 0 where
  done : a.0.code ≡ success
  ample : a.0.mem ≡ []
  root : IsRoot a.0.root
  old : a.1 ≡ lookup r i
  entries : (j : ℕ) → lookup a.0.root j ≡ assign i ptr (lookup r) j

store-StoresAmply :
    (r : Root) (i : ℕ) (ptr : Option ℕ) (mem : Mem)
    → mem ≡ []
    → IsRoot r
    → i < 2 ^ 60
    → StoresAmply r i ptr (store r i ptr mem)
unfolding store
store-StoresAmply r i none mem e v b = record {
  done = refl;
  ample = e;
  root = (delete-Deletes r i v).root;
  old = (delete-Deletes r i v).old;
  entries = (delete-Deletes r i v).entries;
}
store-StoresAmply r i (some x) mem e v b = rw e (
    let a = store-ample r i (some x) v b in
    let s = store-Stores r i x [] v b in
    record {
      done = a.0;
      ample = a.1;
      root = s.root;
      old = ground (arith, s.old, a.0);
      entries = λ j. ground (arith, s.entries j, a.0);
    })

-- An insertion with memory at hand.
record InsertsAmply (r : Root) (i x : ℕ) (o : Outcome) : Type 0 where
  code : o.code ≡ (if is_none (lookup r i) then success else eexist)
  ample : o.mem ≡ []
  root : IsRoot o.root
  entries :
      (j : ℕ)
      → lookup o.root j
        ≡ (if is_none (lookup r i) then assign i (some x) (lookup r) j else lookup r j)

insert-InsertsAmply :
    (r : Root) (i x : ℕ) (mem : Mem)
    → mem ≡ []
    → IsRoot r
    → i < 2 ^ 60
    → InsertsAmply r i x (insert r i (some x) mem)
insert-InsertsAmply r i x mem e v b = rw e (
    let c = insert-ample r i x v b in
    let s = insert-Inserts r i x [] v b in
    record {
      code = c;
      ample = insert-mem r i (some x) v b;
      root = s.root;
      entries = λ j. ground (arith, s.entries j, c);
    })

call-Holds :
    (c : Call) (xa : Xarray) (m : Map)
    → Holds xa m
    → Holds (call c xa).0 (map_call c m).0 × ((call c xa).1 ≡ (map_call c m).1)
unfolding call map_call index32
call-Holds (loads i) xa m v = (
  record { root = v.root; ample = v.ample; entries = v.entries },
  ground (arith, v.entries (i % 2 ^ 32)),
)
call-Holds (erases i) xa m v =
    let d = delete-Deletes xa.root (i % 2 ^ 32) v.root in
    (
      record {
        root = d.root;
        ample = v.ample;
        entries = λ j. ground (arith, d.entries j, v.entries j);
      },
      ground (arith, d.old, v.entries (i % 2 ^ 32)),
    )
call-Holds (stores i p) xa m v =
    let s = store-StoresAmply xa.root (i % 2 ^ 32) p xa.mem v.ample v.root (omega arith) in
    (
      record {
        root = s.root;
        ample = s.ample;
        entries = λ j. ground (arith, s.entries j, v.entries j);
      },
      ground (arith, s.done, s.old, v.entries (i % 2 ^ 32)),
    )
call-Holds (inserts i none) xa m v =
    unfold insert in (record { root = v.root; ample = v.ample; entries = v.entries }, refl)
call-Holds (inserts i (some x)) xa m v =
    let s = insert-InsertsAmply xa.root (i % 2 ^ 32) x xa.mem v.ample v.root (omega arith) in
    elim (Bool-cases (is_none (m (i % 2 ^ 32)))) [
      | inl free ↦ rw free (
        record {
          root = s.root;
          ample = s.ample;
          entries = λ j. ground (arith, s.entries j, v.entries j, v.entries (i % 2 ^ 32), free);
        },
        ground (arith, s.code, v.entries (i % 2 ^ 32), free),
      )
      | inr taken ↦ rw taken (
        record {
          root = s.root;
          ample = s.ample;
          entries = λ j. ground (arith, s.entries j, v.entries j, v.entries (i % 2 ^ 32), taken);
        },
        ground (arith, s.code, v.entries (i % 2 ^ 32), taken),
      )
    ]

-- Any run of insertions, stores, erasures and loads at any indices gives the client the answers that
-- a map gives at the low 32 bits of the indices, which are what the calls take, as long as the
-- allocations succeed.
pub run-map_run : (cs : List Call) (xa : Xarray) (m : Map) → Holds xa m → run cs xa ≡ map_run cs m
unfolding run map_run
run-map_run [] xa m v = refl
run-map_run (c ∷ cs) xa m v =
    let step = call-Holds c xa m v in
    ap₂ ◌∷◌ step.1 (run-map_run cs (call c xa).0 (map_call c m).0 step.0)
