-- ===== src/File/Regions.antt =====
-- What the mappings of kernel/linux_file.c promise.
use webcamd.Prelude.{
  ℕ, ◌+◌, ◌/◌, ◌%◌, ◌^◌, ◌<◌, ◌≡◌, ◌≢◌, Bool, true, false, ◌==◌, Option, none, some, List, [], ◌∷◌,
  refl, sym, ap, ◌∙◌, arith, inl, inr, Bool-cases, subst,
}
use webcamd.File.Mapping.{
  Buffer, null, failed, mapped, Vma, is_mapped, is_region, if_region, find_mapped, round_len, fill,
  finish, finish_if, place, place_if, map_region, linux_mmap, page_size,
}

-- The driver leaves the bounds and the offset of the entry alone.
abbrev pub Keeps : (Vma → Vma × ℕ) → Type 0
Keeps driver =
    (v : Vma)
    → ((driver v).0.vm_start ≡ v.vm_start)
      × ((driver v).0.vm_end ≡ v.vm_end)
      × ((driver v).0.vm_pgoff ≡ v.vm_pgoff)

finish_lem :
    (ok : Bool) (v : Vma) (a : ℕ)
    → (finish_if ok v).1 ≡ mapped a
    → ((finish_if ok v).0 ≡ v) × (v.buffer ≡ mapped a)
unfolding finish_if
finish_lem true v a e = (refl, e)
finish_lem false v a e = absurd (ground (arith, e))

-- An entry that the driver has mapped is found for its size and offset.
fill-is_region :
    (driver : Vma → Vma × ℕ) (addr len pgoff a : ℕ) (old : Vma)
    → Keeps driver
    → addr < 2 ^ 64
    → len < 2 ^ 64
    → (fill driver addr len pgoff old).1 ≡ mapped a
    → (is_region len pgoff (fill driver addr len pgoff old).0 ≡ true)
      × ((fill driver addr len pgoff old).0.buffer ≡ mapped a)
unfolding fill finish is_region
fill-is_region driver addr len pgoff a old keeps x y e =
    let v : Vma = record {
      vm_start = addr;
      vm_end = (addr + len) % 2 ^ 64;
      vm_pgoff = pgoff;
      vm_flags = 7;
      closes = old.closes;
      buffer = failed;
    } in
    let (s, t, p) = keeps v in
    let (w, b) = finish_lem ((driver v).1 == 0) (driver v).0 a e in
    (ap (is_region len pgoff) w ∙ ground (arith, s, t, p), ap (λ v. v.buffer) w ∙ b)

hit :
    (r : Bool) (b : Buffer) (a : ℕ) (rest : Option ℕ)
    → r ≡ true
    → b ≡ mapped a
    → if_region r b rest ≡ some a
unfolding if_region
hit r b a rest e f = rw (e, f) refl

missed :
    (r : Bool) (b : Buffer) (rest rest' : Option ℕ)
    → if_region r b rest ≡ none
    → (rest ≡ none) × (if_region r b rest' ≡ rest')
unfolding if_region
missed false b rest rest' e = (e, refl)
missed true null rest rest' e = (e, refl)
missed true failed rest rest' e = (e, refl)
missed true (mapped a) rest rest' e = absurd (ground (arith, e))

module _ (f : Vma → Vma × Buffer) (len pgoff a : ℕ)
    (fills : (v : Vma)
      → (f v).1 ≡ mapped a
      → (is_region len pgoff (f v).0 ≡ true) × ((f v).0.buffer ≡ mapped a)) where
  place_if_lem :
      (b : Bool) (v : Vma) (vs : List Vma) (rest : List Vma × Buffer)
      → (place_if b v vs (f v) rest).1 ≡ mapped a
      → (rest.1 ≡ mapped a → find_mapped len pgoff (v ∷ rest.0) ≡ some a)
      → find_mapped len pgoff (place_if b v vs (f v) rest).0 ≡ some a
  unfolding place_if find_mapped
  place_if_lem true v vs rest e later = later e
  place_if_lem false v vs rest e later =
      let (r, b) = fills v e in hit (is_region len pgoff (f v).0) (f v).0.buffer a _ r b

  place_lem :
      (vs : List Vma)
      → find_mapped len pgoff vs ≡ none
      → (place f vs).1 ≡ mapped a
      → find_mapped len pgoff (place f vs).0 ≡ some a
  unfolding place find_mapped
  place_lem [] n e = absurd (ground (arith, e))
  place_lem (v ∷ vs) n e =
      let (n', skip) =
        missed (is_region len pgoff v) v.buffer (find_mapped len pgoff vs)
          (find_mapped len pgoff (place f vs).0) n in
      place_if_lem (is_mapped v.buffer) v vs (place f vs) e (λ p. skip ∙ place_lem vs n' p)

map_region_lem :
    (driver : Vma → Vma × ℕ) (addr len pgoff a : ℕ) (vs : List Vma) (o : Option ℕ)
    → Keeps driver
    → addr < 2 ^ 64
    → len < 2 ^ 64
    → find_mapped len pgoff vs ≡ o
    → (map_region driver addr len pgoff vs o).1 ≡ mapped a
    → find_mapped len pgoff (map_region driver addr len pgoff vs o).0 ≡ some a
unfolding map_region
map_region_lem driver addr len pgoff a vs none keeps x y f e =
    place_lem (fill driver addr len pgoff) len pgoff a
      (λ v. fill-is_region driver addr len pgoff a v keeps x y) vs f e
map_region_lem driver addr len pgoff a vs (some b) keeps x y f e = f ∙ ground (arith, e)

mmap_lem :
    (driver : Vma → Vma × ℕ) (addr len offset : ℕ) (vs : List Vma)
    → (len == 0) ≡ false
    → (offset % page_size == 0) ≡ true
    → linux_mmap (some driver) addr len offset vs
      ≡ map_region driver addr
          (round_len len)
          (offset / page_size)
          vs
          (find_mapped (round_len len) (offset / page_size) vs)
unfolding linux_mmap
mmap_lem driver addr len offset vs z p = rw (z, p) refl

refused_len :
    (driver : Vma → Vma × ℕ) (addr len offset : ℕ) (vs : List Vma)
    → (len == 0) ≡ true
    → linux_mmap (some driver) addr len offset vs ≡ (vs, failed)
unfolding linux_mmap
refused_len driver addr len offset vs z = rw z refl

refused_offset :
    (driver : Vma → Vma × ℕ) (addr len offset : ℕ) (vs : List Vma)
    → (len == 0) ≡ false
    → (offset % page_size == 0) ≡ false
    → linux_mmap (some driver) addr len offset vs ≡ (vs, failed)
unfolding linux_mmap
refused_offset driver addr len offset vs z p = rw (z, p) refl

failed_lem : {a : ℕ} → failed ≢ mapped a
failed_lem e = ground (arith, e)

round_len_small : (len : ℕ) → len < 2 ^ 64 → round_len len < 2 ^ 64
unfolding round_len
round_len_small len b = ground arith

-- A region that was mapped stays mapped: a second call for the same size and offset, at any address
-- and with any driver, gives the address that the first one gave, and changes nothing.
pub linux_mmap-again :
    (driver driver' : Vma → Vma × ℕ) (addr addr' len offset a : ℕ) (vs : List Vma)
    → Keeps driver
    → addr < 2 ^ 64
    → len < 2 ^ 64
    → (linux_mmap (some driver) addr len offset vs).1 ≡ mapped a
    → linux_mmap (some driver') addr' len offset (linux_mmap (some driver) addr len offset vs).0
      ≡ ((linux_mmap (some driver) addr len offset vs).0, mapped a)
unfolding map_region
linux_mmap-again driver driver' addr addr' len offset a vs keeps x y e =
    elim (Bool-cases (len == 0)) [
      | inl z ↦
          absurd (failed_lem (sym (ap (λ r. r.1) (refused_len driver addr len offset vs z)) ∙ e))
      | inr z ↦ elim (Bool-cases (offset % page_size == 0)) [
        | inl p ↦
            let size = round_len len in
            let pgoff = offset / page_size in
            let m = mmap_lem driver addr len offset vs z p in
            let r = map_region driver addr size pgoff vs (find_mapped size pgoff vs) in
            let f =
              map_region_lem driver addr size pgoff a vs (find_mapped size pgoff vs) keeps x
                (round_len_small len y) refl (sym (ap (λ r. r.1) m) ∙ e) in
            subst (λ r. linux_mmap (some driver') addr' len offset r.0 ≡ (r.0, mapped a)) (sym m)
              (mmap_lem driver' addr' len offset r.0 z p
                ∙ ap (map_region driver' addr' size pgoff r.0) f)
        | inr p ↦
            absurd
              (failed_lem (sym (ap (λ r. r.1) (refused_offset driver addr len offset vs z p)) ∙ e))
      ]
    ]
