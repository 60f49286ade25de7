-- ===== src/File/Mapping.antt =====
-- The memory mappings of a handle in kernel/linux_file.c: `fixed_vma`, its LINUX_VMA_MAX (128)
-- entries as a list. The functions of the driver are parameters.
use webcamd.Prelude.{
  ℕ, zero, suc, ◌+◌, ◌-◌, ◌/◌, ◌%◌, ◌^◌, Bool, true, false, not, ◌&&◌, ◌||◌, ◌==◌, ltb, leb,
  if◌then◌else◌, Option, none, some, List, [], ◌∷◌,
}

-- PAGE_SIZE, PAGE_SHIFT and PAGE_MASK as they are on a machine with pages of 4096 bytes: the low 12
-- bits are `% page_size`, and the shift is `/ page_size`.
abbrev pub page_size : ℕ
page_size = 4096

-- `vm_buffer_address`: NULL, MAP_FAILED, or an address.
pub data Buffer : Type 0 where
  null : Buffer
  failed : Buffer
  mapped : ℕ → Buffer

-- `closes` says that `vm_ops` has a `close`.
pub record Vma : Type 0 where
  pub vm_start : ℕ
  pub vm_end : ℕ
  pub vm_pgoff : ℕ
  pub vm_flags : ℕ
  pub closes : Bool
  pub buffer : Buffer

unfoldable pub is_mapped : Buffer → Bool
is_mapped null = false
is_mapped failed = false
is_mapped (mapped a) = true

unfoldable pub is_region : ℕ → ℕ → Vma → Bool
is_region len pgoff v =
    ((v.vm_end + (2 ^ 64 - v.vm_start)) % 2 ^ 64 == len) && (v.vm_pgoff == pgoff)

unfoldable pub if_region : Bool → Buffer → Option ℕ → Option ℕ
if_region true (mapped a) rest = some a
if_region _ _ rest = rest

-- The first loop of `linux_mmap`.
unfoldable pub find_mapped : ℕ → ℕ → List Vma → Option ℕ
find_mapped len pgoff [] = none
find_mapped len pgoff (v ∷ vs) =
    if_region (is_region len pgoff v) v.buffer (find_mapped len pgoff vs)

unfoldable pub round_len : ℕ → ℕ
round_len len =
    if len % page_size == 0
    then len
    else (len + page_size) % 2 ^ 64 - (len + page_size) % 2 ^ 64 % page_size

-- The entry for what the driver's `mmap` made of it, and the answer of `linux_mmap`.
unfoldable pub finish_if : Bool → Vma → Vma × Buffer
finish_if true v = (v, v.buffer)
finish_if false v = (record v { buffer = failed }, failed)

unfoldable pub finish : Vma × ℕ → Vma × Buffer
finish (v, err) = finish_if (err == 0) v

-- What is written into the entry; VM_WRITE | VM_READ | VM_SHARED is 7.
unfoldable pub fill : (Vma → Vma × ℕ) → ℕ → ℕ → ℕ → Vma → Vma × Buffer
fill driver addr len pgoff old = finish (
    driver (record {
      vm_start = addr;
      vm_end = (addr + len) % 2 ^ 64;
      vm_pgoff = pgoff;
      vm_flags = 7;
      closes = old.closes;
      buffer = failed;
    }))

-- The second loop and what follows: the first entry without a mapping is filled.
unfoldable pub place_if :
    Bool → Vma → List Vma → Vma × Buffer → List Vma × Buffer → List Vma × Buffer
place_if true v vs filled rest = (v ∷ rest.0, rest.1)
place_if false v vs filled rest = (filled.0 ∷ vs, filled.1)

unfoldable pub place : (Vma → Vma × Buffer) → List Vma → List Vma × Buffer
place f [] = ([], failed)
place f (v ∷ vs) = place_if (is_mapped v.buffer) v vs (f v) (place f vs)

unfoldable pub map_region : (Vma → Vma × ℕ) → ℕ → ℕ → ℕ → List Vma → Option ℕ → List Vma × Buffer
map_region driver addr len pgoff vs (some a) = (vs, mapped a)
map_region driver addr len pgoff vs none = place (fill driver addr len pgoff) vs

-- For a handle whose driver has an `mmap`; without one the answer is `failed`.
unfoldable pub linux_mmap : Option (Vma → Vma × ℕ) → ℕ → ℕ → ℕ → List Vma → List Vma × Buffer
linux_mmap none addr len offset vs = (vs, failed)
linux_mmap (some driver) addr len offset vs =
    let pgoff = offset / page_size in
    let size = round_len len in
    if len == 0
    then (vs, failed)
    else if offset % page_size == 0
    then map_region driver addr size pgoff vs (find_mapped size pgoff vs)
    else (vs, failed)

-- The entries whose `close` is called, in order.
unfoldable pub close_regions : ℕ → List Vma → List ℕ
close_regions i [] = []
close_regions i (v ∷ vs) =
    let rest = close_regions (i + 1) vs in if is_mapped v.buffer && v.closes then i ∷ rest else rest

unfoldable pub covers : ℕ → ℕ → Vma → Bool
covers start npages v =
    not (ltb start v.vm_start || ltb v.vm_end start) && leb npages ((v.vm_end - start) / page_size)

unfoldable pub pages : ℕ → ℕ → List ℕ
pages a zero = []
pages a (suc n) = a ∷ pages (a + page_size) n

unfoldable pub if_covers : Bool → Buffer → ℕ → ℕ → Option (List ℕ) → Option (List ℕ)
if_covers true (mapped a) off npages rest = some (pages (a + off) npages)
if_covers _ _ off npages rest = rest

unfoldable pub find_pages : ℕ → ℕ → List Vma → Option (List ℕ)
find_pages start npages [] = none
find_pages start npages (v ∷ vs) =
    if_covers (covers start npages v) v.buffer (start - v.vm_start) npages
      (find_pages start npages vs)

-- The pages for a handle, or `none` for the answer -1; `npages` that are not positive are 0 here.
unfoldable pub linux_get_user_pages : ℕ → ℕ → Option (List Vma) → Option (List ℕ)
linux_get_user_pages start npages none = none
linux_get_user_pages start npages (some vs) =
    if npages == 0
    then none
    else if start % page_size == 0
    then find_pages start npages vs
    else none
