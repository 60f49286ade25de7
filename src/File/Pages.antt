-- ===== src/File/Pages.antt =====
-- Where the pages of `linux_get_user_pages` lie (kernel/linux_file.c).
use webcamd.Prelude.{
  ℕ, zero, suc, ◌+◌, ◌-◌, ◌*◌, ◌%◌, ◌<◌, ◌≤◌, ◌≡◌, Bool, true, false, ◌==◌, Option, none, some,
  List, [], ◌∷◌, refl, sym, ap, ◌∙◌, arith, inl, inr, Bool-cases, get_elem?, length, subst,
}
use webcamd.File.Mapping.{
  Buffer, null, failed, mapped, Vma, page_size, covers, pages, if_covers, find_pages,
  linux_get_user_pages,
}

-- The pages are those of the region of entry `i` from `start` on, and do not reach past its end.
pub record Within (start npages : ℕ) (vs : List Vma) (ps : List ℕ) : Type 0 where
  pub entry : ℕ
  pub vma : Vma
  pub address : ℕ
  pub is_entry : get_elem? vs entry ≡ some vma
  pub is_mapped : vma.buffer ≡ mapped address
  pub after_start : vma.vm_start ≤ start
  pub before_end : start + npages * page_size ≤ vma.vm_end
  pub count : length ps ≡ npages
  pub page :
      (j : ℕ)
      → j < npages
      → get_elem? ps j ≡ some (address + (start - vma.vm_start) + j * page_size)

length-pages : (a n : ℕ) → length (pages a n) ≡ n
unfolding pages
length-pages a zero = refl
length-pages a (suc n) = ap suc (length-pages (a + page_size) n)

get_elem?-pages : (a n j : ℕ) → j < n → get_elem? (pages a n) j ≡ some (a + j * page_size)
unfolding pages
get_elem?-pages a zero j b = absurd (omega (arith, b))
get_elem?-pages a (suc n) zero b = ground arith
get_elem?-pages a (suc n) (suc j) b =
    get_elem?-pages (a + page_size) n j (omega arith) ∙ ap some (omega arith)

covers_lem :
    (start npages : ℕ) (v : Vma)
    → covers start npages v ≡ true
    → (v.vm_start ≤ start) × (start + npages * page_size ≤ v.vm_end)
unfolding covers
covers_lem start npages v e = (ground (arith, e), ground (arith, e))

later :
    {start npages : ℕ} {v : Vma} {vs : List Vma} {ps : List ℕ}
    → Within start npages vs ps
    → Within start npages (v ∷ vs) ps
later w = record {
  entry = suc w.entry;
  vma = w.vma;
  address = w.address;
  is_entry = w.is_entry;
  is_mapped = w.is_mapped;
  after_start = w.after_start;
  before_end = w.before_end;
  count = w.count;
  page = w.page;
}

here :
    (start npages a : ℕ) (v : Vma) (vs : List Vma)
    → covers start npages v ≡ true
    → v.buffer ≡ mapped a
    → Within start npages (v ∷ vs) (pages (a + (start - v.vm_start)) npages)
here start npages a v vs e f = record {
  entry = 0;
  vma = v;
  address = a;
  is_entry = refl;
  is_mapped = f;
  after_start = (covers_lem start npages v e).0;
  before_end = (covers_lem start npages v e).1;
  count = length-pages (a + (start - v.vm_start)) npages;
  page = λ j b. get_elem?-pages (a + (start - v.vm_start)) npages j b;
}

abbrev either : List ℕ → Option (List ℕ) → List ℕ
either ps none = ps
either ps (some qs) = qs

if_covers_lem :
    (start npages : ℕ) (v : Vma) (vs : List Vma) (ps : List ℕ) (rest : Option (List ℕ)) (c : Bool)
    (b : Buffer)
    → covers start npages v ≡ c
    → v.buffer ≡ b
    → (rest ≡ some ps → Within start npages vs ps)
    → if_covers c b (start - v.vm_start) npages rest ≡ some ps
    → Within start npages (v ∷ vs) ps
unfolding if_covers
if_covers_lem start npages v vs ps rest true (mapped a) e f r h =
    subst (λ ps. Within start npages (v ∷ vs) ps) (ap (either ps) h) (here start npages a v vs e f)
if_covers_lem start npages v vs ps rest true null e f r h = later (r h)
if_covers_lem start npages v vs ps rest true failed e f r h = later (r h)
if_covers_lem start npages v vs ps rest false b e f r h = later (r h)

find_pages-Within :
    (start npages : ℕ) (vs : List Vma) (ps : List ℕ)
    → find_pages start npages vs ≡ some ps
    → Within start npages vs ps
unfolding find_pages
find_pages-Within start npages [] ps h = absurd (ground (arith, h))
find_pages-Within start npages (v ∷ vs) ps h =
    if_covers_lem start npages v vs ps (find_pages start npages vs) (covers start npages v) v.buffer
      refl refl (find_pages-Within start npages vs ps) h

-- The pages that `linux_get_user_pages` gives are as many as asked for, one after the other in one
-- mapped region from the place of `start` on, and the last one ends within that region.
pub linux_get_user_pages-Within :
    (start npages : ℕ) (vs : List Vma) (ps : List ℕ)
    → linux_get_user_pages start npages (some vs) ≡ some ps
    → Within start npages vs ps
unfolding linux_get_user_pages
linux_get_user_pages-Within start npages vs ps h = elim (Bool-cases (npages == 0)) [
  | inl z ↦ absurd (ground (arith, z, h))
  | inr z ↦ elim (Bool-cases (start % page_size == 0)) [
    | inl p ↦ find_pages-Within start npages vs ps (sym (rw (z, p) refl) ∙ h)
    | inr p ↦ absurd (ground (arith, z, p, h))
  ]
]
