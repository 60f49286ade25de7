-- ===== src/Prelude/Stores.antt =====
-- Memory as functions of an address, and its updates.
use webcamd.Prelude.{
  ℕ, zero, suc, ◌+◌, ◌<◌, ◌≤◌, ◌≡◌, ◌==◌, if◌then◌else◌, List, [], ◌∷◌, refl, ap, ◌∙◌, arith,
  length,
}

-- `f[u] = v`.
unfoldable pub assign {ℓ} : {A : Type ℓ} → (ℕ → A) → ℕ → A → ℕ → A
assign f u v w = if w == u then v else f w

-- `n` values from the address `o` on.
unfoldable pub load {ℓ} : {A : Type ℓ} → ℕ → ℕ → (ℕ → A) → List A
load zero o m = []
load (suc n) o m = m o ∷ load n (o + 1) m

-- The values of a list, stored from the address `o` on.
unfoldable pub store {ℓ} : {A : Type ℓ} → List A → ℕ → (ℕ → A) → ℕ → A
unfolding assign
store [] o m = m
store (x ∷ xs) o m = store xs (o + 1) (assign m o x)

pub store-outside_below {ℓ} :
    {A : Type ℓ} (xs : List A) (o i : ℕ) (m : ℕ → A) → i < o → store xs o m i ≡ m i
unfolding store assign
store-outside_below [] o i m h = refl
store-outside_below (x ∷ xs) o i m h =
    store-outside_below xs (o + 1) i (assign m o x) (omega arith) ∙ ground arith

pub store-outside_above {ℓ} :
    {A : Type ℓ} (xs : List A) (o i : ℕ) (m : ℕ → A) → o + length xs ≤ i → store xs o m i ≡ m i
unfolding store assign
store-outside_above [] o i m h = refl
store-outside_above (x ∷ xs) o i m h =
    store-outside_above xs (o + 1) i (assign m o x) (omega arith) ∙ ground arith

-- Two memories that agree on the addresses are read alike.
pub load-same {ℓ} :
    {A : Type ℓ} (n o : ℕ) (m m' : ℕ → A)
    → ((i : ℕ) → o ≤ i → i < o + n → m i ≡ m' i)
    → load n o m ≡ load n o m'
unfolding load
load-same zero o m m' h = refl
load-same (suc n) o m m' h =
    ap (λ x. x ∷ load n (o + 1) m) (h o (omega arith) (omega arith))
    ∙ ap (λ xs. m' o ∷ xs) (load-same n (o + 1) m m' (λ i a b. h i (omega arith) (omega arith)))

-- What is stored is read.
pub load-store {ℓ} :
    {A : Type ℓ} (xs : List A) (o : ℕ) (m : ℕ → A) → load (length xs) o (store xs o m) ≡ xs
unfolding load store assign
load-store [] o m = refl
load-store (x ∷ xs) o m =
    ap (λ y. y ∷ load (length xs) (o + 1) (store xs (o + 1) (assign m o x)))
      (store-outside_below xs (o + 1) o (assign m o x) (omega arith) ∙ ground arith)
    ∙ ap (λ ys. x ∷ ys) (load-store xs (o + 1) (assign m o x))
