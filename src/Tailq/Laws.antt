-- ===== src/Tailq/Laws.antt =====
-- The queue operations keep a queue well formed.
use webcamd.Prelude.{
  ℕ, ◌≡◌, false, not, ◌&&◌, ◌||◌, ◌==◌, List, [], ◌∷◌, ◌++◌, refl, arith, Bool-cases, inl, inr,
}
use webcamd.Tailq.{Tailq, empty, mark, erase, insert_tail, unlink, mem, IsNodup, IsTailq}

mem-append : (u t : ℕ) (q : List ℕ) → mem u (q ++ (t ∷ [])) ≡ (mem u q || (t == u))
mem-append u t [] = ground arith
mem-append u t (v ∷ q) = ground (arith, mem-append u t q)

append-IsNodup : (t : ℕ) (q : List ℕ) → mem t q ≡ false → IsNodup q → IsNodup (q ++ (t ∷ []))
append-IsNodup t [] e h = (refl, tt)
append-IsNodup t (v ∷ q) e (n, h) =
    (ground (arith, mem-append v t q, e, n), append-IsNodup t q (ground (arith, e)) h)

mem-erase : (u t : ℕ) (q : List ℕ) → IsNodup q → mem u (erase t q) ≡ (mem u q && not (t == u))
unfolding erase
mem-erase u t [] h = ground arith
mem-erase u t (v ∷ q) (n, h) = ground (arith, mem-erase u t q h, n)

erase-IsNodup : (t : ℕ) (q : List ℕ) → IsNodup q → IsNodup (erase t q)
unfolding erase
erase-IsNodup t [] h = tt
erase-IsNodup t (v ∷ q) (n, h) = elim (Bool-cases (t == v)) [
  | inl e ↦ rw e h
  | inr e ↦ rw e (ground (arith, mem-erase v t q h, n), erase-IsNodup t q h)
]

pub empty-IsTailq : IsTailq empty
unfolding empty
empty-IsTailq = record { nodup = tt; linked = λ t. refl }

pub insert_tail-IsTailq :
    (t : ℕ) (q : Tailq) → q.linked t ≡ false → IsTailq q → IsTailq (insert_tail t q)
unfolding insert_tail mark
insert_tail-IsTailq t q e h = record {
  nodup = append-IsNodup t q.queue (ground (arith, e, h.linked t)) h.nodup;
  linked = λ u. ground (arith, h.linked u, mem-append u t q.queue);
}

pub unlink-IsTailq : (t : ℕ) (q : Tailq) → IsTailq q → IsTailq (unlink t q)
unfolding unlink mark
unlink-IsTailq t q h = record {
  nodup = erase-IsNodup t q.queue h.nodup;
  linked = λ u. ground (arith, h.linked u, mem-erase u t q.queue h.nodup);
}

pub erase_absent : (t : ℕ) (q : List ℕ) → mem t q ≡ false → erase t q ≡ q
unfolding erase
erase_absent t [] e = refl
erase_absent t (v ∷ q) e = ground (arith, erase_absent t q (ground (arith, e)), e)

pub unlink-linked : (t : ℕ) (q : Tailq) → (unlink t q).linked t ≡ false
unfolding unlink mark
unlink-linked t q = ground arith

pub unlink-queue : (t : ℕ) (q : Tailq) → (unlink t q).queue ≡ erase t q.queue
unfolding unlink
unlink-queue t q = refl

pub erase-head : (t : ℕ) (q : List ℕ) → erase t (t ∷ q) ≡ q
unfolding erase
erase-head t q = ground arith
