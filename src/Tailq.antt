-- ===== src/Tailq.antt =====
-- The TAILQ queues of kernel/linux_timer.c and kernel/linux_task.c. An element is the number of the
-- struct that holds the links; `linked` says that its `entry.tqe_prev` is not NULL, which is how
-- the code knows that it is queued.
use webcamd.Prelude.{
  ℕ, ◌+◌, ◌≡◌, Bool, true, false, not, ◌&&◌, ◌||◌, ◌==◌, if◌then◌else◌, List, [], ◌∷◌, ◌++◌,
}
pub mod Laws

pub record Tailq : Type 0 where
  pub queue : List ℕ
  pub linked : ℕ → Bool

unfoldable pub empty : Tailq
empty = record { queue = []; linked = λ _. false }

unfoldable pub mark : (ℕ → Bool) → ℕ → Bool → ℕ → Bool
mark f t b u = if t == u then b else f u

-- The first occurrence, as the links have one.
unfoldable pub erase : ℕ → List ℕ → List ℕ
erase t [] = []
erase t (u ∷ us) = if t == u then us else u ∷ erase t us

-- `TAILQ_INSERT_TAIL`
unfoldable pub insert_tail : ℕ → Tailq → Tailq
insert_tail t q = record { queue = q.queue ++ (t ∷ []); linked = mark q.linked t true }

-- `TAILQ_REMOVE`, and `tqe_prev = NULL`
unfoldable pub unlink : ℕ → Tailq → Tailq
unlink t q = record { queue = erase t q.queue; linked = mark q.linked t false }

abbrev pub mem : ℕ → List ℕ → Bool
mem t [] = false
mem t (u ∷ us) = (u == t) || mem t us

abbrev pub IsNodup : List ℕ → Type 0
IsNodup [] = Unit
IsNodup (t ∷ ts) = (mem t ts ≡ false) × IsNodup ts

-- An element is linked exactly if it is in the queue, where it stands once.
pub record IsTailq (q : Tailq) : Type 0 where
  pub nodup : IsNodup q.queue
  pub linked : (t : ℕ) → q.linked t ≡ mem t q.queue
