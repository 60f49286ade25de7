-- ===== src/Task/Order.antt =====
-- The order in which the worker of kernel/linux_task.c runs the works.
use webcamd.Prelude.{
  ℕ, ◌≡◌, List, [], ◌∷◌, ◌++◌, length, refl, ap, ◌∙◌, sym, some, append_assoc, append_nil, subst,
  false,
}
use webcamd.Tailq.{IsTailq, erase, unlink}
use webcamd.Tailq.Laws.{unlink-IsTailq, unlink-queue, erase-head}
use webcamd.Task.Works.{Works, take_work, finish_work, turn, work_exec, take_first, run_taken}

-- What the function of a work may do to the queue: add works behind the pending ones.
abbrev pub Appends : Works → Works → Type 0
Appends s s' = IsTailq s'.head × (new : List ℕ) × (s'.head.queue ≡ s.head.queue ++ new)

pub turn-some :
    (func : ℕ → Works → Works) (t : ℕ) (rest : List ℕ) (s : Works)
    → s.head.queue ≡ t ∷ rest
    → turn func s
      ≡ (finish_work (func t (record s { head = unlink t s.head; curr = some t })), t ∷ [])
unfolding turn take_work run_taken take_first
turn-some func t rest s e = ap (λ q. run_taken func (take_first s q)) e

pub turn-none :
    (func : ℕ → Works → Works) (s : Works)
    → s.head.queue ≡ []
    → turn func s ≡ (record s { flush_var = false }, [])
unfolding turn take_work run_taken take_first
turn-none func s e = ap (λ q. run_taken func (take_first s q)) e

module _ (func : ℕ → Works → Works)
    (appends : (t : ℕ) (s : Works) → IsTailq s.head → Appends s (func t s)) where
  turn_lem :
      (t : ℕ) (rest : List ℕ) (s : Works)
      → IsTailq s.head
      → s.head.queue ≡ t ∷ rest
      → ((turn func s).1 ≡ t ∷ [])
        × IsTailq (turn func s).0.head
        × (new : List ℕ) × ((turn func s).0.head.queue ≡ rest ++ new)
  unfolding turn take_work take_first run_taken finish_work
  turn_lem t rest s h e =
      let (k, new, q) =
        appends t (record s { head = unlink t s.head; curr = some t })
          (unlink-IsTailq t s.head h) in
      let w = turn-some func t rest s e in
      (
        ap (λ r. r.1) w,
        subst (λ r. IsTailq r.0.head) (sym w) k,
        new,
        ap (λ r. r.0.head.queue) w
            ∙ q
            ∙ ap (λ l. l ++ new) (unlink-queue t s.head ∙ ap (erase t) e ∙ erase-head t rest),
      )

  -- The functions of the works add works to the queue behind the pending ones, and cancel none. Then,
  -- from a well-formed queue, the works that are pending run in the order in which they were scheduled, each once, and before
  -- every work that is scheduled later, by the functions that run or by others: as many turns as
  -- there are pending works run just these.
  pub work_exec-ordered :
      (first later : List ℕ) (s : Works)
      → IsTailq s.head
      → s.head.queue ≡ first ++ later
      → ((work_exec func (length first) s).1 ≡ first)
        × IsTailq (work_exec func (length first) s).0.head
        × (new : List ℕ) × ((work_exec func (length first) s).0.head.queue ≡ later ++ new)
  unfolding work_exec
  work_exec-ordered [] later s h e = (refl, h, [], e ∙ sym (append_nil later))
  work_exec-ordered (t ∷ first) later s h e =
      let (r, k, new, q) = turn_lem t (first ++ later) s h e in
      let (r', k', new', q') =
        work_exec-ordered first (later ++ new) (turn func s).0 k
          (q ∙ append_assoc first later new) in
      (
        ap (λ l. l ++ (work_exec func (length first) (turn func s).0).1) r ∙ ap (λ l. t ∷ l) r',
        k',
        new ++ new',
        q' ∙ append_assoc later new new',
      )
