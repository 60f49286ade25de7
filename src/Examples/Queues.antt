-- ===== src/Examples/Queues.antt =====
-- Works and RCU callbacks of kernel/linux_task.c.
use webcamd.Prelude.{
  ℕ, suc, ◌≡◌, false, refl, none, some, List, [], ◌∷◌, ◌++◌, length, sym, inl, inr, Bool-cases,
  replicate, append_nil,
}
use webcamd.Tailq.{empty, insert_tail, mark, IsTailq}
use webcamd.Tailq.Laws.{empty-IsTailq, insert_tail-IsTailq}
use webcamd.Task.Works.{Works, schedule_work, turn, work_exec, flush_scheduled_work}
use webcamd.Task.Order.{Appends, work_exec-ordered}
use webcamd.Task.Cancel.{schedule_work-twice, flush_scheduled_work-Returns}
use webcamd.Task.Rcu.{Rcu}

-- The works 3 and 5 are pending.
abbrev pending : Works
pending = record {
  head = insert_tail 5 (insert_tail 3 empty);
  curr = none;
  flush_var = false;
  timers = record { head = empty; expires = λ _. 0 };
}

pending-IsTailq : IsTailq pending.head
unfolding insert_tail mark empty
pending-IsTailq =
    insert_tail-IsTailq 5 (insert_tail 3 empty) refl
      (insert_tail-IsTailq 3 empty refl empty-IsTailq)

-- Every work schedules the work 9.
abbrev func : ℕ → Works → Works
func t s = (schedule_work 9 s).0

added : (s : Works) → (new : List ℕ) × ((schedule_work 9 s).0.head.queue ≡ s.head.queue ++ new)
unfolding schedule_work insert_tail
added s = elim (Bool-cases (s.head.linked 9)) [
  | inl e ↦ ([], rw e (sym (append_nil s.head.queue)))
  | inr e ↦ (9 ∷ [], rw e refl)
]

func-Appends : (t : ℕ) (s : Works) → IsTailq s.head → Appends s (func t s)
func-Appends t s h = let (new, e) = added s in ((schedule_work-twice 9 s h).0, new, e)

work_exec-ordered_example :
    ((work_exec func 2 pending).1 ≡ 3 ∷ 5 ∷ [])
    × IsTailq (work_exec func 2 pending).0.head
    × (new : List ℕ) × ((work_exec func 2 pending).0.head.queue ≡ [] ++ new)
unfolding insert_tail empty
work_exec-ordered_example =
    work_exec-ordered func func-Appends (3 ∷ 5 ∷ []) [] pending pending-IsTailq refl

-- Functions that schedule nothing.
abbrev worker : Works → Works
worker s = (turn (λ t s. s) s).0

flush_scheduled_work-Returns_example :
    (s' : Works) × (flush_scheduled_work
        (replicate (suc (length pending.head.queue)) worker)
        pending
      ≡ some s')
    × (s'.head.queue ≡ [])
flush_scheduled_work-Returns_example =
    flush_scheduled_work-Returns (λ t s. s) (λ t s. (refl, refl)) pending pending-IsTailq

abbrev idle : Rcu
idle = record { head = none; next = λ _. none; func = λ _. 0 }
