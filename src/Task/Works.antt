-- ===== src/Task/Works.antt =====
-- The work queue of kernel/linux_task.c. Each call holds the process-wide lock, so it is one step;
-- the worker gives it up around the function of a work.
use mathlib.Core.Option
use webcamd.Prelude.{
  ◌++◌, ℕ, zero, suc, ◌+◌, ◌%◌, ◌^◌, Bool, true, false, ◌||◌, ◌==◌, if◌then◌else◌, Option, none,
  some, List, [], ◌∷◌,
}
use webcamd.Tailq.{Tailq, insert_tail, unlink}
use webcamd.Timer.Calls.{Timers, timer_pending, add_timer, set_expires}

-- `work_head`, `work_curr` and `flush_work_var`, and the timers of the delayed works. A delayed
-- work, its work and its timer have one number.
pub record Works : Type 0 where
  pub head : Tailq
  pub curr : Option ℕ
  pub flush_var : Bool
  pub timers : Timers

unfoldable pub schedule_work : ℕ → Works → Works × ℕ
schedule_work work s =
    if s.head.linked work then (s, 0) else (record s { head = insert_tail work s.head }, 1)

unfoldable pub queue_work : ℕ → Works → Works × ℕ
queue_work work s = schedule_work work s

unfoldable pub delayed_work_timer_fn : ℕ → Works → Works
delayed_work_timer_fn t s = (schedule_work t s).0

unfoldable pub schedule_delayed_work : ℕ → ℕ → ℕ → Works → Works × ℕ
schedule_delayed_work work delay jiffies s =
    if delay == 0 then schedule_work work s else if timer_pending work s.timers then (s, 0) else (
      record s { timers = add_timer work (set_expires work ((jiffies + delay) % 2 ^ 64) s.timers) },
      1,
    )

unfoldable pub queue_delayed_work : ℕ → ℕ → ℕ → Works → Works × ℕ
queue_delayed_work work delay jiffies s = schedule_delayed_work work delay jiffies s

-- The worker up to the call of `t->func`, or up to its sleep.
unfoldable pub take_first : Works → List ℕ → Works × Option ℕ
take_first s [] = (record s { flush_var = false }, none)
take_first s (t ∷ ts) = (record s { head = unlink t s.head; curr = some t }, some t)

unfoldable pub take_work : Works → Works × Option ℕ
take_work s = take_first s s.head.queue

unfoldable pub finish_work : Works → Works
finish_work s = record s { curr = none }

-- One turn of the worker; `func` is what the function of a work does to the state.
unfoldable pub run_taken : (ℕ → Works → Works) → Works × Option ℕ → Works × List ℕ
run_taken func (s, none) = (s, [])
run_taken func (s, some t) = (finish_work (func t s), t ∷ [])

unfoldable pub turn : (ℕ → Works → Works) → Works → Works × List ℕ
turn func s = run_taken func (take_work s)

-- The given number of turns, with the works that ran, in order.
unfoldable pub work_exec : (ℕ → Works → Works) → ℕ → Works → Works × List ℕ
work_exec func zero s = (s, [])
work_exec func (suc n) s =
    let (s', ran) = turn func s in let (s'', ran') = work_exec func n s' in (s'', ran ++ ran')

unfoldable pub is_current : ℕ → Option ℕ → Bool
is_current work none = false
is_current work (some t) = t == work

unfoldable pub cancel_work : ℕ → Works → Works
cancel_work work s = if s.head.linked work then record s { head = unlink work s.head } else s

-- The loops around `schedule()`: each element of the list is what other threads do during one such
-- call; `none` says that the loop is not left after them.
unfoldable pub wait_while : (Works → Bool) → List (Works → Works) → Works → Option Works
wait_while test [] s = if test s then none else some s
wait_while test (others ∷ more) s =
    let rest = wait_while test more (others s) in if test s then rest else some s

unfoldable pub flush_work : ℕ → List (Works → Works) → Works → Option (Works × Bool)
flush_work work others s =
    Option.map (λ s'. (s', s.head.linked work))
      (wait_while (λ s'. s'.head.linked work || is_current work s'.curr) others s)

unfoldable pub cancel_work_sync : ℕ → List (Works → Works) → Works → Option Works
cancel_work_sync work others s =
    wait_while (λ s'. is_current work s'.curr) others (cancel_work work s)

unfoldable pub cancel_delayed_work : ℕ → Works → Works
cancel_delayed_work work s = cancel_work work s

unfoldable pub cancel_rearming_delayed_work : ℕ → Works → Works
cancel_rearming_delayed_work work s = cancel_work work s

unfoldable pub cancel_delayed_work_sync : ℕ → List (Works → Works) → Works → Option Works
cancel_delayed_work_sync work others s = cancel_work_sync work others (cancel_work work s)

-- `flush_work_var` is set before the loop; the worker clears it when it finds no work.
unfoldable pub flush_scheduled_work : List (Works → Works) → Works → Option Works
flush_scheduled_work others s =
    wait_while (λ s'. s'.flush_var) others (record s { flush_var = true })

unfoldable pub flush_workqueue : List (Works → Works) → Works → Option Works
flush_workqueue others s = flush_scheduled_work others s

-- A tasklet is a work that it starts with.
unfoldable pub tasklet_schedule : ℕ → Works → Works
tasklet_schedule t s = (schedule_work t s).0

unfoldable pub tasklet_kill : ℕ → Works → Works
tasklet_kill t s = if s.head.linked t then record s { head = unlink t s.head } else s
