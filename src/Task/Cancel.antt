-- ===== src/Task/Cancel.antt =====
-- What cancelling and flushing do to a work (kernel/linux_task.c).
use mathlib.Core.Option
use webcamd.Prelude.{
  ℕ, suc, ◌≡◌, ◌≢◌, ◌↔◌, true, false, ◌||◌, if◌then◌else◌, Option, none, some, List, [], ◌∷◌,
  length, refl, ap, ◌∙◌, sym, subst, Bool-cases, inl, inr, arith, replicate,
}
use webcamd.Tailq.{IsTailq, erase, unlink, mem, insert_tail, mark}
use webcamd.Tailq.Laws.{
  insert_tail-IsTailq, unlink-IsTailq, unlink-queue, unlink-linked, erase-head, erase_absent,
}
use webcamd.Timer.Calls.{timer_pending, add_timer}
use webcamd.Task.Works.{
  Works, schedule_work, schedule_delayed_work, delayed_work_timer_fn, finish_work, turn, is_current,
  wait_while, cancel_work, flush_work, cancel_delayed_work, flush_scheduled_work,
}
use webcamd.Task.Order.{turn-some, turn-none}

-- A cancelled work is not pending, and the others stay pending in their order.
pub cancel_work-Cancels :
    (work : ℕ) (s : Works)
    → IsTailq s.head
    → IsTailq (cancel_work work s).head
      × ((cancel_work work s).head.linked work ≡ false)
      × ((cancel_work work s).head.queue ≡ erase work s.head.queue)
unfolding cancel_work
cancel_work-Cancels work s h = elim (Bool-cases (s.head.linked work)) [
  | inl e ↦ rw e (unlink-IsTailq work s.head h, unlink-linked work s.head, unlink-queue work s.head)
  | inr e ↦ rw e (h, e, sym (erase_absent work s.head.queue (sym (h.linked work) ∙ e)))
]

again : (work : ℕ) (s : Works) → s.head.linked work ≡ true → schedule_work work s ≡ (s, 0)
unfolding schedule_work
again work s e = rw e refl

fresh :
    (work : ℕ) (s : Works)
    → s.head.linked work ≡ false
    → schedule_work work s ≡ (record s { head = insert_tail work s.head }, 1)
unfolding schedule_work
fresh work s e = rw e refl

schedule_work-linked : (work : ℕ) (s : Works) → (schedule_work work s).0.head.linked work ≡ true
unfolding insert_tail mark
schedule_work-linked work s = elim (Bool-cases (s.head.linked work)) [
  | inl e ↦ ap (λ r. r.0.head.linked work) (again work s e) ∙ e
  | inr e ↦ ap (λ r. r.0.head.linked work) (fresh work s e) ∙ ground arith
]

-- Scheduling answers 0 exactly for a pending work, and a second call before the work ran answers 0
-- and changes nothing, so that the work runs once.
pub schedule_work-twice :
    (work : ℕ) (s : Works)
    → IsTailq s.head
    → IsTailq (schedule_work work s).0.head
      × (schedule_work work (schedule_work work s).0 ≡ ((schedule_work work s).0, 0))
      × (((schedule_work work s).1 ≡ 0) ↔ (mem work s.head.queue ≡ true))
schedule_work-twice work s h =
    (kept, again work (schedule_work work s).0 (schedule_work-linked work s), answer)
  where
    kept : IsTailq (schedule_work work s).0.head
    kept = elim (Bool-cases (s.head.linked work)) [
      | inl e ↦ subst (λ r. IsTailq r.0.head) (sym (again work s e)) h
      | inr e ↦
          subst (λ r. IsTailq r.0.head) (sym (fresh work s e)) (insert_tail-IsTailq work s.head e h)
    ]

    answer : ((schedule_work work s).1 ≡ 0) ↔ (mem work s.head.queue ≡ true)
    answer = elim (Bool-cases (s.head.linked work)) [
      | inl e ↦ ((λ _. sym (h.linked work) ∙ e), λ _. ap (λ r. r.1) (again work s e))
      | inr e ↦ (
        (λ z. absurd (ground (arith, sym (ap (λ r. r.1) (fresh work s e)) ∙ z))),
        λ m. absurd (ground (arith, sym e ∙ h.linked work ∙ m)),
      )
    ]

module _ (func : ℕ → Works → Works)
    (keeps : (t : ℕ) (s : Works)
      → ((func t s).head ≡ s.head) × ((func t s).flush_var ≡ s.flush_var)) where
  abbrev worker : Works → Works
  worker s = (turn func s).0

  worker_lem :
      (t : ℕ) (rest : List ℕ) (s : Works)
      → IsTailq s.head
      → s.head.queue ≡ t ∷ rest
      → IsTailq (worker s).head
        × ((worker s).head.queue ≡ rest)
        × ((worker s).curr ≡ none)
        × ((worker s).flush_var ≡ s.flush_var)
  unfolding finish_work
  worker_lem t rest s h e =
      let s0 = record s { head = unlink t s.head; curr = some t } in
      let w = turn-some func t rest s e in
      let (k, f) = keeps t s0 in
      (
        subst (λ r. IsTailq r.0.head) (sym w)
            (subst (λ q. IsTailq q) (sym k) (unlink-IsTailq t s.head h)),
        ap (λ r. r.0.head.queue) w
            ∙ ap (λ q. q.queue) k
            ∙ (unlink-queue t s.head ∙ ap (erase t) e ∙ erase-head t rest),
        ap (λ r. r.0.curr) w,
        ap (λ r. r.0.flush_var) w ∙ f,
      )

  wait_lem :
      (work : ℕ) (q : List ℕ) (s : Works)
      → IsTailq s.head
      → s.head.queue ≡ q
      → s.curr ≡ none
      → (s' : Works) × (wait_while
            (λ s'. s'.head.linked work || is_current work s'.curr)
            (replicate (length q) worker)
            s
          ≡ some s')
        × (s'.head.linked work ≡ false)
        × (is_current work s'.curr ≡ false)
  unfolding wait_while is_current
  wait_lem work [] s h e c =
      let l = h.linked work ∙ ap (mem work) e in
      let i = ap (is_current work) c in (s, rw (l, i) refl, l, i)
  wait_lem work (t ∷ q) s h e c = elim (Bool-cases (s.head.linked work)) [
    | inl x ↦
        let (k, e', c', _) = worker_lem t q s h e in
        let (s', r, l, m) = wait_lem work q (worker s) k e' c' in (s', rw x r, l, m)
    | inr x ↦ let i = ap (is_current work) c in (s, rw (x, i) refl, x, i)
  ]

  -- While no function schedules works and none runs at first, `flush_work` returns once the worker
  -- has had as many turns as there are pending works, and then the work is neither pending nor
  -- running; it answers whether the work was pending.
  pub flush_work-Returns :
      (work : ℕ) (s : Works)
      → IsTailq s.head
      → s.curr ≡ none
      → (s' : Works) × (flush_work work (replicate (length s.head.queue) worker) s
          ≡ some (s', mem work s.head.queue))
        × (s'.head.linked work ≡ false)
        × (is_current work s'.curr ≡ false)
  unfolding flush_work
  flush_work-Returns work s h c =
      let (s', r, l, m) = wait_lem work s.head.queue s h refl c in
      (
        s',
        ap (Option.map (λ s'. (s', s.head.linked work))) r ∙ ap (λ b. some (s', b)) (h.linked work),
        l,
        m,
      )

  held_up :
      (s : Works) (o : Option Works) → s.flush_var ≡ true → (if s.flush_var then o else some s) ≡ o
  held_up s o f = rw f refl

  stops :
      (w s : Works) → w ≡ s → s.flush_var ≡ false → (if w.flush_var then none else some w) ≡ some s
  stops w s e f = subst (λ w. (if w.flush_var then none else some w) ≡ some s) (sym e) (rw f refl)

  empty_lem :
      (q : List ℕ) (s : Works)
      → IsTailq s.head
      → s.head.queue ≡ q
      → s.flush_var ≡ true
      → (s' : Works) × (wait_while (λ s'. s'.flush_var) (replicate (suc (length q)) worker) s
          ≡ some s')
        × (s'.head.queue ≡ [])
  unfolding wait_while
  empty_lem [] s h e f = (
    record s { flush_var = false },
    held_up s _ f
        ∙ stops (worker s) (record s { flush_var = false }) (ap (λ r. r.0) (turn-none func s e))
            refl,
    e,
  )
  empty_lem (t ∷ q) s h e f =
      let (k, e', _, f') = worker_lem t q s h e in
      let (s', r, x) = empty_lem q (worker s) k e' (f' ∙ f) in (s', held_up s _ f ∙ r, x)

  -- While no function schedules works, `flush_scheduled_work` returns after one turn more than there
  -- are pending works, and then none is pending.
  pub flush_scheduled_work-Returns :
      (s : Works)
      → IsTailq s.head
      → (s' : Works) × (flush_scheduled_work (replicate (suc (length s.head.queue)) worker) s
          ≡ some s')
        × (s'.head.queue ≡ [])
  unfolding flush_scheduled_work
  flush_scheduled_work-Returns s h =
      let (s', r, e) = empty_lem s.head.queue (record s { flush_var = true }) h refl refl in
      (s', r, e)

cancel_work-timers : (work : ℕ) (s : Works) → (cancel_work work s).timers ≡ s.timers
unfolding cancel_work
cancel_work-timers work s = ground arith

delayed_lem :
    (work delay jiffies : ℕ) (s : Works)
    → delay ≢ 0
    → timer_pending work s.timers ≡ false
    → timer_pending work (schedule_delayed_work work delay jiffies s).0.timers ≡ true
unfolding schedule_delayed_work timer_pending add_timer insert_tail mark
delayed_lem work delay jiffies s d p = ground (arith, d, p)

-- A delayed work that is cancelled before its time is scheduled at its time all the same: the timer
-- stays pending, and its function makes the work pending.
cancel_delayed_work-fires :
    (work delay jiffies : ℕ) (s : Works)
    → delay ≢ 0
    → timer_pending work s.timers ≡ false
    → (timer_pending work
          (cancel_delayed_work work (schedule_delayed_work work delay jiffies s).0).timers
        ≡ true)
      × ((delayed_work_timer_fn work
              (cancel_delayed_work work (schedule_delayed_work work delay jiffies s).0)).head.linked
            work
          ≡ true)
unfolding cancel_delayed_work delayed_work_timer_fn
cancel_delayed_work-fires work delay jiffies s d p = (
  ap (timer_pending work) (cancel_work-timers work (schedule_delayed_work work delay jiffies s).0)
      ∙ delayed_lem work delay jiffies s d p,
  schedule_work-linked work (cancel_work work (schedule_delayed_work work delay jiffies s).0),
)
