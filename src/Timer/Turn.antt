-- ===== src/Timer/Turn.antt =====
-- A turn of the timer thread as the pollers see it (`timer_exec` of kernel/linux_timer.c).
use mathlib.Core.Option
use webcamd.Prelude.{ℕ, ◌+◌, ◌<◌, ◌≡◌, if◌then◌else◌, List, some, ap, length, false}
use webcamd.Prelude.Int.{ℤ}
use webcamd.Tailq.{IsTailq}
use webcamd.Thread.Waiting.{WaitQueue}
use webcamd.Thread.Sleeping.{any_poller, wake_up_inhibit_once}
use webcamd.Timer.Calls.{Timers, TimerThread, compute_delay, timer_exec, woken_by}
use webcamd.Timer.Scan.{Rearms, Ran, is_expired, filter, run_expired-Ran}

-- A turn with functions that restart timers as `Rearms` says returns, and has called the pollers once
-- if one of the queues that the expired timers wake up is polled, and else not at all, however many
-- queues that are.
pub timer_exec-polls :
    (function : ℕ → Timers → Timers) (rearmed : ℕ → List ℕ) (woken : ℕ → List WaitQueue)
    (last_jiffies : ℕ)
    → ((t : ℕ) (s : Timers)
        → IsTailq s.head
        → s.head.linked t ≡ false
        → Rearms last_jiffies rearmed t s (function t s))
    → (fuel : ℕ) (timer_needed : ℤ) (p : TimerThread) → IsTailq p.timers.head
    → length (filter (is_expired p.timers.expires last_jiffies) p.timers.head.queue) < fuel
    → (p' : TimerThread) × (ran : List ℕ) × (ms_delay : ℕ) × (timer_exec function woken fuel
          last_jiffies timer_needed p
        ≡ some (p', ran, ms_delay))
      × Ran last_jiffies rearmed p.timers p'.timers ran
      × (p'.inhibit.polls
          ≡ (if any_poller (woken_by woken ran) then p.inhibit.polls + 1 else p.inhibit.polls))
unfolding timer_exec
timer_exec-polls function rearmed woken last_jiffies rearms fuel timer_needed p h b =
    let (s', ran, e, r) = run_expired-Ran function rearmed last_jiffies rearms fuel p.timers h b in
    (
      _,
      ran,
      compute_delay timer_needed p.timers.head,
      ap (Option.map _) e,
      r,
      ap (λ w. w.polls) (wake_up_inhibit_once (woken_by woken ran) p.inhibit),
    )
