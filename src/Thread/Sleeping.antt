-- ===== src/Thread/Sleeping.antt =====
-- What sleeping and waking do to the lock and to pollers (kernel/linux_thread.c).
use webcamd.Prelude.{
  ℕ, zero, suc, ◌+◌, ◌*◌, ◌^◌, ◌<◌, ◌≡◌, Bool, true, false, if◌then◌else◌, List, arith, [], ◌∷◌,
  refl, ◌||◌, ◌≢◌,
}
use webcamd.Thread.Waiting.{
  Lock, atomic_lock, atomic_unlock, atomic_pre_sleep, atomic_post_sleep, drop_loop, atomic_drop,
  atomic_pickup, WaitQueue, fall_asleep, wake, wait_event, Wakeups, wake_up_inhibit, wake_up,
  wake_up_each, Timespec, wait_get_timeout,
}

-- The lock as a thread that took it `d` times sees it.
abbrev pub held : ℕ → Lock
held d = record { count = d; recurse = d }

drop_loop_lem :
    (fuel d drops : ℕ)
    → d < fuel + 1
    → d + drops < 2 ^ 32
    → drop_loop fuel (held (suc d)) drops ≡ (held 1, drops + d)
unfolding drop_loop atomic_unlock
drop_loop_lem zero zero drops f b = ground arith
drop_loop_lem zero (suc d) drops f b = absurd (omega arith)
drop_loop_lem (suc fuel) zero drops f b = ground arith
drop_loop_lem (suc fuel) (suc d) drops f b =
    ground (arith, drop_loop_lem fuel d (drops + 1) (omega arith) (omega arith))

pickup_lem : (n d : ℕ) → n + d < 2 ^ 32 → atomic_pickup n (held d) ≡ held (n + d)
unfolding atomic_pickup atomic_lock
pickup_lem zero d b = ground arith
pickup_lem (suc n) d b = ground (arith, pickup_lem n (d + 1) (omega arith))

-- A thread that has taken the lock `d + 1` times and waits sleeps with the mutex locked once, which
-- `pthread_cond_wait` gives up, and the counter at 0; it wakes with the lock as it had it.
wait_event-held :
    (d : ℕ) (meanwhile : WaitQueue → WaitQueue) (q : WaitQueue)
    → suc d < 2 ^ 32
    → ((fall_asleep (held (suc d)) q).0 ≡ record { count = 1; recurse = 0 })
      × ((wait_event meanwhile (held (suc d)) q).0 ≡ held (suc d))
unfolding fall_asleep wait_event wake atomic_drop atomic_pre_sleep atomic_post_sleep
wait_event-held d meanwhile q b =
    rw (drop_loop_lem (suc d) d 0 (omega arith) (omega arith))
      (ground arith, ground (arith, pickup_lem d 1 (omega arith)))

abbrev pub any_poller : List WaitQueue → Bool
any_poller [] = false
any_poller (q ∷ qs) = q.do_selwakeup || any_poller qs

inhibited_lem :
    (qs : List WaitQueue) (w : Wakeups)
    → w.inhibit ≢ 0
    → wake_up_each qs w
      ≡ record { inhibit = if any_poller qs then 2 else w.inhibit; polls = w.polls }
unfolding wake_up_each wake_up
inhibited_lem [] w d = refl
inhibited_lem (q ∷ qs) w d =
    ground (arith, inhibited_lem qs w d, inhibited_lem qs (record w { inhibit = 2 }) (omega arith))

-- Any number of wake-ups between `wake_up_inhibit(true)` and `wake_up_inhibit(false)` make one call
-- to the pollers, and none if no queue among them has a poller.
pub wake_up_inhibit_once :
    (qs : List WaitQueue) (w : Wakeups)
    → wake_up_inhibit false (wake_up_each qs (wake_up_inhibit true w))
      ≡ record { inhibit = 0; polls = if any_poller qs then w.polls + 1 else w.polls }
unfolding wake_up_inhibit
wake_up_inhibit_once qs w =
    ground (arith, inhibited_lem qs (record { inhibit = 1; polls = w.polls }) (omega arith))

-- The deadline of a timed wait is a proper timespec, and lies `timeout + 1` ticks after now.
pub wait_get_timeout_exact :
    (timeout : ℕ) (now : Timespec)
    → timeout < 2 ^ 44
    → now.tv_nsec < 1000000000
    → ((wait_get_timeout timeout now).tv_nsec < 1000000000)
      × ((wait_get_timeout timeout now).tv_sec * 1000000000 + (wait_get_timeout timeout now).tv_nsec
          ≡ now.tv_sec * 1000000000 + now.tv_nsec + (timeout + 1) * 1000000)
unfolding wait_get_timeout
wait_get_timeout_exact timeout now b n = ground arith
