-- ===== src/Timer/Calls.antt =====
-- The calls and the thread of kernel/linux_timer.c. Each call holds the process-wide lock, so it is
-- one step; the thread gives it up around the function of a timer, which may make any call.
use mathlib.Core.Option
use webcamd.Prelude.{
  not, ℕ, zero, suc, ◌+◌, ◌-◌, ◌%◌, ◌^◌, Bool, true, false, leb, ◌==◌, if◌then◌else◌, Option, none,
  some, List, [], ◌∷◌, ◌++◌,
}
use webcamd.Prelude.Int.{ℤ, add_one, sub_one, is_positive, is_zero}
use webcamd.Thread.Waiting.{WaitQueue, Wakeups, wake_up_inhibit, wake_up_each}
use webcamd.Tailq.{mark, Tailq, insert_tail, unlink}

-- `timer_head`, and the `expires` of each timer, a uint64_t.
pub record Timers : Type 0 where
  pub head : Tailq
  pub expires : ℕ → ℕ

-- `memset(timer, 0, sizeof(*timer))`, for a timer that is not in the list.
unfoldable pub init_timer : ℕ → Timers → Timers
init_timer timer s = record {
  head = record { queue = s.head.queue; linked = mark s.head.linked timer false };
  expires = λ t. if timer == t then 0 else s.expires t;
}

unfoldable pub timer_pending : ℕ → Timers → Bool
timer_pending timer s = s.head.linked timer

unfoldable pub del_timer : ℕ → Timers → Timers × ℕ
del_timer timer s =
    if s.head.linked timer then (record s { head = unlink timer s.head }, 1) else (s, 0)

unfoldable pub del_timer_sync : ℕ → Timers → Timers × ℕ
del_timer_sync timer s = del_timer timer s

unfoldable pub add_timer : ℕ → Timers → Timers
add_timer timer s = let s' = (del_timer timer s).0 in record s' { head = insert_tail timer s'.head }

-- `timer->expires = expires`
unfoldable pub set_expires : ℕ → ℕ → Timers → Timers
set_expires timer expires s = record s {
  expires = λ t. if timer == t then expires else s.expires t;
}

unfoldable pub mod_timer : ℕ → ℕ → Timers → Timers × ℕ
mod_timer timer expires s = (set_expires timer expires s, if s.head.linked timer then 1 else 0)

-- `delta < 0` for the int64_t `delta = t->expires - last_jiffies`.
unfoldable pub is_negative : ℕ → ℕ → Bool
is_negative a b = leb (2 ^ 63) ((a + (2 ^ 64 - b)) % 2 ^ 64)

unfoldable pub first_expired : (ℕ → ℕ) → ℕ → List ℕ → Option ℕ
first_expired expires last_jiffies [] = none
first_expired expires last_jiffies (t ∷ ts) =
    if is_negative (expires t) last_jiffies then some t else first_expired expires last_jiffies ts

-- One round: `rest` is what `goto restart` leads to, for the timer found.
unfoldable pub fire :
    (Timers → Option (Timers × List ℕ))
    → (ℕ → Timers → Timers)
    → Timers
    → Option ℕ
    → Option (Timers × List ℕ)
fire rest function s none = some (s, [])
fire rest function s (some t) =
    Option.map (λ (s', fired). (s', t ∷ fired))
      (rest (function t (record s { head = unlink t s.head })))

-- What `restart:` leads to: the timers afterwards and those whose function was called, in order, or
-- `none` if it is still at it after the given number of rounds. `function` is what the function of
-- a timer does to the timers.
unfoldable pub run_expired : (ℕ → Timers → Timers) → ℕ → ℕ → Timers → Option (Timers × List ℕ)
run_expired function last_jiffies zero s = none
run_expired function last_jiffies (suc fuel) s =
    fire (run_expired function last_jiffies fuel) function s
      (first_expired s.expires last_jiffies s.head.queue)

-- `timer_needed` after the call, and whether the thread gets a signal once it has started.
unfoldable pub need_timer : Bool → ℤ → ℤ × Bool
need_timer flag timer_needed =
    if flag
    then (add_one timer_needed, not (is_positive timer_needed))
    else (sub_one timer_needed, false)

-- The state of the thread: the timers, `last_check`, how often it called `wake_up_all_internal`, and
-- its `wakeup_inhibit`.
pub record TimerThread : Type 0 where
  pub timers : Timers
  pub last_check : ℕ
  pub wakeups : ℕ
  pub inhibit : Wakeups

-- `delta >= 1000 || delta < 0`
unfoldable pub is_due : ℕ → ℕ → Bool
is_due last_jiffies last_check = leb 1000 ((last_jiffies + (2 ^ 64 - last_check)) % 2 ^ 64)

unfoldable pub compute_delay : ℤ → Tailq → ℕ
compute_delay timer_needed head = delay head.queue
  where
    delay : List ℕ → ℕ
    delay [] = if is_zero timer_needed then 500 else 25
    delay (t ∷ ts) = 25

unfoldable pub woken_by : (ℕ → List WaitQueue) → List ℕ → List WaitQueue
woken_by woken [] = []
woken_by woken (t ∷ ts) = woken t ++ woken_by woken ts

-- One turn of `timer_exec`, up to `usleep`: the thread, the timers that ran, and `ms_delay`. `woken`
-- are the queues that the function of a timer wakes up.
unfoldable pub timer_exec :
    (ℕ → Timers → Timers)
    → (ℕ → List WaitQueue)
    → ℕ
    → ℕ
    → ℤ
    → TimerThread
    → Option (TimerThread × List ℕ × ℕ)
timer_exec function woken fuel last_jiffies timer_needed p =
    let inhibit = wake_up_inhibit true p.inhibit in
    let due = is_due last_jiffies p.last_check in
    let last_check : ℕ = if due then last_jiffies else p.last_check in
    let wakeups : ℕ = if due then p.wakeups + 1 else p.wakeups in
    let ms_delay = compute_delay timer_needed p.timers.head in
    Option.map
      (λ (s, fired). (
        record {
          timers = s;
          last_check = last_check;
          wakeups = wakeups;
          inhibit = wake_up_inhibit false (wake_up_each (woken_by woken fired) inhibit);
        },
        fired,
        ms_delay,
      ))
      (run_expired function last_jiffies fuel p.timers)
