-- ===== src/Examples/Waits.antt =====
-- Sleeping, waking and completions of kernel/linux_thread.c.

use webcamd.Prelude.{◌≡◌, refl, some, true, false, List, [], ◌∷◌}
use webcamd.Prelude.Int.{pos}
use webcamd.Thread.Waiting.{WaitQueue, Timespec}
use webcamd.Thread.Completion.{
  Turn, wait_for_completion_interruptible_timeout, restart_sys, complete_times, complete, int64,
}
use webcamd.Thread.Completing.{calm}

abbrev quiet : WaitQueue
quiet = record { sleep_ref = 0; sleep_count = 0; do_selwakeup = false }

abbrev polled : WaitQueue
polled = record { sleep_ref = 0; sleep_count = 0; do_selwakeup = true }

abbrev now : Timespec
now = record { tv_sec = 5; tv_nsec = 999000000 }

abbrev turns : List Turn
turns =
    record { signal = false; arrived = 0; expired = false }
    ∷ record { signal = true; arrived = 2; expired = false }
    ∷ []

-- A signal ends the second round before two completions come.
interrupted : wait_for_completion_interruptible_timeout 50 turns 0 ≡ some (0, restart_sys)
unfolding wait_for_completion_interruptible_timeout complete_times
interrupted = refl

-- Without the signal the first of them is taken.
taken : wait_for_completion_interruptible_timeout 50 (calm turns) 0 ≡ some (1, pos 50)
unfolding wait_for_completion_interruptible_timeout complete_times complete int64
taken = refl
