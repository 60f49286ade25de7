-- ===== src/Examples/Kthreads.antt =====
-- Threads that are started and stopped, of kernel/linux_thread.c.
use webcamd.Prelude.{◌≡◌, ◌<◌, true, false, ◌&&◌, refl}
use webcamd.Thread.Kthread.{
  Kthread, joining, told, has_wrapper, thread_urg, kthread_should_stop, Step, create, copy, set_key,
  install, tell, proceed, stop, Reach, here, next, begins,
}
use webcamd.Thread.Stopping.{has_stopped, runs, waits, steps_left, kthread_stop_seen}

-- The thread was started, and its creator is in kthread_stop.
abbrev stopped : Kthread
stopped = record {
  creator = joining;
  phase = told;
  cleared = true;
  freed = true;
  handler = true;
  stopping = true;
}

stopped-Reach : Reach (begins false) stopped
unfolding begins thread_urg has_wrapper
stopped-Reach =
    next
      (next
        (next
          (next (next (next (next here (create refl)) (copy refl refl)) (set_key refl))
            (install refl))
          (tell refl refl))
        (proceed refl refl))
      (stop refl)

kthread_stop_seen_example :
    (has_stopped stopped.creator && runs stopped.phase
      ≡ has_stopped stopped.creator && runs stopped.phase && kthread_should_stop stopped)
    × (l : Kthread) × Step stopped l
    × (steps_left l < steps_left stopped)
unfolding waits
kthread_stop_seen_example = kthread_stop_seen false stopped stopped-Reach refl

should_stop_test : kthread_should_stop stopped ≡ true
unfolding kthread_should_stop has_wrapper
should_stop_test = refl
