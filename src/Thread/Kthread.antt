-- ===== src/Thread/Kthread.antt =====
-- kthread_run, kthread_wrapper and kthread_stop of kernel/linux_thread.c, for one thread and the one
-- that starts and stops it, as steps between which any other thread may run.
use webcamd.Prelude.{◌≡◌, Bool, true, false, ◌&&◌, if◌then◌else◌}

-- Where the starting thread is: before kthread_run, in its loop, behind it (or it failed), in
-- pthread_join, behind kthread_stop.
pub data Creator : Type 0 where
  running waiting returned failed joining joined : Creator

-- What the new thread has done: nothing yet, or it is created, has copied `fd`, set its wrapper,
-- installed the handler, cleared `func` (and runs the function), cleared its wrapper, and ended.
pub data Phase : Type 0 where
  unborn born copied keyed handling told left ended : Phase

-- `cleared` says that `fd->func` is NULL, `freed` that `fd` is freed, and `handler` that the process
-- has the handler thread_urg for SIGURG, by this thread or another.
pub record Kthread : Type 0 where
  pub creator : Creator
  pub phase : Phase
  pub cleared : Bool
  pub freed : Bool
  pub handler : Bool
  pub stopping : Bool

-- Whether the key of the new thread has its wrapper.
unfoldable pub has_wrapper : Phase → Bool
has_wrapper keyed = true
has_wrapper handling = true
has_wrapper told = true
has_wrapper _ = false

-- SIGURG in the new thread; without the handler it is ignored.
unfoldable pub thread_urg : Kthread → Kthread
unfolding has_wrapper
thread_urg k = if k.handler && has_wrapper k.phase then record k { stopping = true } else k

-- thread_got_stopping answers 0 just if the wrapper is there and says so.
unfoldable pub kthread_should_stop : Kthread → Bool
unfolding has_wrapper
kthread_should_stop k = has_wrapper k.phase && k.stopping

-- The steps, in the order of the code of each thread. The function may return at any time.
pub data Step (k : Kthread) : Kthread → Type 0 where
  -- malloc or pthread_create fails
  fail : k.creator ≡ running → Step k (record k { creator = failed; freed = true })
  create : k.creator ≡ running → Step k (record k { creator = waiting; phase = born })
  copy : k.phase ≡ born → k.freed ≡ false → Step k (record k { phase = copied })
  set_key : k.phase ≡ copied → Step k (record k { phase = keyed })
  install : k.phase ≡ keyed → Step k (record k { phase = handling; handler = true })
  tell : k.phase ≡ handling → k.freed ≡ false → Step k (record k { phase = told; cleared = true })
  leave : k.phase ≡ told → Step k (record k { phase = left })
  exit : k.phase ≡ left → Step k (record k { phase = ended })
  -- the loop of kthread_run ends
  proceed :
      k.creator ≡ waiting
      → k.cleared ≡ true
      → Step k (record k { creator = returned; freed = true })
  -- pthread_kill
  stop : k.creator ≡ returned → Step k (record (thread_urg k) { creator = joining })
  join : k.creator ≡ joining → k.phase ≡ ended → Step k (record k { creator = joined })

pub data Reach (k : Kthread) : Kthread → Type 0 where
  here : Reach k k
  next : {l m : Kthread} → Reach k l → Step l m → Reach k m

-- Before kthread_run, with the handler of an earlier thread or none.
unfoldable pub begins : Bool → Kthread
begins handler = record {
  creator = running;
  phase = unborn;
  cleared = false;
  freed = false;
  handler = handler;
  stopping = false;
}
