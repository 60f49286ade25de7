-- ===== src/Thread/Waiting.antt =====
-- The process-wide lock and the wait queues of kernel/linux_thread.c: sleeping with the lock
-- released, waking up, and the deadline of a timed wait.
use webcamd.Prelude.{
  ℕ, zero, suc, ◌+◌, ◌-◌, ◌*◌, ◌/◌, ◌%◌, ◌^◌, Bool, true, false, ◌==◌, ltb, leb, if◌then◌else◌,
  List, [], ◌∷◌,
}

-- `atomic_mutex` is a recursive pthread mutex: `count` is how often the running thread has locked
-- it. `recurse` is `atomic_recurse`, a uint32_t.
pub record Lock : Type 0 where
  pub count : ℕ
  pub recurse : ℕ

unfoldable pub atomic_lock : Lock → Lock
atomic_lock l = record { count = l.count + 1; recurse = (l.recurse + 1) % 2 ^ 32 }

unfoldable pub atomic_unlock : Lock → Lock
atomic_unlock l = record { count = l.count - 1; recurse = (l.recurse + 2 ^ 32 - 1) % 2 ^ 32 }

unfoldable pub atomic_pre_sleep : Lock → Lock
atomic_pre_sleep l = record l { recurse = (l.recurse + 2 ^ 32 - 1) % 2 ^ 32 }

unfoldable pub atomic_post_sleep : Lock → Lock
atomic_post_sleep l = record l { recurse = (l.recurse + 1) % 2 ^ 32 }

-- `while (atomic_recurse > 1)`: the first argument bounds the rounds, and `recurse` falls in each.
unfoldable pub drop_loop : ℕ → Lock → ℕ → Lock × ℕ
drop_loop zero l drops = (l, drops)
drop_loop (suc fuel) l drops =
    let rest = drop_loop fuel (atomic_unlock l) ((drops + 1) % 2 ^ 32) in
    if ltb 1 l.recurse then rest else (l, drops)

unfoldable pub atomic_drop : Lock → Lock × ℕ
atomic_drop l = drop_loop l.recurse l 0

unfoldable pub atomic_pickup : ℕ → Lock → Lock
atomic_pickup zero l = l
atomic_pickup (suc drops) l = atomic_pickup drops (atomic_lock l)

-- `sleep_ref` and `sleep_count` are ints; the model lets them grow without bound.
pub record WaitQueue : Type 0 where
  pub sleep_ref : ℕ
  pub sleep_count : ℕ
  pub do_selwakeup : Bool

unfoldable pub init_waitqueue_head : WaitQueue
init_waitqueue_head = record { sleep_ref = 0; sleep_count = 0; do_selwakeup = false }

unfoldable pub waitqueue_active : WaitQueue → Bool
waitqueue_active q = if q.sleep_count == 0 then false else true

unfoldable pub poll_wait : WaitQueue → WaitQueue
poll_wait q = record q { do_selwakeup = true }

-- `__wait_event` up to `pthread_cond_wait`, with the number of drops, and from there on.
unfoldable pub fall_asleep : Lock → WaitQueue → Lock × WaitQueue × ℕ
fall_asleep l q =
    let (l', drops) = atomic_drop l in
    (atomic_pre_sleep l', record q { sleep_count = q.sleep_count + 1 }, drops)

unfoldable pub wake : Lock → WaitQueue → ℕ → Lock × WaitQueue
wake l q drops =
    (atomic_pickup drops (atomic_post_sleep l), record q { sleep_count = q.sleep_count - 1 })

-- `meanwhile` is what other threads do to the queue.
unfoldable pub wait_event : (WaitQueue → WaitQueue) → Lock → WaitQueue → Lock × WaitQueue
wait_event meanwhile l q = let (l', q', drops) = fall_asleep l q in wake l' (meanwhile q') drops

-- What a thread has of `wakeup_inhibit`, and how often it called `poll_wakeup_internal`.
pub record Wakeups : Type 0 where
  pub inhibit : ℕ
  pub polls : ℕ

unfoldable pub wake_up_inhibit : Bool → Wakeups → Wakeups
wake_up_inhibit value w =
    let inhibit : ℕ = if value then 1 else 0 in
    let polls : ℕ = if value then w.polls else if w.inhibit == 2 then w.polls + 1 else w.polls in
    record { inhibit = inhibit; polls = polls }

unfoldable pub wake_up : WaitQueue → Wakeups → WaitQueue × Wakeups
wake_up q w =
    let q' = record q { sleep_ref = q.sleep_ref + 1 } in
    if q.do_selwakeup
    then if w.inhibit == 0
      then (q', record w { polls = w.polls + 1 })
      else (q', record w { inhibit = 2 })
    else (q', w)

unfoldable pub wake_up_each : List WaitQueue → Wakeups → Wakeups
wake_up_each [] w = w
wake_up_each (q ∷ qs) w = wake_up_each qs (wake_up q w).1

-- struct timespec
pub record Timespec : Type 0 where
  pub tv_sec : ℕ
  pub tv_nsec : ℕ

-- HZ
abbrev pub hz : ℕ
hz = 1000

-- The first entry of `ts` after the call, for the given reading of CLOCK_MONOTONIC.
unfoldable pub wait_get_timeout : ℕ → Timespec → Timespec
wait_get_timeout timeout now =
    let ns = 1000000000 / hz * ((timeout + 1) % 2 ^ 64) % 2 ^ 64 in
    let nsec = ns % 1000000000 + now.tv_nsec in
    let sec = ns / 1000000000 + now.tv_sec in
    if leb 1000000000 nsec
    then record { tv_sec = sec + 1; tv_nsec = nsec - 1000000000 }
    else record { tv_sec = sec; tv_nsec = nsec }
