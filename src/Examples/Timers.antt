-- ===== src/Examples/Timers.antt =====
-- Timers of kernel/linux_timer.c: one that restarts itself, and one that does not.
use webcamd.Prelude.{
  ℕ, ◌+◌, ◌<◌, ◌≡◌, ◌==◌, if◌then◌else◌, true, false, refl, arith, some, List, [], ◌∷◌, ◌++◌, ap,
  ◌∙◌, sym, ℕ_discrete, subst, append_nil,
}
use webcamd.Prelude.Int.{pos}
use webcamd.Thread.Waiting.{WaitQueue}
use webcamd.Thread.Sleeping.{any_poller}
use webcamd.Timer.Turn.{timer_exec-polls}
use webcamd.Tailq.{empty, insert_tail, mark, mem, IsTailq}
use webcamd.Tailq.Laws.{empty-IsTailq, insert_tail-IsTailq, erase_absent}
use webcamd.Timer.Calls.{
  Timers, add_timer, set_expires, del_timer, is_negative, TimerThread, timer_exec, woken_by,
}
use webcamd.Timer.Model.{
  Call, pends, adds, dels, mods, run, model_run, run-model_run, add_timer-IsTailq,
}
use webcamd.Timer.Scan.{All, Rearms, Ran}
use webcamd.Timer.Clock.{Clock, get_jiffies_64_exact, read_clock, counted, div}

abbrev none_pending : Timers
none_pending = record { head = empty; expires = λ _. 0 }

abbrev calls : List Call
calls = adds 3 ∷ adds 5 ∷ mods 5 9 ∷ adds 3 ∷ pends 3 ∷ dels 5 ∷ dels 5 ∷ []

run-model_run_example :
    IsTailq (run calls none_pending).0.head
    × ((run calls none_pending).0.head.queue ≡ (model_run calls empty.queue).0)
    × ((run calls none_pending).1 ≡ (model_run calls empty.queue).1)
run-model_run_example = run-model_run calls none_pending empty-IsTailq

-- Timers 3 and 5, both due at 40.
abbrev started : Timers
started = record { head = insert_tail 5 (insert_tail 3 empty); expires = λ _. 40 }

started-IsTailq : IsTailq started.head
unfolding insert_tail mark empty
started-IsTailq =
    insert_tail-IsTailq 5 (insert_tail 3 empty) refl
      (insert_tail-IsTailq 3 empty refl empty-IsTailq)

-- Timer 3 starts again for 100.
abbrev function : ℕ → Timers → Timers
function t s = if t == 3 then add_timer 3 (set_expires 3 100 s) else s

abbrev rearmed : ℕ → List ℕ
rearmed t = if t == 3 then 3 ∷ [] else []

kept_lem :
    (e : ℕ → ℕ) (q : List ℕ) → mem 3 q ≡ false → All (λ u. (if 3 == u then 100 else e u) ≡ e u) q
kept_lem e [] m = tt
kept_lem e (t ∷ q) m = (ground (arith, m), kept_lem e q (ground (arith, m)))

expires_lem :
    (s : Timers) (u : ℕ)
    → (add_timer 3 (set_expires 3 100 s)).expires u ≡ (if 3 == u then 100 else s.expires u)
unfolding add_timer del_timer set_expires
expires_lem s u = ground arith

same : (e : ℕ → ℕ) (q : List ℕ) → All (λ u. e u ≡ e u) q
same e [] = tt
same e (t ∷ q) = (refl, same e q)

All-ext :
    (f g e : ℕ → ℕ) (q : List ℕ)
    → ((u : ℕ) → f u ≡ g u)
    → All (λ u. g u ≡ e u) q
    → All (λ u. f u ≡ e u) q
All-ext f g e [] h a = tt
All-ext f g e (t ∷ q) h (a, as') = (h t ∙ a, All-ext f g e q h as')

restarts :
    (s : Timers)
    → IsTailq s.head
    → s.head.linked 3 ≡ false
    → Rearms 50 (λ _. 3 ∷ []) 3 s (add_timer 3 (set_expires 3 100 s))
unfolding is_negative set_expires
restarts s h l =
    let (k, q) = add_timer-IsTailq 3 (set_expires 3 100 s) h in
    let m = sym (h.linked 3) ∙ l in
    record {
      head = k;
      queue = q ∙ ap (λ q. q ++ (3 ∷ [])) (erase_absent 3 s.head.queue m);
      kept =
          All-ext (add_timer 3 (set_expires 3 100 s)).expires
            (λ u. if 3 == u then 100 else s.expires u) s.expires s.head.queue (expires_lem s)
            (kept_lem s.expires s.head.queue m);
      later = (ap (λ e. is_negative e 50) (expires_lem s 3), tt);
    }

three-Rearms :
    (s : Timers) → IsTailq s.head → s.head.linked 3 ≡ false → Rearms 50 rearmed 3 s (function 3 s)
three-Rearms s h l =
    let r = restarts s h l in
    record { head = r.head; queue = r.queue; kept = r.kept; later = r.later }

function-Rearms :
    (t : ℕ) (s : Timers)
    → IsTailq s.head
    → s.head.linked t ≡ false
    → Rearms 50 rearmed t s (function t s)
function-Rearms t s h l = elim (ℕ_discrete t 3) [
  | yes e ↦
      subst (λ t. Rearms 50 rearmed t s (function t s)) (sym e)
        (three-Rearms s h (ap s.head.linked (sym e) ∙ l))
  | no d ↦ other (ground (arith, d))
]
  where
    other : (t == 3) ≡ false → Rearms 50 rearmed t s (function t s)
    other e = rw e (record {
      head = h;
      queue = rw e (sym (append_nil s.head.queue));
      kept = same s.expires s.head.queue;
      later = rw e tt;
    })

abbrev clock : Clock
clock = record { last_nsec = 999999000; nsec_rem = 5; jiffies64 = 70 }

get_jiffies_64_exact_example :
    (counted (read_clock (2000 ∷ 400000 ∷ 900000000 ∷ []) 999999000 clock) ≡ 970402005)
    × ((read_clock (2000 ∷ 400000 ∷ 900000000 ∷ []) 999999000 clock).nsec_rem < div)
get_jiffies_64_exact_example =
    get_jiffies_64_exact (2000 ∷ 400000 ∷ 900000000 ∷ []) 999999000 clock
      (omega arith, (omega arith, (omega arith, tt))) refl (omega arith) (omega arith)

abbrev thread : TimerThread
thread = record {
  timers = started;
  last_check = 0;
  wakeups = 0;
  inhibit = record { inhibit = 0; polls = 2 };
}

-- Each function wakes two queues, one of them polled.
abbrev woken : ℕ → List WaitQueue
woken t =
    record { sleep_ref = 0; sleep_count = 0; do_selwakeup = true }
    ∷ record { sleep_ref = 0; sleep_count = 1; do_selwakeup = false }
    ∷ []

timer_exec-polls_example :
    (p' : TimerThread) × (ran : List ℕ) × (ms_delay : ℕ) × (timer_exec function woken 3 50
        (pos 0)
        thread
      ≡ some (p', ran, ms_delay))
    × Ran 50 rearmed started p'.timers ran
    × (p'.inhibit.polls ≡ (if any_poller (woken_by woken ran) then 2 + 1 else 2))
unfolding insert_tail is_negative empty
timer_exec-polls_example =
    timer_exec-polls function rearmed woken 50 function-Rearms 3 (pos 0) thread started-IsTailq
      (omega arith)
