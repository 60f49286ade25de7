-- ===== src/Thread/Stopping.antt =====
-- A thread that is stopped is told so.
use webcamd.Prelude.{
  ℕ, ◌≡◌, ◌+◌, ◌<◌, inl, inr, Bool, true, false, ◌&&◌, refl, sym, ap, ◌∙◌, arith, Bool-cases,
}
use webcamd.Thread.Kthread.{
  Creator, running, waiting, returned, failed, joining, joined, Phase, unborn, born, copied, keyed,
  handling, told, left, ended, Kthread, has_wrapper, thread_urg, kthread_should_stop, Step, fail,
  create, copy, set_key, install, tell, leave, exit, proceed, stop, join, Reach, here, next, begins,
}

-- The new thread has cleared `func`.
unfoldable pub is_told : Phase → Bool
is_told told = true
is_told left = true
is_told ended = true
is_told _ = false

unfoldable pub is_born : Phase → Bool
is_born unborn = false
is_born _ = true

-- The handler is installed.
unfoldable pub is_ready : Phase → Bool
is_ready handling = true
is_ready told = true
is_ready left = true
is_ready ended = true
is_ready _ = false

-- kthread_run has returned the thread.
unfoldable pub has_run : Creator → Bool
has_run returned = true
has_run joining = true
has_run joined = true
has_run _ = false

-- kthread_stop has sent its signal.
unfoldable pub has_stopped : Creator → Bool
has_stopped joining = true
has_stopped joined = true
has_stopped _ = false

-- A thread waits in kthread_run or kthread_stop.
unfoldable pub waits : Creator → Bool
waits waiting = true
waits joining = true
waits _ = false

record Inv (k : Kthread) : Type 0 where
  told_cleared : is_told k.phase ≡ k.cleared
  handled : is_ready k.phase ≡ true → k.handler ≡ true
  run_cleared : has_run k.creator ≡ true → k.cleared ≡ true
  freed_late : k.freed ≡ true → is_born k.phase ≡ true → k.cleared ≡ true
  seen : has_stopped k.creator ≡ true → k.phase ≡ told → k.stopping ≡ true
  unborn_early : k.creator ≡ running → k.phase ≡ unborn
  born_late : waits k.creator ≡ true → is_born k.phase ≡ true
  run_late : k.creator ≡ returned → is_born k.phase ≡ true
  kept_early : k.creator ≡ running → k.freed ≡ false

begins-Inv : (handler : Bool) → Inv (begins handler)
unfolding is_told is_ready has_run is_born has_stopped waits begins
begins-Inv handler = record {
  told_cleared = refl;
  handled = λ e. cc;
  run_cleared = λ e. cc;
  freed_late = λ e f. cc;
  seen = λ e f. cc;
  unborn_early = λ e. refl;
  kept_early = λ e. refl;
  born_late = λ e. cc;
  run_late = λ e. cc;
}

Step-Inv : {k l : Kthread} → Step k l → Inv k → Inv l
unfolding is_told is_ready is_born has_run waits has_stopped thread_urg has_wrapper
Step-Inv (copy e f) h = ground arith
Step-Inv (fail e) h = ground arith
Step-Inv (create e) h = ground arith
Step-Inv (set_key e) h = ground arith
Step-Inv (install e) h = ground arith
Step-Inv (tell e f) h = ground arith
Step-Inv (leave e) h = ground arith
Step-Inv (exit e) h = ground arith
Step-Inv (proceed e f) h = ground arith
Step-Inv (stop e) h = ground arith
Step-Inv (join e f) h = ground arith

Reach-Inv : {k l : Kthread} → Inv k → Reach k l → Inv l
Reach-Inv h here = h
Reach-Inv h (next r s) = Step-Inv s (Reach-Inv h r)

-- The steps that a run can still have.
unfoldable pub phase_left : Phase → ℕ
phase_left unborn = 7
phase_left born = 6
phase_left copied = 5
phase_left keyed = 4
phase_left handling = 3
phase_left told = 2
phase_left left = 1
phase_left ended = 0

unfoldable pub creator_left : Creator → ℕ
creator_left running = 11
creator_left waiting = 3
creator_left returned = 2
creator_left failed = 0
creator_left joining = 1
creator_left joined = 0

unfoldable pub steps_left : Kthread → ℕ
unfolding phase_left creator_left
steps_left k = phase_left k.phase + creator_left k.creator

Step-shorter : {k l : Kthread} → Step k l → steps_left l < steps_left k
unfolding steps_left phase_left creator_left thread_urg
Step-shorter (fail e) = ground arith
Step-shorter (create e) = ground arith
Step-shorter (copy e f) = ground arith
Step-shorter (set_key e) = ground arith
Step-shorter (install e) = ground arith
Step-shorter (tell e f) = ground arith
Step-shorter (leave e) = ground arith
Step-shorter (exit e) = ground arith
Step-shorter (proceed e f) = ground arith
Step-shorter (stop e) = ground arith
Step-shorter (join e f) = ground arith

-- Whether the new thread is in its function.
unfoldable pub runs : Phase → Bool
runs told = true
runs _ = false

Moves : Kthread → Type 0
Moves k = (l : Kthread) × Step k l × (steps_left l < steps_left k)

moves : {k l : Kthread} → Step k l → Moves k
unfolding Moves
moves {k} {l} s = (l, s, Step-shorter s)

unfreed : (k : Kthread) → Inv k → is_born k.phase ≡ true → is_told k.phase ≡ false → k.freed ≡ false
unfreed k h b n = elim (Bool-cases k.freed) [
  | inl e ↦ ground (arith, h.freed_late e b, h.told_cleared)
  | inr e ↦ e
]

-- The creator goes on when the new thread has ended.
at_end :
    (k : Kthread) (c : Creator) → Inv k → k.creator ≡ c → waits c ≡ true → k.phase ≡ ended → Moves k
unfolding waits
at_end k waiting h e w p = moves (proceed e (sym h.told_cleared ∙ unfold is_told in ap is_told p))
at_end k joining h e w p = moves (join e p)
at_end k running h e w p = cc
at_end k returned h e w p = cc
at_end k failed h e w p = cc
at_end k joined h e w p = cc

goes_on : (k : Kthread) (p : Phase) → Inv k → waits k.creator ≡ true → k.phase ≡ p → Moves k
unfolding is_born is_told
goes_on k unborn h w e = ground (arith, h.born_late w)
goes_on k born h w e = moves (copy e (unfreed k h (ap is_born e) (ap is_told e)))
goes_on k copied h w e = moves (set_key e)
goes_on k keyed h w e = moves (install e)
goes_on k handling h w e = moves (tell e (unfreed k h (ap is_born e) (ap is_told e)))
goes_on k told h w e = moves (leave e)
goes_on k left h w e = moves (exit e)
goes_on k ended h w e = at_end k k.creator h refl w e

seen_lem :
    (k : Kthread)
    → Inv k
    → has_stopped k.creator && runs k.phase
      ≡ has_stopped k.creator && runs k.phase && kthread_should_stop k
unfolding kthread_should_stop has_wrapper runs
seen_lem k h = ground (arith, h.seen)

-- In every state that a thread and the one that starts it reach, with the handler of SIGURG of
-- earlier threads or without: once kthread_stop has sent its signal and the new thread is in its
-- function, kthread_should_stop says that it should stop, so the signal is never lost. While the
-- starting thread waits in kthread_run or in kthread_stop, there is a step, which follows no memory
-- that is freed, and brings the end of all steps nearer; in the function that step is its return.
pub kthread_stop_seen :
    (handler : Bool) (k : Kthread)
    → Reach (begins handler) k
    → waits k.creator ≡ true
    → (has_stopped k.creator && runs k.phase
        ≡ has_stopped k.creator && runs k.phase && kthread_should_stop k)
      × (l : Kthread) × Step k l
      × (steps_left l < steps_left k)
unfolding Moves
kthread_stop_seen handler k r w =
    let h = Reach-Inv (begins-Inv handler) r in
    let (l, step, shorter) = goes_on k k.phase h w refl in (seen_lem k h, l, step, shorter)
