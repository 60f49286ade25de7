-- ===== src/Thread/Completion.antt =====
-- The completions of kernel/linux_thread.c.
use webcamd.Prelude.{
  ℕ, zero, suc, ◌+◌, ◌-◌, ◌%◌, ◌^◌, Bool, ◌==◌, ltb, if◌then◌else◌, Option, none, some, List, [],
  ◌∷◌,
}
use webcamd.Prelude.Int.{ℤ, pos, negsuc}

-- One round of a waiting loop: what `check_signal` answers before the thread sleeps, how often
-- other threads call `complete` while it sleeps, and whether it wakes since the time is over.
pub record Turn : Type 0 where
  pub signal : Bool
  pub arrived : ℕ
  pub expired : Bool

-- A completion is its `done`, a uint32_t.
unfoldable pub init_completion : ℕ
init_completion = 0

unfoldable pub complete : ℕ → ℕ
complete done = (done + 1) % 2 ^ 32

unfoldable pub complete_times : ℕ → ℕ → ℕ
complete_times zero done = done
complete_times (suc n) done = complete_times n (complete done)

-- `-ERESTARTSYS`
abbrev pub restart_sys : ℤ
restart_sys = negsuc 511

unfoldable pub int64 : ℕ → ℤ
int64 n = if ltb n (2 ^ 63) then pos n else negsuc (2 ^ 64 - 1 - n)

-- The waits give `done` and what they return, or `none` while the thread still waits after the
-- given rounds.
unfoldable pub wait_for_completion : List Turn → ℕ → Option ℕ
wait_for_completion [] done = if done == 0 then none else some (done - 1)
wait_for_completion (t ∷ ts) done =
    let rest = wait_for_completion ts (complete_times t.arrived done) in
    if done == 0 then rest else some (done - 1)

unfoldable pub wait_for_completion_interruptible : List Turn → ℕ → Option (ℕ × ℤ)
wait_for_completion_interruptible [] done = if done == 0 then none else some (done - 1, pos 0)
wait_for_completion_interruptible (t ∷ ts) done =
    let rest = wait_for_completion_interruptible ts (complete_times t.arrived done) in
    if done == 0
    then if t.signal then some (done, restart_sys) else rest
    else some (done - 1, pos 0)

unfoldable pub wait_for_completion_interruptible_timeout : ℕ → List Turn → ℕ → Option (ℕ × ℤ)
wait_for_completion_interruptible_timeout timeout [] done =
    if done == 0 then none else some (done - 1, int64 timeout)
wait_for_completion_interruptible_timeout timeout (t ∷ ts) done =
    let done' = complete_times t.arrived done in
    let rest = wait_for_completion_interruptible_timeout timeout ts done' in
    if done == 0
    then if t.signal
      then some (done, restart_sys)
      else if t.expired
      then some (done', pos 0)
      else rest
    else some (done - 1, int64 timeout)

unfoldable pub wait_for_completion_timeout : ℕ → List Turn → ℕ → Option (ℕ × ℕ)
wait_for_completion_timeout timeout [] done = if done == 0 then none else some (done - 1, timeout)
wait_for_completion_timeout timeout (t ∷ ts) done =
    let done' = complete_times t.arrived done in
    let rest = wait_for_completion_timeout timeout ts done' in
    if done == 0 then if t.expired then some (done', 0) else rest else some (done - 1, timeout)
