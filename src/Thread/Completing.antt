-- ===== src/Thread/Completing.antt =====
-- What the waits for a completion take from it (kernel/linux_thread.c).
use mathlib.Core.Option
use webcamd.Prelude.{
  ℕ, zero, suc, ◌+◌, ◌^◌, ◌<◌, ◌≡◌, ◌↔◌, false, Option, none, some, List, [], ◌∷◌, arith,
  ℕ_discrete, take,
}
use webcamd.Prelude.Int.{ℤ, pos}
use webcamd.Thread.Completion.{
  Turn, complete, complete_times, restart_sys, int64, wait_for_completion,
  wait_for_completion_interruptible, wait_for_completion_interruptible_timeout,
  wait_for_completion_timeout,
}

-- How often `complete` is called in the rounds.
abbrev pub arrivals : List Turn → ℕ
arrivals [] = 0
arrivals (t ∷ ts) = t.arrived + arrivals ts

complete_times_lem : (n done : ℕ) → n + done < 2 ^ 32 → complete_times n done ≡ n + done
unfolding complete_times complete
complete_times_lem zero done b = omega arith
complete_times_lem (suc n) done b = ground (arith, complete_times_lem n (done + 1) (omega arith))

-- While fewer than 2 ^ 32 completions are pending, `wait_for_completion` sleeps on exactly if none
-- was there and none came: no wake-up is lost.
pub wait_for_completion_sleeps :
    (ts : List Turn) (done : ℕ)
    → arrivals ts + done < 2 ^ 32
    → (wait_for_completion ts done ≡ none) ↔ (arrivals ts + done ≡ 0)
unfolding wait_for_completion
wait_for_completion_sleeps [] done b = ((λ e. ground arith), λ e. ground arith)
wait_for_completion_sleeps (t ∷ ts) done b =
    let c = complete_times_lem t.arrived done (omega arith) in
    let (f, g) =
      wait_for_completion_sleeps ts (complete_times t.arrived done) (rw c (omega arith)) in
    (
      (λ e. elim (ℕ_discrete done 0) [
        | yes z ↦ ground (arith, f (ground (arith, e, z)), c)
        | no z ↦ ground (arith, e, z)
      ]),
      λ e. ground (arith, g (ground (arith, e, c))),
    )

-- A wait that returns `ret` and leaves `done'`, out of `total` completions that were there or came.
pub data Accounted (timeout total : ℕ) (done' : ℕ) (ret : ℤ) : Type 0 where
  took : done' + 1 ≡ total → ret ≡ int64 timeout → Accounted timeout total done' ret
  interrupted : done' ≡ 0 → total ≡ 0 → ret ≡ restart_sys → Accounted timeout total done' ret
  timed_out : done' ≡ total → ret ≡ pos 0 → Accounted timeout total done' ret

-- A wait that slept `slept` times, or one that still sleeps.
abbrev pub IsAccounted : ℕ → List Turn → ℕ → Option (ℕ × ℤ) → Type 0
IsAccounted timeout ts done none = arrivals ts + done ≡ 0
IsAccounted timeout ts done (some (done', ret)) =
    (slept : ℕ) × Accounted timeout (arrivals (take slept ts) + done) done' ret

abbrev pub calm : List Turn → List Turn
calm [] = []
calm (t ∷ ts) = record t { signal = false } ∷ calm ts

abbrev pub signed : ℕ × ℕ → ℕ × ℤ
signed (done, ret) = (done, int64 ret)

-- Without signals the interruptible waits are the plain ones: with a timeout, and without.
pub interruptible_calm :
    (timeout : ℕ) (ts : List Turn) (done : ℕ)
    → (wait_for_completion_interruptible_timeout timeout (calm ts) done
        ≡ Option.map signed (wait_for_completion_timeout timeout ts done))
      × (wait_for_completion_interruptible (calm ts) done
          ≡ Option.map (λ d. (d, pos 0)) (wait_for_completion ts done))
unfolding wait_for_completion_interruptible_timeout wait_for_completion_timeout
    wait_for_completion_interruptible wait_for_completion int64
interruptible_calm timeout [] done = (ground arith, ground arith)
interruptible_calm timeout (t ∷ ts) done =
    let (f, g) = interruptible_calm timeout ts (complete_times t.arrived done) in
    (ground (arith, f), ground (arith, g))
