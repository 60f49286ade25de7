-- ===== src/Examples/Threads.antt =====
-- Threads that share a mutex of kernel/linux_thread.c.
use webcamd.Prelude.Int.{pos}
use webcamd.Prelude.{ℕ, ◌≡◌, refl, arith, some}
use webcamd.Thread.Mutex.{mutex_init, mutex_lock}
use webcamd.Thread.Exclusion.{System, Reach, start, later, locks, assign, mutual_exclusion}

abbrev me : ℕ
me = 4

-- Thread 4 has locked the mutex.
abbrev locked : System
locked = record { mutex = record { value = pos 0; owner = some 4 }; holds = assign (λ _. 0) 4 1 }

locked-Reach : Reach locked
unfolding mutex_lock mutex_init
locked-Reach = later start (locks 4 refl)

mutual_exclusion_example : me ≡ me
mutual_exclusion_example = mutual_exclusion locked-Reach me me (omega arith) (omega arith)
