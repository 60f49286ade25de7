-- ===== src/Thread/Mutex.antt =====
-- The semaphore and the mutex of kernel/linux_thread.c. Each function runs under the process-wide
-- `atomic_lock`, so it is one step; `none` says that the caller sleeps on `mutex_cond`, with the
-- semaphore as it is, until it is woken and tests again.
use mathlib.Core.Option
use webcamd.Prelude.{ℕ, Bool, true, false, ◌==◌, if◌then◌else◌, Option, none, some}
use webcamd.Prelude.Int.{ℤ, pos, add_one, sub_one, is_positive, is_one}

-- `value` is an int32_t: a thread would have to lock 2 ^ 31 times to bring it to overflow, which C
-- leaves undefined. MUTEX_NO_OWNER is `none`.
pub record Semaphore : Type 0 where
  pub value : ℤ
  pub owner : Option ℕ

unfoldable pub sema_init : ℤ → Semaphore
sema_init value = record { value = value; owner = none }

-- The flag says that the sleepers on `mutex_cond` are woken.
unfoldable pub up : Semaphore → Semaphore × Bool
up s = let value = add_one s.value in (record s { value = value }, is_one value)

unfoldable pub down : Semaphore → Option Semaphore
down s = if is_positive s.value then some (record s { value = sub_one s.value }) else none

-- 0 is success there, 1 is "congested"; `down_read_trylock` answers the other way round.
unfoldable pub down_trylock : Semaphore → Option (Semaphore × ℕ)
unfolding down
down_trylock s = if is_positive s.value then Option.map (λ s'. (s', 0)) (down s) else some (s, 1)

unfoldable pub down_read_trylock : Semaphore → Option (Semaphore × ℕ)
unfolding down
down_read_trylock s =
    if is_positive s.value then Option.map (λ s'. (s', 1)) (down s) else some (s, 0)

abbrev pub is_owner : ℕ → Option ℕ → Bool
is_owner self none = false
is_owner self (some t) = t == self

abbrev pub has_no_owner : Option ℕ → Bool
has_no_owner none = true
has_no_owner (some t) = false

-- mutex_init and DEFINE_MUTEX
unfoldable pub mutex_init : Semaphore
unfolding sema_init
mutex_init = sema_init (pos 1)

unfoldable pub mutex_lock : ℕ → Semaphore → Option Semaphore
unfolding down
mutex_lock self m =
    if is_owner self m.owner
    then some (record m { value = sub_one m.value })
    else Option.map (λ s. record { value = s.value; owner = some self }) (down m)

unfoldable pub mutex_trylock : ℕ → Semaphore → Option (Semaphore × ℕ)
unfolding down
mutex_trylock self m =
    if is_owner self m.owner
    then some (record m { value = sub_one m.value }, 1)
    else if has_no_owner m.owner
    then Option.map (λ s. (record { value = s.value; owner = some self }, 1)) (down m)
    else some (m, 0)

-- The flag is that of `up`.
unfoldable pub mutex_unlock : Semaphore → Semaphore × Bool
unfolding up
mutex_unlock m =
    let (s, woken) = up m in
    if is_positive s.value then (record { value = pos 1; owner = none }, woken) else (s, woken)
