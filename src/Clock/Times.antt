-- ===== src/Clock/Times.antt =====
-- The ktime, timespec and timeval functions of kernel/linux_func.c. Signed numbers are integers
-- here: the code's are of 64 bits, and what it does when they overflow is undefined in C.
use webcamd.Prelude.{ℕ, ◌+◌, ◌*◌, ◌/◌, ◌%◌, ◌^◌, Bool, not, ◌&&◌, if◌then◌else◌}
use webcamd.Prelude.Int.{ℤ, pos, negsuc, ◌+ℤ◌, ◌-ℤ◌, ◌*ℕ◌, ltb_ℤ, quot, rem, sub_one, add_one}

-- struct timespec; struct timeval has the same shape.
pub record Timespec : Type 0 where
  pub tv_sec : ℤ
  pub tv_nsec : ℤ

pub record Timeval : Type 0 where
  pub tv_sec : ℤ
  pub tv_usec : ℤ

abbrev pub nsec_per_sec : ℕ
nsec_per_sec = 1000000000

abbrev pub eqb_ℤ : ℤ → ℤ → Bool
eqb_ℤ a b = not (ltb_ℤ a b) && not (ltb_ℤ b a)

-- The carry of a sum and of a difference.
unfoldable pub carry_up : Timespec → Timespec
carry_up r =
    if ltb_ℤ r.tv_nsec (pos nsec_per_sec)
    then r
    else record { tv_sec = add_one r.tv_sec; tv_nsec = r.tv_nsec -ℤ pos nsec_per_sec }

unfoldable pub carry_down : Timespec → Timespec
carry_down r =
    if ltb_ℤ r.tv_nsec (pos 0)
    then record { tv_sec = sub_one r.tv_sec; tv_nsec = r.tv_nsec +ℤ pos nsec_per_sec }
    else r

unfoldable pub ktime_sub : Timespec → Timespec → Timespec
unfolding carry_down
ktime_sub a b =
    carry_down (record { tv_sec = a.tv_sec -ℤ b.tv_sec; tv_nsec = a.tv_nsec -ℤ b.tv_nsec })

unfoldable pub ktime_add : Timespec → Timespec → Timespec
unfolding carry_up
ktime_add a b =
    carry_up (record { tv_sec = a.tv_sec +ℤ b.tv_sec; tv_nsec = a.tv_nsec +ℤ b.tv_nsec })

-- The same code under other names.
unfoldable pub timespec_add : Timespec → Timespec → Timespec
unfolding carry_up
timespec_add a b =
    carry_up (record { tv_sec = a.tv_sec +ℤ b.tv_sec; tv_nsec = a.tv_nsec +ℤ b.tv_nsec })

unfoldable pub timespec_sub : Timespec → Timespec → Timespec
unfolding carry_down
timespec_sub a b =
    carry_down (record { tv_sec = a.tv_sec -ℤ b.tv_sec; tv_nsec = a.tv_nsec -ℤ b.tv_nsec })

unfoldable pub ktime_to_ns : Timespec → ℤ
ktime_to_ns ts = ts.tv_sec *ℕ nsec_per_sec +ℤ ts.tv_nsec

unfoldable pub timespec_to_ns : Timespec → ℤ
timespec_to_ns ts = ts.tv_sec *ℕ nsec_per_sec +ℤ ts.tv_nsec

unfoldable pub ns_to_timespec : ℤ → Timespec
ns_to_timespec nsec =
    if eqb_ℤ nsec (pos 0)
    then record { tv_sec = pos 0; tv_nsec = pos 0 }
    else if ltb_ℤ (rem nsec nsec_per_sec) (pos 0)
    then record {
      tv_sec = sub_one (quot nsec nsec_per_sec);
      tv_nsec = rem nsec nsec_per_sec +ℤ pos nsec_per_sec;
    }
    else record { tv_sec = quot nsec nsec_per_sec; tv_nsec = rem nsec nsec_per_sec }

unfoldable pub ktime_set : ℤ → ℕ → Timespec
ktime_set secs nsecs = record { tv_sec = secs; tv_nsec = pos nsecs }

unfoldable pub ktime_to_timeval : Timespec → Timeval
ktime_to_timeval ts = record { tv_sec = ts.tv_sec; tv_usec = quot ts.tv_nsec 1000 }

unfoldable pub ktime_to_us : Timespec → ℤ
unfolding ktime_to_timeval
ktime_to_us t = let tv = ktime_to_timeval t in tv.tv_sec *ℕ 1000000 +ℤ tv.tv_usec

unfoldable pub ktime_to_ms : Timespec → ℤ
ktime_to_ms t = t.tv_sec *ℕ 1000 +ℤ quot t.tv_nsec 1000000

unfoldable pub ktime_us_delta : Timespec → Timespec → ℤ
unfolding ktime_to_us ktime_sub
ktime_us_delta last first = ktime_to_us (ktime_sub last first)

unfoldable pub ktime_ms_delta : Timespec → Timespec → ℤ
unfolding ktime_to_ms ktime_sub
ktime_ms_delta last first = ktime_to_ms (ktime_sub last first)

unfoldable pub ktime_add_us : Timespec → ℕ → Timespec
unfolding timespec_add
ktime_add_us t usec =
    timespec_add t
      (record { tv_sec = pos (usec / 1000000); tv_nsec = pos (1000 * (usec % 1000000)) })

unfoldable pub ktime_compare : Timespec → Timespec → ℤ
ktime_compare a b =
    if eqb_ℤ a.tv_sec b.tv_sec
    then (if ltb_ℤ b.tv_nsec a.tv_nsec
        then pos 1
        else if ltb_ℤ a.tv_nsec b.tv_nsec
        then negsuc 0
        else pos 0)
    else if ltb_ℤ b.tv_sec a.tv_sec
    then pos 1
    else if ltb_ℤ a.tv_sec b.tv_sec
    then negsuc 0
    else pos 0

-- On u64, which wraps around.
unfoldable pub timeval_to_ns : ℕ → ℕ → ℕ
timeval_to_ns tv_sec tv_usec = (tv_sec * nsec_per_sec + tv_usec * 1000) % 2 ^ 64

unfoldable pub ns_to_timeval : ℕ → ℕ × ℕ
ns_to_timeval nsec = (nsec / nsec_per_sec, nsec % nsec_per_sec / 1000)
