-- ===== src/Examples/Times.antt =====
-- Points in time of kernel/linux_func.c.
use webcamd.Prelude.{◌≡◌, refl, arith}
use webcamd.Prelude.Int.{pos, ◌+ℤ◌, ◌-ℤ◌}
use webcamd.Clock.Times.{Timespec, ktime_sub, carry_down}
use webcamd.Clock.Nanoseconds.{IsNormal}

abbrev early : Timespec
early = record { tv_sec = pos 2; tv_nsec = pos 999999999 }

abbrev late : Timespec
late = record { tv_sec = pos 5; tv_nsec = pos 3 }

early-IsNormal : IsNormal early
early-IsNormal = record { nonneg = omega arith; small = refl }

late-IsNormal : IsNormal late
late-IsNormal = record { nonneg = omega arith; small = refl }

ktime_sub_test : ktime_sub late early ≡ record { tv_sec = pos 2; tv_nsec = pos 4 }
unfolding ktime_sub carry_down ◌-ℤ◌ ◌+ℤ◌
ktime_sub_test = refl
