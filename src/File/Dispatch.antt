-- ===== src/File/Dispatch.antt =====
-- How kernel/linux_file.c calls the driver: opening, reading, writing, polling and the ioctls.
use webcamd.Prelude.{
  ℕ, ◌+◌, ◌-◌, ◌%◌, ◌^◌, ltb, Bool, true, false, if◌then◌else◌, Option, none, some, zero, suc, List,
  [],
}
use webcamd.File.Mapping.{Vma, close_regions}
use webcamd.Prelude.Int.{ℤ, pos, negsuc}

-- A handle as these functions see it: O_NONBLOCK in `f_flags` and its other bits, the thread's
-- `in_compat32_call`, and the calls of `compat_free_all_user_space`.
pub record Handle : Type 0 where
  pub nonblock : Bool
  pub other_flags : ℕ
  pub in_compat32_call : Bool
  pub frees : ℕ

-- CUSE_FFLAG_NONBLOCK and CUSE_FFLAG_COMPAT32 of `fflags`.
pub record Fflags : Type 0 where
  pub nonblock : Bool
  pub compat32 : Bool

-- A function of the driver on its argument: what it does to the handle, and its answer.
abbrev pub Driver : Type 0
Driver = ℕ → Handle → Handle × ℤ

-- struct file_operations; a function that is NULL is `none`.
pub record FileOperations : Type 0 where
  pub on_open : Option Driver
  pub release : Option Driver
  pub read : Option Driver
  pub write : Option Driver
  pub poll : Option Driver
  pub ioctl : Option Driver
  pub unlocked_ioctl : Option Driver
  pub compat_ioctl : Option Driver

-- -EINVAL, -EFAULT and -ENOTTY; POLLNVAL is 32.
abbrev pub einval : ℤ
einval = negsuc 21

abbrev pub efault : ℤ
efault = negsuc 13

abbrev pub enotty : ℤ
enotty = negsuc 24

unfoldable pub linux_fix_f_flags : Fflags → Handle → Handle
linux_fix_f_flags fflags h =
    if fflags.nonblock
    then if h.nonblock then h else record h { nonblock = true }
    else if h.nonblock
    then record h { nonblock = false }
    else h

unfoldable pub if_opened : Handle × ℤ → Option Handle
if_opened (h, pos zero) = some h
if_opened (h, pos (suc n)) = none
if_opened (h, negsuc n) = none

unfoldable pub call_open : Option Driver → Handle → Option Handle
call_open none h = some h
call_open (some driver) h = if_opened (driver 0 h)

-- For the operations of the device, if there is one, and the handle if there is memory for it.
unfoldable pub linux_open : Option FileOperations → Option Handle → Option Handle
linux_open none h = none
linux_open (some ops) none = none
linux_open (some ops) (some h) = call_open ops.on_open h

unfoldable pub call_release : Option Driver → Handle → ℤ
call_release none h = pos 0
call_release (some driver) h = (driver 0 h).1

-- The entries whose `close` is called, and the answer; the handle is freed.
unfoldable pub linux_close : FileOperations → Option (Handle × List Vma) → List ℕ × ℤ
linux_close ops none = ([], pos 0)
linux_close ops (some (h, vs)) = (close_regions 0 vs, call_release ops.release h)

-- A number as an `int` keeps it: its low 32 bits, in two's complement.
unfoldable pub as_int : ℤ → ℤ
as_int (pos n) = let m = n % 2 ^ 32 in if ltb m (2 ^ 31) then pos m else negsuc (2 ^ 32 - 1 - m)
as_int (negsuc n) = let m = n % 2 ^ 32 in if ltb m (2 ^ 31) then negsuc m else pos (2 ^ 32 - 1 - m)

-- The driver's answer, in an `int`.
unfoldable pub int_call : Driver → ℕ → Handle → Handle × ℤ
unfolding as_int
int_call driver arg h = let (h', error) = driver arg h in (h', as_int error)

-- A call with `in_compat32_call` set, and what follows it.
unfoldable pub compat_call : Driver → ℕ → Handle → Handle × ℤ
unfolding as_int
compat_call driver arg h =
    let (h', error) = driver arg (record h { in_compat32_call = true }) in
    (record h' { in_compat32_call = false; frees = h'.frees + 1 }, as_int error)

unfoldable pub call_as : Bool → Driver → ℕ → Handle → Handle × ℤ
call_as true driver arg h = compat_call driver arg h
call_as false driver arg h = int_call driver arg h

unfoldable pub transfer : Driver → ℕ → Fflags → Handle → Handle × ℤ
transfer driver arg fflags h = call_as fflags.compat32 driver arg (linux_fix_f_flags fflags h)

unfoldable pub call_transfer : Option Driver → ℕ → Fflags → Handle → Option Handle × ℤ
call_transfer none arg fflags h = (some h, einval)
call_transfer (some driver) arg fflags h =
    let (h', error) = transfer driver arg fflags h in (some h', error)

-- `none` is a handle that is NULL, here and below.
unfoldable pub linux_read : FileOperations → ℕ → Fflags → Option Handle → Option Handle × ℤ
linux_read ops arg fflags none = (none, einval)
linux_read ops arg fflags (some h) = call_transfer ops.read arg fflags h

unfoldable pub linux_write : FileOperations → ℕ → Fflags → Option Handle → Option Handle × ℤ
linux_write ops arg fflags none = (none, einval)
linux_write ops arg fflags (some h) = call_transfer ops.write arg fflags h

unfoldable pub linux_poll : FileOperations → Option Handle → Option Handle × ℤ
linux_poll ops none = (none, pos 32)
linux_poll ops (some h) = polls ops.poll
  where
    polls : Option Driver → Option Handle × ℤ
    polls none = (some h, pos 32)
    polls (some driver) = let (h', error) = int_call driver 0 h in (some h', error)

-- The argument of an ioctl: what `copy_from_user` reads there for an ioctl that carries an int
-- (`none` if it cannot), or the pointer as it is.
unfoldable pub ioctl_arg : Bool → Option ℕ → ℕ → Option ℕ
ioctl_arg true copied arg = copied
ioctl_arg false copied arg = some arg

unfoldable pub native_ioctl : Option Driver → Option Driver → ℕ → Handle → Handle × ℤ
native_ioctl (some unlocked) ioctl arg h = int_call unlocked arg h
native_ioctl none (some ioctl) arg h = int_call ioctl arg h
native_ioctl none none arg h = (h, einval)

unfoldable pub choose_ioctl :
    Bool → Option Driver → Option Driver → Option Driver → ℕ → Handle → Handle × ℤ
choose_ioctl true (some compat) unlocked ioctl arg h = compat_call compat arg h
choose_ioctl _ _ unlocked ioctl arg h = native_ioctl unlocked ioctl arg h

-- `carries_int` is the test of the direction and the length in `cmd`.
unfoldable pub linux_ioctl :
    FileOperations → Fflags → Bool → Option ℕ → ℕ → Option Handle → Option Handle × ℤ
linux_ioctl ops fflags carries_int copied arg none = (none, einval)
linux_ioctl ops fflags carries_int copied arg (some h) = calls (ioctl_arg carries_int copied arg)
  where
    calls : Option ℕ → Option Handle × ℤ
    calls none = (some h, efault)
    calls (some arg) =
        let (h', retval) =
          choose_ioctl fflags.compat32 ops.compat_ioctl ops.unlocked_ioctl ops.ioctl arg
            (linux_fix_f_flags fflags h) in
        (some h', retval)

unfoldable pub compat_ptr_ioctl : FileOperations → ℕ → Handle → Handle × ℤ
compat_ptr_ioctl ops arg h = calls ops.unlocked_ioctl
  where
    calls : Option Driver → Handle × ℤ
    calls none = (h, enotty)
    calls (some driver) = driver (arg % 2 ^ 32) h
