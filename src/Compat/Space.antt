-- ===== src/Compat/Space.antt =====
-- kernel/linux_compat32.c: memory of the thread that drivers see as user space, at fake addresses.
use webcamd.Prelude.Stores.{load, store}
use webcamd.Prelude.{
  ℕ, ◌+◌, ◌-◌, ◌%◌, ◌^◌, Bool, false, not, ◌||◌, ltb, if◌then◌else◌, Option, none, some, List, [],
  length, replicate,
}
use webcamd.Prelude.Int.{ℤ, pos, negsuc}

-- `linux_tls_memory`: whether there is memory, the offset of what is free, and the bytes by offset.
pub record UserSpace : Type 0 where
  pub allocated : Bool
  pub offset : ℕ
  pub bytes : ℕ → ℕ

-- WEBCAMD_USER_ALLOC_MAX
abbrev pub user_max : ℕ
user_max = 4096

abbrev pub erange : ℤ
erange = negsuc 33

-- The memory is allocated at the first call, by a malloc that answers as `memory` says. `base` is
-- WEBCAMD_USER_ALLOC_ADDR, which the headers of cuse give.
unfoldable pub with_memory : Bool → UserSpace → UserSpace
with_memory memory s = if s.allocated then s else record s { allocated = memory; offset = 0 }

unfoldable pub take_space : ℕ → ℕ → UserSpace → UserSpace × Option ℕ
take_space base len s = if not s.allocated || ltb (user_max - s.offset) len then (s, none) else (
  record s { offset = s.offset + len; bytes = store (replicate len 0) s.offset s.bytes },
  some (base + s.offset),
)

unfoldable pub compat_alloc_user_space : ℕ → Bool → Bool → ℕ → UserSpace → UserSpace × Option ℕ
unfolding with_memory take_space
compat_alloc_user_space base in_compat memory len s =
    if not in_compat || ltb user_max len
    then (s, none)
    else take_space base len (with_memory memory s)

unfoldable pub compat_free_all_user_space : UserSpace → UserSpace
compat_free_all_user_space s = record s { allocated = false }

-- The guard of the copies, on words of 64 bits.
unfoldable pub out_of_window : ℕ → ℕ → ℕ → UserSpace → Bool
out_of_window base address len s =
    ltb user_max len
    || (ltb address base || (ltb (base + user_max) ((address + len) % 2 ^ 64) || not s.allocated))

unfoldable pub compat_copy_to_user : ℕ → ℕ → List ℕ → UserSpace → UserSpace × ℤ
unfolding out_of_window
compat_copy_to_user base to from s =
    if out_of_window base to (length from) s
    then (s, erange)
    else (record s { bytes = store from (to - base) s.bytes }, pos 0)

unfoldable pub compat_copy_from_user : ℕ → ℕ → ℕ → UserSpace → List ℕ × ℤ
unfolding out_of_window
compat_copy_from_user base from len s =
    if out_of_window base from len s then ([], erange) else (load len (from - base) s.bytes, pos 0)
