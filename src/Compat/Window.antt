-- ===== src/Compat/Window.antt =====
-- What the fake user space keeps.
use webcamd.Prelude.Stores.{store}
use webcamd.Prelude.{
  ℕ, ◌+◌, ◌-◌, ◌≤◌, ◌≡◌, Bool, true, false, not, ◌||◌, ltb, some, replicate, refl, arith,
}
use webcamd.Compat.Space.{
  UserSpace, with_memory, take_space, compat_alloc_user_space, out_of_window,
}

-- What is given out lies within the memory.
pub record IsSpace (s : UserSpace) : Type 0 where
  pub within : s.allocated ≡ true → s.offset ≤ 4096

same_window :
    (base address len : ℕ) (s t : UserSpace)
    → s.allocated ≡ t.allocated
    → out_of_window base address len s ≡ out_of_window base address len t
unfolding out_of_window
same_window base address len s t e = rw e refl

given :
    (base len : ℕ) (memory : Bool) (s : UserSpace)
    → (with_memory memory s).allocated ≡ true
    → len ≤ 4096 - (with_memory memory s).offset
    → let t = with_memory memory s in
      compat_alloc_user_space base true memory len s ≡ (
        record t { offset = t.offset + len; bytes = store (replicate len 0) t.offset t.bytes },
        some (base + t.offset),
      )
unfolding compat_alloc_user_space take_space
given base len memory s a room =
    let t = with_memory memory s in
    let small : ltb 4096 len ≡ false = ground arith in
    let fits : not t.allocated || ltb (4096 - t.offset) len ≡ false = ground (arith, a) in
    rw small (rw fits refl)
