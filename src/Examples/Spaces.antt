-- ===== src/Examples/Spaces.antt =====
-- The user-space memory of 32-bit calls, of kernel/linux_compat32.c.
use webcamd.Prelude.{ℕ, ◌-◌, ◌^◌, ◌≡◌, true, false, List, [], ◌∷◌, refl}
use webcamd.Compat.Space.{UserSpace, compat_alloc_user_space, out_of_window, compat_copy_to_user}

-- 16 bytes were given out, all of them 9.
abbrev space : UserSpace
space = record { allocated = true; offset = 16; bytes = λ _. 9 }

abbrev sent : List ℕ
sent = 1 ∷ 2 ∷ 3 ∷ []

abbrev written : UserSpace
written =
    (compat_copy_to_user 0x10000 0x10010 sent
      (compat_alloc_user_space 0x10000 true true 3 space).0).0

-- An address at the end of the words passes the guard, since the sum wraps around.
wrap_test : out_of_window 0x10000 (2 ^ 64 - 1) 2 space ≡ false
unfolding out_of_window
wrap_test = refl
