-- ===== src/Examples/Files.antt =====
-- Mappings and calls of a handle (kernel/linux_file.c).
use webcamd.Prelude.{ℕ, ◌+◌, ◌*◌, true, false, refl, none, some, List, [], ◌∷◌}
use webcamd.Prelude.Int.{pos}
use webcamd.File.Mapping.{
  Vma, mapped, failed, linux_get_user_pages, find_pages, if_covers, covers, pages,
}
use webcamd.File.Pages.{Within, linux_get_user_pages-Within}
use webcamd.File.Dispatch.{Handle, Fflags, Driver, FileOperations, linux_read, linux_write}
use webcamd.File.Answers.{Answered, seen, linux_read-Answered}

-- A driver that maps its buffer at 2 ^ 20.
abbrev maps : Vma → Vma × ℕ
maps v = (record v { buffer = mapped 1048576 }, 0)

abbrev entry : Vma
entry = record {
  vm_start = 0;
  vm_end = 0;
  vm_pgoff = 0;
  vm_flags = 0;
  closes = false;
  buffer = failed;
}

abbrev entries : List Vma
entries = entry ∷ entry ∷ []

abbrev region : Vma
region = record {
  vm_start = 65536;
  vm_end = 65536 + 3 * 4096;
  vm_pgoff = 0;
  vm_flags = 7;
  closes = false;
  buffer = mapped 1048576;
}

linux_get_user_pages-Within_example : Within 69632 2 (entry ∷ region ∷ []) (1052672 ∷ 1056768 ∷ [])
unfolding linux_get_user_pages find_pages if_covers covers pages
linux_get_user_pages-Within_example =
    linux_get_user_pages-Within 69632 2 (entry ∷ region ∷ []) (1052672 ∷ 1056768 ∷ []) refl

-- A driver that answers 17 and counts something else.
abbrev driver : Driver
driver arg h = (record h { other_flags = h.other_flags + arg }, pos 17)

abbrev operations : FileOperations
operations = record {
  on_open = none;
  release = none;
  read = some driver;
  write = some driver;
  poll = none;
  ioctl = none;
  unlocked_ioctl = none;
  compat_ioctl = none;
}

abbrev handle : Handle
handle = record { nonblock = false; other_flags = 3; in_compat32_call = false; frees = 0 }

abbrev fflags : Fflags
fflags = record { nonblock = true; compat32 = true }

linux_read-Answered_example :
    Answered driver 8 true (seen fflags handle) (linux_read operations 8 fflags (some handle))
    × Answered driver 8 true (seen fflags handle) (linux_write operations 8 fflags (some handle))
linux_read-Answered_example =
    linux_read-Answered operations driver driver 8 fflags handle refl (λ arg h. refl)
      (λ arg h. refl) refl refl
