-- ===== src/File/Answers.antt =====
-- What the driver sees of a call, and what the caller gets (kernel/linux_file.c).
use webcamd.Prelude.{
  ℕ, ◌+◌, ◌%◌, ◌^◌, ◌≡◌, ltb, Bool-cases, inl, inr, Bool, true, false, if◌then◌else◌, Option, some,
  refl, sym, ap, ◌∙◌, subst, arith,
}
use webcamd.Prelude.Int.{ℤ, pos, negsuc}
use webcamd.File.Dispatch.{
  Handle, Fflags, Driver, FileOperations, linux_fix_f_flags, as_int, int_call, compat_call, call_as,
  transfer, call_transfer, linux_read, linux_write,
}

-- The driver leaves `in_compat32_call` as it finds it.
abbrev pub KeepsCompat : Driver → Type 0
KeepsCompat driver = (arg : ℕ) (h : Handle) → (driver arg h).0.in_compat32_call ≡ h.in_compat32_call

-- The handle that a driver is called with.
abbrev pub seen : Fflags → Handle → Handle
seen fflags h = record h { nonblock = fflags.nonblock; in_compat32_call = fflags.compat32 }

abbrev as_compat : Bool → Handle → Handle
as_compat b h = record h { in_compat32_call = b }

fix_lem :
    (fflags : Fflags) (h : Handle)
    → linux_fix_f_flags fflags h ≡ record h { nonblock = fflags.nonblock }
unfolding linux_fix_f_flags
fix_lem fflags h = ground arith

unfoldable pub fits_int : ℤ → Bool
fits_int (pos n) = ltb n (2 ^ 31)
fits_int (negsuc n) = ltb n (2 ^ 31)

as_int-fits_int : (a : ℤ) → as_int a ≡ (if fits_int a then a else as_int a)
unfolding as_int fits_int
as_int-fits_int (pos n) = elim (Bool-cases (ltb n (2 ^ 31))) [
  | inl e ↦ let m : n % 2 ^ 32 ≡ n = ground (arith, e) in rw (e, m) (rw e refl)
  | inr e ↦ rw e refl
]
as_int-fits_int (negsuc n) = elim (Bool-cases (ltb n (2 ^ 31))) [
  | inl e ↦ let m : n % 2 ^ 32 ≡ n = ground (arith, e) in rw (e, m) (rw e refl)
  | inr e ↦ rw e refl
]

-- What a call that reached the driver leaves behind, for a 32-bit caller or not: the driver's answer
-- for the handle `s`, the flag of the thread clear, and the memory of a 32-bit call given back.
pub record Answered (driver : Driver) (arg : ℕ) (compat32 : Bool) (s : Handle)
    (result : Option Handle × ℤ) : Type 0 where
  pub after : Handle
  pub is_after : result ≡ (some after, as_int (driver arg s).1)
  pub exact :
      as_int (driver arg s).1
      ≡ (if fits_int (driver arg s).1 then (driver arg s).1 else as_int (driver arg s).1)
  pub clear : after.in_compat32_call ≡ false
  pub frees :
      after.frees ≡ (if compat32 then (driver arg s).0.frees + 1 else (driver arg s).0.frees)

call_as-Answered :
    (driver : Driver) (arg : ℕ) (b : Bool) (s h : Handle)
    → KeepsCompat driver
    → s ≡ record h { in_compat32_call = b }
    → h.in_compat32_call ≡ false
    → Answered driver arg b s (some (call_as b driver arg h).0, (call_as b driver arg h).1)
unfolding call_as compat_call int_call
call_as-Answered driver arg true s h keeps e c = record {
  after = (compat_call driver arg h).0;
  is_after = ap (λ s. (some (compat_call driver arg h).0, as_int (driver arg s).1)) (sym e);
  exact = as_int-fits_int (driver arg s).1;
  clear = refl;
  frees = ap (λ s. (driver arg s).0.frees + 1) (sym e);
}
call_as-Answered driver arg false s h keeps e c =
    let f : s ≡ h = e ∙ ap (λ b. record h { in_compat32_call = b }) (sym c) in
    record {
      after = (driver arg h).0;
      is_after = ap (λ s. (some (driver arg h).0, as_int (driver arg s).1)) (sym f);
      exact = as_int-fits_int (driver arg s).1;
      clear = keeps arg h ∙ c;
      frees = ap (λ s. (driver arg s).0.frees) (sym f);
    }

transfer-Answered :
    (driver : Driver) (arg : ℕ) (fflags : Fflags) (h : Handle) (o : Option Driver)
    → o ≡ some driver
    → h.in_compat32_call ≡ false
    → KeepsCompat driver
    → Answered driver arg fflags.compat32 (seen fflags h) (call_transfer o arg fflags h)
unfolding call_transfer transfer
transfer-Answered driver arg fflags h o e c keeps =
    let f = fix_lem fflags h in
    subst (λ o. Answered driver arg fflags.compat32 (seen fflags h) (call_transfer o arg fflags h))
      (sym e)
      (call_as-Answered driver arg fflags.compat32 (seen fflags h) (linux_fix_f_flags fflags h)
        keeps (ap (as_compat fflags.compat32) (sym f)) (ap (λ h. h.in_compat32_call) f ∙ c))

-- A read or a write that the driver can take calls it once, with O_NONBLOCK as the caller wants it
-- and with `in_compat32_call` set just for a 32-bit caller, answers what the driver answers as
-- far as it fits in 32 bits with a sign (the code keeps it in an `int`), and leaves
-- `in_compat32_call` clear. (The driver leaves that flag alone, and it is clear before.)
pub linux_read-Answered :
    (ops : FileOperations) (reader writer : Driver) (arg : ℕ) (fflags : Fflags) (h : Handle)
    → h.in_compat32_call ≡ false
    → KeepsCompat reader
    → KeepsCompat writer
    → ops.read ≡ some reader
    → ops.write ≡ some writer
    → Answered reader arg fflags.compat32 (seen fflags h) (linux_read ops arg fflags (some h))
      × Answered writer arg fflags.compat32 (seen fflags h) (linux_write ops arg fflags (some h))
unfolding linux_read linux_write
linux_read-Answered ops reader writer arg fflags h c kr kw r w = (
  transfer-Answered reader arg fflags h ops.read r c kr,
  transfer-Answered writer arg fflags h ops.write w c kw,
)
