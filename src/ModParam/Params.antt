-- ===== src/ModParam/Params.antt =====
-- The list of module parameters of kernel/linux_mod_param.c, setting one and reading one. A string
-- is the list of its characters; `strtoul` and `atoi` are parameters.
use webcamd.Prelude.{
  ℕ, zero, suc, ◌-◌, ◌%◌, ◌^◌, Bool, true, false, ◌&&◌, ◌==◌, ltb, if◌then◌else◌, Option, none,
  some, List, [], ◌∷◌, ◌++◌, take,
}
use webcamd.Prelude.Int.{ℤ, pos, negsuc}

-- The strings that `type` is compared with, and any other.
pub data Kind : Type 0 where
  string short ushort int bool uint charp other : Kind

-- `number` and `text` are what `ptr` points to: a number as its bits, or a string; for "charp" the
-- string that the pointer there points to.
pub record ModParam : Type 0 where
  pub name : List ℕ
  pub kind : Kind
  pub size : ℕ
  pub number : ℕ
  pub text : List ℕ

-- `strcmp(a, b) == 0`
abbrev pub same_name : List ℕ → List ℕ → Bool
same_name [] [] = true
same_name (a ∷ as') (b ∷ bs) = (a == b) && same_name as' bs
same_name _ _ = false

unfoldable pub mod_param_register : ModParam → List ModParam → List ModParam
mod_param_register p ps = ps ++ (p ∷ [])

-- `strlcpy(dst, src, size)`
unfoldable pub strlcpy : List ℕ → List ℕ → ℕ → List ℕ
strlcpy dst src zero = dst
strlcpy dst src (suc size) = take size src

-- `none` is the answer -1.
unfoldable pub set_value : (List ℕ → ℕ) → List ℕ → ModParam → Kind → Option ModParam
set_value strtoul value p string = some (record p { text = strlcpy p.text value p.size })
set_value strtoul value p short = some (record p { number = strtoul value % 2 ^ 16 })
set_value strtoul value p ushort = some (record p { number = strtoul value % 2 ^ 16 })
set_value strtoul value p int = some (record p { number = strtoul value % 2 ^ 32 })
set_value strtoul value p bool = some (record p { number = if strtoul value == 0 then 0 else 1 })
set_value strtoul value p uint = some (record p { number = strtoul value % 2 ^ 32 })
set_value strtoul value p charp = some (record p { text = value })
set_value strtoul value p other = none

unfoldable pub stored : ModParam → List ModParam → Option ModParam → List ModParam × ℤ
stored p ps none = (p ∷ ps, negsuc 0)
stored p ps (some p') = (p' ∷ ps, pos 0)

unfoldable pub mod_set_param : (List ℕ → ℕ) → List ℕ → List ℕ → List ModParam → List ModParam × ℤ
mod_set_param strtoul name value [] = ([], negsuc 0)
mod_set_param strtoul name value (p ∷ ps) =
    let rest = mod_set_param strtoul name value ps in
    if same_name p.name name
    then stored p ps (set_value strtoul value p p.kind)
    else (p ∷ rest.0, rest.1)

-- The int with the given bits, for a width of 16 and of 32.
unfoldable pub int16 : ℕ → ℤ
int16 n = if ltb n (2 ^ 15) then pos n else negsuc (2 ^ 16 - 1 - n)

unfoldable pub int32 : ℕ → ℤ
int32 n = if ltb n (2 ^ 31) then pos n else negsuc (2 ^ 32 - 1 - n)

unfoldable pub get_value : (List ℕ → ℤ) → ModParam → Kind → ℤ
get_value atoi p string = atoi p.text
get_value atoi p short = int16 p.number
get_value atoi p ushort = pos p.number
get_value atoi p int = int32 p.number
get_value atoi p bool = pos p.number
get_value atoi p uint = int32 p.number
get_value atoi p charp = pos 0
get_value atoi p other = pos 0

unfoldable pub mod_get_int_param : (List ℕ → ℤ) → List ℕ → List ModParam → ℤ
mod_get_int_param atoi name [] = pos 0
mod_get_int_param atoi name (p ∷ ps) =
    let rest = mod_get_int_param atoi name ps in
    if same_name p.name name then get_value atoi p p.kind else rest
