-- ===== src/Examples/Parameters.antt =====
-- Module parameters (kernel/linux_mod_param.c).
use webcamd.Prelude.{ℕ, ◌+◌, ◌*◌, ◌-◌, ◌≢◌, refl, ap, arith, List, [], ◌∷◌}
use webcamd.Prelude.Int.{ℤ, pos}
use webcamd.ModParam.Params.{ModParam, int, uint, mod_set_param, mod_get_int_param}
use webcamd.ModParam.Reading.{IsRead}
use webcamd.ModParam.Values.{mod_set_param-IsRead}

-- Decimal numbers without a sign.
abbrev digits : ℕ → List ℕ → ℕ
digits n [] = n
digits n (c ∷ cs) = digits (10 * n + (c - 48)) cs

abbrev parameters : List ModParam
parameters =
    record { name = 97 ∷ []; kind = uint; size = 0; number = 7; text = [] }
    ∷ record { name = 98 ∷ []; kind = int; size = 0; number = 9; text = [] }
    ∷ []

abbrev a : List ℕ
a = 97 ∷ []

abbrev b : List ℕ
b = 98 ∷ []

abbrev read : List ℕ → ℤ
read s = pos (digits 0 s)

-- "42"
abbrev value : List ℕ
value = 52 ∷ 50 ∷ []

abbrev second : ModParam
second = record { name = b; kind = int; size = 0; number = 9; text = [] }

mod_set_param-IsRead_example :
    IsRead read value
      (digits 0 value)
      second
      int
      (mod_get_int_param read b (mod_set_param (digits 0) b value parameters).0)
mod_set_param-IsRead_example = mod_set_param-IsRead (digits 0) read b value second parameters refl

differ : b ≢ a
differ e = omega (arith, ap (digits 0) e)
