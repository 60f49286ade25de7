-- ===== src/Examples/Strings.antt =====
-- The reading of numbers from strings, of kernel/linux_func.c.
use webcamd.Prelude.{ℕ, ◌+◌, ◌*◌, ◌-◌, ◌^◌, ◌≡◌, Bool, true, false, ◌||◌, ltb, List, [], ◌∷◌, refl}
use webcamd.Prelude.Int.{pos}
use webcamd.Parse.Kstrto.{
  Parser, same, bits_of, as_signed, cast, checked, to_signed, kstrtos16, kstrtou16, kstrtos8,
  kstrtou8, kstrtouint, kstrtoint, kstrtoul, erange,
}
use webcamd.Parse.Ranges.{in_signed, answer, kstrto-answer}

-- Digits without a sign.
abbrev digits : ℕ → List ℕ → ℕ → ℕ × Bool
digits value [] base = (value, false)
digits value (c ∷ cs) base =
    let further = digits (value * base + (c - 48)) cs base in
    elim (ltb c 48 || ltb 57 c) [ true ↦ (value, true) | false ↦ further ]

abbrev unsigned_only : Parser
unsigned_only = record {
  signed = λ s base. (pos (digits 0 s base).0, (digits 0 s base).1);
  unsigned = λ s base. digits 0 s base;
}

-- 200
abbrev two_hundred : List ℕ
two_hundred = 50 ∷ 48 ∷ 48 ∷ []

kstrto-answer_example :
    (kstrtos8 unsigned_only two_hundred 10
      ≡ answer false (in_signed (2 ^ 7) (pos 200)) (pos 200) 10)
    × (kstrtou8 unsigned_only two_hundred 10 ≡ answer false (ltb 200 (2 ^ 8)) (pos 200) 10)
    × (kstrtos16 unsigned_only two_hundred 10
        ≡ answer false (in_signed (2 ^ 15) (pos 200)) (pos 200) 10)
    × (kstrtou16 unsigned_only two_hundred 10 ≡ answer false (ltb 200 (2 ^ 16)) (pos 200) 10)
    × (kstrtoint unsigned_only two_hundred 10
        ≡ answer false (in_signed (2 ^ 31) (pos 200)) (pos 200) 10)
    × (kstrtouint unsigned_only two_hundred 10 ≡ answer false (ltb 200 (2 ^ 32)) (pos 200) 10)
    × (kstrtoul unsigned_only two_hundred 10 ≡ answer false true (pos 200) 10)
kstrto-answer_example = kstrto-answer unsigned_only two_hundred 10

-- It is no number of a signed byte.
kstrtos8_test : kstrtos8 unsigned_only two_hundred 10 ≡ (pos 0, erange)
unfolding kstrtos8 to_signed checked cast same bits_of as_signed
kstrtos8_test = refl
