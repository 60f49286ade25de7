-- ===== src/Vtuner/Properties.antt =====
-- Fields that share no byte, and the properties of a message.
use webcamd.Prelude.{
  ℕ, zero, suc, ◌+◌, ◌*◌, ◌<◌, ◌≡◌, Bool, true, false, ◌&&◌, ◌||◌, ltb, leb, List, [], ◌∷◌, refl,
  ap, ◌∙◌, arith,
}
use webcamd.Vtuner.Messages.{
  Memory, Field, in_field, bswap, bswap_all, v32, Headers, read32, has_buf, rest_fields,
  prop_fields, prop_byteswap, props_byteswap,
}
use webcamd.Vtuner.Local.{
  Agree, Local, either, Apart, bswap-Local, same-Local, compose-Local, widen-Local,
}

-- The bytes of a list of fields.
unfoldable pub covers : List Field → ℕ → Bool
unfolding in_field
covers [] i = false
covers (f ∷ fs) i = in_field f i || covers fs i

unfoldable pub apart : Field → Field → Bool
apart f g = leb (f.offset + f.width) g.offset || leb (g.offset + g.width) f.offset

unfoldable pub clear_of : Field → List Field → Bool
unfolding apart
clear_of f [] = true
clear_of f (g ∷ gs) = apart f g && clear_of f gs

-- No two fields share a byte.
unfoldable pub disjoint : List Field → Bool
unfolding clear_of
disjoint [] = true
disjoint (f ∷ fs) = clear_of f fs && disjoint fs

and_split : (a b : Bool) → a && b ≡ true → (a ≡ true) × (b ≡ true)
and_split true b h = (refl, h)
and_split false b h = ground arith

clear_of-covers :
    (f : Field) (fs : List Field) → clear_of f fs ≡ true → Apart (in_field f) (covers fs)
unfolding clear_of covers apart in_field
clear_of-covers f [] h i e = refl
clear_of-covers f (g ∷ gs) h i e =
    let (a, b) = and_split (apart f g) (clear_of f gs) h in
    let rest = clear_of-covers f gs b i e in ground (arith, rest, a, e)

pub bswap_all-Local : (fs : List Field) → disjoint fs ≡ true → Local (covers fs) (bswap_all fs)
unfolding bswap_all covers disjoint
bswap_all-Local [] h = same-Local
bswap_all-Local (f ∷ fs) h =
    let (a, b) = and_split (clear_of f fs) (disjoint fs) h in
    compose-Local (clear_of-covers f fs a) (bswap-Local f) (bswap_all-Local fs b)

-- The bytes of `n` properties from `o` on.
unfoldable pub of_props : ℕ → ℕ → ℕ → Bool
of_props n o i = leb o i && ltb i (o + 56 * n)

prop_fields-disjoint : (b : Bool) (o : ℕ) → disjoint (prop_fields b o) ≡ true
unfolding disjoint prop_fields rest_fields clear_of apart
prop_fields-disjoint true o = ground arith
prop_fields-disjoint false o = ground arith

prop_fields-within :
    (b : Bool) (o i : ℕ) → covers (prop_fields b o) i ≡ true → of_props 1 o i ≡ true
unfolding covers prop_fields rest_fields in_field of_props
prop_fields-within true o i h = ground arith
prop_fields-within false o i h = ground arith

fields-Local : (b : Bool) (o : ℕ) → Local (of_props 1 o) (bswap_all (prop_fields b o))
fields-Local b o =
    widen-Local (prop_fields-within b o)
      (bswap_all-Local (prop_fields b o) (prop_fields-disjoint b o))

rest_fields-disjoint : (b : Bool) (o : ℕ) → disjoint (rest_fields b o) ≡ true
unfolding disjoint rest_fields clear_of apart
rest_fields-disjoint true o = ground arith
rest_fields-disjoint false o = ground arith

behind_command : (b : Bool) (o i : ℕ) → i < o + 4 → covers (rest_fields b o) i ≡ false
unfolding covers rest_fields in_field
behind_command true o i h = ground arith
behind_command false o i h = ground arith

-- The command after the property is turned around is the command turned around.
command_byte :
    (b : Bool) (o i : ℕ) (m : Memory)
    → i < o + 4
    → bswap_all (prop_fields b o) m i ≡ bswap (v32 o) m i
unfolding bswap_all prop_fields
command_byte b o i m h =
    let l = bswap_all-Local (rest_fields b o) (rest_fields-disjoint b o) in
    l.outside (bswap (v32 o) m) i (behind_command b o i h)

command_read :
    (b : Bool) (o : ℕ) (m : Memory)
    → read32 (bswap_all (prop_fields b o) m) o ≡ read32 (bswap (v32 o) m) o
unfolding read32
command_read b o m = omega (
  arith,
  command_byte b o o m (omega arith),
  command_byte b o (o + 1) m (omega arith),
  command_byte b o (o + 2) m (omega arith),
  command_byte b o (o + 3) m (omega arith),
)

command-twice :
    (b : Bool) (o : ℕ) (m : Memory)
    → read32 (bswap (v32 o) (bswap_all (prop_fields b o) m)) o ≡ read32 m o
unfolding read32 bswap in_field
command-twice b o m = ground (
  arith,
  command_byte b o o m (omega arith),
  command_byte b o (o + 1) m (omega arith),
  command_byte b o (o + 2) m (omega arith),
  command_byte b o (o + 3) m (omega arith),
)

or_flip : (a b c d : Bool) → c ≡ b → d ≡ a → c || d ≡ a || b
or_flip a b c d e f = ground (arith, e, f)

or_same : {a b c d : Bool} → a ≡ c → b ≡ d → a || b ≡ c || d
or_same e f = cc

-- Which fields of a property are turned around is the same the second time.
has_buf-twice :
    (h : Headers) (o : ℕ) (m : Memory) → has_buf h o (prop_byteswap h o m) ≡ has_buf h o m
unfolding has_buf prop_byteswap
has_buf-twice h o m =
    let b = has_buf h o m in
    or_flip (h.takes_buffer _) (h.takes_buffer _) _ _ (ap h.takes_buffer (command_read b o m))
      (ap h.takes_buffer (command-twice b o m))

has_buf-Agree :
    (h : Headers) (o : ℕ) (m m' : Memory)
    → Agree (of_props 1 o) m m'
    → has_buf h o m ≡ has_buf h o m'
unfolding has_buf read32 bswap in_field of_props
has_buf-Agree h o m m' a =
    let b0 = a o (ground arith) in
    let b1 = a (o + 1) (ground arith) in
    let b2 = a (o + 2) (ground arith) in
    let b3 = a (o + 3) (ground arith) in
    or_same (ap h.takes_buffer (omega (arith, b0, b1, b2, b3)))
      (ap h.takes_buffer (ground (arith, b0, b1, b2, b3)))

prop_byteswap-Local : (h : Headers) (o : ℕ) → Local (of_props 1 o) (prop_byteswap h o)
unfolding prop_byteswap
prop_byteswap-Local h o = record {
  outside = λ m i e. (fields-Local (has_buf h o m) o).outside m i e;
  inside = λ m m' a i e.
      (fields-Local (has_buf h o m) o).inside m m' a i e
      ∙ ap (λ b. bswap_all (prop_fields b o) m' i) (has_buf-Agree h o m m' a);
  back = λ m i e.
      ap (λ b. bswap_all (prop_fields b o) (prop_byteswap h o m) i) (has_buf-twice h o m)
      ∙ (fields-Local (has_buf h o m) o).back m i e;
}

wider :
    (n o i : ℕ) → either (of_props 1 o) (of_props n (o + 56)) i ≡ true → of_props (suc n) o i ≡ true
unfolding of_props
wider n o i e = ground (arith, e)

later_props_clear : (n o : ℕ) → Apart (of_props 1 o) (of_props n (o + 56))
unfolding of_props
later_props_clear n o i e = ground (arith, e)

pub props_byteswap-Local : (h : Headers) (n o : ℕ) → Local (of_props n o) (props_byteswap h n o)
unfolding props_byteswap
props_byteswap-Local h zero o = widen-Local (λ i e. cc) same-Local
props_byteswap-Local h (suc n) o = widen-Local (wider n o) (
    compose-Local (later_props_clear n o) (prop_byteswap-Local h o)
      (props_byteswap-Local h n (o + 56)))
