-- ===== src/Cdev/Places.antt =====
-- Every place that a device number has is in the table.
use webcamd.Prelude.{
  ℕ, ◌/◌, ◌%◌, ◌^◌, ◌<◌, Bool, true, false, ◌==◌, ltb, if◌then◌else◌, Option, none, some, arith,
  Bool-cases, inl, inr,
}
use webcamd.Cdev.Table.{
  Majors, small, input_slot, dvb_kind, with_unit, dvb_id, dvb_slot, device_slot,
}

-- A place that is in the table.
unfoldable pub Within : Option (ℕ × ℕ) → Type 0
Within none = Unit {0}
Within (some (k, u)) = (k < 13) × (u < 32)

small-Within : (k u : ℕ) → k < 13 → Within (small k u)
unfolding small Within
small-Within k u h = elim (Bool-cases (ltb u 8)) [
  | inl e ↦ rw e (h, ground (arith, e))
  | inr e ↦ rw e tt
]

input_slot-Within : (mm : ℕ) → Within (input_slot mm)
unfolding input_slot Within
input_slot-Within mm = elim (Bool-cases (mm % 2 ^ 16 / 64 == 1)) [
  | inl e ↦ rw e (small-Within 10 (mm % 64) (omega arith))
  | inr e ↦ elim (Bool-cases (mm % 2 ^ 16 / 64 == 0)) [
    | inl d ↦ rw e (rw d (small-Within 11 (mm % 64) (omega arith)))
    | inr d ↦ rw e (rw d tt)
  ]
]

-- Of an optional number, that it is a kind.
IsKind : Option ℕ → Type 0
IsKind none = Unit {0}
IsKind (some k) = k < 13

if-IsKind : (b : Bool) (k : ℕ) (o : Option ℕ) → k < 13 → IsKind o → IsKind (if b then some k else o)
unfolding IsKind
if-IsKind true k o h p = h
if-IsKind false k o h p = p

dvb_kind-IsKind : (m : ℕ) → IsKind (dvb_kind m)
unfolding dvb_kind
dvb_kind-IsKind m = if-IsKind (m == 0) 8 _ (omega arith) (
    if-IsKind (m == 1) 1 _ (omega arith) (
      if-IsKind (m == 2) 7 _ (omega arith) (
        if-IsKind (m == 3) 5 _ (omega arith) (
          if-IsKind (m == 4) 3 _ (omega arith) (
            if-IsKind (m == 5) 4 _ (omega arith) (
              if-IsKind (m == 6) 2 _ (omega arith)
                (if-IsKind (m == 8) 6 none (omega arith) (unfold IsKind in tt))))))))

with_unit-Within : (u : ℕ) (o : Option ℕ) → u < 32 → IsKind o → Within (with_unit u o)
unfolding with_unit Within IsKind
with_unit-Within u none h p = tt
with_unit-Within u (some k) h p = (p, h)

dvb_id_lem : (swap mm : ℕ) → dvb_id swap mm < 4
unfolding dvb_id
dvb_id_lem swap mm = ground arith

dvb_slot-Within : (swap mm : ℕ) → Within (dvb_slot swap mm)
unfolding dvb_slot Within
dvb_slot-Within swap mm = elim (Bool-cases (ltb (mm / 64 % 1024 % 256) 8)) [
  | inl e ↦ rw e (
      with_unit-Within _ (dvb_kind (mm % 16)) (ground (arith, e, dvb_id_lem swap mm))
        (dvb_kind-IsKind (mm % 16)))
  | inr e ↦ rw e tt
]

if-Within : (b : Bool) (o p : Option (ℕ × ℕ)) → Within o → Within p → Within (if b then o else p)
if-Within true o p x y = x
if-Within false o p x y = y

pub device_slot-Within : (mj : Majors) (mm : ℕ) → Within (device_slot mj mm)
unfolding device_slot
device_slot-Within mj mm = if-Within _ _ _ (input_slot-Within mm) (
    if-Within _ _ _ (small-Within 9 (mm % 256) (omega arith)) (
      if-Within _ _ _ (small-Within 12 (mm % 256) (omega arith)) (
        if-Within _ _ _ (small-Within 0 (mm % 256) (omega arith))
          (if-Within _ _ none (dvb_slot-Within mj.dvb_swap_fe mm) (unfold Within in tt)))))
