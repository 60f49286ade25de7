-- ===== src/Cdev/Table.antt =====
-- The table of character devices, of kernel/linux_func.c.
use Prim.Native.Nat.{bit_xor}
use webcamd.Prelude.Stores.{assign}
use webcamd.Prelude.{
  ℕ, zero, suc, ◌+◌, ◌-◌, ◌*◌, ◌/◌, ◌%◌, ◌^◌, ◌&&◌, Bool, ◌==◌, ltb, if◌then◌else◌, Option, none,
  some, List, ◌∷◌,
}

-- The majors of the Linux headers, and the parameter dvb_swap_fe as a bit pattern.
pub record Majors : Type 0 where
  pub input : ℕ
  pub video : ℕ
  pub dvb : ℕ
  pub dvb_swap_fe : ℕ

-- `cdev_registry` and `cdev_mm`, by the kind of a device (F_V4B_*) and its unit.
pub record Registry : Type 0 where
  pub device : ℕ → ℕ → Option ℕ
  pub number : ℕ → ℕ → ℕ

-- The registry, and the fields of the devices; `freed` records the devices that were freed.
pub record Cdevs : Type 0 where
  pub registry : Registry
  pub mm_start : ℕ → ℕ
  pub mm_end : ℕ → ℕ
  pub is_alloced : ℕ → Bool
  pub freed : List ℕ

abbrev pub subdev_max : ℕ
subdev_max = 8

abbrev pub sub_max : ℕ
sub_max = 32

abbrev pub kind_max : ℕ
kind_max = 13

-- A unit of a kind that has no subunits.
unfoldable pub small : ℕ → ℕ → Option (ℕ × ℕ)
small kind subdev = if ltb subdev subdev_max then some (kind, subdev) else none

-- By the minor of an input device: EVDEV_MINOR_BASE and JOYDEV_MINOR_BASE.
unfoldable pub input_slot : ℕ → Option (ℕ × ℕ)
unfolding small
input_slot mm =
    if mm % 2 ^ 16 / 64 == 1
    then small 10 (mm % 64)
    else if mm % 2 ^ 16 / 64 == 0
    then small 11 (mm % 64)
    else none

-- The kind of a DVB device by the last digit of its minor.
unfoldable pub dvb_kind : ℕ → Option ℕ
dvb_kind minor =
    if minor == 0
    then some 8
    else if minor == 1
    then some 1
    else if minor == 2
    then some 7
    else if minor == 3
    then some 5
    else if minor == 4
    then some 3
    else if minor == 5
    then some 4
    else if minor == 6
    then some 2
    else if minor == 8
    then some 6
    else none

unfoldable pub with_unit : ℕ → Option ℕ → Option (ℕ × ℕ)
with_unit subdev none = none
with_unit subdev (some kind) = some (kind, subdev)

-- `id`, with frontends swapped.
unfoldable pub dvb_id : ℕ → ℕ → ℕ
dvb_id swap mm = if mm % 16 == 3 then bit_xor (mm / 16 % 4) swap % 4 else mm / 16 % 4

-- `subdev` has eight bits.
unfoldable pub dvb_slot : ℕ → ℕ → Option (ℕ × ℕ)
unfolding with_unit dvb_kind dvb_id
dvb_slot swap mm =
    let subdev = mm / 64 % 1024 % 256 in
    if ltb subdev subdev_max
    then with_unit ((subdev + subdev_max * dvb_id swap mm) % 256) (dvb_kind (mm % 16))
    else none

-- The place in the table that cdev_set_device writes for a device number.
unfoldable pub device_slot : Majors → ℕ → Option (ℕ × ℕ)
unfolding input_slot small dvb_slot
device_slot mj mm =
    let major = mm / 2 ^ 16 % 2 ^ 16 in
    if major == mj.input % 2 ^ 16
    then input_slot mm
    else if major == 14
    then small 9 (mm % 256)
    else if major == 35
    then small 12 (mm % 256)
    else if major == mj.video % 2 ^ 16
    then small 0 (mm % 256)
    else if major == mj.dvb % 2 ^ 16
    then dvb_slot mj.dvb_swap_fe mm
    else none

-- A table with one place changed.
unfoldable pub assign2 {ℓ} : {A : Type ℓ} → (ℕ → ℕ → A) → ℕ → ℕ → A → ℕ → ℕ → A
assign2 t k u x i j = if (i == k) && (j == u) then x else t i j

unfoldable pub set_place : Option (ℕ × ℕ) → ℕ → Option ℕ → Registry → Registry
unfolding assign2
set_place none mm cdev r = r
set_place (some (k, u)) mm cdev r = record {
  device = assign2 r.device k u cdev;
  number = assign2 r.number k u (mm % 2 ^ 32);
}

unfoldable pub cdev_set_device : Majors → ℕ → Option ℕ → Registry → Registry
unfolding set_place device_slot
cdev_set_device mj mm cdev r = set_place (device_slot mj mm) mm cdev r

-- The loops of cdev_add and cdev_del over `count` numbers from `mm` on.
unfoldable pub set_range : Majors → ℕ → ℕ → Option ℕ → Registry → Registry
unfolding cdev_set_device
set_range mj zero mm cdev r = r
set_range mj (suc count) mm cdev r =
    set_range mj count ((mm + 1) % 2 ^ 64) cdev (cdev_set_device mj mm cdev r)

unfoldable pub cdev_get_device : ℕ → Registry → Option ℕ
cdev_get_device f_v4b r =
    if ltb (f_v4b / sub_max) kind_max then r.device (f_v4b / sub_max) (f_v4b % sub_max) else none

unfoldable pub cdev_get_mm : ℕ → Registry → ℕ
cdev_get_mm f_v4b r =
    if ltb (f_v4b / sub_max) kind_max then r.number (f_v4b / sub_max) (f_v4b % sub_max) else 0

unfoldable pub cdev_add : Majors → ℕ → ℕ → ℕ → Cdevs → Cdevs
unfolding set_range assign
cdev_add mj cdev mm count s = record s {
  registry = set_range mj count mm (some cdev) s.registry;
  mm_start = assign s.mm_start cdev mm;
  mm_end = assign s.mm_end cdev ((mm + count) % 2 ^ 64);
}

-- The loop goes from `mm_start` up to `mm_end`.
unfoldable pub cdev_del : Majors → Option ℕ → Cdevs → Cdevs
unfolding set_range
cdev_del mj none s = s
cdev_del mj (some cdev) s =
    let count = (s.mm_end cdev + 2 ^ 64 - s.mm_start cdev) % 2 ^ 64 in
    record s {
      registry = set_range mj count (s.mm_start cdev) none s.registry;
      freed = if s.is_alloced cdev then cdev ∷ s.freed else s.freed;
    }
