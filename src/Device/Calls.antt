-- ===== src/Device/Calls.antt =====
-- References, drivers, buses and devices, of kernel/linux_func.c.
use webcamd.Prelude.{
  ℕ, ◌+◌, ◌-◌, ◌%◌, ◌^◌, Bool, true, false, not, ◌==◌, if◌then◌else◌, Option, none, some, List, [],
  ◌∷◌,
}
use webcamd.Prelude.Int.{ℤ, pos, negsuc}
use webcamd.Prelude.Stores.{assign}
use webcamd.Tailq.{Tailq, insert_tail, unlink}

-- The functions of a bus are code of the drivers: `bus_match` by device and driver, where 0 is
-- `false`; `bus_probe` by device and the driver that is set, where 0 is `true`. They are taken to
-- leave the queues and the fields below alone. `bus_remove` says whether there is such a function.
pub record Buses : Type 0 where
  pub bus_match : ℕ → Option (ℕ → ℕ → Bool)
  pub bus_probe : ℕ → Option (ℕ → ℕ → Bool)
  pub bus_remove : ℕ → Bool

-- `device_driver_head`, `bus_type_head`, and the fields of drivers and devices by their number;
-- `removals` records the calls of bus->remove, latest first.
pub record Devices : Type 0 where
  pub drivers : Tailq
  pub buses : Tailq
  pub driver_bus : ℕ → Option ℕ
  pub device_bus : ℕ → Option ℕ
  pub driver : ℕ → Option ℕ
  pub parent : ℕ → Option ℕ
  pub refcount : ℕ → ℕ
  pub removals : List ℕ

unfoldable pub kref_get : ℕ → Devices → Devices
kref_get d s = record s { refcount = assign s.refcount d ((s.refcount d + 1) % 2 ^ 32) }

unfoldable pub kref_get_unless_zero : ℕ → Devices → Devices × Bool
unfolding kref_get
kref_get_unless_zero d s = if s.refcount d == 0 then (s, false) else (kref_get d s, true)

-- Answers whether it released; dev_release does nothing.
unfoldable pub kref_put : ℕ → Devices → Devices × Bool
kref_put d s =
    let n = (s.refcount d + (2 ^ 32 - 1)) % 2 ^ 32 in
    (record s { refcount = assign s.refcount d n }, n == 0)

unfoldable pub get_device : Option ℕ → Devices → Devices
get_device none s = s
get_device (some d) s = kref_get d s

unfoldable pub put_device : Option ℕ → Devices → Devices
unfolding kref_put
put_device none s = s
put_device (some d) s = (kref_put d s).0

unfoldable pub device_move : ℕ → Option ℕ → Devices → Devices
unfolding get_device put_device
device_move d p s =
    let t = put_device (s.parent d) s in get_device p (record t { parent = assign t.parent d p })

unfoldable pub driver_register : ℕ → Devices → Devices
driver_register drv s = record s { drivers = insert_tail drv s.drivers }

unfoldable pub driver_unregister : ℕ → Devices → Devices × ℤ
driver_unregister drv s =
    if not (s.drivers.linked drv)
    then (s, negsuc 21)
    else (record s { drivers = unlink drv s.drivers }, pos 0)

unfoldable pub bus_register : ℕ → Devices → Devices
bus_register b s = record s { buses = insert_tail b s.buses }

unfoldable pub bus_unregister : ℕ → Devices → Devices × ℤ
bus_unregister b s =
    if not (s.buses.linked b)
    then (s, negsuc 21)
    else (record s { buses = unlink b s.buses }, pos 0)

unfoldable pub is_bus : Option ℕ → ℕ → Bool
is_bus none b = false
is_bus (some a) b = a == b

-- A function that is not there agrees to everything.
unfoldable pub agrees : Option (ℕ → ℕ → Bool) → ℕ → ℕ → Bool
agrees none d drv = true
agrees (some f) d drv = f d drv

unfoldable pub set_driver : ℕ → Option ℕ → Devices → Devices
set_driver d drv s = record s { driver = assign s.driver d drv }

unfoldable pub add_loop : Buses → ℕ → ℕ → List ℕ → Devices → Devices × ℤ
unfolding set_driver
add_loop c d b [] s = (set_driver d none s, negsuc 5)
add_loop c d b (drv ∷ drvs) s =
    let same = is_bus (s.driver_bus drv) b in
    let t = if same then set_driver d (some drv) s else s in
    let rest = add_loop c d b drvs t in
    if not same
    then rest
    else if not (agrees (c.bus_match b) d drv)
    then rest
    else if not (agrees (c.bus_probe b) d drv)
    then rest
    else (kref_get d t, pos 0)

unfoldable pub add_on : Buses → ℕ → Option ℕ → Devices → Devices × ℤ
unfolding add_loop
add_on c d none s = (kref_get d s, pos 0)
add_on c d (some b) s = add_loop c d b s.drivers.queue s

unfoldable pub device_add : Buses → ℕ → Devices → Devices × ℤ
unfolding add_on
device_add c d s = add_on c d (s.device_bus d) s

unfoldable pub remove_on : Buses → ℕ → Option ℕ → Devices → Devices
remove_on c d none s = s
remove_on c d (some b) s = if c.bus_remove b then record s { removals = d ∷ s.removals } else s

unfoldable pub device_del : Buses → ℕ → Devices → Devices
unfolding set_driver put_device remove_on
device_del c d s = put_device (some d) (set_driver d none (remove_on c d (s.device_bus d) s))
