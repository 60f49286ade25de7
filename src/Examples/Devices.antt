-- ===== src/Examples/Devices.antt =====
-- Character devices of kernel/linux_func.c.
use webcamd.Prelude.Stores.{assign}
use webcamd.Prelude.{ℕ, ◌≡◌, true, none, some, [], refl, arith, if◌then◌else◌, ◌*◌, ◌+◌, ◌^◌}
use webcamd.Cdev.Table.{
  Majors, Cdevs, small, input_slot, dvb_kind, with_unit, dvb_id, dvb_slot, device_slot, assign2,
  set_place, cdev_set_device, set_range, cdev_get_device, cdev_get_mm, cdev_add, cdev_del,
}
use webcamd.Cdev.Places.{Within}
use webcamd.Cdev.Lookup.{claims, cdev_add-lookup}

abbrev majors : Majors
majors = record { input = 13; video = 81; dvb = 212; dvb_swap_fe = 1 }

abbrev no_devices : Cdevs
no_devices = record {
  registry = record { device = λ _ _. none; number = λ _ _. 0 };
  mm_start = λ _. 0;
  mm_end = λ _. 0;
  is_alloced = λ _. true;
  freed = [];
}

-- The frontend 0 of the DVB adapter 2.
abbrev frontend : ℕ
frontend = 212 * 2 ^ 16 + 2 * 64 + 3

cdev_add-lookup_example :
    (cdev_get_device 170 (cdev_add majors 7 frontend 1 no_devices).registry
      ≡ (if claims majors 1 frontend 170 then some 7 else cdev_get_device 170 no_devices.registry))
    × (cdev_get_device 170
          (cdev_del majors (some 7) (cdev_add majors 7 frontend 1 no_devices)).registry
        ≡ (if claims majors 1 frontend 170 then none else cdev_get_device 170 no_devices.registry))
    × Within (device_slot majors frontend)
cdev_add-lookup_example =
    cdev_add-lookup majors 7 frontend 1 170 frontend no_devices (omega arith) (omega arith)
      (omega arith)

-- With dvb_swap_fe it is the file of the second subunit.
cdev_add_test :
    cdev_get_device (5 * 32 + 10) (cdev_add majors 7 frontend 1 no_devices).registry ≡ some 7
unfolding cdev_get_device cdev_add set_range cdev_set_device set_place assign2 device_slot dvb_slot
    with_unit dvb_kind dvb_id input_slot small assign
cdev_add_test = refl

cdev_get_mm_test :
    cdev_get_mm (5 * 32 + 10) (cdev_add majors 7 frontend 1 no_devices).registry ≡ frontend
unfolding cdev_get_mm cdev_add set_range cdev_set_device set_place assign2 device_slot dvb_slot
    with_unit dvb_kind dvb_id input_slot small assign
cdev_get_mm_test = refl
