-- ===== src/Examples/References.antt =====
-- Tests of the device model.
use webcamd.Prelude.{
  ℕ, ◌+◌, ◌≡◌, ◌==◌, ◌%◌, ◌^◌, Bool, true, false, if◌then◌else◌, List, [], ◌∷◌, Option, none, some,
  refl, arith,
}
use webcamd.Prelude.Int.{pos}
use webcamd.Tailq.{empty, insert_tail}
use webcamd.Device.Calls.{Buses, Devices, device_add, driver_register}
use webcamd.Device.Binding.{accepts, first_of, or_last, bind_to, device_add-first_of}
use webcamd.Device.Counts.{Call, get, put, add, del, move, runs, held_by, AreAllowed, IsCounted}
use webcamd.Device.References.{runs-IsCounted}

-- The bus 1 refuses the driver 10 when it compares and the driver 11 when it tries it.
abbrev buses : Buses
buses = record {
  bus_match = λ b. some (λ d drv. if drv == 10 then false else true);
  bus_probe = λ b. some (λ d drv. if drv == 11 then false else true);
  bus_remove = λ b. true;
}

-- The device 0 has no bus, the others have the bus 1.
abbrev start : Devices
start = record {
  drivers = insert_tail 12 (insert_tail 11 (insert_tail 10 empty));
  buses = empty;
  driver_bus = λ drv. some 1;
  device_bus = λ d. if d == 0 then none else some 1;
  driver = λ d. none;
  parent = λ d. none;
  refcount = λ d. 0;
  removals = [];
}

abbrev calls : List Call
calls = add 1 ∷ add 0 ∷ move 1 (some 0) ∷ move 1 (some 0) ∷ get 0 ∷ del 0 ∷ move 1 none ∷ del 1 ∷ []

third_driver :
    ((device_add buses 1 start).0.driver 1 ≡ some 12) × ((device_add buses 1 start).1 ≡ pos 0)
unfolding device_add webcamd.Prelude.Stores.assign webcamd.Device.Calls.kref_get insert_tail empty
    webcamd.Device.Calls.is_bus webcamd.Device.Calls.agrees
third_driver = (refl, refl)

one_left : ((runs buses calls start).refcount 0 ≡ 1) × ((runs buses calls start).refcount 1 ≡ 0)
unfolding runs webcamd.Prelude.Stores.assign webcamd.Device.Calls.kref_get insert_tail empty
    webcamd.Device.Calls.is_bus webcamd.Device.Calls.agrees
one_left = (refl, refl)

device_add-first_of_example :
    (device_add buses 1 start
      ≡ bind_to (first_of (accepts buses start 1 1) start.drivers.queue) 1 start)
    × (device_add buses 1 (driver_register 13 start)
        ≡ bind_to
            (or_last
              (first_of (accepts buses start 1 1) start.drivers.queue)
              (accepts buses start 1 1)
              13)
            1
            (driver_register 13 start))
device_add-first_of_example = device_add-first_of buses 1 1 13 start refl

calls-AreAllowed : AreAllowed 4 buses calls start (λ d. 0)
unfolding AreAllowed webcamd.Device.Counts.held_after webcamd.Device.Counts.run_call
    webcamd.Device.Counts.one webcamd.Device.Counts.is_ok device_add webcamd.Prelude.Stores.assign
    webcamd.Device.Calls.kref_get insert_tail empty webcamd.Device.Calls.is_bus
    webcamd.Device.Calls.agrees
calls-AreAllowed =
    (tt, (tt, (omega arith, (omega arith, (tt, (omega arith, (omega arith, (omega arith, tt))))))))

start-IsCounted : IsCounted 4 (λ d. 0) start
unfolding IsCounted webcamd.Device.Counts.children
start-IsCounted p = refl

runs-IsCounted_example : IsCounted 4 (held_by buses calls start (λ d. 0)) (runs buses calls start)
runs-IsCounted_example =
    runs-IsCounted 4 buses (λ d. 0) calls start calls-AreAllowed start-IsCounted
