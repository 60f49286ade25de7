-- ===== src/Cdev/Lookup.antt =====
-- What the calls on the table of devices find.
use webcamd.Prelude.Stores.{assign}
use webcamd.Prelude.{
  ℕ, zero, suc, ◌+◌, ◌-◌, ◌/◌, ◌%◌, ◌^◌, ◌<◌, ◌≡◌, ◌&&◌, ◌||◌, Bool, true, false, ◌==◌,
  if◌then◌else◌, Option, none, some, refl, ap, ◌∙◌, arith,
}
use webcamd.Cdev.Table.{
  Majors, Registry, Cdevs, device_slot, assign2, set_place, cdev_set_device, set_range,
  cdev_get_device, cdev_add, cdev_del,
}
use webcamd.Cdev.Places.{Within, device_slot-Within}

-- Whether a place is the one that is asked for.
unfoldable pub at_place : ℕ → Option (ℕ × ℕ) → Bool
at_place f none = false
at_place f (some (k, u)) = (f / 32 == k) && (f % 32 == u)

-- Whether one of `count` numbers from `mm` on has the place of `f`.
unfoldable pub claims : Majors → ℕ → ℕ → ℕ → Bool
unfolding at_place
claims mj zero mm f = false
claims mj (suc count) mm f = at_place f (device_slot mj mm) || claims mj count ((mm + 1) % 2 ^ 64) f

place_lem :
    (f : ℕ) (o : Option (ℕ × ℕ)) (mm : ℕ) (cdev : Option ℕ) (r : Registry)
    → f < 416
    → cdev_get_device f (set_place o mm cdev r)
      ≡ (if at_place f o then cdev else cdev_get_device f r)
unfolding set_place at_place cdev_get_device assign2
place_lem f none mm cdev r h = refl
place_lem f (some (k, u)) mm cdev r h = ground arith

set_device-get :
    (mj : Majors) (f mm : ℕ) (cdev : Option ℕ) (r : Registry)
    → f < 416
    → cdev_get_device f (cdev_set_device mj mm cdev r)
      ≡ (if at_place f (device_slot mj mm) then cdev else cdev_get_device f r)
unfolding cdev_set_device
set_device-get mj f mm cdev r h = place_lem f (device_slot mj mm) mm cdev r h

-- The loop of cdev_add and cdev_del changes just the places of its numbers.
set_range-get :
    (mj : Majors) (count f mm : ℕ) (cdev : Option ℕ) (r : Registry)
    → f < 416
    → cdev_get_device f (set_range mj count mm cdev r)
      ≡ (if claims mj count mm f then cdev else cdev_get_device f r)
unfolding set_range claims
set_range-get mj zero f mm cdev r h = refl
set_range-get mj (suc count) f mm cdev r h =
    let next = (mm + 1) % 2 ^ 64 in
    ground (
      arith,
      set_range-get mj count f next cdev (cdev_set_device mj mm cdev r) h,
      set_device-get mj f mm cdev r h,
    )

add-get :
    (mj : Majors) (cdev mm count f : ℕ) (s : Cdevs)
    → f < 416
    → cdev_get_device f (cdev_add mj cdev mm count s).registry
      ≡ (if claims mj count mm f then some cdev else cdev_get_device f s.registry)
unfolding cdev_add
add-get mj cdev mm count f s h = set_range-get mj count f mm (some cdev) s.registry h

add-range :
    (mj : Majors) (cdev mm count : ℕ) (s : Cdevs)
    → mm < 2 ^ 64
    → count < 2 ^ 32
    → let t = cdev_add mj cdev mm count s in
      (t.mm_start cdev ≡ mm) × ((t.mm_end cdev + 2 ^ 64 - t.mm_start cdev) % 2 ^ 64 ≡ count)
unfolding cdev_add assign
add-range mj cdev mm count s h k = (ground arith, ground arith)

del-get :
    (mj : Majors) (cdev mm count f : ℕ) (s : Cdevs)
    → f < 416
    → s.mm_start cdev ≡ mm
    → (s.mm_end cdev + 2 ^ 64 - s.mm_start cdev) % 2 ^ 64 ≡ count
    → cdev_get_device f (cdev_del mj (some cdev) s).registry
      ≡ (if claims mj count mm f then none else cdev_get_device f s.registry)
unfolding cdev_del
del-get mj cdev mm count f s h e k =
    set_range-get mj ((s.mm_end cdev + 2 ^ 64 - s.mm_start cdev) % 2 ^ 64) f (s.mm_start cdev) none
      s.registry h
    ∙ ap (λ (n : ℕ). if claims mj n (s.mm_start cdev) f then none else cdev_get_device f s.registry)
        k
    ∙ ap (λ (n : ℕ). if claims mj count n f then none else cdev_get_device f s.registry) e

twice :
    (b : Bool) (o p q : Option ℕ)
    → o ≡ (if b then q else p)
    → (if b then none else o) ≡ (if b then none else p)
twice true o p q e = refl
twice false o p q e = e

-- For each device file `f`: after cdev_add it is the new device just if one of the `count` numbers
-- has its place in the table, and what it was before otherwise. After cdev_del that device is at none
-- of the places that it was given, and all others are as before cdev_add. Every place that
-- cdev_set_device writes is in the table. (Numbers of devices have 64 bits, and `count` 32.)
pub cdev_add-lookup :
    (mj : Majors) (cdev mm count f n : ℕ) (s : Cdevs)
    → f < 416
    → mm < 2 ^ 64
    → count < 2 ^ 32
    → (cdev_get_device f (cdev_add mj cdev mm count s).registry
        ≡ (if claims mj count mm f then some cdev else cdev_get_device f s.registry))
      × (cdev_get_device f (cdev_del mj (some cdev) (cdev_add mj cdev mm count s)).registry
          ≡ (if claims mj count mm f then none else cdev_get_device f s.registry))
      × Within (device_slot mj n)
cdev_add-lookup mj cdev mm count f n s h hm hc =
    let (from, size) = add-range mj cdev mm count s hm hc in
    (
      add-get mj cdev mm count f s h,
      del-get mj cdev mm count f (cdev_add mj cdev mm count s) h from size
          ∙ twice (claims mj count mm f) _ _ _ (add-get mj cdev mm count f s h),
      device_slot-Within mj n,
    )
