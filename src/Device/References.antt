-- ===== src/Device/References.antt =====
-- Every call keeps the counts.
use webcamd.Prelude.{
  ℕ, ◌+◌, ◌-◌, ◌*◌, ◌%◌, ◌^◌, ◌<◌, ◌≡◌, Option, none, some, List, [], ◌∷◌, refl, ap, ◌∙◌, arith,
  inl, inr, Bool-cases,
}
use webcamd.Prelude.Stores.{assign}
use webcamd.Device.Calls.{
  Buses, Devices, kref_get, kref_put, get_device, put_device, device_move, is_bus, set_driver,
  device_add, remove_on, device_del,
}
use webcamd.Device.Binding.{bind_to, bind_first, device_add_lem, first_of, accepts}
use webcamd.Device.Counts.{
  one, count, children, Call, get, put, add, del, move, run_call, is_ok, held_after, runs, held_by,
  IsAllowed, AreAllowed, IsCounted, count-assign, more_held, less_held, get_lem, put_lem,
}

IsCounted-bound :
    (n : ℕ) (h : ℕ → ℕ) (s : Devices) → IsCounted n h s → (p : ℕ) → s.refcount p < 2 ^ 32
unfolding IsCounted
IsCounted-bound n h s c p = omega (arith, c p)

get-IsCounted :
    (n : ℕ) (h : ℕ → ℕ) (d : ℕ) (s : Devices)
    → IsCounted n h s
    → IsCounted n (assign h d (h d + 1)) (get_device (some d) s)
unfolding IsCounted children get_device kref_get is_bus
get-IsCounted n h d s c p =
    omega (arith, get_lem (some d) s p (IsCounted-bound n h s c p), c p, more_held h d 1 p)

put-IsCounted :
    (n : ℕ) (h : ℕ → ℕ) (d : ℕ) (s : Devices)
    → 0 < h d
    → IsCounted n h s
    → IsCounted n (assign h d (h d - 1)) (put_device (some d) s)
unfolding IsCounted children put_device kref_put is_bus
put-IsCounted n h d s l c p =
    omega (arith, put_lem (some d) s p (IsCounted-bound n h s c p), c p, less_held h d p l)

get-parent : (o : Option ℕ) (s : Devices) → (get_device o s).parent ≡ s.parent
unfolding get_device kref_get
get-parent none s = refl
get-parent (some d) s = refl

put-parent : (o : Option ℕ) (s : Devices) → (put_device o s).parent ≡ s.parent
unfolding put_device kref_put
put-parent none s = refl
put-parent (some d) s = refl

move-IsCounted :
    (n : ℕ) (h : ℕ → ℕ) (d : ℕ) (o : Option ℕ) (s : Devices)
    → d < n
    → IsCounted n h s
    → IsCounted n h (device_move d o s)
unfolding IsCounted children device_move
move-IsCounted n h d o s l c p =
    let t = put_device (s.parent d) s in
    let u = record t { parent = assign t.parent d o } in
    let below : t.refcount p
        ≡ (s.refcount p + (2 ^ 32 - 1) * one (is_bus (s.parent d) p)) % 2 ^ 32 =
      put_lem (s.parent d) s p (IsCounted-bound n h s c p) in
    let parents : (get_device o u).parent ≡ assign s.parent d o =
      get-parent o u ∙ ap (λ f. assign f d o) (put-parent (s.parent d) s) in
    omega (
      arith,
      c p,
      below,
      get_lem o u p (omega (arith, below)),
      ap (λ f. count n (λ e. is_bus (f e) p)) parents,
      count-assign n d p s.parent o l,
    )

bind_to-IsCounted :
    (n : ℕ) (h : ℕ → ℕ) (o : Option ℕ) (d : ℕ) (s : Devices)
    → IsCounted n h s
    → IsCounted n (assign h d (h d + one (is_ok (bind_to o d s).1))) (bind_to o d s).0
unfolding bind_to is_ok one kref_get get_device set_driver IsCounted children
bind_to-IsCounted n h (some drv) d s c p = get-IsCounted n h d (set_driver d (some drv) s) c p
bind_to-IsCounted n h none d s c p = omega (arith, c p, more_held h d 0 p)

bind_first-IsCounted :
    (n : ℕ) (c : Buses) (h : ℕ → ℕ) (o : Option ℕ) (d : ℕ) (s : Devices)
    → IsCounted n h s
    → IsCounted n (assign h d (h d + one (is_ok (bind_first c d o s).1))) (bind_first c d o s).0
unfolding bind_first is_ok one kref_get get_device
bind_first-IsCounted n c h none d s k = get-IsCounted n h d s k
bind_first-IsCounted n c h (some b) d s k =
    bind_to-IsCounted n h (first_of (accepts c s d b) s.drivers.queue) d s k

del-IsCounted :
    (n : ℕ) (c : Buses) (h : ℕ → ℕ) (o : Option ℕ) (d : ℕ) (s : Devices)
    → 0 < h d
    → IsCounted n h s
    → IsCounted n
        (assign h d (h d - 1))
        (put_device (some d) (set_driver d none (remove_on c d o s)))
unfolding remove_on set_driver IsCounted children
del-IsCounted n c h none d s l k = put-IsCounted n h d (set_driver d none s) l k
del-IsCounted n c h (some b) d s l k = elim (Bool-cases (c.bus_remove b)) [
  | inl e ↦
      rw e (put-IsCounted n h d (set_driver d none (record s { removals = d ∷ s.removals })) l k)
  | inr e ↦ rw e (put-IsCounted n h d (set_driver d none s) l k)
]

add-IsCounted :
    (n : ℕ) (c : Buses) (h : ℕ → ℕ) (d : ℕ) (s : Devices)
    → IsCounted n h s
    → IsCounted n (assign h d (h d + one (is_ok (device_add c d s).1))) (device_add c d s).0
add-IsCounted n c h d s k =
    rw (device_add_lem c d s) (bind_first-IsCounted n c h (s.device_bus d) d s k)

call-IsCounted :
    (n : ℕ) (c : Buses) (h : ℕ → ℕ) (x : Call) (s : Devices)
    → IsAllowed n h x
    → IsCounted n h s
    → IsCounted n (held_after c x s h) (run_call c x s)
unfolding IsAllowed held_after run_call device_add device_del
call-IsCounted n c h (get d) s a k = get-IsCounted n h d s k
call-IsCounted n c h (put d) s a k = put-IsCounted n h d s a k
call-IsCounted n c h (add d) s a k = add-IsCounted n c h d s k
call-IsCounted n c h (del d) s a k = del-IsCounted n c h (s.device_bus d) d s a k
call-IsCounted n c h (move d p) s a k = move-IsCounted n h d p s a k

-- The count of a device is, after any calls that give back only what their callers hold and that
-- move devices below `n`, the number of references that are held and of the devices below `n` whose
-- parent it is, modulo 2 ^ 32, if it was so before.
pub runs-IsCounted :
    (n : ℕ) (c : Buses) (h : ℕ → ℕ) (xs : List Call) (s : Devices)
    → AreAllowed n c xs s h
    → IsCounted n h s
    → IsCounted n (held_by c xs s h) (runs c xs s)
unfolding AreAllowed held_by runs
runs-IsCounted n c h [] s a k = k
runs-IsCounted n c h (x ∷ xs) s a k =
    runs-IsCounted n c (held_after c x s h) xs (run_call c x s) a.1 (call-IsCounted n c h x s a.0 k)
