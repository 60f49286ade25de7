-- ===== src/Device/Binding.antt =====
-- A device gets the first driver of its bus that its bus accepts.
use webcamd.Prelude.{
  ℕ, ◌≡◌, Bool, true, false, not, ◌&&◌, if◌then◌else◌, Option, none, some, List, [], ◌∷◌, ◌++◌,
  refl, ap, ◌∙◌, arith, fun_ext,
}
use webcamd.Prelude.Int.{ℤ, pos, negsuc}
use webcamd.Prelude.Stores.{assign}
use webcamd.Tailq.{insert_tail}
use webcamd.Device.Calls.{
  Buses, Devices, kref_get, driver_register, is_bus, agrees, set_driver, add_loop, add_on,
  device_add,
}

-- A driver of the bus `b` that bus->match and bus->probe accept.
unfoldable pub accepts : Buses → Devices → ℕ → ℕ → ℕ → Bool
accepts c s d b drv =
    is_bus (s.driver_bus drv) b && (agrees (c.bus_match b) d drv && agrees (c.bus_probe b) d drv)

unfoldable pub first_of : (ℕ → Bool) → List ℕ → Option ℕ
first_of p [] = none
first_of p (x ∷ xs) = let rest = first_of p xs in if p x then some x else rest

-- The driver is set, and a successful call takes one reference.
unfoldable pub bind_to : Option ℕ → ℕ → Devices → Devices × ℤ
bind_to none d s = (set_driver d none s, negsuc 5)
bind_to (some drv) d s = (kref_get d (set_driver d (some drv) s), pos 0)

pub assign_twice {ℓ} :
    {A : Type ℓ} (f : ℕ → A) (d : ℕ) (a b : A) → assign (assign f d a) d b ≡ assign f d b
unfolding assign
assign_twice f d a b = fun_ext (λ x. ground arith)

set_driver_twice :
    (d : ℕ) (a b : Option ℕ) (s : Devices) → set_driver d b (set_driver d a s) ≡ set_driver d b s
unfolding set_driver
set_driver_twice d a b s = rw (assign_twice s.driver d a b) refl

bind_to-set_driver :
    (o : Option ℕ) (d : ℕ) (a : Option ℕ) (s : Devices)
    → bind_to o d (set_driver d a s) ≡ bind_to o d s
unfolding bind_to
bind_to-set_driver none d a s = rw (set_driver_twice d a none s) refl
bind_to-set_driver (some drv) d a s = rw (set_driver_twice d a (some drv) s) refl

-- One turn of the loop, by what its three tests say.
turn_lem :
    (same m p : Bool) (drv d : ℕ) (o : Option ℕ) (s : Devices) (rest : Devices × ℤ)
    → rest ≡ bind_to o d (if same then set_driver d (some drv) s else s)
    → (if not same
        then rest
        else if not m
        then rest
        else if not p
        then rest
        else (kref_get d (if same then set_driver d (some drv) s else s), pos 0))
      ≡ bind_to (if same && (m && p) then some drv else o) d s
unfolding bind_to
turn_lem false m p drv d o s rest e = e
turn_lem true false p drv d o s rest e = e ∙ bind_to-set_driver o d (some drv) s
turn_lem true true false drv d o s rest e = e ∙ bind_to-set_driver o d (some drv) s
turn_lem true true true drv d o s rest e = refl

first_of_ext :
    (p q : ℕ → Bool) (xs : List ℕ) → ((x : ℕ) → p x ≡ q x) → first_of p xs ≡ first_of q xs
unfolding first_of
first_of_ext p q [] h = refl
first_of_ext p q (x ∷ xs) h = rw (h x, first_of_ext p q xs h) refl

accepts_set :
    (same : Bool) (c : Buses) (s : Devices) (d b drv x : ℕ)
    → accepts c (if same then set_driver d (some drv) s else s) d b x ≡ accepts c s d b x
unfolding accepts set_driver
accepts_set true c s d b drv x = refl
accepts_set false c s d b drv x = refl

add_loop-first :
    (c : Buses) (d b : ℕ) (drvs : List ℕ) (s : Devices)
    → add_loop c d b drvs s ≡ bind_to (first_of (accepts c s d b) drvs) d s
unfolding add_loop first_of accepts is_bus bind_to
add_loop-first c d b [] s = refl
add_loop-first c d b (drv ∷ drvs) s =
    let same = is_bus (s.driver_bus drv) b in
    let t = if same then set_driver d (some drv) s else s in
    turn_lem same (agrees (c.bus_match b) d drv) (agrees (c.bus_probe b) d drv) drv d _ s _ (
      add_loop-first c d b drvs t
      ∙ ap (λ o. bind_to o d t) (first_of_ext _ _ drvs (accepts_set same c s d b drv)))

-- The driver that is registered last is looked at last.
unfoldable pub or_last : Option ℕ → (ℕ → Bool) → ℕ → Option ℕ
or_last none p x = if p x then some x else none
or_last (some y) p x = some y

first_of-append :
    (p : ℕ → Bool) (x : ℕ) (xs : List ℕ) → first_of p (xs ++ (x ∷ [])) ≡ or_last (first_of p xs) p x
unfolding first_of or_last
first_of-append p x [] = refl
first_of-append p x (y ∷ xs) = first_more (p y) (first_of-append p x xs)
  where
    first_more :
        (b : Bool)
        → first_of p (xs ++ (x ∷ [])) ≡ or_last (first_of p xs) p x
        → (if b then some y else first_of p (xs ++ (x ∷ [])))
          ≡ or_last (if b then some y else first_of p xs) p x
    first_more true e = refl
    first_more false e = e

-- What device_add does, by the bus of the device: without one it only takes a reference.
unfoldable pub bind_first : Buses → ℕ → Option ℕ → Devices → Devices × ℤ
unfolding bind_to first_of accepts
bind_first c d none s = (kref_get d s, pos 0)
bind_first c d (some b) s = bind_to (first_of (accepts c s d b) s.drivers.queue) d s

add_on-bind_first :
    (c : Buses) (d : ℕ) (o : Option ℕ) (s : Devices) → add_on c d o s ≡ bind_first c d o s
unfolding add_on bind_first
add_on-bind_first c d none s = refl
add_on-bind_first c d (some b) s = add_loop-first c d b s.drivers.queue s

pub device_add_lem :
    (c : Buses) (d : ℕ) (s : Devices) → device_add c d s ≡ bind_first c d (s.device_bus d) s
unfolding device_add
device_add_lem c d s = add_on-bind_first c d (s.device_bus d) s

-- device_add sets the first driver in the order of registration that is for the bus of the device
-- and that bus->match and bus->probe accept, takes a reference and answers 0; where there is none,
-- it sets no driver, takes no reference and answers ENXIO. A driver that is registered afterwards
-- is set where no other was accepted.
pub device_add-first_of :
    (c : Buses) (d b drv : ℕ) (s : Devices)
    → s.device_bus d ≡ some b
    → (device_add c d s ≡ bind_to (first_of (accepts c s d b) s.drivers.queue) d s)
      × (device_add c d (driver_register drv s)
          ≡ bind_to
              (or_last (first_of (accepts c s d b) s.drivers.queue) (accepts c s d b) drv)
              d
              (driver_register drv s))
unfolding device_add add_on driver_register insert_tail accepts
device_add-first_of c d b drv s e =
    let r = driver_register drv s in
    (
      ap (λ o. add_on c d o s) e ∙ add_loop-first c d b s.drivers.queue s,
      ap (λ o. add_on c d o r) e
          ∙ add_loop-first c d b r.drivers.queue r
          ∙ ap (λ o. bind_to o d r) (first_of-append (accepts c s d b) drv s.drivers.queue),
    )
