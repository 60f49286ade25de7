-- ===== src/Device/Counts.antt =====
-- A device counts the references that its users hold and one for each device below it.
use webcamd.Prelude.{
  ℕ, zero, suc, ◌+◌, ◌-◌, ◌*◌, ◌%◌, ◌^◌, ◌<◌, ◌≡◌, Bool, true, false, ◌==◌, if◌then◌else◌, Option,
  none, some, List, [], ◌∷◌, refl, sym, ap, ◌∙◌, arith, inl, inr, Bool-cases, ==_iff,
}
use webcamd.Prelude.Int.{ℤ, pos, negsuc}
use webcamd.Prelude.Stores.{assign}
use webcamd.Device.Calls.{
  Buses, Devices, kref_get, kref_put, get_device, put_device, device_move, is_bus, device_add,
  device_del,
}

unfoldable pub one : Bool → ℕ
one b = if b then 1 else 0

-- How many of the numbers below `n` pass a test.
unfoldable pub count : ℕ → (ℕ → Bool) → ℕ
unfolding one
count zero f = 0
count (suc n) f = count n f + one (f n)

-- The devices below `n` whose parent is `p`.
unfoldable pub children : ℕ → Devices → ℕ → ℕ
unfolding count is_bus
children n s p = count n (λ d. is_bus (s.parent d) p)

-- The calls, with their devices.
pub data Call : Type 0 where
  get put add del : ℕ → Call
  move : ℕ → Option ℕ → Call

unfoldable pub run_call : Buses → Call → Devices → Devices
unfolding device_add device_del device_move get_device put_device
run_call c (get d) s = get_device (some d) s
run_call c (put d) s = put_device (some d) s
run_call c (add d) s = (device_add c d s).0
run_call c (del d) s = device_del c d s
run_call c (move d p) s = device_move d p s

unfoldable pub is_ok : ℤ → Bool
is_ok (pos n) = true
is_ok (negsuc n) = false

-- The references that the callers hold after a call: get_device and a device_add that succeeds
-- hand one out, put_device and device_del take one back.
unfoldable pub held_after : Buses → Call → Devices → (ℕ → ℕ) → ℕ → ℕ
unfolding is_ok
held_after c (get d) s h = assign h d (h d + 1)
held_after c (put d) s h = assign h d (h d - 1)
held_after c (add d) s h = assign h d (h d + one (is_ok (device_add c d s).1))
held_after c (del d) s h = assign h d (h d - 1)
held_after c (move d p) s h = h

unfoldable pub runs : Buses → List Call → Devices → Devices
unfolding run_call
runs c [] s = s
runs c (x ∷ xs) s = runs c xs (run_call c x s)

unfoldable pub held_by : Buses → List Call → Devices → (ℕ → ℕ) → ℕ → ℕ
unfolding held_after run_call
held_by c [] s h = h
held_by c (x ∷ xs) s h = held_by c xs (run_call c x s) (held_after c x s h)

-- A call gives back only what is held, and moves a device below `n`.
unfoldable pub IsAllowed : ℕ → (ℕ → ℕ) → Call → Type 0
IsAllowed n h (get d) = Unit {0}
IsAllowed n h (put d) = 0 < h d
IsAllowed n h (add d) = Unit {0}
IsAllowed n h (del d) = 0 < h d
IsAllowed n h (move d p) = d < n

unfoldable pub AreAllowed : ℕ → Buses → List Call → Devices → (ℕ → ℕ) → Type 0
unfolding IsAllowed held_after run_call
AreAllowed n c [] s h = Unit
AreAllowed n c (x ∷ xs) s h =
    IsAllowed n h x × AreAllowed n c xs (run_call c x s) (held_after c x s h)

unfoldable pub IsCounted : ℕ → (ℕ → ℕ) → Devices → Type 0
IsCounted n h s = (p : ℕ) → s.refcount p ≡ (h p + children n s p) % 2 ^ 32

count_below : (n : ℕ) (f g : ℕ → Bool) → ((i : ℕ) → i < n → f i ≡ g i) → count n f ≡ count n g
unfolding count
count_below zero f g h = refl
count_below (suc n) f g h =
    rw (count_below n f g (λ i l. h i (omega (arith, l))), h n (omega arith)) refl

assign_other {ℓ} : {A : Type ℓ} (f : ℕ → A) (d e : ℕ) (v : A) → e < d → assign f d v e ≡ f e
unfolding assign
assign_other f d e v h = ground arith

assign_same {ℓ} : {A : Type ℓ} (f : ℕ → A) (d : ℕ) (v : A) → assign f d v d ≡ v
unfolding assign
assign_same f d v = ground arith

assign_above {ℓ} : {A : Type ℓ} (f : ℕ → A) (d e : ℕ) (v : A) → d < e → assign f d v e ≡ f e
unfolding assign
assign_above f d e v h = ground arith

-- A new parent of one device.
pub count-assign :
    (n d p : ℕ) (f : ℕ → Option ℕ) (v : Option ℕ)
    → d < n
    → count n (λ e. is_bus (assign f d v e) p) + one (is_bus (f d) p)
      ≡ count n (λ e. is_bus (f e) p) + one (is_bus v p)
unfolding count
count-assign zero d p f v h = absurd (omega (arith, h))
count-assign (suc n) d p f v h =
    let at : Option ℕ → ℕ = λ o. one (is_bus o p) in
    elim (Bool-cases (d == n)) [
      | inl e ↦
          let same : d ≡ n = (==_iff d n).0 e in
          omega (
            arith,
            count_below n (λ e. is_bus (assign f d v e) p) (λ e. is_bus (f e) p)
                (λ i l. ap (λ o. is_bus o p) (assign_other f d i v (omega (arith, l, same)))),
            ap at (ap (assign f d v) (sym same) ∙ assign_same f d v),
            ap at (ap f same),
          )
      | inr e ↦
          let l : d < n = ground (arith, e, h) in
          omega (arith, count-assign n d p f v l, ap at (assign_above f d n v l))
    ]

pub more_held : (h : ℕ → ℕ) (d k p : ℕ) → assign h d (h d + k) p ≡ h p + k * one (d == p)
unfolding assign one
more_held h d k p = elim (Bool-cases (d == p)) [
  | inl e ↦ let same : d ≡ p = (==_iff d p).0 e in ground (arith, e, ap h same)
  | inr e ↦ ground (arith, e)
]

pub less_held : (h : ℕ → ℕ) (d p : ℕ) → 0 < h d → assign h d (h d - 1) p + one (d == p) ≡ h p
unfolding assign one
less_held h d p l = elim (Bool-cases (d == p)) [
  | inl e ↦ let same : d ≡ p = (==_iff d p).0 e in ground (arith, e, l, ap h same)
  | inr e ↦ ground (arith, e)
]

pub get_lem :
    (o : Option ℕ) (s : Devices) (p : ℕ)
    → s.refcount p < 2 ^ 32
    → (get_device o s).refcount p ≡ (s.refcount p + one (is_bus o p)) % 2 ^ 32
unfolding get_device kref_get assign is_bus one
get_lem none s p l = omega (arith, l)
get_lem (some d) s p l = elim (Bool-cases (d == p)) [
  | inl e ↦ let same : d ≡ p = (==_iff d p).0 e in ground (arith, e, ap s.refcount same)
  | inr e ↦ ground (arith, e, l)
]

pub put_lem :
    (o : Option ℕ) (s : Devices) (p : ℕ)
    → s.refcount p < 2 ^ 32
    → (put_device o s).refcount p ≡ (s.refcount p + (2 ^ 32 - 1) * one (is_bus o p)) % 2 ^ 32
unfolding put_device kref_put assign is_bus one
put_lem none s p l = omega (arith, l)
put_lem (some d) s p l = elim (Bool-cases (d == p)) [
  | inl e ↦ let same : d ≡ p = (==_iff d p).0 e in ground (arith, e, ap s.refcount same)
  | inr e ↦ ground (arith, e, l)
]
