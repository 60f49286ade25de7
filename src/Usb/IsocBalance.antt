-- ===== src/Usb/IsocBalance.antt =====
-- The callback of an isochronous transfer keeps the balance of the URBs.
use webcamd.Prelude.{ℕ, ◌≡◌, Bool, Option, none, some, List, [], ◌∷◌, refl, ◌∙◌}
use webcamd.Prelude.Int.{ℤ, pos}
use webcamd.Usb.Urbs.{
  Frame, Pipe, Slot, xfer0, xfer1, other, get_sc1, set_frames, Env, take_first, epipe, econnreset,
}
use webcamd.Usb.Balance.{
  IsBalanced, Keeps, start_xfer-IsBalanced, finish-IsBalanced, finish_idle, take_first-IsBalanced,
}
use webcamd.Usb.Isoc.{
  IsocStatus, completed, started, cancelled, timed_out, failed, truncate, isoc_setup, isoc_ended,
  isoc_completed, isoc_next, isoc_on, usb_linux_isoc_callback,
}

-- When libusb20 calls the callback: a transfer that starts holds no URB, any other holds one.
abbrev pub IsIsocExpected : IsocStatus → Option ℕ → Type 0
IsIsocExpected started none = Unit {0}
IsIsocExpected started (some u) = ⊥
IsIsocExpected (completed t n lens) none = ⊥
IsIsocExpected (completed t n lens) (some u) = Unit {0}
IsIsocExpected cancelled none = ⊥
IsIsocExpected cancelled (some u) = Unit {0}
IsIsocExpected timed_out none = ⊥
IsIsocExpected timed_out (some u) = Unit {0}
IsIsocExpected failed none = ⊥
IsIsocExpected failed (some u) = Unit {0}

frames-IsBalanced :
    (change : ℕ → Frame → Frame) (u : ℕ) (s : Pipe)
    → IsBalanced s
    → IsBalanced (set_frames change u s)
unfolding set_frames
frames-IsBalanced change u s h = record { tailq = h.tailq; balance = h.balance }

get_sc1-frames :
    (x : Slot) (change : ℕ → Frame → Frame) (u t : ℕ) (s : Pipe)
    → get_sc1 x (set_frames change u (record s { last_ms = t })) ≡ get_sc1 x s
unfolding set_frames get_sc1
get_sc1-frames xfer0 change u t s = refl
get_sc1-frames xfer1 change u t s = refl

truncate-IsBalanced :
    (max_frames u : ℕ) (s : Pipe) → IsBalanced s → IsBalanced (truncate max_frames u s)
unfolding truncate
truncate-IsBalanced max_frames u s h = record { tailq = h.tailq; balance = h.balance }

module _ {env : Env} (k : Keeps env) where
  setup-IsBalanced :
      (max_frames : ℕ) (x : Slot) (q : List ℕ) (s : Pipe)
      → s.urbs.queue ≡ q
      → get_sc1 x s ≡ none
      → IsBalanced s
      → IsBalanced (isoc_setup env max_frames x q s)
  unfolding isoc_setup
  setup-IsBalanced max_frames x [] s e idle h = h
  setup-IsBalanced max_frames x (u ∷ us) s e idle h = start_xfer-IsBalanced k (other x) _ (
      truncate-IsBalanced max_frames u (take_first u x s) (take_first-IsBalanced x u us s e idle h))

  next-IsBalanced :
      (max_frames : ℕ) (x : Slot) (s : Pipe)
      → get_sc1 x s ≡ none
      → IsBalanced s
      → IsBalanced (isoc_next env max_frames x s)
  unfolding isoc_next
  next-IsBalanced max_frames x s idle h = setup-IsBalanced max_frames x s.urbs.queue s refl idle h

  ended-IsBalanced :
      (x : Slot) (u : ℕ) (result : ℤ) (s : Pipe)
      → get_sc1 x s ≡ some u
      → IsBalanced s
      → IsBalanced (isoc_ended env x u result s) × (get_sc1 x (isoc_ended env x u result s) ≡ none)
  unfolding isoc_ended
  ended-IsBalanced x u result s e h = (
    finish-IsBalanced k x u result 0 _ (get_sc1-frames x _ u s.last_ms s ∙ e)
        (frames-IsBalanced _ u s h),
    finish_idle k x u result 0 _,
  )

  completed-IsBalanced :
      (short_ok : Bool) (x : Slot) (u time actlen : ℕ) (lens : ℕ → ℕ) (s : Pipe)
      → get_sc1 x s ≡ some u
      → IsBalanced s
      → IsBalanced (isoc_completed env short_ok x u time actlen lens s)
        × (get_sc1 x (isoc_completed env short_ok x u time actlen lens s) ≡ none)
  unfolding isoc_completed
  completed-IsBalanced short_ok x u time actlen lens s e h = (
    finish-IsBalanced k x u _ actlen _ (get_sc1-frames x _ u time s ∙ e)
        (frames-IsBalanced _ u _ (record { tailq = h.tailq; balance = h.balance })),
    finish_idle k x u _ actlen _,
  )

  isoc_on-IsBalanced :
      (short_ok : ℕ → Bool) (max_frames : ℕ) (x : Slot) (status : IsocStatus) (o : Option ℕ)
      (s : Pipe)
      → get_sc1 x s ≡ o
      → IsIsocExpected status o
      → IsBalanced s
      → (t : Pipe) × (isoc_on env short_ok max_frames x status o s ≡ some t) × IsBalanced t
  unfolding isoc_on
  isoc_on-IsBalanced short_ok max_frames x started none s e p h =
      (isoc_next env max_frames x s, refl, next-IsBalanced max_frames x s e h)
  isoc_on-IsBalanced short_ok max_frames x started (some u) s e p h = absurd p
  isoc_on-IsBalanced short_ok max_frames x (completed time actlen lens) none s e p h = absurd p
  isoc_on-IsBalanced short_ok max_frames x (completed time actlen lens) (some u) s e p h =
      let (b, idle) = completed-IsBalanced (short_ok u) x u time actlen lens s e h in
      (_, refl, next-IsBalanced max_frames x _ idle b)
  isoc_on-IsBalanced short_ok max_frames x cancelled none s e p h = absurd p
  isoc_on-IsBalanced short_ok max_frames x cancelled (some u) s e p h =
      (_, refl, (ended-IsBalanced x u econnreset s e h).0)
  isoc_on-IsBalanced short_ok max_frames x timed_out none s e p h = absurd p
  isoc_on-IsBalanced short_ok max_frames x timed_out (some u) s e p h =
      let (b, idle) = ended-IsBalanced x u (pos 0) s e h in
      (_, refl, next-IsBalanced max_frames x _ idle b)
  isoc_on-IsBalanced short_ok max_frames x failed none s e p h = absurd p
  isoc_on-IsBalanced short_ok max_frames x failed (some u) s e p h =
      let (b, idle) = ended-IsBalanced x u epipe s e h in
      (_, refl, next-IsBalanced max_frames x _ idle b)

  pub usb_linux_isoc_callback-IsBalanced :
      (short_ok : ℕ → Bool) (max_frames : ℕ) (x : Slot) (status : IsocStatus) (s : Pipe)
      → IsIsocExpected status (get_sc1 x s)
      → IsBalanced s
      → (t : Pipe) × (usb_linux_isoc_callback env short_ok max_frames x status s ≡ some t)
        × IsBalanced t
  unfolding usb_linux_isoc_callback
  usb_linux_isoc_callback-IsBalanced short_ok max_frames x status s p h =
      isoc_on-IsBalanced short_ok max_frames x status (get_sc1 x s) s refl p h
