-- ===== src/Usb/Callback.antt =====
-- The callback of a bulk or interrupt transfer returns, and keeps the balance.
use webcamd.Prelude.{
  ℕ, zero, suc, ◌+◌, ◌<◌, ◌≤◌, ◌≡◌, Bool, if◌then◌else◌, Option, none, some, List, [], ◌∷◌, refl,
  ap, ◌∙◌, arith, Bool-cases, inl, inr,
}
use webcamd.Prelude.Int.{ℤ}
use webcamd.Usb.Urbs.{
  Pipe, Slot, xfer0, xfer1, other, get_sc1, set_sc1, set_status, Env, call_complete, start_xfer,
  usb_linux_complete, complete_in_callback, take_first, setup_if, tr_setup, Status, completed,
  started, cancelled, failed, finish, callback_on, usb_linux_bulk_intr_callback, efbig,
  without_setup, fits_ctrl, usb_linux_ctrl_callback, result_of, usb_submit_urb, usb_unlink_urb,
  econnreset, epipe,
}
use webcamd.Usb.Isoc.{IsocStatus, usb_linux_isoc_callback}
use webcamd.Usb.IsocBalance.{IsIsocExpected, usb_linux_isoc_callback-IsBalanced}
use webcamd.Usb.Balance.{
  IsBalanced, Keeps, get_sc1-status, taken, start_xfer-IsBalanced, complete_in_callback-IsBalanced,
  complete_in_callback_idle, finish-IsBalanced, finish_idle, take_first-IsBalanced,
  take_first_holds, take_first-queue, usb_submit_urb-IsBalanced, usb_unlink_urb-IsBalanced,
}

-- How many URBs of a list are too large for a transfer.
unfoldable pub oversize : (ℕ → Bool) → List ℕ → ℕ
oversize fits [] = 0
oversize fits (u ∷ us) = (if fits u then 0 else 1) + oversize fits us

-- A completion function submits no URB that is too large.
abbrev pub Fitting : Env → (ℕ → Bool) → Type 0
Fitting env fits =
    (u : ℕ) (s : Pipe) → oversize fits (env.complete u s).urbs.queue ≤ oversize fits s.urbs.queue

-- When libusb20 calls the callback: a transfer that starts holds no URB, any other holds one.
abbrev pub IsExpected : Status → Option ℕ → Type 0
IsExpected started none = Unit {0}
IsExpected started (some u) = ⊥
IsExpected (completed n) none = ⊥
IsExpected (completed n) (some u) = Unit {0}
IsExpected cancelled none = ⊥
IsExpected cancelled (some u) = Unit {0}
IsExpected failed none = ⊥
IsExpected failed (some u) = Unit {0}

status-IsBalanced : (u : ℕ) (r : ℤ) (s : Pipe) → IsBalanced s → IsBalanced (set_status u r s)
unfolding set_status
status-IsBalanced u r s h = record { tailq = h.tailq; balance = h.balance }

module _ {env : Env} (k : Keeps env) (fits : ℕ → Bool) (fitting : Fitting env fits) where
  complete_in_callback-queue :
      (x : Slot) (u : ℕ) (s : Pipe)
      → oversize fits (complete_in_callback env x u s).urbs.queue ≤ oversize fits s.urbs.queue
  unfolding complete_in_callback usb_linux_complete call_complete set_sc1
  complete_in_callback-queue xfer0 u s = fitting u _
  complete_in_callback-queue xfer1 u s = fitting u _

  -- What the rounds after the first one are known to do.
  Settles : ℕ → Slot → (Pipe → Option Pipe) → Type 0
  Settles n x again =
      (s : Pipe)
      → oversize fits s.urbs.queue < n
      → get_sc1 x s ≡ none
      → IsBalanced s
      → (t : Pipe) × (again s ≡ some t) × IsBalanced t

  setup_if-IsBalanced :
      (n : ℕ) (x : Slot) (again : Pipe → Option Pipe) (q : List ℕ) (s : Pipe)
      → Settles n x again
      → s.urbs.queue ≡ q
      → oversize fits s.urbs.queue < suc n
      → get_sc1 x s ≡ none
      → IsBalanced s
      → (t : Pipe) × (setup_if env fits x again q s ≡ some t) × IsBalanced t
  unfolding setup_if Settles
  setup_if-IsBalanced n x again [] s settles e enough idle h = (s, refl, h)
  setup_if-IsBalanced n x again (u ∷ us) s settles e enough idle h =
      let t = take_first u x s in
      let b : IsBalanced t = take_first-IsBalanced x u us s e idle h in
      elim (Bool-cases (fits u)) [
        | inl fit ↦ (start_xfer env (other x) t, rw fit refl, start_xfer-IsBalanced k (other x) t b)
        | inr large ↦
            let r = set_status u efbig t in
            let c = complete_in_callback env x u r in
            let rest : (set_status u efbig (take_first u x s)).urbs.queue ≡ us =
              unfold set_status in
              (ap (λ q. q.queue) (take_first-queue x u s) ∙ taken u us s.urbs e) in
            let fewer : oversize fits c.urbs.queue < n =
              unfold oversize in
              ground (
                arith,
                complete_in_callback-queue x u r,
                ap (oversize fits) rest,
                ap (oversize fits) e,
              ) in
            let (t', done, good) = settles c fewer (complete_in_callback_idle k x u r) (
              complete_in_callback-IsBalanced k x u r
                (get_sc1-status x t u efbig ∙ take_first_holds x u s)
                (status-IsBalanced u efbig t b)) in
            (t', rw large done, good)
      ]

  tr_setup-Settles : (fuel : ℕ) (x : Slot) → Settles fuel x (tr_setup fuel env fits x)
  unfolding tr_setup Settles
  tr_setup-Settles zero x s enough idle h = absurd (omega arith)
  tr_setup-Settles (suc fuel) x s enough idle h =
      setup_if-IsBalanced fuel x (tr_setup fuel env fits x) s.urbs.queue s (tr_setup-Settles fuel x)
        refl enough idle h

  finish-queue :
      (x : Slot) (u : ℕ) (result : ℤ) (actlen : ℕ) (s : Pipe)
      → oversize fits (finish env x u result actlen s).urbs.queue ≤ oversize fits s.urbs.queue
  unfolding finish set_status
  finish-queue x u result actlen s = complete_in_callback-queue x u _

  callback_on-IsBalanced :
      (short_ok : ℕ → Bool) (length : ℕ → ℕ) (fuel : ℕ) (x : Slot) (status : Status) (o : Option ℕ)
      (s : Pipe)
      → get_sc1 x s ≡ o
      → IsExpected status o
      → oversize fits s.urbs.queue < fuel
      → IsBalanced s
      → (t : Pipe) × (callback_on env fits short_ok length fuel x status o s ≡ some t)
        × IsBalanced t
  unfolding callback_on Settles
  callback_on-IsBalanced short_ok length fuel x started none s e p enough h =
      tr_setup-Settles fuel x s enough e h
  callback_on-IsBalanced short_ok length fuel x started (some u) s e p enough h = absurd p
  callback_on-IsBalanced short_ok length fuel x (completed n) none s e p enough h = absurd p
  callback_on-IsBalanced short_ok length fuel x (completed n) (some u) s e p enough h =
      let r = result_of short_ok length u n in
      tr_setup-Settles fuel x (finish env x u r n s) (omega (arith, finish-queue x u r n s))
        (finish_idle k x u r n s) (finish-IsBalanced k x u r n s e h)
  callback_on-IsBalanced short_ok length fuel x cancelled none s e p enough h = absurd p
  callback_on-IsBalanced short_ok length fuel x cancelled (some u) s e p enough h =
      (finish env x u econnreset 0 s, refl, finish-IsBalanced k x u econnreset 0 s e h)
  callback_on-IsBalanced short_ok length fuel x failed none s e p enough h = absurd p
  callback_on-IsBalanced short_ok length fuel x failed (some u) s e p enough h =
      tr_setup-Settles fuel x (finish env x u epipe 0 s) (omega (arith, finish-queue x u epipe 0 s))
        (finish_idle k x u epipe 0 s) (finish-IsBalanced k x u epipe 0 s e h)

without_setup-IsExpected :
    (status : Status) (o : Option ℕ) → IsExpected status o → IsExpected (without_setup status) o
unfolding without_setup
without_setup-IsExpected started o p = p
without_setup-IsExpected (completed n) none p = p
without_setup-IsExpected (completed n) (some u) p = p
without_setup-IsExpected cancelled o p = p
without_setup-IsExpected failed o p = p

-- A callback of a transfer returns, and keeps the balance.
abbrev pub IsReturned : Option Pipe → Type 0
IsReturned r = (t : Pipe) × (r ≡ some t) × IsBalanced t

-- No URB is lost or completed twice, as long as libusb20 and the completion functions keep the
-- balance below, a completion function starts no transfer that is idle (so it submits no URB but the
-- one that it is called for, which is not started from there), and it submits nothing too large for a
-- transfer: then usb_submit_urb and usb_unlink_urb, on any URB, and the callbacks of bulk, interrupt,
-- control and isochronous transfers, at any status that they can have there, keep that every URB was
-- accepted as often as it was completed, waits in the queue and is in a transfer, and that the queue
-- is well formed; and the callbacks return, those of the first three after as many rounds as URBs in
-- the queue are too large and one more.
pub usb_calls-IsBalanced :
    {env : Env} (fits short_ok : ℕ → Bool) (length : ℕ → ℕ) (max_ctrl max_frames : ℕ) (found : Bool)
    (u : ℕ) (x : Slot) (status : Status) (iso : IsocStatus) (s : Pipe)
    → Keeps env
    → Fitting env fits
    → Fitting env (fits_ctrl max_ctrl length)
    → IsExpected status (get_sc1 x s)
    → IsIsocExpected iso (get_sc1 x s)
    → IsBalanced s
    → let ctrl = fits_ctrl max_ctrl length in
      IsBalanced (usb_submit_urb env found u s).0
      × IsBalanced (usb_unlink_urb env found u s).0
      × IsReturned (
          usb_linux_bulk_intr_callback env fits short_ok length
            (suc (oversize fits s.urbs.queue))
            x
            status
            s)
      × IsReturned (
          usb_linux_ctrl_callback env max_ctrl short_ok length
            (suc (oversize ctrl s.urbs.queue))
            x
            status
            s)
      × IsReturned (usb_linux_isoc_callback env short_ok max_frames x iso s)
unfolding usb_linux_bulk_intr_callback usb_linux_ctrl_callback
usb_calls-IsBalanced fits short_ok length max_ctrl max_frames found u x status iso s k fit fit_ctrl
      p q h =
    let ctrl = fits_ctrl max_ctrl length in
    (
      usb_submit_urb-IsBalanced k found u s h,
      usb_unlink_urb-IsBalanced k found u s h,
      callback_on-IsBalanced k fits fit short_ok length (suc (oversize fits s.urbs.queue)) x status
          (get_sc1 x s) s refl p (omega arith) h,
      callback_on-IsBalanced k ctrl fit_ctrl short_ok length (suc (oversize ctrl s.urbs.queue)) x
          (without_setup status) (get_sc1 x s) s refl
          (without_setup-IsExpected status (get_sc1 x s) p) (omega arith) h,
      usb_linux_isoc_callback-IsBalanced k short_ok max_frames x iso s q h,
    )
