-- ===== src/Examples/Urbs.antt =====
-- URBs of kernel/linux_usb.c.
use webcamd.Prelude.Stores.{assign}
use webcamd.Prelude.{
  ℕ, suc, ◌≡◌, Bool, true, false, Option, none, some, List, [], ◌∷◌, refl, arith, Bool-cases, inl,
  inr, ◌==◌, if◌then◌else◌,
}
use mathlib.Core.Option
use webcamd.Prelude.Int.{pos, negsuc}
use webcamd.Tailq.{empty, insert_tail, mark, unlink, erase}
use webcamd.Tailq.Laws.{empty-IsTailq, insert_tail-IsTailq}
use webcamd.Usb.Urbs.{
  Pipe, Slot, xfer0, xfer1, Env, completed, started, get_sc1, enqueue, set_status, usb_submit_urb,
  usb_unlink_urb, fits_ctrl, usb_linux_ctrl_callback, usb_linux_bulk_intr_callback, callback_on,
  finish, complete_in_callback, usb_linux_complete, call_complete, set_sc1, tr_setup, setup_if,
  take_first, start_xfer, other, result_of,
}
use webcamd.Usb.Balance.{IsBalanced, Keeps, enqueue-IsBalanced, count, held}
use webcamd.Usb.Isoc.{timed_out, usb_linux_isoc_callback}
use webcamd.Usb.Callback.{oversize, Fitting, IsReturned, usb_calls-IsBalanced}

-- The driver submits every URB again that is completed.
abbrev env : Env
env = record {
  complete = λ u s. enqueue u s;
  start = λ x s. s;
  restart = λ x s. s;
  has_xfer = λ x. true;
  setup = λ u. true;
}

enqueue_idle : (u : ℕ) (x : Slot) (s : Pipe) → get_sc1 x s ≡ none → get_sc1 x (enqueue u s) ≡ none
unfolding enqueue get_sc1 set_status
enqueue_idle u xfer0 s e = elim (Bool-cases (s.urbs.linked u)) [ inl l ↦ rw l e | inr n ↦ rw n e ]
enqueue_idle u xfer1 s e = elim (Bool-cases (s.urbs.linked u)) [ inl l ↦ rw l e | inr n ↦ rw n e ]

env-Keeps : Keeps env
env-Keeps = record {
  complete_keeps = enqueue-IsBalanced;
  complete_idle = enqueue_idle;
  start_keeps = λ x s h. h;
  restart_keeps = λ x s h. h;
}

-- Every URB fits.
abbrev fits : ℕ → Bool
fits u = true

oversize_none : (q : List ℕ) → oversize fits q ≡ 0
unfolding oversize
oversize_none [] = refl
oversize_none (u ∷ us) = omega (arith, oversize_none us)

env-Fitting : Fitting env fits
env-Fitting u s = omega (arith, oversize_none (env.complete u s).urbs.queue)

oversize_small : (q : List ℕ) → oversize (fits_ctrl 4096 (λ u. 64)) q ≡ 0
unfolding oversize fits_ctrl
oversize_small [] = refl
oversize_small (u ∷ us) = omega (arith, oversize_small us)

-- URB 7 is in the first transfer, URB 8 waits.
abbrev busy : Pipe
busy = record {
  urbs = insert_tail 8 empty;
  first = some 7;
  second = none;
  status = λ u. negsuc 35;
  actual_length = λ u. 0;
  queued = λ u. true;
  no_resubmit = λ u. false;
  reject = λ u. pos 0;
  number_of_packets = λ u. 0;
  iso_frame_desc = λ u x. record { length = 0; actual_length = 0; status = pos 0 };
  last_ms = 0;
  accepted = 8 ∷ 7 ∷ [];
  finished = [];
}

busy-IsBalanced : IsBalanced busy
unfolding insert_tail empty count held
busy-IsBalanced = record {
  tailq = insert_tail-IsTailq 8 empty refl empty-IsTailq;
  balance = λ u. omega arith;
}

ctrl-Fitting : Fitting env (fits_ctrl 4096 (λ u. 64))
unfolding fits_ctrl
ctrl-Fitting u s = omega (arith, oversize_small (env.complete u s).urbs.queue)

usb_calls-IsBalanced_example :
    IsBalanced (usb_submit_urb env true 9 busy).0
    × IsBalanced (usb_unlink_urb env true 9 busy).0
    × IsReturned (
        usb_linux_bulk_intr_callback env fits fits
          (λ u. 64)
          (suc (oversize fits busy.urbs.queue))
          xfer0
          (completed 10)
          busy)
    × IsReturned (
        usb_linux_ctrl_callback env 4096 fits
          (λ u. 64)
          (suc (oversize (fits_ctrl 4096 (λ u. 64)) busy.urbs.queue))
          xfer0
          (completed 10)
          busy)
    × IsReturned (usb_linux_isoc_callback env fits 8 xfer0 timed_out busy)
unfolding get_sc1
usb_calls-IsBalanced_example =
    usb_calls-IsBalanced fits fits (λ u. 64) 4096 8 true 9 xfer0 (completed 10) timed_out busy
      env-Keeps env-Fitting ctrl-Fitting tt tt busy-IsBalanced

-- URB 7 is completed and submitted again, behind URB 8, which is transferred next.
callback_test :
    Option.map {B = Option ℕ × List ℕ}
      (λ t. (t.first, t.finished))
      (usb_linux_bulk_intr_callback env fits fits (λ u. 64) 1 xfer0 (completed 10) busy)
    ≡ some (some 8, 7 ∷ [])
unfolding usb_linux_bulk_intr_callback callback_on finish complete_in_callback usb_linux_complete
    call_complete set_sc1 tr_setup setup_if take_first start_xfer other result_of get_sc1 enqueue
    set_status assign insert_tail unlink erase empty mark
callback_test = refl

-- The completion of URB 7 submits URB 9, which starts both transfers, as no other call runs.
abbrev quiet : Env
quiet = record env { complete = λ u s. s }

abbrev started_or : Pipe → Option Pipe → Pipe
started_or s none = s
started_or s (some t) = t

-- Two URBs wait.
abbrev crowded : Pipe
crowded = record busy { urbs = insert_tail 10 (insert_tail 8 empty); accepted = 10 ∷ 8 ∷ 7 ∷ [] }

abbrev starting : Env
starting = record env {
  complete = λ u s. s;
  start =
      λ x s. started_or s (usb_linux_bulk_intr_callback quiet fits fits (λ u. 64) 1 x started s);
}

abbrev submitting : Env
submitting = record env {
  complete = λ u s. if u == 7 then (usb_submit_urb starting true 9 s).0 else s;
}

-- The callback of the first transfer then overwrites what the start has put there: URB 8, which was
-- accepted, is neither in the queue nor in a transfer, and was not completed.
nested_start_test :
    Option.map {B = List ℕ × Option ℕ × Option ℕ × List ℕ}
      (λ t. (t.urbs.queue, t.first, t.second, t.finished))
      (usb_linux_bulk_intr_callback submitting fits fits (λ u. 64) 1 xfer0 (completed 10) crowded)
    ≡ some ([], some 9, some 10, 7 ∷ [])
unfolding usb_linux_bulk_intr_callback callback_on finish complete_in_callback usb_linux_complete
    call_complete set_sc1 tr_setup setup_if take_first start_xfer other result_of get_sc1 enqueue
    set_status assign insert_tail unlink erase empty mark usb_submit_urb
nested_start_test = refl
