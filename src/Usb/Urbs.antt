-- ===== src/Usb/Urbs.antt =====
-- The URBs of one endpoint, of kernel/linux_usb.c: the queue of those that wait, the two transfers
-- of the endpoint, and the calls that move an URB between them.
use webcamd.Prelude.Stores.{assign}
use webcamd.Prelude.{
  ℕ, ◌-◌, zero, suc, Bool, true, false, not, ◌||◌, ◌==◌, ltb, leb, if◌then◌else◌, Option, none,
  some, List, [], ◌∷◌,
}
use webcamd.Prelude.Int.{ℤ, pos, negsuc, is_zero}
use webcamd.Tailq.{Tailq, insert_tail, unlink}

-- A packet of an isochronous URB.
pub record Frame : Type 0 where
  pub length : ℕ
  pub actual_length : ℕ
  pub status : ℤ

-- The fields of the URBs, and what the endpoint keeps. `first` and `second` are the URBs of the two
-- transfers (`libusb20_tr_get_priv_sc1`). `last_ms` is of the device. `accepted` and `finished` record, latest first, which URBs
-- were put in the queue and for which the completion function was called.
pub record Pipe : Type 0 where
  pub urbs : Tailq
  pub first : Option ℕ
  pub second : Option ℕ
  pub status : ℕ → ℤ
  pub actual_length : ℕ → ℕ
  pub queued : ℕ → Bool
  pub no_resubmit : ℕ → Bool
  pub reject : ℕ → ℤ
  pub number_of_packets : ℕ → ℕ
  pub iso_frame_desc : ℕ → ℕ → Frame
  pub last_ms : ℕ
  pub accepted : List ℕ
  pub finished : List ℕ

-- A transfer of the endpoint.
pub data Slot : Type 0 where
  xfer0 : Slot
  xfer1 : Slot

unfoldable pub other : Slot → Slot
other xfer0 = xfer1
other xfer1 = xfer0

unfoldable pub get_sc1 : Slot → Pipe → Option ℕ
get_sc1 xfer0 s = s.first
get_sc1 xfer1 s = s.second

unfoldable pub set_sc1 : Slot → Option ℕ → Pipe → Pipe
set_sc1 xfer0 u s = record s { first = u }
set_sc1 xfer1 u s = record s { second = u }

unfoldable pub set_status : ℕ → ℤ → Pipe → Pipe
unfolding assign
set_status u v s = record s { status = assign s.status u v }

-- Errors, as negative numbers, with the values of FreeBSD.
abbrev pub enxio : ℤ
enxio = negsuc 5

abbrev pub einval : ℤ
einval = negsuc 21

abbrev pub epipe : ℤ
epipe = negsuc 31

abbrev pub efbig : ℤ
efbig = negsuc 26

abbrev pub econnreset : ℤ
econnreset = negsuc 53

abbrev pub einprogress : ℤ
einprogress = negsuc 35

-- What the calls use of the driver, of libusb20 and of the device: the completion function of an
-- URB, `libusb20_tr_start` and a stop followed by a start on a transfer, whether a transfer was set
-- up, and whether usb_setup_endpoint succeeds for the length of an URB.
pub record Env : Type 0 where
  pub complete : ℕ → Pipe → Pipe
  pub start : Slot → Pipe → Pipe
  pub restart : Slot → Pipe → Pipe
  pub has_xfer : Slot → Bool
  pub setup : ℕ → Bool

-- `urb->hcpriv = NULL; (urb->complete) (urb)`
unfoldable pub call_complete : Env → ℕ → Pipe → Pipe
unfolding assign
call_complete env u s =
    env.complete u (record s { queued = assign s.queued u false; finished = u ∷ s.finished })

-- The head of the queue for URBs that are not in it.
unfoldable pub enqueue : ℕ → Pipe → Pipe
unfolding set_status
enqueue u s =
    if s.urbs.linked u
    then s
    else set_status u einprogress
        (record s { urbs = insert_tail u s.urbs; accepted = u ∷ s.accepted })

unfoldable pub start_xfer : Env → Slot → Pipe → Pipe
start_xfer env x s = if env.has_xfer x then env.start x s else s

-- `found` says that usb_find_host_endpoint found this endpoint for the URB.
unfoldable pub usb_submit_urb : Env → Bool → ℕ → Pipe → Pipe × ℤ
usb_submit_urb env found u s =
    if not (is_zero (s.reject u))
    then (s, enxio)
    else if not found
    then (s, einval)
    else if not (env.setup u)
    then (s, epipe)
    else if env.has_xfer xfer0 || env.has_xfer xfer1
    then (let t = enqueue u (record s { queued = assign s.queued u true }) in
        if t.no_resubmit u
        then (t, pos 0)
        else (start_xfer env xfer1 (start_xfer env xfer0 t), pos 0))
    else (set_status u einval s, einval)

-- usb_unlink_bsd without draining: the transfer is restarted if it holds the URB.
unfoldable pub unlink_if : Env → ℕ → Slot → Option ℕ → Pipe → Pipe
unlink_if env u x none s = s
unlink_if env u x (some v) s = if v == u then env.restart x s else s

unfoldable pub unlink_bsd : Env → ℕ → Slot → Pipe → Pipe
unlink_bsd env u x s = unlink_if env u x (get_sc1 x s) s

-- The loops over the packets of an URB.
unfoldable pub set_frames : (ℕ → Frame → Frame) → ℕ → Pipe → Pipe
unfolding assign
set_frames change u s = record s {
  iso_frame_desc = assign s.iso_frame_desc u (λ x.
      let f = s.iso_frame_desc u x in if ltb x (s.number_of_packets u) then change x f else f);
}

-- An URB that waits in the queue is taken out and completed.
unfoldable pub unlink_queued : Env → ℕ → Pipe → Pipe
unfolding set_status assign set_frames
unlink_queued env u s = call_complete env u (record (set_status u econnreset s) {
  urbs = unlink u s.urbs;
  actual_length = assign s.actual_length u 0;
  iso_frame_desc = (set_frames (λ x f. record f { actual_length = 0 }) u s).iso_frame_desc;
})

-- usb_unlink_urb is usb_unlink_urb_sub without draining.
unfoldable pub usb_unlink_urb : Env → Bool → ℕ → Pipe → Pipe × ℤ
usb_unlink_urb env found u s =
    if not found
    then (s, einval)
    else if s.urbs.linked u
    then (unlink_queued env u s, pos 0)
    else (unlink_bsd env u xfer1 (unlink_bsd env u xfer0 s), pos 0)

-- usb_linux_complete on an URB of which the transfer was told before.
unfoldable pub usb_linux_complete : Env → Slot → ℕ → Pipe → Pipe
usb_linux_complete env x u s = call_complete env u (set_sc1 x none s)

-- The completion in the callback of a transfer, while the URB may not start transfers.
unfoldable pub complete_in_callback : Env → Slot → ℕ → Pipe → Pipe
unfolding assign
complete_in_callback env x u s =
    let t = usb_linux_complete env x u (record s { no_resubmit = assign s.no_resubmit u true }) in
    record t { no_resubmit = assign t.no_resubmit u false }

-- `tr_setup`: the next URB of the queue goes to the transfer. One that is too large for it, by
-- `fits`, is completed at once and the next one is tried; the rounds are counted.
unfoldable pub take_first : ℕ → Slot → Pipe → Pipe
take_first u x s = set_sc1 x (some u) (record s { urbs = unlink u s.urbs })

unfoldable pub setup_if :
    Env → (ℕ → Bool) → Slot → (Pipe → Option Pipe) → List ℕ → Pipe → Option Pipe
unfolding set_status
setup_if env fits x again [] s = some s
setup_if env fits x again (u ∷ us) s =
    let t = take_first u x s in
    if fits u
    then some (start_xfer env (other x) t)
    else again (complete_in_callback env x u (set_status u efbig t))

unfoldable pub tr_setup : ℕ → Env → (ℕ → Bool) → Slot → Pipe → Option Pipe
tr_setup zero env fits x s = none
tr_setup (suc fuel) env fits x s = setup_if env fits x (tr_setup fuel env fits x) s.urbs.queue s

-- The status of a transfer at its callback: completed with a number of bytes, started, cancelled, or
-- ended by another error.
pub data Status : Type 0 where
  completed : ℕ → Status
  started : Status
  cancelled : Status
  failed : Status

-- The result of an URB that transferred `actlen` bytes; `short_ok` says whether fewer than its
-- buffer has are no error.
unfoldable pub result_of : (ℕ → Bool) → (ℕ → ℕ) → ℕ → ℕ → ℤ
result_of short_ok length u actlen =
    if ltb actlen (length u) then (if short_ok u then pos 0 else epipe) else pos 0

unfoldable pub finish : Env → Slot → ℕ → ℤ → ℕ → Pipe → Pipe
unfolding set_status assign
finish env x u result actlen s =
    complete_in_callback env x u
      (record (set_status u result s) { actual_length = assign s.actual_length u actlen })

-- usb_linux_bulk_intr_callback on a transfer with what it holds; `none` is a NULL pointer that is
-- followed, or rounds that ran out.
unfoldable pub callback_on :
    Env → (ℕ → Bool) → (ℕ → Bool) → (ℕ → ℕ) → ℕ → Slot → Status → Option ℕ → Pipe → Option Pipe
callback_on env fits short_ok length fuel x started held s = tr_setup fuel env fits x s
callback_on env fits short_ok length fuel x (completed actlen) none s = none
callback_on env fits short_ok length fuel x (completed actlen) (some u) s =
    tr_setup fuel env fits x (finish env x u (result_of short_ok length u actlen) actlen s)
callback_on env fits short_ok length fuel x cancelled none s = none
callback_on env fits short_ok length fuel x cancelled (some u) s =
    some (finish env x u econnreset 0 s)
callback_on env fits short_ok length fuel x failed none s = none
callback_on env fits short_ok length fuel x failed (some u) s =
    tr_setup fuel env fits x (finish env x u epipe 0 s)

unfoldable pub usb_linux_bulk_intr_callback :
    Env → (ℕ → Bool) → (ℕ → Bool) → (ℕ → ℕ) → ℕ → Slot → Status → Pipe → Option Pipe
usb_linux_bulk_intr_callback env fits short_ok length fuel x status s =
    callback_on env fits short_ok length fuel x status (get_sc1 x s) s

-- usb_linux_ctrl_callback is the same code, but for the setup packet of eight bytes: it is not counted
-- in the length of an URB, and has to fit as well. `max_ctrl` is the length that a transfer can have.
unfoldable pub without_setup : Status → Status
without_setup (completed actlen) = completed (if leb 8 actlen then actlen - 8 else 0)
without_setup status = status

unfoldable pub fits_ctrl : ℕ → (ℕ → ℕ) → ℕ → Bool
fits_ctrl max_ctrl length u = not (ltb max_ctrl 8 || ltb (max_ctrl - 8) (length u))

unfoldable pub usb_linux_ctrl_callback :
    Env → ℕ → (ℕ → Bool) → (ℕ → ℕ) → ℕ → Slot → Status → Pipe → Option Pipe
unfolding callback_on without_setup fits_ctrl
usb_linux_ctrl_callback env max_ctrl short_ok length fuel x status s =
    callback_on env (fits_ctrl max_ctrl length) short_ok length fuel x (without_setup status)
      (get_sc1 x s) s
