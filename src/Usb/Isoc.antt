-- ===== src/Usb/Isoc.antt =====
-- The callback of an isochronous transfer, of kernel/linux_usb.c.
use webcamd.Prelude.{
  ℕ, zero, suc, ◌%◌, ◌^◌, ◌||◌, Bool, false, ltb, if◌then◌else◌, Option, none, some, List, [], ◌∷◌,
}
use webcamd.Prelude.Stores.{assign}
use webcamd.Prelude.Int.{ℤ, pos}
use webcamd.Usb.Urbs.{
  Frame, Pipe, Slot, other, get_sc1, set_frames, Env, start_xfer, take_first, finish, epipe,
  econnreset,
}

-- The status of the transfer; when it completed, with the time, the number of bytes, and the bytes of
-- each packet.
pub data IsocStatus : Type 0 where
  completed : ℕ → ℕ → (ℕ → ℕ) → IsocStatus
  started cancelled timed_out failed : IsocStatus

-- The result of a packet or of an URB, by whether it is short.
unfoldable pub short_result : Bool → Bool → ℤ
short_result short_ok is_short = if is_short then (if short_ok then pos 0 else epipe) else pos 0

-- Whether one of `n` packets is short.
unfoldable pub is_short : ℕ → (ℕ → ℕ) → (ℕ → Frame) → Bool
is_short zero lens frames = false
is_short (suc n) lens frames = ltb (lens n) (frames n).length || is_short n lens frames

unfoldable pub received : Bool → (ℕ → ℕ) → ℕ → Frame → Frame
unfolding short_result
received short_ok lens x f = record f {
  status = short_result short_ok (ltb (lens x) f.length);
  actual_length = lens x % 2 ^ 16;
}

-- An URB with more packets than the transfer has is cut down to them.
unfoldable pub truncate : ℕ → ℕ → Pipe → Pipe
unfolding assign
truncate max_frames u s = record s {
  number_of_packets =
      assign s.number_of_packets u
        (if ltb max_frames (s.number_of_packets u) then max_frames else s.number_of_packets u);
}

-- `tr_setup`: the next URB of the queue goes to the transfer.
unfoldable pub isoc_setup : Env → ℕ → Slot → List ℕ → Pipe → Pipe
unfolding truncate
isoc_setup env max_frames x [] s = s
isoc_setup env max_frames x (u ∷ us) s =
    start_xfer env (other x) (truncate max_frames u (take_first u x s))

-- The URB of a transfer that ended without data.
unfoldable pub isoc_ended : Env → Slot → ℕ → ℤ → Pipe → Pipe
isoc_ended env x u result s =
    finish env x u result 0
      (set_frames (λ _ f. record f { actual_length = 0; status = result }) u s)

unfoldable pub isoc_completed : Env → Bool → Slot → ℕ → ℕ → ℕ → (ℕ → ℕ) → Pipe → Pipe
unfolding short_result is_short received
isoc_completed env short_ok x u time actlen lens s =
    let short = is_short (s.number_of_packets u) lens (s.iso_frame_desc u) in
    finish env x u (short_result short_ok short) actlen
      (set_frames (received short_ok lens) u (record s { last_ms = time }))

unfoldable pub isoc_next : Env → ℕ → Slot → Pipe → Pipe
isoc_next env max_frames x s = isoc_setup env max_frames x s.urbs.queue s

-- On a transfer with what it holds; `none` is a NULL pointer that is followed.
unfoldable pub isoc_on : Env → (ℕ → Bool) → ℕ → Slot → IsocStatus → Option ℕ → Pipe → Option Pipe
isoc_on env short_ok max_frames x started held s = some (isoc_next env max_frames x s)
isoc_on env short_ok max_frames x (completed time actlen lens) none s = none
isoc_on env short_ok max_frames x (completed time actlen lens) (some u) s =
    some (isoc_next env max_frames x (isoc_completed env (short_ok u) x u time actlen lens s))
isoc_on env short_ok max_frames x cancelled none s = none
isoc_on env short_ok max_frames x cancelled (some u) s = some (isoc_ended env x u econnreset s)
isoc_on env short_ok max_frames x timed_out none s = none
isoc_on env short_ok max_frames x timed_out (some u) s =
    some (isoc_next env max_frames x (isoc_ended env x u (pos 0) s))
isoc_on env short_ok max_frames x failed none s = none
isoc_on env short_ok max_frames x failed (some u) s =
    some (isoc_next env max_frames x (isoc_ended env x u epipe s))

unfoldable pub usb_linux_isoc_callback :
    Env → (ℕ → Bool) → ℕ → Slot → IsocStatus → Pipe → Option Pipe
usb_linux_isoc_callback env short_ok max_frames x status s =
    isoc_on env short_ok max_frames x status (get_sc1 x s) s
