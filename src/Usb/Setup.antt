-- ===== src/Usb/Setup.antt =====
-- The transfers of an endpoint, of kernel/linux_usb.c: usb_setup_endpoint and usb_unsetup_endpoint.
use Prim.Native.Nat.{bit_or}
use webcamd.Prelude.{
  ℕ, ◌+◌, ◌-◌, ◌*◌, ◌/◌, ◌%◌, ◌^◌, bit_and, Bool, true, false, ◌&&◌, ◌||◌, ◌==◌, ltb, if◌then◌else◌,
  Option, none, some, List, ◌∷◌,
}
use webcamd.Prelude.Int.{ℤ, pos, negsuc, pos_part}

-- The function that is called for a transfer.
pub data Callback : Type 0 where
  ctrl_callback isoc_callback bulk_intr_callback : Callback

-- A transfer that was opened: its place among the transfers of the device, the length of its buffer,
-- the number of its frames, and its callback.
pub record Transfer : Type 0 where
  pub tr_index : ℕ
  pub size : ℕ
  pub frames : ℕ
  pub callback : Callback

-- `bsd_xfer`, and which places were closed, latest first.
pub record Xfers : Type 0 where
  pub xfer0 : Option Transfer
  pub xfer1 : Option Transfer
  pub closed : List ℕ

pub data Speed : Type 0 where
  low full high : Speed

-- The speed of the device is `high` where it is neither low nor full. `min_frames` and `min_bufsize`
-- are parameters of the module, here not negative; whether libusb20_tr_open succeeds for a
-- place, a length and a number of frames is up to libusb20. libusb20_tr_get_pointer answers no NULL
-- for the 64 transfers that the device is opened with (`libusb20_dev_open(pdev, 4 * 16)`).
pub record Setting : Type 0 where
  pub speed : Speed
  pub min_frames : ℕ
  pub min_bufsize : ℕ
  pub opens : ℕ → ℕ → ℕ → Bool

unfoldable pub is_some {ℓ} : {A : Type ℓ} → Option A → Bool
is_some none = false
is_some (some a) = true

-- One of up to 16 * 4 transfers.
unfoldable pub ep_index : ℕ → ℕ
ep_index addr = bit_or (bit_and addr 0x80 / 0x40) (addr * 4) % 64

-- `fps_shift`, of `bInterval`.
unfoldable pub fps_shift : ℕ → ℕ
fps_shift interval = if ltb 3 (interval - 1) then 3 else interval - 1

unfoldable pub frames_of : Speed → ℕ → ℕ → ℕ
unfolding fps_shift
frames_of low frames interval = frames / 8 % 2 ^ 16
frames_of full frames interval = frames / 8 % 2 ^ 16
frames_of high frames interval = frames / 2 ^ fps_shift interval % 2 ^ 16

unfoldable pub usb_max_isoc_frames : Setting → ℕ → ℕ
unfolding frames_of
usb_max_isoc_frames c interval =
    let frames = 8 * c.min_frames % 2 ^ 32 in
    frames_of c.speed (if frames == 0 then 8 * 30 else frames) interval

unfoldable pub at_least : ℕ → ℕ → ℕ
at_least least size = if ltb size least then least else size

-- The least buffer of a bulk (2) or interrupt (3) endpoint.
unfoldable pub least_bufsize : Speed → ℕ → ℕ
least_bufsize low type = 256
least_bufsize full type = 4096
least_bufsize high type = if type == 3 then 4096 else 131072

unfoldable pub bulk_bufsize : Setting → ℕ → ℤ → ℕ
unfolding at_least least_bufsize
bulk_bufsize c type bufsize =
    at_least (least_bufsize c.speed type) (at_least c.min_bufsize (pos_part bufsize))

-- The length, the frames and the callback of the transfers, by the type of the endpoint: 0 is
-- control and 1 isochronous.
unfoldable pub request : Setting → ℕ → ℕ → ℤ → ℕ → Transfer
unfolding usb_max_isoc_frames bulk_bufsize
request c type interval bufsize place =
    if type == 0
    then record { tr_index = place; size = 65544; frames = 2; callback = ctrl_callback }
    else if type == 1
    then record {
      tr_index = place;
      size = 0;
      frames = usb_max_isoc_frames c interval;
      callback = isoc_callback;
    }
    else record {
      tr_index = place;
      size = bulk_bufsize c type bufsize;
      frames = 1;
      callback = bulk_intr_callback;
    }

unfoldable pub opens : Setting → Transfer → Bool
opens c t = c.opens t.tr_index t.size t.frames

unfoldable pub close : Option Transfer → Xfers → Xfers
close none s = s
close (some t) s = record s { closed = t.tr_index ∷ s.closed }

unfoldable pub usb_unsetup_endpoint : Xfers → Xfers
unfolding close
usb_unsetup_endpoint s = record (close s.xfer1 (close s.xfer0 s)) { xfer0 = none; xfer1 = none }

-- Opening the second transfer is not tried where the first one fails.
unfoldable pub usb_setup_endpoint : Setting → ℕ → ℕ → ℕ → ℤ → Xfers → Xfers × ℤ
unfolding ep_index request opens
usb_setup_endpoint c attributes addr interval bufsize s =
    let type = attributes % 4 in
    let t0 = request c type interval bufsize (ep_index addr) in
    let t1 = request c type interval bufsize (ep_index addr + 1) in
    let t = record s { xfer0 = some t0; xfer1 = some t1 } in
    if is_some s.xfer0 || is_some s.xfer1
    then (s, pos 0)
    else if opens c t0 && opens c t1
    then (t, pos 0)
    else (usb_unsetup_endpoint t, negsuc 21)
