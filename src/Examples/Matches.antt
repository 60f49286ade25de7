-- ===== src/Examples/Matches.antt =====
-- The matching of devices, of kernel/linux_usb.c.
use webcamd.Prelude.{◌≡◌, ◌==◌, if◌then◌else◌, none, some, List, [], ◌∷◌, ◌++◌, refl, arith}
use webcamd.Usb.Match.{
  DeviceId, Matched, has, usb_match_device, usb_match_one_id, special_case, match_loop,
  usb_match_id,
}
use webcamd.Usb.Matching.{HasFlags, first_accepted, usb_match_id-first_accepted}

-- A webcam of the vendor 0x046d, with the classes of a video device.
abbrev webcam : Matched
webcam = record {
  vendor = 0x046d;
  product = 0x0825;
  bcd_device = 0x0012;
  class = 0xef;
  sub_class = 2;
  protocol = 1;
  int_class = 14;
  int_sub_class = 1;
  int_protocol = 0;
}

-- The end of a table.
abbrev terminator : DeviceId
terminator = record {
  match_flags = 0;
  id_vendor = 0;
  id_product = 0;
  bcd_device_lo = 0;
  bcd_device_hi = 0;
  device_class = 0;
  device_sub_class = 0;
  device_protocol = 0;
  interface_class = 0;
  interface_sub_class = 0;
  interface_protocol = 0;
  driver_info = 0;
}

-- One other product of the vendor, and all interfaces for video control.
abbrev table : List DeviceId
table =
    record terminator { match_flags = 3; id_vendor = 0x046d; id_product = 0x0808 }
    ∷ record terminator { match_flags = 0x180; interface_class = 14; interface_sub_class = 1 }
    ∷ []

table-HasFlags : HasFlags table
table-HasFlags = (λ e. absurd (omega (arith, e)), (λ e. absurd (omega (arith, e)), tt))

usb_match_id-first_accepted_example :
    usb_match_id webcam (some (table ++ (terminator ∷ [])))
    ≡ first_accepted webcam table (if terminator.driver_info == 0 then none else some terminator)
usb_match_id-first_accepted_example =
    usb_match_id-first_accepted webcam table [] terminator table-HasFlags refl

-- It is the second entry.
usb_match_id_test :
    usb_match_id webcam (some (table ++ (terminator ∷ [])))
    ≡ some
        (record terminator { match_flags = 0x180; interface_class = 14; interface_sub_class = 1 })
unfolding usb_match_id match_loop usb_match_one_id usb_match_device has special_case
usb_match_id_test = refl
