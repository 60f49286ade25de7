-- ===== src/Examples/Pipes.antt =====
-- Descriptors and pipes of kernel/linux_usb.c.
use webcamd.Prelude.{ℕ, ◌≡◌, ◌&&◌, ◌==◌, leb, if◌then◌else◌, none, some, [], ◌∷◌, refl, arith}
use webcamd.Usb.Descriptors.{Endpoint, UsbDevice, usb_get_extra_descriptor, extra_loop}
use webcamd.Usb.Extra.{usb_get_extra_descriptor_first}

-- Two descriptors of three bytes, of the types 5 and 4.
abbrev buffer : ℕ → ℕ
buffer i = if i == 0 then 3 else if i == 1 then 5 else if i == 3 then 3 else if i == 4 then 4 else 0

usb_get_extra_descriptor_first_example : usb_get_extra_descriptor buffer 6 5 ≡ (
    if leb 2 6 && (leb 2 (buffer 0) && (leb 6 (buffer 0) && buffer 1 == 5)) then some 0 else none)
usb_get_extra_descriptor_first_example =
    usb_get_extra_descriptor_first buffer 6 5 (λ i. ground arith) (omega arith)

-- Neither of the two is found.
usb_get_extra_descriptor_test : usb_get_extra_descriptor buffer 6 5 ≡ none
unfolding usb_get_extra_descriptor extra_loop
usb_get_extra_descriptor_test = refl

abbrev bulk_in : Endpoint
bulk_in = record { endpoint_address = 0x82; attributes = 2; max_packet_size = 512 }

abbrev device : UsbDevice
device = record {
  interfaces = record { cur_altsetting = some (bulk_in ∷ []) } ∷ [];
  ep0 = record { endpoint_address = 0; attributes = 0; max_packet_size = 64 };
  devnum = 3;
}
