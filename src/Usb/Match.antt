-- ===== src/Usb/Match.antt =====
-- The matching of devices and interfaces against a driver's table, of kernel/linux_usb.c.
use webcamd.Prelude.{
  ℕ, ◌/◌, ◌%◌, ◌^◌, Bool, true, false, not, ◌&&◌, ◌||◌, ◌==◌, ltb, if◌then◌else◌, Option, none,
  some, List, [], ◌∷◌,
}

-- struct usb_device_id; numbers of two bytes are in the order of the host.
pub record DeviceId : Type 0 where
  pub match_flags : ℕ
  pub id_vendor : ℕ
  pub id_product : ℕ
  pub bcd_device_lo : ℕ
  pub bcd_device_hi : ℕ
  pub device_class : ℕ
  pub device_sub_class : ℕ
  pub device_protocol : ℕ
  pub interface_class : ℕ
  pub interface_sub_class : ℕ
  pub interface_protocol : ℕ
  pub driver_info : ℕ

-- What is compared of the descriptors of the device and of its interface.
pub record Matched : Type 0 where
  pub vendor : ℕ
  pub product : ℕ
  pub bcd_device : ℕ
  pub class : ℕ
  pub sub_class : ℕ
  pub protocol : ℕ
  pub int_class : ℕ
  pub int_sub_class : ℕ
  pub int_protocol : ℕ

-- A bit of `match_flags`.
unfoldable pub has : ℕ → DeviceId → Bool
has i id = id.match_flags / 2 ^ i % 2 == 1

unfoldable pub usb_match_device : Matched → DeviceId → Bool
usb_match_device dev id =
    if has 0 id && not (id.id_vendor == dev.vendor)
    then false
    else if has 1 id && not (id.id_product == dev.product)
    then false
    else if has 2 id && ltb dev.bcd_device id.bcd_device_lo
    then false
    else if has 3 id && ltb id.bcd_device_hi dev.bcd_device
    then false
    else if has 4 id && not (id.device_class == dev.class)
    then false
    else if has 5 id && not (id.device_sub_class == dev.sub_class)
    then false
    else if has 6 id && not (id.device_protocol == dev.protocol)
    then false
    else true

-- For an entry that is there. USB_CLASS_VENDOR_SPEC is 0xff, and USB_DEVICE_ID_MATCH_INT_INFO the flags 7 to 9.
unfoldable pub usb_match_one_id : Matched → DeviceId → Bool
usb_match_one_id dev id =
    if not (usb_match_device dev id)
    then false
    else if (dev.class == 0xff) && (not (has 0 id) && (has 7 id || (has 8 id || has 9 id)))
    then false
    else if has 7 id && not (id.interface_class == dev.int_class)
    then false
    else if has 8 id && not (id.interface_sub_class == dev.int_sub_class)
    then false
    else if has 9 id && not (id.interface_protocol == dev.int_protocol)
    then false
    else true

-- The end of the table, which may hold a driver_info.
unfoldable pub special_case : DeviceId → Option DeviceId
special_case id = if not (id.driver_info == 0) then some id else none

-- The loop over the entries of the table; a table without an end is read past it.
unfoldable pub match_loop : Matched → List DeviceId → Option DeviceId
unfolding special_case
match_loop dev [] = none
match_loop dev (id ∷ ids) =
    let rest = match_loop dev ids in
    if id.match_flags == 0
    then special_case id
    else if usb_match_one_id dev id
    then some id
    else rest

unfoldable pub usb_match_id : Matched → Option (List DeviceId) → Option DeviceId
usb_match_id dev none = none
usb_match_id dev (some ids) = match_loop dev ids
