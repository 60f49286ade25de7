-- ===== src/Usb/Descriptors.antt =====
-- Interfaces, endpoints and pipes of kernel/linux_usb.c, and the search for a descriptor.
use Prim.Native.Nat.{bit_or}
use webcamd.Prelude.{
  ℕ, zero, suc, ◌+◌, ◌-◌, ◌*◌, ◌/◌, ◌%◌, ◌^◌, bit_and, Bool, ◌&&◌, ◌==◌, ltb, if◌then◌else◌, Option,
  none, some, List, [], ◌∷◌,
}

-- struct usb_host_endpoint, with the fields of its descriptor that the calls read.
pub record Endpoint : Type 0 where
  pub endpoint_address : ℕ
  pub attributes : ℕ
  pub max_packet_size : ℕ

-- struct usb_interface: the endpoints of its current alternate setting, when it has one.
pub record Interface : Type 0 where
  pub cur_altsetting : Option (List Endpoint)

pub record UsbDevice : Type 0 where
  pub interfaces : List Interface
  pub ep0 : Endpoint
  pub devnum : ℕ

unfoldable pub usb_create_host_endpoint : UsbDevice → ℕ → ℕ → ℕ
usb_create_host_endpoint dev type ep =
    bit_or (bit_or (bit_or (type * 2 ^ 30 % 2 ^ 32) (ep % 256 * 2 ^ 15)) (dev.devnum % 128 * 2 ^ 8))
      (bit_and ep 0x80)

unfoldable pub usb_pipetype : ℕ → ℕ
usb_pipetype pipe = pipe / 2 ^ 30 % 4

-- The address of the endpoint in a pipe.
unfoldable pub pipe_address : ℕ → ℕ
pipe_address pipe = pipe / 2 ^ 15 % 256

-- The bits of an address that tell endpoints of a type apart.
unfoldable pub address_mask : ℕ → ℕ
address_mask type = if type == 0 then 0x0f else 0x8f

unfoldable pub is_endpoint : ℕ → ℕ → Endpoint → Bool
is_endpoint type ep e =
    bit_and e.endpoint_address (address_mask type) == ep && e.attributes % 4 == type

-- The loop over the endpoints of an interface; `rest` is the loop over the interfaces after it.
unfoldable pub find_endpoint : (Endpoint → Bool) → List Endpoint → Option Endpoint → Option Endpoint
find_endpoint p [] rest = rest
find_endpoint p (e ∷ es) rest = if p e then some e else find_endpoint p es rest

unfoldable pub find_in :
    (Endpoint → Bool) → Option (List Endpoint) → Option Endpoint → Option Endpoint
find_in p none rest = rest
find_in p (some es) rest = find_endpoint p es rest

unfoldable pub find_interface :
    (Endpoint → Bool) → List Interface → Option Endpoint → Option Endpoint
find_interface p [] rest = rest
find_interface p (i ∷ is) rest = find_in p i.cur_altsetting (find_interface p is rest)

unfoldable pub usb_find_host_endpoint : UsbDevice → ℕ → Option Endpoint
usb_find_host_endpoint dev pipe =
    let type = usb_pipetype pipe in
    let ep = bit_and (pipe_address pipe) (address_mask type) in
    let control = if type == 0 && bit_and ep 0x0f == 0 then some dev.ep0 else none in
    find_interface (is_endpoint type ep) dev.interfaces control

-- The search of __usb_get_extra_descriptor in `buffer`, from `offset` on, with `size` bytes left as
-- the code counts them, on an unsigned int that wraps around.
unfoldable pub extra_loop : (ℕ → ℕ) → ℕ → ℕ → ℕ → ℕ → Option ℕ
extra_loop buffer type zero offset size = none
extra_loop buffer type (suc fuel) offset size =
    let length = buffer offset in
    let rest = extra_loop buffer type fuel (offset + length) ((size + 2 ^ 32 - length) % 2 ^ 32) in
    if ltb size 2
    then none
    else if ltb length 2
    then none
    else if ltb length size
    then none
    else if buffer (suc offset) == type
    then some offset
    else rest

-- The offset of the descriptor that is found, or `none` for -1. Three rounds are enough: a round
-- goes on only with no byte left, or with more than a descriptor can have.
unfoldable pub usb_get_extra_descriptor : (ℕ → ℕ) → ℕ → ℕ → Option ℕ
usb_get_extra_descriptor buffer size type = extra_loop buffer type 3 0 size
