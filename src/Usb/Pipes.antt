-- ===== src/Usb/Pipes.antt =====
-- A pipe names the endpoint that it was made for.
use Prim.Native.Nat.{bit_or}
use webcamd.Prelude.{
  ℕ, ◌+◌, ◌*◌, ◌%◌, ◌^◌, ◌<◌, ◌≡◌, bit_and, Bool, ◌&&◌, ◌==◌, if◌then◌else◌, Option, none, some,
  List, [], ◌∷◌, ◌++◌, refl, ap, ◌∙◌, arith,
}
use webcamd.Bits.Words.{or_shift, and-pow}
use webcamd.Usb.Descriptors.{
  Endpoint, Interface, UsbDevice, usb_create_host_endpoint, usb_pipetype, pipe_address,
  address_mask, is_endpoint, find_endpoint, find_in, find_interface, usb_find_host_endpoint,
}

direction-lt : (ep : ℕ) → bit_and ep 0x80 < 2 ^ 8
direction-lt ep = ground (arith, and-pow 7 ep)

-- The fields of a pipe do not overlap.
pipe_sum :
    (dev : UsbDevice) (type ep : ℕ)
    → type < 4
    → usb_create_host_endpoint dev type ep
      ≡ (((type * 2 ^ 15 + ep % 256) * 2 ^ 7 + dev.devnum % 128) * 2 ^ 8) + bit_and ep 0x80
unfolding usb_create_host_endpoint
pipe_sum dev type ep h =
    let t : type * 2 ^ 30 % 2 ^ 32 ≡ type * 2 ^ 30 = omega arith in
    let a : bit_or (type * 2 ^ 30) (ep % 256 * 2 ^ 15) ≡ (type * 2 ^ 15 + ep % 256) * 2 ^ 15 =
      or_shift 30 (ep % 256 * 2 ^ 15) type (omega arith) ∙ omega arith in
    let b : bit_or ((type * 2 ^ 15 + ep % 256) * 2 ^ 15) (dev.devnum % 128 * 2 ^ 8)
        ≡ ((type * 2 ^ 15 + ep % 256) * 2 ^ 7 + dev.devnum % 128) * 2 ^ 8 =
      or_shift 15 (dev.devnum % 128 * 2 ^ 8) (type * 2 ^ 15 + ep % 256) (omega arith)
      ∙ omega arith in
    rw (t, a, b)
      (or_shift 8 (bit_and ep 0x80) ((type * 2 ^ 15 + ep % 256) * 2 ^ 7 + dev.devnum % 128)
        (direction-lt ep))

pipe_fields :
    (dev : UsbDevice) (type ep : ℕ)
    → type < 4
    → (usb_pipetype (usb_create_host_endpoint dev type ep) ≡ type)
      × (pipe_address (usb_create_host_endpoint dev type ep) ≡ ep % 256)
unfolding usb_pipetype pipe_address
pipe_fields dev type ep h = (
  omega (arith, pipe_sum dev type ep h, direction-lt ep),
  omega (arith, pipe_sum dev type ep h, direction-lt ep),
)

unfoldable pub joined : Option (List Endpoint) → List Endpoint → List Endpoint
joined none fs = fs
joined (some es) fs = es ++ fs

-- The endpoints of the current alternate settings, in order.
unfoldable pub endpoints : List Interface → List Endpoint
unfolding joined
endpoints [] = []
endpoints (i ∷ is) = joined i.cur_altsetting (endpoints is)

-- The first endpoint that has `p`, or `other`.
unfoldable pub first : (Endpoint → Bool) → List Endpoint → Option Endpoint → Option Endpoint
first p [] other = other
first p (e ∷ es) other = if p e then some e else first p es other

find_endpoint-first :
    (p : Endpoint → Bool) (es fs : List Endpoint) (other : Option Endpoint)
    → find_endpoint p es (first p fs other) ≡ first p (es ++ fs) other
unfolding find_endpoint first
find_endpoint-first p [] fs other = refl
find_endpoint-first p (e ∷ es) fs other =
    ap (λ r. if p e then some e else r) (find_endpoint-first p es fs other)

find_in-first :
    (p : Endpoint → Bool) (o : Option (List Endpoint)) (fs : List Endpoint)
    (other : Option Endpoint)
    → find_in p o (first p fs other) ≡ first p (joined o fs) other
unfolding find_in joined
find_in-first p none fs other = refl
find_in-first p (some es) fs other = find_endpoint-first p es fs other

find_interface-first :
    (p : Endpoint → Bool) (is : List Interface) (other : Option Endpoint)
    → find_interface p is other ≡ first p (endpoints is) other
unfolding find_interface endpoints first
find_interface-first p [] other = refl
find_interface-first p (i ∷ is) other =
    ap (find_in p i.cur_altsetting) (find_interface-first p is other)
    ∙ find_in-first p i.cur_altsetting (endpoints is) other

-- The pipe that usb_create_host_endpoint makes for an endpoint of one of the four types finds, among
-- the endpoints of the current alternate settings, the first one of that type whose address agrees
-- in the bits that count: the number, and but for control endpoints the direction. A control pipe to
-- number 0 that finds none finds the default endpoint.
usb_find_host_endpoint-create :
    (dev : UsbDevice) (type ep : ℕ)
    → type < 4
    → ep < 256
    → usb_find_host_endpoint dev (usb_create_host_endpoint dev type ep)
      ≡ first (is_endpoint type (bit_and ep (address_mask type))) (endpoints dev.interfaces) (
          if type == 0 && bit_and (bit_and ep (address_mask type)) 0x0f == 0
          then some dev.ep0
          else none)
unfolding usb_find_host_endpoint
usb_find_host_endpoint-create dev type ep h lt =
    let (t, a) = pipe_fields dev type ep h in
    let e : ep % 256 ≡ ep = omega arith in
    rw (t, a, e)
      (find_interface-first (is_endpoint type (bit_and ep (address_mask type))) dev.interfaces _)
