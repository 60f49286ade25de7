-- ===== src/Usb/Matching.antt =====
-- A driver's table is searched for the first entry that asks for nothing else than what is there.
use webcamd.Prelude.{
  ℕ, ◌≡◌, ◌≢◌, Bool, true, false, not, ◌&&◌, ◌||◌, ◌==◌, ltb, leb, if◌then◌else◌, Option, none,
  some, List, [], ◌∷◌, ◌++◌, refl, ◌∙◌, arith, ap,
}
use webcamd.Usb.Match.{
  DeviceId, Matched, has, usb_match_device, usb_match_one_id, special_case, match_loop,
  usb_match_id,
}

unfoldable pub all : List Bool → Bool
all [] = true
all (b ∷ bs) = b && all bs

-- A field that is compared only where its flag is set.
unfoldable pub where_set : ℕ → DeviceId → Bool → Bool
where_set i id test = not (has i id) || test

-- What an entry asks for: every field that it sets is the same, or in the range; and for a device of
-- its vendor's own class, an entry that names interfaces names the vendor too.
unfoldable pub device_fields : Matched → DeviceId → List Bool
device_fields dev id =
    where_set 0 id (id.id_vendor == dev.vendor)
    ∷ where_set 1 id (id.id_product == dev.product)
    ∷ where_set 2 id (leb id.bcd_device_lo dev.bcd_device)
    ∷ where_set 3 id (leb dev.bcd_device id.bcd_device_hi)
    ∷ where_set 4 id (id.device_class == dev.class)
    ∷ where_set 5 id (id.device_sub_class == dev.sub_class)
    ∷ where_set 6 id (id.device_protocol == dev.protocol)
    ∷ []

unfoldable pub interface_fields : Matched → DeviceId → List Bool
interface_fields dev id =
    (not (dev.class == 0xff) || (has 0 id || not (has 7 id || (has 8 id || has 9 id))))
    ∷ where_set 7 id (id.interface_class == dev.int_class)
    ∷ where_set 8 id (id.interface_sub_class == dev.int_sub_class)
    ∷ where_set 9 id (id.interface_protocol == dev.int_protocol)
    ∷ []

unfoldable pub accepts : Matched → DeviceId → Bool
accepts dev id = all (device_fields dev id) && all (interface_fields dev id)

-- The first entry that is accepted, or the one at the end.
unfoldable pub first_accepted : Matched → List DeviceId → Option DeviceId → Option DeviceId
first_accepted dev [] end = end
first_accepted dev (id ∷ ids) end =
    let rest = first_accepted dev ids end in if accepts dev id then some id else rest

reject : (h t : Bool) (p q : Bool) → p ≡ q → (if h && not t then false else p) ≡ (not h || t) && q
reject true true p q e = e
reject true false p q e = refl
reject false t p q e = e

reject_out :
    (h : Bool) (m n : ℕ) (p q : Bool)
    → p ≡ q
    → (if h && ltb n m then false else p) ≡ (not h || leb m n) && q
reject_out true m n p q e = ground (arith, e)
reject_out false m n p q e = e

reject_vendor :
    (c v i p q : Bool)
    → p ≡ q
    → (if c && (not v && i) then false else p) ≡ (not c || (v || not i)) && q
reject_vendor false v i p q e = e
reject_vendor true true i p q e = e
reject_vendor true false true p q e = refl
reject_vendor true false false p q e = e

both : (a b p q : Bool) → a ≡ b → p ≡ q → (if not a then false else p) ≡ b && q
both true b p q d e = e ∙ ap (λ c. c && q) d
both false b p q d e = ap (λ c. c && q) d

usb_match_device-all :
    (dev : Matched) (id : DeviceId) → usb_match_device dev id ≡ all (device_fields dev id)
unfolding usb_match_device all device_fields where_set
usb_match_device-all dev id = reject (has 0 id) _ _ _ (
    reject (has 1 id) _ _ _ (
      reject_out (has 2 id) _ _ _ _ (
        reject_out (has 3 id) _ _ _ _
          (reject (has 4 id) _ _ _ (reject (has 5 id) _ _ _ (reject (has 6 id) _ _ _ refl))))))

usb_match_one_id-accepts :
    (dev : Matched) (id : DeviceId) → usb_match_one_id dev id ≡ accepts dev id
unfolding usb_match_one_id accepts all interface_fields where_set
usb_match_one_id-accepts dev id =
    both (usb_match_device dev id) (all (device_fields dev id)) _ _ (usb_match_device-all dev id) (
      reject_vendor (dev.class == 0xff) (has 0 id) _ _ _
        (reject (has 7 id) _ _ _ (reject (has 8 id) _ _ _ (reject (has 9 id) _ _ _ refl))))

-- Every entry of a list has a flag.
abbrev pub HasFlags : List DeviceId → Type 0
HasFlags [] = Unit {0}
HasFlags (id ∷ ids) = (id.match_flags ≢ 0) × HasFlags ids

-- In a table whose end is the first entry without flags, usb_match_id answers the first entry that
-- accepts the device and its interface, compared as the flags of the entry say; where there is none,
-- the end of the table if it has a driver_info, and NULL otherwise. What stands behind the end has
-- no effect.
pub usb_match_id-first_accepted :
    (dev : Matched) (ids behind : List DeviceId) (end : DeviceId)
    → HasFlags ids
    → end.match_flags ≡ 0
    → usb_match_id dev (some (ids ++ (end ∷ behind)))
      ≡ first_accepted dev ids (if end.driver_info == 0 then none else some end)
unfolding usb_match_id match_loop first_accepted special_case
usb_match_id-first_accepted dev [] behind end h e = ground (arith, e)
usb_match_id-first_accepted dev (id ∷ ids) behind end h e = ground (
  arith,
  h.0,
  usb_match_id-first_accepted dev ids behind end h.1 e,
  usb_match_one_id-accepts dev id,
)
