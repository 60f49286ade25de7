-- ===== src/Examples/Setups.antt =====
-- Tests of the transfers of an endpoint.
use webcamd.Prelude.{suc, ◌≡◌, ◌≢◌, ◌<◌, ltb, [], ◌∷◌, none, refl, arith}
use webcamd.Prelude.Int.{pos, negsuc}
use webcamd.Usb.Setup.{
  Xfers, Speed, high, full, Setting, is_some, ep_index, bulk_bufsize, usb_setup_endpoint,
}
use webcamd.Usb.SetupLaws.{SetsUp, Each, first_index, usb_setup_endpoint_both}

-- The second transfer of the endpoint 0x81 does not open.
abbrev busy : Setting
busy = record {
  speed = high;
  min_frames = 0;
  min_bufsize = 0;
  opens = λ place size frames. ltb place 7;
}

abbrev unset : Xfers
unset = record { xfer0 = none; xfer1 = none; closed = [] }

setup_fails :
    usb_setup_endpoint busy 2 0x81 0 (pos 100) unset
    ≡ (record unset { closed = 7 ∷ 6 ∷ [] }, negsuc 21)
unfolding usb_setup_endpoint is_some webcamd.Usb.Setup.usb_unsetup_endpoint
setup_fails = refl

isoc_frames : (usb_setup_endpoint busy 1 1 4 (pos 0) unset).1 ≡ pos 0
unfolding usb_setup_endpoint is_some
isoc_frames = refl

abbrev ready : Setting
ready = record busy { opens = λ place size frames. ltb place 8 }

usb_setup_endpoint_both_example :
    let r = usb_setup_endpoint ready 2 0x81 0 (pos 100) unset in
    SetsUp 2 (first_index 0x81) (pos 100) unset r
    × Each (λ t. t.tr_index < 64) r.0.xfer0
    × Each (λ t. t.tr_index < 64) r.0.xfer1
    × Each (λ t. (t.tr_index ≢ first_index 2) × (t.tr_index ≢ suc (first_index 2))) r.0.xfer0
    × Each (λ t. (t.tr_index ≢ first_index 2) × (t.tr_index ≢ suc (first_index 2))) r.0.xfer1
usb_setup_endpoint_both_example =
    usb_setup_endpoint_both ready 2 0x81 2 0 (pos 100) unset (omega arith) (omega arith)
      (omega arith) (omega arith) (omega arith) tt
