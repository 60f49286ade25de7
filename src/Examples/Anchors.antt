-- ===== src/Examples/Anchors.antt =====
-- Anchors of kernel/linux_usb.c.
use webcamd.Prelude.Stores.{assign}
use webcamd.Prelude.{
  ℕ, suc, ◌<◌, ◌≡◌, ◌≢◌, true, false, none, some, List, [], ◌∷◌, length, refl, ap, arith,
}
use mathlib.Core.Option
use webcamd.Prelude.Int.{pos}
use webcamd.Tailq.{erase}
use webcamd.Usb.Anchors.{
  Anchor, usb_get_urb, usb_free_urb, usb_anchor_urb, usb_unanchor_urb, last, kill_round,
  usb_kill_anchored_urbs,
}
use webcamd.Usb.Killing.{free-list, Takes, usb_kill_anchored_urbs-Returns}

-- Completion functions that take their URB from the anchor it is at.
abbrev takes : ℕ → Anchor → Anchor
takes u s = usb_unanchor_urb u (record s { anchored = λ _. true })

-- Completion functions that leave it there.
abbrev leaves : ℕ → Anchor → Anchor
leaves u s = s

-- The URBs 3 and 5 were anchored.
abbrev anchor : Anchor
anchor = usb_anchor_urb 5 (
    usb_anchor_urb 3
      (record { urb_list = []; anchored = λ _. false; kref = λ _. pos 1; freed = [] }))

erase-last : (u : ℕ) (us : List ℕ) → length (erase (last u us) (u ∷ us)) < length (u ∷ us)
unfolding erase last
erase-last u [] = ground arith
erase-last u (v ∷ vs) = ground (arith, erase-last v vs)

takes-Takes : Takes takes
unfolding usb_unanchor_urb
takes-Takes u us s e =
    let v = last u us in
    ground (
      arith,
      erase-last u us,
      ap (λ q. length (erase v q)) e,
      ap length e,
      ap length (
          free-list v
            (record s { urb_list = erase v s.urb_list; anchored = assign (λ _. true) v false })),
    )

not_empty : anchor.urb_list ≢ []
unfolding usb_anchor_urb usb_get_urb
not_empty e = absurd (omega (arith, ap length e))

usb_kill_anchored_urbs-Returns_example :
    ((t : Anchor) × (usb_kill_anchored_urbs (suc (length anchor.urb_list)) takes anchor ≡ some t)
      × (t.urb_list ≡ []))
    × (usb_kill_anchored_urbs 9 leaves anchor ≡ none)
usb_kill_anchored_urbs-Returns_example =
    usb_kill_anchored_urbs-Returns takes leaves takes-Takes (λ u s. refl) anchor 9 not_empty

-- Each URB keeps the reference that it started with.
kill_test : Option.map (λ t. t.kref 3) (usb_kill_anchored_urbs 3 takes anchor) ≡ some (pos 1)
unfolding usb_kill_anchored_urbs kill_round usb_get_urb usb_free_urb usb_anchor_urb usb_unanchor_urb
    last assign erase
kill_test = refl
