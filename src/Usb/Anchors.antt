-- ===== src/Usb/Anchors.antt =====
-- The URBs of an anchor and their references, of kernel/linux_usb.c.
use webcamd.Prelude.Stores.{assign}
use webcamd.Prelude.{
  ℕ, zero, suc, Bool, true, false, if◌then◌else◌, Option, none, some, List, [], ◌∷◌, ◌++◌,
}
use webcamd.Prelude.Int.{ℤ, add_one, sub_one, is_zero}
use webcamd.Tailq.{erase}

-- One anchor, the URBs that say that they are at it (`urb->anchor`), and the counts of their krefs.
-- `freed` records the URBs for which urb_destroy was called.
pub record Anchor : Type 0 where
  pub urb_list : List ℕ
  pub anchored : ℕ → Bool
  pub kref : ℕ → ℤ
  pub freed : List ℕ

unfoldable pub usb_get_urb : ℕ → Anchor → Anchor
unfolding assign
usb_get_urb u s = record s { kref = assign s.kref u (add_one (s.kref u)) }

-- usb_free_urb: a reference is given back, and the last one frees the URB.
unfoldable pub usb_free_urb : ℕ → Anchor → Anchor
unfolding assign
usb_free_urb u s =
    let t = record s { kref = assign s.kref u (sub_one (s.kref u)) } in
    if is_zero (sub_one (s.kref u)) then record t { freed = u ∷ s.freed } else t

unfoldable pub usb_anchor_urb : ℕ → Anchor → Anchor
unfolding usb_get_urb assign
usb_anchor_urb u s =
    let t = usb_get_urb u s in
    record t { urb_list = t.urb_list ++ (u ∷ []); anchored = assign t.anchored u true }

unfoldable pub usb_unanchor_urb : ℕ → Anchor → Anchor
unfolding usb_free_urb assign
usb_unanchor_urb u s =
    if s.anchored u
    then usb_free_urb u
        (record s { urb_list = erase u s.urb_list; anchored = assign s.anchored u false })
    else s

-- The last URB of a list that starts with `u`.
unfoldable pub last : ℕ → List ℕ → ℕ
last u [] = u
last u (v ∷ vs) = last v vs

-- A round of usb_kill_anchored_urbs, on the list as it is read; `kill` is usb_kill_urb with the
-- completion function that it calls, and `again` is the loop.
unfoldable pub kill_round :
    (ℕ → Anchor → Anchor) → (Anchor → Option Anchor) → List ℕ → Anchor → Option Anchor
unfolding usb_get_urb usb_free_urb
kill_round kill again [] s = some s
kill_round kill again (u ∷ us) s =
    let v = last u us in again (usb_free_urb v (kill v (usb_get_urb v s)))

-- `none` says that the rounds ran out.
unfoldable pub usb_kill_anchored_urbs : ℕ → (ℕ → Anchor → Anchor) → Anchor → Option Anchor
unfolding kill_round
usb_kill_anchored_urbs zero kill s = none
usb_kill_anchored_urbs (suc fuel) kill s =
    kill_round kill (usb_kill_anchored_urbs fuel kill) s.urb_list s
