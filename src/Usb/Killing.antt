-- ===== src/Usb/Killing.antt =====
-- When usb_kill_anchored_urbs returns.
use webcamd.Prelude.{
  ap, ℕ, zero, suc, ◌<◌, ◌≡◌, ◌≢◌, Option, none, some, length, List, [], ◌∷◌, refl, sym, ◌∙◌, arith,
}
use webcamd.Usb.Anchors.{
  Anchor, usb_get_urb, usb_free_urb, last, kill_round, usb_kill_anchored_urbs,
}

pub free-list : (u : ℕ) (s : Anchor) → (usb_free_urb u s).urb_list ≡ s.urb_list
unfolding usb_free_urb
free-list u s = ground arith

kill_round-list :
    (kill : ℕ → Anchor → Anchor)
    → ((u : ℕ) (s : Anchor) → (kill u s).urb_list ≡ s.urb_list)
    → (u : ℕ) (s : Anchor) → (usb_free_urb u (kill u (usb_get_urb u s))).urb_list ≡ s.urb_list
unfolding usb_get_urb
kill_round-list kill leaves u s = free-list u _ ∙ leaves u _

kill_round-none :
    (kill : ℕ → Anchor → Anchor)
    → ((u : ℕ) (s : Anchor) → (kill u s).urb_list ≡ s.urb_list)
    → (again : Anchor → Option Anchor) → ((s : Anchor) → s.urb_list ≢ [] → again s ≡ none)
    → (q : List ℕ) (s : Anchor) → s.urb_list ≡ q
    → s.urb_list ≢ []
    → kill_round kill again q s ≡ none
unfolding kill_round
kill_round-none kill leaves again fails [] s e some_left = absurd (some_left e)
kill_round-none kill leaves again fails (u ∷ us) s e some_left =
    let v = last u us in
    fails (usb_free_urb v (kill v (usb_get_urb v s)))
      (λ gone. some_left (sym (kill_round-list kill leaves v s) ∙ gone))

never :
    (kill : ℕ → Anchor → Anchor)
    → ((u : ℕ) (s : Anchor) → (kill u s).urb_list ≡ s.urb_list)
    → (fuel : ℕ) (s : Anchor) → s.urb_list ≢ []
    → usb_kill_anchored_urbs fuel kill s ≡ none
unfolding usb_kill_anchored_urbs
never kill leaves zero s some_left = refl
never kill leaves (suc fuel) s some_left =
    kill_round-none kill leaves (usb_kill_anchored_urbs fuel kill) (never kill leaves fuel)
      s.urb_list s refl some_left

-- The completion that a kill of the last URB leads to takes an URB from the anchor.
abbrev pub Takes : (ℕ → Anchor → Anchor) → Type 0
Takes kill =
    (u : ℕ) (us : List ℕ) (s : Anchor)
    → s.urb_list ≡ u ∷ us
    → length (kill (last u us) s).urb_list < length s.urb_list

Returned : Option Anchor → Type 0
Returned r = (t : Anchor) × (r ≡ some t) × (t.urb_list ≡ [])

kill_round-Returned :
    (kill : ℕ → Anchor → Anchor)
    → Takes kill
    → (fuel : ℕ) (q : List ℕ) (s : Anchor) → s.urb_list ≡ q
    → length s.urb_list < suc fuel
    → ((t : Anchor) → length t.urb_list < fuel → Returned (usb_kill_anchored_urbs fuel kill t))
    → Returned (kill_round kill (usb_kill_anchored_urbs fuel kill) q s)
unfolding kill_round Returned usb_get_urb
kill_round-Returned kill takes fuel [] s e enough rest = (s, refl, e)
kill_round-Returned kill takes fuel (u ∷ us) s e enough rest =
    let v = last u us in
    rest _ (
      ground
        (arith, takes u us (usb_get_urb v s) e, ap length (free-list v (kill v (usb_get_urb v s)))))

returns :
    (kill : ℕ → Anchor → Anchor)
    → Takes kill
    → (fuel : ℕ) (s : Anchor) → length s.urb_list < fuel
    → Returned (usb_kill_anchored_urbs fuel kill s)
unfolding usb_kill_anchored_urbs
returns kill takes zero s enough = absurd (omega arith)
returns kill takes (suc fuel) s enough =
    kill_round-Returned kill takes fuel s.urb_list s refl enough (returns kill takes fuel)

-- usb_kill_anchored_urbs leaves it to the completion functions to take the URBs from the anchor.
-- Where each kill takes one away, the call returns after as many rounds as URBs are at the anchor and
-- one more, with none left. Where the completion functions leave the list alone, it does not return
-- with any URB at the anchor, however many rounds it has.
pub usb_kill_anchored_urbs-Returns :
    (takes leaves : ℕ → Anchor → Anchor)
    → Takes takes
    → ((u : ℕ) (s : Anchor) → (leaves u s).urb_list ≡ s.urb_list)
    → (s : Anchor) (fuel : ℕ) → s.urb_list ≢ []
    → ((t : Anchor) × (usb_kill_anchored_urbs (suc (length s.urb_list)) takes s ≡ some t)
        × (t.urb_list ≡ []))
      × (usb_kill_anchored_urbs fuel leaves s ≡ none)
unfolding Returned
usb_kill_anchored_urbs-Returns takes leaves shorter same s fuel some_left = (
  returns takes shorter (suc (length s.urb_list)) s (omega arith),
  never leaves same fuel s some_left,
)
