-- ===== src/Usb/Balance.antt =====
-- No URB is lost or completed twice: what was accepted was completed, waits, or is in a transfer.
use webcamd.Prelude.Stores.{assign}
use webcamd.Prelude.{
  ℕ, ◌+◌, ◌≡◌, Bool, true, false, not, ◌||◌, ◌==◌, if◌then◌else◌, Option, none, some, List, [], ◌∷◌,
  ◌++◌, refl, sym, ap, ◌∙◌, arith, Bool-cases, inl, inr,
}
use webcamd.Prelude.Int.{ℤ, is_zero}
use webcamd.Tailq.{Tailq, insert_tail, unlink, erase, mem, IsTailq}
use webcamd.Tailq.Laws.{insert_tail-IsTailq, unlink-IsTailq, unlink-queue, erase-head}
use webcamd.Usb.Urbs.{
  Pipe, Slot, xfer0, xfer1, get_sc1, set_sc1, set_status, Env, call_complete, enqueue, start_xfer,
  usb_submit_urb, unlink_if, unlink_bsd, unlink_queued, usb_unlink_urb, usb_linux_complete,
  complete_in_callback, take_first, finish,
}

-- How often a number stands in a list, and in a transfer.
unfoldable pub count : ℕ → List ℕ → ℕ
count u [] = 0
count u (v ∷ vs) = (if v == u then 1 else 0) + count u vs

unfoldable pub held : ℕ → Option ℕ → ℕ
held u none = 0
held u (some v) = if v == u then 1 else 0

pub record IsBalanced (s : Pipe) : Type 0 where
  pub tailq : IsTailq s.urbs
  pub balance :
      (u : ℕ)
      → count u s.accepted
        ≡ count u s.finished + count u s.urbs.queue + held u s.first + held u s.second

-- The URB `u` is to be completed: it is counted as such already.
abbrev IsOwed : ℕ → Pipe → Type 0
IsOwed u s = IsBalanced (record s { finished = u ∷ s.finished })

-- What is known of the driver and of libusb20. A completion function may make any calls that keep
-- the balance, and leaves the transfer whose callback runs alone.
pub record Keeps (env : Env) : Type 0 where
  pub complete_keeps : (u : ℕ) (s : Pipe) → IsBalanced s → IsBalanced (env.complete u s)
  pub complete_idle :
      (u : ℕ) (x : Slot) (s : Pipe) → get_sc1 x s ≡ none → get_sc1 x (env.complete u s) ≡ none
  pub start_keeps : (x : Slot) (s : Pipe) → IsBalanced s → IsBalanced (env.start x s)
  pub restart_keeps : (x : Slot) (s : Pipe) → IsBalanced s → IsBalanced (env.restart x s)

count-append :
    (w u : ℕ) (q : List ℕ) → count w (q ++ (u ∷ [])) ≡ count w q + (if u == w then 1 else 0)
unfolding count
count-append w u [] = omega arith
count-append w u (v ∷ q) = omega (arith, count-append w u q)

count-erase :
    (w u : ℕ) (q : List ℕ)
    → mem u q ≡ true
    → count w q ≡ count w (erase u q) + (if u == w then 1 else 0)
unfolding count erase
count-erase w u [] h = cc
count-erase w u (v ∷ q) h = elim (Bool-cases (u == v)) [
  | inl e ↦ rw e (ground arith)
  | inr e ↦ rw e (ground (arith, count-erase w u q))
]

pub get_sc1-flags :
    (x : Slot) (s : Pipe) (f : ℕ → Bool) → get_sc1 x (record s { no_resubmit = f }) ≡ get_sc1 x s
unfolding get_sc1
get_sc1-flags xfer0 s f = refl
get_sc1-flags xfer1 s f = refl

pub get_sc1-result :
    (x : Slot) (s : Pipe) (f : ℕ → ℤ) (g : ℕ → ℕ)
    → get_sc1 x (record s { status = f; actual_length = g }) ≡ get_sc1 x s
unfolding get_sc1
get_sc1-result xfer0 s f g = refl
get_sc1-result xfer1 s f g = refl

pub get_sc1-status :
    (x : Slot) (s : Pipe) (u : ℕ) (r : ℤ) → get_sc1 x (set_status u r s) ≡ get_sc1 x s
unfolding get_sc1 set_status
get_sc1-status xfer0 s u r = refl
get_sc1-status xfer1 s u r = refl

pub taken : (u : ℕ) (us : List ℕ) (t : Tailq) → t.queue ≡ u ∷ us → (unlink u t).queue ≡ us
taken u us t q = unlink-queue u t ∙ ap (erase u) q ∙ erase-head u us

if-IsBalanced :
    (b : Bool) (p q : Pipe × ℤ)
    → IsBalanced p.0
    → IsBalanced q.0
    → IsBalanced (if b then p else q).0
if-IsBalanced true p q h k = h
if-IsBalanced false p q h k = k

pub enqueue-IsBalanced : (u : ℕ) (s : Pipe) → IsBalanced s → IsBalanced (enqueue u s)
unfolding enqueue set_status insert_tail count
enqueue-IsBalanced u s h = elim (Bool-cases (s.urbs.linked u)) [
  | inl e ↦ rw e h
  | inr e ↦ rw e (record {
    tailq = insert_tail-IsTailq u s.urbs e h.tailq;
    balance = λ w. omega (arith, h.balance w, count-append w u s.urbs.queue);
  })
]

module _ {env : Env} (k : Keeps env) where
  call_complete-IsBalanced : (u : ℕ) (s : Pipe) → IsOwed u s → IsBalanced (call_complete env u s)
  unfolding call_complete
  call_complete-IsBalanced u s h =
      k.complete_keeps u _ (record { tailq = h.tailq; balance = h.balance })

  pub start_xfer-IsBalanced : (x : Slot) (s : Pipe) → IsBalanced s → IsBalanced (start_xfer env x s)
  unfolding start_xfer
  start_xfer-IsBalanced x s h = elim (Bool-cases (env.has_xfer x)) [
    | inl e ↦ rw e (k.start_keeps x s h)
    | inr e ↦ rw e h
  ]

  pub usb_submit_urb-IsBalanced :
      (found : Bool) (u : ℕ) (s : Pipe) → IsBalanced s → IsBalanced (usb_submit_urb env found u s).0
  unfolding usb_submit_urb set_status
  usb_submit_urb-IsBalanced found u s h =
      let t = enqueue u (record s { queued = assign s.queued u true }) in
      let q : IsBalanced t =
        enqueue-IsBalanced u _ (record { tailq = h.tailq; balance = h.balance }) in
      let busy : IsBalanced (start_xfer env xfer1 (start_xfer env xfer0 t)) =
        start_xfer-IsBalanced xfer1 _ (start_xfer-IsBalanced xfer0 t q) in
      if-IsBalanced (not (is_zero (s.reject u))) _ _ h (
        if-IsBalanced (not found) _ _ h (
          if-IsBalanced (not (env.setup u)) _ _ h (
            if-IsBalanced (env.has_xfer xfer0 || env.has_xfer xfer1) _ _
              (if-IsBalanced (t.no_resubmit u) _ _ q busy)
              (record { tailq = h.tailq; balance = h.balance }))))

  unlink_queued-IsBalanced :
      (u : ℕ) (s : Pipe)
      → s.urbs.linked u ≡ true
      → IsBalanced s
      → IsBalanced (unlink_queued env u s)
  unfolding unlink_queued set_status count
  unlink_queued-IsBalanced u s e h = call_complete-IsBalanced u _ (record {
    tailq = unlink-IsTailq u s.urbs h.tailq;
    balance = λ w. omega (
      arith,
      h.balance w,
      count-erase w u s.urbs.queue (sym (h.tailq.linked u) ∙ e),
      ap (count w) (unlink-queue u s.urbs),
    );
  })

  unlink_if-IsBalanced :
      (u : ℕ) (x : Slot) (o : Option ℕ) (s : Pipe)
      → IsBalanced s
      → IsBalanced (unlink_if env u x o s)
  unfolding unlink_if
  unlink_if-IsBalanced u x none s h = h
  unlink_if-IsBalanced u x (some v) s h = elim (Bool-cases (v == u)) [
    | inl e ↦ rw e (k.restart_keeps x s h)
    | inr e ↦ rw e h
  ]

  pub usb_unlink_urb-IsBalanced :
      (found : Bool) (u : ℕ) (s : Pipe) → IsBalanced s → IsBalanced (usb_unlink_urb env found u s).0
  unfolding usb_unlink_urb unlink_bsd
  usb_unlink_urb-IsBalanced found u s h = elim (Bool-cases found) [
    | inr e ↦ rw e h
    | inl e ↦ rw e (elim (Bool-cases (s.urbs.linked u)) [
      | inl q ↦ rw q (unlink_queued-IsBalanced u s q h)
      | inr n ↦ rw n (
          let t = unlink_if env u xfer0 (get_sc1 xfer0 s) s in
          unlink_if-IsBalanced u xfer1 (get_sc1 xfer1 t) t
            (unlink_if-IsBalanced u xfer0 (get_sc1 xfer0 s) s h))
    ])
  ]

  usb_linux_complete-IsBalanced :
      (x : Slot) (u : ℕ) (s : Pipe)
      → get_sc1 x s ≡ some u
      → IsBalanced s
      → IsBalanced (usb_linux_complete env x u s)
  unfolding usb_linux_complete set_sc1 get_sc1 count held
  usb_linux_complete-IsBalanced xfer0 u s e h =
      call_complete-IsBalanced u _
        (record { tailq = h.tailq; balance = λ w. omega (arith, h.balance w, ap (held w) e) })
  usb_linux_complete-IsBalanced xfer1 u s e h =
      call_complete-IsBalanced u _
        (record { tailq = h.tailq; balance = λ w. omega (arith, h.balance w, ap (held w) e) })

  usb_linux_complete_idle :
      (x : Slot) (u : ℕ) (s : Pipe) → get_sc1 x (usb_linux_complete env x u s) ≡ none
  unfolding usb_linux_complete call_complete set_sc1 get_sc1
  usb_linux_complete_idle xfer0 u s = k.complete_idle u xfer0 _ refl
  usb_linux_complete_idle xfer1 u s = k.complete_idle u xfer1 _ refl

  -- The completion in a callback, after other fields of the URB were written.
  pub complete_in_callback-IsBalanced :
      (x : Slot) (u : ℕ) (s : Pipe)
      → get_sc1 x s ≡ some u
      → IsBalanced s
      → IsBalanced (complete_in_callback env x u s)
  unfolding complete_in_callback
  complete_in_callback-IsBalanced x u s e h =
      let t =
        usb_linux_complete-IsBalanced x u (record s { no_resubmit = assign s.no_resubmit u true })
          (get_sc1-flags x s (assign s.no_resubmit u true) ∙ e)
          (record { tailq = h.tailq; balance = h.balance }) in
      record { tailq = t.tailq; balance = t.balance }

  pub complete_in_callback_idle :
      (x : Slot) (u : ℕ) (s : Pipe) → get_sc1 x (complete_in_callback env x u s) ≡ none
  unfolding complete_in_callback
  complete_in_callback_idle x u s =
      get_sc1-flags x _ _
      ∙ usb_linux_complete_idle x u (record s { no_resubmit = assign s.no_resubmit u true })

  pub finish-IsBalanced :
      (x : Slot) (u : ℕ) (result : ℤ) (actlen : ℕ) (s : Pipe)
      → get_sc1 x s ≡ some u
      → IsBalanced s
      → IsBalanced (finish env x u result actlen s)
  unfolding finish set_status
  finish-IsBalanced x u result actlen s e h =
      complete_in_callback-IsBalanced x u _ (get_sc1-result x s _ _ ∙ e)
        (record { tailq = h.tailq; balance = h.balance })

  pub finish_idle :
      (x : Slot) (u : ℕ) (result : ℤ) (actlen : ℕ) (s : Pipe)
      → get_sc1 x (finish env x u result actlen s) ≡ none
  unfolding finish
  finish_idle x u result actlen s = complete_in_callback_idle x u _

pub take_first-IsBalanced :
    (x : Slot) (u : ℕ) (us : List ℕ) (s : Pipe)
    → s.urbs.queue ≡ u ∷ us
    → get_sc1 x s ≡ none
    → IsBalanced s
    → IsBalanced (take_first u x s)
unfolding take_first set_sc1 get_sc1 held count
take_first-IsBalanced xfer0 u us s q e h = record {
  tailq = unlink-IsTailq u s.urbs h.tailq;
  balance = λ w.
      omega (arith, h.balance w, ap (held w) e, ap (count w) q, ap (count w) (taken u us s.urbs q));
}
take_first-IsBalanced xfer1 u us s q e h = record {
  tailq = unlink-IsTailq u s.urbs h.tailq;
  balance = λ w.
      omega (arith, h.balance w, ap (held w) e, ap (count w) q, ap (count w) (taken u us s.urbs q));
}

pub take_first_holds : (x : Slot) (u : ℕ) (s : Pipe) → get_sc1 x (take_first u x s) ≡ some u
unfolding take_first set_sc1 get_sc1
take_first_holds xfer0 u s = refl
take_first_holds xfer1 u s = refl

pub take_first-queue : (x : Slot) (u : ℕ) (s : Pipe) → (take_first u x s).urbs ≡ unlink u s.urbs
unfolding take_first set_sc1
take_first-queue xfer0 u s = refl
take_first-queue xfer1 u s = refl
