-- ===== src/Usb/SetupLaws.antt =====
-- An endpoint has both of its transfers or none.
use Prim.Native.Nat.{bit_or}
use webcamd.Prelude.{
  ℕ, ◌+◌, ◌*◌, ◌/◌, ◌%◌, ◌<◌, ◌≤◌, ◌≡◌, ◌≢◌, bit_and, Bool, true, false, ◌&&◌, ◌||◌, if◌then◌else◌,
  some, none, Option, ◌∷◌, suc, ltb, ◌==◌, refl, ap, sym, subst, ◌∙◌, arith, Bool-cases, inl, inr,
}
use webcamd.Prelude.Int.{ℤ, pos, negsuc, pos_part}
use webcamd.Bits.Words.{and-pow, or_halves, or_shift, bit}
use webcamd.Usb.Setup.{
  Transfer, Xfers, Setting, is_some, ep_index, at_least, least_bufsize, bulk_bufsize, request,
  opens, usb_unsetup_endpoint, usb_setup_endpoint,
}

direction_lem : (a : ℕ) → bit_and a 0x80 / 0x40 ≡ 2 * (a / 128 % 2)
unfolding bit
direction_lem a = ground (arith, and-pow 7 a)

zero-or : (n : ℕ) → n < 1024 → bit_or 0 n ≡ n
zero-or n h = omega (arith, or_shift 10 n 0 h)

or-two : (n : ℕ) → n < 256 → bit_or 2 (n * 4) ≡ n * 4 + 2
or-two n h =
    let a : n * 4 / 2 ≡ n * 2 = omega arith in
    let b : n * 2 / 2 ≡ n = omega arith in
    ground (
      arith,
      or_halves 2 (n * 4),
      or_halves 1 (n * 2),
      zero-or n (omega arith),
      ap (bit_or 1) a,
      ap (bit_or 0) b,
    )

-- Two for each direction of each of 16 numbers.
ep_index_lem : (a : ℕ) → a < 256 → a % 128 < 16 → ep_index a ≡ 4 * (a % 16) + 2 * (a / 128)
unfolding ep_index
ep_index_lem a h k = ground (arith, direction_lem a, zero-or (a * 4) (omega arith), or-two a h)

at_least-below : (least size : ℕ) → size ≤ at_least least size
unfolding at_least
at_least-below least size = ground arith

-- Where the first transfer of an endpoint is among those of the device.
abbrev pub first_index : ℕ → ℕ
first_index addr = 4 * (addr % 16) + 2 * (addr / 128)

-- An endpoint has no transfers, or two, at `p` and behind it.
abbrev pub BothAt : ℕ → Option Transfer → Option Transfer → Type 0
BothAt p none none = Unit {0}
BothAt p (some a) (some b) = (a.tr_index ≡ p) × (b.tr_index ≡ suc p)
BothAt p none (some b) = ⊥
BothAt p (some a) none = ⊥

-- A property of a transfer, if there is one.
abbrev pub Each : (Transfer → Type 0) → Option Transfer → Type 0
Each P none = Unit
Each P (some t) = P t

-- What a bulk or interrupt endpoint is asked for where it has no transfers yet.
unfoldable pub wanted : ℕ → ℤ → Xfers → ℕ
wanted type bufsize s = if is_some s.xfer0 then 0 else if ltb 1 type then pos_part bufsize else 0

request-tr_index :
    (c : Setting) (type interval : ℕ) (bufsize : ℤ) (i : ℕ)
    → (request c type interval bufsize i).tr_index ≡ i
unfolding request
request-tr_index c type interval bufsize i = elim (Bool-cases (type == 0)) [
  | inl e ↦ rw e refl
  | inr e ↦ elim (Bool-cases (type == 1)) [ inl f ↦ rw (e, f) refl | inr f ↦ rw (e, f) refl ]
]

-- The buffer is as large as a bulk or interrupt endpoint was asked for.
request-size :
    (c : Setting) (type interval : ℕ) (bufsize : ℤ) (i : ℕ)
    → (if ltb 1 type then pos_part bufsize else 0) ≤ (request c type interval bufsize i).size
unfolding request bulk_bufsize
request-size c type interval bufsize i =
    let below = at_least-below c.min_bufsize (pos_part bufsize) in
    let above =
      at_least-below (least_bufsize c.speed type) (at_least c.min_bufsize (pos_part bufsize)) in
    elim (Bool-cases (type == 0)) [
      | inl e ↦ rw e (ground (arith, e))
      | inr e ↦ elim (Bool-cases (type == 1)) [
        | inl f ↦ rw (e, f) (ground (arith, f))
        | inr f ↦ rw (e, f) (ground (arith, below, above))
      ]
    ]

placed_lem :
    (P : ℕ → Type 0) (p : ℕ) (a b : Option Transfer)
    → P p
    → P (suc p)
    → BothAt p a b
    → Each (λ t. P t.tr_index) a × Each (λ t. P t.tr_index) b
placed_lem P p none none h k e = (tt, tt)
placed_lem P p (some a) (some b) h k e = (subst P (sym e.0) h, subst P (sym e.1) k)
placed_lem P p none (some b) h k e = absurd e
placed_lem P p (some a) none h k e = absurd e

-- What usb_setup_endpoint leaves and answers.
unfoldable pub SetsUp : ℕ → ℕ → ℤ → Xfers → Xfers × ℤ → Type 0
SetsUp type p bufsize s r =
    BothAt p r.0.xfer0 r.0.xfer1
    × (r.1 ≡ (if is_some r.0.xfer0 then pos 0 else negsuc 21))
    × (r.0.closed ≡ (if is_some r.0.xfer0 then s.closed else suc p ∷ p ∷ s.closed))
    × Each (λ t. wanted type bufsize s ≤ t.size) r.0.xfer0
    × Each (λ t. wanted type bufsize s ≤ t.size) r.0.xfer1

kept_sizes : (n : ℕ) (o : Option Transfer) → n ≡ 0 → Each (λ t. n ≤ t.size) o
kept_sizes n none e = tt
kept_sizes n (some t) e = omega (arith, e)

-- Transfers that are there stay.
kept-SetsUp :
    (type p : ℕ) (bufsize : ℤ) (s : Xfers)
    → is_some s.xfer0 ≡ true
    → BothAt p s.xfer0 s.xfer1
    → SetsUp type p bufsize s (s, pos 0)
unfolding SetsUp wanted
kept-SetsUp type p bufsize s e b =
    let none_wanted : wanted type bufsize s ≡ 0 = rw e refl in
    (
      b,
      rw e refl,
      rw e refl,
      kept_sizes (wanted type bufsize s) s.xfer0 none_wanted,
      kept_sizes (wanted type bufsize s) s.xfer1 none_wanted,
    )

module _ (c : Setting) (type interval : ℕ) (bufsize : ℤ) (p : ℕ) (s : Xfers) where
  new_xfers : Xfers
  new_xfers = record s {
    xfer0 = some (request c type interval bufsize p);
    xfer1 = some (request c type interval bufsize (p + 1));
  }

  wanted_size :
      (t : Transfer)
      → (if ltb 1 type then pos_part bufsize else 0) ≤ t.size
      → wanted type bufsize s ≤ t.size
  unfolding wanted
  wanted_size t h = ground (arith, h)

  opened-SetsUp : SetsUp type p bufsize s (new_xfers, pos 0)
  unfolding SetsUp new_xfers is_some
  opened-SetsUp = (
    (
      request-tr_index c type interval bufsize p,
      request-tr_index c type interval bufsize (p + 1) ∙ omega arith,
    ),
    refl,
    refl,
    wanted_size (request c type interval bufsize p) (request-size c type interval bufsize p),
    wanted_size (request c type interval bufsize (p + 1))
        (request-size c type interval bufsize (p + 1)),
  )

  failed-SetsUp : SetsUp type p bufsize s (usb_unsetup_endpoint new_xfers, negsuc 21)
  unfolding SetsUp new_xfers is_some usb_unsetup_endpoint
  failed-SetsUp = (
    tt,
    refl,
    ap (λ i. i ∷ (request c type interval bufsize p).tr_index ∷ s.closed)
          (request-tr_index c type interval bufsize (p + 1) ∙ omega arith)
        ∙ ap (λ i. suc p ∷ i ∷ s.closed) (request-tr_index c type interval bufsize p),
    tt,
    tt,
  )

if-SetsUp :
    (b : Bool) (type p : ℕ) (bufsize : ℤ) (s : Xfers) (q r : Xfers × ℤ)
    → (b ≡ true → SetsUp type p bufsize s q)
    → (b ≡ false → SetsUp type p bufsize s r)
    → SetsUp type p bufsize s (if b then q else r)
if-SetsUp true type p bufsize s q r h k = h refl
if-SetsUp false type p bufsize s q r h k = k refl

both_some :
    (p : ℕ) (a b : Option Transfer)
    → BothAt p a b
    → is_some a || is_some b ≡ true
    → is_some a ≡ true
unfolding is_some
both_some p none none h e = e
both_some p (some a) b h e = refl
both_some p none (some b) h e = absurd h

usb_setup_endpoint-SetsUp :
    (c : Setting) (attributes addr interval : ℕ) (bufsize : ℤ) (s : Xfers)
    → BothAt (ep_index addr) s.xfer0 s.xfer1
    → SetsUp
        (attributes % 4)
        (ep_index addr)
        bufsize
        s
        (usb_setup_endpoint c attributes addr interval bufsize s)
unfolding usb_setup_endpoint new_xfers
usb_setup_endpoint-SetsUp c attributes addr interval bufsize s h =
    let type = attributes % 4 in
    let p = ep_index addr in
    let t = new_xfers c type interval bufsize p s in
    let open_both =
      opens c (request c type interval bufsize p)
      && opens c (request c type interval bufsize (p + 1)) in
    if-SetsUp (is_some s.xfer0 || is_some s.xfer1) type p bufsize s (s, pos 0)
      (if open_both then (t, pos 0) else (usb_unsetup_endpoint t, negsuc 21))
      (λ e. kept-SetsUp type p bufsize s (both_some p s.xfer0 s.xfer1 h e) h)
      (λ _.
        if-SetsUp open_both type p bufsize s (t, pos 0) (usb_unsetup_endpoint t, negsuc 21)
          (λ _. opened-SetsUp c type interval bufsize p s)
          (λ _. failed-SetsUp c type interval bufsize p s))

-- `addr` and `other` are the addresses of two different endpoints, and the endpoint `addr` has no
-- transfers or its two ones. Then, whatever libusb20 answers, usb_setup_endpoint leaves it with two
-- transfers, at its place among those of the device and behind it, and answers 0, or with none, and
-- answers EINVAL once it has closed both. Each transfer that it has then is one of the 64 that the
-- device is opened with, and none of the two of `other`. A bulk or interrupt endpoint that had no
-- transfers has buffers that are not smaller than asked for.
pub usb_setup_endpoint_both :
    (c : Setting) (attributes addr other interval : ℕ) (bufsize : ℤ) (s : Xfers)
    → addr < 256
    → addr % 128 < 16
    → other < 256
    → other % 128 < 16
    → addr ≢ other
    → BothAt (first_index addr) s.xfer0 s.xfer1
    → let r = usb_setup_endpoint c attributes addr interval bufsize s in
      SetsUp (attributes % 4) (first_index addr) bufsize s r
      × Each (λ t. t.tr_index < 64) r.0.xfer0
      × Each (λ t. t.tr_index < 64) r.0.xfer1
      × Each
          (λ t. (t.tr_index ≢ first_index other) × (t.tr_index ≢ suc (first_index other)))
          r.0.xfer0
      × Each
          (λ t. (t.tr_index ≢ first_index other) × (t.tr_index ≢ suc (first_index other)))
          r.0.xfer1
usb_setup_endpoint_both c attributes addr other interval bufsize s ha ka ho ko ne h =
    let p = first_index addr in
    let r = usb_setup_endpoint c attributes addr interval bufsize s in
    let e : ep_index addr ≡ p = ep_index_lem addr ha ka in
    let sets =
      subst (λ i. SetsUp (attributes % 4) i bufsize s r) e
        (usb_setup_endpoint-SetsUp c attributes addr interval bufsize s
          (subst (λ i. BothAt i s.xfer0 s.xfer1) (sym e) h)) in
    let b : BothAt p r.0.xfer0 r.0.xfer1 = unfold SetsUp in sets.0 in
    let q = first_index other in
    let Apart : ℕ → Type 0 = λ i. (i ≢ q) × (i ≢ suc q) in
    let device = placed_lem (λ i. i < 64) p r.0.xfer0 r.0.xfer1 (omega arith) (omega arith) b in
    let apart =
      placed_lem Apart p r.0.xfer0 r.0.xfer1
        ((λ e. absurd (omega (arith, e, ne))), (λ e. absurd (omega (arith, e))))
        ((λ e. absurd (omega (arith, e))), (λ e. absurd (omega (arith, e, ne)))) b in
    (sets, device.0, device.1, apart.0, apart.1)
