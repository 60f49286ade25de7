-- ===== src/Timer/Scan.antt =====
-- What one turn of the timer thread runs (`restart:` in kernel/linux_timer.c).
use webcamd.Prelude.{
  ℕ, zero, suc, ◌<◌, ◌≡◌, Bool, true, false, not, if◌then◌else◌, none, some, List, [], ◌∷◌, ◌++◌,
  length, arith, refl, ap, ◌∙◌, Bool-cases, inl, inr, Option-cases, ◌==◌, sym, append_assoc,
  append_nil,
}
use webcamd.Tailq.{unlink, erase, IsTailq, mark}
use webcamd.Tailq.Laws.{unlink-IsTailq}
use webcamd.Timer.Calls.{Timers, is_negative, first_expired, fire, run_expired}

abbrev pub filter : (ℕ → Bool) → List ℕ → List ℕ
filter p [] = []
filter p (t ∷ ts) = if p t then t ∷ filter p ts else filter p ts

abbrev pub All : (ℕ → Type 0) → List ℕ → Type 0
All P [] = Unit
All P (t ∷ ts) = P t × All P ts

abbrev pub concat_map : (ℕ → List ℕ) → List ℕ → List ℕ
concat_map f [] = []
concat_map f (t ∷ ts) = f t ++ concat_map f ts

abbrev pub is_expired : (ℕ → ℕ) → ℕ → ℕ → Bool
is_expired expires last_jiffies t = is_negative (expires t) last_jiffies

abbrev pub is_waiting : (ℕ → ℕ) → ℕ → ℕ → Bool
is_waiting expires last_jiffies t = not (is_negative (expires t) last_jiffies)

-- The function of `t` may restart timers that are not pending, none of them in the past, and leaves
-- the pending timers alone; `rearmed t` are those that it restarts.
pub record Rearms (last_jiffies : ℕ) (rearmed : ℕ → List ℕ) (t : ℕ) (s s' : Timers) : Type 0 where
  pub head : IsTailq s'.head
  pub queue : s'.head.queue ≡ s.head.queue ++ rearmed t
  pub kept : All (λ u. s'.expires u ≡ s.expires u) s.head.queue
  pub later : All (λ u. is_expired s'.expires last_jiffies u ≡ false) (rearmed t)

pub record Ran (last_jiffies : ℕ) (rearmed : ℕ → List ℕ) (s : Timers) (s' : Timers) (ran : List ℕ)
    : Type 0 where
  pub head : IsTailq s'.head
  pub fired : ran ≡ filter (is_expired s.expires last_jiffies) s.head.queue
  pub queue :
      s'.head.queue
      ≡ filter (is_waiting s.expires last_jiffies) s.head.queue ++ concat_map rearmed ran

module _ (e : ℕ → ℕ) (j : ℕ) where
  none_expired :
      (q : List ℕ)
      → first_expired e j q ≡ none
      → (filter (is_expired e j) q ≡ []) × (filter (is_waiting e j) q ≡ q)
  unfolding first_expired
  none_expired [] h = (refl, refl)
  none_expired (t ∷ q) h = elim (Bool-cases (is_negative (e t) j)) [
    | inl x ↦ absurd (ground (arith, x, h))
    | inr x ↦ let (f, g) = none_expired q (ground (arith, x, h)) in rw x (f, ap (λ l. t ∷ l) g)
  ]

  one_expired :
      (q : List ℕ) (t : ℕ)
      → first_expired e j q ≡ some t
      → (is_expired e j t ≡ true)
        × (filter (is_expired e j) q ≡ t ∷ filter (is_expired e j) (erase t q))
        × (filter (is_waiting e j) q ≡ filter (is_waiting e j) (erase t q))
  unfolding first_expired erase
  one_expired [] t h = absurd (ground (arith, h))
  one_expired (u ∷ q) t h = elim (Bool-cases (is_negative (e u) j)) [
    | inl x ↦ ground (arith, x, h)
    | inr x ↦
        let (n, f, g) = one_expired q t (ground (arith, x, h)) in
        elim (Bool-cases (t == u)) [
          | inl y ↦ absurd (ground (arith, x, n, y))
          | inr y ↦ rw (x, y) (n, ground (arith, f, x), ground (arith, g, x))
        ]
  ]

-- The filters of the timers after a function ran.
module _ (e e' : ℕ → ℕ) (j : ℕ) where
  waiting_append :
      (b : Bool) (t : ℕ) (w r : List ℕ)
      → (if not b then t ∷ (w ++ r) else w ++ r) ≡ (if not b then t ∷ w else w) ++ r
  waiting_append true t w r = refl
  waiting_append false t w r = refl

  filter_kept :
      (q r : List ℕ)
      → All (λ u. e' u ≡ e u) q
      → All (λ u. is_expired e' j u ≡ false) r
      → (filter (is_expired e' j) (q ++ r) ≡ filter (is_expired e j) q)
        × (filter (is_waiting e' j) (q ++ r) ≡ filter (is_waiting e j) q ++ r)
  filter_kept [] [] k l = (refl, refl)
  filter_kept [] (t ∷ r) k (l, ls) =
      let (f, g) = filter_kept [] r tt ls in rw l (f, ap (λ q. t ∷ q) g)
  filter_kept (t ∷ q) r (k, ks) l =
      let (f, g) = filter_kept q r ks l in
      rw (k, f, g) (refl, waiting_append (is_negative (e t) j) t _ r)

module _ (function : ℕ → Timers → Timers) (rearmed : ℕ → List ℕ) (last_jiffies : ℕ)
    (rearms : (t : ℕ) (s : Timers)
      → IsTailq s.head
      → s.head.linked t ≡ false
      → Rearms last_jiffies rearmed t s (function t s)) where
  abbrev HasRun : ℕ → Timers → Type 0
  HasRun fuel s =
      (s' : Timers) × (ran : List ℕ) × (run_expired function last_jiffies fuel s ≡ some (s', ran))
      × Ran last_jiffies rearmed s s' ran

  after : ℕ → Timers → Timers
  after t s = function t (record s { head = unlink t s.head })

  round :
      (t : ℕ) (s : Timers)
      → IsTailq s.head
      → first_expired s.expires last_jiffies s.head.queue ≡ some t
      → IsTailq (after t s).head
        × (filter (is_expired s.expires last_jiffies) s.head.queue
            ≡ t ∷ filter (is_expired (after t s).expires last_jiffies) (after t s).head.queue)
        × (filter (is_waiting (after t s).expires last_jiffies) (after t s).head.queue
            ≡ filter (is_waiting s.expires last_jiffies) s.head.queue ++ rearmed t)
  unfolding after unlink mark
  round t s h e =
      let (n, f, g) = one_expired s.expires last_jiffies s.head.queue t e in
      let r =
        rearms t (record s { head = unlink t s.head }) (unlink-IsTailq t s.head h) (ground arith) in
      let (f', g') =
        filter_kept s.expires (after t s).expires last_jiffies (erase t s.head.queue) (rearmed t)
          r.kept r.later in
      (
        r.head,
        f
            ∙ ap (λ q. t ∷ q)
                (sym (ap (filter (is_expired (after t s).expires last_jiffies)) r.queue ∙ f')),
        ap (filter (is_waiting (after t s).expires last_jiffies)) r.queue
            ∙ g'
            ∙ ap (λ q. q ++ rearmed t) (sym g),
      )

  fire-Ran :
      (fuel t : ℕ) (s : Timers)
      → IsTailq s.head
      → first_expired s.expires last_jiffies s.head.queue ≡ some t
      → HasRun fuel (after t s)
      → HasRun (suc fuel) s
  unfolding run_expired fire after
  fire-Ran fuel t s h e (s', ran, eq, r) =
      let (_, f, g) = round t s h e in
      (
        s',
        t ∷ ran,
        rw (e, eq) refl,
        record {
          head = r.head;
          fired = ap (λ q. t ∷ q) r.fired ∙ sym f;
          queue =
              r.queue
              ∙ ap (λ q. q ++ concat_map rearmed ran) g
              ∙ append_assoc (filter (is_waiting s.expires last_jiffies) s.head.queue) (rearmed t)
                  (concat_map rearmed ran);
        },
      )

  pub run_expired-Ran :
      (fuel : ℕ) (s : Timers)
      → IsTailq s.head
      → length (filter (is_expired s.expires last_jiffies) s.head.queue) < fuel
      → (s' : Timers) × (ran : List ℕ) × (run_expired function last_jiffies fuel s ≡ some (s', ran))
        × Ran last_jiffies rearmed s s' ran
  unfolding run_expired fire
  run_expired-Ran zero s h b = absurd (omega (arith, b))
  run_expired-Ran (suc fuel) s h b =
      elim (Option-cases (first_expired s.expires last_jiffies s.head.queue)) [
        | inl e ↦
            let (f, g) = none_expired s.expires last_jiffies s.head.queue e in
            (s, [], rw e refl, record { head = h; fired = sym f; queue = sym (append_nil _ ∙ g) })
        | inr (t, e) ↦
            let (h', f, g) = round t s h e in
            fire-Ran fuel t s h e
              (run_expired-Ran fuel (after t s) h' (omega (arith, b, ap length f)))
      ]
