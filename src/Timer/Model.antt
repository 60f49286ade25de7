-- ===== src/Timer/Model.antt =====
-- The timers of kernel/linux_timer.c as their users see them: which are pending, in which order.
use webcamd.Prelude.{
  ℕ, ◌≡◌, Bool, false, if◌then◌else◌, List, [], ◌∷◌, ◌++◌, refl, arith, ap, ◌∙◌, Bool-cases, inl,
  inr, sym,
}
use webcamd.Tailq.{erase, insert_tail, mem, IsTailq}
use webcamd.Tailq.Laws.{
  insert_tail-IsTailq, unlink-IsTailq, erase_absent, unlink-linked, unlink-queue,
}
use webcamd.Timer.Calls.{Timers, timer_pending, add_timer, del_timer, mod_timer, set_expires}

pub data Call : Type 0 where
  pends : ℕ → Call
  adds : ℕ → Call
  dels : ℕ → Call
  mods : ℕ → ℕ → Call

abbrev pub answer : Bool → ℕ
answer b = if b then 1 else 0

abbrev pub apply : Call → Timers → Timers × ℕ
apply (pends t) s = (s, answer (timer_pending t s))
apply (adds t) s = (add_timer t s, 0)
apply (dels t) s = del_timer t s
apply (mods t e) s = mod_timer t e s

-- The states and the answers of a run.
abbrev pub run : List Call → Timers → Timers × List ℕ
run [] s = (s, [])
run (c ∷ cs) s = let (s', a) = apply c s in let (s'', as') = run cs s' in (s'', a ∷ as')

-- The model: the pending timers, those started last at the end.
abbrev pub model_apply : Call → List ℕ → List ℕ × ℕ
model_apply (pends t) q = (q, answer (mem t q))
model_apply (adds t) q = (erase t q ++ (t ∷ []), 0)
model_apply (dels t) q = (erase t q, answer (mem t q))
model_apply (mods t e) q = (q, answer (mem t q))

abbrev pub model_run : List Call → List ℕ → List ℕ × List ℕ
model_run [] q = (q, [])
model_run (c ∷ cs) q =
    let (q', a) = model_apply c q in let (q'', as') = model_run cs q' in (q'', a ∷ as')

pub del_timer-IsTailq :
    (t : ℕ) (s : Timers)
    → IsTailq s.head
    → IsTailq (del_timer t s).0.head
      × ((del_timer t s).0.head.linked t ≡ false)
      × ((del_timer t s).0.head.queue ≡ erase t s.head.queue)
      × ((del_timer t s).1 ≡ answer (mem t s.head.queue))
unfolding del_timer
del_timer-IsTailq t s h = elim (Bool-cases (s.head.linked t)) [
  | inl e ↦ rw e (
    unlink-IsTailq t s.head h,
    unlink-linked t s.head,
    unlink-queue t s.head,
    ground (arith, e, h.linked t),
  )
  | inr e ↦ rw e (
    h,
    e,
    sym (erase_absent t s.head.queue (ground (arith, e, h.linked t))),
    ground (arith, e, h.linked t),
  )
]

pub add_timer-IsTailq :
    (t : ℕ) (s : Timers)
    → IsTailq s.head
    → IsTailq (add_timer t s).head × ((add_timer t s).head.queue ≡ erase t s.head.queue ++ (t ∷ []))
unfolding add_timer insert_tail
add_timer-IsTailq t s h =
    let (k, l, q, _) = del_timer-IsTailq t s h in
    (insert_tail-IsTailq t (del_timer t s).0.head l k, ap (λ q. q ++ (t ∷ [])) q)

apply-IsTailq :
    (c : Call) (s : Timers)
    → IsTailq s.head
    → IsTailq (apply c s).0.head
      × ((apply c s).0.head.queue ≡ (model_apply c s.head.queue).0)
      × ((apply c s).1 ≡ (model_apply c s.head.queue).1)
unfolding timer_pending mod_timer set_expires
apply-IsTailq (pends t) s h = (h, refl, ap answer (h.linked t))
apply-IsTailq (adds t) s h = let (k, q) = add_timer-IsTailq t s h in (k, q, refl)
apply-IsTailq (dels t) s h = let (k, _, q, a) = del_timer-IsTailq t s h in (k, q, a)
apply-IsTailq (mods t e) s h = (h, refl, ap answer (h.linked t))

cons : {a b : ℕ} {xs ys : List ℕ} → a ≡ b → xs ≡ ys → (a ∷ xs) ≡ (b ∷ ys)
cons {b} {xs} e f = ap (λ x. x ∷ xs) e ∙ ap (λ ys. b ∷ ys) f

-- Any run of calls keeps the queue well formed, answers what the model answers, and ends with the
-- timers of the model pending in the model's order.
pub run-model_run :
    (cs : List Call) (s : Timers)
    → IsTailq s.head
    → IsTailq (run cs s).0.head
      × ((run cs s).0.head.queue ≡ (model_run cs s.head.queue).0)
      × ((run cs s).1 ≡ (model_run cs s.head.queue).1)
run-model_run [] s h = (h, refl, refl)
run-model_run (c ∷ cs) s h =
    let (k, q, a) = apply-IsTailq c s h in
    let (k', q', as') = run-model_run cs (apply c s).0 k in
    (k', q' ∙ ap (λ r. (model_run cs r).0) q, cons a (as' ∙ ap (λ r. (model_run cs r).1) q))
