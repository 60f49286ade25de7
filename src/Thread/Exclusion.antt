-- ===== src/Thread/Exclusion.antt =====
-- Threads that lock and unlock one mutex of kernel/linux_thread.c, in any interleaving.
use webcamd.Prelude.{
  ℕ, zero, suc, ◌+◌, ◌-◌, ◌<◌, ◌≡◌, ◌≢◌, true, false, ◌==◌, if◌then◌else◌, Option, none, some,
  arith, refl, ℕ_discrete, ◌↔◌, sym, ap, ◌∙◌,
}
use webcamd.Prelude.Int.{ℤ, pos, negsuc, add_one, sub_one, is_positive, is_one}
use webcamd.Thread.Mutex.{Semaphore, mutex_init, mutex_lock, mutex_trylock, mutex_unlock}

-- The mutex, with how often each thread holds it.
pub record System : Type 0 where
  pub mutex : Semaphore
  pub holds : ℕ → ℕ

abbrev pub assign : (ℕ → ℕ) → ℕ → ℕ → ℕ → ℕ
assign f i v j = if i == j then v else f j

abbrev pub init : System
init = record { mutex = mutex_init; holds = λ _. 0 }

-- A call that returns; a thread that sleeps makes no step. A thread unlocks only what it holds.
pub data Step (s : System) : System → Type 0 where
  locks :
      (i : ℕ) {m : Semaphore}
      → mutex_lock i s.mutex ≡ some m
      → Step s (record { mutex = m; holds = assign s.holds i (s.holds i + 1) })
  tries :
      (i : ℕ) {m : Semaphore}
      → mutex_trylock i s.mutex ≡ some (m, 1)
      → Step s (record { mutex = m; holds = assign s.holds i (s.holds i + 1) })
  fails :
      (i : ℕ) {m : Semaphore}
      → mutex_trylock i s.mutex ≡ some (m, 0)
      → Step s (record { mutex = m; holds = s.holds })
  unlocks :
      (i : ℕ)
      → 0 < s.holds i
      → Step s
          (record { mutex = (mutex_unlock s.mutex).0; holds = assign s.holds i (s.holds i - 1) })

pub data Reach : System → Type 0 where
  start : Reach init
  later : {s t : System} → Reach s → Step s t → Reach t

-- The value of a mutex that is held `n` times.
abbrev pub level : ℕ → ℤ
level zero = pos 1
level (suc zero) = pos 0
level (suc (suc n)) = negsuc n

abbrev pub holder : ℕ → ℕ → Option ℕ
holder zero t = none
holder (suc d) t = some t

-- Thread `t` holds the mutex `d` times, and no other thread holds it; `d` is 0 for a free mutex.
pub record Held (s : System) (t d : ℕ) : Type 0 where
  pub value : s.mutex.value ≡ level d
  pub owner : s.mutex.owner ≡ holder d t
  pub depth : s.holds t ≡ d
  pub others : (j : ℕ) → j ≢ t → s.holds j ≡ 0

abbrev pub Inv : System → Type 0
Inv s = (t : ℕ) × (d : ℕ) × Held s t d

init-Inv : Inv init
unfolding mutex_init
init-Inv = (0, 0, record { value = refl; owner = refl; depth = refl; others = λ j d. refl })

sub_one-level : (d : ℕ) → sub_one (level d) ≡ level (suc d)
sub_one-level zero = refl
sub_one-level (suc zero) = refl
sub_one-level (suc (suc d)) = refl

add_one-level : (d : ℕ) → add_one (level (suc d)) ≡ level d
add_one-level zero = refl
add_one-level (suc zero) = refl
add_one-level (suc (suc d)) = refl

is_positive-level : (d : ℕ) → is_positive (level (suc d)) ≡ false
is_positive-level zero = refl
is_positive-level (suc d) = refl

is_one-level : (d : ℕ) → is_one (level (suc d)) ≡ false
is_one-level zero = refl
is_one-level (suc d) = refl

-- A free mutex goes to the thread that asks; a held one goes to its holder alone.
module _ (s : System) (i : ℕ) (m : Semaphore) where
  abbrev acquired : System
  acquired = record { mutex = m; holds = assign s.holds i (s.holds i + 1) }

  first-Held : (t : ℕ) → Held s t 0 → m.value ≡ pos 0 → m.owner ≡ some i → Inv acquired
  first-Held t h v o = (
    i,
    1,
    record {
      value = v;
      owner = o;
      depth = ground (arith, free i);
      others = λ j d. ground (arith, free j);
    },
  )
    where
      free : (j : ℕ) → s.holds j ≡ 0
      free j = elim (ℕ_discrete j t) [ yes e ↦ rw e h.depth | no d ↦ h.others j d ]

  again-Held :
      (t d : ℕ)
      → Held s t (suc d)
      → i ≡ t
      → m.value ≡ sub_one s.mutex.value
      → m.owner ≡ s.mutex.owner
      → Inv acquired
  again-Held t d h e v o = (
    t,
    suc (suc d),
    record {
      value = v ∙ ap sub_one h.value ∙ sub_one-level (suc d);
      owner = o ∙ h.owner;
      depth = ground (arith, e, h.depth);
      others = λ j d'. ground (arith, e, h.others j d');
    },
  )

  locks-Inv : (t d : ℕ) → Held s t d → mutex_lock i s.mutex ≡ some m → Inv acquired
  unfolding mutex_lock
  locks-Inv t zero h e =
      first-Held t h (ground (arith, h.value, h.owner, e)) (ground (arith, h.value, h.owner, e))
  locks-Inv t (suc d) h e =
      again-Held t d h (ground (arith, h.owner, e, ap is_positive h.value ∙ is_positive-level d))
        (ground (arith, h.owner, e, ap is_positive h.value ∙ is_positive-level d))
        (ground (arith, h.owner, e, ap is_positive h.value ∙ is_positive-level d))

  tries-Inv : (t d : ℕ) → Held s t d → mutex_trylock i s.mutex ≡ some (m, 1) → Inv acquired
  unfolding mutex_trylock
  tries-Inv t zero h e =
      first-Held t h (ground (arith, h.value, h.owner, e)) (ground (arith, h.value, h.owner, e))
  tries-Inv t (suc d) h e =
      again-Held t d h (ground (arith, h.owner, e, ap is_positive h.value ∙ is_positive-level d))
        (ground (arith, h.owner, e, ap is_positive h.value ∙ is_positive-level d))
        (ground (arith, h.owner, e, ap is_positive h.value ∙ is_positive-level d))

-- A failed try leaves the mutex as it is.
fails_same : (i : ℕ) (s m : Semaphore) → mutex_trylock i s ≡ some (m, 0) → m ≡ s
unfolding mutex_trylock
fails_same i s m e = ground arith

is_holder : (s : System) (t d : ℕ) → Held s t d → (i : ℕ) → 0 < s.holds i → i ≡ t
is_holder s t d h i b = elim (ℕ_discrete i t) [
  | yes e ↦ e
  | no e ↦ absurd (omega (arith, h.others i e))
]

unlocks-Inv :
    (s : System) (i t d : ℕ)
    → Held s t d
    → 0 < s.holds i
    → Inv (record { mutex = (mutex_unlock s.mutex).0; holds = assign s.holds i (s.holds i - 1) })
unfolding mutex_unlock
unlocks-Inv s i t zero h b = absurd (ground (arith, is_holder s t 0 h i b, h.depth))
unlocks-Inv s i t (suc zero) h b =
    let e = is_holder s t 1 h i b in
    (
      t,
      0,
      record {
        value = ground (arith, h.value);
        owner = ground (arith, h.value);
        depth = ground (arith, e, h.depth);
        others = λ j d. ground (arith, e, h.others j d);
      },
    )
unlocks-Inv s i t (suc (suc k)) h b =
    let e = is_holder s t (suc (suc k)) h i b in
    let v : add_one s.mutex.value ≡ level (suc k) = ap add_one h.value ∙ add_one-level (suc k) in
    let x = ap is_positive v ∙ is_positive-level k in
    (
      t,
      suc k,
      record {
        value = ground (arith, v, x);
        owner = ground (arith, h.owner, x);
        depth = ground (arith, e, h.depth);
        others = λ j d. ground (arith, e, h.others j d);
      },
    )

Step-Inv : {s t : System} → Step s t → Inv s → Inv t
Step-Inv {s} (locks i {m} e) (t, d, h) = locks-Inv s i m t d h e
Step-Inv {s} (tries i {m} e) (t, d, h) = tries-Inv s i m t d h e
Step-Inv {s} (fails i {m} e) (t, d, h) = (
  t,
  d,
  rw (fails_same i s.mutex m e)
      (record { value = h.value; owner = h.owner; depth = h.depth; others = h.others }),
)
Step-Inv {s} (unlocks i b) (t, d, h) = unlocks-Inv s i t d h b

Reach-Inv : {s : System} → Reach s → Inv s
Reach-Inv start = init-Inv
Reach-Inv (later r st) = Step-Inv st (Reach-Inv r)

-- In every state that threads reach by locking, trying and unlocking what they hold, two threads
-- never both hold the mutex.
pub mutual_exclusion : {s : System} → Reach s → (i j : ℕ) → 0 < s.holds i → 0 < s.holds j → i ≡ j
mutual_exclusion {s} r i j bi bj =
    let (t, d, h) = Reach-Inv r in is_holder s t d h i bi ∙ sym (is_holder s t d h j bj)

waits-Held :
    (s : System) (i t d : ℕ)
    → Held s t d
    → (mutex_lock i s.mutex ≡ none) ↔ ((j : ℕ) × (j ≢ i) × (0 < s.holds j))
unfolding mutex_lock
waits-Held s i t zero h = (
  (λ e. absurd (ground (arith, h.value, h.owner, e))),
  λ (j, d, b). absurd (ground (arith, is_holder s t 0 h j b, h.depth)),
)
waits-Held s i t (suc d) h = (
  (λ e. (t, ground (arith, h.owner, e), omega (arith, h.depth))),
  λ (j, d', b).
      ground
        (arith, is_holder s t (suc d) h j b, h.owner, ap is_positive h.value ∙ is_positive-level d),
)

-- In every such state a call of `mutex_lock` sleeps exactly if another thread holds the mutex.
pub mutex_lock_waits :
    {s : System}
    → Reach s
    → (i : ℕ) → (mutex_lock i s.mutex ≡ none) ↔ ((j : ℕ) × (j ≢ i) × (0 < s.holds j))
mutex_lock_waits {s} r i = let (t, d, h) = Reach-Inv r in waits-Held s i t d h

trylock-Held : (s : System) (i t d : ℕ) → Held s t d → mutex_trylock i s.mutex ≢ none
unfolding mutex_trylock
trylock-Held s i t zero h e = ground (arith, h.value, h.owner, e)
trylock-Held s i t (suc d) h e = ground (arith, h.owner, e)

-- In every such state `mutex_trylock` returns without sleeping, although it calls `down`.
pub mutex_trylock_returns : {s : System} → Reach s → (i : ℕ) → mutex_trylock i s.mutex ≢ none
mutex_trylock_returns {s} r i = let (t, d, h) = Reach-Inv r in trylock-Held s i t d h

unlock-Held :
    (s : System) (i t d : ℕ)
    → Held s t d
    → 0 < s.holds i
    → ((mutex_unlock s.mutex).1 ≡ true) ↔ (s.holds i ≡ 1)
unfolding mutex_unlock
unlock-Held s i t zero h b = absurd (ground (arith, is_holder s t 0 h i b, h.depth))
unlock-Held s i t (suc zero) h b =
    let e = is_holder s t 1 h i b in
    ((λ _. ground (arith, e, h.depth)), λ _. ground (arith, h.value))
unlock-Held s i t (suc (suc k)) h b =
    let e = is_holder s t (suc (suc k)) h i b in
    let v = ap is_one (ap add_one h.value ∙ add_one-level (suc k)) ∙ is_one-level k in
    ((λ w. absurd (ground (arith, v, w))), λ w. absurd (ground (arith, e, h.depth, w)))

-- In every such state an unlock by a thread that holds the mutex wakes the sleepers exactly if it
-- is the thread's last one.
pub mutex_unlock_wakes :
    {s : System}
    → Reach s
    → (i : ℕ) → 0 < s.holds i
    → ((mutex_unlock s.mutex).1 ≡ true) ↔ (s.holds i ≡ 1)
mutex_unlock_wakes {s} r i b = let (t, d, h) = Reach-Inv r in unlock-Held s i t d h b
