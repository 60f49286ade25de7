-- ===== src/Timer/Clock.antt =====
-- `get_jiffies_64` of kernel/linux_timer.c.
use webcamd.Prelude.{
  ℕ, ◌+◌, ◌-◌, ◌*◌, ◌/◌, ◌%◌, ◌^◌, ◌<◌, ◌≡◌, ltb, if◌then◌else◌, List, [], ◌∷◌, arith, refl, ◌∙◌,
}

-- `timer_last.tv_nsec`, `timer_nsec_rem` and `jiffies64`.
pub record Clock : Type 0 where
  pub last_nsec : ℕ
  pub nsec_rem : ℕ
  pub jiffies64 : ℕ

-- DIV, the nanoseconds of a tick.
abbrev pub div : ℕ
div = 1000000000 / 1000

-- The `delta` of two readings of `tv_nsec`, with the wrap at a second and the range checks.
unfoldable pub elapsed : ℕ → ℕ → ℕ
elapsed last now =
    let delta : ℕ = if ltb now last then now + 1000000000 - last else now - last in
    if ltb 999999999 delta then 999999999 else delta

-- For a reading with the given `tv_nsec`; the value returned is `jiffies64`.
unfoldable pub get_jiffies_64 : ℕ → Clock → Clock
get_jiffies_64 now c =
    let rem = (c.nsec_rem + elapsed c.last_nsec now) % 2 ^ 32 in
    let ticks = rem / div in
    let nsec_rem : ℕ = if ltb 0 ticks then rem % div else rem in
    let jiffies64 : ℕ = if ltb 0 ticks then (c.jiffies64 + ticks) % 2 ^ 64 else c.jiffies64 in
    record { last_nsec = now; nsec_rem = nsec_rem; jiffies64 = jiffies64 }

-- Calls at the given distances in nanoseconds, the last call having been at `time`.
abbrev pub read_clock : List ℕ → ℕ → Clock → Clock
read_clock [] time c = c
read_clock (gap ∷ gaps) time c =
    read_clock gaps (time + gap) (get_jiffies_64 ((time + gap) % 1000000000) c)

abbrev pub total : List ℕ → ℕ
total [] = 0
total (gap ∷ gaps) = gap + total gaps

abbrev pub AreShort : List ℕ → Type 0
AreShort [] = Unit
AreShort (gap ∷ gaps) = (gap < 1000000000) × AreShort gaps

-- The nanoseconds that the clock has counted.
abbrev pub counted : Clock → ℕ
counted c = c.jiffies64 * div + c.nsec_rem

elapsed_lem :
    (gap time last : ℕ)
    → gap < 1000000000
    → last ≡ time % 1000000000
    → elapsed last ((time + gap) % 1000000000) ≡ gap
unfolding elapsed
elapsed_lem gap time last g l = ground arith

read_once :
    (gap time : ℕ) (c : Clock)
    → gap < 1000000000
    → c.last_nsec ≡ time % 1000000000
    → c.nsec_rem < div
    → counted c + gap < 2 ^ 64
    → (counted (get_jiffies_64 ((time + gap) % 1000000000) c) ≡ counted c + gap)
      × ((get_jiffies_64 ((time + gap) % 1000000000) c).nsec_rem < div)
unfolding get_jiffies_64
read_once gap time c g l r b = let e = elapsed_lem gap time c.last_nsec g l in ground (arith, e, l)

-- Calls less than a second apart lose no time, however short the distances are: what the clock
-- counts, in ticks and the remainder, grows by the time that passed, and the remainder stays below
-- a tick.
pub get_jiffies_64_exact :
    (gaps : List ℕ) (time : ℕ) (c : Clock)
    → AreShort gaps
    → c.last_nsec ≡ time % 1000000000
    → c.nsec_rem < div
    → counted c + total gaps < 2 ^ 64
    → (counted (read_clock gaps time c) ≡ counted c + total gaps)
      × ((read_clock gaps time c).nsec_rem < div)
unfolding get_jiffies_64
get_jiffies_64_exact [] time c s l r b = (omega arith, r)
get_jiffies_64_exact (gap ∷ gaps) time c (s, ss) l r b =
    let (e, r') = read_once gap time c s l r (omega arith) in
    let (f, r'') =
      get_jiffies_64_exact gaps (time + gap) (get_jiffies_64 ((time + gap) % 1000000000) c) ss refl
        r' (omega (arith, e)) in
    (f ∙ omega (arith, e), r'')
