-- ===== src/Vtuner/Local.antt =====
-- Changes of memory that are confined to some bytes and undo themselves.
use webcamd.Prelude.{
  ℕ, ◌+◌, ◌-◌, ◌≡◌, Bool, true, false, ◌||◌, refl, sym, fun_ext, ◌⊎◌, ◌∙◌, arith, Bool-cases, inl,
  inr,
}
use webcamd.Vtuner.Messages.{Memory, Field, in_field, bswap}

-- Two memories with the same bytes where `here` says so.
abbrev pub Agree : (ℕ → Bool) → Memory → Memory → Type 0
Agree here m m' = (i : ℕ) → here i ≡ true → m i ≡ m' i

-- `f` changes no byte elsewhere, reads none elsewhere for those that it changes, and undoes itself.
pub record Local (here : ℕ → Bool) (f : Memory → Memory) : Type 0 where
  pub outside : (m : Memory) (i : ℕ) → here i ≡ false → f m i ≡ m i
  pub inside : (m m' : Memory) → Agree here m m' → Agree here (f m) (f m')
  pub back : (m : Memory) → Agree here (f (f m)) m

abbrev pub either : (ℕ → Bool) → (ℕ → Bool) → ℕ → Bool
either s t i = s i || t i

abbrev pub Apart : (ℕ → Bool) → (ℕ → Bool) → Type 0
Apart s t = (i : ℕ) → s i ≡ true → t i ≡ false

pub bswap-Local : (f : Field) → Local (in_field f) (bswap f)
unfolding in_field bswap
bswap-Local f = record {
  outside = λ m i h. ground (arith, h);
  inside = λ m m' a i h. ground (arith, a (f.offset + f.offset + f.width - 1 - i), h);
  back = λ m i h. ground (arith, h);
}

pub same-Local : Local (λ i. false) (λ m. m)
same-Local = record { outside = λ m i h. refl; inside = λ m m' a i h. a i h; back = λ m i h. refl }

-- The bytes of the second are left alone by the first.
flip-Apart : {s t : ℕ → Bool} → Apart s t → Apart t s
flip-Apart {s} {t} apart i h = elim (Bool-cases (s i)) [
  | inl e ↦ ground (arith, apart i e)
  | inr e ↦ e
]

either-split : (a b : Bool) → a || b ≡ true → (a ≡ true) ⊎ (b ≡ true)
either-split true b h = inl refl
either-split false b h = inr h

neither : (a b : Bool) → a || b ≡ false → (a ≡ false) × (b ≡ false)
neither true b h = ground arith
neither false b h = (refl, h)

pub compose-Local :
    {s t : ℕ → Bool} {f g : Memory → Memory}
    → Apart s t
    → Local s f
    → Local t g
    → Local (either s t) (λ m. g (f m))
compose-Local {s} {t} {f} {g} apart p q =
    let apart' = flip-Apart apart in
    record {
      outside =
          λ m i h. let (a, b) = neither (s i) (t i) h in q.outside (f m) i b ∙ p.outside m i a;
      inside = λ m m' a i h. elim (either-split (s i) (t i) h) [
        | inl e ↦
            q.outside (f m) i (apart i e)
            ∙ p.inside m m' (λ j d. a j (ground arith)) i e
            ∙ sym (q.outside (f m') i (apart i e))
        | inr e ↦
            q.inside (f m) (f m')
              (λ j d.
                p.outside m j (apart' j d) ∙ a j (ground arith) ∙ sym (p.outside m' j (apart' j d)))
              i e
      ];
      back = λ m i h. elim (either-split (s i) (t i) h) [
        | inl e ↦
            q.outside (f (g (f m))) i (apart i e)
            ∙ p.inside (g (f m)) (f m) (λ j d. q.outside (f m) j (apart j d)) i e
            ∙ p.back m i e
        | inr e ↦
            q.inside (f (g (f m))) (g (f m)) (λ j d. p.outside (g (f m)) j (apart' j d)) i e
            ∙ q.back (f m) i e
            ∙ p.outside m i (apart' i e)
      ];
    }

pub widen-Local :
    {s t : ℕ → Bool} {f : Memory → Memory}
    → ((i : ℕ) → s i ≡ true → t i ≡ true)
    → Local s f
    → Local t f
widen-Local {s} {t} {f} wider p = record {
  outside = λ m i h. elim (Bool-cases (s i)) [
    | inl e ↦ ground (arith, wider i e)
    | inr e ↦ p.outside m i e
  ];
  inside = λ m m' a i h. elim (Bool-cases (s i)) [
    | inl e ↦ p.inside m m' (λ j d. a j (wider j d)) i e
    | inr e ↦ p.outside m i e ∙ a i h ∙ sym (p.outside m' i e)
  ];
  back = λ m i h. elim (Bool-cases (s i)) [
    | inl e ↦ p.back m i e
    | inr e ↦ p.outside (f m) i e ∙ p.outside m i e
  ];
}

-- Done twice, the change is undone everywhere.
pub Local-twice : {s : ℕ → Bool} {f : Memory → Memory} → Local s f → (m : Memory) → f (f m) ≡ m
Local-twice {s} {f} p m = fun_ext λ i. elim (Bool-cases (s i)) [
  | inl e ↦ p.back m i e
  | inr e ↦ p.outside (f m) i e ∙ p.outside m i e
]
