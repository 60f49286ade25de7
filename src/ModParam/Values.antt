-- ===== src/ModParam/Values.antt =====
-- Reading a module parameter that was set (kernel/linux_mod_param.c).
use webcamd.Prelude.{
  ℕ, ◌≡◌, ◌≢◌, true, false, if◌then◌else◌, Option, none, some, List, [], ◌∷◌, refl, sym, ap, ◌∙◌,
  subst, arith, Bool-cases, inl, inr,
}
use webcamd.Prelude.Int.{ℤ, pos}
use webcamd.ModParam.Params.{
  Kind, string, short, ushort, int, bool, uint, charp, other, ModParam, same_name, set_value,
  stored, mod_set_param, int16, int32, get_value, mod_get_int_param,
}
use webcamd.ModParam.Reading.{
  IsInt, IsRead, int16-IsInt, int32-IsInt, strlcpy_lem, same_name_sound, text_or, number_or,
  param_or, name_or, kind_or,
}

abbrev pub find : List ℕ → List ModParam → Option ModParam
find name [] = none
find name (p ∷ ps) = if same_name p.name name then some p else find name ps

module _ (strtoul : List ℕ → ℕ) (atoi : List ℕ → ℤ) (name value : List ℕ) where
  get_head :
      (p : ModParam) (ps : List ModParam) (k : Kind)
      → same_name p.name name ≡ true
      → p.kind ≡ k
      → mod_get_int_param atoi name (p ∷ ps) ≡ get_value atoi p k
  unfolding mod_get_int_param
  get_head p ps k e f =
      ap (λ b. if b then get_value atoi p p.kind else mod_get_int_param atoi name ps) e
      ∙ ap (get_value atoi p) f

  get_tail :
      (p : ModParam) (ps : List ModParam)
      → same_name p.name name ≡ false
      → mod_get_int_param atoi name (p ∷ ps) ≡ mod_get_int_param atoi name ps
  unfolding mod_get_int_param
  get_tail p ps e =
      ap (λ b. if b then get_value atoi p p.kind else mod_get_int_param atoi name ps) e

  reads :
      (k : Kind) (p p' : ModParam)
      → set_value strtoul value p k ≡ some p'
      → IsRead atoi value (strtoul value) p k (get_value atoi p' k)
  unfolding set_value get_value
  reads string p p' e = ap atoi (sym (ap (text_or p) e) ∙ strlcpy_lem p.text value p.size)
  reads short p p' e =
      subst (λ m. IsInt 16 (strtoul value) (int16 m)) (ap (number_or p) e)
        (int16-IsInt (strtoul value))
  reads ushort p p' e = ap pos (sym (ap (number_or p) e))
  reads int p p' e =
      subst (λ m. IsInt 32 (strtoul value) (int32 m)) (ap (number_or p) e)
        (int32-IsInt (strtoul value))
  reads bool p p' e = ground (arith, ap (number_or p) e)
  reads uint p p' e =
      subst (λ m. IsInt 32 (strtoul value) (int32 m)) (ap (number_or p) e)
        (int32-IsInt (strtoul value))
  reads charp p p' e = refl
  reads other p p' e = refl

  kept :
      (k : Kind) (p p' : ModParam)
      → set_value strtoul value p k ≡ some p'
      → (p'.name ≡ p.name) × (p'.kind ≡ p.kind)
  unfolding set_value
  kept string p p' e = (ap (name_or p) (sym e), ap (kind_or p) (sym e))
  kept short p p' e = (ap (name_or p) (sym e), ap (kind_or p) (sym e))
  kept ushort p p' e = (ap (name_or p) (sym e), ap (kind_or p) (sym e))
  kept int p p' e = (ap (name_or p) (sym e), ap (kind_or p) (sym e))
  kept bool p p' e = (ap (name_or p) (sym e), ap (kind_or p) (sym e))
  kept uint p p' e = (ap (name_or p) (sym e), ap (kind_or p) (sym e))
  kept charp p p' e = (ap (name_or p) (sym e), ap (kind_or p) (sym e))
  kept other p p' e = absurd (ground (arith, e))

  refused :
      (k : Kind) (p : ModParam)
      → set_value strtoul value p k ≡ none
      → IsRead atoi value (strtoul value) p k (get_value atoi p k)
  unfolding set_value get_value
  refused other p e = refl
  refused _ p e = absurd (ground (arith, e))

  -- The parameter that `mod_set_param` finds, once it is set or refused.
  stored_reads :
      (p : ModParam) (ps : List ModParam) (o : Option ModParam)
      → set_value strtoul value p p.kind ≡ o
      → same_name p.name name ≡ true
      → IsRead atoi value (strtoul value) p p.kind (mod_get_int_param atoi name (stored p ps o).0)
  unfolding stored
  stored_reads p ps none e m =
      subst (IsRead atoi value (strtoul value) p p.kind) (sym (get_head p ps p.kind m refl))
        (refused p.kind p e)
  stored_reads p ps (some p') e m =
      let (n, k) = kept p.kind p p' e in
      subst (IsRead atoi value (strtoul value) p p.kind)
        (sym (get_head p' ps p.kind (ap (λ a. same_name a name) n ∙ m) k)) (reads p.kind p p' e)

  set_head :
      (p : ModParam) (ps : List ModParam)
      → same_name p.name name ≡ true
      → mod_set_param strtoul name value (p ∷ ps) ≡ stored p ps (set_value strtoul value p p.kind)
  unfolding mod_set_param
  set_head p ps e = rw e refl

  set_tail :
      (p : ModParam) (ps : List ModParam)
      → same_name p.name name ≡ false
      → mod_set_param strtoul name value (p ∷ ps)
        ≡ (p ∷ (mod_set_param strtoul name value ps).0, (mod_set_param strtoul name value ps).1)
  unfolding mod_set_param
  set_tail p ps e = rw e refl

  find_head :
      (q p : ModParam) (ps : List ModParam)
      → find name (q ∷ ps) ≡ some p
      → same_name q.name name ≡ true
      → q ≡ p
  find_head q p ps f e = ap (param_or q) (sym (ap (λ b. if b then some q else find name ps) e) ∙ f)

  find_tail :
      (q p : ModParam) (ps : List ModParam)
      → find name (q ∷ ps) ≡ some p
      → same_name q.name name ≡ false
      → find name ps ≡ some p
  find_tail q p ps f e = sym (ap (λ b. if b then some q else find name ps) e) ∙ f

  -- After `mod_set_param` the first parameter of that name reads, through `mod_get_int_param`, as
  -- what its type can hold of the value that was set: an int, a uint or a short as the two's
  -- complement number with the value's low 32 or 16 bits, a ushort as those bits, a truth value as 0 or 1, a string as
  -- what `atoi` makes of the characters that have room, and any other type as 0.
  pub mod_set_param-IsRead :
      (p : ModParam) (ps : List ModParam)
      → find name ps ≡ some p
      → IsRead atoi value
          (strtoul value)
          p
          p.kind
          (mod_get_int_param atoi name (mod_set_param strtoul name value ps).0)
  mod_set_param-IsRead p [] f = absurd (ground (arith, f))
  mod_set_param-IsRead p (q ∷ ps) f = elim (Bool-cases (same_name q.name name)) [
    | inl e ↦
        subst
          (λ r.
            IsRead atoi value (strtoul value) r r.kind
              (mod_get_int_param atoi name (mod_set_param strtoul name value (q ∷ ps)).0))
          (find_head q p ps f e)
          (subst (λ r. IsRead atoi value (strtoul value) q q.kind (mod_get_int_param atoi name r.0))
            (sym (set_head q ps e)) (stored_reads q ps (set_value strtoul value q q.kind) refl e))
    | inr e ↦
        subst (λ r. IsRead atoi value (strtoul value) p p.kind (mod_get_int_param atoi name r.0))
          (sym (set_tail q ps e))
          (subst (IsRead atoi value (strtoul value) p p.kind)
            (sym (get_tail q (mod_set_param strtoul name value ps).0 e))
            (mod_set_param-IsRead p ps (find_tail q p ps f e)))
  ]

  skip :
      (n : List ℕ) (p : ModParam) (ps : List ModParam)
      → same_name p.name n ≡ false
      → mod_get_int_param atoi n (p ∷ ps) ≡ mod_get_int_param atoi n ps
  unfolding mod_get_int_param
  skip n p ps e = ap (λ b. if b then get_value atoi p p.kind else mod_get_int_param atoi n ps) e

  stored_skip :
      (n : List ℕ) (p : ModParam) (ps : List ModParam) (o : Option ModParam)
      → set_value strtoul value p p.kind ≡ o
      → same_name p.name n ≡ false
      → mod_get_int_param atoi n (stored p ps o).0 ≡ mod_get_int_param atoi n ps
  unfolding stored
  stored_skip n p ps none e d = skip n p ps d
  stored_skip n p ps (some p') e d =
      skip n p' ps (ap (λ a. same_name a n) (kept p.kind p p' e).0 ∙ d)

  other_name : (a n : List ℕ) → name ≢ n → same_name a name ≡ true → same_name a n ≡ false
  other_name a n d e = elim (Bool-cases (same_name a n)) [
    | inl x ↦ absurd (d (sym (same_name_sound a name e) ∙ same_name_sound a n x))
    | inr x ↦ x
  ]

  under_head :
      (n : List ℕ) (p : ModParam) (ps qs : List ModParam)
      → mod_get_int_param atoi n ps ≡ mod_get_int_param atoi n qs
      → mod_get_int_param atoi n (p ∷ ps) ≡ mod_get_int_param atoi n (p ∷ qs)
  unfolding mod_get_int_param
  under_head n p ps qs e = ap (λ r. if same_name p.name n then get_value atoi p p.kind else r) e

  -- Setting a parameter leaves what the parameters of every other name read as, whether it is found
  -- and of a known kind or not.
  pub mod_set_param-others :
      (n : List ℕ) (ps : List ModParam)
      → name ≢ n
      → mod_get_int_param atoi n (mod_set_param strtoul name value ps).0
        ≡ mod_get_int_param atoi n ps
  unfolding mod_set_param
  mod_set_param-others n [] d = refl
  mod_set_param-others n (p ∷ ps) d = elim (Bool-cases (same_name p.name name)) [
    | inl e ↦
        let x = other_name p.name n d e in
        ap (λ r. mod_get_int_param atoi n r.0) (set_head p ps e)
        ∙ stored_skip n p ps (set_value strtoul value p p.kind) refl x
        ∙ sym (skip n p ps x)
    | inr e ↦
        ap (λ r. mod_get_int_param atoi n r.0) (set_tail p ps e)
        ∙ under_head n p (mod_set_param strtoul name value ps).0 ps (mod_set_param-others n ps d)
  ]
