-- ===== src/Vtuner/Reading.antt =====
-- What a reader of a connection gets, whatever number of bytes each call moves.
use Prim.Native.Nat.{min}
use webcamd.Prelude.{
  ℕ, zero, suc, ◌-◌, ◌^◌, ◌<◌, ◌≤◌, ◌≡◌, Bool, true, false, ◌==◌, List, [], ◌∷◌, ◌++◌, length, take,
  drop, refl, sym, ap, subst, ◌∙◌, arith, take-append-drop, length-take, length-drop,
}
use webcamd.Prelude.Stores.{assign, store}
use webcamd.Vtuner.Messages.{Memory, read32, vtuner_data_hdr_byteswap, in_field}
use webcamd.Vtuner.Stream.{Socket, read_call, fd_read, vtuner_magic, header, vtuners_write}

take-left {ℓ} :
    {A : Type ℓ} (k : ℕ) (xs ys : List A) → k ≤ length xs → take k (xs ++ ys) ≡ take k xs
take-left zero xs ys h = refl
take-left (suc k) [] ys h = absurd (omega (arith, h))
take-left (suc k) (x ∷ xs) ys h = ap (λ l. x ∷ l) (take-left k xs ys (omega (arith, h)))

drop-left {ℓ} :
    {A : Type ℓ} (k : ℕ) (xs ys : List A) → k ≤ length xs → drop k (xs ++ ys) ≡ drop k xs ++ ys
drop-left zero xs ys h = refl
drop-left (suc k) [] ys h = absurd (omega (arith, h))
drop-left (suc k) (x ∷ xs) ys h = drop-left k xs ys (omega (arith, h))

take_nil : (k : ℕ) → take {A = ℕ} k [] ≡ []
take_nil zero = refl
take_nil (suc k) = refl

drop_nil : (k : ℕ) → drop {A = ℕ} k [] ≡ []
drop_nil zero = refl
drop_nil (suc k) = refl

module _ (grant : ℕ → ℕ) (gives : (i : ℕ) → 0 < grant i) where
  fd_read-step :
      (r len : ℕ) (s : Socket)
      → 0 < len
      → 0 < length (read_call grant len s).0
      → fd_read grant (suc r) len s ≡ (
        (read_call grant len s).0
            ++ (fd_read grant r
                (len - length (read_call grant len s).0)
                (read_call grant len s).1).0,
        (fd_read grant r (len - length (read_call grant len s).0) (read_call grant len s).1).1,
      )
  unfolding fd_read
  fd_read-step r len s h k =
      let a : (len == 0) ≡ false = ground (arith, h) in
      let b : (length (read_call grant len s).0 == 0) ≡ false = ground (arith, k) in rw (a, b) refl

  -- The bytes `xs` were read, and `ys` stay.
  abbrev IsRead : List ℕ → List ℕ → List ℕ × (Bool × Socket) → Type 0
  IsRead xs ys q = (q.0 ≡ xs) × ((q.1.0 ≡ true) × (q.1.1.pending ≡ ys))

  fd_read-step_IsRead :
      (r : ℕ) (xs ys : List ℕ) (s : Socket)
      → 0 < length xs
      → s.pending ≡ xs ++ ys
      → ((k : ℕ) (t : Socket)
          → 0 < k
          → t.pending ≡ drop k xs ++ ys
          → IsRead (drop k xs) ys (fd_read grant r (length (drop k xs)) t))
      → IsRead xs ys (fd_read grant (suc r) (length xs) s)
  unfolding read_call
  fd_read-step_IsRead r xs ys s h e ih =
      let k = min (grant s.served) (length xs) in
      let t = (read_call grant (length xs) s).1 in
      let some_read : 0 < k = omega (arith, gives s.served, h) in
      let p : take k s.pending ≡ take k xs = ap (take k) e ∙ take-left k xs ys (omega arith) in
      let l : length (take k s.pending) ≡ k = omega (arith, ap length p, length-take k xs) in
      let d : drop k s.pending ≡ drop k xs ++ ys =
        ap (drop k) e ∙ drop-left k xs ys (omega arith) in
      let m : length (drop k xs) ≡ length xs - length (take k s.pending) =
        omega (arith, l, length-drop k xs) in
      let rest = subst (λ n. IsRead (drop k xs) ys (fd_read grant r n t)) m (ih k t some_read d) in
      subst (IsRead xs ys) (sym (fd_read-step r (length xs) s h (omega (arith, l, some_read)))) (
        (
          ap (λ l. l ++ (fd_read grant r (length xs - length (take k s.pending)) t).0) p
              ∙ ap (λ l. take k xs ++ l) rest.0
              ∙ take-append-drop k xs,
          rest.1,
        ))

  -- Where the bytes that are asked for are there, they are read, and the others stay.
  fd_read-all :
      (r : ℕ) (xs ys : List ℕ) (s : Socket)
      → length xs ≤ r
      → s.pending ≡ xs ++ ys
      → IsRead xs ys (fd_read grant r (length xs) s)
  unfolding fd_read
  fd_read-all zero [] ys s h e = (refl, (refl, e))
  fd_read-all zero (x ∷ xs) ys s h e = absurd (omega (arith, h))
  fd_read-all (suc r) [] ys s h e = (refl, (refl, e))
  fd_read-all (suc r) (x ∷ xs) ys s h e =
      fd_read-step_IsRead r (x ∷ xs) ys s (omega arith) e (λ k t l d.
        fd_read-all r (drop k (x ∷ xs)) ys t (omega (arith, h, l, length-drop k (x ∷ xs))) d)

  pub fd_read-len :
      (r len : ℕ) (xs ys : List ℕ) (s : Socket)
      → length xs ≡ len
      → len ≤ r
      → s.pending ≡ xs ++ ys
      → IsRead xs ys (fd_read grant r len s)
  fd_read-len r len xs ys s l h e =
      subst (λ n. IsRead xs ys (fd_read grant r n s)) l
        (fd_read-all r xs ys s (omega (arith, l, h)) e)

  -- At the end of the connection nothing is read.
  pub fd_read-none :
      (r len : ℕ) (s : Socket)
      → 0 < len
      → s.pending ≡ []
      → let q = fd_read grant (suc r) len s in (q.0 ≡ []) × ((q.1.0 ≡ false) × (q.1.1.pending ≡ []))
  unfolding fd_read read_call
  fd_read-none r len s h e =
      let k = min (grant s.served) len in
      let t = ap (take k) e ∙ take_nil k in
      let d : drop k s.pending ≡ [] = ap (drop k) e ∙ drop_nil k in
      let a : (len == 0) ≡ false = ground (arith, h) in
      let b : (length (take k s.pending) == 0) ≡ true = ap (λ l. length l == 0) t in
      rw (a, b) (refl, (refl, d))

  -- Everything is written.
  pub vtuners_write-all :
      (r turn : ℕ) (bs : List ℕ)
      → length bs ≤ r
      → let w = vtuners_write grant r turn bs in (w.0 ≡ bs) × (w.1.0 ≡ true)
  unfolding vtuners_write
  vtuners_write-all zero turn [] h = (refl, refl)
  vtuners_write-all zero turn (b ∷ bs) h = absurd (omega (arith, h))
  vtuners_write-all (suc r) turn [] h = (refl, refl)
  vtuners_write-all (suc r) turn (b ∷ bs) h =
      let k = min (grant turn) (length (b ∷ bs)) in
      let some_written : 0 < k = omega (arith, gives turn) in
      let (all, ok) =
        vtuners_write-all r (suc turn) (drop k (b ∷ bs))
          (omega (arith, h, some_written, length-drop k (b ∷ bs))) in
      let x : (length (b ∷ bs) == 0) ≡ false = ground arith in
      let y : (k == 0) ≡ false = ground (arith, some_written) in
      rw (x, y) (ap (λ l. take k (b ∷ bs) ++ l) all ∙ take-append-drop k (b ∷ bs), ok)

-- The header of a frame, as the client reads it in its buffer.
pub store-header_little :
    (n : ℕ) (m : Memory)
    → n < 2 ^ 32
    → (read32 (store (header true n) 0 m) 0 ≡ vtuner_magic)
      × (read32 (store (header true n) 0 m) 4 ≡ n)
unfolding read32 store header assign
store-header_little n m h = (refl, omega (arith, h))

pub store-header_big :
    (n : ℕ) (m : Memory)
    → n < 2 ^ 32
    → let b = store (header false n) 0 m in
      (read32 b 0 ≡ 0x4e555456)
      × ((read32 (vtuner_data_hdr_byteswap b) 0 ≡ vtuner_magic)
          × (read32 (vtuner_data_hdr_byteswap b) 4 ≡ n))
unfolding read32 store header assign vtuner_data_hdr_byteswap in_field
store-header_big n m h = (refl, (refl, omega (arith, h)))
