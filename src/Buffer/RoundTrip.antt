-- ===== src/Buffer/RoundTrip.antt =====
-- What is written to a buffer is read from it.
use webcamd.Prelude.{
  ℕ, zero, suc, ◌+◌, ◌-◌, ◌<◌, ◌≤◌, ◌≡◌, ◌||◌, false, ◌==◌, leb, List, [], ◌∷◌, ◌++◌, length, take,
  drop, length-take, length-drop, length-append, append_assoc, subst, refl, ap, sym, ◌∙◌, arith,
}
use webcamd.Prelude.Int.{pos}
use webcamd.Buffer.Copies.{
  Copied, clip, read_at, simple_read_from_buffer, put, write_at, simple_write_to_buffer,
  memory_read_from_buffer,
}

take-append : (n : ℕ) (xs ys : List ℕ) → length xs ≡ n → take n (xs ++ ys) ≡ xs
take-append zero [] ys h = refl
take-append zero (x ∷ xs) ys h = absurd (omega arith)
take-append (suc n) [] ys h = absurd (omega arith)
take-append (suc n) (x ∷ xs) ys h = ap (λ q. x ∷ q) (take-append n xs ys (omega arith))

drop-append : (n : ℕ) (xs ys : List ℕ) → length xs ≡ n → drop n (xs ++ ys) ≡ ys
drop-append zero [] ys h = refl
drop-append zero (x ∷ xs) ys h = absurd (omega arith)
drop-append (suc n) [] ys h = absurd (omega arith)
drop-append (suc n) (x ∷ xs) ys h = drop-append n xs ys (omega arith)

length-take_some : (n : ℕ) (xs : List ℕ) → n ≤ length xs → length (take n xs) ≡ n
length-take_some n xs h = ground (arith, length-take n xs)

module _ (p : ℕ) (ys to : List ℕ) (room : p + length ys ≤ length to) where
  length-put : length (put p ys to) ≡ length to
  unfolding put
  length-put = omega (
    arith,
    length-append (take p to) (ys ++ drop (p + length ys) to),
    length-append ys (drop (p + length ys) to),
    length-take_some p to (omega arith),
    length-drop (p + length ys) to,
  )

  take-put : take p (put p ys to) ≡ take p to
  unfolding put
  take-put = take-append p (take p to) _ (length-take_some p to (omega arith))

  drop-put : drop p (put p ys to) ≡ ys ++ drop (p + length ys) to
  unfolding put
  drop-put = drop-append p (take p to) _ (length-take_some p to (omega arith))

  drop-put_end : drop (p + length ys) (put p ys to) ≡ drop (p + length ys) to
  unfolding put
  drop-put_end =
      ap (drop (p + length ys)) (sym (append_assoc (take p to) ys (drop (p + length ys) to)))
      ∙ drop-append (p + length ys) (take p to ++ ys) _
          (omega (arith, length-append (take p to) ys, length-take_some p to (omega arith)))

read_at-put :
    (k p : ℕ) (ys to : List ℕ)
    → length ys ≡ k
    → 0 < k
    → p + k ≤ length to
    → (read_at (λ _. 0) k p (put p ys to)).bytes ≡ ys
unfolding read_at clip
read_at-put k p ys to e some_left room =
    let same = length-put p ys to (omega arith) in
    ground
      (arith, same, drop-put p ys to (omega arith), take-append k ys (drop (p + length ys) to) e)

memory_read-put :
    (k p : ℕ) (ys to : List ℕ)
    → length ys ≡ k
    → 0 < k
    → p + k ≤ length to
    → (memory_read_from_buffer k (pos p) (put p ys to)).bytes ≡ ys
unfolding memory_read_from_buffer clip
memory_read-put k p ys to e some_left room =
    let same = length-put p ys to (omega arith) in
    ground
      (arith, same, drop-put p ys to (omega arith), take-append k ys (drop (p + length ys) to) e)

clip-bounds :
    (count available p : ℕ)
    → p < available
    → 0 < count
    → (0 < clip count available p)
      × (clip count available p ≤ count)
      × (p + clip count available p ≤ available)
unfolding clip
clip-bounds count available p h k = (ground arith, ground arith, ground arith)

-- What write_at does where it copies `k` bytes.
Writes : ℕ → List ℕ → List ℕ → ℕ → Copied → Type 0
Writes p to from k w =
    (w.answer ≡ pos k) × (w.ppos ≡ pos (p + k)) × (w.bytes ≡ put p (take k from) to)

write_at-Writes :
    (copy : List ℕ → ℕ) (p : ℕ) (to from : List ℕ)
    → let n = clip (length from) (length to) p in
      p < length to
      → 0 < length from
      → copy (take n from) < n
      → Writes p to from (n - copy (take n from)) (write_at copy p to from)
unfolding write_at Writes
write_at-Writes copy p to from h k less =
    let n = clip (length from) (length to) p in
    let ret = copy (take n from) in
    let some_room : leb (length to) p || (length from == 0) ≡ false = ground arith in
    let some_copied : (ret == n) ≡ false = ground arith in
    (
      rw some_room (rw some_copied refl),
      rw some_room (rw some_copied refl),
      rw some_room (rw some_copied refl),
    )

-- A copy that gets some bytes across leaves fewer than it was given.
abbrev pub Progresses : (List ℕ → ℕ) → Type 0
Progresses copy = (xs : List ℕ) → 0 < length xs → copy xs < length xs

-- A write at a place within the buffer, with a copy that gets some bytes across, answers how many it
-- wrote, at least one, and moves `*ppos` on by them; the buffer keeps its length and its bytes before
-- and behind them. A read of as many bytes at that place, that copies all of them, and
-- memory_read_from_buffer give them back.
pub simple_write_to_buffer-read :
    (copy : List ℕ → ℕ) (p : ℕ) (to from : List ℕ)
    → Progresses copy
    → p < length to
    → 0 < length from
    → let w = simple_write_to_buffer copy (pos p) to from in
      (k : ℕ) × (0 < k)
      × (w.answer ≡ pos k)
      × (w.ppos ≡ pos (p + k))
      × (length w.bytes ≡ length to)
      × (take p w.bytes ≡ take p to)
      × (drop (p + k) w.bytes ≡ drop (p + k) to)
      × ((simple_read_from_buffer (λ _. 0) k (pos p) w.bytes).bytes ≡ take k from)
      × ((memory_read_from_buffer k (pos p) w.bytes).bytes ≡ take k from)
unfolding simple_write_to_buffer simple_read_from_buffer Writes
simple_write_to_buffer-read copy p to from progress h some_left =
    let n = clip (length from) (length to) p in
    let (n_pos, n_from, n_to) = clip-bounds (length from) (length to) p h some_left in
    let size : length (take n from) ≡ n = length-take_some n from n_from in
    let less : copy (take n from) < n = omega (arith, progress (take n from) (omega arith)) in
    let k = n - copy (take n from) in
    let len : length (take k from) ≡ k = length-take_some k from (omega arith) in
    let (answer, moved, bytes) = write_at-Writes copy p to from h some_left less in
    let room : p + length (take k from) ≤ length to = omega arith in
    let fits : p + k ≤ length to = omega arith in
    let k_pos : 0 < k = omega arith in
    (
      k,
      k_pos,
      answer,
      moved,
      ap length bytes ∙ length-put p (take k from) to room,
      ap (take p) bytes ∙ take-put p (take k from) to room,
      ap (drop (p + k)) bytes
          ∙ subst (λ (m : ℕ). drop (p + m) (put p (take k from) to) ≡ drop (p + m) to) len
              (drop-put_end p (take k from) to room),
      ap (λ (b : List ℕ). (read_at (λ _. 0) k p b).bytes) bytes
          ∙ read_at-put k p (take k from) to len k_pos fits,
      ap (λ (b : List ℕ). (memory_read_from_buffer k (pos p) b).bytes) bytes
          ∙ memory_read-put k p (take k from) to len k_pos fits,
    )
