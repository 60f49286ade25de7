-- ===== src/Examples/Buffers.antt =====
-- Copies between buffers of kernel/linux_func.c.
use webcamd.Prelude.{ℕ, ◌≡◌, ◌<◌, ◌-◌, ◌+◌, List, [], ◌∷◌, length, take, drop, refl, arith}
use webcamd.Prelude.Int.{pos}
use webcamd.Buffer.Copies.{
  clip, read_at, simple_read_from_buffer, put, write_at, simple_write_to_buffer,
  memory_read_from_buffer,
}
use webcamd.Buffer.RoundTrip.{Progresses, simple_write_to_buffer-read}

abbrev buffer : List ℕ
buffer = 1 ∷ 2 ∷ 3 ∷ 4 ∷ 5 ∷ []

abbrev user : List ℕ
user = 7 ∷ 8 ∷ 9 ∷ []

-- A copy that stops after two bytes.
abbrev copy_two : List ℕ → ℕ
copy_two xs = length xs - 2

copy_two-Progresses : Progresses copy_two
copy_two-Progresses xs h = omega arith

simple_write_to_buffer-read_example :
    let w = simple_write_to_buffer copy_two (pos 1) buffer user in
    (k : ℕ) × (0 < k)
    × (w.answer ≡ pos k)
    × (w.ppos ≡ pos (1 + k))
    × (length w.bytes ≡ length buffer)
    × (take 1 w.bytes ≡ take 1 buffer)
    × (drop (1 + k) w.bytes ≡ drop (1 + k) buffer)
    × ((simple_read_from_buffer (λ _. 0) k (pos 1) w.bytes).bytes ≡ take k user)
    × ((memory_read_from_buffer k (pos 1) w.bytes).bytes ≡ take k user)
simple_write_to_buffer-read_example =
    simple_write_to_buffer-read copy_two 1 buffer user copy_two-Progresses (omega arith)
      (omega arith)

write_test : (simple_write_to_buffer copy_two (pos 1) buffer user).bytes ≡ 1 ∷ 7 ∷ 8 ∷ 4 ∷ 5 ∷ []
unfolding simple_write_to_buffer write_at clip put
write_test = refl

-- A read past the end is cut down to what is left.
read_test : (simple_read_from_buffer (λ _. 0) 9 (pos 3) buffer).answer ≡ pos 2
unfolding simple_read_from_buffer read_at clip
read_test = refl
