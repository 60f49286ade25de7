-- ===== src/Buffer/Copies.antt =====
-- simple_read_from_buffer, simple_write_to_buffer and memory_read_from_buffer of
-- kernel/linux_func.c. A buffer is the list of its `available` bytes.
use webcamd.Prelude.{
  ℕ, ◌+◌, ◌-◌, ◌||◌, ◌==◌, leb, ltb, if◌then◌else◌, List, [], ◌++◌, length, take, drop,
}
use webcamd.Prelude.Int.{ℤ, pos, negsuc}

-- The answer of a call, `*ppos` after it, and the bytes of `to` that it wrote, or the buffer.
pub record Copied : Type 0 where
  pub answer : ℤ
  pub ppos : ℤ
  pub bytes : List ℕ

abbrev pub einval : ℤ
einval = negsuc 21

abbrev pub efault : ℤ
efault = negsuc 13

-- `count` cut down to what is left of the buffer.
unfoldable pub clip : ℕ → ℕ → ℕ → ℕ
clip count available p = if ltb (available - p) count then available - p else count

-- `copy` answers how many of the bytes that it is given copy_to_user could not copy.
unfoldable pub read_at : (List ℕ → ℕ) → ℕ → ℕ → List ℕ → Copied
read_at copy count p from =
    if leb (length from) p || (count == 0)
    then record { answer = pos 0; ppos = pos p; bytes = [] }
    else (let n = clip count (length from) p in
        let ret = copy (take n (drop p from)) in
        if ret == n then record { answer = efault; ppos = pos p; bytes = [] } else record {
          answer = pos (n - ret);
          ppos = pos (p + (n - ret));
          bytes = take (n - ret) (drop p from);
        })

unfoldable pub simple_read_from_buffer : (List ℕ → ℕ) → ℕ → ℤ → List ℕ → Copied
unfolding read_at
simple_read_from_buffer copy count (negsuc p) from = record {
  answer = einval;
  ppos = negsuc p;
  bytes = [];
}
simple_read_from_buffer copy count (pos p) from = read_at copy count p from

-- `ys` in the place of as many bytes from `p` on.
unfoldable pub put : ℕ → List ℕ → List ℕ → List ℕ
put p ys to = take p to ++ (ys ++ drop (p + length ys) to)

-- `from` is the bytes from the address on, as many as `count`, and `bytes` the buffer afterwards.
unfoldable pub write_at : (List ℕ → ℕ) → ℕ → List ℕ → List ℕ → Copied
write_at copy p to from =
    if leb (length to) p || (length from == 0)
    then record { answer = pos 0; ppos = pos p; bytes = to }
    else (let n = clip (length from) (length to) p in
        let ret = copy (take n from) in
        if ret == n then record { answer = efault; ppos = pos p; bytes = to } else record {
          answer = pos (n - ret);
          ppos = pos (p + (n - ret));
          bytes = put p (take (n - ret) from) to;
        })

unfoldable pub simple_write_to_buffer : (List ℕ → ℕ) → ℤ → List ℕ → List ℕ → Copied
unfolding write_at
simple_write_to_buffer copy (negsuc p) to from = record {
  answer = einval;
  ppos = negsuc p;
  bytes = to;
}
simple_write_to_buffer copy (pos p) to from = write_at copy p to from

unfoldable pub memory_read_from_buffer : ℕ → ℤ → List ℕ → Copied
memory_read_from_buffer count (negsuc p) from = record {
  answer = einval;
  ppos = negsuc p;
  bytes = [];
}
memory_read_from_buffer count (pos p) from =
    if leb (length from) p
    then record { answer = pos 0; ppos = pos p; bytes = [] }
    else (let n = clip count (length from) p in
        record { answer = pos n; ppos = pos (p + n); bytes = take n (drop p from) })
