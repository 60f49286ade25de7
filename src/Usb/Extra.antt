-- ===== src/Usb/Extra.antt =====
-- What __usb_get_extra_descriptor finds.
use webcamd.Prelude.{
  ℕ, zero, suc, ◌+◌, ◌-◌, ◌%◌, ◌^◌, ◌<◌, ◌≤◌, ◌≡◌, ◌&&◌, ◌==◌, ltb, leb, if◌then◌else◌, none, some,
  refl, arith, Bool-cases, inl, inr, dec_lt, ◌⊎◌, ◌∙◌,
}
use webcamd.Usb.Descriptors.{extra_loop, usb_get_extra_descriptor}

-- With no byte left, or with more bytes left than a descriptor can have, the search ends.
later_none :
    (buffer : ℕ → ℕ) (type fuel offset size : ℕ)
    → buffer offset < 256
    → (size < 2) ⊎ (256 ≤ size)
    → extra_loop buffer type fuel offset size ≡ none
unfolding extra_loop
later_none buffer type zero offset size byte h = refl
later_none buffer type (suc fuel) offset size byte (inl h) = ground arith
later_none buffer type (suc fuel) offset size byte (inr h) = ground arith

-- What is left, as the code counts it, after a descriptor that reaches the end or beyond.
after_lem :
    (size length : ℕ)
    → size < 2 ^ 32
    → length < 256
    → size ≤ length
    → ((size + 2 ^ 32 - length) % 2 ^ 32 < 2) ⊎ (256 ≤ (size + 2 ^ 32 - length) % 2 ^ 32)
after_lem size length small byte h = elim (dec_lt size length) [
  | yes lt ↦ inr (omega arith)
  | no ge ↦ inl (omega arith)
]

extra_loop-suc :
    (buffer : ℕ → ℕ) (type fuel offset size : ℕ)
    → extra_loop buffer type (suc fuel) offset size ≡ (
        if ltb size 2
        then none
        else if ltb (buffer offset) 2
        then none
        else if ltb (buffer offset) size
        then none
        else if buffer (suc offset) == type
        then some offset
        else extra_loop buffer type fuel
            (offset + buffer offset)
            ((size + 2 ^ 32 - buffer offset) % 2 ^ 32))
unfolding extra_loop
extra_loop-suc buffer type fuel offset size = refl

first_step :
    (buffer : ℕ → ℕ) (type size : ℕ)
    → ((i : ℕ) → buffer i < 256)
    → size < 2 ^ 32
    → extra_loop buffer type 3 0 size ≡ (
        if leb 2 size && (leb 2 (buffer 0) && (leb size (buffer 0) && buffer 1 == type))
        then some 0
        else none)
first_step buffer type size bytes small = elim (Bool-cases (leb size (buffer 0))) [
  | inl fills ↦
      let rest =
        later_none buffer type 2 (0 + buffer 0) ((size + 2 ^ 32 - buffer 0) % 2 ^ 32)
          (bytes (0 + buffer 0)) (after_lem size (buffer 0) small (bytes 0) (ground arith)) in
      extra_loop-suc buffer type 2 0 size ∙ ground (arith, rest)
  | inr short ↦ extra_loop-suc buffer type 2 0 size ∙ ground arith
]

-- In a buffer of bytes, less than 2^32, __usb_get_extra_descriptor finds the descriptor at the
-- start of the buffer when it has the type and fills the buffer, and nothing else: a descriptor that
-- another one follows is never found, nor is any that follows.
pub usb_get_extra_descriptor_first :
    (buffer : ℕ → ℕ) (size type : ℕ)
    → ((i : ℕ) → buffer i < 256)
    → size < 2 ^ 32
    → usb_get_extra_descriptor buffer size type ≡ (
        if leb 2 size && (leb 2 (buffer 0) && (leb size (buffer 0) && buffer 1 == type))
        then some 0
        else none)
unfolding usb_get_extra_descriptor
usb_get_extra_descriptor_first buffer size type bytes small =
    first_step buffer type size bytes small
