-- ===== src/Bitmap.antt =====
-- deps/common/lang/bitmap.cpp and bitmap.h: a bitmap over a region of memory.
-- `base` is the pointer `bitmap_`, an offset into `memory`; a result of -1 is `none`.
pub mod Byte
pub mod Write
pub mod Search
pub mod Next
use miniob.Base.{
  ℕ, zero, suc, ◌+◌, ◌-◌, ◌*◌, ◌/◌, ◌%◌, ◌^◌, Bool, true, false, not, Option, none, some, bit_and,
  bit_or, ltb, leb, ◌==◌, if◌then◌else◌, Memory, write,
}

pub record Bitmap : Type 0 where
  pub memory : Memory
  pub base : ℕ
  pub size : ℕ

-- The loop of `find_first_zero` from bit `i` with `n` bits left.
unfoldable pub find_zero_from : ℕ → ℕ → ℕ → Option ℕ
find_zero_from zero byte i = none
find_zero_from (suc n) byte i =
    let rest = find_zero_from n byte (i + 1) in if bit_and byte (2 ^ i) == 0 then some i else rest

unfoldable pub find_first_zero : ℕ → ℕ → Option ℕ
find_first_zero byte start = find_zero_from (8 - start) byte start

pub find_setted_from : ℕ → ℕ → ℕ → Option ℕ
find_setted_from zero byte i = none
find_setted_from (suc n) byte i =
    let rest = find_setted_from n byte (i + 1) in if bit_and byte (2 ^ i) == 0 then rest else some i

unfoldable pub find_first_setted : ℕ → ℕ → Option ℕ
find_first_setted byte start = find_setted_from (8 - start) byte start

unfoldable pub get_bit : Bitmap → ℕ → Bool
get_bit b index = not (bit_and (b.memory (b.base + index / 8)) (2 ^ (index % 8)) == 0)

-- The memory after `bits |= 1 << (index % 8)`.
unfoldable pub set_bit : Bitmap → ℕ → Memory
set_bit b index =
    let p = b.base + index / 8 in write b.memory p (bit_or (b.memory p) (2 ^ (index % 8)))

-- The memory after `bits &= ~(1 << (index % 8))`, on the low eight bits.
unfoldable pub clear_bit : Bitmap → ℕ → Memory
clear_bit b index =
    let p = b.base + index / 8 in write b.memory p (bit_and (b.memory p) (255 - 2 ^ (index % 8)))

-- `end`, the last byte that a search reads.
unfoldable pub end_byte : Bitmap → ℕ
end_byte b = if b.size % 8 == 0 then b.size / 8 else b.size / 8 + 1

-- The loop of `next_unsetted_bit` from byte `iter` with `n` bytes left. `start_in_byte` is reset only
-- after a byte that was searched; the byte 0xff, which is -1 as a signed char, is skipped as it is.
unfoldable pub scan_unsetted : Bitmap → ℕ → ℕ → ℕ → Option ℕ
scan_unsetted b zero iter start_in_byte = none
scan_unsetted b (suc n) iter start_in_byte =
    let byte = b.memory (b.base + iter) in
    elim (byte == 255) [
      | true ↦ scan_unsetted b n (iter + 1) start_in_byte
      | false ↦ elim (find_first_zero byte start_in_byte) [
        | some index_in_byte ↦ some (iter * 8 + index_in_byte)
        | none ↦ scan_unsetted b n (iter + 1) 0
      ]
    ]

pub scan_setted : Bitmap → ℕ → ℕ → ℕ → Option ℕ
scan_setted b zero iter start_in_byte = none
scan_setted b (suc n) iter start_in_byte =
    let byte = b.memory (b.base + iter) in
    elim (byte == 0) [
      | true ↦ scan_setted b n (iter + 1) start_in_byte
      | false ↦ elim (find_first_setted byte start_in_byte) [
        | some index_in_byte ↦ some (iter * 8 + index_in_byte)
        | none ↦ scan_setted b n (iter + 1) 0
      ]
    ]

-- `if (ret >= size_) ret = -1`
unfoldable pub within_size : ℕ → Option ℕ → Option ℕ
within_size size none = none
within_size size (some ret) = if leb size ret then none else some ret

unfoldable pub next_unsetted_bit : Bitmap → ℕ → Option ℕ
next_unsetted_bit b start =
    within_size b.size (scan_unsetted b (end_byte b + 1 - start / 8) (start / 8) (start % 8))

unfoldable pub next_setted_bit : Bitmap → ℕ → Option ℕ
next_setted_bit b start =
    within_size b.size (scan_setted b (end_byte b + 1 - start / 8) (start / 8) (start % 8))
