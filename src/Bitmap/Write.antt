-- ===== src/Bitmap/Write.antt =====
-- The writes of a bitmap seen through `get_bit`.
use miniob.Base.{
  ℕ, ◌+◌, ◌-◌, ◌/◌, ◌%◌, ◌^◌, ◌<◌, ◌≡◌, not, ◌&&◌, ◌||◌, arith, bit_and, bit_or, ◌==◌, Memory,
  IsBytes, write-eq, write-IsBytes,
}
use miniob.Bitmap.{Bitmap, get_bit, set_bit, clear_bit}
use miniob.Bitmap.Byte.{bit-set, bit-clear, set-lt, clear-lt}

module _ (b : Bitmap) (bytes : IsBytes b.memory) (i : ℕ) where
  -- The bitmap over the memory that a write leaves.
  abbrev after : Memory → Bitmap
  after m = record b { memory = m }

  pub get_bit-set_bit : (j : ℕ) → get_bit (after (set_bit b i)) j ≡ (i == j || get_bit b j)
  unfolding get_bit set_bit
  get_bit-set_bit j = ground (
    arith,
    write-eq b.memory (b.base + i / 8) (bit_or (b.memory (b.base + i / 8)) (2 ^ (i % 8)))
        (b.base + j / 8),
    bit-set (b.memory (b.base + i / 8)) (i % 8) (j % 8) (bytes (b.base + i / 8)),
  )

  pub get_bit-clear_bit :
      (j : ℕ) → get_bit (after (clear_bit b i)) j ≡ (not (i == j) && get_bit b j)
  unfolding get_bit clear_bit
  get_bit-clear_bit j = ground (
    arith,
    write-eq b.memory (b.base + i / 8) (bit_and (b.memory (b.base + i / 8)) (255 - 2 ^ (i % 8)))
        (b.base + j / 8),
    bit-clear (b.memory (b.base + i / 8)) (i % 8) (j % 8) (bytes (b.base + i / 8)),
  )

  pub set_bit-IsBytes : IsBytes (set_bit b i)
  unfolding set_bit
  set_bit-IsBytes =
      write-IsBytes b.memory _ _ (set-lt _ (i % 8) (bytes (b.base + i / 8)) (omega arith)) bytes

  pub clear_bit-IsBytes : IsBytes (clear_bit b i)
  unfolding clear_bit
  clear_bit-IsBytes =
      write-IsBytes b.memory _ _ (clear-lt _ (i % 8) (bytes (b.base + i / 8)) (omega arith)) bytes

-- A write changes the byte of its bit only.
pub set_bit-outside : (b : Bitmap) (i p : ℕ) → b.base + i / 8 < p → set_bit b i p ≡ b.memory p
unfolding set_bit
set_bit-outside b i p h =
    ground (
      arith,
      write-eq b.memory (b.base + i / 8) (bit_or (b.memory (b.base + i / 8)) (2 ^ (i % 8))) p,
    )

pub clear_bit-outside : (b : Bitmap) (i p : ℕ) → b.base + i / 8 < p → clear_bit b i p ≡ b.memory p
unfolding clear_bit
clear_bit-outside b i p h = ground (
  arith,
  write-eq b.memory (b.base + i / 8) (bit_and (b.memory (b.base + i / 8)) (255 - 2 ^ (i % 8))) p,
)

pub set_bit-before : (b : Bitmap) (i p : ℕ) → p < b.base → set_bit b i p ≡ b.memory p
unfolding set_bit
set_bit-before b i p h =
    ground (
      arith,
      write-eq b.memory (b.base + i / 8) (bit_or (b.memory (b.base + i / 8)) (2 ^ (i % 8))) p,
    )

pub clear_bit-before : (b : Bitmap) (i p : ℕ) → p < b.base → clear_bit b i p ≡ b.memory p
unfolding clear_bit
clear_bit-before b i p h = ground (
  arith,
  write-eq b.memory (b.base + i / 8) (bit_and (b.memory (b.base + i / 8)) (255 - 2 ^ (i % 8))) p,
)
