-- ===== src/Bitmap/Byte.antt =====
-- The bit operations of bitmap.cpp on one byte, checked for every byte and bit.
use miniob.Base.{
  ℕ, ◌+◌, ◌-◌, ◌*◌, ◌/◌, ◌%◌, ◌^◌, ◌<◌, ◌≡◌, refl, Bool, true, false, not, ◌&&◌, ◌||◌, arith,
  bit_and, bit_or, ltb, ltb→lt, ◌==◌, ==_iff, all_below, all_below_sound,
}

-- `(byte & (1 << i)) != 0`
abbrev pub bit : ℕ → ℕ → Bool
bit byte i = not (bit_and byte (2 ^ i) == 0)

abbrev same : Bool → Bool → Bool
same true b = b
same false b = not b

not-eq-true : (b : Bool) → not b ≡ true → b ≡ false
not-eq-true b h = ground arith

same→eq : (a b : Bool) → same a b ≡ true → a ≡ b
same→eq a b h = ground arith

-- A byte and two bit numbers in one number.
abbrev pack : ℕ → ℕ → ℕ → ℕ
pack byte i j = byte * 64 + i * 8 + j

abbrev with_parts : (ℕ → ℕ → ℕ → Bool) → ℕ → Bool
with_parts p x = p (x / 64) (x / 8 % 8) (x % 8)

from_table :
    (p : ℕ → ℕ → ℕ → Bool)
    → all_below 16384 (with_parts p) ≡ true
    → (byte i j : ℕ) → byte < 256
    → i < 8
    → j < 8
    → p byte i j ≡ true
from_table p table byte i j hb hi hj =
    let x = pack byte i j in
    let e1 : x / 64 ≡ byte = omega arith in
    let e2 : x / 8 % 8 ≡ i = omega arith in
    let e3 : x % 8 ≡ j = omega arith in
    let h : p (x / 64) (x / 8 % 8) (x % 8) ≡ true =
      all_below_sound 16384 (with_parts p) x table (omega arith) in
    rw (e1, e2, e3) at h

abbrev set_case : ℕ → ℕ → ℕ → Bool
set_case byte i j =
    ltb (bit_or byte (2 ^ i)) 256 && same (bit (bit_or byte (2 ^ i)) j) (i == j || bit byte j)

set_table : all_below 16384 (with_parts set_case) ≡ true
unfolding all_below
set_table = refl

abbrev clear_case : ℕ → ℕ → ℕ → Bool
clear_case byte i j =
    ltb (bit_and byte (255 - 2 ^ i)) 256
    && same (bit (bit_and byte (255 - 2 ^ i)) j) (not (i == j) && bit byte j)

clear_table : all_below 16384 (with_parts clear_case) ≡ true
unfolding all_below
clear_table = refl

and_parts : (a b : Bool) → (a && b) ≡ true → (a ≡ true) × (b ≡ true)
and_parts a b h = ground arith

module _ (byte i j : ℕ) (hb : byte < 256) (hi : i < 8) (hj : j < 8) where
  set_parts :
      (ltb (bit_or byte (2 ^ i)) 256 ≡ true)
      × (same (bit (bit_or byte (2 ^ i)) j) (i == j || bit byte j) ≡ true)
  set_parts = and_parts _ _ (from_table set_case set_table byte i j hb hi hj)

  clear_parts :
      (ltb (bit_and byte (255 - 2 ^ i)) 256 ≡ true)
      × (same (bit (bit_and byte (255 - 2 ^ i)) j) (not (i == j) && bit byte j) ≡ true)
  clear_parts = and_parts _ _ (from_table clear_case clear_table byte i j hb hi hj)

  pub bit-set : bit (bit_or byte (2 ^ i)) j ≡ (i == j || bit byte j)
  bit-set = same→eq _ _ set_parts.1

  pub bit-clear : bit (bit_and byte (255 - 2 ^ i)) j ≡ (not (i == j) && bit byte j)
  bit-clear = same→eq _ _ clear_parts.1

pub set-lt : (byte i : ℕ) → byte < 256 → i < 8 → bit_or byte (2 ^ i) < 256
set-lt byte i hb hi = ltb→lt _ _ (set_parts byte i 0 hb hi (omega arith)).0

pub clear-lt : (byte i : ℕ) → byte < 256 → i < 8 → bit_and byte (255 - 2 ^ i) < 256
clear-lt byte i hb hi = ltb→lt _ _ (clear_parts byte i 0 hb hi (omega arith)).0

-- A byte that the searches skip: all ones, or all zeros.
abbrev full_case : ℕ → Bool
full_case j = bit 255 j

pub bit-full : (byte j : ℕ) → (byte == 255) ≡ true → j < 8 → bit byte j ≡ true
unfolding all_below
bit-full byte j e h = rw ((==_iff byte 255).0 e) (all_below_sound 8 full_case j refl h)

abbrev empty_case : ℕ → Bool
empty_case j = not (bit 0 j)

pub bit-empty : (byte j : ℕ) → (byte == 0) ≡ true → j < 8 → bit byte j ≡ false
unfolding all_below
bit-empty byte j e h =
    rw ((==_iff byte 0).0 e) (not-eq-true _ (all_below_sound 8 empty_case j refl h))
