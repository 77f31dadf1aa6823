-- ===== src/Bitmap/Next.antt =====
-- `next_unsetted_bit` and `next_setted_bit` against the bits that `get_bit` reads.
use miniob.Base.{
  ℕ, zero, suc, ◌+◌, ◌-◌, ◌*◌, ◌/◌, ◌%◌, ◌≤◌, ◌<◌, ◌≡◌, ◌≢◌, refl, Bool, true, false, not, arith,
  Option, none, some, Option-cases, leb, ◌==◌, Bool-cases, inl, inr, ◌⊎◌,
}
use miniob.Bitmap.{
  Bitmap, get_bit, find_first_zero, find_first_setted, end_byte, scan_unsetted, scan_setted,
  within_size, next_unsetted_bit, next_setted_bit,
}
use miniob.Bitmap.Byte.{bit, bit-full, bit-empty}
use miniob.Bitmap.Search.{
  First, clear, find_first_zero-First, find_first_setted-First, scan, scan-First,
}

module _ (b : Bitmap) where
  abbrev at : ℕ → ℕ
  at i = b.memory (b.base + i)

  abbrev is_full : ℕ → Bool
  is_full byte = byte == 255

  abbrev is_empty : ℕ → Bool
  is_empty byte = byte == 0

  full_lem : (byte i : ℕ) → is_full byte ≡ true → i < 8 → clear byte i ≡ false
  full_lem byte i e h = ground (arith, bit-full byte i e h)

  abbrev unsetted_scan : ℕ → ℕ → ℕ → Option ℕ
  unsetted_scan = scan at clear is_full find_first_zero find_first_zero-First full_lem

  abbrev setted_scan : ℕ → ℕ → ℕ → Option ℕ
  setted_scan = scan at bit is_empty find_first_setted find_first_setted-First bit-empty

  scan_unsetted-scan : (n iter s : ℕ) → scan_unsetted b n iter s ≡ unsetted_scan n iter s
  unfolding scan_unsetted scan
  scan_unsetted-scan zero iter s = refl
  scan_unsetted-scan (suc n) iter s =
      ground (arith, scan_unsetted-scan n (iter + 1) s, scan_unsetted-scan n (iter + 1) 0)

  scan_setted-scan : (n iter s : ℕ) → scan_setted b n iter s ≡ setted_scan n iter s
  unfolding scan_setted scan
  scan_setted-scan zero iter s = refl
  scan_setted-scan (suc n) iter s =
      ground (arith, scan_setted-scan n (iter + 1) s, scan_setted-scan n (iter + 1) 0)

-- A search that reaches past the bitmap's size, cut back to it.
within_size-First :
    (p : ℕ → Bool) (lo hi size : ℕ) (r : Option ℕ)
    → size ≤ hi ⊎ size ≤ lo
    → First p lo hi r
    → First p lo size (within_size size r)
unfolding within_size
within_size-First p lo hi size none e f = λ j l h. f j l (ground arith)
within_size-First p lo hi size (some k) e f = elim (Bool-cases (leb size k)) [
  | inl t ↦ rw t (λ j l h. f.3 j l (ground arith))
  | inr t ↦ rw t (f.0, ground arith, f.2, f.3)
]

-- The bytes that a search from `start` reads reach the size, or there is nothing below the size.
search_reach :
    (b : Bitmap) (start : ℕ)
    → (b.size ≤ (start / 8 + (end_byte b + 1 - start / 8)) * 8) ⊎ (b.size ≤ start)
unfolding end_byte
search_reach b start = ground arith

First-lower : (p : ℕ → Bool) (s hi i : ℕ) → First p s hi (some i) → s ≤ i
First-lower p s hi i f = f.0

-- A result lies at or after the place where the search begins.
scan_setted-le :
    (b : Bitmap) (n iter s r : ℕ) → s < 8 → scan_setted b n iter s ≡ some r → iter * 8 + s ≤ r
unfolding scan_setted
scan_setted-le b zero iter s r small e = cc
scan_setted-le b (suc n) iter s r small e =
    let byte : ℕ = b.memory (b.base + iter) in
    elim (Bool-cases (byte == 0)) [
      | inl t ↦ ground (arith, scan_setted-le b n (iter + 1) s r)
      | inr t ↦ elim (Option-cases (find_first_setted byte s)) [
        | inl f ↦ ground (arith, scan_setted-le b n (iter + 1) 0 r)
        | inr (i, f) ↦
            let le : s ≤ i =
              First-lower (bit byte) s 8 i (rw f at (find_first_setted-First byte s small)) in
            ground arith
      ]
    ]

module _ (b : Bitmap) (start : ℕ) where
  abbrev pub unset : ℕ → Bool
  unset j = not (get_bit b j)

  start_parts : start / 8 * 8 + start % 8 ≡ start
  start_parts = omega arith

  -- `next_unsetted_bit` returns the first clear bit from `start` that is below the size, and -1
  -- exactly when there is none, if `start` is at the beginning of a byte or in a byte that is not
  -- full.
  pub next_unsetted_bit-First :
      (start % 8 ≡ 0) ⊎ ((b.memory (b.base + start / 8) == 255) ≡ false)
      → First unset start b.size (next_unsetted_bit b start)
  unfolding next_unsetted_bit get_bit
  next_unsetted_bit-First ok = within_size-First unset start _ b.size _ (search_reach b start) (
      rw (scan_unsetted-scan b _ (start / 8) (start % 8)) (
        rw start_parts at (
          scan-First (at b) clear (is_full b) find_first_zero find_first_zero-First (full_lem b)
            (end_byte b + 1 - start / 8) (start / 8) (start % 8) (omega arith) ok)))

  -- `next_setted_bit` returns the first set bit from `start` that is below the size, and -1 exactly
  -- when there is none, if `start` is at the beginning of a byte or in a byte that is not zero.
  pub next_setted_bit-First :
      (start % 8 ≡ 0) ⊎ ((b.memory (b.base + start / 8) == 0) ≡ false)
      → First (get_bit b) start b.size (next_setted_bit b start)
  unfolding next_setted_bit get_bit
  next_setted_bit-First ok = within_size-First (get_bit b) start _ b.size _ (search_reach b start) (
      rw (scan_setted-scan b _ (start / 8) (start % 8)) (
        rw start_parts at (
          scan-First (at b) bit (is_empty b) find_first_setted find_first_setted-First bit-empty
            (end_byte b + 1 - start / 8) (start / 8) (start % 8) (omega arith) ok)))

  -- From inside a byte of zeros the search never returns one of the bits of the next byte that lie
  -- before `start`'s place in its byte, whether they are set or not.
  pub next_setted_bit_misses :
      (t : ℕ)
      → (b.memory (b.base + start / 8) == 0) ≡ true
      → t < start % 8
      → next_setted_bit b start ≢ some ((start / 8 + 1) * 8 + t)
  unfolding next_setted_bit scan_setted within_size end_byte
  next_setted_bit_misses t e h = go (end_byte b + 1 - start / 8)
    where
      go :
          (n : ℕ)
          → within_size b.size (scan_setted b n (start / 8) (start % 8))
            ≡ some ((start / 8 + 1) * 8 + t)
          → ⊥
      go zero f = cc
      go (suc m) f =
          ground (arith, scan_setted-le b m (start / 8 + 1) (start % 8) ((start / 8 + 1) * 8 + t))
