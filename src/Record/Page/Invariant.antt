-- ===== src/Record/Page/Invariant.antt =====
-- The well-formedness of a page of records, and the page that `init_empty_page` makes.
use miniob.Base.{
  ℕ, zero, suc, ◌+◌, ◌/◌, ◌%◌, ◌≤◌, ◌<◌, ◌≡◌, sym, inl, inr, refl, Bool, true, false, arith, ◌==◌,
  if◌then◌else◌, IsBytes, memset-inside, memset-IsBytes, Bool-cases,
}
use miniob.Bitmap.{get_bit}
use miniob.Bitmap.Byte.{bit-empty}
use miniob.Record.{page_fix_size, align8, page_bitmap_size, page_header_size}
use miniob.Record.Page.{RecordPage, live, init_empty_page}

-- How many of the first `n` slots are live.
pub count : (ℕ → Bool) → ℕ → ℕ
count p zero = 0
count p (suc n) = if p n then count p n + 1 else count p n

-- The record count is the number of live slots, the bitmap ends before the first slot, and the
-- data of a record fits in its slot.
pub record IsValid (p : RecordPage) : Type 0 where
  pub bytes : IsBytes p.content
  pub counted : p.record_num ≡ count (live p) p.record_capacity
  pub apart : page_fix_size + page_bitmap_size p.record_capacity ≤ p.first_record_offset
  pub sized : p.record_real_size ≤ p.record_size

pub count-le : (p : ℕ → Bool) (n : ℕ) → count p n ≤ n
unfolding count
count-le p zero = omega arith
count-le p (suc n) = ground (arith, count-le p n)

pub count-none : (p : ℕ → Bool) (n : ℕ) → ((j : ℕ) → j < n → p j ≡ false) → count p n ≡ 0
unfolding count
count-none p zero h = refl
count-none p (suc n) h =
    ground (arith, h n (omega arith), count-none p n (λ j l. h j (omega arith)))

pub count-all : (p : ℕ → Bool) (n : ℕ) → ((j : ℕ) → j < n → p j ≡ true) → count p n ≡ n
unfolding count
count-all p zero h = refl
count-all p (suc n) h = ground (arith, h n (omega arith), count-all p n (λ j l. h j (omega arith)))

pub count-congr : (p q : ℕ → Bool) (n : ℕ) → ((j : ℕ) → j < n → p j ≡ q j) → count p n ≡ count q n
unfolding count
count-congr p q zero h = refl
count-congr p q (suc n) h =
    ground (arith, h n (omega arith), count-congr p q n (λ j l. h j (omega arith)))

-- Turning one slot on adds one.
pub count-turn_on :
    (p q : ℕ → Bool) (n i : ℕ)
    → i < n
    → p i ≡ false
    → q i ≡ true
    → ((j : ℕ) → j < n → (i == j) ≡ false → p j ≡ q j)
    → count q n ≡ count p n + 1
unfolding count
count-turn_on p q zero i l off on same = absurd (omega arith)
count-turn_on p q (suc n) i l off on same = elim (Bool-cases (i == n)) [
  | inl e ↦
      let here : i ≡ n = ground arith in
      let below : count p n ≡ count q n =
        count-congr p q n (λ j k. same j (omega arith) (ground arith)) in
      let off' : p n ≡ false = rw here at off in
      let on' : q n ≡ true = rw here at on in ground arith
  | inr e ↦
      let before : i < n = ground arith in
      let step = count-turn_on p q n i before off on (λ j k ne. same j (omega arith) ne) in
      ground (arith, same n (omega arith) e, step)
]

le-align8 : (size : ℕ) → size ≤ align8 size
unfolding align8
le-align8 size = ground arith

le-header_size :
    (capacity : ℕ) → page_fix_size + page_bitmap_size capacity ≤ page_header_size capacity
unfolding page_header_size
le-header_size capacity = le-align8 (page_fix_size + page_bitmap_size capacity)

-- The byte of a bit below the capacity lies in the bitmap.
pub byte_within :
    (i capacity : ℕ)
    → i < capacity
    → page_fix_size + i / 8 < page_fix_size + page_bitmap_size capacity
unfolding page_bitmap_size
byte_within i capacity h = ground arith

module _ (p : RecordPage) (size : ℕ) (bytes : IsBytes p.content) where
  pub init_empty-live :
      (i : ℕ)
      → i < (init_empty_page p size).record_capacity
      → live (init_empty_page p size) i ≡ false
  unfolding init_empty_page get_bit
  init_empty-live i h =
      let zero_byte =
        memset-inside p.content page_fix_size 0 _ (page_fix_size + i / 8) (omega arith)
          (byte_within i _ h) in
      rw zero_byte (bit-empty 0 (i % 8) refl (omega arith))

  -- The page that `init_empty_page` lays out over any bytes, for records of any size, is valid.
  pub init_empty-IsValid : IsValid (init_empty_page p size)
  unfolding init_empty_page
  init_empty-IsValid = record {
    bytes = memset-IsBytes _ _ 0 _ (omega arith) bytes;
    counted = sym (count-none _ _ init_empty-live);
    apart = le-header_size _;
    sized = le-align8 size;
  }
