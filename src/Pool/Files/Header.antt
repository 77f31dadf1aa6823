-- ===== src/Pool/Files/Header.antt =====
-- The header of a file: which pages are allocated, and how taking and releasing a page changes that.
use miniob.Base.{
  ℕ, zero, suc, ◌+◌, ◌-◌, ◌/◌, ◌%◌, ◌^◌, ◌≤◌, ◌<◌, ◌≡◌, ap, ◌∙◌, inl, inr, true, false, not, ◌&&◌,
  ◌||◌, Bool-cases, some, ltb, ◌==◌, arith, Memory, IsBytes, read_u32, write_u32, read-write_u32,
  write_u32-outside, read_u32-outside, write_u32-IsBytes,
}
use miniob.Bitmap.{Bitmap, get_bit, set_bit, clear_bit}
use miniob.Bitmap.Write.{get_bit-set_bit, get_bit-clear_bit, set_bit-before, clear_bit-before}
use miniob.Pool.Files.{
  page_count, allocated_pages, page_bitmap, sub_header_size, check_page_num, take_page,
  release_page, free_page_from, find_free_page,
}

-- The counts of the header do not overlap its bitmap.
counted-bit :
    (header : Memory) (v j : ℕ)
    → get_bit (page_bitmap (write_u32 header 4 v)) j ≡ get_bit (page_bitmap header) j
unfolding get_bit
counted-bit header v j =
    rw (write_u32-outside header 4 v (sub_header_size + j / 8) (inr (omega arith)))

counted-page_count :
    (header : Memory) (v : ℕ) → page_count (write_u32 header 4 v) ≡ page_count header
counted-page_count header v = read_u32-outside header 4 v 0 (inl (omega arith))

set_bit-u32 :
    (b : Bitmap) (i q : ℕ) → q + 4 ≤ b.base → read_u32 (set_bit b i) q ≡ read_u32 b.memory q
unfolding read_u32
set_bit-u32 b i q h = rw (
  set_bit-before b i q (omega arith),
  set_bit-before b i (q + 1) (omega arith),
  set_bit-before b i (q + 2) (omega arith),
  set_bit-before b i (q + 3) (omega arith),
)

clear_bit-u32 :
    (b : Bitmap) (i q : ℕ) → q + 4 ≤ b.base → read_u32 (clear_bit b i) q ≡ read_u32 b.memory q
unfolding read_u32
clear_bit-u32 b i q h = rw (
  clear_bit-before b i q (omega arith),
  clear_bit-before b i (q + 1) (omega arith),
  clear_bit-before b i (q + 2) (omega arith),
  clear_bit-before b i (q + 3) (omega arith),
)

free_page_from-some :
    (n : ℕ) (header : Memory) (i : ℕ) {p : ℕ}
    → free_page_from n header i ≡ some p
    → (p < i + n)
      × (get_bit (page_bitmap header) p ≡ false)
      × ((j : ℕ) → i ≤ j → j < p → get_bit (page_bitmap header) j ≡ true)
unfolding free_page_from
free_page_from-some zero header i e = cc
free_page_from-some (suc n) header i {p} e = elim (Bool-cases (get_bit (page_bitmap header) i)) [
  | inl t ↦
      let (below, clear, before) = free_page_from-some n header (i + 1) (ground arith) in
      (omega arith, clear, λ j l h. from_next i j t (before j) l h)
  | inr t ↦
      let here : i ≡ p = ground arith in (omega arith, rw (← here) t, λ j l h. absurd (omega arith))
]
  where
    from_next :
        (i j : ℕ)
        → get_bit (page_bitmap header) i ≡ true
        → (i + 1 ≤ j → j < p → get_bit (page_bitmap header) j ≡ true)
        → i ≤ j
        → j < p
        → get_bit (page_bitmap header) j ≡ true
    from_next i j t later l h = elim (Bool-cases (i == j)) [
      | inl e ↦ let same : i ≡ j = ground arith in rw (← same) t
      | inr e ↦ later (ground arith) h
    ]

module _ (header : Memory) (bytes : IsBytes header) (page_num : ℕ) where
  take_page-bit :
      (j : ℕ)
      → get_bit (page_bitmap (take_page header page_num)) j
        ≡ (page_num == j || get_bit (page_bitmap header) j)
  unfolding take_page get_bit
  take_page-bit j =
      let v = allocated_pages header + 1 in
      get_bit-set_bit (page_bitmap (write_u32 header 4 v)) (write_u32-IsBytes header 4 v bytes)
        page_num j
      ∙ ap (λ x. page_num == j || x) (counted-bit header v j)

  release_page-bit :
      (j : ℕ)
      → get_bit (page_bitmap (release_page header page_num)) j
        ≡ (not (page_num == j) && get_bit (page_bitmap header) j)
  unfolding release_page get_bit
  release_page-bit j =
      let v = (allocated_pages header + 2 ^ 32 - 1) % 2 ^ 32 in
      get_bit-clear_bit (page_bitmap (write_u32 header 4 v)) (write_u32-IsBytes header 4 v bytes)
        page_num j
      ∙ ap (λ x. not (page_num == j) && x) (counted-bit header v j)

  take_page-counts :
      allocated_pages header + 1 < 2 ^ 32
      → (page_count (take_page header page_num) ≡ page_count header)
        × (allocated_pages (take_page header page_num) ≡ allocated_pages header + 1)
  unfolding take_page
  take_page-counts h = (
    set_bit-u32 _ page_num 0 (omega arith) ∙ counted-page_count header (allocated_pages header + 1),
    set_bit-u32 _ page_num 4 (omega arith) ∙ read-write_u32 header 4 (allocated_pages header + 1) h,
  )

  release_page-counts :
      0 < allocated_pages header
      → allocated_pages header < 2 ^ 32
      → (page_count (release_page header page_num) ≡ page_count header)
        × (allocated_pages (release_page header page_num) + 1 ≡ allocated_pages header)
  unfolding release_page
  release_page-counts pos small =
      let v = (allocated_pages header + 2 ^ 32 - 1) % 2 ^ 32 in
      let counted = read-write_u32 header 4 v (omega arith) in
      (
        clear_bit-u32 _ page_num 0 (omega arith) ∙ counted-page_count header v,
        ap (λ n. n + 1) (clear_bit-u32 _ page_num 4 (omega arith) ∙ counted) ∙ omega arith,
      )

  -- In a header of bytes that counts some allocated pages, taking a page that the file has makes it
  -- valid, releasing it makes it invalid, and neither changes whether another page number is valid
  -- or how many pages the file has; the number of allocated pages rises and falls by one.
  take-release_page :
      page_num < page_count header
      → 0 < allocated_pages header
      → allocated_pages header + 1 < 2 ^ 32
      → ((j : ℕ)
          → check_page_num (take_page header page_num) j
            ≡ (page_num == j || check_page_num header j))
        × ((j : ℕ)
            → check_page_num (release_page header page_num) j
              ≡ (not (page_num == j) && check_page_num header j))
        × (page_count (take_page header page_num) ≡ page_count header)
        × (page_count (release_page header page_num) ≡ page_count header)
        × (allocated_pages (take_page header page_num) ≡ allocated_pages header + 1)
        × (allocated_pages (release_page header page_num) + 1 ≡ allocated_pages header)
  unfolding check_page_num
  take-release_page here pos small =
      let taken = take_page-counts small in
      let released = release_page-counts pos (omega arith) in
      (
        λ j. ground (arith, take_page-bit j, taken.0),
        λ j. ground (arith, release_page-bit j, released.0),
        taken.0,
        released.0,
        taken.1,
        released.1,
      )

-- `allocate_page` takes over the lowest page number that is not allocated, and only if the header
-- counts fewer allocated pages than pages.
find_free_page-lowest :
    (header : Memory) {p : ℕ}
    → find_free_page header ≡ some p
    → (allocated_pages header < page_count header)
      × (p < page_count header)
      × (check_page_num header p ≡ false)
      × ((j : ℕ) → j < p → check_page_num header j ≡ true)
unfolding find_free_page check_page_num
find_free_page-lowest header {p} e =
    elim (Bool-cases (ltb (allocated_pages header) (page_count header))) [
      | inr t ↦ absurd (ground arith)
      | inl t ↦
          let (below, clear, before) =
            free_page_from-some (page_count header) header 0 {p = p} (ground arith) in
          (ground arith, omega arith, ground arith, λ j h. ground (arith, before j))
    ]
