-- ===== src/Pool/Files/Pages.antt =====
-- `get_this_page` and `unpin_page`: what a caller holds after them.
use miniob.Base.{
  ℕ, ◌+◌, ◌%◌, ◌^◌, ◌<◌, ◌≡◌, refl, ◌⊎◌, inl, inr, true, false, Bool-cases, none, some,
  Option-cases, ◌==◌, arith,
}
use miniob.Rc.{success, is_success, generic_error, bufferpool_invalid_page_num, ioerr_read}
use miniob.Pool.{Io, Page}
use miniob.Pool.Manager.{Manager, find, get, lru_update, alloc, dispose_block, set_frame}
use miniob.Pool.Files.{
  FileHandle, Reply, check_page_num, header_of, put_pin, put_page, load_page, get_page, unpin_page,
}

-- What `get_page` replies: a frame of the map with one more pin, a frame into which the page was read,
-- or a code.
abbrev pub Gets :
    (io : Io) (disk : io.Disk) (m : Manager) (h : FileHandle) (page_num : ℕ) → Reply io → Type 0
Gets io disk m h page_num (rc, none, m', disk') = is_success rc ≡ false
Gets io disk m h page_num (rc, some i, m', disk') =
    (rc ≡ success)
    × (check_page_num (header_of m h) page_num ≡ true)
    × (((find m h.file_desc page_num ≡ some i)
          × ((m'.frames i).pin_count ≡ ((m.frames i).pin_count + 1) % 2 ^ 32)
          × ((m'.frames i).page ≡ (m.frames i).page)
          × (disk' ≡ disk))
        ⊎ ((find m h.file_desc page_num ≡ none)
            × ((m'.frames i).pin_count ≡ 1)
            × (io.read disk' h.file_desc page_num ≡ some (m'.frames i).page)))

module _ (io : Io) (disk : io.Disk) (m : Manager) (h : FileHandle) (page_num : ℕ) where
  invalid_page :
      check_page_num (header_of m h) page_num ≡ false
      → get_page io disk m h page_num ≡ (bufferpool_invalid_page_num, none, m, disk)
  unfolding get_page
  invalid_page e = rw (e, get_page)

  module _ (valid : check_page_num (header_of m h) page_num ≡ true) where
    cached_page :
        (i : ℕ)
        → find m h.file_desc page_num ≡ some i
        → get_page io disk m h page_num ≡ (
          success,
          some i,
          set_frame (lru_update m i) i (
              put_pin
                ((lru_update m i).frames i)
                ((((lru_update m i).frames i).pin_count + 1) % 2 ^ 32)),
          disk,
        )
    unfolding get_page get
    cached_page i e = ground arith

    no_frame :
        (m' : Manager) (disk' : io.Disk)
        → find m h.file_desc page_num ≡ none
        → alloc io disk m h.file_desc page_num ≡ (none, m', disk')
        → get_page io disk m h page_num ≡ (generic_error, none, m', disk')
    unfolding get_page get
    no_frame m' disk' e a = ground arith

    loaded_page :
        (i : ℕ) (m' : Manager) (disk' : io.Disk)
        → find m h.file_desc page_num ≡ none
        → alloc io disk m h.file_desc page_num ≡ (some i, m', disk')
        → get_page io disk m h page_num
          ≡ load_page io disk' (set_frame m' i (put_pin (m'.frames i) 1)) h page_num i
    unfolding get_page get
    loaded_page i m' disk' e a = ground arith

    load_failed :
        (i : ℕ) (m' : Manager) (disk' : io.Disk)
        → io.read disk' h.file_desc page_num ≡ none
        → let r = dispose_block io disk' (set_frame m' i (put_pin (m'.frames i) 0)) i in
          load_page io disk' m' h page_num i ≡ (ioerr_read, none, r.1, r.2)
    unfolding load_page
    load_failed i m' disk' e = rw (e, load_page)

    load_done :
        (i : ℕ) (m' : Manager) (disk' : io.Disk) (page : Page)
        → io.read disk' h.file_desc page_num ≡ some page
        → load_page io disk' m' h page_num i
          ≡ (success, some i, set_frame m' i (put_page (m'.frames i) page), disk')
    unfolding load_page
    load_done i m' disk' page e = rw (e, load_page)

    load_page-Gets :
        (i : ℕ) (m' : Manager) (disk' : io.Disk)
        → find m h.file_desc page_num ≡ none
        → Gets io disk m h page_num
            (load_page io disk' (set_frame m' i (put_pin (m'.frames i) 1)) h page_num i)
    load_page-Gets i m' disk' e = elim (Option-cases (io.read disk' h.file_desc page_num)) [
      | inl r ↦ rw (load_failed i _ disk' r) (unfold is_success in refl)
      | inr (page, r) ↦
          rw (load_done i _ disk' page r) (refl, valid, inr (e, ground arith, ground arith))
    ]

    valid-Gets : Gets io disk m h page_num (get_page io disk m h page_num)
    valid-Gets = elim (Option-cases (find m h.file_desc page_num)) [
      | inr (i, e) ↦ rw (cached_page i e) (
        refl,
        valid,
        inl (e, unfold lru_update in ground arith, unfold lru_update in ground arith, refl),
      )
      | inl e ↦
          let r = alloc io disk m h.file_desc page_num in
          elim (Option-cases r.0) [
            | inl a ↦ rw (no_frame r.1 r.2 e (λ j. (a j, r.1, r.2))) (unfold is_success in refl)
            | inr (i, a) ↦
                rw (loaded_page i r.1 r.2 e (λ j. (a j, r.1, r.2))) (load_page-Gets i r.1 r.2 e)
          ]
    ]

  -- What `get_this_page` replies on an open file: a frame comes with RC::SUCCESS and only for a page
  -- that the header says is allocated. Either the buffer manager's map led from the page to that frame,
  -- which then has one more pin and holds the page that it held before, without a look at which page that
  -- is; or the map had no entry, and the frame has a pin of one and holds the page as it is on the
  -- disk. Without a frame comes an error code.
  pub get_page-Gets : Gets io disk m h page_num (get_page io disk m h page_num)
  get_page-Gets = elim (Bool-cases (check_page_num (header_of m h) page_num)) [
    | inl e ↦ valid-Gets e
    | inr e ↦ rw (invalid_page e) (unfold is_success in refl)
  ]

-- Taking a pin off a frame whose count of pins was raised by one without wrapping gives it its old
-- count back, and changes no other frame.
unpin_page-pinned :
    (m : Manager) (i n : ℕ)
    → n + 1 < 2 ^ 32
    → (m.frames i).pin_count ≡ (n + 1) % 2 ^ 32
    → (((unpin_page m i).frames i).pin_count ≡ n)
      × ((j : ℕ) → (i == j) ≡ false → (unpin_page m i).frames j ≡ m.frames j)
unfolding unpin_page
unpin_page-pinned m i n small pinned = (ground arith, λ j ne. ground arith)
