-- ===== src/Pool/Manager/Alloc.antt =====
-- `alloc` and `evict`: which frame is given out, and what happens to what it held.
use miniob.Base.{
  ℕ, zero, suc, ◌+◌, ◌≡◌, ◌≢◌, refl, ◌⊎◌, inl, inr, true, false, Bool-cases, Option, none, some,
  Option-cases, List, [], ◌∷◌, ◌==◌, arith,
}
use mathlib.Core.List.{reverse}
use miniob.Pool.{LruFrame, Io, key}
use miniob.Pool.Manager.{
  Manager, set_frame, map_to, clean, lru_update, unallocated_from, find_unallocated, find,
  first_unpinned, flush_block, Found, evict, take_frame, alloc,
}

-- The frame `i` that was given out for a page, with the manager and the disk after it.
pub record Allocated (io : Io) (disk : io.Disk) (m : Manager) (file_desc page_num i : ℕ)
    (m' : Manager) (disk' : io.Disk) : Type 1 where
  pub mapped : find m' file_desc page_num ≡ some i
  pub newest : (rest : List ℕ) × (m'.lru ≡ i ∷ rest)
  pub available : ((m.frames i).allocated ≡ false) ⊎ ((m.frames i).pin_count ≡ 0)
  pub ready : ((m'.frames i).dirty ≡ false) × ((m'.frames i).file_desc ≡ file_desc)
  pub others : (j : ℕ) → i ≢ j → m'.frames j ≡ m.frames j
  pub written :
      (m.frames i).allocated ≡ true
      → (m.frames i).dirty ≡ true
      → flush_block io disk (m.frames i) ≡ (true, disk')

-- No frame was given out, since each is in use and either all are pinned, or the page of a dirty one
-- could not be written as a whole; no frame has changed, and the disk only by that write.
pub record Refused (io : Io) (disk : io.Disk) (m m' : Manager) (disk' : io.Disk) : Type 1 where
  pub frames : (j : ℕ) → m'.frames j ≡ m.frames j
  pub full : find_unallocated m ≡ none
  pub reason :
      ((first_unpinned m.frames (reverse m.lru) ≡ none) × (disk' ≡ disk))
      ⊎ ((i : ℕ) × ((m.frames i).pin_count ≡ 0)
          × ((m.frames i).dirty ≡ true)
          × (flush_block io disk (m.frames i) ≡ (false, disk')))

abbrev pub Allocates :
    (io : Io) (disk : io.Disk) (m : Manager) (file_desc page_num : ℕ) → Found io → Type 1
Allocates io disk m file_desc page_num (none, m', disk') = Refused io disk m m' disk'
Allocates io disk m file_desc page_num (some i, m', disk') =
    Allocated io disk m file_desc page_num i m' disk'

unallocated_from-some :
    (n : ℕ) (frames : ℕ → LruFrame) (k : ℕ) {i : ℕ}
    → unallocated_from n frames k ≡ some i
    → (frames i).allocated ≡ false
unfolding unallocated_from
unallocated_from-some zero frames k e = cc
unallocated_from-some (suc n) frames k {i} e = elim (Bool-cases (frames k).allocated) [
  | inl t ↦ unallocated_from-some n frames (k + 1) (ground arith)
  | inr t ↦ let here : k ≡ i = ground arith in rw (← here) t
]

first_unpinned-some :
    (frames : ℕ → LruFrame) (is : List ℕ) {i : ℕ}
    → first_unpinned frames is ≡ some i
    → (frames i).pin_count ≡ 0
unfolding first_unpinned
first_unpinned-some frames [] e = cc
first_unpinned-some frames (j ∷ is) {i} e = elim (Bool-cases ((frames j).pin_count == 0)) [
  | inl t ↦ let here : j ≡ i = ground arith in rw (← here) (ground arith)
  | inr t ↦ first_unpinned-some frames is (ground arith)
]

find_unallocated-free :
    (m : Manager) {i : ℕ} → find_unallocated m ≡ some i → (m.frames i).allocated ≡ false
unfolding find_unallocated
find_unallocated-free m e = unallocated_from-some m.size m.frames 0 e

module _ (io : Io) (disk : io.Disk) (m : Manager) (file_desc page_num : ℕ) where
  -- A frame that was free.
  free-Allocated :
      (i : ℕ)
      → (m.frames i).allocated ≡ false
      → Allocated io disk m file_desc page_num i
          (take_frame io
            (set_frame m i (record (m.frames i) { allocated = true }))
            i
            file_desc
            page_num)
          disk
  unfolding take_frame find lru_update
  free-Allocated i free = record {
    mapped = ground arith;
    newest = (_, refl);
    available = inl free;
    ready = (ground arith, ground arith);
    others = λ j ne. ground arith;
    written = λ h. cc;
  }

  abbrev unmapped : ℕ → Manager
  unmapped i = map_to m (key (m.frames i).file_desc (m.frames i).page.page_num) none

  -- A frame that was evicted, clean or after its page was written.
  module _ (i : ℕ) (idle : (m.frames i).pin_count ≡ 0) where
    clean-Allocated :
        (m.frames i).dirty ≡ false
        → Allocated io disk m file_desc page_num i
            (take_frame io (unmapped i) i file_desc page_num)
            disk
    unfolding take_frame find lru_update
    clean-Allocated tidy = record {
      mapped = ground arith;
      newest = (_, refl);
      available = inr idle;
      ready = (ground arith, ground arith);
      others = λ j ne. ground arith;
      written = λ h d. cc;
    }

    dirty-Allocated :
        (disk' : io.Disk)
        → flush_block io disk (m.frames i) ≡ (true, disk')
        → Allocated io disk m file_desc page_num i
            (take_frame io (set_frame (unmapped i) i (clean (m.frames i))) i file_desc page_num)
            disk'
    unfolding take_frame find lru_update
    dirty-Allocated disk' flushed = record {
      mapped = ground arith;
      newest = (_, refl);
      available = inr idle;
      ready = (ground arith, ground arith);
      others = λ j ne. ground arith;
      written = λ h d. flushed;
    }

  -- What `alloc` computes to in each case.
  pub alloc-free :
      (i : ℕ)
      → find_unallocated m ≡ some i
      → alloc io disk m file_desc page_num ≡ (
        some i,
        take_frame io
            (set_frame m i (record (m.frames i) { allocated = true }))
            i
            file_desc
            page_num,
        disk,
      )
  unfolding alloc
  alloc-free i e = rw (e, alloc)

  alloc-evict-none :
      (m' : Manager) (disk' : io.Disk)
      → find_unallocated m ≡ none
      → evict io disk m ≡ (none, m', disk')
      → alloc io disk m file_desc page_num ≡ (none, m', disk')
  unfolding alloc
  alloc-evict-none m' disk' full e = ground arith

  alloc-evict-some :
      (i : ℕ) (m' : Manager) (disk' : io.Disk)
      → find_unallocated m ≡ none
      → evict io disk m ≡ (some i, m', disk')
      → alloc io disk m file_desc page_num ≡ (some i, take_frame io m' i file_desc page_num, disk')
  unfolding alloc
  alloc-evict-some i m' disk' full e = ground arith

  evict-clean :
      (i : ℕ)
      → first_unpinned m.frames (reverse m.lru) ≡ some i
      → (m.frames i).dirty ≡ false
      → evict io disk m ≡ (some i, unmapped i, disk)
  unfolding evict
  evict-clean i e t = ground arith

  evict-dirty :
      (i : ℕ) (disk' : io.Disk)
      → first_unpinned m.frames (reverse m.lru) ≡ some i
      → (m.frames i).dirty ≡ true
      → flush_block io disk (m.frames i) ≡ (true, disk')
      → evict io disk m ≡ (some i, set_frame (unmapped i) i (clean (m.frames i)), disk')
  unfolding evict flush_block key
  evict-dirty i disk' e t f = rw (e, evict) (rw (t, evict) (rw (f, evict)))

  evict-failed :
      (i : ℕ) (disk' : io.Disk)
      → first_unpinned m.frames (reverse m.lru) ≡ some i
      → (m.frames i).dirty ≡ true
      → flush_block io disk (m.frames i) ≡ (false, disk')
      → evict io disk m ≡ (none, unmapped i, disk')
  unfolding evict flush_block key
  evict-failed i disk' e t f = rw (e, evict) (rw (t, evict) (rw (f, evict)))

  evicted :
      (victim : Option ℕ)
      → first_unpinned m.frames (reverse m.lru) ≡ victim
      → find_unallocated m ≡ none
      → Allocates io disk m file_desc page_num (alloc io disk m file_desc page_num)
  evicted none e full =
      rw (alloc-evict-none m disk full (unfold evict in rw (e, evict)))
        (record { frames = λ j. refl; full = full; reason = inl (e, refl) })
  evicted (some i) e full =
      let idle = first_unpinned-some m.frames (reverse m.lru) e in
      elim (Bool-cases (m.frames i).dirty) [
        | inr t ↦ rw (alloc-evict-some i _ disk full (evict-clean i e t)) (clean-Allocated i idle t)
        | inl t ↦
            let flushed = flush_block io disk (m.frames i) in
            let disk' = flushed.1 in
            elim (Bool-cases flushed.0) [
              | inr u ↦
                  let f : flushed ≡ (false, disk') = λ j. (u j, disk') in
                  rw (alloc-evict-none _ disk' full (evict-failed i disk' e t f))
                    (record { frames = λ j. refl; full = full; reason = inr (i, idle, t, f) })
              | inl u ↦
                  let f : flushed ≡ (true, disk') = λ j. (u j, disk') in
                  rw (alloc-evict-some i _ disk' full (evict-dirty i disk' e t f))
                    (dirty-Allocated i idle disk' f)
            ]
      ]

-- `alloc` gives out a frame that was free or that nobody has pinned: the map then leads from the page
-- to the frame, the frame is the one used last, it is not dirty and has the file's descriptor, no
-- other frame has changed, and if it was in use and held a dirty page that page was written to the
-- disk as a whole. If it gives out none then no frame was free and no frame has changed; either the
-- search along the list met only pinned frames and the disk is as it was, or a write of the dirty page of a frame that
-- nobody has pinned did not end well, and the disk is as that write left it.
pub alloc-Allocates :
    (io : Io) (disk : io.Disk) (m : Manager) (file_desc page_num : ℕ)
    → Allocates io disk m file_desc page_num (alloc io disk m file_desc page_num)
alloc-Allocates io disk m file_desc page_num = elim (Option-cases (find_unallocated m)) [
  | inl full ↦ evicted io disk m file_desc page_num _ refl full
  | inr (i, free) ↦
      rw (alloc-free io disk m file_desc page_num i free)
        (free-Allocated io disk m file_desc page_num i (find_unallocated-free m free))
]
