-- ===== src/Pool/Manager.antt =====
-- src/observer/storage/default/bp_manager.cpp: the frames, their LRU list and the map from pages to
-- frames. A pointer to a frame is its index in `frames`; `lru` is the circular list from
-- `frame_list.next`, the frame used last, to `frame_list.prev`.
pub mod Lru
pub mod Alloc
pub mod Stale
use miniob.Base.{
  ℕ, zero, suc, ◌+◌, Bool, true, false, not, ◌&&◌, ◌||◌, Option, none, some, List, [], ◌∷◌, ◌==◌,
  if◌then◌else◌,
}
use mathlib.Core.List.{reverse}
use miniob.Rc.{Rc, success, locked_unlock, bufferpool_page_pinned, ioerr_write}
use miniob.Pool.{Page, Frame, LruFrame, Io, key}

pub record Manager : Type 0 where
  pub size : ℕ
  pub frames : ℕ → LruFrame
  pub lru : List ℕ
  pub list_map : ℕ → Option ℕ

abbrev pub set_frame : Manager → ℕ → LruFrame → Manager
set_frame m i f = record m { frames = λ j. if i == j then f else m.frames j }

abbrev pub map_to : Manager → ℕ → Option ℕ → Manager
map_to m k v = record m { list_map = λ j. if k == j then v else m.list_map j }

-- `list_delete`
unfoldable pub list_delete : List ℕ → ℕ → List ℕ
list_delete [] i = []
list_delete (j ∷ js) i = if i == j then js else j ∷ list_delete js i

-- `list_add` puts the frame in front.
unfoldable pub lru_update : Manager → ℕ → Manager
lru_update m i = record m { lru = i ∷ list_delete m.lru i }

-- The loop of `find_unallocated` from frame `i` with `n` frames left.
unfoldable pub unallocated_from : ℕ → (ℕ → LruFrame) → ℕ → Option ℕ
unallocated_from zero frames i = none
unallocated_from (suc n) frames i =
    let rest = unallocated_from n frames (i + 1) in if (frames i).allocated then rest else some i

unfoldable pub find_unallocated : Manager → Option ℕ
find_unallocated m = unallocated_from m.size m.frames 0

unfoldable pub find : Manager → ℕ → ℕ → Option ℕ
find m file_desc page_num = m.list_map (key file_desc page_num)

-- The frame that `get` returns, and the manager after it.
unfoldable pub get : Manager → ℕ → ℕ → Option ℕ × Manager
get m file_desc page_num = elim (find m file_desc page_num) [
  | some i ↦ (some i, lru_update m i)
  | none ↦ (none, m)
]

-- The search of `evict` along the list: the first frame that nobody has pinned.
unfoldable pub first_unpinned : (ℕ → LruFrame) → List ℕ → Option ℕ
first_unpinned frames [] = none
first_unpinned frames (i ∷ is) =
    if (frames i).pin_count == 0 then some i else first_unpinned frames is

abbrev pub clean : LruFrame → LruFrame
clean f = record f { frame = record (f.frame) { dirty = false } }

-- The frame is marked as free; the map still leads to it.
unfoldable pub dispose_page : Manager → ℕ → ℕ → Rc × Manager
dispose_page m file_desc page_num = elim (find m file_desc page_num) [
  | none ↦ (success, m)
  | some i ↦
      if (m.frames i).pin_count == 0
      then (success, set_frame m i (record (m.frames i) { allocated = false }))
      else (bufferpool_page_pinned, m)
]

module _ (io : Io) where
  open io use {Disk, write}

  -- `DiskBufferPool::flush_block`: whether the frame's page was written as a whole, and the disk after
  -- it; the caller clears the mark.
  unfoldable pub flush_block : Disk → LruFrame → Bool × Disk
  flush_block disk f = write disk f.file_desc f.page.page_num f.page

  -- What `alloc` and `evict` return: a frame or nullptr, the manager and the disk.
  abbrev pub Found : Type 0
  Found = Option ℕ × Manager × Disk

  unfoldable pub evict : Disk → Manager → Found
  evict disk m = elim (first_unpinned m.frames (reverse m.lru)) [
    | none ↦ (none, m, disk)
    | some i ↦
        let f = m.frames i in
        let unmapped = map_to m (key f.file_desc f.page.page_num) none in
        if f.dirty
        then (let (written, disk') = flush_block disk f in
            if written
            then (some i, set_frame unmapped i (clean f), disk')
            else (none, unmapped, disk'))
        else (some i, unmapped, disk)
  ]

  -- The end of `alloc`, which leaves the page of the frame as it is.
  unfoldable pub take_frame : Manager → ℕ → ℕ → ℕ → Manager
  take_frame m i file_desc page_num =
      let f = m.frames i in
      let taken = record f { frame = record (f.frame) { dirty = false; file_desc = file_desc } } in
      lru_update (map_to (set_frame m i taken) (key file_desc page_num) (some i)) i

  unfoldable pub alloc : Disk → Manager → ℕ → ℕ → Found
  alloc disk m file_desc page_num = elim (find_unallocated m) [
    | some i ↦
        let marked = set_frame m i (record (m.frames i) { allocated = true }) in
        (some i, take_frame marked i file_desc page_num, disk)
    | none ↦
        let (victim, m', disk') = evict disk m in
        elim victim [
          | none ↦ (none, m', disk')
          | some i ↦ (some i, take_frame m' i file_desc page_num, disk')
        ]
  ]

  unfoldable pub dispose_block : Disk → Manager → ℕ → Rc × Manager × Disk
  dispose_block disk m i =
      let f = m.frames i in
      let freed = set_frame m i (record (clean f) { allocated = false }) in
      if f.pin_count == 0
      then if f.dirty
        then (let (written, disk') = flush_block disk f in
            if written then (success, freed, disk') else (ioerr_write, m, disk'))
        else (success, freed, disk)
      else (locked_unlock, m, disk)

  -- The loop of `force_all_pages` from frame `i` with `n` frames left.
  unfoldable pub force_from : ℕ → Disk → Manager → ℕ → ℕ → Rc × Manager × Disk
  force_from zero disk m file_desc i = (success, m, disk)
  force_from (suc n) disk m file_desc i =
      let f = m.frames i in
      elim (not f.allocated || not (f.file_desc == file_desc)) [
        | true ↦ force_from n disk m file_desc (i + 1)
        | false ↦ elim (f.dirty) [
          | true ↦
              let (written, disk') = flush_block disk f in
              let rest =
                force_from n disk' (set_frame m i (record (clean f) { allocated = false }))
                  file_desc (i + 1) in
              if written then rest else (ioerr_write, m, disk')
          | false ↦
              force_from n disk (set_frame m i (record f { allocated = false })) file_desc (i + 1)
        ]
      ]

  unfoldable pub force_all_pages : Disk → Manager → ℕ → Rc × Manager × Disk
  force_all_pages disk m file_desc = force_from m.size disk m file_desc 0
