-- ===== src/Pool/Files.antt =====
-- src/observer/storage/default/disk_buffer_pool.cpp: `DiskBufferPool` over the frames of `BPManager`.
-- The header of a file is its page 0, in a pinned frame: `page_count` and `allocated_pages`, four
-- bytes each, and then the bitmap of the allocated pages. Page numbers here are never negative.
pub mod Header
pub mod Pages
use miniob.Base.{
  ℕ, zero, suc, ◌+◌, ◌-◌, ◌%◌, ◌^◌, Bool, true, false, Option, none, some, ltb, leb, ◌==◌,
  if◌then◌else◌, Memory, read_u32, write_u32,
}
use miniob.Bitmap.{Bitmap, get_bit, set_bit, clear_bit}
use miniob.Pool.{Page, LruFrame, Io}
use miniob.Pool.Manager.{
  Manager, set_frame, clean, get, alloc, dispose_block, dispose_page, flush_block, force_all_pages,
}
use miniob.Rc.{
  Rc, success, generic_error, is_success, bufferpool_illegal_file_id, bufferpool_invalid_page_num,
  ioerr_read, ioerr_write,
}

pub record FileHandle : Type 0 where
  pub file_desc : ℕ
  pub hdr_frame : ℕ

pub record Pool : Type 0 where
  pub manager : Manager
  pub open_list : ℕ → Option FileHandle

abbrev pub max_open_file : ℕ
max_open_file = 1024

-- BP_FILE_SUB_HDR_SIZE
abbrev pub sub_header_size : ℕ
sub_header_size = 8

abbrev pub page_count : Memory → ℕ
page_count header = read_u32 header 0

abbrev pub allocated_pages : Memory → ℕ
allocated_pages header = read_u32 header 4

abbrev pub page_bitmap : Memory → Bitmap
page_bitmap header = record { memory = header; base = sub_header_size; size = page_count header }

-- The bytes of the frame that holds the file's header.
abbrev pub header_of : Manager → FileHandle → Memory
header_of m h = (m.frames h.hdr_frame).page.bytes

abbrev pub put_bytes : LruFrame → Memory → LruFrame
put_bytes f bytes = record f {
  frame = record (f.frame) { page = record (f.page) { bytes = bytes } };
}

abbrev pub put_pin : LruFrame → ℕ → LruFrame
put_pin f n = record f { frame = record (f.frame) { pin_count = n } }

abbrev pub put_dirty : LruFrame → LruFrame
put_dirty f = record f { frame = record (f.frame) { dirty = true } }

abbrev pub put_page : LruFrame → Page → LruFrame
put_page f page = record f { frame = record (f.frame) { page = page } }

-- The open file, or the error code.
unfoldable pub check_file_id : Pool → ℕ → Option FileHandle
check_file_id pool file_id = if leb max_open_file file_id then none else pool.open_list file_id

unfoldable pub check_page_num : Memory → ℕ → Bool
check_page_num header page_num =
    if leb (page_count header) page_num then false else get_bit (page_bitmap header) page_num

unfoldable pub mark_dirty : Manager → ℕ → Manager
mark_dirty m i = set_frame m i (put_dirty (m.frames i))

-- `pin_count--` on an unsigned int.
unfoldable pub unpin_page : Manager → ℕ → Manager
unpin_page m i =
    set_frame m i (put_pin (m.frames i) (((m.frames i).pin_count + 2 ^ 32 - 1) % 2 ^ 32))

-- The header with one more page allocated, whose bit is set.
unfoldable pub take_page : Memory → ℕ → Memory
take_page header page_num =
    set_bit (page_bitmap (write_u32 header 4 (allocated_pages header + 1))) page_num

-- The header with the page's bit cleared, and one page less.
unfoldable pub release_page : Memory → ℕ → Memory
release_page header page_num =
    clear_bit (page_bitmap (write_u32 header 4 ((allocated_pages header + 2 ^ 32 - 1) % 2 ^ 32)))
      page_num

-- The search of `allocate_page` for a clear bit, from page `i` with `n` pages left.
unfoldable pub free_page_from : ℕ → Memory → ℕ → Option ℕ
free_page_from zero header i = none
free_page_from (suc n) header i =
    let rest = free_page_from n header (i + 1) in
    if get_bit (page_bitmap header) i then rest else some i

unfoldable pub find_free_page : Memory → Option ℕ
find_free_page header =
    if ltb (allocated_pages header) (page_count header)
    then free_page_from (page_count header) header 0
    else none

module _ (io : Io) where
  open io use {Disk, read}

  -- The code, the frame of the page handle, the frames and the disk.
  abbrev pub Reply : Type 0
  Reply = Rc × Option ℕ × Manager × Disk

  -- `load_page` into the frame `i` that was just given out and pinned.
  unfoldable pub load_page : Disk → Manager → FileHandle → ℕ → ℕ → Reply
  load_page disk m h page_num i = elim (read disk h.file_desc page_num) [
    | some page ↦ (success, some i, set_frame m i (put_page (m.frames i) page), disk)
    | none ↦
        let (rc, m', disk') = dispose_block io disk (set_frame m i (put_pin (m.frames i) 0)) i in
        (ioerr_read, none, m', disk')
  ]

  unfoldable pub get_page : Disk → Manager → FileHandle → ℕ → Reply
  get_page disk m h page_num =
      if check_page_num (header_of m h) page_num
      then (let (found, m') = get m h.file_desc page_num in
          elim found [
            | some i ↦ (
              success,
              some i,
              set_frame m' i (put_pin (m'.frames i) (((m'.frames i).pin_count + 1) % 2 ^ 32)),
              disk,
            )
            | none ↦
                let (frame, m'', disk') = alloc io disk m' h.file_desc page_num in
                elim frame [
                  | none ↦ (generic_error, none, m'', disk')
                  | some i ↦
                      load_page disk' (set_frame m'' i (put_pin (m''.frames i) 1)) h page_num i
                ]
          ])
      else (bufferpool_invalid_page_num, none, m, disk)

  unfoldable pub get_this_page : Disk → Pool → ℕ → ℕ → Reply
  get_this_page disk pool file_id page_num = elim (check_file_id pool file_id) [
    | none ↦ (bufferpool_illegal_file_id, none, pool.manager, disk)
    | some h ↦ get_page disk pool.manager h page_num
  ]

  -- A free page is taken over without marking the header's frame as dirty.
  unfoldable pub reuse_page : Disk → Manager → FileHandle → ℕ → Reply
  reuse_page disk m h page_num =
      let f = m.frames h.hdr_frame in
      get_page disk (set_frame m h.hdr_frame (put_bytes f (take_page f.page.bytes page_num))) h
        page_num

  -- The header counts one more page, and the frame `i` becomes that page, all zeros, on the disk too.
  unfoldable pub extend_file : Disk → Manager → FileHandle → ℕ → Reply
  extend_file disk m h i =
      let f = m.frames h.hdr_frame in
      let page_num = page_count f.page.bytes in
      let bytes = write_u32 (take_page f.page.bytes page_num) 0 (page_count f.page.bytes + 1) in
      let m' = set_frame m h.hdr_frame (put_dirty (put_bytes f bytes)) in
      let blank =
        put_page (put_pin (m'.frames i) 1) (record { page_num = page_num; bytes = λ _. 0 }) in
      let (written, disk') = flush_block io disk blank in
      if written
      then (success, some i, set_frame m' i (clean blank), disk')
      else (ioerr_write, none, set_frame m' i blank, disk')

  unfoldable pub allocate_page : Disk → Pool → ℕ → Reply
  allocate_page disk pool file_id = elim (check_file_id pool file_id) [
    | none ↦ (bufferpool_illegal_file_id, none, pool.manager, disk)
    | some h ↦
        let m = pool.manager in
        elim (find_free_page (header_of m h)) [
          | some page_num ↦ reuse_page disk m h page_num
          | none ↦
              let (frame, m', disk') = alloc io disk m h.file_desc (page_count (header_of m h)) in
              elim frame [
                | none ↦ (generic_error, none, m', disk')
                | some i ↦ extend_file disk' m' h i
              ]
        ]
  ]

-- `DiskBufferPool::dispose_page`
unfoldable pub dispose_file_page : Pool → ℕ → ℕ → Rc × Manager
dispose_file_page pool file_id page_num = elim (check_file_id pool file_id) [
  | none ↦ (bufferpool_illegal_file_id, pool.manager)
  | some h ↦
      if check_page_num (header_of pool.manager h) page_num
      then (let (rc, m) = dispose_page pool.manager h.file_desc page_num in
          let f = m.frames h.hdr_frame in
          if is_success rc
          then (
            success,
            set_frame m h.hdr_frame (put_dirty (put_bytes f (release_page f.page.bytes page_num))),
          )
          else (rc, m))
      else (bufferpool_invalid_page_num, pool.manager)
]

unfoldable pub get_page_count : Pool → ℕ → Option ℕ
get_page_count pool file_id = elim (check_file_id pool file_id) [
  | none ↦ none
  | some h ↦ some (page_count (header_of pool.manager h))
]

unfoldable pub flush_all_pages : (io : Io) → io.Disk → Pool → ℕ → Rc × Manager × io.Disk
flush_all_pages io disk pool file_id = elim (check_file_id pool file_id) [
  | none ↦ (bufferpool_illegal_file_id, pool.manager, disk)
  | some h ↦ force_all_pages io disk pool.manager h.file_desc
]
