-- ===== src/Tests/Buffers.antt =====
-- The buffer pool at concrete inputs: two frames, and a disk that accepts every page.
use miniob.Base.{
  ℕ, ◌+◌, ◌*◌, ◌^◌, ◌≡◌, ◌≢◌, ◌<◌, refl, true, false, some, none, [], ◌∷◌, ◌==◌, if◌then◌else◌,
  arith, Memory, read_u32,
}
use miniob.Bitmap.{get_bit}
use miniob.Pool.{LruFrame, Io, key}
use miniob.Pool.Manager.{
  Manager, find, get, alloc, dispose_page, find_unallocated, unallocated_from,
}
use miniob.Pool.Manager.Alloc.{Allocates, alloc-Allocates}
use miniob.Pool.Manager.Stale.{dispose_page_aliases}
use miniob.Pool.Files.{
  FileHandle, page_count, allocated_pages, find_free_page, free_page_from, get_page,
}
use miniob.Pool.Files.Pages.{Gets, get_page-Gets}

-- A file with three pages, of which pages 0 and 2 are allocated.
abbrev header_bytes : Memory
header_bytes i = if i == 0 then 3 else if i == 4 then 2 else if i == 8 then 5 else 0

-- Frame 0 holds the header and is pinned, frame 1 holds page 2 and is not.
abbrev frames : ℕ → LruFrame
frames i = record {
  frame = record {
    dirty = false;
    pin_count = if i == 0 then 1 else 0;
    file_desc = 3;
    page = record { page_num = if i == 0 then 0 else 2; bytes = header_bytes };
  };
  allocated = true;
}

abbrev manager : Manager
manager = record {
  size = 2;
  frames = frames;
  lru = 1 ∷ 0 ∷ [];
  list_map = λ k. if k == 3 * 2 ^ 32 then some 0 else if k == 3 * 2 ^ 32 + 2 then some 1 else none;
}

-- The disk counts the writes.
abbrev io : Io
io = record {
  Disk = ℕ;
  write = λ disk file_desc page_num page. (true, disk + 1);
  read = λ disk file_desc page_num. some (record { page_num = page_num; bytes = λ _. 0 });
}

abbrev handle : FileHandle
handle = record { file_desc = 3; hdr_frame = 0 }

alloc-Allocates_example : Allocates io 0 manager 3 1 (alloc io 0 manager 3 1)
alloc-Allocates_example = alloc-Allocates io 0 manager 3 1

get_page-Gets_example : Gets io 0 manager handle 2 (get_page io 0 manager handle 2)
get_page-Gets_example = get_page-Gets io 0 manager handle 2

page_two_held : find manager 3 2 ≡ some 1
unfolding find key
page_two_held = refl

keys_differ : key 3 5 ≢ key 3 2
unfolding key
keys_differ = omega arith

frame_one_free : find_unallocated (dispose_page manager 3 2).1 ≡ some 1
unfolding find_unallocated unallocated_from dispose_page find key
frame_one_free = refl

dispose_page_aliases_example :
    let r = alloc io 0 (dispose_page manager 3 2).1 3 5 in
    (r.0 ≡ some 1) × ((get r.1 3 5).0 ≡ some 1) × ((get r.1 3 2).0 ≡ some 1)
dispose_page_aliases_example =
    dispose_page_aliases io 0 manager 3 2 5 1 page_two_held refl keys_differ frame_one_free

header-IsBytes : (i : ℕ) → header_bytes i < 256
header-IsBytes i = ground arith

header_counts : (page_count header_bytes ≡ 3) × (allocated_pages header_bytes ≡ 2)
unfolding read_u32
header_counts = (refl, refl)

page_one_free : find_free_page header_bytes ≡ some 1
unfolding find_free_page free_page_from read_u32 get_bit
page_one_free = refl
