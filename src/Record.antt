-- ===== src/Record.antt =====
-- src/observer/storage/common/record_manager.cpp and record_manager.h: record identifiers, and the
-- layout of a page of records. Sizes are ints that the code keeps non-negative.
pub mod Layout
pub mod Page
pub mod File
pub mod Scanner
use miniob.Base.{ℕ, ◌+◌, ◌-◌, ◌*◌, ◌/◌, ◌%◌, ◌==◌, if◌then◌else◌, Bool, ◌&&◌, Memory}

pub record Rid : Type 0 where
  pub page_num : ℕ
  pub slot_num : ℕ

unfoldable pub rid_equal : Rid → Rid → Bool
rid_equal a b = a.page_num == b.page_num && a.slot_num == b.slot_num

-- `data` is the pointer's view of the bytes from the record's first one on.
pub record Record : Type 0 where
  pub rid : Rid
  pub bytes : Memory

pub record PageHeader : Type 0 where
  pub record_num : ℕ
  pub record_capacity : ℕ
  pub record_real_size : ℕ
  pub record_size : ℕ
  pub first_record_offset : ℕ

-- BP_PAGE_DATA_SIZE, `sizeof(page.data)`
abbrev pub page_data_size : ℕ
page_data_size = 4092

unfoldable pub align8 : ℕ → ℕ
align8 size = size / 8 * 8 + (if size % 8 == 0 then 0 else 8)

-- Five ints.
abbrev pub page_fix_size : ℕ
page_fix_size = 20

-- The division by `record_size + 0.125` in doubles, truncated: both sides times eight. A quotient
-- that is no integer is too far from the next one for the rounding to reach it.
unfoldable pub page_record_capacity : ℕ → ℕ → ℕ
page_record_capacity page_size record_size =
    (page_size - page_fix_size - 1) * 8 / (record_size * 8 + 1)

unfoldable pub page_bitmap_size : ℕ → ℕ
page_bitmap_size record_capacity = record_capacity / 8 + (if record_capacity % 8 == 0 then 0 else 1)

unfoldable pub page_header_size : ℕ → ℕ
unfolding align8 page_bitmap_size
page_header_size record_capacity = align8 (page_fix_size + page_bitmap_size record_capacity)
