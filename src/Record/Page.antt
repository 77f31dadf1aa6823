-- ===== src/Record/Page.antt =====
-- `RecordPageHandler` of src/observer/storage/common/record_manager.cpp: the operations on the page
-- that the handler holds. The header's 20 bytes are the record `header`; the rest of the page's data
-- is `content`, which the code reads and writes from byte 20 on. `mark_dirty` always succeeds.
pub mod Invariant
pub mod Insert
pub mod Delete
pub mod Update
pub mod Scan
use miniob.Base.{
  ℕ, zero, suc, ◌+◌, ◌-◌, ◌*◌, Bool, true, false, Option, none, some, List, [], ◌∷◌, ltb, leb, ◌==◌,
  if◌then◌else◌, Memory, memcpy, memset,
}
use miniob.Bitmap.{Bitmap, get_bit, set_bit, clear_bit, next_unsetted_bit, next_setted_bit}
use miniob.Rc.{
  Rc, Outcome, ok, err, fault, record_nomem, invalid_argument, record_record_not_exist,
  record_invalidrid, record_eof,
}
use miniob.Record.{
  Rid, Record, PageHeader, page_fix_size, page_data_size, align8, page_record_capacity,
  page_bitmap_size, page_header_size,
}

pub record RecordPage : Type 0 where
  pub page_num : ℕ
  pub header : PageHeader
  pub open header use *
  pub content : Memory
  pub dirty : Bool

-- `Bitmap bitmap(bitmap_, page_header_->record_capacity)`
abbrev pub bitmap : RecordPage → Bitmap
bitmap p = record { memory = p.content; base = page_fix_size; size = p.record_capacity }

-- The slot `i` holds a record.
abbrev pub live : RecordPage → ℕ → Bool
live p i = get_bit (bitmap p) i

abbrev pub slot_offset : RecordPage → ℕ → ℕ
slot_offset p i = p.first_record_offset + i * p.record_size

-- The page as `init` leaves it, laid out for records of `record_size` bytes.
unfoldable pub init_empty_page : RecordPage → ℕ → RecordPage
init_empty_page p record_size =
    let record_phy_size = align8 record_size in
    let capacity = page_record_capacity page_data_size record_phy_size in
    record p {
      header = record {
        record_num = 0;
        record_capacity = capacity;
        record_real_size = record_size;
        record_size = record_phy_size;
        first_record_offset = page_header_size capacity;
      };
      content = memset p.content page_fix_size 0 (page_bitmap_size capacity);
      dirty = true;
    }

-- The page after the slot is marked and the data copied into it; `len` 0 stands for the real size.
unfoldable pub fill_slot : RecordPage → Memory → ℕ → ℕ → RecordPage
fill_slot p src len index = record p {
  header = record (p.header) { record_num = p.record_num + 1 };
  content =
      memcpy (set_bit (bitmap p) index) (slot_offset p index) src
        (if len == 0 then p.record_real_size else len);
  dirty = true;
}

-- The search's result is not checked by the code: with -1 it shifts by a negative number.
unfoldable pub insert_record : RecordPage → Memory → ℕ → Outcome (RecordPage × Rid)
insert_record p src len =
    if p.record_num == p.record_capacity
    then err record_nomem
    else elim (next_unsetted_bit (bitmap p) 0) [
      | none ↦ fault
      | some index ↦
          ok (fill_slot p src len index, record { page_num = p.page_num; slot_num = index })
    ]

unfoldable pub update_record : RecordPage → Record → Outcome RecordPage
update_record p rec =
    let slot = rec.rid.slot_num in
    if leb p.record_capacity slot
    then err invalid_argument
    else if get_bit (bitmap p) slot
    then ok (record p {
      content = memcpy p.content (slot_offset p slot) rec.bytes p.record_real_size;
      dirty = true;
    })
    else err record_record_not_exist

-- The handler disposes the page when its last record is gone: that is the caller's next step here.
unfoldable pub delete_record : RecordPage → Rid → Outcome RecordPage
delete_record p rid =
    if leb p.record_capacity rid.slot_num
    then err invalid_argument
    else if get_bit (bitmap p) rid.slot_num
    then ok (record p {
      header = record (p.header) { record_num = p.record_num - 1 };
      content = clear_bit (bitmap p) rid.slot_num;
      dirty = true;
    })
    else err record_record_not_exist

-- `rec->data` points to the slot in the page.
abbrev pub record_at : RecordPage → Rid → Record
record_at p rid = record { rid = rid; bytes = λ i. p.content (slot_offset p rid.slot_num + i) }

unfoldable pub get_record : RecordPage → Rid → Outcome Record
get_record p rid =
    if leb p.record_capacity rid.slot_num
    then err record_invalidrid
    else if get_bit (bitmap p) rid.slot_num
    then ok (record_at p rid)
    else err record_record_not_exist

-- The slot after the cursor; the cursor's slot number -1 is `none`.
abbrev pub next_slot : Option ℕ → ℕ
next_slot none = 0
next_slot (some slot) = slot + 1

-- `slot_num >= record_capacity - 1` is `record_capacity <= slot_num + 1`.
unfoldable pub get_next_record : RecordPage → Option ℕ → Outcome Record
get_next_record p slot_num =
    if leb p.record_capacity (next_slot slot_num)
    then err record_eof
    else elim (next_setted_bit (bitmap p) (next_slot slot_num)) [
      | none ↦ err record_eof
      | some index ↦ ok (record_at p (record { page_num = p.page_num; slot_num = index }))
    ]

unfoldable pub get_first_record : RecordPage → Outcome Record
unfolding get_next_record
get_first_record p = get_next_record p none

unfoldable pub is_full : RecordPage → Bool
is_full p = leb p.record_capacity p.record_num
