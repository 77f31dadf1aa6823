-- ===== src/Tests/Records.antt =====
-- Pages of records at concrete inputs: an empty page for records of 16 bytes, and one with a record.
use miniob.Base.{
  ℕ, ◌≡◌, ◌≢◌, ◌≤◌, ◌<◌, ◌↔◌, refl, false, none, arith, Memory, IsBytes, memset, ◌==◌,
  if◌then◌else◌,
}
use miniob.Bitmap.{
  get_bit, next_unsetted_bit, scan_unsetted, find_first_zero, find_zero_from, within_size, end_byte,
}
use miniob.Rc.{ok}
use miniob.Record.{
  Rid, Record, align8, page_record_capacity, page_bitmap_size, page_header_size, page_data_size,
}
use miniob.Record.Layout.{slots_end, slots_fit}
use miniob.Record.Page.{
  RecordPage, fill_slot, init_empty_page, insert_record, update_record, delete_record, get_record,
  get_next_record, live,
}
use miniob.Record.Page.Invariant.{IsValid, init_empty-IsValid}
use miniob.Record.Page.Insert.{Inserted, fill_slot-IsValid, copied, insert_record-Inserted}
use miniob.Record.Page.Delete.{Deletes, delete_record-Deletes}
use miniob.Record.Page.Update.{Updates, update_record-Updates, get_record-insert_record}
use miniob.Record.Page.Scan.{Next, get_next_record-Next}

abbrev pub raw_page : RecordPage
raw_page = record {
  page_num = 1;
  header = record {
    record_num = 0;
    record_capacity = 0;
    record_real_size = 0;
    record_size = 0;
    first_record_offset = 0;
  };
  content = λ _. 255;
  dirty = false;
}

abbrev pub empty_page : RecordPage
empty_page = init_empty_page raw_page 16

abbrev pub sevens : Memory
sevens _ = 7

pub sevens-IsBytes : IsBytes sevens
sevens-IsBytes i = omega arith

empty_page-IsValid : IsValid empty_page
empty_page-IsValid = init_empty-IsValid raw_page 16 (λ i. omega arith)

empty_page_room : empty_page.record_num ≢ empty_page.record_capacity
unfolding init_empty_page align8 page_record_capacity
empty_page_room = omega arith

empty_page_fits : 16 ≤ empty_page.record_size
unfolding init_empty_page align8
empty_page_fits = omega arith

insert_record-Inserted_example :
    (q : RecordPage) × (rid : Rid) × (insert_record empty_page sevens 16 ≡ ok (q, rid))
    × Inserted empty_page sevens 16 q rid
insert_record-Inserted_example =
    insert_record-Inserted empty_page sevens 16 empty_page-IsValid sevens-IsBytes empty_page_fits
      empty_page_room

abbrev pub first_rid : Rid
first_rid = record { page_num = 1; slot_num = 0 }

-- The page after the first record is inserted.
abbrev pub one_page : RecordPage
one_page = fill_slot empty_page sevens 16 0

insert_first : insert_record empty_page sevens 16 ≡ ok (one_page, first_rid)
unfolding insert_record init_empty_page fill_slot align8 page_record_capacity page_header_size
    next_unsetted_bit scan_unsetted find_first_zero find_zero_from within_size end_byte
    page_bitmap_size memset
insert_first = refl

get_record-insert_record_example :
    (rec : Record) × (get_record one_page first_rid ≡ ok rec)
    × ((i : ℕ) → i < copied empty_page 16 → rec.bytes i ≡ sevens i)
get_record-insert_record_example =
    get_record-insert_record empty_page one_page sevens 16 first_rid empty_page-IsValid
      sevens-IsBytes empty_page_fits insert_first

empty_page_zero : 0 < empty_page.record_capacity
unfolding init_empty_page page_record_capacity align8
empty_page_zero = omega arith

empty_page_free : live empty_page 0 ≡ false
unfolding init_empty_page get_bit memset page_bitmap_size page_record_capacity align8
empty_page_free = refl

pub one_page-IsValid : IsValid one_page
one_page-IsValid =
    fill_slot-IsValid empty_page sevens 16 0 empty_page-IsValid empty_page_fits sevens-IsBytes
      empty_page_zero empty_page_free

delete_record-Deletes_example : Deletes one_page first_rid (delete_record one_page first_rid)
delete_record-Deletes_example = delete_record-Deletes one_page first_rid one_page-IsValid

abbrev changed : Record
changed = record { rid = first_rid; bytes = λ _. 9 }

update_record-Updates_example : Updates one_page changed (update_record one_page changed)
update_record-Updates_example =
    update_record-Updates one_page changed one_page-IsValid (λ i. omega arith)

get_next_record-Next_example : Next one_page none (get_next_record one_page none)
get_next_record-Next_example = get_next_record-Next one_page none tt

slots_fit_example : (slots_end 16 ≤ page_data_size) ↔ (8 < 16)
slots_fit_example = slots_fit 16 (omega arith) (omega arith)

-- The record in slot 0 is deleted, and the one in slot 8 is left.
abbrev sparse_page : RecordPage
sparse_page = record raw_page {
  header = record {
    record_num = 1;
    record_capacity = 252;
    record_real_size = 16;
    record_size = 16;
    first_record_offset = 56;
  };
  content = λ i. if i == 21 then 1 else 0;
}
