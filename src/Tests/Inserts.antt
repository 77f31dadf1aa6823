-- ===== src/Tests/Inserts.antt =====
-- The first insertion of a transaction, into a file with one data page.
use miniob.Base.{
  ◌≡◌, refl, true, false, none, some, [], ◌∷◌, arith, Memory, memset, memcpy, write, write_u32,
}
use miniob.Bitmap.{
  get_bit, set_bit, next_unsetted_bit, scan_unsetted, find_first_zero, find_zero_from, within_size,
  end_byte,
}
use miniob.Rc.{ok, is_success}
use miniob.Record.{align8, page_record_capacity, page_bitmap_size, page_header_size}
use miniob.Record.Page
use miniob.Record.Page.{fill_slot, init_empty_page, is_full}
use miniob.Record.File
use miniob.Record.File.{
  RecordFile, put_page, insert_parts, insert_part, insert_here, search_page, start_page, find_page,
  look_at, held_page, reach_page, open_page,
}
use miniob.Trx.{find_operation, init_trx_info, set_record_trx_id}
use miniob.Table.Change.{Table, marked, insert_entries, insert_entry_of_indexes, insert_record}
use miniob.Table.Change.Insert.{Numbered, insert_record-Numbered}
use miniob.Tests.Records.{empty_page, sevens, sevens-IsBytes, first_rid}
use miniob.Tests.Files.{file, file-Handled, file-laid, allocate_page, allocated}
use miniob.Tests.Tables.{counting, idle, session}

-- The other index and the unique one have room.
abbrev roomy : Table counting
roomy = record { file = file; indexes = 5 ∷ []; unique_indexes = 5 ∷ [] }

abbrev word_zero : Memory
word_zero = marked counting (some idle) sevens

abbrev filed_file : RecordFile
filed_file = record {
  pages = put_page file.pages 1 (fill_slot empty_page word_zero 0 0);
  page_count = 2;
  held = some 1;
  attached = true;
}

filed : File.insert_record allocate_page file word_zero 16 ≡ some (ok (some first_rid), filed_file)
unfolding File.insert_record insert_parts insert_part insert_here search_page start_page find_page
    look_at held_page reach_page open_page Page.insert_record fill_slot init_empty_page is_full
    is_success next_unsetted_bit scan_unsetted find_first_zero find_zero_from within_size end_byte
    get_bit set_bit align8 page_record_capacity page_bitmap_size page_header_size memset memcpy
    write write_u32 init_trx_info set_record_trx_id
filed = refl

nothing_queued : find_operation [] 1 first_rid ≡ none
unfolding find_operation
nothing_queued = refl

both_take :
    is_success
      (insert_entry_of_indexes counting (record roomy { file = filed_file }) word_zero first_rid).0
    ≡ true
unfolding insert_entry_of_indexes insert_entries is_success
both_take = refl

insert_record-Numbered_example :
    Numbered counting
      (λ n. false)
      1
      allocate_page
      allocated
      idle
      3
      first_rid
      (insert_record counting (λ n. false) 1 allocate_page roomy session sevens 16)
insert_record-Numbered_example =
    insert_record-Numbered counting (λ n. false) 1 allocate_page allocated roomy session idle sevens
      16 first_rid filed_file refl (omega arith) file-Handled file-laid sevens-IsBytes (omega arith)
      (omega arith) filed nothing_queued both_take
