-- ===== src/Record/File.antt =====
-- `RecordFileHandler` and `RecordFileScanner` of src/observer/storage/common/record_manager.cpp, over
-- the operations on one page. `pages` is what `get_this_page` answers for each page number, and
-- `allocate_page` and `is_pinned` what the buffer pool answers; the file stays open.
pub mod Search
pub mod Room
pub mod Insert
pub mod Lost
pub mod Reads
use miniob.Base.{
  ℕ, zero, suc, ◌+◌, ◌-◌, ◌*◌, ◌%◌, ◌⊎◌, inl, inr, Bool, true, false, not, ◌&&◌, ◌||◌, Option, none,
  some, ltb, leb, ◌==◌, if◌then◌else◌, Memory,
}
use miniob.Rc.{Rc, Outcome, ok, err, fault, success, is_success, bufferpool_invalid_page_num}
use miniob.Record.{Rid, Record, page_data_size, page_fix_size}
use miniob.Record.Page
use miniob.Record.Page.{RecordPage, is_full, init_empty_page, slot_offset}

abbrev pub Pages : Type 0
Pages = ℕ → Rc ⊎ RecordPage

-- `held` is the page whose header the page handler points to, and `attached` tells whether the
-- handler has its page pinned: `deinit` lets the page go and keeps the pointers.
pub record RecordFile : Type 0 where
  pub pages : Pages
  pub page_count : ℕ
  pub held : Option ℕ
  pub attached : Bool

-- What an operation returns, and the file after it.
abbrev pub Reply : Type 0 → Type 0
Reply A = Outcome A × RecordFile

abbrev pub put_page : Pages → ℕ → RecordPage → Pages
put_page pages n page i = if n == i then inr page else pages i

-- `get_page_num() == n`
abbrev pub holds : Option ℕ → ℕ → Bool
holds none n = false
holds (some m) n = m == n

-- `deinit` and `init`.
unfoldable pub open_page : RecordFile → ℕ → Rc × RecordFile
open_page file n = elim (file.pages n) [
  | inl rc ↦ (rc, record file { attached = false })
  | inr page ↦ (success, record file { held = some n; attached = true })
]

unfoldable pub reach_page : RecordFile → ℕ → Rc × RecordFile
reach_page file n =
    let opened = open_page file n in if holds file.held n then (success, file) else opened

-- The page of the handler's pointers, which are null before the first page.
unfoldable pub held_page : RecordFile → Option RecordPage
held_page file = elim (file.held) [
  | none ↦ none
  | some n ↦ elim (file.pages n) [ inl rc ↦ none | inr page ↦ some page ]
]

-- The codes of `init` after which the search goes on.
abbrev pub goes_on : Rc → Bool
goes_on success = true
goes_on bufferpool_invalid_page_num = true
goes_on _ = false

-- `is_full` on the page of the handler's pointers; a null pointer is a fault.
unfoldable pub look_at : Reply Bool → RecordFile → Reply Bool
look_at rest file = elim (held_page file) [
  | none ↦ (fault, file)
  | some page ↦ if is_full page then rest else (ok true, file)
]

-- The loop over the pages, with `n` rounds left: whether a page with room is found.
unfoldable pub find_page : ℕ → RecordFile → ℕ → ℕ → Reply Bool
find_page zero file i current = (ok false, file)
find_page (suc n) file i current =
    let next = (current + i) % file.page_count in
    let skipped = find_page n file (i + 1) next in
    let (rc, reached) = reach_page file next in
    let rest = find_page n reached (i + 1) next in
    let looked = look_at rest reached in
    if next == 0 then skipped else if goes_on rc then looked else (err rc, reached)

abbrev pub begin_with : Rc × RecordFile → Reply ℕ
unfolding is_success
begin_with (rc, opened) = if is_success rc then (ok 1, opened) else (err rc, opened)

-- The page that the search starts from, or 0 for a file without data pages.
unfoldable pub start_page : RecordFile → Reply ℕ
start_page file =
    let first = begin_with (open_page file 1) in
    elim (file.held) [
      | some n ↦ (ok n, file)
      | none ↦ if leb 2 file.page_count then first else (ok 0, file)
    ]

abbrev pub search_from : Reply ℕ → Reply Bool
search_from (ok current, file) = find_page file.page_count file 0 current
search_from (err rc, file) = (err rc, file)
search_from (fault, file) = (fault, file)

unfoldable pub search_page : RecordFile → Reply Bool
search_page file = search_from (start_page file)

-- `fixed_size`
abbrev pub fixed_size : ℕ
fixed_size = page_data_size - page_fix_size - 16

-- The copy's length: 0 stands for the page's record size.
abbrev pub copy_length : RecordPage → ℕ → ℕ
copy_length page len = if len == 0 then page.record_real_size else len

-- The bytes that the copy writes end inside the page's data.
abbrev pub ends_inside : RecordPage → ℕ → ℕ → Bool
ends_inside page slot len = leb (slot_offset page slot + copy_length page len) page_data_size

-- Without a buffer pool there is no `mark_dirty`; a copy beyond the page's data, or of more than the
-- `available` bytes that the caller's data has, has no defined effect.
abbrev pub stored_in : RecordFile → RecordPage → ℕ → ℕ → Outcome (RecordPage × Rid) → Reply Rid
stored_in file page len available (ok (page', rid)) =
    if file.attached && ends_inside page rid.slot_num len && leb (copy_length page len) available
    then (ok rid, record file { pages = put_page file.pages rid.page_num page' })
    else (fault, file)
stored_in file page len available (err rc) = (err rc, file)
stored_in file page len available fault = (fault, file)

-- `insert_record` on the page that the handler holds, of data of which `available` bytes are there.
unfoldable pub insert_here : RecordFile → Memory → ℕ → ℕ → Reply Rid
insert_here file src len available = elim (held_page file) [
  | none ↦ (fault, file)
  | some page ↦ stored_in file page len available (Page.insert_record page src len)
]

module _ (allocate_page : RecordFile → Rc ⊎ (RecordPage × ℕ)) where
  -- A new page, laid out for records of `size` bytes, becomes the handler's.
  unfoldable pub add_page : RecordFile → ℕ → Reply Bool
  add_page file size = elim (allocate_page file) [
    | inl rc ↦ (err rc, file)
    | inr (page, count) ↦ (
      ok true,
      record file {
        pages = put_page file.pages page.page_num (init_empty_page page size);
        page_count = count;
        held = some page.page_num;
        attached = true;
      },
    )
  ]

  abbrev pub ensure_page : ℕ → Reply Bool → Reply Bool
  ensure_page size (ok false, file) = add_page file size
  ensure_page size (r, file) = (r, file)

  abbrev pub insert_found : Memory → ℕ → ℕ → Reply Bool → Reply Rid
  insert_found src len available (ok _, file) = insert_here file src len available
  insert_found src len available (err rc, file) = (err rc, file)
  insert_found src len available (fault, file) = (fault, file)

  -- One round of `insert_record`: the part of the record from `cur` on. After the first round the copy
  -- starts four bytes before it and takes all that is left.
  unfoldable pub insert_part : RecordFile → Memory → ℕ → ℕ → Reply Rid
  insert_part file src size cur =
      let slot_size = if ltb fixed_size size then fixed_size else size - cur in
      let room = ensure_page slot_size (search_page file) in
      if cur == 0
      then insert_found src 0 size room
      else insert_found (λ i. src (cur - 4 + i)) (size - cur + 4) (size - cur + 4) room

  abbrev pub then_parts :
      (RecordFile → Rid → Option (Reply (Option Rid))) → Reply Rid → Option (Reply (Option Rid))
  then_parts next (ok rid, file) = next file rid
  then_parts next (err rc, file) = some (err rc, file)
  then_parts next (fault, file) = some (fault, file)

  -- The loop of `insert_record`; `rid` is where the last part went, and `none` that fuel ran out.
  unfoldable pub insert_parts :
      ℕ → RecordFile → Memory → ℕ → ℕ → Option Rid → Option (Reply (Option Rid))
  insert_parts zero file src size cur rid = none
  insert_parts (suc fuel) file src size cur rid =
      let rest =
        then_parts (λ file' rid'. insert_parts fuel file' src size (cur + fixed_size) (some rid'))
          (insert_part file src size cur) in
      elim (leb size cur) [ true ↦ some (ok rid, file) | false ↦ rest ]

  -- The parts are at most as many as the bytes.
  unfoldable pub insert_record : RecordFile → Memory → ℕ → Option (Reply (Option Rid))
  unfolding insert_parts
  insert_record file src size = insert_parts (suc size) file src size 0 none

-- `(ret != init(...)) != SUCCESS` leaves `ret` at SUCCESS: a page that is not there is no error.
unfoldable pub update_record : RecordFile → Record → Outcome RecordFile
update_record file rec = elim (file.pages rec.rid.page_num) [
  | inl rc ↦ ok file
  | inr page ↦ elim (Page.update_record page rec) [
    | ok page' ↦ ok (record file { pages = put_page file.pages rec.rid.page_num page' })
    | err rc ↦ err rc
    | fault ↦ fault
  ]
]

-- The handler disposes the page of its last record, unless another one has it pinned.
unfoldable pub delete_record : (ℕ → Bool) → RecordFile → Rid → Outcome RecordFile
delete_record is_pinned file rid = elim (file.pages rid.page_num) [
  | inl rc ↦ ok file
  | inr page ↦ elim (Page.delete_record page rid) [
    | ok page' ↦
        let kept = record file { pages = put_page file.pages rid.page_num page' } in
        let gone = record file {
          pages = λ i. if rid.page_num == i then inl bufferpool_invalid_page_num else file.pages i;
        } in
        let is_kept = not (page'.record_num == 0) || is_pinned rid.page_num in
        if is_kept then ok kept else ok gone
    | err rc ↦ err rc
    | fault ↦ fault
  ]
]

-- A record that is not there is left as the caller had it, under SUCCESS.
unfoldable pub get_record : RecordFile → Rid → Outcome (Option Record)
get_record file rid = elim (file.pages rid.page_num) [
  | inl rc ↦ ok none
  | inr page ↦ elim (Page.get_record page rid) [
    | ok rec ↦ ok (some rec)
    | err rc ↦ err rc
    | fault ↦ fault
  ]
]
