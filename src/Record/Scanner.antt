-- ===== src/Record/Scanner.antt =====
-- `RecordFileScanner` of src/observer/storage/common/record_manager.cpp. The page that the scanner's
-- page handler holds is as it stands in the file.
pub mod Hits
pub mod Scan
use miniob.Base.{
  ℕ, zero, suc, ◌+◌, ◌-◌, ◌^◌, inl, inr, Bool, true, false, Option, none, some, leb, ◌==◌,
  if◌then◌else◌,
}
use miniob.Rc.{Rc, Outcome, ok, err, fault, record_eof, record_closed, is_eof, is_invalid_page}
use miniob.Record.{Rid, Record}
use miniob.Record.Page
use miniob.Record.Page.{RecordPage, record_at, next_slot}
use miniob.Record.File.{RecordFile, Pages}

-- `condition_filter == nullptr` is a filter that every record passes.
pub record RecordScanner : Type 0 where
  pub opened : Bool
  pub filter : Option (Record → Bool)

unfoldable pub open_scan : Option (Record → Bool) → RecordScanner
open_scan filter = record { opened = true; filter = filter }

unfoldable pub close_scan : RecordScanner → RecordScanner
close_scan scanner = record { opened = false; filter = none }

abbrev pub passes : Option (Record → Bool) → Record → Bool
passes none rec = true
passes (some filter) rec = filter rec

-- The rounds of the loop on one page, with `n` slots left.
unfoldable pub next_in_page : ℕ → (Record → Bool) → RecordPage → Option ℕ → Outcome Record
next_in_page zero test page cursor = err record_eof
next_in_page (suc n) test page cursor = elim (Page.get_next_record page cursor) [
  | ok rec ↦
      let rest = next_in_page n test page (some (rec.rid.slot_num)) in
      if test rec then ok rec else rest
  | err rc ↦ err rc
  | fault ↦ fault
]

-- The loop over the pages, with `n` of them left; `last` is what the round before it got.
unfoldable pub next_in_pages :
    ℕ → (Record → Bool) → Pages → ℕ → Option ℕ → Outcome Record → Outcome Record
next_in_pages zero test pages page_num cursor last = last
next_in_pages (suc n) test pages page_num cursor last =
    let rest = λ (rc : Rc). next_in_pages n test pages (page_num + 1) none (err rc) in
    elim (pages page_num) [
      | inl rc ↦ if is_invalid_page rc then rest rc else err rc
      | inr page ↦ elim (next_in_page (page.record_capacity - next_slot cursor) test page cursor) [
        | ok rec ↦ ok rec
        | err rc ↦ if is_eof rc then rest rc else err rc
        | fault ↦ fault
      ]
    ]

-- `get_next_record` from a record; a slot number of -1 is `none`. It is the record itself that comes
-- back when its page lies behind the file's end.
unfoldable pub get_next_record : RecordScanner → RecordFile → Record → Option ℕ → Outcome Record
get_next_record scanner file rec cursor =
    let found =
      next_in_pages (file.page_count - rec.rid.page_num) (passes scanner.filter) file.pages
        rec.rid.page_num cursor (ok rec) in
    if scanner.opened
    then if file.page_count == 1 then err record_eof else found
    else err record_closed

unfoldable pub get_first_record : RecordScanner → RecordFile → Record → Outcome Record
unfolding get_next_record
get_first_record scanner file rec =
    get_next_record scanner file
      (record rec { rid = record { page_num = 1; slot_num = 2 ^ 32 - 1 } }) none
