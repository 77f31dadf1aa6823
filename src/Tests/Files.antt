-- ===== src/Tests/Files.antt =====
-- Files of records at concrete inputs: one data page, for records of 16 bytes.
use miniob.Base.{
  ℕ, ◌≡◌, ◌⊎◌, inl, inr, refl, true, false, none, arith, ◌==◌, if◌then◌else◌, Bool-cases, IsBytes,
}
use miniob.Rc.{Rc, ok, err, is_success, bufferpool_invalid_page_num, record_closed}
use miniob.Record.{Record}
use miniob.Record.Page
use miniob.Record.Page.{RecordPage, is_full, init_empty_page}
use miniob.Record.File.{RecordFile, Pages, search_page, get_record}
use miniob.Record.File.Search.{Handled}
use miniob.Record.File.Room.{IsLaidOut, fresh_laid}
use miniob.Record.File.Lost.{at_page, search_page-misses}
use miniob.Record.Scanner.{RecordScanner, close_scan, get_next_record, get_first_record}
use miniob.Record.Scanner.Scan.{NextRecord, get_next_record-NextRecord}
use miniob.Tests.Records.{raw_page, empty_page, sevens, one_page, first_rid}

abbrev pub only : RecordPage → Pages
only page n = if n == 1 then inr page else inl bufferpool_invalid_page_num

abbrev pub file : RecordFile
file = record { pages = only empty_page; page_count = 2; held = none; attached = false }

pub file-Handled : Handled file
unfolding is_success
file-Handled = record {
  loaded = λ h e. cc;
  failing = λ n rc e. elim (Bool-cases (n == 1)) [
    | inl t ↦ let no : inr empty_page ≡ inl rc = rw t at e in cc
    | inr t ↦
        let code : inl bufferpool_invalid_page_num ≡ inl rc = rw t at e in
        let code' : bufferpool_invalid_page_num ≡ rc = cc in rw (← code') refl
  ];
}

empty_page-IsLaidOut : IsLaidOut empty_page
empty_page-IsLaidOut = fresh_laid raw_page 16 (λ i. omega arith) (omega arith) (omega arith)

pub file-laid :
    (n : ℕ) (page : RecordPage)
    → file.pages n ≡ inr page
    → IsLaidOut page × (page.page_num ≡ n) × (page.record_real_size ≡ 16)
unfolding init_empty_page
file-laid n page e = elim (Bool-cases (n == 1)) [
  | inl t ↦
      let there : inr empty_page ≡ inr page = rw t at e in
      let same : empty_page ≡ page = cc in rw (← same) (empty_page-IsLaidOut, ground arith, refl)
  | inr t ↦ let no : inl bufferpool_invalid_page_num ≡ inr page = rw t at e in cc
]

abbrev pub blank_page : RecordPage
blank_page = record raw_page { page_num = 2; content = λ _. 0 }

abbrev pub allocate_page : RecordFile → Rc ⊎ (RecordPage × ℕ)
allocate_page f = inr (blank_page, 3)

pub allocated :
    (f : RecordFile) (page : RecordPage) (count : ℕ)
    → allocate_page f ≡ inr (page, count)
    → IsBytes page.content
allocated f page count e i = let same : blank_page ≡ page = cc in rw (← same) (omega arith)

abbrev scanner : RecordScanner
scanner = record { opened = true; filter = none }

abbrev before_first : Record
before_first = record { rid = record { page_num = 1; slot_num = 0 }; bytes = sevens }

abbrev stored : RecordFile
stored = record file { pages = only one_page }

get_next_record-NextRecord_example :
    NextRecord
      (λ rec. true)
      stored.pages
      1
      none
      2
      (get_next_record scanner stored before_first none)
get_next_record-NextRecord_example =
    get_next_record-NextRecord scanner stored before_first none refl (omega arith) (omega arith)
      (λ page h. tt)

abbrev full_page : RecordPage
full_page = record raw_page {
  header = record (raw_page.header) { record_num = 5; record_capacity = 5 };
}

full_page-full : is_full full_page ≡ true
unfolding is_full
full_page-full = refl

search_page-misses_example :
    (search_page (at_page (λ n. if n == 3 then inr empty_page else inr full_page) 5 1)).0 ≡ ok false
search_page-misses_example =
    search_page-misses (λ n. if n == 3 then inr empty_page else inr full_page)
      (full_page, refl, full_page-full) (full_page, refl, full_page-full)
      (full_page, refl, full_page-full)

abbrev emptied : RecordFile
emptied = record stored {
  pages = λ i. if 1 == i then inl bufferpool_invalid_page_num else stored.pages i;
}

get_missing : get_record emptied first_rid ≡ ok none
unfolding get_record
get_missing = refl

first_of_closed : get_first_record (close_scan scanner) file before_first ≡ err record_closed
unfolding get_first_record close_scan
first_of_closed = refl
