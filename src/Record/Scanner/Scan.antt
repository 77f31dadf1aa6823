-- ===== src/Record/Scanner/Scan.antt =====
-- Which record a scan of a file returns.
use miniob.Base.{
  ℕ, zero, suc, ◌+◌, ◌-◌, ◌≤◌, ◌<◌, ◌≡◌, ◌≢◌, ◌⊎◌, inl, inr, refl, Bool, true, false, Option, none,
  some, ◌==◌, if◌then◌else◌, arith, Bool-cases,
}
use miniob.Bitmap.Search.{First}
use miniob.Rc.{
  Rc, Outcome, ok, err, fault, bufferpool_invalid_page_num, record_eof, is_invalid_page,
  is_invalid_page-eq, is_invalid_page-ne,
}
use miniob.Record.{Record}
use miniob.Record.Page.{RecordPage, next_slot}
use miniob.Record.Page.Scan.{AtLive}
use miniob.Record.File.{Pages, RecordFile}
use miniob.Record.Scanner.{RecordScanner, passes, next_in_page, next_in_pages, get_next_record}
use miniob.Record.Scanner.Hits.{record_in, hit, NextHit, next_in_page-NextHit}

module _ (test : Record → Bool) where
  module _ (pages : Pages) where
    -- The slot from which the search looks at a page.
    abbrev pub from_slot : ℕ → Option ℕ → ℕ → ℕ
    from_slot first cursor q = if q == first then next_slot cursor else 0

    -- The pages before `q` hold no record of the search, and are there or not allocated.
    abbrev pub Skipped : ℕ → Option ℕ → ℕ → Type 0
    Skipped first cursor q =
        ((j : ℕ) (page : RecordPage)
          → first ≤ j
          → j < q
          → pages j ≡ inr page
          → First (hit test page) (from_slot first cursor j) page.record_capacity none)
        × ((j : ℕ) (rc : Rc)
            → first ≤ j
            → j < q
            → pages j ≡ inl rc
            → rc ≡ bufferpool_invalid_page_num)

    -- What the loop returns when the last page that it looked at is `q`.
    abbrev pub AtEnd : ℕ → Rc → Type 0
    AtEnd q rc =
        ((page : RecordPage) × (pages q ≡ inr page) × (rc ≡ record_eof))
        ⊎ ((pages q ≡ inl rc) × (rc ≡ bufferpool_invalid_page_num))

    -- The record found, or what ends the search: the code of a page that cannot be read, or that of
    -- the last page.
    abbrev pub NextRecord : ℕ → Option ℕ → ℕ → Outcome Record → Type 0
    NextRecord first cursor end (ok rec) =
        (q : ℕ) × (page : RecordPage) × (slot : ℕ) × (first ≤ q)
        × (q < end)
        × (pages q ≡ inr page)
        × (rec ≡ record_in page slot)
        × First (hit test page) (from_slot first cursor q) page.record_capacity (some slot)
        × Skipped first cursor q
    NextRecord first cursor end (err rc) =
        (Skipped first cursor end × AtEnd (end - 1) rc)
        ⊎ ((q : ℕ) × (first ≤ q)
            × (q < end)
            × (pages q ≡ inl rc)
            × (rc ≢ bufferpool_invalid_page_num)
            × Skipped first cursor q)
    NextRecord first cursor end fault = ⊥

    from_slot-later :
        (first : ℕ) (cursor : Option ℕ) (j : ℕ)
        → first + 1 ≤ j
        → from_slot first cursor j ≡ from_slot (first + 1) none j
    from_slot-later first cursor j l = ground arith

    from_slot-first :
        (first : ℕ) (cursor : Option ℕ) → from_slot first cursor first ≡ next_slot cursor
    from_slot-first first cursor = ground arith

    -- The first page holds no record of the search, or is not allocated.
    abbrev Passed : ℕ → Option ℕ → Rc ⊎ RecordPage → Type 0
    Passed first cursor (inl rc) = rc ≡ bufferpool_invalid_page_num
    Passed first cursor (inr page) =
        First (hit test page) (next_slot cursor) page.record_capacity none

    Skipped-cons :
        (first : ℕ) (cursor : Option ℕ) (q : ℕ)
        → Passed first cursor (pages first)
        → Skipped (first + 1) none q
        → Skipped first cursor q
    Skipped-cons first cursor q head (clear, invalid) = (
      λ j page l h e. elim (Bool-cases (j == first)) [
        | inl t ↦
            let same : j ≡ first = ground arith in
            let here : pages first ≡ inr page = rw same at e in
            rw (same, from_slot-first first cursor) (rw here at head)
        | inr t ↦
            rw (from_slot-later first cursor j (ground arith)) (clear j page (ground arith) h e)
      ],
      λ j rc l h e. elim (Bool-cases (j == first)) [
        | inl t ↦
            let same : j ≡ first = ground arith in
            let here : pages first ≡ inl rc = rw same at e in rw here at head
        | inr t ↦ invalid j rc (ground arith) h e
      ],
    )

    NextRecord-cons :
        (first : ℕ) (cursor : Option ℕ) (end : ℕ) (r : Outcome Record)
        → Passed first cursor (pages first)
        → NextRecord (first + 1) none end r
        → NextRecord first cursor end r
    NextRecord-cons first cursor end (ok rec) head (q, page, slot, l, h, e, at, f, s) = (
      q,
      page,
      slot,
      omega arith,
      h,
      e,
      at,
      rw (from_slot-later first cursor q l) f,
      Skipped-cons first cursor q head s,
    )
    NextRecord-cons first cursor end (err rc) head (inl (s, ended)) =
        inl (Skipped-cons first cursor end head s, ended)
    NextRecord-cons first cursor end (err rc) head (inr (q, l, h, e, ne, s)) =
        inr (q, omega arith, h, e, ne, Skipped-cons first cursor q head s)
    NextRecord-cons first cursor end fault head h = h

    -- The cursor stands on a record of the first page that is still there, or before them.
    abbrev pub AtRecord : ℕ → Option ℕ → Type 0
    AtRecord first cursor = (page : RecordPage) → pages first ≡ inr page → AtLive page cursor

    -- What the loop makes of the first page; the hypothesis is about the rest of it.
    step-NextRecord :
        (n first : ℕ) (cursor : Option ℕ) (last : Outcome Record) (end : ℕ)
        → AtRecord first cursor
        → first < end
        → ((rc : Rc)
            → Passed first cursor (pages first)
            → AtEnd first rc
            → NextRecord first cursor end (next_in_pages n test pages (first + 1) none (err rc)))
        → NextRecord first cursor end (next_in_pages (suc n) test pages first cursor last)
    unfolding next_in_pages
    step-NextRecord n first cursor last end at below rest = go (pages first) refl
      where
        none_before : Skipped first cursor first
        none_before = (λ j page l h e. absurd (omega arith), λ j rc l h e. absurd (omega arith))

        in_page :
            (page : RecordPage) (r : Outcome Record)
            → pages first ≡ inr page
            → next_in_page (page.record_capacity - next_slot cursor) test page cursor ≡ r
            → NextHit test page (next_slot cursor) r
            → NextRecord first cursor end (next_in_pages (suc n) test pages first cursor last)
        in_page page (ok rec) e f (slot, same, hits) =
            rw (e, f, next_in_pages)
              (
                first,
                page,
                slot,
                omega arith,
                below,
                e,
                same,
                rw (from_slot-first first cursor) hits,
                none_before,
              )
        in_page page (err rc) e f (eof, hits) =
            rw (e, f, eof, next_in_pages) (rest record_eof (rw e hits) (inl (page, e, refl)))
        in_page page fault e f h = absurd h

        go :
            (r : Rc ⊎ RecordPage)
            → pages first ≡ r
            → NextRecord first cursor end (next_in_pages (suc n) test pages first cursor last)
        go (inl rc) e = elim (Bool-cases (is_invalid_page rc)) [
          | inl t ↦
              let same = is_invalid_page-eq rc t in
              rw (e, t, next_in_pages) (rest rc (rw e same) (inr (e, same)))
          | inr t ↦
              rw (e, t, next_in_pages)
                (inr (first, omega arith, below, e, is_invalid_page-ne rc t, none_before))
        ]
        go (inr page) e =
            in_page page _ e refl
              (next_in_page-NextHit test _ page cursor (at page e) (omega arith))

    next_in_pages-NextRecord :
        (n first : ℕ) (cursor : Option ℕ) (last : Outcome Record)
        → AtRecord first cursor
        → NextRecord first cursor
            (first + suc n)
            (next_in_pages (suc n) test pages first cursor last)
    unfolding next_in_pages
    next_in_pages-NextRecord zero first cursor last at =
        step-NextRecord zero first cursor last (first + 1) at (omega arith) (λ rc head ended.
          let last_page : first + 1 - 1 ≡ first = omega arith in
          inl (
            Skipped-cons first cursor (first + 1) head
                (λ j page l h e. absurd (omega arith), λ j rc l h e. absurd (omega arith)),
            rw last_page ended,
          ))
    next_in_pages-NextRecord (suc n) first cursor last at =
        step-NextRecord (suc n) first cursor last (first + suc (suc n)) at (omega arith)
          (λ rc head ended. NextRecord-cons first cursor _ _ head (
            let e : first + 1 + suc n ≡ first + suc (suc n) = omega arith in
            rw e at (next_in_pages-NextRecord n (first + 1) none (err rc) (λ page h. tt))))

-- An open scan of a file with data pages, from before a page's records or from one that is still
-- there: `get_next_record` returns the first record after it, page by page and slot by slot, that
-- passes the filter. Otherwise it returns the code of the first page that cannot be read, if that is
-- not BUFFERPOOL_INVALID_PAGE_NUM; or there is no such record, and it returns RECORD_EOF if the last
-- page of the file is there and BUFFERPOOL_INVALID_PAGE_NUM if it is not allocated.
pub get_next_record-NextRecord :
    (scanner : RecordScanner) (file : RecordFile) (rec : Record) (cursor : Option ℕ)
    → scanner.opened ≡ true
    → file.page_count ≢ 1
    → rec.rid.page_num < file.page_count
    → AtRecord (passes scanner.filter) file.pages rec.rid.page_num cursor
    → NextRecord
        (passes scanner.filter)
        file.pages
        rec.rid.page_num
        cursor
        file.page_count
        (get_next_record scanner file rec cursor)
unfolding get_next_record
get_next_record-NextRecord scanner file rec cursor open_now several inside at =
    let first = rec.rid.page_num in
    let more : (file.page_count == 1) ≡ false = ground arith in
    let count : file.page_count - first ≡ suc (file.page_count - first - 1) = omega arith in
    let end : first + suc (file.page_count - first - 1) ≡ file.page_count = omega arith in
    rw (open_now, more, count)
      (rw end at (
        next_in_pages-NextRecord (passes scanner.filter) file.pages (file.page_count - first - 1)
          first cursor (ok rec) at))
