-- ===== src/Record/File/Lost.antt =====
-- What the file's handler misses: a page with room that the search does not look at, and the error of a
-- page that is gone.
use miniob.Base.{
  ℕ, suc, ◌+◌, ◌%◌, ◌≡◌, ◌⊎◌, inl, inr, refl, ◌∙◌, ap, Bool, true, false, some, ◌==◌, if◌then◌else◌,
  arith, Bool-cases, Memory,
}
use miniob.Rc.{ok, err, success, bufferpool_invalid_page_num, record_record_not_exist}
use miniob.Record.{Rid}
use miniob.Record.Page
use miniob.Record.Page.{RecordPage, is_full}
use miniob.Record.File.{
  RecordFile, Pages, Reply, put_page, open_page, reach_page, held_page, look_at, find_page,
  start_page, search_page, update_record,
}

-- A full page among those that the search meets.
abbrev pub Full : Pages → ℕ → Type 0
Full pages n = (page : RecordPage) × (pages n ≡ inr page) × (is_full page ≡ true)

abbrev pub at_page : Pages → ℕ → ℕ → RecordFile
at_page pages count n = record { pages = pages; page_count = count; held = some n; attached = true }

-- What a round looks at, if it is a full page.
reaches_page :
    (count held next : ℕ) (pages : Pages) (page : RecordPage)
    → pages next ≡ inr page
    → reach_page (at_page pages count held) next ≡ (success, at_page pages count next)
unfolding reach_page open_page
reaches_page count held next pages page there = elim (Bool-cases (held == next)) [
  | inl t ↦
      let same : held ≡ next = ground arith in
      rw t (ap (λ h. (success, at_page pages count h)) same)
  | inr t ↦ rw (t, there)
]

looks_past :
    (count next : ℕ) (pages : Pages) (page : RecordPage) (rest : Reply Bool)
    → pages next ≡ inr page
    → is_full page ≡ true
    → look_at rest (at_page pages count next) ≡ rest
unfolding look_at held_page
looks_past count next pages page rest there full = rw (there, full, look_at)

-- A round that meets a full page.
next_round :
    (n count i current held next : ℕ) (pages : Pages)
    → (current + i) % count ≡ next
    → (next == 0) ≡ false
    → Full pages next
    → find_page (suc n) (at_page pages count held) i current
      ≡ find_page n (at_page pages count next) (i + 1) next
unfolding find_page
next_round n count i current held next pages e data_page (page, there, full) =
    rw (e, data_page, reaches_page count held next pages page there)
      (looks_past count next pages page _ there full)

-- In a file of four data pages whose first one is held, `insert_record` never looks at the third: with
-- the others full it finds no room, whatever the third page is.
pub search_page-misses :
    (pages : Pages)
    → Full pages 1
    → Full pages 2
    → Full pages 4
    → (search_page (at_page pages 5 1)).0 ≡ ok false
unfolding search_page start_page find_page
search_page-misses pages one two four =
    ap (λ r. r.0)
      (next_round 4 5 0 1 1 1 pages refl refl one
        ∙ next_round 3 5 1 1 1 2 pages refl refl two
        ∙ next_round 2 5 2 2 2 4 pages refl refl four
        ∙ next_round 1 5 3 4 4 2 pages refl refl two
        ∙ next_round 0 5 4 2 2 1 pages refl refl one)

module _ (file : RecordFile) (rid : Rid) (src : Memory) where
  abbrev kept : RecordPage → RecordFile
  kept q = record file { pages = put_page file.pages rid.page_num q }

  abbrev gone : RecordFile
  gone = record file {
    pages = λ i. if rid.page_num == i then inl bufferpool_invalid_page_num else file.pages i;
  }

  -- What `update_record` does after a record is deleted.
  abbrev pub Refused : RecordFile → Type 0
  Refused after =
      (update_record after (record { rid = rid; bytes = src }) ≡ err record_record_not_exist)
      ⊎ ((after.pages rid.page_num ≡ inl bufferpool_invalid_page_num)
          × (update_record after (record { rid = rid; bytes = src }) ≡ ok after))
