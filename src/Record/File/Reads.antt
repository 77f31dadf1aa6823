-- ===== src/Record/File/Reads.antt =====
-- What `RecordFileHandler::get_record` finds after `insert_record`.
use miniob.Base.{ℕ, ◌<◌, ◌≡◌, ◌⊎◌, inl, inr, refl, ◌∙◌, ap, false, true, some, leb, arith, Memory}
use miniob.Rc.{Rc, ok}
use miniob.Record.{Rid, Record}
use miniob.Record.Page
use miniob.Record.Page.{RecordPage, live, record_at, is_full, init_empty_page}
use miniob.Record.Page.Insert.{Inserted}
use miniob.Record.File.{RecordFile, get_record}
use miniob.Record.File.Room.{IsLaidOut, fresh-real_size}
use miniob.Record.File.Insert.{Placed}

-- The slot that was taken is read back.
reads_slot :
    (before q : RecordPage) (src : Memory) (len : ℕ) (rid : Rid)
    → Inserted before src len q rid
    → Page.get_record q rid ≡ ok (record_at q rid)
unfolding Page.get_record
reads_slot before q src len rid e =
    let taken : live q rid.slot_num ≡ true = e.lives rid.slot_num e.within ∙ ground arith in
    let inside : leb q.record_capacity rid.slot_num ≡ false =
      ground (arith, e.within, e.capacity) in
    rw (inside, taken) refl

module _ (allocate_page : RecordFile → Rc ⊎ (RecordPage × ℕ)) (file after : RecordFile)
    (src : Memory) (size : ℕ) (rid : Rid)
    (laid : (n : ℕ) (page : RecordPage)
      → file.pages n ≡ inr page
      → IsLaidOut page × (page.page_num ≡ n) × (page.record_real_size ≡ size)) where
  abbrev Taken : RecordPage → Type 0
  Taken before =
      ((file.pages rid.page_num ≡ inr before) × (is_full before ≡ false))
      ⊎ ((searched : RecordFile) × (page : RecordPage) × (count : ℕ) × (searched.pages ≡ file.pages)
          × (allocate_page searched ≡ inr (page, count))
          × (before ≡ init_empty_page page size))

  real-size : (before : RecordPage) → Taken before → before.record_real_size ≡ size
  real-size before (inl (there, room)) = (laid rid.page_num before there).2
  real-size before (inr (searched, page, count, same, e, fresh)) =
      ap (λ p. p.record_real_size) fresh ∙ fresh-real_size page size

  -- A record that went into a page is read back from the file.
  pub get_record-Placed :
      Placed allocate_page file src size (ok rid, after)
      → (rec : Record) × (get_record after rid ≡ ok (some rec))
        × ((i : ℕ) → i < size → rec.bytes i ≡ src i)
  unfolding get_record
  get_record-Placed (before, q, taken, inserted, pages) =
      let at : after.pages rid.page_num ≡ inr q = pages rid.page_num ∙ ground arith in
      let real = real-size before taken in
      (
        record_at q rid,
        rw (at, get_record) (rw (reads_slot before q src 0 rid inserted, get_record)),
        λ i h. inserted.stored i (ground (arith, real)),
      )
